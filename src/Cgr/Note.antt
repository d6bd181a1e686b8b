-- ===== src/Cgr/Note.antt =====
-- The working values that a Dijkstra run keeps for each contact: `CgrContactNote` of
-- bp/cgr/libcgr.c, reached in C through the contact's `routingObject`.
--
-- `Notes` is the memory that holds them, by the address of the contact. Both callers of the search
-- give every contact of the index a note before it starts, so no note is missing.
use cgr_jni.Base.{
  ℕ, ◌+◌, ◌-◌, ◌*◌, ◌/◌, ◌%◌, ◌^◌, Bool, if◌then◌else◌, ltb, ◌==◌, Option, ◌<◌, arith,
}
use cgr_jni.Plan.{Contact}

-- `predecessor` is `none` where the pointer is NULL.
pub record Note : Type 0 where
  pub predecessor : Option Contact
  pub capacity : ℕ
  pub arrival_time : ℕ
  pub visited : Bool
  pub suppressed : Bool

abbrev pub Notes : Type 0
Notes = ℕ → Note

unfoldable pub update : Notes → ℕ → Note → Notes
update notes addr note a = if a == addr then note else notes a

-- `MAX_TIME`
abbrev pub max_time : ℕ
max_time = 2_147_483_647

-- `(uvast) -1`
abbrev pub max_uvast : ℕ
max_uvast = 18_446_744_073_709_551_615

unfoldable pub min_capacity : ℕ → ℕ
min_capacity payload_class =
    if payload_class == 0
    then 1024
    else if payload_class == 1
    then 1_048_576
    else if payload_class == 2
    then 1_073_741_824
    else max_uvast

-- `contact->xmitRate * (contact->toTime - contact->fromTime)` as a 64-bit word.
unfoldable pub contact_capacity : Contact → ℕ
contact_capacity c = (c.xmit_rate * ((c.to_time + 2 ^ 64 - c.from_time) % 2 ^ 64)) % 2 ^ 64

-- The light time with its margin, in 32-bit arithmetic: MAX_SPEED_MPH / 3600 is 41.
unfoldable pub with_margin : ℕ → ℕ
with_margin owlt = (owlt + ((41 * owlt) % 2 ^ 32) / 186_282) % 2 ^ 32

-- When data that is at the sending node at time `now` arrives over the contact.
unfoldable pub arrival_over : ℕ → Contact → ℕ → ℕ
unfolding with_margin
arrival_over now contact owlt =
    (if ltb contact.from_time now then now else contact.from_time) + with_margin owlt

pub min_capacity_pos : (payload_class : ℕ) → 0 < min_capacity payload_class
unfolding min_capacity
min_capacity_pos payload_class = ground arith
