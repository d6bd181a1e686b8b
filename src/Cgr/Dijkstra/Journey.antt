-- ===== src/Cgr/Dijkstra/Journey.antt =====
-- What route computation is about, with no search: the journeys of data through the contact plan.
use cgr_jni.Base.{ℕ, ◌≡◌, ◌≤◌, ◌<◌, false, some, List, [], ◌∷◌, ◌++◌, ◌∈◌, arith}
use cgr_jni.Plan.{Contact, Range}
use cgr_jni.Cgr.Ranges.{get_applicable_range}
use cgr_jni.Cgr.Note.{Notes, min_capacity, contact_capacity, arrival_over}

-- Arriving earlier at the sending node never means arriving later at the receiving one.
pub arrival_over_mono :
    (t u : ℕ) (c : Contact) (owlt : ℕ) → t ≤ u → arrival_over t c owlt ≤ arrival_over u c owlt
unfolding arrival_over
arrival_over_mono t u c owlt h = ground arith

pub le-arrival_over : (t : ℕ) (c : Contact) (owlt : ℕ) → t ≤ arrival_over t c owlt
unfolding arrival_over
le-arrival_over t c owlt = ground arith

-- A contact that the search may use: not suppressed, and of enough capacity for the class.
pub record Usable (notes : Notes) (payload_class : ℕ) (c : Contact) : Type 0 where
  pub free : (notes c.addr).suppressed ≡ false
  pub capacity : min_capacity payload_class ≤ contact_capacity c

-- Data that is at the sending node of `c` from time `t` on can be sent over `c`, with this light
-- time.
pub record Edge (ranges : List Range) (index : List Contact) (notes : Notes) (payload_class : ℕ)
    (node t : ℕ) (c : Contact) (owlt : ℕ) : Type 0 where
  pub member : c ∈ index
  pub joined : c.from_node ≡ node
  pub open_at : t < c.to_time
  pub usable : Usable notes payload_class c
  pub light_time : get_applicable_range ranges c ≡ some owlt

module _ (ranges : List Range) (index : List Contact) (notes : Notes) (payload_class : ℕ)
    (root : Contact) (start : ℕ) where
  -- `Journey c t hops`: data that is at the root at time `start` can travel over `hops`, of which
  -- `c` is the last, and arrive at time `t`.
  pub data Journey : Contact → ℕ → List Contact → Type 0 where
    begin : Journey root start []
    hop :
        {p : Contact} {t : ℕ} {hops : List Contact} (c : Contact) (owlt : ℕ)
        → Journey p t hops
        → Edge ranges index notes payload_class p.to_node t c owlt
        → Journey c (arrival_over t c owlt) (hops ++ (c ∷ []))
