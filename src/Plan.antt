-- ===== src/Plan.antt =====
-- The contact plan as route computation reads it: the contacts and ranges of ici/include/ion.h,
-- and the order of the red-black trees that index them (ici/library/rfx.c).
--
-- A tree is modelled by the list of its data from first to last; a position in it is the rest of
-- the list from there on, so that `sm_rbt_next` is the tail. `addr` is the PsmAddress of a
-- contact, by which the C code tells contacts apart.
pub mod Order
pub mod Index
pub mod Between
unfoldable pub use cgr_jni.Rbt.{find, successors}
use cgr_jni.Base.{ℕ, ltb, if◌then◌else◌}
use Prim.Native.Nat.{Ordering}

-- The fields that the trees are ordered by.
pub record Key : Type 0 where
  pub from_node : ℕ
  pub to_node : ℕ
  pub from_time : ℕ

pub record Contact : Type 0 where
  pub addr : ℕ
  pub from_node : ℕ
  pub to_node : ℕ
  pub from_time : ℕ
  pub to_time : ℕ
  pub xmit_rate : ℕ

pub record Range : Type 0 where
  pub from_node : ℕ
  pub to_node : ℕ
  pub from_time : ℕ
  pub to_time : ℕ
  pub owlt : ℕ

abbrev pub contact_key : Contact → Key
contact_key c = record { from_node = c.from_node; to_node = c.to_node; from_time = c.from_time }

abbrev pub range_key : Range → Key
range_key r = record { from_node = r.from_node; to_node = r.to_node; from_time = r.from_time }

-- The C functions return -1, 1 and 0 for `lt`, `gt` and `eq`.
unfoldable pub order_keys : Key → Key → Ordering
order_keys a b =
    if ltb a.from_node b.from_node
    then Ordering.lt
    else if ltb b.from_node a.from_node
    then Ordering.gt
    else if ltb a.to_node b.to_node
    then Ordering.lt
    else if ltb b.to_node a.to_node
    then Ordering.gt
    else if ltb a.from_time b.from_time
    then Ordering.lt
    else if ltb b.from_time a.from_time
    then Ordering.gt
    else Ordering.eq

unfoldable pub order_contacts : Contact → Key → Ordering
unfolding order_keys
order_contacts contact arg = order_keys (contact_key contact) arg

unfoldable pub order_ranges : Range → Key → Ordering
unfolding order_keys
order_ranges range arg = order_keys (range_key range) arg
