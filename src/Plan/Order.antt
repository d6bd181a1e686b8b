-- ===== src/Plan/Order.antt =====
-- The order of the indexes of contacts and ranges.
use cgr_jni.Base.{◌≡◌, ◌≤◌, arith}
use Prim.Native.Nat.{Ordering}
use cgr_jni.Rbt.Sorted.{IsOrder}
use cgr_jni.Plan.{Key, order_keys}

infix 50 ◌≺◌
abbrev pub ◌≺◌ : Key → Key → Type 0
a ≺ b = order_keys a b ≡ Ordering.lt

pub order_refl : (a : Key) → order_keys a a ≡ Ordering.eq
unfolding order_keys
order_refl a = ground arith

pub order-gt : (a b : Key) → order_keys a b ≡ Ordering.gt → b ≺ a
unfolding order_keys
order-gt a b e = ground arith

pub ≺_trans : (a b c : Key) → a ≺ b → b ≺ c → a ≺ c
unfolding order_keys
≺_trans a b c p q = ground arith

pub from_node-le : (a b : Key) → a ≺ b → a.from_node ≤ b.from_node
unfolding order_keys
from_node-le a b p = ground arith

pub ≺_asym : (a b : Key) → a ≺ b → ¬ (b ≺ a)
unfolding order_keys
≺_asym a b p q = ground arith

order_equal : (a b : Key) → order_keys a b ≡ Ordering.eq → a ≡ b
unfolding order_keys
order_equal a b e = ground arith

pub order_keys-IsOrder : IsOrder order_keys
order_keys-IsOrder = record {
  same = order_refl;
  flip = order-gt;
  trans = ≺_trans;
  equal = order_equal;
}
