-- ===== src/Rfx/Orders.antt =====
-- The compare functions of the trees of rfx.c.
use cgr_jni.Base.{◌+◌, ◌<◌, ◌≡◌, ◌⊎◌, inl, inr, arith}
use Prim.Native.Nat.{Ordering}
use cgr_jni.Base.Int.{pos_part, neg_part, eq_of_parts}
use cgr_jni.Rbt.Sorted.{IsOrder}
use cgr_jni.Rfx.{EventType, Event, event_code, order_numbers, order_events}

pub order_numbers-IsOrder : IsOrder order_numbers
unfolding order_numbers
order_numbers-IsOrder = record {
  same = λ a. ground arith;
  flip = λ a b e. ground arith;
  trans = λ a b c p q. ground arith;
  equal = λ a b e. ground arith;
}

event_code_inj : (a b : EventType) → event_code a ≡ event_code b → a ≡ b
unfolding event_code
event_code_inj a b e = ground arith

events_same : (a : Event) → order_events a a ≡ Ordering.eq
unfolding order_events
events_same a = ground arith

events_flip : (a b : Event) → order_events a b ≡ Ordering.gt → order_events b a ≡ Ordering.lt
unfolding order_events
events_flip a b e = ground arith

-- The order of events, written out.
abbrev Before : Event → Event → Type 0
Before a b =
    let ab = pos_part a.time + neg_part b.time in
    let ba = pos_part b.time + neg_part a.time in
    (ab < ba)
    ⊎ ((ab ≡ ba)
        × ((event_code a.type < event_code b.type)
            ⊎ ((event_code a.type ≡ event_code b.type) × (a.ref < b.ref))))

order_events-Before : (a b : Event) → order_events a b ≡ Ordering.lt → Before a b
unfolding order_events
order_events-Before a b p = ground arith

Before-order_events : (a b : Event) → Before a b → order_events a b ≡ Ordering.lt
unfolding order_events
Before-order_events a b p = ground arith

Before-trans : (a b c : Event) → Before a b → Before b c → Before a c
Before-trans a b c p q = elim p [
  | inl l ↦ inl (elim q [ inl k ↦ omega arith | inr k ↦ omega arith ])
  | inr l ↦ elim q [
    | inl k ↦ inl (omega arith)
    | inr k ↦ inr (
      omega arith,
      elim l.1 [
        | inl m ↦ inl (elim k.1 [ inl n ↦ omega arith | inr n ↦ omega arith ])
        | inr m ↦ elim k.1 [ inl n ↦ inl (omega arith) | inr n ↦ inr (omega arith, omega arith) ]
      ],
    )
  ]
]

events_trans :
    (a b c : Event)
    → order_events a b ≡ Ordering.lt
    → order_events b c ≡ Ordering.lt
    → order_events a c ≡ Ordering.lt
events_trans a b c p q =
    Before-order_events a c
      (Before-trans a b c (order_events-Before a b p) (order_events-Before b c q))

events_equal : (a b : Event) → order_events a b ≡ Ordering.eq → a ≡ b
unfolding order_events
events_equal a b e = ground (arith, eq_of_parts a.time b.time, event_code_inj a.type b.type)

pub order_events-IsOrder : IsOrder order_events
order_events-IsOrder = record {
  same = events_same;
  flip = events_flip;
  trans = events_trans;
  equal = events_equal;
}
