-- ===== src/Rfx/Overlap.antt =====
-- The two neighbors in the index that rfx_insert_contact looks at for an overlap.
use Prim.Native.Nat.{Ordering}
use mathlib.Core.Bool.{false≢true}
use cgr_jni.Base.{
  All-mem, Option-cases, ◌∙◌, ◌||◌, ◌≡◌, ◌≤◌, ◌<◌, ◌⊎◌, ◌↔◌, inl, inr, refl, sym, ap, subst, Bool,
  true, none, some, List, [], ◌∷◌, ◌∈◌, arith,
}
use cgr_jni.Plan.{Key, order_keys}
use cgr_jni.Plan.Order.{◌≺◌}
use cgr_jni.Plan.Between.{between}
use cgr_jni.Rbt.{find, successors, predecessors, last}
use cgr_jni.Rbt.Sorted.{IsSorted}
use cgr_jni.Rbt.Places
use cgr_jni.Rfx.{Cxref, cxref_key, order_cxrefs}
use cgr_jni.Plan.Order.{order_keys-IsOrder}
use cgr_jni.Rfx.Contacts.{runs_into, starts_within, first, prev_elt, overlaps}

-- The contact index between two calls.
pub record IsContactPlan (index : List Cxref) : Type 0 where
  pub sorted : IsSorted order_keys cxref_key index
  pub proper : (c : Cxref) → c ∈ index → (0 < c.from_time) × (c.from_time < c.to_time)
  pub disjoint :
      (c d : Cxref)
      → c ∈ index
      → d ∈ index
      → c.from_node ≡ d.from_node
      → c.to_node ≡ d.to_node
      → c.from_time < d.from_time
      → c.to_time ≤ d.from_time

-- Both contacts have the same nodes, and a time in common.
abbrev pub Meets : Cxref → Cxref → Type 0
Meets arg c =
    (arg.from_node ≡ c.from_node)
    × (arg.to_node ≡ c.to_node)
    × (c.from_time < arg.to_time)
    × (arg.from_time < c.to_time)

pub from_time-lt :
    (a b : Key)
    → a ≺ b
    → a.from_node ≡ b.from_node
    → a.to_node ≡ b.to_node
    → a.from_time < b.from_time
unfolding order_keys
from_time-lt a b p e f = ground arith

or_cases : (a b : Bool) → (a || b) ≡ true → (a ≡ true) ⊎ (b ≡ true)
or_cases a b h = ground arith

or_left : (a b : Bool) → a ≡ true → (a || b) ≡ true
or_left a b h = ground arith

or_right : (a b : Bool) → b ≡ true → (a || b) ≡ true
or_right a b h = ground arith

runs_into_iff :
    (arg c : Cxref)
    → (runs_into arg (some c) ≡ true)
      ↔ ((arg.from_node ≡ c.from_node) × (arg.to_node ≡ c.to_node) × (c.from_time < arg.to_time))
unfolding runs_into
runs_into_iff arg c = ground arith

starts_within_iff :
    (arg c : Cxref)
    → (starts_within arg (some c) ≡ true)
      ↔ ((arg.from_node ≡ c.from_node) × (arg.to_node ≡ c.to_node) × (arg.from_time < c.to_time))
unfolding starts_within
starts_within_iff arg c = ground arith

module _ (arg : Cxref) (index : List Cxref) (plan : IsContactPlan index) where
  abbrev key : Key
  key = cxref_key arg

  abbrev before : List Cxref
  before = predecessors order_cxrefs key index

  abbrev behind : List Cxref
  behind = successors order_cxrefs key index

  prev_elt_lem : find order_cxrefs key index ≡ none → prev_elt key index ≡ last before
  prev_elt_lem e = go behind refl
    where
      go :
          (later : List Cxref)
          → behind ≡ later
          → elim later [ [] ↦ last index | _ ∷ _ ↦ last before ] ≡ last before
      go [] b = ap last (sym (Places.predecessors_all order_keys cxref_key key index e b))
      go (_ ∷ _) b = refl

  behind_arg : (c : Cxref) → c ∈ behind → (c ∈ index) × (key ≺ cxref_key c)
  behind_arg c m =
      Places.successors-behind order_keys cxref_key order_keys-IsOrder key index c plan.sorted m

  before_arg : (c : Cxref) → c ∈ before → (c ∈ index) × (cxref_key c ≺ key)
  before_arg c m = Places.predecessors-before order_keys cxref_key key index c m

  starts_within_found :
      (c q : Cxref)
      → c ∈ before
      → q ∈ before
      → Meets arg c
      → (c ≡ q) ⊎ (cxref_key c ≺ cxref_key q)
      → starts_within arg (some q) ≡ true
  starts_within_found c q c_in q_in (e, f, g, h) (inl same) =
      subst (λ x. starts_within arg (some x) ≡ true) same ((starts_within_iff arg c).1 (e, f, h))
  starts_within_found c q c_in q_in (e, f, g, h) (inr less) =
      let (c_index, c_before) = before_arg c c_in in
      let (q_index, q_before) = before_arg q q_in in
      let (e', f') = between (cxref_key c) (cxref_key q) key less q_before (sym e) (sym f) in
      absurd (
        omega (
          arith,
          h,
          plan.disjoint c q c_index q_index e' f'
              (from_time-lt (cxref_key c) (cxref_key q) less e' f'),
          from_time-lt (cxref_key q) key q_before (sym e' ∙ sym e) (sym f' ∙ sym f),
        ))

  previous_found : (c : Cxref) → c ∈ before → Meets arg c → starts_within arg (last before) ≡ true
  previous_found c m h =
      let (q, last_q) = Places.last-some before c m in
      let q_in = Places.last-mem before q last_q in
      let s = Places.predecessors-IsSorted order_keys cxref_key key index plan.sorted in
      subst (λ x. starts_within arg x ≡ true) (sym last_q)
        (starts_within_found c q m q_in h
          (Places.last_greatest order_keys cxref_key before q c s last_q m))

  next_found : (c : Cxref) → c ∈ behind → Meets arg c → runs_into arg (first behind) ≡ true
  next_found c m (e, f, g, h) = go behind refl m
    where
      meets_first :
          (n : Cxref)
          → n ∈ behind
          → (c ≡ n) ⊎ (cxref_key n ≺ cxref_key c)
          → runs_into arg (some n) ≡ true
      meets_first n n_in (inl same) =
          subst (λ x. runs_into arg (some x) ≡ true) same ((runs_into_iff arg c).1 (e, f, g))
      meets_first n n_in (inr less) =
          let (e', f') = between key (cxref_key n) (cxref_key c) (behind_arg n n_in).1 less e f in
          let t = from_time-lt (cxref_key n) (cxref_key c) less (sym e' ∙ e) (sym f' ∙ f) in
          (runs_into_iff arg n).1 (e', f', omega (arith, g, t))

      go : (later : List Cxref) → behind ≡ later → c ∈ later → runs_into arg (first later) ≡ true
      go [] b k = absurd k
      go (n ∷ later) b k =
          let s =
            subst (IsSorted order_keys cxref_key) b
              (Places.successors-IsSorted order_keys cxref_key key index plan.sorted) in
          meets_first n (subst (λ xs. n ∈ xs) (sym b) (inl refl)) (elim k [
            | inl same ↦ inl same
            | inr later_in ↦ inr (
                All-mem (λ z. order_keys (cxref_key n) (cxref_key z) ≡ Ordering.lt) c later s.0
                  later_in)
          ])

  runs_into-Meets :
      runs_into arg (first behind) ≡ true
      → arg.from_time < arg.to_time
      → (c : Cxref) × (c ∈ index) × Meets arg c
  unfolding runs_into
  runs_into-Meets h t = go behind refl h
    where
      go :
          (later : List Cxref)
          → behind ≡ later
          → runs_into arg (first later) ≡ true
          → (c : Cxref) × (c ∈ index) × Meets arg c
      go [] b k = absurd (false≢true k)
      go (n ∷ later) b k =
          let (n_in, n_behind) = behind_arg n (subst (λ xs. n ∈ xs) (sym b) (inl refl)) in
          let (e, f, g) = (runs_into_iff arg n).0 k in
          (
            n,
            n_in,
            (
              e,
              f,
              g,
              omega (arith, from_time-lt key (cxref_key n) n_behind e f, (plan.proper n n_in).1),
            ),
          )

  starts_within-Meets :
      starts_within arg (last before) ≡ true
      → arg.from_time < arg.to_time
      → (c : Cxref) × (c ∈ index) × Meets arg c
  unfolding starts_within
  starts_within-Meets h t = elim (Option-cases (last before)) [
    | inl e ↦ absurd (false≢true (subst (λ x. starts_within arg x ≡ true) e h))
    | inr (q, e) ↦
        let (q_in, q_before) = before_arg q (Places.last-mem before q e) in
        let (f, g, k) = (starts_within_iff arg q).0 (subst (λ x. starts_within arg x ≡ true) e h) in
        (
          q,
          q_in,
          (f, g, omega (arith, t, from_time-lt (cxref_key q) key q_before (sym f) (sym g)), k),
        )
  ]

  -- In an index that is in order and free of overlaps, and that does not hold the key of the new
  -- contact, the test on the two neighbors of the key finds an overlap if and only if some contact
  -- of the index overlaps with the new one.
  pub overlaps_iff :
      find order_cxrefs key index ≡ none
      → arg.from_time < arg.to_time
      → (overlaps arg index ≡ true) ↔ ((c : Cxref) × (c ∈ index) × Meets arg c)
  unfolding overlaps
  overlaps_iff absent t = (to, back)
    where
      to : overlaps arg index ≡ true → (c : Cxref) × (c ∈ index) × Meets arg c
      to h =
          elim (or_cases (runs_into arg (first behind)) (starts_within arg (prev_elt key index))
            h) [
              | inl runs ↦ runs_into-Meets runs t
              | inr starts ↦
                  starts_within-Meets
                    (subst (λ x. starts_within arg x ≡ true) (prev_elt_lem absent) starts) t
            ]

      back : (c : Cxref) × (c ∈ index) × Meets arg c → overlaps arg index ≡ true
      back (c, m, meets) = elim (Places.two_sides order_keys cxref_key key index c absent m) [
        | inl b ↦ or_right (runs_into arg (first behind)) (starts_within arg (prev_elt key index)) (
            subst (λ x. starts_within arg x ≡ true) (sym (prev_elt_lem absent))
              (previous_found c b meets))
        | inr b ↦
            or_left (runs_into arg (first behind)) (starts_within arg (prev_elt key index))
              (next_found c b meets)
      ]
