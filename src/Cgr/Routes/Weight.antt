-- ===== src/Cgr/Routes/Weight.antt =====
-- A bound on the rounds that are left to the loop of `loadRouteList`: each suppresses a contact more, and
-- what `endAnchoredSearch` takes back it pays for with the anchor, which stays suppressed.
use cgr_jni.Base.{
  ℕ, ◌+◌, ◌*◌, ◌≡◌, ◌≢◌, ◌≤◌, ◌<◌, ◌⊎◌, inl, inr, List, length, ◌∈◌, arith, Bool, true, false, not,
  if◌then◌else◌, Option, none, some, ◌==◌, Bool-cases,
}
use cgr_jni.Plan.{Contact}
use cgr_jni.Cgr.Note.{Notes}
use cgr_jni.Cgr.Routes.{Load}
use cgr_jni.Cgr.Routes.Count.{
  count, Grows, count_falls, count_lt, count-le-length, lex_first, lex_second,
}

module _ (index : List Contact) (local_node : ℕ) where
  unfoldable pub is_own : Contact → Bool
  is_own c = c.from_node == local_node

  pub is_other : Contact → Bool
  unfolding is_own
  is_other c = not (is_own c)

  unfoldable pub credit : Load → ℕ
  credit s = elim s.anchor [ none ↦ 0 | some a ↦ if (s.notes a.addr).suppressed then 1 else 0 ]

  -- A bound on the rounds that are left.
  pub weight : Load → ℕ
  unfolding is_own is_other credit
  weight s =
      (2 * count is_own s.notes index + credit s) * (length index + 1)
      + count is_other s.notes index

  abbrev pub Anchored : Option Contact → Type 0
  Anchored anchor =
      (anchor ≡ none)
      ⊎ ((a : Contact) × (anchor ≡ some a) × (a ∈ index) × (a.from_node ≡ local_node))

  pub credit_le : (s : Load) → credit s ≤ 1
  unfolding credit
  credit_le s = ground arith

  weight_own :
      (s s' : Load)
      → count is_own s'.notes index < count is_own s.notes index
      → weight s' < weight s
  unfolding weight
  weight_own s s' lt =
      lex_first (2 * count is_own s'.notes index + credit s')
        (2 * count is_own s.notes index + credit s) (count is_other s'.notes index)
        (count is_other s.notes index) (length index) (omega (arith, credit_le s'))
        (count-le-length is_other s'.notes index)

  pub weight-credit :
      (s s' : Load)
      → count is_own s'.notes index ≤ count is_own s.notes index
      → credit s' < credit s
      → weight s' < weight s
  unfolding weight
  weight-credit s s' le lt =
      lex_first (2 * count is_own s'.notes index + credit s')
        (2 * count is_own s.notes index + credit s) (count is_other s'.notes index)
        (count is_other s.notes index) (length index) (omega arith)
        (count-le-length is_other s'.notes index)

  weight_other :
      (s s' : Load)
      → count is_own s'.notes index ≤ count is_own s.notes index
      → credit s' ≡ 0
      → count is_other s'.notes index < count is_other s.notes index
      → weight s' < weight s
  unfolding weight
  weight_other s s' le none_left lt =
      lex_second (2 * count is_own s'.notes index + credit s')
        (2 * count is_own s.notes index + credit s) (count is_other s'.notes index)
        (count is_other s.notes index) (length index) (omega arith) lt

  -- The contacts of the index are suppressed as before, and `limit` is too.
  abbrev pub Suppresses : Contact → Notes → Notes → Type 0
  Suppresses limit notes notes' =
      (c : Contact)
      → c ∈ index
      → (notes' c.addr).suppressed
        ≡ (if c.addr == limit.addr then true else (notes c.addr).suppressed)

  pub Suppresses-weight :
      (s s' : Load) (limit : Contact)
      → limit ∈ index
      → (s.notes limit.addr).suppressed ≡ false
      → Suppresses limit s.notes s'.notes
      → (limit.from_node ≢ local_node → credit s' ≡ 0)
      → weight s' < weight s
  unfolding is_own is_other
  Suppresses-weight s s' limit m free sup paid = elim (Bool-cases (limit.from_node == local_node)) [
    | inl own ↦
        weight_own s s' (count_lt is_own s.notes s'.notes limit index (grows is_own) m own free now)
    | inr other ↦
        weight_other s s' (count_falls is_own s.notes s'.notes index (grows is_own))
          (paid (ground arith))
          (count_lt is_other s.notes s'.notes limit index (grows is_other) m (ground arith) free
            now)
  ]
    where
      grows : (P : Contact → Bool) → Grows P s.notes s'.notes index
      grows P c mc counts was = ground (arith, sup c mc)

      now : (s'.notes limit.addr).suppressed ≡ true
      now = ground (arith, sup limit m)

  -- An anchored search ends: initial contacts stay suppressed and the anchor is.
  pub ends-weight :
      (s s' : Load) (anchor : Contact)
      → anchor ∈ index
      → anchor.from_node ≡ local_node
      → s.anchor ≡ some anchor
      → s'.anchor ≡ none
      → Grows is_own s.notes s'.notes index
      → (s'.notes anchor.addr).suppressed ≡ true
      → weight s' < weight s
  unfolding credit is_own
  ends-weight s s' anchor m own set gone grows now =
      elim (Bool-cases (s.notes anchor.addr).suppressed) [
        | inl was ↦
            weight-credit s s' (count_falls is_own s.notes s'.notes index grows)
              (ground (arith, set, gone, was))
        | inr free ↦
            weight_own s s'
              (count_lt is_own s.notes s'.notes anchor index grows m (ground arith) free now)
      ]

  pub weight_bound :
      (s : Load) → credit s ≡ 0 → weight s < (2 * length index + 1) * (length index + 1)
  unfolding weight
  weight_bound s e =
      let few = count-le-length is_own s.notes index in
      omega (
        arith,
        lex_first (2 * count is_own s.notes index + credit s) (2 * length index + 1)
            (count is_other s.notes index) 0 (length index) (omega arith)
            (count-le-length is_other s.notes index),
      )
