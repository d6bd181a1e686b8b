-- ===== src/Rbt/Places.antt =====
-- The place of a key in a tree: its predecessors, its successors, and its two neighbors there.
use Prim.Native.Nat.{Ordering}
use cgr_jni.Base.{
  ◌≡◌, ◌⊎◌, refl, sym, subst, inl, inr, none, some, List, [], ◌∷◌, ◌∈◌, All, All-mem, arith,
}
use cgr_jni.Rbt.{find, successors, predecessors, last}
use cgr_jni.Rbt.Sorted.{IsOrder, IsSorted, compare}

module _ {A : Type 0} where
  pub last-mem : (xs : List A) (y : A) → last xs ≡ some y → y ∈ xs
  unfolding last
  last-mem [] y e = cc
  last-mem (x ∷ []) y e = inl (ground arith)
  last-mem (x ∷ z ∷ xs) y e = inr (last-mem (z ∷ xs) y e)

  pub last-some : (xs : List A) (y : A) → y ∈ xs → (z : A) × (last xs ≡ some z)
  unfolding last
  last-some [] y m = absurd m
  last-some (x ∷ []) y m = (x, refl)
  last-some (x ∷ z ∷ xs) y m = last-some (z ∷ xs) z (inl refl)

module _ {A K : Type 0} (cmp : K → K → Ordering) (key : A → K) where
  abbrev step : A → K → Ordering
  step = compare cmp key

  pub last_greatest :
      (xs : List A) (y z : A)
      → IsSorted cmp key xs
      → last xs ≡ some y
      → z ∈ xs
      → (z ≡ y) ⊎ (cmp (key z) (key y) ≡ Ordering.lt)
  unfolding last
  last_greatest [] y z s e m = absurd m
  last_greatest (x ∷ []) y z s e m = inl (ground arith)
  last_greatest (x ∷ w ∷ xs) y z s e (inl m) = inr (
      subst (λ v. cmp (key v) (key y) ≡ Ordering.lt) (sym m)
        (All-mem (λ v. cmp (key x) (key v) ≡ Ordering.lt) y (w ∷ xs) s.0 (last-mem (w ∷ xs) y e)))
  last_greatest (x ∷ w ∷ xs) y z s e (inr m) = last_greatest (w ∷ xs) y z s.1 e m

  pub two_sides :
      (arg : K) (xs : List A) (z : A)
      → find step arg xs ≡ none
      → z ∈ xs
      → (z ∈ predecessors step arg xs) ⊎ (z ∈ successors step arg xs)
  unfolding find predecessors successors
  two_sides arg [] z e m = absurd m
  two_sides arg (x ∷ xs) z e m = ground (arith, two_sides arg xs z)

  pub predecessors_all :
      (arg : K) (xs : List A)
      → find step arg xs ≡ none
      → successors step arg xs ≡ []
      → predecessors step arg xs ≡ xs
  unfolding find predecessors successors
  predecessors_all arg [] e n = refl
  predecessors_all arg (x ∷ xs) e n = ground (arith, predecessors_all arg xs)

  pub predecessors-before :
      (arg : K) (xs : List A) (z : A)
      → z ∈ predecessors step arg xs
      → (z ∈ xs) × (cmp (key z) arg ≡ Ordering.lt)
  unfolding predecessors
  predecessors-before arg [] z m = absurd m
  predecessors-before arg (x ∷ xs) z m = ground (arith, predecessors-before arg xs z)

  predecessors-All :
      (P : A → Type 0) (arg : K) (xs : List A) → All P xs → All P (predecessors step arg xs)
  unfolding predecessors
  predecessors-All P arg [] h = tt
  predecessors-All P arg (x ∷ xs) h = ground (arith, predecessors-All P arg xs h.1)

  pub predecessors-IsSorted :
      (arg : K) (xs : List A) → IsSorted cmp key xs → IsSorted cmp key (predecessors step arg xs)
  unfolding predecessors
  predecessors-IsSorted arg [] s = tt
  predecessors-IsSorted arg (x ∷ xs) s = ground (
    arith,
    predecessors-IsSorted arg xs s.1,
    predecessors-All (λ z. cmp (key x) (key z) ≡ Ordering.lt) arg xs s.0,
  )

  pub successors-IsSorted :
      (arg : K) (xs : List A) → IsSorted cmp key xs → IsSorted cmp key (successors step arg xs)
  unfolding successors
  successors-IsSorted arg [] s = tt
  successors-IsSorted arg (x ∷ xs) s = ground (arith, successors-IsSorted arg xs s.1)

  pub successors-behind :
      (o : IsOrder cmp) (arg : K) (xs : List A) (z : A)
      → IsSorted cmp key xs
      → z ∈ successors step arg xs
      → (z ∈ xs) × (cmp arg (key z) ≡ Ordering.lt)
  unfolding successors
  successors-behind o arg [] z s m = absurd m
  successors-behind o arg (x ∷ xs) z s m = ground (
    arith,
    successors-behind o arg xs z s.1,
    o.flip (key x) arg,
    o.trans arg (key x) (key z),
    All-mem (λ v. cmp (key x) (key v) ≡ Ordering.lt) z xs s.0,
  )
