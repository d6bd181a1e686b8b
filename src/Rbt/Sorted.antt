-- ===== src/Rbt/Sorted.antt =====
-- Searches in a tree whose data are in strict order.
use Prim.Native.Nat.{Ordering}
use cgr_jni.Base.{
  ◌≡◌, ◌≢◌, ◌⊎◌, refl, sym, subst, ap, inl, inr, none, some, List, [], ◌∷◌, ◌∈◌, All, All-mem,
  arith, ◌∙◌,
}
use cgr_jni.Rbt.{find}

-- What a compare function has to satisfy.
pub record IsOrder {K : Type 0} (cmp : K → K → Ordering) : Type 0 where
  pub same : (a : K) → cmp a a ≡ Ordering.eq
  pub flip : (a b : K) → cmp a b ≡ Ordering.gt → cmp b a ≡ Ordering.lt
  pub trans : (a b c : K) → cmp a b ≡ Ordering.lt → cmp b c ≡ Ordering.lt → cmp a c ≡ Ordering.lt
  pub equal : (a b : K) → cmp a b ≡ Ordering.eq → a ≡ b

pub Ordering-cases : (r : Ordering) → (r ≡ Ordering.lt) ⊎ (r ≡ Ordering.eq) ⊎ (r ≡ Ordering.gt)
Ordering-cases r = ground arith

pub some-inj : {A : Type 0} (x y : A) → some x ≡ some y → x ≡ y
some-inj x y e = cc

module _ {A K : Type 0} (cmp : K → K → Ordering) (key : A → K) where
  -- Strictly ascending, so that no key occurs twice.
  abbrev pub IsSorted : List A → Type 0
  IsSorted [] = Unit
  IsSorted (x ∷ xs) = All (λ y. cmp (key x) (key y) ≡ Ordering.lt) xs × IsSorted xs

  abbrev pub compare : A → K → Ordering
  compare x = cmp (key x)

  module _ (o : IsOrder cmp) where
    pub irrefl : (a b : K) → a ≡ b → cmp a b ≢ Ordering.lt
    irrefl a b e h = ground (arith, subst (λ z. cmp a z ≡ Ordering.eq) e (o.same a))

    pub lt-gt : (a b : K) → cmp a b ≡ Ordering.lt → cmp b a ≡ Ordering.gt
    lt-gt a b h = ground (arith, o.equal b a, irrefl a b, o.trans a b a, irrefl a a refl)

    pub apart : (a b : K) → cmp a b ≢ Ordering.eq → a ≢ b
    apart a b n e = n (subst (λ z. cmp a z ≡ Ordering.eq) e (o.same a))

    pub find-none :
        (arg : K) (xs : List A) (y : A)
        → IsSorted xs
        → find compare arg xs ≡ none
        → y ∈ xs
        → key y ≢ arg
    unfolding find
    find-none arg [] y s e m = absurd m
    find-none arg (x ∷ xs) y s e (inl h) = λ k. ground (
      arith,
      subst (λ z. cmp (key z) arg ≡ Ordering.eq) h
          (subst (λ z. cmp (key y) z ≡ Ordering.eq) k (o.same (key y))),
    )
    find-none arg (x ∷ xs) y s e (inr m) = λ k. ground (
      arith,
      find-none arg xs y s.1,
      subst (λ z. cmp (key x) z ≡ Ordering.lt) k
          (All-mem (λ z. cmp (key x) (key z) ≡ Ordering.lt) y xs s.0 m),
    )

    pub find-some :
        (arg : K) (xs : List A) (y : A) → find compare arg xs ≡ some y → (y ∈ xs) × (key y ≡ arg)
    unfolding find
    find-some arg [] y e = cc
    find-some arg (x ∷ xs) y e = ground (arith, find-some arg xs y, o.equal (key x) arg)

    pub find-member :
        (xs : List A) (y : A) → IsSorted xs → y ∈ xs → find compare (key y) xs ≡ some y
    unfolding find
    find-member [] y s m = absurd m
    find-member (x ∷ xs) y s (inl e) =
        rw (subst (λ z. cmp (key x) (key z) ≡ Ordering.eq) (sym e) (o.same (key x)), find)
          (ap some (sym e))
    find-member (x ∷ xs) y s (inr m) =
        rw (All-mem (λ z. cmp (key x) (key z) ≡ Ordering.lt) y xs s.0 m, find)
          (find-member xs y s.1 m)

    pub key-inj : (xs : List A) (x y : A) → IsSorted xs → x ∈ xs → y ∈ xs → key x ≡ key y → x ≡ y
    key-inj xs x y s m n e = some-inj x y (
        sym (find-member xs x s m)
        ∙ subst (λ k. find compare k xs ≡ some y) (sym e) (find-member xs y s n))

    below_all : (x y : A) (xs : List A) → IsSorted (x ∷ xs) → y ∈ xs → y ≢ x
    below_all x y xs s m e =
        irrefl (key x) (key y) (ap key (sym e))
          (All-mem (λ z. cmp (key x) (key z) ≡ Ordering.lt) y xs s.0 m)

    same_head :
        (x y : A) (xs ys : List A)
        → IsSorted (x ∷ xs)
        → IsSorted (y ∷ ys)
        → x ∈ y ∷ ys
        → y ∈ x ∷ xs
        → x ≡ y
    same_head x y xs ys s t (inl e) n = e
    same_head x y xs ys s t (inr m) (inl e) = sym e
    same_head x y xs ys s t (inr m) (inr n) = absurd (
        irrefl (key x) (key x) refl (
          o.trans (key x) (key y) (key x)
            (All-mem (λ z. cmp (key x) (key z) ≡ Ordering.lt) y xs s.0 n)
            (All-mem (λ z. cmp (key y) (key z) ≡ Ordering.lt) x ys t.0 m)))

    behind_head :
        (x y : A) (xs ys : List A)
        → IsSorted (x ∷ xs)
        → x ≡ y
        → ((z : A) → z ∈ x ∷ xs → z ∈ y ∷ ys)
        → (z : A) → z ∈ xs
        → z ∈ ys
    behind_head x y xs ys s e f z m = elim (f z (inr m)) [
      | inl g ↦ absurd (below_all x z xs s m (g ∙ sym e))
      | inr n ↦ n
    ]

    -- Trees with the same data are the same: their data stand in order.
    pub same_members :
        (xs ys : List A)
        → IsSorted xs
        → IsSorted ys
        → ((z : A) → z ∈ xs → z ∈ ys)
        → ((z : A) → z ∈ ys → z ∈ xs)
        → xs ≡ ys
    same_members [] [] s t f g = refl
    same_members [] (y ∷ ys) s t f g = absurd (g y (inl refl))
    same_members (x ∷ xs) [] s t f g = absurd (f x (inl refl))
    same_members (x ∷ xs) (y ∷ ys) s t f g =
        let e = same_head x y xs ys s t (f x (inl refl)) (g y (inl refl)) in
        let rest =
          same_members xs ys s.1 t.1 (behind_head x y xs ys s e f)
            (behind_head y x ys xs t (sym e) g) in
        rw (e, rest) refl
