-- ===== src/Rbt/Change.antt =====
-- Insertions into a tree whose data are in strict order, and deletions from it.
use Prim.Native.Nat.{Ordering}
use cgr_jni.Base.{
  suc, ◌≡◌, ◌≢◌, ◌⊎◌, ◌↔◌, ◌∙◌, refl, sym, subst, ap, inl, inr, none, some, List, [], ◌∷◌, ◌∈◌, All,
  All-mem, All-imp, length, arith,
}
use cgr_jni.Rbt.{find, insert, delete}
use cgr_jni.Rbt.Sorted.{IsOrder, IsSorted, compare, Ordering-cases, irrefl, apart}

module _ {A K : Type 0} (cmp : K → K → Ordering) (key : A → K) (o : IsOrder cmp) where
  abbrev step : A → K → Ordering
  step = compare cmp key

  insert-All :
      (P : A → Type 0) (arg : K) (x : A) (xs : List A)
      → P x
      → All P xs
      → All P (insert step arg x xs)
  unfolding insert
  insert-All P arg x [] p h = (p, tt)
  insert-All P arg x (y ∷ xs) p h = ground (arith, insert-All P arg x xs p h.1)

  pub insert_iff :
      (arg : K) (x : A) (xs : List A) (z : A) → (z ∈ insert step arg x xs) ↔ ((z ≡ x) ⊎ z ∈ xs)
  unfolding insert
  insert_iff arg x [] z = (λ h. h, λ h. h)
  insert_iff arg x (y ∷ xs) z = ground (arith, insert_iff arg x xs z)

  above :
      (x y : A) (xs : List A)
      → All (λ z. cmp (key y) (key z) ≡ Ordering.lt) xs
      → cmp (key x) (key y) ≡ Ordering.lt
      → All (λ z. cmp (key x) (key z) ≡ Ordering.lt) xs
  above x y xs h p =
      All-imp (λ z. cmp (key y) (key z) ≡ Ordering.lt) (λ z. cmp (key x) (key z) ≡ Ordering.lt) xs
        (λ z. o.trans (key x) (key y) (key z) p) h

  pub insert-IsSorted :
      (x : A) (xs : List A)
      → IsSorted cmp key xs
      → find step (key x) xs ≡ none
      → IsSorted cmp key (insert step (key x) x xs)
  unfolding insert find
  insert-IsSorted x [] s e = (tt, tt)
  insert-IsSorted x (y ∷ xs) s e = ground (
    arith,
    insert-IsSorted x xs s.1,
    insert-All (λ z. cmp (key y) (key z) ≡ Ordering.lt) (key x) x xs,
    o.flip (key y) (key x),
    above x y xs,
  )

  pub delete-insert : (x : A) (xs : List A) → delete step (key x) (insert step (key x) x xs) ≡ xs
  unfolding insert delete
  delete-insert x [] = ground (arith, o.same (key x))
  delete-insert x (y ∷ xs) = ground (arith, o.same (key x), delete-insert x xs)

  pub find-insert : (x : A) (xs : List A) → find step (key x) (insert step (key x) x xs) ≡ some x
  unfolding insert find
  find-insert x [] = ground (arith, o.same (key x))
  find-insert x (y ∷ xs) = ground (arith, o.same (key x), find-insert x xs)

  delete-All : (P : A → Type 0) (arg : K) (xs : List A) → All P xs → All P (delete step arg xs)
  unfolding delete
  delete-All P arg [] h = tt
  delete-All P arg (y ∷ xs) h = ground (arith, delete-All P arg xs h.1)

  pub delete-IsSorted :
      (arg : K) (xs : List A) → IsSorted cmp key xs → IsSorted cmp key (delete step arg xs)
  unfolding delete
  delete-IsSorted arg [] s = tt
  delete-IsSorted arg (y ∷ xs) s = ground (
    arith,
    delete-IsSorted arg xs s.1,
    delete-All (λ z. cmp (key y) (key z) ≡ Ordering.lt) arg xs s.0,
  )

  pub length-delete :
      (arg : K) (xs : List A) (y : A)
      → find step arg xs ≡ some y
      → suc (length (delete step arg xs)) ≡ length xs
  unfolding delete find
  length-delete arg [] y e = cc
  length-delete arg (x ∷ xs) y e = ground (arith, length-delete arg xs y)

  pub delete_absent : (arg : K) (xs : List A) → find step arg xs ≡ none → delete step arg xs ≡ xs
  unfolding delete find
  delete_absent arg [] e = refl
  delete_absent arg (x ∷ xs) e = ground (arith, delete_absent arg xs)

  delete_hit :
      (y : A) (xs : List A) (z : A)
      → All (λ w. cmp (key y) (key w) ≡ Ordering.lt) xs
      → (z ∈ xs) ↔ (((z ≡ y) ⊎ z ∈ xs) × (key z ≢ key y))
  delete_hit y xs z s = (
    λ m. (
      inr m,
      λ e.
          irrefl cmp key o (key y) (key z) (sym e)
            (All-mem (λ w. cmp (key y) (key w) ≡ Ordering.lt) z xs s m),
    ),
    λ (h, ne). elim h [ inl e ↦ absurd (ne (ap key e)) | inr m ↦ m ],
  )

  keep :
      (arg : K) (y : A) (xs : List A) (z : A)
      → cmp (key y) arg ≢ Ordering.eq
      → (z ∈ delete step arg xs) ↔ ((z ∈ xs) × (key z ≢ arg))
      → ((z ≡ y) ⊎ z ∈ delete step arg xs) ↔ (((z ≡ y) ⊎ z ∈ xs) × (key z ≢ arg))
  keep arg y xs z n h = (
    λ m. elim m [
      | inl e ↦ (inl e, λ k. apart cmp key o (key y) arg n (ap key (sym e) ∙ k))
      | inr m' ↦ (inr (h.0 m').0, (h.0 m').1)
    ],
    λ (m, k). elim m [ inl e ↦ inl e | inr m' ↦ inr (h.1 (m', k)) ],
  )

  behind :
      (arg : K) (y : A) (xs : List A) (z : A)
      → All (λ w. cmp (key y) (key w) ≡ Ordering.lt) xs
      → cmp arg (key y) ≡ Ordering.lt
      → (z ≡ y) ⊎ z ∈ xs
      → key z ≢ arg
  behind arg y xs z s p (inl e) k = irrefl cmp key o arg (key y) (sym k ∙ ap key e) p
  behind arg y xs z s p (inr m) k =
      irrefl cmp key o arg (key z) (sym k)
        (o.trans arg (key y) (key z) p (All-mem (λ w. cmp (key y) (key w) ≡ Ordering.lt) z xs s m))

  pub delete_iff :
      (arg : K) (xs : List A) (z : A)
      → IsSorted cmp key xs
      → (z ∈ delete step arg xs) ↔ ((z ∈ xs) × (key z ≢ arg))
  unfolding delete
  delete_iff arg [] z s = (λ m. absurd m, λ h. absurd h.0)
  delete_iff arg (y ∷ xs) z s = elim (Ordering-cases (cmp (key y) arg)) [
    | inl e ↦ rw (e, delete) (keep arg y xs z (ground arith) (delete_iff arg xs z s.1))
    | inr (inl e) ↦
        rw (e, delete)
          (subst (λ k. (z ∈ xs) ↔ (((z ≡ y) ⊎ z ∈ xs) × (key z ≢ k))) (o.equal (key y) arg e)
            (delete_hit y xs z s.0))
    | inr (inr e) ↦
        rw (e, delete) (λ m. (m, behind arg y xs z s.0 (o.flip (key y) arg e) m), λ h. h.0)
  ]
