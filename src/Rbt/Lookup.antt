-- ===== src/Rbt/Lookup.antt =====
-- What a search finds after an insertion or a deletion.
use Prim.Native.Nat.{Ordering}
use cgr_jni.Base.{◌≡◌, ◌≢◌, ◌↔◌, ◌∙◌, sym, subst, ap, inl, inr, none, some, Option-cases, List, ◌∈◌}
use cgr_jni.Rbt.{find, insert, delete}
use cgr_jni.Rbt.Sorted.{IsOrder, IsSorted, compare, find-some, find-none, find-member}
use cgr_jni.Rbt.Change.{insert_iff, insert-IsSorted, delete_iff, delete-IsSorted}

module _ {A K : Type 0} (cmp : K → K → Ordering) (key : A → K) (o : IsOrder cmp) where
  abbrev step : A → K → Ordering
  step = compare cmp key

  find_absent : (k : K) (xs : List A) → ((z : A) → z ∈ xs → key z ≢ k) → find step k xs ≡ none
  find_absent k xs n = elim (Option-cases (find step k xs)) [
    | inl e ↦ e
    | inr (z, e) ↦ let (m, f) = find-some cmp key o k xs z e in absurd (n z m f)
  ]

  -- Two sorted trees that hold the same data of a key answer alike.
  same_answer :
      (k : K) (xs ys : List A)
      → IsSorted cmp key xs
      → IsSorted cmp key ys
      → ((z : A) → key z ≡ k → (z ∈ ys) ↔ (z ∈ xs))
      → find step k ys ≡ find step k xs
  same_answer k xs ys s t h = elim (Option-cases (find step k xs)) [
    | inl e ↦ find_absent k ys (λ z m f. find-none cmp key o k xs z s e ((h z f).0 m) f) ∙ sym e
    | inr (z, e) ↦
        let (m, f) = find-some cmp key o k xs z e in
        subst (λ j. find step j ys ≡ some z) f (find-member cmp key o ys z t ((h z f).1 m)) ∙ sym e
  ]

  pub find-insert_ne :
      (k : K) (x : A) (xs : List A)
      → IsSorted cmp key xs
      → find step (key x) xs ≡ none
      → k ≢ key x
      → find step k (insert step (key x) x xs) ≡ find step k xs
  find-insert_ne k x xs s e n = same_answer k xs _ s (insert-IsSorted cmp key o x xs s e) (λ z f. (
    λ m. elim ((insert_iff cmp key o (key x) x xs z).0 m) [
      | inl g ↦ absurd (n (sym f ∙ ap key g))
      | inr m' ↦ m'
    ],
    λ m. (insert_iff cmp key o (key x) x xs z).1 (inr m),
  ))

  pub find-delete_ne :
      (k j : K) (xs : List A)
      → IsSorted cmp key xs
      → k ≢ j
      → find step k (delete step j xs) ≡ find step k xs
  find-delete_ne k j xs s n = same_answer k xs _ s (delete-IsSorted cmp key o j xs s) (λ z f. (
    λ m. ((delete_iff cmp key o j xs z s).0 m).0,
    λ m. (delete_iff cmp key o j xs z s).1 (m, λ e. n (sym f ∙ e)),
  ))

  pub find-delete :
      (k : K) (xs : List A) → IsSorted cmp key xs → find step k (delete step k xs) ≡ none
  find-delete k xs s = find_absent k _ (λ z m. ((delete_iff cmp key o k xs z s).0 m).1)
