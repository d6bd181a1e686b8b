-- ===== src/Plan/Index.antt =====
-- Searches in a sorted index of contacts or ranges.
use Prim.Native.Nat.{Ordering}
use cgr_jni.Base.{◌≡◌, sym, ap, some, ◌≢◌, subst, inl, inr, List, [], ◌∷◌, ◌∈◌, All, All-mem, arith}
use cgr_jni.Plan.{Key, order_keys, find, successors}
use cgr_jni.Rbt.Sorted
use cgr_jni.Plan.Order.{order_refl, ◌≺◌, order-gt, ≺_trans, ≺_asym}

module _ {A : Type 0} (key : A → Key) where
  -- Strictly ascending, so that no key occurs twice.
  abbrev pub IsSorted : List A → Type 0
  IsSorted = Sorted.IsSorted order_keys key

  pub successors-behind :
      (arg : Key) (xs : List A) (y : A)
      → IsSorted xs
      → y ∈ successors (λ x. order_keys (key x)) arg xs
      → (y ∈ xs) × (arg ≺ key y)
  unfolding successors
  successors-behind arg [] y s m = absurd m
  successors-behind arg (x ∷ xs) y s m = ground (
    arith,
    successors-behind arg xs y s.1,
    order-gt (key x) arg,
    ≺_trans arg (key x) (key y),
    All-mem (λ z. key x ≺ key z) y xs s.0,
  )

  pub successors-complete :
      (arg : Key) (xs : List A) (y : A)
      → IsSorted xs
      → All (λ z. order_keys (key z) arg ≢ Ordering.eq) xs
      → y ∈ xs
      → arg ≺ key y
      → y ∈ successors (λ x. order_keys (key x)) arg xs
  unfolding successors
  successors-complete arg [] y s no_hit m p = absurd m
  successors-complete arg (x ∷ xs) y s no_hit (inl e) p =
      let p' : arg ≺ key x = subst (λ z. arg ≺ key z) e p in ground (arith, ≺_asym arg (key x) p')
  successors-complete arg (x ∷ xs) y s no_hit (inr m) p =
      ground (arith, successors-complete arg xs y s.1 no_hit.1 m p)

  pub successors-IsSorted :
      (arg : Key) (xs : List A)
      → IsSorted xs
      → IsSorted (successors (λ x. order_keys (key x)) arg xs)
  unfolding successors
  successors-IsSorted arg [] s = tt
  successors-IsSorted arg (x ∷ xs) s = ground (arith, successors-IsSorted arg xs s.1)

  pub find-member :
      (xs : List A) (y : A)
      → IsSorted xs
      → y ∈ xs
      → find (λ x. order_keys (key x)) (key y) xs ≡ some y
  unfolding find
  find-member [] y s m = absurd m
  find-member (x ∷ xs) y s (inl e) =
      rw (subst (λ z. order_keys (key x) (key z) ≡ Ordering.eq) (sym e) (order_refl (key x)), find)
        (ap some (sym e))
  find-member (x ∷ xs) y s (inr m) =
      rw (All-mem (λ z. key x ≺ key z) y xs s.0 m, find) (find-member xs y s.1 m)
