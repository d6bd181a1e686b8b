-- ===== src/Rbt/Tree/Search.antt =====
-- `sm_rbt_search` of smrbt.c on a tree, next to the search in the list of its data.
use Prim.Native.Nat.{Ordering}
use mathlib.Core.List.{append_assoc, append-nil}
use cgr_jni.Base.{
  ◌≡◌, ◌∙◌, refl, sym, ap, subst, inl, inr, Option, none, some, List, [], ◌∷◌, ◌++◌, ◌∈◌, All,
  All-mem, arith,
}
use cgr_jni.Rbt.{find, successors}
use cgr_jni.Rbt.Sorted.{IsOrder, IsSorted, compare}
use cgr_jni.Rbt.Tree.{
  Direction, Tree, empty, node, Frame, Place, Found, inorder, frame, place, note_successor, descend,
  rbt_search,
}
use cgr_jni.Rbt.Tree.Places.{behind_path, behind, onward, onward-traverse_rbt}

abbrev pub entry_of : {A : Type 0} → Option (Place A) → Option A
entry_of none = none
entry_of (some p) = some p.entry

module _ {A K : Type 0} (cmp : K → K → Ordering) (key : A → K) (o : IsOrder cmp) (arg : K) where
  abbrev step : A → K → Ordering
  step = compare cmp key

  mid_mem : (xs : List A) (x : A) (ys : List A) → x ∈ xs ++ (x ∷ ys)
  mid_mem [] x ys = inl refl
  mid_mem (z ∷ xs) x ys = inr (mid_mem xs x ys)

  head_below :
      (z : A) (xs : List A) (x : A) (ys : List A)
      → IsSorted cmp key (z ∷ (xs ++ (x ∷ ys)))
      → cmp (key z) (key x) ≡ Ordering.lt
  head_below z xs x ys s =
      All-mem (λ y. cmp (key z) (key y) ≡ Ordering.lt) x (xs ++ (x ∷ ys)) s.0 (mid_mem xs x ys)

  All-before :
      (P : A → Type 0) (xs : List A) (x : A) (ys : List A) → All P (xs ++ (x ∷ ys)) → All P xs
  All-before P [] x ys h = tt
  All-before P (z ∷ xs) x ys h = (h.0, All-before P xs x ys h.1)

  before-IsSorted :
      (xs : List A) (x : A) (ys : List A) → IsSorted cmp key (xs ++ (x ∷ ys)) → IsSorted cmp key xs
  before-IsSorted [] x ys s = tt
  before-IsSorted (z ∷ xs) x ys s =
      (All-before (λ y. cmp (key z) (key y) ≡ Ordering.lt) xs x ys s.0, before-IsSorted xs x ys s.1)

  behind-IsSorted :
      (xs : List A) (x : A) (ys : List A) → IsSorted cmp key (xs ++ (x ∷ ys)) → IsSorted cmp key ys
  behind-IsSorted [] x ys s = s.1
  behind-IsSorted (z ∷ xs) x ys s = behind-IsSorted xs x ys s.1

  -- Where the root is before the key, so are the data to its left.
  skip_left :
      (xs : List A) (x : A) (ys : List A)
      → IsSorted cmp key (xs ++ (x ∷ ys))
      → cmp (key x) arg ≡ Ordering.lt
      → (find step arg (xs ++ (x ∷ ys)) ≡ find step arg ys)
        × (successors step arg (xs ++ (x ∷ ys)) ≡ successors step arg ys)
  unfolding find successors
  skip_left [] x ys s e = (rw (e, find) refl, rw (e, successors) refl)
  skip_left (z ∷ xs) x ys s e =
      let less = o.trans (key z) (key x) arg (head_below z xs x ys s) e in
      (
        rw (less, find) (skip_left xs x ys s.1 e).0,
        rw (less, successors) (skip_left xs x ys s.1 e).1,
      )

  -- Where the root is behind the key, the search ends in its left subtree.
  skip_right :
      (xs : List A) (x : A) (ys : List A)
      → IsSorted cmp key (xs ++ (x ∷ ys))
      → cmp (key x) arg ≡ Ordering.gt
      → (find step arg (xs ++ (x ∷ ys)) ≡ find step arg xs)
        × (find step arg xs ≡ none
            → successors step arg (xs ++ (x ∷ ys)) ≡ successors step arg xs ++ (x ∷ ys))
  unfolding find successors
  skip_right [] x ys s e = (rw (e, find) refl, λ _. rw (e, successors) refl)
  skip_right (z ∷ xs) x ys s e = ground (arith, skip_right xs x ys s.1 e)

  hit :
      (xs : List A) (x : A) (ys : List A)
      → IsSorted cmp key (xs ++ (x ∷ ys))
      → cmp (key x) arg ≡ Ordering.eq
      → (find step arg (xs ++ (x ∷ ys)) ≡ some x) × (successors step arg (xs ++ (x ∷ ys)) ≡ [])
  unfolding find successors
  hit [] x ys s e = (rw (e, find) refl, rw (e, successors) refl)
  hit (z ∷ xs) x ys s e =
      let less =
        subst (λ k. cmp (key z) k ≡ Ordering.lt) (o.equal (key x) arg e) (head_below z xs x ys s) in
      (rw (less, find) (hit xs x ys s.1 e).0, rw (less, successors) (hit xs x ys s.1 e).1)

  -- What the last node met says of the data behind the subtree that is left to search.
  abbrev Noted : Tree A → List (Frame A) → Option (Place A) → Direction → Type 0
  Noted t path prev Direction.left = onward prev ≡ behind_path path
  Noted t path prev Direction.right =
      onward (note_successor prev Direction.right) ≡ inorder t ++ behind_path path

  -- The answer of a search in a list, before the data behind it.
  abbrev Answers : List A → List A → Found A → Type 0
  Answers xs rest f =
      (entry_of f.at ≡ find step arg xs)
      × (onward f.successor
          ≡ elim (find step arg xs) [ none ↦ successors step arg xs ++ rest | some _ ↦ [] ])

  pass_right :
      (xs : List A) (x : A) (ys rest : List A) (f : Found A)
      → IsSorted cmp key (xs ++ (x ∷ ys))
      → cmp (key x) arg ≡ Ordering.lt
      → Answers ys rest f
      → Answers (xs ++ (x ∷ ys)) rest f
  pass_right xs x ys rest f s e a =
      let (u, v) = skip_left xs x ys s e in
      rw u (
        a.0,
        a.1
            ∙ ap
                (λ zs. elim (find step arg ys) as (λ _. List A) [ none ↦ zs ++ rest | some _ ↦ [] ])
                (sym v),
      )

  pass_left :
      (xs : List A) (x : A) (ys rest : List A) (f : Found A)
      → IsSorted cmp key (xs ++ (x ∷ ys))
      → cmp (key x) arg ≡ Ordering.gt
      → Answers xs (x ∷ (ys ++ rest)) f
      → Answers (xs ++ (x ∷ ys)) rest f
  pass_left xs x ys rest f s e a =
      let (u, v) = skip_right xs x ys s e in rw u (a.0, a.1 ∙ go (find step arg xs) v)
    where
      go :
          (q : Option A)
          → (q ≡ none → successors step arg (xs ++ (x ∷ ys)) ≡ successors step arg xs ++ (x ∷ ys))
          → elim q [ none ↦ successors step arg xs ++ (x ∷ (ys ++ rest)) | some _ ↦ [] ]
            ≡ elim q [ none ↦ successors step arg (xs ++ (x ∷ ys)) ++ rest | some _ ↦ [] ]
      go (some _) v = refl
      go none v =
          sym (append_assoc (successors step arg xs) (x ∷ ys) rest)
          ∙ ap (λ z. z ++ rest) (sym (v refl))

  pass_hit :
      (xs : List A) (x : A) (ys rest : List A) (p : Place A)
      → IsSorted cmp key (xs ++ (x ∷ ys))
      → cmp (key x) arg ≡ Ordering.eq
      → p.entry ≡ x
      → Answers (xs ++ (x ∷ ys)) rest (record { at = some p; successor = none })
  unfolding onward
  pass_hit xs x ys rest p s e same = rw (hit xs x ys s e).0 (ap some same, refl)

  descend-Answers :
      (t : Tree A) (path : List (Frame A)) (prev : Option (Place A)) (d : Direction)
      → IsSorted cmp key (inorder t)
      → Noted t path prev d
      → Answers (inorder t) (behind_path path) (descend step arg t path prev d)
  unfolding descend inorder behind_path behind onward find successors note_successor
  descend-Answers empty path prev Direction.left s n = (refl, n)
  descend-Answers empty path prev Direction.right s n = (refl, n)
  descend-Answers (node c l x r) path prev d s n =
      go (cmp (key x) arg) refl
        (descend-Answers r (frame Direction.right c x l ∷ path) here Direction.right
          (behind-IsSorted (inorder l) x (inorder r) s) (onward-traverse_rbt (place c l x r path)))
        (descend-Answers l (frame Direction.left c x r ∷ path) here Direction.left
          (before-IsSorted (inorder l) x (inorder r) s) refl)
    where
      here : Option (Place A)
      here = some (place c l x r path)

      right_path : List (Frame A)
      right_path = frame Direction.right c x l ∷ path

      left_path : List (Frame A)
      left_path = frame Direction.left c x r ∷ path

      go :
          (q : Ordering)
          → cmp (key x) arg ≡ q
          → Answers
              (inorder r)
              (behind_path path)
              (descend step arg r right_path here Direction.right)
          → Answers
              (inorder l)
              (x ∷ (inorder r ++ behind_path path))
              (descend step arg l left_path here Direction.left)
          → Answers (inorder l ++ (x ∷ inorder r)) (behind_path path) (elim q [
            | Ordering.eq ↦ record { at = here; successor = none }
            | Ordering.lt ↦ descend step arg r right_path here Direction.right
            | Ordering.gt ↦ descend step arg l left_path here Direction.left
          ])
      go Ordering.eq e a b =
          pass_hit (inorder l) x (inorder r) (behind_path path) (place c l x r path) s e refl
      go Ordering.lt e a b = pass_right (inorder l) x (inorder r) (behind_path path) _ s e a
      go Ordering.gt e a b = pass_left (inorder l) x (inorder r) (behind_path path) _ s e b

  found_moot : (xs : List A) (x : A) → find step arg xs ≡ some x → successors step arg xs ≡ []
  unfolding find successors
  found_moot [] x e = cc
  found_moot (y ∷ xs) x e = ground (arith, found_moot xs x)

  -- On a tree whose data are in order, `sm_rbt_search` returns the node that a search in the list of
  -- the data finds, and the successor that it stores starts the part of the list behind the key; it
  -- stores none where there is no such part, or where the key is found.
  pub rbt_search_lem :
      (t : Tree A)
      → IsSorted cmp key (inorder t)
      → let f = rbt_search step arg t in
        (entry_of f.at ≡ find step arg (inorder t))
        × (onward f.successor ≡ successors step arg (inorder t))
  unfolding rbt_search behind_path onward
  rbt_search_lem t s =
      let (u, v) = descend-Answers t [] none Direction.left s refl in
      (u, v ∙ go (find step arg (inorder t)) refl)
    where
      go :
          (q : Option A)
          → find step arg (inorder t) ≡ q
          → elim q [ none ↦ successors step arg (inorder t) ++ [] | some _ ↦ [] ]
            ≡ successors step arg (inorder t)
      go none e = append-nil (successors step arg (inorder t))
      go (some x) e = sym (found_moot (inorder t) x e)
