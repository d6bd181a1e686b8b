-- ===== src/Rbt/Tree/Destroy.antt =====
-- `destroyRbtNodes` of smrbt.c: the loop that deletes the nodes of a tree, children first.
use mathlib.Core.List.{append_assoc, Perm}
use mathlib.Core.List.Perm
use mathlib.Core.List.{perm_append_singleton, perm-append_left_iff, perm-append_right_iff}
use cgr_jni.Base.{
  ℕ, zero, suc, ◌+◌, ◌-◌, ◌*◌, ◌<◌, length, length-append, arith, ◌≡◌, ◌∙◌, refl, ap, subst, Bool,
  Option, none, some, List, [], ◌∷◌, ◌++◌,
}
use cgr_jni.Rbt.Tree.{Direction, Tree, empty, node, Frame, frame, inorder}

module _ {A : Type 0} where
  -- The parent, whose child pointer is erased.
  abbrev pub pop : Frame A → Tree A
  pop f = elim f.side [
    | Direction.left ↦ node f.is_red empty f.entry f.other
    | Direction.right ↦ node f.is_red f.other f.entry empty
  ]

  -- The loop at a node of the tree; `deleted` is what `deleteFn` has got so far. The fuel bounds the
  -- rounds.
  pub destroy_nodes : ℕ → Tree A → List (Frame A) → List A → Option (List A)
  destroy_nodes zero tree path deleted = none
  destroy_nodes (suc fuel) empty path deleted = some deleted
  destroy_nodes (suc fuel) (node c (node d m y s) x r) path deleted =
      destroy_nodes fuel (node d m y s) (frame Direction.left c x r ∷ path) deleted
  destroy_nodes (suc fuel) (node c empty x (node d m y s)) path deleted =
      destroy_nodes fuel (node d m y s) (frame Direction.right c x empty ∷ path) deleted
  destroy_nodes (suc fuel) (node c empty x empty) [] deleted = some (deleted ++ (x ∷ []))
  destroy_nodes (suc fuel) (node c empty x empty) (f ∷ path) deleted =
      destroy_nodes fuel (pop f) path (deleted ++ (x ∷ []))

  -- Children before parents.
  pub postorder : Tree A → List A
  postorder empty = []
  postorder (node c l x r) = postorder l ++ (postorder r ++ (x ∷ []))

  -- Two rounds for each node but the root, which takes one.
  pub rounds : Tree A → ℕ → ℕ
  rounds empty n = n
  rounds (node c empty x empty) n = suc n
  rounds (node c empty x (node d m y s)) n = suc (rounds (node d m y s) (suc n))
  rounds (node c (node d m y s) x empty) n = suc (rounds (node d m y s) (suc n))
  rounds (node c (node d m y s) x (node e k z t)) n =
      suc (rounds (node d m y s) (suc (rounds (node e k z t) (suc n))))

  abbrev go_on : ℕ → List (Frame A) → List A → Option (List A)
  go_on n [] deleted = some deleted
  go_on n (f ∷ path) deleted = destroy_nodes n (pop f) path deleted

  leaf :
      (n : ℕ) (c : Bool) (x : A) (path : List (Frame A)) (out : List A)
      → destroy_nodes (suc n) (node c empty x empty) path out ≡ go_on n path (out ++ (x ∷ []))
  unfolding destroy_nodes
  leaf n c x [] out = refl
  leaf n c x (f ∷ path) out = refl

  abbrev Claim : Tree A → Type 0
  Claim empty = Unit
  Claim (node c l x r) =
      (n : ℕ) (path : List (Frame A)) (out : List A)
      → destroy_nodes (rounds (node c l x r) n) (node c l x r) path out
        ≡ go_on n path (out ++ postorder (node c l x r))

  destroyed : (t : Tree A) → Claim t
  unfolding destroy_nodes postorder rounds
  destroyed empty = tt
  destroyed (node c empty x empty) = λ n path out. leaf n c x path out
  destroyed (node c empty x (node d m y s)) = λ n path out.
      destroyed (node d m y s) (suc n) (frame Direction.right c x empty ∷ path) out
      ∙ leaf n c x path (out ++ postorder (node d m y s))
      ∙ ap (λ z. go_on n path z) (append_assoc out (postorder (node d m y s)) (x ∷ []))
  destroyed (node c (node d m y s) x empty) = λ n path out.
      destroyed (node d m y s) (suc n) (frame Direction.left c x empty ∷ path) out
      ∙ leaf n c x path (out ++ postorder (node d m y s))
      ∙ ap (λ z. go_on n path z) (append_assoc out (postorder (node d m y s)) (x ∷ []))
  destroyed (node c (node d m y s) x (node e k z t)) = λ n path out.
      destroyed (node d m y s) (suc (rounds (node e k z t) (suc n)))
        (frame Direction.left c x (node e k z t) ∷ path) out
      ∙ destroyed (node e k z t) (suc n) (frame Direction.right c x empty ∷ path)
          (out ++ postorder (node d m y s))
      ∙ leaf n c x path ((out ++ postorder (node d m y s)) ++ postorder (node e k z t))
      ∙ ap (λ w. go_on n path w)
          (append_assoc (out ++ postorder (node d m y s)) (postorder (node e k z t)) (x ∷ [])
            ∙ append_assoc out (postorder (node d m y s)) (postorder (node e k z t) ++ (x ∷ [])))

  abbrev Counted : Tree A → Type 0
  Counted empty = Unit
  Counted (node c l x r) =
      (n : ℕ) → suc (rounds (node c l x r) n) ≡ 2 * length (inorder (node c l x r)) + n

  counted : (t : Tree A) → Counted t
  unfolding rounds inorder
  counted empty = tt
  counted (node c empty x empty) = λ n. omega arith
  counted (node c empty x (node d m y s)) = λ n. omega (arith, counted (node d m y s) (suc n))
  counted (node c (node d m y s) x empty) = λ n.
      omega (arith, counted (node d m y s) (suc n), length-append (inorder (node d m y s)) (x ∷ []))
  counted (node c (node d m y s) x (node e k z t)) = λ n. omega (
    arith,
    counted (node d m y s) (suc (rounds (node e k z t) (suc n))),
    counted (node e k z t) (suc n),
    length-append (inorder (node d m y s)) (x ∷ inorder (node e k z t)),
  )

  postorder-Perm : (t : Tree A) → Perm (postorder t) (inorder t)
  unfolding postorder inorder
  postorder-Perm empty = Perm.refl []
  postorder-Perm (node c l x r) =
      Perm.trans ((perm-append_right_iff (postorder r ++ (x ∷ []))).1 (postorder-Perm l)) (
        (perm-append_left_iff (inorder l)).1
          (Perm.trans (perm_append_singleton x (postorder r)) (Perm.cons x (postorder-Perm r))))

  -- With more rounds than twice the number of nodes the loop ends, and it has deleted every datum of
  -- the tree once, children before their parents.
  pub destroy_nodes_lem :
      (t : Tree A) (fuel : ℕ)
      → 2 * length (inorder t) < fuel
      → (destroy_nodes fuel t [] [] ≡ some (postorder t)) × Perm (postorder t) (inorder t)
  unfolding destroy_nodes postorder inorder
  destroy_nodes_lem empty zero enough = absurd (omega (arith, enough))
  destroy_nodes_lem empty (suc fuel) enough = (refl, postorder-Perm empty)
  destroy_nodes_lem (node c l x r) fuel enough =
      let n = suc fuel - 2 * length (inorder (node c l x r)) in
      let same : rounds (node c l x r) n ≡ fuel = omega (arith, counted (node c l x r) n) in
      (
        subst (λ k. destroy_nodes k (node c l x r) [] [] ≡ some (postorder (node c l x r))) same
            (destroyed (node c l x r) n [] []),
        postorder-Perm (node c l x r),
      )
