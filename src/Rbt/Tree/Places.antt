-- ===== src/Rbt/Tree/Places.antt =====
-- `traverseRbt` of smrbt.c, and the data before and behind a node.
use cgr_jni.Base.{◌≡◌, ◌≢◌, ◌∙◌, refl, sym, ap, Bool, Option, none, some, List, [], ◌∷◌, ◌++◌}
use mathlib.Core.List.{append_assoc, append-nil}
use cgr_jni.Rbt.Tree.{
  Direction, Tree, empty, node, Frame, Place, inorder, frame, place, leftmost, rightmost, climb,
  traverse_rbt, rbt_first, rbt_last,
}

module _ {A : Type 0} where
  -- The data behind a subtree, and before it, by the path to it.
  unfoldable pub behind_path : List (Frame A) → List A
  behind_path [] = []
  behind_path (f ∷ path) = elim f.side [
    | Direction.left ↦ f.entry ∷ (inorder f.other ++ behind_path path)
    | Direction.right ↦ behind_path path
  ]

  unfoldable pub before_path : List (Frame A) → List A
  before_path [] = []
  before_path (f ∷ path) = elim f.side [
    | Direction.left ↦ before_path path
    | Direction.right ↦ before_path path ++ (inorder f.other ++ (f.entry ∷ []))
  ]

  unfoldable pub behind : Place A → List A
  unfolding behind_path
  behind p = inorder p.behind ++ behind_path p.path

  unfoldable pub before : Place A → List A
  unfolding before_path
  before p = before_path p.path ++ inorder p.before

  -- The data from a place on, and up to it.
  unfoldable pub onward : Option (Place A) → List A
  unfolding behind
  onward none = []
  onward (some p) = p.entry ∷ behind p

  unfoldable pub upto : Option (Place A) → List A
  unfolding before
  upto none = []
  upto (some p) = before p ++ (p.entry ∷ [])

  not_nil : (xs : List A) (x : A) (ys : List A) → [] ≢ xs ++ (x ∷ ys)
  not_nil [] x ys e = cc
  not_nil (z ∷ xs) x ys e = cc

  pub onward-leftmost :
      (c : Bool) (l : Tree A) (x : A) (r : Tree A) (path : List (Frame A))
      → onward (leftmost (node c l x r) path) ≡ inorder (node c l x r) ++ behind_path path
  unfolding leftmost onward inorder behind_path behind
  onward-leftmost c empty x r path = refl
  onward-leftmost c (node d l y s) x r path =
      go (leftmost (node d l y s) path') (onward-leftmost d l y s path')
      ∙ sym (append_assoc (inorder (node d l y s)) (x ∷ inorder r) (behind_path path))
    where
      path' : List (Frame A)
      path' = frame Direction.left c x r ∷ path

      go :
          (o : Option (Place A))
          → onward o ≡ inorder (node d l y s) ++ (x ∷ (inorder r ++ behind_path path))
          → onward
              (elim o [ none ↦ some (place c (node d l y s) x r path) | some first ↦ some first ])
            ≡ inorder (node d l y s) ++ (x ∷ (inorder r ++ behind_path path))
      go none e = absurd (not_nil (inorder (node d l y s)) x _ e)
      go (some q) e = e

  onward-climb :
      (t : Tree A) (path : List (Frame A)) → onward (climb Direction.left t path) ≡ behind_path path
  unfolding climb onward behind_path behind
  onward-climb t [] = refl
  onward-climb t (f ∷ path) =
      elim f.side
        as (λ d.
          onward (elim d as (λ _. Option (Place A)) [
            | Direction.left ↦ some (place f.is_red t f.entry f.other path)
            | Direction.right ↦ climb Direction.left (node f.is_red f.other f.entry t) path
          ])
          ≡ elim d [
            | Direction.left ↦ f.entry ∷ (inorder f.other ++ behind_path path)
            | Direction.right ↦ behind_path path
          ]) [
            | Direction.left ↦ refl
            | Direction.right ↦ onward-climb (node f.is_red f.other f.entry t) path
          ]

  -- The next node starts the data behind a node, and there is none where there are no such data.
  pub onward-traverse_rbt : (p : Place A) → onward (traverse_rbt Direction.right p) ≡ behind p
  unfolding traverse_rbt behind behind_path inorder
  onward-traverse_rbt p = go p.behind
    where
      go :
          (t : Tree A)
          → onward (elim t [
            | empty ↦ climb Direction.left (node p.is_red p.before p.entry empty) p.path
            | node c l x r ↦
                leftmost (node c l x r) (frame Direction.right p.is_red p.entry p.before ∷ p.path)
          ])
            ≡ inorder t ++ behind_path p.path
      go empty = onward-climb (node p.is_red p.before p.entry empty) p.path
      go (node c l x r) =
          onward-leftmost c l x r (frame Direction.right p.is_red p.entry p.before ∷ p.path)

  snoc_not_nil : (xs : List A) (x : A) → [] ≢ xs ++ (x ∷ [])
  snoc_not_nil xs x = not_nil xs x []

  upto-rightmost :
      (c : Bool) (l : Tree A) (x : A) (r : Tree A) (path : List (Frame A))
      → upto (rightmost (node c l x r) path) ≡ before_path path ++ inorder (node c l x r)
  unfolding rightmost upto inorder before_path before
  upto-rightmost c l x empty path = append_assoc (before_path path) (inorder l) (x ∷ [])
  upto-rightmost c l x (node d m y s) path =
      go (rightmost (node d m y s) path') (upto-rightmost d m y s path') ∙ together
    where
      path' : List (Frame A)
      path' = frame Direction.right c x l ∷ path

      rest : List A
      rest = inorder (node d m y s)

      together : before_path path' ++ rest ≡ before_path path ++ (inorder l ++ (x ∷ rest))
      together =
          append_assoc (before_path path) (inorder l ++ (x ∷ [])) rest
          ∙ ap (λ z. before_path path ++ z) (append_assoc (inorder l) (x ∷ []) rest)

      go :
          (o : Option (Place A))
          → upto o ≡ before_path path' ++ rest
          → upto (elim o [ none ↦ some (place c l x (node d m y s) path) | some last ↦ some last ])
            ≡ before_path path' ++ rest
      go none e = absurd (
          not_nil (before_path path' ++ inorder m) y (inorder s)
            (e ∙ sym (append_assoc (before_path path') (inorder m) (y ∷ inorder s))))
      go (some q) e = e

  upto-climb :
      (t : Tree A) (path : List (Frame A)) → upto (climb Direction.right t path) ≡ before_path path
  unfolding climb upto before_path before
  upto-climb t [] = refl
  upto-climb t (f ∷ path) =
      elim f.side
        as (λ d.
          upto (elim d as (λ _. Option (Place A)) [
            | Direction.left ↦ climb Direction.right (node f.is_red t f.entry f.other) path
            | Direction.right ↦ some (place f.is_red f.other f.entry t path)
          ])
          ≡ elim d [
            | Direction.left ↦ before_path path
            | Direction.right ↦ before_path path ++ (inorder f.other ++ (f.entry ∷ []))
          ]) [
            | Direction.left ↦ upto-climb (node f.is_red t f.entry f.other) path
            | Direction.right ↦ append_assoc (before_path path) (inorder f.other) (f.entry ∷ [])
          ]

  upto-traverse_rbt : (p : Place A) → upto (traverse_rbt Direction.left p) ≡ before p
  unfolding traverse_rbt before before_path inorder
  upto-traverse_rbt p = go p.before
    where
      go :
          (t : Tree A)
          → upto (elim t [
            | empty ↦ climb Direction.right (node p.is_red empty p.entry p.behind) p.path
            | node c l x r ↦
                rightmost (node c l x r) (frame Direction.left p.is_red p.entry p.behind ∷ p.path)
          ])
            ≡ before_path p.path ++ inorder t
      go empty =
          upto-climb (node p.is_red empty p.entry p.behind) p.path
          ∙ sym (append-nil (before_path p.path))
      go (node c l x r) =
          upto-rightmost c l x r (frame Direction.left p.is_red p.entry p.behind ∷ p.path)

  -- Traversal to the right comes to the data behind a node, in order, and to the left to those
  -- before it: what it finds heads the one part, or ends the other, and it finds nothing where that
  -- part is empty. The first and the last node are those of the data in order.
  pub traverse_rbt_lem :
      (p : Place A) (t : Tree A)
      → (onward (traverse_rbt Direction.right p) ≡ behind p)
        × (upto (traverse_rbt Direction.left p) ≡ before p)
        × (onward (rbt_first t) ≡ inorder t)
        × (upto (rbt_last t) ≡ inorder t)
  unfolding rbt_first rbt_last leftmost rightmost onward upto inorder
  traverse_rbt_lem p t = (onward-traverse_rbt p, upto-traverse_rbt p, first t, last t)
    where
      first : (t : Tree A) → onward (leftmost t []) ≡ inorder t
      first empty = refl
      first (node c l x r) = onward-leftmost c l x r [] ∙ append-nil (inorder (node c l x r))

      last : (t : Tree A) → upto (rightmost t []) ≡ inorder t
      last empty = refl
      last (node c l x r) = upto-rightmost c l x r []
