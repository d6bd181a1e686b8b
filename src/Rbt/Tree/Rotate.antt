-- ===== src/Rbt/Tree/Rotate.antt =====
-- `rotateOnce` and `rotateTwice` of smrbt.c, and the order of the data.
use cgr_jni.Base.{◌≡◌, ◌∙◌, refl, sym, ap, ◌∷◌, ◌++◌}
use mathlib.Core.List.{append_assoc}
use cgr_jni.Rbt.Tree.{Direction, Tree, empty, node, inorder, rotate_once, rotate_twice}

module _ {A : Type 0} where
  pub inorder-rotate_once : (d : Direction) (t : Tree A) → inorder (rotate_once d t) ≡ inorder t
  unfolding rotate_once inorder
  inorder-rotate_once Direction.left empty = refl
  inorder-rotate_once Direction.left (node c l x empty) = refl
  inorder-rotate_once Direction.left (node c l x (node e o y r)) =
      append_assoc (inorder l) (x ∷ inorder o) (y ∷ inorder r)
  inorder-rotate_once Direction.right empty = refl
  inorder-rotate_once Direction.right (node c empty x r) = refl
  inorder-rotate_once Direction.right (node c (node e l y o) x r) =
      sym (append_assoc (inorder l) (y ∷ inorder o) (x ∷ inorder r))

  pub inorder-rotate_twice : (d : Direction) (t : Tree A) → inorder (rotate_twice d t) ≡ inorder t
  unfolding rotate_twice inorder
  inorder-rotate_twice Direction.left empty = refl
  inorder-rotate_twice Direction.right empty = refl
  inorder-rotate_twice Direction.left (node c l x r) =
      inorder-rotate_once Direction.left (node c l x (rotate_once Direction.right r))
      ∙ ap (λ z. inorder l ++ (x ∷ z)) (inorder-rotate_once Direction.right r)
  inorder-rotate_twice Direction.right (node c l x r) =
      inorder-rotate_once Direction.right (node c (rotate_once Direction.left l) x r)
      ∙ ap (λ z. z ++ (x ∷ inorder r)) (inorder-rotate_once Direction.left l)
