-- ===== src/Rbt/Tree/Mend.antt =====
-- The changes that `Sm_rbt_insert` makes on its way down: it flips colors, and mends a red node under
-- a red parent.
use mathlib.Core.Bool.{false≢true}
use cgr_jni.Base.{
  ℕ, suc, ◌≡◌, ◌∙◌, refl, sym, Bool, true, false, ◌&&◌, if◌then◌else◌, Bool-cases, ◌∷◌, ◌++◌, ap,
  subst, inl, inr, arith,
}
use cgr_jni.Rbt.Tree.{Direction, Tree, empty, node, inorder, rotate_once, rotate_twice}
use cgr_jni.Rbt.Tree.Rotate.{inorder-rotate_once, inorder-rotate_twice}
use cgr_jni.Rbt.Tree.Balance.{node_is_red, IsRedBlack}

both : (a b : Bool) → (a && b) ≡ true → (a ≡ true) × (b ≡ true)
both a b e = ground arith

module _ {A : Type 0} where
  unfoldable pub blacken : Tree A → Tree A
  blacken empty = empty
  blacken (node is_red l x r) = node false l x r

  unfoldable pub flip_colors : Tree A → Tree A
  unfolding blacken node_is_red
  flip_colors empty = empty
  flip_colors (node is_red l x r) =
      if node_is_red l && node_is_red r
      then node true (blacken l) x (blacken r)
      else node is_red l x r

  -- The change of the grandparent: its child on the side `prev_direction` is the red parent, whose
  -- child on the side `side` is the red node.
  unfoldable pub mend : Direction → Direction → Tree A → Tree A
  unfolding rotate_once rotate_twice
  mend Direction.left Direction.left grandparent = rotate_once Direction.right grandparent
  mend Direction.left Direction.right grandparent = rotate_twice Direction.right grandparent
  mend Direction.right Direction.left grandparent = rotate_twice Direction.left grandparent
  mend Direction.right Direction.right grandparent = rotate_once Direction.left grandparent

  -- The red node, its sibling and its uncle.
  abbrev pub AreUnder : ℕ → Tree A → Tree A → Tree A → Type 0
  AreUnder k q sibling uncle =
      (node_is_red q ≡ true)
      × IsRedBlack k q
      × (node_is_red sibling ≡ false)
      × IsRedBlack k sibling
      × (node_is_red uncle ≡ false)
      × IsRedBlack k uncle

  -- A black grandparent over a red parent over the red node, with the data x and y of the first two.
  abbrev pub red_under_red : Direction → Direction → Tree A → Tree A → Tree A → A → A → Tree A
  red_under_red Direction.left Direction.left q s u x y = node false (node true q y s) x u
  red_under_red Direction.left Direction.right q s u x y = node false (node true s y q) x u
  red_under_red Direction.right Direction.left q s u x y = node false u x (node true q y s)
  red_under_red Direction.right Direction.right q s u x y = node false u x (node true s y q)

  inorder-blacken : (t : Tree A) → inorder (blacken t) ≡ inorder t
  unfolding blacken inorder
  inorder-blacken empty = refl
  inorder-blacken (node c l x r) = refl

  blacken-IsRedBlack :
      (k : ℕ) (t : Tree A) → node_is_red t ≡ true → IsRedBlack k t → IsRedBlack (suc k) (blacken t)
  unfolding blacken node_is_red
  blacken-IsRedBlack k empty e b = absurd (false≢true e)
  blacken-IsRedBlack k (node true l x r) e b = (k, refl, b.2, b.3)
  blacken-IsRedBlack k (node false l x r) e b = absurd (false≢true e)

  not_red-blacken : (t : Tree A) → node_is_red (blacken t) ≡ false
  unfolding blacken node_is_red
  not_red-blacken empty = refl
  not_red-blacken (node c l x r) = refl

  mend-IsRedBlack :
      (prev_direction side : Direction) (k : ℕ) (q s u : Tree A) (x y : A)
      → AreUnder k q s u
      → IsRedBlack (suc k) (mend prev_direction side (red_under_red prev_direction side q s u x y))
  unfolding mend rotate_once rotate_twice node_is_red
  mend-IsRedBlack prev side k empty s u x y h = absurd (false≢true h.0)
  mend-IsRedBlack prev side k (node false a z b) s u x y h = absurd (false≢true h.0)
  mend-IsRedBlack Direction.left Direction.left k (node true a z b) s u x y (e, q, n, g, m, v) =
      (k, refl, q, (n, m, g, v))
  mend-IsRedBlack Direction.right Direction.right k (node true a z b) s u x y (e, q, n, g, m, v) =
      (k, refl, (m, n, v, g), q)
  mend-IsRedBlack Direction.left Direction.right k (node true a z b) s u x y (e, q, n, g, m, v) =
      (k, refl, (n, q.0, g, q.2), (q.1, m, q.3, v))
  mend-IsRedBlack Direction.right Direction.left k (node true a z b) s u x y (e, q, n, g, m, v) =
      (k, refl, (m, q.0, v, q.2), (q.1, n, q.3, g))

  inorder-mend :
      (prev_direction side : Direction) (t : Tree A)
      → inorder (mend prev_direction side t) ≡ inorder t
  unfolding mend
  inorder-mend Direction.left Direction.left t = inorder-rotate_once Direction.right t
  inorder-mend Direction.left Direction.right t = inorder-rotate_twice Direction.right t
  inorder-mend Direction.right Direction.left t = inorder-rotate_twice Direction.left t
  inorder-mend Direction.right Direction.right t = inorder-rotate_once Direction.left t

  flip_colors-IsRedBlack : (h : ℕ) (t : Tree A) → IsRedBlack h t → IsRedBlack h (flip_colors t)
  unfolding flip_colors
  flip_colors-IsRedBlack h empty b = b
  flip_colors-IsRedBlack h (node c l x r) b = elim (Bool-cases (node_is_red l && node_is_red r)) [
    | inl e ↦ rw (e, flip_colors) (flipped c b (both (node_is_red l) (node_is_red r) e))
    | inr e ↦ rw (e, flip_colors) b
  ]
    where
      flipped :
          (c : Bool)
          → IsRedBlack h (node c l x r)
          → (node_is_red l ≡ true) × (node_is_red r ≡ true)
          → IsRedBlack h (node true (blacken l) x (blacken r))
      flipped true b (p, q) = absurd (false≢true (sym b.0 ∙ p))
      flipped false (k, e, u, v) (p, q) =
          subst (λ h. IsRedBlack h (node true (blacken l) x (blacken r))) (sym e)
            (
              not_red-blacken l,
              not_red-blacken r,
              blacken-IsRedBlack k l p u,
              blacken-IsRedBlack k r q v,
            )

  inorder-flip_colors : (t : Tree A) → inorder (flip_colors t) ≡ inorder t
  unfolding flip_colors inorder
  inorder-flip_colors empty = refl
  inorder-flip_colors (node c l x r) = elim (Bool-cases (node_is_red l && node_is_red r)) [
    | inl e ↦
        rw (e, flip_colors)
          (ap (λ z. z ++ (x ∷ inorder (blacken r))) (inorder-blacken l)
            ∙ ap (λ z. inorder l ++ (x ∷ z)) (inorder-blacken r))
    | inr e ↦ rw (e, flip_colors) refl
  ]

  -- A black node over a red child and a red child of it, with nothing else wrong below it, becomes a
  -- red-black tree of the black height that it should have, and the flip of colors leaves a red-black
  -- tree one of the same black height. Both leave the order of the data unchanged.
  pub mend_lem :
      (prev_direction side : Direction) (k h : ℕ) (q s u t : Tree A) (x y : A)
      → AreUnder k q s u
      → IsRedBlack h t
      → let g = red_under_red prev_direction side q s u x y in
        IsRedBlack (suc k) (mend prev_direction side g)
        × (inorder (mend prev_direction side g) ≡ inorder g)
        × IsRedBlack h (flip_colors t)
        × (inorder (flip_colors t) ≡ inorder t)
  mend_lem prev_direction side k h q s u t x y a b = (
    mend-IsRedBlack prev_direction side k q s u x y a,
    inorder-mend prev_direction side (red_under_red prev_direction side q s u x y),
    flip_colors-IsRedBlack h t b,
    inorder-flip_colors t,
  )
