-- ===== src/Rbt/Tree/Balance.antt =====
-- The balance of red-black trees, which `treeBroken` and `subtreeBlackHeight` test in debug builds.
use Prim.Native.Nat.{max}
use mathlib.Core.Bool.{false≢true}
use native.Mathlib.Nat.{pow-suc}
use cgr_jni.Base.{
  ℕ, zero, suc, ◌+◌, ◌*◌, ◌^◌, ◌≡◌, ◌≤◌, ◌<◌, ◌↔◌, ◌∙◌, refl, sym, ap, subst, Bool, true, false,
  not, ◌&&◌, ◌||◌, ◌==◌, if◌then◌else◌, length, length-append, ◌∷◌, arith,
}
use cgr_jni.Rbt.Tree.{Tree, empty, node, inorder}

red_to :
    (rl rr : Bool) (a b h : ℕ)
    → 0 < h
    → (if rl
        then 0
        else if rr
        then 0
        else if a == 0 || b == 0
        then 0
        else if not (a == b)
        then 0
        else a)
      ≡ h
    → (rl ≡ false) × (rr ≡ false) × (a ≡ h) × (b ≡ h)
red_to rl rr a b h p e = ground arith

red_back :
    (rl rr : Bool) (a b h : ℕ)
    → 0 < h
    → (rl ≡ false) × (rr ≡ false) × (a ≡ h) × (b ≡ h)
    → (if rl
        then 0
        else if rr
        then 0
        else if a == 0 || b == 0
        then 0
        else if not (a == b)
        then 0
        else a)
      ≡ h
red_back rl rr a b h p e = ground arith

black_to :
    (a b h : ℕ)
    → 0 < h
    → (if a == 0 || b == 0 then 0 else if not (a == b) then 0 else suc a) ≡ h
    → (h ≡ suc a) × (0 < a) × (b ≡ a)
black_to a b h p e = ground arith

black_back :
    (a b h : ℕ)
    → (h ≡ suc a) × (0 < a) × (b ≡ a)
    → (if a == 0 || b == 0 then 0 else if not (a == b) then 0 else suc a) ≡ h
black_back a b h e = ground arith

module _ {A : Type 0} where
  unfoldable pub node_is_red : Tree A → Bool
  node_is_red empty = false
  node_is_red (node is_red l x r) = is_red

  -- 0 says that the subtree is broken.
  unfoldable pub subtree_black_height : Tree A → ℕ
  unfolding node_is_red
  subtree_black_height empty = 1
  subtree_black_height (node is_red l x r) =
      let height_left = subtree_black_height l in
      let height_right = subtree_black_height r in
      if is_red && node_is_red l
      then 0
      else if is_red && node_is_red r
      then 0
      else if height_left == 0 || height_right == 0
      then 0
      else if not (height_left == height_right)
      then 0
      else if is_red
      then height_left
      else suc height_left

  unfoldable pub tree_broken : Tree A → Bool
  unfolding subtree_black_height
  tree_broken tree = subtree_black_height tree == 0

  -- No red node has a red child, and all paths down from a node meet the same number of black
  -- nodes, the empty one at the end included.
  abbrev pub IsRedBlack : ℕ → Tree A → Type 0
  IsRedBlack h empty = h ≡ 1
  IsRedBlack h (node true l x r) =
      (node_is_red l ≡ false) × (node_is_red r ≡ false) × IsRedBlack h l × IsRedBlack h r
  IsRedBlack h (node false l x r) = (k : ℕ) × (h ≡ suc k) × IsRedBlack k l × IsRedBlack k r

  IsRedBlack-pos : (h : ℕ) (t : Tree A) → IsRedBlack h t → 0 < h
  IsRedBlack-pos h empty b = omega arith
  IsRedBlack-pos h (node true l x r) b = IsRedBlack-pos h l b.2
  IsRedBlack-pos h (node false l x r) b = omega (arith, b.1)

  -- Where `subtreeBlackHeight` answers a positive number, the subtree is a red-black tree of that
  -- black height, and otherwise it is none.
  pub subtree_black_height_iff :
      (t : Tree A) (h : ℕ) → 0 < h → (subtree_black_height t ≡ h) ↔ IsRedBlack h t
  unfolding subtree_black_height
  subtree_black_height_iff empty h p = (λ e. sym e, λ e. sym e)
  subtree_black_height_iff (node true l x r) h p =
      let hl = subtree_black_height_iff l h p in
      let hr = subtree_black_height_iff r h p in
      (
        λ e.
            let (u, v, a, b) =
              red_to (node_is_red l) (node_is_red r) (subtree_black_height l)
                (subtree_black_height r) h p e in
            (u, v, hl.0 a, hr.0 b),
        λ (u, v, a, b).
            red_back (node_is_red l) (node_is_red r) (subtree_black_height l)
              (subtree_black_height r) h p (u, v, hl.1 a, hr.1 b),
      )
  subtree_black_height_iff (node false l x r) h p = (
    λ e.
        let (u, q, b) = black_to (subtree_black_height l) (subtree_black_height r) h p e in
        (
          subtree_black_height l,
          u,
          (subtree_black_height_iff l (subtree_black_height l) q).0 refl,
          (subtree_black_height_iff r (subtree_black_height l) q).0 b,
        ),
    λ (k, u, a, b).
        let q = IsRedBlack-pos k l a in
        let a' = (subtree_black_height_iff l k q).1 a in
        let b' = (subtree_black_height_iff r k q).1 b in
        black_back (subtree_black_height l) (subtree_black_height r) h
          (u ∙ ap suc (sym a'), omega (arith, a', q), b' ∙ sym a'),
  )

  -- The length of the longest path down.
  pub depth : Tree A → ℕ
  depth empty = 0
  depth (node c l x r) = suc (max (depth l) (depth r))

  abbrev redness : Tree A → ℕ
  redness empty = 0
  redness (node true l x r) = 1
  redness (node false l x r) = 0

  redness_le : (t : Tree A) → redness t ≤ 1
  redness_le empty = omega arith
  redness_le (node true l x r) = omega arith
  redness_le (node false l x r) = omega arith

  not_red : (t : Tree A) → node_is_red t ≡ false → redness t ≡ 0
  unfolding node_is_red
  not_red empty e = refl
  not_red (node true l x r) e = cc
  not_red (node false l x r) e = refl

  depth-le : (t : Tree A) (h : ℕ) → IsRedBlack (suc h) t → depth t ≤ 2 * h + redness t
  unfolding depth
  depth-le empty h b = omega arith
  depth-le (node true l x r) h (u, v, a, b) =
      omega (arith, depth-le l h a, depth-le r h b, not_red l u, not_red r v)
  depth-le (node false l x r) h (zero, e, a, b) = absurd (omega (arith, IsRedBlack-pos 0 l a))
  depth-le (node false l x r) h (suc j, e, a, b) =
      omega (arith, e, depth-le l j a, depth-le r j b, redness_le l, redness_le r)

  size-ge : (t : Tree A) (h : ℕ) → IsRedBlack (suc h) t → 2 ^ h ≤ suc (length (inorder t))
  unfolding inorder
  size-ge empty h b =
      let none_black : h ≡ 0 = omega (arith, b) in
      subst (λ k. 2 ^ k ≤ 1) (sym none_black) (omega arith)
  size-ge (node true l x r) h (u, v, a, b) =
      omega (arith, size-ge l h a, size-ge r h b, length-append (inorder l) (x ∷ inorder r))
  size-ge (node false l x r) h (zero, e, a, b) = absurd (omega (arith, IsRedBlack-pos 0 l a))
  size-ge (node false l x r) h (suc j, e, a, b) =
      let more : h ≡ suc j = omega (arith, e) in
      subst (λ k. 2 ^ k ≤ suc (length (inorder (node false l x r)))) (sym more)
        (omega (
          arith,
          pow-suc 2 j,
          size-ge l j a,
          size-ge r j b,
          length-append (inorder l) (x ∷ inorder r),
        ))

  -- A tree that `treeBroken` accepts is balanced: no path in it is longer than 2 h + 1 nodes for some
  -- h for which it holds at least 2^h - 1 data.
  pub tree_broken_lem :
      (t : Tree A)
      → tree_broken t ≡ false
      → (h : ℕ) × (depth t ≤ 2 * h + 1) × (2 ^ h ≤ suc (length (inorder t)))
  unfolding tree_broken
  tree_broken_lem t e = go (subtree_black_height t) refl e
    where
      go :
          (n : ℕ)
          → subtree_black_height t ≡ n
          → (n == 0) ≡ false
          → (h : ℕ) × (depth t ≤ 2 * h + 1) × (2 ^ h ≤ suc (length (inorder t)))
      go zero k e = absurd (false≢true (sym e))
      go (suc h) k e =
          let b = (subtree_black_height_iff t (suc h) (omega arith)).0 k in
          (h, omega (arith, depth-le t h b, redness_le t), size-ge t h b)
