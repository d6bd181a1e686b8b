-- ===== src/Rbt/Tree/Tests.antt =====
-- Runs of the functions of smrbt.c on a small tree.
use mathlib.Core.List.{Perm}
use cgr_jni.Base.{
  ℕ, suc, ◌+◌, ◌*◌, ◌^◌, ◌≡◌, ◌≤◌, ◌↔◌, refl, true, false, some, [], ◌∷◌, length, arith,
}
use cgr_jni.Rbt.{find, successors}
use cgr_jni.Rfx.{order_numbers}
use cgr_jni.Rfx.Orders.{order_numbers-IsOrder}
use cgr_jni.Rbt.Tree.{
  Direction, Tree, empty, node, Place, inorder, place, frame, traverse_rbt, rbt_first, rbt_last,
  climb, rbt_search, descend, note_successor, rotate_once,
}
use cgr_jni.Rbt.Tree.Places.{onward, upto, behind, before, traverse_rbt_lem}
use cgr_jni.Rbt.Tree.Search.{entry_of, rbt_search_lem}
use cgr_jni.Rbt.Tree.Mend.{mend, flip_colors, mend_lem}
use cgr_jni.Rbt.Tree.Destroy.{destroy_nodes, postorder, destroy_nodes_lem}
use cgr_jni.Rbt.Tree.Balance.{
  IsRedBlack, node_is_red, subtree_black_height, subtree_black_height_iff, tree_broken, depth,
  tree_broken_lem,
}

abbrev red_leaf : ℕ → Tree ℕ
red_leaf n = node true empty n empty

-- The black node 5 over the black node 2, which has the red child 3, and the black node 8.
abbrev four_nodes : Tree ℕ
four_nodes = node false (node false empty 2 (red_leaf 3)) 5 (node false empty 8 empty)

abbrev own_number : ℕ → ℕ
own_number n = n

-- The node 3 of that tree.
abbrev node_three : Place ℕ
node_three = place true empty 3 empty (
    frame Direction.right false 2 empty
    ∷ (frame Direction.left false 5 (node false empty 8 empty) ∷ []))

next_entry : entry_of (traverse_rbt Direction.right node_three) ≡ some 5
unfolding traverse_rbt climb
next_entry = refl

missing_key : entry_of (rbt_search order_numbers 4 four_nodes).successor ≡ some 5
unfolding rbt_search descend note_successor traverse_rbt climb order_numbers
missing_key = refl

traverse_rbt_example :
    (onward (traverse_rbt Direction.right node_three) ≡ behind node_three)
    × (upto (traverse_rbt Direction.left node_three) ≡ before node_three)
    × (onward (rbt_first four_nodes) ≡ inorder four_nodes)
    × (upto (rbt_last four_nodes) ≡ inorder four_nodes)
traverse_rbt_example = traverse_rbt_lem node_three four_nodes

rbt_search_example :
    (entry_of (rbt_search order_numbers 4 four_nodes).at
      ≡ find order_numbers 4 (inorder four_nodes))
    × (onward (rbt_search order_numbers 4 four_nodes).successor
        ≡ successors order_numbers 4 (inorder four_nodes))
unfolding inorder order_numbers
rbt_search_example =
    rbt_search_lem order_numbers own_number order_numbers-IsOrder 4 four_nodes
      ((refl, (refl, (refl, tt))), ((refl, (refl, tt)), ((refl, tt), (tt, tt))))

-- The red node 1 under the red node 2 under the black node 5.
abbrev red_violation : Tree ℕ
red_violation = node false (node true (red_leaf 1) 2 empty) 5 empty

-- A black node with two red children.
abbrev two_red : Tree ℕ
two_red = node false (red_leaf 1) 2 (red_leaf 3)

mended : mend Direction.left Direction.left red_violation ≡ node false (red_leaf 1) 2 (red_leaf 5)
unfolding mend rotate_once
mended = refl

mend_example :
    IsRedBlack 2 (mend Direction.left Direction.left red_violation)
    × (inorder (mend Direction.left Direction.left red_violation) ≡ inorder red_violation)
    × IsRedBlack 2 (flip_colors two_red)
    × (inorder (flip_colors two_red) ≡ inorder two_red)
unfolding node_is_red
mend_example =
    mend_lem Direction.left Direction.left 1 2 (red_leaf 1) empty empty two_red 5 2
      (refl, (refl, refl, refl, refl), refl, refl, refl, refl)
      (1, refl, (refl, refl, refl, refl), (refl, refl, refl, refl))

destroy_nodes_example :
    (destroy_nodes 9 four_nodes [] [] ≡ some (postorder four_nodes))
    × Perm (postorder four_nodes) (inorder four_nodes)
unfolding inorder
destroy_nodes_example = destroy_nodes_lem four_nodes 9 (omega arith)

subtree_black_height_example : (subtree_black_height four_nodes ≡ 3) ↔ IsRedBlack 3 four_nodes
subtree_black_height_example = subtree_black_height_iff four_nodes 3 (omega arith)

tree_broken_example :
    (h : ℕ) × (depth four_nodes ≤ 2 * h + 1) × (2 ^ h ≤ suc (length (inorder four_nodes)))
unfolding tree_broken subtree_black_height
tree_broken_example = tree_broken_lem four_nodes refl
