-- ===== src/Rbt/Tree.antt =====
-- The nodes of ici/library/smrbt.c: searches, traversal and rotations on a tree.
--
-- A node is reached by a path from the root, which stands for its `parent` pointers: one frame for
-- each ancestor, nearest first, with the side on which the path leaves it and what lies on its other
-- side.
pub mod Places
pub mod Search
pub mod Rotate
pub mod Destroy
pub mod Balance
pub mod Mend
mod Tests
use Prim.Native.Nat.{Ordering}
use cgr_jni.Base.{Bool, true, false, Option, none, some, List, [], ◌∷◌, ◌++◌}

pub data Direction : Type 0 where
  left : Direction
  right : Direction

pub data Tree (A : Type 0) : Type 0 where
  empty : Tree A
  node : Bool → Tree A → A → Tree A → Tree A

pub record Frame (A : Type 0) : Type 0 where
  pub side : Direction
  pub is_red : Bool
  pub entry : A
  pub other : Tree A

-- A node of a tree, by its children and the path to it.
pub record Place (A : Type 0) : Type 0 where
  pub is_red : Bool
  pub before : Tree A
  pub entry : A
  pub behind : Tree A
  pub path : List (Frame A)

module _ {A : Type 0} where
  -- The data from first to last, which is how the users of a tree see it.
  unfoldable pub inorder : Tree A → List A
  inorder empty = []
  inorder (node is_red l x r) = inorder l ++ (x ∷ inorder r)

  abbrev frame : Direction → Bool → A → Tree A → Frame A
  frame side is_red x other = record { side = side; is_red = is_red; entry = x; other = other }

  abbrev place : Bool → Tree A → A → Tree A → List (Frame A) → Place A
  place is_red l x r path = record {
    is_red = is_red;
    before = l;
    entry = x;
    behind = r;
    path = path;
  }

  -- The loops that go to the leftmost or rightmost node.
  unfoldable pub leftmost : Tree A → List (Frame A) → Option (Place A)
  leftmost empty path = none
  leftmost (node is_red l x r) path = elim (leftmost l (frame Direction.left is_red x r ∷ path)) [
    | none ↦ some (place is_red l x r path)
    | some first ↦ some first
  ]

  unfoldable pub rightmost : Tree A → List (Frame A) → Option (Place A)
  rightmost empty path = none
  rightmost (node is_red l x r) path =
      elim (rightmost r (frame Direction.right is_red x l ∷ path)) [
        | none ↦ some (place is_red l x r path)
        | some last ↦ some last
      ]

  -- The way up to the first ancestor that is left on the given side.
  unfoldable pub climb : Direction → Tree A → List (Frame A) → Option (Place A)
  climb Direction.left subtree [] = none
  climb Direction.left subtree (f ∷ path) = elim f.side [
    | Direction.left ↦ some (place f.is_red subtree f.entry f.other path)
    | Direction.right ↦ climb Direction.left (node f.is_red f.other f.entry subtree) path
  ]
  climb Direction.right subtree [] = none
  climb Direction.right subtree (f ∷ path) = elim f.side [
    | Direction.left ↦ climb Direction.right (node f.is_red subtree f.entry f.other) path
    | Direction.right ↦ some (place f.is_red f.other f.entry subtree path)
  ]

  -- `traverseRbt`: `right` goes to the next node and `left` to the previous one.
  unfoldable pub traverse_rbt : Direction → Place A → Option (Place A)
  unfolding leftmost rightmost climb
  traverse_rbt Direction.right p = elim p.behind [
    | empty ↦ climb Direction.left (node p.is_red p.before p.entry empty) p.path
    | node is_red l x r ↦
        leftmost (node is_red l x r) (frame Direction.right p.is_red p.entry p.before ∷ p.path)
  ]
  traverse_rbt Direction.left p = elim p.before [
    | empty ↦ climb Direction.right (node p.is_red empty p.entry p.behind) p.path
    | node is_red l x r ↦
        rightmost (node is_red l x r) (frame Direction.left p.is_red p.entry p.behind ∷ p.path)
  ]

  unfoldable pub rbt_first : Tree A → Option (Place A)
  unfolding leftmost
  rbt_first tree = leftmost tree []

  unfoldable pub rbt_last : Tree A → Option (Place A)
  unfolding rightmost
  rbt_last tree = rightmost tree []

  -- The successor that `sm_rbt_search` notes where it has not found the key: the last node that it
  -- has met, or the one after it.
  unfoldable pub note_successor : Option (Place A) → Direction → Option (Place A)
  unfolding traverse_rbt
  note_successor prev Direction.left = prev
  note_successor prev Direction.right = elim prev [
    | none ↦ none
    | some p ↦ traverse_rbt Direction.right p
  ]

  -- `rotateOnce` and `rotateTwice`, which are called where the children that they read exist: where
  -- one does not, C would follow a null pointer, and the tree is left as it is here.
  unfoldable pub rotate_once : Direction → Tree A → Tree A
  rotate_once Direction.left (node _ l x (node _ orphan y r)) =
      node false (node true l x orphan) y r
  rotate_once Direction.right (node _ (node _ l y orphan) x r) =
      node false l y (node true orphan x r)
  rotate_once _ tree = tree

  unfoldable pub rotate_twice : Direction → Tree A → Tree A
  unfolding rotate_once
  rotate_twice Direction.left (node is_red l x r) =
      rotate_once Direction.left (node is_red l x (rotate_once Direction.right r))
  rotate_twice Direction.right (node is_red l x r) =
      rotate_once Direction.right (node is_red (rotate_once Direction.left l) x r)
  rotate_twice _ empty = empty

-- What `sm_rbt_search` returns, and `*successor`.
pub record Found (A : Type 0) : Type 0 where
  pub at : Option (Place A)
  pub successor : Option (Place A)

module _ {A K : Type 0} (compare : A → K → Ordering) (arg : K) where
  -- The descent: the last node that it has met and the direction that it has taken there.
  unfoldable pub descend : Tree A → List (Frame A) → Option (Place A) → Direction → Found A
  unfolding note_successor
  descend empty path prev direction = record {
    at = none;
    successor = note_successor prev direction;
  }
  descend (node is_red l x r) path prev direction =
      let here = some (place is_red l x r path) in
      elim (compare x arg) [
        | Ordering.eq ↦ record { at = here; successor = none }
        | Ordering.lt ↦ descend r (frame Direction.right is_red x l ∷ path) here Direction.right
        | Ordering.gt ↦ descend l (frame Direction.left is_red x r ∷ path) here Direction.left
      ]

  unfoldable pub rbt_search : Tree A → Found A
  unfolding descend
  rbt_search tree = descend tree [] none Direction.left
