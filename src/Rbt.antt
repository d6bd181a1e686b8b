-- ===== src/Rbt.antt =====
-- The red-black trees of ici/library/smrbt.c, as their users see them: a tree is the list of its
-- data from first to last, and a position in it is the rest of the list from there on, so that
-- `sm_rbt_next` is the tail.
pub mod Tree
pub mod Sorted
pub mod Places
pub mod Change
pub mod Lookup
use Prim.Native.Nat.{Ordering}
use cgr_jni.Base.{List, [], ◌∷◌, Option, none, some}

module _ {A : Type 0} where
  -- `sm_rbt_last`.
  unfoldable pub last : List A → Option A
  last [] = none
  last (x ∷ xs) = elim xs [ [] ↦ some x | _ ∷ _ ↦ last xs ]

module _ {A K : Type 0} (compare : A → K → Ordering) where
  -- `sm_rbt_search`: `find` is the node that it returns and `successors` starts at the node that
  -- it stores in `*successor`, which is moot (0) when the key is found.
  unfoldable pub find : K → List A → Option A
  find arg [] = none
  find arg (x ∷ xs) = elim (compare x arg) [
    | Ordering.lt ↦ find arg xs
    | Ordering.eq ↦ some x
    | Ordering.gt ↦ none
  ]

  unfoldable pub successors : K → List A → List A
  successors arg [] = []
  successors arg (x ∷ xs) = elim (compare x arg) [
    | Ordering.lt ↦ successors arg xs
    | Ordering.eq ↦ []
    | Ordering.gt ↦ x ∷ xs
  ]

  -- The part of the tree before the key: its last node is the one that `sm_rbt_prev` finds from
  -- the successor.
  unfoldable pub predecessors : K → List A → List A
  predecessors arg [] = []
  predecessors arg (x ∷ xs) = elim (compare x arg) [
    | Ordering.lt ↦ x ∷ predecessors arg xs
    | Ordering.eq ↦ []
    | Ordering.gt ↦ []
  ]

  -- `sm_rbt_insert` goes right of the data that compare less and left of all others.
  unfoldable pub insert : K → A → List A → List A
  insert arg entry [] = entry ∷ []
  insert arg entry (x ∷ xs) = elim (compare x arg) [
    | Ordering.lt ↦ x ∷ insert arg entry xs
    | Ordering.eq ↦ entry ∷ x ∷ xs
    | Ordering.gt ↦ entry ∷ x ∷ xs
  ]

  -- `sm_rbt_delete`, which does nothing when the key is not there.
  unfoldable pub delete : K → List A → List A
  delete arg [] = []
  delete arg (x ∷ xs) = elim (compare x arg) [
    | Ordering.lt ↦ x ∷ delete arg xs
    | Ordering.eq ↦ xs
    | Ordering.gt ↦ x ∷ xs
  ]
