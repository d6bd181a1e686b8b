-- ===== src/Plan/Between.antt =====
-- The wild-card searches of rfx.c, from (from, to, 0) on.
use Prim.Native.Nat.{Ordering}
use cgr_jni.Base.{
  ℕ, ◌≡◌, ◌<◌, inl, inr, refl, sym, ap, subst, Bool, true, false, ◌||◌, ltb, none, Option-cases,
  List, ◌∷◌, ◌∈◌, All-mem, arith,
}
use cgr_jni.Rbt.Places
use cgr_jni.Rbt.Sorted
use cgr_jni.Plan.{Key, order_keys, find, successors}
use cgr_jni.Plan.Order.{◌≺◌, ≺_asym, order_keys-IsOrder}

pub between :
    (a b c : Key)
    → a ≺ b
    → b ≺ c
    → a.from_node ≡ c.from_node
    → a.to_node ≡ c.to_node
    → (a.from_node ≡ b.from_node) × (a.to_node ≡ b.to_node)
unfolding order_keys
between a b c p q e f = ground arith

abbrev pub Between : ℕ → ℕ → Key → Type 0
Between from_node to_node k = (k.from_node ≡ from_node) × (k.to_node ≡ to_node)

abbrev pub start : ℕ → ℕ → Key
start from_node to_node = record { from_node = from_node; to_node = to_node; from_time = 0 }

-- The test that ends the loops.
abbrev pub beyond : ℕ → ℕ → Key → Bool
beyond from_node to_node k = ltb from_node k.from_node || ltb to_node k.to_node

start-before :
    (from_node to_node : ℕ) (k : Key)
    → Between from_node to_node k
    → 0 < k.from_time
    → start from_node to_node ≺ k
unfolding order_keys
start-before from_node to_node k b p = ground arith

pub first_mine :
    (from_node to_node : ℕ) (k : Key)
    → start from_node to_node ≺ k
    → beyond from_node to_node k ≡ false
    → Between from_node to_node k
unfolding order_keys
first_mine from_node to_node k p b = ground arith

module _ {A : Type 0} (key : A → Key) (index : List A)
    (sorted : Sorted.IsSorted order_keys key index)
    (started : (x : A) → x ∈ index → 0 < (key x).from_time) (from_node to_node : ℕ) where
  abbrev compare : A → Key → Ordering
  compare = Sorted.compare order_keys key

  abbrev later : List A
  later = successors compare (start from_node to_node) index

  no_start : find compare (start from_node to_node) index ≡ none
  no_start = elim (Option-cases (find compare (start from_node to_node) index)) [
    | inl e ↦ e
    | inr (x, e) ↦
        let (m, k) =
          Sorted.find-some order_keys key order_keys-IsOrder (start from_node to_node) index x e in
        absurd (omega (arith, started x m, ap (λ z. z.from_time) k))
  ]

  pub later_complete : (x : A) → x ∈ index → Between from_node to_node (key x) → x ∈ later
  later_complete x m b =
      elim (Places.two_sides order_keys key (start from_node to_node) index x no_start m) [
        | inl before ↦ absurd (
            ≺_asym (start from_node to_node) (key x)
              (start-before from_node to_node (key x) b (started x m))
              (Places.predecessors-before order_keys key (start from_node to_node) index x
                before).1)
        | inr behind ↦ behind
      ]

  pub later_in : (x : A) → x ∈ later → (x ∈ index) × (start from_node to_node ≺ key x)
  later_in x m =
      Places.successors-behind order_keys key order_keys-IsOrder (start from_node to_node) index x
        sorted m

  -- Where the first entry behind the start is between other nodes, so are all.
  pub none_mine :
      (x : A) (xs : List A)
      → later ≡ x ∷ xs
      → beyond from_node to_node (key x) ≡ true
      → (y : A) → y ∈ index
      → ¬ Between from_node to_node (key y)
  none_mine x xs e b y m at =
      let behind =
        Places.successors-IsSorted order_keys key (start from_node to_node) index sorted in
      let ordered = subst (Sorted.IsSorted order_keys key) e behind in
      let (x_in, p) = later_in x (subst (λ l. x ∈ l) (sym e) (inl refl)) in
      elim (subst (λ l. y ∈ l) e (later_complete y m at)) [
        | inl same ↦
            ground (arith, ap (λ z. (key z).from_node) same, ap (λ z. (key z).to_node) same)
        | inr after ↦
            let q = All-mem (λ z. order_keys (key x) (key z) ≡ Ordering.lt) y xs ordered.0 after in
            let (f, g) =
              between (start from_node to_node) (key x) (key y) p q (sym at.0) (sym at.1) in
            ground (arith, f, g)
      ]
