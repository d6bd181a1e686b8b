-- ===== src/Rfx/RangeRemoval.antt =====
-- The wild-card loops of rfx_remove_range in one direction.
use mathlib.Core.Bool.{false≢true}
use cgr_jni.Base.{
  ℕ, zero, suc, ◌≡◌, ◌≢◌, ◌<◌, ◌≤◌, ◌↔◌, inl, inr, refl, sym, ap, subst, Bool, true, false, ◌||◌,
  if◌then◌else◌, ltb, ◌==◌, ==_iff, Bool-cases, Option, none, some, List, [], ◌∷◌, ◌∈◌, arith, ◌∙◌,
  length,
}
use cgr_jni.Plan.{Key, order_keys}
use cgr_jni.Plan.Between
use cgr_jni.Plan.Between.{Between}
use cgr_jni.Plan.Order.{order_keys-IsOrder}
use cgr_jni.Rbt.{successors, delete}
use cgr_jni.Rbt.Change
use cgr_jni.Rbt.Sorted
use cgr_jni.Rfx.{Rxref, Ion, Env, rxref_key, order_rxrefs}
use cgr_jni.Rfx.Ranges.{delete_range, remove_ranges}
use cgr_jni.Rfx.RangeIndex.{IsRangePlan, delete_range_at-IsRangePlan}

-- A conditional deletion passes over asserted ranges.
abbrev pub Deletable : Bool → Rxref → Type 0
Deletable conditional r = conditional ≡ true → r.range_elt ≡ 0

pub delete_range_retained :
    (env : Env) (r : Rxref) (s : Ion) → r.range_elt ≢ 0 → delete_range env true r s ≡ s
unfolding delete_range
delete_range_retained env r s n = elim (Bool-cases (r.range_elt == 0)) [
  | inl e ↦ absurd (n ((==_iff r.range_elt 0).0 e))
  | inr e ↦ rw (e, delete_range) refl
]

delete_range_index :
    (env : Env) (conditional : Bool) (r : Rxref) (s : Ion)
    → Deletable conditional r
    → (delete_range env conditional r s).range_index
      ≡ delete order_rxrefs (rxref_key r) s.range_index
unfolding delete_range
delete_range_index env false r s d = refl
delete_range_index env true r s d = ground (arith, d refl)

module _ (env : Env) (conditional : Bool) (r : Rxref) (s : Ion) (d : Deletable conditional r) where
  abbrev pub t : Ion
  t = delete_range env conditional r s

  pub delete_range-IsRangePlan : IsRangePlan s.range_index → IsRangePlan t.range_index
  delete_range-IsRangePlan h =
      subst IsRangePlan (sym (delete_range_index env conditional r s d))
        (delete_range_at-IsRangePlan (rxref_key r) s.range_index h)

  pub delete_range_iff :
      (x : Rxref)
      → IsRangePlan s.range_index
      → (x ∈ t.range_index) ↔ ((x ∈ s.range_index) × (rxref_key x ≢ rxref_key r))
  delete_range_iff x h =
      subst (λ l. (x ∈ l) ↔ ((x ∈ s.range_index) × (rxref_key x ≢ rxref_key r)))
        (sym (delete_range_index env conditional r s d))
        (Change.delete_iff order_keys rxref_key order_keys-IsOrder (rxref_key r) s.range_index x
          h.sorted)

  pub length-delete_range :
      IsRangePlan s.range_index
      → r ∈ s.range_index
      → suc (length t.range_index) ≡ length s.range_index
  length-delete_range h m =
      subst (λ l. suc (length l) ≡ length s.range_index)
        (sym (delete_range_index env conditional r s d))
        (Change.length-delete order_keys rxref_key order_keys-IsOrder (rxref_key r) s.range_index r
          (Sorted.find-member order_keys rxref_key order_keys-IsOrder s.range_index r h.sorted m))

-- What a removal leaves of the range index.
abbrev pub LeavesRanges : (Rxref → Type 0) → Ion → Option Ion → Type 0
LeavesRanges P s r =
    (t : Ion) × (r ≡ some t)
    × IsRangePlan t.range_index
    × (length t.range_index ≤ length s.range_index)
    × ((x : Rxref) → (x ∈ t.range_index) ↔ ((x ∈ s.range_index) × ¬ P x))

module _ (env : Env) (conditional : Bool) (from_node to_node : ℕ) where
  abbrev pub Mine : Rxref → Type 0
  Mine r = Between from_node to_node (rxref_key r)

  abbrev arg : Key
  arg = Between.start from_node to_node

  abbrev later : Ion → List Rxref
  later s = successors order_rxrefs arg s.range_index

  started :
      (s : Ion) → IsRangePlan s.range_index → (r : Rxref) → r ∈ s.range_index → 0 < r.from_time
  started s h r m = (h.proper r m).0

  abbrev pub AllDeletable : Ion → Type 0
  AllDeletable s = (r : Rxref) → r ∈ s.range_index → Mine r → Deletable conditional r

  abbrev body : ℕ → Ion → List Rxref → Option Ion
  body fuel s xs = elim xs [
    | [] ↦ some s
    | rxref ∷ _ ↦
        let rest = remove_ranges fuel env conditional arg (delete_range env conditional rxref s) in
        if ltb from_node rxref.from_node || ltb to_node rxref.to_node then some s else rest
  ]

  pub remove_ranges-LeavesRanges :
      (fuel : ℕ) (s : Ion)
      → IsRangePlan s.range_index
      → AllDeletable s
      → length s.range_index < fuel
      → LeavesRanges Mine s (remove_ranges fuel env conditional arg s)
  unfolding remove_ranges
  remove_ranges-LeavesRanges zero s h d enough = absurd (omega arith)
  remove_ranges-LeavesRanges (suc fuel) s h d enough =
      go (λ t k e shorter. remove_ranges-LeavesRanges fuel t k e shorter) (later s) refl
    where
      unchanged : ((x : Rxref) → x ∈ s.range_index → ¬ Mine x) → LeavesRanges Mine s (some s)
      unchanged n = (s, refl, h, omega arith, λ x. (λ m. (m, n x m), λ k. k.0))

      rest :
          (r : Rxref)
          → r ∈ s.range_index
          → Mine r
          → Deletable conditional r
          → LeavesRanges Mine
              (delete_range env conditional r s)
              (remove_ranges fuel env conditional arg (delete_range env conditional r s))
          → LeavesRanges Mine s
              (remove_ranges fuel env conditional arg (delete_range env conditional r s))
      rest r m b e (t, f, plan, short, k) = (
        t,
        f,
        plan,
        omega (arith, short, length-delete_range env conditional r s e h m),
        λ x. (
          λ m.
              let (left, n) = (k x).0 m in
              (((delete_range_iff env conditional r s e x h).0 left).0, n),
          λ (m, n). (k x).1 (
            (delete_range_iff env conditional r s e x h).1
                (m, λ g. n (ap (λ z. z.from_node) g ∙ b.0, ap (λ z. z.to_node) g ∙ b.1)),
            n,
          ),
        ),
      )

      go :
          ((t : Ion)
            → IsRangePlan t.range_index
            → ((r : Rxref) → r ∈ t.range_index → Mine r → Deletable conditional r)
            → length t.range_index < fuel
            → LeavesRanges Mine t (remove_ranges fuel env conditional arg t))
          → (xs : List Rxref) → later s ≡ xs
          → LeavesRanges Mine s (body fuel s xs)
      go again [] e = unchanged (λ x m b.
          subst (λ l. x ∈ l) e
            (Between.later_complete rxref_key s.range_index h.sorted (started s h) from_node to_node
              x m b))
      go again (r ∷ rs) e = elim (Bool-cases (Between.beyond from_node to_node (rxref_key r))) [
        | inl b ↦ rw b (
            unchanged (
              Between.none_mine rxref_key s.range_index h.sorted (started s h) from_node to_node r
                rs e b))
        | inr b ↦ rw b (
            let (m, p) =
              Between.later_in rxref_key s.range_index h.sorted (started s h) from_node to_node r
                (subst (λ l. r ∈ l) (sym e) (inl refl)) in
            let mine = Between.first_mine from_node to_node (rxref_key r) p b in
            let ok = d r m mine in
            let shorter = length-delete_range env conditional r s ok h m in
            rest r m mine ok (
              again (delete_range env conditional r s)
                (delete_range-IsRangePlan env conditional r s ok h)
                (λ x x_in. d x ((delete_range_iff env conditional r s ok x h).0 x_in).0)
                (omega arith)))
      ]

-- Where the reverse direction has an asserted range, no fuel is enough for the conditional loop.
module _ (env : Env) (from_node to_node : ℕ) where
  pub remove_ranges_stuck :
      (fuel : ℕ) (s : Ion) (r : Rxref)
      → IsRangePlan s.range_index
      → r ∈ s.range_index
      → Mine env true from_node to_node r
      → r.range_elt ≢ 0
      → remove_ranges fuel env true (Between.start from_node to_node) s ≡ none
  unfolding remove_ranges
  remove_ranges_stuck zero s r h m mine asserted = refl
  remove_ranges_stuck (suc fuel) s r h m mine asserted =
      go (λ t k n. remove_ranges_stuck fuel t r k n mine asserted)
        (later env true from_node to_node s) refl
    where
      deleted :
          ((t : Ion)
            → IsRangePlan t.range_index
            → r ∈ t.range_index
            → remove_ranges fuel env true (Between.start from_node to_node) t ≡ none)
          → (x : Rxref) → x ∈ s.range_index
          → remove_ranges fuel env true
              (Between.start from_node to_node)
              (delete_range env true x s)
            ≡ none
      deleted again x x_in = elim (Bool-cases (x.range_elt == 0)) [
        | inl imputed ↦
            let gone : Deletable true x = λ _. (==_iff x.range_elt 0).0 imputed in
            again (delete_range env true x s) (delete_range-IsRangePlan env true x s gone h) (
              (delete_range_iff env true x s gone r h).1 (
                m,
                λ k. asserted (
                    ap (λ z. z.range_elt)
                      (Sorted.key-inj order_keys rxref_key order_keys-IsOrder s.range_index r x
                        h.sorted m x_in k)
                    ∙ gone refl),
              ))
        | inr kept ↦
            rw
              (delete_range_retained env x s
                (λ e. false≢true (sym kept ∙ (==_iff x.range_elt 0).1 e)))
              (again s h m)
      ]

      go :
          ((t : Ion)
            → IsRangePlan t.range_index
            → r ∈ t.range_index
            → remove_ranges fuel env true (Between.start from_node to_node) t ≡ none)
          → (xs : List Rxref) → later env true from_node to_node s ≡ xs
          → body env true from_node to_node fuel s xs ≡ none
      go again [] e = absurd (
          subst (λ l. r ∈ l) e
            (Between.later_complete rxref_key s.range_index h.sorted
              (started env true from_node to_node s h) from_node to_node r m mine))
      go again (x ∷ xs) e = elim (Bool-cases (Between.beyond from_node to_node (rxref_key x))) [
        | inl b ↦ absurd (
            Between.none_mine rxref_key s.range_index h.sorted
              (started env true from_node to_node s h) from_node to_node x xs e b r m mine)
        | inr b ↦ rw b (
            deleted again x
              (Between.later_in rxref_key s.range_index h.sorted
                (started env true from_node to_node s h) from_node to_node x
                (subst (λ l. x ∈ l) (sym e) (inl refl))).0)
      ]
