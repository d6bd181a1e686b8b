-- ===== src/Rfx/RangeEnds.antt =====
-- The two directions of `rfx_remove_range`.
use cgr_jni.Base.{
  ℕ, zero, suc, ◌≡◌, ◌≢◌, ◌<◌, ◌≤◌, ◌⊎◌, ◌↔◌, inl, inr, refl, sym, ap, subst, Bool, true, false,
  if◌then◌else◌, ltb, lt→ltb, ltb→lt, ◌==◌, ==_iff, Bool-cases, Option, none, some, ◌∈◌, arith, ◌∙◌,
  length,
}
use mathlib.Core.Bool.{false≢true}
use cgr_jni.Plan.{Key, order_keys}
use cgr_jni.Plan.Between.{Between}
use cgr_jni.Plan.Order.{order_keys-IsOrder}
use cgr_jni.Rbt.{find}
use cgr_jni.Rbt.Sorted
use cgr_jni.Rfx.{Rxref, Ion, Env, rxref_key, order_rxrefs}
use cgr_jni.Rfx.Ranges.{delete_range, remove_direction, remove_range}
use cgr_jni.Rfx.RangeIndex.{IsRangePlan}
use cgr_jni.Rfx.RangeRemoval.{
  Deletable, LeavesRanges, AllDeletable, delete_range_retained, delete_range-IsRangePlan,
  delete_range_iff, length-delete_range, remove_ranges-LeavesRanges, remove_ranges_stuck,
}

-- The ranges of one direction that a call names: one start time, or 0 for all.
abbrev pub Named : ℕ → ℕ → ℕ → Rxref → Type 0
Named from_time from_node to_node r =
    Between from_node to_node (rxref_key r) × ((from_time ≡ 0) ⊎ (r.from_time ≡ from_time))

Deletable-or :
    (conditional : Bool) (r : Rxref)
    → Deletable conditional r ⊎ ((conditional ≡ true) × (r.range_elt ≢ 0))
Deletable-or false r = inl (λ e. absurd (false≢true e))
Deletable-or true r = elim (Bool-cases (r.range_elt == 0)) [
  | inl e ↦ inl (λ _. (==_iff r.range_elt 0).0 e)
  | inr e ↦ inr (refl, λ k. false≢true (sym e ∙ (==_iff r.range_elt 0).1 k))
]

module _ (env : Env) (conditional : Bool) (from_node to_node : ℕ) where
  -- What one direction removes.
  abbrev Gone : ℕ → Rxref → Type 0
  Gone from_time r = Named from_time from_node to_node r × Deletable conditional r

  remove_one-LeavesRanges :
      (fuel from_time : ℕ) (s : Ion)
      → IsRangePlan s.range_index
      → 0 < from_time
      → LeavesRanges (Gone from_time) s (
          remove_direction fuel env conditional
            (record { from_node = from_node; to_node = to_node; from_time = from_time })
            s)
  unfolding remove_direction
  remove_one-LeavesRanges fuel from_time s h p =
      rw (lt→ltb 0 from_time p, remove_direction) (go (find order_rxrefs key s.range_index) refl)
    where
      key : Key
      key = record { from_node = from_node; to_node = to_node; from_time = from_time }

      named_key : (r : Rxref) → Named from_time from_node to_node r ↔ (rxref_key r ≡ key)
      named_key r = (
        λ (b, t). elim t [ inl e ↦ absurd (omega arith) | inr e ↦ ground (arith, b, e) ],
        λ e. ((ap (λ z. z.from_node) e, ap (λ z. z.to_node) e), inr (ap (λ z. z.from_time) e)),
      )

      same_range :
          (x r : Rxref) → x ∈ s.range_index → r ∈ s.range_index → rxref_key x ≡ rxref_key r → x ≡ r
      same_range x r m n e =
          Sorted.key-inj order_keys rxref_key order_keys-IsOrder s.range_index x r h.sorted m n e

      unchanged :
          ((x : Rxref) → x ∈ s.range_index → ¬ Gone from_time x)
          → LeavesRanges (Gone from_time) s (some s)
      unchanged n = (s, refl, h, omega arith, λ x. (λ m. (m, n x m), λ k. k.0))

      delete_it :
          (r : Rxref)
          → r ∈ s.range_index
          → rxref_key r ≡ key
          → Deletable conditional r
          → LeavesRanges (Gone from_time) s (some (delete_range env conditional r s))
      delete_it r r_in k d = (
        delete_range env conditional r s,
        refl,
        delete_range-IsRangePlan env conditional r s d h,
        omega (arith, length-delete_range env conditional r s d h r_in),
        λ x. (
          λ m.
              let (x_in, n) = (delete_range_iff env conditional r s d x h).0 m in
              (x_in, λ g. n ((named_key x).0 g.0 ∙ sym k)),
          λ (m, n). (delete_range_iff env conditional r s d x h).1 (
            m,
            λ e. n (
              (named_key x).1 (e ∙ k),
              subst (Deletable conditional) (sym (same_range x r m r_in e)) d,
            ),
          ),
        ),
      )

      go :
          (f : Option Rxref)
          → find order_rxrefs key s.range_index ≡ f
          → LeavesRanges
              (Gone from_time)
              s
              (elim f [ some rxref ↦ some (delete_range env conditional rxref s) | none ↦ some s ])
      go none e = unchanged (λ x m g.
          Sorted.find-none order_keys rxref_key order_keys-IsOrder key s.range_index x h.sorted e m
            ((named_key x).0 g.0))
      go (some r) e =
          let (r_in, k) =
            Sorted.find-some order_keys rxref_key order_keys-IsOrder key s.range_index r e in
          elim (Deletable-or conditional r) [
            | inl d ↦ delete_it r r_in k d
            | inr (c, asserted) ↦
                subst (λ t. LeavesRanges (Gone from_time) s (some t))
                  (sym (
                    subst (λ b. delete_range env b r s ≡ s) (sym c)
                      (delete_range_retained env r s asserted)))
                  (unchanged (λ x m g. asserted (
                    subst (Deletable conditional)
                      (same_range x r m r_in ((named_key x).0 g.0 ∙ sym k)) g.1 c)))
          ]

  -- A wild-card removal needs fuel, and ranges that it may delete.
  remove_direction-LeavesRanges :
      (fuel from_time : ℕ) (s : Ion)
      → IsRangePlan s.range_index
      → (from_time ≡ 0 → AllDeletable env conditional from_node to_node s)
      → length s.range_index < fuel
      → LeavesRanges (Gone from_time) s (
          remove_direction fuel env conditional
            (record { from_node = from_node; to_node = to_node; from_time = from_time })
            s)
  unfolding remove_direction
  remove_direction-LeavesRanges fuel zero s h d enough =
      let (t, e, plan, short, k) =
        remove_ranges-LeavesRanges env conditional from_node to_node fuel s h (d refl) enough in
      (
        t,
        e,
        plan,
        short,
        λ x. (
          λ m. let (m', n) = (k x).0 m in (m', λ g. n g.0.0),
          λ (m, n). (k x).1 (m, λ b. n ((b, inl refl), d refl x m b)),
        ),
      )
  remove_direction-LeavesRanges fuel (suc from_time) s h d enough =
      remove_one-LeavesRanges fuel (suc from_time) s h (omega arith)

-- Both directions: the reverse one is for the ranges imputed from the others.
abbrev pub RemovedRange : ℕ → ℕ → ℕ → Rxref → Type 0
RemovedRange from_time from_node to_node r =
    Named from_time from_node to_node r
    ⊎ ((from_node ≤ to_node) × Named from_time to_node from_node r × (r.range_elt ≡ 0))

module _ (env : Env) (from_node to_node : ℕ) where
  -- With the range index in order, `rfx_remove_range` ends and removes the ranges that the call
  -- names, for node numbers in ascending order also the imputed ranges of the reverse direction, and
  -- no others. A wild-card call between ascending node numbers needs for that a reverse direction
  -- without asserted ranges.
  pub remove_range-LeavesRanges :
      (fuel from_time : ℕ) (s : Ion)
      → IsRangePlan s.range_index
      → (from_time ≡ 0 → from_node < to_node → AllDeletable env true to_node from_node s)
      → length s.range_index < fuel
      → LeavesRanges
          (RemovedRange from_time from_node to_node)
          s
          (remove_range fuel env from_time from_node to_node s)
  unfolding remove_range
  remove_range-LeavesRanges fuel from_time s h d enough =
      let first =
        remove_direction-LeavesRanges env false from_node to_node fuel from_time s h
          (λ _ r m b e. absurd (false≢true e)) enough in
      rw (first.1, remove_range) (go first (ltb to_node from_node) refl)
    where
      forth : Rxref → Type 0
      forth r = Named from_time from_node to_node r × Deletable false r

      result : Bool → Ion → Option Ion
      result b t =
          if b
          then some t
          else remove_direction fuel env true
              (record { from_node = to_node; to_node = from_node; from_time = from_time }) t

      allowed :
          from_time ≡ 0
          → (r : Rxref) → r ∈ s.range_index
          → ¬ Named from_time from_node to_node r
          → Between to_node from_node (rxref_key r)
          → from_node ≤ to_node
          → r.range_elt ≡ 0
      allowed z r m n mine le = elim (Bool-cases (ltb from_node to_node)) [
        | inl less ↦ d z (ltb→lt from_node to_node less) r m mine refl
        | inr same ↦ absurd (n (ground (arith, mine, le, same), inl z))
      ]

      go :
          (first : LeavesRanges forth s (
            remove_direction fuel env false
              (record { from_node = from_node; to_node = to_node; from_time = from_time })
              s))
          → (b : Bool) → ltb to_node from_node ≡ b
          → LeavesRanges (RemovedRange from_time from_node to_node) s (result b first.0)
      go (t, e, plan, short, k) true b = (
        t,
        refl,
        plan,
        short,
        λ x. (
          λ m.
              let (m', n) = (k x).0 m in
              (
                m',
                λ r. elim r [
                  | inl named ↦ n (named, λ c. absurd (false≢true c))
                  | inr (le, _, _) ↦ omega (arith, le, ltb→lt to_node from_node b)
                ],
              ),
          λ (m, n). (k x).1 (m, λ g. n (inl g.0)),
        ),
      )
      go (t, e, plan, short, k) false b =
          let (u, f, plan2, short2, k2) =
            remove_direction-LeavesRanges env true to_node from_node fuel from_time t plan
              (λ z r m mine c.
                allowed z r ((k r).0 m).0
                  (λ named. ((k r).0 m).1 (named, λ v. absurd (false≢true v))) mine
                  (ground (arith, b)))
              (omega (arith, short, enough)) in
          (
            u,
            f,
            plan2,
            omega (arith, short, short2),
            λ x. (
              λ m.
                  let (m1, n1) = (k2 x).0 m in
                  let (m0, n0) = (k x).0 m1 in
                  (
                    m0,
                    λ r. elim r [
                      | inl named ↦ n0 (named, λ c. absurd (false≢true c))
                      | inr (_, named, imputed) ↦ n1 (named, λ _. imputed)
                    ],
                  ),
              λ (m, n). (k2 x).1 (
                (k x).1 (m, λ g. n (inl g.0)),
                λ (named, deletable). n (inr (ground (arith, b), named, deletable refl)),
              ),
            ),
          )

  -- With the range index in order, a wild-card removal of the ranges from a smaller to a greater node
  -- number never ends if a range of the reverse direction is asserted: no number of rounds is enough.
  pub remove_range_stuck :
      (fuel : ℕ) (s : Ion) (r : Rxref)
      → IsRangePlan s.range_index
      → from_node < to_node
      → r ∈ s.range_index
      → Between to_node from_node (rxref_key r)
      → r.range_elt ≢ 0
      → length s.range_index < fuel
      → remove_range fuel env 0 from_node to_node s ≡ none
  unfolding remove_range remove_direction
  remove_range_stuck fuel s r h less m mine asserted enough =
      let (t, e, plan, short, k) =
        remove_direction-LeavesRanges env false from_node to_node fuel 0 s h
          (λ _ r m b c. absurd (false≢true c)) enough in
      let left = (k r).1 (m, λ named. omega (arith, less, named.0.0, mine.0)) in
      let forward : ltb to_node from_node ≡ false = ground (arith, less) in
      rw (e, remove_range)
        (rw forward (remove_ranges_stuck env to_node from_node fuel t r plan left mine asserted))
