-- ===== src/Cgr/Arrival/Backlog.antt =====
-- The claims of the bundles that wait, in the loop of `computeArrivalTime`.
use cgr_jni.Base.{
  ℕ, ◌≡◌, ◌≤◌, ◌∙◌, refl, sym, subst, inl, inr, Bool-cases, ◌||◌, ltb, leb, if◌then◌else◌, Option,
  none, some, List, [], ◌∷◌, arith,
}
use cgr_jni.Base.Int.{ℤ, pos, negsuc, to_int, ◌≤ℤ◌, ◌-ℤ◌}
use cgr_jni.Scalar.{Scalar, value, load_scalar, subtract_from_scalar, scalar_is_valid, magnitude}
use cgr_jni.Scalar.Carry.{IsNormal}
use cgr_jni.Scalar.Value.{load_lem, multiply-IsNormal, subtract_lem, valid_iff}
use cgr_jni.Plan.{Contact}
use cgr_jni.Cgr.Dijkstra.{Route}
use cgr_jni.Cgr.Arrival.{Claims, reduce_to_zero, seconds_remaining, allot, claim}

-- A normal scalar that stands for a natural number, which is at most `limit`.
pub record IsBacklog (limit : ℕ) (s : Scalar) : Type 0 where
  pub normal : IsNormal s
  pub bytes : ℕ
  pub value_eq : value s ≡ pos bytes
  pub few : bytes ≤ limit

nonneg : (i : ℤ) → pos 0 ≤ℤ i → (n : ℕ) × (i ≡ pos n)
nonneg (pos n) h = (n, refl)
nonneg (negsuc n) h = absurd (ground (arith, h))

none-IsBacklog : (limit : ℕ) → IsBacklog limit (load_scalar (pos 0))
none-IsBacklog limit =
    let (normal, e) = load_lem (pos 0) in
    record { normal = normal; bytes = 0; value_eq = e; few = omega arith }

less :
    (v w : ℤ) (bytes taken rest : ℕ)
    → v ≡ pos bytes
    → w ≡ pos taken
    → v -ℤ w ≡ pos rest
    → rest ≤ bytes
unfolding ◌-ℤ◌
less v w bytes taken rest e f g = ground arith

pub reduce_to_zero-IsBacklog :
    (limit : ℕ) (s t : Scalar)
    → IsBacklog limit s
    → IsNormal t
    → (taken : ℕ) × (value t ≡ pos taken)
    → IsBacklog limit (reduce_to_zero s t)
unfolding reduce_to_zero
reduce_to_zero-IsBacklog limit s t b m (taken, f) =
    elim (Bool-cases (scalar_is_valid (subtract_from_scalar s t))) [
      | inl valid ↦
          let (normal, e) = subtract_lem s t b.normal m in
          let (bytes, e') =
            nonneg (value (subtract_from_scalar s t))
              ((valid_iff (subtract_from_scalar s t) normal).0 valid) in
          rw valid (record {
            normal = normal;
            bytes = bytes;
            value_eq = e';
            few = omega (
              arith,
              b.few,
              less (value s) (value t) b.bytes taken bytes b.value_eq f (sym e ∙ e'),
            );
          })
      | inr invalid ↦ rw invalid (none-IsBacklog limit)
    ]

allot-capacity :
    (current_time : ℕ) (contact : Contact) (claims : Claims)
    → IsNormal (allot current_time contact claims).capacity
      × ((n : ℕ) × (value (allot current_time contact claims).capacity ≡ pos n))
unfolding allot
allot-capacity current_time contact claims =
    let i =
      seconds_remaining contact
        (if ltb contact.from_time current_time then current_time else contact.from_time) in
    multiply-IsNormal (load_scalar i) (to_int contact.xmit_rate) (magnitude i) (load_lem i).1

allot-prior :
    (current_time : ℕ) (contact : Contact) (claims : Claims)
    → (allot current_time contact claims).prior_claims ≡ claims.prior_claims
unfolding allot
allot-prior current_time contact claims = refl

-- If the loop does not fail, it leaves prior claims that are a backlog.
abbrev pub LeavesBacklog : ℕ → Option Claims → Type 0
LeavesBacklog limit none = Unit
LeavesBacklog limit (some claims) = IsBacklog limit claims.prior_claims

pub claim-IsBacklog :
    (limit own_node_nbr current_time : ℕ) (route : Route) (contacts : List Contact)
    (claims : Claims)
    → IsBacklog limit claims.prior_claims
    → LeavesBacklog limit (claim own_node_nbr current_time route contacts claims)
unfolding claim
claim-IsBacklog limit own_node_nbr current_time route [] claims b = b
claim-IsBacklog limit own_node_nbr current_time route (contact ∷ contacts) claims b =
    elim (Bool-cases (
      ltb own_node_nbr contact.from_node
      || ltb route.to_node_nbr contact.to_node
      || ltb route.from_time contact.from_time)) [
        | inl gone ↦ rw (gone, claim) tt
        | inr here ↦ elim (Bool-cases (ltb contact.to_time current_time)) [
          | inl over ↦
              rw (here, claim)
                (rw (over, claim)
                  (claim-IsBacklog limit own_node_nbr current_time route contacts claims b))
          | inr open_end ↦
              let claims' = allot current_time contact claims in
              let b' = subst (IsBacklog limit) (sym (allot-prior current_time contact claims)) b in
              elim (Bool-cases (leb route.from_time contact.from_time)) [
                | inl last ↦ rw (here, claim) (rw (open_end, claim) (rw (last, claim) b'))
                | inr earlier ↦
                    rw (here, claim)
                      (rw (open_end, claim)
                        (rw (earlier, claim)
                          (claim-IsBacklog limit own_node_nbr current_time route contacts
                            (record claims' {
                              prior_claims = reduce_to_zero claims'.prior_claims claims'.capacity;
                            })
                            (reduce_to_zero-IsBacklog limit claims'.prior_claims claims'.capacity b'
                              (allot-capacity current_time contact claims).0
                              (allot-capacity current_time contact claims).1))))
              ]
        ]
      ]
