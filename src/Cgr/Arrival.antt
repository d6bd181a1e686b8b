-- ===== src/Cgr/Arrival.antt =====
-- `computeArrivalTime` of bp/cgr/libcgr.c, with `guessBundleSize`, `computeECCC` and
-- `computePriorClaims` of bp/library/libbpP.c: when a bundle would arrive over a route, behind the
-- bundles that already wait for the neighbor.
--
-- A call that returns 0 gives `none`. Where CHKERR finds a transmission rate of 0 in the first contact,
-- the call returns -1, which its caller takes as an arrival time, as it does here. Rates are unsigned
-- words that the calls of the scalar operations convert to `int`, as they do the remaining seconds.
pub mod Backlog
pub mod Smaller
use cgr_jni.Base.{
  ℕ, ◌+◌, ◌-◌, ◌^◌, ◌%◌, Bool, true, false, ◌||◌, if◌then◌else◌, ltb, leb, ◌==◌, Option, none, some,
  List, [], ◌∷◌,
}
use cgr_jni.Base.Int.{ℤ, pos, negsuc, pos_part, to_int, ◌+ℤ◌}
use cgr_jni.Scalar.{
  Scalar, load_scalar, increase_scalar, multiply_scalar, divide_scalar, subtract_from_scalar,
  scalar_is_valid, value,
}
use cgr_jni.Plan.{Key, Contact, Range, order_contacts, successors}
use cgr_jni.Cgr.Ranges.{get_applicable_range}
use cgr_jni.Cgr.Dijkstra.{Route}

pub record Bundle : Type 0 where
  pub dictionary_length : ℕ
  pub pre_payload_length : ℕ
  pub post_payload_length : ℕ
  pub payload_length : ℕ
  pub expiration_time : ℕ
  pub destination_cbhe : Bool
  pub destination_node_nbr : ℕ
  pub does_not_fragment : Bool

-- NOMINAL_PRIMARY_BLKSIZE is 29.
unfoldable pub guess_bundle_size : Bundle → ℤ
guess_bundle_size bundle = to_int (
    (29 + bundle.dictionary_length + bundle.pre_payload_length + bundle.payload_length
      + bundle.post_payload_length)
    % 2 ^ 32)

unfoldable pub compute_eccc : ℤ → ℤ
compute_eccc bundle_size = bundle_size

-- EPOCH_2000_SEC is 946684800; the sum is one of 32-bit words.
unfoldable pub deadline : Bundle → ℕ
deadline bundle = (bundle.expiration_time + 946_684_800) % 2 ^ 32

-- The variables of the loop over the contacts with the neighbor.
pub record Claims : Type 0 where
  pub prior_claims : Scalar
  pub protected : Scalar
  pub allotment : Scalar
  pub capacity : Scalar

-- `subtractFromScalar(s, t); if (!scalarIsValid(s)) loadScalar(s, 0);`
unfoldable pub reduce_to_zero : Scalar → Scalar → Scalar
reduce_to_zero s t =
    let rest = subtract_from_scalar s t in
    if scalar_is_valid rest then rest else load_scalar (pos 0)

-- `secRemaining = endTime - startTime`, which is an `int`.
unfoldable pub seconds_remaining : Contact → ℕ → ℤ
seconds_remaining contact start_time =
    to_int ((contact.to_time + (2 ^ 32 - start_time % 2 ^ 32)) % 2 ^ 32)

-- The spare capacity of a contact, and what it takes of the backlog.
unfoldable pub allot : ℕ → Contact → Claims → Claims
unfolding reduce_to_zero seconds_remaining
allot current_time contact claims =
    let start_time =
      if ltb contact.from_time current_time then current_time else contact.from_time in
    let capacity =
      multiply_scalar (load_scalar (seconds_remaining contact start_time))
        (to_int contact.xmit_rate) in
    record {
      prior_claims = claims.prior_claims;
      protected = reduce_to_zero claims.protected capacity;
      allotment =
          if scalar_is_valid (subtract_from_scalar capacity claims.protected)
          then claims.protected
          else capacity;
      capacity = capacity;
    }

-- The loop over the contacts with the neighbor, up to the first of the route.
unfoldable pub claim : ℕ → ℕ → Route → List Contact → Claims → Option Claims
unfolding allot reduce_to_zero
claim own_node_nbr current_time route [] claims = some claims
claim own_node_nbr current_time route (contact ∷ contacts) claims =
    if ltb own_node_nbr contact.from_node
      || ltb route.to_node_nbr contact.to_node
      || ltb route.from_time contact.from_time
    then none
    else elim (ltb contact.to_time current_time) [
      | true ↦ claim own_node_nbr current_time route contacts claims
      | false ↦
          let claims' = allot current_time contact claims in
          elim (leb route.from_time contact.from_time) [
            | true ↦ some claims'
            | false ↦ claim own_node_nbr current_time route contacts (record claims' {
              prior_claims = reduce_to_zero claims'.prior_claims claims'.capacity;
            })
          ]
    ]

-- `transmitTime += ((ONE_GIG * radiationLatency.gigs) + radiationLatency.units)`
unfoldable pub delay : ℕ → Scalar → ℕ
delay time latency = pos_part (pos time +ℤ value latency)

-- The loop along the path to the terminus.
unfoldable pub cross : List Range → ℤ → ℕ → Contact → List Contact → Option ℕ
unfolding delay
cross ranges eccc transmit_time contact [] =
    if leb contact.to_time transmit_time then none else elim (get_applicable_range ranges contact) [
      | none ↦ none
      | some owlt ↦ some (transmit_time + owlt)
    ]
cross ranges eccc transmit_time contact (next ∷ hops) =
    if leb contact.to_time transmit_time then none else elim (get_applicable_range ranges contact) [
      | none ↦ none
      | some owlt ↦
          let arrival_time = transmit_time + owlt in
          let ready = if ltb next.from_time arrival_time then arrival_time else next.from_time in
          cross ranges eccc (delay ready (divide_scalar (load_scalar eccc) (to_int next.xmit_rate)))
            next hops
    ]

-- `eto` is what the call stores, if it comes to that.
pub record Arrival : Type 0 where
  pub arrival_time : ℤ
  pub overbooked : Scalar
  pub protected : Scalar
  pub eto : Option ℕ

-- From the first contact of the route on.
unfoldable pub arrive : List Range → ℕ → Route → Bundle → ℤ → Claims → Option Arrival
unfolding reduce_to_zero delay cross deadline
arrive ranges current_time route bundle eccc claims = elim route.hops [
  | [] ↦ none
  | contact ∷ hops ↦
      let overbooked = reduce_to_zero (increase_scalar claims.allotment eccc) claims.capacity in
      if contact.xmit_rate == 0
      then some (record {
        arrival_time = negsuc 0;
        overbooked = overbooked;
        protected = claims.protected;
        eto = none;
      })
      else (let start =
            if ltb route.from_time current_time then current_time else route.from_time in
          let eto =
            delay start (
              divide_scalar (increase_scalar claims.prior_claims eccc)
                (to_int contact.xmit_rate)) in
          elim (cross ranges eccc eto contact hops) [
            | none ↦ none
            | some arrival_time ↦
                if ltb (deadline bundle) arrival_time
                then none
                else some (record {
                  arrival_time = pos arrival_time;
                  overbooked = overbooked;
                  protected = claims.protected;
                  eto = some eto;
                })
          ])
]

-- `backlog` is the `stdBacklog` of the outduct, which `computePriorClaims` copies.
unfoldable pub compute_arrival_time :
    List Range → List Contact → ℕ → Route → Bundle → ℕ → Scalar → Option Arrival
unfolding guess_bundle_size compute_eccc claim arrive successors order_contacts
compute_arrival_time ranges index own_node_nbr route bundle current_time backlog =
    let arg : Key = record {
      from_node = own_node_nbr;
      to_node = route.to_node_nbr;
      from_time = 0;
    } in
    elim (claim own_node_nbr current_time route (successors order_contacts arg index) (record {
      prior_claims = backlog;
      protected = backlog;
      allotment = load_scalar (pos 0);
      capacity = load_scalar (pos 0);
    })) [
      | none ↦ none
      | some claims ↦
          arrive ranges current_time route bundle (compute_eccc (guess_bundle_size bundle)) claims
    ]
