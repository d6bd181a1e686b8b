-- ===== src/Cgr/Identify/Tests.antt =====
-- A bundle on the route over node 2.
use cgr_jni.Base.{true, false, ℕ, ◌≡◌, refl, none, some, Option, [], ◌∷◌}
use cgr_jni.Plan.{order_keys, order_contacts, order_ranges, successors}
use cgr_jni.Cgr.Ranges.{get_applicable_range}
use cgr_jni.Cgr.Dijkstra.{Route}
use cgr_jni.Base.Double.{whole, scaled, nearest, lift, drop}
use cgr_jni.Base.Int.{ℤ, pos, ◌+ℤ◌, ◌-ℤ◌}
use cgr_jni.Scalar.{
  Scalar, value, load_scalar, increase_scalar, increase_gigs, carry, reduce_scalar, reduce_gigs,
  borrow, multiply_scalar, divide_scalar, split_gigs, times, over, subtract_from_scalar,
  scalar_is_valid, as_double,
}
use cgr_jni.Cgr.Proximate.{FwdDirective}
use cgr_jni.Cgr.Arrival.{
  Bundle, Arrival, claim, allot, seconds_remaining, reduce_to_zero, arrive, cross, delay,
  compute_eccc, compute_arrival_time, guess_bundle_size, deadline,
}
use cgr_jni.Cgr.Identify.{Outduct, Identified, identify_proximate_nodes}
use cgr_jni.Cgr.Identify.Allowed.{AllAllowed}
use cgr_jni.Cgr.Identify.Ending.{identify_proximate_nodes-AllAllowed}
use cgr_jni.Cgr.Routes.Tests.{index, ranges, notes, route_2, plan}

abbrev bundle : ℕ → Bundle
bundle size = record {
  dictionary_length = 0;
  pre_payload_length = 0;
  post_payload_length = 0;
  payload_length = size;
  expiration_time = 3_000_000_000;
  destination_cbhe = true;
  destination_node_nbr = 3;
  does_not_fragment = false;
}

abbrev backlog : Scalar
backlog = record { gigs = pos 0; units = pos 2000 }

-- The backlog and the bundle take three seconds on the first hop, the bundle one on the second.
arrives : Option Arrival → ℤ
arrives none = pos 0
arrives (some a) = a.arrival_time

arrives_at_26 :
    arrives (compute_arrival_time ranges index 1 route_2 (bundle 1000) 20 backlog) ≡ pos 26
unfolding arrives compute_arrival_time guess_bundle_size compute_eccc deadline claim allot
    reduce_to_zero arrive cross delay value load_scalar increase_scalar increase_gigs carry
    reduce_scalar reduce_gigs borrow multiply_scalar divide_scalar split_gigs times over
    subtract_from_scalar scalar_is_valid as_double whole scaled nearest lift drop seconds_remaining
    ◌+ℤ◌ ◌-ℤ◌ get_applicable_range order_keys order_contacts order_ranges successors
arrives_at_26 = refl

abbrev directive : ℕ → Option FwdDirective
directive nbr =
    some (record { action = 2; protocol_class = 0; outduct_elt = nbr; dest_duct_name = 0; eid = 0 })

abbrev outduct : ℕ → Outduct
outduct elt = record { max_payload_len = 0; blocked = false; std_backlog = backlog }

-- A route that has ended, which is to be recomputed.
abbrev ended_route : Route
ended_route = record route_2 { to_time = 15 }

identify_proximate_nodes-AllAllowed_example :
    (i : Identified) × (identify_proximate_nodes directive outduct ranges index 0 1 3 20
        (bundle 500)
        (4 ∷ [])
        (some (ended_route ∷ []))
        notes
      ≡ some i)
    × AllAllowed directive outduct ranges index 0 1 3 20 (bundle 500) (4 ∷ []) i.proximate_nodes
identify_proximate_nodes-AllAllowed_example =
    identify_proximate_nodes-AllAllowed directive outduct ranges index 0 1 3 20 (bundle 500)
      (4 ∷ []) (some (ended_route ∷ [])) notes plan
