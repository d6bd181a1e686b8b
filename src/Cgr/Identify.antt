-- ===== src/Cgr/Identify.antt =====
-- `identifyProximateNodes` of bp/cgr/libcgr.c, with `tryRoute`: the routes to a terminus are
-- walked, ended ones recomputed, and those that a bundle can take noted by their neighbors.
pub mod Ended
pub mod Allowed
pub mod Walk
pub mod Ending
mod Tests
use cgr_jni.Base.{
  ℕ, zero, suc, ◌+◌, ◌*◌, Bool, true, false, not, ◌&&◌, if◌then◌else◌, ltb, ◌==◌, Option, none,
  some, List, [], ◌∷◌, ◌++◌, length,
}
use cgr_jni.Base.Int.{pos, eqb_ℤ}
use cgr_jni.Scalar.{Scalar}
use cgr_jni.Plan.{Contact, Range}
use cgr_jni.Cgr.Note.{Notes}
use cgr_jni.Cgr.Dijkstra.{Route}
use cgr_jni.Cgr.Routes.{load_route_list}
use cgr_jni.Cgr.Proximate.{FwdDirective, ProximateNode, is_excluded, note_route}
use cgr_jni.Cgr.Recompute.{Recomputed, defunct, inserted, failed, recompute_route_for_contact}
use cgr_jni.Cgr.Arrival.{Bundle, deadline, compute_arrival_time}

-- What is read of an outduct.
pub record Outduct : Type 0 where
  pub max_payload_len : ℕ
  pub blocked : Bool
  pub std_backlog : Scalar

-- What the walk leaves: the routes and the notes of their contacts, and the neighbors.
pub record Identified : Type 0 where
  pub notes : Notes
  pub routes : List Route
  pub proximate_nodes : List ProximateNode

-- `get_directive` is the callback for the plans and the bundle, `outduct_at` reads the data base.
module _ (get_directive : ℕ → Option FwdDirective) (outduct_at : ℕ → Outduct) (ranges : List Range)
    (index : List Contact) (root_addr own_node_nbr terminus current_time : ℕ)
    (bundle : Bundle) where
  pub offer_of : Route → FwdDirective → Outduct → Option ProximateNode
  offer_of route directive outduct =
      elim (compute_arrival_time ranges index own_node_nbr route bundle current_time
        outduct.std_backlog) [
          | none ↦ none
          | some arrival ↦
              if eqb_ℤ arrival.arrival_time (pos 0)
              then none
              else some (record {
                neighbor_node_nbr = route.to_node_nbr;
                directive = directive;
                forfeit_time = route.to_time;
                arrival_time = arrival.arrival_time;
                overbooked = arrival.overbooked;
                protected = arrival.protected;
                hop_count = length route.hops;
              })
        ]

  pub try_route : Route → List ProximateNode → List ProximateNode
  unfolding offer_of
  try_route route proximate_nodes = elim (get_directive route.to_node_nbr) [
    | none ↦ proximate_nodes
    | some directive ↦
        let outduct = outduct_at directive.outduct_elt in
        if outduct.blocked
        then proximate_nodes
        else if bundle.does_not_fragment
            && not (outduct.max_payload_len == 0)
            && ltb outduct.max_payload_len bundle.payload_length
        then proximate_nodes
        else elim (offer_of route directive outduct) [
          | none ↦ proximate_nodes
          | some offer ↦ note_route proximate_nodes offer
        ]
  ]

  module _ (excluded_nodes : List ℕ) where
    -- A route that has not ended, and is not too late.
    pub check_route : Route → List ProximateNode → List ProximateNode
    unfolding try_route
    check_route route proximate_nodes =
        if route.to_node_nbr == own_node_nbr
          && not (bundle.destination_cbhe && bundle.destination_node_nbr == route.to_node_nbr)
        then proximate_nodes
        else if ltb route.max_capacity bundle.payload_length
        then proximate_nodes
        else if is_excluded route.to_node_nbr excluded_nodes
        then proximate_nodes
        else try_route route proximate_nodes

    -- The loop stands between `passed` and the other routes.
    pub walk : ℕ → List Route → List Route → Notes → List ProximateNode → Option Identified
    unfolding check_route
    walk zero passed routes notes proximate_nodes = none
    walk (suc fuel) passed [] notes proximate_nodes =
        some (record { notes = notes; routes = passed; proximate_nodes = proximate_nodes })
    walk (suc fuel) passed (route ∷ routes) notes proximate_nodes =
        elim (ltb route.to_time current_time) [
          | true ↦
              elim (recompute_route_for_contact ranges index root_addr own_node_nbr terminus
                current_time route.payload_class route.to_node_nbr route.from_time
                (passed ++ routes) notes) [
                  | defunct notes' ↦ walk fuel passed routes notes' proximate_nodes
                  | inserted notes' routes' ↦ walk fuel [] routes' notes' proximate_nodes
                  | failed ↦ none
                ]
          | false ↦ elim (ltb (deadline bundle) route.arrival_time) [
            | true ↦ some (record {
              notes = notes;
              routes = passed ++ (route ∷ routes);
              proximate_nodes = proximate_nodes;
            })
            | false ↦
                walk fuel (passed ++ (route ∷ [])) routes notes (check_route route proximate_nodes)
          ]
        ]

    -- The walk through a list of routes. A route that has ended is followed by a new walk at most,
    -- so that the square of the number of routes bounds the rounds.
    pub walk_all : List Route → Notes → Option Identified
    unfolding walk
    walk_all routes notes = walk ((length routes + 1) * (length routes + 1)) [] routes notes []

    -- The routes are `none` where the terminus node has no list of them yet.
    pub identify_proximate_nodes : Option (List Route) → Notes → Option Identified
    unfolding walk_all
    identify_proximate_nodes none notes =
        elim (load_route_list ranges index root_addr own_node_nbr terminus current_time notes) [
          | none ↦ none
          | some s ↦ walk_all s.routes s.notes
        ]
    identify_proximate_nodes (some routes) notes = walk_all routes notes
