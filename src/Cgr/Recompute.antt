-- ===== src/Cgr/Recompute.antt =====
-- `recomputeRouteForContact` of bp/cgr/libcgr.c: a new route through the first contact of one that
-- has ended.
pub mod Order
pub mod Leads
pub mod Renewed
use cgr_jni.Base.{
  ℕ, Bool, true, false, ◌&&◌, if◌then◌else◌, ◌==◌, leb, Option, none, some, List, [], ◌∷◌, foldl,
}
use cgr_jni.Plan.{Key, Contact, Range, find, order_contacts}
use cgr_jni.Cgr.Note.{Notes, update}
use cgr_jni.Cgr.Dijkstra.{Route, routed, no_route, stuck, find_next_best_route}
use cgr_jni.Cgr.Routes.{reset_notes, suppress, root_contact, root_note}

-- The search for the contact that leads from the local node to `to_node` at `from_time`.
pub find_lead : List Contact → ℕ → ℕ → ℕ → Option Contact
unfolding find order_contacts
find_lead index local_node to_node from_time =
    find order_contacts
      (record { from_node = local_node; to_node = to_node; from_time = from_time }) index

-- The route starts with the contact that a new route is computed through.
pub leads : ℕ → ℕ → Route → Bool
leads to_node from_time route = route.to_node_nbr == to_node && route.from_time == from_time

-- "Now suppress from consideration as lead contact …": one round of the loop.
pub suppress_lead : List Contact → ℕ → ℕ → ℕ → Notes → Route → Notes
unfolding find_lead leads
suppress_lead index local_node to_node from_time notes route =
    if leads to_node from_time route
    then notes
    else elim (find_lead index local_node route.to_node_nbr route.from_time) [
      | none ↦ notes
      | some contact ↦ suppress notes contact
    ]

pub suppress_leads : List Contact → ℕ → ℕ → ℕ → List Route → Notes → Notes
unfolding suppress_lead
suppress_leads index local_node to_node from_time routes notes =
    foldl (suppress_lead index local_node to_node from_time) notes routes

-- Insertion in order of arrival, behind the routes that arrive at the same time.
pub insert_route : Route → List Route → List Route
insert_route new_route [] = new_route ∷ []
insert_route new_route (route ∷ routes) = elim (leb route.arrival_time new_route.arrival_time) [
  | true ↦ route ∷ insert_route new_route routes
  | false ↦ new_route ∷ route ∷ routes
]

-- What the function returns: 0, 1 with a new list of routes, or -1.
pub data Recomputed : Type 0 where
  defunct : Notes → Recomputed
  inserted : Notes → List Route → Recomputed
  failed : Recomputed

pub recompute_route_for_contact :
    List Range → List Contact → ℕ → ℕ → ℕ → ℕ → ℕ → ℕ → ℕ → List Route → Notes → Recomputed
unfolding find_lead suppress_leads insert_route
recompute_route_for_contact ranges index root_addr local_node terminus current_time payload_class
      to_node from_time routes notes =
    elim (find_lead index local_node to_node from_time) [
      | none ↦ defunct notes
      | some contact ↦
          if leb contact.to_time current_time
          then defunct notes
          else elim (find_next_best_route ranges index (root_contact root_addr local_node) terminus
              payload_class
              (update
                (suppress_leads index local_node to_node from_time routes (reset_notes index notes))
                root_addr (root_note current_time))) [
                  | routed notes' route ↦ inserted notes' (insert_route route routes)
                  | no_route notes' ↦ defunct notes'
                  | stuck ↦ failed
                ]
    ]
