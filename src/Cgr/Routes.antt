-- ===== src/Cgr/Routes.antt =====
-- `loadRouteList` and `endAnchoredSearch` of bp/cgr/libcgr.c: the routes from the local node to a
-- terminus, found by one search after the other with contacts suppressed in between.
pub mod Each
pub mod Count
pub mod Hops
pub mod Clear
pub mod Weight
pub mod Feasible
pub mod Turns
pub mod Round
pub mod Loading
pub mod Best
pub mod Tests
use cgr_jni.Base.{
  ℕ, zero, suc, ◌+◌, ◌*◌, Bool, true, false, not, if◌then◌else◌, ◌==◌, Option, none, some, List, [],
  ◌∷◌, ◌++◌, foldl, length,
}
use cgr_jni.Plan.{Contact, Range}
use cgr_jni.Cgr.Note.{Note, Notes, update, max_time}
use cgr_jni.Cgr.Dijkstra.{Route, Outcome, routed, no_route, stuck, find_next_best_route}

-- A loop over the contact index that works on the note of each contact.
pub each : (Contact → Note → Note) → List Contact → Notes → Notes
each f index notes =
    foldl (λ (n : Notes) (c : Contact). update n c.addr (f c (n c.addr))) notes index

abbrev pub clear_note : Note → Note
clear_note work = record work { arrival_time = max_time; predecessor = none; visited = false }

-- `memset(work, 0, …); work->arrivalTime = MAX_TIME`
abbrev pub blank_note : Note
blank_note = record {
  predecessor = none;
  capacity = 0;
  arrival_time = max_time;
  visited = false;
  suppressed = false;
}

pub clear_notes : List Contact → Notes → Notes
unfolding each
clear_notes = each λ c work. clear_note work

pub reset_notes : List Contact → Notes → Notes
unfolding each
reset_notes = each λ c work. blank_note

abbrev pub end_note : ℕ → Contact → Note → Note
end_note local_node c work =
    clear_note (if c.from_node == local_node then work else record work { suppressed = false })

pub end_anchored_search : ℕ → List Contact → Notes → Notes
unfolding each
end_anchored_search local_node = each (end_note local_node)

pub suppress : Notes → Contact → Notes
suppress notes c = update notes c.addr (record (notes c.addr) { suppressed = true })

-- The first hop that ends when the route does.
pub limit_hop : ℕ → List Contact → Option Contact
limit_hop to_time [] = none
limit_hop to_time (contact ∷ hops) = elim (contact.to_time == to_time) [
  | true ↦ some contact
  | false ↦ limit_hop to_time hops
]

-- The variables of the loops; `anchor` is `none` where `anchorContact` is NULL.
pub record Load : Type 0 where
  pub notes : Notes
  pub routes : List Route
  pub anchor : Option Contact

-- How one round of `while (1)` ends: `break`, the next round, or a return with 0.
pub data Turn : Type 0 where
  class_done : Load → Turn
  again : Load → Turn
  fault : Turn

-- An anchored search goes on and the route has another first contact.
pub leaves_anchor : Option Contact → Contact → Bool
leaves_anchor none first = false
leaves_anchor (some anchor) first = not (first.addr == anchor.addr)

-- The contact at `root_addr` is `rootContact`: its other fields are never read.
abbrev pub root_contact : ℕ → ℕ → Contact
root_contact root_addr local_node = record {
  addr = root_addr;
  from_node = local_node;
  to_node = local_node;
  from_time = 0;
  to_time = 0;
  xmit_rate = 0;
}

-- `rootWork`, of which only the arrival time is ever read.
abbrev pub root_note : ℕ → Note
root_note current_time = record {
  predecessor = none;
  capacity = 0;
  arrival_time = current_time;
  visited = false;
  suppressed = false;
}

module _ (ranges : List Range) (index : List Contact)
    (root_addr local_node terminus current_time : ℕ) where
  -- "This is a route that we want to record."
  pub record_route : Load → Notes → Route → Contact → Turn
  unfolding clear_notes suppress limit_hop
  record_route s notes route first =
      if route.to_time == first.to_time
      then again (record {
        notes = clear_notes index (suppress notes first);
        routes = s.routes ++ (route ∷ []);
        anchor = s.anchor;
      })
      else elim (limit_hop route.to_time route.hops) [
        | none ↦ fault
        | some limit ↦ again (record {
          notes = clear_notes index (suppress notes limit);
          routes = s.routes ++ (route ∷ []);
          anchor = some first;
        })
      ]

  pub end_search : Load → Notes → Turn
  unfolding end_anchored_search suppress
  end_search s notes = elim s.anchor [
    | none ↦ fault
    | some anchor ↦ again (record {
      notes = suppress (end_anchored_search local_node index notes) anchor;
      routes = s.routes;
      anchor = none;
    })
  ]

  pub take_route : Load → Notes → Route → Turn
  unfolding record_route end_search leaves_anchor
  take_route s notes route = elim route.hops [
    | [] ↦ fault
    | first ∷ rest ↦
        if leaves_anchor s.anchor first
        then end_search s notes
        else record_route s notes route first
  ]

  pub search_round : ℕ → Load → Turn
  unfolding take_route
  search_round payload_class s =
      elim (find_next_best_route ranges index (root_contact root_addr local_node) terminus
        payload_class (update s.notes root_addr (root_note current_time))) [
          | routed notes route ↦ take_route s notes route
          | no_route notes ↦ class_done (record s { notes = notes })
          | stuck ↦ fault
        ]

  pub load_class : ℕ → ℕ → Load → Option Load
  unfolding search_round
  load_class zero payload_class s = none
  load_class (suc fuel) payload_class s = elim (search_round payload_class s) [
    | class_done s' ↦ some s'
    | again s' ↦ load_class fuel payload_class s'
    | fault ↦ none
  ]

  abbrev pub rounds : ℕ
  rounds = (2 * length index + 1) * (length index + 1)

  -- The loop over `count` payload classes from `payload_class` on.
  pub load_classes : ℕ → ℕ → Load → Option Load
  unfolding load_class reset_notes
  load_classes zero payload_class s = some s
  load_classes (suc count) payload_class s =
      elim (load_class rounds payload_class (record s { notes = reset_notes index s.notes })) [
        | none ↦ none
        | some s' ↦ load_classes count (payload_class + 1) s'
      ]

  -- `PAYLOAD_CLASSES` is 3.
  pub load_route_list : Notes → Option Load
  unfolding load_classes
  load_route_list notes = load_classes 3 0 (record { notes = notes; routes = []; anchor = none })
