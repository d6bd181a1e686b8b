-- ===== src/Cgr/Dijkstra/Tests.antt =====
-- Searches over a small contact plan.
use cgr_jni.Base.{
  ◌↔◌, ◌∈◌, ℕ, ◌≡◌, ◌≢◌, ◌≤◌, refl, inl, inr, false, none, List, [], ◌∷◌, arith, if◌then◌else◌,
  ◌==◌,
}
use cgr_jni.Plan.{Contact, Range, order_keys}
use cgr_jni.Cgr.Note.{Note, Notes, max_time, update, min_capacity, contact_capacity, arrival_over}
use cgr_jni.Cgr.Ranges.{get_applicable_range}
use cgr_jni.Cgr.Dijkstra.{
  Route, Outcome, routed, no_route, stuck, compute_distance_to_terminus, contacts_from, loop,
  expand, consider, select_next, select_step, read_route, trace_back, trace_step, characterize,
}
use cgr_jni.Cgr.Dijkstra.Neighbors.{contacts_from_iff}
use cgr_jni.Cgr.Dijkstra.Journey.{begin, hop}
use cgr_jni.Cgr.Dijkstra.Invariant.{Problem, IsReady, Travels}
use cgr_jni.Cgr.Dijkstra.Answer.{IsRoute}
use cgr_jni.Cgr.Dijkstra.Optimal.{route-IsRoute, route_optimal, search-ne-stuck}

abbrev contact : ℕ → ℕ → ℕ → ℕ → ℕ → Contact
contact addr from to start end = record {
  addr = addr;
  from_node = from;
  to_node = to;
  from_time = start;
  to_time = end;
  xmit_rate = 1000;
}

abbrev range : ℕ → ℕ → Range
range from to = record { from_node = from; to_node = to; from_time = 10; to_time = 1000; owlt = 1 }

-- Node 1 can reach node 3 over node 2 at once, or by itself later.
abbrev index : List Contact
index = contact 100 1 2 10 60 ∷ contact 101 1 3 90 150 ∷ contact 102 2 3 30 80 ∷ []

abbrev ranges : List Range
ranges = range 1 2 ∷ range 1 3 ∷ range 2 3 ∷ []

abbrev root : Contact
root = contact 0 1 1 0 0

abbrev reset : ℕ → Note
reset time = record {
  predecessor = none;
  capacity = 0;
  arrival_time = time;
  visited = false;
  suppressed = false;
}

abbrev notes : Notes
notes a = if a == 0 then reset 20 else reset max_time

abbrev to_node_3 : Problem
to_node_3 = record {
  ranges = ranges;
  index = index;
  notes = notes;
  root = root;
  terminus = 3;
  payload_class = 0;
}

to_node_3-IsReady : IsReady to_node_3
unfolding order_keys
to_node_3-IsReady = record {
  ordered = record { sorted = ((refl, (refl, tt)), ((refl, tt), (tt, tt))); started = omega arith };
  distinct = λ c d m n e. ground arith;
  apart = λ c m. ground arith;
  in_time = omega arith;
  root_unvisited = refl;
  unvisited = λ c m. ground arith;
  unreached = λ c m. ground arith;
  capacity = λ c m. ground arith;
}

abbrev over_node_2 : Route
over_node_2 = record {
  to_node_nbr = 2;
  from_time = 10;
  to_time = 60;
  arrival_time = 31;
  hops = contact 100 1 2 10 60 ∷ contact 102 2 3 30 80 ∷ [];
  max_capacity = 50_000;
  payload_class = 0;
}

-- The notes that the search leaves.
final_notes : Outcome → Notes
final_notes (routed n r) = n
final_notes (no_route n) = n
final_notes stuck = notes

routes_over_2 :
    compute_distance_to_terminus ranges index root 3 0 notes
    ≡ routed (final_notes (compute_distance_to_terminus ranges index root 3 0 notes)) over_node_2
unfolding compute_distance_to_terminus loop expand consider contacts_from select_next select_step
    read_route trace_back trace_step characterize get_applicable_range contact_capacity min_capacity
    arrival_over update final_notes
routes_over_2 = refl

route-IsRoute_example : IsRoute to_node_3 over_node_2
route-IsRoute_example =
    route-IsRoute to_node_3 (final_notes (compute_distance_to_terminus ranges index root 3 0 notes))
      over_node_2 to_node_3-IsReady routes_over_2

direct : Travels to_node_3 (contact 101 1 3 90 150) 91 (contact 101 1 3 90 150 ∷ [])
unfolding get_applicable_range contact_capacity min_capacity arrival_over
direct = hop (contact 101 1 3 90 150) 1 begin (record {
  member = inr (inl refl);
  joined = refl;
  open_at = omega arith;
  usable = record { free = refl; capacity = omega arith };
  light_time = refl;
})

route_optimal_example :
    (n : Notes) × (r : Route) × (compute_distance_to_terminus ranges index root 3 0 notes
      ≡ routed n r)
    × (r.arrival_time ≤ 91)
route_optimal_example =
    route_optimal to_node_3 (contact 101 1 3 90 150) 91 (contact 101 1 3 90 150 ∷ [])
      to_node_3-IsReady direct (λ e. cc) refl (omega arith)

search-ne-stuck_example : compute_distance_to_terminus ranges index root 3 0 notes ≢ stuck
search-ne-stuck_example = search-ne-stuck to_node_3 to_node_3-IsReady

abbrev node : ℕ
node = 2

contacts_from_iff_example :
    (contact 102 2 3 30 80 ∈ contacts_from index 2)
    ↔ ((contact 102 2 3 30 80 ∈ index) × (node ≡ node))
contacts_from_iff_example =
    contacts_from_iff index 2 (contact 102 2 3 30 80) to_node_3-IsReady.ordered
