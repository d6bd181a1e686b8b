-- ===== src/Cgr/Routes/Tests.antt =====
-- Routes to node 3: over node 2, and over node 4 which shares the last contact with it.
use cgr_jni.Base.{
  ℕ, ◌≡◌, ◌≤◌, ◌<◌, ◌++◌, All, refl, inl, inr, none, some, Option, List, [], ◌∷◌, ◌∈◌, length,
  arith,
}
use cgr_jni.Plan.{Contact, Range, order_keys, order_contacts, order_ranges, successors}
use cgr_jni.Cgr.Note.{Notes, update, min_capacity, contact_capacity, arrival_over}
use cgr_jni.Cgr.Ranges.{get_applicable_range}
use cgr_jni.Cgr.Dijkstra.{
  Route, find_next_best_route, compute_distance_to_terminus, loop, read_route, expand, consider,
  improve, contacts_from, select_step, select_next, trace_step, trace_back, characterize,
}
use cgr_jni.Cgr.Dijkstra.Journey.{begin, hop}
use cgr_jni.Cgr.Dijkstra.Invariant.{Travels}
use cgr_jni.Cgr.Routes.{
  Load, blank_note, load_route_list, load_classes, load_class, search_round, take_route, end_search,
  record_route, leaves_anchor, limit_hop, suppress, end_anchored_search, reset_notes, clear_notes,
  each,
}
use cgr_jni.Cgr.Routes.Clear.{IsPlan}
use cgr_jni.Cgr.Routes.Feasible.{IsFeasible, problem}
use cgr_jni.Cgr.Routes.Loading.{load_route_list-IsFeasible}
use cgr_jni.Cgr.Recompute.{recompute_route_for_contact, insert_route}
use cgr_jni.Cgr.Recompute.Renewed.{Renewed, recompute_route_for_contact-Renewed}
use cgr_jni.Cgr.Recompute.Order.{IsAscending, insert_route_lem}
use cgr_jni.Cgr.Routes.Best.{load_route_list_best}

abbrev contact : ℕ → ℕ → ℕ → ℕ → Contact
contact addr from to end = record {
  addr = addr;
  from_node = from;
  to_node = to;
  from_time = 10;
  to_time = end;
  xmit_rate = 1000;
}

abbrev range : ℕ → ℕ → Range
range from to = record { from_node = from; to_node = to; from_time = 10; to_time = 1000; owlt = 1 }

abbrev pub index : List Contact
index = contact 100 1 2 100 ∷ contact 101 1 4 90 ∷ contact 102 2 3 60 ∷ contact 103 4 2 70 ∷ []

abbrev pub ranges : List Range
ranges = range 1 2 ∷ range 1 4 ∷ range 2 3 ∷ range 4 2 ∷ []

abbrev pub notes : Notes
notes a = blank_note

pub plan : IsPlan index 0 20
unfolding order_keys
plan = record {
  ordered = record {
    sorted = ((refl, (refl, (refl, tt))), ((refl, (refl, tt)), ((refl, tt), (tt, tt))));
    started = omega arith;
  };
  distinct = λ c d m n e. ground arith;
  apart = λ c m. ground arith;
  in_time = omega arith;
  ends = λ c m. ground arith;
}

load_route_list-IsFeasible_example :
    (s : Load) × (load_route_list ranges index 0 1 3 20 notes ≡ some s)
    × ((r : Route) → r ∈ s.routes → IsFeasible ranges index 0 1 3 20 r)
load_route_list-IsFeasible_example = load_route_list-IsFeasible ranges index 0 1 3 20 notes plan

over_node_2 :
    Travels
      (problem ranges index 0 1 3 20 0 notes)
      (contact 102 2 3 60)
      22
      (contact 100 1 2 100 ∷ contact 102 2 3 60 ∷ [])
unfolding get_applicable_range contact_capacity min_capacity arrival_over update
over_node_2 =
    hop (contact 102 2 3 60) 1
      (hop (contact 100 1 2 100) 1 begin (record {
        member = inl refl;
        joined = refl;
        open_at = omega arith;
        usable = record { free = refl; capacity = omega arith };
        light_time = refl;
      }))
      (record {
        member = inr (inr (inl refl));
        joined = refl;
        open_at = omega arith;
        usable = record { free = refl; capacity = omega arith };
        light_time = refl;
      })

load_route_list_best_example :
    (s : Load) × (load_route_list ranges index 0 1 3 20 notes ≡ some s)
    × (r : Route) × (rest : List Route) × (s.routes ≡ r ∷ rest)
    × (r.arrival_time ≤ 22)
load_route_list_best_example =
    load_route_list_best ranges index 0 1 3 20 notes (contact 102 2 3 60) 22
      (contact 100 1 2 100 ∷ contact 102 2 3 60 ∷ []) plan (λ d m. ground arith) over_node_2
      (λ e. cc) refl (omega arith)

listed : Option Load → ℕ
listed none = 0
listed (some s) = length s.routes

-- The route over node 4 is not listed: the last contact is still suppressed for the sake of the
-- anchor when the search for it comes.
route_over_4_missed : listed (load_route_list ranges index 0 1 3 20 notes) ≡ 1
unfolding listed compute_distance_to_terminus loop read_route expand consider improve contacts_from
    select_step select_next trace_step trace_back characterize load_route_list load_classes
    load_class search_round take_route end_search record_route leaves_anchor limit_hop suppress
    end_anchored_search reset_notes clear_notes each find_next_best_route get_applicable_range
    contact_capacity min_capacity arrival_over update order_keys order_contacts order_ranges
    successors
route_over_4_missed = refl

-- The route over node 2, when the other routes are to be recomputed.
abbrev pub route_2 : Route
route_2 = record {
  to_node_nbr = 2;
  from_time = 10;
  to_time = 60;
  arrival_time = 22;
  hops = contact 100 1 2 100 ∷ contact 102 2 3 60 ∷ [];
  max_capacity = 50_000;
  payload_class = 0;
}

recompute_route_for_contact-Renewed_example :
    Renewed ranges index 0 1 3 20 0 4 10
      (route_2 ∷ [])
      (recompute_route_for_contact ranges index 0 1 3 20 0 4 10 (route_2 ∷ []) notes)
recompute_route_for_contact-Renewed_example =
    recompute_route_for_contact-Renewed ranges index 0 1 3 20 0 4 10 (route_2 ∷ []) notes plan

-- Two routes that arrive at the same time, and a later one.
abbrev in_order : List Route
in_order = record route_2 { arrival_time = 22 } ∷ record route_2 { arrival_time = 30 } ∷ []

insert_route_example :
    IsAscending (insert_route route_2 in_order)
    × ((before after : List Route) × (in_order ≡ before ++ after)
        × (insert_route route_2 in_order ≡ before ++ (route_2 ∷ after))
        × All (λ (q : Route). q.arrival_time ≤ 22) before
        × All (λ (q : Route). 22 < q.arrival_time) after)
insert_route_example = insert_route_lem route_2 in_order ((omega arith, tt), (tt, tt))
