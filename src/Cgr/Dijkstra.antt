-- ===== src/Cgr/Dijkstra.antt =====
-- `computeDistanceToTerminus` and `findNextBestRoute` of bp/cgr/libcgr.c: a Dijkstra search over
-- contacts, and the route that its result is read off to.
pub mod Neighbors
pub mod Journey
pub mod Consider
pub mod Invariant
pub mod Scan
pub mod Round
pub mod Select
pub mod Loop
pub mod Backtrack
pub mod Answer
pub mod Read
pub mod Optimal
mod Tests
use cgr_jni.Base.{
  ℕ, zero, suc, ◌+◌, Bool, true, false, not, ◌&&◌, ◌||◌, if◌then◌else◌, ltb, leb, ◌==◌, Option,
  none, some, List, [], ◌∷◌, foldl, take_while, length,
}
use cgr_jni.Plan.{Key, Contact, Range, order_contacts, successors}
use cgr_jni.Cgr.Ranges.{get_applicable_range}
use cgr_jni.Cgr.Note.{
  Note, Notes, update, max_time, max_uvast, min_capacity, contact_capacity, arrival_over,
}

pub record Search : Type 0 where
  pub notes : Notes
  pub final_contact : Option Contact
  pub earliest_final : ℕ

-- The contacts that the neighbor loop runs over: from the successor of (node, 0, 0) to the break.
unfoldable pub contacts_from : List Contact → ℕ → List Contact
unfolding successors order_contacts
contacts_from index node =
    take_while (λ (c : Contact). not (ltb node c.from_node))
      (successors order_contacts (record { from_node = node; to_node = 0; from_time = 0 }) index)

module _ (ranges : List Range) (terminus payload_class : ℕ) where
  -- `if (arrivalTime < work->arrivalTime) …`
  unfoldable pub improve : Contact → Search → Contact → ℕ → Search
  improve current s contact arrival_time =
      let work = s.notes contact.addr in
      if ltb arrival_time work.arrival_time
      then (let notes =
            update s.notes contact.addr
              (record work { predecessor = some current; arrival_time = arrival_time }) in
          if contact.to_node == terminus && ltb arrival_time s.earliest_final
          then record { notes = notes; final_contact = some contact; earliest_final = arrival_time }
          else record s { notes = notes })
      else s

  -- The body of the neighbor loop.
  unfoldable pub consider : Contact → Search → Contact → Search
  unfolding improve
  consider current s contact =
      let now = (s.notes current.addr).arrival_time in
      let work = s.notes contact.addr in
      if leb contact.to_time now
      then s
      else if work.suppressed
      then s
      else if work.visited
      then s
      else (let capacity = if work.capacity == 0 then contact_capacity contact else work.capacity in
          let s' = record s {
            notes = update s.notes contact.addr (record work { capacity = capacity });
          } in
          if ltb capacity (min_capacity payload_class)
          then s'
          else elim (get_applicable_range ranges contact) [
            | none ↦ s'
            | some owlt ↦ improve current s' contact (arrival_over now contact owlt)
          ])

  -- One round of the `while` loop up to `currentWork->visited = 1`.
  unfoldable pub expand : List Contact → Contact → Search → Search
  expand index current s =
      let s' = foldl (consider current) s (contacts_from index current.to_node) in
      let work = s'.notes current.addr in
      record s' { notes = update s'.notes current.addr (record work { visited = true }) }

-- The loop that selects the next contact; the pair is `nextContact`, `earliestArrivalTime`.
unfoldable pub select_step : Search → Option Contact × ℕ → Contact → Option Contact × ℕ
select_step s (next, earliest) contact =
    let work = s.notes contact.addr in
    if work.suppressed || work.visited
    then (next, earliest)
    else if ltb s.earliest_final work.arrival_time
    then (next, earliest)
    else if ltb work.arrival_time earliest
    then (some contact, work.arrival_time)
    else (next, earliest)

unfoldable pub select_next : Search → List Contact → Option Contact
select_next s index = (foldl (select_step s) (none, max_time) index).0

-- A route: `CgrRoute`.
pub record Route : Type 0 where
  pub to_node_nbr : ℕ
  pub from_time : ℕ
  pub to_time : ℕ
  pub arrival_time : ℕ
  pub hops : List Contact
  pub max_capacity : ℕ
  pub payload_class : ℕ

-- The variables of the loop that reads the route off, back from the final contact.
pub record Trace : Type 0 where
  pub end_time : ℕ
  pub capacity : ℕ
  pub hops : List Contact

unfoldable pub trace_step : Notes → Contact → Trace → Trace
trace_step notes contact t =
    let work = notes contact.addr in
    record {
      end_time = if ltb contact.to_time t.end_time then contact.to_time else t.end_time;
      capacity = if ltb work.capacity t.capacity then work.capacity else t.capacity;
      hops = contact ∷ t.hops;
    }

-- `none` where the loop would follow a NULL predecessor, or has run out of rounds.
unfoldable pub trace_back : ℕ → Notes → Contact → Option Contact → Trace → Option Trace
trace_back zero notes root contact t = none
trace_back (suc fuel) notes root none t = none
trace_back (suc fuel) notes root (some contact) t = elim (contact.addr == root.addr) [
  | true ↦ some t
  | false ↦ trace_back fuel notes root (notes contact.addr).predecessor (trace_step notes contact t)
]

-- The first hop characterizes the route.
unfoldable pub characterize : ℕ → ℕ → Trace → Option Route
characterize payload_class arrival t = elim t.hops [
  | [] ↦ none
  | first ∷ _ ↦ some (record {
    to_node_nbr = first.to_node;
    from_time = first.from_time;
    to_time = t.end_time;
    arrival_time = arrival;
    hops = t.hops;
    max_capacity = t.capacity;
    payload_class = payload_class;
  })
]

-- What a search leaves: the notes, and a route if one was found. `stuck` is a fault of the C code
-- (a NULL pointer followed) or a model that ran out of rounds.
pub data Outcome : Type 0 where
  routed : Notes → Route → Outcome
  no_route : Notes → Outcome
  stuck : Outcome

module _ (ranges : List Range) (index : List Contact) (root : Contact)
    (terminus payload_class : ℕ) where
  -- The `while (1)` loop; one round for the root and one for each contact are enough.
  unfoldable pub loop : ℕ → Contact → Search → Option Search
  loop zero current s = none
  loop (suc fuel) current s =
      let s' = expand ranges terminus payload_class index current s in
      elim (select_next s' index) [ none ↦ some s' | some next ↦ loop fuel next s' ]

  unfoldable pub read_route : Search → Outcome
  read_route s = elim s.final_contact [
    | none ↦ no_route s.notes
    | some contact ↦
        elim (trace_back (length index + 2) s.notes root (some contact)
          (record { end_time = max_time; capacity = max_uvast; hops = [] })) [
            | none ↦ stuck
            | some t ↦ elim (characterize payload_class s.earliest_final t) [
              | none ↦ stuck
              | some route ↦ routed s.notes route
            ]
          ]
  ]

  unfoldable pub compute_distance_to_terminus : Notes → Outcome
  compute_distance_to_terminus notes =
      let s : Search = record { notes = notes; final_contact = none; earliest_final = max_time } in
      elim (loop (length index + 1) root s) [ none ↦ stuck | some s' ↦ read_route s' ]

  -- A route to node 0 is discarded like no route.
  unfoldable pub find_next_best_route : Notes → Outcome
  find_next_best_route notes = elim (compute_distance_to_terminus notes) [
    | routed notes' route ↦ if route.to_node_nbr == 0 then no_route notes' else routed notes' route
    | other ↦ other
  ]
