-- ===== src/Rfx/Ranges.antt =====
-- The ranges of ici/library/rfx.c: `insertRXref`, `rfx_insert_range`, `deleteRange` and
-- `rfx_remove_range`.
use cgr_jni.Base.{
  ℕ, zero, suc, Bool, true, false, not, ◌&&◌, ◌||◌, ◌==◌, ltb, leb, if◌then◌else◌, Option, none,
  some, List, [], ◌∷◌, ◌++◌,
}
use cgr_jni.Base.Int.{pos}
use cgr_jni.Rbt.{find, successors, predecessors, last, insert, delete}
use cgr_jni.Plan.{Key}
use cgr_jni.Rfx.{
  EventType, Event, Rxref, Neighbor, IonRange, Ion, Env, rxref_key, order_rxrefs, load_node,
  update_neighbor, post_event, cancel_event,
}
use cgr_jni.Rfx.Contacts.{edit_time}

abbrev pub range_event : ℕ → EventType → ℕ → Event
range_event time type ref = record { time = pos time; type = type; ref = ref }

-- A range index entry with its two events. `deleteRange` finds the types from `range_elt`.
unfoldable pub start_type : Rxref → EventType
start_type rxref =
    if rxref.range_elt == 0 then EventType.start_imputed_range else EventType.start_asserted_range

unfoldable pub stop_type : Rxref → EventType
stop_type rxref =
    if rxref.range_elt == 0 then EventType.stop_imputed_range else EventType.stop_asserted_range

unfoldable pub cancel_range_events : Rxref → List Event → List Event
unfolding start_type stop_type cancel_event
cancel_range_events rxref timeline =
    cancel_event (range_event rxref.to_time (stop_type rxref) rxref.addr)
      (cancel_event (range_event rxref.from_time (start_type rxref) rxref.addr) timeline)

-- The index entry and its asserted events, with the nodes that it names.
unfoldable pub assert_range : Env → Rxref → Ion → Ion
unfolding post_event
assert_range env rxref s =
    let rxaddr = s.next_addr in
    record s {
      nodes = load_node (load_node s.nodes rxref.to_node) rxref.from_node;
      range_index =
          insert order_rxrefs (rxref_key rxref) (record rxref { addr = rxaddr }) s.range_index;
      timeline = post_event (range_event rxref.to_time EventType.stop_asserted_range rxaddr) (
          post_event (range_event rxref.from_time EventType.start_asserted_range rxaddr)
            s.timeline);
      last_edit_time = edit_time env rxref.to_time s;
      next_addr = suc rxaddr;
    }

-- The reverse range, with `range_elt` 0 for "imputed".
unfoldable pub reverse_range : Rxref → ℕ → Rxref
reverse_range rxref rxaddr = record {
  addr = rxaddr;
  from_node = rxref.to_node;
  to_node = rxref.from_node;
  from_time = rxref.from_time;
  to_time = rxref.to_time;
  owlt = rxref.owlt;
  range_elt = 0;
}

unfoldable pub impute_range : Rxref → Ion → Ion
unfolding reverse_range post_event
impute_range rxref s =
    let rxaddr = s.next_addr in
    let rxref2 = reverse_range rxref rxaddr in
    record s {
      range_index = insert order_rxrefs (rxref_key rxref2) rxref2 s.range_index;
      timeline = post_event (range_event rxref.to_time EventType.stop_imputed_range rxaddr) (
          post_event (range_event rxref.from_time EventType.start_imputed_range rxaddr) s.timeline);
      next_addr = suc rxaddr;
    }

unfoldable pub insert_rxref : Env → Rxref → Ion → ℕ × Ion
unfolding assert_range impute_range
insert_rxref env rxref s =
    let t = assert_range env rxref s in
    if ltb rxref.to_node rxref.from_node
    then (s.next_addr, t)
    else elim (find order_rxrefs
        (record {
          from_node = rxref.to_node;
          to_node = rxref.from_node;
          from_time = rxref.from_time;
        })
        t.range_index) [ some _ ↦ (s.next_addr, t) | none ↦ (s.next_addr, impute_range rxref t) ]

abbrev pub range_arg : ℕ → ℕ → ℕ → ℕ → ℕ → Rxref
range_arg from_time to_time from_node to_node owlt = record {
  addr = 0;
  from_node = from_node;
  to_node = to_node;
  from_time = from_time;
  to_time = to_time;
  owlt = owlt;
  range_elt = 0;
}

unfoldable pub range_runs_into : Rxref → List Rxref → Bool
range_runs_into arg [] = false
range_runs_into arg (rxref ∷ _) =
    arg.from_node == rxref.from_node
    && arg.to_node == rxref.to_node
    && ltb rxref.from_time arg.to_time

unfoldable pub range_starts_within : Rxref → Option Rxref → Bool
range_starts_within arg none = false
range_starts_within arg (some rxref) =
    arg.from_node == rxref.from_node
    && arg.to_node == rxref.to_node
    && ltb arg.from_time rxref.to_time

-- `next` is the successor that the search has found, none when the search has found the key.
unfoldable pub range_overlaps : Rxref → List Rxref → List Rxref → Bool
unfolding range_runs_into range_starts_within
range_overlaps arg next index =
    range_runs_into arg next
    || range_starts_within arg (elim next [
      | [] ↦ last index
      | _ ∷ _ ↦ last (predecessors order_rxrefs (rxref_key arg) index)
    ])

-- The part after the checks: the database entry, then the index entry.
unfoldable pub enter_range : Env → Rxref → Ion → ℕ × Ion
unfolding insert_rxref
enter_range env arg s =
    let range : IonRange = record {
      elt = s.next_elt;
      from_time = arg.from_time;
      to_time = arg.to_time;
      from_node = arg.from_node;
      to_node = arg.to_node;
      owlt = arg.owlt;
    } in
    insert_rxref env (record arg { range_elt = s.next_elt })
      (record s { ranges = s.ranges ++ (range ∷ []); next_elt = suc s.next_elt })

-- An imputed range gives way to an asserted one.
unfoldable pub drop_imputed : Rxref → Ion → Ion
unfolding cancel_event
drop_imputed rxref s = record s {
  range_index = delete order_rxrefs (rxref_key rxref) s.range_index;
  timeline = cancel_event (range_event rxref.to_time EventType.stop_imputed_range rxref.addr) (
      cancel_event (range_event rxref.from_time EventType.start_imputed_range rxref.addr)
        s.timeline);
}

unfoldable pub check_range : Env → Rxref → List Rxref → Ion → ℕ × Ion
unfolding range_overlaps enter_range
check_range env arg next s =
    if range_overlaps arg next s.range_index then (0, s) else enter_range env arg s

-- The answer 0 says that the range was not inserted.
unfoldable pub insert_range : Env → ℕ → ℕ → ℕ → ℕ → ℕ → Ion → ℕ × Ion
unfolding drop_imputed check_range
insert_range env from_time to_time from_node to_node owlt s =
    let arg = range_arg from_time to_time from_node to_node owlt in
    let next = successors order_rxrefs (rxref_key arg) s.range_index in
    if not (ltb 0 from_time && ltb from_time to_time && ltb 0 from_node && ltb 0 to_node)
    then (0, s)
    else elim (find order_rxrefs (rxref_key arg) s.range_index) [
      | some rxref ↦
          if rxref.range_elt == 0
          then check_range env arg next (drop_imputed rxref s)
          else if rxref.owlt == owlt
          then (rxref.addr, s)
          else (0, s)
      | none ↦ check_range env arg next s
    ]

unfoldable pub delete_range_elt : ℕ → List IonRange → List IonRange
delete_range_elt elt [] = []
delete_range_elt elt (x ∷ xs) = if x.elt == elt then xs else x ∷ delete_range_elt elt xs

-- The light times that the range has given a neighbor and that end with it.
unfoldable pub reset_owlts : Env → Rxref → List Neighbor → List Neighbor
reset_owlts env rxref neighbors =
    if leb rxref.from_time env.current_time && leb env.current_time rxref.to_time
    then (let neighbors =
          if rxref.from_node == env.own_node_nbr
          then update_neighbor (λ n. record n { owlt_outbound = 0 }) rxref.to_node neighbors
          else neighbors in
        if rxref.to_node == env.own_node_nbr
        then update_neighbor (λ n. record n { owlt_inbound = 0 }) rxref.from_node neighbors
        else neighbors)
    else neighbors

-- A conditional deletion retains asserted ranges.
unfoldable pub delete_range : Env → Bool → Rxref → Ion → Ion
unfolding delete_range_elt cancel_range_events reset_owlts
delete_range env conditional rxref s =
    if conditional && not (rxref.range_elt == 0) then s else record s {
      ranges = if rxref.range_elt == 0 then s.ranges else delete_range_elt rxref.range_elt s.ranges;
      timeline = cancel_range_events rxref s.timeline;
      neighbors = reset_owlts env rxref s.neighbors;
      last_edit_time = edit_time env rxref.to_time s;
      range_index = delete order_rxrefs (rxref_key rxref) s.range_index;
    }

-- The loop of a wild-card deletion; `none` says that the fuel was not enough for its rounds.
unfoldable pub remove_ranges : ℕ → Env → Bool → Key → Ion → Option Ion
unfolding delete_range
remove_ranges zero env conditional arg s = none
remove_ranges (suc fuel) env conditional arg s = elim (successors order_rxrefs arg s.range_index) [
  | [] ↦ some s
  | rxref ∷ _ ↦
      let rest = remove_ranges fuel env conditional arg (delete_range env conditional rxref s) in
      if ltb arg.from_node rxref.from_node || ltb arg.to_node rxref.to_node then some s else rest
]

-- One direction of a removal.
unfoldable pub remove_direction : ℕ → Env → Bool → Key → Ion → Option Ion
unfolding remove_ranges
remove_direction fuel env conditional arg s =
    if ltb 0 arg.from_time
    then elim (find order_rxrefs arg s.range_index) [
      | some rxref ↦ some (delete_range env conditional rxref s)
      | none ↦ some s
    ]
    else remove_ranges fuel env conditional arg s

-- A `from_time` of 0 stands for all ranges between the two nodes. The fuel is that of each loop.
unfoldable pub remove_range : ℕ → Env → ℕ → ℕ → ℕ → Ion → Option Ion
unfolding remove_direction
remove_range fuel env from_time from_node to_node s =
    elim (remove_direction fuel env false
      (record { from_node = from_node; to_node = to_node; from_time = from_time }) s) [
        | none ↦ none
        | some t ↦
            if ltb to_node from_node
            then some t
            else remove_direction fuel env true
                (record { from_node = to_node; to_node = from_node; from_time = from_time }) t
      ]
