-- ===== src/Rfx/Contacts.antt =====
-- The contacts of ici/library/rfx.c: `insertCXref`, `rfx_insert_contact`, `deleteContact` and
-- `rfx_remove_contact`.
use cgr_jni.Base.{
  ℕ, zero, suc, ◌+◌, Bool, false, not, ◌&&◌, ◌||◌, ◌==◌, ltb, leb, if◌then◌else◌, Option, none,
  some, List, [], ◌∷◌, ◌++◌, length,
}
use cgr_jni.Base.Int.{ℤ, pos, sub_ℕ, ltb_ℤ}
use cgr_jni.Rbt.{find, successors, predecessors, last, insert, delete}
use cgr_jni.Plan.{Key}
use cgr_jni.Rfx.{
  EventType, Event, Cxref, Neighbor, IonContact, Ion, Env, cxref_key, order_cxrefs, load_node,
  update_neighbor, is_zero, post_event, cancel_event,
}

-- The times at which the local node starts and stops sending.
unfoldable pub xmit_times : Env → Cxref → Cxref
xmit_times env cxref =
    if cxref.from_node == env.own_node_nbr
    then record cxref {
      start_xmit = pos (cxref.from_time + env.max_clock_error);
      stop_xmit = sub_ℕ cxref.to_time env.max_clock_error;
    }
    else cxref

unfoldable pub fire_times : Env → Cxref → Cxref
fire_times env cxref =
    if cxref.to_node == env.own_node_nbr
    then record cxref {
      start_fire = pos (cxref.from_time + env.max_clock_error);
      stop_fire = sub_ℕ cxref.to_time env.max_clock_error;
    }
    else record cxref { purge_time = pos cxref.to_time }

unfoldable pub schedule : ℤ → EventType → ℕ → List Event → List Event
unfolding post_event
schedule time type ref timeline =
    if is_zero time
    then timeline
    else post_event (record { time = time; type = type; ref = ref }) timeline

unfoldable pub unschedule : ℤ → EventType → ℕ → List Event → List Event
unfolding cancel_event
unschedule time type ref timeline =
    if is_zero time
    then timeline
    else cancel_event (record { time = time; type = type; ref = ref }) timeline

unfoldable pub post_contact_events : Cxref → List Event → List Event
unfolding schedule
post_contact_events cxref timeline =
    let timeline = schedule cxref.start_xmit EventType.start_xmit cxref.addr timeline in
    let timeline = schedule cxref.stop_xmit EventType.stop_xmit cxref.addr timeline in
    let timeline = schedule cxref.start_fire EventType.start_fire cxref.addr timeline in
    let timeline = schedule cxref.stop_fire EventType.stop_fire cxref.addr timeline in
    schedule cxref.purge_time EventType.purge_contact cxref.addr timeline

unfoldable pub cancel_contact_events : Cxref → List Event → List Event
unfolding unschedule
cancel_contact_events cxref timeline =
    let timeline = unschedule cxref.start_xmit EventType.start_xmit cxref.addr timeline in
    let timeline = unschedule cxref.stop_xmit EventType.stop_xmit cxref.addr timeline in
    let timeline = unschedule cxref.start_fire EventType.start_fire cxref.addr timeline in
    let timeline = unschedule cxref.stop_fire EventType.stop_fire cxref.addr timeline in
    let timeline = unschedule cxref.start_recv EventType.start_recv cxref.addr timeline in
    let timeline = unschedule cxref.stop_recv EventType.stop_recv cxref.addr timeline in
    unschedule cxref.purge_time EventType.purge_contact cxref.addr timeline

-- A change of the plan that is still to come restarts route computation.
abbrev pub edit_time : Env → ℕ → Ion → ℕ
edit_time env to_time s =
    if ltb env.current_time to_time then env.current_time else s.last_edit_time

unfoldable pub insert_cxref : Env → Cxref → Ion → ℕ × Ion
unfolding xmit_times fire_times post_contact_events
insert_cxref env cxref s =
    let cxaddr = s.next_addr in
    let cxref = fire_times env (xmit_times env (record cxref { addr = cxaddr })) in
    (
      cxaddr,
      record s {
        nodes = load_node (load_node s.nodes cxref.to_node) cxref.from_node;
        contact_index = insert order_cxrefs (cxref_key cxref) cxref s.contact_index;
        timeline = post_contact_events cxref s.timeline;
        last_edit_time = edit_time env cxref.to_time s;
        next_addr = suc cxaddr;
      },
    )

-- `prob > 0.0 && prob <= 1.0`: positive floats are ordered as their bits, and 1.0 is 0x3F800000.
unfoldable pub prob_is_valid : ℕ → Bool
prob_is_valid prob = ltb 0 prob && leb prob 1_065_353_216

-- Whether the contact overlaps with the next one of the index, or with the previous one.
unfoldable pub runs_into : Cxref → Option Cxref → Bool
runs_into arg none = false
runs_into arg (some cxref) =
    arg.from_node == cxref.from_node
    && arg.to_node == cxref.to_node
    && ltb cxref.from_time arg.to_time

unfoldable pub starts_within : Cxref → Option Cxref → Bool
starts_within arg none = false
starts_within arg (some cxref) =
    arg.from_node == cxref.from_node
    && arg.to_node == cxref.to_node
    && ltb arg.from_time cxref.to_time

abbrev pub first : List Cxref → Option Cxref
first [] = none
first (x ∷ xs) = some x

abbrev pub prev_elt : Key → List Cxref → Option Cxref
prev_elt key index = elim (successors order_cxrefs key index) [
  | [] ↦ last index
  | _ ∷ _ ↦ last (predecessors order_cxrefs key index)
]

unfoldable pub overlaps : Cxref → List Cxref → Bool
overlaps arg index =
    runs_into arg (first (successors order_cxrefs (cxref_key arg) index))
    || starts_within arg (prev_elt (cxref_key arg) index)

-- `memset` clears what `rfx_insert_contact` does not assign: `prob` too.
unfoldable pub contact_arg : ℕ → ℕ → ℕ → ℕ → ℕ → Cxref
contact_arg from_time to_time from_node to_node xmit_rate = record {
  addr = 0;
  from_node = from_node;
  to_node = to_node;
  from_time = from_time;
  to_time = to_time;
  xmit_rate = xmit_rate;
  prob = 0;
  start_xmit = pos 0;
  stop_xmit = pos 0;
  start_fire = pos 0;
  stop_fire = pos 0;
  start_recv = pos 0;
  stop_recv = pos 0;
  purge_time = pos 0;
  contact_elt = 0;
}

-- The part after the checks: the database entry, then the index entry.
unfoldable pub enter_contact : Env → Cxref → ℕ → Ion → ℕ × Ion
unfolding insert_cxref
enter_contact env arg prob s =
    let contact : IonContact = record {
      elt = s.next_elt;
      from_time = arg.from_time;
      to_time = arg.to_time;
      from_node = arg.from_node;
      to_node = arg.to_node;
      xmit_rate = arg.xmit_rate;
      prob = prob;
    } in
    insert_cxref env (record arg { contact_elt = s.next_elt })
      (record s { contacts = s.contacts ++ (contact ∷ []); next_elt = suc s.next_elt })

-- The answer 0 says that the contact was not inserted.
unfoldable pub insert_contact : Env → ℕ → ℕ → ℕ → ℕ → ℕ → ℕ → Ion → ℕ × Ion
unfolding contact_arg overlaps prob_is_valid enter_contact
insert_contact env from_time to_time from_node to_node xmit_rate prob s =
    let arg = contact_arg from_time to_time from_node to_node xmit_rate in
    if not (
      ltb 0 from_time
      && ltb from_time to_time
      && ltb 0 from_node
      && ltb 0 to_node
      && prob_is_valid prob)
    then (0, s)
    else elim (find order_cxrefs (cxref_key arg) s.contact_index) [
      | some cxref ↦ if cxref.xmit_rate == xmit_rate then (cxref.addr, s) else (0, s)
      | none ↦ if overlaps arg s.contact_index then (0, s) else enter_contact env arg prob s
    ]

abbrev within : ℕ → ℤ → ℤ → Bool
within current_time start stop =
    not (ltb_ℤ (pos current_time) start) && not (ltb_ℤ stop (pos current_time))

-- The rates that the contact has given a neighbor and that end with it.
unfoldable pub reset_rates : Env → Cxref → List Neighbor → List Neighbor
reset_rates env cxref neighbors =
    let neighbors =
      if within env.current_time cxref.start_xmit cxref.stop_xmit
      then update_neighbor (λ n. record n { xmit_rate = 0 }) cxref.to_node neighbors
      else neighbors in
    let neighbors =
      if within env.current_time cxref.start_fire cxref.stop_fire
      then update_neighbor (λ n. record n { fire_rate = 0 }) cxref.from_node neighbors
      else neighbors in
    if within env.current_time cxref.start_recv cxref.stop_recv
    then update_neighbor (λ n. record n { recv_rate = 0 }) cxref.from_node neighbors
    else neighbors

-- `sdr_list_delete` on the list of contacts.
unfoldable pub delete_elt : ℕ → List IonContact → List IonContact
delete_elt elt [] = []
delete_elt elt (x ∷ xs) = if x.elt == elt then xs else x ∷ delete_elt elt xs

unfoldable pub delete_contact : Env → Cxref → Ion → Ion
unfolding cancel_contact_events reset_rates delete_elt
delete_contact env cxref s = record s {
  timeline = cancel_contact_events cxref s.timeline;
  neighbors = reset_rates env cxref s.neighbors;
  last_edit_time = edit_time env cxref.to_time s;
  contact_index = delete order_cxrefs (cxref_key cxref) s.contact_index;
  contacts = delete_elt cxref.contact_elt s.contacts;
}

-- The loop of a wild-card deletion. The fuel bounds its rounds; `none` says that it was not enough.
unfoldable pub remove_all : ℕ → Env → Key → Ion → Option Ion
unfolding delete_contact
remove_all zero env arg s = none
remove_all (suc fuel) env arg s = elim (successors order_cxrefs arg s.contact_index) [
  | [] ↦ some s
  | cxref ∷ _ ↦
      let rest = remove_all fuel env arg (delete_contact env cxref s) in
      if ltb arg.from_node cxref.from_node || ltb arg.to_node cxref.to_node then some s else rest
]

-- A `from_time` of 0 stands for all contacts between the two nodes.
unfoldable pub remove_contact : Env → ℕ → ℕ → ℕ → Ion → Option Ion
unfolding remove_all
remove_contact env from_time from_node to_node s =
    let arg : Key = record { from_node = from_node; to_node = to_node; from_time = from_time } in
    if ltb 0 from_time
    then elim (find order_cxrefs arg s.contact_index) [
      | some cxref ↦ some (delete_contact env cxref s)
      | none ↦ some s
    ]
    else remove_all (suc (length s.contact_index)) env arg s
