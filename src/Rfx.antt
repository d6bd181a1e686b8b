-- ===== src/Rfx.antt =====
-- The state that ici/library/rfx.c manages: the volatile database `IonVdb` of ici/include/ion.h,
-- and the lists of contacts and ranges of the non-volatile `IonDB`.
--
-- A red-black tree is the list of its data in order (Rbt). A contact or range stands for the
-- object at its PsmAddress `addr`, and `contact_elt` and `range_elt` are the SDR list elements of
-- the database entries, 0 for an imputed range. Memory is not exhausted: the next addresses are
-- those of counters. Event times are signed, since a `stop` time lies `max_clock_error` before the
-- end of the contact.
pub mod Contacts
pub mod Ranges
pub mod Embargoes
pub mod Orders
pub mod Overlap
pub mod Accept
pub mod Kept
pub mod Remove
pub mod Events
pub mod Schedule
pub mod Stored
pub mod Storing
pub mod Sound
pub mod Undo
pub mod RangeIndex
pub mod RangePairs
pub mod RangeRemoval
pub mod RangeEnds
pub mod Carries
pub mod RangeCarries
pub mod RangeKeeps
pub mod Override
pub mod Steps
mod Tests
use Prim.Native.Nat.{Ordering}
use cgr_jni.Base.{ℕ, Bool, false, ltb, leb, if◌then◌else◌, List, [], ◌∷◌, Option, none, some}
use cgr_jni.Base.Int.{ℤ, pos, negsuc, ltb_ℤ}
use cgr_jni.Rbt.{find, insert, delete}
use cgr_jni.Plan.{Key, Contact, order_keys}
use cgr_jni.Cgr.Proximate.{Embargo}

pub data EventType : Type 0 where
  stop_imputed_range : EventType
  stop_asserted_range : EventType
  stop_xmit : EventType
  stop_fire : EventType
  stop_recv : EventType
  start_imputed_range : EventType
  start_asserted_range : EventType
  start_xmit : EventType
  start_fire : EventType
  start_recv : EventType
  purge_contact : EventType

unfoldable pub event_code : EventType → ℕ
event_code EventType.stop_imputed_range = 0
event_code EventType.stop_asserted_range = 1
event_code EventType.stop_xmit = 2
event_code EventType.stop_fire = 3
event_code EventType.stop_recv = 4
event_code EventType.start_imputed_range = 16
event_code EventType.start_asserted_range = 17
event_code EventType.start_xmit = 18
event_code EventType.start_fire = 19
event_code EventType.start_recv = 20
event_code EventType.purge_contact = 21

pub record Event : Type 0 where
  pub time : ℤ
  pub type : EventType
  pub ref : ℕ

-- `IonCXref`. The float `prob` is given by its 32 bits.
pub record Cxref : Type 0 where
  pub addr : ℕ
  pub from_node : ℕ
  pub to_node : ℕ
  pub from_time : ℕ
  pub to_time : ℕ
  pub xmit_rate : ℕ
  pub prob : ℕ
  pub start_xmit : ℤ
  pub stop_xmit : ℤ
  pub start_fire : ℤ
  pub stop_fire : ℤ
  pub start_recv : ℤ
  pub stop_recv : ℤ
  pub purge_time : ℤ
  pub contact_elt : ℕ

-- `IonRXref`.
pub record Rxref : Type 0 where
  pub addr : ℕ
  pub from_node : ℕ
  pub to_node : ℕ
  pub from_time : ℕ
  pub to_time : ℕ
  pub owlt : ℕ
  pub range_elt : ℕ

pub record Node : Type 0 where
  pub node_nbr : ℕ
  pub embargoes : List Embargo

pub record Neighbor : Type 0 where
  pub node_nbr : ℕ
  pub xmit_rate : ℕ
  pub fire_rate : ℕ
  pub recv_rate : ℕ
  pub owlt_inbound : ℕ
  pub owlt_outbound : ℕ

pub record Probe : Type 0 where
  pub dest_node_nbr : ℕ
  pub neighbor_node_nbr : ℕ
  pub time : ℤ

-- `IonContact` and `IonRange`, with the list elements `elt` that hold them.
pub record IonContact : Type 0 where
  pub elt : ℕ
  pub from_time : ℕ
  pub to_time : ℕ
  pub from_node : ℕ
  pub to_node : ℕ
  pub xmit_rate : ℕ
  pub prob : ℕ

pub record IonRange : Type 0 where
  pub elt : ℕ
  pub from_time : ℕ
  pub to_time : ℕ
  pub from_node : ℕ
  pub to_node : ℕ
  pub owlt : ℕ

pub record Ion : Type 0 where
  pub nodes : List Node
  pub neighbors : List Neighbor
  pub contact_index : List Cxref
  pub range_index : List Rxref
  pub timeline : List Event
  pub probes : List Probe
  pub last_edit_time : ℕ
  pub contacts : List IonContact
  pub ranges : List IonRange
  pub next_addr : ℕ
  pub next_elt : ℕ

-- What a call reads of its surroundings: `getOwnNodeNbr`, `getUTCTime`, `iondb.maxClockError`.
pub record Env : Type 0 where
  pub own_node_nbr : ℕ
  pub current_time : ℕ
  pub max_clock_error : ℕ

abbrev pub cxref_key : Cxref → Key
cxref_key c = record { from_node = c.from_node; to_node = c.to_node; from_time = c.from_time }

abbrev pub rxref_key : Rxref → Key
rxref_key r = record { from_node = r.from_node; to_node = r.to_node; from_time = r.from_time }

-- The contact as route computation reads it.
abbrev pub plan_contact : Cxref → Contact
plan_contact c = record {
  addr = c.addr;
  from_node = c.from_node;
  to_node = c.to_node;
  from_time = c.from_time;
  to_time = c.to_time;
  xmit_rate = c.xmit_rate;
}

unfoldable pub order_numbers : ℕ → ℕ → Ordering
order_numbers a b = if ltb a b then Ordering.lt else if ltb b a then Ordering.gt else Ordering.eq

unfoldable pub order_events : Event → Event → Ordering
unfolding event_code
order_events event arg =
    if ltb_ℤ event.time arg.time
    then Ordering.lt
    else if ltb_ℤ arg.time event.time
    then Ordering.gt
    else if ltb (event_code event.type) (event_code arg.type)
    then Ordering.lt
    else if ltb (event_code arg.type) (event_code event.type)
    then Ordering.gt
    else if ltb event.ref arg.ref
    then Ordering.lt
    else if ltb arg.ref event.ref
    then Ordering.gt
    else Ordering.eq

abbrev pub order_cxrefs : Cxref → Key → Ordering
order_cxrefs c = order_keys (cxref_key c)

abbrev pub order_rxrefs : Rxref → Key → Ordering
order_rxrefs r = order_keys (rxref_key r)

abbrev pub order_nodes : Node → ℕ → Ordering
order_nodes node = order_numbers node.node_nbr

abbrev pub order_neighbors : Neighbor → ℕ → Ordering
order_neighbors neighbor = order_numbers neighbor.node_nbr

unfoldable pub find_node : List Node → ℕ → Option Node
find_node nodes node_nbr = find order_nodes node_nbr nodes

unfoldable pub add_node : List Node → ℕ → List Node
add_node nodes node_nbr =
    insert order_nodes node_nbr (record { node_nbr = node_nbr; embargoes = [] }) nodes

-- The node is added where `findNode` does not find it.
unfoldable pub load_node : List Node → ℕ → List Node
load_node nodes node_nbr = elim (find_node nodes node_nbr) [
  | none ↦ add_node nodes node_nbr
  | some _ ↦ nodes
]

unfoldable pub find_neighbor : List Neighbor → ℕ → Option Neighbor
find_neighbor neighbors node_nbr = find order_neighbors node_nbr neighbors

-- An assignment to a field of the neighbor that `findNeighbor` finds, if it finds one.
unfoldable pub update_neighbor : (Neighbor → Neighbor) → ℕ → List Neighbor → List Neighbor
update_neighbor f node_nbr [] = []
update_neighbor f node_nbr (x ∷ xs) = elim (order_neighbors x node_nbr) [
  | Ordering.lt ↦ x ∷ update_neighbor f node_nbr xs
  | Ordering.eq ↦ f x ∷ xs
  | Ordering.gt ↦ x ∷ xs
]

unfoldable pub add_neighbor : Ion → ℕ → Ion
add_neighbor s node_nbr = record s {
  nodes = load_node s.nodes node_nbr;
  neighbors =
      insert order_neighbors node_nbr
        (record {
          node_nbr = node_nbr;
          xmit_rate = 0;
          fire_rate = 0;
          recv_rate = 0;
          owlt_inbound = 0;
          owlt_outbound = 0;
        })
        s.neighbors;
}

abbrev pub is_zero : ℤ → Bool
is_zero (pos n) = leb n 0
is_zero (negsuc n) = false

unfoldable pub post_event : Event → List Event → List Event
post_event event timeline = insert order_events event event timeline

unfoldable pub cancel_event : Event → List Event → List Event
cancel_event event timeline = delete order_events event timeline
