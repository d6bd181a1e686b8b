-- ===== src/Cgr/Proximate.antt =====
-- The candidate neighbors of a bundle in bp/cgr/libcgr.c: the list of them that `tryRoute` keeps,
-- the nodes that `isExcluded` and `excludeNode` keep off it, and the choice of `cgrForward`.
pub mod Entries
pub mod Listing
pub mod Choice
pub mod Excluded
pub mod Probe
mod Tests
use cgr_jni.Base.{
  ℕ, Bool, true, false, if◌then◌else◌, ltb, ◌==◌, Option, none, some, List, [], ◌∷◌, ◌++◌, foldl,
}
use cgr_jni.Base.Int.{ℤ, ltb_ℤ, eqb_ℤ}
use cgr_jni.Scalar.{Scalar}

pub record FwdDirective : Type 0 where
  pub action : ℕ
  pub protocol_class : ℕ
  pub outduct_elt : ℕ
  pub dest_duct_name : ℕ
  pub eid : ℕ

pub record ProximateNode : Type 0 where
  pub neighbor_node_nbr : ℕ
  pub directive : FwdDirective
  pub forfeit_time : ℕ
  pub arrival_time : ℤ
  pub overbooked : Scalar
  pub protected : Scalar
  pub hop_count : ℕ

pub is_excluded : ℕ → List ℕ → Bool
is_excluded node_nbr [] = false
is_excluded node_nbr (nbr ∷ excluded_nodes) =
    if nbr == node_nbr then true else is_excluded node_nbr excluded_nodes

pub exclude_node : List ℕ → ℕ → List ℕ
exclude_node excluded_nodes node_nbr = excluded_nodes ++ (node_nbr ∷ [])

-- An embargo of the terminus node.
pub record Embargo : Type 0 where
  pub node_nbr : ℕ
  pub probe_is_due : Bool

-- `cgrForward` collects the excluded nodes.
pub exclude_embargoed : List ℕ → List Embargo → List ℕ
unfolding exclude_node
exclude_embargoed = foldl λ excluded_nodes (embargo : Embargo).
    if embargo.probe_is_due then excluded_nodes else exclude_node excluded_nodes embargo.node_nbr

pub excluded_nodes_of : Bool → ℕ → List Embargo → List ℕ
unfolding exclude_node exclude_embargoed
excluded_nodes_of return_to_sender sender_node_nbr embargoes =
    exclude_embargoed (if return_to_sender then [] else exclude_node [] sender_node_nbr) embargoes

-- The entry of a neighbor that is already in the list, when a route over it is a plausible one.
pub improve_node : ProximateNode → ProximateNode → ProximateNode
improve_node prox_node offer =
    if ltb_ℤ offer.arrival_time prox_node.arrival_time
    then record prox_node {
      arrival_time = offer.arrival_time;
      hop_count = offer.hop_count;
      forfeit_time = offer.forfeit_time;
      overbooked = offer.overbooked;
      protected = offer.protected;
    }
    else if eqb_ℤ offer.arrival_time prox_node.arrival_time
    then (if ltb offer.hop_count prox_node.hop_count
        then record prox_node {
          hop_count = offer.hop_count;
          forfeit_time = offer.forfeit_time;
          overbooked = offer.overbooked;
          protected = offer.protected;
        }
        else prox_node)
    else prox_node

-- The end of `tryRoute`, once the route is known to be plausible: `offer` is the entry that it
-- makes of the route for a new neighbor.
pub note_route : List ProximateNode → ProximateNode → List ProximateNode
unfolding improve_node
note_route [] offer = offer ∷ []
note_route (prox_node ∷ prox_nodes) offer =
    if prox_node.neighbor_node_nbr == offer.neighbor_node_nbr
    then improve_node prox_node offer ∷ prox_nodes
    else prox_node ∷ note_route prox_nodes offer

-- The loop of `cgrForward` that selects a neighbor for a bundle that is not critical.
pub consider_node : Option ProximateNode → ProximateNode → Option ProximateNode
consider_node none prox_node = some prox_node
consider_node (some selected) prox_node =
    if ltb_ℤ prox_node.arrival_time selected.arrival_time
    then some prox_node
    else if eqb_ℤ prox_node.arrival_time selected.arrival_time
    then (if ltb prox_node.hop_count selected.hop_count
        then some prox_node
        else if prox_node.hop_count == selected.hop_count
        then (if ltb prox_node.neighbor_node_nbr selected.neighbor_node_nbr
            then some prox_node
            else some selected)
        else some selected)
    else some selected

pub select_neighbor : List ProximateNode → Option ProximateNode
unfolding consider_node
select_neighbor = foldl consider_node none

-- `enqueueToNeighbor` sends a bundle to an embargoed neighbor as a probe: none is due any more.
pub send_probe : ℕ → List Embargo → List Embargo
send_probe neighbor_node_nbr [] = []
send_probe neighbor_node_nbr (embargo ∷ embargoes) = elim (ltb embargo.node_nbr neighbor_node_nbr) [
  | true ↦ embargo ∷ send_probe neighbor_node_nbr embargoes
  | false ↦
      if ltb neighbor_node_nbr embargo.node_nbr
      then embargo ∷ embargoes
      else record embargo { probe_is_due = false } ∷ embargoes
]
