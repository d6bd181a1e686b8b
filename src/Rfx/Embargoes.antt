-- ===== src/Rfx/Embargoes.antt =====
-- The embargoes of ici/library/rfx.c and the probes that they schedule: `addEmbargo`,
-- `removeEmbargo` and `postProbeEvent`.
pub mod Lists
pub mod Probes
mod Tests
use cgr_jni.Base.{
  ℕ, ◌+◌, ◌*◌, ◌%◌, ◌^◌, Bool, true, false, ltb, if◌then◌else◌, Option, none, some, List, [], ◌∷◌,
}
use cgr_jni.Base.Int.{ℤ, pos, sub_ℕ, ltb_ℤ}
use cgr_jni.Cgr.Proximate.{Embargo}
use cgr_jni.Rfx.{Node, Neighbor, Probe, Ion, Env, find_neighbor}

-- Whether the search for the insertion point meets the neighbor: "already added".
unfoldable pub has_embargo : ℕ → List Embargo → Bool
has_embargo neighbor_node_nbr [] = false
has_embargo neighbor_node_nbr (embargo ∷ embargoes) =
    let rest = has_embargo neighbor_node_nbr embargoes in
    if ltb embargo.node_nbr neighbor_node_nbr
    then rest
    else if ltb neighbor_node_nbr embargo.node_nbr
    then false
    else true

-- The insertion before the first greater number.
unfoldable pub insert_embargo : Embargo → List Embargo → List Embargo
insert_embargo new [] = new ∷ []
insert_embargo new (embargo ∷ embargoes) =
    let rest = insert_embargo new embargoes in
    if ltb embargo.node_nbr new.node_nbr then embargo ∷ rest else new ∷ embargo ∷ embargoes

unfoldable pub delete_embargo : ℕ → List Embargo → List Embargo
delete_embargo neighbor_node_nbr [] = []
delete_embargo neighbor_node_nbr (embargo ∷ embargoes) =
    let rest = delete_embargo neighbor_node_nbr embargoes in
    if ltb embargo.node_nbr neighbor_node_nbr
    then embargo ∷ rest
    else if ltb neighbor_node_nbr embargo.node_nbr
    then embargo ∷ embargoes
    else embargoes

-- The time of the next probe: twice the round trip, on 32 bits, and at least 6 seconds. The round
-- trip is unsigned in the comparison and signed in the sum.
unfoldable pub probe_time : Env → Option Neighbor → ℤ
probe_time env none = pos (env.current_time + 6)
probe_time env (some neighbor) =
    let rtlt = (neighbor.owlt_outbound + neighbor.owlt_inbound) * 2 % 2 ^ 32 in
    if ltb 6 rtlt
    then (if ltb rtlt (2 ^ 31)
        then pos (env.current_time + rtlt)
        else sub_ℕ (env.current_time + rtlt) (2 ^ 32))
    else pos (env.current_time + 6)

-- The search from the last probe back, for one that is not later.
unfoldable pub insert_after : Probe → List Probe → Option (List Probe)
insert_after probe [] = none
insert_after probe (pr ∷ probes) = elim (insert_after probe probes) [
  | some rest ↦ some (pr ∷ rest)
  | none ↦ if ltb_ℤ probe.time pr.time then none else some (pr ∷ probe ∷ probes)
]

unfoldable pub insert_probe : Probe → List Probe → List Probe
unfolding insert_after
insert_probe probe probes = elim (insert_after probe probes) [
  | some rest ↦ rest
  | none ↦ probe ∷ probes
]

unfoldable pub post_probe_event : Env → Node → Embargo → Ion → Ion
unfolding probe_time insert_probe
post_probe_event env node embargo s =
    let probe : Probe = record {
      dest_node_nbr = node.node_nbr;
      neighbor_node_nbr = embargo.node_nbr;
      time = probe_time env (find_neighbor s.neighbors embargo.node_nbr);
    } in
    record s { probes = insert_probe probe s.probes }

-- The node with its new list, and the state with the new probe.
unfoldable pub add_embargo : Env → Node → ℕ → Ion → Node × Ion
unfolding has_embargo insert_embargo post_probe_event
add_embargo env node neighbor_node_nbr s =
    let embargo : Embargo = record { node_nbr = neighbor_node_nbr; probe_is_due = false } in
    if has_embargo neighbor_node_nbr node.embargoes then (node, s) else (
      record node { embargoes = insert_embargo embargo node.embargoes },
      post_probe_event env node embargo s,
    )

unfoldable pub remove_embargo : Node → ℕ → Node
unfolding delete_embargo
remove_embargo node neighbor_node_nbr = record node {
  embargoes = delete_embargo neighbor_node_nbr node.embargoes;
}
