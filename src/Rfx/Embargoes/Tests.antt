-- ===== src/Rfx/Embargoes/Tests.antt =====
-- Runs of the calls of rfx.c on embargoes and probes.
use cgr_jni.Base.{ℕ, ◌+◌, ◌^◌, ◌≡◌, ◌↔◌, ◌⊎◌, some, false, [], ◌∷◌, ◌∈◌, arith}
use Prim.Native.Nat.{max}
use cgr_jni.Base.Int.{pos, ◌≤ℤ◌}
use cgr_jni.Rfx.{Ion, Node, Neighbor, Probe, Env}
use cgr_jni.Cgr.Proximate.{Embargo}
use cgr_jni.Rfx.Steps.{empty_ion}
use cgr_jni.Rfx.Embargoes.{probe_time, add_embargo, remove_embargo}
use cgr_jni.Rfx.Embargoes.Probes.{IsInTime, probe_time_lem}
use cgr_jni.Rfx.Embargoes.Lists.{add_embargo_lem}
use cgr_jni.Cgr.Proximate.Probe.{IsOrdered, Listed}
use cgr_jni.Cgr.Proximate.Excluded.{Embargoes}

abbrev env : Env
env = record { own_node_nbr = 1; current_time = 5; max_clock_error = 1 }

abbrev near : Neighbor
near = record {
  node_nbr = 2;
  xmit_rate = 0;
  fire_rate = 0;
  recv_rate = 0;
  owlt_inbound = 5;
  owlt_outbound = 7;
}

probe_time_example :
    (probe_time env (some near) ≡ pos (5 + max 6 24))
    × (pos (5 + 6) ≤ℤ probe_time env (some near))
    × (probe_time env (some near) ≤ℤ pos (5 + 2 ^ 31))
probe_time_example = probe_time_lem env near (omega arith)

-- The round trip of a neighbor that is too far away wraps around to a time before the present.
probe_time_wraps :
    probe_time env (some (record near { owlt_inbound = 2 ^ 30; owlt_outbound = 0 })) ≤ℤ pos 0
unfolding probe_time
probe_time_wraps = omega arith

abbrev embargo : ℕ → Embargo
embargo n = record { node_nbr = n; probe_is_due = false }

abbrev destination : Node
destination = record { node_nbr = 9; embargoes = embargo 1 ∷ embargo 4 ∷ [] }

-- A probe for each of its embargoes is due.
abbrev probed : Ion
probed = record empty_ion {
  probes =
      record { time = pos 8; dest_node_nbr = 9; neighbor_node_nbr = 4 }
      ∷ record { time = pos 20; dest_node_nbr = 9; neighbor_node_nbr = 1 }
      ∷ [];
}

add_embargo_example :
    let (node', s') = add_embargo env destination 2 probed in
    IsOrdered node'.embargoes
    × IsInTime s'.probes
    × ((Listed 2 destination.embargoes × (node' ≡ destination) × (s' ≡ probed))
        ⊎ (¬ Listed 2 destination.embargoes
            × ((m : ℕ)
                → Embargoes m node'.embargoes ↔ (Embargoes m destination.embargoes ⊎ (m ≡ 2)))
            × (remove_embargo node' 2 ≡ destination)
            × ((p : Probe) × (p ∈ s'.probes) × (p.dest_node_nbr ≡ 9) × (p.neighbor_node_nbr ≡ 2))))
add_embargo_example =
    add_embargo_lem env destination 2 probed ((omega arith, tt), (tt, tt))
      ((omega arith, tt), (tt, tt))
