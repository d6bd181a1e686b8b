-- ===== src/Cgr/Proximate/Tests.antt =====
-- Three routes over two neighbors.
use cgr_jni.Base.{arith, ℕ, ◌≡◌, ◌⊎◌, ◌↔◌, refl, inl, true, false, some, List, [], ◌∷◌, ◌∈◌, foldl}
use cgr_jni.Base.Int.{pos}
use cgr_jni.Scalar.{Scalar}
use cgr_jni.Cgr.Proximate.{
  ProximateNode, Embargo, is_excluded, excluded_nodes_of, send_probe, note_route, improve_node,
  select_neighbor, consider_node,
}
use cgr_jni.Cgr.Proximate.Entries.{IsOf}
use cgr_jni.Cgr.Proximate.Listing.{Lists, note_routes-Lists}
use cgr_jni.Cgr.Proximate.Choice.{Precedes, select_neighbor_best}
use cgr_jni.Cgr.Proximate.Probe.{Listed, send_probe_iff}
use cgr_jni.Cgr.Proximate.Excluded.{Embargoes, is_excluded_iff}

abbrev empty : Scalar
empty = record { gigs = pos 0; units = pos 0 }

abbrev offer : ℕ → ℕ → ℕ → ProximateNode
offer nbr arrival hops = record {
  neighbor_node_nbr = nbr;
  directive = record {
    action = 2;
    protocol_class = 0;
    outduct_elt = nbr;
    dest_duct_name = 0;
    eid = 0;
  };
  forfeit_time = 100;
  arrival_time = pos arrival;
  overbooked = empty;
  protected = empty;
  hop_count = hops;
}

abbrev offers : List ProximateNode
offers = offer 7 50 3 ∷ offer 5 40 4 ∷ offer 7 40 4 ∷ []

lowest_number : select_neighbor (foldl note_route [] offers) ≡ some (offer 5 40 4)
unfolding select_neighbor consider_node note_route improve_node
lowest_number = refl

note_routes-Lists_example : Lists (foldl note_route [] offers) (λ o. o ∈ offers)
note_routes-Lists_example = note_routes-Lists offers

select_neighbor_best_example :
    (p : ProximateNode) × (select_neighbor (foldl note_route [] offers) ≡ some p)
    × ((x : ProximateNode) × (x ∈ offers) × IsOf p x)
    × ((x : ProximateNode) → x ∈ offers → Precedes p x)
select_neighbor_best_example = select_neighbor_best offers (offer 7 50 3) (inl refl)

abbrev embargoes : List Embargo
embargoes =
    record { node_nbr = 5; probe_is_due = true }
    ∷ record { node_nbr = 8; probe_is_due = false }
    ∷ []

abbrev node : ℕ
node = 8

is_excluded_iff_example :
    (is_excluded node (excluded_nodes_of false 4 embargoes) ≡ true)
    ↔ (((false ≡ false) × (node ≡ 4)) ⊎ Embargoes node embargoes)
is_excluded_iff_example = is_excluded_iff node false 4 embargoes

abbrev probed : ℕ
probed = 5

send_probe_iff_example :
    Embargoes 5 (send_probe 5 embargoes)
    ↔ (Embargoes 5 embargoes ⊎ ((probed ≡ probed) × Listed 5 embargoes))
send_probe_iff_example = send_probe_iff probed probed embargoes ((omega arith, tt), (tt, tt))
