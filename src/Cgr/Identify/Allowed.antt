-- ===== src/Cgr/Identify/Allowed.antt =====
-- The neighbors that identifyProximateNodes may note.
use cgr_jni.Base.{
  ℕ, ◌≡◌, ◌≢◌, ◌⊎◌, inl, inr, refl, sym, subst, true, false, not, ◌&&◌, ltb, ◌==◌, Bool-cases,
  Option, Option-cases, none, some, List, ◌∈◌, arith,
}
use cgr_jni.Base.Int.{pos, eqb_ℤ}
use cgr_jni.Plan.{Contact, Range}
use cgr_jni.Cgr.Dijkstra.{Route}
use cgr_jni.Cgr.Proximate.{FwdDirective, ProximateNode, is_excluded, note_route}
use cgr_jni.Cgr.Proximate.Entries.{note-member}
use cgr_jni.Cgr.Arrival.{Bundle, compute_arrival_time}
use cgr_jni.Cgr.Identify.{Outduct, offer_of, try_route, check_route}

-- Not excluded, and the node itself only if it is the destination.
pub record IsAllowed (own_node_nbr : ℕ) (bundle : Bundle) (excluded_nodes : List ℕ) (nbr : ℕ)
    : Type 0 where
  pub not_excluded : is_excluded nbr excluded_nodes ≡ false
  pub not_self :
      (nbr ≢ own_node_nbr)
      ⊎ ((bundle.destination_cbhe ≡ true) × (bundle.destination_node_nbr ≡ nbr))

module _ (get_directive : ℕ → Option FwdDirective) (outduct_at : ℕ → Outduct) (ranges : List Range)
    (index : List Contact) (root_addr own_node_nbr terminus current_time : ℕ) (bundle : Bundle)
    (excluded_nodes : List ℕ) where
  abbrev pub AllAllowed : List ProximateNode → Type 0
  AllAllowed nodes =
      (p : ProximateNode)
      → p ∈ nodes
      → IsAllowed own_node_nbr bundle excluded_nodes p.neighbor_node_nbr

  -- The offer, if there is one, is for the neighbor of the route.
  abbrev FirstHop : Route → Option ProximateNode → Type 0
  FirstHop route none = Unit
  FirstHop route (some offer) = offer.neighbor_node_nbr ≡ route.to_node_nbr

  abbrev offered : Route → FwdDirective → Outduct → Option ProximateNode
  offered =
      offer_of get_directive outduct_at ranges index root_addr own_node_nbr terminus current_time
        bundle

  offer_of-FirstHop :
      (route : Route) (directive : FwdDirective) (outduct : Outduct)
      → FirstHop route (offered route directive outduct)
  unfolding offer_of
  offer_of-FirstHop route directive outduct =
      elim (Option-cases (
        compute_arrival_time ranges index own_node_nbr route bundle current_time
          outduct.std_backlog)) [
            | inl never ↦ rw (never, offer_of) tt
            | inr (a, e) ↦ elim (Bool-cases (eqb_ℤ a.arrival_time (pos 0))) [
              | inl zero_time ↦ rw (e, offer_of) (rw (zero_time, offer_of) tt)
              | inr some_time ↦ rw (e, offer_of) (rw (some_time, offer_of) refl)
            ]
          ]

  note_route-AllAllowed :
      (nodes : List ProximateNode) (offer : ProximateNode)
      → IsAllowed own_node_nbr bundle excluded_nodes offer.neighbor_node_nbr
      → AllAllowed nodes
      → AllAllowed (note_route nodes offer)
  note_route-AllAllowed nodes offer allowed all p m = elim (note-member nodes offer p m) [
    | inl old ↦ all p old
    | inr new ↦
        subst (IsAllowed own_node_nbr bundle excluded_nodes) (sym new.neighbor_node_nbr) allowed
  ]

  offer-AllAllowed :
      (route : Route) (nodes : List ProximateNode) (o : Option ProximateNode)
      → FirstHop route o
      → IsAllowed own_node_nbr bundle excluded_nodes route.to_node_nbr
      → AllAllowed nodes
      → AllAllowed (elim o [ none ↦ nodes | some offer ↦ note_route nodes offer ])
  offer-AllAllowed route nodes none h allowed all = all
  offer-AllAllowed route nodes (some offer) h allowed all =
      note_route-AllAllowed nodes offer
        (subst (IsAllowed own_node_nbr bundle excluded_nodes) (sym h) allowed) all

  try_route-AllAllowed :
      (route : Route) (nodes : List ProximateNode)
      → IsAllowed own_node_nbr bundle excluded_nodes route.to_node_nbr
      → AllAllowed nodes
      → AllAllowed (
          try_route get_directive outduct_at ranges index root_addr own_node_nbr terminus
            current_time bundle route nodes)
  unfolding try_route
  try_route-AllAllowed route nodes allowed all =
      elim (Option-cases (get_directive route.to_node_nbr)) [
        | inl no_plan ↦ rw (no_plan, try_route) all
        | inr (d, e) ↦ elim (Bool-cases (outduct_at d.outduct_elt).blocked) [
          | inl blocked ↦ rw (e, try_route) (rw (blocked, try_route) all)
          | inr free ↦
              elim (Bool-cases (
                bundle.does_not_fragment
                && not ((outduct_at d.outduct_elt).max_payload_len == 0)
                && ltb (outduct_at d.outduct_elt).max_payload_len bundle.payload_length)) [
                  | inl long ↦ rw (e, try_route) (rw (free, try_route) (rw (long, try_route) all))
                  | inr fits ↦
                      rw (e, try_route)
                        (rw (free, try_route)
                          (rw (fits, try_route)
                            (offer-AllAllowed route nodes
                              (offered route d (outduct_at d.outduct_elt))
                              (offer_of-FirstHop route d (outduct_at d.outduct_elt)) allowed all)))
                ]
        ]
      ]

  pub check_route-AllAllowed :
      (route : Route) (nodes : List ProximateNode)
      → AllAllowed nodes
      → AllAllowed (
          check_route get_directive outduct_at ranges index root_addr own_node_nbr terminus
            current_time bundle excluded_nodes route nodes)
  unfolding check_route
  check_route-AllAllowed route nodes all =
      elim (Bool-cases (
        route.to_node_nbr == own_node_nbr
        && not (bundle.destination_cbhe && bundle.destination_node_nbr == route.to_node_nbr))) [
          | inl self ↦ rw (self, check_route) all
          | inr other ↦ elim (Bool-cases (ltb route.max_capacity bundle.payload_length)) [
            | inl wide ↦ rw (other, check_route) (rw (wide, check_route) all)
            | inr fits ↦ elim (Bool-cases (is_excluded route.to_node_nbr excluded_nodes)) [
              | inl out ↦
                  rw (other, check_route) (rw (fits, check_route) (rw (out, check_route) all))
              | inr let_in ↦
                  rw (other, check_route)
                    (rw (fits, check_route)
                      (rw (let_in, check_route)
                        (try_route-AllAllowed route nodes
                          (record { not_excluded = let_in; not_self = ground arith }) all)))
            ]
          ]
        ]
