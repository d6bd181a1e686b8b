-- ===== src/Cgr/Recompute/Leads.antt =====
-- The contacts that other routes start with, which recomputeRouteForContact suppresses.
use cgr_jni.Base.{
  ℕ, ◌≡◌, inl, inr, subst, true, false, Bool-cases, Option-cases, some, List, [], ◌∷◌, ◌∈◌, arith,
}
use cgr_jni.Plan.{Contact, contact_key, find, order_contacts}
use cgr_jni.Plan.Index.{find-member}
use cgr_jni.Cgr.Note.{Notes}
use cgr_jni.Cgr.Dijkstra.{Route}
use cgr_jni.Cgr.Routes.Clear.{IsPlan, IsCleared}
use cgr_jni.Cgr.Routes.Turns.{suppress-IsCleared, suppress-suppressed}
use cgr_jni.Cgr.Recompute.{find_lead, leads, suppress_lead, suppress_leads}

module _ (index : List Contact) (local_node to_node from_time : ℕ) where
  suppress_lead-IsCleared :
      (notes : Notes) (r : Route)
      → IsCleared index notes
      → IsCleared index (suppress_lead index local_node to_node from_time notes r)
  unfolding suppress_lead
  suppress_lead-IsCleared notes r cleared = elim (Bool-cases (leads to_node from_time r)) [
    | inl same ↦ rw (same, suppress_lead) cleared
    | inr other ↦ elim (Option-cases (find_lead index local_node r.to_node_nbr r.from_time)) [
      | inl gone ↦ rw (other, suppress_lead) (rw (gone, suppress_lead) cleared)
      | inr (c, e) ↦
          rw (other, suppress_lead)
            (rw (e, suppress_lead) (suppress-IsCleared index notes c cleared))
    ]
  ]

  pub suppress_leads-IsCleared :
      (routes : List Route) (notes : Notes)
      → IsCleared index notes
      → IsCleared index (suppress_leads index local_node to_node from_time routes notes)
  unfolding suppress_leads
  suppress_leads-IsCleared [] notes cleared = cleared
  suppress_leads-IsCleared (r ∷ routes) notes cleared =
      suppress_leads-IsCleared routes (suppress_lead index local_node to_node from_time notes r)
        (suppress_lead-IsCleared notes r cleared)

  suppress_lead-grows :
      (notes : Notes) (r : Route) (a : ℕ)
      → (notes a).suppressed ≡ true
      → (suppress_lead index local_node to_node from_time notes r a).suppressed ≡ true
  unfolding suppress_lead
  suppress_lead-grows notes r a was = elim (Bool-cases (leads to_node from_time r)) [
    | inl same ↦ rw (same, suppress_lead) was
    | inr other ↦ elim (Option-cases (find_lead index local_node r.to_node_nbr r.from_time)) [
      | inl gone ↦ rw (other, suppress_lead) (rw (gone, suppress_lead) was)
      | inr (c, e) ↦
          rw (other, suppress_lead)
            (rw (e, suppress_lead) (ground (arith, suppress-suppressed notes c a)))
    ]
  ]

  suppress_leads-grows :
      (routes : List Route) (notes : Notes) (a : ℕ)
      → (notes a).suppressed ≡ true
      → (suppress_leads index local_node to_node from_time routes notes a).suppressed ≡ true
  unfolding suppress_leads
  suppress_leads-grows [] notes a was = was
  suppress_leads-grows (r ∷ routes) notes a was =
      suppress_leads-grows routes (suppress_lead index local_node to_node from_time notes r) a
        (suppress_lead-grows notes r a was)

  -- The contact leads from the local node like the first hop of the route.
  abbrev pub Leads : Contact → Route → Type 0
  Leads c r = (c.from_node ≡ local_node) × (c.to_node ≡ r.to_node_nbr) × (c.from_time ≡ r.from_time)

  module _ (root_addr current_time : ℕ) (plan : IsPlan index root_addr current_time) where
    find_lead-finds :
        (c : Contact) (r : Route)
        → c ∈ index
        → Leads c r
        → find_lead index local_node r.to_node_nbr r.from_time ≡ some c
    unfolding find_lead order_contacts
    find_lead-finds c r m (own, to, from) =
        let key : contact_key c
            ≡ record { from_node = local_node; to_node = r.to_node_nbr; from_time = r.from_time } =
          ground arith in
        subst (λ k. find order_contacts k index ≡ some c) key
          (find-member contact_key index c plan.ordered.sorted m)

    pub suppress_leads-suppressed :
        (routes : List Route) (notes : Notes) (r : Route) (c : Contact)
        → r ∈ routes
        → leads to_node from_time r ≡ false
        → c ∈ index
        → Leads c r
        → (suppress_leads index local_node to_node from_time routes notes c.addr).suppressed ≡ true
    unfolding suppress_leads suppress_lead
    suppress_leads-suppressed [] notes r c m other mc lead = absurd m
    suppress_leads-suppressed (x ∷ routes) notes r c (inl e) other mc lead =
        suppress_leads-grows routes (suppress_lead index local_node to_node from_time notes x)
          c.addr
          (subst
            (λ y.
              (suppress_lead index local_node to_node from_time notes y c.addr).suppressed ≡ true)
            e
            (rw (other, suppress_lead)
              (rw (find_lead-finds c r mc lead, suppress_lead)
                (ground (arith, suppress-suppressed notes c c.addr)))))
    suppress_leads-suppressed (x ∷ routes) notes r c (inr m) other mc lead =
        suppress_leads-suppressed routes (suppress_lead index local_node to_node from_time notes x)
          r c m other mc lead
