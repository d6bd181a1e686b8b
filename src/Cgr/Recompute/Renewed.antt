-- ===== src/Cgr/Recompute/Renewed.antt =====
-- recomputeRouteForContact: what it leaves of a list of routes.
use cgr_jni.Base.{
  ℕ, ◌≡◌, inl, inr, refl, sym, ◌∙◌, subst, true, false, Bool-cases, ◌==◌, leb, Option-cases, none,
  some, List, [], ◌∷◌, ◌++◌, ◌∈◌, arith,
}
use cgr_jni.Plan.{Contact, Range}
use cgr_jni.Cgr.Note.{Notes}
use cgr_jni.Cgr.Dijkstra.{
  Route, Outcome, routed, no_route, find_next_best_route, compute_distance_to_terminus,
}
use cgr_jni.Cgr.Dijkstra.Answer.{IsRoute, Leaves, Answer, found, unreachable}
use cgr_jni.Cgr.Dijkstra.Optimal.{search-Answer}
use cgr_jni.Cgr.Dijkstra.Invariant.{Problem}
use cgr_jni.Cgr.Routes.{Load, reset_notes, root_contact}
use cgr_jni.Cgr.Routes.Clear.{IsPlan, IsCleared, reset_notes-IsCleared}
use cgr_jni.Cgr.Routes.Feasible.{problem, IsFeasible, problem-IsReady, route-IsFeasible}
use cgr_jni.Cgr.Routes.Turns.{IsOpen}
use cgr_jni.Cgr.Routes.Round.{usable, first-own, first_in}
use cgr_jni.Cgr.Recompute.{
  find_lead, leads, suppress_leads, insert_route, Recomputed, defunct, inserted,
  recompute_route_for_contact,
}
use cgr_jni.Cgr.Recompute.Order.{insert_route-split}
use cgr_jni.Cgr.Recompute.Leads.{suppress_leads-suppressed, suppress_leads-IsCleared}

module _ (ranges : List Range) (index : List Contact)
    (root_addr local_node terminus current_time payload_class to_node from_time : ℕ)
    (routes : List Route) where
  -- The first hop of another route.
  abbrev pub SameLead : Route → Route → Type 0
  SameLead x r = (x.to_node_nbr ≡ r.to_node_nbr) × (x.from_time ≡ r.from_time)

  -- What the function may return: nothing, or the list with a new route in it.
  pub data Renewed : Recomputed → Type 0 where
    stays : (notes : Notes) → Renewed (defunct notes)
    renewed :
        (notes : Notes) (r : Route) (before after : List Route)
        → IsFeasible ranges index root_addr local_node terminus current_time r
        → r.payload_class ≡ payload_class
        → routes ≡ before ++ after
        → ((x : Route) → x ∈ routes → leads to_node from_time x ≡ false → ¬ SameLead x r)
        → Renewed (inserted notes (before ++ (r ∷ after)))

  module _ (notes : Notes) (plan : IsPlan index root_addr current_time) where
    cleared : Notes
    cleared = suppress_leads index local_node to_node from_time routes (reset_notes index notes)

    abbrev p : Problem
    p = problem ranges index root_addr local_node terminus current_time payload_class cleared

    cleared-IsCleared : IsCleared index cleared
    unfolding cleared
    cleared-IsCleared =
        suppress_leads-IsCleared index local_node to_node from_time routes (reset_notes index notes)
          (reset_notes-IsCleared index notes)

    abbrev load : Load
    load = record { notes = cleared; routes = []; anchor = none }

    load-IsOpen : IsOpen ranges index root_addr local_node terminus current_time load
    load-IsOpen = record { cleared = cleared-IsCleared; routes = tt; anchored = inl refl }

    new_lead :
        (notes' : Notes) (leaves : Leaves p notes') (r : Route) (is_route : IsRoute p r) (x : Route)
        → x ∈ routes
        → leads to_node from_time x ≡ false
        → ¬ SameLead x r
    unfolding cleared
    new_lead notes' leaves r is_route x m other (to, from) =
        let first = is_route.first in
        let (mem, free) =
          usable ranges index root_addr local_node terminus current_time plan payload_class load
            load-IsOpen notes' leaves r is_route first
            (first_in ranges index root_addr local_node terminus current_time plan payload_class
              load load-IsOpen notes' leaves r is_route) in
        let own =
          first-own ranges index root_addr local_node terminus current_time plan payload_class load
            load-IsOpen notes' leaves r is_route in
        let held =
          suppress_leads-suppressed index local_node to_node from_time root_addr current_time plan
            routes (reset_notes index notes) x first m other mem
            (own, sym is_route.to_node_nbr ∙ sym to, sym is_route.from_time ∙ sym from) in
        absurd (ground (arith, held, free))

    found-Renewed :
        (notes' : Notes) (leaves : Leaves p notes') (r : Route) (is_route : IsRoute p r)
        → Renewed (inserted notes' (insert_route r routes))
    found-Renewed notes' leaves r is_route =
        let (before, after, e, e') = insert_route-split r routes in
        subst (λ rs. Renewed (inserted notes' rs)) (sym e')
          (renewed notes' r before after
            (route-IsFeasible ranges index root_addr local_node terminus current_time plan
              payload_class cleared r is_route)
            is_route.payload_class e (new_lead notes' leaves r is_route))

    abbrev result : Recomputed
    result =
        recompute_route_for_contact ranges index root_addr local_node terminus current_time
          payload_class to_node from_time routes notes

    module _ (c : Contact) (e : find_lead index local_node to_node from_time ≡ some c)
        (open_end : leb c.to_time current_time ≡ false) where
      takes :
          (notes' : Notes) (r : Route)
          → compute_distance_to_terminus ranges index
              (root_contact root_addr local_node)
              terminus
              payload_class
              p.notes
            ≡ routed notes' r
          → (r.to_node_nbr == 0) ≡ false
          → result ≡ inserted notes' (insert_route r routes)
      unfolding recompute_route_for_contact find_next_best_route cleared
      takes notes' r eq somewhere =
          rw (e, recompute_route_for_contact)
            (rw (open_end, recompute_route_for_contact)
              (rw (eq, find_next_best_route) (rw (somewhere, find_next_best_route) refl)))

      discards :
          (notes' : Notes) (r : Route)
          → compute_distance_to_terminus ranges index
              (root_contact root_addr local_node)
              terminus
              payload_class
              p.notes
            ≡ routed notes' r
          → (r.to_node_nbr == 0) ≡ true
          → result ≡ defunct notes'
      unfolding recompute_route_for_contact find_next_best_route cleared
      discards notes' r eq nowhere =
          rw (e, recompute_route_for_contact)
            (rw (open_end, recompute_route_for_contact)
              (rw (eq, find_next_best_route) (rw (nowhere, find_next_best_route) refl)))

      ends :
          (notes' : Notes)
          → compute_distance_to_terminus ranges index
              (root_contact root_addr local_node)
              terminus
              payload_class
              p.notes
            ≡ no_route notes'
          → result ≡ defunct notes'
      unfolding recompute_route_for_contact find_next_best_route cleared
      ends notes' eq =
          rw (e, recompute_route_for_contact)
            (rw (open_end, recompute_route_for_contact) (rw (eq, find_next_best_route) refl))

      search-Renewed : Renewed result
      search-Renewed = of_answer _ refl (
          search-Answer p (
            problem-IsReady ranges index root_addr local_node terminus current_time plan
              payload_class cleared cleared-IsCleared))
        where
          of_answer :
              (o : Outcome)
              → compute_distance_to_terminus ranges index
                  (root_contact root_addr local_node)
                  terminus
                  payload_class
                  p.notes
                ≡ o
              → Answer p o
              → Renewed result
          of_answer _ eq (found notes' r leaves is_route best) =
              elim (Bool-cases (r.to_node_nbr == 0)) [
                | inl nowhere ↦ subst Renewed (sym (discards notes' r eq nowhere)) (stays notes')
                | inr somewhere ↦
                    subst Renewed (sym (takes notes' r eq somewhere))
                      (found-Renewed notes' leaves r is_route)
              ]
          of_answer _ eq (unreachable notes' leaves none_before) =
              subst Renewed (sym (ends notes' eq)) (stays notes')

    result-Renewed : Renewed result
    unfolding recompute_route_for_contact
    result-Renewed = elim (Option-cases (find_lead index local_node to_node from_time)) [
      | inl gone ↦ rw (gone, recompute_route_for_contact) (stays notes)
      | inr (c, e) ↦ elim (Bool-cases (leb c.to_time current_time)) [
        | inl over ↦
            rw (e, recompute_route_for_contact)
              (rw (over, recompute_route_for_contact) (stays notes))
        | inr open_end ↦ search-Renewed c e open_end
      ]
    ]

-- For a contact index in order, whose contacts have addresses of their own and times up to
-- MAX_TIME, the recomputation does not fail. If it returns a new list of routes, this is the old
-- one with a route put in that is feasible, is of the payload class, and differs in its first
-- neighbor or in its start from each route of the list that is not one of the given contact.
pub recompute_route_for_contact-Renewed :
    (ranges : List Range) (index : List Contact)
    (root_addr local_node terminus current_time payload_class to_node from_time : ℕ)
    (routes : List Route) (notes : Notes)
    → IsPlan index root_addr current_time
    → Renewed ranges index root_addr local_node terminus current_time payload_class to_node
        from_time routes
        (recompute_route_for_contact ranges index root_addr local_node terminus current_time
          payload_class to_node from_time routes notes)
recompute_route_for_contact-Renewed ranges index root_addr local_node terminus current_time
      payload_class to_node from_time routes notes plan =
    result-Renewed ranges index root_addr local_node terminus current_time payload_class to_node
      from_time routes notes plan
