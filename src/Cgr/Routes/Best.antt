-- ===== src/Cgr/Routes/Best.antt =====
-- The first route that loadRouteList lists.
use cgr_jni.Base.{
  ℕ, zero, suc, ◌≡◌, ◌≢◌, ◌≤◌, ◌<◌, inl, refl, sym, ap, ◌∙◌, subst, List, [], ◌∷◌, ◌++◌, ◌∈◌, arith,
  none, some,
}
use cgr_jni.Plan.{Contact, Range}
use cgr_jni.Cgr.Note.{Note, Notes, max_time}
use cgr_jni.Cgr.Dijkstra.{Route}
use cgr_jni.Cgr.Dijkstra.Invariant.{Travels, start_time}
use cgr_jni.Cgr.Dijkstra.Journey.{Journey}
use cgr_jni.Cgr.Routes.{
  blank_note, root_contact, reset_notes, Load, again, search_round, load_class, load_classes,
  rounds, load_route_list,
}
use cgr_jni.Cgr.Routes.Clear.{IsPlan, reset_notes-IsCleared, reset_notes-suppressed}
use cgr_jni.Cgr.Routes.Hops.{Journey-free}
use cgr_jni.Cgr.Routes.Feasible.{problem, start_time_lem, same_note}
use cgr_jni.Cgr.Routes.Weight.{weight}
use cgr_jni.Cgr.Routes.Turns.{IsOpen, Next, goes_on}
use cgr_jni.Cgr.Routes.Round.{lists_best}
use cgr_jni.Cgr.Routes.Loading.{IsListed, load_class_lem, load_classes_lem, enough, reset-weight}

module _ (ranges : List Range) (index : List Contact)
    (root_addr local_node terminus current_time : ℕ) (plan : IsPlan index root_addr current_time)
    (numbered : (d : Contact) → d ∈ index → 0 < d.to_node) where
  -- With the notes reset, nothing is suppressed.
  Travels-reset :
      (k : ℕ) (notes : Notes) {c : Contact} {t : ℕ} {hops : List Contact}
      → Travels
          (problem ranges index root_addr local_node terminus current_time k (λ a. blank_note))
          c
          t
          hops
      → Travels
          (problem ranges index root_addr local_node terminus current_time k
            (reset_notes index notes))
          c
          t
          hops
  Travels-reset k notes {c} {t} {hops} journey =
      let p =
        problem ranges index root_addr local_node terminus current_time k
          (reset_notes index notes) in
      let q = problem ranges index root_addr local_node terminus current_time k (λ a. blank_note) in
      subst (λ u. Journey ranges index p.notes k (root_contact root_addr local_node) u c t hops)
        (start_time_lem ranges index root_addr local_node terminus current_time k (λ a. blank_note)
          ∙ sym (
              start_time_lem ranges index root_addr local_node terminus current_time k
                (reset_notes index notes)))
        (Journey-free ranges index q.notes k (root_contact root_addr local_node) (start_time q)
          p.notes
          (λ h m free.
            ap (λ (w : Note). w.suppressed)
              (same_note ranges index root_addr local_node terminus current_time plan
                (reset_notes index notes) h m)
            ∙ reset_notes-suppressed index notes h m)
          journey)

  module _ (k : ℕ) (s : Load)
      (open_s : IsOpen ranges index root_addr local_node terminus current_time s) (c : Contact)
      (t : ℕ) (hops : List Contact) (unset : s.anchor ≡ none) (no_routes : s.routes ≡ [])
      (journey : Travels
        (problem ranges index root_addr local_node terminus current_time k s.notes)
        c
        t
        hops)
      (ne : hops ≢ []) (to : c.to_node ≡ terminus) (soon : t < max_time) where
    -- The list begins with a route that arrives by `t`.
    abbrev StartsBy : List Route → Type 0
    StartsBy routes = (r : Route) × (rest : List Route) × (routes ≡ r ∷ rest) × (r.arrival_time ≤ t)

    load_class-first :
        (fuel : ℕ)
        → weight index local_node s < fuel
        → (s' : Load) × (load_class ranges index root_addr local_node terminus current_time fuel k s
            ≡ some s')
          × IsListed ranges index root_addr local_node terminus current_time s'
          × StartsBy s'.routes
    unfolding load_class
    load_class-first zero h = absurd (omega arith)
    load_class-first (suc fuel) h =
        let (s1, e, next, r, routes, by) =
          lists_best ranges index root_addr local_node terminus current_time plan k s open_s c t
            hops unset numbered journey ne to soon in
        of_next s1 e next r routes by
      where
        of_next :
            (s1 : Load)
            → search_round ranges index root_addr local_node terminus current_time k s ≡ again s1
            → Next ranges index root_addr local_node terminus current_time s (again s1)
            → (r : Route) → s1.routes ≡ s.routes ++ (r ∷ [])
            → r.arrival_time ≤ t
            → (s' : Load) × (load_class ranges index root_addr local_node terminus current_time
                  (suc fuel)
                  k
                  s
                ≡ some s')
              × IsListed ranges index root_addr local_node terminus current_time s'
              × StartsBy s'.routes
        of_next _ e (goes_on s1 open1 more lt) r routes by =
            let (s2, e2, listed, (more2, routes2)) =
              load_class_lem ranges index root_addr local_node terminus current_time plan fuel k s1
                open1 (omega arith) in
            rw (e, load_class)
              (
                s2,
                e2,
                listed,
                (
                  r,
                  more2,
                  routes2
                      ∙ ap (λ (z : List Route). z ++ more2)
                          (routes ∙ ap (λ (z : List Route). z ++ (r ∷ [])) no_routes),
                  by,
                ),
              )

-- For a contact index in order, whose contacts have addresses of their own, times up to MAX_TIME and
-- receiving nodes numbered from 1: if some journey of at least one hop, over contacts that the first
-- payload class may use, arrives at the terminus before MAX_TIME, then the list that
-- `load_route_list` makes begins with a route that arrives no later.
pub load_route_list_best :
    (ranges : List Range) (index : List Contact) (root_addr local_node terminus current_time : ℕ)
    (notes : Notes) (c : Contact) (t : ℕ) (hops : List Contact)
    → IsPlan index root_addr current_time
    → ((d : Contact) → d ∈ index → 0 < d.to_node)
    → Travels
        (problem ranges index root_addr local_node terminus current_time 0 (λ a. blank_note))
        c
        t
        hops
    → hops ≢ []
    → c.to_node ≡ terminus
    → t < max_time
    → (s : Load) × (load_route_list ranges index root_addr local_node terminus current_time notes
        ≡ some s)
      × (r : Route) × (rest : List Route) × (s.routes ≡ r ∷ rest)
      × (r.arrival_time ≤ t)
unfolding load_route_list load_classes
load_route_list_best ranges index root_addr local_node terminus current_time notes c t hops plan
      numbered journey ne to soon =
    let s0 : Load = record { notes = reset_notes index notes; routes = []; anchor = none } in
    let (s1, e1, listed1, (r, rest1, routes1, by)) =
      load_class-first ranges index root_addr local_node terminus current_time plan numbered 0 s0
        (record { cleared = reset_notes-IsCleared index notes; routes = tt; anchored = inl refl }) c
        t hops refl refl
        (Travels-reset ranges index root_addr local_node terminus current_time plan numbered 0 notes
          journey)
        ne to soon (rounds ranges index root_addr local_node terminus current_time)
        (enough ranges index root_addr local_node terminus current_time s0 (
          reset-weight ranges index root_addr local_node terminus current_time
            (record s0 { notes = notes }) (inl refl))) in
    let (s2, e2, listed2, (more2, routes2)) =
      load_classes_lem ranges index root_addr local_node terminus current_time plan 2 1 s1
        listed1 in
    rw (e1, load_classes)
      (s2, e2, r, rest1 ++ more2, routes2 ∙ ap (λ (z : List Route). z ++ more2) routes1, by)
