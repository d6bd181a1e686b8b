-- ===== src/Cgr/Routes/Round.antt =====
-- One round of the loop of loadRouteList.
use mathlib.Core.List.{append-nil}
use cgr_jni.Base.{
  ℕ, ◌≡◌, ◌≢◌, ◌≤◌, ◌<◌, inl, inr, refl, sym, ap, ◌∙◌, subst, List, [], ◌∷◌, ◌++◌, ◌∈◌, arith, true,
  false, if◌then◌else◌, Option, none, some, ◌==◌, Bool-cases, Option-cases,
}
use cgr_jni.Plan.{Contact, Range}
use cgr_jni.Cgr.Note.{Note, Notes, max_time}
use cgr_jni.Cgr.Dijkstra.{Route, compute_distance_to_terminus, Outcome}
use cgr_jni.Cgr.Dijkstra.Optimal.{search-Answer}
use cgr_jni.Cgr.Dijkstra.Invariant.{Problem, start_time, Travels}
use cgr_jni.Cgr.Dijkstra.Answer.{IsRoute, Leaves, Answer, found, unreachable}
use cgr_jni.Cgr.Routes.{
  clear_notes, end_anchored_search, suppress, Load, root_contact, Turn, again, record_route,
  end_search, leaves_anchor, take_route, search_round,
}
use cgr_jni.Cgr.Routes.Clear.{
  IsPlan, clear_notes-IsCleared, clear_notes-suppressed, end_anchored_search-IsCleared,
  end_anchored_search-suppressed,
}
use cgr_jni.Cgr.Routes.Feasible.{problem, IsFeasible, problem-IsReady, route-IsFeasible, same_note}
use cgr_jni.Cgr.Routes.Weight.{credit, is_own, Anchored, Suppresses, Suppresses-weight, ends-weight}
use cgr_jni.Cgr.Routes.Hops.{Journey-hops, Journey-first, limit_hop-finds}
use cgr_jni.Cgr.Routes.Count.{Grows}
use cgr_jni.Cgr.Routes.Turns.{
  IsOpen, Next, finishes, goes_on, suppress-Capacities, suppress-suppressed, suppress-IsCleared,
  leaves_anchor-none, none-ne-some, nil-ne-cons, head-eq, All-last, search_round-takes,
  search_round-discards, search_round-ends,
}

module _ (ranges : List Range) (index : List Contact)
    (root_addr local_node terminus current_time : ℕ) (plan : IsPlan index root_addr current_time)
    (k : ℕ) (s : Load)
    (open_s : IsOpen ranges index root_addr local_node terminus current_time s) where
  abbrev p : Problem
  p = problem ranges index root_addr local_node terminus current_time k s.notes

  abbrev NextTurn : Turn → Type 0
  NextTurn = Next ranges index root_addr local_node terminus current_time s

  abbrev FeasibleRoute : Route → Type 0
  FeasibleRoute = IsFeasible ranges index root_addr local_node terminus current_time

  module _ (notes : Notes) (leaves : Leaves p notes) where
    kept : (c : Contact) → c ∈ index → (notes c.addr).suppressed ≡ (s.notes c.addr).suppressed
    kept c m =
        leaves.suppressed c.addr
        ∙ ap (λ (w : Note). w.suppressed)
            (same_note ranges index root_addr local_node terminus current_time plan s.notes c m)

    end_now :
        (a : Contact)
        → (suppress (end_anchored_search local_node index notes) a a.addr).suppressed ≡ true
    end_now a =
        ground (arith, suppress-suppressed (end_anchored_search local_node index notes) a a.addr)

    end-Grows :
        (a : Contact)
        → Grows
            (is_own index local_node)
            s.notes
            (suppress (end_anchored_search local_node index notes) a)
            index
    unfolding is_own
    end-Grows a c m counts was =
        let own : c.from_node ≡ local_node = ground arith in
        let still =
          end_anchored_search-suppressed local_node index notes c
            (λ d n e. ap (λ (z : Contact). z.from_node) (plan.distinct d c n m e) ∙ own)
            (kept c m ∙ was) in
        ground (arith, suppress-suppressed (end_anchored_search local_node index notes) a c.addr)

    end_search-eq :
        (a : Contact)
        → s.anchor ≡ some a
        → end_search ranges index root_addr local_node terminus current_time s notes
          ≡ again (record {
            notes = suppress (end_anchored_search local_node index notes) a;
            routes = s.routes;
            anchor = none;
          })
    unfolding end_search
    end_search-eq a e = rw (e, end_search) refl

    end-Next :
        (anchor : Contact)
        → s.anchor ≡ some anchor
        → NextTurn (end_search ranges index root_addr local_node terminus current_time s notes)
    end-Next anchor set = elim open_s.anchored [
      | inl e ↦ absurd (none-ne-some anchor (sym e ∙ set))
      | inr (a, e, m, own) ↦
          let s' : Load = record {
            notes = suppress (end_anchored_search local_node index notes) a;
            routes = s.routes;
            anchor = none;
          } in
          subst NextTurn (sym (end_search-eq a e)) (
            goes_on s'
              (record {
                cleared =
                    suppress-IsCleared index (end_anchored_search local_node index notes) a
                      (end_anchored_search-IsCleared local_node index notes leaves.capacity);
                routes = open_s.routes;
                anchored = inl refl;
              })
              ([], sym (append-nil s.routes))
              (ends-weight index local_node s s' a m own e refl (end-Grows a) (end_now a)))
    ]

    module _ (r : Route) (is_route : IsRoute p r) where
      pub usable : (h : Contact) → h ∈ r.hops → (h ∈ index) × ((s.notes h.addr).suppressed ≡ false)
      usable h m =
          let (mem, use_it) =
            Journey-hops ranges index p.notes k p.root (start_time p) h is_route.journey m in
          (
            mem,
            sym (
                  ap (λ (w : Note). w.suppressed)
                    (same_note ranges index root_addr local_node terminus current_time plan s.notes
                      h mem))
                ∙ use_it.free,
          )

      pub first-own : is_route.first.from_node ≡ local_node
      first-own =
          elim (Journey-first ranges index p.notes k p.root (start_time p) is_route.journey) [
            | inl (e, at) ↦
                absurd (nil-ne-cons is_route.first is_route.rest (sym e ∙ is_route.hops))
            | inr (first, rest, e, leaves_root) ↦
                ap (λ (z : Contact). z.from_node)
                  (head-eq is_route.first first is_route.rest rest (sym is_route.hops ∙ e))
                ∙ leaves_root
          ]

      recorded : (limit : Contact) (anchor : Option Contact) → Load
      recorded limit anchor = record {
        notes = clear_notes index (suppress notes limit);
        routes = s.routes ++ (r ∷ []);
        anchor = anchor;
      }

      suppresses :
          (limit : Contact) (anchor : Option Contact)
          → Suppresses index local_node limit s.notes (recorded limit anchor).notes
      unfolding recorded
      suppresses limit anchor c m =
          clear_notes-suppressed index (suppress notes limit) c.addr
          ∙ suppress-suppressed notes limit c.addr
          ∙ ap (λ b. if c.addr == limit.addr then true else b) (kept c m)

      recorded-routes :
          (limit : Contact) (anchor : Option Contact)
          → (recorded limit anchor).routes ≡ s.routes ++ (r ∷ [])
      unfolding recorded
      recorded-routes limit anchor = refl

      recorded-Next :
          (limit : Contact) (anchor : Option Contact)
          → limit ∈ r.hops
          → Anchored index local_node anchor
          → (limit.from_node ≢ local_node → credit index local_node (recorded limit anchor) ≡ 0)
          → NextTurn (again (recorded limit anchor))
      unfolding recorded
      recorded-Next limit anchor m anchored paid =
          let (mem, free) = usable limit m in
          goes_on (recorded limit anchor)
            (record {
              cleared =
                  clear_notes-IsCleared index (suppress notes limit)
                    (suppress-Capacities index notes limit leaves.capacity);
              routes = All-last FeasibleRoute s.routes r open_s.routes (
                  route-IsFeasible ranges index root_addr local_node terminus current_time plan k
                    s.notes r is_route);
              anchored = anchored;
            })
            (r ∷ [], refl)
            (Suppresses-weight index local_node s (recorded limit anchor) limit mem free
              (suppresses limit anchor) paid)

      pub first_in : is_route.first ∈ r.hops
      first_in = subst (λ (z : List Contact). is_route.first ∈ z) (sym is_route.hops) (inl refl)

      -- The anchor is not suppressed with a contact that ends at another time.
      anchor-credit :
          (limit : Contact)
          → limit ∈ r.hops
          → limit.to_time ≢ is_route.first.to_time
          → credit index local_node (recorded limit (some is_route.first)) ≡ 0
      unfolding credit recorded
      anchor-credit limit m ne =
          let (mem, free) = usable is_route.first first_in in
          let apart : is_route.first.addr ≢ limit.addr = λ e. ne (
            ap (λ (z : Contact). z.to_time)
              (sym (plan.distinct is_route.first limit mem (usable limit m).0 e))) in
          ground (arith, suppresses limit (some is_route.first) is_route.first mem)

      -- The contact that `record_route` suppresses and the anchor that it sets.
      record Recorded : Type 0 where
        pub limit : Contact
        pub anchor : Option Contact
        pub records :
            record_route ranges index root_addr local_node terminus current_time s notes r
              is_route.first
            ≡ again (recorded limit anchor)
        pub next_turn : NextTurn (again (recorded limit anchor))

      at_end : (h : Contact) × (h ∈ r.hops) × (r.to_time ≡ h.to_time)
      at_end = elim is_route.to_time.attained [
        | inl top ↦ (
          is_route.first,
          first_in,
          omega (
            arith,
            top,
            is_route.to_time.below is_route.first first_in,
            plan.ends is_route.first (usable is_route.first first_in).0,
          ),
        )
        | inr least ↦ least
      ]

      record_route-Recorded : Recorded
      unfolding record_route recorded
      record_route-Recorded = elim (Bool-cases (r.to_time == is_route.first.to_time)) [
        | inl whole ↦ record {
          limit = is_route.first;
          anchor = s.anchor;
          records = rw (whole, record_route) refl;
          next_turn =
              recorded-Next is_route.first s.anchor first_in open_s.anchored
                (λ ne. absurd (ne first-own));
        }
        | inr short ↦
            let (h, m, e) = at_end in
            let (limit, finds, mem, at) = limit_hop-finds r.to_time r.hops h m e in
            record {
              limit = limit;
              anchor = some is_route.first;
              records = rw (short, record_route) (rw (finds, record_route) refl);
              next_turn =
                  recorded-Next limit (some is_route.first) mem
                    (inr (is_route.first, refl, (usable is_route.first first_in).0, first-own))
                    (λ other. anchor-credit limit mem (ground arith));
            }
      ]

      record-Next : NextTurn (
          record_route ranges index root_addr local_node terminus current_time s notes r
            is_route.first)
      record-Next = let x = record_route-Recorded in subst NextTurn (sym x.records) x.next_turn

      take_route-eq :
          take_route ranges index root_addr local_node terminus current_time s notes r ≡ (
            if leaves_anchor s.anchor is_route.first
            then end_search ranges index root_addr local_node terminus current_time s notes
            else record_route ranges index root_addr local_node terminus current_time s notes r
                is_route.first)
      unfolding take_route
      take_route-eq = simp (is_route.hops, take_route)

      pub take-Next :
          NextTurn (take_route ranges index root_addr local_node terminus current_time s notes r)
      unfolding leaves_anchor
      take-Next =
          subst NextTurn (sym take_route-eq)
            (elim (Bool-cases (leaves_anchor s.anchor is_route.first)) [
              | inl leaving ↦ rw leaving (elim (Option-cases s.anchor) [
                | inl e ↦ absurd (ground (arith, e, leaving))
                | inr (a, e) ↦ end-Next a e
              ])
              | inr staying ↦ rw staying record-Next
            ])

  -- With no anchor set, the first journey that there is leads to a route on the list that arrives no
  -- later.
  pub lists_best :
      (c : Contact) (t : ℕ) (hops : List Contact)
      → s.anchor ≡ none
      → ((d : Contact) → d ∈ index → 0 < d.to_node)
      → Travels p c t hops
      → hops ≢ []
      → c.to_node ≡ terminus
      → t < max_time
      → (s' : Load) × (search_round ranges index root_addr local_node terminus current_time k s
          ≡ again s')
        × NextTurn (again s')
        × (r : Route) × (s'.routes ≡ s.routes ++ (r ∷ []))
        × (r.arrival_time ≤ t)
  lists_best c t hops unset numbered journey ne to soon =
      let ready =
        problem-IsReady ranges index root_addr local_node terminus current_time plan k s.notes
          open_s.cleared in
      of_answer _ refl (search-Answer p ready)
    where
      of_answer :
          (o : Outcome)
          → compute_distance_to_terminus ranges index
              (root_contact root_addr local_node)
              terminus
              k
              p.notes
            ≡ o
          → Answer p o
          → (s' : Load) × (search_round ranges index root_addr local_node terminus current_time k s
              ≡ again s')
            × NextTurn (again s')
            × (r : Route) × (s'.routes ≡ s.routes ++ (r ∷ []))
            × (r.arrival_time ≤ t)
      of_answer _ e (unreachable notes leaves none_before) =
          absurd (ground (arith, none_before c t hops journey ne to))
      of_answer _ e (found notes r leaves is_route best) =
          let x = record_route-Recorded notes leaves r is_route in
          let somewhere : (r.to_node_nbr == 0) ≡ false = ground (
            arith,
            is_route.to_node_nbr,
            numbered is_route.first
                (usable notes leaves r is_route is_route.first
                  (first_in notes leaves r is_route)).0,
          ) in
          let staying : leaves_anchor s.anchor is_route.first ≡ false =
            leaves_anchor-none s.anchor is_route.first unset in
          (
            recorded notes leaves r is_route x.limit x.anchor,
            search_round-takes ranges index root_addr local_node terminus current_time k s notes r e
                  somewhere
                ∙ take_route-eq notes leaves r is_route
                ∙ rw staying x.records,
            x.next_turn,
            r,
            recorded-routes notes leaves r is_route x.limit x.anchor,
            ground (arith, best c t hops journey ne to),
          )

  -- The search of a round leaves notes and a route, and the round goes on from there.
  pub search_round-Next :
      NextTurn (search_round ranges index root_addr local_node terminus current_time k s)
  search_round-Next = of_answer _ refl (
      search-Answer p (
        problem-IsReady ranges index root_addr local_node terminus current_time plan k s.notes
          open_s.cleared))
    where
      of_answer :
          (o : Outcome)
          → compute_distance_to_terminus ranges index
              (root_contact root_addr local_node)
              terminus
              k
              p.notes
            ≡ o
          → Answer p o
          → NextTurn (search_round ranges index root_addr local_node terminus current_time k s)
      of_answer _ e (found notes r leaves is_route best) = elim (Bool-cases (r.to_node_nbr == 0)) [
        | inl nowhere ↦
            subst NextTurn
              (sym (
                search_round-discards ranges index root_addr local_node terminus current_time k s
                  notes r e nowhere))
              (finishes (record s { notes = notes }) open_s.routes open_s.anchored
                ([], sym (append-nil s.routes)))
        | inr somewhere ↦
            subst NextTurn
              (sym (
                search_round-takes ranges index root_addr local_node terminus current_time k s notes
                  r e somewhere))
              (take-Next notes leaves r is_route)
      ]
      of_answer _ e (unreachable notes leaves none_before) =
          subst NextTurn
            (sym (
              search_round-ends ranges index root_addr local_node terminus current_time k s notes
                e))
            (finishes (record s { notes = notes }) open_s.routes open_s.anchored
              ([], sym (append-nil s.routes)))
