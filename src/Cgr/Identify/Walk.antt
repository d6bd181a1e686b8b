-- ===== src/Cgr/Identify/Walk.antt =====
-- The walk of identifyProximateNodes through the routes, which starts again after each route that it
-- recomputes.
use cgr_jni.Base.{
  ℕ, zero, suc, ◌+◌, ◌*◌, ◌≡◌, ◌≤◌, ◌<◌, inl, inr, refl, sym, ap, ◌∙◌, true, false, Bool-cases, ltb,
  Option, some, List, [], ◌∷◌, ◌++◌, length, length-append, arith,
}
use cgr_jni.Plan.{Contact, Range}
use cgr_jni.Cgr.Note.{Notes}
use cgr_jni.Cgr.Dijkstra.{Route}
use cgr_jni.Cgr.Proximate.{FwdDirective, ProximateNode}
use cgr_jni.Cgr.Arrival.{Bundle, deadline}
use cgr_jni.Cgr.Routes.Clear.{IsPlan}
use cgr_jni.Cgr.Routes.Count.{lex_first, lex_second}
use cgr_jni.Cgr.Recompute.{Recomputed, recompute_route_for_contact}
use cgr_jni.Cgr.Recompute.Renewed.{Renewed, stays, renewed, recompute_route_for_contact-Renewed}
use cgr_jni.Cgr.Identify.{Outduct, Identified, walk}
use cgr_jni.Cgr.Identify.Ended.{ended, ended-append, feasible_lem}
use cgr_jni.Cgr.Identify.Allowed.{AllAllowed, check_route-AllAllowed}

module _ (get_directive : ℕ → Option FwdDirective) (outduct_at : ℕ → Outduct) (ranges : List Range)
    (index : List Contact) (root_addr own_node_nbr terminus current_time : ℕ) (bundle : Bundle)
    (excluded_nodes : List ℕ) (plan : IsPlan index root_addr current_time) (n : ℕ) where
  abbrev pub walks : ℕ → List Route → List Route → Notes → List ProximateNode → Option Identified
  walks =
      walk get_directive outduct_at ranges index root_addr own_node_nbr terminus current_time bundle
        excluded_nodes

  abbrev pub AreAllowed : List ProximateNode → Type 0
  AreAllowed =
      AllAllowed get_directive outduct_at ranges index root_addr own_node_nbr terminus current_time
        bundle excluded_nodes

  -- A bound on the rounds that are left.
  abbrev pub measure : List Route → ℕ
  measure routes = ended current_time routes * (n + 1) + length routes

  -- The walk stands between routes that have not ended and the others.
  pub record IsWalk (passed routes : List Route) : Type 0 where
    pub running : ended current_time passed ≡ 0
    pub short : length passed + length routes ≤ n

  abbrev pub Ends : Option Identified → Type 0
  Ends o = (i : Identified) × (o ≡ some i) × AreAllowed i.proximate_nodes

  pass :
      (passed routes : List Route) (r : Route)
      → ltb r.to_time current_time ≡ false
      → IsWalk passed (r ∷ routes)
      → IsWalk (passed ++ (r ∷ [])) routes
  pass passed routes r open_end w = record {
    running = ended-append current_time passed (r ∷ []) ∙ ground (arith, w.running, open_end);
    short = omega (arith, length-append passed (r ∷ []), w.short);
  }

  pass-measure :
      (routes : List Route) (r : Route)
      → ltb r.to_time current_time ≡ false
      → measure routes < measure (r ∷ routes)
  pass-measure routes r open_end =
      lex_second (ended current_time routes) (ended current_time (r ∷ routes)) (length routes)
        (length (r ∷ routes)) n (ground arith) (omega arith)

  drop-measure :
      (routes routes' : List Route) (r : Route)
      → ltb r.to_time current_time ≡ true
      → ended current_time routes' ≤ ended current_time routes
      → length routes' ≤ n
      → measure routes' < measure (r ∷ routes)
  drop-measure routes routes' r over few short =
      lex_first (ended current_time routes') (ended current_time (r ∷ routes)) (length routes')
        (length (r ∷ routes)) n (ground (arith, few)) short

  module _ (passed routes : List Route) (r : Route) (w : IsWalk passed (r ∷ routes))
      (over : ltb r.to_time current_time ≡ true) where
    -- A new list with one route that has not ended in place of one that has.
    renew :
        (x : Route) (before after : List Route)
        → ltb x.to_time current_time ≡ false
        → passed ++ routes ≡ before ++ after
        → IsWalk [] (before ++ (x ∷ after))
          × (measure (before ++ (x ∷ after)) < measure (r ∷ routes))
    renew x before after open_end e =
        let same : ended current_time (before ++ after) ≡ ended current_time routes =
          ap (ended current_time) (sym e)
          ∙ ended-append current_time passed routes
          ∙ omega (arith, w.running) in
        let long : length (before ++ after) ≡ length passed + length routes =
          ap length (sym e) ∙ length-append passed routes in
        let few : ended current_time (before ++ (x ∷ after)) ≤ ended current_time routes = ground (
          arith,
          same,
          ended-append current_time before after,
          ended-append current_time before (x ∷ after),
        ) in
        let short : length (before ++ (x ∷ after)) ≤ n =
          omega
            (arith, long, length-append before after, length-append before (x ∷ after), w.short) in
        (
          record { running = refl; short = omega (arith, short) },
          drop-measure routes (before ++ (x ∷ after)) r over few short,
        )

  pub walk_lem :
      (fuel : ℕ) (passed routes : List Route) (notes : Notes) (nodes : List ProximateNode)
      → IsWalk passed routes
      → AreAllowed nodes
      → measure routes < fuel
      → Ends (walks fuel passed routes notes nodes)
  unfolding walk
  walk_lem zero passed routes notes nodes w all h = absurd (omega arith)
  walk_lem (suc fuel) passed [] notes nodes w all h =
      (record { notes = notes; routes = passed; proximate_nodes = nodes }, refl, all)
  walk_lem (suc fuel) passed (r ∷ routes) notes nodes w all h =
      elim (Bool-cases (ltb r.to_time current_time)) [
        | inl over ↦
            of_recomputed over
              (λ passed' routes' notes' w' lt. walk_lem fuel passed' routes' notes' nodes w' all lt)
              _ refl
              (recompute_route_for_contact-Renewed ranges index root_addr own_node_nbr terminus
                current_time r.payload_class r.to_node_nbr r.from_time (passed ++ routes) notes
                plan)
        | inr open_end ↦ elim (Bool-cases (ltb (deadline bundle) r.arrival_time)) [
          | inl late ↦
              rw (open_end, walk)
                (rw (late, walk)
                  (
                    record {
                      notes = notes;
                      routes = passed ++ (r ∷ routes);
                      proximate_nodes = nodes;
                    },
                    refl,
                    all,
                  ))
          | inr in_time ↦
              rw (open_end, walk)
                (rw (in_time, walk)
                  (walk_lem fuel (passed ++ (r ∷ [])) routes notes _
                    (pass passed routes r open_end w)
                    (check_route-AllAllowed get_directive outduct_at ranges index root_addr
                      own_node_nbr terminus current_time bundle excluded_nodes r nodes all)
                    (omega (arith, pass-measure routes r open_end))))
        ]
      ]
    where
      of_recomputed :
          ltb r.to_time current_time ≡ true
          → ((passed' routes' : List Route) (notes' : Notes)
              → IsWalk passed' routes'
              → measure routes' < fuel
              → Ends (walks fuel passed' routes' notes' nodes))
          → (o : Recomputed)
          → recompute_route_for_contact ranges index root_addr own_node_nbr terminus current_time
              r.payload_class r.to_node_nbr r.from_time
              (passed ++ routes)
              notes
            ≡ o
          → Renewed ranges index root_addr own_node_nbr terminus current_time r.payload_class
              r.to_node_nbr r.from_time
              (passed ++ routes)
              o
          → Ends (walks (suc fuel) passed (r ∷ routes) notes nodes)
      of_recomputed over rest _ e (stays notes') =
          rw (over, walk)
            (rw (e, walk)
              (rest passed routes notes'
                (record { running = w.running; short = omega (arith, w.short) })
                (omega (
                  arith,
                  drop-measure routes routes r over (omega arith) (omega (arith, w.short)),
                ))))
      of_recomputed over rest _ e (renewed notes' x before after feasible class split lead) =
          let (w', lt) =
            renew passed routes r w over x before after
              (feasible_lem ranges index root_addr own_node_nbr terminus current_time x plan
                feasible)
              split in
          rw (over, walk) (rw (e, walk) (rest [] (before ++ (x ∷ after)) notes' w' (omega arith)))
