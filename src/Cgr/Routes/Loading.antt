-- ===== src/Cgr/Routes/Loading.antt =====
-- loadRouteList as a whole.
use mathlib.Core.List.{append-nil, append_assoc}
use cgr_jni.Base.{
  ℕ, zero, suc, ◌+◌, ◌≡◌, ◌<◌, inl, inr, refl, sym, ap, ◌∙◌, List, [], ◌++◌, ◌∈◌, All, All-mem,
  arith, none, some,
}
use cgr_jni.Plan.{Contact, Range}
use cgr_jni.Cgr.Note.{Notes}
use cgr_jni.Cgr.Dijkstra.{Route}
use cgr_jni.Cgr.Routes.{
  reset_notes, Load, Turn, search_round, load_class, load_classes, rounds, load_route_list,
}
use cgr_jni.Cgr.Routes.Clear.{IsPlan, reset_notes-IsCleared, reset_notes-suppressed}
use cgr_jni.Cgr.Routes.Feasible.{IsFeasible}
use cgr_jni.Cgr.Routes.Weight.{weight, weight_bound, credit, Anchored}
use cgr_jni.Cgr.Routes.Turns.{IsOpen, Next, Extends, finishes, goes_on}
use cgr_jni.Cgr.Routes.Round.{search_round-Next}

module _ (ranges : List Range) (index : List Contact)
    (root_addr local_node terminus current_time : ℕ) where
  -- The state between two payload classes.
  pub record IsListed (s : Load) : Type 0 where
    pub routes : All (IsFeasible ranges index root_addr local_node terminus current_time) s.routes
    pub anchored : Anchored index local_node s.anchor

  abbrev pub Adds : Load → Load → Type 0
  Adds = Extends ranges index root_addr local_node terminus current_time

  Adds-trans : (s s' s'' : Load) → Adds s s' → Adds s' s'' → Adds s s''
  Adds-trans s s' s'' (more, e) (more', e') =
      (more ++ more', e' ∙ ap (λ (z : List Route). z ++ more') e ∙ append_assoc s.routes more more')

  -- After the notes were reset, no contact is suppressed, and the rounds given are enough.
  pub reset-weight :
      (s : Load)
      → Anchored index local_node s.anchor
      → credit index local_node (record s { notes = reset_notes index s.notes }) ≡ 0
  unfolding credit
  reset-weight s (inl e) = ground (arith, e)
  reset-weight s (inr (a, e, m, own)) = ground (arith, e, reset_notes-suppressed index s.notes a m)

  pub enough :
      (s : Load)
      → credit index local_node s ≡ 0
      → weight index local_node s < rounds ranges index root_addr local_node terminus current_time
  enough s free = weight_bound index local_node s free

  module _ (plan : IsPlan index root_addr current_time) where
    pub load_class_lem :
        (fuel k : ℕ) (s : Load)
        → IsOpen ranges index root_addr local_node terminus current_time s
        → weight index local_node s < fuel
        → (s' : Load) × (load_class ranges index root_addr local_node terminus current_time fuel k s
            ≡ some s')
          × IsListed s'
          × Adds s s'
    unfolding load_class
    load_class_lem zero k s open_s h = absurd (omega arith)
    load_class_lem (suc fuel) k s open_s h =
        of_turn (λ s' open' lt. load_class_lem fuel k s' open' lt) _ refl
          (search_round-Next ranges index root_addr local_node terminus current_time plan k s
            open_s)
      where
        of_turn :
            ((s' : Load)
              → IsOpen ranges index root_addr local_node terminus current_time s'
              → weight index local_node s' < fuel
              → (s'' : Load) × (load_class ranges index root_addr local_node terminus current_time
                    fuel k s'
                  ≡ some s'')
                × IsListed s''
                × Adds s' s'')
            → (t : Turn)
            → search_round ranges index root_addr local_node terminus current_time k s ≡ t
            → Next ranges index root_addr local_node terminus current_time s t
            → (s' : Load) × (load_class ranges index root_addr local_node terminus current_time
                  (suc fuel)
                  k
                  s
                ≡ some s')
              × IsListed s'
              × Adds s s'
        of_turn rest _ e (finishes s' routes anchored more) =
            rw (e, load_class) (s', refl, record { routes = routes; anchored = anchored }, more)
        of_turn rest _ e (goes_on s' open' more lt) =
            let (s'', e'', listed, more') = rest s' open' (omega arith) in
            rw (e, load_class) (s'', e'', listed, Adds-trans s s' s'' more more')

    pub load_classes_lem :
        (n k : ℕ) (s : Load)
        → IsListed s
        → (s' : Load) × (load_classes ranges index root_addr local_node terminus current_time n k s
            ≡ some s')
          × IsListed s'
          × Adds s s'
    unfolding load_classes
    load_classes_lem zero k s listed = (s, refl, listed, ([], sym (append-nil s.routes)))
    load_classes_lem (suc n) k s listed =
        let s0 : Load = record s { notes = reset_notes index s.notes } in
        let (s1, e, listed1, more) =
          load_class_lem (rounds ranges index root_addr local_node terminus current_time) k s0
            (record {
              cleared = reset_notes-IsCleared index s.notes;
              routes = listed.routes;
              anchored = listed.anchored;
            })
            (enough s0 (reset-weight s listed.anchored)) in
        let (s2, e2, listed2, more') = load_classes_lem n (k + 1) s1 listed1 in
        rw (e, load_classes) (s2, e2, listed2, Adds-trans s s1 s2 more more')

-- For a contact index in order, whose contacts have addresses of their own and times up to
-- MAX_TIME, `load_route_list` comes to its end within the rounds given to it, without a fault, and
-- each route on the list describes a journey from the local node to the terminus.
pub load_route_list-IsFeasible :
    (ranges : List Range) (index : List Contact) (root_addr local_node terminus current_time : ℕ)
    (notes : Notes)
    → IsPlan index root_addr current_time
    → (s : Load) × (load_route_list ranges index root_addr local_node terminus current_time notes
        ≡ some s)
      × ((r : Route)
          → r ∈ s.routes
          → IsFeasible ranges index root_addr local_node terminus current_time r)
unfolding load_route_list
load_route_list-IsFeasible ranges index root_addr local_node terminus current_time notes plan =
    let (s, e, listed, more) =
      load_classes_lem ranges index root_addr local_node terminus current_time plan 3 0
        (record { notes = notes; routes = []; anchor = none })
        (record { routes = tt; anchored = inl refl }) in
    (
      s,
      e,
      λ r m.
          All-mem (IsFeasible ranges index root_addr local_node terminus current_time) r s.routes
            listed.routes m,
    )
