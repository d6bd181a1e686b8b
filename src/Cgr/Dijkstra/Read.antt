-- ===== src/Cgr/Dijkstra/Read.antt =====
-- The end of the search of computeDistanceToTerminus, where the route is read off.
use mathlib.Core.List.{append-nil}
use cgr_jni.Base.{
  mem_last, ℕ, ◌+◌, ◌≡◌, ◌≢◌, ◌≤◌, ◌<◌, ◌⊎◌, refl, sym, ◌∙◌, subst, inl, inr, true, none, some,
  List, [], ◌∷◌, ◌++◌, length, ◌∈◌, arith, Bool-cases, ltb,
}
use cgr_jni.Plan.{Contact}
use cgr_jni.Cgr.Note.{max_time, max_uvast, contact_capacity, arrival_over}
use cgr_jni.Cgr.Dijkstra.{Search, Route, Trace, characterize, loop, read_route}
use cgr_jni.Cgr.Dijkstra.Journey.{begin, hop, arrival_over_mono, le-arrival_over}
use cgr_jni.Cgr.Dijkstra.Invariant.{
  Problem, IsReady, start_time, Travels, Way, Node, Trail, here, via, Reached, Inv,
}
use cgr_jni.Cgr.Dijkstra.Loop.{Finished, loop_lem, unvisited-le-length}
use cgr_jni.Cgr.Dijkstra.Backtrack.{
  trace_all, trace_back_lem, trace_all-hops, trace_all-end_time, trace_all-capacity, IsLeast,
  IsLeast-ext,
}
use cgr_jni.Cgr.Dijkstra.Answer.{IsRoute, NoneBefore, Leaves, Answer, found, unreachable}

ne-nil :
    (hops : List Contact) (c : Contact)
    → (first : Contact) × (rest : List Contact) × (hops ++ (c ∷ []) ≡ first ∷ rest)
ne-nil [] c = (c, [], refl)
ne-nil (x ∷ hops) c = (x, hops ++ (c ∷ []), refl)

module _ (p : Problem) (ready : IsReady p) where
  begin-Inv :
      Inv p
        (record { notes = p.notes; final_contact = none; earliest_final = max_time })
        (start_time p)
        1
  begin-Inv = record {
    flags = λ a. refl;
    capacity = ready.capacity;
    full_capacity = λ c m soon. absurd (omega (arith, ready.unreached c m));
    root_time = refl;
    bounded = λ c m. omega (arith, ready.unreached c m);
    reached = λ c m soon. absurd (omega (arith, ready.unreached c m));
    final_found = inl (refl, refl);
    final_least = λ d m to. omega (arith, ready.unreached d m);
    settled = λ v node seen. elim node [
      | inl e ↦ ground (arith, e, ready.root_unvisited)
      | inr m ↦ ground (arith, ready.unvisited v m)
    ];
    ahead = λ u m unseen free. omega (arith, ready.unreached u m, ready.in_time);
    closed = λ v d owlt node seen way. elim node [
      | inl e ↦ ground (arith, e, ready.root_unvisited)
      | inr m ↦ ground (arith, ready.unvisited v m)
    ];
  }

  pub finishes :
      (t : Search) × (loop p.ranges p.index p.root p.terminus p.payload_class
          (length p.index + 1)
          p.root
          (record { notes = p.notes; final_contact = none; earliest_final = max_time })
        ≡ some t)
      × Finished p t
  finishes =
      loop_lem p ready (length p.index + 1) 0 p.root
        (record { notes = p.notes; final_contact = none; earliest_final = max_time }) (start_time p)
        (omega arith) (inl (refl, omega (arith, unvisited-le-length p.notes p.index))) begin-Inv
        (record { hops = []; trail = here; journey = begin; short = omega arith; time = refl })

  module _ (t : Search) (end : Finished p t) where
    arrive :
        (q : Contact) (u : ℕ) (d : Contact) (owlt : ℕ)
        → Node p q
        → (t.notes q.addr).visited ≡ true
        → (t.notes q.addr).arrival_time ≤ u
        → Way p q.to_node u d owlt
        → (t.earliest_final ≤ arrival_over u d owlt)
          ⊎ (max_time ≤ arrival_over u d owlt)
          ⊎ (Node p d
              × ((t.notes d.addr).visited ≡ true)
              × ((t.notes d.addr).arrival_time ≤ arrival_over u d owlt))
    arrive q u d owlt node seen at way =
        let way' : Way p q.to_node (t.notes q.addr).arrival_time d owlt = record {
          member = way.member;
          joined = way.joined;
          open_at = omega (arith, way.open_at);
          usable = way.usable;
          light_time = way.light_time;
        } in
        let near = end.inv.closed q d owlt node seen way' in
        let le : (t.notes d.addr).arrival_time ≤ arrival_over u d owlt =
          omega (arith, near, arrival_over_mono (t.notes q.addr).arrival_time u d owlt at) in
        elim (Bool-cases (t.notes d.addr).visited) [
          | inl seen' ↦ inr (inr (inr way.member, seen', le))
          | inr unseen ↦ elim (Bool-cases (ltb t.earliest_final (t.notes d.addr).arrival_time)) [
            | inl behind ↦ inl (ground arith)
            | inr not_behind ↦
                let free = end.inv.flags d.addr ∙ way.usable.free in
                let late =
                  end.exhausted d way.member
                    (record { free = free; unvisited = unseen; near = ground arith }) in
                inr (inl (omega arith))
          ]
        ]

    -- Whatever journey there is, the search has reached its last contact no later.
    passed :
        {c : Contact} {u : ℕ} {hops : List Contact}
        → Travels p c u hops
        → (t.earliest_final ≤ u)
          ⊎ (max_time ≤ u)
          ⊎ (Node p c × ((t.notes c.addr).visited ≡ true) × ((t.notes c.addr).arrival_time ≤ u))
    passed begin = inr (inr (inl refl, end.root_visited, omega (arith, end.inv.root_time)))
    passed (hop {p = q} {t = u} d owlt journey way) = elim (passed journey) [
      | inl before ↦ inl (omega (arith, le-arrival_over u d owlt))
      | inr (inl late) ↦ inr (inl (omega (arith, le-arrival_over u d owlt)))
      | inr (inr (node, seen, at)) ↦ arrive q u d owlt node seen at way
    ]

    member_last :
        {c : Contact} {u : ℕ} {hops : List Contact} → Travels p c u hops → hops ≢ [] → c ∈ p.index
    member_last begin ne = absurd (ne refl)
    member_last (hop d owlt journey way) ne = way.member

    none_before : NoneBefore p t.earliest_final
    none_before c u hops journey ne to = elim (passed journey) [
      | inl before ↦ inl before
      | inr (inl late) ↦ inr late
      | inr (inr (node, seen, at)) ↦
          inl (omega (arith, end.inv.final_least c (member_last journey ne) to))
    ]

    -- The hops of a trail have the capacities that the contacts have.
    Trail-capacity :
        (limit : ℕ) (c : Contact) (hops : List Contact) (h : Contact)
        → Trail p t.notes limit c hops
        → (t.notes c.addr).arrival_time < max_time
        → h ∈ hops
        → (t.notes h.addr).capacity ≡ contact_capacity h
    Trail-capacity limit _ _ h here soon m = absurd m
    Trail-capacity limit _ _ h (via {q} {hops} c trail low soon m pred) soon_c mh =
        elim (mem_last hops c h mh) [
          | inl before ↦ Trail-capacity limit q hops h trail soon before
          | inr e ↦
              subst (λ z. (t.notes z.addr).capacity ≡ contact_capacity z) (sym e)
                (end.inv.full_capacity c m soon_c)
        ]

    abbrev blank : Trace
    blank = record { end_time = max_time; capacity = max_uvast; hops = [] }

    abbrev route_of : Trace → Contact → Route
    route_of trace first = record {
      to_node_nbr = first.to_node;
      from_time = first.from_time;
      to_time = trace.end_time;
      arrival_time = t.earliest_final;
      hops = trace.hops;
      max_capacity = trace.capacity;
      payload_class = p.payload_class;
    }

    Trail-ne :
        (limit : ℕ) (f : Contact) (hops : List Contact)
        → Trail p t.notes limit f hops
        → f ∈ p.index
        → (first : Contact) × (rest : List Contact) × (hops ≡ first ∷ rest)
    Trail-ne limit _ _ here m = absurd (ready.apart p.root m refl)
    Trail-ne limit _ _ (via {q} {hops} c trail low soon m' pred) m = ne-nil hops c

    characterize_lem :
        (trace : Trace) (first : Contact) (rest : List Contact)
        → trace.hops ≡ first ∷ rest
        → characterize p.payload_class t.earliest_final trace ≡ some (route_of trace first)
    unfolding characterize
    characterize_lem trace first rest e = ground arith

    module _ (f : Contact) (hops : List Contact) (first : Contact) (rest : List Contact) where
      abbrev gathered : Trace
      gathered = trace_all t.notes hops blank

      hops_eq : gathered.hops ≡ hops
      hops_eq = trace_all-hops t.notes hops blank ∙ append-nil hops

      gathered-IsRoute :
          Travels p f t.earliest_final hops
          → Trail p t.notes end.limit f hops
          → f.to_node ≡ p.terminus
          → (t.notes f.addr).arrival_time ≡ t.earliest_final
          → t.earliest_final < max_time
          → hops ≡ first ∷ rest
          → IsRoute p (route_of gathered first)
      gathered-IsRoute journey trail to at soon e = record {
        last = f;
        journey = subst (Travels p f t.earliest_final) (sym hops_eq) journey;
        to_terminus = to;
        in_time = soon;
        first = first;
        rest = rest;
        hops = hops_eq ∙ e;
        to_node_nbr = refl;
        from_time = refl;
        to_time =
            subst (IsLeast (λ h. h.to_time) max_time gathered.end_time) (sym hops_eq)
              (trace_all-end_time t.notes hops blank);
        max_capacity = subst (IsLeast contact_capacity max_uvast gathered.capacity) (sym hops_eq) (
            IsLeast-ext (λ (h : Contact). (t.notes h.addr).capacity) contact_capacity max_uvast
              gathered.capacity hops
              (λ h m. Trail-capacity end.limit f hops h trail (omega arith) m)
              (trace_all-capacity t.notes hops blank));
        payload_class = refl;
      }

    leaves : Leaves p t.notes
    leaves = record { suppressed = end.inv.flags; capacity = end.inv.capacity }

    read_found :
        (f : Contact)
        → t.final_contact ≡ some f
        → f ∈ p.index
        → f.to_node ≡ p.terminus
        → (t.notes f.addr).arrival_time ≡ t.earliest_final
        → t.earliest_final < max_time
        → Reached p t.notes end.limit end.rounds f
        → Answer p (read_route p.ranges p.index p.root p.terminus p.payload_class t)
    unfolding read_route
    read_found f is_final m to at soon r =
        let read =
          trace_back_lem p ready t.notes end.limit f r.hops (length p.index + 2) blank r.trail
            (omega (arith, r.short, end.short)) in
        let (first, rest, e) = Trail-ne end.limit f r.hops r.trail m in
        rw (is_final, read_route)
          (rw (read, read_route)
            (rw
              (
                characterize_lem (gathered f r.hops first rest) first rest
                    (hops_eq f r.hops first rest ∙ e),
                read_route,
              )
              (found t.notes (route_of (gathered f r.hops first rest) first) leaves
                (gathered-IsRoute f r.hops first rest
                  (subst (λ u. Travels p f u r.hops) at r.journey) r.trail to at soon e)
                none_before)))

    pub read-Answer : Answer p (read_route p.ranges p.index p.root p.terminus p.payload_class t)
    unfolding read_route
    read-Answer = elim end.inv.final_found [
      | inl (nothing, late) ↦
          rw (nothing, read_route)
            (unreachable t.notes leaves (subst (NoneBefore p) late none_before))
      | inr (f, is_final, m, to, at, soon) ↦
          read_found f is_final m to at soon (end.inv.reached f m (omega arith))
    ]
