-- ===== src/Cgr/Dijkstra/Scan.antt =====
-- One round of the neighbor loop of computeDistanceToTerminus, and the invariant of the search.
use cgr_jni.Base.{
  ℕ, suc, ◌≡◌, ◌≢◌, ◌≤◌, ◌<◌, ◌⊎◌, sym, inl, inr, ◌∙◌, ap, subst, false, true, none, some, List, [],
  ◌∷◌, ◌++◌, length, length-append, ◌∈◌, arith, Bool-cases, ◌==◌, ==_iff,
}
use cgr_jni.Plan.{Contact}
use cgr_jni.Cgr.Note.{
  Note, Notes, max_time, min_capacity, min_capacity_pos, contact_capacity, arrival_over,
}
use cgr_jni.Cgr.Dijkstra.{Search, consider}
use cgr_jni.Cgr.Dijkstra.Journey.{hop, Usable, le-arrival_over}
use cgr_jni.Cgr.Dijkstra.Consider.{
  Improved, consider-other, consider-visited, consider-suppressed, consider-change,
  consider_complete, consider-capacity, consider-capacity_kept, consider-final, consider-falls,
}
use cgr_jni.Cgr.Dijkstra.Invariant.{
  Problem, IsReady, Travels, Way, Node, Trail, via, AgreeBy, Trail-frame, Reached, Inv,
}

pub Nat-cases : (a b : ℕ) → (a ≡ b) ⊎ (a ≢ b)
Nat-cases a b = elim (Bool-cases (a == b)) [
  | inl e ↦ inl ((==_iff a b).0 e)
  | inr ne ↦ inr (λ e. ground arith)
]

-- How the current contact was reached.
pub record Source (p : Problem) (notes : Notes) (limit rounds : ℕ) (current : Contact)
    : Type 0 where
  pub hops : List Contact
  pub trail : Trail p notes limit current hops
  pub journey : Travels p current limit hops
  pub short : length hops ≤ rounds
  pub time : (notes current.addr).arrival_time ≡ limit

module _ (p : Problem) (ready : IsReady p) (current : Contact) (s : Search) (limit rounds : ℕ)
    (inv : Inv p s limit (suc rounds)) (source : Source p s.notes limit rounds current)
    (c : Contact) (m : c ∈ p.index) (joined : c.from_node ≡ current.to_node) where
  abbrev s' : Search
  s' = consider p.ranges p.terminus p.payload_class current s c

  -- A contact that is improved is reached later than `limit`, so nothing changes up to there.
  agree : AgreeBy limit s.notes s'.notes
  agree a low = elim (Nat-cases a c.addr) [
    | inr ne ↦
        let same = consider-other p.ranges p.terminus p.payload_class current s c a ne in
        (ap (λ (n : Note). n.predecessor) same, ap (λ (n : Note). n.arrival_time) same)
    | inl e ↦ elim (consider-change p.ranges p.terminus p.payload_class current s c) [
      | inl k ↦ rw e (k.predecessor, k.arrival)
      | inr (owlt, i) ↦ absurd (
          omega (
            arith,
            i.better,
            source.time,
            ap (λ (a : ℕ). (s.notes a).arrival_time) e,
            le-arrival_over (s.notes current.addr).arrival_time c owlt,
          ))
    ]
  ]

  source' : Source p s'.notes limit rounds current
  source' =
      let here_low : (s.notes current.addr).arrival_time ≤ limit = omega (arith, source.time) in
      record {
        hops = source.hops;
        trail =
            Trail-frame p s.notes s'.notes limit current source.hops source.trail agree
              (agree current.addr here_low).0;
        journey = source.journey;
        short = source.short;
        time = (agree current.addr here_low).1 ∙ source.time;
      }

  usable :
      min_capacity p.payload_class ≤ (s'.notes c.addr).capacity
      → (s.notes c.addr).suppressed ≡ false
      → Usable p.notes p.payload_class c
  usable enough free = record {
    free = sym (inv.flags c.addr) ∙ free;
    capacity = ground (
      arith,
      consider-capacity p.ranges p.terminus p.payload_class current s c (inv.capacity c m),
      min_capacity_pos p.payload_class,
    );
  }

  Reached-new :
      (owlt : ℕ)
      → Improved p.ranges p.terminus p.payload_class current s c owlt s'
      → Reached p s'.notes limit (suc rounds) c
  Reached-new owlt i =
      let step : Way p current.to_node limit c owlt = record {
        member = m;
        joined = joined;
        open_at = omega (arith, i.open_at, source.time);
        usable = usable i.capacity i.free;
        light_time = i.light_time;
      } in
      record {
        hops = source'.hops ++ (c ∷ []);
        trail =
            via c source'.trail (omega (arith, source'.time))
              (omega (
                arith,
                source'.time,
                source.time,
                i.better,
                inv.bounded c m,
                le-arrival_over (s.notes current.addr).arrival_time c owlt,
              ))
              m i.predecessor;
        journey =
            subst (λ t. Travels p c t (source'.hops ++ (c ∷ [])))
              (ap (λ t. arrival_over t c owlt) (sym source.time) ∙ sym i.arrival)
              (hop c owlt source'.journey step);
        short = omega (arith, length-append source'.hops (c ∷ []), source'.short);
      }

  Reached-same :
      (d : Contact)
      → (s'.notes d.addr).predecessor ≡ (s.notes d.addr).predecessor
      → (s'.notes d.addr).arrival_time ≡ (s.notes d.addr).arrival_time
      → d ∈ p.index
      → (s'.notes d.addr).arrival_time < max_time
      → Reached p s'.notes limit (suc rounds) d
  Reached-same d same_pred same md early =
      let r = inv.reached d md (omega (arith, same)) in
      record {
        hops = r.hops;
        trail = Trail-frame p s.notes s'.notes limit d r.hops r.trail agree same_pred;
        journey = subst (λ t. Travels p d t r.hops) (sym same) r.journey;
        short = r.short;
      }

  reached' :
      (d : Contact)
      → d ∈ p.index
      → (s'.notes d.addr).arrival_time < max_time
      → Reached p s'.notes limit (suc rounds) d
  reached' d md early = elim (Nat-cases d.addr c.addr) [
    | inr ne ↦
        let same = consider-other p.ranges p.terminus p.payload_class current s c d.addr ne in
        Reached-same d (ap (λ (n : Note). n.predecessor) same)
          (ap (λ (n : Note). n.arrival_time) same) md early
    | inl e ↦ elim (consider-change p.ranges p.terminus p.payload_class current s c) [
      | inl k ↦ Reached-same d (rw e k.predecessor) (rw e k.arrival) md early
      | inr (owlt, i) ↦
          subst (Reached p s'.notes limit (suc rounds)) (sym (ready.distinct d c md m e))
            (Reached-new owlt i)
    ]
  ]

  capacity' :
      (d : Contact)
      → d ∈ p.index
      → ((s'.notes d.addr).capacity ≡ 0) ⊎ ((s'.notes d.addr).capacity ≡ contact_capacity d)
  capacity' d md = elim (Nat-cases d.addr c.addr) [
    | inr ne ↦
        rw (consider-other p.ranges p.terminus p.payload_class current s c d.addr ne)
          (inv.capacity d md)
    | inl e ↦
        rw (ready.distinct d c md m e)
          (consider-capacity p.ranges p.terminus p.payload_class current s c (inv.capacity c m))
  ]

  full_capacity_here :
      (s'.notes c.addr).arrival_time < max_time → (s'.notes c.addr).capacity ≡ contact_capacity c
  full_capacity_here early =
      elim (consider-change p.ranges p.terminus p.payload_class current s c) [
        | inl k ↦
            consider-capacity_kept p.ranges p.terminus p.payload_class current s c
              (inv.full_capacity c m (omega (arith, k.arrival)))
        | inr (owlt, i) ↦ ground (
          arith,
          i.capacity,
          consider-capacity p.ranges p.terminus p.payload_class current s c (inv.capacity c m),
          min_capacity_pos p.payload_class,
        )
      ]

  full_capacity' :
      (d : Contact)
      → d ∈ p.index
      → (s'.notes d.addr).arrival_time < max_time
      → (s'.notes d.addr).capacity ≡ contact_capacity d
  full_capacity' d md early = elim (Nat-cases d.addr c.addr) [
    | inr ne ↦
        let same = consider-other p.ranges p.terminus p.payload_class current s c d.addr ne in
        rw same (inv.full_capacity d md (omega (arith, ap (λ (n : Note). n.arrival_time) same)))
    | inl e ↦
        subst
          (λ z.
            (s'.notes z.addr).arrival_time < max_time
            → (s'.notes z.addr).capacity ≡ contact_capacity z)
          (sym (ready.distinct d c md m e)) full_capacity_here early
  ]

  final_bound : s.earliest_final ≤ max_time
  final_bound = elim inv.final_found [
    | inl (_, late) ↦ omega arith
    | inr (_, _, _, _, _, early) ↦ omega arith
  ]

  -- If the final contact stays, so does its arrival time.
  final_same :
      (f : Contact)
      → f ∈ p.index
      → f.to_node ≡ p.terminus
      → (s.notes f.addr).arrival_time ≡ s.earliest_final
      → ((c.to_node ≢ p.terminus)
          ⊎ (s.earliest_final ≤ (s'.notes c.addr).arrival_time)
          ⊎ ((s'.notes c.addr).arrival_time ≡ (s.notes c.addr).arrival_time))
      → (s'.notes f.addr).arrival_time ≡ (s.notes f.addr).arrival_time
  final_same f mf to at why = elim (Nat-cases f.addr c.addr) [
    | inr ne ↦
        ap (λ (n : Note). n.arrival_time)
          (consider-other p.ranges p.terminus p.payload_class current s c f.addr ne)
    | inl e ↦ elim (consider-change p.ranges p.terminus p.payload_class current s c) [
      | inl k ↦ rw e k.arrival
      | inr (owlt, i) ↦
          absurd (ground (arith, ready.distinct f c mf m e, i.arrival, i.better, why, to, at))
    ]
  ]

  final_found' :
      ((s'.final_contact ≡ none) × (s'.earliest_final ≡ max_time))
      ⊎ ((f : Contact) × (s'.final_contact ≡ some f)
          × (f ∈ p.index)
          × (f.to_node ≡ p.terminus)
          × ((s'.notes f.addr).arrival_time ≡ s'.earliest_final)
          × (s'.earliest_final < max_time))
  final_found' = elim (consider-final p.ranges p.terminus p.payload_class current s c) [
    | inr (final, to, earlier, at) ↦ inr (c, final, m, to, at, omega (arith, earlier, final_bound))
    | inl (final, same, why) ↦ elim inv.final_found [
      | inl (empty, late) ↦ inl (final ∙ empty, same ∙ late)
      | inr (f, found, mf, to, at, early) ↦
          inr (f, final ∙ found, mf, to, final_same f mf to at why ∙ at ∙ sym same, omega arith)
    ]
  ]

  final_least' :
      (d : Contact)
      → d ∈ p.index
      → d.to_node ≡ p.terminus
      → s'.earliest_final ≤ (s'.notes d.addr).arrival_time
  final_least' d md to = elim (Nat-cases d.addr c.addr) [
    | inr ne ↦
        let same = consider-other p.ranges p.terminus p.payload_class current s c d.addr ne in
        ground (
          arith,
          ap (λ (n : Note). n.arrival_time) same,
          inv.final_least d md to,
          consider-final p.ranges p.terminus p.payload_class current s c,
        )
    | inl e ↦
        let same = ready.distinct d c md m e in
        ground (
          arith,
          same,
          inv.final_least d md to,
          consider-final p.ranges p.terminus p.payload_class current s c,
        )
  ]

  -- Visited contacts are left alone.
  visited_same :
      (v : Contact)
      → Node p v
      → (s'.notes v.addr).visited ≡ true
      → ((s.notes v.addr).visited ≡ true)
        × ((s'.notes v.addr).arrival_time ≡ (s.notes v.addr).arrival_time)
  visited_same v node seen =
      let seen' =
        sym (consider-visited p.ranges p.terminus p.payload_class current s c v.addr) ∙ seen in
      (seen', (agree v.addr (inv.settled v node seen')).1)

  settled' :
      (v : Contact)
      → Node p v
      → (s'.notes v.addr).visited ≡ true
      → (s'.notes v.addr).arrival_time ≤ limit
  settled' v node seen =
      let (seen', same) = visited_same v node seen in omega (arith, inv.settled v node seen')

  ahead' :
      (u : Contact)
      → u ∈ p.index
      → (s'.notes u.addr).visited ≡ false
      → (p.notes u.addr).suppressed ≡ false
      → limit ≤ (s'.notes u.addr).arrival_time
  ahead' u mu unseen free =
      let unseen' =
        sym (consider-visited p.ranges p.terminus p.payload_class current s c u.addr) ∙ unseen in
      elim (Nat-cases u.addr c.addr) [
        | inr ne ↦
            let same = consider-other p.ranges p.terminus p.payload_class current s c u.addr ne in
            omega (arith, ap (λ (n : Note). n.arrival_time) same, inv.ahead u mu unseen' free)
        | inl e ↦
            let same = ready.distinct u c mu m e in
            elim (consider-change p.ranges p.terminus p.payload_class current s c) [
              | inl k ↦ ground (arith, same, k.arrival, inv.ahead u mu unseen' free)
              | inr (owlt, i) ↦ ground (
                arith,
                same,
                i.arrival,
                source.time,
                le-arrival_over (s.notes current.addr).arrival_time c owlt,
              )
            ]
      ]

  closed' :
      (v d : Contact) (owlt : ℕ)
      → Node p v
      → (s'.notes v.addr).visited ≡ true
      → Way p v.to_node (s'.notes v.addr).arrival_time d owlt
      → (s'.notes d.addr).arrival_time ≤ arrival_over (s'.notes v.addr).arrival_time d owlt
  closed' v d owlt node seen way =
      let (seen', same) = visited_same v node seen in
      let falls = consider-falls p.ranges p.terminus p.payload_class current s c d.addr in
      rw same (
        omega (
          arith,
          falls,
          inv.closed v d owlt node seen' (subst (λ t. Way p v.to_node t d owlt) same way),
        ))

  pub consider-Inv : Inv p s' limit (suc rounds)
  consider-Inv = record {
    flags =
        λ a. consider-suppressed p.ranges p.terminus p.payload_class current s c a ∙ inv.flags a;
    capacity = capacity';
    full_capacity = full_capacity';
    root_time =
        ap (λ (n : Note). n.arrival_time)
          (consider-other p.ranges p.terminus p.payload_class current s c p.root.addr
            (λ e. ready.apart c m (sym e)))
        ∙ inv.root_time;
    bounded = λ d md. omega (
      arith,
      consider-falls p.ranges p.terminus p.payload_class current s c d.addr,
      inv.bounded d md,
    );
    reached = reached';
    final_found = final_found';
    final_least = final_least';
    settled = settled';
    ahead = ahead';
    closed = closed';
  }

  pub consider-Source : Source p s'.notes limit rounds current
  consider-Source = source'

  -- The way from the current contact over `c` is now accounted for.
  pub consider-done :
      (owlt : ℕ)
      → Way p current.to_node limit c owlt
      → (s'.notes c.addr).arrival_time ≤ arrival_over limit c owlt
  consider-done owlt way = elim (Bool-cases (s.notes c.addr).visited) [
    | inl seen ↦ omega (
      arith,
      inv.settled c (inr m) seen,
      le-arrival_over limit c owlt,
      consider-falls p.ranges p.terminus p.payload_class current s c c.addr,
    )
    | inr unseen ↦
        subst (λ t. (s'.notes c.addr).arrival_time ≤ arrival_over t c owlt) source.time
          (consider_complete p.ranges p.terminus p.payload_class current s c owlt way.light_time
            (omega (arith, way.open_at, source.time)) (inv.flags c.addr ∙ way.usable.free) unseen
            (inv.capacity c m) way.usable.capacity)
  ]
