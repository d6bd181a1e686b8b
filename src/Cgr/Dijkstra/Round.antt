-- ===== src/Cgr/Dijkstra/Round.antt =====
-- One round of the `while` loop of computeDistanceToTerminus.
use cgr_jni.Base.{
  ℕ, suc, ◌≡◌, ◌≤◌, ◌<◌, ◌⊎◌, refl, sym, inl, inr, ◌∙◌, ap, subst, false, true, none, some, List,
  [], ◌∷◌, foldl, ◌∈◌, arith, if◌then◌else◌, ◌==◌,
}
use cgr_jni.Plan.{Contact}
use cgr_jni.Cgr.Note.{update, max_time, arrival_over}
use cgr_jni.Cgr.Dijkstra.{Search, consider, contacts_from, expand}
use cgr_jni.Cgr.Dijkstra.Neighbors.{contacts_from_iff}
use cgr_jni.Cgr.Dijkstra.Consider.{consider-falls, consider-visited}
use cgr_jni.Cgr.Dijkstra.Invariant.{Problem, IsReady, Travels, Way, Node, Trail-frame, Reached, Inv}
use cgr_jni.Cgr.Dijkstra.Scan.{Source, consider-Inv, consider-Source, consider-done}

pub Node-distinct :
    (p : Problem) → IsReady p → (v w : Contact) → Node p v → Node p w → v.addr ≡ w.addr → v ≡ w
Node-distinct p ready v w (inl e) (inl f) same = e ∙ sym f
Node-distinct p ready v w (inl e) (inr m) same =
    absurd (ready.apart w m (sym same ∙ ap (λ (c : Contact). c.addr) e))
Node-distinct p ready v w (inr m) (inl f) same =
    absurd (ready.apart v m (same ∙ ap (λ (c : Contact). c.addr) f))
Node-distinct p ready v w (inr m) (inr n) same = ready.distinct v w m n same

-- The loop over the contacts `cs` that leave the current contact's receiving node.
record Scanned (p : Problem) (current : Contact) (s t : Search) (limit rounds : ℕ)
    (cs : List Contact) : Type 0 where
  inv : Inv p t limit (suc rounds)
  source : Source p t.notes limit rounds current
  falls : (a : ℕ) → (t.notes a).arrival_time ≤ (s.notes a).arrival_time
  seen : (a : ℕ) → (t.notes a).visited ≡ (s.notes a).visited
  done :
      (d : Contact) (owlt : ℕ)
      → d ∈ cs
      → Way p current.to_node limit d owlt
      → (t.notes d.addr).arrival_time ≤ arrival_over limit d owlt

module _ (p : Problem) (ready : IsReady p) (current : Contact) (limit rounds : ℕ) where
  abbrev step : Search → Contact → Search
  step = consider p.ranges p.terminus p.payload_class current

  scan_lem :
      (cs : List Contact) (s : Search)
      → ((c : Contact) → c ∈ cs → (c ∈ p.index) × (c.from_node ≡ current.to_node))
      → Inv p s limit (suc rounds)
      → Source p s.notes limit rounds current
      → Scanned p current s (foldl step s cs) limit rounds cs
  scan_lem [] s members inv source = record {
    inv = inv;
    source = source;
    falls = λ a. omega arith;
    seen = λ a. refl;
    done = λ d owlt m. absurd m;
  }
  scan_lem (c ∷ cs) s members inv source =
      let (m, joined) = members c (inl refl) in
      let inv' = consider-Inv p ready current s limit rounds inv source c m joined in
      let source' = consider-Source p ready current s limit rounds inv source c m joined in
      let rest = scan_lem cs (step s c) (λ d n. members d (inr n)) inv' source' in
      record {
        inv = rest.inv;
        source = rest.source;
        falls = λ a.
            omega (
              arith,
              rest.falls a,
              consider-falls p.ranges p.terminus p.payload_class current s c a,
            );
        seen =
            λ a. rest.seen a ∙ consider-visited p.ranges p.terminus p.payload_class current s c a;
        done = done_all rest m joined;
      }
    where
      done_all :
          Scanned p current (step s c) (foldl step (step s c) cs) limit rounds cs
          → c ∈ p.index
          → c.from_node ≡ current.to_node
          → (d : Contact) (owlt : ℕ) → d ∈ c ∷ cs
          → Way p current.to_node limit d owlt
          → ((foldl step (step s c) cs).notes d.addr).arrival_time ≤ arrival_over limit d owlt
      done_all rest m joined d owlt (inr n) way = rest.done d owlt n way
      done_all rest m joined d owlt (inl e) way =
          let way' = subst (λ z. Way p current.to_node limit z owlt) e way in
          let here = consider-done p ready current s limit rounds inv source c m joined owlt way' in
          subst
            (λ z.
              ((foldl step (step s c) cs).notes z.addr).arrival_time ≤ arrival_over limit z owlt)
            (sym e) (omega (arith, rest.falls c.addr, here))

-- `currentWork->visited = 1`
abbrev mark : Search → ℕ → Search
mark t a = record t { notes = update t.notes a (record (t.notes a) { visited = true }) }

module _ (p : Problem) (ready : IsReady p) (current : Contact) (node : Node p current)
    (s t : Search) (limit rounds : ℕ) (cs : List Contact)
    (scanned : Scanned p current s t limit rounds cs)
    (all : (d : Contact) → d ∈ p.index → d.from_node ≡ current.to_node → d ∈ cs) where
  abbrev t' : Search
  t' = mark t current.addr

  mark-same :
      (a : ℕ)
      → ((t'.notes a).predecessor ≡ (t.notes a).predecessor)
        × ((t'.notes a).arrival_time ≡ (t.notes a).arrival_time)
        × ((t'.notes a).capacity ≡ (t.notes a).capacity)
        × ((t'.notes a).suppressed ≡ (t.notes a).suppressed)
  unfolding update
  mark-same a = ground arith

  mark-visited :
      (a : ℕ) → (t'.notes a).visited ≡ true → ((t.notes a).visited ≡ true) ⊎ (a ≡ current.addr)
  unfolding update
  mark-visited a seen = ground arith

  mark-unvisited : (a : ℕ) → (t'.notes a).visited ≡ false → (t.notes a).visited ≡ false
  unfolding update
  mark-unvisited a unseen = ground arith

  inv : Inv p t limit (suc rounds)
  inv = scanned.inv

  reached' :
      (c : Contact)
      → c ∈ p.index
      → (t'.notes c.addr).arrival_time < max_time
      → Reached p t'.notes limit (suc rounds) c
  reached' c m early =
      let r = inv.reached c m (omega (arith, (mark-same c.addr).1)) in
      record {
        hops = r.hops;
        trail =
            Trail-frame p t.notes t'.notes limit c r.hops r.trail
              (λ a low. ((mark-same a).0, (mark-same a).1)) (mark-same c.addr).0;
        journey = subst (λ u. Travels p c u r.hops) (sym (mark-same c.addr).1) r.journey;
        short = r.short;
      }

  settled' :
      (v : Contact)
      → Node p v
      → (t'.notes v.addr).visited ≡ true
      → (t'.notes v.addr).arrival_time ≤ limit
  settled' v nv seen = elim (mark-visited v.addr seen) [
    | inl before ↦ omega (arith, (mark-same v.addr).1, inv.settled v nv before)
    | inr e ↦
        let same = Node-distinct p ready v current nv node e in
        subst (λ z. (t'.notes z.addr).arrival_time ≤ limit) (sym same)
          (omega (arith, (mark-same current.addr).1, scanned.source.time))
  ]

  closed_current :
      (d : Contact) (owlt : ℕ)
      → Way p current.to_node (t'.notes current.addr).arrival_time d owlt
      → (t'.notes d.addr).arrival_time ≤ arrival_over (t'.notes current.addr).arrival_time d owlt
  closed_current d owlt way =
      let at : (t'.notes current.addr).arrival_time ≡ limit =
        (mark-same current.addr).1 ∙ scanned.source.time in
      let way' = subst (λ u. Way p current.to_node u d owlt) at way in
      let done = scanned.done d owlt (all d way'.member way'.joined) way' in
      subst (λ u. (t'.notes d.addr).arrival_time ≤ arrival_over u d owlt) (sym at)
        (omega (arith, done, (mark-same d.addr).1))

  closed' :
      (v d : Contact) (owlt : ℕ)
      → Node p v
      → (t'.notes v.addr).visited ≡ true
      → Way p v.to_node (t'.notes v.addr).arrival_time d owlt
      → (t'.notes d.addr).arrival_time ≤ arrival_over (t'.notes v.addr).arrival_time d owlt
  closed' v d owlt nv seen way = elim (mark-visited v.addr seen) [
    | inl before ↦
        let at = (mark-same v.addr).1 in
        let far = inv.closed v d owlt nv before (subst (λ u. Way p v.to_node u d owlt) at way) in
        subst (λ u. (t'.notes d.addr).arrival_time ≤ arrival_over u d owlt) (sym at)
          (omega (arith, far, (mark-same d.addr).1))
    | inr e ↦
        let same = Node-distinct p ready v current nv node e in
        subst
          (λ z.
            Way p z.to_node (t'.notes z.addr).arrival_time d owlt
            → (t'.notes d.addr).arrival_time ≤ arrival_over (t'.notes z.addr).arrival_time d owlt)
          (sym same) (closed_current d owlt) way
  ]

  final_found' :
      ((t'.final_contact ≡ none) × (t'.earliest_final ≡ max_time))
      ⊎ ((f : Contact) × (t'.final_contact ≡ some f)
          × (f ∈ p.index)
          × (f.to_node ≡ p.terminus)
          × ((t'.notes f.addr).arrival_time ≡ t'.earliest_final)
          × (t'.earliest_final < max_time))
  final_found' = elim inv.final_found [
    | inl nothing ↦ inl nothing
    | inr (f, found, m, to, at, early) ↦ inr (f, found, m, to, (mark-same f.addr).1 ∙ at, early)
  ]

  mark-Inv : Inv p t' limit (suc rounds)
  mark-Inv = record {
    flags = λ a. (mark-same a).3 ∙ inv.flags a;
    capacity = λ c m. ground (arith, (mark-same c.addr).2, inv.capacity c m);
    full_capacity = λ c m early.
        (mark-same c.addr).2 ∙ inv.full_capacity c m (omega (arith, (mark-same c.addr).1));
    root_time = (mark-same p.root.addr).1 ∙ inv.root_time;
    bounded = λ c m. omega (arith, (mark-same c.addr).1, inv.bounded c m);
    reached = reached';
    final_found = final_found';
    final_least = λ d m to. omega (arith, (mark-same d.addr).1, inv.final_least d m to);
    settled = settled';
    ahead = λ u m unseen free.
        omega (arith, (mark-same u.addr).1, inv.ahead u m (mark-unvisited u.addr unseen) free);
    closed = closed';
  }

-- A round from a contact that was reached at the time `limit` keeps the invariant, for one round
-- more.
pub expand-Inv :
    (p : Problem)
    → IsReady p
    → (current : Contact) (s : Search) (limit rounds : ℕ) → Node p current
    → Inv p s limit (suc rounds)
    → Source p s.notes limit rounds current
    → Inv p (expand p.ranges p.terminus p.payload_class p.index current s) limit (suc rounds)
unfolding expand
expand-Inv p ready current s limit rounds node inv source =
    let cs = contacts_from p.index current.to_node in
    let iff = λ (c : Contact). contacts_from_iff p.index current.to_node c ready.ordered in
    mark-Inv p ready current node s (foldl (step p ready current limit rounds) s cs) limit rounds cs
      (scan_lem p ready current limit rounds cs s (λ c. (iff c).0) inv source)
      (λ d m e. (iff d).1 (m, e))

pub expand-visited :
    (p : Problem)
    → IsReady p
    → (current : Contact) (s : Search) (limit rounds : ℕ) → Inv p s limit (suc rounds)
    → Source p s.notes limit rounds current
    → (a : ℕ)
    → ((expand p.ranges p.terminus p.payload_class p.index current s).notes a).visited
      ≡ (if a == current.addr then true else (s.notes a).visited)
unfolding expand update
expand-visited p ready current s limit rounds inv source a =
    let cs = contacts_from p.index current.to_node in
    let iff = λ (c : Contact). contacts_from_iff p.index current.to_node c ready.ordered in
    let scanned = scan_lem p ready current limit rounds cs s (λ c. (iff c).0) inv source in
    ground (arith, scanned.seen a)
