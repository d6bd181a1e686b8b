-- ===== src/Cgr/Dijkstra/Loop.antt =====
-- The `while` loop of computeDistanceToTerminus.
use cgr_jni.Base.{
  ℕ, zero, suc, ◌+◌, ◌≡◌, ◌≤◌, ◌<◌, ◌⊎◌, refl, sym, inl, inr, ◌∙◌, ap, false, true, Option, none,
  some, List, [], ◌∷◌, length, ◌∈◌, arith, if◌then◌else◌, ◌==◌,
}
use cgr_jni.Plan.{Contact}
use cgr_jni.Cgr.Note.{Notes, max_time}
use cgr_jni.Cgr.Dijkstra.{Search, expand, select_next, loop}
use cgr_jni.Cgr.Dijkstra.Invariant.{Problem, IsReady, Node, Reached, Inv, Trail-weaken}
use cgr_jni.Cgr.Dijkstra.Scan.{Source}
use cgr_jni.Cgr.Dijkstra.Round.{expand-Inv, expand-visited}
use cgr_jni.Cgr.Dijkstra.Select.{IsEligible, Selected, finished, next, select_next_lem}

-- How many contacts are not yet visited.
abbrev pub unvisited : Notes → List Contact → ℕ
unvisited notes [] = 0
unvisited notes (c ∷ cs) = (if (notes c.addr).visited then 0 else 1) + unvisited notes cs

pub unvisited-le-length : (notes : Notes) (cs : List Contact) → unvisited notes cs ≤ length cs
unvisited-le-length notes [] = omega arith
unvisited-le-length notes (c ∷ cs) = ground (arith, unvisited-le-length notes cs)

-- Marks are only added, at the address `a`.
abbrev Marked : ℕ → Notes → Notes → Type 0
Marked a notes notes' = (b : ℕ) → (notes' b).visited ≡ (if b == a then true else (notes b).visited)

unvisited-falls :
    (a : ℕ) (notes notes' : Notes) (cs : List Contact)
    → Marked a notes notes'
    → unvisited notes' cs ≤ unvisited notes cs
unvisited-falls a notes notes' [] marked = omega arith
unvisited-falls a notes notes' (c ∷ cs) marked =
    ground (arith, marked c.addr, unvisited-falls a notes notes' cs marked)

unvisited-lt :
    (c : Contact) (notes notes' : Notes) (cs : List Contact)
    → Marked c.addr notes notes'
    → c ∈ cs
    → (notes c.addr).visited ≡ false
    → unvisited notes' cs < unvisited notes cs
unvisited-lt c notes notes' [] marked m unseen = absurd m
unvisited-lt c notes notes' (d ∷ cs) marked (inl e) unseen =
    ground (arith, e, marked d.addr, unvisited-falls c.addr notes notes' cs marked)
unvisited-lt c notes notes' (d ∷ cs) marked (inr m) unseen =
    ground (arith, marked d.addr, unvisited-lt c notes notes' cs marked m unseen)

unvisited-pos :
    (c : Contact) (notes : Notes) (cs : List Contact)
    → c ∈ cs
    → (notes c.addr).visited ≡ false
    → 0 < unvisited notes cs
unvisited-pos c notes [] m unseen = absurd m
unvisited-pos c notes (d ∷ cs) (inl e) unseen = ground arith
unvisited-pos c notes (d ∷ cs) (inr m) unseen = omega (arith, unvisited-pos c notes cs m unseen)

-- The state when the loop breaks.
pub record Finished (p : Problem) (t : Search) : Type 0 where
  pub limit : ℕ
  pub rounds : ℕ
  pub short : rounds ≤ length p.index + 1
  pub inv : Inv p t limit rounds
  pub root_visited : (t.notes p.root.addr).visited ≡ true
  pub exhausted :
      (u : Contact) → u ∈ p.index → IsEligible t u → max_time ≤ (t.notes u.addr).arrival_time

-- Enough rounds are left, by where the search stands.
abbrev Enough : Problem → Search → Contact → ℕ → Type 0
Enough p s current fuel =
    ((current ≡ p.root) × (unvisited s.notes p.index < fuel))
    ⊎ ((current ∈ p.index)
        × ((s.notes current.addr).visited ≡ false)
        × (unvisited s.notes p.index ≤ fuel)
        × ((s.notes p.root.addr).visited ≡ true))

module _ (p : Problem) (ready : IsReady p) where
  abbrev run : ℕ → Contact → Search → Option Search
  run = loop p.ranges p.index p.root p.terminus p.payload_class

  abbrev round : Contact → Search → Search
  round current s = expand p.ranges p.terminus p.payload_class p.index current s

  Node-of : (s : Search) (current : Contact) (fuel : ℕ) → Enough p s current fuel → Node p current
  Node-of s current fuel (inl e) = inl e.0
  Node-of s current fuel (inr m) = inr m.0

  fuel_pos : (s : Search) (current : Contact) (fuel : ℕ) → Enough p s current fuel → 0 < fuel
  fuel_pos s current fuel (inl e) = omega (arith, e.1)
  fuel_pos s current fuel (inr m) =
      omega (arith, m.2, unvisited-pos current s.notes p.index m.0 m.1)

  -- What a round leaves for the next.
  after_round :
      (s s' : Search) (current : Contact) (fuel : ℕ)
      → Marked current.addr s.notes s'.notes
      → Enough p s current (suc fuel)
      → (unvisited s'.notes p.index ≤ fuel) × ((s'.notes p.root.addr).visited ≡ true)
  after_round s s' current fuel marked (inl (e, few)) = (
    omega (arith, few, unvisited-falls current.addr s.notes s'.notes p.index marked),
    ground (arith, marked p.root.addr, ap (λ (c : Contact). c.addr) e),
  )
  after_round s s' current fuel marked (inr (m, unseen, few, root_seen)) = (
    omega (arith, few, unvisited-lt current s.notes s'.notes p.index marked m unseen),
    ground (arith, marked p.root.addr, root_seen),
  )

  Reached-weaken :
      (notes : Notes) (limit limit' rounds : ℕ) (c : Contact)
      → limit ≤ limit'
      → Reached p notes limit rounds c
      → Reached p notes limit' (suc rounds) c
  Reached-weaken notes limit limit' rounds c le r = record {
    hops = r.hops;
    trail = Trail-weaken p notes limit limit' c r.hops le r.trail;
    journey = r.journey;
    short = omega (arith, r.short);
  }

  module _ (s : Search) (limit rounds : ℕ) (inv : Inv p s limit (suc rounds)) (c : Contact)
      (m : c ∈ p.index) (e : IsEligible s c) (early : (s.notes c.addr).arrival_time < max_time)
      (least : (u : Contact)
        → u ∈ p.index
        → IsEligible s u
        → (s.notes c.addr).arrival_time ≤ (s.notes u.addr).arrival_time) where
    abbrev limit' : ℕ
    limit' = (s.notes c.addr).arrival_time

    later : limit ≤ limit'
    later = inv.ahead c m e.unvisited (sym (inv.flags c.addr) ∙ e.free)

    ahead' :
        (u : Contact)
        → u ∈ p.index
        → (s.notes u.addr).visited ≡ false
        → (p.notes u.addr).suppressed ≡ false
        → limit' ≤ (s.notes u.addr).arrival_time
    ahead' u mu unseen free = ground (
      arith,
      e.near,
      λ (near : (s.notes u.addr).arrival_time ≤ s.earliest_final).
          least u mu (record { free = inv.flags u.addr ∙ free; unvisited = unseen; near = near }),
    )

    -- The invariant where the search stands at the contact that was selected.
    move-Inv : Inv p s limit' (suc (suc rounds))
    move-Inv = record {
      flags = inv.flags;
      capacity = inv.capacity;
      full_capacity = inv.full_capacity;
      root_time = inv.root_time;
      bounded = inv.bounded;
      reached = λ d md soon.
          Reached-weaken s.notes limit limit' (suc rounds) d later (inv.reached d md soon);
      final_found = inv.final_found;
      final_least = inv.final_least;
      settled = λ v node seen. omega (arith, inv.settled v node seen, later);
      ahead = ahead';
      closed = inv.closed;
    }

    move-Source : Source p s.notes limit' (suc rounds) c
    move-Source =
        let r = inv.reached c m early in
        record {
          hops = r.hops;
          trail = Trail-weaken p s.notes limit limit' c r.hops later r.trail;
          journey = r.journey;
          short = r.short;
          time = refl;
        }

  Ends : Option Search → Type 0
  Ends o = (t : Search) × (o ≡ some t) × Finished p t

  continue :
      (fuel rounds limit : ℕ) (s : Search)
      → suc rounds + fuel ≡ length p.index + 1
      → Inv p s limit (suc rounds)
      → unvisited s.notes p.index ≤ fuel
      → (s.notes p.root.addr).visited ≡ true
      → ((c : Contact) (limit' : ℕ)
          → Enough p s c fuel
          → Inv p s limit' (suc (suc rounds))
          → Source p s.notes limit' (suc rounds) c
          → Ends (run fuel c s))
      → (o : Option Contact) → Selected s p.index o
      → Ends (elim o [ none ↦ some s | some c ↦ run fuel c s ])
  unfolding Ends
  continue fuel rounds limit s count inv few root_seen rest _ (finished none_left) = (
    s,
    refl,
    record {
      limit = limit;
      rounds = suc rounds;
      short = omega arith;
      inv = inv;
      root_visited = root_seen;
      exhausted = none_left;
    },
  )
  continue fuel rounds limit s count inv few root_seen rest _ (next c m e early least) =
      rest c (s.notes c.addr).arrival_time (inr (m, e.unvisited, few, root_seen))
        (move-Inv s limit rounds inv c m e early least)
        (move-Source s limit rounds inv c m e early least)

  pub loop_lem :
      (fuel rounds : ℕ) (current : Contact) (s : Search) (limit : ℕ)
      → rounds + fuel ≡ length p.index + 1
      → Enough p s current fuel
      → Inv p s limit (suc rounds)
      → Source p s.notes limit rounds current
      → (t : Search) × (run fuel current s ≡ some t) × Finished p t
  unfolding loop Ends
  loop_lem zero rounds current s limit count enough inv source =
      absurd (omega (arith, fuel_pos s current 0 enough))
  loop_lem (suc fuel) rounds current s limit count enough inv source =
      let node = Node-of s current (suc fuel) enough in
      let inv' = expand-Inv p ready current s limit rounds node inv source in
      let marked = expand-visited p ready current s limit rounds inv source in
      let (few, root_seen) = after_round s (round current s) current fuel marked enough in
      continue fuel rounds limit (round current s) (omega arith) inv' few root_seen
        (λ c limit' enough' moved source'.
          loop_lem fuel (suc rounds) c (round current s) limit' (omega arith) enough' moved source')
        (select_next (round current s) p.index) (select_next_lem (round current s) p.index)
