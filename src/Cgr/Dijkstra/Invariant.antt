-- ===== src/Cgr/Dijkstra/Invariant.antt =====
-- The invariant of the search of `computeDistanceToTerminus`.
use cgr_jni.Base.{
  ℕ, ◌≡◌, ◌≢◌, ◌≤◌, ◌<◌, ◌⊎◌, ◌∙◌, false, true, none, some, List, [], ◌∷◌, ◌++◌, length, ◌∈◌, arith,
}
use cgr_jni.Plan.{Contact, Range}
use cgr_jni.Cgr.Note.{Notes, max_time, contact_capacity, arrival_over}
use cgr_jni.Cgr.Dijkstra.{Search}
use cgr_jni.Cgr.Dijkstra.Neighbors.{IsContactIndex}
use cgr_jni.Cgr.Dijkstra.Journey.{Journey, Edge}

-- The inputs of a search, with the notes as it finds them.
pub record Problem : Type 0 where
  pub ranges : List Range
  pub index : List Contact
  pub notes : Notes
  pub root : Contact
  pub terminus : ℕ
  pub payload_class : ℕ

abbrev pub start_time : Problem → ℕ
start_time p = (p.notes p.root.addr).arrival_time

-- An index in order whose contacts have addresses of their own, none of them that of the root, and
-- notes that were reset; the time at
-- which the search starts is at most MAX_TIME.
pub record IsReady (p : Problem) : Type 0 where
  pub ordered : IsContactIndex p.index
  pub distinct : (c d : Contact) → c ∈ p.index → d ∈ p.index → c.addr ≡ d.addr → c ≡ d
  pub apart : (c : Contact) → c ∈ p.index → c.addr ≢ p.root.addr
  pub in_time : start_time p ≤ max_time
  pub root_unvisited : (p.notes p.root.addr).visited ≡ false
  pub unvisited : (c : Contact) → c ∈ p.index → (p.notes c.addr).visited ≡ false
  pub unreached : (c : Contact) → c ∈ p.index → (p.notes c.addr).arrival_time ≡ max_time
  pub capacity :
      (c : Contact)
      → c ∈ p.index
      → ((p.notes c.addr).capacity ≡ 0) ⊎ ((p.notes c.addr).capacity ≡ contact_capacity c)

abbrev pub Travels : Problem → Contact → ℕ → List Contact → Type 0
Travels p = Journey p.ranges p.index p.notes p.payload_class p.root (start_time p)

abbrev pub Way : Problem → ℕ → ℕ → Contact → ℕ → Type 0
Way p = Edge p.ranges p.index p.notes p.payload_class

-- A contact that the search can stand at.
abbrev pub Node : Problem → Contact → Type 0
Node p c = (c ≡ p.root) ⊎ (c ∈ p.index)

-- The predecessors lead from a contact back to the root, through contacts that were reached by
-- the time `limit`.
pub data Trail (p : Problem) (notes : Notes) (limit : ℕ) : Contact → List Contact → Type 0 where
  here : Trail p notes limit p.root []
  via :
      {q : Contact} {hops : List Contact} (c : Contact)
      → Trail p notes limit q hops
      → (notes q.addr).arrival_time ≤ limit
      → (notes q.addr).arrival_time < max_time
      → c ∈ p.index
      → (notes c.addr).predecessor ≡ some q
      → Trail p notes limit c (hops ++ (c ∷ []))

-- Both notes agree wherever data arrives by the time `limit`.
abbrev pub AgreeBy : ℕ → Notes → Notes → Type 0
AgreeBy limit notes notes' =
    (a : ℕ)
    → (notes a).arrival_time ≤ limit
    → ((notes' a).predecessor ≡ (notes a).predecessor)
      × ((notes' a).arrival_time ≡ (notes a).arrival_time)

pub Trail-frame :
    (p : Problem) (notes notes' : Notes) (limit : ℕ) (c : Contact) (hops : List Contact)
    → Trail p notes limit c hops
    → AgreeBy limit notes notes'
    → ((notes' c.addr).predecessor ≡ (notes c.addr).predecessor)
    → Trail p notes' limit c hops
Trail-frame p notes notes' limit _ _ here agree same = here
Trail-frame p notes notes' limit _ _ (via {q} {hops} c t low soon m e) agree same =
    via c (Trail-frame p notes notes' limit q hops t agree (agree q.addr low).0)
      (omega (arith, (agree q.addr low).1)) (omega (arith, (agree q.addr low).1)) m (same ∙ e)

pub Trail-weaken :
    (p : Problem) (notes : Notes) (limit limit' : ℕ) (c : Contact) (hops : List Contact)
    → limit ≤ limit'
    → Trail p notes limit c hops
    → Trail p notes limit' c hops
Trail-weaken p notes limit limit' _ _ le here = here
Trail-weaken p notes limit limit' _ _ le (via {q} {hops} c t low soon m e) =
    via c (Trail-weaken p notes limit limit' q hops le t) (omega arith) soon m e

-- What is known of a contact that was reached.
pub record Reached (p : Problem) (notes : Notes) (limit rounds : ℕ) (c : Contact) : Type 0 where
  pub hops : List Contact
  pub trail : Trail p notes limit c hops
  pub journey : Travels p c (notes c.addr).arrival_time hops
  pub short : length hops ≤ rounds

-- The search so far, where the contact that it stands at was reached at the time `limit`.
pub record Inv (p : Problem) (s : Search) (limit rounds : ℕ) : Type 0 where
  pub flags : (a : ℕ) → (s.notes a).suppressed ≡ (p.notes a).suppressed
  pub capacity :
      (c : Contact)
      → c ∈ p.index
      → ((s.notes c.addr).capacity ≡ 0) ⊎ ((s.notes c.addr).capacity ≡ contact_capacity c)
  pub full_capacity :
      (c : Contact)
      → c ∈ p.index
      → (s.notes c.addr).arrival_time < max_time
      → (s.notes c.addr).capacity ≡ contact_capacity c
  pub root_time : (s.notes p.root.addr).arrival_time ≡ start_time p
  pub bounded : (c : Contact) → c ∈ p.index → (s.notes c.addr).arrival_time ≤ max_time
  pub reached :
      (c : Contact)
      → c ∈ p.index
      → (s.notes c.addr).arrival_time < max_time
      → Reached p s.notes limit rounds c
  pub final_found :
      ((s.final_contact ≡ none) × (s.earliest_final ≡ max_time))
      ⊎ ((f : Contact) × (s.final_contact ≡ some f)
          × (f ∈ p.index)
          × (f.to_node ≡ p.terminus)
          × ((s.notes f.addr).arrival_time ≡ s.earliest_final)
          × (s.earliest_final < max_time))
  pub final_least :
      (d : Contact)
      → d ∈ p.index
      → d.to_node ≡ p.terminus
      → s.earliest_final ≤ (s.notes d.addr).arrival_time
  pub settled :
      (v : Contact)
      → Node p v
      → (s.notes v.addr).visited ≡ true
      → (s.notes v.addr).arrival_time ≤ limit
  pub ahead :
      (u : Contact)
      → u ∈ p.index
      → (s.notes u.addr).visited ≡ false
      → (p.notes u.addr).suppressed ≡ false
      → limit ≤ (s.notes u.addr).arrival_time
  pub closed :
      (v d : Contact) (owlt : ℕ)
      → Node p v
      → (s.notes v.addr).visited ≡ true
      → Way p v.to_node (s.notes v.addr).arrival_time d owlt
      → (s.notes d.addr).arrival_time ≤ arrival_over (s.notes v.addr).arrival_time d owlt
