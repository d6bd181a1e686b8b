-- ===== src/Cgr/Dijkstra/Answer.antt =====
-- What the search of `computeDistanceToTerminus` promises.
use cgr_jni.Base.{ℕ, ◌≡◌, ◌≢◌, ◌≤◌, ◌<◌, ◌⊎◌, List, [], ◌∷◌, ◌∈◌}
use cgr_jni.Plan.{Contact}
use cgr_jni.Cgr.Note.{Notes, max_time, max_uvast, contact_capacity}
use cgr_jni.Cgr.Dijkstra.{Route, Outcome, routed, no_route}
use cgr_jni.Cgr.Dijkstra.Invariant.{Problem, Travels}
use cgr_jni.Cgr.Dijkstra.Backtrack.{IsLeast}

-- The route describes a journey to the terminus: its arrival time is that of the journey, its end
-- the earliest end and its capacity the least capacity of a hop, and the rest is of its first hop.
pub record IsRoute (p : Problem) (r : Route) : Type 0 where
  pub last : Contact
  pub journey : Travels p last r.arrival_time r.hops
  pub to_terminus : last.to_node ≡ p.terminus
  pub in_time : r.arrival_time < max_time
  pub first : Contact
  pub rest : List Contact
  pub hops : r.hops ≡ first ∷ rest
  pub to_node_nbr : r.to_node_nbr ≡ first.to_node
  pub from_time : r.from_time ≡ first.from_time
  pub to_time : IsLeast (λ h. h.to_time) max_time r.to_time r.hops
  pub max_capacity : IsLeast contact_capacity max_uvast r.max_capacity r.hops
  pub payload_class : r.payload_class ≡ p.payload_class

-- A journey to the terminus arrives no earlier than `t`, or not before MAX_TIME.
abbrev pub NoneBefore : Problem → ℕ → Type 0
NoneBefore p t =
    (c : Contact) (u : ℕ) (hops : List Contact)
    → Travels p c u hops
    → hops ≢ []
    → c.to_node ≡ p.terminus
    → (t ≤ u) ⊎ (max_time ≤ u)

-- What a search leaves in the notes: the suppressions as they were, and capacities that are right.
pub record Leaves (p : Problem) (notes : Notes) : Type 0 where
  pub suppressed : (a : ℕ) → (notes a).suppressed ≡ (p.notes a).suppressed
  pub capacity :
      (c : Contact)
      → c ∈ p.index
      → ((notes c.addr).capacity ≡ 0) ⊎ ((notes c.addr).capacity ≡ contact_capacity c)

pub data Answer (p : Problem) : Outcome → Type 0 where
  found :
      (notes : Notes) (r : Route)
      → Leaves p notes
      → IsRoute p r
      → NoneBefore p r.arrival_time
      → Answer p (routed notes r)
  unreachable : (notes : Notes) → Leaves p notes → NoneBefore p max_time → Answer p (no_route notes)
