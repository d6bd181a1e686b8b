-- ===== src/Cgr/Arrival/Smaller.antt =====
-- `computeArrivalTime` for two bundles, one no larger than the other.
use cgr_jni.Base.{
  ℕ, ◌+◌, ◌/◌, ◌<◌, ◌^◌, ◌≤◌, ltb, ◌==◌, if◌then◌else◌, Option, none, some, List, ◌∷◌,
}
use cgr_jni.Base.Int.{pos, to_int, ◌≤ℤ◌}
use cgr_jni.Scalar.{Scalar, magnitude, increase_scalar, divide_scalar}
use cgr_jni.Plan.{Contact, Range}
use cgr_jni.Cgr.Dijkstra.{Route}
use cgr_jni.Cgr.Arrival.{Bundle, Claims, Arrival, delay, arrive, deadline}
use cgr_jni.Cgr.Arrival.Backlog.{IsBacklog}

-- The divisor that a rate becomes: the absolute value of its `int`.
abbrev divisor : ℕ → ℕ
divisor rate = magnitude (to_int rate)

-- The seconds that so many bytes take at a rate, where a rate of 0 divides nothing.
abbrev pub seconds : ℕ → ℕ → ℕ
seconds n rate = if divisor rate == 0 then n else n / divisor rate

-- Both fail, or the first comes no later.
abbrev pub NoLater : Option ℕ → Option ℕ → Type 0
NoLater a none = Unit
NoLater none (some u) = ⊥
NoLater (some t) (some u) = t ≤ u

-- When data that arrives at this time can go on over the contact.
abbrev ready : Contact → ℕ → ℕ
ready next time = if ltb next.from_time time then time else next.from_time

-- Both fail, or the first bundle arrives no later.
abbrev pub ArrivesNoLater : Option Arrival → Option Arrival → Type 0
ArrivesNoLater a none = Unit
ArrivesNoLater none (some u) = ⊥
ArrivesNoLater (some t) (some u) = t.arrival_time ≤ℤ u.arrival_time

module _ (ranges : List Range) (current_time : ℕ) (route : Route) (b b' : Bundle) (limit n m : ℕ)
    (le : n ≤ m) (small : limit + m < 2 ^ 53) (sooner : deadline b' ≤ deadline b) (claims : Claims)
    (backlog : IsBacklog limit claims.prior_claims) where
  abbrev from_first : Bundle → ℕ → Contact → List Contact → Option Arrival
  from_first x k contact hops =
      arrive ranges current_time (record route { hops = contact ∷ hops }) x (pos k) claims

  abbrev start : ℕ
  start = if ltb route.from_time current_time then current_time else route.from_time

  abbrev eto : ℕ → Contact → ℕ
  eto k contact =
      delay start
        (divide_scalar (increase_scalar claims.prior_claims (pos k)) (to_int contact.xmit_rate))
