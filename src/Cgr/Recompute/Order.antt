-- ===== src/Cgr/Recompute/Order.antt =====
-- The insertion of a recomputed route into a list of routes, at the end of recomputeRouteForContact.
use cgr_jni.Base.{
  ℕ, ◌≡◌, ◌≤◌, ◌<◌, inl, inr, refl, Bool-cases, leb, List, [], ◌∷◌, ◌++◌, All, All-imp, arith,
}
use cgr_jni.Cgr.Dijkstra.{Route}
use cgr_jni.Cgr.Recompute.{insert_route}

-- In order of arrival.
abbrev pub IsAscending : List Route → Type 0
IsAscending [] = Unit
IsAscending (r ∷ rs) = All (λ (q : Route). r.arrival_time ≤ q.arrival_time) rs × IsAscending rs

insert-All :
    (t : ℕ) (r : Route) (routes : List Route)
    → t ≤ r.arrival_time
    → All (λ (q : Route). t ≤ q.arrival_time) routes
    → All (λ (q : Route). t ≤ q.arrival_time) (insert_route r routes)
unfolding insert_route
insert-All t r [] le all = (le, tt)
insert-All t r (x ∷ routes) le all = elim (Bool-cases (leb x.arrival_time r.arrival_time)) [
  | inl before ↦ rw (before, insert_route) (all.0, insert-All t r routes le all.1)
  | inr behind ↦ rw (behind, insert_route) (le, all)
]

insert_route-IsAscending :
    (r : Route) (routes : List Route) → IsAscending routes → IsAscending (insert_route r routes)
unfolding insert_route
insert_route-IsAscending r [] up = (tt, tt)
insert_route-IsAscending r (x ∷ routes) up = elim (Bool-cases (leb x.arrival_time r.arrival_time)) [
  | inl before ↦
      rw (before, insert_route)
        (
          insert-All x.arrival_time r routes (ground arith) up.0,
          insert_route-IsAscending r routes up.1,
        )
  | inr behind ↦
      rw (behind, insert_route)
        (
          (
            ground arith,
            All-imp (λ (q : Route). x.arrival_time ≤ q.arrival_time)
                (λ (q : Route). r.arrival_time ≤ q.arrival_time) routes (λ q le. ground arith) up.0,
          ),
          up,
        )
]

placed :
    (r : Route) (routes : List Route)
    → IsAscending routes
    → (before after : List Route) × (routes ≡ before ++ after)
      × (insert_route r routes ≡ before ++ (r ∷ after))
      × All (λ (q : Route). q.arrival_time ≤ r.arrival_time) before
      × All (λ (q : Route). r.arrival_time < q.arrival_time) after
unfolding insert_route
placed r [] up = ([], [], refl, refl, tt, tt)
placed r (x ∷ routes) up = elim (Bool-cases (leb x.arrival_time r.arrival_time)) [
  | inl early ↦
      let (before, after, e, e', sooner, later) = placed r routes up.1 in
      rw (early, insert_route) (x ∷ before, after, cc, cc, (ground (arith, early), sooner), later)
  | inr late ↦
      rw (late, insert_route)
        (
          [],
          x ∷ routes,
          refl,
          refl,
          tt,
          (
            ground (arith, late),
            All-imp (λ (q : Route). x.arrival_time ≤ q.arrival_time)
                (λ (q : Route). r.arrival_time < q.arrival_time) routes
                (λ q le. ground (arith, late)) up.0,
          ),
        )
]

-- In a list in order of arrival `insert_route` puts the route behind all that arrive no later than
-- it and before all that arrive later; the others stay as they are, and the list in order.
pub insert_route_lem :
    (r : Route) (routes : List Route)
    → IsAscending routes
    → IsAscending (insert_route r routes)
      × ((before after : List Route) × (routes ≡ before ++ after)
          × (insert_route r routes ≡ before ++ (r ∷ after))
          × All (λ (q : Route). q.arrival_time ≤ r.arrival_time) before
          × All (λ (q : Route). r.arrival_time < q.arrival_time) after)
insert_route_lem r routes up = (insert_route-IsAscending r routes up, placed r routes up)

-- The new list is the old one with the route put in at one place.
pub insert_route-split :
    (r : Route) (routes : List Route)
    → (before after : List Route) × (routes ≡ before ++ after)
      × (insert_route r routes ≡ before ++ (r ∷ after))
unfolding insert_route
insert_route-split r [] = ([], [], refl, refl)
insert_route-split r (x ∷ routes) = elim (Bool-cases (leb x.arrival_time r.arrival_time)) [
  | inl early ↦
      let (before, after, e, e') = insert_route-split r routes in
      rw (early, insert_route) (x ∷ before, after, cc, cc)
  | inr late ↦ rw (late, insert_route) ([], x ∷ routes, refl, refl)
]
