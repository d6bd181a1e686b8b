-- ===== src/Cgr/Dijkstra/Optimal.antt =====
-- The search of computeDistanceToTerminus as a whole.
use cgr_jni.Base.{ℕ, ◌≡◌, ◌≢◌, ◌≤◌, ◌<◌, refl, subst, List, [], arith}
use cgr_jni.Plan.{Contact}
use cgr_jni.Cgr.Note.{Notes, max_time}
use cgr_jni.Cgr.Dijkstra.{Route, Outcome, routed, stuck, compute_distance_to_terminus}
use cgr_jni.Cgr.Dijkstra.Invariant.{Problem, IsReady, Travels}
use cgr_jni.Cgr.Dijkstra.Answer.{IsRoute, Answer, found, unreachable}
use cgr_jni.Cgr.Dijkstra.Read.{finishes, read-Answer}

-- A search from reset notes ends, and it answers with a route that describes a journey to the
-- terminus than which no journey arrives earlier, or with no route if no journey arrives there
-- before MAX_TIME.
pub search-Answer :
    (p : Problem)
    → IsReady p
    → Answer p
        (compute_distance_to_terminus p.ranges p.index p.root p.terminus p.payload_class p.notes)
unfolding compute_distance_to_terminus
search-Answer p ready =
    let (t, e, end) = finishes p ready in
    rw (e, compute_distance_to_terminus) (read-Answer p ready t end)

-- Over an ordered index whose contacts have addresses of their own, from reset notes and a start by
-- MAX_TIME: a route that the search answers with describes a journey to the terminus that arrives
-- before MAX_TIME, with its earliest end of contact, its least capacity and its first hop.
pub route-IsRoute :
    (p : Problem) (notes : Notes) (r : Route)
    → IsReady p
    → compute_distance_to_terminus p.ranges p.index p.root p.terminus p.payload_class p.notes
      ≡ routed notes r
    → IsRoute p r
route-IsRoute p notes r ready e = of_answer (subst (Answer p) e (search-Answer p ready))
  where
    of_answer : Answer p (routed notes r) → IsRoute p r
    of_answer (found notes r leaves is_route none_earlier) = is_route

-- Over an ordered index whose contacts have addresses of their own, from reset notes and a start by
-- MAX_TIME: if some journey of at least one hop over contacts that are not suppressed arrives at the
-- terminus before MAX_TIME, then the search answers with a route that arrives no later.
pub route_optimal :
    (p : Problem) (c : Contact) (t : ℕ) (hops : List Contact)
    → IsReady p
    → Travels p c t hops
    → hops ≢ []
    → c.to_node ≡ p.terminus
    → t < max_time
    → (notes : Notes) × (r : Route) × (compute_distance_to_terminus p.ranges p.index p.root
          p.terminus p.payload_class p.notes
        ≡ routed notes r)
      × (r.arrival_time ≤ t)
route_optimal p c t hops ready journey ne to soon =
    of_answer
      (compute_distance_to_terminus p.ranges p.index p.root p.terminus p.payload_class p.notes)
      (search-Answer p ready)
  where
    of_answer :
        (o : Outcome)
        → Answer p o
        → (notes : Notes) × (r : Route) × (o ≡ routed notes r) × (r.arrival_time ≤ t)
    of_answer _ (found notes r leaves is_route none_earlier) =
        (notes, r, refl, ground (arith, none_earlier c t hops journey ne to))
    of_answer _ (unreachable notes leaves none_earlier) =
        absurd (ground (arith, none_earlier c t hops journey ne to))

-- Over an ordered index whose contacts have addresses of their own, from reset notes and a start by
-- MAX_TIME, the search never runs out of rounds, and never follows a NULL predecessor.
pub search-ne-stuck :
    (p : Problem)
    → IsReady p
    → compute_distance_to_terminus p.ranges p.index p.root p.terminus p.payload_class p.notes
      ≢ stuck
search-ne-stuck p ready e = of_answer (subst (Answer p) e (search-Answer p ready))
  where
    of_answer : ¬ Answer p stuck
    of_answer a = not_stuck stuck a refl
      where
        not_stuck : (o : Outcome) → Answer p o → o ≢ stuck
        not_stuck _ (found notes r leaves is_route none_earlier) e = cc
        not_stuck _ (unreachable notes leaves none_earlier) e = cc
