-- ===== src/Cgr/Routes/Turns.antt =====
-- What a round of the loop of `loadRouteList` does, by the outcome of its search.
use cgr_jni.Base.{
  ℕ, ◌≡◌, ◌<◌, refl, List, [], ◌∷◌, ◌++◌, All, arith, true, false, if◌then◌else◌, Option, none,
  some, ◌==◌,
}
use cgr_jni.Plan.{Contact, Range}
use cgr_jni.Cgr.Note.{Notes, update}
use cgr_jni.Cgr.Dijkstra.{
  Route, compute_distance_to_terminus, find_next_best_route, Outcome, routed, no_route,
}
use cgr_jni.Cgr.Routes.{
  suppress, Load, root_contact, root_note, Turn, again, class_done, leaves_anchor, take_route,
  search_round,
}
use cgr_jni.Cgr.Routes.Clear.{IsCleared, Capacities}
use cgr_jni.Cgr.Routes.Feasible.{IsFeasible}
use cgr_jni.Cgr.Routes.Weight.{weight, Anchored}

module _ (ranges : List Range) (index : List Contact)
    (root_addr local_node terminus current_time : ℕ) where
  -- The state between two rounds.
  pub record IsOpen (s : Load) : Type 0 where
    pub cleared : IsCleared index s.notes
    pub routes : All (IsFeasible ranges index root_addr local_node terminus current_time) s.routes
    pub anchored : Anchored index local_node s.anchor

  -- Routes are only added at the end.
  abbrev pub Extends : Load → Load → Type 0
  Extends s s' = (more : List Route) × (s'.routes ≡ s.routes ++ more)

  -- What a round does: the class is done, or the loop is nearer to its end.
  pub data Next (s : Load) : Turn → Type 0 where
    finishes :
        (s' : Load)
        → All (IsFeasible ranges index root_addr local_node terminus current_time) s'.routes
        → Anchored index local_node s'.anchor
        → Extends s s'
        → Next s (class_done s')
    goes_on :
        (s' : Load)
        → IsOpen s'
        → Extends s s'
        → weight index local_node s' < weight index local_node s
        → Next s (again s')

pub suppress-Capacities :
    (index : List Contact) (notes : Notes) (limit : Contact)
    → Capacities index notes
    → Capacities index (suppress notes limit)
unfolding suppress update
suppress-Capacities index notes limit capacities c m = ground (arith, capacities c m)

pub suppress-suppressed :
    (notes : Notes) (limit : Contact) (a : ℕ)
    → (suppress notes limit a).suppressed ≡ (if a == limit.addr then true else (notes a).suppressed)
unfolding suppress update
suppress-suppressed notes limit a = ground arith

pub suppress-IsCleared :
    (index : List Contact) (notes : Notes) (limit : Contact)
    → IsCleared index notes
    → IsCleared index (suppress notes limit)
unfolding suppress update
suppress-IsCleared index notes limit cleared = record {
  unvisited = λ c m. ground (arith, cleared.unvisited c m);
  unreached = λ c m. ground (arith, cleared.unreached c m);
  capacity = λ c m. ground (arith, cleared.capacity c m);
}

pub leaves_anchor-none :
    (anchor : Option Contact) (first : Contact) → anchor ≡ none → leaves_anchor anchor first ≡ false
unfolding leaves_anchor
leaves_anchor-none anchor first e = rw e refl

pub none-ne-some : (c : Contact) → ¬ (none ≡ some c)
none-ne-some c e = cc

pub nil-ne-cons : (c : Contact) (cs : List Contact) → ¬ ([] ≡ c ∷ cs)
nil-ne-cons c cs e = cc

pub head-eq : (c d : Contact) (cs ds : List Contact) → c ∷ cs ≡ d ∷ ds → c ≡ d
head-eq c d cs ds e = cc

pub All-last :
    {A : Type 0} (P : A → Type 0) (xs : List A) (y : A) → All P xs → P y → All P (xs ++ (y ∷ []))
All-last P [] y all last = (last, tt)
All-last P (x ∷ xs) y all last = (all.0, All-last P xs y all.1 last)

-- A round by the outcome of its search.
module _ (ranges : List Range) (index : List Contact)
    (root_addr local_node terminus current_time : ℕ) (k : ℕ) (s : Load) where
  abbrev pub outcome : Outcome
  outcome =
      compute_distance_to_terminus ranges index (root_contact root_addr local_node) terminus k
        (update s.notes root_addr (root_note current_time))

  abbrev pub turn : Turn
  turn = search_round ranges index root_addr local_node terminus current_time k s

  pub search_round-takes :
      (notes : Notes) (r : Route)
      → outcome ≡ routed notes r
      → (r.to_node_nbr == 0) ≡ false
      → turn ≡ take_route ranges index root_addr local_node terminus current_time s notes r
  unfolding search_round find_next_best_route
  search_round-takes notes r e somewhere =
      rw (e, search_round, find_next_best_route) (rw (somewhere, search_round) refl)

  pub search_round-discards :
      (notes : Notes) (r : Route)
      → outcome ≡ routed notes r
      → (r.to_node_nbr == 0) ≡ true
      → turn ≡ class_done (record s { notes = notes })
  unfolding search_round find_next_best_route
  search_round-discards notes r e nowhere =
      rw (e, search_round, find_next_best_route) (rw (nowhere, search_round) refl)

  pub search_round-ends :
      (notes : Notes) → outcome ≡ no_route notes → turn ≡ class_done (record s { notes = notes })
  unfolding search_round find_next_best_route
  search_round-ends notes e = rw (e, search_round, find_next_best_route) refl
