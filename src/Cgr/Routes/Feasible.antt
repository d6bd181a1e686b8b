-- ===== src/Cgr/Routes/Feasible.antt =====
-- The searches of `loadRouteList`, and the routes that they find.
use cgr_jni.Base.{ℕ, ◌≡◌, ◌⊎◌, refl, sym, ap, ◌∙◌, subst, List, ◌∈◌, arith, false}
use cgr_jni.Plan.{Contact, Range}
use cgr_jni.Cgr.Note.{Note, Notes, update, contact_capacity}
use cgr_jni.Cgr.Dijkstra.{Route}
use cgr_jni.Cgr.Dijkstra.Invariant.{Problem, IsReady, start_time, Travels}
use cgr_jni.Cgr.Dijkstra.Journey.{Journey}
use cgr_jni.Cgr.Dijkstra.Answer.{IsRoute}
use cgr_jni.Cgr.Routes.{blank_note, root_contact, root_note}
use cgr_jni.Cgr.Routes.Clear.{IsPlan, IsCleared}
use cgr_jni.Cgr.Routes.Hops.{Journey-free}

module _ (ranges : List Range) (index : List Contact)
    (root_addr local_node terminus current_time : ℕ) where
  -- The search of one round.
  abbrev pub problem : ℕ → Notes → Problem
  problem payload_class notes = record {
    ranges = ranges;
    index = index;
    notes = update notes root_addr (root_note current_time);
    root = root_contact root_addr local_node;
    terminus = terminus;
    payload_class = payload_class;
  }

  -- The route describes a journey from the present on, when no contact is suppressed.
  abbrev pub IsFeasible : Route → Type 0
  IsFeasible r = IsRoute (problem r.payload_class (λ a. blank_note)) r

  pub start_time_lem : (k : ℕ) (notes : Notes) → start_time (problem k notes) ≡ current_time
  unfolding update
  start_time_lem k notes = ground arith

  module _ (plan : IsPlan index root_addr current_time) where
    pub same_note :
        (notes : Notes) (c : Contact)
        → c ∈ index
        → update notes root_addr (root_note current_time) c.addr ≡ notes c.addr
    unfolding update
    same_note notes c m = ground (arith, plan.apart c m)

    pub problem-IsReady :
        (k : ℕ) (notes : Notes) → IsCleared index notes → IsReady (problem k notes)
    unfolding update
    problem-IsReady k notes cleared = record {
      ordered = plan.ordered;
      distinct = plan.distinct;
      apart = plan.apart;
      in_time = omega (arith, start_time_lem k notes, plan.in_time);
      root_unvisited = root_unvisited;
      unvisited = λ c m. ap (λ (w : Note). w.visited) (same_note notes c m) ∙ cleared.unvisited c m;
      unreached =
          λ c m. ap (λ (w : Note). w.arrival_time) (same_note notes c m) ∙ cleared.unreached c m;
      capacity = λ c m.
          subst (λ (w : Note). (w.capacity ≡ 0) ⊎ (w.capacity ≡ contact_capacity c))
            (sym (same_note notes c m)) (cleared.capacity c m);
    }
      where
        root_unvisited : (update notes root_addr (root_note current_time) root_addr).visited ≡ false
        root_unvisited = ground arith

    blanks : Notes
    blanks = update (λ a. blank_note) root_addr (root_note current_time)

    blanks-free : (a : ℕ) → (blanks a).suppressed ≡ false
    unfolding blanks update
    blanks-free a = ground arith

    pub route-IsFeasible :
        (k : ℕ) (notes : Notes) (r : Route) → IsRoute (problem k notes) r → IsFeasible r
    unfolding blanks
    route-IsFeasible k notes r ok = record {
      last = ok.last;
      journey =
          subst (λ j. Travels (problem j (λ a. blank_note)) ok.last r.arrival_time r.hops)
            (sym ok.payload_class)
            (subst
              (λ t.
                Journey ranges index blanks k (root_contact root_addr local_node) t ok.last
                  r.arrival_time r.hops)
              (start_time_lem k notes ∙ sym (start_time_lem k (λ a. blank_note)))
              (Journey-free ranges index (problem k notes).notes k
                (root_contact root_addr local_node) (start_time (problem k notes)) blanks
                (λ h m free. blanks-free h.addr) ok.journey));
      to_terminus = ok.to_terminus;
      in_time = ok.in_time;
      first = ok.first;
      rest = ok.rest;
      hops = ok.hops;
      to_node_nbr = ok.to_node_nbr;
      from_time = ok.from_time;
      to_time = ok.to_time;
      max_capacity = ok.max_capacity;
      payload_class = refl;
    }
