-- ===== src/Cgr/Identify/Ending.antt =====
-- identifyProximateNodes as a whole, with the list of routes there or still to be loaded.
use cgr_jni.Base.{none, ℕ, ◌+◌, ◌*◌, ◌≡◌, refl, Option, some, List, [], length, arith}
use cgr_jni.Plan.{Contact, Range}
use cgr_jni.Cgr.Note.{Notes}
use cgr_jni.Cgr.Dijkstra.{Route}
use cgr_jni.Cgr.Proximate.{FwdDirective}
use cgr_jni.Cgr.Arrival.{Bundle}
use cgr_jni.Cgr.Routes.Loading.{load_route_list-IsFeasible}
use cgr_jni.Cgr.Routes.Clear.{IsPlan}
use cgr_jni.Cgr.Routes.Count.{lex_first}
use cgr_jni.Cgr.Identify.{Outduct, Identified, walk_all, identify_proximate_nodes}
use cgr_jni.Cgr.Identify.Ended.{ended, ended-le-length}
use cgr_jni.Cgr.Identify.Allowed.{AllAllowed}
use cgr_jni.Cgr.Identify.Walk.{walk_lem}

walk_all_lem :
    (get_directive : ℕ → Option FwdDirective) (outduct_at : ℕ → Outduct) (ranges : List Range)
    (index : List Contact) (root_addr own_node_nbr terminus current_time : ℕ) (bundle : Bundle)
    (excluded_nodes : List ℕ) (routes : List Route) (notes : Notes)
    → IsPlan index root_addr current_time
    → (i : Identified) × (walk_all get_directive outduct_at ranges index root_addr own_node_nbr
          terminus current_time bundle excluded_nodes routes notes
        ≡ some i)
      × AllAllowed get_directive outduct_at ranges index root_addr own_node_nbr terminus
          current_time bundle excluded_nodes i.proximate_nodes
unfolding walk_all
walk_all_lem get_directive outduct_at ranges index root_addr own_node_nbr terminus current_time
      bundle excluded_nodes routes notes plan =
    walk_lem get_directive outduct_at ranges index root_addr own_node_nbr terminus current_time
      bundle excluded_nodes plan (length routes) ((length routes + 1) * (length routes + 1)) []
      routes notes [] (record { running = refl; short = omega arith }) (λ p m. absurd m)
      (omega (
        arith,
        lex_first (ended current_time routes) (length routes + 1) (length routes) 0 (length routes)
            (omega (arith, ended-le-length current_time routes)) (omega arith),
      ))

-- For a contact index in order, whose contacts have addresses of their own and times up to
-- MAX_TIME, `identify_proximate_nodes` comes to its end within the rounds given to it, with a list
-- of routes or without one, and each neighbor that it lists is not excluded, and is the local node
-- only if that is the destination.
pub identify_proximate_nodes-AllAllowed :
    (get_directive : ℕ → Option FwdDirective) (outduct_at : ℕ → Outduct) (ranges : List Range)
    (index : List Contact) (root_addr own_node_nbr terminus current_time : ℕ) (bundle : Bundle)
    (excluded_nodes : List ℕ) (routes : Option (List Route)) (notes : Notes)
    → IsPlan index root_addr current_time
    → (i : Identified) × (identify_proximate_nodes get_directive outduct_at ranges index root_addr
          own_node_nbr terminus current_time bundle excluded_nodes routes notes
        ≡ some i)
      × AllAllowed get_directive outduct_at ranges index root_addr own_node_nbr terminus
          current_time bundle excluded_nodes i.proximate_nodes
unfolding identify_proximate_nodes
identify_proximate_nodes-AllAllowed get_directive outduct_at ranges index root_addr own_node_nbr
      terminus current_time bundle excluded_nodes none notes plan =
    let (s, e, feasible) =
      load_route_list-IsFeasible ranges index root_addr own_node_nbr terminus current_time notes
        plan in
    rw (e, identify_proximate_nodes)
      (walk_all_lem get_directive outduct_at ranges index root_addr own_node_nbr terminus
        current_time bundle excluded_nodes s.routes s.notes plan)
identify_proximate_nodes-AllAllowed get_directive outduct_at ranges index root_addr own_node_nbr
      terminus current_time bundle excluded_nodes (some routes) notes plan =
    walk_all_lem get_directive outduct_at ranges index root_addr own_node_nbr terminus current_time
      bundle excluded_nodes routes notes plan
