-- ===== src/Cgr/Identify/Ended.antt =====
-- The end times of routes that were just computed.
use cgr_jni.Base.{
  mem_last, ℕ, ◌+◌, ◌≡◌, ◌≤◌, ◌<◌, inl, inr, sym, subst, false, ltb, if◌then◌else◌, List, [], ◌∷◌,
  ◌++◌, length, ◌∈◌, arith,
}
use cgr_jni.Plan.{Contact, Range}
use cgr_jni.Cgr.Note.{Notes}
use cgr_jni.Cgr.Dijkstra.{Route}
use cgr_jni.Cgr.Dijkstra.Journey.{Journey, begin, hop, le-arrival_over}
use cgr_jni.Cgr.Dijkstra.Invariant.{start_time}
use cgr_jni.Cgr.Routes.{blank_note}
use cgr_jni.Cgr.Routes.Clear.{IsPlan}
use cgr_jni.Cgr.Routes.Feasible.{problem, IsFeasible, start_time_lem}

-- How many routes have ended.
abbrev pub ended : ℕ → List Route → ℕ
ended now [] = 0
ended now (r ∷ rs) = (if ltb r.to_time now then 1 else 0) + ended now rs

pub ended-append :
    (now : ℕ) (xs ys : List Route) → ended now (xs ++ ys) ≡ ended now xs + ended now ys
ended-append now [] ys = omega arith
ended-append now (x ∷ xs) ys = omega (arith, ended-append now xs ys)

pub ended-le-length : (now : ℕ) (rs : List Route) → ended now rs ≤ length rs
ended-le-length now [] = omega arith
ended-le-length now (r ∷ rs) = ground (arith, ended-le-length now rs)

module _ (ranges : List Range) (index : List Contact) (notes : Notes) (payload_class : ℕ)
    (root : Contact) (start : ℕ) where
  Journey-le :
      {c : Contact} {t : ℕ} {hops : List Contact}
      → Journey ranges index notes payload_class root start c t hops
      → start ≤ t
  Journey-le begin = omega arith
  Journey-le (hop {t = t} c owlt journey way) =
      omega (arith, Journey-le journey, le-arrival_over t c owlt)

  Journey-open :
      {c : Contact} {t : ℕ} {hops : List Contact} (h : Contact)
      → Journey ranges index notes payload_class root start c t hops
      → h ∈ hops
      → start < h.to_time
  Journey-open h begin m = absurd m
  Journey-open h (hop {hops = hops} c owlt journey way) m = elim (mem_last hops c h m) [
    | inl before ↦ Journey-open h journey before
    | inr e ↦
        subst (λ (z : Contact). start < z.to_time) (sym e)
          (omega (arith, Journey-le journey, way.open_at))
  ]

pub feasible_lem :
    (ranges : List Range) (index : List Contact) (root_addr local_node terminus current_time : ℕ)
    (r : Route)
    → IsPlan index root_addr current_time
    → IsFeasible ranges index root_addr local_node terminus current_time r
    → ltb r.to_time current_time ≡ false
feasible_lem ranges index root_addr local_node terminus current_time r plan ok =
    let p =
      problem ranges index root_addr local_node terminus current_time r.payload_class
        (λ a. blank_note) in
    let start =
      start_time_lem ranges index root_addr local_node terminus current_time r.payload_class
        (λ a. blank_note) in
    elim ok.to_time.attained [
      | inl top ↦ ground (arith, top, plan.in_time)
      | inr (h, m, e) ↦
          let open_at =
            Journey-open ranges index p.notes r.payload_class p.root (start_time p) h ok.journey
              m in
          let later : current_time < r.to_time = omega (arith, start, open_at, e) in ground arith
    ]
