-- ===== src/Cgr/Proximate/Choice.antt =====
-- The choice of cgrForward among the candidate neighbors.
use cgr_jni.Base.{
  ◌≡◌, ◌≤◌, ◌<◌, ◌⊎◌, inl, inr, refl, sym, ap, ◌∙◌, subst, some, List, [], ◌∷◌, foldl, ◌∈◌, arith,
}
use cgr_jni.Base.Int.{◌<ℤ◌}
use cgr_jni.Cgr.Proximate.{ProximateNode, note_route, consider_node, select_neighbor}
use cgr_jni.Cgr.Proximate.Entries.{IsOf}
use cgr_jni.Cgr.Proximate.Listing.{note_routes-Lists}

-- The order of `cgrForward`: by arrival, then by the number of hops, then by the neighbor's number.
abbrev pub Precedes : ProximateNode → ProximateNode → Type 0
Precedes p q =
    (p.arrival_time <ℤ q.arrival_time)
    ⊎ ((p.arrival_time ≡ q.arrival_time)
        × ((p.hop_count < q.hop_count)
            ⊎ ((p.hop_count ≡ q.hop_count) × (p.neighbor_node_nbr ≤ q.neighbor_node_nbr))))

-- What one step of the loop selects.
consider_node_lem :
    (s p : ProximateNode)
    → ((consider_node (some s) p ≡ some s) × Precedes s p)
      ⊎ ((consider_node (some s) p ≡ some p) × Precedes p s)
unfolding consider_node
consider_node_lem s p = ground arith

Precedes-trans : (p q r : ProximateNode) → Precedes p q → Precedes q r → Precedes p r
Precedes-trans p q r a b = ground arith

fold_best :
    (nodes : List ProximateNode) (s : ProximateNode)
    → (r : ProximateNode) × (foldl consider_node (some s) nodes ≡ some r)
      × (r ∈ s ∷ nodes)
      × ((p : ProximateNode) → p ∈ s ∷ nodes → Precedes r p)
fold_best [] s = (s, refl, inl refl, λ p m. elim m [ inl e ↦ ground (arith, e) | inr n ↦ absurd n ])
fold_best (x ∷ nodes) s = elim (consider_node_lem s x) [
  | inl (stays, before) ↦
      let (r, e, m, best) = fold_best nodes s in
      (
        r,
        ap (λ o. foldl consider_node o nodes) stays ∙ e,
        ground (arith, m),
        λ p mp. elim mp [
          | inl same ↦ best p (inl same)
          | inr (inl next) ↦
              subst (Precedes r) (sym next) (Precedes-trans r s x (best s (inl refl)) before)
          | inr (inr later) ↦ best p (inr later)
        ],
      )
  | inr (moves, before) ↦
      let (r, e, m, best) = fold_best nodes x in
      (
        r,
        ap (λ o. foldl consider_node o nodes) moves ∙ e,
        ground (arith, m),
        λ p mp. elim mp [
          | inl same ↦
              subst (Precedes r) (sym same) (Precedes-trans r x s (best x (inl refl)) before)
          | inr (inl next) ↦ best p (inl next)
          | inr (inr later) ↦ best p (inr later)
        ],
      )
]

select_lem :
    (nodes : List ProximateNode) (p : ProximateNode)
    → p ∈ nodes
    → (r : ProximateNode) × (select_neighbor nodes ≡ some r)
      × (r ∈ nodes)
      × ((q : ProximateNode) → q ∈ nodes → Precedes r q)
unfolding select_neighbor consider_node
select_lem [] p m = absurd m
select_lem (x ∷ nodes) p m = fold_best nodes x

-- When at least one route has been noted, `select_neighbor` selects a neighbor, with the values of one of
-- the routes; no route arrives earlier, or as early with less hops, or as early with as many hops
-- over a neighbor of a lower number.
pub select_neighbor_best :
    (offers : List ProximateNode) (o : ProximateNode)
    → o ∈ offers
    → (p : ProximateNode) × (select_neighbor (foldl note_route [] offers) ≡ some p)
      × ((x : ProximateNode) × (x ∈ offers) × IsOf p x)
      × ((x : ProximateNode) → x ∈ offers → Precedes p x)
select_neighbor_best offers o m =
    let l = note_routes-Lists offers in
    let (q, mq, nbr, no_worse) = l.best o m in
    let (p, e, mp, best) = select_lem (foldl note_route [] offers) q mq in
    (
      p,
      e,
      l.offered p mp,
      λ x mx. let (y, my, nbr', no_worse') = l.best x mx in let before = best y my in ground arith,
    )
