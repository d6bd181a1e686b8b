-- ===== src/Cgr/Proximate/Listing.antt =====
-- The list of candidate neighbors, after the routes that tryRoute has noted.
use cgr_jni.Base.{◌≡◌, ◌⊎◌, inl, inr, refl, ◌∙◌, List, [], ◌∷◌, foldl, ◌∈◌, arith}
use cgr_jni.Cgr.Proximate.{ProximateNode, note_route}
use cgr_jni.Cgr.Proximate.Entries.{
  IsOf, NoWorse, IsDistinct, note-member, note-old, note-new, note-IsDistinct, NoWorse-trans,
}

-- The list of neighbors stands for the routes that were offered.
pub record Lists (nodes : List ProximateNode) (Offered : ProximateNode → Type 0) : Type 0 where
  pub offered : (p : ProximateNode) → p ∈ nodes → (o : ProximateNode) × Offered o × IsOf p o
  pub best :
      (o : ProximateNode)
      → Offered o
      → (p : ProximateNode) × (p ∈ nodes)
        × (p.neighbor_node_nbr ≡ o.neighbor_node_nbr)
        × NoWorse p o
  pub once : IsDistinct nodes

note_route-Lists :
    (nodes : List ProximateNode) (o : ProximateNode) (Offered : ProximateNode → Type 0)
    → Lists nodes Offered
    → Lists (note_route nodes o) (λ x. Offered x ⊎ (x ≡ o))
note_route-Lists nodes o Offered l = record {
  offered = λ p m. elim (note-member nodes o p m) [
    | inl old ↦ let (x, given, is) = l.offered p old in (x, inl given, is)
    | inr new ↦ (o, inr refl, new)
  ];
  best = λ x given. elim given [
    | inl before ↦
        let (p, m, nbr, no_worse) = l.best x before in
        let (q, mq, nbr', better) = note-old nodes o p m in
        (q, mq, nbr' ∙ nbr, NoWorse-trans q p x better no_worse)
    | inr e ↦
        let (q, mq, nbr, better) = note-new nodes o in (q, mq, ground (arith, e), ground (arith, e))
  ];
  once = note-IsDistinct nodes o l.once;
}

note_all-Lists :
    (offers nodes : List ProximateNode) (Offered : ProximateNode → Type 0)
    → Lists nodes Offered
    → Lists (foldl note_route nodes offers) (λ x. Offered x ⊎ x ∈ offers)
note_all-Lists [] nodes Offered l = record {
  offered = λ p m. let (x, given, is) = l.offered p m in (x, inl given, is);
  best =
      λ x given. elim given [ inl before ↦ l.best x before | inr none_there ↦ absurd none_there ];
  once = l.once;
}
note_all-Lists (o ∷ offers) nodes Offered l =
    let rest =
      note_all-Lists offers (note_route nodes o) (λ x. Offered x ⊎ (x ≡ o))
        (note_route-Lists nodes o Offered l) in
    record {
      offered = λ p m. let (x, given, is) = rest.offered p m in (x, ground arith, is);
      best = λ x given. rest.best x (ground arith);
      once = rest.once;
    }

-- When any routes have been noted one after the other, the list of neighbors holds each neighbor
-- once, each entry is that of one of the routes, and for each route there is an entry of its
-- neighbor that arrives earlier, or as early with no more hops.
pub note_routes-Lists :
    (offers : List ProximateNode) → Lists (foldl note_route [] offers) (λ o. o ∈ offers)
note_routes-Lists offers =
    let l =
      note_all-Lists offers [] (λ x. ⊥)
        (record { offered = λ p m. absurd m; best = λ o given. absurd given; once = tt }) in
    record {
      offered = λ p m. let (x, given, is) = l.offered p m in (x, ground arith, is);
      best = λ o given. l.best o (inr given);
      once = l.once;
    }
