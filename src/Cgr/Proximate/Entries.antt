-- ===== src/Cgr/Proximate/Entries.antt =====
-- What `tryRoute` does to the entries of the list of candidate neighbors.
use cgr_jni.Base.{
  ℕ, ◌≡◌, ◌≢◌, ◌≤◌, ◌⊎◌, inl, inr, refl, sym, ◌∙◌, subst, true, false, Bool-cases, ltb, ◌==◌, List,
  [], ◌∷◌, ◌∈◌, All, arith,
}
use cgr_jni.Base.Int.{◌<ℤ◌, ltb_ℤ, eqb_ℤ}
use cgr_jni.Cgr.Proximate.{ProximateNode, improve_node, note_route}

-- The entry is of this route, but for the directive, which stays that of the neighbor's first.
pub record IsOf (p offer : ProximateNode) : Type 0 where
  pub neighbor_node_nbr : p.neighbor_node_nbr ≡ offer.neighbor_node_nbr
  pub forfeit_time : p.forfeit_time ≡ offer.forfeit_time
  pub arrival_time : p.arrival_time ≡ offer.arrival_time
  pub overbooked : p.overbooked ≡ offer.overbooked
  pub protected : p.protected ≡ offer.protected
  pub hop_count : p.hop_count ≡ offer.hop_count

-- An earlier arrival, or as early with no more hops.
abbrev pub NoWorse : ProximateNode → ProximateNode → Type 0
NoWorse p q =
    (p.arrival_time <ℤ q.arrival_time)
    ⊎ ((p.arrival_time ≡ q.arrival_time) × (p.hop_count ≤ q.hop_count))

-- No neighbor twice.
abbrev pub IsDistinct : List ProximateNode → Type 0
IsDistinct [] = Unit
IsDistinct (p ∷ ps) =
    All (λ (q : ProximateNode). p.neighbor_node_nbr ≢ q.neighbor_node_nbr) ps × IsDistinct ps

pub IsOf-refl : (p : ProximateNode) → IsOf p p
IsOf-refl p = record {
  neighbor_node_nbr = refl;
  forfeit_time = refl;
  arrival_time = refl;
  overbooked = refl;
  protected = refl;
  hop_count = refl;
}

pub improve_node_lem :
    (p o : ProximateNode)
    → p.neighbor_node_nbr ≡ o.neighbor_node_nbr
    → ((improve_node p o ≡ p) ⊎ IsOf (improve_node p o) o)
      × NoWorse (improve_node p o) p
      × NoWorse (improve_node p o) o
      × ((improve_node p o).neighbor_node_nbr ≡ o.neighbor_node_nbr)
unfolding improve_node
improve_node_lem p o e = elim (Bool-cases (ltb_ℤ o.arrival_time p.arrival_time)) [
  | inl sooner ↦ rw sooner (
    inr (record {
      neighbor_node_nbr = e;
      forfeit_time = refl;
      arrival_time = refl;
      overbooked = refl;
      protected = refl;
      hop_count = refl;
    }),
    ground arith,
    ground arith,
    e,
  )
  | inr not_sooner ↦ rw not_sooner (elim (Bool-cases (eqb_ℤ o.arrival_time p.arrival_time)) [
    | inl level ↦ rw level (elim (Bool-cases (ltb o.hop_count p.hop_count)) [
      | inl shorter ↦ rw shorter (
        inr (record {
          neighbor_node_nbr = e;
          forfeit_time = refl;
          arrival_time = ground arith;
          overbooked = refl;
          protected = refl;
          hop_count = refl;
        }),
        ground arith,
        ground arith,
        e,
      )
      | inr not_shorter ↦ rw not_shorter (inl refl, ground arith, ground arith, e)
    ])
    | inr later ↦ rw later (inl refl, ground arith, ground arith, e)
  ])
]

pub note-nil : (o : ProximateNode) → note_route [] o ≡ o ∷ []
unfolding note_route
note-nil o = refl

pub note-hit :
    (x : ProximateNode) (nodes : List ProximateNode) (o : ProximateNode)
    → (x.neighbor_node_nbr == o.neighbor_node_nbr) ≡ true
    → note_route (x ∷ nodes) o ≡ improve_node x o ∷ nodes
unfolding note_route
note-hit x nodes o e = rw (e, note_route) refl

pub note-miss :
    (x : ProximateNode) (nodes : List ProximateNode) (o : ProximateNode)
    → (x.neighbor_node_nbr == o.neighbor_node_nbr) ≡ false
    → note_route (x ∷ nodes) o ≡ x ∷ note_route nodes o
unfolding note_route
note-miss x nodes o e = rw (e, note_route) refl

-- An entry of the new list is an old one or that of the route.
pub note-member :
    (nodes : List ProximateNode) (o p : ProximateNode)
    → p ∈ note_route nodes o
    → (p ∈ nodes) ⊎ IsOf p o
note-member [] o p m = first (subst (λ l. p ∈ l) (note-nil o) m)
  where
    first : p ∈ o ∷ [] → (p ∈ []) ⊎ IsOf p o
    first (inl e) = inr (subst (λ q. IsOf q o) (sym e) (IsOf-refl o))
    first (inr n) = absurd n
note-member (x ∷ nodes) o p m = elim (Bool-cases (x.neighbor_node_nbr == o.neighbor_node_nbr)) [
  | inl same ↦ elim (subst (λ l. p ∈ l) (note-hit x nodes o same) m) [
    | inl e ↦ elim (improve_node_lem x o (ground arith)).0 [
      | inl kept ↦ inl (inl (e ∙ kept))
      | inr new ↦ inr (subst (λ q. IsOf q o) (sym e) new)
    ]
    | inr n ↦ inl (inr n)
  ]
  | inr other ↦ elim (subst (λ l. p ∈ l) (note-miss x nodes o other) m) [
    | inl e ↦ inl (inl e)
    | inr n ↦ elim (note-member nodes o p n) [ inl old ↦ inl (inr old) | inr new ↦ inr new ]
  ]
]

-- For each old entry there is one for the same neighbor that is no worse.
pub note-old :
    (nodes : List ProximateNode) (o p : ProximateNode)
    → p ∈ nodes
    → (q : ProximateNode) × (q ∈ note_route nodes o)
      × (q.neighbor_node_nbr ≡ p.neighbor_node_nbr)
      × NoWorse q p
note-old [] o p m = absurd m
note-old (x ∷ nodes) o p m = elim (Bool-cases (x.neighbor_node_nbr == o.neighbor_node_nbr)) [
  | inl same ↦
      let (either, no_worse, better, nbr) = improve_node_lem x o (ground arith) in
      elim m [
        | inl e ↦ (
          improve_node x o,
          subst (λ l. improve_node x o ∈ l) (sym (note-hit x nodes o same)) (inl refl),
          ground (arith, e),
          ground (arith, e),
        )
        | inr n ↦
            (p, subst (λ l. p ∈ l) (sym (note-hit x nodes o same)) (inr n), refl, ground arith)
      ]
  | inr other ↦ elim m [
    | inl e ↦ (
      x,
      subst (λ l. x ∈ l) (sym (note-miss x nodes o other)) (inl refl),
      ground (arith, e),
      ground (arith, e),
    )
    | inr n ↦
        let (q, mq, nbr, no_worse) = note-old nodes o p n in
        (q, subst (λ l. q ∈ l) (sym (note-miss x nodes o other)) (inr mq), nbr, no_worse)
  ]
]

-- There is an entry for the neighbor of the route that is no worse than the route.
pub note-new :
    (nodes : List ProximateNode) (o : ProximateNode)
    → (q : ProximateNode) × (q ∈ note_route nodes o)
      × (q.neighbor_node_nbr ≡ o.neighbor_node_nbr)
      × NoWorse q o
note-new [] o = (o, subst (λ l. o ∈ l) (sym (note-nil o)) (inl refl), refl, ground arith)
note-new (x ∷ nodes) o = elim (Bool-cases (x.neighbor_node_nbr == o.neighbor_node_nbr)) [
  | inl same ↦
      let (either, no_worse, better, nbr) = improve_node_lem x o (ground arith) in
      (
        improve_node x o,
        subst (λ l. improve_node x o ∈ l) (sym (note-hit x nodes o same)) (inl refl),
        nbr,
        better,
      )
  | inr other ↦
      let (q, mq, nbr, better) = note-new nodes o in
      (q, subst (λ l. q ∈ l) (sym (note-miss x nodes o other)) (inr mq), nbr, better)
]

-- Neighbors other than that of the route stay as they are.
pub note-All :
    (nbr : ℕ) (nodes : List ProximateNode) (o : ProximateNode)
    → nbr ≢ o.neighbor_node_nbr
    → All (λ (q : ProximateNode). nbr ≢ q.neighbor_node_nbr) nodes
    → All (λ (q : ProximateNode). nbr ≢ q.neighbor_node_nbr) (note_route nodes o)
note-All nbr [] o ne all =
    subst (All (λ (q : ProximateNode). nbr ≢ q.neighbor_node_nbr)) (sym (note-nil o)) (ne, tt)
note-All nbr (x ∷ nodes) o ne all = elim (Bool-cases (x.neighbor_node_nbr == o.neighbor_node_nbr)) [
  | inl same ↦
      subst (All (λ (q : ProximateNode). nbr ≢ q.neighbor_node_nbr)) (sym (note-hit x nodes o same))
        (ground (arith, ne, improve_node_lem x o), all.1)
  | inr other ↦
      subst (All (λ (q : ProximateNode). nbr ≢ q.neighbor_node_nbr))
        (sym (note-miss x nodes o other)) (all.0, note-All nbr nodes o ne all.1)
]

pub note-IsDistinct :
    (nodes : List ProximateNode) (o : ProximateNode)
    → IsDistinct nodes
    → IsDistinct (note_route nodes o)
note-IsDistinct [] o once = subst IsDistinct (sym (note-nil o)) (tt, tt)
note-IsDistinct (x ∷ nodes) o once =
    elim (Bool-cases (x.neighbor_node_nbr == o.neighbor_node_nbr)) [
      | inl same ↦
          let nbr : (improve_node x o).neighbor_node_nbr ≡ x.neighbor_node_nbr =
            ground (arith, improve_node_lem x o) in
          subst IsDistinct (sym (note-hit x nodes o same)) (
            subst (λ n. All (λ (q : ProximateNode). n ≢ q.neighbor_node_nbr) nodes) (sym nbr)
                once.0,
            once.1,
          )
      | inr other ↦ subst IsDistinct (sym (note-miss x nodes o other)) (
        note-All x.neighbor_node_nbr nodes o (ground arith) once.0,
        note-IsDistinct nodes o once.1,
      )
    ]

pub NoWorse-trans : (p q r : ProximateNode) → NoWorse p q → NoWorse q r → NoWorse p r
NoWorse-trans p q r a b = ground arith
