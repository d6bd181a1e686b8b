-- ===== src/Cgr/Routes/Hops.antt =====
-- The hops of a journey: all are contacts that may be used, and the first leaves the root.
use cgr_jni.Base.{
  mem_last, ℕ, ◌≡◌, ◌⊎◌, inl, inr, refl, sym, ap, ◌∙◌, subst, List, [], ◌∷◌, ◌++◌, ◌∈◌, arith,
  false, some, ◌==◌, Bool-cases,
}
use cgr_jni.Plan.{Contact, Range}
use cgr_jni.Cgr.Note.{Notes}
use cgr_jni.Cgr.Dijkstra.Journey.{Journey, begin, hop, Usable}
use cgr_jni.Cgr.Routes.{limit_hop}

module _ (ranges : List Range) (index : List Contact) (notes : Notes) (payload_class : ℕ)
    (root : Contact) (start : ℕ) where
  pub Journey-hops :
      {c : Contact} {t : ℕ} {hops : List Contact} (h : Contact)
      → Journey ranges index notes payload_class root start c t hops
      → h ∈ hops
      → (h ∈ index) × Usable notes payload_class h
  Journey-hops h begin m = absurd m
  Journey-hops h (hop {hops = hops} c owlt journey way) m = elim (mem_last hops c h m) [
    | inl before ↦ Journey-hops h journey before
    | inr e ↦
        subst (λ z. (z ∈ index) × Usable notes payload_class z) (sym e) (way.member, way.usable)
  ]

  pub Journey-first :
      {c : Contact} {t : ℕ} {hops : List Contact}
      → Journey ranges index notes payload_class root start c t hops
      → ((hops ≡ []) × (c ≡ root))
        ⊎ ((first : Contact) × (rest : List Contact) × (hops ≡ first ∷ rest)
            × (first.from_node ≡ root.to_node))
  Journey-first begin = inl (refl, refl)
  Journey-first (hop {p = q} {hops = hops} c owlt journey way) = elim (Journey-first journey) [
    | inl (e, at) ↦ inr (
      c,
      [],
      ap (λ (z : List Contact). z ++ (c ∷ [])) e,
      way.joined ∙ ap (λ (z : Contact). z.to_node) at,
    )
    | inr (first, rest, e, leaves) ↦
        inr (first, rest ++ (c ∷ []), ap (λ (z : List Contact). z ++ (c ∷ [])) e, leaves)
  ]

  -- A journey is one whatever else is no longer suppressed.
  pub Journey-free :
      (notes' : Notes) {c : Contact} {t : ℕ} {hops : List Contact}
      → ((h : Contact)
          → h ∈ index
          → (notes h.addr).suppressed ≡ false
          → (notes' h.addr).suppressed ≡ false)
      → Journey ranges index notes payload_class root start c t hops
      → Journey ranges index notes' payload_class root start c t hops
  Journey-free notes' free begin = begin
  Journey-free notes' free (hop c owlt journey way) =
      hop c owlt (Journey-free notes' free journey) (record {
        member = way.member;
        joined = way.joined;
        open_at = way.open_at;
        usable = record {
          free = free c way.member way.usable.free;
          capacity = way.usable.capacity;
        };
        light_time = way.light_time;
      })

pub limit_hop-finds :
    (to_time : ℕ) (hops : List Contact) (h : Contact)
    → h ∈ hops
    → to_time ≡ h.to_time
    → (limit : Contact) × (limit_hop to_time hops ≡ some limit)
      × (limit ∈ hops)
      × (limit.to_time ≡ to_time)
unfolding limit_hop
limit_hop-finds to_time [] h m e = absurd m
limit_hop-finds to_time (x ∷ hops) h m e = elim (Bool-cases (x.to_time == to_time)) [
  | inl here ↦ rw (here, limit_hop) (x, refl, inl refl, ground arith)
  | inr past ↦
      rw (past, limit_hop)
        (elim m [
          | inl same ↦ absurd (ground (arith, same))
          | inr later ↦
              let (limit, found, mem, at) = limit_hop-finds to_time hops h later e in
              (limit, found, inr mem, at)
        ])
]
