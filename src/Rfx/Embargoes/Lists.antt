-- ===== src/Rfx/Embargoes/Lists.antt =====
-- The list of embargoes of a node: addEmbargo and removeEmbargo.
use cgr_jni.Base.{
  ℕ, ◌≡◌, ◌<◌, ◌⊎◌, ◌↔◌, ◌∙◌, inl, inr, refl, sym, ap, true, false, ltb, Bool-cases, List, [], ◌∷◌,
  ◌∈◌, All, All-mem, arith,
}
use mathlib.Core.Bool.{false≢true}
use cgr_jni.Cgr.Proximate.{Embargo}
use cgr_jni.Cgr.Proximate.Excluded.{Embargoes}
use cgr_jni.Cgr.Proximate.Probe.{IsOrdered, Listed}
use cgr_jni.Rfx.{Node, Probe, Ion, Env, find_neighbor}
use cgr_jni.Rfx.Embargoes.Probes.{IsInTime, insert_probe_lem}
use cgr_jni.Rfx.Embargoes.{
  has_embargo, insert_embargo, delete_embargo, probe_time, post_probe_event, add_embargo,
  remove_embargo,
}

insert_embargo-All :
    (P : Embargo → Type 0) (e : Embargo) (es : List Embargo)
    → P e
    → All P es
    → All P (insert_embargo e es)
unfolding insert_embargo
insert_embargo-All P e [] p h = (p, tt)
insert_embargo-All P e (x ∷ es) p h = ground (arith, insert_embargo-All P e es p h.1)

insert_embargo_iff :
    (e : Embargo) (es : List Embargo) (x : Embargo) → (x ∈ insert_embargo e es) ↔ ((x ≡ e) ⊎ x ∈ es)
unfolding insert_embargo
insert_embargo_iff e [] x = (λ h. h, λ h. h)
insert_embargo_iff e (y ∷ es) x = ground (arith, insert_embargo_iff e es x)

above :
    (n : ℕ) (e : Embargo) (es : List Embargo)
    → All (λ (x : Embargo). e.node_nbr < x.node_nbr) es
    → n < e.node_nbr
    → All (λ (x : Embargo). n < x.node_nbr) es
above n e [] h p = tt
above n e (x ∷ es) h p = (omega (arith, h.0, p), above n e es h.1 p)

insert_embargo-IsOrdered :
    (e : Embargo) (es : List Embargo)
    → IsOrdered es
    → has_embargo e.node_nbr es ≡ false
    → IsOrdered (insert_embargo e es)
unfolding insert_embargo has_embargo
insert_embargo-IsOrdered e [] o n = (tt, tt)
insert_embargo-IsOrdered e (x ∷ es) o n = ground (
  arith,
  insert_embargo-IsOrdered e es o.1,
  insert_embargo-All (λ (z : Embargo). x.node_nbr < z.node_nbr) e es,
  above e.node_nbr x es o.0,
)

delete_embargo-insert_embargo :
    (e : Embargo) (es : List Embargo) → delete_embargo e.node_nbr (insert_embargo e es) ≡ es
unfolding insert_embargo delete_embargo
delete_embargo-insert_embargo e [] = ground arith
delete_embargo-insert_embargo e (x ∷ es) = ground (arith, delete_embargo-insert_embargo e es)

has_embargo_iff :
    (n : ℕ) (es : List Embargo) → IsOrdered es → (has_embargo n es ≡ true) ↔ Listed n es
unfolding has_embargo
has_embargo_iff n [] o = (λ h. cc, λ (x, m, e). absurd m)
has_embargo_iff n (x ∷ es) o = (to (has_embargo_iff n es o.1), back (has_embargo_iff n es o.1))
  where
    to : (has_embargo n es ≡ true) ↔ Listed n es → has_embargo n (x ∷ es) ≡ true → Listed n (x ∷ es)
    to rest h = elim (Bool-cases (ltb x.node_nbr n)) [
      | inl less ↦ let (y, m, e) = rest.0 (ground arith) in (y, inr m, e)
      | inr more ↦ (x, inl refl, ground arith)
    ]

    back :
        (has_embargo n es ≡ true) ↔ Listed n es → Listed n (x ∷ es) → has_embargo n (x ∷ es) ≡ true
    back rest (y, inl same, e) = ground (arith, ap (λ z. z.node_nbr) same)
    back rest (y, inr m, e) =
        ground
          (arith, rest.1 (y, m, e), All-mem (λ (z : Embargo). x.node_nbr < z.node_nbr) y es o.0 m)

Embargoes-insert :
    (n m : ℕ) (es : List Embargo)
    → Embargoes m (insert_embargo (record { node_nbr = n; probe_is_due = false }) es)
      ↔ (Embargoes m es ⊎ (m ≡ n))
Embargoes-insert n m es = (
  λ (x, x_in, at, off). elim ((insert_embargo_iff _ es x).0 x_in) [
    | inl e ↦ inr (sym at ∙ ap (λ z. z.node_nbr) e)
    | inr old ↦ inl (x, old, at, off)
  ],
  λ h. elim h [
    | inl (x, x_in, at, off) ↦ (x, (insert_embargo_iff _ es x).1 (inr x_in), at, off)
    | inr e ↦ (_, (insert_embargo_iff _ es _).1 (inl refl), sym e, refl)
  ],
)

-- With the embargoes of the node in order of number and the probes in order of time, `addEmbargo`
-- keeps both orders. A neighbor that is listed already stays as it is. Another one is embargoed, with
-- no probe due, a probe for it is posted, and `removeEmbargo` undoes the addition to the list.
pub add_embargo_lem :
    (env : Env) (node : Node) (n : ℕ) (s : Ion)
    → IsOrdered node.embargoes
    → IsInTime s.probes
    → let (node', s') = add_embargo env node n s in
      IsOrdered node'.embargoes
      × IsInTime s'.probes
      × ((Listed n node.embargoes × (node' ≡ node) × (s' ≡ s))
          ⊎ (¬ Listed n node.embargoes
              × ((m : ℕ) → Embargoes m node'.embargoes ↔ (Embargoes m node.embargoes ⊎ (m ≡ n)))
              × (remove_embargo node' n ≡ node)
              × ((p : Probe) × (p ∈ s'.probes)
                  × (p.dest_node_nbr ≡ node.node_nbr)
                  × (p.neighbor_node_nbr ≡ n))))
unfolding add_embargo remove_embargo post_probe_event
add_embargo_lem env node n s o t = elim (Bool-cases (has_embargo n node.embargoes)) [
  | inl old ↦
      rw (old, add_embargo) (o, t, inl ((has_embargo_iff n node.embargoes o).0 old, refl, refl))
  | inr new ↦
      rw (new, add_embargo)
        (
          insert_embargo-IsOrdered _ node.embargoes o new,
          (insert_probe_lem posted s.probes t).0,
          inr (
            λ l. false≢true (sym new ∙ (has_embargo_iff n node.embargoes o).1 l),
            λ m. Embargoes-insert n m node.embargoes,
            ap (λ es. record node { embargoes = es })
                (delete_embargo-insert_embargo _ node.embargoes),
            (posted, ((insert_probe_lem posted s.probes t).1 posted).1 (inl refl), refl, refl),
          ),
        )
]
  where
    posted : Probe
    posted = record {
      dest_node_nbr = node.node_nbr;
      neighbor_node_nbr = n;
      time = probe_time env (find_neighbor s.neighbors n);
    }
