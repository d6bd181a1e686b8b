-- ===== src/Cgr/Proximate/Probe.antt =====
-- The embargo probe that enqueueToNeighbor takes note of.
use cgr_jni.Base.{
  ℕ, ◌≡◌, ◌<◌, ◌⊎◌, ◌↔◌, inl, inr, refl, false, Bool-cases, ltb, List, [], ◌∷◌, ◌∈◌, All, All-mem,
  arith,
}
use cgr_jni.Cgr.Proximate.{Embargo, send_probe}
use cgr_jni.Cgr.Proximate.Excluded.{Embargoes}

-- In order of the node numbers, no node twice, as `addEmbargo` keeps them.
abbrev pub IsOrdered : List Embargo → Type 0
IsOrdered [] = Unit
IsOrdered (e ∷ es) = All (λ (x : Embargo). e.node_nbr < x.node_nbr) es × IsOrdered es

-- The node is embargoed, whether a probe is due or not.
abbrev pub Listed : ℕ → List Embargo → Type 0
Listed n es = (e : Embargo) × (e ∈ es) × (e.node_nbr ≡ n)

module _ (n m : ℕ) (e : Embargo) (es : List Embargo) where
  abbrev Claim : List Embargo → List Embargo → Type 0
  Claim after before = Embargoes m after ↔ (Embargoes m before ⊎ ((m ≡ n) × Listed n before))

  before_it : e.node_nbr < n → Claim (send_probe n es) es → Claim (e ∷ send_probe n es) (e ∷ es)
  before_it lt rest = (to, back)
    where
      to : Embargoes m (e ∷ send_probe n es) → Embargoes m (e ∷ es) ⊎ ((m ≡ n) × Listed n (e ∷ es))
      to (x, inl same, at, off) = inl (x, inl same, at, off)
      to (x, inr mx, at, off) = elim (rest.0 (x, mx, at, off)) [
        | inl (y, my, aty, offy) ↦ inl (y, inr my, aty, offy)
        | inr (eq, (y, my, aty)) ↦ inr (eq, (y, inr my, aty))
      ]

      onward : Embargoes m (send_probe n es) → Embargoes m (e ∷ send_probe n es)
      onward (x, mx, at, off) = (x, inr mx, at, off)

      back :
          Embargoes m (e ∷ es) ⊎ ((m ≡ n) × Listed n (e ∷ es)) → Embargoes m (e ∷ send_probe n es)
      back (inl (x, inl same, at, off)) = (x, inl same, at, off)
      back (inl (x, inr mx, at, off)) = onward (rest.1 (inl (x, mx, at, off)))
      back (inr (eq, (y, inl same, aty))) = absurd (ground (arith, same, aty))
      back (inr (eq, (y, inr my, aty))) = onward (rest.1 (inr (eq, (y, my, aty))))

  behind_it : n < e.node_nbr → IsOrdered (e ∷ es) → Claim (e ∷ es) (e ∷ es)
  behind_it lt ordered = (λ h. inl h, back)
    where
      back : Embargoes m (e ∷ es) ⊎ ((m ≡ n) × Listed n (e ∷ es)) → Embargoes m (e ∷ es)
      back (inl h) = h
      back (inr (eq, (y, inl same, aty))) = absurd (ground (arith, same, aty))
      back (inr (eq, (y, inr my, aty))) =
          absurd (
            omega
              (arith, aty, All-mem (λ (x : Embargo). e.node_nbr < x.node_nbr) y es ordered.0 my))

  at_it : e.node_nbr ≡ n → Claim (record e { probe_is_due = false } ∷ es) (e ∷ es)
  at_it here = (to, back)
    where
      to :
          Embargoes m (record e { probe_is_due = false } ∷ es)
          → Embargoes m (e ∷ es) ⊎ ((m ≡ n) × Listed n (e ∷ es))
      to (x, inl same, at, off) = inr (ground (arith, same, at), (e, inl refl, here))
      to (x, inr mx, at, off) = inl (x, inr mx, at, off)

      back :
          Embargoes m (e ∷ es) ⊎ ((m ≡ n) × Listed n (e ∷ es))
          → Embargoes m (record e { probe_is_due = false } ∷ es)
      back (inl (x, inl same, at, off)) =
          (record e { probe_is_due = false }, inl refl, ground (arith, same, at), refl)
      back (inl (x, inr mx, at, off)) = (x, inr mx, at, off)
      back (inr (eq, l)) = (record e { probe_is_due = false }, inl refl, omega arith, refl)

-- In an ordered list of embargoes, a node is kept off after `send_probe` exactly if it was kept off
-- before, or if it is the neighbor that the probe is for and is embargoed.
pub send_probe_iff :
    (n m : ℕ) (es : List Embargo)
    → IsOrdered es
    → Embargoes m (send_probe n es) ↔ (Embargoes m es ⊎ ((m ≡ n) × Listed n es))
unfolding send_probe
send_probe_iff n m [] ordered =
    (λ h. inl h, λ h. elim h [ inl there ↦ there | inr (eq, (y, my, at)) ↦ absurd my ])
send_probe_iff n m (e ∷ es) ordered = elim (Bool-cases (ltb e.node_nbr n)) [
  | inl lt ↦
      rw (lt, send_probe) (before_it n m e es (ground arith) (send_probe_iff n m es ordered.1))
  | inr ge ↦ elim (Bool-cases (ltb n e.node_nbr)) [
    | inl gt ↦ rw (ge, send_probe) (rw (gt, send_probe) (behind_it n m e es (ground arith) ordered))
    | inr le ↦ rw (ge, send_probe) (rw (le, send_probe) (at_it n m e es (ground arith)))
  ]
]
