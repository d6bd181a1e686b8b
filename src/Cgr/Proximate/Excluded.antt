-- ===== src/Cgr/Proximate/Excluded.antt =====
-- isExcluded, excludeNode and the nodes that cgrForward excludes.
use cgr_jni.Base.{
  ℕ, ◌≡◌, ◌⊎◌, ◌↔◌, inl, inr, refl, Bool, true, false, if◌then◌else◌, ◌==◌, List, [], ◌∷◌, ◌++◌,
  ◌∈◌, arith,
}
use cgr_jni.Cgr.Proximate.{Embargo, is_excluded, exclude_node, exclude_embargoed, excluded_nodes_of}

excluded-append :
    (n m : ℕ) (nodes : List ℕ)
    → is_excluded n (nodes ++ (m ∷ [])) ≡ (if m == n then true else is_excluded n nodes)
unfolding is_excluded
excluded-append n m [] = refl
excluded-append n m (x ∷ nodes) = ground (arith, excluded-append n m nodes)

-- The embargo keeps bundles off the node.
abbrev pub Embargoes : ℕ → List Embargo → Type 0
Embargoes n embargoes =
    (e : Embargo) × (e ∈ embargoes) × (e.node_nbr ≡ n) × (e.probe_is_due ≡ false)

excluded_step :
    (n : ℕ) (e : Embargo) (nodes : List ℕ)
    → (is_excluded n (if e.probe_is_due then nodes else exclude_node nodes e.node_nbr) ≡ true)
      ↔ ((is_excluded n nodes ≡ true) ⊎ ((e.node_nbr ≡ n) × (e.probe_is_due ≡ false)))
unfolding exclude_node
excluded_step n e nodes = ground (arith, excluded-append n e.node_nbr nodes)

excluded-embargoed :
    (n : ℕ) (embargoes : List Embargo) (nodes : List ℕ)
    → (is_excluded n (exclude_embargoed nodes embargoes) ≡ true)
      ↔ ((is_excluded n nodes ≡ true) ⊎ Embargoes n embargoes)
unfolding exclude_embargoed exclude_node
excluded-embargoed n [] nodes =
    (λ h. inl h, λ h. elim h [ inl before ↦ before | inr (e, m, at, off) ↦ absurd m ])
excluded-embargoed n (e ∷ embargoes) nodes =
    let rest =
      excluded-embargoed n embargoes
        (if e.probe_is_due then nodes else exclude_node nodes e.node_nbr) in
    (to rest, back rest)
  where
    nodes' : List ℕ
    nodes' = if e.probe_is_due then nodes else exclude_node nodes e.node_nbr

    to :
        ((is_excluded n (exclude_embargoed nodes' embargoes) ≡ true)
          ↔ ((is_excluded n nodes' ≡ true) ⊎ Embargoes n embargoes))
        → is_excluded n (exclude_embargoed nodes' embargoes) ≡ true
        → (is_excluded n nodes ≡ true) ⊎ Embargoes n (e ∷ embargoes)
    to rest h = elim (rest.0 h) [
      | inl before ↦ elim ((excluded_step n e nodes).0 before) [
        | inl old ↦ inl old
        | inr (at, off) ↦ inr (e, inl refl, at, off)
      ]
      | inr (x, m, at, off) ↦ inr (x, inr m, at, off)
    ]

    back :
        ((is_excluded n (exclude_embargoed nodes' embargoes) ≡ true)
          ↔ ((is_excluded n nodes' ≡ true) ⊎ Embargoes n embargoes))
        → (is_excluded n nodes ≡ true) ⊎ Embargoes n (e ∷ embargoes)
        → is_excluded n (exclude_embargoed nodes' embargoes) ≡ true
    back rest (inl old) = rest.1 (inl ((excluded_step n e nodes).1 (inl old)))
    back rest (inr (x, inl same, at, off)) =
        rest.1
          (inl ((excluded_step n e nodes).1 (inr (ground (arith, same), ground (arith, same)))))
    back rest (inr (x, inr m, at, off)) = rest.1 (inr (x, m, at, off))

-- A node is excluded exactly if it is the sender of a bundle that does not return to its sender,
-- or if it is embargoed and no probe of it is due.
pub is_excluded_iff :
    (n : ℕ) (return_to_sender : Bool) (sender_node_nbr : ℕ) (embargoes : List Embargo)
    → (is_excluded n (excluded_nodes_of return_to_sender sender_node_nbr embargoes) ≡ true)
      ↔ (((return_to_sender ≡ false) × (n ≡ sender_node_nbr)) ⊎ Embargoes n embargoes)
unfolding excluded_nodes_of exclude_node is_excluded
is_excluded_iff n return_to_sender sender_node_nbr embargoes = (
  λ h. elim ((excluded-embargoed n embargoes senders).0 h) [
    | inl sender ↦ inl (senders_iff.0 sender)
    | inr embargoed ↦ inr embargoed
  ],
  λ h. elim h [
    | inl sender ↦ (excluded-embargoed n embargoes senders).1 (inl (senders_iff.1 sender))
    | inr embargoed ↦ (excluded-embargoed n embargoes senders).1 (inr embargoed)
  ],
)
  where
    senders : List ℕ
    senders = if return_to_sender then [] else exclude_node [] sender_node_nbr

    senders_iff :
        (is_excluded n senders ≡ true) ↔ ((return_to_sender ≡ false) × (n ≡ sender_node_nbr))
    senders_iff = ground arith
