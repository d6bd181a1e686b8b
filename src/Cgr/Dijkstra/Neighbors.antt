-- ===== src/Cgr/Dijkstra/Neighbors.antt =====
-- The contacts that the neighbor loop of computeDistanceToTerminus runs over.
use Prim.Native.Nat.{Ordering}
use cgr_jni.Base.{
  ℕ, ◌≡◌, ◌≢◌, ◌≤◌, ◌<◌, ◌↔◌, inl, inr, not, ltb, List, [], ◌∷◌, ◌∈◌, All, All-mem, take_while,
  arith,
}
use cgr_jni.Plan.{Key, Contact, contact_key, order_keys, order_contacts, successors}
use cgr_jni.Plan.Order.{◌≺◌, from_node-le}
use cgr_jni.Plan.Index.{IsSorted, successors-behind, successors-complete, successors-IsSorted}
use cgr_jni.Cgr.Dijkstra.{contacts_from}

-- The index is in order, and no contact starts at time 0 (`rfx_insert_contact` refuses that).
pub record IsContactIndex (index : List Contact) : Type 0 where
  pub sorted : IsSorted contact_key index
  pub started : All (λ (c : Contact). 0 < c.from_time) index

module _ (node : ℕ) where
  abbrev until_past : List Contact → List Contact
  until_past = take_while (λ (c : Contact). not (ltb node c.from_node))

  until_past-mem :
      (cs : List Contact) (c : Contact) → c ∈ until_past cs → (c ∈ cs) × (c.from_node ≤ node)
  until_past-mem [] c m = absurd m
  until_past-mem (x ∷ cs) c m = ground (arith, until_past-mem cs c)

  until_past-complete :
      (cs : List Contact) (c : Contact)
      → IsSorted contact_key cs
      → c ∈ cs
      → c.from_node ≡ node
      → c ∈ until_past cs
  until_past-complete [] c s m e = absurd m
  until_past-complete (x ∷ cs) c s (inl eq) e = ground arith
  until_past-complete (x ∷ cs) c s (inr m) e =
      let later = All-mem (λ (y : Contact). contact_key x ≺ contact_key y) c cs s.0 m in
      ground (
        arith,
        until_past-complete cs c s.1 m e,
        from_node-le (contact_key x) (contact_key c) later,
      )

  not_start :
      (cs : List Contact)
      → All (λ (c : Contact). 0 < c.from_time) cs
      → All
          (λ c.
            order_keys (contact_key c) (record { from_node = node; to_node = 0; from_time = 0 })
            ≢ Ordering.eq)
          cs
  unfolding order_keys
  not_start [] h = tt
  not_start (c ∷ cs) h = (ground (arith, h.0), not_start cs h.1)

  behind_start :
      (c : Contact)
      → 0 < c.from_time
      → c.from_node ≡ node
      → record { from_node = node; to_node = 0; from_time = 0 } ≺ contact_key c
  unfolding order_keys
  behind_start c p e = ground arith

  from-ge :
      (c : Contact)
      → record { from_node = node; to_node = 0; from_time = 0 } ≺ contact_key c
      → node ≤ c.from_node
  unfolding order_keys
  from-ge c p = ground arith

-- In an ordered index `contacts_from` holds exactly the contacts whose sending node is `node`.
pub contacts_from_iff :
    (index : List Contact) (node : ℕ) (c : Contact)
    → IsContactIndex index
    → (c ∈ contacts_from index node) ↔ ((c ∈ index) × (c.from_node ≡ node))
unfolding contacts_from
contacts_from_iff index node c i = (to, back)
  where
    arg : Key
    arg = record { from_node = node; to_node = 0; from_time = 0 }

    to :
        c ∈ until_past node (successors order_contacts arg index)
        → (c ∈ index) × (c.from_node ≡ node)
    to m =
        let (m', le) = until_past-mem node (successors order_contacts arg index) c m in
        let (m'', behind) = successors-behind contact_key arg index c i.sorted m' in
        (m'', omega (arith, from-ge node c behind))

    back :
        (c ∈ index) × (c.from_node ≡ node)
        → c ∈ until_past node (successors order_contacts arg index)
    back (m, e) =
        until_past-complete node (successors order_contacts arg index) c
          (successors-IsSorted contact_key arg index i.sorted)
          (successors-complete contact_key arg index c i.sorted (not_start node index i.started) m (
            behind_start node c (All-mem (λ (c : Contact). 0 < c.from_time) c index i.started m) e))
          e
