-- ===== src/Rfx/RangePairs.antt =====
-- rfx_insert_range on a canonical range, and the two directions.
use cgr_jni.Base.{
  ℕ, ◌≡◌, ◌≢◌, ◌<◌, ◌⊎◌, inl, inr, refl, sym, ap, Bool, true, false, not, ◌&&◌, if◌then◌else◌, ltb,
  ◌==◌, Option, none, some, List, arith, ◌∙◌,
}
use cgr_jni.Plan.{Key, order_keys}
use cgr_jni.Rbt.{successors}
use cgr_jni.Rbt.Change
use cgr_jni.Rbt.Lookup
use cgr_jni.Rfx.{Rxref, Ion, Env, rxref_key, order_rxrefs}
use cgr_jni.Plan.Order.{order_keys-IsOrder}
use cgr_jni.Rfx.Ranges.{
  assert_range, reverse_range, impute_range, insert_rxref, range_arg, range_overlaps, enter_range,
  drop_imputed, check_range, insert_range,
}
use cgr_jni.Rfx.RangeIndex.{IsRangePlan, lookup_range, assert_range-IsRangePlan}

module _ (from_node to_node from_time : ℕ) where
  abbrev forth : Key
  forth = record { from_node = from_node; to_node = to_node; from_time = from_time }

  abbrev back : Key
  back = record { from_node = to_node; to_node = from_node; from_time = from_time }

  -- After the call the range is asserted; the reverse is what it was, or imputed from the range.
  abbrev pub Pairs : ℕ → ℕ → Ion → Ion → Type 0
  Pairs to_time owlt s u =
      (r : Rxref) × (lookup_range u from_node to_node from_time ≡ some r)
      × (r.to_time ≡ to_time)
      × (r.owlt ≡ owlt)
      × (r.range_elt ≢ 0)
      × (y : Rxref) × (lookup_range u to_node from_node from_time ≡ some y)
      × ((lookup_range s to_node from_node from_time ≡ some y)
          ⊎ ((lookup_range s to_node from_node from_time ≡ none)
              × (y.to_time ≡ to_time)
              × (y.owlt ≡ owlt)
              × (y.range_elt ≡ 0)))

insert_rxref-Pairs :
    (env : Env) (x : Rxref) (s : Ion)
    → IsRangePlan s.range_index
    → lookup_range s x.from_node x.to_node x.from_time ≡ none
    → (0 < x.from_time) × (x.from_time < x.to_time)
    → x.from_node < x.to_node
    → x.range_elt ≢ 0
    → Pairs x.from_node x.to_node x.from_time x.to_time x.owlt s (insert_rxref env x s).1
unfolding insert_rxref assert_range impute_range reverse_range
insert_rxref-Pairs env x s h e p c n =
    rw (not_back, insert_rxref) (go (lookup_range t x.to_node x.from_node x.from_time) refl)
  where
    not_back : ltb x.to_node x.from_node ≡ false
    not_back = ground arith

    t : Ion
    t = assert_range env x s

    y : Rxref
    y = reverse_range x t.next_addr

    x' : Rxref
    x' = record x { addr = s.next_addr }

    plan : IsRangePlan t.range_index
    plan = assert_range-IsRangePlan env x s h e p

    other : rxref_key y ≢ rxref_key x
    other k = omega (arith, c, ap (λ z. z.from_node) k)

    found : lookup_range t x.from_node x.to_node x.from_time ≡ some x'
    found = Change.find-insert order_keys rxref_key order_keys-IsOrder x' s.range_index

    before :
        lookup_range t x.to_node x.from_node x.from_time
        ≡ lookup_range s x.to_node x.from_node x.from_time
    before =
        Lookup.find-insert_ne order_keys rxref_key order_keys-IsOrder (rxref_key y) x' s.range_index
          h.sorted e other

    go :
        (f : Option Rxref)
        → lookup_range t x.to_node x.from_node x.from_time ≡ f
        → Pairs x.from_node x.to_node x.from_time x.to_time x.owlt s
            (elim f as (λ _. ℕ × Ion) [
              | some _ ↦ (s.next_addr, t)
              | none ↦ (s.next_addr, impute_range x t)
            ]).1
    go (some z) f = (x', found, refl, refl, n, z, f, inl (sym before ∙ f))
    go none f = (
      x',
      Lookup.find-insert_ne order_keys rxref_key order_keys-IsOrder (rxref_key x) y t.range_index
            plan.sorted f (λ k. other (sym k))
          ∙ found,
      refl,
      refl,
      n,
      y,
      Change.find-insert order_keys rxref_key order_keys-IsOrder y t.range_index,
      inr (sym before ∙ f, refl, refl, refl),
    )

-- With the range index in order, a range from a smaller to a greater node number that is new there
-- and is not refused is asserted with its light time; the reverse direction keeps the range that it
-- has from that start on, and otherwise gets an imputed one with the same end and light time.
pub insert_range-Pairs :
    (env : Env) (from_time to_time from_node to_node owlt : ℕ) (s : Ion)
    → IsRangePlan s.range_index
    → 0 < s.next_elt
    → from_node < to_node
    → lookup_range s from_node to_node from_time ≡ none
    → (insert_range env from_time to_time from_node to_node owlt s).0 ≢ 0
    → Pairs from_node to_node from_time to_time owlt s
        (insert_range env from_time to_time from_node to_node owlt s).1
unfolding insert_range check_range enter_range
insert_range-Pairs env from_time to_time from_node to_node owlt s h elt c e accepted =
    go valid refl (lookup_range s from_node to_node from_time) e
      (range_overlaps arg next s.range_index) accepted
  where
    arg : Rxref
    arg = range_arg from_time to_time from_node to_node owlt

    next : List Rxref
    next = successors order_rxrefs (rxref_key arg) s.range_index

    valid : Bool
    valid = ltb 0 from_time && ltb from_time to_time && ltb 0 from_node && ltb 0 to_node

    answer : Bool → Option Rxref → Bool → ℕ × Ion
    answer v f b = if not v then (0, s) else elim f [
      | some rxref ↦
          if rxref.range_elt == 0
          then check_range env arg next (drop_imputed rxref s)
          else if rxref.owlt == owlt
          then (rxref.addr, s)
          else (0, s)
      | none ↦ if b then (0, s) else enter_range env arg s
    ]

    entered :
        (0 < from_time) × (from_time < to_time)
        → Pairs from_node to_node from_time to_time owlt s (enter_range env arg s).1
    entered p =
        insert_rxref-Pairs env (record arg { range_elt = s.next_elt }) _
          (record { sorted = h.sorted; proper = h.proper }) e p c (λ k. omega (arith, k, elt))

    go :
        (v : Bool)
        → valid ≡ v
        → (f : Option Rxref) → f ≡ none
        → (b : Bool) → (answer v f b).0 ≢ 0
        → Pairs from_node to_node from_time to_time owlt s (answer v f b).1
    go false v f n b accepted = absurd (accepted refl)
    go true v (some r) n b accepted = cc
    go true v none n true accepted = absurd (accepted refl)
    go true v none n false accepted = entered (ground arith)
