-- ===== src/Rfx/RangeIndex.antt =====
-- The range index under insertions and deletions.
use cgr_jni.Base.{
  ℕ, ◌≡◌, ◌<◌, inl, inr, refl, sym, subst, Bool, true, false, not, ◌&&◌, if◌then◌else◌, ltb, ◌==◌,
  Option, none, some, List, ◌∈◌, arith,
}
use cgr_jni.Plan.{Key, order_keys}
use cgr_jni.Rbt.{find, successors, insert, delete}
use cgr_jni.Rbt.Change
use cgr_jni.Rbt.Lookup
use cgr_jni.Rbt.Sorted
use cgr_jni.Rfx.{Rxref, Ion, Env, rxref_key, order_rxrefs}
use cgr_jni.Plan.Order.{order_keys-IsOrder}
use cgr_jni.Rfx.Ranges.{
  assert_range, reverse_range, impute_range, insert_rxref, range_arg, range_overlaps, enter_range,
  drop_imputed, check_range, insert_range,
}

-- In order, and each range proper.
pub record IsRangePlan (index : List Rxref) : Type 0 where
  pub sorted : Sorted.IsSorted order_keys rxref_key index
  pub proper : (r : Rxref) → r ∈ index → (0 < r.from_time) × (r.from_time < r.to_time)

abbrev pub insert_range_at : Rxref → List Rxref → List Rxref
insert_range_at x = insert order_rxrefs (rxref_key x) x

abbrev pub lookup_range : Ion → ℕ → ℕ → ℕ → Option Rxref
lookup_range s from_node to_node from_time =
    find order_rxrefs (record { from_node = from_node; to_node = to_node; from_time = from_time })
      s.range_index

pub insert_range_at-IsRangePlan :
    (x : Rxref) (index : List Rxref)
    → IsRangePlan index
    → find order_rxrefs (rxref_key x) index ≡ none
    → (0 < x.from_time) × (x.from_time < x.to_time)
    → IsRangePlan (insert_range_at x index)
insert_range_at-IsRangePlan x index h e p = record {
  sorted = Change.insert-IsSorted order_keys rxref_key order_keys-IsOrder x index h.sorted e;
  proper = λ r m.
      elim ((Change.insert_iff order_keys rxref_key order_keys-IsOrder (rxref_key x) x index r).0
        m) [
          | inl same ↦ subst (λ z. (0 < z.from_time) × (z.from_time < z.to_time)) (sym same) p
          | inr old ↦ h.proper r old
        ];
}

pub delete_range_at-IsRangePlan :
    (key : Key) (index : List Rxref)
    → IsRangePlan index
    → IsRangePlan (delete order_rxrefs key index)
delete_range_at-IsRangePlan key index h = record {
  sorted = Change.delete-IsSorted order_keys rxref_key order_keys-IsOrder key index h.sorted;
  proper = λ r m.
      h.proper r
        ((Change.delete_iff order_keys rxref_key order_keys-IsOrder key index r h.sorted).0 m).0;
}

pub assert_range-IsRangePlan :
    (env : Env) (x : Rxref) (s : Ion)
    → IsRangePlan s.range_index
    → find order_rxrefs (rxref_key x) s.range_index ≡ none
    → (0 < x.from_time) × (x.from_time < x.to_time)
    → IsRangePlan (assert_range env x s).range_index
unfolding assert_range
assert_range-IsRangePlan env x s h e p =
    insert_range_at-IsRangePlan (record x { addr = s.next_addr }) s.range_index h e p

pub impute_range-IsRangePlan :
    (x : Rxref) (s : Ion)
    → IsRangePlan s.range_index
    → lookup_range s x.to_node x.from_node x.from_time ≡ none
    → (0 < x.from_time) × (x.from_time < x.to_time)
    → IsRangePlan (impute_range x s).range_index
unfolding impute_range reverse_range
impute_range-IsRangePlan x s h e p =
    insert_range_at-IsRangePlan (reverse_range x s.next_addr) s.range_index h e p

abbrev Planned : ℕ × Ion → Type 0
Planned (_, s) = IsRangePlan s.range_index

-- `insertRXref` keeps the order: what it imputes is not there yet.
pub insert_rxref-IsRangePlan :
    (env : Env) (x : Rxref) (s : Ion)
    → IsRangePlan s.range_index
    → find order_rxrefs (rxref_key x) s.range_index ≡ none
    → (0 < x.from_time) × (x.from_time < x.to_time)
    → IsRangePlan (insert_rxref env x s).1.range_index
unfolding insert_rxref
insert_rxref-IsRangePlan env x s h e p =
    go (ltb x.to_node x.from_node) (lookup_range t x.to_node x.from_node x.from_time) refl
  where
    t : Ion
    t = assert_range env x s

    kept : IsRangePlan t.range_index
    kept = assert_range-IsRangePlan env x s h e p

    go :
        (b : Bool) (f : Option Rxref)
        → lookup_range t x.to_node x.from_node x.from_time ≡ f
        → Planned (
            if b
            then (s.next_addr, t)
            else elim f [ some _ ↦ (s.next_addr, t) | none ↦ (s.next_addr, impute_range x t) ])
    go true f e = kept
    go false (some _) e = kept
    go false none e = impute_range-IsRangePlan x t kept e p

drop_imputed-IsRangePlan :
    (r : Rxref) (s : Ion) → IsRangePlan s.range_index → IsRangePlan (drop_imputed r s).range_index
unfolding drop_imputed
drop_imputed-IsRangePlan r s h = delete_range_at-IsRangePlan (rxref_key r) s.range_index h

check_range-Planned :
    (env : Env) (arg : Rxref) (next : List Rxref) (s : Ion)
    → IsRangePlan s.range_index
    → find order_rxrefs (rxref_key arg) s.range_index ≡ none
    → (0 < arg.from_time) × (arg.from_time < arg.to_time)
    → Planned (check_range env arg next s)
unfolding check_range enter_range
check_range-Planned env arg next s h e p = go (range_overlaps arg next s.range_index)
  where
    go : (b : Bool) → Planned (if b then (0, s) else enter_range env arg s)
    go true = h
    go false = insert_rxref-IsRangePlan env (record arg { range_elt = s.next_elt }) _ h e p

pub dropped :
    (arg r : Rxref) (s : Ion)
    → IsRangePlan s.range_index
    → rxref_key r ≡ rxref_key arg
    → find order_rxrefs (rxref_key arg) (drop_imputed r s).range_index ≡ none
unfolding drop_imputed
dropped arg r s h e =
    subst (λ k. find order_rxrefs k (delete order_rxrefs (rxref_key r) s.range_index) ≡ none) e
      (Lookup.find-delete order_keys rxref_key order_keys-IsOrder (rxref_key r) s.range_index
        h.sorted)

-- `rfx_insert_range` keeps the range index in order, also where it replaces an imputed range.
pub insert_range-IsRangePlan :
    (env : Env) (from_time to_time from_node to_node owlt : ℕ) (s : Ion)
    → IsRangePlan s.range_index
    → IsRangePlan (insert_range env from_time to_time from_node to_node owlt s).1.range_index
unfolding insert_range
insert_range-IsRangePlan env from_time to_time from_node to_node owlt s h =
    go valid refl (find order_rxrefs (rxref_key arg) s.range_index) refl
  where
    arg : Rxref
    arg = range_arg from_time to_time from_node to_node owlt

    next : List Rxref
    next = successors order_rxrefs (rxref_key arg) s.range_index

    valid : Bool
    valid = ltb 0 from_time && ltb from_time to_time && ltb 0 from_node && ltb 0 to_node

    same_rate : (r : Rxref) (b : Bool) → Planned (if b then (r.addr, s) else (0, s))
    same_rate r true = h
    same_rate r false = h

    replace :
        (r : Rxref) (b : Bool)
        → rxref_key r ≡ rxref_key arg
        → (0 < from_time) × (from_time < to_time)
        → Planned (
            if b
            then check_range env arg next (drop_imputed r s)
            else if r.owlt == owlt
            then (r.addr, s)
            else (0, s))
    replace r false e p = same_rate r (r.owlt == owlt)
    replace r true e p =
        check_range-Planned env arg next (drop_imputed r s) (drop_imputed-IsRangePlan r s h)
          (dropped arg r s h e) p

    go :
        (v : Bool)
        → valid ≡ v
        → (f : Option Rxref) → find order_rxrefs (rxref_key arg) s.range_index ≡ f
        → Planned (
            if not v then (0, s) else elim f [
              | some rxref ↦
                  if rxref.range_elt == 0
                  then check_range env arg next (drop_imputed rxref s)
                  else if rxref.owlt == owlt
                  then (rxref.addr, s)
                  else (0, s)
              | none ↦ check_range env arg next s
            ])
    go false v f e = h
    go true v (some r) e =
        let (m, k) =
          Sorted.find-some order_keys rxref_key order_keys-IsOrder (rxref_key arg) s.range_index r
            e in
        replace r (r.range_elt == 0) k (ground arith)
    go true v none e = check_range-Planned env arg next s h e (ground arith)
