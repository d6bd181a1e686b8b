-- ===== src/Rfx/Override.antt =====
-- The check that `rfx_insert_range` makes where it replaces an imputed range.
use cgr_jni.Base.{
  ℕ, ◌≡◌, ◌<◌, refl, sym, subst, true, ◌&&◌, ltb, ==_iff, none, some, List, [], ◌∷◌, arith,
}
use cgr_jni.Plan.{Key, order_keys}
use cgr_jni.Plan.Order.{order_keys-IsOrder}
use cgr_jni.Rbt.{find, successors, last}
use cgr_jni.Rbt.Sorted
use cgr_jni.Rfx.{Rxref, Ion, Env, rxref_key, order_rxrefs}
use cgr_jni.Rfx.Ranges.{
  range_arg, range_starts_within, range_runs_into, range_overlaps, drop_imputed, check_range,
  insert_range,
}
use cgr_jni.Rfx.RangeIndex.{IsRangePlan, lookup_range, dropped}

found-successors :
    (k : Key) (index : List Rxref) (y : Rxref)
    → find order_rxrefs k index ≡ some y
    → successors order_rxrefs k index ≡ []
unfolding find successors
found-successors k [] y e = cc
found-successors k (x ∷ index) y e = ground (arith, found-successors k index y)

last_overlaps :
    (arg z : Rxref) (index : List Rxref)
    → last index ≡ some z
    → (arg.from_node ≡ z.from_node) × (arg.to_node ≡ z.to_node) × (arg.from_time < z.to_time)
    → range_overlaps arg [] index ≡ true
unfolding range_overlaps range_starts_within range_runs_into
last_overlaps arg z index e same = rw e (ground (arith, same))

-- With the range index in order, a call with valid arguments that finds an imputed range of the same
-- nodes and start compares the new range with the last range of the whole index. If that one has the
-- same nodes and ends later than the new range starts, the call answers 0, and the imputed range is
-- gone all the same.
pub insert_range_loses :
    (env : Env) (from_time to_time from_node to_node owlt : ℕ) (s : Ion) (y z : Rxref)
    → IsRangePlan s.range_index
    → (0 < from_time) × (from_time < to_time) × (0 < from_node) × (0 < to_node)
    → lookup_range s from_node to_node from_time ≡ some y
    → y.range_elt ≡ 0
    → last (drop_imputed y s).range_index ≡ some z
    → (z.from_node ≡ from_node) × (z.to_node ≡ to_node) × (from_time < z.to_time)
    → let (answer, u) = insert_range env from_time to_time from_node to_node owlt s in
      (answer ≡ 0) × (lookup_range u from_node to_node from_time ≡ none)
unfolding insert_range check_range
insert_range_loses env from_time to_time from_node to_node owlt s y z h v e imputed last_z same =
    rw (valid, e, (==_iff y.range_elt 0).1 imputed, overlapping, insert_range, check_range)
      (refl, gone)
  where
    arg : Rxref
    arg = range_arg from_time to_time from_node to_node owlt

    valid : (ltb 0 from_time && ltb from_time to_time && ltb 0 from_node && ltb 0 to_node) ≡ true
    valid = ground (arith, v)

    gone : lookup_range (drop_imputed y s) from_node to_node from_time ≡ none
    gone =
        let (_, k) =
          Sorted.find-some order_keys rxref_key order_keys-IsOrder (rxref_key arg) s.range_index y
            e in
        dropped arg y s h k

    overlapping :
        range_overlaps arg
          (successors order_rxrefs (rxref_key arg) s.range_index)
          (drop_imputed y s).range_index
        ≡ true
    overlapping =
        subst (λ l. range_overlaps arg l (drop_imputed y s).range_index ≡ true)
          (sym (found-successors (rxref_key arg) s.range_index y e))
          (last_overlaps arg z (drop_imputed y s).range_index last_z (ground (arith, same)))
