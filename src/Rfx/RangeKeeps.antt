-- ===== src/Rfx/RangeKeeps.antt =====
-- rfx_remove_range as a sequence of calls of deleteRange.
use cgr_jni.Base.{
  ℕ, zero, suc, ◌≡◌, inl, inr, refl, subst, Bool, true, false, not, ◌&&◌, ◌||◌, if◌then◌else◌, ltb,
  ◌==◌, Bool-cases, Option, none, some, List, [], ◌∷◌,
}
use cgr_jni.Plan.{Key}
use cgr_jni.Rbt.{find, successors}
use cgr_jni.Rbt.Sorted.{some-inj}
use cgr_jni.Rfx.{Rxref, Ion, Env, rxref_key, order_rxrefs}
use cgr_jni.Rfx.Ranges.{delete_range, remove_ranges, remove_direction, remove_range}
use cgr_jni.Rfx.RangeIndex.{IsRangePlan, delete_range_at-IsRangePlan}
use cgr_jni.Rfx.Carries.{Carries, Carries-refl, Carries-trans}
use cgr_jni.Rfx.RangeCarries.{delete_range-Carries}

-- What deletions keep, removals keep.
module _ (P : Ion → Type 0) (env : Env)
    (delete_keeps : (conditional : Bool) (r : Rxref) (s : Ion)
      → P s
      → P (delete_range env conditional r s)) where
  abbrev Keeps : Option Ion → Type 0
  Keeps r = (t : Ion) → r ≡ some t → P t

  nothing : Keeps none
  nothing t e = cc

  stay : (s : Ion) → P s → Keeps (some s)
  stay s p t e = subst P (some-inj s t e) p

  remove_ranges-Keeps :
      (fuel : ℕ) (conditional : Bool) (arg : Key) (s : Ion)
      → P s
      → Keeps (remove_ranges fuel env conditional arg s)
  unfolding remove_ranges
  remove_ranges-Keeps zero conditional arg s p = nothing
  remove_ranges-Keeps (suc fuel) conditional arg s p =
      go
        (λ r.
          remove_ranges-Keeps fuel conditional arg (delete_range env conditional r s)
            (delete_keeps conditional r s p))
        (successors order_rxrefs arg s.range_index)
    where
      branch : (b : Bool) (r : Option Ion) → Keeps r → Keeps (if b then some s else r)
      branch true r k = stay s p
      branch false r k = k

      go :
          ((r : Rxref)
            → Keeps (remove_ranges fuel env conditional arg (delete_range env conditional r s)))
          → (xs : List Rxref)
          → Keeps (elim xs [
            | [] ↦ some s
            | rxref ∷ _ ↦
                let rest =
                  remove_ranges fuel env conditional arg (delete_range env conditional rxref s) in
                if ltb arg.from_node rxref.from_node || ltb arg.to_node rxref.to_node
                then some s
                else rest
          ])
      go again [] = stay s p
      go again (r ∷ _) =
          branch (ltb arg.from_node r.from_node || ltb arg.to_node r.to_node) _ (again r)

  remove_direction-Keeps :
      (fuel : ℕ) (conditional : Bool) (arg : Key) (s : Ion)
      → P s
      → Keeps (remove_direction fuel env conditional arg s)
  unfolding remove_direction
  remove_direction-Keeps fuel conditional arg s p =
      go (ltb 0 arg.from_time) (find order_rxrefs arg s.range_index)
    where
      go :
          (b : Bool) (f : Option Rxref)
          → Keeps (
              if b
              then elim f [
                | some rxref ↦ some (delete_range env conditional rxref s)
                | none ↦ some s
              ]
              else remove_ranges fuel env conditional arg s)
      go true (some r) = stay (delete_range env conditional r s) (delete_keeps conditional r s p)
      go true none = stay s p
      go false f = remove_ranges-Keeps fuel conditional arg s p

  pub remove_range-Keeps :
      (fuel from_time from_node to_node : ℕ) (s t : Ion)
      → P s
      → remove_range fuel env from_time from_node to_node s ≡ some t
      → P t
  unfolding remove_range
  remove_range-Keeps fuel from_time from_node to_node s t p =
      go (remove_direction fuel env false forth s) (remove_direction-Keeps fuel false forth s p)
        (ltb to_node from_node) t
    where
      forth : Key
      forth = record { from_node = from_node; to_node = to_node; from_time = from_time }

      back : Key
      back = record { from_node = to_node; to_node = from_node; from_time = from_time }

      go :
          (f : Option Ion)
          → Keeps f
          → (b : Bool)
          → Keeps (elim f [
            | none ↦ none
            | some u ↦ if b then some u else remove_direction fuel env true back u
          ])
      go none k b = nothing
      go (some u) k true = k
      go (some u) k false = remove_direction-Keeps fuel true back u (k u refl)

pub remove_range-Carries :
    (fuel : ℕ) (env : Env) (from_time from_node to_node : ℕ) (s t : Ion)
    → remove_range fuel env from_time from_node to_node s ≡ some t
    → Carries s t
remove_range-Carries fuel env from_time from_node to_node s t =
    remove_range-Keeps (Carries s) env
      (λ c r u p. Carries-trans s u _ p (delete_range-Carries env c r u)) fuel from_time from_node
      to_node s t (Carries-refl s)

delete_any-IsRangePlan :
    (env : Env) (conditional : Bool) (r : Rxref) (s : Ion)
    → IsRangePlan s.range_index
    → IsRangePlan (delete_range env conditional r s).range_index
unfolding delete_range
delete_any-IsRangePlan env conditional r s h =
    elim (Bool-cases (conditional && not (r.range_elt == 0))) [
      | inl b ↦ rw (b, delete_range) h
      | inr b ↦ rw (b, delete_range) (delete_range_at-IsRangePlan (rxref_key r) s.range_index h)
    ]

pub remove_range-IsRangePlan :
    (fuel : ℕ) (env : Env) (from_time from_node to_node : ℕ) (s t : Ion)
    → remove_range fuel env from_time from_node to_node s ≡ some t
    → IsRangePlan s.range_index
    → IsRangePlan t.range_index
remove_range-IsRangePlan fuel env from_time from_node to_node s t e h =
    remove_range-Keeps (λ u. IsRangePlan u.range_index) env
      (λ c r u. delete_any-IsRangePlan env c r u) fuel from_time from_node to_node s t h e
