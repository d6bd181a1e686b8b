-- ===== src/Rfx/Embargoes/Probes.antt =====
-- postProbeEvent of rfx.c: the order of the scheduled probes, and when a probe is due.
use cgr_jni.Base.{
  ◌+◌, ◌*◌, ◌^◌, ◌<◌, ◌≡◌, ◌⊎◌, ◌↔◌, inl, inr, refl, true, false, if◌then◌else◌, Bool-cases, Option,
  none, some, List, [], ◌∷◌, ◌∈◌, All, All-mem, arith,
}
use Prim.Native.Nat.{max}
use cgr_jni.Base.Int.{pos, ◌≤ℤ◌, ltb_ℤ}
use cgr_jni.Rfx.{Probe, Neighbor, Env}
use cgr_jni.Rfx.Embargoes.{probe_time, insert_after, insert_probe}

abbrev pub IsInTime : List Probe → Type 0
IsInTime [] = Unit
IsInTime (p ∷ ps) = All (λ (q : Probe). p.time ≤ℤ q.time) ps × IsInTime ps

-- What the search from the last probe back has done.
abbrev Placed : Probe → List Probe → Option (List Probe) → Type 0
Placed p ps none = All (λ (q : Probe). ltb_ℤ p.time q.time ≡ true) ps
Placed p ps (some qs) =
    IsInTime qs
    × ((x : Probe) → (x ∈ qs) ↔ ((x ≡ p) ⊎ x ∈ ps))
    × ((y : Probe)
        → y.time ≤ℤ p.time
        → All (λ (q : Probe). y.time ≤ℤ q.time) ps
        → All (λ (q : Probe). y.time ≤ℤ q.time) qs)
    × ((y : Probe) × (y ∈ ps) × (y.time ≤ℤ p.time))

le_of_not_lt : (p q : Probe) → ltb_ℤ p.time q.time ≡ false → q.time ≤ℤ p.time
le_of_not_lt p q h = ground arith

le_of_lt : (p q : Probe) → ltb_ℤ p.time q.time ≡ true → p.time ≤ℤ q.time
le_of_lt p q h = ground arith

le_trans : (p q r : Probe) → p.time ≤ℤ q.time → q.time ≤ℤ r.time → p.time ≤ℤ r.time
le_trans p q r a b = omega (arith, a, b)

All-later :
    (p : Probe) (qs : List Probe)
    → All (λ (q : Probe). ltb_ℤ p.time q.time ≡ true) qs
    → All (λ (q : Probe). p.time ≤ℤ q.time) qs
All-later p [] h = tt
All-later p (q ∷ qs) h = (le_of_lt p q h.0, All-later p qs h.1)

insert_after-Placed : (p : Probe) (ps : List Probe) → IsInTime ps → Placed p ps (insert_after p ps)
unfolding insert_after
insert_after-Placed p [] o = tt
insert_after-Placed p (q ∷ ps) o = go (insert_after p ps) (insert_after-Placed p ps o.1)
  where
    go :
        (r : Option (List Probe))
        → Placed p ps r
        → Placed p (q ∷ ps) (elim r [
          | some rest ↦ some (q ∷ rest)
          | none ↦ if ltb_ℤ p.time q.time then none else some (q ∷ p ∷ ps)
        ])
    go (some rest) (ordered, members, all, (y, y_in, le)) = (
      (
        all q (le_trans q y p (All-mem (λ (z : Probe). q.time ≤ℤ z.time) y ps o.0 y_in) le) o.0,
        ordered,
      ),
      λ x. (
        λ m. elim m [
          | inl e ↦ inr (inl e)
          | inr n ↦ elim ((members x).0 n) [ inl e ↦ inl e | inr k ↦ inr (inr k) ]
        ],
        λ h. elim h [
          | inl e ↦ inr ((members x).1 (inl e))
          | inr (inl e) ↦ inl e
          | inr (inr k) ↦ inr ((members x).1 (inr k))
        ],
      ),
      λ z z_le h. (h.0, all z z_le h.1),
      (y, inr y_in, le),
    )
    go none later = elim (Bool-cases (ltb_ℤ p.time q.time)) [
      | inl less ↦ rw less (less, later)
      | inr not_less ↦ rw not_less (
        ((le_of_not_lt p q not_less, o.0), (All-later p ps later, o.1)),
        λ x. (
          λ m. elim m [ inl e ↦ inr (inl e) | inr (inl e) ↦ inl e | inr (inr k) ↦ inr (inr k) ],
          λ h. elim h [ inl e ↦ inr (inl e) | inr (inl e) ↦ inl e | inr (inr k) ↦ inr (inr k) ],
        ),
        λ y y_le h. (h.0, (y_le, h.1)),
        (q, inl refl, le_of_not_lt p q not_less),
      )
    ]

-- The new probe is added, and the probes stay in order of time.
pub insert_probe_lem :
    (p : Probe) (ps : List Probe)
    → IsInTime ps
    → IsInTime (insert_probe p ps) × ((x : Probe) → (x ∈ insert_probe p ps) ↔ ((x ≡ p) ⊎ x ∈ ps))
unfolding insert_probe
insert_probe_lem p ps o = go (insert_after p ps) (insert_after-Placed p ps o)
  where
    result : Option (List Probe) → List Probe
    result r = elim r [ some rest ↦ rest | none ↦ p ∷ ps ]

    go :
        (r : Option (List Probe))
        → Placed p ps r
        → IsInTime (result r) × ((x : Probe) → (x ∈ result r) ↔ ((x ≡ p) ⊎ x ∈ ps))
    go none later = ((All-later p ps later, o), λ x. (λ h. h, λ h. h))
    go (some rest) (ordered, members, _, _) = (ordered, members)

-- While the light times of a neighbor sum up to less than 2^30 seconds, its next probe is due after
-- twice their sum or 6 seconds, whichever is more, and so at least 6 and at most 2^31 seconds from now.
pub probe_time_lem :
    (env : Env) (neighbor : Neighbor)
    → neighbor.owlt_outbound + neighbor.owlt_inbound < 2 ^ 30
    → let light = (neighbor.owlt_outbound + neighbor.owlt_inbound) * 2 in
      (probe_time env (some neighbor) ≡ pos (env.current_time + max 6 light))
      × (pos (env.current_time + 6) ≤ℤ probe_time env (some neighbor))
      × (probe_time env (some neighbor) ≤ℤ pos (env.current_time + 2 ^ 31))
unfolding probe_time
probe_time_lem env neighbor small = ground arith
