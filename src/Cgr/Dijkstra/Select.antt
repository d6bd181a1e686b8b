-- ===== src/Cgr/Dijkstra/Select.antt =====
-- The loop of `computeDistanceToTerminus` that selects the next contact.
use cgr_jni.Base.{
  ℕ, ◌≡◌, ◌≤◌, ◌<◌, ◌⊎◌, refl, inl, inr, subst, sym, false, true, Option, none, some, List, [], ◌∷◌,
  foldl, ◌∈◌, arith, ltb, Bool, Bool-cases, not, ◌&&◌,
}
use cgr_jni.Plan.{Contact}
use cgr_jni.Cgr.Note.{max_time}
use cgr_jni.Cgr.Dijkstra.{Search, select_step, select_next}

-- The contact may be selected: neither suppressed nor visited, and not later than the best arrival
-- at the terminus.
pub record IsEligible (s : Search) (c : Contact) : Type 0 where
  pub free : (s.notes c.addr).suppressed ≡ false
  pub unvisited : (s.notes c.addr).visited ≡ false
  pub near : (s.notes c.addr).arrival_time ≤ s.earliest_final

-- What the loop has found among `seen`, at its variables (nextContact, earliestArrivalTime).
data Best (s : Search) (seen : Contact → Type 0) : Option Contact × ℕ → Type 0 where
  nothing :
      ((u : Contact) → seen u → IsEligible s u → max_time ≤ (s.notes u.addr).arrival_time)
      → Best s seen (none, max_time)
  best :
      (c : Contact)
      → seen c
      → IsEligible s c
      → (s.notes c.addr).arrival_time < max_time
      → ((u : Contact)
          → seen u
          → IsEligible s u
          → (s.notes c.addr).arrival_time ≤ (s.notes u.addr).arrival_time)
      → Best s seen (some c, (s.notes c.addr).arrival_time)

abbrev eligible : Search → Contact → Bool
eligible s c =
    not (s.notes c.addr).suppressed
    && not (s.notes c.addr).visited
    && not (ltb s.earliest_final (s.notes c.addr).arrival_time)

module _ (s : Search) where
  eligible_sound : (c : Contact) → eligible s c ≡ true → IsEligible s c
  eligible_sound c e = ground arith

  eligible_complete : (c : Contact) → IsEligible s c → eligible s c ≡ true
  eligible_complete c e = ground (arith, e.free, e.unvisited, e.near)

  select_step-better :
      (acc : Option Contact × ℕ) (c : Contact)
      → eligible s c ≡ true
      → (s.notes c.addr).arrival_time < acc.1
      → select_step s acc c ≡ (some c, (s.notes c.addr).arrival_time)
  unfolding select_step
  select_step-better acc c e better = ground arith

  select_step-worse :
      (acc : Option Contact × ℕ) (c : Contact)
      → (eligible s c ≡ false) ⊎ (acc.1 ≤ (s.notes c.addr).arrival_time)
      → select_step s acc c ≡ acc
  unfolding select_step
  select_step-worse acc c why = ground arith

  -- Adding a contact that is no better, or one that is.
  keep :
      (seen : Contact → Type 0) (acc : Option Contact × ℕ) (c : Contact)
      → (IsEligible s c → acc.1 ≤ (s.notes c.addr).arrival_time)
      → Best s seen acc
      → Best s (λ u. seen u ⊎ (u ≡ c)) acc
  keep seen acc c worse (nothing none_good) = nothing λ u m e. elim m [
    | inl old ↦ none_good u old e
    | inr new ↦
        subst (λ z. IsEligible s z → max_time ≤ (s.notes z.addr).arrival_time) (sym new) worse e
  ]
  keep seen acc c worse (best b m e early least) = best b (inl m) e early λ u mu eu. elim mu [
    | inl old ↦ least u old eu
    | inr new ↦
        subst (λ z. IsEligible s z → (s.notes b.addr).arrival_time ≤ (s.notes z.addr).arrival_time)
          (sym new) worse eu
  ]

  improve :
      (seen : Contact → Type 0) (acc : Option Contact × ℕ) (c : Contact)
      → IsEligible s c
      → (s.notes c.addr).arrival_time < acc.1
      → Best s seen acc
      → Best s (λ u. seen u ⊎ (u ≡ c)) (some c, (s.notes c.addr).arrival_time)
  improve seen acc c e better (nothing none_good) = best c (inr refl) e better λ u m eu. elim m [
    | inl old ↦ omega (arith, none_good u old eu)
    | inr new ↦ rw new (omega arith)
  ]
  improve seen acc c e better (best b m eb early least) =
      best c (inr refl) e (omega arith) λ u mu eu. elim mu [
        | inl old ↦ omega (arith, least u old eu)
        | inr new ↦ rw new (omega arith)
      ]

  step_lem :
      (seen : Contact → Type 0) (acc : Option Contact × ℕ) (c : Contact)
      → Best s seen acc
      → Best s (λ u. seen u ⊎ (u ≡ c)) (select_step s acc c)
  step_lem seen acc c b = elim (Bool-cases (eligible s c)) [
    | inr not_eligible ↦
        rw (select_step-worse acc c (inl not_eligible))
          (keep seen acc c (λ e. ground (arith, eligible_complete c e)) b)
    | inl e ↦ elim (Bool-cases (ltb (s.notes c.addr).arrival_time acc.1)) [
      | inl better ↦
          rw (select_step-better acc c e (ground arith))
            (improve seen acc c (eligible_sound c e) (ground arith) b)
      | inr worse ↦
          rw (select_step-worse acc c (inr (ground arith))) (keep seen acc c (λ _. ground arith) b)
    ]
  ]

  Best-imp :
      (seen seen' : Contact → Type 0) (acc : Option Contact × ℕ)
      → ((u : Contact) → seen u → seen' u)
      → ((u : Contact) → seen' u → seen u)
      → Best s seen acc
      → Best s seen' acc
  Best-imp seen seen' _ to back (nothing none_good) = nothing λ u m. none_good u (back u m)
  Best-imp seen seen' _ to back (best c m e early least) =
      best c (to c m) e early λ u mu. least u (back u mu)

  fold_lem :
      (cs : List Contact) (seen : Contact → Type 0) (acc : Option Contact × ℕ)
      → Best s seen acc
      → Best s (λ u. seen u ⊎ u ∈ cs) (foldl (select_step s) acc cs)
  fold_lem [] seen acc b =
      Best-imp seen (λ u. seen u ⊎ u ∈ []) acc (λ u. inl)
        (λ u m. elim m [ inl x ↦ x | inr y ↦ absurd y ]) b
  fold_lem (c ∷ cs) seen acc b =
      Best-imp (λ u. (seen u ⊎ (u ≡ c)) ⊎ u ∈ cs) (λ u. seen u ⊎ u ∈ c ∷ cs)
        (foldl (select_step s) acc (c ∷ cs)) (λ u m. ground arith) (λ u m. ground arith)
        (fold_lem cs (λ u. seen u ⊎ (u ≡ c)) (select_step s acc c) (step_lem seen acc c b))

-- What `select_next` answers: the eligible contact that is reached first, before MAX_TIME, or that
-- there is none.
pub data Selected (s : Search) (index : List Contact) : Option Contact → Type 0 where
  finished :
      ((u : Contact) → u ∈ index → IsEligible s u → max_time ≤ (s.notes u.addr).arrival_time)
      → Selected s index none
  next :
      (c : Contact)
      → c ∈ index
      → IsEligible s c
      → (s.notes c.addr).arrival_time < max_time
      → ((u : Contact)
          → u ∈ index
          → IsEligible s u
          → (s.notes c.addr).arrival_time ≤ (s.notes u.addr).arrival_time)
      → Selected s index (some c)

of_best :
    (s : Search) (index : List Contact) (acc : Option Contact × ℕ)
    → Best s (λ u. ⊥ ⊎ u ∈ index) acc
    → Selected s index acc.0
of_best s index _ (nothing none_good) = finished λ u m. none_good u (inr m)
of_best s index _ (best c m e early least) =
    next c (elim m [ inl x ↦ absurd x | inr y ↦ y ]) e early λ u mu. least u (inr mu)

pub select_next_lem : (s : Search) (index : List Contact) → Selected s index (select_next s index)
unfolding select_next
select_next_lem s index =
    of_best s index (foldl (select_step s) (none, max_time) index)
      (fold_lem s index (λ u. ⊥) (none, max_time) (nothing (λ u m. absurd m)))
