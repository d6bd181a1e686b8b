-- ===== src/Cgr/Dijkstra/Consider.antt =====
-- What one round of the neighbor loop of `computeDistanceToTerminus` changes.
use cgr_jni.Base.{
  ℕ, ◌≡◌, ◌≢◌, ◌≤◌, ◌<◌, ◌⊎◌, inl, inr, false, true, none, some, List, arith, ltb, leb, ◌==◌,
  if◌then◌else◌, ◌&&◌, not, Bool, Bool-cases, Option-cases,
}
use cgr_jni.Plan.{Contact, Range}
use cgr_jni.Cgr.Ranges.{get_applicable_range}
use cgr_jni.Cgr.Note.{update, min_capacity, contact_capacity, arrival_over}
use cgr_jni.Cgr.Dijkstra.{Search, consider}

module _ (ranges : List Range) (terminus payload_class : ℕ) (current : Contact) (s : Search)
    (c : Contact) where
  abbrev after : Search
  after = consider ranges terminus payload_class current s c

  abbrev now : ℕ
  now = (s.notes current.addr).arrival_time

  pub consider-other :
      (a : ℕ)
      → a ≢ c.addr
      → (consider ranges terminus payload_class current s c).notes a ≡ s.notes a
  unfolding consider update
  consider-other a ne = ground arith

  pub consider-visited :
      (a : ℕ)
      → ((consider ranges terminus payload_class current s c).notes a).visited ≡ (s.notes a).visited
  unfolding consider update
  consider-visited a = ground arith

  pub consider-suppressed :
      (a : ℕ)
      → ((consider ranges terminus payload_class current s c).notes a).suppressed
        ≡ (s.notes a).suppressed
  unfolding consider update
  consider-suppressed a = ground arith

  -- The contact is left with its arrival time and predecessor.
  pub record Kept (t : Search) : Type 0 where
    pub arrival : (t.notes c.addr).arrival_time ≡ (s.notes c.addr).arrival_time
    pub predecessor : (t.notes c.addr).predecessor ≡ (s.notes c.addr).predecessor
    pub final_contact : t.final_contact ≡ s.final_contact
    pub earliest_final : t.earliest_final ≡ s.earliest_final

  -- A better way to the contact was found.
  pub record Improved (owlt : ℕ) (t : Search) : Type 0 where
    pub light_time : get_applicable_range ranges c ≡ some owlt
    pub open_at : (s.notes current.addr).arrival_time < c.to_time
    pub free : (s.notes c.addr).suppressed ≡ false
    pub unvisited : (s.notes c.addr).visited ≡ false
    pub better :
        arrival_over (s.notes current.addr).arrival_time c owlt < (s.notes c.addr).arrival_time
    pub capacity : min_capacity payload_class ≤ (t.notes c.addr).capacity
    pub arrival :
        (t.notes c.addr).arrival_time ≡ arrival_over (s.notes current.addr).arrival_time c owlt
    pub predecessor : (t.notes c.addr).predecessor ≡ some current

  abbrev capacity_of : ℕ
  capacity_of =
      if (s.notes c.addr).capacity == 0 then contact_capacity c else (s.notes c.addr).capacity

  abbrev improves : ℕ → Bool
  improves owlt =
      not (leb c.to_time now)
      && not (s.notes c.addr).suppressed
      && not (s.notes c.addr).visited
      && not (ltb capacity_of (min_capacity payload_class))
      && ltb (arrival_over now c owlt) (s.notes c.addr).arrival_time

  Kept-unranged :
      get_applicable_range ranges c ≡ none
      → Kept (consider ranges terminus payload_class current s c)
  unfolding consider update
  Kept-unranged e = ground arith

  Kept-no_better :
      (owlt : ℕ)
      → get_applicable_range ranges c ≡ some owlt
      → improves owlt ≡ false
      → Kept (consider ranges terminus payload_class current s c)
  unfolding consider update
  Kept-no_better owlt e no_better = ground arith

  improved :
      (owlt : ℕ)
      → get_applicable_range ranges c ≡ some owlt
      → improves owlt ≡ true
      → Improved owlt (consider ranges terminus payload_class current s c)
  unfolding consider update
  improved owlt e better = ground arith

  pub consider-change :
      Kept (consider ranges terminus payload_class current s c)
      ⊎ ((owlt : ℕ) × Improved owlt (consider ranges terminus payload_class current s c))
  consider-change = elim (Option-cases (get_applicable_range ranges c)) [
    | inl e ↦ inl (Kept-unranged e)
    | inr (owlt, e) ↦ elim (Bool-cases (improves owlt)) [
      | inl better ↦ inr (owlt, improved owlt e better)
      | inr no_better ↦ inl (Kept-no_better owlt e no_better)
    ]
  ]

  -- An edge from the current contact to an unvisited one is used if it is better.
  pub consider_complete :
      (owlt : ℕ)
      → get_applicable_range ranges c ≡ some owlt
      → (s.notes current.addr).arrival_time < c.to_time
      → (s.notes c.addr).suppressed ≡ false
      → (s.notes c.addr).visited ≡ false
      → ((s.notes c.addr).capacity ≡ 0) ⊎ ((s.notes c.addr).capacity ≡ contact_capacity c)
      → min_capacity payload_class ≤ contact_capacity c
      → ((consider ranges terminus payload_class current s c).notes c.addr).arrival_time
        ≤ arrival_over (s.notes current.addr).arrival_time c owlt
  unfolding consider update
  consider_complete owlt e open_at free unvisited cap enough = ground arith

  pub consider-capacity :
      ((s.notes c.addr).capacity ≡ 0) ⊎ ((s.notes c.addr).capacity ≡ contact_capacity c)
      → (((consider ranges terminus payload_class current s c).notes c.addr).capacity ≡ 0)
        ⊎ (((consider ranges terminus payload_class current s c).notes c.addr).capacity
            ≡ contact_capacity c)
  unfolding consider update
  consider-capacity cap = ground arith

  pub consider-capacity_kept :
      (s.notes c.addr).capacity ≡ contact_capacity c
      → ((consider ranges terminus payload_class current s c).notes c.addr).capacity
        ≡ contact_capacity c
  unfolding consider update
  consider-capacity_kept cap = ground arith

  -- The final contact is replaced exactly by a better contact to the terminus.
  pub consider-final :
      (((consider ranges terminus payload_class current s c).final_contact ≡ s.final_contact)
        × ((consider ranges terminus payload_class current s c).earliest_final ≡ s.earliest_final)
        × ((c.to_node ≢ terminus)
            ⊎ (s.earliest_final
                ≤ ((consider ranges terminus payload_class current s c).notes c.addr).arrival_time)
            ⊎ (((consider ranges terminus payload_class current s c).notes c.addr).arrival_time
                ≡ (s.notes c.addr).arrival_time)))
      ⊎ (((consider ranges terminus payload_class current s c).final_contact ≡ some c)
          × (c.to_node ≡ terminus)
          × ((consider ranges terminus payload_class current s c).earliest_final < s.earliest_final)
          × (((consider ranges terminus payload_class current s c).notes c.addr).arrival_time
              ≡ (consider ranges terminus payload_class current s c).earliest_final))
  unfolding consider update
  consider-final = elim (Option-cases (get_applicable_range ranges c)) [
    | inl e ↦ inl (ground arith)
    | inr (owlt, e) ↦
        elim (Bool-cases (
          improves owlt
          && c.to_node == terminus
          && ltb (arrival_over now c owlt) s.earliest_final)) [
            | inl better ↦ inr (ground arith)
            | inr no_better ↦ inl (ground arith)
          ]
  ]

  pub consider-falls :
      (a : ℕ)
      → ((consider ranges terminus payload_class current s c).notes a).arrival_time
        ≤ (s.notes a).arrival_time
  unfolding consider update
  consider-falls a = ground arith
