-- ===== src/Rfx/Accept.antt =====
-- What `rfx_insert_contact` accepts.
use mathlib.Core.Bool.{false≢true}
use cgr_jni.Base.{
  ℕ, ◌≡◌, ◌<◌, ◌⊎◌, inl, inr, refl, sym, ap, Bool, true, false, not, ◌&&◌, if◌then◌else◌, ltb, ◌==◌,
  ==_iff, Option-cases, Option, none, some, List, ◌∈◌, arith, ◌∙◌,
}
use cgr_jni.Plan.{order_keys}
use cgr_jni.Rbt.{find}
use cgr_jni.Rbt.Sorted
use cgr_jni.Rfx.{Cxref, Ion, Env, cxref_key, order_cxrefs}
use cgr_jni.Plan.Order.{order_keys-IsOrder}
use cgr_jni.Rfx.Contacts.{contact_arg, prob_is_valid, overlaps, enter_contact, insert_contact}
use cgr_jni.Rfx.Overlap.{IsContactPlan, Meets, overlaps_iff}

module _ (from_time to_time from_node to_node xmit_rate prob : ℕ) where
  abbrev pub arg : Cxref
  unfolding contact_arg
  arg = contact_arg from_time to_time from_node to_node xmit_rate

  abbrev valid : Bool
  valid =
      ltb 0 from_time
      && ltb from_time to_time
      && ltb 0 from_node
      && ltb 0 to_node
      && prob_is_valid prob

  -- The arguments of a contact that does not overlap with any other of the same nodes.
  pub record IsAcceptable (index : List Cxref) : Type 0 where
    pub begins : 0 < from_time
    pub ends : from_time < to_time
    pub sender : 0 < from_node
    pub receiver : 0 < to_node
    pub likely : prob_is_valid prob ≡ true
    pub free : (c : Cxref) → c ∈ index → ¬ Meets arg c

  valid-IsAcceptable : (index : List Cxref) → IsAcceptable index → valid ≡ true
  valid-IsAcceptable index a = ground (arith, a.begins, a.ends, a.sender, a.receiver, a.likely)

  IsAcceptable-valid :
      (index : List Cxref)
      → valid ≡ true
      → ((c : Cxref) → c ∈ index → ¬ Meets arg c)
      → IsAcceptable index
  IsAcceptable-valid index v f = record {
    begins = ground arith;
    ends = ground arith;
    sender = ground arith;
    receiver = ground arith;
    likely = ground arith;
    free = f;
  }

  module _ (env : Env) (s : Ion) where
    -- The call has entered the contact or has done nothing, and what it answers.
    abbrev pub Outcome : ℕ × Ion → Type 0
    Outcome (cxaddr, t) =
        (IsAcceptable s.contact_index × ((cxaddr, t) ≡ enter_contact env arg prob s))
        ⊎ (¬ IsAcceptable s.contact_index
            × (t ≡ s)
            × ((cxaddr ≡ 0)
                ⊎ ((c : Cxref) × (c ∈ s.contact_index)
                    × (cxref_key c ≡ cxref_key arg)
                    × (c.xmit_rate ≡ xmit_rate)
                    × (cxaddr ≡ c.addr))))

    same_key_meets :
        (c : Cxref)
        → IsContactPlan s.contact_index
        → c ∈ s.contact_index
        → cxref_key c ≡ cxref_key arg
        → IsAcceptable s.contact_index
        → ⊥
    unfolding contact_arg
    same_key_meets c plan m e a = a.free c m (
      sym (ap (λ k. k.from_node) e),
      sym (ap (λ k. k.to_node) e),
      omega (arith, a.ends, ap (λ k. k.from_time) e),
      omega (arith, plan.proper c m, ap (λ k. k.from_time) e),
    )

    pub acceptable_absent :
        IsContactPlan s.contact_index
        → IsAcceptable s.contact_index
        → find order_cxrefs (cxref_key arg) s.contact_index ≡ none
    acceptable_absent plan a =
        elim (Option-cases (find order_cxrefs (cxref_key arg) s.contact_index)) [
          | inl e ↦ e
          | inr (c, e) ↦
              let (m, k) =
                Sorted.find-some order_keys cxref_key order_keys-IsOrder (cxref_key arg)
                  s.contact_index c e in
              absurd (same_key_meets c plan m k a)
        ]

    -- In an index that is in order and free of overlaps, `rfx_insert_contact` enters the contact if
    -- its arguments are valid and it overlaps with no contact of the same nodes. Otherwise it does
    -- nothing and answers 0, or the address of a contact with the same nodes, start and rate.
    pub insert_contact-Outcome :
        IsContactPlan s.contact_index
        → Outcome (insert_contact env from_time to_time from_node to_node xmit_rate prob s)
    unfolding insert_contact contact_arg
    insert_contact-Outcome plan =
        go valid refl (find order_cxrefs (cxref_key arg) s.contact_index) refl
          (overlaps arg s.contact_index) refl
      where
        rate :
            (c : Cxref)
            → c ∈ s.contact_index
            → cxref_key c ≡ cxref_key arg
            → (b : Bool) → (c.xmit_rate == xmit_rate) ≡ b
            → Outcome (if b then (c.addr, s) else (0, s))
        rate c m e true r =
            inr (same_key_meets c plan m e, refl, inr (c, m, e, (==_iff _ _).0 r, refl))
        rate c m e false r = inr (same_key_meets c plan m e, refl, inl refl)

        go :
            (v : Bool)
            → valid ≡ v
            → (f : Option Cxref) → find order_cxrefs (cxref_key arg) s.contact_index ≡ f
            → (b : Bool) → overlaps arg s.contact_index ≡ b
            → Outcome (
                if not v then (0, s) else elim f [
                  | some cxref ↦ if cxref.xmit_rate == xmit_rate then (cxref.addr, s) else (0, s)
                  | none ↦ if b then (0, s) else enter_contact env arg prob s
                ])
        go false v f e b o =
            inr (λ a. false≢true (sym v ∙ valid-IsAcceptable s.contact_index a), refl, inl refl)
        go true v (some c) e b o =
            let (m, k) =
              Sorted.find-some order_keys cxref_key order_keys-IsOrder (cxref_key arg)
                s.contact_index c e in
            rate c m k (c.xmit_rate == xmit_rate) refl
        go true v none e true o =
            let (c, m, h) = (overlaps_iff arg s.contact_index plan e (ground arith)).0 o in
            inr (λ a. a.free c m h, refl, inl refl)
        go true v none e false o = inl (
          IsAcceptable-valid s.contact_index v (λ c m h.
              false≢true
                (sym o ∙ (overlaps_iff arg s.contact_index plan e (ground arith)).1 (c, m, h))),
          refl,
        )
