-- ===== src/Rfx/Sound.antt =====
-- The state between two calls of rfx.c, as its calls on contacts keep it.
use cgr_jni.Base.{ℕ, ◌≡◌, ◌<◌, inl, inr, refl, sym, ap, subst, none, ◌∈◌}
use cgr_jni.Rbt.{find}
use cgr_jni.Rfx.{Cxref, Ion, Env, cxref_key, order_cxrefs}
use cgr_jni.Rfx.Contacts.{contact_arg, insert_cxref, enter_contact, insert_contact, delete_contact}
use cgr_jni.Rfx.Overlap.{Meets}
use cgr_jni.Rfx.Accept.{IsAcceptable, acceptable_absent, insert_contact-Outcome}
use cgr_jni.Rfx.Kept.{IsKept, insert_cxref-IsKept, delete_contact-IsKept}
use cgr_jni.Rfx.Schedule.{
  IsScheduled, IsQuiet, insert_cxref-IsScheduled, delete_contact-IsScheduled,
}
use cgr_jni.Rfx.Stored.{IsStored}
use cgr_jni.Rfx.Storing.{enter_contact-IsStored, delete_contact-IsStored}

-- The index is in order and without overlaps, its contacts are those of the database, and the
-- timeline has their events.
pub record IsSound (s : Ion) : Type 0 where
  pub kept : IsKept s
  pub scheduled : IsScheduled s
  pub stored : IsStored s

pub enter_contact-IsSound :
    (env : Env) (c : Cxref) (prob : ℕ) (s : Ion)
    → IsSound s
    → find order_cxrefs (cxref_key c) s.contact_index ≡ none
    → (0 < c.from_time) × (c.from_time < c.to_time)
    → IsQuiet c
    → ((d : Cxref) → d ∈ s.contact_index → ¬ Meets c d)
    → IsSound (enter_contact env c prob s).1
unfolding enter_contact
enter_contact-IsSound env c prob s h e p q free = record {
  kept =
      insert_cxref-IsKept env (record c { contact_elt = s.next_elt }) _
        (record {
          plan = h.kept.plan;
          numbered = h.kept.numbered;
          distinct = h.kept.distinct;
          positive = h.kept.positive;
        })
        e p free;
  scheduled =
      insert_cxref-IsScheduled env (record c { contact_elt = s.next_elt }) _ q
        (record {
          ordered = h.scheduled.ordered;
          known = h.scheduled.known;
          quiet = h.scheduled.quiet;
          listed = h.scheduled.listed;
          complete = h.scheduled.complete;
        });
  stored = enter_contact-IsStored env c prob s h.stored;
}

-- A call of `rfx_insert_contact` keeps the state sound.
pub insert_contact-IsSound :
    (env : Env) (from_time to_time from_node to_node xmit_rate prob : ℕ) (s : Ion)
    → IsSound s
    → IsSound (insert_contact env from_time to_time from_node to_node xmit_rate prob s).1
unfolding contact_arg
insert_contact-IsSound env from_time to_time from_node to_node xmit_rate prob s h =
    elim (insert_contact-Outcome from_time to_time from_node to_node xmit_rate prob env s
      h.kept.plan) [
        | inl (a, e) ↦ subst (λ r. IsSound r.1) (sym e) (entered a)
        | inr (_, e, _) ↦ subst (λ t. IsSound t) (sym e) h
      ]
  where
    entered :
        IsAcceptable from_time to_time from_node to_node xmit_rate prob s.contact_index
        → IsSound
            (enter_contact env (contact_arg from_time to_time from_node to_node xmit_rate) prob s).1
    entered a =
        enter_contact-IsSound env (contact_arg from_time to_time from_node to_node xmit_rate) prob s
          h
          (acceptable_absent from_time to_time from_node to_node xmit_rate prob env s h.kept.plan a)
          (a.begins, a.ends) (refl, refl) a.free

pub delete_contact-IsSound :
    (env : Env) (c : Cxref) (s : Ion)
    → c ∈ s.contact_index
    → IsSound s
    → IsSound (delete_contact env c s)
delete_contact-IsSound env c s m h = record {
  kept = delete_contact-IsKept env c s h.kept;
  scheduled = delete_contact-IsScheduled env c s m h.kept h.scheduled;
  stored = delete_contact-IsStored env c s m h.kept h.stored;
}

-- A call of `rfx_insert_contact` does not touch the ranges.
pub insert_contact-range_index :
    (env : Env) (from_time to_time from_node to_node xmit_rate prob : ℕ) (s : Ion)
    → IsSound s
    → (insert_contact env from_time to_time from_node to_node xmit_rate prob s).1.range_index
      ≡ s.range_index
unfolding enter_contact insert_cxref
insert_contact-range_index env from_time to_time from_node to_node xmit_rate prob s h =
    elim (insert_contact-Outcome from_time to_time from_node to_node xmit_rate prob env s
      h.kept.plan) [
        | inl (_, e) ↦ ap (λ r. r.1.range_index) e
        | inr (_, e, _) ↦ ap (λ t. t.range_index) e
      ]
