-- ===== src/Rfx/Steps.antt =====
-- Sequences of calls of rfx.c, and the states that they reach.
use cgr_jni.Base.{
  ℕ, ◌≡◌, ◌<◌, ◌≤◌, inl, inr, refl, sym, ap, subst, some, List, [], ◌∷◌, ◌∈◌, All, map, arith, ◌∙◌,
}
use Prim.Native.Nat.{Ordering}
use cgr_jni.Plan.{Contact, contact_key, order_keys}
use cgr_jni.Plan.Index.{IsSorted}
use cgr_jni.Rbt.Sorted
use cgr_jni.Rbt.Sorted.{some-inj}
use cgr_jni.Cgr.Note.{max_time}
use cgr_jni.Cgr.Routes.Clear.{IsPlan}
use cgr_jni.Rfx.{Cxref, Ion, Env, cxref_key, plan_contact}
use cgr_jni.Rfx.Contacts.{insert_contact, remove_contact}
use cgr_jni.Rfx.Ranges.{insert_range, remove_range}
use cgr_jni.Rfx.RangeIndex.{IsRangePlan, insert_range-IsRangePlan}
use cgr_jni.Rfx.Carries.{Carries-IsSound}
use cgr_jni.Rfx.RangeCarries.{insert_range-Carries}
use cgr_jni.Rfx.RangeKeeps.{remove_range-Carries, remove_range-IsRangePlan}
use cgr_jni.Rfx.Sound.{IsSound, insert_contact-IsSound, insert_contact-range_index}
use cgr_jni.Rfx.Remove.{remove_contact-Leaves}

-- One call that returns, at any time and on any node.
pub data Step (s t : Ion) : Type 0 where
  insert_contact_call :
      (env : Env) (from_time to_time from_node to_node xmit_rate prob : ℕ)
      → t ≡ (insert_contact env from_time to_time from_node to_node xmit_rate prob s).1
      → Step s t
  remove_contact_call :
      (env : Env) (from_time from_node to_node : ℕ)
      → remove_contact env from_time from_node to_node s ≡ some t
      → Step s t
  insert_range_call :
      (env : Env) (from_time to_time from_node to_node owlt : ℕ)
      → t ≡ (insert_range env from_time to_time from_node to_node owlt s).1
      → Step s t
  remove_range_call :
      (env : Env) (fuel from_time from_node to_node : ℕ)
      → remove_range fuel env from_time from_node to_node s ≡ some t
      → Step s t

-- The state after `rfx_stop` and a start with an empty database; 0 is no address.
abbrev pub empty_ion : Ion
empty_ion = record {
  nodes = [];
  neighbors = [];
  contact_index = [];
  range_index = [];
  timeline = [];
  probes = [];
  last_edit_time = 0;
  contacts = [];
  ranges = [];
  next_addr = 1;
  next_elt = 1;
}

pub data Reach : Ion → Type 0 where
  here : Reach empty_ion
  next : {s t : Ion} → Reach s → Step s t → Reach t

-- The two indexes and what goes with them.
pub record IsGood (s : Ion) : Type 0 where
  pub sound : IsSound s
  pub ranges : IsRangePlan s.range_index

empty-IsGood : IsGood empty_ion
empty-IsGood = record {
  sound = record {
    kept = record {
      plan = record { sorted = tt; proper = λ c m. absurd m; disjoint = λ c d m. absurd m };
      numbered = λ c m. absurd m;
      distinct = λ c d m. absurd m;
      positive = omega arith;
    };
    scheduled = record {
      ordered = tt;
      known = λ e m. absurd m;
      quiet = λ c m. absurd m;
      listed = λ e m. absurd m;
      complete = λ c e m. absurd m;
    };
    stored = record {
      ascending = tt;
      fresh = λ x m. absurd m;
      stored = λ c m. absurd m;
      indexed = λ x m. absurd m;
    };
  };
  ranges = record { sorted = tt; proper = λ r m. absurd m };
}

Step-IsGood : {s t : Ion} → Step s t → IsGood s → IsGood t
Step-IsGood {s} {t} (insert_contact_call env from_time to_time from_node to_node xmit_rate prob e)
      h =
    subst IsGood (sym e) (record {
      sound =
          insert_contact-IsSound env from_time to_time from_node to_node xmit_rate prob s h.sound;
      ranges =
          subst IsRangePlan
            (sym (
              insert_contact-range_index env from_time to_time from_node to_node xmit_rate prob s
                h.sound))
            h.ranges;
    })
Step-IsGood {s} {t} (remove_contact_call env from_time from_node to_node e) h =
    let (u, f, sound, same, _) = remove_contact-Leaves env from_node to_node from_time s h.sound in
    subst IsGood (some-inj u t (sym f ∙ e))
      (record { sound = sound; ranges = subst IsRangePlan (sym same) h.ranges })
Step-IsGood {s} {t} (insert_range_call env from_time to_time from_node to_node owlt e) h =
    subst IsGood (sym e) (record {
      sound =
          Carries-IsSound s _ (insert_range-Carries env from_time to_time from_node to_node owlt s)
            h.sound;
      ranges = insert_range-IsRangePlan env from_time to_time from_node to_node owlt s h.ranges;
    })
Step-IsGood {s} {t} (remove_range_call env fuel from_time from_node to_node e) h = record {
  sound =
      Carries-IsSound s t (remove_range-Carries fuel env from_time from_node to_node s t e) h.sound;
  ranges = remove_range-IsRangePlan fuel env from_time from_node to_node s t e h.ranges;
}

-- After any sequence of calls that insert or remove contacts or ranges, from an empty plan on, the
-- contact index is in order and free of overlaps, the database holds the same contacts, the timeline
-- has exactly their events of the contact types, and the range index is in order.
pub Reach-IsGood : (s : Ion) → Reach s → IsGood s
Reach-IsGood s here = empty-IsGood
Reach-IsGood s (next r step) = Step-IsGood step (Reach-IsGood _ r)

plan-IsSorted :
    (index : List Cxref)
    → Sorted.IsSorted order_keys cxref_key index
    → IsSorted contact_key (map plan_contact index)
plan-IsSorted [] s = tt
plan-IsSorted (x ∷ xs) s = (above xs s.0, plan-IsSorted xs s.1)
  where
    above :
        (ys : List Cxref)
        → All (λ y. order_keys (cxref_key x) (cxref_key y) ≡ Ordering.lt) ys
        → All (λ y. order_keys (cxref_key x) (contact_key y) ≡ Ordering.lt) (map plan_contact ys)
    above [] h = tt
    above (y ∷ ys) h = (h.0, above ys h.1)

map-mem :
    (xs : List Cxref) (c : Contact)
    → c ∈ map plan_contact xs
    → (d : Cxref) × (d ∈ xs) × (c ≡ plan_contact d)
map-mem [] c m = absurd m
map-mem (x ∷ xs) c (inl e) = (x, inl refl, e)
map-mem (x ∷ xs) c (inr m) = let (d, d_in, e) = map-mem xs c m in (d, inr d_in, e)

plan-started :
    (index : List Cxref)
    → ((c : Cxref) → c ∈ index → 0 < c.from_time)
    → All (λ (c : Contact). 0 < c.from_time) (map plan_contact index)
plan-started [] h = tt
plan-started (x ∷ xs) h = (h x (inl refl), plan-started xs (λ c m. h c (inr m)))

-- After any such sequence the contact plan is one that route computation can rely on, if no contact
-- of it ends after MAX_TIME, the present is not after MAX_TIME, and the root contact has an address
-- that no contact has been given.
pub Reach-IsPlan :
    (s : Ion) (root_addr current_time : ℕ)
    → Reach s
    → s.next_addr ≤ root_addr
    → current_time ≤ max_time
    → ((c : Cxref) → c ∈ s.contact_index → c.to_time ≤ max_time)
    → IsPlan (map plan_contact s.contact_index) root_addr current_time
Reach-IsPlan s root_addr current_time r fresh now ends =
    let kept = (Reach-IsGood s r).sound.kept in
    record {
      ordered = record {
        sorted = plan-IsSorted s.contact_index kept.plan.sorted;
        started = plan-started s.contact_index (λ c m. (kept.plan.proper c m).0);
      };
      distinct = λ c d m n e.
          let (c', c_in, c_is) = map-mem s.contact_index c m in
          let (d', d_in, d_is) = map-mem s.contact_index d n in
          c_is
          ∙ ap plan_contact (
              kept.distinct c' d' c_in d_in
                (sym (ap (λ z. z.addr) c_is) ∙ e ∙ ap (λ z. z.addr) d_is))
          ∙ sym d_is;
      apart = λ c m e.
          let (c', c_in, c_is) = map-mem s.contact_index c m in
          omega (arith, kept.numbered c' c_in, ap (λ z. z.addr) c_is, e, fresh);
      in_time = now;
      ends = λ c m.
          let (c', c_in, c_is) = map-mem s.contact_index c m in
          omega (arith, ends c' c_in, ap (λ z. z.to_time) c_is);
    }
