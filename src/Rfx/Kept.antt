-- ===== src/Rfx/Kept.antt =====
-- The contact index under insertions and deletions.
use cgr_jni.Base.{
  suc, ◌≡◌, ◌≢◌, ◌≤◌, ◌<◌, ◌⊎◌, inl, inr, sym, ap, subst, none, List, ◌∈◌, arith, ◌∙◌,
}
use cgr_jni.Plan.{order_keys}
use cgr_jni.Rbt.{find, insert, delete}
use cgr_jni.Rbt.Change
use cgr_jni.Rfx.{Cxref, Ion, Env, cxref_key, order_cxrefs}
use cgr_jni.Plan.Order.{order_keys-IsOrder}
use cgr_jni.Rfx.Contacts.{xmit_times, fire_times, insert_cxref, delete_contact}
use cgr_jni.Rfx.Overlap.{IsContactPlan, Meets}

-- The addresses of the contacts are those that have been handed out, each once.
pub record IsKept (s : Ion) : Type 0 where
  pub plan : IsContactPlan s.contact_index
  pub numbered : (c : Cxref) → c ∈ s.contact_index → (0 < c.addr) × (c.addr < s.next_addr)
  pub distinct : (c d : Cxref) → c ∈ s.contact_index → d ∈ s.contact_index → c.addr ≡ d.addr → c ≡ d
  pub positive : 0 < s.next_addr

abbrev pub insert_at : Cxref → List Cxref → List Cxref
insert_at x = insert order_cxrefs (cxref_key x) x

abbrev pub delete_at : Cxref → List Cxref → List Cxref
delete_at x = delete order_cxrefs (cxref_key x)

pub insert_at-mem :
    (x : Cxref) (index : List Cxref) (c : Cxref) → c ∈ insert_at x index → (c ≡ x) ⊎ c ∈ index
insert_at-mem x index c m =
    (Change.insert_iff order_keys cxref_key order_keys-IsOrder (cxref_key x) x index c).0 m

pub delete_at-mem :
    (x : Cxref) (index : List Cxref) (c : Cxref)
    → IsContactPlan index
    → c ∈ delete_at x index
    → c ∈ index
delete_at-mem x index c plan m =
    ((Change.delete_iff order_keys cxref_key order_keys-IsOrder (cxref_key x) index c plan.sorted).0
      m).0

-- A contact that overlaps with no other one ends before those that start later.
apart_before :
    (c d : Cxref)
    → ¬ Meets c d
    → c.from_node ≡ d.from_node
    → c.to_node ≡ d.to_node
    → c.from_time < d.from_time
    → d.from_time < d.to_time
    → c.to_time ≤ d.from_time
apart_before c d n e f l p = ground arith

apart_behind :
    (c d : Cxref)
    → ¬ Meets d c
    → c.from_node ≡ d.from_node
    → c.to_node ≡ d.to_node
    → c.from_time < d.from_time
    → d.from_time < d.to_time
    → c.to_time ≤ d.from_time
apart_behind c d n e f l p = ground arith

pub insert_at-IsContactPlan :
    (x : Cxref) (index : List Cxref)
    → IsContactPlan index
    → find order_cxrefs (cxref_key x) index ≡ none
    → (0 < x.from_time) × (x.from_time < x.to_time)
    → ((c : Cxref) → c ∈ index → ¬ Meets x c)
    → IsContactPlan (insert_at x index)
insert_at-IsContactPlan x index plan e p free = record {
  sorted = Change.insert-IsSorted order_keys cxref_key order_keys-IsOrder x index plan.sorted e;
  proper = λ c m. proper c (insert_at-mem x index c m);
  disjoint = λ c d m n. disjoint c d (insert_at-mem x index c m) (insert_at-mem x index d n);
}
  where
    proper : (c : Cxref) → (c ≡ x) ⊎ c ∈ index → (0 < c.from_time) × (c.from_time < c.to_time)
    proper c (inl same) = subst (λ z. (0 < z.from_time) × (z.from_time < z.to_time)) (sym same) p
    proper c (inr m) = plan.proper c m

    disjoint :
        (c d : Cxref)
        → (c ≡ x) ⊎ c ∈ index
        → (d ≡ x) ⊎ d ∈ index
        → c.from_node ≡ d.from_node
        → c.to_node ≡ d.to_node
        → c.from_time < d.from_time
        → c.to_time ≤ d.from_time
    disjoint c d (inl u) (inl v) f g l =
        absurd (omega (arith, l, ap (λ z. z.from_time) (u ∙ sym v)))
    disjoint c d (inl u) (inr n) f g l =
        apart_before c d (subst (λ z. ¬ Meets z d) (sym u) (free d n)) f g l (plan.proper d n).1
    disjoint c d (inr m) (inl v) f g l =
        apart_behind c d (subst (λ z. ¬ Meets z c) (sym v) (free c m)) f g l (proper d (inl v)).1
    disjoint c d (inr m) (inr n) f g l = plan.disjoint c d m n f g l

pub delete_at-IsContactPlan :
    (x : Cxref) (index : List Cxref) → IsContactPlan index → IsContactPlan (delete_at x index)
delete_at-IsContactPlan x index plan = record {
  sorted =
      Change.delete-IsSorted order_keys cxref_key order_keys-IsOrder (cxref_key x) index
        plan.sorted;
  proper = λ c m. plan.proper c (delete_at-mem x index c plan m);
  disjoint = λ c d m n.
      plan.disjoint c d (delete_at-mem x index c plan m) (delete_at-mem x index d plan n);
}

-- The contact with the times of its events, as it is entered in the index.
abbrev pub timed : Env → Cxref → Cxref
timed env c = fire_times env (xmit_times env c)

pub timed_same :
    (env : Env) (c : Cxref)
    → (cxref_key (timed env c) ≡ cxref_key c)
      × ((timed env c).to_time ≡ c.to_time)
      × ((timed env c).addr ≡ c.addr)
      × ((timed env c).contact_elt ≡ c.contact_elt)
      × ((timed env c).xmit_rate ≡ c.xmit_rate)
unfolding xmit_times fire_times
timed_same env c = ground arith

pub insert_cxref-IsKept :
    (env : Env) (c : Cxref) (s : Ion)
    → IsKept s
    → find order_cxrefs (cxref_key c) s.contact_index ≡ none
    → (0 < c.from_time) × (c.from_time < c.to_time)
    → ((d : Cxref) → d ∈ s.contact_index → ¬ Meets c d)
    → IsKept (insert_cxref env c s).1
unfolding insert_cxref
insert_cxref-IsKept env c s kept absent p free = record {
  plan =
      insert_at-IsContactPlan x s.contact_index kept.plan
        (subst (λ k. find order_cxrefs k s.contact_index ≡ none) (sym same.0) absent) times meets;
  numbered = λ d m. numbered d (insert_at-mem x s.contact_index d m);
  distinct = λ d e m n.
      distinct d e (insert_at-mem x s.contact_index d m) (insert_at-mem x s.contact_index e n);
  positive = omega (arith, kept.positive);
}
  where
    x : Cxref
    x = timed env (record c { addr = s.next_addr })

    same : (cxref_key x ≡ cxref_key c) × (x.to_time ≡ c.to_time) × (x.addr ≡ s.next_addr)
    same = let (k, t, a, _, _) = timed_same env (record c { addr = s.next_addr }) in (k, t, a)

    times : (0 < x.from_time) × (x.from_time < x.to_time)
    times = omega (arith, p, ap (λ k. k.from_time) same.0, same.1)

    meets : (d : Cxref) → d ∈ s.contact_index → ¬ Meets x d
    meets d m (e, f, g, h) = free d m (
      sym (ap (λ k. k.from_node) same.0) ∙ e,
      sym (ap (λ k. k.to_node) same.0) ∙ f,
      omega (arith, g, same.1),
      omega (arith, h, ap (λ k. k.from_time) same.0),
    )

    numbered :
        (d : Cxref) → (d ≡ x) ⊎ d ∈ s.contact_index → (0 < d.addr) × (d.addr < suc s.next_addr)
    numbered d (inl e) = ground (arith, same, kept.positive)
    numbered d (inr m) = omega (arith, kept.numbered d m)

    new_addr : (d : Cxref) → d ∈ s.contact_index → d.addr ≢ x.addr
    new_addr d m e = omega (arith, kept.numbered d m, same.2, e)

    distinct :
        (d e : Cxref)
        → (d ≡ x) ⊎ d ∈ s.contact_index
        → (e ≡ x) ⊎ e ∈ s.contact_index
        → d.addr ≡ e.addr
        → d ≡ e
    distinct d e (inl u) (inl v) h = u ∙ sym v
    distinct d e (inl u) (inr n) h = absurd (new_addr e n (sym h ∙ ap (λ z. z.addr) u))
    distinct d e (inr m) (inl v) h = absurd (new_addr d m (h ∙ ap (λ z. z.addr) v))
    distinct d e (inr m) (inr n) h = kept.distinct d e m n h

pub delete_contact-IsKept :
    (env : Env) (c : Cxref) (s : Ion) → IsKept s → IsKept (delete_contact env c s)
unfolding delete_contact
delete_contact-IsKept env c s kept = record {
  plan = delete_at-IsContactPlan c s.contact_index kept.plan;
  numbered = λ d m. kept.numbered d (delete_at-mem c s.contact_index d kept.plan m);
  distinct = λ d e m n.
      kept.distinct d e (delete_at-mem c s.contact_index d kept.plan m)
        (delete_at-mem c s.contact_index e kept.plan n);
  positive = kept.positive;
}
