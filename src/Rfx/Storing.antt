-- ===== src/Rfx/Storing.antt =====
-- deleteContact and rfx_insert_contact on the contact index and the database.
use cgr_jni.Base.{ℕ, ◌≡◌, ◌≢◌, ◌⊎◌, ◌↔◌, inl, inr, refl, sym, ap, subst, ◌∈◌, arith, ◌∙◌, mem_last}
use cgr_jni.Plan.{order_keys}
use cgr_jni.Rbt.Change
use cgr_jni.Rbt.Sorted
use cgr_jni.Rfx.{Cxref, IonContact, Ion, Env, cxref_key}
use cgr_jni.Plan.Order.{order_keys-IsOrder}
use cgr_jni.Rfx.Contacts.{delete_elt, delete_contact, enter_contact, insert_cxref}
use cgr_jni.Rfx.Kept.{IsKept, timed, timed_same, insert_at, delete_at, insert_at-mem}
use cgr_jni.Rfx.Stored.{
  Records, IsStored, elt-inj, delete_elt_iff, delete_elt-IsAscending, append_elt-IsAscending,
  append_elt_iff,
}

pub delete_contact-IsStored :
    (env : Env) (c : Cxref) (s : Ion)
    → c ∈ s.contact_index
    → IsKept s
    → IsStored s
    → IsStored (delete_contact env c s)
unfolding delete_contact
delete_contact-IsStored env c s c_in kept h = record {
  ascending = delete_elt-IsAscending c.contact_elt s.contacts h.ascending;
  fresh = λ x m. h.fresh x ((rest x).0 m).0;
  stored = λ d m.
      let (d_in, n) = (left d).0 m in
      let (x, x_in, r) = h.stored d d_in in
      (x, (rest x).1 (x_in, λ e. n (same_entry d x d_in x_in r e)), r);
  indexed = λ x m.
      let (x_in, n) = (rest x).0 m in
      let (d, d_in, r) = h.indexed x x_in in
      (
        d,
        (left d).1 (
          d_in,
          λ e. n (
              r.elt
              ∙ ap (λ z. z.contact_elt)
                  (Sorted.key-inj order_keys cxref_key order_keys-IsOrder s.contact_index d c
                    kept.plan.sorted d_in c_in e)),
        ),
        r,
      );
}
  where
    rest :
        (x : IonContact)
        → (x ∈ delete_elt c.contact_elt s.contacts) ↔ ((x ∈ s.contacts) × (x.elt ≢ c.contact_elt))
    rest x = delete_elt_iff c.contact_elt s.contacts x h.ascending

    left :
        (d : Cxref)
        → (d ∈ delete_at c s.contact_index) ↔ ((d ∈ s.contact_index) × (cxref_key d ≢ cxref_key c))
    left d =
        Change.delete_iff order_keys cxref_key order_keys-IsOrder (cxref_key c) s.contact_index d
          kept.plan.sorted

    same_entry :
        (d : Cxref) (x : IonContact)
        → d ∈ s.contact_index
        → x ∈ s.contacts
        → Records d x
        → x.elt ≡ c.contact_elt
        → cxref_key d ≡ cxref_key c
    same_entry d x d_in x_in r e =
        let (y, y_in, q) = h.stored c c_in in
        let same = elt-inj s.contacts x y h.ascending x_in y_in (e ∙ sym q.elt) in
        ground (
          arith,
          r.from_node,
          r.to_node,
          r.from_time,
          q.from_node,
          q.to_node,
          q.from_time,
          ap (λ z. z.from_node) same,
          ap (λ z. z.to_node) same,
          ap (λ z. z.from_time) same,
        )

pub enter_contact-IsStored :
    (env : Env) (c : Cxref) (prob : ℕ) (s : Ion)
    → IsStored s
    → IsStored (enter_contact env c prob s).1
unfolding enter_contact insert_cxref
enter_contact-IsStored env c prob s h = record {
  ascending = append_elt-IsAscending s.contacts entry h.ascending (λ z m. h.fresh z m);
  fresh = λ y m. elim (mem_last s.contacts entry y m) [
    | inl old ↦ omega (arith, h.fresh y old)
    | inr e ↦ omega (arith, ap (λ z. z.elt) e)
  ];
  stored = λ d m. elim (insert_at-mem x s.contact_index d m) [
    | inl e ↦ (
      entry,
      (append_elt_iff s.contacts entry entry).1 (inr refl),
      subst (λ z. Records z entry) (sym e) recorded,
    )
    | inr old ↦
        let (y, y_in, r) = h.stored d old in
        (y, (append_elt_iff s.contacts entry y).1 (inl y_in), r)
  ];
  indexed = λ y m. elim (mem_last s.contacts entry y m) [
    | inl old ↦ let (d, d_in, r) = h.indexed y old in (d, (inserted d).1 (inr d_in), r)
    | inr e ↦ (x, (inserted x).1 (inl refl), subst (λ z. Records x z) (sym e) recorded)
  ];
}
  where
    entry : IonContact
    entry = record {
      elt = s.next_elt;
      from_time = c.from_time;
      to_time = c.to_time;
      from_node = c.from_node;
      to_node = c.to_node;
      xmit_rate = c.xmit_rate;
      prob = prob;
    }

    given : Cxref
    given = record c { addr = s.next_addr; contact_elt = s.next_elt }

    x : Cxref
    x = timed env given

    recorded : Records x entry
    recorded =
        let (k, t, a, e, r) = timed_same env given in
        record {
          elt = sym e;
          from_time = sym (ap (λ z. z.from_time) k);
          to_time = sym t;
          from_node = sym (ap (λ z. z.from_node) k);
          to_node = sym (ap (λ z. z.to_node) k);
          xmit_rate = sym r;
        }

    inserted : (d : Cxref) → (d ∈ insert_at x s.contact_index) ↔ ((d ≡ x) ⊎ d ∈ s.contact_index)
    inserted d =
        Change.insert_iff order_keys cxref_key order_keys-IsOrder (cxref_key x) x s.contact_index d
