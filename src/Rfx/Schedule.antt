-- ===== src/Rfx/Schedule.antt =====
-- The timeline next to the contact index.
use cgr_jni.Base.{
  ◌≡◌, ◌≢◌, ◌<◌, ◌⊎◌, ◌↔◌, inl, inr, refl, sym, ap, subst, Bool, true, false, ◌∈◌, arith, ◌∙◌,
}
use cgr_jni.Base.Int.{pos}
use cgr_jni.Plan.{order_keys}
use cgr_jni.Rbt.Change
use cgr_jni.Rbt.Sorted
use cgr_jni.Rfx.{EventType, Event, Cxref, Ion, Env, cxref_key}
use cgr_jni.Plan.Order.{order_keys-IsOrder}
use cgr_jni.Rfx.Contacts.{
  insert_cxref, delete_contact, post_contact_events, cancel_contact_events, xmit_times, fire_times,
}
use cgr_jni.Rfx.Kept.{IsKept, timed, timed_same, insert_at, delete_at, insert_at-mem}
use cgr_jni.Rfx.Events.{
  due_event, IsEventOf, IsTimeline, post_contact_events_iff, post_contact_events-IsTimeline,
  cancel_contact_events_iff, cancel_contact_events-IsTimeline,
}

abbrev pub is_contact_event : EventType → Bool
is_contact_event EventType.stop_imputed_range = false
is_contact_event EventType.stop_asserted_range = false
is_contact_event EventType.start_imputed_range = false
is_contact_event EventType.start_asserted_range = false
is_contact_event _ = true

-- rfx.c never sets the times of `IonStartRecv` and `IonStopRecv`.
abbrev pub IsQuiet : Cxref → Type 0
IsQuiet c = (c.start_recv ≡ pos 0) × (c.stop_recv ≡ pos 0)

pub record IsScheduled (s : Ion) : Type 0 where
  pub ordered : IsTimeline s.timeline
  pub known : (e : Event) → e ∈ s.timeline → e.ref < s.next_addr
  pub quiet : (c : Cxref) → c ∈ s.contact_index → IsQuiet c
  pub listed :
      (e : Event)
      → e ∈ s.timeline
      → is_contact_event e.type ≡ true
      → (c : Cxref) × (c ∈ s.contact_index) × IsEventOf c e
  pub complete : (c : Cxref) (e : Event) → c ∈ s.contact_index → IsEventOf c e → e ∈ s.timeline

pub timed-IsQuiet : (env : Env) (c : Cxref) → IsQuiet c → IsQuiet (timed env c)
unfolding xmit_times fire_times
timed-IsQuiet env c q = ground (arith, q)

pub insert_cxref-IsScheduled :
    (env : Env) (c : Cxref) (s : Ion)
    → IsQuiet c
    → IsScheduled s
    → IsScheduled (insert_cxref env c s).1
unfolding insert_cxref
insert_cxref-IsScheduled env c s q h = record {
  ordered =
      post_contact_events-IsTimeline x s.timeline h.ordered
        (λ kind m. new (due_event x kind) m addr);
  known = λ e m. elim ((posted e).0 m) [
    | inl old ↦ omega (arith, h.known e old)
    | inr d ↦ omega (arith, ap (λ z. z.ref) d.0, addr)
  ];
  quiet = λ d m. elim (insert_at-mem x s.contact_index d m) [
    | inl e ↦ subst (λ z. IsQuiet z) (sym e) quiet
    | inr old ↦ h.quiet d old
  ];
  listed = λ e m k. elim ((posted e).0 m) [
    | inl old ↦ let (d, d_in, g) = h.listed e old k in (d, (inserted d).1 (inr d_in), g)
    | inr d ↦ (x, (inserted x).1 (inl refl), d)
  ];
  complete = λ d e m k. (posted e).1 (elim (insert_at-mem x s.contact_index d m) [
    | inl same ↦ inr (subst (λ z. IsEventOf z e) same k)
    | inr old ↦ inl (h.complete d e old k)
  ]);
}
  where
    x : Cxref
    x = timed env (record c { addr = s.next_addr })

    quiet : IsQuiet x
    quiet = timed-IsQuiet env (record c { addr = s.next_addr }) q

    addr : x.addr ≡ s.next_addr
    addr = let (_, _, a, _, _) = timed_same env (record c { addr = s.next_addr }) in a

    new : (e : Event) → e ∈ s.timeline → e.ref ≢ s.next_addr
    new e m k = omega (arith, h.known e m, k)

    posted :
        (e : Event) → (e ∈ post_contact_events x s.timeline) ↔ ((e ∈ s.timeline) ⊎ IsEventOf x e)
    posted e = post_contact_events_iff x s.timeline e quiet.0 quiet.1

    inserted : (d : Cxref) → (d ∈ insert_at x s.contact_index) ↔ ((d ≡ x) ⊎ d ∈ s.contact_index)
    inserted d =
        Change.insert_iff order_keys cxref_key order_keys-IsOrder (cxref_key x) x s.contact_index d

pub delete_contact-IsScheduled :
    (env : Env) (c : Cxref) (s : Ion)
    → c ∈ s.contact_index
    → IsKept s
    → IsScheduled s
    → IsScheduled (delete_contact env c s)
unfolding delete_contact
delete_contact-IsScheduled env c s c_in kept h = record {
  ordered = cancel_contact_events-IsTimeline c s.timeline h.ordered;
  known = λ e m. h.known e ((cancelled e).0 m).0;
  quiet = λ d m. h.quiet d ((left d).0 m).0;
  listed = λ e m k.
      let (old, n) = (cancelled e).0 m in
      let (d, d_in, g) = h.listed e old k in
      (
        d,
        (left d).1 (
          d_in,
          λ same. n (
              subst (λ z. IsEventOf z e)
                (Sorted.key-inj order_keys cxref_key order_keys-IsOrder s.contact_index d c
                  kept.plan.sorted d_in c_in same)
                g),
        ),
        g,
      );
  complete = λ d e m g.
      let (d_in, n) = (left d).0 m in
      (cancelled e).1 (
        h.complete d e d_in g,
        λ k. n (
            ap cxref_key
              (kept.distinct d c d_in c_in (sym (ap (λ z. z.ref) g.0) ∙ ap (λ z. z.ref) k.0))),
      );
}
  where
    cancelled :
        (e : Event)
        → (e ∈ cancel_contact_events c s.timeline) ↔ ((e ∈ s.timeline) × ¬ IsEventOf c e)
    cancelled e = cancel_contact_events_iff c s.timeline e h.ordered

    left :
        (d : Cxref)
        → (d ∈ delete_at c s.contact_index) ↔ ((d ∈ s.contact_index) × (cxref_key d ≢ cxref_key c))
    left d =
        Change.delete_iff order_keys cxref_key order_keys-IsOrder (cxref_key c) s.contact_index d
          kept.plan.sorted
