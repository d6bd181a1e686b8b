-- ===== src/Rfx/Undo.antt =====
-- rfx_insert_contact followed by rfx_remove_contact of the same contact: the index, the timeline and
-- the contacts of the data base.
use cgr_jni.Base.{
  ℕ, ◌≡◌, ◌≢◌, ◌<◌, inl, inr, refl, sym, ap, subst, Option, some, [], ◌∷◌, ◌++◌, ◌∈◌, arith, lt→ltb,
}
use cgr_jni.Plan.{order_keys}
use cgr_jni.Rbt.{find}
use cgr_jni.Rbt.Change
use cgr_jni.Rbt.Sorted
use cgr_jni.Rfx.{Event, Cxref, IonContact, Ion, Env, cxref_key, order_cxrefs, order_events}
use cgr_jni.Plan.Order.{order_keys-IsOrder}
use cgr_jni.Rfx.Orders.{order_events-IsOrder}
use cgr_jni.Rfx.Contacts.{
  contact_arg, insert_cxref, enter_contact, insert_contact, delete_contact, remove_contact,
  delete_elt, post_contact_events, cancel_contact_events,
}
use cgr_jni.Rfx.Accept.{IsAcceptable, insert_contact-Outcome}
use cgr_jni.Rfx.Kept.{timed, timed_same, insert_at}
use cgr_jni.Rfx.Events.{
  due_event, post_contact_events_iff, post_contact_events-IsTimeline, cancel_contact_events_iff,
  cancel_contact_events-IsTimeline,
}
use cgr_jni.Rfx.Schedule.{IsScheduled, IsQuiet, timed-IsQuiet}
use cgr_jni.Rfx.Stored.{delete_elt-append}
use cgr_jni.Rfx.Sound.{IsSound}

-- The contacts, their events and the database are those of the state before.
abbrev pub Restores : Ion → Option Ion → Type 0
Restores s r =
    (u : Ion) × (r ≡ some u)
    × (u.contact_index ≡ s.contact_index)
    × (u.timeline ≡ s.timeline)
    × (u.contacts ≡ s.contacts)

cancel-post :
    (x : Cxref) (s : Ion)
    → IsScheduled s
    → IsQuiet x
    → x.addr ≡ s.next_addr
    → cancel_contact_events x (post_contact_events x s.timeline) ≡ s.timeline
cancel-post x s h q a =
    Sorted.same_members order_events (λ e. e) order_events-IsOrder _ s.timeline
      (cancel_contact_events-IsTimeline x _ ordered) h.ordered
      (λ e m.
        let (m', n) = (cancel_contact_events_iff x _ e ordered).0 m in
        elim ((post_contact_events_iff x s.timeline e q.0 q.1).0 m') [
          | inl old ↦ old
          | inr d ↦ absurd (n d)
        ])
      (λ e m. (cancel_contact_events_iff x _ e ordered).1 (
        (post_contact_events_iff x s.timeline e q.0 q.1).1 (inl m),
        λ d. new e m (ap (λ z. z.ref) d.0),
      ))
  where
    new : (e : Event) → e ∈ s.timeline → e.ref ≢ x.addr
    new e m k = omega (arith, h.known e m, k, a)

    ordered : Sorted.IsSorted order_events (λ e. e) (post_contact_events x s.timeline)
    ordered =
        post_contact_events-IsTimeline x s.timeline h.ordered
          (λ kind m. new (due_event x kind) m refl)

enter-remove :
    (env later : Env) (c : Cxref) (prob : ℕ) (s : Ion)
    → IsSound s
    → IsQuiet c
    → 0 < c.from_time
    → Restores s
        (remove_contact later c.from_time c.from_node c.to_node (enter_contact env c prob s).1)
unfolding enter_contact insert_cxref remove_contact delete_contact
enter-remove env later c prob s h q p =
    rw (lt→ltb 0 c.from_time p, remove_contact)
      (rw
        (subst (λ k. find order_cxrefs k (insert_at x s.contact_index) ≡ some x) same.0
          (Change.find-insert order_keys cxref_key order_keys-IsOrder x s.contact_index))
        (
          _,
          refl,
          Change.delete-insert order_keys cxref_key order_keys-IsOrder x s.contact_index,
          cancel-post x s h.scheduled (timed-IsQuiet env given q) same.1,
          subst (λ n. delete_elt n (s.contacts ++ (entry ∷ [])) ≡ s.contacts) (sym same.2)
              (delete_elt-append s.contacts entry (λ z m. h.stored.fresh z m)),
        ))
  where
    given : Cxref
    given = record c { addr = s.next_addr; contact_elt = s.next_elt }

    entry : IonContact
    entry = record {
      elt = s.next_elt;
      from_time = c.from_time;
      to_time = c.to_time;
      from_node = c.from_node;
      to_node = c.to_node;
      xmit_rate = c.xmit_rate;
      prob = prob;
    }

    x : Cxref
    x = timed env given

    same : (cxref_key x ≡ cxref_key c) × (x.addr ≡ s.next_addr) × (x.contact_elt ≡ s.next_elt)
    same = let (k, t, a, e, r) = timed_same env given in (k, a, e)

-- In a sound state, to insert an acceptable contact and to remove it again, at any time, restores the
-- contact index, the timeline and the contacts of the database.
pub insert_contact-remove_contact :
    (env later : Env) (from_time to_time from_node to_node xmit_rate prob : ℕ) (s : Ion)
    → IsSound s
    → IsAcceptable from_time to_time from_node to_node xmit_rate prob s.contact_index
    → Restores s (
        remove_contact later from_time from_node to_node
          (insert_contact env from_time to_time from_node to_node xmit_rate prob s).1)
unfolding contact_arg
insert_contact-remove_contact env later from_time to_time from_node to_node xmit_rate prob s h a =
    elim (insert_contact-Outcome from_time to_time from_node to_node xmit_rate prob env s
      h.kept.plan) [
        | inl (_, e) ↦
            subst (λ r. Restores s (remove_contact later from_time from_node to_node r.1)) (sym e)
              (enter-remove env later (contact_arg from_time to_time from_node to_node xmit_rate)
                prob s h (refl, refl) a.begins)
        | inr (n, _, _) ↦ absurd (n a)
      ]
