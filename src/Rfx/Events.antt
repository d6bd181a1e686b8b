-- ===== src/Rfx/Events.antt =====
-- The timeline events that rfx.c posts for a contact and cancels with it.
use mathlib.Core.Bool.{false≢true}
use cgr_jni.Base.{
  ◌≡◌, ◌≢◌, ◌⊎◌, ◌↔◌, inl, inr, refl, sym, ap, subst, false, Bool-cases, Option-cases, List, [],
  ◌∷◌, ◌∈◌, All, All-mem, arith, foldl,
}
use cgr_jni.Base.Int.{ℤ, pos}
use cgr_jni.Rbt.{find}
use cgr_jni.Rbt.Change
use cgr_jni.Rbt.Sorted
use cgr_jni.Rfx.{EventType, Event, Cxref, is_zero, post_event, cancel_event, order_events}
use cgr_jni.Rfx.Orders.{order_events-IsOrder}
use cgr_jni.Rfx.Contacts.{schedule, unschedule, post_contact_events, cancel_contact_events}

-- The time that a contact has for each type of event, 0 for none.
abbrev pub due : Cxref → EventType → ℤ
due c EventType.start_xmit = c.start_xmit
due c EventType.stop_xmit = c.stop_xmit
due c EventType.start_fire = c.start_fire
due c EventType.stop_fire = c.stop_fire
due c EventType.start_recv = c.start_recv
due c EventType.stop_recv = c.stop_recv
due c EventType.purge_contact = c.purge_time
due c _ = pos 0

abbrev pub due_event : Cxref → EventType → Event
due_event c type = record { time = due c type; type = type; ref = c.addr }

abbrev pub IsEventOf : Cxref → Event → Type 0
IsEventOf c e = (e ≡ due_event c e.type) × (is_zero (due c e.type) ≡ false)

abbrev pub IsTimeline : List Event → Type 0
IsTimeline = Sorted.IsSorted order_events (λ e. e)

-- The events of the types in a list.
abbrev DueAmong : Cxref → List EventType → Event → Type 0
DueAmong c kinds e =
    (kind : EventType) × (kind ∈ kinds) × (e ≡ due_event c kind) × (is_zero (due c kind) ≡ false)

abbrev Apart : List EventType → Type 0
Apart [] = Unit
Apart (x ∷ xs) = All (λ y. y ≢ x) xs × Apart xs

pub post_event_iff :
    (x : Event) (timeline : List Event) (e : Event)
    → (e ∈ post_event x timeline) ↔ ((e ≡ x) ⊎ e ∈ timeline)
unfolding post_event
post_event_iff x timeline e =
    Change.insert_iff order_events (λ e. e) order_events-IsOrder x x timeline e

pub post_event-IsTimeline :
    (x : Event) (timeline : List Event)
    → IsTimeline timeline
    → ¬ (x ∈ timeline)
    → IsTimeline (post_event x timeline)
unfolding post_event
post_event-IsTimeline x timeline s new =
    Change.insert-IsSorted order_events (λ e. e) order_events-IsOrder x timeline s
      (elim (Option-cases (find order_events x timeline)) [
        | inl e ↦ e
        | inr (y, e) ↦
            let (m, k) =
              Sorted.find-some order_events (λ e. e) order_events-IsOrder x timeline y e in
            absurd (new (subst (λ z. z ∈ timeline) k m))
      ])

pub cancel_event_iff :
    (x : Event) (timeline : List Event) (e : Event)
    → IsTimeline timeline
    → (e ∈ cancel_event x timeline) ↔ ((e ∈ timeline) × (e ≢ x))
unfolding cancel_event
cancel_event_iff x timeline e s =
    Change.delete_iff order_events (λ e. e) order_events-IsOrder x timeline e s

module _ (c : Cxref) where
  abbrev post : List Event → EventType → List Event
  post timeline kind = schedule (due c kind) kind c.addr timeline

  abbrev cancel : List Event → EventType → List Event
  cancel timeline kind = unschedule (due c kind) kind c.addr timeline

  abbrev posted : List EventType
  posted =
      EventType.start_xmit ∷ EventType.stop_xmit ∷ EventType.start_fire ∷ EventType.stop_fire
      ∷ EventType.purge_contact ∷ []

  abbrev cancelled : List EventType
  cancelled =
      EventType.start_xmit ∷ EventType.stop_xmit ∷ EventType.start_fire ∷ EventType.stop_fire
      ∷ EventType.start_recv ∷ EventType.stop_recv ∷ EventType.purge_contact ∷ []

  post_contact_events_lem :
      (timeline : List Event) → post_contact_events c timeline ≡ foldl post timeline posted
  unfolding post_contact_events
  post_contact_events_lem timeline = refl

  cancel_contact_events_lem :
      (timeline : List Event) → cancel_contact_events c timeline ≡ foldl cancel timeline cancelled
  unfolding cancel_contact_events
  cancel_contact_events_lem timeline = refl

  post_iff :
      (kind : EventType) (timeline : List Event) (e : Event)
      → (e ∈ post timeline kind)
        ↔ ((e ∈ timeline) ⊎ ((e ≡ due_event c kind) × (is_zero (due c kind) ≡ false)))
  unfolding schedule
  post_iff kind timeline e =
      let inserted = post_event_iff (due_event c kind) timeline e in
      elim (Bool-cases (is_zero (due c kind))) [
        | inl z ↦
            rw (z, schedule)
              (λ m. inl m, λ h. elim h [ inl m ↦ m | inr d ↦ absurd (false≢true (sym d.1)) ])
        | inr n ↦
            rw (n, schedule)
              (
                λ m. elim (inserted.0 m) [ inl d ↦ inr (d, refl) | inr m' ↦ inl m' ],
                λ h. inserted.1 (elim h [ inl m ↦ inr m | inr d ↦ inl d.0 ]),
              )
      ]

  post_all_iff :
      (kinds : List EventType) (timeline : List Event) (e : Event)
      → (e ∈ foldl post timeline kinds) ↔ ((e ∈ timeline) ⊎ DueAmong c kinds e)
  post_all_iff [] timeline e = (λ m. inl m, λ h. elim h [ inl m ↦ m | inr d ↦ absurd d.1 ])
  post_all_iff (kind ∷ kinds) timeline e =
      let rest = post_all_iff kinds (post timeline kind) e in
      let this = post_iff kind timeline e in
      (
        λ m. elim (rest.0 m) [
          | inl n ↦ elim (this.0 n) [ inl old ↦ inl old | inr d ↦ inr (kind, inl refl, d.0, d.1) ]
          | inr (k, k_in, d, n) ↦ inr (k, inr k_in, d, n)
        ],
        λ h. rest.1 (elim h [
          | inl m ↦ inl (this.1 (inl m))
          | inr (k, inl k_is, d, n) ↦ inl (
              this.1
                (inr (subst (λ z. (e ≡ due_event c z) × (is_zero (due c z) ≡ false)) k_is (d, n))))
          | inr (k, inr k_in, d, n) ↦ inr (k, k_in, d, n)
        ]),
      )

  post-IsTimeline :
      (kind : EventType) (timeline : List Event)
      → IsTimeline timeline
      → ¬ (due_event c kind ∈ timeline)
      → IsTimeline (post timeline kind)
  unfolding schedule
  post-IsTimeline kind timeline s new = elim (Bool-cases (is_zero (due c kind))) [
    | inl z ↦ rw (z, schedule) s
    | inr n ↦ rw (n, schedule) (post_event-IsTimeline (due_event c kind) timeline s new)
  ]

  -- Events of different types are posted one after the other.
  post_all-IsTimeline :
      (kinds : List EventType) (timeline : List Event)
      → IsTimeline timeline
      → Apart kinds
      → ((kind : EventType) → kind ∈ kinds → ¬ (due_event c kind ∈ timeline))
      → IsTimeline (foldl post timeline kinds)
  post_all-IsTimeline [] timeline s apart new = s
  post_all-IsTimeline (kind ∷ kinds) timeline s apart new =
      post_all-IsTimeline kinds (post timeline kind)
        (post-IsTimeline kind timeline s (new kind (inl refl))) apart.1
        (λ k k_in m. elim ((post_iff kind timeline (due_event c k)).0 m) [
          | inl old ↦ new k (inr k_in) old
          | inr d ↦ All-mem (λ z. z ≢ kind) k kinds apart.0 k_in (ap (λ z. z.type) d.0)
        ])

  cancel_iff :
      (kind : EventType) (timeline : List Event) (e : Event)
      → IsTimeline timeline
      → (e ∈ cancel timeline kind)
        ↔ ((e ∈ timeline) × ¬ ((e ≡ due_event c kind) × (is_zero (due c kind) ≡ false)))
  unfolding unschedule
  cancel_iff kind timeline e s =
      let deleted = cancel_event_iff (due_event c kind) timeline e s in
      elim (Bool-cases (is_zero (due c kind))) [
        | inl z ↦ rw (z, unschedule) (λ m. (m, λ d. false≢true (sym d.1)), λ h. h.0)
        | inr n ↦
            rw (n, unschedule)
              (
                λ m. let (old, ne) = deleted.0 m in (old, λ d. ne d.0),
                λ (m, ne). deleted.1 (m, λ d. ne (d, refl)),
              )
      ]

  cancel-IsTimeline :
      (kind : EventType) (timeline : List Event)
      → IsTimeline timeline
      → IsTimeline (cancel timeline kind)
  unfolding unschedule cancel_event
  cancel-IsTimeline kind timeline s = elim (Bool-cases (is_zero (due c kind))) [
    | inl z ↦ rw (z, unschedule) s
    | inr n ↦
        rw (n, unschedule)
          (Change.delete-IsSorted order_events (λ e. e) order_events-IsOrder (due_event c kind)
            timeline s)
  ]

  cancel_all-IsTimeline :
      (kinds : List EventType) (timeline : List Event)
      → IsTimeline timeline
      → IsTimeline (foldl cancel timeline kinds)
  cancel_all-IsTimeline [] timeline s = s
  cancel_all-IsTimeline (kind ∷ kinds) timeline s =
      cancel_all-IsTimeline kinds (cancel timeline kind) (cancel-IsTimeline kind timeline s)

  cancel_all_iff :
      (kinds : List EventType) (timeline : List Event) (e : Event)
      → IsTimeline timeline
      → (e ∈ foldl cancel timeline kinds) ↔ ((e ∈ timeline) × ¬ DueAmong c kinds e)
  cancel_all_iff [] timeline e s = (λ m. (m, λ d. absurd d.1), λ h. h.0)
  cancel_all_iff (kind ∷ kinds) timeline e s =
      let rest =
        cancel_all_iff kinds (cancel timeline kind) e (cancel-IsTimeline kind timeline s) in
      let this = cancel_iff kind timeline e s in
      (
        λ m.
            let (m', n) = rest.0 m in
            let (m'', k) = this.0 m' in
            (
              m'',
              λ (z, z_in, h, g). elim z_in [
                | inl z_is ↦
                    k (subst (λ z. (e ≡ due_event c z) × (is_zero (due c z) ≡ false)) z_is (h, g))
                | inr z_in' ↦ n (z, z_in', h, g)
              ],
            ),
        λ (m, n). rest.1 (
          this.1 (m, λ (d, g). n (kind, inl refl, d, g)),
          λ (z, z_in, h, g). n (z, inr z_in, h, g),
        ),
      )

  posted_type :
      (kind : EventType)
      → c.start_recv ≡ pos 0
      → c.stop_recv ≡ pos 0
      → is_zero (due c kind) ≡ false
      → kind ∈ posted
  posted_type kind r q n = ground (arith, ap is_zero r, ap is_zero q)

  cancelled_type : (kind : EventType) → is_zero (due c kind) ≡ false → kind ∈ cancelled
  cancelled_type kind n = ground arith

  due_among :
      (kinds : List EventType) (e : Event)
      → ((kind : EventType) → is_zero (due c kind) ≡ false → kind ∈ kinds)
      → DueAmong c kinds e ↔ IsEventOf c e
  due_among kinds e all = (
    λ (k, k_in, d, n).
        subst (λ z. (e ≡ due_event c z) × (is_zero (due c z) ≡ false)) (sym (ap (λ x. x.type) d))
          (d, n),
    λ (d, n). (e.type, all e.type n, d, n),
  )

  -- The events of the contact are added, and nothing else.
  pub post_contact_events_iff :
      (timeline : List Event) (e : Event)
      → c.start_recv ≡ pos 0
      → c.stop_recv ≡ pos 0
      → (e ∈ post_contact_events c timeline) ↔ ((e ∈ timeline) ⊎ IsEventOf c e)
  post_contact_events_iff timeline e r q =
      let among = due_among posted e (λ kind n. posted_type kind r q n) in
      let all = post_all_iff posted timeline e in
      rw (post_contact_events_lem timeline) (
        λ m. elim (all.0 m) [ inl old ↦ inl old | inr d ↦ inr (among.0 d) ],
        λ h. all.1 (elim h [ inl old ↦ inl old | inr d ↦ inr (among.1 d) ]),
      )

  pub post_contact_events-IsTimeline :
      (timeline : List Event)
      → IsTimeline timeline
      → ((kind : EventType) → ¬ (due_event c kind ∈ timeline))
      → IsTimeline (post_contact_events c timeline)
  post_contact_events-IsTimeline timeline s new =
      rw (post_contact_events_lem timeline)
        (post_all-IsTimeline posted timeline s (ground arith) (λ kind m. new kind))

  -- The events of the contact are taken off, and nothing else.
  pub cancel_contact_events_iff :
      (timeline : List Event) (e : Event)
      → IsTimeline timeline
      → (e ∈ cancel_contact_events c timeline) ↔ ((e ∈ timeline) × ¬ IsEventOf c e)
  cancel_contact_events_iff timeline e s =
      let among = due_among cancelled e (λ kind n. cancelled_type kind n) in
      let all = cancel_all_iff cancelled timeline e s in
      rw (cancel_contact_events_lem timeline) (
        λ m. let (old, n) = all.0 m in (old, λ d. n (among.1 d)),
        λ (old, n). all.1 (old, λ d. n (among.0 d)),
      )

  pub cancel_contact_events-IsTimeline :
      (timeline : List Event) → IsTimeline timeline → IsTimeline (cancel_contact_events c timeline)
  cancel_contact_events-IsTimeline timeline s =
      rw (cancel_contact_events_lem timeline) (cancel_all-IsTimeline cancelled timeline s)
