-- ===== src/Rfx/RangeCarries.antt =====
-- rfx_insert_range and deleteRange next to the contacts and their events.
use cgr_jni.Base.{
  ℕ, suc, ◌≡◌, ◌≢◌, ◌∙◌, inl, inr, refl, sym, ap, Bool, true, false, not, ◌&&◌, if◌then◌else◌, ltb,
  ◌==◌, Bool-cases, Option, none, some, List, arith,
}
use mathlib.Core.Bool.{false≢true}
use cgr_jni.Rbt.{find, successors}
use cgr_jni.Rbt.Change
use cgr_jni.Rfx.{
  Event, Rxref, Ion, Env, rxref_key, order_rxrefs, post_event, cancel_event, order_events,
}
use cgr_jni.Rfx.Orders.{order_events-IsOrder}
use cgr_jni.Rfx.Ranges.{
  start_type, stop_type, cancel_range_events, assert_range, impute_range, insert_rxref, range_arg,
  range_overlaps, enter_range, drop_imputed, check_range, insert_range, delete_range,
}
use cgr_jni.Rfx.Events.{IsTimeline, post_event_iff, post_event-IsTimeline, cancel_event_iff}
use cgr_jni.Rfx.Schedule.{is_contact_event}
use cgr_jni.Rfx.Carries.{Fits, SameContactEvents, Carries, Carries-refl, Carries-trans}

-- The two events of a new range.
module _ (n : ℕ) (timeline : List Event) (x y : Event) where
  abbrev posted : List Event
  posted = post_event y (post_event x timeline)

  posted-Fits : x.ref ≡ n → y.ref ≡ n → y ≢ x → Fits n timeline → Fits (suc n) posted
  posted-Fits rx ry ne f = (
    post_event-IsTimeline y (post_event x timeline)
        (post_event-IsTimeline x timeline f.0 (λ m. omega (arith, f.1 x m, rx)))
        (λ m. elim ((post_event_iff x timeline y).0 m) [
          | inl e ↦ ne e
          | inr old ↦ omega (arith, f.1 y old, ry)
        ]),
    λ e m. elim ((post_event_iff y (post_event x timeline) e).0 m) [
      | inl k ↦ omega (arith, ap (λ z. z.ref) k, ry)
      | inr m' ↦ elim ((post_event_iff x timeline e).0 m') [
        | inl k ↦ omega (arith, ap (λ z. z.ref) k, rx)
        | inr old ↦ omega (arith, f.1 e old)
      ]
    ],
  )

  posted_same :
      is_contact_event x.type ≡ false
      → is_contact_event y.type ≡ false
      → SameContactEvents timeline posted
  posted_same nx ny e c = (
    λ m. elim ((post_event_iff y (post_event x timeline) e).0 m) [
      | inl k ↦ absurd (false≢true (sym ny ∙ sym (ap (λ z. is_contact_event z.type) k) ∙ c))
      | inr m' ↦ elim ((post_event_iff x timeline e).0 m') [
        | inl k ↦ absurd (false≢true (sym nx ∙ sym (ap (λ z. is_contact_event z.type) k) ∙ c))
        | inr old ↦ old
      ]
    ],
    λ m.
        (post_event_iff y (post_event x timeline) e).1
          (inr ((post_event_iff x timeline e).1 (inr m))),
  )

  abbrev cancelled : List Event
  cancelled = cancel_event y (cancel_event x timeline)

  one-IsTimeline : (z : Event) (l : List Event) → IsTimeline l → IsTimeline (cancel_event z l)
  unfolding cancel_event
  one-IsTimeline z l s = Change.delete-IsSorted order_events (λ e. e) order_events-IsOrder z l s

  cancelled-Fits : Fits n timeline → Fits n cancelled
  cancelled-Fits f =
      let s = one-IsTimeline x timeline f.0 in
      (
        one-IsTimeline y (cancel_event x timeline) s,
        λ e m.
            let (m', _) = (cancel_event_iff y (cancel_event x timeline) e s).0 m in
            f.1 e ((cancel_event_iff x timeline e f.0).0 m').0,
      )

  cancelled_same :
      is_contact_event x.type ≡ false
      → is_contact_event y.type ≡ false
      → Fits n timeline
      → SameContactEvents timeline cancelled
  cancelled_same nx ny f e c =
      let s = one-IsTimeline x timeline f.0 in
      (
        λ m.
            let (m', _) = (cancel_event_iff y (cancel_event x timeline) e s).0 m in
            ((cancel_event_iff x timeline e f.0).0 m').0,
        λ m. (cancel_event_iff y (cancel_event x timeline) e s).1 (
          (cancel_event_iff x timeline e f.0).1
              (m, λ k. false≢true (sym nx ∙ sym (ap (λ z. is_contact_event z.type) k) ∙ c)),
          λ k. false≢true (sym ny ∙ sym (ap (λ z. is_contact_event z.type) k) ∙ c),
        ),
      )

assert_range-Carries : (env : Env) (r : Rxref) (s : Ion) → Carries s (assert_range env r s)
unfolding assert_range
assert_range-Carries env r s = record {
  index = refl;
  contacts = refl;
  addrs = omega arith;
  elts = omega arith;
  fits = posted-Fits s.next_addr s.timeline _ _ refl refl (λ e. ground (arith, ap (λ z. z.type) e));
  events = λ f. posted_same s.next_addr s.timeline _ _ refl refl;
}

impute_range-Carries : (r : Rxref) (s : Ion) → Carries s (impute_range r s)
unfolding impute_range
impute_range-Carries r s = record {
  index = refl;
  contacts = refl;
  addrs = omega arith;
  elts = omega arith;
  fits = posted-Fits s.next_addr s.timeline _ _ refl refl (λ e. ground (arith, ap (λ z. z.type) e));
  events = λ f. posted_same s.next_addr s.timeline _ _ refl refl;
}

-- The answer of a call, and the state it leaves.
abbrev CarriesTo : Ion → ℕ × Ion → Type 0
CarriesTo s (_, t) = Carries s t

insert_rxref-Carries : (env : Env) (r : Rxref) (s : Ion) → CarriesTo s (insert_rxref env r s)
unfolding insert_rxref
insert_rxref-Carries env r s = go (ltb r.to_node r.from_node) (find order_rxrefs _ t.range_index)
  where
    t : Ion
    t = assert_range env r s

    go :
        (b : Bool) (f : Option Rxref)
        → CarriesTo s (
            if b
            then (s.next_addr, t)
            else elim f [ some _ ↦ (s.next_addr, t) | none ↦ (s.next_addr, impute_range r t) ])
    go true f = assert_range-Carries env r s
    go false (some _) = assert_range-Carries env r s
    go false none = Carries-trans s t _ (assert_range-Carries env r s) (impute_range-Carries r t)

enter_range-Carries : (env : Env) (r : Rxref) (s : Ion) → CarriesTo s (enter_range env r s)
unfolding enter_range
enter_range-Carries env r s =
    let h = insert_rxref-Carries env (record r { range_elt = s.next_elt }) _ in
    record {
      index = h.index;
      contacts = h.contacts;
      addrs = h.addrs;
      elts = omega (arith, h.elts);
      fits = h.fits;
      events = h.events;
    }

drop_imputed-Carries : (r : Rxref) (s : Ion) → Carries s (drop_imputed r s)
unfolding drop_imputed
drop_imputed-Carries r s = record {
  index = refl;
  contacts = refl;
  addrs = omega arith;
  elts = omega arith;
  fits = cancelled-Fits s.next_addr s.timeline _ _;
  events = λ f. cancelled_same s.next_addr s.timeline _ _ refl refl f;
}

check_range-Carries :
    (env : Env) (r : Rxref) (next : List Rxref) (s : Ion) → CarriesTo s (check_range env r next s)
unfolding check_range
check_range-Carries env r next s = go (range_overlaps r next s.range_index)
  where
    go : (b : Bool) → CarriesTo s (if b then (0, s) else enter_range env r s)
    go true = Carries-refl s
    go false = enter_range-Carries env r s

pub insert_range-Carries :
    (env : Env) (from_time to_time from_node to_node owlt : ℕ) (s : Ion)
    → Carries s (insert_range env from_time to_time from_node to_node owlt s).1
unfolding insert_range
insert_range-Carries env from_time to_time from_node to_node owlt s =
    go valid (find order_rxrefs (rxref_key arg) s.range_index)
  where
    arg : Rxref
    arg = range_arg from_time to_time from_node to_node owlt

    next : List Rxref
    next = successors order_rxrefs (rxref_key arg) s.range_index

    valid : Bool
    valid = ltb 0 from_time && ltb from_time to_time && ltb 0 from_node && ltb 0 to_node

    same_rate : (r : Rxref) (b : Bool) → CarriesTo s (if b then (r.addr, s) else (0, s))
    same_rate r true = Carries-refl s
    same_rate r false = Carries-refl s

    replace :
        (r : Rxref) (b : Bool)
        → CarriesTo s (
            if b
            then check_range env arg next (drop_imputed r s)
            else if r.owlt == owlt
            then (r.addr, s)
            else (0, s))
    replace r true =
        Carries-trans s (drop_imputed r s) _ (drop_imputed-Carries r s)
          (check_range-Carries env arg next (drop_imputed r s))
    replace r false = same_rate r (r.owlt == owlt)

    go :
        (v : Bool) (f : Option Rxref)
        → CarriesTo s (
            if not v then (0, s) else elim f [
              | some rxref ↦
                  if rxref.range_elt == 0
                  then check_range env arg next (drop_imputed rxref s)
                  else if rxref.owlt == owlt
                  then (rxref.addr, s)
                  else (0, s)
              | none ↦ check_range env arg next s
            ])
    go false f = Carries-refl s
    go true (some r) = replace r (r.range_elt == 0)
    go true none = check_range-Carries env arg next s

types_quiet :
    (r : Rxref)
    → (is_contact_event (start_type r) ≡ false) × (is_contact_event (stop_type r) ≡ false)
unfolding start_type stop_type
types_quiet r = ground arith

pub delete_range-Carries :
    (env : Env) (conditional : Bool) (r : Rxref) (s : Ion)
    → Carries s (delete_range env conditional r s)
unfolding delete_range cancel_range_events
delete_range-Carries env conditional r s =
    elim (Bool-cases (conditional && not (r.range_elt == 0))) [
      | inl b ↦ rw (b, delete_range) (Carries-refl s)
      | inr b ↦
          rw (b, delete_range)
            (record {
              index = refl;
              contacts = refl;
              addrs = omega arith;
              elts = omega arith;
              fits = cancelled-Fits s.next_addr s.timeline _ _;
              events = λ f.
                  cancelled_same s.next_addr s.timeline _ _ (types_quiet r).0 (types_quiet r).1 f;
            })
    ]
