-- ===== src/Rfx/Carries.antt =====
-- The contacts and their events under the calls on ranges.
use cgr_jni.Base.{ℕ, ◌≡◌, ◌<◌, ◌≤◌, ◌↔◌, ◌∙◌, refl, sym, subst, true, false, List, ◌∈◌, arith}
use cgr_jni.Rfx.{EventType, Event, Cxref, Ion, is_zero}
use cgr_jni.Rfx.Overlap.{IsContactPlan}
use cgr_jni.Rfx.Events.{due, IsEventOf, IsTimeline}
use cgr_jni.Rfx.Schedule.{is_contact_event}
use cgr_jni.Rfx.Stored.{IsAscending}
use cgr_jni.Rfx.Sound.{IsSound}

due_contact :
    (c : Cxref) (type : EventType) → is_zero (due c type) ≡ false → is_contact_event type ≡ true
due_contact c type n = ground arith

-- A timeline whose events are about objects that exist.
abbrev pub Fits : ℕ → List Event → Type 0
Fits n timeline = IsTimeline timeline × ((e : Event) → e ∈ timeline → e.ref < n)

abbrev pub SameContactEvents : List Event → List Event → Type 0
SameContactEvents xs ys = (e : Event) → is_contact_event e.type ≡ true → (e ∈ ys) ↔ (e ∈ xs)

-- The state has the same contacts, with the same events.
pub record Carries (s t : Ion) : Type 0 where
  pub index : t.contact_index ≡ s.contact_index
  pub contacts : t.contacts ≡ s.contacts
  pub addrs : s.next_addr ≤ t.next_addr
  pub elts : s.next_elt ≤ t.next_elt
  pub fits : Fits s.next_addr s.timeline → Fits t.next_addr t.timeline
  pub events : Fits s.next_addr s.timeline → SameContactEvents s.timeline t.timeline

pub Carries-refl : (s : Ion) → Carries s s
Carries-refl s = record {
  index = refl;
  contacts = refl;
  addrs = omega arith;
  elts = omega arith;
  fits = λ f. f;
  events = λ f e c. (λ m. m, λ m. m);
}

pub Carries-trans : (s t u : Ion) → Carries s t → Carries t u → Carries s u
Carries-trans s t u p q = record {
  index = q.index ∙ p.index;
  contacts = q.contacts ∙ p.contacts;
  addrs = omega (arith, p.addrs, q.addrs);
  elts = omega (arith, p.elts, q.elts);
  fits = λ f. q.fits (p.fits f);
  events = λ f e c. (
    λ m. (p.events f e c).0 ((q.events (p.fits f) e c).0 m),
    λ m. (q.events (p.fits f) e c).1 ((p.events f e c).1 m),
  );
}

pub Carries-IsSound : (s t : Ion) → Carries s t → IsSound s → IsSound t
Carries-IsSound s t c h = record {
  kept = record {
    plan = subst IsContactPlan (sym c.index) h.kept.plan;
    numbered = λ d m. omega (arith, h.kept.numbered d (subst (λ l. d ∈ l) c.index m), c.addrs);
    distinct = λ d e m n.
        h.kept.distinct d e (subst (λ l. d ∈ l) c.index m) (subst (λ l. e ∈ l) c.index n);
    positive = omega (arith, h.kept.positive, c.addrs);
  };
  scheduled = record {
    ordered = (c.fits fits).0;
    known = (c.fits fits).1;
    quiet = λ d m. h.scheduled.quiet d (subst (λ l. d ∈ l) c.index m);
    listed = λ e m k.
        let (d, d_in, g) = h.scheduled.listed e ((c.events fits e k).0 m) k in
        (d, subst (λ l. d ∈ l) (sym c.index) d_in, g);
    complete = λ d e m g.
        (c.events fits e (is_contact d e g)).1
          (h.scheduled.complete d e (subst (λ l. d ∈ l) c.index m) g);
  };
  stored = record {
    ascending = subst IsAscending (sym c.contacts) h.stored.ascending;
    fresh = λ x m. omega (arith, h.stored.fresh x (subst (λ l. x ∈ l) c.contacts m), c.elts);
    stored = λ d m.
        let (x, x_in, r) = h.stored.stored d (subst (λ l. d ∈ l) c.index m) in
        (x, subst (λ l. x ∈ l) (sym c.contacts) x_in, r);
    indexed = λ x m.
        let (d, d_in, r) = h.stored.indexed x (subst (λ l. x ∈ l) c.contacts m) in
        (d, subst (λ l. d ∈ l) (sym c.index) d_in, r);
  };
}
  where
    fits : Fits s.next_addr s.timeline
    fits = (h.scheduled.ordered, h.scheduled.known)

    is_contact : (d : Cxref) (e : Event) → IsEventOf d e → is_contact_event e.type ≡ true
    is_contact d e g = due_contact d e.type g.1
