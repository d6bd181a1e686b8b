-- ===== src/Rfx/Tests.antt =====
-- Runs of the calls of rfx.c on a small plan.
use cgr_jni.Base.{ap, ℕ, ◌≡◌, ◌↔◌, inl, inr, refl, true, none, [], ◌∷◌, ◌∈◌, map, arith}
use cgr_jni.Base.Int.{pos}
use cgr_jni.Plan.{order_keys}
use cgr_jni.Rbt.{find, successors, predecessors, last, insert, delete}
use cgr_jni.Cgr.Routes.Clear.{IsPlan}
use cgr_jni.Rfx.{
  EventType, Cxref, Rxref, Ion, Env, order_events, event_code, post_event, plan_contact,
}
use cgr_jni.Rfx.Contacts.{
  contact_arg, prob_is_valid, overlaps, runs_into, starts_within, xmit_times, fire_times, schedule,
  post_contact_events, insert_cxref, enter_contact, insert_contact, remove_contact,
}
use cgr_jni.Rfx.Ranges.{
  range_overlaps, range_runs_into, range_starts_within, assert_range, impute_range, reverse_range,
  insert_rxref, enter_range, check_range, drop_imputed, insert_range, remove_range,
}
use cgr_jni.Rfx.Overlap.{Meets, overlaps_iff}
use cgr_jni.Rfx.Accept.{IsAcceptable, Outcome, insert_contact-Outcome}
use cgr_jni.Rfx.Steps.{
  Reach, here, next, insert_contact_call, insert_range_call, empty_ion, IsGood, Reach-IsGood,
  Reach-IsPlan,
}
use cgr_jni.Rfx.Undo.{Restores, insert_contact-remove_contact}
use cgr_jni.Rfx.Remove.{Removed, Leaves, remove_contact-Leaves}
use cgr_jni.Rfx.RangeRemoval.{LeavesRanges}
use cgr_jni.Rfx.RangeEnds.{RemovedRange, remove_range-LeavesRanges, remove_range_stuck}
use cgr_jni.Rfx.RangePairs.{Pairs, insert_range-Pairs}
use cgr_jni.Rfx.RangeIndex.{lookup_range}
use cgr_jni.Rfx.Override.{insert_range_loses}

abbrev env : Env
env = record { own_node_nbr = 1; current_time = 5; max_clock_error = 1 }

-- The bits of the float 0.5.
abbrev half : ℕ
half = 1_056_964_608

abbrev contact_plan : Ion
contact_plan = (insert_contact env 10 20 1 2 1000 half empty_ion).1

contact_plan-Reach : Reach contact_plan
contact_plan-Reach = next here (insert_contact_call env 10 20 1 2 1000 half refl)

-- The one contact of that plan.
abbrev first_contact : Cxref
first_contact = record {
  addr = 1;
  from_node = 1;
  to_node = 2;
  from_time = 10;
  to_time = 20;
  xmit_rate = 1000;
  prob = 0;
  start_xmit = pos 11;
  stop_xmit = pos 19;
  start_fire = pos 0;
  stop_fire = pos 0;
  start_recv = pos 0;
  stop_recv = pos 0;
  purge_time = pos 20;
  contact_elt = 1;
}

contact_plan_index : contact_plan.contact_index ≡ first_contact ∷ []
unfolding insert_contact contact_arg prob_is_valid overlaps runs_into starts_within enter_contact
    insert_cxref xmit_times fire_times find successors last insert
contact_plan_index = refl

contact_plan_timeline :
    contact_plan.timeline
    ≡ record { time = pos 11; type = EventType.start_xmit; ref = 1 }
      ∷ record { time = pos 19; type = EventType.stop_xmit; ref = 1 }
      ∷ record { time = pos 20; type = EventType.purge_contact; ref = 1 }
      ∷ []
unfolding insert_contact contact_arg prob_is_valid overlaps runs_into starts_within enter_contact
    insert_cxref xmit_times fire_times find successors last insert post_contact_events schedule
    post_event order_events event_code
contact_plan_timeline = refl

-- An overlap with the contact before, and one with the contact after.
overlap_refused :
    ((insert_contact env 15 25 1 2 1000 half contact_plan).0 ≡ 0)
    × ((insert_contact env 5 11 1 2 1000 half contact_plan).0 ≡ 0)
    × ((insert_contact env 10 20 1 2 1000 half contact_plan).0 ≡ 1)
    × ((insert_contact env 10 20 1 2 2000 half contact_plan).0 ≡ 0)
    × ((insert_contact env 20 30 1 2 1000 half contact_plan).0 ≡ 2)
unfolding insert_contact contact_arg prob_is_valid overlaps runs_into starts_within enter_contact
    insert_cxref xmit_times fire_times find successors predecessors last insert order_keys
overlap_refused = (refl, refl, refl, refl, refl)

insert_contact-Outcome_example :
    Outcome 15 25 1 2 1000 half env contact_plan
      (insert_contact env 15 25 1 2 1000 half contact_plan)
insert_contact-Outcome_example =
    insert_contact-Outcome 15 25 1 2 1000 half env contact_plan
      (Reach-IsGood contact_plan contact_plan-Reach).sound.kept.plan

acceptable : IsAcceptable 20 30 1 2 1000 half contact_plan.contact_index
unfolding insert_contact contact_arg prob_is_valid overlaps runs_into starts_within enter_contact
    insert_cxref xmit_times fire_times find successors predecessors last insert order_keys
acceptable = record {
  begins = omega arith;
  ends = omega arith;
  sender = omega arith;
  receiver = omega arith;
  likely = refl;
  free = λ c m h. elim m [
    | inl e ↦ omega (arith, ap (λ z. z.to_time) e, h)
    | inr none_left ↦ absurd none_left
  ];
}

contact_plan-IsGood : IsGood contact_plan
contact_plan-IsGood = Reach-IsGood contact_plan contact_plan-Reach

insert_contact-remove_contact_example :
    Restores contact_plan
      (remove_contact env 20 1 2 (insert_contact env 20 30 1 2 1000 half contact_plan).1)
insert_contact-remove_contact_example =
    insert_contact-remove_contact env env 20 30 1 2 1000 half contact_plan contact_plan-IsGood.sound
      acceptable

remove_contact-Leaves_example :
    Leaves (Removed 0 1 2) contact_plan (remove_contact env 0 1 2 contact_plan)
remove_contact-Leaves_example =
    remove_contact-Leaves env 1 2 0 contact_plan contact_plan-IsGood.sound

overlaps_iff_example :
    (overlaps (contact_arg 15 25 1 2 1000) contact_plan.contact_index ≡ true)
    ↔ ((c : Cxref) × (c ∈ contact_plan.contact_index) × Meets (contact_arg 15 25 1 2 1000) c)
unfolding insert_contact contact_arg prob_is_valid overlaps runs_into starts_within enter_contact
    insert_cxref xmit_times fire_times find successors predecessors last insert order_keys
overlaps_iff_example =
    overlaps_iff (contact_arg 15 25 1 2 1000) contact_plan.contact_index
      contact_plan-IsGood.sound.kept.plan refl (omega arith)

Reach-IsGood_example : IsGood contact_plan
Reach-IsGood_example = Reach-IsGood contact_plan contact_plan-Reach

Reach-IsPlan_example : IsPlan (map plan_contact contact_plan.contact_index) 1000 5
unfolding insert_contact contact_arg prob_is_valid overlaps runs_into starts_within enter_contact
    insert_cxref xmit_times fire_times find successors predecessors last insert order_keys
Reach-IsPlan_example =
    Reach-IsPlan contact_plan 1000 5 contact_plan-Reach (omega arith) (omega arith) (λ c m. elim m [
      | inl e ↦ omega (arith, ap (λ z. z.to_time) e)
      | inr none_left ↦ absurd none_left
    ])

-- A symmetric range, then one that overrides the imputed direction from a later start on.
abbrev range_plan : Ion
range_plan = (insert_range env 10 20 1 2 5 empty_ion).1

abbrev asymmetric_plan : Ion
asymmetric_plan = (insert_range env 30 40 2 1 9 range_plan).1

asymmetric_plan-Reach : Reach asymmetric_plan
asymmetric_plan-Reach =
    next (next here (insert_range_call env 10 20 1 2 5 refl))
      (insert_range_call env 30 40 2 1 9 refl)

abbrev imputed : Rxref
imputed = record {
  addr = 2;
  from_node = 2;
  to_node = 1;
  from_time = 10;
  to_time = 20;
  owlt = 5;
  range_elt = 0;
}

abbrev asserted : Rxref
asserted = record {
  addr = 3;
  from_node = 2;
  to_node = 1;
  from_time = 30;
  to_time = 40;
  owlt = 9;
  range_elt = 2;
}

asymmetric_plan_index :
    asymmetric_plan.range_index
    ≡ record {
      addr = 1;
      from_node = 1;
      to_node = 2;
      from_time = 10;
      to_time = 20;
      owlt = 5;
      range_elt = 1;
    }
      ∷ imputed
      ∷ asserted
      ∷ []
unfolding insert_range check_range range_overlaps range_runs_into range_starts_within enter_range
    insert_rxref assert_range impute_range reverse_range find successors predecessors last insert
    order_keys
asymmetric_plan_index = refl

abbrev ranges_good : IsGood asymmetric_plan
ranges_good = Reach-IsGood asymmetric_plan asymmetric_plan-Reach

insert_range-Pairs_example : Pairs 1 2 10 20 5 empty_ion (insert_range env 10 20 1 2 5 empty_ion).1
unfolding insert_range check_range range_overlaps range_runs_into range_starts_within enter_range
    insert_rxref assert_range impute_range reverse_range find successors predecessors last insert
    order_keys
insert_range-Pairs_example =
    insert_range-Pairs env 10 20 1 2 5 empty_ion (Reach-IsGood empty_ion here).ranges (omega arith)
      (omega arith) refl (omega arith)

remove_range-LeavesRanges_example :
    LeavesRanges (RemovedRange 10 1 2) asymmetric_plan (remove_range 9 env 10 1 2 asymmetric_plan)
unfolding insert_range check_range range_overlaps range_runs_into range_starts_within enter_range
    insert_rxref assert_range impute_range reverse_range find successors predecessors last insert
    order_keys
remove_range-LeavesRanges_example =
    remove_range-LeavesRanges env 1 2 9 10 asymmetric_plan ranges_good.ranges
      (λ e. absurd (omega (arith, e))) (omega arith)

remove_range_stuck_example : remove_range 9 env 0 1 2 asymmetric_plan ≡ none
unfolding insert_range check_range range_overlaps range_runs_into range_starts_within enter_range
    insert_rxref assert_range impute_range reverse_range find successors predecessors last insert
    order_keys
remove_range_stuck_example =
    remove_range_stuck env 1 2 9 asymmetric_plan asserted ranges_good.ranges (omega arith)
      (inr (inr (inl refl))) (refl, refl) (λ e. omega (arith, e)) (omega arith)

insert_range_loses_example :
    let (answer, u) = insert_range env 10 20 2 1 7 asymmetric_plan in
    (answer ≡ 0) × (lookup_range u 2 1 10 ≡ none)
unfolding insert_range check_range range_overlaps range_runs_into range_starts_within enter_range
    insert_rxref assert_range impute_range reverse_range drop_imputed find successors predecessors
    last insert delete order_keys
insert_range_loses_example =
    insert_range_loses env 10 20 2 1 7 asymmetric_plan imputed asserted ranges_good.ranges
      (omega arith, omega arith, omega arith, omega arith) refl refl refl (refl, refl, omega arith)
