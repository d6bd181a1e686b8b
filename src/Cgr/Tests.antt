-- ===== src/Cgr/Tests.antt =====
-- The light time of a contact in a small index of ranges.
use cgr_jni.Base.{◌≡◌, refl, some, List, [], ◌∷◌, arith}
use cgr_jni.Plan.{Contact, Range, order_keys, order_ranges, successors}
use cgr_jni.Cgr.Ranges.{get_applicable_range, applicable, Answer, range-Answer}

abbrev contact : Contact
contact = record {
  addr = 9;
  from_node = 1;
  to_node = 2;
  from_time = 50;
  to_time = 70;
  xmit_rate = 1000;
}

-- The first range has ended when the contact starts.
abbrev ranges : List Range
ranges =
    record { from_node = 1; to_node = 2; from_time = 10; to_time = 40; owlt = 3 }
    ∷ record { from_node = 1; to_node = 2; from_time = 45; to_time = 90; owlt = 4 }
    ∷ record { from_node = 2; to_node = 1; from_time = 10; to_time = 90; owlt = 5 }
    ∷ []

second_range : get_applicable_range ranges contact ≡ some 4
unfolding get_applicable_range order_keys applicable order_ranges successors
second_range = refl

range-Answer_example : Answer contact ranges (get_applicable_range ranges contact)
unfolding order_keys
range-Answer_example = range-Answer ranges contact (record {
  sorted = ((refl, (refl, tt)), ((refl, tt), (tt, tt)));
  started = (omega arith, (omega arith, (omega arith, tt)));
})
