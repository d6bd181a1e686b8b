-- ===== src/Cgr/Ranges.antt =====
-- The one-way light time of a contact: `getApplicableRange` of bp/cgr/libcgr.c.
use cgr_jni.Base.{
  ℕ, ◌≡◌, ◌≢◌, ◌≤◌, ◌<◌, refl, inl, inr, if◌then◌else◌, ltb, ◌||◌, List, [], ◌∷◌, Option, none,
  some, ◌∈◌, All, All-mem, arith, true, false, Bool-cases, ltb→lt,
}
use Prim.Native.Nat.{Ordering}
use cgr_jni.Plan.{Key, Contact, Range, range_key, order_keys, order_ranges, successors}
use cgr_jni.Plan.Order.{◌≺◌}
use cgr_jni.Plan.Index.{IsSorted, successors-behind, successors-complete, successors-IsSorted}

-- The loop from the successor of `arg`.
unfoldable pub applicable : Contact → Key → List Range → Option ℕ
applicable contact arg [] = none
applicable contact arg (range ∷ ranges) =
    if ltb arg.from_node range.from_node || ltb arg.to_node range.to_node
    then none
    else if ltb range.to_time contact.from_time
    then applicable contact arg ranges
    else if ltb contact.from_time range.from_time
    then none
    else some range.owlt

unfoldable pub get_applicable_range : List Range → Contact → Option ℕ
unfolding applicable order_ranges successors
get_applicable_range range_index contact =
    let arg : Key = record {
      from_node = contact.from_node;
      to_node = contact.to_node;
      from_time = 0;
    } in
    applicable contact arg (successors order_ranges arg range_index)

-- The range states the light time between the nodes of the contact when the contact starts.
pub record Covers (contact : Contact) (range : Range) : Type 0 where
  pub from_node : range.from_node ≡ contact.from_node
  pub to_node : range.to_node ≡ contact.to_node
  pub starts : range.from_time ≤ contact.from_time
  pub ends : contact.from_time ≤ range.to_time

-- The index is in order, and no range starts at time 0 (`rfx_insert_range` refuses that).
pub record IsRangeIndex (ranges : List Range) : Type 0 where
  pub sorted : IsSorted range_key ranges
  pub started : All (λ (r : Range). 0 < r.from_time) ranges

pub data Answer (contact : Contact) (ranges : List Range) : Option ℕ → Type 0 where
  found :
      (range : Range)
      → range ∈ ranges
      → Covers contact range
      → Answer contact ranges (some range.owlt)
  missing : ((range : Range) → range ∈ ranges → ¬ Covers contact range) → Answer contact ranges none

-- The ranges behind one at which the loop breaks do not cover the contact.
past_nodes :
    (arg : Key) (r q : Range)
    → (ltb arg.from_node r.from_node || ltb arg.to_node r.to_node) ≡ true
    → arg ≺ range_key r
    → range_key r ≺ range_key q
    → q.from_node ≡ arg.from_node
    → q.to_node ≢ arg.to_node
unfolding order_keys
past_nodes arg r q test a p f t = ground arith

past_start :
    (arg : Key) (r q : Range) (time : ℕ)
    → (ltb arg.from_node r.from_node || ltb arg.to_node r.to_node) ≡ false
    → time < r.from_time
    → arg ≺ range_key r
    → range_key r ≺ range_key q
    → q.from_node ≡ arg.from_node
    → q.to_node ≡ arg.to_node
    → time < q.from_time
unfolding order_keys
past_start arg r q time test late a p f t = ground arith

same_nodes :
    (arg : Key) (r : Range)
    → (ltb arg.from_node r.from_node || ltb arg.to_node r.to_node) ≡ false
    → arg ≺ range_key r
    → (r.from_node ≡ arg.from_node) × (r.to_node ≡ arg.to_node)
unfolding order_keys
same_nodes arg r test a = ground arith

module _ (contact : Contact) (arg : Key) (f : arg.from_node ≡ contact.from_node)
    (t : arg.to_node ≡ contact.to_node) where
  none-Covers :
      (range : Range) (ranges : List Range)
      → ¬ Covers contact range
      → ((q : Range) → range_key range ≺ range_key q → ¬ Covers contact q)
      → All (λ q. range_key range ≺ range_key q) ranges
      → Answer contact (range ∷ ranges) none
  none-Covers range ranges this later s = missing (elim_ranges)
    where
      elim_ranges : (q : Range) → q ∈ range ∷ ranges → ¬ Covers contact q
      elim_ranges q (inl e) = rw e this
      elim_ranges q (inr m) = later q (All-mem (λ q. range_key range ≺ range_key q) q ranges s m)

  skip :
      (range : Range) (ranges : List Range) {answer : Option ℕ}
      → ¬ Covers contact range
      → Answer contact ranges answer
      → Answer contact (range ∷ ranges) answer
  skip range ranges this (found r m c) = found r (inr m) c
  skip range ranges this (missing no_cover) = missing elim_ranges
    where
      elim_ranges : (q : Range) → q ∈ range ∷ ranges → ¬ Covers contact q
      elim_ranges q (inl e) = rw e this
      elim_ranges q (inr m) = no_cover q m

  applicable-Answer :
      (ranges : List Range)
      → IsSorted range_key ranges
      → All (λ r. arg ≺ range_key r) ranges
      → Answer contact ranges (applicable contact arg ranges)
  unfolding applicable
  applicable-Answer [] s b = missing (λ r m. absurd m)
  applicable-Answer (range ∷ ranges) s b =
      elim (Bool-cases (ltb arg.from_node range.from_node || ltb arg.to_node range.to_node)) [
        | inl past ↦ rw past (
            none-Covers range ranges (λ c. ground (arith, c.from_node, c.to_node))
              (λ q p c.
                past_nodes arg range q past b.0 p (omega (arith, c.from_node))
                  (omega (arith, c.to_node)))
              s.0)
        | inr here ↦ rw here (elim (Bool-cases (ltb range.to_time contact.from_time)) [
          | inl over ↦
              rw over
                (skip range ranges (λ c. ground (arith, c.ends)) (applicable-Answer ranges s.1 b.1))
          | inr open_end ↦ rw open_end (elim (Bool-cases (ltb contact.from_time range.from_time)) [
            | inl late ↦ rw late (
                none-Covers range ranges (λ c. ground (arith, c.starts))
                  (λ q p c. ground (
                    arith,
                    c.starts,
                    past_start arg range q contact.from_time here (ltb→lt _ _ late) b.0 p
                        (omega (arith, c.from_node)) (omega (arith, c.to_node)),
                  ))
                  s.0)
            | inr started ↦
                let nodes = same_nodes arg range here b.0 in
                rw started (
                  found range (inl refl) (record {
                    from_node = omega arith;
                    to_node = omega arith;
                    starts = ground arith;
                    ends = ground arith;
                  }))
          ])
        ])
      ]

-- A range that starts after time 0 lies behind the key that the search begins with.
behind_start :
    (contact : Contact) (r : Range)
    → 0 < r.from_time
    → r.from_node ≡ contact.from_node
    → r.to_node ≡ contact.to_node
    → record { from_node = contact.from_node; to_node = contact.to_node; from_time = 0 }
      ≺ range_key r
unfolding order_keys
behind_start contact r p f t = ground arith

not_start :
    (arg : Key) (ranges : List Range)
    → arg.from_time ≡ 0
    → All (λ (r : Range). 0 < r.from_time) ranges
    → All (λ r. order_keys (range_key r) arg ≢ Ordering.eq) ranges
unfolding order_keys
not_start arg [] e h = tt
not_start arg (r ∷ ranges) e h = (ground (arith, h.0), not_start arg ranges e h.1)

behind-All :
    (arg : Key) (ranges part : List Range)
    → ((r : Range) → r ∈ part → arg ≺ range_key r)
    → All (λ r. arg ≺ range_key r) part
behind-All arg ranges [] h = tt
behind-All arg ranges (r ∷ part) h =
    (h r (inl refl), behind-All arg ranges part (λ q m. h q (inr m)))

-- In an ordered index of ranges that start after time 0, `get_applicable_range` returns the light
-- time of a range of the index that covers the start of the contact, and fails only if the index
-- has no such range.
pub range-Answer :
    (ranges : List Range) (contact : Contact)
    → IsRangeIndex ranges
    → Answer contact ranges (get_applicable_range ranges contact)
unfolding get_applicable_range
range-Answer ranges contact index = widen (
    applicable-Answer contact arg refl refl (successors order_ranges arg ranges)
      (successors-IsSorted range_key arg ranges index.sorted)
      (behind-All arg ranges _
        (λ r m. (successors-behind range_key arg ranges r index.sorted m).1)))
  where
    arg : Key
    arg = record { from_node = contact.from_node; to_node = contact.to_node; from_time = 0 }

    widen :
        {answer : Option ℕ}
        → Answer contact (successors order_ranges arg ranges) answer
        → Answer contact ranges answer
    widen (found r m c) = found r (successors-behind range_key arg ranges r index.sorted m).0 c
    widen (missing none_there) = missing λ r m c.
        none_there r
          (successors-complete range_key arg ranges r index.sorted
            (not_start arg ranges refl index.started) m
            (behind_start contact r
              (All-mem (λ (r : Range). 0 < r.from_time) r ranges index.started m) c.from_node
              c.to_node))
          c
