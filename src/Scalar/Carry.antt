-- ===== src/Scalar/Carry.antt =====
-- The loops of the scalar operations.
use cgr_jni.Base.{ℕ, zero, suc, ◌+◌, ◌-◌, ◌≤◌, ◌<◌, ◌≡◌, refl, arith}
use cgr_jni.Base.Int.{ℤ, pos, pos_part, neg_part, ◌+ℤ◌, ◌-ℤ◌, +ℤ_parts, -ℤ_parts}
use cgr_jni.Scalar.{Scalar, one_gig, carry, increase_gigs, reduce_gigs, borrow, times_gig, value}

-- The units lie between 0 and ONE_GIG.
pub record IsNormal (s : Scalar) : Type 0 where
  pub low : neg_part s.units ≡ 0
  pub high : pos_part s.units < one_gig

value-shift :
    (g u : ℤ)
    → value (record { gigs = g +ℤ pos 1; units = u -ℤ pos one_gig })
      ≡ value (record { gigs = g; units = u })
unfolding value ◌+ℤ◌ ◌-ℤ◌
value-shift g u = ground arith

value-borrow :
    (g u : ℤ)
    → value (record { gigs = g -ℤ pos 1; units = u +ℤ pos one_gig })
      ≡ value (record { gigs = g; units = u })
unfolding value ◌+ℤ◌ ◌-ℤ◌
value-borrow g u = ground arith

pub carry_lem :
    (fuel : ℕ) (s : Scalar)
    → neg_part s.units ≡ 0
    → pos_part s.units ≤ fuel
    → IsNormal (carry fuel s) × (value (carry fuel s) ≡ value s)
unfolding carry
carry_lem zero s low enough = (record { low = low; high = omega arith }, refl)
carry_lem (suc fuel) s low enough = ground (
  arith,
  carry_lem fuel (record { gigs = s.gigs +ℤ pos 1; units = s.units -ℤ pos one_gig }),
  value-shift s.gigs s.units,
  -ℤ_parts s.units (pos one_gig),
)

times_gig-suc : (g : ℤ) → times_gig (g +ℤ pos 1) ≡ times_gig g +ℤ pos one_gig
unfolding ◌+ℤ◌
times_gig-suc g = ground arith

times_gig-pred : (g : ℤ) → times_gig (g -ℤ pos 1) +ℤ pos one_gig ≡ times_gig g
unfolding ◌+ℤ◌ ◌-ℤ◌
times_gig-pred g = ground arith

regroup_up :
    (a b t : ℤ) (i r : ℕ)
    → one_gig ≤ i
    → b ≡ t +ℤ pos one_gig
    → a +ℤ pos r ≡ b +ℤ pos (i - one_gig)
    → a +ℤ pos r ≡ t +ℤ pos i
unfolding ◌+ℤ◌
regroup_up a b t i r h e f = ground arith

regroup_down :
    (a b t : ℤ) (i r : ℕ)
    → one_gig ≤ i
    → b +ℤ pos one_gig ≡ t
    → a -ℤ pos r ≡ b -ℤ pos (i - one_gig)
    → a -ℤ pos r ≡ t -ℤ pos i
unfolding ◌+ℤ◌ ◌-ℤ◌
regroup_down a b t i r h e f = ground arith

-- The result of taking whole gigs off `i`, counted up in `gigs`.
pub increase_gigs_lem :
    (fuel i : ℕ) (g : ℤ)
    → i ≤ fuel
    → ((increase_gigs fuel i g).0 < one_gig)
      × (times_gig (increase_gigs fuel i g).1 +ℤ pos (increase_gigs fuel i g).0
          ≡ times_gig g +ℤ pos i)
unfolding increase_gigs
increase_gigs_lem zero i g enough = (omega arith, refl)
increase_gigs_lem (suc fuel) i g enough = ground (
  arith,
  increase_gigs_lem fuel (i - one_gig) (g +ℤ pos 1),
  times_gig-suc g,
  regroup_up (times_gig (increase_gigs fuel (i - one_gig) (g +ℤ pos 1)).1) (times_gig (g +ℤ pos 1))
      (times_gig g) i (increase_gigs fuel (i - one_gig) (g +ℤ pos 1)).0,
)

-- The same, counted down.
pub reduce_gigs_lem :
    (fuel i : ℕ) (g : ℤ)
    → i ≤ fuel
    → ((reduce_gigs fuel i g).0 < one_gig)
      × (times_gig (reduce_gigs fuel i g).1 -ℤ pos (reduce_gigs fuel i g).0 ≡ times_gig g -ℤ pos i)
unfolding reduce_gigs
reduce_gigs_lem zero i g enough = (omega arith, refl)
reduce_gigs_lem (suc fuel) i g enough = ground (
  arith,
  reduce_gigs_lem fuel (i - one_gig) (g -ℤ pos 1),
  times_gig-pred g,
  regroup_down (times_gig (reduce_gigs fuel (i - one_gig) (g -ℤ pos 1)).1) (times_gig (g -ℤ pos 1))
      (times_gig g) i (reduce_gigs fuel (i - one_gig) (g -ℤ pos 1)).0,
)

-- After the borrowing loop the units cover `i`, and lie below `i` plus one gig if they did before.
pub borrow_lem :
    (fuel i : ℕ) (s : Scalar)
    → i + neg_part s.units ≤ fuel + pos_part s.units
    → pos_part s.units < one_gig + i
    → (neg_part (borrow fuel i s).units ≡ 0)
      × (i ≤ pos_part (borrow fuel i s).units)
      × (pos_part (borrow fuel i s).units < one_gig + i)
      × (value (borrow fuel i s) ≡ value s)
unfolding borrow
borrow_lem zero i s enough high = ground arith
borrow_lem (suc fuel) i s enough high = ground (
  arith,
  borrow_lem fuel i (record { gigs = s.gigs -ℤ pos 1; units = s.units +ℤ pos one_gig }),
  value-borrow s.gigs s.units,
  +ℤ_parts s.units (pos one_gig),
)
