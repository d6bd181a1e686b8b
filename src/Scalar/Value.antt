-- ===== src/Scalar/Value.antt =====
-- The scalar operations of ici/library/platform.c as operations on integers.
use cgr_jni.Base.{
  ap, ◌<◌, ◌^◌, refl, true, ℕ, ◌+◌, ◌*◌, ◌/◌, ◌≤◌, ◌≡◌, ◌≢◌, ◌∙◌, ◌↔◌, true, false, arith, ◌==◌,
}
use native.Mathlib.Nat.{div-one}
use cgr_jni.Base.Double.{whole, whole_lem}
use cgr_jni.Base.Int.{
  ℤ, pos, pos_part, neg_part, ◌+ℤ◌, ◌-ℤ◌, ◌≤ℤ◌, +ℤ_parts, -ℤ_parts, eq_of_parts, parts_of_eq,
}
use cgr_jni.Scalar.{
  Scalar, one_gig, magnitude, load_scalar, increase_gigs, increase_scalar, reduce_gigs, borrow,
  reduce_scalar, times_gig, value, over, split_gigs, multiply_scalar, divide_scalar, add_to_scalar,
  subtract_from_scalar, scalar_is_valid, times, as_double,
}
use cgr_jni.Scalar.Carry.{IsNormal, carry_lem, increase_gigs_lem, reduce_gigs_lem, borrow_lem}

-- `load_scalar i` is a normal scalar that stands for the absolute value of `i`.
pub load_lem : (i : ℤ) → IsNormal (load_scalar i) × (value (load_scalar i) ≡ pos (magnitude i))
unfolding load_scalar value ◌+ℤ◌
load_lem i =
    ground (arith, carry_lem (magnitude i) (record { gigs = pos 0; units = pos (magnitude i) }))

add_up : (a t u : ℤ) (r i : ℕ) → a +ℤ pos r ≡ t +ℤ pos i → a +ℤ (u +ℤ pos r) ≡ (t +ℤ u) +ℤ pos i
add_up a t u r i e =
    eq_of_parts _ _ (omega (arith, +ℤ_parts, parts_of_eq (a +ℤ pos r) (t +ℤ pos i) e))

add_down :
    (a t u b v : ℤ) (r i : ℕ)
    → a -ℤ pos r ≡ t -ℤ pos i
    → b +ℤ v ≡ a +ℤ u
    → b +ℤ (v -ℤ pos r) ≡ (t +ℤ u) -ℤ pos i
add_down a t u b v r i e f = eq_of_parts _ _ (
    omega (
      arith,
      +ℤ_parts,
      -ℤ_parts,
      parts_of_eq (a -ℤ pos r) (t -ℤ pos i) e,
      parts_of_eq (b +ℤ v) (a +ℤ u) f,
    ))

add_nonneg : (u : ℤ) (r : ℕ) → neg_part u ≡ 0 → neg_part (u +ℤ pos r) ≡ 0
unfolding ◌+ℤ◌
add_nonneg u r h = ground arith

sub_nonneg : (u : ℤ) (r : ℕ) → neg_part u ≡ 0 → r ≤ pos_part u → neg_part (u -ℤ pos r) ≡ 0
unfolding ◌-ℤ◌
sub_nonneg u r low h = ground arith

-- On a normal scalar `increase_scalar` adds the absolute value of `i`, and the result is normal.
pub increase_lem :
    (s : Scalar) (i : ℤ)
    → IsNormal s
    → IsNormal (increase_scalar s i) × (value (increase_scalar s i) ≡ value s +ℤ pos (magnitude i))
unfolding increase_scalar value
increase_lem s i n =
    let r = increase_gigs (magnitude i) (magnitude i) s.gigs in
    let (small, sum) = increase_gigs_lem (magnitude i) (magnitude i) s.gigs (omega arith) in
    let u = s.units +ℤ pos r.0 in
    let (normal, same) =
      carry_lem (pos_part u) (record { gigs = r.1; units = u }) (add_nonneg s.units r.0 n.low)
        (omega arith) in
    (normal, same ∙ add_up (times_gig r.1) (times_gig s.gigs) s.units r.0 (magnitude i) sum)

-- On a normal scalar `reduce_scalar` subtracts the absolute value of `i`, and the
-- result is normal.
pub reduce_lem :
    (s : Scalar) (i : ℤ)
    → IsNormal s
    → IsNormal (reduce_scalar s i) × (value (reduce_scalar s i) ≡ value s -ℤ pos (magnitude i))
unfolding reduce_scalar value
reduce_lem s i n =
    let r = reduce_gigs (magnitude i) (magnitude i) s.gigs in
    let (small, sum) = reduce_gigs_lem (magnitude i) (magnitude i) s.gigs (omega arith) in
    let b = borrow (r.0 + neg_part s.units) r.0 (record { gigs = r.1; units = s.units }) in
    let (low, covers, high, same) =
      borrow_lem (r.0 + neg_part s.units) r.0 (record { gigs = r.1; units = s.units }) (omega arith)
        (omega (arith, n.high)) in
    (
      record {
        low = sub_nonneg b.units r.0 low covers;
        high = omega (arith, -ℤ_parts b.units (pos r.0), sub_nonneg b.units r.0 low covers);
      },
      add_down (times_gig r.1) (times_gig s.gigs) s.units (times_gig b.gigs) b.units r.0
          (magnitude i) sum same,
    )

times_gig_parts :
    (g : ℤ)
    → (pos_part (times_gig g) ≡ pos_part g * one_gig)
      × (neg_part (times_gig g) ≡ neg_part g * one_gig)
times_gig_parts g = ground arith

times_gig-add : (g h : ℤ) → times_gig (g +ℤ h) ≡ times_gig g +ℤ times_gig h
times_gig-add g h = eq_of_parts _ _ (omega (arith, +ℤ_parts, times_gig_parts))

times_gig-sub : (g h : ℤ) → times_gig (g -ℤ h) ≡ times_gig g -ℤ times_gig h
times_gig-sub g h = eq_of_parts _ _ (omega (arith, -ℤ_parts, times_gig_parts))

add_gigs :
    (g h u v w : ℤ)
    → neg_part w ≡ 0
    → times_gig g +ℤ u ≡ v +ℤ pos (magnitude w)
    → times_gig (g +ℤ h) +ℤ u ≡ v +ℤ (times_gig h +ℤ w)
add_gigs g h u v w low e = eq_of_parts _ _ (
    omega
      (arith, +ℤ_parts, times_gig_parts, parts_of_eq (times_gig g +ℤ u) (v +ℤ pos (magnitude w)) e))

sub_gigs :
    (g h u v w : ℤ)
    → neg_part w ≡ 0
    → times_gig g +ℤ u ≡ v -ℤ pos (magnitude w)
    → times_gig (g -ℤ h) +ℤ u ≡ v -ℤ (times_gig h +ℤ w)
sub_gigs g h u v w low e = eq_of_parts _ _ (
    omega (
      arith,
      +ℤ_parts,
      -ℤ_parts,
      times_gig_parts,
      parts_of_eq (times_gig g +ℤ u) (v -ℤ pos (magnitude w)) e,
    ))

-- On normal scalars `add_to_scalar` adds as integers do, and the result is normal.
pub add_lem :
    (s t : Scalar)
    → IsNormal s
    → IsNormal t
    → IsNormal (add_to_scalar s t) × (value (add_to_scalar s t) ≡ value s +ℤ value t)
unfolding add_to_scalar value
add_lem s t n m =
    let (normal, sum) = increase_lem s t.units n in
    (
      record { low = normal.low; high = normal.high },
      add_gigs (increase_scalar s t.units).gigs t.gigs (increase_scalar s t.units).units (value s)
          t.units m.low sum,
    )

-- On normal scalars `subtract_from_scalar` subtracts as integers do, and the result is normal.
pub subtract_lem :
    (s t : Scalar)
    → IsNormal s
    → IsNormal t
    → IsNormal (subtract_from_scalar s t) × (value (subtract_from_scalar s t) ≡ value s -ℤ value t)
unfolding subtract_from_scalar value
subtract_lem s t n m =
    let (normal, sum) = reduce_lem s t.units n in
    (
      record { low = normal.low; high = normal.high },
      sub_gigs (reduce_scalar s t.units).gigs t.gigs (reduce_scalar s t.units).units (value s)
          t.units m.low sum,
    )

-- A normal scalar passes `scalar_is_valid` exactly if it stands for no negative number.
pub valid_iff : (s : Scalar) → IsNormal s → (scalar_is_valid s ≡ true) ↔ (pos 0 ≤ℤ value s)
unfolding scalar_is_valid value ◌+ℤ◌
valid_iff s n = ground (arith, n.low, n.high)

split_lem : (n : ℕ) → IsNormal (split_gigs (pos n)) × (value (split_gigs (pos n)) ≡ pos n)
unfolding split_gigs over value ◌+ℤ◌ ◌-ℤ◌
split_lem n = ground arith

as_double-quotient : (v i : ℕ) → 0 < i → i ≤ 2 ^ 31 → v < 2 ^ 53 → as_double (pos v) i ≡ pos (v / i)
unfolding as_double
as_double-quotient v i p int small = ap pos (whole_lem v i p int small)

as_double_exact : (n : ℕ) → n < 2 ^ 53 → as_double (pos n) 1 ≡ pos n
unfolding as_double
as_double_exact n small =
    as_double-quotient n 1 (omega arith) (omega arith) small ∙ ap pos (div-one n)

-- Whatever is lost by rounding, the product is a normal scalar for a natural number.
pub multiply-IsNormal :
    (s : Scalar) (i : ℤ) (v : ℕ)
    → value s ≡ pos v
    → IsNormal (multiply_scalar s i) × ((n : ℕ) × (value (multiply_scalar s i) ≡ pos n))
unfolding multiply_scalar times as_double
multiply-IsNormal s i v e =
    let product = whole (whole v 1 * magnitude i) 1 in
    rw e ((split_lem product).0, (product, (split_lem product).1))

-- On a scalar that stands for a natural number `v`, where both `v` and `v` times the absolute value
-- of `i` lie below 2^53, `multiply_scalar` gives the normal scalar of that product.
pub multiply_lem :
    (s : Scalar) (i : ℤ) (v : ℕ)
    → value s ≡ pos v
    → v < 2 ^ 53
    → v * magnitude i < 2 ^ 53
    → IsNormal (multiply_scalar s i) × (value (multiply_scalar s i) ≡ pos (v * magnitude i))
unfolding multiply_scalar times
multiply_lem s i v e small fits = rw e (
    rw (as_double_exact v small)
      (rw (as_double_exact (v * magnitude i) fits) (split_lem (v * magnitude i))))

-- On a scalar that stands for a natural number `v` below 2^53, `divide_scalar` by an `int` other than
-- 0 gives the normal scalar of the quotient, rounded down: the rounding of the `double` never carries
-- it to the next whole number.
pub divide_lem :
    (s : Scalar) (i : ℤ) (v : ℕ)
    → magnitude i ≢ 0
    → magnitude i ≤ 2 ^ 31
    → value s ≡ pos v
    → v < 2 ^ 53
    → IsNormal (divide_scalar s i) × (value (divide_scalar s i) ≡ pos (v / magnitude i))
unfolding divide_scalar
divide_lem s i v ne int e small =
    let zero_test : (magnitude i == 0) ≡ false = ground arith in
    let quotient = as_double-quotient v (magnitude i) (omega (arith, ne)) int small in
    rw zero_test (rw e (rw (as_double_exact v small) (rw quotient (split_lem (v / magnitude i)))))

-- A division by 0 is none.
pub divide-zero : (s : Scalar) (i : ℤ) → magnitude i ≡ 0 → divide_scalar s i ≡ s
unfolding divide_scalar
divide-zero s i e = let zero_test : (magnitude i == 0) ≡ true = ground arith in rw zero_test refl
