-- ===== src/Scalar.antt =====
-- The accumulators of ici/library/platform.c (the type stands in ici/include/platform.h): a number
-- of bytes held as two C `int`s, gigs of 2 ^ 30 and units. The loops are given as many rounds as
-- the number that they count down. `multiply_scalar` and `divide_scalar` pass through a `double`, with
-- its rounding. A `double` that is scaled by ONE_GIG or loses its multiples of it stays exact, so that
-- the whole part of the product or the quotient is all that the casts to `int` read.
pub mod Carry
pub mod Value
mod Tests
use cgr_jni.Base.{
  ℕ, zero, suc, ◌+◌, ◌-◌, ◌*◌, ◌/◌, Bool, true, false, ltb, leb, ◌==◌, if◌then◌else◌,
}
use cgr_jni.Base.Double.{whole}
use cgr_jni.Base.Int.{ℤ, pos, negsuc, pos_part, neg_part, sub_ℕ, ◌+ℤ◌, ◌-ℤ◌, ltb_ℤ}

abbrev pub one_gig : ℕ
one_gig = 1_073_741_824

pub record Scalar : Type 0 where
  pub gigs : ℤ
  pub units : ℤ

-- `if (i < 0) i = 0 - i;`
abbrev pub magnitude : ℤ → ℕ
magnitude i = pos_part i + neg_part i

-- `while (s->units >= ONE_GIG) { s->gigs++; s->units -= ONE_GIG; }`
unfoldable pub carry : ℕ → Scalar → Scalar
carry zero s = s
carry (suc fuel) s = elim (ltb_ℤ s.units (pos one_gig)) [
  | true ↦ s
  | false ↦ carry fuel (record { gigs = s.gigs +ℤ pos 1; units = s.units -ℤ pos one_gig })
]

unfoldable pub load_scalar : ℤ → Scalar
load_scalar i =
    let s : Scalar = record { gigs = pos 0; units = pos (magnitude i) } in carry (magnitude i) s

-- `while (i >= ONE_GIG) { i -= ONE_GIG; s->gigs++; }`
unfoldable pub increase_gigs : ℕ → ℕ → ℤ → ℕ × ℤ
increase_gigs zero i gigs = (i, gigs)
increase_gigs (suc fuel) i gigs = elim (leb one_gig i) [
  | true ↦ increase_gigs fuel (i - one_gig) (gigs +ℤ pos 1)
  | false ↦ (i, gigs)
]

unfoldable pub increase_scalar : Scalar → ℤ → Scalar
increase_scalar s i =
    let (rest, gigs) = increase_gigs (magnitude i) (magnitude i) s.gigs in
    let units = s.units +ℤ pos rest in
    carry (pos_part units) (record { gigs = gigs; units = units })

-- `while (i >= ONE_GIG) { i -= ONE_GIG; s->gigs--; }`
unfoldable pub reduce_gigs : ℕ → ℕ → ℤ → ℕ × ℤ
reduce_gigs zero i gigs = (i, gigs)
reduce_gigs (suc fuel) i gigs = elim (leb one_gig i) [
  | true ↦ reduce_gigs fuel (i - one_gig) (gigs -ℤ pos 1)
  | false ↦ (i, gigs)
]

-- `while (i > s->units) { s->units += ONE_GIG; s->gigs--; }`
unfoldable pub borrow : ℕ → ℕ → Scalar → Scalar
borrow zero i s = s
borrow (suc fuel) i s = elim (ltb_ℤ s.units (pos i)) [
  | true ↦ borrow fuel i (record { gigs = s.gigs -ℤ pos 1; units = s.units +ℤ pos one_gig })
  | false ↦ s
]

unfoldable pub reduce_scalar : Scalar → ℤ → Scalar
reduce_scalar s i =
    let (rest, gigs) = reduce_gigs (magnitude i) (magnitude i) s.gigs in
    let s' = borrow (rest + neg_part s.units) rest (record { gigs = gigs; units = s.units }) in
    record s' { units = s'.units -ℤ pos rest }

-- `gigs * ONE_GIG + units`, computed as a `double`.
abbrev pub times_gig : ℤ → ℤ
times_gig (pos n) = pos (n * one_gig)
times_gig (negsuc n) = sub_ℕ 0 (suc n * one_gig)

unfoldable pub value : Scalar → ℤ
value s = times_gig s.gigs +ℤ s.units

unfoldable pub times : ℤ → ℕ → ℤ
times (pos n) i = pos (n * i)
times (negsuc n) i = sub_ℕ 0 (suc n * i)

-- The whole part of `v / i` as a `double`; with i = 1, `v` as a `double`.
unfoldable pub as_double : ℤ → ℕ → ℤ
as_double (pos n) i = pos (whole n i)
as_double (negsuc n) i = sub_ℕ 0 (whole (suc n) i)

-- A quotient, truncated towards zero as a cast to `int` does.
unfoldable pub over : ℤ → ℕ → ℤ
over (pos n) i = pos (n / i)
over (negsuc n) i = sub_ℕ 0 (suc n / i)

unfoldable pub split_gigs : ℤ → Scalar
split_gigs v = let gigs = over v one_gig in record { gigs = gigs; units = v -ℤ times_gig gigs }

unfoldable pub multiply_scalar : Scalar → ℤ → Scalar
multiply_scalar s i = split_gigs (as_double (times (as_double (value s) 1) (magnitude i)) 1)

-- `CHKVOID(i != 0)` leaves the scalar as it is.
unfoldable pub divide_scalar : Scalar → ℤ → Scalar
divide_scalar s i =
    if magnitude i == 0 then s else split_gigs (as_double (as_double (value s) 1) (magnitude i))

pub copy_scalar : Scalar → Scalar
copy_scalar from = record { gigs = from.gigs; units = from.units }

pub add_to_scalar : Scalar → Scalar → Scalar
add_to_scalar s increment =
    let s' = increase_scalar s increment.units in record s' { gigs = s'.gigs +ℤ increment.gigs }

unfoldable pub subtract_from_scalar : Scalar → Scalar → Scalar
subtract_from_scalar s decrement =
    let s' = reduce_scalar s decrement.units in record s' { gigs = s'.gigs -ℤ decrement.gigs }

unfoldable pub scalar_is_valid : Scalar → Bool
scalar_is_valid s = leb (neg_part s.gigs) 0
