-- ===== src/Scalar/Tests.antt =====
-- Accumulators just below and above one gig.
use cgr_jni.Base.{◌*◌, ◌/◌, ◌≡◌, ◌↔◌, refl, arith, true}
use cgr_jni.Base.Int.{pos, negsuc, ◌+ℤ◌, ◌-ℤ◌, ◌≤ℤ◌}
use cgr_jni.Scalar.{
  Scalar, value, increase_scalar, reduce_scalar, multiply_scalar, divide_scalar, add_to_scalar,
  subtract_from_scalar, scalar_is_valid, increase_gigs, carry, split_gigs, times, over, as_double,
}
use cgr_jni.Base.Double.{whole, scaled, nearest, lift, drop}
use cgr_jni.Scalar.Carry.{IsNormal}
use cgr_jni.Scalar.Value.{
  increase_lem, reduce_lem, multiply_lem, divide_lem, add_lem, subtract_lem, valid_iff,
}

abbrev two_gigs : Scalar
two_gigs = record { gigs = pos 2; units = pos 5 }

abbrev nearly_one : Scalar
nearly_one = record { gigs = pos 0; units = pos 1_073_741_823 }

-- One byte less than none: gigs is negative and units is not.
abbrev debt : Scalar
debt = record { gigs = negsuc 0; units = pos 1_073_741_823 }

two_gigs-IsNormal : IsNormal two_gigs
two_gigs-IsNormal = record { low = refl; high = omega arith }

nearly_one-IsNormal : IsNormal nearly_one
nearly_one-IsNormal = record { low = refl; high = omega arith }

debt-IsNormal : IsNormal debt
debt-IsNormal = record { low = refl; high = omega arith }

two_gigs-value : value two_gigs ≡ pos 2_147_483_653
unfolding value ◌+ℤ◌
two_gigs-value = refl

carries : increase_scalar nearly_one (pos 1) ≡ record { gigs = pos 1; units = pos 0 }
unfolding increase_scalar increase_gigs carry ◌+ℤ◌ ◌-ℤ◌
carries = refl

increase_example :
    IsNormal (increase_scalar nearly_one (pos 7))
    × (value (increase_scalar nearly_one (pos 7)) ≡ value nearly_one +ℤ pos 7)
increase_example = increase_lem nearly_one (pos 7) nearly_one-IsNormal

reduce_example :
    IsNormal (reduce_scalar two_gigs (pos 6))
    × (value (reduce_scalar two_gigs (pos 6)) ≡ value two_gigs -ℤ pos 6)
reduce_example = reduce_lem two_gigs (pos 6) two_gigs-IsNormal

add_example :
    IsNormal (add_to_scalar two_gigs nearly_one)
    × (value (add_to_scalar two_gigs nearly_one) ≡ value two_gigs +ℤ value nearly_one)
add_example = add_lem two_gigs nearly_one two_gigs-IsNormal nearly_one-IsNormal

subtract_example :
    IsNormal (subtract_from_scalar two_gigs nearly_one)
    × (value (subtract_from_scalar two_gigs nearly_one) ≡ value two_gigs -ℤ value nearly_one)
subtract_example = subtract_lem two_gigs nearly_one two_gigs-IsNormal nearly_one-IsNormal

valid_example : (scalar_is_valid debt ≡ true) ↔ (pos 0 ≤ℤ value debt)
valid_example = valid_iff debt debt-IsNormal

multiply_example :
    IsNormal (multiply_scalar two_gigs (pos 3))
    × (value (multiply_scalar two_gigs (pos 3)) ≡ pos (2_147_483_653 * 3))
multiply_example =
    multiply_lem two_gigs (pos 3) 2_147_483_653 two_gigs-value (omega arith) (omega arith)

divide_example :
    IsNormal (divide_scalar two_gigs (pos 4))
    × (value (divide_scalar two_gigs (pos 4)) ≡ pos (2_147_483_653 / 4))
divide_example =
    divide_lem two_gigs (pos 4) 2_147_483_653 (omega arith) (omega arith) two_gigs-value
      (omega arith)

-- 2 ^ 54 + 1 bytes do not fit a `double`: a product with 1 loses the last one.
byte_lost :
    multiply_scalar (record { gigs = pos 16_777_216; units = pos 1 }) (pos 1)
    ≡ record { gigs = pos 16_777_216; units = pos 0 }
unfolding multiply_scalar split_gigs times over as_double value whole scaled nearest lift drop ◌+ℤ◌
    ◌-ℤ◌
byte_lost = refl
