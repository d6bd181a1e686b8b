-- ===== src/Base/Double.antt =====
-- The whole parts of C `double`s: a number has 53 bits and is rounded to the nearest one, halfway to
-- the even one. No number here is so small or so large that the exponent has an end.
use native.Mathlib.Nat.{
  le_trans, mul-le-mul_right, mul_right_comm, div-mul-le_self, lt-div-mul-add, zero-div, mul-one,
  le-div_iff_mul-le, div-lt_iff_lt-mul, div-add-mod', pow-suc,
}
use cgr_jni.Base.{
  ℕ, zero, suc, ◌+◌, ◌-◌, ◌*◌, ◌/◌, ◌%◌, ◌^◌, ◌≤◌, ◌<◌, ◌≡◌, refl, ◌∙◌, sym, ap, subst, inl, inr,
  true, false, Bool-cases, ltb, leb, if◌then◌else◌, arith,
}

-- The quotient, rounded.
unfoldable pub nearest : ℕ → ℕ → ℕ
nearest num den =
    let q = num / den in
    let r = num % den in if ltb (2 * r) den then q else if ltb den (2 * r) then suc q else q + q % 2

-- How often a quotient is doubled until it has 53 bits.
unfoldable pub lift : ℕ → ℕ → ℕ → ℕ
lift zero num den = 0
lift (suc fuel) num den = elim (leb (den * 2 ^ 52) num) [
  | true ↦ 0
  | false ↦ suc (lift fuel (2 * num) den)
]

-- How often it is halved until it has no more.
unfoldable pub drop : ℕ → ℕ → ℕ → ℕ
drop zero num den = 0
drop (suc fuel) num den = elim (ltb num (den * 2 ^ 53)) [
  | true ↦ 0
  | false ↦ suc (drop fuel num (2 * den))
]

unfoldable pub scaled : ℕ → ℕ → ℕ → ℕ → ℕ
unfolding nearest
scaled num den up down = nearest (num * 2 ^ up) (den * 2 ^ down) * 2 ^ down / 2 ^ up

-- The whole part of `num / den` as a `double`. Sixty-four rounds halve what a product of C `int`s with
-- gigs can be, and eighty-four double the least quotient by an `int`.
unfoldable pub whole : ℕ → ℕ → ℕ
unfolding scaled lift drop
whole num den = scaled num den (lift 84 num den) (drop 64 num den)

nearest_lem :
    (num den : ℕ)
    → 0 < den
    → (num / den ≤ nearest num den) × (2 * (nearest num den * den) ≤ 2 * num + den)
unfolding nearest
nearest_lem num den p = grind (arith, div-add-mod' num den)

lift_lem :
    (fuel num den : ℕ) → den * 2 ^ 52 ≤ num * 2 ^ fuel → den * 2 ^ 52 ≤ num * 2 ^ lift fuel num den
unfolding lift
lift_lem zero num den h = h
lift_lem (suc fuel) num den h = elim (Bool-cases (leb (den * 2 ^ 52) num)) [
  | inl e ↦ rw (e, lift) (ground (arith, e))
  | inr e ↦
      rw (e, lift) (doubled (lift fuel (2 * num) den) (lift_lem fuel (2 * num) den (halved h)))
]
  where
    next : (k : ℕ) → num * 2 ^ suc k ≡ 2 * num * 2 ^ k
    next k = rw (pow-suc 2 k) (grind arith)

    doubled : (k : ℕ) → den * 2 ^ 52 ≤ 2 * num * 2 ^ k → den * 2 ^ 52 ≤ num * 2 ^ suc k
    doubled k l = rw (next k) l

    halved : den * 2 ^ 52 ≤ num * 2 ^ suc fuel → den * 2 ^ 52 ≤ 2 * num * 2 ^ fuel
    halved l = subst (λ x. den * 2 ^ 52 ≤ x) (next fuel) l

drop_lem : (fuel num den : ℕ) → num < den * 2 ^ 53 → drop fuel num den ≡ 0
unfolding drop
drop_lem zero num den h = refl
drop_lem (suc fuel) num den h =
    let few : ltb num (den * 2 ^ 53) ≡ true = ground arith in rw (few, drop) refl

-- A rounded quotient of `num * scale` and `den`, scaled back.
scaled_back :
    (num den scale m : ℕ)
    → 0 < den
    → 0 < scale
    → den < 2 * scale
    → num * scale / den ≤ m
    → 2 * (m * den) ≤ 2 * (num * scale) + den
    → m / scale ≡ num / den
scaled_back num den scale m p k fine low high =
    let q = num / den in
    let below : q * scale * den ≤ num * scale =
      subst (λ x. x ≤ num * scale) (mul_right_comm q den scale)
        (mul-le-mul_right scale (div-mul-le_self num den)) in
    let least : q ≤ m / scale =
      (le-div_iff_mul-le k).1 (le_trans ((le-div_iff_mul-le p).1 below) low) in
    let most : m / scale < suc q =
      (div-lt_iff_lt-mul k).1 (elim (Bool-cases (ltb m (suc q * scale))) [
        | inl e ↦ ground (arith, e)
        | inr e ↦ absurd (too_much q (lt-div-mul-add p) (ground (arith, e)))
      ]) in
    omega (arith, least, most)
  where
    too_much : (q : ℕ) → num < q * den + den → suc q * scale ≤ m → ⊥
    too_much q above l =
        let a : suc num * scale ≤ (q * den + den) * scale = mul-le-mul_right scale above in
        let b : suc q * scale * den ≤ m * den = mul-le-mul_right den l in
        let c : (q * den + den) * scale ≡ suc q * scale * den = grind arith in
        let d : suc num * scale ≡ num * scale + scale = grind arith in
        omega (arith, a, b, c, d, high, fine)

zeroed : (den m : ℕ) → 0 < den → 2 * (m * den) ≤ den → m ≡ 0
zeroed den zero p h = refl
zeroed den (suc m) p h = absurd (grind (arith, p, h))

scaled_lem :
    (num den up : ℕ)
    → 0 < den
    → num < 2 ^ 53
    → (0 < num → den * 2 ^ 52 ≤ num * 2 ^ up)
    → scaled num den up 0 ≡ num / den
unfolding scaled
scaled_lem zero den up p small enough =
    let (low, high) = nearest_lem (0 * 2 ^ up) (den * 1) (omega (arith, p)) in
    let none = zeroed den (nearest (0 * 2 ^ up) (den * 1)) p (omega (arith, high)) in
    rw none (zero-div (2 ^ up) ∙ sym (zero-div den))
scaled_lem (suc n) den up p small enough =
    let (low, high) = nearest_lem (suc n * 2 ^ up) (den * 1) (omega (arith, p)) in
    ap (λ x. x / 2 ^ up) (mul-one (nearest (suc n * 2 ^ up) (den * 1)))
    ∙ (scaled_back (suc n) den (2 ^ up) (nearest (suc n * 2 ^ up) (den * 1)) p
        (omega (arith, limit, enough (omega arith))) (omega (arith, limit, enough (omega arith)))
        (subst (λ d. suc n * 2 ^ up / d ≤ nearest (suc n * 2 ^ up) (den * 1)) (mul-one den) low)
        (omega (arith, high)))
  where
    limit : suc n * 2 ^ up ≤ (2 ^ 53 - 1) * 2 ^ up
    limit = mul-le-mul_right (2 ^ up) (omega (arith, small))

-- The exact one lies below 2^53, the divisor is an `int`: the rounded quotient has its whole part.
pub whole_lem : (num den : ℕ) → 0 < den → den ≤ 2 ^ 31 → num < 2 ^ 53 → whole num den ≡ num / den
unfolding whole
whole_lem num den p i small =
    subst (λ k. scaled num den (lift 84 num den) k ≡ num / den)
      (sym (drop_lem 64 num den (omega arith)))
      (scaled_lem num den (lift 84 num den) p small enough)
  where
    enough : 0 < num → den * 2 ^ 52 ≤ num * 2 ^ lift 84 num den
    enough some_num = lift_lem 84 num den (omega arith)
