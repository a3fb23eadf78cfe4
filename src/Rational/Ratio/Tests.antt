-- ===== src/Rational/Ratio/Tests.antt =====
-- Eight thirds and a ratio outside the charter.
use sample_rate_tap.Common.{ℕ, ◌*◌, ◌^◌, ◌≡◌, ◌↔◌, refl, true, false}
use sample_rate_tap.Rational.Ratio.{
  is_two_three_smooth, exponent_of, strip, k_pow2_up, k_pow3_up, k_pow2_down, k_pow3_down,
}
use sample_rate_tap.Rational.Ratio.Traits.{ratio-exponents}
use sample_rate_tap.Rational.Ratio.Smooth.{is_two_three_smooth_iff, exponent_of_lem}

twelve_is_smooth : is_two_three_smooth 12 ≡ true
unfolding is_two_three_smooth strip
twelve_is_smooth = refl

ten_is_not : is_two_three_smooth 10 ≡ false
unfolding is_two_three_smooth strip
ten_is_not = refl

is_two_three_smooth_iff_example :
    (is_two_three_smooth 24 ≡ true) ↔ ((a : ℕ) × (b : ℕ) × (24 ≡ 2 ^ a * 3 ^ b))
is_two_three_smooth_iff_example = is_two_three_smooth_iff 24

exponent_of_lem_example : (exponent_of (2 ^ 3 * 3 ^ 1) 2 ≡ 3) × (exponent_of (2 ^ 3 * 3 ^ 1) 3 ≡ 1)
exponent_of_lem_example = exponent_of_lem 3 1

eight_is_smooth : is_two_three_smooth 8 ≡ true
unfolding is_two_three_smooth strip
eight_is_smooth = refl

three_is_smooth : is_two_three_smooth 3 ≡ true
unfolding is_two_three_smooth strip
three_is_smooth = refl

ratio-exponents_example :
    (8 ≡ 2 ^ k_pow2_up 8 3 * 3 ^ k_pow3_up 8 3) × (3 ≡ 2 ^ k_pow2_down 8 3 * 3 ^ k_pow3_down 8 3)
ratio-exponents_example = ratio-exponents 8 3 eight_is_smooth three_is_smooth
