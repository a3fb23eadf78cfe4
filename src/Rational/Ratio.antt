-- ===== src/Rational/Ratio.antt =====
-- rational/include/tap/sr/rational/ratio.h: which numbers a ratio may have, and their exponents.
pub mod Powers
pub mod Smooth
pub mod Traits
mod Tests
use sample_rate_tap.Common.{ℕ, zero, suc, ◌/◌, ◌%◌, Bool, false, ltb, ◌==◌, ◌&&◌, if◌then◌else◌}

-- `while (n % base == 0) { n /= base; }`; the first argument is fuel.
unfoldable pub strip : ℕ → ℕ → ℕ → ℕ
strip zero base n = n
strip (suc fuel) base n = let rest = strip fuel base (n / base) in if n % base == 0 then rest else n

-- Each round makes `n` smaller, so that `n` rounds are enough.
unfoldable pub is_two_three_smooth : ℕ → Bool
is_two_three_smooth n = let odd = strip n 2 n in if n == 0 then false else strip odd 3 odd == 1

-- `while (n > 0 && n % base == 0) { n /= base; ++e; }`
unfoldable pub count_from : ℕ → ℕ → ℕ → ℕ → ℕ
count_from zero base n e = e
count_from (suc fuel) base n e =
    let rest = count_from fuel base (n / base) (suc e) in
    if ltb 0 n && (n % base == 0) then rest else e

unfoldable pub exponent_of : ℕ → ℕ → ℕ
exponent_of n base = count_from n base n 0

-- `ratio_traits<ratio<up, down>>`, its members as functions of the two numbers.
module _ (up down : ℕ) where
  abbrev pub k_is_up : Bool
  k_is_up = ltb down up

  abbrev pub k_is_interpolator : Bool
  k_is_interpolator = down == 1

  abbrev pub k_is_decimator : Bool
  k_is_decimator = up == 1

  abbrev pub k_is_mixed : Bool
  k_is_mixed = ltb 1 up && ltb 1 down

  abbrev pub k_band : ℕ
  k_band = if ltb down up then up else down

  abbrev pub k_composite_factor : ℕ
  k_composite_factor = up

  abbrev pub k_lower_rate_num : ℕ
  k_lower_rate_num = if k_is_up then 1 else up

  abbrev pub k_lower_rate_den : ℕ
  k_lower_rate_den = if k_is_up then 1 else down

  abbrev pub k_pow2_up : ℕ
  k_pow2_up = exponent_of up 2

  abbrev pub k_pow3_up : ℕ
  k_pow3_up = exponent_of up 3

  abbrev pub k_pow2_down : ℕ
  k_pow2_down = exponent_of down 2

  abbrev pub k_pow3_down : ℕ
  k_pow3_down = exponent_of down 3
