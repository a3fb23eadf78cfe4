-- ===== src/Rational/Ratio/Traits.antt =====
-- The derived numbers of a ratio.
use sample_rate_tap.Common.{ℕ, ◌*◌, ◌^◌, ◌≡◌, sym, ap, ap₂, ◌∙◌, true}
use sample_rate_tap.Rational.Ratio.{
  is_two_three_smooth, k_pow2_up, k_pow3_up, k_pow2_down, k_pow3_down,
}
use sample_rate_tap.Rational.Ratio.Smooth.{is_two_three_smooth_iff, exponent_of_lem}

-- A ratio of numbers that pass the charter's test is given by its four exponents.
pub ratio-exponents :
    (up down : ℕ)
    → is_two_three_smooth up ≡ true
    → is_two_three_smooth down ≡ true
    → (up ≡ 2 ^ k_pow2_up up down * 3 ^ k_pow3_up up down)
      × (down ≡ 2 ^ k_pow2_down up down * 3 ^ k_pow3_down up down)
ratio-exponents up down h g = (factored up h, factored down g)
  where
    factored : (n : ℕ) → is_two_three_smooth n ≡ true → n ≡ 2 ^ k_pow2_up n 1 * 3 ^ k_pow3_up n 1
    factored n s =
        let (a, b, e) = (is_two_three_smooth_iff n).0 s in
        let (two, three) = exponent_of_lem a b in
        e
        ∙ sym (
            ap₂ (λ x y. 2 ^ x * 3 ^ y) (ap (λ t. k_pow2_up t 1) e ∙ two)
              (ap (λ t. k_pow3_up t 1) e ∙ three))
