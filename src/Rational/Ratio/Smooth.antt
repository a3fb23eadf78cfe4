-- ===== src/Rational/Ratio/Smooth.antt =====
-- The numbers of the charter, and their exponents.
use native.Mathlib.Nat.{pow-succ', mul-one, mul_comm, le-mul_of_pos_right}
use sample_rate_tap.Common.{
  ℕ, zero, suc, ◌*◌, ◌%◌, ◌^◌, ◌≤◌, ◌<◌, ◌≡◌, ◌↔◌, ◌⊎◌, inl, inr, refl, sym, ap, ◌∙◌, arith, true,
  false, ◌==◌, ==_iff,
}
use sample_rate_tap.Rational.Ratio.{strip, is_two_three_smooth, count_from, exponent_of}
use sample_rate_tap.Rational.Ratio.Powers.{
  strip_lem, count_from_lem, split_lem, power_pos, power-ge, power_of_three_odd, smooth_product,
}

-- The loops on a number that is split by 2 and then by 3.
smooth_split :
    (n a m b r : ℕ)
    → 0 < n
    → n ≡ 2 ^ a * m
    → (m % 2 == 0) ≡ false
    → a ≤ n
    → m ≡ 3 ^ b * r
    → (r % 3 == 0) ≡ false
    → b ≤ m
    → is_two_three_smooth n ≡ (r == 1)
unfolding is_two_three_smooth
smooth_split n a m b r pos e odd small f rest few =
    let twos : strip n 2 n ≡ m = ap (strip n 2) e ∙ strip_lem 2 (inl refl) a n m odd small in
    let threes : strip m 3 m ≡ r = ap (strip m 3) f ∙ strip_lem 3 (inr refl) b m r rest few in
    let some : (n == 0) ≡ false = ground arith in rw (some, twos, threes) refl

-- The test holds exactly of the products of a power of 2 and a power of 3.
pub is_two_three_smooth_iff :
    (n : ℕ) → (is_two_three_smooth n ≡ true) ↔ ((a : ℕ) × (b : ℕ) × (n ≡ 2 ^ a * 3 ^ b))
unfolding is_two_three_smooth
is_two_three_smooth_iff zero =
    (λ h. absurd (ground arith), λ h. ap is_two_three_smooth h.2 ∙ smooth_product h.0 h.1)
is_two_three_smooth_iff (suc k) = (
  λ h.
      let n = suc k in
      let (a, m, e, odd, left, small) = split_lem 2 (inl refl) n n (omega arith) (omega arith) in
      let (b, r, f, rest, some, few) = split_lem 3 (inr refl) m m left (omega arith) in
      let one : r ≡ 1 =
        (==_iff r 1).0 (sym (smooth_split n a m b r (omega arith) e odd small f rest few) ∙ h) in
      (a, b, e ∙ ap (λ t. 2 ^ a * t) (f ∙ ap (λ t. 3 ^ b * t) one ∙ mul-one (3 ^ b))),
  λ h. ap is_two_three_smooth h.2 ∙ smooth_product h.0 h.1,
)

-- A power of 2 is no multiple of 3.
power_of_two_rest : (a : ℕ) → (2 ^ a % 3 == 0) ≡ false
power_of_two_rest a = elim (remainder a) [ inl one ↦ ground arith | inr two ↦ ground arith ]
  where
    remainder : (c : ℕ) → (2 ^ c % 3 ≡ 1) ⊎ (2 ^ c % 3 ≡ 2)
    remainder zero = inl (omega arith)
    remainder (suc c) = elim (remainder c) [
      | inl one ↦ inr (rw (pow-succ' 2 c) (omega arith))
      | inr two ↦ inl (rw (pow-succ' 2 c) (omega arith))
    ]

-- The exponents that the traits of a ratio read are those of its factorization.
pub exponent_of_lem :
    (a b : ℕ) → (exponent_of (2 ^ a * 3 ^ b) 2 ≡ a) × (exponent_of (2 ^ a * 3 ^ b) 3 ≡ b)
unfolding exponent_of
exponent_of_lem a b =
    let n = 2 ^ a * 3 ^ b in
    let two_pos = power_pos 2 a (inl refl) in
    let three_pos = power_pos 3 b (inr refl) in
    let high : 2 ^ a ≤ n = le-mul_of_pos_right (2 ^ a) three_pos in
    let turned : n ≡ 3 ^ b * 2 ^ a = mul_comm (2 ^ a) (3 ^ b) in
    let wide : 3 ^ b ≤ n = rw turned (le-mul_of_pos_right (3 ^ b) two_pos) in
    (
      count_from_lem 2 (inl refl) a n (3 ^ b) 0 three_pos (power_of_three_odd b)
            (omega (arith, power-ge 2 a (inl refl)))
          ∙ omega arith,
      ap (λ t. count_from n 3 t 0) turned
          ∙ count_from_lem 3 (inr refl) b n (2 ^ a) 0 two_pos (power_of_two_rest a)
              (omega (arith, power-ge 3 b (inr refl)))
          ∙ omega arith,
    )
