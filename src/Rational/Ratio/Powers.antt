-- ===== src/Rational/Ratio/Powers.antt =====
-- The two loops against the factorization of a number.
use native.Mathlib.Nat.{pow-succ', mul_assoc, one-mul, pow-zero, mul-pos, le-mul_of_pos_right}
use sample_rate_tap.Common.{
  ℕ, zero, suc, ◌+◌, ◌*◌, ◌/◌, ◌%◌, ◌^◌, ◌≤◌, ◌<◌, ◌≡◌, ◌⊎◌, inl, inr, refl, sym, ap, ◌∙◌, arith,
  true, false, Bool-cases, lt→ltb, ◌==◌, ==_iff,
}
use sample_rate_tap.Rational.Ratio.{strip, is_two_three_smooth, count_from}

-- The bases that the source uses.
abbrev IsBase : ℕ → Type 0
IsBase base = (base ≡ 2) ⊎ (base ≡ 3)

quotient :
    (base n : ℕ)
    → IsBase base
    → 0 < n
    → n % base ≡ 0
    → (0 < n / base) × (n / base < n) × (base * (n / base) ≡ n)
quotient base n (inl two) pos = rw two (λ e. (omega arith, omega arith, omega arith))
quotient base n (inr three) pos = rw three (λ e. (omega arith, omega arith, omega arith))

multiple : (base x : ℕ) → IsBase base → (base * x % base ≡ 0) × (base * x / base ≡ x)
multiple base x (inl two) = rw two (omega arith, omega arith)
multiple base x (inr three) = rw three (omega arith, omega arith)

pub power_pos : (base a : ℕ) → IsBase base → 0 < base ^ a
power_pos base zero b = omega (arith, pow-zero base)
power_pos base (suc a) (inl two) =
    rw (two, pow-succ') (omega (arith, rw two at (power_pos base a (inl two))))
power_pos base (suc a) (inr three) =
    rw (three, pow-succ') (omega (arith, rw three at (power_pos base a (inr three))))

module _ (base : ℕ) (b : IsBase base) where
  base_pos : 0 < base
  base_pos = elim b [ inl two ↦ omega arith | inr three ↦ omega arith ]

  peel : (a m : ℕ) → base ^ suc a * m ≡ base * (base ^ a * m)
  peel a m = rw (pow-succ', mul_assoc) refl

  once : (m : ℕ) → base ^ 0 * m ≡ m
  once m = ap (λ t. t * m) (pow-zero base) ∙ one-mul m

  -- The first loop leaves the part that the base does not divide.
  pub strip_lem :
      (a fuel m : ℕ) → (m % base == 0) ≡ false → a ≤ fuel → strip fuel base (base ^ a * m) ≡ m
  unfolding strip
  strip_lem zero zero m h le = once m
  strip_lem (suc a) zero m h le = absurd (omega arith)
  strip_lem zero (suc fuel) m h le = let one : base ^ 0 * m ≡ m = once m in rw (one, h) refl
  strip_lem (suc a) (suc fuel) m h le =
      let (divides, rest) = multiple base (base ^ a * m) b in
      rw (peel a m, divides, rest) (strip_lem a fuel m h (omega arith))

  -- The second one counts its rounds.
  pub count_from_lem :
      (a fuel m e : ℕ)
      → 0 < m
      → (m % base == 0) ≡ false
      → a ≤ fuel
      → count_from fuel base (base ^ a * m) e ≡ e + a
  unfolding count_from
  count_from_lem zero zero m e pos h le = omega arith
  count_from_lem (suc a) zero m e pos h le = absurd (omega arith)
  count_from_lem zero (suc fuel) m e pos h le =
      let one : base ^ 0 * m ≡ m = once m in rw (one, h, lt→ltb 0 m pos) (omega arith)
  count_from_lem (suc a) (suc fuel) m e pos h le =
      let (divides, rest) = multiple base (base ^ a * m) b in
      let positive : 0 < base * (base ^ a * m) =
        mul-pos base_pos (mul-pos (power_pos base a b) pos) in
      rw (peel a m, divides, rest, lt→ltb 0 _ positive)
        (count_from_lem a fuel m (suc e) pos h (omega arith) ∙ omega arith)

  -- Every positive number is a power of the base times what the base does not divide.
  pub split_lem :
      (bound n : ℕ)
      → 0 < n
      → n ≤ bound
      → (a m : ℕ) × (n ≡ base ^ a * m) × ((m % base == 0) ≡ false) × (0 < m) × (a ≤ n)
  split_lem zero n pos le = absurd (omega arith)
  split_lem (suc bound) n pos le = elim (Bool-cases (n % base == 0)) [
    | inl e ↦
        let (some, less, whole) = quotient base n b pos ((==_iff (n % base) 0).0 e) in
        let (a, m, eq, odd, left, small) = split_lem bound (n / base) some (omega arith) in
        (suc a, m, sym whole ∙ ap (λ t. base * t) eq ∙ sym (peel a m), odd, left, omega arith)
    | inr odd ↦ (0, n, sym (once n), odd, pos, omega arith)
  ]

-- A power of 3 is odd, and what is left of it without 3 is 1.
pub power_of_three_odd : (b : ℕ) → (3 ^ b % 2 == 0) ≡ false
power_of_three_odd b = let odd = remainder b in ground arith
  where
    remainder : (c : ℕ) → 3 ^ c % 2 ≡ 1
    remainder zero = omega arith
    remainder (suc c) = rw (pow-succ' 3 c) (omega (arith, remainder c))

pub power-ge : (base a : ℕ) → IsBase base → a ≤ base ^ a
power-ge base zero b = omega arith
power-ge base (suc a) (inl two) =
    rw (two, pow-succ' 2 a)
      (omega (arith, rw two at (power-ge base a (inl two)), rw two at (power_pos base a (inl two))))
power-ge base (suc a) (inr three) =
    rw (three, pow-succ' 3 a)
      (omega (
        arith,
        rw three at (power-ge base a (inr three)),
        rw three at (power_pos base a (inr three)),
      ))

-- Of a product of powers of 2 and 3, the first loop leaves the power of 3 and the second one leaves 1.
pub smooth_product : (a b : ℕ) → is_two_three_smooth (2 ^ a * 3 ^ b) ≡ true
unfolding is_two_three_smooth
smooth_product a b =
    let n = 2 ^ a * 3 ^ b in
    let twos : strip n 2 n ≡ 3 ^ b = strip_lem 2 (inl refl) a n (3 ^ b) (power_of_three_odd b) (
      omega
        (arith, power-ge 2 a (inl refl), le-mul_of_pos_right (2 ^ a) (power_pos 3 b (inr refl)))) in
    let whole : 3 ^ b ≡ 3 ^ b * 1 = omega arith in
    let threes : strip (3 ^ b) 3 (3 ^ b) ≡ 1 =
      ap (strip (3 ^ b) 3) whole
      ∙ strip_lem 3 (inr refl) b (3 ^ b) 1 refl (power-ge 3 b (inr refl)) in
    let some : (n == 0) ≡ false =
      (let pos = mul-pos (power_pos 2 a (inl refl)) (power_pos 3 b (inr refl)) in ground arith) in
    rw (some, twos, threes) refl
