-- ===== src/Rational/Chain/Divisor.antt =====
-- What the design divisor is.
use mathlib.Core.Path.{subst}
use native.Mathlib.Nat.{pow-suc, mul-le-mul_right, one-le-pow, mul-le-mul_left}
use sample_rate_tap.Common.{
  ℕ, zero, suc, ◌*◌, ◌^◌, ◌≤◌, ◌<◌, ◌≡◌, ◌⊎◌, inl, inr, refl, sym, ◌∙◌, arith, max, false, leb,
  leb→le, ltb, Bool-cases, mul_w, mul_w-eq, u64,
}
use sample_rate_tap.Rational.Chain.{ExactRatio, doubles_from, triples_from, design_divisor}

module _ (q : ExactRatio) (some : 0 < q.den) (fits : q.num * 32 < u64) where
  -- What a loop from `d` over its doubles makes of the best so far.
  record Best (d best r : ℕ) : Type 0 where
    above : best ≤ r
    reached : (i : ℕ) → d * 2 ^ i * q.den ≤ q.num → d * 2 ^ i ≤ r
    attained : (r ≡ best) ⊎ (i : ℕ) × (r ≡ d * 2 ^ i) × (r * q.den ≤ q.num)

  doubled : (d i : ℕ) → d * 2 ^ suc i ≡ d * 2 * 2 ^ i
  doubled d i = rw pow-suc (grind arith)

  too_far : (d i : ℕ) → q.num < d * q.den → d * 2 ^ i * q.den ≤ q.num → ⊥
  too_far d i past fit =
      let grows : d * q.den * 1 ≤ d * q.den * 2 ^ i =
        mul-le-mul_left (d * q.den) (one-le-pow i 2 (omega arith)) in
      let swap : d * 2 ^ i * q.den ≡ d * q.den * 2 ^ i = grind arith in omega arith

  stops : (d best : ℕ) → q.num < d * q.den → Best d best best
  stops d best past = record {
    above = omega arith;
    reached = λ i fit. absurd (too_far d i past fit);
    attained = inl refl;
  }

  goes_on : (d best r : ℕ) → d * q.den ≤ q.num → Best (d * 2) (max best d) r → Best d best r
  goes_on d best r fit rest = record {
    above = let a = rest.above in omega arith;
    reached = elim [
      | zero ↦ λ low. let a = rest.above in omega arith
      | suc i ↦ rw (doubled d i) (λ low. rest.reached i low)
    ];
    attained = elim rest.attained [
      | inl same ↦ elim (Bool-cases (leb d best)) [
        | inl kept ↦ inl (let le : d ≤ best = leb→le d best kept in omega arith)
        | inr taken ↦
            let ge : best < d = ground arith in
            let is : r ≡ d = omega arith in
            inr (0, omega arith, subst (λ x. x * q.den ≤ q.num) (sym is) fit)
      ]
      | inr (i, is, low) ↦ inr (suc i, is ∙ sym (doubled d i), low)
    ];
  }

  doubles_lem :
      (fuel d best : ℕ)
      → 0 < d
      → d * q.den < u64
      → q.num < d * 2 ^ fuel
      → Best d best (doubles_from q fuel d best)
  unfolding doubles_from
  doubles_lem zero d best pos small enough =
      let wide : d * 1 ≤ d * q.den = mul-le-mul_left d some in
      let here : q.num < d * 1 = enough in stops d best (omega arith)
  doubles_lem (suc fuel) d best pos small enough = elim (Bool-cases (leb (d * q.den) q.num)) [
    | inl below ↦
        let fit : d * q.den ≤ q.num = leb→le (d * q.den) q.num below in
        let wide : d * 1 ≤ d * q.den = mul-le-mul_left d some in
        let twice : d * 2 * q.den ≡ 2 * (d * q.den) = grind arith in
        let reach : q.num < d * 2 * 2 ^ fuel = subst (λ x. q.num < x) (doubled d fuel) enough in
        rw (mul_w-eq u64 d q.den small, below, mul_w-eq u64 d 2 (omega arith))
          (goes_on d best (doubles_from q fuel (d * 2) (max best d)) fit
            (doubles_lem fuel (d * 2) (max best d) (omega arith) (omega arith) reach))
    | inr above ↦ rw (mul_w-eq u64 d q.den small, above) (stops d best (ground arith))
  ]

-- The number is three to the `b` times two to the `a`, and `q` reaches it.
pub record Fits (q : ExactRatio) (r : ℕ) : Type 0 where
  two : ℕ
  three : ℕ
  few : three ≤ 3
  product : r ≡ 3 ^ three * 2 ^ two
  fit : r * q.den ≤ q.num

pub record IsLargest (q : ExactRatio) (r : ℕ) : Type 0 where
  fits : Fits q r
  largest : (a b : ℕ) → b ≤ 3 → 3 ^ b * 2 ^ a * q.den ≤ q.num → 3 ^ b * 2 ^ a ≤ r

module _ (q : ExactRatio) (some : 0 < q.den) (whole : q.den ≤ q.num) (fits : q.num * 32 < u64) where
  after : (b best r : ℕ) → b ≤ 3 → Best q some fits (3 ^ b) best r → Fits q best → Fits q r
  after b best r few made before = elim made.attained [
    | inl same ↦ subst (λ x. Fits q x) (sym same) before
    | inr (a, is, fit) ↦ record { two = a; three = b; few = few; product = is; fit = fit }
  ]

  loop : (d best : ℕ) → 0 < d → d ≤ 27 → Best q some fits d best (doubles_from q 64 d best)
  loop d best pos low =
      let share : d * q.den ≤ 27 * q.den = mul-le-mul_right q.den low in
      let wide : d * 2 ^ 64 ≡ d * u64 = refl in
      doubles_lem q some fits 64 d best pos (omega arith) (omega arith)

  -- The best number after the outer loop's pass at each power of three.
  unfoldable passed : ℕ → ℕ
  passed zero = doubles_from q 64 1 1
  passed (suc b) = doubles_from q 64 (3 ^ suc b) (passed b)

  pass0 : Best q some fits 1 1 (passed 0)
  unfolding passed
  pass0 = loop 1 1 (omega arith) (omega arith)

  pass1 : Best q some fits 3 (passed 0) (passed 1)
  unfolding passed
  pass1 = loop 3 (passed 0) (omega arith) (omega arith)

  pass2 : Best q some fits 9 (passed 1) (passed 2)
  unfolding passed
  pass2 = loop 9 (passed 1) (omega arith) (omega arith)

  pass3 : Best q some fits 27 (passed 2) (passed 3)
  unfolding passed
  pass3 = loop 27 (passed 2) (omega arith) (omega arith)

  made : Fits q (passed 3)
  made = after 3 (passed 2) (passed 3) (omega arith) pass3 (
      after 2 (passed 1) (passed 2) (omega arith) pass2 (
        after 1 (passed 0) (passed 1) (omega arith) pass1 (
          after 0 1 (passed 0) (omega arith) pass0
            (record { two = 0; three = 0; few = omega arith; product = refl; fit = omega arith }))))

  passed-largest : (a b : ℕ) → b ≤ 3 → 3 ^ b * 2 ^ a * q.den ≤ q.num → 3 ^ b * 2 ^ a ≤ passed 3
  passed-largest a zero few fit =
      let here = pass0.reached a fit in
      let up1 = pass1.above in let up2 = pass2.above in let up3 = pass3.above in omega arith
  passed-largest a (suc zero) few fit =
      let here = pass1.reached a fit in
      let up2 = pass2.above in let up3 = pass3.above in omega arith
  passed-largest a (suc (suc zero)) few fit =
      let here = pass2.reached a fit in let up3 = pass3.above in omega arith
  passed-largest a (suc (suc (suc zero))) few fit = pass3.reached a fit
  passed-largest a (suc (suc (suc (suc b)))) few fit = absurd (let off : ⊥ = omega arith in off)

  -- For a quotient `q` that is not below one, whose denominator is positive and
  -- whose numerator is below 2 ^ 59, the design divisor is the largest number at
  -- or below `q` that is a power of two times a power of three up to 27: it is
  -- one of these, it is at or below `q`, and no other such number at or below
  -- `q` is larger; its denominator is one.
  pub design_divisor-IsLargest : IsLargest q (design_divisor q).num × ((design_divisor q).den ≡ 1)
  unfolding design_divisor triples_from passed
  design_divisor-IsLargest =
      let whole_test : ltb (mul_w u64 q.num 1) (mul_w u64 1 q.den) ≡ false =
        rw (mul_w-eq u64 q.num 1 (omega arith), mul_w-eq u64 1 q.den (omega arith))
          (ground arith) in
      rw (whole_test) (record { fits = made; largest = passed-largest }, refl)
