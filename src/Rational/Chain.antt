-- ===== src/Rational/Chain.antt =====
-- rational/include/tap/sr/rational/chain.h, the design divisor of a stage, in uint64_t.
pub mod Divisor
pub mod Tests
use sample_rate_tap.Common.{ℕ, zero, suc, Bool, max, ltb, leb, if◌then◌else◌, mul_w, u64}

-- `tap::dsp::exact_ratio`, as a numerator and a denominator.
pub record ExactRatio : Type 0 where
  pub num : ℕ
  pub den : ℕ

abbrev pub ratio_less : ExactRatio → ExactRatio → Bool
ratio_less a b = ltb (mul_w u64 a.num b.den) (mul_w u64 b.num a.den)

module _ (q : ExactRatio) where
  -- The inner loop, from `d` on; the first argument is fuel.
  unfoldable pub doubles_from : ℕ → ℕ → ℕ → ℕ
  doubles_from zero d best = best
  doubles_from (suc fuel) d best =
      let rest = doubles_from fuel (mul_w u64 d 2) (max best d) in
      if leb (mul_w u64 d q.den) q.num then rest else best

  -- The outer loop, from `three` on.
  unfoldable pub triples_from : ℕ → ℕ → ℕ → ℕ
  triples_from zero three best = best
  triples_from (suc fuel) three best =
      let rest = triples_from fuel (mul_w u64 three 3) (doubles_from 64 three best) in
      if leb three 27 then rest else best

  unfoldable pub design_divisor : ExactRatio
  design_divisor =
      if ratio_less q (record { num = 1; den = 1 })
      then q
      else record { num = triples_from 5 1 1; den = 1 }
