-- ===== src/Rational/Chain/Tests.antt =====
-- The design divisors of some quotients.
use sample_rate_tap.Common.{◌≡◌, refl, arith}
use sample_rate_tap.Rational.Chain.{ExactRatio, doubles_from, triples_from, design_divisor}
use sample_rate_tap.Rational.Chain.Divisor.{IsLargest, design_divisor-IsLargest}

abbrev cd_over_two : ExactRatio
cd_over_two = record { num = 441; den = 2 }

-- 220.5 has the design divisor 216, eight times 27.
cd_divisor : (design_divisor cd_over_two).num ≡ 216
unfolding design_divisor triples_from doubles_from
cd_divisor = refl

design_divisor-IsLargest_example :
    IsLargest cd_over_two (design_divisor cd_over_two).num × ((design_divisor cd_over_two).den ≡ 1)
design_divisor-IsLargest_example =
    design_divisor-IsLargest cd_over_two (omega arith) (omega arith) (omega arith)

-- The powers of three stop at 27: 81 is a power of three and its divisor is 72.
divisor_81 : (design_divisor (record { num = 81; den = 1 })).num ≡ 72
unfolding design_divisor triples_from doubles_from
divisor_81 = refl

-- A quotient below one is its own divisor.
divisor_half : design_divisor (record { num = 1; den = 2 }) ≡ record { num = 1; den = 2 }
unfolding design_divisor
divisor_half = refl
