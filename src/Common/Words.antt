-- ===== src/Common/Words.antt =====
-- Unsigned machine arithmetic: a word of modulus `w`, with the wrap written out.
use Prim.Native.Nat.{ℕ, ◌+◌, ◌-◌, ◌*◌, ◌%◌, ◌^◌, ◌≤◌, ◌<◌}
use mathlib.Core.Path.{◌≡◌}
use native.Mathlib.Omega.{arith}
use native.Mathlib.Nat.{mod-eq_of_lt}

-- `a + b`, `a - b` and `a * b` on an unsigned type of modulus `w`.
abbrev pub add_w : ℕ → ℕ → ℕ → ℕ
add_w w a b = (a + b) % w

abbrev pub sub_w : ℕ → ℕ → ℕ → ℕ
sub_w w a b = (a + w - b) % w

abbrev pub mul_w : ℕ → ℕ → ℕ → ℕ
mul_w w a b = (a * b) % w

abbrev pub u64 : ℕ
u64 = 2 ^ 64

abbrev pub u32 : ℕ
u32 = 2 ^ 32

pub sub_w-eq : (w a b : ℕ) → b ≤ a → a < w → sub_w w a b ≡ a - b
sub_w-eq w a b le lt = grind arith

pub add_w-eq : (w a b : ℕ) → a + b < w → add_w w a b ≡ a + b
add_w-eq w a b lt = mod-eq_of_lt lt

pub mul_w-eq : (w a b : ℕ) → a * b < w → mul_w w a b ≡ a * b
mul_w-eq w a b lt = mod-eq_of_lt lt
