-- ===== src/Common/Floor.antt =====
-- Rounded-down quotients: how far a schedule that consumes `m` inputs in `l` outputs has come.
use Prim.Native.Nat.{ℕ, zero, suc, ◌+◌, ◌-◌, ◌*◌, ◌/◌, ◌≤◌, ◌<◌}
use mathlib.Core.Path.{◌≡◌, ap}
use mathlib.Core.Logic.{◌↔◌}
use native.Mathlib.Omega.{arith}
use native.Mathlib.Decide.{dec_lt}
use sample_rate_tap.Common.Tests.{ltb, lt→ltb, ge→ltb, if◌then◌else◌}
use native.Mathlib.Nat.{div-lt_iff_lt-mul, le-div_iff_mul-le, add-mul-div_right, mul_comm}

module _ (l m : ℕ) (hl : 0 < l) (hm : 0 < m) where
  -- The largest `x` whose scaled floor stays at or below `b`.
  pub floor-le_iff : (x b : ℕ) → (x * m / l ≤ b) ↔ (x ≤ (l * (b + 1) - 1) / m)
  floor-le_iff x b = (forth, back)
    where
      bound : l * (b + 1) ≡ (b + 1) * l
      bound = mul_comm l (b + 1)

      positive : 0 < l * (b + 1)
      positive = grind arith

      forth : x * m / l ≤ b → x ≤ (l * (b + 1) - 1) / m
      forth h =
          (le-div_iff_mul-le hm).1
            (omega (arith, (div-lt_iff_lt-mul {x = x * m} {y = b + 1} hl).0 (omega arith), bound))

      back : x ≤ (l * (b + 1) - 1) / m → x * m / l ≤ b
      back h =
          let below : x * m ≤ l * (b + 1) - 1 = (le-div_iff_mul-le hm).0 h in
          let lt : x * m / l < b + 1 =
            (div-lt_iff_lt-mul {x = x * m} {y = b + 1} hl).1
              (omega (arith, below, bound, positive)) in
          omega arith

  pub floor_mono : (x y : ℕ) → x ≤ y → x * m / l ≤ y * m / l
  floor_mono x y h =
      (floor-le_iff x (y * m / l)).1
        (omega (arith, h, (floor-le_iff y (y * m / l)).0 (omega arith)))

  -- A whole superblock adds `m`.
  pub floor-add_superblock : (x : ℕ) → (x + l) * m / l ≡ x * m / l + m
  floor-add_superblock x = rw (← add-mul-div_right (x * m) m hl) (ap (λ t. t / l) (grind arith))

-- What one output leaves to consume before the next one.
abbrev pub advance_of : ℕ → ℕ → ℕ → ℕ
advance_of l m n = (n + 1) * m / l - n * m / l

-- Inputs that the next `k` outputs wait for, at superblock position `pos` with `pending` owed.
abbrev pub needed_from : ℕ → ℕ → ℕ → ℕ → ℕ → ℕ
needed_from l m pos pending zero = 0
needed_from l m pos pending (suc k) = pending + ((pos + k) * m / l - pos * m / l)

-- Outputs that the next `a` inputs release.
abbrev pub outputs_from : ℕ → ℕ → ℕ → ℕ → ℕ → ℕ
outputs_from l m pos pending a =
    if ltb a pending then 0 else (l * (pos * m / l + (a - pending) + 1) - 1) / m - pos + 1

abbrev pub outputs_bound : ℕ → ℕ → ℕ → ℕ
outputs_bound l m b = (l * (b + 1) - 1) / m

module _ (l m : ℕ) (hl : 0 < l) (hm : 0 < m) where
  pub outputs_from-short : (pos pending a : ℕ) → a < pending → outputs_from l m pos pending a ≡ 0
  outputs_from-short pos pending a h = rw (lt→ltb a pending h)

  pub outputs_from-enough :
      (pos pending a : ℕ)
      → pending ≤ a
      → outputs_from l m pos pending a ≡ outputs_bound l m (pos * m / l + (a - pending)) - pos + 1
  outputs_from-enough pos pending a h = rw (ge→ltb a pending h)

  module _ (pos pending a k : ℕ) where
    abbrev reach : ℕ
    reach = pos * m / l + (a - pending)

    needed-le_forth :
        pending ≤ a
        → pending + ((pos + k) * m / l - pos * m / l) ≤ a
        → suc k ≤ outputs_bound l m reach - pos + 1
    needed-le_forth enough h = omega (
      arith,
      (floor-le_iff l m hl hm (pos + k) reach).0 (omega arith),
      floor_mono l m hl hm pos (pos + k) (omega arith),
    )

    needed-le_back :
        pending ≤ a
        → suc k ≤ outputs_bound l m reach - pos + 1
        → pending + ((pos + k) * m / l - pos * m / l) ≤ a
    needed-le_back enough h =
        let fits : pos ≤ outputs_bound l m reach =
          (floor-le_iff l m hl hm pos reach).0 (omega arith) in
        let far : (pos + k) * m / l ≤ reach =
          (floor-le_iff l m hl hm (pos + k) reach).1 (omega arith) in
        omega arith

  -- The two counts are adjoint.
  pub needed-le_iff :
      (pos pending a k : ℕ)
      → (needed_from l m pos pending k ≤ a) ↔ (k ≤ outputs_from l m pos pending a)
  needed-le_iff pos pending a zero = (λ h. omega arith, λ h. omega arith)
  needed-le_iff pos pending a (suc k) = elim (dec_lt a pending) [
    | yes short ↦ rw (outputs_from-short pos pending a short) (λ h. omega arith, λ h. omega arith)
    | no enough ↦ rw (outputs_from-enough pos pending a (omega arith)) (
      needed-le_forth pos pending a k (omega arith),
      needed-le_back pos pending a k (omega arith),
    )
  ]
