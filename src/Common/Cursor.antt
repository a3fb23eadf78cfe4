-- ===== src/Common/Cursor.antt =====
-- The cursor of a fixed-ratio schedule: a position in the superblock and the inputs still owed.
use Prim.Native.Nat.{ℕ, zero, suc, ◌+◌, ◌-◌, ◌*◌, ◌/◌, ◌%◌, ◌≤◌, ◌<◌}
use mathlib.Core.Path.{◌≡◌, ap, sym, ◌∙◌}
use mathlib.Core.Logic.{◌≢◌, ◌↔◌, ◌⊎◌, inl, inr}
use native.Mathlib.Omega.{arith}
use native.Mathlib.Decide.{dec_lt, ℕ_discrete}
use native.Mathlib.Nat.{
  mod-lt, mod-eq_of_lt, mod-eq-sub-mod, mod-add-mod, mod_self, zero-add, add-zero, zero-mul,
  zero-div, add-mul-div_right, mod-add-div', add-mul-mod_self_right,
}
use sample_rate_tap.Common.Tests.{◌==◌, if◌then◌else◌}
use sample_rate_tap.Common.Floor.{
  floor_mono, floor-add_superblock, advance_of, needed_from, outputs_from, outputs_bound,
  outputs_from-short, outputs_from-enough, needed-le_iff,
}

pub mod_wrap : (m x : ℕ) → x < m + m → (x < m) × (x % m ≡ x) ⊎ (m ≤ x) × (x % m ≡ x - m)
mod_wrap m x h = elim (dec_lt x m) [
  | yes lt ↦ inl (lt, mod-eq_of_lt lt)
  | no ge ↦ inr (omega arith, mod-eq-sub-mod (omega arith) ∙ mod-eq_of_lt (omega arith))
]

-- How far a count is from the next multiple of `d`.
pub mod-complement : (d p w : ℕ) → p < d → w < d → (p + w) % d ≡ 0 → (d - p) % d ≡ w
mod-complement d p w hp hw e = elim (mod_wrap d (p + w) (omega arith)) [
  | inl (lt, f) ↦ let none : d - p ≡ d = omega arith in rw (none, mod_self) (omega arith)
  | inr (ge, f) ↦ let whole : d - p ≡ w = omega arith in rw whole (mod-eq_of_lt hw)
]

-- The position after one more output.
abbrev pub next_pos : ℕ → ℕ → ℕ
next_pos l pos = if pos + 1 == l then 0 else pos + 1

pub next_pos-lt : (l pos : ℕ) → pos < l → next_pos l pos < l
next_pos-lt l pos h = ground arith

pub next_pos-last : (l pos : ℕ) → pos + 1 ≡ l → next_pos l pos ≡ 0
next_pos-last l pos e = ground arith

pub next_pos-inner : (l pos : ℕ) → pos + 1 ≢ l → next_pos l pos ≡ pos + 1
next_pos-inner l pos ne = ground arith

pub next_pos-mod : (l n : ℕ) → 0 < l → next_pos l (n % l) ≡ (n + 1) % l
next_pos-mod l n h = rw (← mod-add-mod) (elim (ℕ_discrete (n % l + 1) l) [
  | yes e ↦ rw (next_pos-last l (n % l) e, e, mod_self)
  | no ne ↦ rw (next_pos-inner l (n % l) ne) (sym (mod-eq_of_lt (omega (arith, mod-lt n h))))
])

-- A count is fixed by the numbers that it reaches.
pub eq-suc_of_iff : (x y : ℕ) → ((k : ℕ) → (suc k ≤ x) ↔ (k ≤ y)) → x ≡ suc y
eq-suc_of_iff zero y h = absurd (omega (arith, (h 0).1 (omega arith)))
eq-suc_of_iff (suc x) y h = omega (arith, (h x).0 (omega arith), (h y).1 (omega arith))

module _ (l m : ℕ) (hl : 0 < l) (hm : 0 < m) where
  abbrev scaled : ℕ → ℕ
  scaled x = x * m / l

  scaled-zero : scaled 0 ≡ 0
  scaled-zero = rw zero-mul (zero-div l)

  scaled_wrap : (x k : ℕ) → x ≡ k + l → scaled x ≡ scaled k + m
  scaled_wrap x k e = rw e (floor-add_superblock l m hl hm k)

  -- One output hands over to the next: what it waits for, then what the rest waits for.
  pub needed-suc :
      (pos pending k : ℕ)
      → pos < l
      → needed_from l m pos pending (suc k)
        ≡ pending + needed_from l m (next_pos l pos) (advance_of l m pos) k
  needed-suc pos pending zero h = rw add-zero (omega arith)
  needed-suc pos pending (suc k) h = elim (ℕ_discrete (pos + 1) l) [
    | yes e ↦
        rw (next_pos-last l pos e, zero-add, scaled-zero)
          (omega (
            arith,
            scaled_wrap (pos + suc k) k (omega arith),
            scaled_wrap (pos + 1) 0 (omega arith),
            scaled-zero,
            floor_mono l m hl hm pos (pos + 1) (omega arith),
          ))
    | no ne ↦ rw next_pos-inner (
        omega (
          arith,
          ap scaled (let e : pos + suc k ≡ pos + 1 + k = omega arith in e),
          floor_mono l m hl hm pos (pos + 1) (omega arith),
          floor_mono l m hl hm (pos + 1) (pos + 1 + k) (omega arith),
        ))
  ]

  handed_over :
      (pos pending a k : ℕ)
      → pos < l
      → pending ≤ a
      → (suc k ≤ outputs_from l m pos pending a)
        ↔ (k ≤ outputs_from l m (next_pos l pos) (advance_of l m pos) (a - pending))
  handed_over pos pending a k h enough = (
    λ le. (needed-le_iff l m hl hm _ _ _ k).0 (
        omega (
          arith,
          (needed-le_iff l m hl hm pos pending a (suc k)).1 le,
          needed-suc pos pending k h,
        )),
    λ le. (needed-le_iff l m hl hm pos pending a (suc k)).0 (
        rw (needed-suc pos pending k h) (
          omega (
            arith,
            (needed-le_iff l m hl hm (next_pos l pos) (advance_of l m pos) (a - pending) k).1 le,
          ))),
  )

  -- So each output that is ready takes one from the count.
  pub outputs-suc :
      (pos pending a : ℕ)
      → pos < l
      → pending ≤ a
      → outputs_from l m pos pending a
        ≡ suc (outputs_from l m (next_pos l pos) (advance_of l m pos) (a - pending))
  outputs-suc pos pending a h enough = eq-suc_of_iff _ _ (λ k. handed_over pos pending a k h enough)

  -- Inputs that release nothing are only subtracted from what is owed.
  pub outputs-add :
      (pos pending a b : ℕ)
      → a < pending
      → outputs_from l m pos (pending - a) b ≡ outputs_from l m pos pending (a + b)
  outputs-add pos pending a b h = elim (dec_lt b (pending - a)) [
    | yes short ↦
        rw (outputs_from-short l m hl hm pos (pending - a) b short)
          (sym (outputs_from-short l m hl hm pos pending (a + b) (omega arith)))
    | no enough ↦
        rw
          (
            outputs_from-enough l m hl hm pos (pending - a) b (omega arith),
            outputs_from-enough l m hl hm pos pending (a + b) (omega arith),
          )
          (ap (λ t. outputs_bound l m (pos * m / l + t) - pos + 1) (omega arith))
  ]

  pub scaled_add : (x q : ℕ) → (x + q * l) * m / l ≡ x * m / l + q * m
  scaled_add x q = rw (← add-mul-div_right (x * m) (q * m) hl) (ap (λ t. t / l) (grind arith))

  -- The gaps repeat with the superblock.
  pub advance_of-mod : (n : ℕ) → advance_of l m (n % l) ≡ advance_of l m n
  advance_of-mod n =
      let split : n ≡ n % l + n / l * l = sym (mod-add-div' n l) in
      omega (
        arith,
        ap scaled split,
        ap (λ t. scaled (t + 1)) split,
        scaled_add (n % l) (n / l),
        ap scaled (let e : n % l + n / l * l + 1 ≡ n % l + 1 + n / l * l = omega arith in e),
        scaled_add (n % l + 1) (n / l),
      )

  -- The phase of an output is that of its position.
  pub phase-mod : (n : ℕ) → n % l * m % l ≡ n * m % l
  phase-mod n =
      sym (add-mul-mod_self_right (n % l * m) (n / l * m) l)
      ∙ ap (λ t. t % l) (grind arith ∙ ap (λ t. t * m) (mod-add-div' n l))
