-- ===== src/Common/Chunks.antt =====
-- Outputs counted from the start of a stream, and over input that comes in two parts.
use Prim.Native.Nat.{ℕ, zero, suc, ◌+◌, ◌-◌, ◌*◌, ◌/◌, ◌%◌, ◌≤◌, ◌<◌}
use mathlib.Core.Path.{◌≡◌, ap, sym}
use mathlib.Core.Logic.{◌↔◌}
use native.Mathlib.Omega.{arith}
use native.Mathlib.Decide.{dec_lt}
use native.Mathlib.Nat.{mod-add-div'}
use sample_rate_tap.Common.Floor.{floor_mono, outputs_from, needed-le_iff}
use sample_rate_tap.Common.Cursor.{scaled_add}

pub eq_of_reached : (x y : ℕ) → ((k : ℕ) → (suc k ≤ x) ↔ (suc k ≤ y)) → x ≡ y
eq_of_reached zero zero h = omega arith
eq_of_reached zero (suc y) h = absurd (omega (arith, (h y).1 (omega arith)))
eq_of_reached (suc x) zero h = absurd (omega (arith, (h x).0 (omega arith)))
eq_of_reached (suc x) (suc y) h = omega (arith, (h x).0 (omega arith), (h y).1 (omega arith))

module _ (l m : ℕ) (hl : 0 < l) (hm : 0 < m) where
  abbrev scaled : ℕ → ℕ
  scaled x = x * m / l

  -- How far `k` more outputs reach does not depend on whole superblocks.
  scaled-from : (n k : ℕ) → scaled (n + k) + scaled (n % l) ≡ scaled (n % l + k) + scaled n
  scaled-from n k =
      let split : n ≡ n % l + n / l * l = sym (mod-add-div' n l) in
      omega (
        arith,
        ap scaled split,
        scaled_add l m hl hm (n % l) (n / l),
        ap (λ t. scaled (t + k)) split,
        ap scaled (let e : n % l + n / l * l + k ≡ n % l + k + n / l * l = omega arith in e),
        scaled_add l m hl hm (n % l + k) (n / l),
      )

  -- After `n` outputs and `p` inputs, `a` inputs release output `n + k` exactly if it waits for no
  -- more than `p + a`.
  pub outputs_absolute :
      (n pending p a k : ℕ)
      → pending + p ≡ scaled n + 1
      → (suc k ≤ outputs_from l m (n % l) pending a) ↔ (scaled (n + k) + 1 ≤ p + a)
  outputs_absolute n pending p a k owed = (
    λ h. omega (
      arith,
      (needed-le_iff l m hl hm (n % l) pending a (suc k)).1 h,
      scaled-from n k,
      floor_mono l m hl hm n (n + k) (omega arith),
    ),
    λ h.
        (needed-le_iff l m hl hm (n % l) pending a (suc k)).0
          (omega (arith, scaled-from n k, floor_mono l m hl hm n (n + k) (omega arith))),
  )

  -- Input in two parts releases as many outputs as in one.
  pub outputs_chunks :
      (n p pending pending' a b : ℕ)
      → pending + p ≡ scaled n + 1
      → pending' + (p + a) ≡ scaled (n + outputs_from l m (n % l) pending a) + 1
      → outputs_from l m (n % l) pending (a + b)
        ≡ outputs_from l m (n % l) pending a
          + outputs_from l m ((n + outputs_from l m (n % l) pending a) % l) pending' b
  outputs_chunks n p pending pending' a b owed owed' = eq_of_reached _ _ go
    where
      first : ℕ
      first = outputs_from l m (n % l) pending a

      go :
          (k : ℕ)
          → (suc k ≤ outputs_from l m (n % l) pending (a + b))
            ↔ (suc k ≤ first + outputs_from l m ((n + first) % l) pending' b)
      go k = elim (dec_lt k first) [
        | yes in_first ↦ (
          λ _. omega arith,
          λ _.
              (outputs_absolute n pending p (a + b) k owed).1
                (omega (arith, (outputs_absolute n pending p a k owed).0 in_first)),
        )
        | no later ↦
            let same : scaled (n + first + (k - first)) ≡ scaled (n + k) =
              ap scaled (omega arith) in
            let after = outputs_absolute (n + first) pending' (p + a) b (k - first) owed' in
            let whole = outputs_absolute n pending p (a + b) k owed in
            (
              λ h. omega (arith, after.1 (omega (arith, same, whole.0 h))),
              λ h. whole.1 (omega (arith, same, after.0 (omega arith))),
            )
      ]
