-- ===== src/Async/Ring/Inv.antt =====
-- What a ring holds: a queue, with the indices as counts that never wrap.
use native.Mathlib.Nat.{mod-lt, mod-add-mod, mod-mod_of_dvd, two-pow-succ}
use sample_rate_tap.Common.{
  ℕ, suc, ◌+◌, ◌-◌, ◌%◌, ◌^◌, ◌≤◌, ◌<◌, ◌≡◌, inl, inr, ap, ◌∙◌, arith, List, length, get_elem?,
  sub_w, mod_wrap,
}
use sample_rate_tap.Async.Ring.{SpscRing, and_w}
use sample_rate_tap.Async.Ring.Mask.{and_w_mask, pow-divides, pow_mono}

-- A difference of two wrapped counts is exact while it is below the modulus.
pub sub_w-exact : (w a b : ℕ) → b ≤ a → a - b < w → sub_w w (a % w) (b % w) ≡ a - b
sub_w-exact w a b le lt =
    let x = b % w in
    let c = a - b in
    let small : x < w = mod-lt b (omega arith) in
    let sum : (x + c) % w ≡ a % w =
      mod-add-mod b w c ∙ ap (λ t. t % w) (let e : b + (a - b) ≡ a = omega arith in e) in
    rw (← sum) (elim (mod_wrap w (x + c) (omega arith)) [
      | inl (lo, e) ↦ rw e (elim (mod_wrap w (x + c + w - x) (omega arith)) [
        | inl (l, f) ↦ absurd (omega arith)
        | inr (l, f) ↦ f ∙ omega arith
      ])
      | inr (hi, e) ↦ rw e (elim (mod_wrap w (x + c - w + w - x) (omega arith)) [
        | inl (l, f) ↦ f ∙ omega arith
        | inr (l, f) ↦ absurd (omega arith)
      ])
    ])

-- The ring's elements, from the tail on, are those of `q`. The indices are counts `written` and
-- `taken` modulo 2 ^ bits, and each side's view of the other's count may be old.
pub record Represents (bits k : ℕ) {A : Type 0} (q : List A) (r : SpscRing A) : Type 0 where
  pub fits : k < bits
  pub sized : length r.buf ≡ 2 ^ k
  pub ones : r.mask ≡ 2 ^ k - 1
  pub written : ℕ
  pub taken : ℕ
  pub tail_seen : ℕ
  pub head_seen : ℕ
  pub head : r.head ≡ written % 2 ^ bits
  pub tail : r.tail ≡ taken % 2 ^ bits
  pub tail_cache : r.tail_cache ≡ tail_seen % 2 ^ bits
  pub head_cache : r.head_cache ≡ head_seen % 2 ^ bits
  pub old_tail : tail_seen ≤ taken
  pub old_head : head_seen ≤ written
  pub not_below : taken ≤ head_seen
  pub not_above : written ≤ tail_seen + 2 ^ k
  pub count : taken + length q ≡ written
  pub element : (i : ℕ) → i < length q → get_elem? r.buf ((taken + i) % 2 ^ k) ≡ get_elem? q i

-- The slot of a wrapped count.
pub slot_lem :
    (bits k n mask : ℕ) → k < bits → mask ≡ 2 ^ k - 1 → and_w bits (n % 2 ^ bits) mask ≡ n % 2 ^ k
slot_lem bits k n mask h e =
    let more : k + (bits - k) ≡ bits = omega arith in
    rw (e, and_w_mask bits k (n % 2 ^ bits) (omega arith))
      (mod-mod_of_dvd (2 ^ k) n (rw more at (pow-divides k (bits - k))))

pub room_below : (bits k : ℕ) → k < bits → 2 ^ k + 2 ^ k ≤ 2 ^ bits
room_below bits k h = omega (arith, two-pow-succ k, pow_mono (suc k) bits (omega arith))
