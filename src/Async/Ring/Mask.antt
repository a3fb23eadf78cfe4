-- ===== src/Async/Ring/Mask.antt =====
-- Masks and powers of two.
use native.Mathlib.Nat.{
  pow-suc, mod-lt, mod-add-div', add-mul-mod_self_right, mod-eq_of_lt, pow-le-pow_right, add-zero,
  add-suc, dvd_refl, dvd-mul_right_of_dvd,
}
use sample_rate_tap.Common.{
  ℕ, zero, suc, ◌+◌, ◌-◌, ◌*◌, ◌/◌, ◌%◌, ◌^◌, ◌≤◌, ◌<◌, ◌≡◌, ◌∣◌, refl, ap, ◌∙◌, arith, leb, leb→le,
  false, Bool-cases, dec_lt, inl, inr,
}
use sample_rate_tap.Async.Ring.{and_w, bit_ceil_from, bit_ceil}

pub pow_pos : (k : ℕ) → 0 < 2 ^ k
pow_pos zero = omega arith
pow_pos (suc k) = rw (pow-suc 2 k) (omega (arith, pow_pos k))

and_w-zero : (bits a : ℕ) → and_w bits a 0 ≡ 0
unfolding and_w
and_w-zero zero a = refl
and_w-zero (suc bits) a = omega (arith, and_w-zero bits (a / 2))

-- Doubling: the low bit apart.
mod-double : (a m : ℕ) → 0 < m → a % (m * 2) ≡ a % 2 + 2 * (a / 2 % m)
mod-double a m h =
    let q = a / 2 in
    let low = a % 2 + 2 * (q % m) in
    let double : q / m * (m * 2) ≡ 2 * (q / m * m) = grind arith in
    let split : a ≡ low + q / m * (m * 2) = omega (arith, mod-add-div' q m) in
    ap (λ t. t % (m * 2)) split
    ∙ add-mul-mod_self_right low (q / m) (m * 2)
    ∙ mod-eq_of_lt (omega (arith, mod-lt q h))

-- With a mask of ones, AND is the remainder.
pub and_w_mask : (bits k a : ℕ) → k ≤ bits → and_w bits a (2 ^ k - 1) ≡ a % 2 ^ k
unfolding and_w
and_w_mask zero zero a h = omega arith
and_w_mask zero (suc k) a h = absurd (omega arith)
and_w_mask (suc bits) zero a h = omega (arith, and_w-zero bits (a / 2))
and_w_mask (suc bits) (suc k) a h =
    let half : (2 ^ k * 2 - 1) / 2 ≡ 2 ^ k - 1 = omega (arith, pow_pos k) in
    let odd : (2 ^ k * 2 - 1) % 2 ≡ 1 = omega (arith, pow_pos k) in
    rw (pow-suc 2 k, mod-double a (2 ^ k) (pow_pos k), half, odd)
      (omega (arith, and_w_mask bits k (a / 2) (omega arith)))

pub pow-divides : (k j : ℕ) → 2 ^ k ∣ 2 ^ (k + j)
pow-divides k zero = rw add-zero (dvd_refl (2 ^ k))
pow-divides k (suc j) = rw (add-suc, pow-suc) (dvd-mul_right_of_dvd (2 ^ k) (pow-divides k j) 2)

pub pow_mono : (k m : ℕ) → k ≤ m → 2 ^ k ≤ 2 ^ m
pow_mono k m h = pow-le-pow_right (omega arith) h

-- The power found is the first: not below `n`, and twice less than that is.
pub bit_ceil_from_lem :
    (more k n : ℕ)
    → n ≤ 2 ^ (k + more)
    → (j : ℕ) × (k ≤ j)
      × (j ≤ k + more)
      × (bit_ceil_from more k n ≡ 2 ^ j)
      × (n ≤ 2 ^ j)
      × ((i : ℕ) → k ≤ i → i < j → 2 ^ i < n)
unfolding bit_ceil_from
bit_ceil_from_lem zero k n h =
    let e : k + 0 ≡ k = omega arith in
    (k, omega arith, omega arith, refl, (rw e at h), λ i a b. absurd (omega arith))
bit_ceil_from_lem (suc more) k n h = elim (Bool-cases (leb n (2 ^ k))) [
  | inl le ↦
      (k, omega arith, omega arith, rw le refl, leb→le n (2 ^ k) le, λ i a b. absurd (omega arith))
  | inr gt ↦
      let e : k + suc more ≡ suc k + more = omega arith in
      let (j, low, high, eq, fits, first) = bit_ceil_from_lem more (suc k) n (rw e at h) in
      (
        j,
        omega arith,
        omega arith,
        rw gt eq,
        fits,
        λ i a b. elim (dec_lt k i) [
          | yes lt ↦ first i lt b
          | no ge ↦ (let same : i ≡ k = omega arith in rw same (above gt))
        ],
      )
]
  where
    above : leb n (2 ^ k) ≡ false → 2 ^ k < n
    above gt = ground arith

-- The power that the constructor finds.
pub bit_ceil_lem :
    (bits m : ℕ)
    → 2 ≤ bits
    → 2 ≤ m
    → m ≤ 2 ^ (bits - 1)
    → (k : ℕ) × (k < bits) × (bit_ceil bits m ≡ 2 ^ k) × (m ≤ 2 ^ k) × (2 ^ k < 2 * m)
bit_ceil_lem bits m two some small =
    let half = pow_mono (bits - 1) bits (omega arith) in
    let start : 0 + bits ≡ bits = omega arith in
    let (k, low, high, eq, fits, first) =
      bit_ceil_from_lem bits 0 m (rw start (omega (arith, half))) in
    (
      k,
      elim (dec_lt k bits) [
        | yes lt ↦ lt
        | no ge ↦ absurd (omega (arith, first (bits - 1) (omega arith) (omega arith)))
      ],
      eq,
      fits,
      not_twice k fits first,
    )
  where
    not_twice : (k : ℕ) → m ≤ 2 ^ k → ((i : ℕ) → 0 ≤ i → i < k → 2 ^ i < m) → 2 ^ k < 2 * m
    not_twice zero fits first = omega arith
    not_twice (suc k) fits first =
        rw (pow-suc 2 k) (omega (arith, first k (omega arith) (omega arith)))
