-- ===== src/Async/Ring/Threads/Slots.antt =====
-- The slots that the two copies reach.
use native.Mathlib.Nat.{mod-lt, mod-add-mod}
use sample_rate_tap.Common.{
  ℕ, ◌+◌, ◌-◌, ◌%◌, ◌≤◌, ◌<◌, ◌≡◌, ◌≢◌, inl, inr, refl, ap, ◌∙◌, arith, min, ltb, if◌then◌else◌,
  mod_wrap, zero, suc, List, [], ◌∷◌, ◌++◌, length, take, get_elem?, some,
}

-- The two segments run once around the buffer.
pub slot_eq :
    (cap count n i : ℕ)
    → n ≤ cap
    → i < n
    → (if ltb i (min n (cap - count % cap)) then count % cap + i else i - min n (cap - count % cap))
      ≡ (count + i) % cap
slot_eq cap count n i room lt =
    let low : count % cap < cap = mod-lt count (omega arith) in
    let turn : (if ltb i (min n (cap - count % cap))
          then count % cap + i
          else i - min n (cap - count % cap))
        ≡ (count % cap + i) % cap =
      elim (mod_wrap cap (count % cap + i) (omega arith)) [
        | inl (lo, e) ↦ ground arith
        | inr (hi, e) ↦ ground arith
      ] in
    turn ∙ mod-add-mod count cap i

-- Two counts less than a round apart have two slots.
pub slot_ne : (cap a b : ℕ) → a < b → b < a + cap → b % cap ≢ a % cap
slot_ne cap a b lt near same =
    let low : a % cap < cap = mod-lt a (omega arith) in
    let e : (a % cap + (b - a)) % cap ≡ b % cap =
      mod-add-mod a cap (b - a) ∙ ap (λ t. t % cap) (let s : a + (b - a) ≡ b = omega arith in s) in
    elim (mod_wrap cap (a % cap + (b - a)) (omega arith)) [
      | inl (lo, f) ↦ omega (arith)
      | inr (hi, f) ↦ omega (arith)
    ]

-- A longer front has the next element.
pub take_next :
    {A : Type 0} (i : ℕ) (q : List A)
    → i < length q
    → (x : A) × (get_elem? q i ≡ some x) × (take i q ++ x ∷ [] ≡ take (suc i) q)
take_next i [] lt = absurd (omega arith)
take_next zero (x ∷ q) lt = (x, refl, refl)
take_next (suc i) (y ∷ q) lt =
    let (x, at, e) = take_next i q (omega arith) in (x, at, ap (λ l. y ∷ l) e)
