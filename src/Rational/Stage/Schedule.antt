-- ===== src/Rational/Stage/Schedule.antt =====
-- The schedule table of a ratio, without its narrowing casts.
use native.Mathlib.Nat.{
  mod-lt, mod-add-div', add-mul-div_right, mod-eq_of_lt, div-mul-le_self, le-div_iff_mul-le,
  div-le_of_le-mul,
}
use sample_rate_tap.Common.{
  ℕ, zero, suc, ◌+◌, ◌-◌, ◌*◌, ◌/◌, ◌%◌, ◌^◌, ◌≤◌, ◌<◌, ◌≡◌, inl, inr, ap, ◌∙◌, arith, leb, leb→le,
  Bool-cases, get_or-map_range, advance_of,
}
use sample_rate_tap.Rational.Stage.{k_schedule, schedule_entry, advance_modulus}

-- What a ratio's numbers must be for its schedule: the phases fit 16 bits.
pub record Fits (up down : ℕ) : Type 0 where
  pub some_up : 0 < up
  pub some_down : 0 < down
  pub few_phases : up ≤ 2 ^ 16
  pub word : down < 2 ^ 32

module _ (up down : ℕ) (h : Fits up down) where
  -- `ceil(M / L)` steps of `L` cover `M`.
  ceil_covers : down ≤ (down + up - 1) / up * up
  ceil_covers =
      omega (arith, h.some_up, mod-add-div' (down + up - 1) up, mod-lt (down + up - 1) h.some_up)

  pub ceil-le : (down + up - 1) / up ≤ down
  ceil-le = div-le_of_le-mul up (product up down h.some_up h.some_down)
    where
      product : (a b : ℕ) → 0 < a → 0 < b → b + a - 1 ≤ a * b
      product zero b pos some = absurd (omega arith)
      product (suc a) zero pos some = absurd (omega arith)
      product (suc a) (suc b) pos some = grind arith

  pub advance-le : (n : ℕ) → advance_of up down n ≤ (down + up - 1) / up
  advance-le n =
      let x = n * down in
      let c = (down + up - 1) / up in
      let step : (n + 1) * down ≡ x + down = grind arith in
      omega (
        arith,
        ap (λ (y : ℕ). y / up) step,
        (le-div_iff_mul-le {x = (x + down) / up} {y = x + c * up} h.some_up).1
            (omega (arith, div-mul-le_self (x + down) up, ceil_covers)),
        add-mul-div_right x c h.some_up,
      )

  -- No cast drops a bit.
  pub advance-exact :
      (n : ℕ) → advance_of up down n % advance_modulus up down ≡ advance_of up down n
  advance-exact n = elim (Bool-cases (leb ((down + up - 1) / up) 255)) [
    | inl narrow ↦
        rw narrow
          (mod-eq_of_lt (omega (arith, advance-le n, leb→le ((down + up - 1) / up) 255 narrow)))
    | inr wide ↦ rw wide (mod-eq_of_lt (omega (arith, advance-le n, ceil-le, h.word)))
  ]

  -- At a ratio of at most 2 ^ 16 phases whose M fits 32 bits, the casts to `uint16_t` and to the advance
  -- type of `make_schedule` drop nothing: for pos < L the entry of `k_schedule` is
  -- (pos M mod L, floor((pos + 1) M / L) - floor(pos M / L)).
  pub k_schedule_lem :
      (pos : ℕ)
      → pos < up
      → k_schedule up down pos
        ≡ record { phase = pos * down % up; advance = advance_of up down pos }
  unfolding k_schedule
  k_schedule_lem pos lt =
      get_or-map_range (schedule_entry up down) 0 up pos _ lt
      ∙ ap (schedule_entry up down) (omega arith)
      ∙ (λ i. record { phase = phase_fits i; advance = advance-exact pos i })
    where
      phase_fits : pos * down % up % 2 ^ 16 ≡ pos * down % up
      phase_fits = mod-eq_of_lt (omega (arith, mod-lt (pos * down) h.some_up, h.few_phases))
