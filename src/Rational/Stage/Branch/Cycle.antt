-- ===== src/Rational/Stage/Branch/Cycle.antt =====
-- The decimator's counts, and its laws.
use native.Mathlib.Nat.{mod-lt, mod-eq_of_lt, mod-add-mod, mod_self, div-one, mul-mod_left}
use sample_rate_tap.Common.{
  ℕ, suc, ◌+◌, ◌-◌, ◌*◌, ◌/◌, ◌%◌, ◌≤◌, ◌<◌, ◌≡◌, refl, sym, ap, ◌∙◌, arith, List, [], ◌∷◌, ◌++◌,
  length, take-append_le, ℕ_discrete, ◌==◌, Bool, mod-complement,
}
use sample_rate_tap.Machine.Laws.{Laws}
use sample_rate_tap.Rational.Stage.{
  Kernels, Frame, StageTable, StageState, append_frame, consume_one, pending_inputs, emit_branches,
  emit, machine,
}
use sample_rate_tap.Machine.{process_each}
use sample_rate_tap.Rational.Stage.Calls.{decimate}
use sample_rate_tap.Rational.Stage.Branch.{
  InBranch, ideal_branch, absorb_branch, emit_branch_lem, append_frame-dphase,
}
use sample_rate_tap.Rational.Stage.Valid.{IsValid}

-- The next frame completes an output.
abbrev pub due_at : {S : Type 0} → StageState S → Bool
due_at x = x.dphase == 0

module _ {S C A : Type 0} (k : Kernels S C A) (down : ℕ) (fixed16 : Bool) (t : StageTable C)
    (some_down : 0 < down) (valid : IsValid 1 down t) where
  waits_branch :
      (n w : ℕ) (past : List (Frame S)) (x : StageState S)
      → x.dphase ≡ length past % down
      → w < down
      → length past + w ≡ n * down
      → (down - x.dphase) % down ≡ w
  waits_branch n w past x cursor lt whole = rw cursor (
      mod-complement down (length past % down) w (mod-lt (length past) some_down) lt
        (mod-add-mod (length past) down w ∙ ap (λ z. z % down) whole ∙ mul-mod_left n down))

  distance :
      (n : ℕ) (past : List (Frame S)) (w : ℕ) (x : StageState S)
      → InBranch k down fixed16 t n past (suc w) x
      → (down - x.dphase) % down ≡ w
  distance n past w x h =
      waits_branch n w past x h.cursor (omega (arith, h.small))
        (omega (arith, h.owed, div-one (n * down)))

  pub need_branch :
      (n : ℕ) (past : List (Frame S)) (w : ℕ) (x : StageState S)
      → InBranch k down fixed16 t n past (suc w) x
      → pending_inputs k 1 down fixed16 t x ≡ suc w
  unfolding pending_inputs
  need_branch n past w x h = rw (distance n past w x h) (omega arith)

  -- The next output waits for some input.
  pub waits_again :
      (n : ℕ) (past : List (Frame S)) (x : StageState S)
      → InBranch k down fixed16 t n past 0 x
      → (w : ℕ) × (pending_inputs k 1 down fixed16 t (emit k 1 down fixed16 t x).1 ≡ suc w)
  unfolding pending_inputs
  waits_again n past x h = ((down - (emit k 1 down fixed16 t x).1.dphase) % down, omega arith)

  -- An output hands over to the next, `down` inputs on.
  need_after :
      (n : ℕ) (past : List (Frame S)) (x : StageState S)
      → InBranch k down fixed16 t n past 0 x
      → pending_inputs k 1 down fixed16 t x ≡ down
  unfolding pending_inputs
  need_after n past x h =
      let split : (n + 1) * down ≡ n * down + down = grind arith in
      rw
        (waits_branch (n + 1) (down - 1) past x h.cursor (omega arith)
          (omega (arith, h.owed, div-one (n * down), split)))
        (omega arith)

  pub emit_branch_on :
      (n : ℕ) (past : List (Frame S)) (x : StageState S)
      → InBranch k down fixed16 t n past 0 x
      → InBranch k down fixed16 t
          (suc n)
          past
          (pending_inputs k 1 down fixed16 t (emit k 1 down fixed16 t x).1)
          (emit k 1 down fixed16 t x).1
  unfolding emit
  emit_branch_on n past x h = rw (need_after n past x h) (record {
    held = h.held;
    cursor = h.cursor;
    owed =
        let split : suc n * down ≡ n * down + down = grind arith in
        omega (arith, h.owed, div-one (n * down), div-one (suc n * down), split);
    small = omega arith;
  })

  pub due_branch :
      (n : ℕ) (past : List (Frame S)) (w : ℕ) (x : StageState S)
      → InBranch k down fixed16 t n past (suc w) x
      → (x.dphase == 0) ≡ (w == 0)
  due_branch n past w x h = elim (ℕ_discrete x.dphase 0) [
    | yes first ↦
        let far : down - x.dphase ≡ down = omega arith in
        let none : w ≡ 0 = sym (distance n past w x h) ∙ ap (λ z. z % down) far ∙ mod_self down in
        rw (first, none) refl
    | no later ↦
        let lt : x.dphase < down = rw h.cursor (mod-lt (length past) some_down) in
        let some : w ≡ down - x.dphase = sym (distance n past w x h) ∙ mod-eq_of_lt (omega arith) in
        ground arith
  ]

  pub extends_branch :
      (n : ℕ) (past more : List (Frame S))
      → n * down / 1 + 1 ≤ length past
      → ideal_branch k down fixed16 t past n ≡ ideal_branch k down fixed16 t (past ++ more) n
  extends_branch n past more h = rw (take-append_le (n * down / 1 + 1) past more h) refl

  abbrev pub branch_laws : Laws (machine k 1 down fixed16 t) 1 down
  branch_laws = record {
    Stands = InBranch k down fixed16 t;
    ideal = ideal_branch k down fixed16 t;
    some_up = omega arith;
    some_down = some_down;
    owed = λ n past w x h. h.owed;
    need_eq = need_branch;
    absorb_on = absorb_branch k down fixed16 t some_down valid;
    emit_on = emit_branch_on;
    emit_ideal = emit_branch_lem k down fixed16 t some_down valid;
    extends = extends_branch;
  }

  -- The decimator's loop tests the phase that the machine counts.
  pub decimate_each :
      (bits : ℕ) (src : List (Frame S)) (x : StageState S)
      → decimate k bits 1 down fixed16 t src x
        ≡ process_each (machine k 1 down fixed16 t) due_at src x
  unfolding decimate process_each consume_one emit emit_branches
  decimate_each bits [] x = refl
  decimate_each bits (f ∷ fs) x =
      rw
        (
          decimate_each bits fs
              (consume_one k 1 down fixed16 t (append_frame k 1 down fixed16 t f x)),
          append_frame-dphase k down fixed16 t some_down valid f x,
        )
        refl
