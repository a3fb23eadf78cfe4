-- ===== src/Rational/Stage/Stream/Reset.antt =====
-- A stage as constructed, and after `reset`.
use native.Mathlib.Nat.{zero-mod, zero-mul, zero-div, mod_self}
use sample_rate_tap.Common.{
  ℕ, ◌-◌, ◌%◌, ◌<◌, ◌≡◌, refl, sym, arith, List, [], some, length, length-replicate, Bool, false,
  ◌==◌, Holds-silent,
}
use sample_rate_tap.Rational.Stage.{Kernels, Frame, StageTable, StageState, pending_inputs}
use sample_rate_tap.Rational.Stage.Calls.{outputs_for, process, reset, initial, allocated}
use sample_rate_tap.Rational.Stage.Schedule.{Fits}
use sample_rate_tap.Rational.Stage.Valid.{IsValid}
use sample_rate_tap.Rational.Stage.Stream.{InStream, by_machine}
use sample_rate_tap.Rational.Stage.Stream.Counts.{Counted}
use sample_rate_tap.Rational.Stage.Stream.Process.{process-ideal_stage}

module _ {S C A : Type 0} (k : Kernels S C A) (bits down : ℕ) (fixed16 : Bool) (t : StageTable C)
    (x : StageState S) where
  reset-branch :
      Fits 1 down
      → IsValid 1 down t
      → ((s : ℕ) → s < down → (c : ℕ) → length (x.hist c s) ≡ t.hist_cap)
      → InStream k 1 down fixed16 t 0 [] (reset k bits 1 down fixed16 t x)
  unfolding reset pending_inputs
  reset-branch fits valid sized =
      let whole : down - 0 ≡ down = omega arith in
      let none : (down - 0) % down ≡ 0 = rw whole (mod_self down) in
      record {
        held = λ s lt.
            Holds-silent k.silence t.row_len t.hist_cap t.channels (λ c. x.hist c s) (sized s lt)
              (omega (arith, valid.room));
        cursor = sym (zero-mod down);
        owed = rw (none, zero-mul) (omega arith);
        small = rw none (omega (arith, fits.some_down));
      }

  reset-phase :
      (up : ℕ)
      → (up == 1) ≡ false
      → Fits up down
      → IsValid up down t
      → ((c : ℕ) → length (x.hist c 0) ≡ t.hist_cap)
      → InStream k up down fixed16 t 0 [] (reset k bits up down fixed16 t x)
  unfolding reset pending_inputs
  reset-phase up many fits valid sized = rw many (record {
    held =
        Holds-silent k.silence t.row_len t.hist_cap t.channels (λ c. x.hist c 0) sized
          (omega (arith, valid.room));
    cursor = sym (zero-mod up);
    waits = refl;
    owed = rw (zero-mul, zero-div) refl;
    small = omega (arith, fits.some_down);
  })

module _ {S C A : Type 0} (k : Kernels S C A) (bits up down : ℕ) (fixed16 : Bool) (t : StageTable C)
    (fits : Fits up down) (valid : IsValid up down t) where
  pub reset-InStream :
      (n : ℕ) (past : List (Frame S)) (x : StageState S)
      → InStream k up down fixed16 t n past x
      → InStream k up down fixed16 t 0 [] (reset k bits up down fixed16 t x)
  reset-InStream n past x h =
      by_machine
        (λ u.
          Fits u down
          → IsValid u down t
          → InStream k u down fixed16 t n past x
          → InStream k u down fixed16 t 0 [] (reset k bits u down fixed16 t x))
        up (λ f v h. reset-branch k bits down fixed16 t x f v (λ s lt. (h.held s lt).sized))
        (λ many f v h. reset-phase k bits down fixed16 t x up many f v (rw many at h).held.sized)
        fits valid h

  pub initial-InStream : InStream k up down fixed16 t 0 [] (initial k bits up down fixed16 t)
  unfolding initial
  initial-InStream =
      by_machine
        (λ u.
          Fits u down
          → IsValid u down t
          → InStream k u down fixed16 t 0 [] (initial k bits u down fixed16 t))
        up
        (λ f v.
          reset-branch k bits down fixed16 t (allocated k bits 1 down fixed16 t) f v
            (λ s lt c. length-replicate t.hist_cap k.silence))
        (λ many f v.
          reset-phase k bits down fixed16 t (allocated k bits up down fixed16 t) up many f v
            (λ c. length-replicate t.hist_cap k.silence))
        fits valid

  outputs_for-reset :
      (x : StageState S) (a : ℕ)
      → outputs_for bits up down (reset k bits up down fixed16 t x) a
        ≡ outputs_for bits up down (initial k bits up down fixed16 t) a
  unfolding outputs_for reset initial
  outputs_for-reset x a = refl

  -- Wherever a stage stands in a stream, and while `std::size_t` has room for the counts: after `reset`,
  -- `process` writes for any input what it writes in a stage just constructed.
  pub reset-initial :
      (n : ℕ) (past src : List (Frame S)) (x : StageState S)
      → InStream k up down fixed16 t n past x
      → Counted bits up down (length src)
      → (out : List (List S)) × (y z : StageState S) × (process k bits up down fixed16 t src
            (reset k bits up down fixed16 t x)
          ≡ some (out, y))
        × (process k bits up down fixed16 t src (initial k bits up down fixed16 t) ≡ some (out, z))
  reset-initial n past src x h c =
      let (y, ran, _) =
        process-ideal_stage k bits up down fixed16 t fits valid 0 [] src
          (reset k bits up down fixed16 t x) (reset-InStream n past x h) c in
      let (z, ran', _) =
        process-ideal_stage k bits up down fixed16 t fits valid 0 [] src
          (initial k bits up down fixed16 t) initial-InStream c in
      (_, y, z, ran, rw (outputs_for-reset x (length src)) ran')
