-- ===== src/Rational/Stage/Stream.antt =====
-- A stage in its stream, whichever of the two machines its ratio selects.
pub mod Counts
pub mod Process
pub mod Pull
pub mod Reset
use sample_rate_tap.Common.{
  ℕ, zero, suc, ◌+◌, ◌-◌, ◌*◌, ◌/◌, ◌%◌, ◌^◌, ◌≤◌, ◌<◌, ◌≡◌, refl, sym, ap, ◌∙◌, arith, List, [],
  ◌∷◌, ◌++◌, some, length, range_from, map, Bool-cases, inl, inr, ◌==◌, ==_iff, Bool, true, false,
  if◌then◌else◌,
}
use mathlib.Core.Path.{subst}
use sample_rate_tap.Machine.Laws.{Laws}
use sample_rate_tap.Rational.Ratio.{k_is_decimator}
use sample_rate_tap.Rational.Stage.{Kernels, Frame, StageTable, StageState, machine, pending_inputs}
use sample_rate_tap.Rational.Stage.Schedule.{Fits}
use sample_rate_tap.Rational.Stage.Valid.{IsValid}
use sample_rate_tap.Rational.Stage.Phase.{InPhase, ideal_phase, phase_laws}
use sample_rate_tap.Rational.Stage.Branch.{InBranch, ideal_branch}
use sample_rate_tap.Rational.Stage.Branch.Cycle.{branch_laws}

-- What holds at `L = 1` and at any other `L` holds.
pub by_machine {ℓ} : (P : ℕ → Type ℓ) (up : ℕ) → P 1 → ((up == 1) ≡ false → P up) → P up
by_machine P up one many = elim (Bool-cases (up == 1)) [
  | inl e ↦ subst P (sym ((==_iff up 1).0 e)) one
  | inr e ↦ many e
]

module _ {S C A : Type 0} (k : Kernels S C A) (up down : ℕ) (fixed16 : Bool)
    (t : StageTable C) where
  -- The stage has received `past`, has written `n` frames, and waits for `w` inputs.
  abbrev pub InStage : ℕ → List (Frame S) → ℕ → StageState S → Type 0
  InStage n past w x =
      if k_is_decimator up down
      then InBranch k down fixed16 t n past w x
      else InPhase k up down fixed16 t n past w x

  -- The same between two calls, where it waits for as many inputs as it says.
  abbrev pub InStream : ℕ → List (Frame S) → StageState S → Type 0
  InStream n past x = InStage n past (pending_inputs k up down fixed16 t x) x

  -- Output `n` of the stream `past`.
  abbrev pub ideal_stage : List (Frame S) → ℕ → List S
  ideal_stage past n =
      if k_is_decimator up down
      then ideal_branch k down fixed16 t past n
      else ideal_phase k up down fixed16 t past n

module _ {S C A : Type 0} (k : Kernels S C A) (up down : ℕ) (fixed16 : Bool) (t : StageTable C)
    (fits : Fits up down) (valid : IsValid up down t) where
  pub by_stage {ℓ} : (P : ℕ → Type ℓ) → (IsValid 1 down t → P 1) → ((up == 1) ≡ false → P up) → P up
  by_stage P one many = by_machine (λ u. IsValid u down t → P u) up one (λ e _. many e) valid

  abbrev pub stage_laws : Laws (machine k up down fixed16 t) up down
  stage_laws = record {
    Stands = InStage k up down fixed16 t;
    ideal = ideal_stage k up down fixed16 t;
    some_up = fits.some_up;
    some_down = fits.some_down;
    owed = λ n past w x.
        by_stage (λ u. InStage k u down fixed16 t n past w x → w + length past ≡ n * down / u + 1)
          (λ one. (branch_laws k down fixed16 t fits.some_down one).owed n past w x)
          (λ many. rw many ((phase_laws k up down fixed16 t fits many valid).owed n past w x));
    need_eq = λ n past w x.
        by_stage
          (λ u.
            InStage k u down fixed16 t n past (suc w) x
            → (machine k u down fixed16 t).need x ≡ suc w)
          (λ one. (branch_laws k down fixed16 t fits.some_down one).need_eq n past w x)
          (λ many. rw many ((phase_laws k up down fixed16 t fits many valid).need_eq n past w x));
    absorb_on = λ n past f w x.
        by_stage
          (λ u.
            InStage k u down fixed16 t n past (suc w) x
            → InStage k u down fixed16 t n (past ++ f ∷ []) w
                ((machine k u down fixed16 t).absorb f x))
          (λ one. (branch_laws k down fixed16 t fits.some_down one).absorb_on n past f w x)
          (λ many.
            rw many ((phase_laws k up down fixed16 t fits many valid).absorb_on n past f w x));
    emit_on = λ n past x.
        by_stage
          (λ u.
            InStage k u down fixed16 t n past 0 x
            → InStage k u down fixed16 t (suc n) past
                ((machine k u down fixed16 t).need ((machine k u down fixed16 t).emit x).1)
                ((machine k u down fixed16 t).emit x).1)
          (λ one. (branch_laws k down fixed16 t fits.some_down one).emit_on n past x)
          (λ many. rw many ((phase_laws k up down fixed16 t fits many valid).emit_on n past x));
    emit_ideal = λ n past x.
        by_stage
          (λ u.
            InStage k u down fixed16 t n past 0 x
            → ((machine k u down fixed16 t).emit x).0 ≡ ideal_stage k u down fixed16 t past n)
          (λ one. (branch_laws k down fixed16 t fits.some_down one).emit_ideal n past x)
          (λ many. rw many ((phase_laws k up down fixed16 t fits many valid).emit_ideal n past x));
    extends = λ n past more.
        by_stage
          (λ u.
            n * down / u + 1 ≤ length past
            → ideal_stage k u down fixed16 t past n
              ≡ ideal_stage k u down fixed16 t (past ++ more) n)
          (λ one. (branch_laws k down fixed16 t fits.some_down one).extends n past more)
          (λ many. rw many ((phase_laws k up down fixed16 t fits many valid).extends n past more));
  }
