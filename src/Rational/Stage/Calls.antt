-- ===== src/Rational/Stage/Calls.antt =====
-- The counts of a stage, and `reset`, `process`, `pull` and `flush`. A `std::size_t` has `bits` bits.
use sample_rate_tap.Common.{
  ℕ, ◌+◌, ◌-◌, ◌%◌, ◌/◌, ◌^◌, Bool, Option, some, List, [], ◌∷◌, map, length, replicate, ltb, ◌==◌,
  if◌then◌else◌, add_w, sub_w, mul_w,
}
use sample_rate_tap.Machine
use sample_rate_tap.Machine.{Pop, process_total, drain}
use sample_rate_tap.Rational.Ratio.{k_is_decimator}
use sample_rate_tap.Rational.Stage.{
  Kernels, Frame, StageTable, StageState, append_frame, next_dphase, emit_branches, machine,
}

module _ (bits up down : ℕ) where
  -- `schedule_frames_needed`, in uint64_t.
  unfoldable pub schedule_frames_needed : ℕ → ℕ → ℕ
  schedule_frames_needed pos out_frames =
      let p = pos % up in
      sub_w (2 ^ 64) (mul_w (2 ^ 64) (add_w (2 ^ 64) p out_frames) down / up)
        (mul_w (2 ^ 64) p down / up)

  module _ {S : Type 0} where
    unfoldable pub outputs_for : StageState S → ℕ → ℕ
    outputs_for x in_frames =
        let w = 2 ^ bits in
        let first = 1 + (down - x.dphase) % down in
        let base = mul_w w x.pos down / up in
        let a = sub_w w in_frames x.pending in
        if k_is_decimator up down
        then (if ltb in_frames first then 0 else add_w w 1 (sub_w w in_frames first / down))
        else if ltb in_frames x.pending
        then 0
        else add_w w (sub_w w (sub_w w (mul_w w up (add_w w (add_w w base a) 1)) 1 / down) x.pos) 1

    unfoldable pub frames_needed : StageState S → ℕ → ℕ
    frames_needed x out_frames =
        let w = 2 ^ bits in
        if out_frames == 0
        then 0
        else if k_is_decimator up down
        then add_w w (1 + (down - x.dphase) % down) (mul_w w (sub_w w out_frames 1) down)
        else add_w w x.pending (schedule_frames_needed x.pos (sub_w w out_frames 1) % w)

module _ {S C A : Type 0} (k : Kernels S C A) (bits up down : ℕ) (fixed16 : Bool)
    (t : StageTable C) where
  -- The decimator's loop over its input.
  unfoldable pub decimate : List (Frame S) → StageState S → List (List S) × StageState S
  decimate [] x = ([], x)
  decimate (f ∷ fs) x =
      let v = append_frame k up down fixed16 t f x in
      let rest = decimate fs (next_dphase k up down fixed16 t v) in
      if v.dphase == 0 then (emit_branches k up down fixed16 t v ∷ rest.0, rest.1) else rest

  unfoldable pub process : List (Frame S) → StageState S → Option (List (List S) × StageState S)
  process frames x =
      if k_is_decimator up down
      then some (decimate frames x)
      else process_total (machine k up down fixed16 t) (outputs_for bits up down x (length frames))
          x frames

  unfoldable pub pull :
      {Q : Type 0}
      → Pop (Frame S) Q
      → ℕ
      → StageState S
      → Q
      → Option (List (List S) × StageState S × Q)
  pull pop out_frames x q = Machine.pull (machine k up down fixed16 t) pop out_frames x q

  abbrev pub window_frames : ℕ
  window_frames = if k_is_decimator up down then t.taps - 1 else t.row_len

  unfoldable pub flush_output_frames : StageState S → ℕ
  flush_output_frames x = outputs_for bits up down x window_frames

  abbrev pub silent_frame : Frame S
  silent_frame i = k.silence

  unfoldable pub flush : StageState S → Option (List (List S) × StageState S)
  flush x =
      if k_is_decimator up down
      then some (decimate (replicate window_frames silent_frame) x)
      else drain (machine k up down fixed16 t) silent_frame (flush_output_frames x + 1)
          window_frames x

  unfoldable pub reset : StageState S → StageState S
  reset x = record {
    hist = λ c s. map (λ _. k.silence) (x.hist c s);
    end = λ s. t.row_len;
    pos = 0;
    pending = 1;
    dphase = 0;
  }

  -- The members as the constructor allocates them.
  abbrev pub allocated : StageState S
  allocated = record {
    hist = λ c s. replicate t.hist_cap k.silence;
    end = λ s. 0;
    pos = 0;
    pending = 1;
    dphase = 0;
  }

  -- The end of the constructor.
  unfoldable pub initial : StageState S
  initial = reset allocated
