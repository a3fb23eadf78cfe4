-- ===== src/Rational/Stage.antt =====
-- rational/include/tap/sr/rational/stage.h, `basic_stage<S, R>` at the ratio `up / down`.
-- An interleaved buffer is the list of its frames; an input frame is read by channel index.
pub mod Table
pub mod Calls
pub mod Schedule
pub mod Valid
pub mod Phase
pub mod Branch
pub mod Stream
mod Tests
use sample_rate_tap.Common.{
  ℕ, zero, suc, ◌+◌, ◌-◌, ◌*◌, ◌/◌, ◌%◌, ◌^◌, Bool, not, ◌&&◌, List, map, take, drop, get_or,
  range_from, slide, store_frame, ltb, leb, ◌==◌, if◌then◌else◌, sub_w, u32,
}
use sample_rate_tap.Machine.{Machine}
use sample_rate_tap.Rational.Ratio.{k_is_up, k_is_decimator, k_band}

-- What tap::dsp gives for a sample type `S` with coefficients `C` and accumulator `A`.
pub record Kernels (S C A : Type 0) : Type 0 where
  pub silence : S
  pub accum : A  -- `accum{}`
  pub accumulate_row : A → List C → List S → A
  pub dot_row : List C → List S → S
  pub finalize : A → S
  pub finalize_divided : ℕ → A → S
  pub nil_coeff : C  -- `static_cast<coeff>(0)`
  pub is_nil : C → Bool  -- `== static_cast<coeff>(0)`

abbrev pub Frame : Type 0 → Type 0
Frame S = ℕ → S

abbrev pub k_hist_slack : ℕ
k_hist_slack = 64

-- `while (2 * g * k_up < 2 * k_down) { g *= 2; }`; the first argument is fuel.
unfoldable pub gain_from : ℕ → ℕ → ℕ → ℕ → ℕ
gain_from zero up down g = g
gain_from (suc fuel) up down g =
    let rest = gain_from fuel up down (g * 2) in if ltb (2 * g * up) (2 * down) then rest else g

-- `fixed16` says that the sample type is `std::int16_t`.
module _ (up down : ℕ) (fixed16 : Bool) where
  abbrev pub k_branch_quantized : Bool
  k_branch_quantized = k_is_decimator up down && fixed16

  abbrev pub k_mixed_down_gain : ℕ
  k_mixed_down_gain = gain_from down up down 1

  abbrev pub k_row_scaled : Bool
  k_row_scaled = not (k_is_up up down) && not (k_is_decimator up down) && fixed16

  abbrev pub k_table_gain : ℕ
  k_table_gain = if k_branch_quantized then down else if k_row_scaled then k_mixed_down_gain else 1

pub record ScheduleEntry : Type 0 where
  pub phase : ℕ  -- uint16_t
  pub advance : ℕ  -- uint8_t, or uint32_t for a wide ratio

module _ (up down : ℕ) where
  abbrev pub advance_modulus : ℕ
  advance_modulus = if leb ((down + up - 1) / up) 255 then 2 ^ 8 else 2 ^ 32

  abbrev pub schedule_entry : ℕ → ScheduleEntry
  schedule_entry n = record {
    phase = n * down % up % 2 ^ 16;
    advance = ((n + 1) * down / up - n * down / up) % advance_modulus;
  }

  unfoldable pub make_schedule : List ScheduleEntry
  make_schedule = map schedule_entry (range_from 0 up)

  unfoldable pub k_schedule : ℕ → ScheduleEntry
  unfolding make_schedule
  k_schedule pos = get_or make_schedule pos (record { phase = 0; advance = 0 })

  abbrev pub k_rows : ℕ
  k_rows = if k_is_decimator up down then down else up

-- The members that the constructor settles. A row is `row_len` coefficients of `rows`, of which those
-- from `first` on, `count` of them, are multiplied.
pub record StageTable (C : Type 0) : Type 0 where
  pub channels : ℕ
  pub taps : ℕ
  pub row_len : ℕ
  pub hist_cap : ℕ
  pub rows : List C
  pub first : ℕ → ℕ
  pub count : ℕ → ℕ

-- The members that the operations change: the delay line of a channel and sub-line, and its end.
pub record StageState (S : Type 0) : Type 0 where
  pub hist : ℕ → ℕ → List S
  pub end : ℕ → ℕ
  pub pos : ℕ  -- uint32_t, superblock position in [0, L)
  pub pending : ℕ  -- uint32_t, inputs before the next output (L-phase machine)
  pub dphase : ℕ  -- uint32_t, inputs since the last output (decimator)

module _ {S C A : Type 0} (k : Kernels S C A) (up down : ℕ) (fixed16 : Bool)
    (t : StageTable C) where
  unfoldable pub finalize_output : A → S
  finalize_output acc =
      if k_table_gain up down fixed16 == 1
      then k.finalize acc
      else k.finalize_divided (k_table_gain up down fixed16) acc

  abbrev pub compact : ℕ → StageState S → StageState S
  compact sub x =
      let keep = t.row_len - 1 in
      record x {
        hist = λ c s. if s == sub then slide keep (x.end s) (x.hist c s) else x.hist c s;
        end = λ s. if s == sub then keep else x.end s;
      }

  -- The end of `append_frame`, once there is room.
  abbrev pub store_at : ℕ → Frame S → StageState S → StageState S
  store_at sub f x = record x {
    hist = λ c s.
        if s == sub then store_frame t.channels f (λ i. x.hist i s) (x.end s) c else x.hist c s;
    end = λ s. if s == sub then x.end s + 1 else x.end s;
  }

  abbrev pub current_line : StageState S → ℕ
  current_line x = if k_is_decimator up down then x.dphase else 0

  unfoldable pub append_frame : Frame S → StageState S → StageState S
  append_frame f x =
      let sub = current_line x in
      let v = if x.end sub == t.hist_cap then compact sub x else x in store_at sub f v

  abbrev pub append_silence : StageState S → StageState S
  append_silence x = append_frame (λ _. k.silence) x

  abbrev pub next_dphase : StageState S → StageState S
  next_dphase x = record x { dphase = if x.dphase + 1 == down then 0 else x.dphase + 1 }

  unfoldable pub consume_one : StageState S → StageState S
  consume_one x =
      if k_is_decimator up down then next_dphase x else record x { pending = sub_w u32 x.pending 1 }

  unfoldable pub pending_inputs : StageState S → ℕ
  pending_inputs x = if k_is_decimator up down then 1 + (down - x.dphase) % down else x.pending

  -- The coefficients of row `r` that are multiplied, and the samples of a line that they meet.
  abbrev pub row_span : ℕ → List C
  row_span r = take (t.count r) (drop (r * t.row_len + t.first r) t.rows)

  abbrev pub line_span : ℕ → ℕ → List S → List S
  line_span r e line = take (t.count r) (drop (e - t.row_len + t.first r) line)

  -- The branches `j`, `j + 1`, … of a decimator, `n` of them, through one accumulator.
  unfoldable pub sum_branches : (ℕ → List S) → ℕ → ℕ → A → A
  sum_branches window zero j acc = acc
  sum_branches window (suc n) j acc =
      sum_branches window n (suc j) (k.accumulate_row acc (row_span j) (window j))

  unfoldable pub emit_branches : StageState S → List S
  emit_branches x =
      map
        (λ c. finalize_output (
          sum_branches (λ j. let sub = (down - j) % down in line_span j (x.end sub) (x.hist c sub))
            (k_rows up down) 0 k.accum))
        (range_from 0 t.channels)

  -- One channel's sample of the L-phase machine.
  unfoldable pub dot_phase : ℕ → List S → S
  dot_phase phase window =
      if k_table_gain up down fixed16 == 1
      then k.dot_row (row_span phase) window
      else finalize_output (k.accumulate_row k.accum (row_span phase) window)

  unfoldable pub emit_phase : StageState S → List S × StageState S
  emit_phase x =
      let step = k_schedule up down x.pos in
      (
        map (λ c. dot_phase step.phase (line_span step.phase (x.end 0) (x.hist c 0)))
            (range_from 0 t.channels),
        record x { pending = step.advance; pos = if x.pos + 1 == up then 0 else x.pos + 1 },
      )

  unfoldable pub emit : StageState S → List S × StageState S
  emit x = if k_is_decimator up down then (emit_branches x, x) else emit_phase x

  abbrev pub machine : Machine (StageState S) (Frame S) (List S)
  machine = record {
    absorb = λ f x. consume_one (append_frame f x);
    emit = emit;
    need = pending_inputs;
  }
