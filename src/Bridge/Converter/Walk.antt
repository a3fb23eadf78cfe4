-- ===== src/Bridge/Converter/Walk.antt =====
-- `process` and the superblock walk behind it.
use sample_rate_tap.Common.{
  ℕ, zero, suc, ◌+◌, ◌-◌, ◌%◌, Option, none, some, List, [], ◌∷◌, ◌++◌, map, length, window_of,
  store_frame, range_from, ◌==◌, if◌then◌else◌, sub_w, u64, u32,
}
use sample_rate_tap.Bridge.Schedule.{Direction, k_phases, k_schedule}
use sample_rate_tap.Bridge.Table.{PhaseTable, is_mirrored, stored_row}
use sample_rate_tap.Bridge.Converter.{
  Kernels, Frame, Converter, compact, outputs_for, k_taps_economy, k_taps_super_economy,
  k_taps_balanced, k_taps_transparent,
}

-- The locals of `process_walk`, with the histories that it writes and the frames that it produced.
pub record Walk (S : Type 0) : Type 0 where
  pub hist : ℕ → List S
  pub src : List (Frame S)
  pub end : ℕ
  pub pos : ℕ
  pub pending : ℕ
  pub out : List (List S)

infixl 5 ◌>>=◌
abbrev pub ◌>>=◌ {ℓ κ} : {A : Type ℓ} {B : Type κ} → Option A → (A → Option B) → Option B
none >>= f = none
some a >>= f = f a

module _ {S : Type 0} (hist_cap taps ch : ℕ) where
  -- The lambda `append`; `none` is a read past the input.
  abbrev pub full_to_front : Walk S → Walk S
  full_to_front w =
      if w.end == hist_cap
      then record w { hist = compact (taps - 1) w.hist w.end; end = taps - 1 }
      else w

  unfoldable pub append : Walk S → Option (Walk S)
  append w = elim w.src [
    | [] ↦ none
    | f ∷ rest ↦
        let v = full_to_front w in
        some (record v { hist = store_frame ch f v.hist v.end; src = rest; end = v.end + 1 })
  ]

  -- `while (pending != 0) { append(); --pending; }`, the argument being `pending`.
  unfoldable pub fill : ℕ → Walk S → Option (Walk S)
  fill zero w = some w
  fill (suc p) w = append w >>= λ v. fill p (record v { pending = p })

  -- `while (remain != 0) { append(); --pending; }`, the first argument being `remain`.
  unfoldable pub take_leftover : ℕ → Walk S → Option (Walk S)
  take_leftover zero w = some w
  take_leftover (suc r) w =
      append w >>= λ v. take_leftover r (record v { pending = sub_w u64 v.pending 1 })

-- One output frame: every channel's window against the table's row of the phase.
module _ {S C : Type 0} (k : Kernels S C) (d : Direction) (t : PhaseTable C) where
  abbrev pub dot_phase : ℕ → List S → S
  dot_phase phase w =
      let row = stored_row d t phase in
      if is_mirrored d phase then k.dot_row_reversed row w else k.dot_row row w

  abbrev pub frame_of : ℕ → ℕ → (ℕ → List S) → List S
  frame_of ch phase w = map (λ i. dot_phase phase (w i)) (range_from 0 ch)

module _ {S C : Type 0} (k : Kernels S C) (d : Direction) (c : Converter S C) where
  unfoldable pub emit_step : ℕ → ℕ → Walk S → Walk S
  emit_step taps ch w =
      let step = k_schedule d w.pos in
      record w {
        out =
            w.out ++ frame_of k d c.table ch step.phase (λ i. window_of taps w.end (w.hist i)) ∷ [];
        pending = step.advance;
        pos = if w.pos + 1 == k_phases d then 0 else w.pos + 1;
      }

  -- `for (produced < total)`, the argument being the outputs still to come.
  unfoldable pub produce : ℕ → ℕ → ℕ → Walk S → Option (Walk S)
  produce taps ch zero w = some w
  produce taps ch (suc n) w =
      fill c.hist_cap taps ch w.pending w >>= λ v. produce taps ch n (emit_step taps ch v)

  -- `process_walk<CH, T>`; 0 stands for a count that is read at run time.
  unfoldable pub process_walk : ℕ → ℕ → List (Frame S) → Option (Converter S C × List (List S))
  process_walk ch_const t_const frames =
      let taps = if t_const == 0 then c.table.taps else t_const in
      let ch = if ch_const == 0 then c.channels else ch_const in
      let total = outputs_for d c (length frames) in
      let start : Walk S = record {
        hist = c.hist;
        src = frames;
        end = c.end;
        pos = c.pos;
        pending = c.pending;
        out = [];
      } in
      produce taps ch total start >>= λ v.
      take_leftover c.hist_cap taps ch (length v.src) v >>= λ w.
      some (
        record c { hist = w.hist; end = w.end; pos = w.pos % u32; pending = w.pending % u32 },
        w.out,
      )

  unfoldable pub process_taps : ℕ → List (Frame S) → Option (Converter S C × List (List S))
  process_taps t_const frames =
      if c.channels == 1
      then process_walk 1 t_const frames
      else if c.channels == 2
      then process_walk 2 t_const frames
      else process_walk 0 t_const frames

  -- Consumes all of `frames`; the result is the converter after it and the frames written.
  unfoldable pub process : List (Frame S) → Option (Converter S C × List (List S))
  process frames =
      let taps = c.table.taps in
      if taps == k_taps_economy d
      then process_taps (k_taps_economy d) frames
      else if taps == k_taps_super_economy d
      then process_taps (k_taps_super_economy d) frames
      else if taps == k_taps_balanced d
      then process_taps (k_taps_balanced d) frames
      else if taps == k_taps_transparent d
      then process_taps (k_taps_transparent d) frames
      else process_taps 0 frames
