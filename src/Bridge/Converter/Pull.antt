-- ===== src/Bridge/Converter/Pull.antt =====
-- `pull` and `flush`, and the single-frame operations that they use.
pub mod Frames
pub mod Source
pub mod Counts
pub mod Stream
pub mod Feed
pub mod Drain
mod Tests
use sample_rate_tap.Common.{
  ℕ, zero, suc, ◌+◌, ◌-◌, Bool, true, false, Option, none, some, List, [], ◌∷◌, map, length, take,
  window_of, store_frame, range_from, ltb, ◌==◌, if◌then◌else◌, sub_w, u32,
}
use sample_rate_tap.Bridge.Schedule.{Direction, k_phases, k_schedule}
use sample_rate_tap.Bridge.Converter.{Kernels, Frame, Converter, compact, outputs_for, k_pop_chunk}
use sample_rate_tap.Bridge.Converter.Walk.{frame_of, ◌>>=◌}

-- Whether what `pop` gives ends the wait for input.
pub data Drawn (X Q : Type 0) : Type 0 where
  ready : X → Q → Drawn X Q
  dry : X → Q → Drawn X Q

-- `pop(dst, max_frames)` on the state of its source: the frames that it delivers.
abbrev pub Pop : Type 0 → Type 0 → Type 0
Pop S Q = ℕ → Q → Q × List (Frame S)

module _ {S C : Type 0} where
  unfoldable pub compact_if_full : Converter S C → Converter S C
  compact_if_full c =
      if c.end == c.hist_cap
      then record c { hist = compact (c.table.taps - 1) c.hist c.end; end = c.table.taps - 1 }
      else c

  unfoldable pub append_frame : Frame S → Converter S C → Converter S C
  append_frame f c =
      let v = compact_if_full c in
      record v { hist = store_frame v.channels f v.hist v.end; end = v.end + 1 }

  -- The `for` loop of `pull` over the frames popped, with its `--m_pending`.
  unfoldable pub take_frames : List (Frame S) → Converter S C → Converter S C
  take_frames [] c = c
  take_frames (f ∷ fs) c =
      let v = append_frame f c in take_frames fs (record v { pending = sub_w u32 v.pending 1 })

  -- `while (m_pending != 0)`; `none` is the end of the fuel.
  unfoldable pub draw :
      {Q : Type 0} → Pop S Q → ℕ → Converter S C → Q → Option (Drawn (Converter S C) Q)
  draw pop zero c q = if c.pending == 0 then some (ready c q) else none
  draw pop (suc fuel) c q =
      let want = if ltb c.pending k_pop_chunk then c.pending else k_pop_chunk in
      let (q', got) = pop want q in
      let rest = draw pop fuel (take_frames (take want got) c) q' in
      if c.pending == 0 then some (ready c q) else if length got == 0 then some (dry c q') else rest

module _ {S C : Type 0} (k : Kernels S C) (d : Direction) where
  -- The frame written and the converter after it.
  unfoldable pub emit : Converter S C → List S × Converter S C
  emit c =
      let step = k_schedule d c.pos in
      (
        frame_of k d c.table c.channels step.phase (λ i. window_of c.table.taps c.end (c.hist i)),
        record c { pending = step.advance; pos = if c.pos + 1 == k_phases d then 0 else c.pos + 1 },
      )

  -- The frames written; the number returned is their count.
  unfoldable pub pull :
      {Q : Type 0} → Pop S Q → ℕ → Converter S C → Q → Option (List (List S) × Converter S C × Q)
  pull pop zero c q = some ([], c, q)
  pull pop (suc n) c q = draw pop c.pending c q >>= λ r. elim r [
    | dry c' q' ↦ some ([], c', q')
    | ready c' q' ↦
        let (frame, next) = emit c' in
        pull pop n next q' >>= λ (out, last, q''). some (frame ∷ out, last, q'')
  ]

  open k use {silence}

  abbrev pub append_silence : Converter S C → Converter S C
  append_silence c = append_frame (λ _. silence) c

  -- `while (m_pending != 0 && fed < zeros)`, the argument being `zeros - fed`.
  unfoldable pub feed : ℕ → Converter S C → ℕ × Converter S C
  feed zero c = (0, c)
  feed (suc left) c =
      let v = append_silence c in
      let rest = feed left (record v { pending = sub_w u32 v.pending 1 }) in
      if c.pending == 0 then (suc left, c) else rest

  -- `for (;;)`; `none` is the end of the fuel.
  unfoldable pub drain : ℕ → ℕ → Converter S C → Option (List (List S) × Converter S C)
  drain zero left c = none
  drain (suc fuel) left c =
      let (left', c') = feed left c in
      let (frame, next) = emit c' in
      let rest = drain fuel left' next in
      if c'.pending == 0 then (rest >>= λ (out, last). some (frame ∷ out, last)) else some ([], c')

  unfoldable pub flush_output_frames : Converter S C → ℕ
  flush_output_frames c = outputs_for d c c.table.taps

  unfoldable pub flush : Converter S C → Option (List (List S) × Converter S C)
  flush c = drain (flush_output_frames c + 1) c.table.taps c
