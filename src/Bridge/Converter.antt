-- ===== src/Bridge/Converter.antt =====
-- bridge/include/tap/sr/bridge/converter.h, `basic_converter<S, D>`.
-- An interleaved buffer is the list of its frames. An input frame is read by channel index; an
-- output frame is the list of the samples written for it.
pub mod Walk
pub mod Align
pub mod Produce
pub mod Stream
pub mod Reset
pub mod Chunks
pub mod Pull
mod Samples
mod Tests
use sample_rate_tap.Common.{
  ℕ, ◌+◌, ◌/◌, List, map, slide, replicate, ltb, ◌==◌, if◌then◌else◌, add_w, sub_w, mul_w, u64,
}
use sample_rate_tap.Bridge.Schedule.{Direction, up_to_48k, down_to_44k1, k_phases, k_decimation}
use sample_rate_tap.Bridge.Schedule
use sample_rate_tap.Bridge.Table.{PhaseTable}

-- What tap::dsp gives for one sample format: its silence and its dot products of a coefficient row
-- with a window, forward and with the row read backwards.
pub record Kernels (S C : Type 0) : Type 0 where
  pub silence : S
  pub dot_row : List C → List S → S
  pub dot_row_reversed : List C → List S → S

abbrev pub Frame : Type 0 → Type 0
Frame S = ℕ → S

pub record Converter (S C : Type 0) : Type 0 where
  pub table : PhaseTable C
  pub channels : ℕ
  pub hist_cap : ℕ
  pub hist : ℕ → List S  -- planar delay line per channel
  pub end : ℕ
  pub pos : ℕ  -- uint32_t, superblock position in [0, L)
  pub pending : ℕ  -- uint32_t, inputs to consume before the next output

abbrev pub k_hist_slack : ℕ
k_hist_slack = 64

abbrev pub k_pop_chunk : ℕ
k_pop_chunk = 16

-- The canonical trip counts: economy, super_economy, balanced, transparent.
abbrev pub k_taps_economy : Direction → ℕ
k_taps_economy up_to_48k = 38
k_taps_economy down_to_44k1 = 58

abbrev pub k_taps_super_economy : Direction → ℕ
k_taps_super_economy up_to_48k = 28
k_taps_super_economy down_to_44k1 = 40

abbrev pub k_taps_balanced : Direction → ℕ
k_taps_balanced up_to_48k = 44
k_taps_balanced down_to_44k1 = 78

abbrev pub k_taps_transparent : Direction → ℕ
k_taps_transparent up_to_48k = 96
k_taps_transparent down_to_44k1 = 184

-- `compact`, at `keep` = taps - 1: every channel's newest samples to the front.
abbrev pub compact : {S : Type 0} → ℕ → (ℕ → List S) → ℕ → ℕ → List S
compact keep hist e i = slide keep e (hist i)

module _ {S C : Type 0} (d : Direction) where
  -- `outputs_for`, in uint64_t.
  unfoldable pub outputs_for : Converter S C → ℕ → ℕ
  outputs_for c in_frames =
      let base = mul_w u64 c.pos (k_decimation d) / k_phases d in
      let a = sub_w u64 in_frames c.pending in
      if ltb in_frames c.pending
      then 0
      else add_w u64
          (sub_w u64
            (sub_w u64 (mul_w u64 (k_phases d) (add_w u64 (add_w u64 base a) 1)) 1 / k_decimation d)
            c.pos)
          1

  unfoldable pub frames_needed : Converter S C → ℕ → ℕ
  frames_needed c out_frames =
      if out_frames == 0
      then 0
      else add_w u64 c.pending (Schedule.frames_needed d c.pos (sub_w u64 out_frames 1))

module _ {S C : Type 0} (k : Kernels S C) where
  open k use {silence}

  abbrev pub all_silent : List S → List S
  all_silent line = map (λ _. silence) line

  unfoldable pub reset : Converter S C → Converter S C
  reset c = record c { hist = λ i. all_silent (c.hist i); end = c.table.taps; pos = 0; pending = 1 }

  -- The constructor past its rejections: histories of `taps + 64` samples, then `reset`.
  abbrev pub allocated : PhaseTable C → ℕ → Converter S C
  allocated t channels = record {
    table = t;
    channels = channels;
    hist_cap = t.taps + k_hist_slack;
    hist = λ i. replicate (t.taps + k_hist_slack) silence;
    end = 0;
    pos = 0;
    pending = 1;
  }

  unfoldable pub construct : PhaseTable C → ℕ → Converter S C
  unfolding reset
  construct t channels = reset (allocated t channels)
