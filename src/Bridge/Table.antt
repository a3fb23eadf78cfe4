-- ===== src/Bridge/Table.antt =====
-- bridge/include/tap/sr/bridge/phase_table.h: the polyphase coefficients, held for half the phases.
pub mod Rows
mod Tests
use mathlib.Core.List.{flatten}
use sample_rate_tap.Common.{
  ℕ, ◌+◌, ◌-◌, ◌*◌, ◌/◌, Bool, Option, List, map, leb, ltb, if◌then◌else◌, take, drop, get_elem?,
  get_or, range_from,
}
use sample_rate_tap.Bridge.Schedule.{Direction, k_phases}

-- `basic_phase_table`; the table is row-major, `k_stored` rows of `taps` coefficients.
pub record PhaseTable (C : Type 0) : Type 0 where
  pub taps : ℕ
  pub table : List C

-- Rows actually held.
abbrev pub k_stored : Direction → ℕ
k_stored d = (k_phases d + 1) / 2

abbrev pub is_mirrored : Direction → ℕ → Bool
is_mirrored d ph = leb (k_stored d) ph

abbrev pub stored_index : Direction → ℕ → ℕ
stored_index d ph = if ltb ph (k_stored d) then ph else k_phases d - 1 - ph

module _ {C : Type 0} (d : Direction) where
  -- The `taps` coefficients from the row pointer that serves phase `ph`.
  unfoldable pub stored_row : PhaseTable C → ℕ → List C
  stored_row t ph = take t.taps (drop (stored_index d ph * t.taps) t.table)

  -- Logical coefficient (ph, t).
  unfoldable pub at : PhaseTable C → ℕ → ℕ → Option C
  unfolding stored_row
  at t ph i =
      let r = stored_row t ph in
      if is_mirrored d ph then get_elem? r (t.taps - 1 - i) else get_elem? r i

-- The constructor's loops, over the designed prototype: branch `ph` is gathered tap-reversed, and
-- quantized as a row by tap::dsp.
module _ {F C : Type 0} (quantize_row : List F → List C) (zero_f : F) (d : Direction) where
  abbrev pub gathered_row : List F → ℕ → ℕ → List F
  gathered_row proto taps ph =
      map (λ i. get_or proto ((taps - 1 - i) * k_phases d + ph) zero_f) (range_from 0 taps)

  unfoldable pub build_table : List F → ℕ → PhaseTable C
  build_table proto taps = record {
    taps = taps;
    table =
        flatten (map (λ ph. quantize_row (gathered_row proto taps ph)) (range_from 0 (k_stored d)));
  }
