-- ===== src/Bridge/Table/Tests.antt =====
-- A table over numbers, from a prototype of two taps, which is the same both ways.
use mathlib.Core.List.{reverse}
use sample_rate_tap.Common.{
  ℕ, ◌+◌, ◌-◌, ◌*◌, ◌<◌, ◌≡◌, refl, arith, List, if◌then◌else◌, get_or, map, min, range_from, sym,
  ◌∙◌, get_or-map_range,
}
use sample_rate_tap.Bridge.Schedule.{up_to_48k, k_phases}
use sample_rate_tap.Bridge.Table.{stored_row, build_table, gathered_row, is_mirrored}
use sample_rate_tap.Bridge.Table.Rows.{stored_row-gathered_row}

abbrev same : List ℕ → List ℕ
same row = row

abbrev ramp : ℕ → ℕ
ramp i = min i (319 - i)

-- Up and down over 320 samples.
abbrev triangle : List ℕ
triangle = map ramp (range_from 0 320)

triangle_symmetric :
    (i : ℕ) → i < k_phases up_to_48k * 2 → get_or triangle i 0 ≡ get_or triangle (319 - i) 0
triangle_symmetric i h =
    get_or-map_range ramp 0 320 i 0 h
    ∙ (let same : ramp (0 + i) ≡ ramp (0 + (319 - i)) = omega arith in same)
    ∙ sym (get_or-map_range ramp 0 320 (319 - i) 0 (omega arith))

stored_row-gathered_row_example :
    stored_row up_to_48k (build_table same 0 up_to_48k triangle 2) 100
    ≡ same (
        if is_mirrored up_to_48k 100
        then reverse (gathered_row same 0 up_to_48k triangle 2 100)
        else gathered_row same 0 up_to_48k triangle 2 100)
stored_row-gathered_row_example =
    stored_row-gathered_row same 0 up_to_48k (λ row. refl) triangle 2 100 triangle_symmetric
      (omega arith)
