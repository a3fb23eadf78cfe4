-- ===== src/Bridge/Schedule.antt =====
-- bridge/include/tap/sr/bridge/schedule.h, and the phase counts of design.h (`ratio_traits`).
pub mod Entries
pub mod Need
mod Tests
use sample_rate_tap.Common.{
  ℕ, ◌+◌, ◌-◌, ◌*◌, ◌/◌, ◌%◌, ◌^◌, List, map, get_or, range_from, add_w, sub_w, mul_w, u64,
}

pub data Direction : Type 0 where
  up_to_48k down_to_44k1 : Direction

-- L and M. The rate scale K changes neither.
abbrev pub k_phases : Direction → ℕ
k_phases Direction.up_to_48k = 160
k_phases Direction.down_to_44k1 = 147

abbrev pub k_decimation : Direction → ℕ
k_decimation Direction.up_to_48k = 147
k_decimation Direction.down_to_44k1 = 160

pub record ScheduleEntry : Type 0 where
  pub phase : ℕ  -- uint16_t
  pub advance : ℕ  -- uint8_t

-- Round `n` of the loop in `make_schedule`, with the narrowing casts.
abbrev pub schedule_entry : Direction → ℕ → ScheduleEntry
schedule_entry d n = record {
  phase = n * k_decimation d % k_phases d % 2 ^ 16;
  advance = ((n + 1) * k_decimation d / k_phases d - n * k_decimation d / k_phases d) % 2 ^ 8;
}

unfoldable pub make_schedule : Direction → List ScheduleEntry
make_schedule d = map (schedule_entry d) (range_from 0 (k_phases d))

-- `k_schedule<D>[pos]`; the array has an entry for each `pos` below L.
unfoldable pub k_schedule : Direction → ℕ → ScheduleEntry
unfolding make_schedule
k_schedule d pos = get_or (make_schedule d) pos (record { phase = 0; advance = 0 })

-- Inputs that the next `out_frames` outputs consume from superblock position `pos`, in uint64_t.
unfoldable pub frames_needed : Direction → ℕ → ℕ → ℕ
frames_needed d pos out_frames =
    let p = pos % k_phases d in
    sub_w u64 (mul_w u64 (add_w u64 p out_frames) (k_decimation d) / k_phases d)
      (mul_w u64 p (k_decimation d) / k_phases d)
