-- ===== src/Bridge/Schedule/Need.antt =====
-- `frames_needed` against a walk of the table.
use sample_rate_tap.Common.{
  ℕ, zero, suc, ◌+◌, ◌-◌, ◌*◌, ◌/◌, ◌^◌, ◌≤◌, ◌<◌, ◌≡◌, ap, ◌∙◌, sym, arith, needed-suc, next_pos,
  next_pos-lt,
}
use sample_rate_tap.Bridge.Schedule.{
  Direction, up_to_48k, down_to_44k1, k_phases, k_decimation, k_schedule, ScheduleEntry,
  frames_needed,
}
use sample_rate_tap.Bridge.Schedule.Entries.{k_schedule_lem}

-- What the entries met on a walk of `k` outputs from `pos` consume.
unfoldable pub consumed : Direction → ℕ → ℕ → ℕ
consumed d pos zero = 0
consumed d pos (suc k) = (k_schedule d pos).advance + consumed d (next_pos (k_phases d) pos) k

pub frames_needed-exact :
    (d : Direction) (pos k : ℕ)
    → pos < k_phases d
    → k ≤ 2 ^ 56
    → frames_needed d pos k
      ≡ (pos + k) * k_decimation d / k_phases d - pos * k_decimation d / k_phases d
unfolding frames_needed
frames_needed-exact up_to_48k pos k h small = omega arith
frames_needed-exact down_to_44k1 pos k h small = omega arith

pub phases_pos : (d : Direction) → (0 < k_phases d) × (0 < k_decimation d)
phases_pos up_to_48k = omega arith
phases_pos down_to_44k1 = omega arith

consumed_lem :
    (d : Direction) (pos k : ℕ)
    → pos < k_phases d
    → consumed d pos k ≡ (pos + k) * k_decimation d / k_phases d - pos * k_decimation d / k_phases d
unfolding consumed
consumed_lem up_to_48k pos zero h = omega arith
consumed_lem down_to_44k1 pos zero h = omega arith
consumed_lem d pos (suc k) h = omega (
  arith,
  needed-suc (k_phases d) (k_decimation d) (phases_pos d).0 (phases_pos d).1 pos 0 (suc k) h,
  consumed_lem d (next_pos (k_phases d) pos) k (next_pos-lt (k_phases d) pos h),
  ap (λ (e : ScheduleEntry). e.advance) (k_schedule_lem d pos h),
)

-- `frames_needed` counts what the next `k` entries of the table advance by, from any position, for
-- every count up to 2 ^ 56.
pub frames_needed-eq-consumed :
    (d : Direction) (pos k : ℕ)
    → pos < k_phases d
    → k ≤ 2 ^ 56
    → frames_needed d pos k ≡ consumed d pos k
frames_needed-eq-consumed d pos k h small =
    frames_needed-exact d pos k h small ∙ sym (consumed_lem d pos k h)
