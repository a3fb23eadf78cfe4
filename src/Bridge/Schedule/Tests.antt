-- ===== src/Bridge/Schedule/Tests.antt =====
-- The schedule at concrete positions.
use sample_rate_tap.Common.{ℕ, ◌≤◌, ◌<◌, ◌≡◌, refl, arith, [], ◌∷◌, map, range_from}
use sample_rate_tap.Bridge.Schedule.{up_to_48k, down_to_44k1, k_schedule, frames_needed}
use sample_rate_tap.Bridge.Schedule.Entries.{phase-visited_once, advance_bounds}
use sample_rate_tap.Bridge.Schedule.Need.{consumed, frames_needed-eq-consumed}

first_phases_up :
    map (λ n. (k_schedule up_to_48k n).phase) (range_from 0 4) ≡ 0 ∷ 147 ∷ 134 ∷ 121 ∷ []
unfolding k_schedule
first_phases_up = refl

first_advances_down :
    map (λ n. (k_schedule down_to_44k1 n).advance) (range_from 9 4) ≡ 1 ∷ 1 ∷ 2 ∷ 1 ∷ []
unfolding k_schedule
first_advances_down = refl

superblock_up : frames_needed up_to_48k 13 160 ≡ 147
unfolding frames_needed
superblock_up = refl

phase-visited_once_example :
    (n : ℕ) × (n < 160)
    × ((k_schedule up_to_48k n).phase ≡ 121)
    × ((k : ℕ) → k < 160 → (k_schedule up_to_48k k).phase ≡ 121 → k ≡ n)
phase-visited_once_example = phase-visited_once up_to_48k 121 (omega arith)

advance_bounds_example :
    (1 ≤ (k_schedule down_to_44k1 11).advance) × ((k_schedule down_to_44k1 11).advance ≤ 2)
advance_bounds_example = advance_bounds down_to_44k1 11 (omega arith)

frames_needed-eq-consumed_example : frames_needed up_to_48k 150 25 ≡ consumed up_to_48k 150 25
frames_needed-eq-consumed_example =
    frames_needed-eq-consumed up_to_48k 150 25 (omega arith) (omega arith)
