-- ===== src/Bridge/Schedule/Entries.antt =====
-- The entries of the superblock: what the table holds, and how often it visits each phase.
use sample_rate_tap.Common.{
  ℕ, ◌+◌, ◌*◌, ◌/◌, ◌%◌, ◌≤◌, ◌<◌, ◌≡◌, ap, ◌∙◌, sym, arith, get_or-map_range, advance_of,
}
use sample_rate_tap.Bridge.Schedule.{
  Direction, up_to_48k, down_to_44k1, k_phases, k_decimation, ScheduleEntry, schedule_entry,
  k_schedule,
}

-- No cast of `make_schedule` drops a bit.
schedule_entry-exact :
    (d : Direction) (n : ℕ)
    → n < k_phases d
    → schedule_entry d n ≡ record {
      phase = n * k_decimation d % k_phases d;
      advance = advance_of (k_phases d) (k_decimation d) n;
    }
schedule_entry-exact up_to_48k n h = ground arith
schedule_entry-exact down_to_44k1 n h = ground arith

pub k_schedule_lem :
    (d : Direction) (pos : ℕ)
    → pos < k_phases d
    → k_schedule d pos ≡ record {
      phase = pos * k_decimation d % k_phases d;
      advance = advance_of (k_phases d) (k_decimation d) pos;
    }
unfolding k_schedule
k_schedule_lem d pos h =
    get_or-map_range (schedule_entry d) 0 (k_phases d) pos _ h
    ∙ ap (schedule_entry d) (omega arith)
    ∙ schedule_entry-exact d pos h

-- The inverse of M modulo L.
inverse : Direction → ℕ
inverse up_to_48k = 123
inverse down_to_44k1 = 34

phase_at : Direction → ℕ → ℕ
phase_at d n = (k_schedule d n).phase

phase_at_lem :
    (d : Direction) (n : ℕ) → n < k_phases d → phase_at d n ≡ n * k_decimation d % k_phases d
unfolding phase_at
phase_at_lem d n h = ap (λ (e : ScheduleEntry). e.phase) (k_schedule_lem d n h)

inverse_left :
    (d : Direction) (n : ℕ)
    → n < k_phases d
    → n * k_decimation d % k_phases d * inverse d % k_phases d ≡ n
unfolding inverse
inverse_left up_to_48k n h = omega arith
inverse_left down_to_44k1 n h = omega arith

inverse_right :
    (d : Direction) (p : ℕ)
    → p < k_phases d
    → p * inverse d % k_phases d * k_decimation d % k_phases d ≡ p
unfolding inverse
inverse_right up_to_48k p h = omega arith
inverse_right down_to_44k1 p h = omega arith

inverse-lt : (d : Direction) (p : ℕ) → p * inverse d % k_phases d < k_phases d
unfolding inverse
inverse-lt up_to_48k p = omega arith
inverse-lt down_to_44k1 p = omega arith

-- Each polyphase branch below L is the phase of exactly one entry of the superblock.
pub phase-visited_once :
    (d : Direction) (p : ℕ)
    → p < k_phases d
    → (n : ℕ) × (n < k_phases d)
      × ((k_schedule d n).phase ≡ p)
      × ((k : ℕ) → k < k_phases d → (k_schedule d k).phase ≡ p → k ≡ n)
unfolding phase_at
phase-visited_once d p h = (
  p * inverse d % k_phases d,
  inverse-lt d p,
  phase_at_lem d _ (inverse-lt d p) ∙ inverse_right d p h,
  λ k lt e.
      sym (inverse_left d k lt)
      ∙ ap (λ t. t * inverse d % k_phases d) (sym (phase_at_lem d k lt) ∙ e),
)

-- Going up, each output is followed by 0 or 1 inputs; going down, by 1 or 2.
pub advance_bounds :
    (d : Direction) (n : ℕ)
    → n < k_phases d
    → (k_decimation d / k_phases d ≤ (k_schedule d n).advance)
      × ((k_schedule d n).advance ≤ k_decimation d / k_phases d + 1)
advance_bounds up_to_48k n h = rw (k_schedule_lem up_to_48k n h) (omega arith, omega arith)
advance_bounds down_to_44k1 n h = rw (k_schedule_lem down_to_44k1 n h) (omega arith, omega arith)

pub advance-le_two : (d : Direction) (n : ℕ) → n < k_phases d → (k_schedule d n).advance ≤ 2
advance-le_two up_to_48k n h = omega (arith, (advance_bounds up_to_48k n h).1)
advance-le_two down_to_44k1 n h = omega (arith, (advance_bounds down_to_44k1 n h).1)
