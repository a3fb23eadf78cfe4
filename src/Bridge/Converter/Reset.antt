-- ===== src/Bridge/Converter/Reset.antt =====
-- The start of a stream.
use sample_rate_tap.Common.{
  ℕ, ◌+◌, ◌*◌, ◌/◌, ◌%◌, ◌<◌, ◌≡◌, refl, [], arith, length, length-replicate, Holds-silent,
}
use sample_rate_tap.Bridge.Schedule.{Direction, up_to_48k, down_to_44k1, k_phases, k_decimation}
use sample_rate_tap.Bridge.Table.{PhaseTable}
use sample_rate_tap.Bridge.Converter.{Kernels, Converter, reset, allocated, construct, k_hist_slack}
use sample_rate_tap.Bridge.Converter.Stream.{InStream}

start_cursor : (d : Direction) → 0 ≡ 0 % k_phases d
start_cursor up_to_48k = omega arith
start_cursor down_to_44k1 = omega arith

start_owed : (d : Direction) → 1 + 0 ≡ 0 * k_decimation d / k_phases d + 1
start_owed up_to_48k = omega arith
start_owed down_to_44k1 = omega arith

module _ {S C : Type 0} (k : Kernels S C) (d : Direction) where
  -- `reset` puts any converter with its histories in place at the start of a stream.
  pub reset-InStream :
      (c : Converter S C)
      → 0 < c.table.taps
      → c.hist_cap ≡ c.table.taps + k_hist_slack
      → ((i : ℕ) → length (c.hist i) ≡ c.hist_cap)
      → InStream k d 0 [] (reset k c)
  unfolding reset
  reset-InStream c some_taps room sized = record {
    some_taps = some_taps;
    room = room;
    held = Holds-silent k.silence c.table.taps c.hist_cap c.channels c.hist sized (omega arith);
    cursor = start_cursor d;
    owed = start_owed d;
    small = omega arith;
  }

  -- So does construction, for any table with taps.
  pub construct-InStream :
      (t : PhaseTable C) (channels : ℕ) → 0 < t.taps → InStream k d 0 [] (construct k t channels)
  unfolding construct
  construct-InStream t channels some_taps =
      reset-InStream (allocated k t channels) some_taps refl
        (λ i. length-replicate (t.taps + k_hist_slack) k.silence)
