-- ===== src/Async/Config/Tests.antt =====
-- Configurations that are accepted and rejected.
use sample_rate_tap.Common.{ℕ, ◌^◌, ◌≡◌, refl, none, some}
use sample_rate_tap.Async.Config.{
  Config, bad_config, sizes_overflow, fifo_too_small, validate, config_rejects, filter_rejects,
  edges_reject, servo_rejects, sizes_fit, ring_capacity_elems, high_water, fill_threshold,
  fifo_frames_of,
}
use sample_rate_tap.Async.Ring.{bit_ceil_from}
use sample_rate_tap.Async.Samples.{naturals, casts, stereo}

no_channels : validate 64 naturals casts (record stereo { channels = 0 }) ≡ some bad_config
unfolding validate config_rejects
no_channels = refl

small_fifo : validate 64 naturals casts (record stereo { fifo_frames = 16 }) ≡ some fifo_too_small
unfolding validate config_rejects filter_rejects edges_reject servo_rejects sizes_fit
    ring_capacity_elems high_water fill_threshold fifo_frames_of bit_ceil_from
small_fifo = refl

many_channels :
    validate 64 naturals casts (record stereo { channels = 2 ^ 60 }) ≡ some sizes_overflow
unfolding validate config_rejects filter_rejects edges_reject servo_rejects sizes_fit bit_ceil_from
many_channels = refl

-- 8 * channels wraps to 0, and so do the sums of the setpoint and the taps to small numbers: the sizes
-- overflow and the configuration is accepted.
abbrev wrapping : Config ℕ
wrapping = record stereo {
  channels = 2 ^ 61;
  target_latency_frames = 6148914691236517206;
  fifo_frames = 3;
  filter = record stereo.filter { taps_per_phase = 6148914691236517205 };
}

wrapping_accepted : validate 64 naturals casts wrapping ≡ none
unfolding validate config_rejects filter_rejects edges_reject servo_rejects sizes_fit
    ring_capacity_elems high_water fill_threshold fifo_frames_of bit_ceil_from
wrapping_accepted = refl
