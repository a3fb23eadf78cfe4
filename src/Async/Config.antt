-- ===== src/Async/Config.antt =====
-- async/include/tap/sr/async/converter.h: `config`, its validation, and the sizes of the FIFO. A
-- `std::size_t` has `bits` bits, and its arithmetic wraps.
mod Tests
use sample_rate_tap.Common.{
  ℕ, ◌+◌, ◌-◌, ◌/◌, ◌^◌, max, Bool, not, ◌||◌, ◌&&◌, Option, none, some, ltb, leb, ◌==◌,
  if◌then◌else◌, add_w, mul_w,
}
use sample_rate_tap.Async.Ring.{bit_ceil}
use sample_rate_tap.Async.Servo
use sample_rate_tap.Async.Servo.{Doubles, ServoConfig}
use sample_rate_tap.Async.Resampler
use sample_rate_tap.Async.Resampler.{FilterSpec}

-- What more the converter does with a `double`: the casts, and the published `float` of type `F`.
pub record Casts (D F : Type 0) : Type 0 where
  pub is_finite : D → Bool
  pub widest_ppm : D  -- 100000.0
  pub million : D  -- 1e6
  pub two_to_64 : D  -- 0x1p64
  pub two_to_minus_64 : D  -- 0x1p-64
  pub of_size : ℕ → D
  pub to_size : D → ℕ
  pub to_int64 : D → ℕ  -- as the two's complement number
  pub to_float : D → F
  pub of_float : F → D

pub record Config (D : Type 0) : Type 0 where
  pub sample_rate_hz : D
  pub channels : ℕ
  pub target_latency_frames : ℕ
  pub fifo_frames : ℕ
  pub filter : FilterSpec D
  pub servo : ServoConfig D

-- The texts of the rejections.
pub data Reason : Type 0 where
  bad_config : Reason
  bad_filter_spec : Reason
  bad_bank : Reason
  image_zeros_need_taps : Reason
  bad_band_edges : Reason
  bad_servo_config : Reason
  sizes_overflow : Reason
  fifo_too_small : Reason

module _ (bits : ℕ) where
  unfoldable pub fill_threshold : ℕ → ℕ → ℕ
  fill_threshold target taps = add_w (2 ^ bits) target taps

  unfoldable pub high_water : ℕ → ℕ → ℕ
  unfolding fill_threshold
  high_water target taps =
      max (mul_w (2 ^ bits) 3 target) (add_w (2 ^ bits) (fill_threshold target taps) target)

  -- The FIFO's frames before they are rounded up.
  unfoldable pub fifo_frames_of : ℕ → ℕ → ℕ → ℕ
  unfolding fill_threshold
  fifo_frames_of fifo_frames target taps =
      if fifo_frames == 0
      then max 1024 (mul_w (2 ^ bits) 4 (fill_threshold target taps))
      else fifo_frames

  unfoldable pub ring_capacity_elems : {D : Type 0} → Config D → ℕ → ℕ
  ring_capacity_elems cfg taps = bit_ceil bits (
      mul_w (2 ^ bits) (fifo_frames_of cfg.fifo_frames cfg.target_latency_frames taps) cfg.channels)

  -- `a <= std::numeric_limits<std::size_t>::max() / b`.
  abbrev pub mul_ok : ℕ → ℕ → Bool
  mul_ok a b = (b == 0) || leb a ((2 ^ bits - 1) / b)

  module _ {D F : Type 0} (d : Doubles D) (v : Casts D F) where
    unfoldable pub for_sample_rate : Config D → D → Config D
    for_sample_rate defaults sample_rate_hz = record defaults {
      sample_rate_hz = sample_rate_hz;
      filter = Resampler.scaled_to d sample_rate_hz defaults.filter;
      servo = Servo.scaled_to d sample_rate_hz defaults.servo;
    }

    unfoldable pub config_rejects : Config D → Bool
    config_rejects cfg =
        (cfg.channels == 0)
        || (cfg.target_latency_frames == 0)
        || not (v.is_finite cfg.sample_rate_hz)
        || d.le cfg.sample_rate_hz d.nought

    unfoldable pub filter_rejects : Config D → Bool
    filter_rejects cfg =
        not (v.is_finite cfg.filter.passband_hz)
        || not (v.is_finite cfg.filter.stopband_hz)
        || not (v.is_finite cfg.filter.stopband_atten_db)
        || d.lt cfg.sample_rate_hz (d.plus cfg.filter.passband_hz cfg.filter.stopband_hz)

    unfoldable pub edges_reject : FilterSpec D → D → Bool
    edges_reject f sample_rate_hz =
        d.le f.passband_hz d.nought
        || d.le f.stopband_hz f.passband_hz
        || d.lt sample_rate_hz f.stopband_hz

    unfoldable pub servo_rejects : ServoConfig D → Bool
    servo_rejects sv =
        not (v.is_finite sv.acquire_bandwidth_hz)
        || not (v.is_finite sv.track_bandwidth_hz)
        || not (v.is_finite sv.quiet_bandwidth_hz)
        || not (v.is_finite sv.damping)
        || not (v.is_finite sv.acquire_smoother_hz)
        || not (v.is_finite sv.track_smoother_hz)
        || not (v.is_finite sv.quiet_smoother_hz)
        || not (v.is_finite sv.lock_threshold_frames)
        || not (v.is_finite sv.lock_hold_seconds)
        || not (v.is_finite sv.quiet_hold_seconds)
        || not (v.is_finite sv.unlock_threshold_frames)
        || not (v.is_finite sv.max_deviation_ppm)
        || d.le sv.max_deviation_ppm d.nought
        || d.lt v.widest_ppm sv.max_deviation_ppm

    unfoldable pub sizes_fit : Config D → ℕ → Bool
    sizes_fit cfg phases =
        let w = 2 ^ bits in
        mul_ok (add_w w phases 1) cfg.filter.taps_per_phase
        && mul_ok (add_w w cfg.target_latency_frames cfg.filter.taps_per_phase)
            (mul_w w 8 cfg.channels)
        && mul_ok cfg.fifo_frames (mul_w w 2 cfg.channels)

    -- `config::validate`; `none` is the null pointer.
    unfoldable pub validate : Config D → Option Reason
    validate cfg =
        let f = cfg.filter in
        let phases = bit_ceil bits f.num_phases in
        let taps = f.taps_per_phase in
        if config_rejects cfg
        then some bad_config
        else if filter_rejects cfg
        then some bad_filter_spec
        else if ltb taps 4 || ltb phases 2
        then some bad_bank
        else if f.image_zeros && ltb taps 8
        then some image_zeros_need_taps
        else if edges_reject f cfg.sample_rate_hz
        then some bad_band_edges
        else if servo_rejects cfg.servo
        then some bad_servo_config
        else if not (sizes_fit cfg phases)
        then some sizes_overflow
        else if leb (ring_capacity_elems cfg taps / cfg.channels)
            (high_water cfg.target_latency_frames taps)
        then some fifo_too_small
        else none
