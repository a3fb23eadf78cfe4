-- ===== src/Async/Samples.antt =====
-- Samples and doubles as whole numbers that never go below 0, for the tests.
use sample_rate_tap.Common.{
  ℕ, ◌+◌, ◌-◌, ◌*◌, ◌/◌, ◌%◌, refl, arith, true, false, List, [], ◌∷◌, ltb, leb, ◌==◌, u64,
}
use native.Mathlib.Nat.{mod-lt}
use sample_rate_tap.Async.Servo.{Doubles, ServoConfig}
use sample_rate_tap.Async.Resampler.{Kernels}
use sample_rate_tap.Async.Config.{Casts, Config}
use sample_rate_tap.Async.Converter.Pull.{Scaling}
use sample_rate_tap.Async.Converter.Inv.{IsExact}

abbrev pub naturals : Doubles ℕ
naturals = record {
  nought = 0;
  one = 1;
  one_and_half = 1;
  two = 2;
  five = 5;
  micro = 1;
  pi = 3;
  design_rate = 48;
  plus = ◌+◌;
  minus = ◌-◌;
  times = ◌*◌;
  over = ◌/◌;
  negate = λ v. 0;
  exp = λ v. 0;
  abs = λ v. v;
  lt = ltb;
  le = leb;
  equal = ◌==◌;
}

abbrev pub tuned : ServoConfig ℕ
tuned = record {
  acquire_bandwidth_hz = 10;
  track_bandwidth_hz = 1;
  quiet_bandwidth_hz = 1;
  damping = 1;
  acquire_smoother_hz = 50;
  track_smoother_hz = 5;
  quiet_smoother_hz = 1;
  lock_threshold_frames = 4;
  lock_hold_seconds = 2;
  quiet_hold_seconds = 3;
  unlock_threshold_frames = 24;
  max_deviation_ppm = 1000;
}

abbrev pub dot : ℕ → List ℕ → List ℕ → ℕ
dot acc [] ys = acc
dot acc (x ∷ xs) [] = acc
dot acc (x ∷ xs) (y ∷ ys) = dot (acc + x * y) xs ys

abbrev pub numbers : Kernels ℕ ℕ ℕ ℕ ℕ
numbers = record {
  silence = 0;
  nil_coeff = 0;
  accum = 0;
  blend = λ a b fr. a;
  blend_factor_from_q64 = λ q. q;
  mac = λ acc v c. acc + v * c;
  finalize = λ acc. acc;
  dot_row = dot 0;
  nothing = 0;
  design = λ spec rate phases taps. [];
  quantize_row = λ xs. xs;
  prefer_dot_row = false;
}

abbrev pub casts : Casts ℕ ℕ
casts = record {
  is_finite = λ x. true;
  widest_ppm = 100000;
  million = 1000000;
  two_to_64 = 1;
  two_to_minus_64 = 0;
  of_size = λ n. n;
  to_size = λ x. x;
  to_int64 = λ x. x % u64;
  to_float = λ x. x;
  of_float = λ x. x;
}

abbrev pub plain : Scaling ℕ ℕ
plain = record { to_double = λ x. x; of_double = λ x. x }

pub naturals-IsExact : IsExact naturals casts
naturals-IsExact = record {
  compares = λ a b ha hb. refl;
  exceeds = λ a b ha hb. ground arith;
  excess = λ a b ha le. refl;
  word = λ x. mod-lt x (omega arith);
}

abbrev pub stereo : Config ℕ
stereo = record {
  sample_rate_hz = 100;
  channels = 2;
  target_latency_frames = 8;
  fifo_frames = 0;
  filter = record {
    num_phases = 2;
    taps_per_phase = 4;
    passband_hz = 10;
    stopband_hz = 20;
    stopband_atten_db = 60;
    image_zeros = false;
  };
  servo = tuned;
}
