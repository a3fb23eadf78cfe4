-- ===== src/Async/Converter/Tests.antt =====
-- A converter of two channels, built and called, and one of one channel that runs.
use sample_rate_tap.Common.{
  ℕ, zero, suc, ◌+◌, ◌%◌, ◌^◌, ◌<◌, ◌≡◌, ◌⊎◌, refl, sym, ◌∙◌, arith, true, false, none, some, List,
  [], ◌∷◌, length, replicate, get_elem?,
}
use native.Mathlib.Nat.{mod-lt}
use sample_rate_tap.Async.Ring.{SpscRing, bit_ceil_from}
use sample_rate_tap.Async.Ring.Inv.{Represents}
use sample_rate_tap.Async.Servo
use sample_rate_tap.Async.Resampler.{Frame, FilterBank, Resampler, prime, reset}
use sample_rate_tap.Async.Resampler.Simulate.{Fits}
use sample_rate_tap.Async.Resampler.Prime.{PrimedWith, prime-PrimedWith}
use sample_rate_tap.Async.Config.{
  validate, config_rejects, filter_rejects, edges_reject, servo_rejects, sizes_fit,
  ring_capacity_elems, high_water, fill_threshold, fifo_frames_of,
}
use sample_rate_tap.Async.Converter.{Converter, filling, frames_of, push}
use sample_rate_tap.Async.Converter.Pull.{pull}
use sample_rate_tap.Async.Converter.Inv.{Tracks}
use sample_rate_tap.Async.Converter.Push.{Pushed, push-Pushed}
use sample_rate_tap.Async.Converter.Whole.{Waits, Plays, pull-Plays}
use sample_rate_tap.Async.Converter.Enough.{pull-all}
use sample_rate_tap.Async.Converter.Restart.{queue}
use sample_rate_tap.Async.Converter.Construct.{Built, construct-Built}
use sample_rate_tap.Async.Converter.Session.{Call, offer, draw, clear}
use sample_rate_tap.Async.Samples.{naturals, numbers, casts, plain, naturals-IsExact, stereo}

stereo_valid : validate 64 naturals casts stereo ≡ none
unfolding validate config_rejects filter_rejects edges_reject servo_rejects sizes_fit
    ring_capacity_elems high_water fill_threshold fifo_frames_of bit_ceil_from
stereo_valid = refl

construct-Built_example : Built 64 numbers naturals casts stereo 0
unfolding fifo_frames_of fill_threshold
construct-Built_example =
    construct-Built 64 numbers naturals casts stereo 0 (omega arith) (omega arith) (omega arith)
      (omega arith) (omega arith) stereo_valid

sevens : List ℕ
sevens = replicate 12 7

abbrev seven : Frame ℕ
seven c = 7

abbrev held_ring : SpscRing ℕ
held_ring = record {
  buf = replicate 64 7;
  mask = 63;
  head = 12;
  tail_cache = 0;
  tail = 0;
  head_cache = 12;
}

get_elem?-replicate : (n i x : ℕ) → i < n → get_elem? (replicate n x) i ≡ some x
get_elem?-replicate zero i x lt = absurd (omega arith)
get_elem?-replicate (suc n) zero x lt = refl
get_elem?-replicate (suc n) (suc i) x lt = get_elem?-replicate n i x (omega arith)

held_ring-Represents : Represents 64 6 (replicate 12 7) held_ring
held_ring-Represents = record {
  fits = omega arith;
  sized = refl;
  ones = refl;
  written = 12;
  taken = 0;
  tail_seen = 0;
  head_seen = 12;
  head = refl;
  tail = refl;
  tail_cache = refl;
  head_cache = refl;
  old_tail = omega arith;
  old_head = omega arith;
  not_below = omega arith;
  not_above = omega arith;
  count = refl;
  element = λ i lt.
      get_elem?-replicate 64 ((0 + i) % 2 ^ 6) 7 (mod-lt (0 + i) (omega arith))
      ∙ sym (get_elem?-replicate 12 i 7 lt);
}

abbrev flat_bank : FilterBank ℕ
flat_bank = record {
  phases = 2;
  taps = 4;
  table = (1 ∷ 1 ∷ 1 ∷ 1 ∷ []) ∷ (1 ∷ 1 ∷ 1 ∷ 1 ∷ []) ∷ (0 ∷ 1 ∷ 1 ∷ 1 ∷ []) ∷ [];
}

abbrev lines : Resampler ℕ
lines = record {
  channels = 1;
  chunk = 16;
  hist_cap = 20;
  hist = λ c. replicate 20 7;
  end = 4;
  scratch = [];
  phase = 5;
  primed = true;
}

abbrev heard : List (Frame ℕ)
heard = seven ∷ seven ∷ seven ∷ seven ∷ []

abbrev waiting : List (Frame ℕ)
waiting = frames_of 0 1 12 (replicate 12 7)

abbrev running : Converter ℕ ℕ ℕ ℕ
running = record {
  cfg = record stereo { channels = 1 };
  bank = flat_bank;
  resampler = lines;
  ring = held_ring;
  servo = Servo.construct naturals stereo.servo 100 8;
  target_frames = 8;
  fill_threshold_frames = 12;
  high_water_frames = 24;
  max_target_frames = 20;
  observed_max_pull = 0;
  is_filling = false;
  fade_frames_left = 0;
  state = filling;
  ppm = 0;
  fill = 0;
  effective_target = 8;
  underruns = 0;
  overruns = 0;
  resyncs = 0;
}

lines-Fits : Fits numbers flat_bank 1 16 lines
lines-Fits = record { planar = refl; asks = refl; capacity = refl; staged = omega arith }

running-Tracks : Tracks 64 6 numbers heard waiting running
running-Tracks = record {
  word = omega arith;
  exact = omega arith;
  some_channels = omega arith;
  few_channels = omega arith;
  some_taps = omega arith;
  holding = record {
    samples = replicate 12 7;
    frames = 12;
    whole = refl;
    contents = refl;
    ring = held_ring-Represents;
  };
  setpoint = record {
    some_target = omega arith;
    within = omega arith;
    fills_at = refl;
    mark = refl;
    thrice = omega arith;
    twice = omega arith;
  };
  lowest = omega arith;
  fits = lines-Fits;
  sized = λ i. refl;
  phase = omega arith;
  unstaged = λ no. absurd (let e : false ≡ true = no in cc);
  running = λ on. record {
    some_taps = omega arith;
    room = omega arith;
    planar = refl;
    some_chunk = omega arith;
    held = record {
      sized = λ i. refl;
      low = omega arith;
      high = omega arith;
      window = λ i lt. refl;
    };
  };
  fading = omega arith;
}

pull-Plays_example :
    Waits 64 6 numbers naturals casts plain naturals-IsExact 3 heard waiting running
      (pull 64 numbers naturals casts plain 3 running)
    ⊎ Plays 64 6 numbers naturals casts plain naturals-IsExact 3 heard waiting running
        (pull 64 numbers naturals casts plain 3 running)
pull-Plays_example =
    pull-Plays 64 6 numbers naturals casts plain naturals-IsExact 3 heard waiting running
      running-Tracks

waiting_count : length waiting ≡ 12
unfolding frames_of
waiting_count = refl

pull-all_example :
    ((pull 64 numbers naturals casts plain 3 running).0 ≡ 3)
    × ((pull 64 numbers naturals casts plain 3 running).2.is_filling ≡ false)
    × ((pull 64 numbers naturals casts plain 3 running).2.underruns ≡ 0)
pull-all_example =
    pull-all 64 6 numbers naturals casts plain naturals-IsExact 3 heard waiting running
      running-Tracks refl (omega (arith, waiting_count)) (omega (arith, waiting_count))

push-Pushed_example :
    Pushed 64 6 numbers naturals casts heard waiting
      (1 ∷ 2 ∷ [])
      2
      running
      (push 64 numbers naturals casts (1 ∷ 2 ∷ []) 2 running)
push-Pushed_example =
    push-Pushed 64 6 numbers naturals casts heard waiting (1 ∷ 2 ∷ []) 2 running refl running-Tracks

abbrev session : List (Call ℕ)
session = offer 3 (λ i. i) ∷ draw 2 ∷ clear ∷ draw 1 ∷ []

some_taps : 0 < flat_bank.taps
some_taps = omega arith

some_chunk : 0 < 16
some_chunk = omega arith

prime-PrimedWith_example :
    PrimedWith numbers flat_bank 1 16 some_taps some_chunk queue lines heard
      (prime numbers flat_bank (queue).pop (reset numbers flat_bank lines) heard)
unfolding queue
prime-PrimedWith_example =
    prime-PrimedWith numbers flat_bank 1 16 some_taps some_chunk queue lines heard lines-Fits
      (λ i. refl) (omega arith)
