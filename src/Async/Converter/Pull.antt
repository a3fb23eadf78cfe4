-- ===== src/Async/Converter/Pull.antt =====
-- async/include/tap/sr/async/converter.h, `pull`, in the parts that its comments name.
use sample_rate_tap.Common.{
  ℕ, zero, suc, ◌+◌, ◌-◌, ◌/◌, ◌%◌, ◌^◌, min, Bool, true, false, not, ◌&&◌, List, [], ◌∷◌, ◌++◌,
  map, length, replicate, ltb, ◌==◌, if◌then◌else◌, add_w, mul_w, u32,
}
use sample_rate_tap.Async.Ring
use sample_rate_tap.Async.Servo
use sample_rate_tap.Async.Servo.{Doubles}
use sample_rate_tap.Async.Resampler
use sample_rate_tap.Async.Resampler.{Kernels}
use sample_rate_tap.Async.Config.{Casts, fill_threshold, high_water}
use sample_rate_tap.Async.Converter.{
  Converter, k_fade_frames, raised_target, pop, mu, backlog_frames, publish_status,
}

-- `scale_sample`'s casts of a sample to a double and back, the latter by `round_sat` for integers.
pub record Scaling (S D : Type 0) : Type 0 where
  pub to_double : S → D
  pub of_double : D → S

module _ {S D F : Type 0} (d : Doubles D) (v : Casts D F) (g : Scaling S D) where
  abbrev pub scale_sample : D → S → S
  scale_sample gain x = g.of_double (d.times (g.to_double x) gain)

  -- The gain of the `i`-th frame behind a refill.
  abbrev pub fade_gain : ℕ → D
  fade_gain i = d.over (v.of_size (i + 1)) (v.of_size k_fade_frames)

  -- The ramp over the first `n` frames, the ramp being at `done`.
  unfoldable pub fade_frames : ℕ → ℕ → List (List S) → List (List S)
  fade_frames done zero out = out
  fade_frames done (suc n) [] = []
  fade_frames done (suc n) (x ∷ out) =
      map (scale_sample (fade_gain done)) x ∷ fade_frames (suc done) n out

  unfoldable pub apply_fade_in :
      {C : Type 0} → List (List S) → Converter S C D F → List (List S) × Converter S C D F
  apply_fade_in out c =
      let n = min (length out) c.fade_frames_left in
      (
        fade_frames (k_fade_frames - c.fade_frames_left) n out,
        record c { fade_frames_left = c.fade_frames_left - n },
      )

module _ {S C A B D F : Type 0} (bits : ℕ) (k : Kernels S C A B D) (d : Doubles D)
    (v : Casts D F) where
  -- The setpoint follows the largest pull.
  unfoldable pub raise_target : ℕ → Converter S C D F → Converter S C D F
  raise_target frames c =
      let new_target = raised_target bits frames c.cfg.target_latency_frames c.max_target_frames in
      let seen = record c { observed_max_pull = frames } in
      if ltb c.observed_max_pull frames
      then (if ltb c.target_frames new_target
          then record seen {
            target_frames = new_target;
            fill_threshold_frames = fill_threshold bits new_target c.bank.taps;
            high_water_frames = high_water bits new_target c.bank.taps;
            servo = Servo.set_target d (v.of_size new_target) c.servo;
            effective_target = new_target % u32;
          }
          else seen)
      else c

  -- The end of a fill: the filter's lines are filled from the ring.
  unfoldable pub restart : Converter S C D F → ℕ × Converter S C D F
  restart c =
      let (ok, x, r) =
        Resampler.prime k c.bank (pop bits k d v c.cfg.channels)
          (Resampler.reset k c.bank c.resampler) c.ring in
      let (occ, y) =
        backlog_frames bits k d v
          (record c { resampler = x; ring = r; servo = Servo.reset d true c.servo }) in
      (
        occ,
        record y {
          servo = Servo.seed d (v.of_size occ) y.servo;
          is_filling = false;
          fade_frames_left = k_fade_frames;
        },
      )

  -- The cast of a backlog's excess over the setpoint.
  unfoldable pub excess_frames : ℕ → ℕ → ℕ
  excess_frames occ target_frames =
      let excess = d.minus (v.of_size occ) (v.of_size target_frames) in
      if d.lt d.nought excess then v.to_size excess else 0

  -- The hard resync of a backlog `occ` above the high-water mark.
  unfoldable pub resync : ℕ → Converter S C D F → ℕ × Converter S C D F
  resync occ c =
      let (n, r) = Ring.read_available bits c.ring in
      let drop_frames = min (n / c.cfg.channels) (excess_frames occ c.target_frames) in
      let (m, r') = Ring.discard bits (mul_w (2 ^ bits) drop_frames c.cfg.channels) r in
      let (left, y) =
        backlog_frames bits k d v (record c { ring = r'; resyncs = add_w u32 c.resyncs 1 }) in
      (left, record y { servo = Servo.seed d (d.plus (v.of_size left) (mu bits k d v y)) y.servo })

  abbrev pub silent_frame : ℕ → List S
  silent_frame ch = replicate ch k.silence

  module _ (g : Scaling S D) where
    -- What `process` wrote, faded in while that lasts.
    unfoldable pub faded : List (List S) → Converter S C D F → List (List S) × Converter S C D F
    faded out c =
        if not (c.fade_frames_left == 0) && not (length out == 0)
        then apply_fade_in d v g out c
        else (out, c)

    -- An underrun: silence behind what was made, and back to filling.
    unfoldable pub padded :
        ℕ → List (List S) → Converter S C D F → List (List S) × Converter S C D F
    padded frames out c =
        if ltb (length out) frames
        then (
          out ++ replicate (frames - length out) (silent_frame c.cfg.channels),
          record c {
            underruns = add_w u32 c.underruns 1;
            is_filling = true;
            servo = Servo.reset d true c.servo;
          },
        )
        else (out, c)

    -- The part of `pull` behind the synthesis.
    unfoldable pub finish :
        ℕ → List (List S) → Converter S C D F → ℕ × List (List S) × Converter S C D F
    finish frames made c =
        let (out, y) = faded made c in
        let (whole, z) = padded frames out y in (length made, whole, publish_status bits k d v z)

    -- The part of `pull` behind the resync; the number is that of the frames made from input.
    unfoldable pub synthesize : ℕ → ℕ → Converter S C D F → ℕ × List (List S) × Converter S C D F
    synthesize frames occ c =
        let dt = d.over (v.of_size frames) c.cfg.sample_rate_hz in
        let (eps_hat, servo) = Servo.update d (v.of_size occ) (mu bits k d v c) dt c.servo in
        let (made, x, r) =
          Resampler.process_fixed k c.bank (pop bits k d v c.cfg.channels)
            (v.to_int64 (d.times eps_hat v.two_to_64)) frames c.resampler c.ring in
        finish frames made (record c { servo = servo; resampler = x; ring = r })

    -- With the backlog read, and the filter running.
    abbrev pub run : ℕ → ℕ → Converter S C D F → ℕ × List (List S) × Converter S C D F
    run frames occ c =
        let (occ', c') =
          if d.lt (v.of_size c.high_water_frames) (v.of_size occ) then resync occ c else (occ, c) in
        synthesize frames occ' c'

    -- With the backlog read.
    abbrev pub answer : Bool → ℕ → ℕ → Converter S C D F → ℕ × List (List S) × Converter S C D F
    answer false frames occ c = run frames occ c
    answer true frames occ c =
        if d.lt (v.of_size occ) (v.of_size c.fill_threshold_frames)
        then (0, replicate frames (silent_frame c.cfg.channels), publish_status bits k d v c)
        else let (occ', c') = restart c in run frames occ' c'

    unfoldable pub pull : ℕ → Converter S C D F → ℕ × List (List S) × Converter S C D F
    pull frames c0 =
        let (occ, c) = backlog_frames bits k d v (raise_target frames c0) in
        answer c.is_filling frames occ c
