-- ===== src/Async/Converter/Steps.antt =====
-- What the parts of `pull` and of a reset do to the frames that a converter holds.
use mathlib.Core.Path.{subst}
use native.Mathlib.Nat.{div-le_self, mul-le-mul_right}
use sample_rate_tap.Common.{
  ℕ, ◌+◌, ◌-◌, ◌*◌, ◌%◌, ◌^◌, ◌≤◌, ◌<◌, ◌≡◌, ap, ◌∙◌, arith, inl, inr, min, max, List, length,
  length-drop, drop, ltb, ltb→lt, lt→ltb, Bool-cases, add_w, add_w-eq, mul_w, mul_w-eq, u32,
}
use sample_rate_tap.Async.Ring
use sample_rate_tap.Async.Ring.{SpscRing}
use sample_rate_tap.Async.Ring.Mask.{pow_pos, pow_mono}
use sample_rate_tap.Async.Ring.Inv.{room_below}
use sample_rate_tap.Async.Servo
use sample_rate_tap.Async.Servo.{Doubles, PiServo}
use sample_rate_tap.Async.Resampler.{Kernels, Frame}
use sample_rate_tap.Async.Config.{Casts, fill_threshold, high_water}
use sample_rate_tap.Async.Converter.{
  Converter, ConverterState, k_pop_chunk_frames, raised_target, backlog_frames,
}
use sample_rate_tap.Async.Converter.Pull.{raise_target, excess_frames, resync}
use sample_rate_tap.Async.Converter.Fifo.{
  Holding, frames_below, drop-min, length-cap, read_available-Holding, discard-Holding,
}
use sample_rate_tap.Async.Converter.Inv.{IsExact, cap_frames, Tracks}

module _ {S C A B D F : Type 0} (bits log : ℕ) (k : Kernels S C A B D) where
  -- The members that say nothing of the frames.
  pub Tracks-dressed :
      {past q : List (Frame S)} {c : Converter S C D F} (servo : PiServo D) (state : ConverterState)
      (ppm fill : F) (observed effective underruns overruns resyncs : ℕ)
      → Tracks bits log k past q c
      → Tracks bits log k past q (record c {
        servo = servo;
        state = state;
        ppm = ppm;
        fill = fill;
        observed_max_pull = observed;
        effective_target = effective;
        underruns = underruns;
        overruns = overruns;
        resyncs = resyncs;
      })
  Tracks-dressed servo state ppm fill observed effective underruns overruns resyncs h = record {
    word = h.word;
    exact = h.exact;
    some_channels = h.some_channels;
    few_channels = h.few_channels;
    some_taps = h.some_taps;
    holding = h.holding;
    setpoint = h.setpoint;
    lowest = h.lowest;
    fits = h.fits;
    sized = h.sized;
    phase = h.phase;
    unstaged = h.unstaged;
    running = h.running;
    fading = h.fading;
  }

  pub Tracks-ring :
      {past q q' : List (Frame S)} {c : Converter S C D F} {r : SpscRing S}
      → Holding bits log c.cfg.channels k.silence r q'
      → Tracks bits log k past q c
      → Tracks bits log k past q' (record c { ring = r })
  Tracks-ring on h = record {
    word = h.word;
    exact = h.exact;
    some_channels = h.some_channels;
    few_channels = h.few_channels;
    some_taps = h.some_taps;
    holding = on;
    setpoint = h.setpoint;
    lowest = h.lowest;
    fits = h.fits;
    sized = h.sized;
    phase = h.phase;
    unstaged = h.unstaged;
    running = h.running;
    fading = h.fading;
  }

  module _ {past q : List (Frame S)} {c : Converter S C D F} (h : Tracks bits log k past q c) where
    -- The number of frames that wait, in the ring and staged.
    pub length-waiting :
        length q + length c.resampler.scratch ≤ cap_frames bits log k c + k_pop_chunk_frames
    length-waiting = omega (
      arith,
      length-cap bits log c.cfg.channels k.silence h.some_channels h.holding,
      h.fits.staged,
    )

    pub cap-small : cap_frames bits log k c ≤ 2 ^ 52
    cap-small = omega (arith, div-le_self (2 ^ log) c.cfg.channels, pow_mono log 52 h.exact)

    pub cap-fits : cap_frames bits log k c + k_pop_chunk_frames < 2 ^ bits
    cap-fits = omega (
      arith,
      div-le_self (2 ^ log) c.cfg.channels,
      room_below bits log h.holding.ring.fits,
      pow_mono 32 bits h.word,
    )

    pub waiting-small : length q + length c.resampler.scratch ≤ 2 ^ 53
    waiting-small = omega (arith, length-waiting, cap-small)

    pub backlog_frames_lem :
        (d : Doubles D) (v : Casts D F)
        → ((backlog_frames bits k d v c).0 ≡ length q + length c.resampler.scratch)
          × Tracks bits log k past q (backlog_frames bits k d v c).1
    unfolding backlog_frames
    backlog_frames_lem d v =
        let (count, on) =
          read_available-Holding bits log c.cfg.channels k.silence h.some_channels h.holding in
        (
          rw count (
              add_w-eq (2 ^ bits) (length q) (length c.resampler.scratch)
                (omega (arith, length-waiting, cap-fits))),
          Tracks-ring on h,
        )

-- The marks of a setpoint do not wrap where the FIFO has room for them.
pub marks :
    (bits target taps : ℕ)
    → 3 * target < 2 ^ bits
    → 2 * target + taps < 2 ^ bits
    → (fill_threshold bits target taps ≡ target + taps)
      × (high_water bits target taps ≡ max (3 * target) (2 * target + taps))
unfolding fill_threshold high_water
marks bits target taps thrice twice =
    let first : add_w (2 ^ bits) target taps ≡ target + taps =
      add_w-eq (2 ^ bits) target taps (omega arith) in
    let second : add_w (2 ^ bits) (target + taps) target ≡ target + taps + target =
      add_w-eq (2 ^ bits) (target + taps) target (omega arith) in
    let third : mul_w (2 ^ bits) 3 target ≡ 3 * target = mul_w-eq (2 ^ bits) 3 target thrice in
    (first, rw (first, second, third) (omega arith))

raised_target-le :
    (bits frames lo hi : ℕ)
    → lo ≤ hi
    → (lo ≤ raised_target bits frames lo hi) × (raised_target bits frames lo hi ≤ hi)
unfolding raised_target
raised_target-le bits frames lo hi le = ground arith

module _ {S C A B D F : Type 0} (bits log : ℕ) (k : Kernels S C A B D) (d : Doubles D)
    (v : Casts D F) {past q : List (Frame S)} {c : Converter S C D F}
    (h : Tracks bits log k past q c) where
  higher-Tracks :
      (t eff : ℕ) (servo : PiServo D)
      → c.target_frames < t
      → t ≤ c.max_target_frames
      → Tracks bits log k past q (record c {
        observed_max_pull = eff;
        target_frames = t;
        fill_threshold_frames = fill_threshold bits t c.bank.taps;
        high_water_frames = high_water bits t c.bank.taps;
        servo = servo;
        effective_target = t % u32;
      })
  higher-Tracks t eff servo gt le =
      let p = h.setpoint in
      let fit = cap-fits bits log k h in
      let m =
        marks bits t c.bank.taps (let a = p.thrice in omega arith)
          (let a = p.twice in omega arith) in
      record {
        word = h.word;
        exact = h.exact;
        some_channels = h.some_channels;
        few_channels = h.few_channels;
        some_taps = h.some_taps;
        holding = h.holding;
        setpoint = record {
          some_target = omega arith;
          within = le;
          fills_at = m.0;
          mark = m.1;
          thrice = p.thrice;
          twice = p.twice;
        };
        lowest = omega (arith, h.lowest);
        fits = h.fits;
        sized = h.sized;
        phase = h.phase;
        unstaged = h.unstaged;
        running = h.running;
        fading = h.fading;
      }

  -- A raise of the setpoint leaves the frames alone, and never lowers it.
  pub raise_target-Tracks :
      (frames : ℕ)
      → Tracks bits log k past q (raise_target bits k d v frames c)
        × (c.target_frames ≤ (raise_target bits k d v frames c).target_frames)
  unfolding raise_target
  raise_target-Tracks frames =
      let t = raised_target bits frames c.cfg.target_latency_frames c.max_target_frames in
      let (low, high) =
        raised_target-le bits frames c.cfg.target_latency_frames c.max_target_frames
          (omega (arith, h.lowest, h.setpoint.within)) in
      elim (Bool-cases (ltb c.observed_max_pull frames)) [
        | inr seen ↦ rw seen (h, omega arith)
        | inl larger ↦ rw larger (elim (Bool-cases (ltb c.target_frames t)) [
          | inr enough ↦ rw enough (
            Tracks-dressed bits log k c.servo c.state c.ppm c.fill frames c.effective_target
                c.underruns c.overruns c.resyncs h,
            omega arith,
          )
          | inl raised ↦ rw raised (
            higher-Tracks t frames (Servo.set_target d (v.of_size t) c.servo)
                (ltb→lt c.target_frames t raised) high,
            ground arith,
          )
        ])
      ]

  module _ (exact : IsExact d v) where
    excess_frames_lem :
        (occ target : ℕ)
        → target < occ
        → occ ≤ 2 ^ 53
        → excess_frames bits k d v occ target ≡ occ - target
    unfolding excess_frames
    excess_frames_lem occ target over small =
        rw (exact.exceeds occ target small (omega arith), lt→ltb target occ over)
          (exact.excess occ target small (omega arith))

    -- A resync drops the oldest frames of the ring, down to the setpoint or to what is staged.
    pub resync-Tracks :
        (occ : ℕ)
        → occ ≡ length q + length c.resampler.scratch
        → c.high_water_frames < occ
        → Tracks bits log k past (drop (occ - c.target_frames) q) (resync bits k d v occ c).1
          × ((resync bits k d v occ c).0 ≡ max c.target_frames (length c.resampler.scratch))
    unfolding resync
    resync-Tracks occ is over =
        let ch = c.cfg.channels in
        let above : c.target_frames < occ = omega (arith, h.setpoint.mark) in
        let (count, on) = read_available-Holding bits log ch k.silence h.some_channels h.holding in
        let lost =
          excess_frames_lem occ c.target_frames above (omega (arith, waiting-small bits log k h)) in
        let n = min (length q) (occ - c.target_frames) in
        let part : n * ch ≤ length q * ch = mul-le-mul_right ch (omega arith) in
        let exact_size : mul_w (2 ^ bits) n ch ≡ n * ch = mul_w-eq (2 ^ bits) n ch (
          omega (
            arith,
            frames_below bits log ch k.silence h.some_channels h.holding,
            room_below bits log h.holding.ring.fits,
            pow_pos log,
          )) in
        let rest = discard-Holding bits log ch k.silence h.some_channels on n (omega arith) in
        let same : drop n q ≡ drop (occ - c.target_frames) q =
          ap (λ t. drop t q) (let e : n ≡ min (occ - c.target_frames) (length q) = omega arith in e)
          ∙ drop-min (occ - c.target_frames) q in
        let r' = (Ring.discard bits (n * ch) (Ring.read_available bits c.ring).1).1 in
        let y = record c { ring = r'; resyncs = add_w u32 c.resyncs 1 } in
        let y-Tracks : Tracks bits log k past (drop (occ - c.target_frames) q) y =
          Tracks-dressed bits log k c.servo c.state c.ppm c.fill c.observed_max_pull
            c.effective_target c.underruns c.overruns (add_w u32 c.resyncs 1)
            (Tracks-ring bits log k (subst (λ z. Holding bits log ch k.silence r' z) same rest)
              h) in
        let (left, after) = backlog_frames_lem bits log k y-Tracks d v in
        rw (count, lost, exact_size)
          (
            Tracks-dressed bits log k _ _ _ _ _ _ _ _ _ after,
            left ∙ omega (arith, length-drop (occ - c.target_frames) q),
          )
