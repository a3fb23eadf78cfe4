-- ===== src/Async/Converter/Raise.antt =====
-- What a raise of the setpoint, a refill and a resync leave as it was, and the setpoint that they play with.
use sample_rate_tap.Common.{
  ℕ, ◌+◌, ◌≡◌, refl, ap, arith, inl, inr, false, List, ltb, max, if◌then◌else◌, ◌*◌, add_w, u32,
  ge→ltb, Bool-cases,
}
use sample_rate_tap.Async.Servo
use sample_rate_tap.Async.Servo.{Doubles, PiServo}
use sample_rate_tap.Async.Resampler.{Kernels, Frame}
use sample_rate_tap.Async.Config.{Casts}
use sample_rate_tap.Async.Converter.{Converter, raised_target, backlog_frames, publish_status, mu}
use sample_rate_tap.Async.Converter.Pull.{raise_target, restart, resync}
use sample_rate_tap.Async.Converter.Inv.{Tracks}
use sample_rate_tap.Async.Converter.Steps.{raise_target-Tracks}

-- The filter and its fade are as they were.
pub record SameFilter {S C D F : Type 0} (c c' : Converter S C D F) : Type 0 where
  pub same_cfg : c'.cfg ≡ c.cfg
  pub same_bank : c'.bank ≡ c.bank
  pub same_resampler : c'.resampler ≡ c.resampler
  pub same_fade : c'.fade_frames_left ≡ c.fade_frames_left
  pub same_filling : c'.is_filling ≡ c.is_filling
  pub same_underruns : c'.underruns ≡ c.underruns

-- The setpoint that a call asking for `frames` plays with, and its marks: the setpoint follows the
-- largest pull seen, within the FIFO's limit, and never falls.
pub record Raised {S C D F : Type 0} (bits frames : ℕ) (c c' : Converter S C D F) : Type 0 where
  pub target : c'.target_frames ≡ (
      if ltb c.observed_max_pull frames
      then max c.target_frames
          (raised_target bits frames c.cfg.target_latency_frames c.max_target_frames)
      else c.target_frames)
  pub threshold : c'.fill_threshold_frames ≡ c'.target_frames + c.bank.taps
  pub high : c'.high_water_frames ≡ max (3 * c'.target_frames) (2 * c'.target_frames + c.bank.taps)
  pub observed : c'.observed_max_pull ≡ max c.observed_max_pull frames
  pub resyncs : c'.resyncs ≡ c.resyncs
  pub underruns : c'.underruns ≡ c.underruns

module _ {S C A B D F : Type 0} (bits log : ℕ) (k : Kernels S C A B D) (d : Doubles D)
    (v : Casts D F) where
  -- The servo that a call plays with, before a fill or a resync seeds it: a raise gives it the setpoint.
  abbrev pub raised_servo : ℕ → Converter S C D F → PiServo D
  raised_servo target c =
      if ltb c.target_frames target then Servo.set_target d (v.of_size target) c.servo else c.servo

  pub raise_target-servo :
      (frames : ℕ) (c : Converter S C D F)
      → let y = raise_target bits k d v frames c in y.servo ≡ raised_servo y.target_frames c
  unfolding raise_target
  raise_target-servo frames c =
      let t = raised_target bits frames c.cfg.target_latency_frames c.max_target_frames in
      let level : ltb c.target_frames c.target_frames ≡ false =
        ge→ltb c.target_frames c.target_frames (omega arith) in
      elim (Bool-cases (ltb c.observed_max_pull frames)) [
        | inr seen ↦ rw (seen, level) refl
        | inl larger ↦ rw larger (elim (Bool-cases (ltb c.target_frames t)) [
          | inr enough ↦ rw (enough, level) refl
          | inl raised ↦ rw (raised, raised) refl
        ])
      ]

  pub backlog-servo : (x : Converter S C D F) → (backlog_frames bits k d v x).1.servo ≡ x.servo
  unfolding backlog_frames
  backlog-servo x = refl

  pub resync-servo :
      (occ : ℕ) (c : Converter S C D F)
      → let r = resync bits k d v occ c in
        r.1.servo ≡ Servo.seed d (d.plus (v.of_size r.0) (mu bits k d v c)) c.servo
  unfolding resync backlog_frames
  resync-servo occ c = refl

  pub SameFilter-refl : (c : Converter S C D F) → SameFilter c c
  SameFilter-refl c = record {
    same_cfg = refl;
    same_bank = refl;
    same_resampler = refl;
    same_fade = refl;
    same_filling = refl;
    same_underruns = refl;
  }

  pub raise_target-SameFilter :
      (frames : ℕ) (c : Converter S C D F) → SameFilter c (raise_target bits k d v frames c)
  unfolding raise_target
  raise_target-SameFilter frames c =
      let t = raised_target bits frames c.cfg.target_latency_frames c.max_target_frames in
      elim (Bool-cases (ltb c.observed_max_pull frames)) [
        | inr seen ↦ rw seen (SameFilter-refl c)
        | inl larger ↦ rw larger (elim (Bool-cases (ltb c.target_frames t)) [
          | inr enough ↦ rw enough record {
            same_cfg = refl;
            same_bank = refl;
            same_resampler = refl;
            same_fade = refl;
            same_filling = refl;
            same_underruns = refl;
          }
          | inl raised ↦ rw raised record {
            same_cfg = refl;
            same_bank = refl;
            same_resampler = refl;
            same_fade = refl;
            same_filling = refl;
            same_underruns = refl;
          }
        ])
      ]

  pub resync-SameFilter :
      (occ : ℕ) (c : Converter S C D F) → SameFilter c (resync bits k d v occ c).1
  unfolding resync backlog_frames
  resync-SameFilter occ c = record {
    same_cfg = refl;
    same_bank = refl;
    same_resampler = refl;
    same_fade = refl;
    same_filling = refl;
    same_underruns = refl;
  }

  pub backlog-SameFilter :
      (c x : Converter S C D F) → SameFilter c x → SameFilter c (backlog_frames bits k d v x).1
  unfolding backlog_frames
  backlog-SameFilter c x h = record {
    same_cfg = h.same_cfg;
    same_bank = h.same_bank;
    same_resampler = h.same_resampler;
    same_fade = h.same_fade;
    same_filling = h.same_filling;
    same_underruns = h.same_underruns;
  }

  pub backlog-resampler :
      (x : Converter S C D F) → (backlog_frames bits k d v x).1.resampler ≡ x.resampler
  unfolding backlog_frames
  backlog-resampler x = refl

  pub backlog-target :
      (x : Converter S C D F) → (backlog_frames bits k d v x).1.target_frames ≡ x.target_frames
  unfolding backlog_frames
  backlog-target x = refl

  pub restart-same :
      (c : Converter S C D F)
      → ((restart bits k d v c).1.cfg ≡ c.cfg)
        × ((restart bits k d v c).1.bank ≡ c.bank)
        × ((restart bits k d v c).1.fill_threshold_frames ≡ c.fill_threshold_frames)
        × ((restart bits k d v c).1.high_water_frames ≡ c.high_water_frames)
        × ((restart bits k d v c).1.target_frames ≡ c.target_frames)
  unfolding restart backlog_frames
  restart-same c = (refl, refl, refl, refl, refl)

  pub backlog-Raised :
      (frames : ℕ) (c x : Converter S C D F)
      → Raised bits frames c x
      → Raised bits frames c (backlog_frames bits k d v x).1
  unfolding backlog_frames
  backlog-Raised frames c x h = record {
    target = h.target;
    threshold = h.threshold;
    high = h.high;
    observed = h.observed;
    resyncs = h.resyncs;
    underruns = h.underruns;
  }

  pub restart-Raised :
      (frames : ℕ) (c x : Converter S C D F)
      → Raised bits frames c x
      → Raised bits frames c (restart bits k d v x).1
  unfolding restart backlog_frames
  restart-Raised frames c x h = record {
    target = h.target;
    threshold = h.threshold;
    high = h.high;
    observed = h.observed;
    resyncs = h.resyncs;
    underruns = h.underruns;
  }

  pub publish-Raised :
      (frames : ℕ) (c x : Converter S C D F)
      → Raised bits frames c x
      → SameFilter c x
      → Raised bits frames c (publish_status bits k d v x)
        × SameFilter c (publish_status bits k d v x)
  unfolding publish_status
  publish-Raised frames c x h s = (
    record {
      target = h.target;
      threshold = h.threshold;
      high = h.high;
      observed = h.observed;
      resyncs = h.resyncs;
      underruns = h.underruns;
    },
    record {
      same_cfg = s.same_cfg;
      same_bank = s.same_bank;
      same_resampler = s.same_resampler;
      same_fade = s.same_fade;
      same_filling = s.same_filling;
      same_underruns = s.same_underruns;
    },
  )

  pub resync-resyncs :
      (occ : ℕ) (c : Converter S C D F)
      → ((resync bits k d v occ c).1.resyncs ≡ add_w u32 c.resyncs 1)
        × ((resync bits k d v occ c).1.target_frames ≡ c.target_frames)
  unfolding resync backlog_frames
  resync-resyncs occ c = (refl, refl)

  pub raise_target_lem :
      (frames : ℕ) (c : Converter S C D F)
      → let y = raise_target bits k d v frames c in
        (y.target_frames ≡ (
          if ltb c.observed_max_pull frames
          then max c.target_frames
              (raised_target bits frames c.cfg.target_latency_frames c.max_target_frames)
          else c.target_frames))
        × (y.observed_max_pull ≡ max c.observed_max_pull frames)
        × (y.resyncs ≡ c.resyncs)
  unfolding raise_target
  raise_target_lem frames c =
      let t = raised_target bits frames c.cfg.target_latency_frames c.max_target_frames in
      elim (Bool-cases (ltb c.observed_max_pull frames)) [
        | inr seen ↦ rw seen (refl, ground arith, refl)
        | inl larger ↦ rw larger (elim (Bool-cases (ltb c.target_frames t)) [
          | inr enough ↦ rw enough (ground arith, ground arith, refl)
          | inl raised ↦ rw raised (ground arith, ground arith, refl)
        ])
      ]

  pub raise_target-Raised :
      (frames : ℕ) (past q : List (Frame S)) (c : Converter S C D F)
      → Tracks bits log k past q c
      → Raised bits frames c (raise_target bits k d v frames c)
  raise_target-Raised frames past q c h =
      let (on, not_lower) = raise_target-Tracks bits log k d v h frames in
      let same = ap (λ b. b.taps) (raise_target-SameFilter frames c).same_bank in
      let (target, observed, resyncs) = raise_target_lem frames c in
      record {
        target = target;
        threshold = omega (arith, on.setpoint.fills_at);
        high = omega (arith, on.setpoint.mark);
        observed = observed;
        resyncs = resyncs;
        underruns = (raise_target-SameFilter frames c).same_underruns;
      }
