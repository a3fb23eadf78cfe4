-- ===== src/Async/Converter/Session.antt =====
-- The two threads' calls, and what a sequence of them leaves in hand.
use sample_rate_tap.Common.{
  length, ◌≤◌, ℕ, ◌*◌, ◌≡◌, refl, arith, true, false, List, [], ◌∷◌, ◌++◌, map, range_from, ◌+◌,
  ◌%◌, u32, take, ap,
}
use sample_rate_tap.Async.Servo.{Doubles}
use sample_rate_tap.Async.Resampler
use sample_rate_tap.Async.Resampler.{Kernels, Frame}
use sample_rate_tap.Async.Config.{Casts}
use sample_rate_tap.Async.Converter.{
  Converter, push, frames_of, publish_status, reset_from_consumer,
}
use sample_rate_tap.Async.Converter.Pull.{Scaling, pull}
use sample_rate_tap.Async.Converter.Inv.{Tracks}
use sample_rate_tap.Async.Converter.Fifo.{drain-Holding}
use sample_rate_tap.Async.Converter.Heard.{Heard}

-- `push` of so many frames, given by their samples in order; `pull`; `reset_from_consumer`.
pub data Call (S : Type 0) : Type 0 where
  offer : ℕ → (ℕ → S) → Call S
  draw : ℕ → Call S
  clear : Call S

module _ {S C A B D F : Type 0} (bits log : ℕ) (k : Kernels S C A B D) (d : Doubles D)
    (v : Casts D F) (g : Scaling S D) where
  unfoldable pub call_step : Call S → Converter S C D F → Converter S C D F
  call_step (offer frames samples) c =
      (push bits k d v (map samples (range_from 0 (frames * c.cfg.channels))) frames c).1
  call_step (draw frames) c = (pull bits k d v g frames c).2
  call_step clear c = reset_from_consumer bits k d v c

  unfoldable pub call_run : List (Call S) → Converter S C D F → Converter S C D F
  call_run [] c = c
  call_run (call ∷ calls) c = call_run calls (call_step call c)

  -- The frames that a call puts in: of those offered, as many as the call says it accepted.
  abbrev pub call_input : Call S → Converter S C D F → List (Frame S)
  call_input (offer frames samples) c =
      let interleaved = map samples (range_from 0 (frames * c.cfg.channels)) in
      take (push bits k d v interleaved frames c).0
        (frames_of k.silence c.cfg.channels frames interleaved)
  call_input (draw frames) c = []
  call_input clear c = []

  unfoldable pub call_inputs : List (Call S) → Converter S C D F → List (Frame S)
  call_inputs [] c = []
  call_inputs (call ∷ calls) c = call_input call c ++ call_inputs calls (call_step call c)

  -- What a converter has in hand, of the frames `all`: those that the filter heard since its lines were
  -- last filled, those staged and those in the ring. A run of frames is missing for each resync that the
  -- counter counts from `base` on.
  pub record Follows (base : ℕ) (all : List (Frame S)) (c : Converter S C D F) : Type 0 where
    pub past : List (Frame S)
    pub q : List (Frame S)
    pub resynced : ℕ
    pub heard : Heard all resynced (past ++ (c.resampler.scratch ++ q))
    pub counted : c.resyncs % u32 ≡ (base + resynced) % u32
    pub tracks : Tracks bits log k past q c
    pub filled : c.is_filling ≡ false → c.bank.taps ≤ length past

  -- A reset forgets the frames in the ring and those that the filter has heard.
  pub reset-Tracks :
      (past q : List (Frame S)) (c : Converter S C D F)
      → Tracks bits log k past q c
      → Tracks bits log k [] [] (reset_from_consumer bits k d v c)
  unfolding reset_from_consumer publish_status Resampler.reset
  reset-Tracks past q c h = record {
    word = h.word;
    exact = h.exact;
    some_channels = h.some_channels;
    few_channels = h.few_channels;
    some_taps = h.some_taps;
    holding = drain-Holding bits log c.cfg.channels k.silence h.some_channels h.holding;
    setpoint = h.setpoint;
    lowest = h.lowest;
    fits = record {
      planar = h.fits.planar;
      asks = h.fits.asks;
      capacity = h.fits.capacity;
      staged = omega arith;
    };
    sized = h.sized;
    phase = omega arith;
    unstaged = λ fills. refl;
    running = λ no. absurd (let e : true ≡ false = no in cc);
    fading = h.fading;
  }

  pub push-same :
      (interleaved : List S) (frames : ℕ) (c : Converter S C D F)
      → let z = (push bits k d v interleaved frames c).1 in
        (z.resampler ≡ c.resampler)
        × (z.resyncs ≡ c.resyncs)
        × (z.bank ≡ c.bank)
        × (z.is_filling ≡ c.is_filling)
  unfolding push
  push-same interleaved frames c = (refl, refl, refl, refl)

  pub reset-same :
      (c : Converter S C D F)
      → let z = reset_from_consumer bits k d v c in
        (z.resampler.scratch ≡ []) × (z.resyncs ≡ c.resyncs) × (z.is_filling ≡ true)
  unfolding reset_from_consumer publish_status Resampler.reset
  reset-same c = (refl, refl, refl)

  -- The frames behind those heard, under another name for what is staged.
  abbrev pub restaged :
      {x y : List (Frame S)} (past q : List (Frame S)) → x ≡ y → past ++ (x ++ q) ≡ past ++ (y ++ q)
  restaged past q e = ap (λ z. past ++ (z ++ q)) e
