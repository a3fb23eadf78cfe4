-- ===== src/Async/Converter/Inv.antt =====
-- What a converter's state means: the frames in its ring, and what its filter has consumed.
use sample_rate_tap.Common.{
  ℕ, ◌+◌, ◌-◌, ◌*◌, ◌/◌, ◌^◌, ◌≤◌, ◌<◌, ◌≡◌, true, false, List, [], length, max, ltb, u64,
}
use sample_rate_tap.Async.Servo.{Doubles}
use sample_rate_tap.Async.Resampler.{Kernels, Frame}
use sample_rate_tap.Async.Resampler.Read.{Reads}
use sample_rate_tap.Async.Resampler.Simulate.{Fits}
use sample_rate_tap.Async.Config.{Casts}
use sample_rate_tap.Async.Converter.{Converter, k_pop_chunk_frames, k_fade_frames}
use sample_rate_tap.Async.Converter.Fifo.{Holding}

-- A double holds the integers up to 2 ^ 53, and their differences, exactly; a cast to int64_t has 64
-- bits.
pub record IsExact {D F : Type 0} (d : Doubles D) (v : Casts D F) : Type 0 where
  pub compares : (a b : ℕ) → a ≤ 2 ^ 53 → b ≤ 2 ^ 53 → d.lt (v.of_size a) (v.of_size b) ≡ ltb a b
  pub exceeds :
      (a b : ℕ)
      → a ≤ 2 ^ 53
      → b ≤ 2 ^ 53
      → d.lt d.nought (d.minus (v.of_size a) (v.of_size b)) ≡ ltb b a
  pub excess :
      (a b : ℕ) → a ≤ 2 ^ 53 → b ≤ a → v.to_size (d.minus (v.of_size a) (v.of_size b)) ≡ a - b
  pub word : (x : D) → v.to_int64 x < u64

-- The setpoint and its two marks: a FIFO of `cap` frames can hold more than the high-water mark, at this
-- setpoint and at any that a raise may choose.
pub record Setpoint (target threshold high highest taps cap : ℕ) : Type 0 where
  pub some_target : 0 < target
  pub within : target ≤ highest
  pub fills_at : threshold ≡ target + taps
  pub mark : high ≡ max (3 * target) (2 * target + taps)
  pub thrice : 3 * highest < cap
  pub twice : 2 * highest + taps < cap

module _ {S C A B D F : Type 0} (bits log : ℕ) (k : Kernels S C A B D) where
  -- The FIFO's capacity in frames.
  abbrev pub cap_frames : Converter S C D F → ℕ
  cap_frames c = 2 ^ log / c.cfg.channels

  -- The ring holds the frames `q`, and the filter, while it runs, the newest of `past`; while the FIFO
  -- fills, nothing is staged.
  pub record Tracks (past q : List (Frame S)) (c : Converter S C D F) : Type 0 where
    pub word : 32 ≤ bits
    pub exact : log ≤ 52
    pub some_channels : 0 < c.cfg.channels
    pub few_channels : k_pop_chunk_frames * c.cfg.channels < 2 ^ bits
    pub some_taps : 0 < c.bank.taps
    pub holding : Holding bits log c.cfg.channels k.silence c.ring q
    pub setpoint :
        Setpoint c.target_frames c.fill_threshold_frames c.high_water_frames c.max_target_frames
          c.bank.taps
          (cap_frames c)
    pub lowest : c.cfg.target_latency_frames ≤ c.target_frames
    pub fits : Fits k c.bank c.cfg.channels k_pop_chunk_frames c.resampler
    pub sized : (i : ℕ) → length (c.resampler.hist i) ≡ c.resampler.hist_cap
    pub phase : c.resampler.phase < u64
    pub unstaged : c.is_filling ≡ true → c.resampler.scratch ≡ []
    pub running : c.is_filling ≡ false → Reads k c.bank c.cfg.channels past c.resampler
    pub fading : c.fade_frames_left ≤ k_fade_frames
