-- ===== src/Async/Converter/Push.antt =====
-- What the producer's `push` does.
use native.Mathlib.Nat.{add-mul-div_right, mul-le-mul_right, div-mul-le_self}
use sample_rate_tap.Common.{
  ℕ, ◌+◌, ◌-◌, ◌*◌, ◌/◌, ◌^◌, ◌≤◌, ◌<◌, ◌≡◌, refl, sym, ap, ap₂, ◌∙◌, arith, min, List, ◌++◌,
  length, length-take, length-append, take, take-all, ltb, if◌then◌else◌, add_w, mul_w-eq, u32,
}
use sample_rate_tap.Async.Ring
use sample_rate_tap.Async.Ring.{SpscRing}
use sample_rate_tap.Async.Ring.Inv.{room_below}
use sample_rate_tap.Async.Ring.Write.{write-Represents, write_available-Represents}
use sample_rate_tap.Async.Servo.{Doubles}
use sample_rate_tap.Async.Resampler.{Kernels, Frame}
use sample_rate_tap.Async.Config.{Casts}
use sample_rate_tap.Async.Converter.{Converter, frames_of, push}
use sample_rate_tap.Async.Converter.Fifo.{
  length-Holding, frames_of-take, frames_of-append, frames_below, length-cap,
}
use sample_rate_tap.Async.Converter.Inv.{cap_frames, Tracks}

-- Whole frames taken off a capacity.
pub div-sub_mul : (n f ch : ℕ) → 0 < ch → f * ch ≤ n → (n - f * ch) / ch ≡ n / ch - f
div-sub_mul n f ch some le =
    let back : n - f * ch + f * ch ≡ n = omega arith in
    let e : (n - f * ch + f * ch) / ch ≡ n / ch = ap (λ t. t / ch) back in
    omega (arith, add-mul-div_right (n - f * ch) f some)

module _ {S C A B D F : Type 0} (bits log : ℕ) (k : Kernels S C A B D) (d : Doubles D)
    (v : Casts D F) where
  -- What `push` leaves.
  pub record Pushed (past q : List (Frame S)) (interleaved : List S) (frames : ℕ)
      (c : Converter S C D F) (r : ℕ × Converter S C D F) : Type 0 where
    pub accepted : r.0 ≡ min frames (cap_frames bits log k c - length q)
    pub tracks :
        Tracks bits log k past
          (q ++ take r.0 (frames_of k.silence c.cfg.channels frames interleaved))
          r.1
    pub counted : (r.1).overruns ≡ (if ltb r.0 frames then add_w u32 c.overruns 1 else c.overruns)

  -- In a state that Tracks describes, a push of so many interleaved frames accepts as many as
  -- the FIFO has room for, puts exactly these behind the frames in it, and counts an overrun
  -- exactly if it accepts fewer than were offered.
  pub push-Pushed :
      (past q : List (Frame S)) (interleaved : List S) (frames : ℕ) (c : Converter S C D F)
      → length interleaved ≡ frames * c.cfg.channels
      → Tracks bits log k past q c
      → Pushed past q interleaved frames c (push bits k d v interleaved frames c)
  unfolding push
  push-Pushed past q interleaved frames c size h =
      let ch = c.cfg.channels in
      let g = h.holding in
      let (free, on) = write_available-Represents bits log g.samples c.ring g.ring in
      let below : length q * ch ≤ 2 ^ log = frames_below bits log ch k.silence h.some_channels g in
      let same : length g.samples ≡ length q * ch =
        g.whole ∙ ap (λ t. t * ch) (sym (length-Holding bits log ch k.silence h.some_channels g)) in
      let room : (2 ^ log - length g.samples) / ch ≡ cap_frames bits log k c - length q =
        rw same (div-sub_mul (2 ^ log) (length q) ch h.some_channels below) in
      let n = min frames (cap_frames bits log k c - length q) in
      let fit : length q * ch + n * ch ≤ 2 ^ log =
        let within : n ≤ cap_frames bits log k c - length q = omega arith in
        let reach : length q + n ≤ 2 ^ log / ch =
          omega (arith, length-cap bits log ch k.silence h.some_channels g) in
        let product : (length q + n) * ch ≤ 2 ^ log / ch * ch = mul-le-mul_right ch reach in
        let share : (length q + n) * ch ≡ length q * ch + n * ch = grind arith in
        omega (arith, div-mul-le_self (2 ^ log) ch) in
      let small : n * ch < 2 ^ bits = omega (arith, room_below bits log g.ring.fits) in
      let src = take (n * ch) interleaved in
      let long : length src ≡ n * ch =
        let part : n * ch ≤ frames * ch = mul-le-mul_right ch (omega arith) in
        omega (arith, length-take (n * ch) interleaved) in
      let all : min (length src) (2 ^ log - length g.samples) ≡ length src = omega arith in
      let r' = (Ring.write_available bits c.ring).1 in
      let (count, wrote) = write-Represents bits log g.samples src r' on in
      rw (free, room, mul_w-eq (2 ^ bits) n ch small)
        (record {
          accepted = refl;
          tracks = record {
            word = h.word;
            exact = h.exact;
            some_channels = h.some_channels;
            few_channels = h.few_channels;
            some_taps = h.some_taps;
            holding = record {
              samples = g.samples ++ src;
              frames = g.frames + n;
              whole =
                  (let share : (g.frames + n) * ch ≡ g.frames * ch + n * ch = grind arith in
                    omega (arith, length-append g.samples src, g.whole));
              contents =
                  ap₂ ◌++◌ g.contents
                    (sym (frames_of-take k.silence ch frames n interleaved (omega arith)))
                  ∙ sym (frames_of-append k.silence ch g.frames n g.samples src g.whole);
              ring = rw (all, take-all (length src) src (omega arith)) at wrote;
            };
            setpoint = h.setpoint;
            lowest = h.lowest;
            fits = h.fits;
            sized = h.sized;
            phase = h.phase;
            unstaged = h.unstaged;
            running = h.running;
            fading = h.fading;
          };
          counted = refl;
        })
