-- ===== src/Async/Converter/Restart.antt =====
-- The end of a fill: the filter's lines take their frames from the ring.
use mathlib.Core.Path.{subst}
use sample_rate_tap.Common.{
  ℕ, zero, suc, ◌+◌, ◌≤◌, ◌<◌, ◌≡◌, refl, sym, ap, ◌∙◌, arith, true, false, List, [], ◌∷◌, ◌++◌,
  length, length-take, take, drop, take-append-drop,
}
use sample_rate_tap.Machine.{Pop}
use sample_rate_tap.Machine.Source.{Source}
use sample_rate_tap.Async.Ring.{SpscRing}
use sample_rate_tap.Async.Servo
use sample_rate_tap.Async.Servo.{Doubles}
use sample_rate_tap.Async.Resampler
use sample_rate_tap.Async.Resampler.{Kernels, Frame}
use sample_rate_tap.Async.Resampler.Read.{Reads}
use sample_rate_tap.Async.Resampler.Prime.{prime-PrimedWith}
use sample_rate_tap.Async.Resampler.Simulate.{Fits, prime-Alike}
use sample_rate_tap.Async.Config.{Casts}
use sample_rate_tap.Async.Converter.{
  Converter, k_pop_chunk_frames, k_fade_frames, pop, backlog_frames,
}
use sample_rate_tap.Async.Converter.Pull.{restart}
use sample_rate_tap.Async.Converter.Fifo.{Holding, pop-Holding}
use sample_rate_tap.Async.Converter.Inv.{Tracks}
use sample_rate_tap.Async.Converter.Steps.{Tracks-dressed, backlog_frames_lem}

-- A queue as a source.
abbrev pub queue_pop : {X : Type 0} → Pop X (List X)
queue_pop want q = (drop want q, take want q)

pub queue_ended :
    {X : Type 0} (want : ℕ) (q : List X) → 0 < want → length (take want q) ≡ 0 → q ≡ []
queue_ended zero q some none = absurd (omega arith)
queue_ended (suc want) [] some none = refl
queue_ended (suc want) (x ∷ q) some none = absurd (omega arith)

unfoldable pub queue : {X : Type 0} → Source X (List X)
queue = record {
  pop = queue_pop;
  ahead = λ q. q;
  delivers = λ want q. sym (take-append-drop want q);
  fits = λ want q. omega (arith, length-take want q);
  ended = queue_ended;
}

module _ {S C A B D F : Type 0} (bits log : ℕ) (k : Kernels S C A B D) (d : Doubles D)
    (v : Casts D F) {past q : List (Frame S)} {c : Converter S C D F}
    (h : Tracks bits log k past q c) where
  -- The ring delivers what the queue does.
  pub agrees :
      (r : SpscRing S) (p : List (Frame S))
      → Holding bits log c.cfg.channels k.silence r p
      → ((pop bits k d v c.cfg.channels k_pop_chunk_frames r).1 ≡ take k_pop_chunk_frames p)
        × Holding bits log c.cfg.channels k.silence
            (pop bits k d v c.cfg.channels k_pop_chunk_frames r).0
            (drop k_pop_chunk_frames p)
        × (length (take k_pop_chunk_frames p) ≤ k_pop_chunk_frames)
  agrees r p on =
      let (same, rest) =
        pop-Holding bits log c.cfg.channels k.silence h.some_channels on k d v k_pop_chunk_frames
          refl h.few_channels in
      (same, rest, omega (arith, length-take k_pop_chunk_frames p))

  -- What a fill of the lines leaves: the oldest frames of the ring are in the filter.
  pub record Restarted (r : ℕ × Converter S C D F) : Type 0 where
    pub heard : List (Frame S)
    pub left : List (Frame S)
    pub count : length heard ≡ c.bank.taps
    pub split : q ≡ heard ++ ((r.1).resampler.scratch ++ left)
    pub tracks : Tracks bits log k heard left r.1
    pub backlog : r.0 ≡ length left + length (r.1).resampler.scratch
    pub runs : (r.1).is_filling ≡ false
    pub steady : (r.1).servo ≡ Servo.seed d (v.of_size r.0) (Servo.reset d true c.servo)
    pub at_zero : (r.1).resampler.phase ≡ 0
    pub fades : (r.1).fade_frames_left ≡ k_fade_frames

  pub restart-Restarted : c.bank.taps ≤ length q → Restarted (restart bits k d v c)
  unfolding restart queue backlog_frames Resampler.reset
  restart-Restarted enough =
      let ch = c.cfg.channels in
      let ring_pop = pop bits k d v ch in
      let x0 = Resampler.reset k c.bank c.resampler in
      let p =
        prime-PrimedWith k c.bank ch k_pop_chunk_frames h.some_taps (omega arith) queue c.resampler
          q h.fits h.sized enough in
      let fits0 : Fits k c.bank ch k_pop_chunk_frames x0 = record {
        planar = h.fits.planar;
        asks = h.fits.asks;
        capacity = h.fits.capacity;
        staged = omega arith;
      } in
      let a =
        prime-Alike k c.bank ch k_pop_chunk_frames ring_pop queue_pop
          (λ r z. Holding bits log ch k.silence r z) agrees x0 c.ring q fits0 h.holding in
      let r = Resampler.prime k c.bank ring_pop x0 c.ring in
      let t = Resampler.prime k c.bank queue_pop x0 q in
      let same : t.1 ≡ r.1 = sym a.state in
      let reads = subst (λ z. Reads k c.bank ch p.taken z) same p.reads in
      let y = record c {
        resampler = r.1;
        ring = r.2;
        servo = Servo.reset d true c.servo;
        is_filling = false;
        fade_frames_left = k_fade_frames;
      } in
      let y-Tracks : Tracks bits log k p.taken t.2 y = record {
        word = h.word;
        exact = h.exact;
        some_channels = h.some_channels;
        few_channels = h.few_channels;
        some_taps = h.some_taps;
        holding = a.sources;
        setpoint = h.setpoint;
        lowest = h.lowest;
        fits = subst (λ z. Fits k c.bank ch k_pop_chunk_frames z) same a.fits;
        sized = reads.held.sized;
        phase = omega (arith, ap (λ z. z.phase) same, p.phase);
        unstaged = λ no. absurd (let e : false ≡ true = no in cc);
        running = λ runs. reads;
        fading = omega arith;
      } in
      let (backlog, on) = backlog_frames_lem bits log k y-Tracks d v in
      record {
        heard = p.taken;
        left = t.2;
        count = p.count;
        split = p.split ∙ ap (λ z. p.taken ++ (z.scratch ++ t.2)) same;
        tracks = Tracks-dressed bits log k _ _ _ _ _ _ _ _ _ on;
        backlog = backlog;
        runs = refl;
        steady = refl;
        at_zero = omega (arith, ap (λ z. z.phase) same, p.phase);
        fades = refl;
      }
