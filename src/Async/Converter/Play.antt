-- ===== src/Async/Converter/Play.antt =====
-- What a running converter plays.
use mathlib.Core.Path.{subst}
use sample_rate_tap.Common.{
  ℕ, ◌+◌, ◌-◌, ◌*◌, ◌≤◌, ◌<◌, ◌≡◌, ◌⊎◌, refl, sym, ap, ◌∙◌, arith, inl, inr, true, false, List, [],
  ◌∷◌, ◌++◌, length, map, min, replicate, add_w, u32, u64,
}
use sample_rate_tap.Async.Servo
use sample_rate_tap.Async.Servo.{Doubles}
use sample_rate_tap.Async.Resampler
use sample_rate_tap.Async.Resampler.{Kernels, Frame, Resampler}
use sample_rate_tap.Async.Resampler.Read.{pace, Reads}
use sample_rate_tap.Async.Resampler.Process.{ideal_at, positions, process_fixed-ideal_at}
use sample_rate_tap.Async.Resampler.Simulate.{Fits, process_fixed-Alike}
use sample_rate_tap.Async.Config.{Casts}
use sample_rate_tap.Async.Converter.{Converter, k_pop_chunk_frames, pop, mu}
use sample_rate_tap.Async.Converter.Pull.{Scaling, silent_frame, synthesize}
use sample_rate_tap.Async.Converter.Fifo.{Holding}
use sample_rate_tap.Async.Converter.Inv.{IsExact, Tracks}
use sample_rate_tap.Async.Converter.Restart.{queue, queue_pop, agrees}
use sample_rate_tap.Async.Converter.Finish.{ramped, finish-Finished}

append-nil_left : {X : Type 0} (xs ys : List X) → xs ++ ys ≡ [] → xs ≡ []
append-nil_left [] ys e = refl
append-nil_left (x ∷ xs) ys e = absurd (let no = ap length e in omega arith)

module _ {S C A B D F : Type 0} (bits log : ℕ) (k : Kernels S C A B D) (d : Doubles D)
    (v : Casts D F) (g : Scaling S D) (exact : IsExact d v) where
  -- What a pull of `frames` plays of `past` and the frames behind it: the bank's values at equidistant
  -- read positions, the servo's deviation apart from one input frame, faded in behind a refill; and
  -- silence where the frames ran out.
  pub record Played (frames : ℕ) (past q : List (Frame S)) (c : Converter S C D F)
      (r : ℕ × List (List S) × Converter S C D F) : Type 0 where
    pub eps_u : ℕ
    pub paced :
        eps_u
        ≡ v.to_int64 (
            d.times
              (Servo.update d
                (v.of_size (length q + length c.resampler.scratch))
                (mu bits k d v c)
                (d.over (v.of_size frames) c.cfg.sample_rate_hz)
                c.servo).0
              v.two_to_64)
    pub made : List (List S)
    pub taken : List (Frame S)
    pub left : List (Frame S)
    pub count : r.0 ≡ length made
    pub split : c.resampler.scratch ++ q ≡ taken ++ ((r.2).resampler.scratch ++ left)
    pub wrote :
        made
        ≡ map
            (ideal_at k c.bank c.cfg.channels (past ++ taken))
            (positions (pace eps_u) (length made) (length past * u64 + c.resampler.phase))
    pub starved : length made < frames → length (c.resampler.scratch ++ q) < 2 * frames
    pub sounds :
        r.1
        ≡ ramped bits log k d v g c made
          ++ replicate (frames - length made) (silent_frame bits k d v c.cfg.channels)
    pub tracks : Tracks bits log k (past ++ taken) left r.2
    pub same_target : (r.2).target_frames ≡ c.target_frames
    pub same_resyncs : (r.2).resyncs ≡ c.resyncs
    pub same_bank : (r.2).bank ≡ c.bank
    pub fade_left :
        (r.2).fade_frames_left ≡ c.fade_frames_left - min (length made) c.fade_frames_left
    pub outcome :
        (length made ≡ frames) × ((r.2).is_filling ≡ false) × ((r.2).underruns ≡ c.underruns)
        ⊎ (length made < frames)
          × ((r.2).is_filling ≡ true)
          × ((r.2).underruns ≡ add_w u32 c.underruns 1)
          × ((r.2).resampler.scratch ++ left ≡ [])

  pub synthesize-Played :
      (frames occ : ℕ) (past q : List (Frame S)) (c : Converter S C D F)
      → Tracks bits log k past q c
      → c.is_filling ≡ false
      → occ ≡ length q + length c.resampler.scratch
      → Played frames past q c (synthesize bits k d v g frames occ c)
  unfolding synthesize queue
  synthesize-Played frames occ past q c h runs is =
      let ch = c.cfg.channels in
      let dt = d.over (v.of_size frames) c.cfg.sample_rate_hz in
      let u = Servo.update d (v.of_size occ) (mu bits k d v c) dt c.servo in
      let eps_u = v.to_int64 (d.times u.0 v.two_to_64) in
      let p =
        process_fixed-ideal_at k c.bank ch queue eps_u frames past c.resampler q h.some_channels
          (exact.word (d.times u.0 v.two_to_64)) h.phase (h.running runs) in
      let ring_pop = pop bits k d v ch in
      let a =
        process_fixed-Alike k c.bank ch k_pop_chunk_frames ring_pop queue_pop
          (λ r z. Holding bits log ch k.silence r z) (agrees bits log k d v h) eps_u frames
          c.resampler c.ring q h.fits h.holding in
      let r = Resampler.process_fixed k c.bank ring_pop eps_u frames c.resampler c.ring in
      let t = Resampler.process_fixed k c.bank queue_pop eps_u frames c.resampler q in
      let out : r.0 ≡ p.out = a.result ∙ ap (λ z. z.0) p.ran in
      let last : r.1 ≡ p.last = a.state ∙ ap (λ z. z.1) p.ran in
      let y = record c { servo = u.1; resampler = r.1; ring = r.2 } in
      let reads = subst (λ z. Reads k c.bank ch (past ++ p.taken) z) (sym last) p.reads in
      let y-Tracks : Tracks bits log k (past ++ p.taken) p.left y = record {
        word = h.word;
        exact = h.exact;
        some_channels = h.some_channels;
        few_channels = h.few_channels;
        some_taps = h.some_taps;
        holding = subst (λ z. Holding bits log ch k.silence r.2 z) (ap (λ z. z.2) p.ran) a.sources;
        setpoint = h.setpoint;
        lowest = h.lowest;
        fits = subst (λ z. Fits k c.bank ch k_pop_chunk_frames z) (sym a.state) a.fits;
        sized = reads.held.sized;
        phase = omega (arith, ap (λ z. z.phase) last, p.phase);
        unstaged = λ no. absurd (let e : false ≡ true = sym runs ∙ no in cc);
        running = λ on. reads;
        fading = h.fading;
      } in
      let size : length r.0 ≡ length p.out = ap length out in
      let waiting : r.1.scratch ++ p.left ≡ p.last.scratch ++ p.left =
        ap (λ z. z.scratch ++ p.left) last in
      let le : length r.0 ≤ frames = elim p.outcome [
        | inl (all, at) ↦ omega arith
        | inr (fewer, over) ↦ omega arith
      ] in
      let spent : length r.0 < frames → r.1.scratch ≡ [] = λ short. elim p.outcome [
        | inl (all, at) ↦ absurd (omega arith)
        | inr (fewer, over) ↦ append-nil_left r.1.scratch p.left (waiting ∙ over)
      ] in
      let f =
        finish-Finished bits log k d v g frames (past ++ p.taken) p.left r.0 y y-Tracks runs le
          spent in
      let state = f.same in
      record {
        eps_u = eps_u;
        paced =
            ap
              (λ n.
                v.to_int64 (
                  d.times (Servo.update d (v.of_size n) (mu bits k d v c) dt c.servo).0
                    v.two_to_64))
              is;
        made = r.0;
        taken = p.taken;
        left = p.left;
        count = f.count;
        split =
            p.split
            ∙ ap (λ z. p.taken ++ (z.scratch ++ p.left)) (sym last)
            ∙ ap (λ z. p.taken ++ (z.scratch ++ p.left)) (sym state);
        wrote =
            subst
              (λ z.
                z
                ≡ map (ideal_at k c.bank ch (past ++ p.taken))
                    (positions (pace eps_u) (length z) (length past * u64 + c.resampler.phase)))
              (sym out) p.wrote;
        starved = λ short. p.dry (omega arith);
        sounds = f.sounds;
        tracks = f.tracks;
        same_target = f.same_target;
        same_resyncs = f.same_resyncs;
        same_bank = f.same_bank;
        fade_left = f.fade_left;
        outcome = elim f.outcome [
          | inl (all, on, same) ↦ inl (all, on, same)
          | inr (short, off, more) ↦ inr (
            short,
            off,
            more,
            ap (λ z. z.scratch ++ p.left) state ∙ waiting ∙ elim p.outcome [
              | inl (all, at) ↦ absurd (omega arith)
              | inr (fewer, over) ↦ over
            ],
          )
        ];
      }
