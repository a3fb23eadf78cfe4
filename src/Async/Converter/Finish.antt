-- ===== src/Async/Converter/Finish.antt =====
-- The end of `pull`: the fade behind a refill, and the silence of an underrun.
use sample_rate_tap.Common.{
  ℕ, zero, suc, ◌-◌, ◌≤◌, ◌<◌, ◌≡◌, ◌⊎◌, refl, sym, ap, arith, inl, inr, min, true, false, not,
  ◌&&◌, List, [], ◌∷◌, ◌++◌, length, replicate, lt→ltb, ge→ltb, Bool-cases, ◌==◌, add_w, u32,
  dec_lt,
}
use mathlib.Core.List.{append-nil}
use sample_rate_tap.Async.Servo.{Doubles}
use sample_rate_tap.Async.Resampler.{Kernels, Frame}
use sample_rate_tap.Async.Config.{Casts}
use sample_rate_tap.Async.Converter.{Converter, k_fade_frames, publish_status}
use sample_rate_tap.Async.Converter.Pull.{
  Scaling, fade_frames, apply_fade_in, silent_frame, faded, padded, finish,
}
use sample_rate_tap.Async.Converter.Inv.{Tracks}
use sample_rate_tap.Async.Converter.Steps.{Tracks-dressed}

module _ {S D F : Type 0} (d : Doubles D) (v : Casts D F) (g : Scaling S D) where
  pub length-fade_frames :
      (done n : ℕ) (out : List (List S)) → length (fade_frames d v g done n out) ≡ length out
  unfolding fade_frames
  length-fade_frames done zero out = refl
  length-fade_frames done (suc n) [] = refl
  length-fade_frames done (suc n) (x ∷ out) = ap suc (length-fade_frames (suc done) n out)

module _ {S C A B D F : Type 0} (bits log : ℕ) (k : Kernels S C A B D) (d : Doubles D)
    (v : Casts D F) (g : Scaling S D) where
  -- The gain ramp, as far as it goes.
  abbrev pub ramped : Converter S C D F → List (List S) → List (List S)
  ramped c made =
      fade_frames d v g (k_fade_frames - c.fade_frames_left) (min (length made) c.fade_frames_left)
        made

  Tracks-faded :
      {past q : List (Frame S)} {c : Converter S C D F} (n : ℕ)
      → Tracks bits log k past q c
      → Tracks bits log k past q (record c { fade_frames_left = c.fade_frames_left - n })
  Tracks-faded n h = record {
    word = h.word;
    exact = h.exact;
    some_channels = h.some_channels;
    few_channels = h.few_channels;
    some_taps = h.some_taps;
    holding = h.holding;
    setpoint = h.setpoint;
    lowest = h.lowest;
    fits = h.fits;
    sized = h.sized;
    phase = h.phase;
    unstaged = h.unstaged;
    running = h.running;
    fading = omega (arith, h.fading);
  }

  Tracks-stopped :
      {past q : List (Frame S)} {c : Converter S C D F}
      → c.resampler.scratch ≡ []
      → Tracks bits log k past q c
      → Tracks bits log k past q (record c { is_filling = true })
  Tracks-stopped spent h = record {
    word = h.word;
    exact = h.exact;
    some_channels = h.some_channels;
    few_channels = h.few_channels;
    some_taps = h.some_taps;
    holding = h.holding;
    setpoint = h.setpoint;
    lowest = h.lowest;
    fits = h.fits;
    sized = h.sized;
    phase = h.phase;
    unstaged = λ fills. spent;
    running = λ no. absurd (let e : true ≡ false = no in cc);
    fading = h.fading;
  }

  faded_lem :
      (made : List (List S)) (c : Converter S C D F)
      → faded bits k d v g made c ≡ (
        ramped c made,
        record c { fade_frames_left = c.fade_frames_left - min (length made) c.fade_frames_left },
      )
  unfolding faded apply_fade_in fade_frames
  faded_lem made c = elim (Bool-cases (not (c.fade_frames_left == 0) && not (length made == 0))) [
    | inl fades ↦ rw fades refl
    | inr none ↦
        let n : min (length made) c.fade_frames_left ≡ 0 = ground arith in
        let all : c.fade_frames_left - 0 ≡ c.fade_frames_left = omega arith in
        rw (none, n, all) refl
  ]

  -- How a pull ends that had `made` from the filter.
  pub record Finished (frames : ℕ) (past q : List (Frame S)) (made : List (List S))
      (c : Converter S C D F) (r : ℕ × List (List S) × Converter S C D F) : Type 0 where
    pub count : r.0 ≡ length made
    pub sounds :
        r.1
        ≡ ramped c made ++ replicate (frames - length made) (silent_frame bits k d v c.cfg.channels)
    pub tracks : Tracks bits log k past q r.2
    pub same : (r.2).resampler ≡ c.resampler
    pub same_target : (r.2).target_frames ≡ c.target_frames
    pub same_resyncs : (r.2).resyncs ≡ c.resyncs
    pub same_bank : (r.2).bank ≡ c.bank
    pub fade_left :
        (r.2).fade_frames_left ≡ c.fade_frames_left - min (length made) c.fade_frames_left
    pub outcome :
        (length made ≡ frames) × ((r.2).is_filling ≡ false) × ((r.2).underruns ≡ c.underruns)
        ⊎ (length made < frames)
          × ((r.2).is_filling ≡ true)
          × ((r.2).underruns ≡ add_w u32 c.underruns 1)

  pub finish-Finished :
      (frames : ℕ) (past q : List (Frame S)) (made : List (List S)) (c : Converter S C D F)
      → Tracks bits log k past q c
      → c.is_filling ≡ false
      → length made ≤ frames
      → (length made < frames → c.resampler.scratch ≡ [])
      → Finished frames past q made c (finish bits k d v g frames made c)
  unfolding finish padded publish_status
  finish-Finished frames past q made c h runs le spent =
      let n = min (length made) c.fade_frames_left in
      let size : length (ramped c made) ≡ length made =
        length-fade_frames d v g (k_fade_frames - c.fade_frames_left) n made in
      let y-Tracks = Tracks-faded n h in
      rw (faded_lem made c, size)
        (elim (dec_lt (length made) frames) [
          | yes short ↦ rw (lt→ltb (length made) frames short) (record {
            count = refl;
            sounds = refl;
            tracks =
                Tracks-dressed bits log k _ _ _ _ _ _ _ _ _ (Tracks-stopped (spent short) y-Tracks);
            same = refl;
            same_target = refl;
            same_resyncs = refl;
            same_bank = refl;
            fade_left = refl;
            outcome = inr (short, refl, refl);
          })
          | no all ↦ rw (ge→ltb (length made) frames (omega arith)) (
              let none : frames - length made ≡ 0 = omega arith in
              record {
                count = refl;
                sounds = rw none (sym (append-nil (ramped c made)));
                tracks = Tracks-dressed bits log k _ _ _ _ _ _ _ _ _ y-Tracks;
                same = refl;
                same_target = refl;
                same_resyncs = refl;
                same_bank = refl;
                fade_left = refl;
                outcome = inl (omega arith, runs, refl);
              })
        ])
