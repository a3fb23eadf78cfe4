-- ===== src/Async/Converter/Whole.antt =====
-- A whole `pull`.
use mathlib.Core.Path.{subst}
use sample_rate_tap.Common.{
  ap₂, length-drop, ℕ, ◌+◌, ◌-◌, ◌^◌, ◌≤◌, ◌<◌, ◌≡◌, ◌⊎◌, refl, sym, ap, ◌∙◌, arith, inl, inr, true,
  false, List, ◌++◌, length, drop, replicate, add_w, u32, lt→ltb, ge→ltb, Bool-cases, dec_lt,
}
use sample_rate_tap.Async.Servo
use sample_rate_tap.Async.Servo.{Doubles}
use sample_rate_tap.Async.Resampler.{Kernels, Frame}
use sample_rate_tap.Async.Config.{Casts}
use sample_rate_tap.Async.Converter.{Converter, k_fade_frames, backlog_frames, publish_status, mu}
use sample_rate_tap.Async.Converter.Pull.{
  Scaling, silent_frame, raise_target, restart, resync, run, answer, pull,
}
use sample_rate_tap.Async.Converter.Inv.{IsExact, Tracks}
use sample_rate_tap.Async.Converter.Steps.{
  Tracks-dressed, cap-small, waiting-small, backlog_frames_lem, raise_target-Tracks, resync-Tracks,
}
use sample_rate_tap.Async.Converter.Restart.{restart-Restarted}
use sample_rate_tap.Async.Converter.Play.{Played, synthesize-Played}
use sample_rate_tap.Async.Converter.Raise.{
  raised_servo, raise_target-servo, backlog-servo, resync-servo, SameFilter, Raised,
  SameFilter-refl, raise_target-SameFilter, resync-SameFilter, backlog-SameFilter,
  backlog-resampler, backlog-target, restart-same, backlog-Raised, restart-Raised, publish-Raised,
  resync-resyncs, raise_target-Raised,
}

module _ {S C A B D F : Type 0} (bits log : ℕ) (k : Kernels S C A B D) (d : Doubles D)
    (v : Casts D F) (g : Scaling S D) (exact : IsExact d v) where
  -- What a running converter drops before it plays: nothing, or, from a backlog above the high-water
  -- mark, the oldest frames of the ring, down to the setpoint or to what is staged.
  pub record Runs (frames : ℕ) (past q : List (Frame S)) (c : Converter S C D F)
      (r : ℕ × List (List S) × Converter S C D F) : Type 0 where
    pub skipped : ℕ
    pub before : Converter S C D F
    pub same : SameFilter c before
    pub why :
        (length q + length c.resampler.scratch ≤ c.high_water_frames)
          × (skipped ≡ 0)
          × ((r.2).resyncs ≡ c.resyncs)
          × (before.servo ≡ c.servo)
        ⊎ (c.high_water_frames < length q + length c.resampler.scratch)
          × (skipped ≡ length q + length c.resampler.scratch - c.target_frames)
          × ((r.2).resyncs ≡ add_w u32 c.resyncs 1)
          × (before.servo
              ≡ Servo.seed d
                  (d.plus
                    (v.of_size (length (drop skipped q) + length before.resampler.scratch))
                    (mu bits k d v c))
                  c.servo)
    pub same_target : (r.2).target_frames ≡ c.target_frames
    pub played : Played bits log k d v g exact frames past (drop skipped q) before r

  run-Runs :
      (frames occ : ℕ) (past q : List (Frame S)) (c : Converter S C D F)
      → Tracks bits log k past q c
      → c.is_filling ≡ false
      → occ ≡ length q + length c.resampler.scratch
      → Runs frames past q c (run bits k d v g frames occ c)
  run-Runs frames occ past q c h runs is =
      let small : occ ≤ 2 ^ 53 = omega (arith, waiting-small bits log k h) in
      let high : c.high_water_frames ≤ 2 ^ 53 = omega (
        arith,
        cap-small bits log k h,
        h.setpoint.mark,
        h.setpoint.within,
        h.setpoint.thrice,
        h.setpoint.twice,
      ) in
      let test = exact.compares c.high_water_frames occ high small in
      elim (dec_lt c.high_water_frames occ) [
        | yes over ↦
            let (on, left) = resync-Tracks bits log k d v h exact occ is over in
            let y = (resync bits k d v occ c).1 in
            let same = resync-SameFilter bits log k d v occ c in
            let staged = ap (λ z. length z.scratch) same.same_resampler in
            let waits : (resync bits k d v occ c).0
                ≡ length (drop (occ - c.target_frames) q) + length y.resampler.scratch =
              omega (arith, length-drop (occ - c.target_frames) q) in
            let p =
              synthesize-Played bits log k d v g exact frames (resync bits k d v occ c).0 past
                (drop (occ - c.target_frames) q) y on (same.same_filling ∙ runs) waits in
            rw (test, lt→ltb c.high_water_frames occ over)
              (record {
                skipped = occ - c.target_frames;
                before = y;
                same = same;
                why = inr (
                  omega arith,
                  omega arith,
                  p.same_resyncs ∙ (resync-resyncs bits log k d v occ c).0,
                  resync-servo bits log k d v occ c
                      ∙ ap (λ n. Servo.seed d (d.plus (v.of_size n) (mu bits k d v c)) c.servo)
                          waits,
                );
                same_target = p.same_target ∙ (resync-resyncs bits log k d v occ c).1;
                played = p;
              })
        | no under ↦
            let p = synthesize-Played bits log k d v g exact frames occ past q c h runs is in
            rw (test, ge→ltb c.high_water_frames occ (omega arith))
              (record {
                skipped = 0;
                before = c;
                same = SameFilter-refl bits log k d v c;
                why = inl (omega arith, refl, p.same_resyncs, refl);
                same_target = p.same_target;
                played = p;
              })
      ]

  -- How a pull comes to run: the filter ran before, or the fill is over and its lines take the oldest
  -- frames of the ring, as many as the bank has taps.
  pub record Plays (frames : ℕ) (past q : List (Frame S)) (c : Converter S C D F)
      (r : ℕ × List (List S) × Converter S C D F) : Type 0 where
    pub before : Converter S C D F
    pub heard : List (Frame S)
    pub left : List (Frame S)
    pub same_cfg : before.cfg ≡ c.cfg
    pub same_bank : before.bank ≡ c.bank
    pub set : Raised bits frames c before
    pub raised : c.high_water_frames ≤ before.high_water_frames
    pub begins :
        (c.is_filling ≡ false)
          × (heard ≡ past)
          × (left ≡ q)
          × SameFilter c before
          × (before.servo ≡ raised_servo bits log k d v before.target_frames c)
        ⊎ (c.is_filling ≡ true)
          × (before.fill_threshold_frames ≤ length q)
          × (length heard ≡ c.bank.taps)
          × (q ≡ heard ++ (before.resampler.scratch ++ left))
          × (before.resampler.phase ≡ 0)
          × (before.fade_frames_left ≡ k_fade_frames)
          × (before.servo
              ≡ Servo.seed d
                  (v.of_size (length left + length before.resampler.scratch))
                  (Servo.reset d true (raised_servo bits log k d v before.target_frames c)))
    pub runs : Runs frames heard left before r

  -- A pull that waits for the fill plays silence.
  pub record Waits (frames : ℕ) (past q : List (Frame S)) (c : Converter S C D F)
      (r : ℕ × List (List S) × Converter S C D F) : Type 0 where
    pub fills : c.is_filling ≡ true
    pub set : Raised bits frames c r.2
    pub same : SameFilter c r.2
    pub below : length q < (r.2).fill_threshold_frames
    pub none_made : r.0 ≡ 0
    pub silent : r.1 ≡ replicate frames (silent_frame bits k d v c.cfg.channels)
    pub tracks : Tracks bits log k past q r.2

  going-Plays :
      (frames occ : ℕ) (past q : List (Frame S)) (c y : Converter S C D F)
      → Tracks bits log k past q y
      → SameFilter c y
      → Raised bits frames c y
      → y.servo ≡ raised_servo bits log k d v y.target_frames c
      → y.is_filling ≡ false
      → occ ≡ length q + length y.resampler.scratch
      → c.high_water_frames ≤ y.high_water_frames
      → Plays frames past q c (answer bits k d v g false frames occ y)
  going-Plays frames occ past q c y h s set steered going is higher = record {
    before = y;
    heard = past;
    left = q;
    same_cfg = s.same_cfg;
    same_bank = s.same_bank;
    set = set;
    raised = higher;
    begins = inl (sym s.same_filling ∙ going, refl, refl, s, steered);
    runs = run-Runs frames occ past q y h going is;
  }

  filling-Waits :
      (frames occ : ℕ) (past q : List (Frame S)) (c y : Converter S C D F)
      → Tracks bits log k past q y
      → SameFilter c y
      → Raised bits frames c y
      → y.servo ≡ raised_servo bits log k d v y.target_frames c
      → y.is_filling ≡ true
      → occ ≡ length q + length y.resampler.scratch
      → c.high_water_frames ≤ y.high_water_frames
      → Waits frames past q c (answer bits k d v g true frames occ y)
        ⊎ Plays frames past q c (answer bits k d v g true frames occ y)
  unfolding publish_status
  filling-Waits frames occ past q c y h s set steered fills is higher =
      let none : length y.resampler.scratch ≡ 0 = ap length (h.unstaged fills) in
      let small : occ ≤ 2 ^ 53 = omega (arith, waiting-small bits log k h) in
      let p = h.setpoint in
      let bound = cap-small bits log k h in
      let low : y.fill_threshold_frames ≤ 2 ^ 53 =
        (let a = p.fills_at in let b = p.within in let e = p.twice in omega arith) in
      let test = exact.compares occ y.fill_threshold_frames small low in
      elim (dec_lt occ y.fill_threshold_frames) [
        | yes below ↦
            rw (test, lt→ltb occ y.fill_threshold_frames below)
              (inl (record {
                fills = sym s.same_filling ∙ fills;
                set = (publish-Raised bits log k d v frames c y set s).0;
                same = (publish-Raised bits log k d v frames c y set s).1;
                below = omega arith;
                none_made = refl;
                silent = ap (λ z. replicate frames (silent_frame bits k d v z.channels)) s.same_cfg;
                tracks = Tracks-dressed bits log k _ _ _ _ _ _ _ _ _ h;
              }))
        | no enough ↦
            let full : y.fill_threshold_frames ≤ length q = omega arith in
            let r = restart-Restarted bits log k d v h (let a = p.fills_at in omega arith) in
            let z = (restart bits k d v y).1 in
            let same = restart-same bits log k d v y in
            rw (test, ge→ltb occ y.fill_threshold_frames (omega arith))
              (inr (record {
                before = z;
                heard = r.heard;
                left = r.left;
                same_cfg = same.0 ∙ s.same_cfg;
                same_bank = same.1 ∙ s.same_bank;
                set = restart-Raised bits log k d v frames c y set;
                raised = omega (arith, same.3);
                begins = inr (
                  sym s.same_filling ∙ fills,
                  omega (arith, same.2),
                  r.count ∙ ap (λ b. b.taps) s.same_bank,
                  r.split,
                  r.at_zero,
                  r.fades,
                  r.steady
                      ∙ ap₂ (λ n x. Servo.seed d (v.of_size n) (Servo.reset d true x)) r.backlog
                          (steered ∙ ap (λ t. raised_servo bits log k d v t c) (sym same.4)),
                );
                runs =
                    run-Runs frames (restart bits k d v y).0 r.heard r.left z r.tracks r.runs
                      r.backlog;
              }))
      ]

  -- In any state that Tracks describes, and while a double holds the counts exactly: the setpoint
  -- follows the largest pull seen, within the FIFO's limit and never down, and the fill threshold
  -- and the high-water mark follow the setpoint; with these, a pull either waits for a fill that
  -- has not reached the threshold, and then returns 0 and writes silence; or it plays: from a
  -- running filter, or behind a fill that has reached the threshold and whose oldest frames, as
  -- many as the bank has taps, enter the lines; a backlog above the high-water mark, and no
  -- other, loses its oldest frames down to the setpoint, or all that are not staged, and is
  -- counted as a resync; what is made are the bank's values at equidistant positions of the
  -- frames, at the pace of one update of the servo on the backlog left, faded in behind a refill,
  -- and silence behind them where the frames run out, an underrun that is counted and begins a
  -- new fill; and the state after it is again one that Tracks describes.
  pub pull-Plays :
      (frames : ℕ) (past q : List (Frame S)) (c : Converter S C D F)
      → Tracks bits log k past q c
      → Waits frames past q c (pull bits k d v g frames c)
        ⊎ Plays frames past q c (pull bits k d v g frames c)
  unfolding pull
  pull-Plays frames past q c h0 =
      let x = raise_target bits k d v frames c in
      let (h, not_lower) = raise_target-Tracks bits log k d v h0 frames in
      let (count, on) = backlog_frames_lem bits log k h d v in
      let occ = (backlog_frames bits k d v x).0 in
      let y = (backlog_frames bits k d v x).1 in
      let s : SameFilter c y =
        backlog-SameFilter bits log k d v c x (raise_target-SameFilter bits log k d v frames c) in
      let set =
        backlog-Raised bits log k d v frames c x
          (raise_target-Raised bits log k d v frames past q c h0) in
      let steered : y.servo ≡ raised_servo bits log k d v y.target_frames c =
        backlog-servo bits log k d v x
        ∙ raise_target-servo bits log k d v frames c
        ∙ ap (λ t. raised_servo bits log k d v t c) (sym (backlog-target bits log k d v x)) in
      let is : occ ≡ length q + length y.resampler.scratch =
        count ∙ ap (λ z. length q + length z.scratch) (sym (backlog-resampler bits log k d v x)) in
      let higher : c.high_water_frames ≤ y.high_water_frames =
        (let a = h0.setpoint.mark in
          let b = on.setpoint.mark in
          let e = ap (λ z. z.taps) s.same_bank in omega (arith, backlog-target bits log k d v x)) in
      elim (Bool-cases y.is_filling) [
        | inr going ↦
            subst
              (λ b.
                Waits frames past q c (answer bits k d v g b frames occ y)
                ⊎ Plays frames past q c (answer bits k d v g b frames occ y))
              (sym going) (inr (going-Plays frames occ past q c y on s set steered going is higher))
        | inl fills ↦
            subst
              (λ b.
                Waits frames past q c (answer bits k d v g b frames occ y)
                ⊎ Plays frames past q c (answer bits k d v g b frames occ y))
              (sym fills) (filling-Waits frames occ past q c y on s set steered fills is higher)
      ]
