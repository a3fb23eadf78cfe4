-- ===== src/Async/Converter/Enough.antt =====
-- A pull from enough frames.
use sample_rate_tap.Common.{
  ℕ, ◌+◌, ◌*◌, ◌≤◌, ◌≡◌, sym, ap, ◌∙◌, arith, inl, inr, true, false, List, ◌++◌, length,
  length-append, drop,
}
use sample_rate_tap.Async.Servo.{Doubles}
use sample_rate_tap.Async.Resampler.{Kernels, Frame}
use sample_rate_tap.Async.Config.{Casts}
use sample_rate_tap.Async.Converter.{Converter}
use sample_rate_tap.Async.Converter.Pull.{Scaling, pull}
use sample_rate_tap.Async.Converter.Inv.{IsExact, Tracks}
use sample_rate_tap.Async.Converter.Whole.{Runs, pull-Plays}

module _ {S C A B D F : Type 0} (bits log : ℕ) (k : Kernels S C A B D) (d : Doubles D)
    (v : Casts D F) (g : Scaling S D) (exact : IsExact d v) where
  -- Nothing is dropped, and nothing runs out.
  made_all :
      (frames : ℕ) (past q : List (Frame S)) (c : Converter S C D F)
      (r : ℕ × List (List S) × Converter S C D F)
      → Runs bits log k d v g exact frames past q c r
      → 2 * frames ≤ length q + length c.resampler.scratch
      → length q + length c.resampler.scratch ≤ c.high_water_frames
      → (r.0 ≡ frames) × ((r.2).is_filling ≡ false) × ((r.2).underruns ≡ c.underruns)
  made_all frames past q c r h enough low =
      let kept : h.skipped ≡ 0 = elim h.why [
        | inl (below, e, s, w) ↦ e
        | inr (over, e, s, w) ↦ absurd (omega arith)
      ] in
      let whole : length (h.before.resampler.scratch ++ drop h.skipped q)
          ≡ length c.resampler.scratch + length q =
        ap (λ n. length (h.before.resampler.scratch ++ drop n q)) kept
        ∙ length-append h.before.resampler.scratch q
        ∙ ap (λ z. length z.scratch + length q) h.same.same_resampler in
      elim h.played.outcome [
        | inl (all, on, same) ↦ (h.played.count ∙ all, on, same ∙ h.same.same_underruns)
        | inr (short, off, more, over) ↦ absurd (omega (arith, h.played.starved short))
      ]

  -- While a double holds the counts exactly: a pull from a running converter whose backlog is at
  -- most its high-water mark and holds two frames for each one asked for makes all of them from
  -- input, keeps running and counts no underrun.
  pub pull-all :
      (frames : ℕ) (past q : List (Frame S)) (c : Converter S C D F)
      → Tracks bits log k past q c
      → c.is_filling ≡ false
      → 2 * frames ≤ length q + length c.resampler.scratch
      → length q + length c.resampler.scratch ≤ c.high_water_frames
      → ((pull bits k d v g frames c).0 ≡ frames)
        × ((pull bits k d v g frames c).2.is_filling ≡ false)
        × ((pull bits k d v g frames c).2.underruns ≡ c.underruns)
  pull-all frames past q c h runs enough low =
      elim (pull-Plays bits log k d v g exact frames past q c h) [
        | inl w ↦ absurd (let e : false ≡ true = sym runs ∙ w.fills in cc)
        | inr p ↦ elim p.begins [
          | inr (fills, b, e, s, z, f, w) ↦ absurd (let e : false ≡ true = sym runs ∙ fills in cc)
          | inl (going, heard, left, same, w) ↦
              let x = p.before in
              let size : length p.left + length x.resampler.scratch
                  ≡ length q + length c.resampler.scratch =
                ap (λ z. length z + length x.resampler.scratch) left
                ∙ ap (λ z. length q + length z.scratch) same.same_resampler in
              let (all, on, under) =
                made_all frames p.heard p.left x (pull bits k d v g frames c) p.runs (omega arith)
                  (omega (arith, p.raised)) in
              (all, on, under ∙ same.same_underruns)
        ]
      ]
