-- ===== src/Bridge/Converter/Pull/Drain.antt =====
-- `flush`, and what comes out.
use mathlib.Core.List.{append_assoc}
use native.Mathlib.Nat.{add-zero}
use native.Mathlib.Numerals.{add-one}
use sample_rate_tap.Common.{
  ℕ, zero, suc, ◌+◌, ◌^◌, ◌≤◌, ◌<◌, ◌≡◌, refl, sym, ap, ◌∙◌, some, List, [], ◌∷◌, ◌++◌, map, arith,
  length, length-replicate, range_from, inl, inr, ◌==◌, false,
}
use sample_rate_tap.Bridge.Schedule.{Direction, k_phases, k_decimation}
use sample_rate_tap.Bridge.Converter.{Kernels, Frame, Converter, outputs_for}
use sample_rate_tap.Bridge.Converter.Walk.{process}
use sample_rate_tap.Bridge.Converter.Produce.{ideal_frame}
use sample_rate_tap.Bridge.Converter.Stream.{InStream, process-stream}
use sample_rate_tap.Bridge.Converter.Pull.{emit, feed, drain, flush, flush_output_frames}
use sample_rate_tap.Bridge.Converter.Pull.Frames.{Kept, Kept-trans, emit-stream, frames_cons}
use sample_rate_tap.Bridge.Converter.Pull.Feed.{
  silent_frame, silent_frames, Fed, feed_lem, none_out, one_out,
}

module _ {S C : Type 0} (k : Kernels S C) (d : Direction) where
  abbrev M : ℕ
  M = k_decimation d

  abbrev L : ℕ
  L = k_phases d

  -- What a drain of `left` frames of silence leaves and writes.
  pub record Drained (fuel left n : ℕ) (past : List (Frame S)) (c : Converter S C) : Type 0 where
    pub out : List (List S)
    pub last : Converter S C
    pub ran : drain k d fuel left c ≡ some (out, last)
    pub count : length out ≡ outputs_for d c left
    pub stands : InStream k d (n + length out) (past ++ silent_frames k d left) last
    pub kept : Kept c last
    pub wrote :
        out
        ≡ map
            (ideal_frame k d c.table c.channels (past ++ silent_frames k d left))
            (range_from n (length out))

  silent_split : (a b : ℕ) → silent_frames k d a ++ silent_frames k d b ≡ silent_frames k d (a + b)
  silent_split zero b = ap (silent_frames k d) (omega arith)
  silent_split (suc a) b =
      let e : suc a + b ≡ suc (a + b) = omega arith in
      rw e (ap (λ t. silent_frame k d ∷ t) (silent_split a b))

  -- One frame more, ahead of what the rest of the drain writes.
  drain_more :
      (fuel left n : ℕ) (past : List (Frame S)) (c : Converter S C) (r : Fed k d left n past c)
      → (feed k d left c).1.pending ≡ 0
      → (emit k d (feed k d left c).1).0
        ≡ ideal_frame k d
            (feed k d left c).1.table
            (feed k d left c).1.channels
            (past ++ silent_frames k d r.fed)
            n
      → Kept (feed k d left c).1 (emit k d (feed k d left c).1).1
      → outputs_for d c left
        ≡ suc (outputs_for d (emit k d (feed k d left c).1).1 (feed k d left c).0)
      → Drained fuel
          (feed k d left c).0
          (suc n)
          (past ++ silent_frames k d r.fed)
          (emit k d (feed k d left c).1).1
      → Drained (suc fuel) left n past c
  unfolding drain
  drain_more fuel left n past c r none_owed frame kept one p =
      let next = (emit k d (feed k d left c).1).1 in
      let left' = (feed k d left c).0 in
      let silence : silent_frames k d r.fed ++ silent_frames k d left' ≡ silent_frames k d left =
        silent_split r.fed left' ∙ ap (silent_frames k d) r.counted in
      let later : n + suc (length p.out) ≡ suc n + length p.out = omega arith in
      let near = r.kept in
      let far = Kept-trans c (feed k d left c).1 next r.kept kept in
      record {
        out = (emit k d (feed k d left c).1).0 ∷ p.out;
        last = p.last;
        ran = rw (none_owed, p.ran) refl;
        count = omega (arith, one, p.count);
        stands = rw later (
            rw
              (append_assoc past (silent_frames k d r.fed) (silent_frames k d left')
                ∙ ap (λ t. past ++ t) silence)
              at p.stands);
        kept = Kept-trans c next p.last far p.kept;
        wrote =
            frames_cons k d n past c (feed k d left c).1 next (silent_frames k d r.fed)
              (silent_frames k d left') (emit k d (feed k d left c).1).0 p.out near far
              (omega (arith, r.stands.owed, none_owed)) frame p.wrote
            ∙ ap
                (λ t.
                  map (ideal_frame k d c.table c.channels (past ++ t))
                    (range_from n (suc (length p.out))))
                silence;
      }

  drain_lem :
      (fuel left n : ℕ) (past : List (Frame S)) (c : Converter S C)
      → InStream k d n past c
      → left ≤ 2 ^ 56
      → outputs_for d c left < fuel
      → Drained fuel left n past c
  unfolding drain
  drain_lem zero left n past c h small enough = absurd (omega arith)
  drain_lem (suc fuel) left n past c h small enough =
      let r = feed_lem k d left n past c h in
      elim r.outcome [
        | inr (all, owed) ↦
            let none = none_out k d left n past c h small r all owed in
            let whole : r.fed ≡ left = omega (arith, r.counted) in
            record {
              out = [];
              last = (feed k d left c).1;
              ran = rw (waits owed) refl;
              count = sym none;
              stands = rw add-zero (rw whole at r.stands);
              kept = r.kept;
              wrote = refl;
            }
        | inl none_owed ↦
            let (after, frame, kept) =
              emit-stream k d n (past ++ silent_frames k d r.fed) (feed k d left c).1 r.stands
                none_owed in
            let next = (emit k d (feed k d left c).1).1 in
            let on : InStream k d (suc n) (past ++ silent_frames k d r.fed) next =
              rw add-one at after in
            let one = one_out k d left n past c h small r next none_owed on in
            let p =
              drain_lem fuel (feed k d left c).0 (suc n) (past ++ silent_frames k d r.fed) next on
                (omega (arith, r.counted)) (omega arith) in
            drain_more fuel left n past c r none_owed frame kept one p
      ]
    where
      waits : {x : ℕ} → 0 < x → (x == 0) ≡ false
      waits {x} h = ground arith

  -- At any position of a stream, `flush` ends, whatever the number of taps up to 2 ^ 56: it writes
  -- `flush_output_frames` frames, which are those that `process` writes for as many frames of silence
  -- as there are taps.
  pub flush-process :
      (n : ℕ) (past : List (Frame S)) (c : Converter S C)
      → InStream k d n past c
      → c.table.taps ≤ 2 ^ 56
      → (out : List (List S)) × (last whole : Converter S C) × (flush k d c ≡ some (out, last))
        × (length out ≡ flush_output_frames k d c)
        × (process k d c (silent_frames k d c.table.taps) ≡ some (whole, out))
        × InStream k d (n + length out) (past ++ silent_frames k d c.table.taps) last
  unfolding flush flush_output_frames
  flush-process n past c h small =
      let taps = c.table.taps in
      let p = drain_lem (outputs_for d c taps + 1) taps n past c h small (omega arith) in
      let sized : length (silent_frames k d taps) ≡ taps =
        length-replicate taps (silent_frame k d) in
      let (o, whole, ran, r) =
        process-stream k d n past (silent_frames k d taps) c h (omega arith) in
      let same : o ≡ p.out =
        r.wrote
        ∙ ap
            (λ t.
              map (ideal_frame k d c.table c.channels (past ++ silent_frames k d taps))
                (range_from n t))
            (ap (outputs_for d c) sized ∙ sym p.count)
        ∙ sym p.wrote in
      (p.out, p.last, whole, p.ran, p.count, rw (← same) ran, p.stands)
