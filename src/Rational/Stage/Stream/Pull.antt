-- ===== src/Rational/Stage/Stream/Pull.antt =====
-- `pull` and `flush` against `process`.
use sample_rate_tap.Common.{
  ℕ, ◌+◌, ◌≤◌, ◌≡◌, ◌↔◌, refl, ◌∙◌, arith, List, ◌++◌, some, length, length-replicate,
  length-map_range, replicate, range_from, map, Bool, false, ◌==◌, min,
}
use sample_rate_tap.Machine.{drain}
use sample_rate_tap.Machine.Source.{Source}
use sample_rate_tap.Machine.Pull.{Pulled, pull_lem}
use sample_rate_tap.Machine.Drain.{drain_lem}
use sample_rate_tap.Machine.Counts.{length-pulled, pulled_front}
use sample_rate_tap.Rational.Stage.{Kernels, Frame, StageTable, StageState, machine}
use sample_rate_tap.Rational.Stage.Calls.{
  outputs_for, frames_needed, process, pull, flush, flush_output_frames, window_frames,
  silent_frame,
}
use sample_rate_tap.Rational.Stage.Schedule.{Fits}
use sample_rate_tap.Rational.Stage.Valid.{IsValid}
use sample_rate_tap.Rational.Stage.Stream.{InStream, ideal_stage, stage_laws, by_machine}
use sample_rate_tap.Rational.Stage.Stream.Counts.{Counted}
use sample_rate_tap.Rational.Stage.Stream.Process.{
  outputs_for-ready_iff, frames_needed-outputs_for, process-ideal_stage,
}

module _ {S C A : Type 0} (k : Kernels S C A) (bits up down : ℕ) (fixed16 : Bool) (t : StageTable C)
    (fits : Fits up down) (valid : IsValid up down t) (n : ℕ) (past : List (Frame S))
    (x : StageState S) (h : InStream k up down fixed16 t n past x) where
  module _ {Q : Type 0} (s : Source (Frame S) Q) (count : ℕ) (q : Q)
      (asked : Counted bits up down count) (held : Counted bits up down (length (s.ahead q))) where
    abbrev ready : ℕ
    ready = outputs_for bits up down x (length (s.ahead q))

    abbrev pulled :
        Pulled
          (machine k up down fixed16 t)
          up
          down
          (stage_laws k up down fixed16 t fits valid)
          s
          count
          n
          past
          x
          q
    pulled =
        pull_lem (machine k up down fixed16 t) up down (stage_laws k up down fixed16 t fits valid) s
          count n past x q h

    pulled_ran :
        pull k bits up down fixed16 t s.pop count x q ≡ some (pulled.out, pulled.next, pulled.left)
    unfolding pull
    pulled_ran = pulled.ran

    -- In a stream, for any source that keeps to its contract, and while `std::size_t` has room for the
    -- counts: `pull` returns, and writes the first `count` of the frames that the input the source still
    -- holds releases, or all of them when they are fewer; it takes input from the source's front and
    -- leaves the stage in the stream behind what it took.
    pub pull-ideal_stage :
        (next : StageState S) × (left : Q) × (taken : List (Frame S)) × (pull k bits up down fixed16
            t s.pop count x q
          ≡ some (
            map
                (ideal_stage k up down fixed16 t (past ++ s.ahead q))
                (range_from n (min count ready)),
            next,
            left,
          ))
        × (s.ahead q ≡ taken ++ s.ahead left)
        × InStream k up down fixed16 t (n + min count ready) (past ++ taken) next
    pull-ideal_stage =
        let laws = stage_laws k up down fixed16 t fits valid in
        let exact =
          outputs_for-ready_iff k bits up down fixed16 t fits valid n past x h (length (s.ahead q))
            held in
        let machine' = machine k up down fixed16 t in
        (
          pulled.next,
          pulled.left,
          pulled.taken,
          rw (← pulled_front machine' up down laws s count n past x q ready exact pulled)
              pulled_ran,
          pulled.split,
          rw (length-pulled machine' up down laws s count n past x q ready exact pulled) at
              pulled.stands,
        )

    -- In a stream, for any source that keeps to its contract, and while `std::size_t` has room for the
    -- counts: `pull` writes all the frames asked for exactly if the source holds `frames_needed` frames.
    pub pull-length_iff :
        (out : List (List S)) × (next : StageState S) × (left : Q) × (pull k bits up down fixed16 t
            s.pop count x q
          ≡ some (out, next, left))
        × ((length out ≡ count) ↔ (frames_needed bits up down x count ≤ length (s.ahead q)))
    pull-length_iff =
        let laws = stage_laws k up down fixed16 t fits valid in
        let exact =
          outputs_for-ready_iff k bits up down fixed16 t fits valid n past x h (length (s.ahead q))
            held in
        let made =
          length-pulled (machine k up down fixed16 t) up down laws s count n past x q ready exact
            pulled in
        let adjoint =
          frames_needed-outputs_for k bits up down fixed16 t fits valid n past x h count
            (length (s.ahead q)) asked held in
        (
          pulled.out,
          pulled.next,
          pulled.left,
          pulled_ran,
          (λ all. adjoint.1 (omega arith), λ enough. omega (arith, adjoint.0 enough)),
        )

module _ {S C A : Type 0} (k : Kernels S C A) (bits down : ℕ) (fixed16 : Bool) (t : StageTable C)
    (n : ℕ) (past : List (Frame S)) (x : StageState S) where
  abbrev zeros : ℕ → List (Frame S)
  zeros up =
      replicate (window_frames k bits up down fixed16 t) (silent_frame k bits up down fixed16 t)

  -- `flush` writes what `process` writes for silence.
  abbrev pub Flushes : ℕ → Type 0
  Flushes up =
      (out : List (List S)) × (y z : StageState S) × (flush k bits up down fixed16 t x
        ≡ some (out, y))
      × (process k bits up down fixed16 t (zeros up) x ≡ some (out, z))
      × (length out ≡ flush_output_frames k bits up down fixed16 t x)
      × InStream k up down fixed16 t (n + length out) (past ++ zeros up) y

  abbrev flushed_frames : ℕ → List (List S)
  flushed_frames up =
      map (ideal_stage k up down fixed16 t (past ++ zeros up))
        (range_from n (flush_output_frames k bits up down fixed16 t x))

  -- `process` of the zeros, at either machine.
  process-zeros :
      (up : ℕ)
      → Fits up down
      → IsValid up down t
      → InStream k up down fixed16 t n past x
      → Counted bits up down (window_frames k bits up down fixed16 t)
      → (z : StageState S) × (process k bits up down fixed16 t (zeros up) x
          ≡ some (flushed_frames up, z))
        × InStream k up down fixed16 t
            (n + flush_output_frames k bits up down fixed16 t x)
            (past ++ zeros up)
            z
  unfolding flush_output_frames
  process-zeros up fits valid h c =
      let sized : length (zeros up) ≡ window_frames k bits up down fixed16 t =
        length-replicate (window_frames k bits up down fixed16 t)
          (silent_frame k bits up down fixed16 t) in
      rw sized at
        (process-ideal_stage k bits up down fixed16 t fits valid n past (zeros up) x h (rw sized c))

  length-flushed :
      (up : ℕ) → length (flushed_frames up) ≡ flush_output_frames k bits up down fixed16 t x
  length-flushed up = length-map_range _ n (flush_output_frames k bits up down fixed16 t x)

  flush-branch :
      Fits 1 down
      → IsValid 1 down t
      → InStream k 1 down fixed16 t n past x
      → Counted bits 1 down (window_frames k bits 1 down fixed16 t)
      → Flushes 1
  unfolding flush process
  flush-branch fits valid h c =
      let (z, ran, on) = process-zeros 1 fits valid h c in
      (flushed_frames 1, z, z, ran, ran, length-flushed 1, rw (length-flushed 1) on)

  flush-drain :
      (up : ℕ)
      → (up == 1) ≡ false
      → flush k bits up down fixed16 t x
        ≡ drain
            (machine k up down fixed16 t)
            (silent_frame k bits up down fixed16 t)
            (flush_output_frames k bits up down fixed16 t x + 1)
            (window_frames k bits up down fixed16 t)
            x
  unfolding flush
  flush-drain up many = rw many refl

  flush-phase :
      (up : ℕ)
      → (up == 1) ≡ false
      → Fits up down
      → IsValid up down t
      → InStream k up down fixed16 t n past x
      → Counted bits up down (window_frames k bits up down fixed16 t)
      → Flushes up
  unfolding flush_output_frames
  flush-phase up many fits valid h c =
      let (z, ran, on) = process-zeros up fits valid h c in
      let total = flush_output_frames k bits up down fixed16 t x in
      let window = window_frames k bits up down fixed16 t in
      let d =
        drain_lem (machine k up down fixed16 t) up down (stage_laws k up down fixed16 t fits valid)
          (silent_frame k bits up down fixed16 t) (total + 1) window n past x total h
          (outputs_for-ready_iff k bits up down fixed16 t fits valid n past x h window c)
          (omega arith) in
      (
        flushed_frames up,
        d.last,
        z,
        flush-drain up many ∙ d.ran ∙ (λ i. some (d.wrote i, d.last)),
        ran,
        length-flushed up,
        rw (length-flushed up) d.stands,
      )

module _ {S C A : Type 0} (k : Kernels S C A) (bits up down : ℕ) (fixed16 : Bool) (t : StageTable C)
    (fits : Fits up down) (valid : IsValid up down t) where
  -- In a stream, and while `std::size_t` has room for the counts: `flush` writes what `process` writes
  -- when it is given `window_frames` frames of silence, `flush_output_frames` frames, and leaves the
  -- stage in the stream behind them.
  pub flush-zeros :
      (n : ℕ) (past : List (Frame S)) (x : StageState S)
      → InStream k up down fixed16 t n past x
      → Counted bits up down (window_frames k bits up down fixed16 t)
      → Flushes k bits down fixed16 t n past x up
  flush-zeros n past x h c =
      by_machine
        (λ u.
          Fits u down
          → IsValid u down t
          → InStream k u down fixed16 t n past x
          → Counted bits u down (window_frames k bits u down fixed16 t)
          → Flushes k bits down fixed16 t n past x u)
        up (flush-branch k bits down fixed16 t n past x)
        (flush-phase k bits down fixed16 t n past x up) fits valid h c
