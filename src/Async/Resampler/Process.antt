-- ===== src/Async/Resampler/Process.antt =====
-- What the resampler's `process` writes, and where it reads.
use mathlib.Core.List.{append_assoc, append-nil}
use native.Mathlib.Nat.{mod-lt}
use sample_rate_tap.Common.{
  ℕ, zero, suc, ◌+◌, ◌*◌, ◌/◌, ◌%◌, ◌≤◌, ◌<◌, ◌≡◌, ◌⊎◌, inl, inr, refl, sym, ap, ap₂, ◌∙◌, arith,
  not, ◌&&◌, List, [], ◌∷◌, ◌++◌, map, take, take-all, take-append_le, range_from, map-range_cong,
  length, length-append, Bool-cases, ◌==◌, if◌then◌else◌, u64, samples, newest,
}
use sample_rate_tap.Machine.Source.{Source}
use sample_rate_tap.Async.Resampler.{
  Kernels, Frame, FilterBank, Resampler, interpolate_phase, blend_row_phase, frame_at, append_times,
  advance_of_step, process_fixed,
}
use sample_rate_tap.Async.Resampler.Read.{
  pace, advance_of_step_lem, Reads, coming, append_times-Advanced,
}

-- The read positions of `n` outputs behind `at`.
abbrev pub positions : ℕ → ℕ → ℕ → List ℕ
positions step zero at = []
positions step (suc n) at = (at + step) ∷ positions step n (at + step)

advance-le : (eps_u phase : ℕ) → advance_of_step eps_u phase ≤ 2
advance-le eps_u phase = ground arith

module _ {S C A B D : Type 0} (k : Kernels S C A B D) (bank : FilterBank C) (ch : ℕ) where
  -- The output at read position `at` of a stream, in units of 2 ^ -64 of a frame: the bank at the
  -- fraction, against the newest samples of the first whole frames.
  abbrev pub ideal_at : List (Frame S) → ℕ → List S
  ideal_at past at =
      let window = λ (c : ℕ). newest k.silence bank.taps (samples c (take (at / u64) past)) in
      if (ch == 1) && not k.prefer_dot_row
      then interpolate_phase k bank (window 0) (at % u64) ∷ []
      else map (λ c. k.dot_row (blend_row_phase k bank (at % u64)) (window c)) (range_from 0 ch)

  frame_at_lem :
      (past : List (Frame S)) (m : ℕ) (z : Resampler S)
      → 0 < ch
      → m < u64
      → Reads k bank ch past z
      → frame_at k bank z m ≡ ideal_at past (length past * u64 + m)
  unfolding frame_at
  frame_at_lem past m z some lt h =
      let whole : (length past * u64 + m) / u64 ≡ length past = omega arith in
      let part : (length past * u64 + m) % u64 ≡ m = omega arith in
      let all : take (length past) past ≡ past = take-all (length past) past (omega arith) in
      rw (whole, part, all, h.planar)
        (elim (Bool-cases ((ch == 1) && not k.prefer_dot_row)) [
          | inl mono ↦ rw mono (
              ap (λ w. interpolate_phase k bank w m ∷ [])
                (h.held.window 0 (omega (arith, h.planar))))
          | inr many ↦ rw many (
              map-range_cong _ _ 0 ch (λ c lo hi.
                ap (k.dot_row (blend_row_phase k bank m))
                  (h.held.window c (omega (arith, h.planar)))))
        ])

  extends_at :
      (past more : List (Frame S)) (at : ℕ)
      → at / u64 ≤ length past
      → ideal_at past at ≡ ideal_at (past ++ more) at
  extends_at past more at le = rw (take-append_le (at / u64) past more le) refl

  wrote_cons :
      (stream : List (Frame S)) (o : List S) (out : List (List S)) (n step at next : ℕ)
      → next ≡ at + step
      → o ≡ ideal_at stream next
      → out ≡ map (ideal_at stream) (positions step n next)
      → o ∷ out ≡ map (ideal_at stream) (positions step (suc n) at)
  wrote_cons stream o out n step at next e first rest =
      ap₂ ◌∷◌ first rest
      ∙ ap (λ z. ideal_at stream z ∷ map (ideal_at stream) (positions step n z)) e

  module _ {Q : Type 0} (s : Source (Frame S) Q) (eps_u : ℕ) where
    abbrev start : List (Frame S) → Resampler S → ℕ
    start past x = length past * u64 + x.phase

    -- What a call for `count` frames leaves and writes.
    pub record Processed (count : ℕ) (past : List (Frame S)) (x : Resampler S) (q : Q)
        : Type 0 where
      pub out : List (List S)
      pub last : Resampler S
      pub left : Q
      pub taken : List (Frame S)
      pub ran : process_fixed k bank s.pop eps_u count x q ≡ (out, last, left)
      pub split : coming k bank s x q ≡ taken ++ coming k bank s last left
      pub reads : Reads k bank ch (past ++ taken) last
      pub phase : last.phase < u64
      pub dry : length out < count → length (coming k bank s x q) < 2 * count
      pub wrote :
          out ≡ map (ideal_at (past ++ taken)) (positions (pace eps_u) (length out) (start past x))
      pub outcome :
          (length out ≡ count) × (start (past ++ taken) last ≡ start past x + count * pace eps_u)
          ⊎ (length out < count) × (coming k bank s last left ≡ [])

    -- For a resampler whose lines hold the newest samples of `past`, with a channel, and any source that keeps
    -- to its contract: `process` ends, consumes a front of what is still to come, and writes for each
    -- output the bank's value at the exact read position, the start position and 1 + eps more for each
    -- output, in units of 2 ^ -64; it writes all the frames asked for, and then stands at the last
    -- position, or fewer, and then nothing is left to come.
    pub process_fixed-ideal_at :
        (count : ℕ) (past : List (Frame S)) (x : Resampler S) (q : Q)
        → 0 < ch
        → eps_u < u64
        → x.phase < u64
        → Reads k bank ch past x
        → Processed count past x q
    unfolding process_fixed
    process_fixed-ideal_at zero past x q some small lt h = record {
      out = [];
      last = x;
      left = q;
      taken = [];
      ran = refl;
      split = refl;
      reads = rw (append-nil past) h;
      phase = lt;
      dry = λ no. absurd (omega arith);
      wrote = refl;
      outcome = inl (refl, rw (append-nil past) (omega arith));
    }
    process_fixed-ideal_at (suc count) past x q some small lt h =
        let m = (x.phase + eps_u) % u64 in
        let a = append_times-Advanced k bank s ch (advance_of_step eps_u x.phase) past x q h in
        let y = (append_times k bank s.pop (advance_of_step eps_u x.phase) x q).1 in
        let left = (append_times k bank s.pop (advance_of_step eps_u x.phase) x q).2 in
        elim a.outcome [
          | inr (dry, fewer, over) ↦ record {
            out = [];
            last = y;
            left = left;
            taken = a.taken;
            ran = rw dry refl;
            split = a.split;
            reads = a.reads;
            phase = omega (arith, a.same_phase);
            dry = λ short.
                let spent = ap length a.split in
                let end = ap length over in
                omega
                  (arith, length-append a.taken (coming k bank s y left), advance-le eps_u x.phase);
            wrote = refl;
            outcome = inr (omega arith, over);
          }
          | inl (ok, all) ↦
              let past' = past ++ a.taken in
              let z = record y { phase = m } in
              let reads : Reads k bank ch past' z = record {
                some_taps = a.reads.some_taps;
                room = a.reads.room;
                planar = a.reads.planar;
                some_chunk = a.reads.some_chunk;
                held = a.reads.held;
              } in
              let part : m < u64 = mod-lt (x.phase + eps_u) (omega arith) in
              let r = process_fixed-ideal_at count past' z left some small part reads in
              let whole = append_assoc past a.taken r.taken in
              let step : start past' z ≡ start past x + pace eps_u =
                omega
                  (arith, advance_of_step_lem eps_u x.phase lt small, length-append past a.taken) in
              let more : suc count * pace eps_u ≡ pace eps_u + count * pace eps_u = grind arith in
              record {
                out = frame_at k bank z m ∷ r.out;
                last = r.last;
                left = r.left;
                taken = a.taken ++ r.taken;
                ran = rw (ok, r.ran) refl;
                split =
                    a.split
                    ∙ ap (λ t. a.taken ++ t) r.split
                    ∙ sym (append_assoc a.taken r.taken (coming k bank s r.last r.left));
                reads = rw (← whole) r.reads;
                phase = r.phase;
                dry = λ short.
                    let rest : length (coming k bank s y left) < 2 * count = r.dry (omega arith) in
                    let spent = ap length a.split in
                    omega (
                      arith,
                      length-append a.taken (coming k bank s y left),
                      advance-le eps_u x.phase,
                    );
                wrote =
                    wrote_cons (past ++ (a.taken ++ r.taken)) (frame_at k bank z m) r.out
                      (length r.out) (pace eps_u) (start past x) (start past' z) step
                      (frame_at_lem past' m z some part reads
                        ∙ extends_at past' r.taken (start past' z) (omega arith)
                        ∙ ap (λ t. ideal_at t (start past' z)) whole)
                      (r.wrote
                        ∙ ap
                            (λ t.
                              map (ideal_at t)
                                (positions (pace eps_u) (length r.out) (start past' z)))
                            whole);
                outcome = elim r.outcome [
                  | inl (full, end) ↦
                      inl (ap suc full, rw (← whole) (omega (arith, end, step, more)))
                  | inr (fewer, over) ↦ inr (omega arith, over)
                ];
              }
        ]
