-- ===== src/Bridge/Converter/Produce.antt =====
-- The outer loop: how many frames it writes, and which.
use mathlib.Core.List.{append_assoc, append-nil}
use sample_rate_tap.Common.{
  ℕ, zero, suc, ◌+◌, ◌-◌, ◌*◌, ◌/◌, ◌%◌, ◌≤◌, ◌<◌, ◌≡◌, refl, sym, ap, ◌∙◌, some, List, [], ◌∷◌,
  ◌++◌, map, arith, length, take, drop, range_from, map-range_cong, samples, newest, take-append,
  take-append-drop, length-take, length-append, dec_lt, outputs_from-enough, outputs_from-short,
  length-drop, outputs_from, outputs-suc, advance_of, advance_of-mod, phase-mod, next_pos,
  next_pos-mod, floor_mono,
}
use native.Mathlib.Nat.{mod-lt, add-zero}
use native.Mathlib.Numerals.{add-one}
use sample_rate_tap.Bridge.Schedule.{Direction, k_phases, k_decimation, k_schedule, ScheduleEntry}
use sample_rate_tap.Bridge.Schedule.Entries.{k_schedule_lem, advance-le_two}
use sample_rate_tap.Bridge.Schedule.Need.{phases_pos}
use sample_rate_tap.Bridge.Table.{PhaseTable}
use sample_rate_tap.Bridge.Converter.{Kernels, Frame, Converter}
use sample_rate_tap.Bridge.Converter.Walk.{Walk, dot_phase, frame_of, emit_step, produce}
use sample_rate_tap.Bridge.Converter.Align.{At, fill_lem}

module _ {S C : Type 0} (k : Kernels S C) (d : Direction) (t : PhaseTable C) (ch : ℕ) where
  -- Output `n` of the stream `xs`: phase n M mod L against the newest samples of the first
  -- floor(n M / L) + 1 frames.
  abbrev pub ideal_frame : List (Frame S) → ℕ → List S
  ideal_frame xs n =
      frame_of k d t ch (n * k_decimation d % k_phases d)
        (λ i. newest k.silence t.taps (samples i (take (n * k_decimation d / k_phases d + 1) xs)))

  pub frame_of-cong :
      (p q : ℕ) (v w : ℕ → List S)
      → p ≡ q
      → ((i : ℕ) → i < ch → v i ≡ w i)
      → frame_of k d t ch p v ≡ frame_of k d t ch q w
  frame_of-cong p q v w e h =
      ap (λ r. frame_of k d t ch r v) e
      ∙ map-range_cong _ _ 0 ch (λ i lo hi. ap (dot_phase k d t q) (h i (omega arith)))

module _ {S C : Type 0} (k : Kernels S C) (d : Direction) (c : Converter S C) (ch : ℕ) where
  open k use {silence}

  abbrev L : ℕ
  L = k_phases d

  abbrev M : ℕ
  M = k_decimation d

  abbrev taps : ℕ
  taps = c.table.taps

  abbrev ideal : List (Frame S) → ℕ → List S
  ideal = ideal_frame k d c.table ch

  -- The walk has written `n` frames, its lines hold `past`, and `rest` is still to come.
  pub record Aligned (n : ℕ) (past rest : List (Frame S)) (w : Walk S) : Type 0 where
    pub at : At silence c.hist_cap taps ch past rest w
    pub cursor : w.pos ≡ n % L
    pub owed : w.pending + length past ≡ n * M / L + 1
    pub small : w.pending ≤ 2

  module _ (some_taps : 0 < taps) (room : taps < c.hist_cap) where
    entry_at :
        (n : ℕ) → k_schedule d (n % L) ≡ record { phase = n * M % L; advance = advance_of L M n }
    entry_at n = k_schedule_lem d (n % L) (mod-lt n (phases_pos d).0) ∙ (λ i. record {
      phase = phase-mod L M (phases_pos d).0 (phases_pos d).1 n i;
      advance = advance_of-mod L M (phases_pos d).0 (phases_pos d).1 n i;
    })

    -- What `emit_step` writes and where it leaves the cursor.
    pub emit_lem :
        (n : ℕ) (past rest : List (Frame S)) (w : Walk S)
        → At silence c.hist_cap taps ch past rest w
        → w.pos ≡ n % L
        → length past ≡ n * M / L + 1
        → Aligned (n + 1) past rest (emit_step k d c taps ch w)
          × ((emit_step k d c taps ch w).out ≡ w.out ++ ideal (past ++ rest) n ∷ [])
    unfolding emit_step
    emit_lem n past rest w h pos len = (
      record {
        at = record { held = h.held; ahead = h.ahead };
        cursor = rw pos (next_pos-mod L n (phases_pos d).0);
        owed = rw pos (omega (arith, owed_next));
        small = rw pos (advance-le_two d (n % L) (mod-lt n (phases_pos d).0));
      },
      ap (λ t. w.out ++ t ∷ [])
          (rw pos (
            frame_of-cong k d c.table ch _ _ _ _ (ap (λ (e : ScheduleEntry). e.phase) (entry_at n))
              (λ i li. h.held.window i li ∙ ap (λ t. newest silence taps (samples i t)) prefix))),
    )
      where
        prefix : past ≡ take (n * M / L + 1) (past ++ rest)
        prefix = sym (take-append (n * M / L + 1) past rest len)

        owed_next : (k_schedule d (n % L)).advance + (n * M / L + 1) ≡ (n + 1) * M / L + 1
        owed_next = rw (entry_at n) (
            omega (arith, floor_mono L M (phases_pos d).0 (phases_pos d).1 n (n + 1) (omega arith)))

    -- What the outer loop leaves, started with `past` received and `src` to come.
    pub record Produced (n total : ℕ) (past src : List (Frame S)) (w : Walk S) : Type 0 where
      pub walk : Walk S
      pub past' : List (Frame S)
      pub rest : List (Frame S)
      pub ran : produce k d c taps ch total w ≡ some walk
      pub split : past' ++ rest ≡ past ++ src
      pub aligned : Aligned (n + total) past' rest walk
      pub short : length rest < walk.pending
      pub wrote : walk.out ≡ w.out ++ map (ideal (past ++ src)) (range_from n total)

    -- With nothing to write, less is left than is owed.
    short_of_none : (pos pending a : ℕ) → outputs_from L M pos pending a ≡ 0 → a < pending
    short_of_none pos pending a e = elim (dec_lt a pending) [
      | yes lt ↦ lt
      | no ge ↦ absurd (
          omega (
            arith,
            outputs_from-enough L M (phases_pos d).0 (phases_pos d).1 pos pending a (omega arith),
          ))
    ]

    enough_of_suc :
        (pos pending a total : ℕ) → outputs_from L M pos pending a ≡ suc total → pending ≤ a
    enough_of_suc pos pending a total e = elim (dec_lt a pending) [
      | yes lt ↦
          absurd (
            omega
              (arith, outputs_from-short L M (phases_pos d).0 (phases_pos d).1 pos pending a lt))
      | no ge ↦ omega arith
    ]

    -- One round counts one output off.
    outputs_after :
        (w v : Walk S) (a b total : ℕ)
        → w.pos < L
        → v.pos ≡ w.pos
        → w.pending + b ≡ a
        → outputs_from L M w.pos w.pending a ≡ suc total
        → outputs_from L M (emit_step k d c taps ch v).pos (emit_step k d c taps ch v).pending b
          ≡ total
    unfolding emit_step
    outputs_after w v a b total lt pos split e =
        rw (pos, k_schedule_lem d w.pos lt)
          (omega (
            arith,
            outputs-suc L M (phases_pos d).0 (phases_pos d).1 w.pos w.pending a lt (omega arith),
            ap (outputs_from L M (next_pos L w.pos) (advance_of L M w.pos))
                (let left : a - w.pending ≡ b = omega arith in left),
          ))

    pub produce_lem :
        (total n : ℕ) (past src : List (Frame S)) (w : Walk S)
        → Aligned n past src w
        → outputs_from L M w.pos w.pending (length src) ≡ total
        → Produced n total past src w
    unfolding produce
    produce_lem zero n past src w a e = record {
      walk = w;
      past' = past;
      rest = src;
      ran = refl;
      split = refl;
      aligned = rw add-zero a;
      short = short_of_none w.pos w.pending (length src) e;
      wrote = sym (append-nil w.out);
    }
    produce_lem (suc total) n past src w a e =
        let enough : w.pending ≤ length src = enough_of_suc w.pos w.pending (length src) total e in
        let fs = take w.pending src in
        let rest = drop w.pending src in
        let parts : fs ++ rest ≡ src = take-append-drop w.pending src in
        let took : length fs ≡ w.pending = omega (arith, length-take w.pending src) in
        let (v, ran, at, pos, out) =
          fill_lem silence c.hist_cap taps ch some_taps room w.pending past fs rest w
            (rw parts a.at) took refl in
        let (al, wrote) =
          emit_lem n (past ++ fs) rest v at (pos ∙ a.cursor)
            (omega (arith, length-append past fs, a.owed)) in
        let whole : (past ++ fs) ++ rest ≡ past ++ src =
          append_assoc past fs rest ∙ ap (λ t. past ++ t) parts in
        let shifted : n + suc total ≡ suc n + total = omega arith in
        let more =
          produce_lem total (suc n) (past ++ fs) rest (emit_step k d c taps ch v) (rw add-one at al)
            (outputs_after w v (length src) (length rest) total
              (rw a.cursor (mod-lt n (phases_pos d).0)) pos
              (omega (arith, length-drop w.pending src)) e) in
        record {
          walk = more.walk;
          past' = more.past';
          rest = more.rest;
          ran = rw ran more.ran;
          split = more.split ∙ whole;
          aligned = rw shifted more.aligned;
          short = more.short;
          wrote =
              more.wrote
              ∙ ap (λ t. t ++ map (ideal ((past ++ fs) ++ rest)) (range_from (suc n) total))
                  (wrote ∙ ap (λ t. t ++ ideal ((past ++ fs) ++ rest) n ∷ []) out)
              ∙ append_assoc w.out (ideal ((past ++ fs) ++ rest) n ∷ []) _
              ∙ ap (λ t. w.out ++ map (ideal t) (range_from n (suc total))) whole;
        }
