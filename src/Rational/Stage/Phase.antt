-- ===== src/Rational/Stage/Phase.antt =====
-- The L-phase machine: an interpolator or a mixed ratio.
use native.Mathlib.Nat.{mod-lt}
use sample_rate_tap.Common.{
  ℕ, suc, ◌+◌, ◌*◌, ◌/◌, ◌%◌, ◌≤◌, ◌<◌, ◌≡◌, refl, sym, ap, ◌∙◌, arith, List, [], ◌∷◌, ◌++◌, map,
  length, length-append, take, take-append_le, take-all, range_from, map-range_cong, samples,
  newest, Holds, Holds-store, Holds-slide, Bool-cases, inl, inr, ◌==◌, Bool, false, next_pos-mod,
  advance_of, advance_of-mod, phase-mod, floor_mono, sub_w, u32,
}
use sample_rate_tap.Machine.Laws.{Laws}
use sample_rate_tap.Rational.Stage.{
  Kernels, Frame, StageTable, StageState, append_frame, consume_one, pending_inputs, dot_phase,
  emit_phase, emit, machine, k_schedule, line_span, k_rows,
}
use sample_rate_tap.Rational.Stage.Schedule.{Fits, k_schedule_lem, advance-le, ceil-le}
use sample_rate_tap.Rational.Stage.Valid.{IsValid, span_of, line_span-eq}

module _ {S C A : Type 0} (k : Kernels S C A) (up down : ℕ) (fixed16 : Bool)
    (t : StageTable C) where
  -- Output `n` of the stream `past`: phase n M mod L against the newest samples of the first
  -- floor(n M / L) + 1 frames.
  abbrev pub ideal_phase : List (Frame S) → ℕ → List S
  ideal_phase past n =
      let phase = n * down % up in
      map
        (λ c. dot_phase k up down fixed16 t phase (
          span_of t phase (newest k.silence t.row_len (samples c (take (n * down / up + 1) past)))))
        (range_from 0 t.channels)

  -- The machine has received `past`, has written `n` frames, and waits for `w` inputs.
  pub record InPhase (n : ℕ) (past : List (Frame S)) (w : ℕ) (x : StageState S) : Type 0 where
    pub held : Holds k.silence t.row_len t.hist_cap t.channels past (λ c. x.hist c 0) (x.end 0)
    pub cursor : x.pos ≡ n % up
    pub waits : x.pending ≡ w
    pub owed : w + length past ≡ n * down / up + 1
    pub small : w ≤ down

  module _ (fits : Fits up down) (many : (up == 1) ≡ false) (valid : IsValid up down t) where
    pub absorb_phase :
        (n : ℕ) (past : List (Frame S)) (f : Frame S) (w : ℕ) (x : StageState S)
        → InPhase n past (suc w) x
        → InPhase n
            (past ++ f ∷ [])
            w
            (consume_one k up down fixed16 t (append_frame k up down fixed16 t f x))
    unfolding consume_one append_frame
    absorb_phase n past f w x h = elim (Bool-cases (x.end 0 == t.hist_cap)) [
      | inl full ↦
          rw (many, full)
            (record {
              held =
                  Holds-slide k.silence t.row_len valid.some_taps t.hist_cap t.channels past f
                    (λ c. x.hist c 0) (x.end 0) h.held (omega (arith, valid.room));
              cursor = h.cursor;
              waits = rw h.waits less;
              owed = owed;
              small = omega (arith, h.small);
            })
      | inr free ↦
          rw (many, free)
            (record {
              held =
                  Holds-store k.silence t.row_len valid.some_taps t.hist_cap t.channels past f
                    (λ c. x.hist c 0) (x.end 0) h.held (let top = h.held.high in ground arith);
              cursor = h.cursor;
              waits = rw h.waits less;
              owed = owed;
              small = omega (arith, h.small);
            })
    ]
      where
        less : sub_w u32 (suc w) 1 ≡ w
        less = omega (arith, h.small, fits.word)

        owed : w + length (past ++ f ∷ []) ≡ n * down / up + 1
        owed = omega (arith, h.owed, length-append past (f ∷ []))

    entry_at :
        (n : ℕ)
        → k_schedule up down (n % up)
          ≡ record { phase = n * down % up; advance = advance_of up down n }
    entry_at n = k_schedule_lem up down fits (n % up) (mod-lt n fits.some_up) ∙ (λ i. record {
      phase = phase-mod up down fits.some_up fits.some_down n i;
      advance = advance_of-mod up down fits.some_up fits.some_down n i;
    })

    -- A line's part against a row is the row's part of the newest samples.
    sample_at :
        (n : ℕ) (past : List (Frame S)) (x : StageState S) (c : ℕ)
        → InPhase n past 0 x
        → c < t.channels
        → line_span k up down fixed16 t (n * down % up) (x.end 0) (x.hist c 0)
          ≡ span_of t
              (n * down % up)
              (newest k.silence t.row_len (samples c (take (n * down / up + 1) past)))
    sample_at n past x c h lt =
        line_span-eq up down t (n * down % up) (x.end 0) (x.hist c 0) valid in_rows
        ∙ ap (span_of t (n * down % up))
            (h.held.window c lt ∙ ap (λ z. newest k.silence t.row_len (samples c z)) (sym whole))
      where
        in_rows : n * down % up < k_rows up down
        in_rows = rw many (mod-lt (n * down) fits.some_up)

        whole : take (n * down / up + 1) past ≡ past
        whole = take-all (n * down / up + 1) past (omega (arith, h.owed))

    pub emit_phase_lem :
        (n : ℕ) (past : List (Frame S)) (x : StageState S)
        → InPhase n past 0 x
        → InPhase
            (suc n)
            past
            (pending_inputs k up down fixed16 t (emit k up down fixed16 t x).1)
            (emit k up down fixed16 t x).1
          × ((emit k up down fixed16 t x).0 ≡ ideal_phase past n)
    unfolding emit emit_phase pending_inputs
    emit_phase_lem n past x h =
        rw (many, h.cursor, entry_at n)
          (
            record {
              held = h.held;
              cursor =
                  next_pos-mod up n fits.some_up
                  ∙ ap (λ z. z % up) (let e : n + 1 ≡ suc n = omega arith in e);
              waits = refl;
              owed = omega (
                arith,
                h.owed,
                floor_mono up down fits.some_up fits.some_down n (n + 1) (omega arith),
                next,
              );
              small = omega (arith, advance-le up down fits n, ceil-le up down fits);
            },
            map-range_cong _ _ 0 t.channels (λ c lo hi.
                ap (dot_phase k up down fixed16 t (n * down % up))
                  (sample_at n past x c h (omega arith))),
          )
      where
        next : suc n * down / up ≡ (n + 1) * down / up
        next = ap (λ z. z * down / up) (let e : suc n ≡ n + 1 = omega arith in e)

    pub need_phase :
        (n : ℕ) (past : List (Frame S)) (w : ℕ) (x : StageState S)
        → InPhase n past w x
        → pending_inputs k up down fixed16 t x ≡ w
    unfolding pending_inputs
    need_phase n past w x h = rw many h.waits

    pub extends_phase :
        (n : ℕ) (past more : List (Frame S))
        → n * down / up + 1 ≤ length past
        → ideal_phase past n ≡ ideal_phase (past ++ more) n
    extends_phase n past more h = rw (take-append_le (n * down / up + 1) past more h) refl

    abbrev pub phase_laws : Laws (machine k up down fixed16 t) up down
    phase_laws = record {
      Stands = InPhase;
      ideal = ideal_phase;
      some_up = fits.some_up;
      some_down = fits.some_down;
      owed = λ n past w x h. h.owed;
      need_eq = λ n past w x h. need_phase n past (suc w) x h;
      absorb_on = absorb_phase;
      emit_on = λ n past x h. (emit_phase_lem n past x h).0;
      emit_ideal = λ n past x h. (emit_phase_lem n past x h).1;
      extends = extends_phase;
    }
