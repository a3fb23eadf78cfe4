-- ===== src/Async/Resampler/Read.antt =====
-- What the resampler reads of its source.
use mathlib.Core.List.{append_assoc, append-nil}
use sample_rate_tap.Common.{
  ℕ, zero, suc, ◌+◌, ◌*◌, ◌%◌, ◌^◌, ◌<◌, ◌≡◌, ◌⊎◌, inl, inr, refl, sym, ap, ◌∙◌, arith, Bool, true,
  false, List, [], ◌∷◌, ◌++◌, length, Bool-cases, ◌==◌, if◌then◌else◌, u64, Holds, Holds-store,
  Holds-slide, ltb, mod_wrap,
}
use sample_rate_tap.Machine.Source.{Source}
use sample_rate_tap.Async.Resampler.{
  Kernels, Frame, FilterBank, Resampler, compact, take_in, append_from, append_one, append_times,
  advance_of_step,
}

-- What an output advances the read position by, in units of 2 ^ -64 of an input frame.
abbrev pub pace : ℕ → ℕ
pace eps_u = if ltb eps_u (2 ^ 63) then u64 + eps_u else eps_u

-- The integer advance that the loop reads off the wrap-around of the 64-bit phase, 0, 1 or 2 frames, and
-- the new phase together are the old phase advanced by exactly 1 + eps.
pub advance_of_step_lem :
    (eps_u phase : ℕ)
    → phase < u64
    → eps_u < u64
    → advance_of_step eps_u phase * u64 + (phase + eps_u) % u64 ≡ phase + pace eps_u
advance_of_step_lem eps_u phase hp he = elim (mod_wrap u64 (phase + eps_u) (omega arith)) [
  | inl (lt, e) ↦ rw e (ground arith)
  | inr (ge, e) ↦ rw e (ground arith)
]

module _ {S C A B D : Type 0} (k : Kernels S C A B D) (bank : FilterBank C) where
  -- The lines hold the newest samples of `past`.
  pub record Reads (ch : ℕ) (past : List (Frame S)) (x : Resampler S) : Type 0 where
    pub some_taps : 0 < bank.taps
    pub room : bank.taps < x.hist_cap
    pub planar : x.channels ≡ ch
    pub some_chunk : 0 < x.chunk
    pub held : Holds k.silence bank.taps x.hist_cap x.channels past x.hist x.end

  take_in-Reads :
      (ch : ℕ) (past : List (Frame S)) (f : Frame S) (fs : List (Frame S)) (x : Resampler S)
      → Reads ch past x
      → Reads ch (past ++ f ∷ []) (take_in k bank (f ∷ fs) x).1
  unfolding compact
  take_in-Reads ch past f fs x h = elim (Bool-cases (x.end == x.hist_cap)) [
    | inl full ↦ rw full (record {
      some_taps = h.some_taps;
      room = h.room;
      planar = h.planar;
      some_chunk = h.some_chunk;
      held =
          Holds-slide k.silence bank.taps h.some_taps x.hist_cap x.channels past f x.hist x.end
            h.held h.room;
    })
    | inr free ↦ rw free (record {
      some_taps = h.some_taps;
      room = h.room;
      planar = h.planar;
      some_chunk = h.some_chunk;
      held =
          Holds-store k.silence bank.taps h.some_taps x.hist_cap x.channels past f x.hist x.end
            h.held (let top = h.held.high in ground arith);
    })
  ]

  module _ {Q : Type 0} (s : Source (Frame S) Q) where
    -- What the filter has still to consume.
    abbrev pub coming : Resampler S → Q → List (Frame S)
    coming x q = x.scratch ++ s.ahead q

    -- How one append ends.
    record Appended (ch : ℕ) (past : List (Frame S)) (x : Resampler S) (q : Q)
        (r : Bool × Resampler S × Q) : Type 0 where
      same_phase : r.1.phase ≡ x.phase
      outcome :
          (r.0 ≡ true)
            × ((f : Frame S) × (coming x q ≡ f ∷ coming r.1 r.2) × Reads ch (past ++ f ∷ []) r.1)
          ⊎ (r.0 ≡ false) × (coming x q ≡ []) × (coming r.1 r.2 ≡ []) × Reads ch past r.1

    pub take_in-phase :
        (fs : List (Frame S)) (x : Resampler S) → (take_in k bank fs x).1.phase ≡ x.phase
    unfolding compact
    take_in-phase [] x = refl
    take_in-phase (f ∷ fs) x = elim (Bool-cases (x.end == x.hist_cap)) [
      | inl full ↦ rw full refl
      | inr free ↦ rw free refl
    ]

    take_in-Appended :
        (ch : ℕ) (past fs : List (Frame S)) (x : Resampler S) (q left : Q)
        → Reads ch past x
        → coming x q ≡ fs ++ s.ahead left
        → (fs ≡ [] → s.ahead left ≡ [])
        → Appended ch past x q ((take_in k bank fs x).0, (take_in k bank fs x).1, left)
    take_in-Appended ch past [] x q left h split none_left = record {
      same_phase = refl;
      outcome = inr (
        refl,
        split ∙ none_left refl,
        none_left refl,
        record {
          some_taps = h.some_taps;
          room = h.room;
          planar = h.planar;
          some_chunk = h.some_chunk;
          held = h.held;
        },
      );
    }
    take_in-Appended ch past (f ∷ fs) x q left h split none_left = record {
      same_phase = take_in-phase (f ∷ fs) x;
      outcome = inl (refl, (f, split, take_in-Reads ch past f fs x h));
    }

    append_from-Appended :
        (ch : ℕ) (past fs : List (Frame S)) (x : Resampler S) (q : Q)
        → Reads ch past x
        → x.scratch ≡ fs
        → Appended ch past x q (append_from k bank s.pop fs x q)
    append_from-Appended ch past [] x q h e =
        let split : coming x q ≡ (s.pop x.chunk q).1 ++ s.ahead (s.pop x.chunk q).0 =
          ap (λ z. z ++ s.ahead q) e ∙ s.delivers x.chunk q in
        take_in-Appended ch past (s.pop x.chunk q).1 x q (s.pop x.chunk q).0 h split (λ none.
          ap (λ z. z ++ s.ahead (s.pop x.chunk q).0) (sym none)
          ∙ sym (s.delivers x.chunk q)
          ∙ s.ended x.chunk q h.some_chunk (ap length none))
    append_from-Appended ch past (f ∷ fs) x q h e =
        take_in-Appended ch past (f ∷ fs) x q q h (ap (λ z. z ++ s.ahead q) e)
          (λ none. absurd (let more = ap length none in omega arith))

    append_one-Appended :
        (ch : ℕ) (past : List (Frame S)) (x : Resampler S) (q : Q)
        → Reads ch past x
        → Appended ch past x q (append_one k bank s.pop x q)
    unfolding append_one
    append_one-Appended ch past x q h = append_from-Appended ch past x.scratch x q h refl

    -- How `n` appends end.
    pub record Advanced (ch n : ℕ) (past : List (Frame S)) (x : Resampler S) (q : Q)
        (r : Bool × Resampler S × Q) : Type 0 where
      pub same_phase : r.1.phase ≡ x.phase
      pub taken : List (Frame S)
      pub split : coming x q ≡ taken ++ coming r.1 r.2
      pub reads : Reads ch (past ++ taken) r.1
      pub outcome :
          (r.0 ≡ true) × (length taken ≡ n)
          ⊎ (r.0 ≡ false) × (length taken < n) × (coming r.1 r.2 ≡ [])

    pub append_times-Advanced :
        (ch n : ℕ) (past : List (Frame S)) (x : Resampler S) (q : Q)
        → Reads ch past x
        → Advanced ch n past x q (append_times k bank s.pop n x q)
    unfolding append_times
    append_times-Advanced ch zero past x q h = record {
      same_phase = refl;
      taken = [];
      split = refl;
      reads = rw (append-nil past) h;
      outcome = inl (refl, refl);
    }
    append_times-Advanced ch (suc n) past x q h =
        let a = append_one-Appended ch past x q h in
        elim a.outcome [
          | inr (dry, spent, over, reads) ↦ rw dry (record {
            same_phase = a.same_phase;
            taken = [];
            split = spent ∙ sym over;
            reads = rw (append-nil past) reads;
            outcome = inr (refl, omega arith, over);
          })
          | inl (ok, (f, split, reads)) ↦
              let y = (append_one k bank s.pop x q).1 in
              let left = (append_one k bank s.pop x q).2 in
              let r = append_times-Advanced ch n (past ++ f ∷ []) y left reads in
              rw ok (record {
                same_phase = r.same_phase ∙ a.same_phase;
                taken = f ∷ r.taken;
                split = split ∙ ap (λ z. f ∷ z) r.split;
                reads = rw (append_assoc past (f ∷ []) r.taken) at r.reads;
                outcome = elim r.outcome [
                  | inl (on, all) ↦ inl (on, ap suc all)
                  | inr (off, fewer, over) ↦ inr (off, omega arith, over)
                ];
              })
        ]
