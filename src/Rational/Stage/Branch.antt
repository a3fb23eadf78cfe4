-- ===== src/Rational/Stage/Branch.antt =====
-- The decimator: one delay line for each residue of an input's index.
pub mod Cycle
use native.Mathlib.Nat.{
  mod-lt, mod-eq_of_lt, mod-add-mod, mod_self, zero-add, div-one, mul-mod_left,
}
use sample_rate_tap.Common.{
  ℕ, zero, suc, ◌+◌, ◌-◌, ◌*◌, ◌/◌, ◌%◌, ◌^◌, ◌≤◌, ◌<◌, ◌≡◌, refl, sym, ap, ap₂, ◌∙◌, arith, List,
  [], ◌∷◌, ◌++◌, map, length, length-append, take, take-append_le, take-all, range_from,
  map-range_cong, samples, newest, Holds, Holds-store, Holds-slide, ℕ_discrete, Bool-cases, inl,
  inr, ◌==◌, ==_iff, Bool, true, false, next_pos-mod, mod-complement, if◌then◌else◌,
}
use sample_rate_tap.Rational.Stage.{
  Kernels, Frame, StageTable, StageState, append_frame, consume_one, pending_inputs, sum_branches,
  emit_branches, finalize_output, emit, machine, line_span, k_rows,
}
use sample_rate_tap.Rational.Stage.Valid.{IsValid, span_of, line_span-eq}

module _ {A : Type 0} where
  -- The elements whose index, counted from `i`, is `s` modulo `m`.
  abbrev pub pick : ℕ → ℕ → ℕ → List A → List A
  pick m s i [] = []
  pick m s i (x ∷ xs) = let rest = pick m s (suc i) xs in if i % m == s then x ∷ rest else rest

  pick-here :
      (m s i : ℕ) (xs : List A) (x : A)
      → ((i + length xs) % m == s) ≡ true
      → pick m s i (xs ++ x ∷ []) ≡ pick m s i xs ++ x ∷ []
  pick-here m s i [] x h =
      let here : i + 0 ≡ i = omega arith in
      let now = ap (λ z. z % m == s) (sym here) ∙ h in rw now refl
  pick-here m s i (y ∷ xs) x h =
      let next : i + suc (length xs) ≡ suc i + length xs = omega arith in
      let rest = pick-here m s (suc i) xs x (ap (λ z. z % m == s) (sym next) ∙ h) in
      elim (Bool-cases (i % m == s)) [ inl on ↦ rw (on, rest) refl | inr off ↦ rw (off, rest) refl ]

  pick-elsewhere :
      (m s i : ℕ) (xs : List A) (x : A)
      → ((i + length xs) % m == s) ≡ false
      → pick m s i (xs ++ x ∷ []) ≡ pick m s i xs
  pick-elsewhere m s i [] x h =
      let here : i + 0 ≡ i = omega arith in
      let now = ap (λ z. z % m == s) (sym here) ∙ h in rw now refl
  pick-elsewhere m s i (y ∷ xs) x h =
      let next : i + suc (length xs) ≡ suc i + length xs = omega arith in
      let rest = pick-elsewhere m s (suc i) xs x (ap (λ z. z % m == s) (sym next) ∙ h) in
      elim (Bool-cases (i % m == s)) [ inl on ↦ rw (on, rest) refl | inr off ↦ rw (off, rest) refl ]

module _ {S C A : Type 0} (k : Kernels S C A) (down : ℕ) (fixed16 : Bool) (t : StageTable C) where
  sum_branches_cong :
      (v w : ℕ → List S) (n j : ℕ) (acc : A)
      → ((i : ℕ) → j ≤ i → i < j + n → v i ≡ w i)
      → sum_branches k 1 down fixed16 t v n j acc ≡ sum_branches k 1 down fixed16 t w n j acc
  unfolding sum_branches
  sum_branches_cong v w zero j acc h = refl
  sum_branches_cong v w (suc n) j acc h =
      rw (h j (omega arith) (omega arith))
        (sum_branches_cong v w n (suc j) _ (λ i lo hi. h i (omega arith) (omega arith)))

  -- What sub-line `s` has received of `past`.
  abbrev pub lane : ℕ → List (Frame S) → List (Frame S)
  lane s past = pick down s 0 past

  -- Output `n` of the stream `past`: each branch `j` against the newest samples that a residue has
  -- of the first n M + 1 frames.
  abbrev pub ideal_branch : List (Frame S) → ℕ → List S
  ideal_branch past n =
      map
        (λ c. finalize_output k 1 down fixed16 t (
          sum_branches k 1 down fixed16 t
            (λ j. span_of t j (
              newest k.silence t.row_len
                (samples c (lane ((down - j) % down) (take (n * down / 1 + 1) past)))))
            (k_rows 1 down) 0 k.accum))
        (range_from 0 t.channels)

  -- The machine has received `past`, has written `n` frames, and waits for `w` inputs.
  pub record InBranch (n : ℕ) (past : List (Frame S)) (w : ℕ) (x : StageState S) : Type 0 where
    pub held :
        (s : ℕ)
        → s < down
        → Holds k.silence t.row_len t.hist_cap t.channels (lane s past) (λ c. x.hist c s) (x.end s)
    pub cursor : x.dphase ≡ length past % down
    pub owed : w + length past ≡ n * down / 1 + 1
    pub small : w ≤ down

  module _ (some_down : 0 < down) (valid : IsValid 1 down t) where
    -- The next frame goes to the sub-line of its residue, and leaves the others.
    held_on :
        (past : List (Frame S)) (f : Frame S) (x : StageState S) (s : ℕ)
        → x.dphase ≡ length past % down
        → Holds k.silence t.row_len t.hist_cap t.channels (lane s past) (λ c. x.hist c s) (x.end s)
        → Holds k.silence t.row_len t.hist_cap t.channels
            (lane s (past ++ f ∷ []))
            (λ c. (append_frame k 1 down fixed16 t f x).hist c s)
            ((append_frame k 1 down fixed16 t f x).end s)
    unfolding append_frame
    held_on past f x s cursor h = elim (Bool-cases (s == x.dphase)) [
      | inl same ↦
          let sub : s ≡ x.dphase = (==_iff s x.dphase).0 same in
          let itself : (s == s) ≡ true = (==_iff s s).1 refl in
          rw (pick-here down s 0 past f (rw zero-add ((==_iff _ _).1 (sym cursor ∙ sym sub))))
            (elim (Bool-cases (x.end s == t.hist_cap)) [
              | inl full ↦
                  rw (← sub, full, itself)
                    (Holds-slide k.silence t.row_len valid.some_taps t.hist_cap t.channels
                      (lane s past) f (λ c. x.hist c s) (x.end s) h (omega (arith, valid.room)))
              | inr free ↦
                  rw (← sub, free, itself)
                    (Holds-store k.silence t.row_len valid.some_taps t.hist_cap t.channels
                      (lane s past) f (λ c. x.hist c s) (x.end s) h
                      (let top = h.high in ground arith))
            ])
      | inr other ↦
          rw (pick-elsewhere down s 0 past f (rw (zero-add, ← cursor) (ground arith)))
            (elim (Bool-cases (x.end x.dphase == t.hist_cap)) [
              | inl full ↦ rw (full, other) h
              | inr free ↦ rw (free, other) h
            ])
    ]

    pub append_frame-dphase :
        (f : Frame S) (x : StageState S) → (append_frame k 1 down fixed16 t f x).dphase ≡ x.dphase
    unfolding append_frame
    append_frame-dphase f x = elim (Bool-cases (x.end x.dphase == t.hist_cap)) [
      | inl full ↦ rw full refl
      | inr free ↦ rw free refl
    ]

    pub absorb_branch :
        (n : ℕ) (past : List (Frame S)) (f : Frame S) (w : ℕ) (x : StageState S)
        → InBranch n past (suc w) x
        → InBranch n
            (past ++ f ∷ [])
            w
            (consume_one k 1 down fixed16 t (append_frame k 1 down fixed16 t f x))
    unfolding consume_one
    absorb_branch n past f w x h = record {
      held = λ s lt. held_on past f x s h.cursor (h.held s lt);
      cursor =
          rw (append_frame-dphase f x, h.cursor)
            (next_pos-mod down (length past) some_down
              ∙ ap (λ z. z % down) (omega (arith, length-append past (f ∷ []))));
      owed = omega (arith, h.owed, length-append past (f ∷ []));
      small = omega (arith, h.small);
    }

    sample_at :
        (n : ℕ) (past : List (Frame S)) (x : StageState S) (c j : ℕ)
        → InBranch n past 0 x
        → c < t.channels
        → j < down
        → line_span k 1 down fixed16 t j (x.end ((down - j) % down)) (x.hist c ((down - j) % down))
          ≡ span_of t j (
              newest k.silence t.row_len
                (samples c (lane ((down - j) % down) (take (n * down / 1 + 1) past))))
    sample_at n past x c j h lt lo =
        let sub = (down - j) % down in
        line_span-eq 1 down t j (x.end sub) (x.hist c sub) valid lo
        ∙ ap (span_of t j) (
            (h.held sub (mod-lt (down - j) some_down)).window c lt
            ∙ ap (λ z. newest k.silence t.row_len (samples c (lane sub z))) (sym whole))
      where
        whole : take (n * down / 1 + 1) past ≡ past
        whole = take-all (n * down / 1 + 1) past (omega (arith, h.owed))

    pub emit_branch_lem :
        (n : ℕ) (past : List (Frame S)) (x : StageState S)
        → InBranch n past 0 x
        → (emit k 1 down fixed16 t x).0 ≡ ideal_branch past n
    unfolding emit emit_branches
    emit_branch_lem n past x h = map-range_cong _ _ 0 t.channels (λ c lo hi.
        ap (finalize_output k 1 down fixed16 t) (
          sum_branches_cong _ _ (k_rows 1 down) 0 k.accum
            (λ j lo hi'. sample_at n past x c j h (omega arith) (omega arith))))
