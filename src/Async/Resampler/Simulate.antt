-- ===== src/Async/Resampler/Simulate.antt =====
-- The resampler on two sources that deliver the same frames.
use mathlib.Core.Path.{subst}
use sample_rate_tap.Common.{
  ℕ, zero, suc, ◌+◌, ◌%◌, ◌≤◌, ◌≡◌, refl, sym, ap, arith, inl, inr, List, [], ◌∷◌, length,
  Bool-cases, ◌==◌, u64,
}
use sample_rate_tap.Machine.{Pop}
use sample_rate_tap.Async.Resampler.{
  Kernels, Frame, FilterBank, Resampler, compact, take_in, append_from, append_one, append_times,
  prime, frame_at, advance_of_step, process_fixed,
}

module _ {S C A B D : Type 0} (k : Kernels S C A B D) (bank : FilterBank C) (ch chunk : ℕ) where
  -- The members that the constructor sets for good, and a staging buffer that is not overfull.
  pub record Fits (x : Resampler S) : Type 0 where
    pub planar : x.channels ≡ ch
    pub asks : x.chunk ≡ chunk
    pub capacity : x.hist_cap ≡ bank.taps + chunk
    pub staged : length x.scratch ≤ chunk

  take_in-Fits :
      (fs : List (Frame S)) (x : Resampler S)
      → length fs ≤ chunk
      → Fits x
      → Fits (take_in k bank fs x).1
  unfolding compact
  take_in-Fits [] x le h = record {
    planar = h.planar;
    asks = h.asks;
    capacity = h.capacity;
    staged = omega arith;
  }
  take_in-Fits (f ∷ fs) x le h = elim (Bool-cases (x.end == x.hist_cap)) [
    | inl full ↦
        rw full
          (record { planar = h.planar; asks = h.asks; capacity = h.capacity; staged = omega arith })
    | inr free ↦
        rw free
          (record { planar = h.planar; asks = h.asks; capacity = h.capacity; staged = omega arith })
  ]

  module _ {Q P : Type 0} (pop : Pop (Frame S) Q) (pop' : Pop (Frame S) P) (R : Q → P → Type 0)
      (agree : (q : Q) (p : P)
        → R q p
        → ((pop chunk q).1 ≡ (pop' chunk p).1)
          × R (pop chunk q).0 (pop' chunk p).0
          × (length (pop' chunk p).1 ≤ chunk)) where
    -- Two results alike, with their sources still related.
    pub record Alike {X : Type 0} (r : X × Resampler S × Q) (t : X × Resampler S × P) : Type 0 where
      pub result : r.0 ≡ t.0
      pub state : r.1 ≡ t.1
      pub sources : R r.2 t.2
      pub fits : Fits t.1

    append_from-Alike :
        (fs : List (Frame S)) (x : Resampler S) (q : Q) (p : P)
        → length fs ≤ chunk
        → Fits x
        → R q p
        → Alike (append_from k bank pop fs x q) (append_from k bank pop' fs x p)
    append_from-Alike [] x q p le h rel =
        let (same, on, short) =
          subst
            (λ z.
              ((pop z q).1 ≡ (pop' z p).1)
              × R (pop z q).0 (pop' z p).0
              × (length (pop' z p).1 ≤ chunk))
            (sym h.asks) (agree q p rel) in
        record {
          result = ap (λ z. (take_in k bank z x).0) same;
          state = ap (λ z. (take_in k bank z x).1) same;
          sources = on;
          fits = take_in-Fits (pop' x.chunk p).1 x short h;
        }
    append_from-Alike (f ∷ fs) x q p le h rel = record {
      result = refl;
      state = refl;
      sources = rel;
      fits = take_in-Fits (f ∷ fs) x le h;
    }

    append_one-Alike :
        (x : Resampler S) (q : Q) (p : P)
        → Fits x
        → R q p
        → Alike (append_one k bank pop x q) (append_one k bank pop' x p)
    unfolding append_one
    append_one-Alike x q p h rel = append_from-Alike x.scratch x q p h.staged h rel

    append_times-Alike :
        (n : ℕ) (x : Resampler S) (q : Q) (p : P)
        → Fits x
        → R q p
        → Alike (append_times k bank pop n x q) (append_times k bank pop' n x p)
    unfolding append_times
    append_times-Alike zero x q p h rel = record {
      result = refl;
      state = refl;
      sources = rel;
      fits = h;
    }
    append_times-Alike (suc n) x q p h rel =
        let a = append_one-Alike x q p h rel in
        let y = (append_one k bank pop' x p).1 in
        let left = (append_one k bank pop x q).2 in
        let left' = (append_one k bank pop' x p).2 in
        let r = append_times-Alike n y left left' a.fits a.sources in
        rw (a.state, a.result)
          (elim (Bool-cases (append_one k bank pop' x p).0) [
            | inl ok ↦ rw ok r
            | inr dry ↦
                rw dry (record { result = refl; state = refl; sources = a.sources; fits = a.fits })
          ])

    pub prime-Alike :
        (x : Resampler S) (q : Q) (p : P)
        → Fits x
        → R q p
        → Alike (prime k bank pop x q) (prime k bank pop' x p)
    unfolding prime
    prime-Alike x q p h rel =
        let a = append_times-Alike bank.taps x q p h rel in
        rw (a.state, a.result)
          (elim (Bool-cases (append_times k bank pop' bank.taps x p).0) [
            | inl ok ↦ rw ok (record {
              result = refl;
              state = refl;
              sources = a.sources;
              fits = record {
                planar = a.fits.planar;
                asks = a.fits.asks;
                capacity = a.fits.capacity;
                staged = a.fits.staged;
              };
            })
            | inr dry ↦
                rw dry (record { result = refl; state = refl; sources = a.sources; fits = a.fits })
          ])

    pub process_fixed-Alike :
        (eps_u count : ℕ) (x : Resampler S) (q : Q) (p : P)
        → Fits x
        → R q p
        → Alike
            (process_fixed k bank pop eps_u count x q)
            (process_fixed k bank pop' eps_u count x p)
    unfolding process_fixed
    process_fixed-Alike eps_u zero x q p h rel = record {
      result = refl;
      state = refl;
      sources = rel;
      fits = h;
    }
    process_fixed-Alike eps_u (suc count) x q p h rel =
        let n = advance_of_step eps_u x.phase in
        let a = append_times-Alike n x q p h rel in
        let y = (append_times k bank pop' n x p).1 in
        let left = (append_times k bank pop n x q).2 in
        let left' = (append_times k bank pop' n x p).2 in
        let z = record y { phase = (x.phase + eps_u) % u64 } in
        let fits : Fits z = record {
          planar = a.fits.planar;
          asks = a.fits.asks;
          capacity = a.fits.capacity;
          staged = a.fits.staged;
        } in
        let r = process_fixed-Alike eps_u count z left left' fits a.sources in
        rw (a.state, a.result)
          (elim (Bool-cases (append_times k bank pop' n x p).0) [
            | inl ok ↦ rw ok (record {
              result = ap (λ t. frame_at k bank z ((x.phase + eps_u) % u64) ∷ t) r.result;
              state = r.state;
              sources = r.sources;
              fits = r.fits;
            })
            | inr dry ↦
                rw dry (record { result = refl; state = refl; sources = a.sources; fits = a.fits })
          ])
