-- ===== src/Async/Resampler/Prime.antt =====
-- The fill of the lines from a reset.
use mathlib.Core.List.{append_assoc, append-nil, map-append}
use native.Mathlib.Numerals.{add-one}
use sample_rate_tap.Common.{
  ℕ, zero, suc, ◌+◌, ◌-◌, ◌≤◌, ◌<◌, ◌≡◌, refl, sym, ap, ◌∙◌, arith, Bool, true, false, List, [],
  ◌∷◌, ◌++◌, length, length-append, length-set, take, drop, replicate, ◌==◌, Holds, samples, newest,
  store_frame, take-set, lt→ltb,
}
use sample_rate_tap.Machine.Source.{Source}
use sample_rate_tap.Async.Resampler.{
  Kernels, Frame, FilterBank, Resampler, compact, take_in, append_from, append_one, append_times,
  prime, reset,
}
use sample_rate_tap.Async.Resampler.Read.{Reads, coming, take_in-phase}
use sample_rate_tap.Async.Resampler.Simulate.{Fits}

module _ {S : Type 0} where
  length-samples : (i : ℕ) (past : List (Frame S)) → length (samples i past) ≡ length past
  length-samples i [] = refl
  length-samples i (f ∷ past) = ap suc (length-samples i past)

  drop-replicate : (n : ℕ) (a : S) (xs : List S) → drop n (replicate n a ++ xs) ≡ xs
  drop-replicate zero a xs = refl
  drop-replicate (suc n) a xs = drop-replicate n a xs

  newest-exact :
      (silence : S) (taps : ℕ) (xs : List S) → length xs ≡ taps → newest silence taps xs ≡ xs
  newest-exact silence taps xs e = rw e (drop-replicate taps silence xs)

module _ {S C A B D : Type 0} (k : Kernels S C A B D) (bank : FilterBank C) (ch chunk : ℕ)
    (some_taps : 0 < bank.taps) (some_chunk : 0 < chunk) where
  -- The first samples of the lines are those of `past`, and the lines end with them.
  pub record Primes (past : List (Frame S)) (x : Resampler S) : Type 0 where
    fits : Fits k bank ch chunk x
    sized : (i : ℕ) → length (x.hist i) ≡ x.hist_cap
    at : x.end ≡ length past
    front : (i : ℕ) → i < ch → take x.end (x.hist i) ≡ samples i past

  stored_sized :
      (past : List (Frame S)) (f : Frame S) (x : Resampler S)
      → Primes past x
      → (i : ℕ) → length (store_frame x.channels f x.hist x.end i) ≡ x.hist_cap
  stored_sized past f x h i = ground (arith, h.sized i, length-set (x.hist i) x.end (f i))

  stored_front :
      (past : List (Frame S)) (f : Frame S) (x : Resampler S)
      → length past < bank.taps
      → Primes past x
      → (i : ℕ) → i < ch
      → take (x.end + 1) (store_frame x.channels f x.hist x.end i) ≡ samples i (past ++ f ∷ [])
  stored_front past f x more h i lt = rw (
    h.fits.planar,
    lt→ltb i ch lt,
    add-one,
    take-set x.end (x.hist i) (f i) (omega (arith, h.sized i, h.at, h.fits.capacity)),
    h.front i lt,
    map-append (λ (g : Frame S). g i) past (f ∷ []),
  )

  take_in-Primes :
      (past fs : List (Frame S)) (f : Frame S) (x : Resampler S)
      → length past < bank.taps
      → length (f ∷ fs) ≤ chunk
      → Primes past x
      → Primes (past ++ f ∷ []) (take_in k bank (f ∷ fs) x).1
  unfolding compact
  take_in-Primes past fs f x more le h =
      let free : (x.end == x.hist_cap) ≡ false =
        let c = h.fits.capacity in let e = h.at in ground arith in
      rw free (record {
        fits = record {
          planar = h.fits.planar;
          asks = h.fits.asks;
          capacity = h.fits.capacity;
          staged = omega arith;
        };
        sized = λ i. stored_sized past f x h i;
        at = omega (arith, h.at, length-append past (f ∷ []));
        front = λ i lt. stored_front past f x more h i lt;
      })

  module _ {Q : Type 0} (s : Source (Frame S) Q) where
    -- Appends that found their frames.
    pub record Filled (n : ℕ) (past : List (Frame S)) (x : Resampler S) (q : Q)
        (r : Bool × Resampler S × Q) : Type 0 where
      pub ok : r.0 ≡ true
      pub same_phase : r.1.phase ≡ x.phase
      pub taken : List (Frame S)
      pub split : coming k bank s x q ≡ taken ++ coming k bank s r.1 r.2
      pub count : length taken ≡ n
      pub primes : Primes (past ++ taken) r.1

    take_in-Filled :
        (past got : List (Frame S)) (x : Resampler S) (q left : Q)
        → length past < bank.taps
        → 0 < length (coming k bank s x q)
        → length got ≤ chunk
        → coming k bank s x q ≡ got ++ s.ahead left
        → (got ≡ [] → s.ahead left ≡ [])
        → Primes past x
        → Filled 1 past x q ((take_in k bank got x).0, (take_in k bank got x).1, left)
    take_in-Filled past [] x q left more some le split none h =
        absurd (let e = ap length (split ∙ none refl) in omega arith)
    take_in-Filled past (f ∷ fs) x q left more some le split none h = record {
      ok = refl;
      same_phase = take_in-phase k bank s (f ∷ fs) x;
      taken = f ∷ [];
      split = split;
      count = refl;
      primes = take_in-Primes past fs f x more le h;
    }

    append_from-Filled :
        (past fs : List (Frame S)) (x : Resampler S) (q : Q)
        → length past < bank.taps
        → 0 < length (coming k bank s x q)
        → x.scratch ≡ fs
        → Primes past x
        → Filled 1 past x q (append_from k bank s.pop fs x q)
    append_from-Filled past [] x q more some e h =
        let n = x.chunk in
        take_in-Filled past (s.pop n q).1 x q (s.pop n q).0 more some
          (omega (arith, s.fits n q, h.fits.asks)) (ap (λ z. z ++ s.ahead q) e ∙ s.delivers n q)
          (λ none.
            ap (λ z. z ++ s.ahead (s.pop n q).0) (sym none)
            ∙ sym (s.delivers n q)
            ∙ s.ended n q (omega (arith, h.fits.asks)) (ap length none))
          h
    append_from-Filled past (f ∷ fs) x q more some e h =
        take_in-Filled past (f ∷ fs) x q q more some
          (let le = h.fits.staged in let e' = ap length e in omega arith)
          (ap (λ z. z ++ s.ahead q) e) (λ none. absurd (let no = ap length none in omega arith)) h

    append_times-Filled :
        (n : ℕ) (past : List (Frame S)) (x : Resampler S) (q : Q)
        → length past + n ≤ bank.taps
        → n ≤ length (coming k bank s x q)
        → Primes past x
        → Filled n past x q (append_times k bank s.pop n x q)
    unfolding append_times append_one
    append_times-Filled zero past x q room enough h = record {
      ok = refl;
      same_phase = refl;
      taken = [];
      split = refl;
      count = refl;
      primes = rw (append-nil past) h;
    }
    append_times-Filled (suc n) past x q room enough h =
        let a = append_from-Filled past x.scratch x q (omega arith) (omega arith) refl h in
        let y = (append_from k bank s.pop x.scratch x q).1 in
        let left = (append_from k bank s.pop x.scratch x q).2 in
        let total : length (coming k bank s x q) ≡ 1 + length (coming k bank s y left) =
          ap length a.split
          ∙ omega (arith, a.count, length-append a.taken (coming k bank s y left)) in
        let longer : length (past ++ a.taken) ≡ length past + 1 =
          omega (arith, length-append past a.taken, a.count) in
        let r =
          append_times-Filled n (past ++ a.taken) y left (omega arith) (omega arith) a.primes in
        rw (a.ok) (record {
          ok = r.ok;
          same_phase = r.same_phase ∙ a.same_phase;
          taken = a.taken ++ r.taken;
          split = a.split ∙ ap (λ z. a.taken ++ z) r.split ∙ sym (append_assoc a.taken r.taken _);
          count = omega (arith, length-append a.taken r.taken, a.count, r.count);
          primes = rw (append_assoc past a.taken r.taken) at r.primes;
        })

    -- A fill from a source of enough frames.
    pub record PrimedWith (x : Resampler S) (q : Q) (r : Bool × Resampler S × Q) : Type 0 where
      pub ok : r.0 ≡ true
      pub taken : List (Frame S)
      pub count : length taken ≡ bank.taps
      pub split : s.ahead q ≡ taken ++ coming k bank s r.1 r.2
      pub reads : Reads k bank ch taken r.1
      pub phase : r.1.phase ≡ 0
      pub primed : r.1.primed ≡ true

    full-Holds :
        (past : List (Frame S)) (x : Resampler S)
        → length past ≡ bank.taps
        → Primes past x
        → Holds k.silence bank.taps x.hist_cap x.channels past x.hist x.end
    full-Holds past x all h = record {
      sized = h.sized;
      low = omega (arith, h.at);
      high = omega (arith, h.at, h.fits.capacity);
      window = λ i lt.
          let below : i < ch = omega (arith, h.fits.planar) in
          let start : x.end - bank.taps ≡ 0 = omega (arith, h.at) in
          let size : bank.taps ≡ x.end = omega (arith, h.at) in
          let count : length (samples i past) ≡ bank.taps = length-samples i past ∙ all in
          rw (start, newest-exact k.silence bank.taps (samples i past) count)
            (ap (λ n. take n (x.hist i)) size ∙ h.front i below);
    }

    -- For a bank with taps, lines of the constructor's sizes and a source with at least as many
    -- frames as the bank has taps: after a reset, prime succeeds, takes exactly as many frames as
    -- the bank has taps off the front of what the source holds, and leaves the lines holding them,
    -- the phase at 0, and primed set.
    pub prime-PrimedWith :
        (x : Resampler S) (q : Q)
        → Fits k bank ch chunk x
        → ((i : ℕ) → length (x.hist i) ≡ x.hist_cap)
        → bank.taps ≤ length (s.ahead q)
        → PrimedWith x q (prime k bank s.pop (reset k bank x) q)
    unfolding prime reset
    prime-PrimedWith x q fits sized enough =
        let start : Primes [] (reset k bank x) = record {
          fits = record {
            planar = fits.planar;
            asks = fits.asks;
            capacity = fits.capacity;
            staged = omega arith;
          };
          sized = sized;
          at = refl;
          front = λ i lt. refl;
        } in
        let a = append_times-Filled bank.taps [] (reset k bank x) q (omega arith) enough start in
        rw (a.ok) (record {
          ok = refl;
          taken = a.taken;
          count = a.count;
          split = a.split;
          reads = record {
            some_taps = some_taps;
            room = omega (arith, a.primes.fits.capacity);
            planar = a.primes.fits.planar;
            some_chunk = omega (arith, a.primes.fits.asks);
            held = full-Holds a.taken _ a.count a.primes;
          };
          phase = a.same_phase;
          primed = refl;
        })
