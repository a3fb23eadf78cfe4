-- ===== src/Common/Line.antt =====
-- A delay line: a buffer that is written at its end index, and slid to the front when it is full.
use Prim.Native.Nat.{ℕ, zero, suc, ◌+◌, ◌-◌, ◌≤◌, ◌<◌}
use mathlib.Core.Path.{◌≡◌, refl, ap}
use mathlib.Core.List.{List, [], ◌∷◌, ◌++◌}
use native.Mathlib.Numerals.{add-one}
use native.Mathlib.Omega.{arith}
use sample_rate_tap.Common.Lists.{length, set, take, drop, length-take, length-drop, length-append}

module _ {ℓ} {A : Type ℓ} where
  -- The newest `taps` samples of a line whose end index is `e`.
  abbrev pub window_of : ℕ → ℕ → List A → List A
  window_of taps e line = take taps (drop (e - taps) line)

  -- `memmove`: the newest `keep` samples to the front, the rest as it was.
  abbrev pub slide : ℕ → ℕ → List A → List A
  slide keep e line = take keep (drop (e - keep) line) ++ drop keep line

  -- A shift register takes a sample in at its end.
  abbrev pub shift_in : List A → A → List A
  shift_in w x = drop 1 w ++ x ∷ []

  pub take-set :
      (n : ℕ) (xs : List A) (x : A)
      → n < length xs
      → take (suc n) (set xs n x) ≡ take n xs ++ x ∷ []
  take-set n [] x h = absurd (omega arith)
  take-set zero (y ∷ ys) x h = refl
  take-set (suc n) (y ∷ ys) x h = ap (λ t. y ∷ t) (take-set n ys x (omega arith))

  pub take-append : (n : ℕ) (xs ys : List A) → length xs ≡ n → take n (xs ++ ys) ≡ xs
  take-append zero [] ys h = refl
  take-append zero (x ∷ xs) ys h = absurd (omega arith)
  take-append (suc n) [] ys h = absurd (omega arith)
  take-append (suc n) (x ∷ xs) ys h = ap (λ t. x ∷ t) (take-append n xs ys (omega arith))

  drop-suc : (k : ℕ) (xs : List A) → drop 1 (drop k xs) ≡ drop (suc k) xs
  drop-suc zero xs = refl
  drop-suc (suc k) [] = refl
  drop-suc (suc k) (x ∷ xs) = drop-suc k xs

  drop-take : (n : ℕ) (xs : List A) → drop 1 (take (suc n) xs) ≡ take n (drop 1 xs)
  drop-take zero [] = refl
  drop-take (suc n) [] = refl
  drop-take n (x ∷ xs) = refl

  set_window :
      (n k i : ℕ) (xs : List A) (x : A)
      → i ≡ k + suc n
      → i < length xs
      → take (suc n) (drop (suc k) (set xs i x)) ≡ shift_in (take (suc n) (drop k xs)) x
  set_window n k i [] x e h = absurd (omega arith)
  set_window n k zero (y ∷ ys) x e h = absurd (omega arith)
  set_window n zero (suc i) (y ∷ ys) x e h =
      let same : i ≡ n = omega arith in rw same (take-set n ys x (omega arith))
  set_window n (suc k) (suc i) (y ∷ ys) x e h = set_window n k i ys x (omega arith) (omega arith)

  pub length-slide :
      (keep e : ℕ) (line : List A)
      → keep ≤ e
      → e ≤ length line
      → length (slide keep e line) ≡ length line
  length-slide keep e line h k = omega (
    arith,
    length-append (take keep (drop (e - keep) line)) (drop keep line),
    length-take keep (drop (e - keep) line),
    length-drop (e - keep) line,
    length-drop keep line,
  )

  window_of-set-suc :
      (n e : ℕ) (line : List A) (x : A)
      → suc n ≤ e
      → e < length line
      → window_of (suc n) (suc e) (set line e x) ≡ shift_in (window_of (suc n) e line) x
  window_of-set-suc n e line x le lt =
      let at : suc e - suc n ≡ suc (e - suc n) = omega arith in
      rw at (set_window n (e - suc n) e line x (omega arith) lt)

  window_of-slide-suc :
      (n e : ℕ) (line : List A) (x : A)
      → suc n ≤ e
      → e ≤ length line
      → n < length line
      → window_of (suc n) (suc n) (set (slide n e line) n x) ≡ shift_in (window_of (suc n) e line) x
  window_of-slide-suc n e line x le top room =
      let start : suc n - suc n ≡ 0 = omega arith in
      let back : e - n ≡ suc (e - suc n) = omega arith in
      rw (
        start,
        take-set n (slide n e line) x (omega (arith, length-slide n e line (omega arith) top)),
        take-append n (take n (drop (e - n) line)) (drop n line)
            (omega (arith, length-take n (drop (e - n) line), length-drop (e - n) line)),
        drop-take n (drop (e - suc n) line),
        drop-suc (e - suc n) line,
        ← back,
      )

  -- Writing at the end index moves the window on by that sample.
  pub window_of-set :
      (taps e : ℕ) (line : List A) (x : A)
      → 0 < taps
      → taps ≤ e
      → e < length line
      → window_of taps (e + 1) (set line e x) ≡ shift_in (window_of taps e line) x
  window_of-set zero e line x pos le lt = absurd (omega arith)
  window_of-set (suc n) e line x pos le lt = rw add-one (window_of-set-suc n e line x le lt)

  -- So does writing after a slide.
  pub window_of-slide :
      (taps e : ℕ) (line : List A) (x : A)
      → 0 < taps
      → taps ≤ e
      → e ≤ length line
      → taps ≤ length line
      → window_of taps (taps - 1 + 1) (set (slide (taps - 1) e line) (taps - 1) x)
        ≡ shift_in (window_of taps e line) x
  window_of-slide zero e line x pos le top room = absurd (omega arith)
  window_of-slide (suc n) e line x pos le top room =
      let keep : suc n - 1 ≡ n = omega arith in
      rw (keep, add-one) (window_of-slide-suc n e line x le top (omega arith))
