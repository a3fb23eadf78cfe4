-- ===== src/Common/Stream.antt =====
-- Planar delay lines against the stream of frames that went into them.
use Prim.Native.Nat.{ℕ, zero, suc, ◌+◌, ◌-◌, ◌≤◌, ◌<◌}
use mathlib.Core.Path.{◌≡◌, refl, ap, sym, ◌∙◌}
use mathlib.Core.List.{List, [], ◌∷◌, ◌++◌, map, append_assoc, append-nil, map-append}
use native.Mathlib.Omega.{arith}
use sample_rate_tap.Common.Tests.{ltb, lt→ltb, if◌then◌else◌}
use sample_rate_tap.Common.Lists.{
  length, set, take, drop, replicate, length-append, length-set, length-replicate,
}
use sample_rate_tap.Common.Line.{
  window_of, slide, shift_in, length-slide, window_of-set, window_of-slide,
}

module _ {S : Type 0} where
  -- One frame into every channel's line at index `e`.
  abbrev pub store_frame : ℕ → (ℕ → S) → (ℕ → List S) → ℕ → ℕ → List S
  store_frame ch f hist e i = if ltb i ch then set (hist i) e (f i) else hist i

  -- What channel `i` has received.
  abbrev pub samples : ℕ → List (ℕ → S) → List S
  samples i past = map (λ f. f i) past

  -- The last `taps` samples of `xs` behind endless silence.
  abbrev pub newest : S → ℕ → List S → List S
  newest silence taps xs = drop (length xs) (replicate taps silence ++ xs)

  -- The lines of a history, `cap` long with end index `e`, hold the newest samples of `past`.
  pub record Holds (silence : S) (taps cap ch : ℕ) (past : List (ℕ → S)) (hist : ℕ → List S) (e : ℕ)
      : Type 0 where
    pub sized : (i : ℕ) → length (hist i) ≡ cap
    pub low : taps ≤ e
    pub high : e ≤ cap
    pub window : (i : ℕ) → i < ch → window_of taps e (hist i) ≡ newest silence taps (samples i past)

  pub drop-append : (n : ℕ) (xs ys : List S) → n ≤ length xs → drop n (xs ++ ys) ≡ drop n xs ++ ys
  drop-append zero xs ys h = refl
  drop-append (suc n) [] ys h = absurd (omega arith)
  drop-append (suc n) (x ∷ xs) ys h = drop-append n xs ys (omega arith)

  drop-drop_one : (n : ℕ) (xs : List S) → drop (suc n) xs ≡ drop 1 (drop n xs)
  drop-drop_one zero xs = refl
  drop-drop_one (suc n) [] = refl
  drop-drop_one (suc n) (x ∷ xs) = drop-drop_one n xs

  module _ (silence : S) (taps : ℕ) (some_taps : 0 < taps) where
    pub newest-append :
        (xs : List S) (x : S)
        → newest silence taps (xs ++ x ∷ []) ≡ shift_in (newest silence taps xs) x
    newest-append xs x =
        let grown : length (xs ++ x ∷ []) ≡ suc (length xs) =
          omega (arith, length-append xs (x ∷ [])) in
        let room : suc (length xs) ≤ length (replicate taps silence ++ xs) =
          omega (arith, length-append (replicate taps silence) xs, length-replicate taps silence) in
        rw (
          grown,
          ← append_assoc,
          drop-append (suc (length xs)) (replicate taps silence ++ xs) (x ∷ []) room,
          drop-drop_one,
        )

    samples-append :
        (i : ℕ) (past : List (ℕ → S)) (f : ℕ → S)
        → samples i (past ++ f ∷ []) ≡ samples i past ++ f i ∷ []
    samples-append i past f = map-append (λ g. g i) past (f ∷ [])

    module _ (cap ch : ℕ) (past : List (ℕ → S)) (f : ℕ → S) where
      next_window :
          (i : ℕ) (line line' : List S) (e e' : ℕ)
          → window_of taps e line ≡ newest silence taps (samples i past)
          → window_of taps e' line' ≡ shift_in (window_of taps e line) (f i)
          → window_of taps e' line' ≡ newest silence taps (samples i (past ++ f ∷ []))
      next_window i line line' e e' held moved =
          rw (samples-append i past f, newest-append, ← held) moved

      length-store_frame :
          (hist : ℕ → List S) (e i : ℕ)
          → length (hist i) ≡ cap
          → length (store_frame ch f hist e i) ≡ cap
      length-store_frame hist e i h = ground (arith, length-set (hist i) e (f i))

      store_frame-below :
          (hist : ℕ → List S) (e i : ℕ) → i < ch → store_frame ch f hist e i ≡ set (hist i) e (f i)
      store_frame-below hist e i li = rw (lt→ltb i ch li)

      pub Holds-store :
          (hist : ℕ → List S) (e : ℕ)
          → Holds silence taps cap ch past hist e
          → e < cap
          → Holds silence taps cap ch (past ++ f ∷ []) (store_frame ch f hist e) (e + 1)
      Holds-store hist e h lt = record {
        sized = λ i. length-store_frame hist e i (h.sized i);
        low = omega (arith, h.low);
        high = omega arith;
        window = λ i li. next_window i (hist i) _ e (e + 1) (h.window i li) (
            rw (store_frame-below hist e i li)
              (window_of-set taps e (hist i) (f i) some_taps h.low (omega (arith, h.sized i))));
      }

      pub Holds-slide :
          (hist : ℕ → List S) (e : ℕ)
          → Holds silence taps cap ch past hist e
          → taps < cap
          → Holds silence taps cap ch
              (past ++ f ∷ [])
              (store_frame ch f (λ i. slide (taps - 1) e (hist i)) (taps - 1))
              (taps - 1 + 1)
      Holds-slide hist e h room = record {
        sized = λ i.
            length-store_frame (λ j. slide (taps - 1) e (hist j)) (taps - 1) i
              (length-slide (taps - 1) e (hist i) (omega (arith, h.low))
                  (omega (arith, h.sized i, h.high))
                ∙ h.sized i);
        low = omega arith;
        high = omega arith;
        window = λ i li. next_window i (hist i) _ e (taps - 1 + 1) (h.window i li) (
            rw (store_frame-below (λ j. slide (taps - 1) e (hist j)) (taps - 1) i li) (
              window_of-slide taps e (hist i) (f i) some_taps h.low
                (omega (arith, h.sized i, h.high)) (omega (arith, h.sized i))));
      }

  take-silent :
      (silence : S) (n : ℕ) (line : List S)
      → n ≤ length line
      → take n (map (λ _. silence) line) ≡ replicate n silence
  take-silent silence zero line h = refl
  take-silent silence (suc n) [] h = absurd (omega arith)
  take-silent silence (suc n) (x ∷ line) h =
      ap (λ t. silence ∷ t) (take-silent silence n line (omega arith))

  length-silent : (silence : S) (line : List S) → length (map (λ _. silence) line) ≡ length line
  length-silent silence [] = refl
  length-silent silence (x ∷ line) = ap suc (length-silent silence line)

  -- Silenced lines with their end at `taps` hold the newest of nothing.
  pub Holds-silent :
      (silence : S) (taps cap ch : ℕ) (hist : ℕ → List S)
      → ((i : ℕ) → length (hist i) ≡ cap)
      → taps ≤ cap
      → Holds silence taps cap ch [] (λ i. map (λ _. silence) (hist i)) taps
  Holds-silent silence taps cap ch hist sized room = record {
    sized = λ i. length-silent silence (hist i) ∙ sized i;
    low = omega arith;
    high = room;
    window = λ i li.
        let front : taps - taps ≡ 0 = omega arith in
        rw (front, take-silent silence taps (hist i) (omega (arith, sized i)))
          (sym (append-nil (replicate taps silence)));
  }
