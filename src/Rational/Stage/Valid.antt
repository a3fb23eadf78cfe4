-- ===== src/Rational/Stage/Valid.antt =====
-- A table as the constructor leaves it, and the part of a window that a row meets.
use sample_rate_tap.Common.{
  ℕ, zero, suc, ◌+◌, ◌-◌, ◌≤◌, ◌<◌, ◌≡◌, refl, sym, ap, ◌∙◌, arith, List, [], ◌∷◌, take, drop,
  window_of,
}
use sample_rate_tap.Rational.Stage.{StageTable, k_hist_slack, k_rows}

pub record IsValid (up down : ℕ) {C : Type 0} (t : StageTable C) : Type 0 where
  pub some_taps : 0 < t.row_len
  pub room : t.hist_cap ≡ t.row_len + k_hist_slack
  pub spans : (r : ℕ) → r < k_rows up down → t.first r + t.count r ≤ t.row_len

module _ {A : Type 0} where
  drop-nil : (n : ℕ) → drop {A = A} n [] ≡ []
  drop-nil zero = refl
  drop-nil (suc n) = refl

  take-nil : (n : ℕ) → take {A = A} n [] ≡ []
  take-nil zero = refl
  take-nil (suc n) = refl

  pub drop-drop : (a b : ℕ) (xs : List A) → drop b (drop a xs) ≡ drop (a + b) xs
  drop-drop zero b xs = ap (λ t. drop t xs) (omega arith)
  drop-drop (suc a) b [] = drop-nil b ∙ sym (drop-nil (suc a + b))
  drop-drop (suc a) b (x ∷ xs) =
      let e : suc a + b ≡ suc (a + b) = omega arith in rw e (drop-drop a b xs)

  pub take-take : (n m : ℕ) (xs : List A) → n ≤ m → take n (take m xs) ≡ take n xs
  take-take zero m xs h = refl
  take-take (suc n) zero xs h = absurd (omega arith)
  take-take (suc n) (suc m) [] h = refl
  take-take (suc n) (suc m) (x ∷ xs) h = ap (λ t. x ∷ t) (take-take n m xs (omega arith))

  drop-take : (b w : ℕ) (xs : List A) → b ≤ w → drop b (take w xs) ≡ take (w - b) (drop b xs)
  drop-take zero w xs h = let e : w ≡ w - 0 = omega arith in ap (λ t. take t xs) e
  drop-take (suc b) zero xs h = absurd (omega arith)
  drop-take (suc b) (suc w) [] h = sym (take-nil (suc w - suc b))
  drop-take (suc b) (suc w) (x ∷ xs) h =
      let e : suc w - suc b ≡ w - b = omega arith in rw e (drop-take b w xs (omega arith))

  -- A part of the newest samples, read from the line itself.
  pub part-window_of :
      (w first count e : ℕ) (line : List A)
      → first + count ≤ w
      → take count (drop (e - w + first) line) ≡ take count (drop first (window_of w e line))
  part-window_of w first count e line h = rw (
    drop-take first w (drop (e - w) line) (omega arith),
    drop-drop (e - w) first line,
    take-take count (w - first) (drop (e - w + first) line) (omega arith),
  )

-- The part of a whole window that row `r` meets.
abbrev pub span_of : {S C : Type 0} → StageTable C → ℕ → List S → List S
span_of t r window = take (t.count r) (drop (t.first r) window)

pub line_span-eq :
    {S C : Type 0} (up down : ℕ) (t : StageTable C) (r e : ℕ) (line : List S)
    → IsValid up down t
    → r < k_rows up down
    → take (t.count r) (drop (e - t.row_len + t.first r) line)
      ≡ span_of t r (window_of t.row_len e line)
line_span-eq up down t r e line v lt =
    part-window_of t.row_len (t.first r) (t.count r) e line (v.spans r lt)
