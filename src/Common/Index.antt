-- ===== src/Common/Index.antt =====
-- Elements by index, and a block copied into a list.
use Prim.Native.Nat.{ℕ, zero, suc, ◌+◌, ◌≤◌, ◌<◌}
use mathlib.Core.Path.{◌≡◌, refl, ap, ap₂, ◌∙◌}
use mathlib.Core.List.{List, [], ◌∷◌, ◌++◌}
use mathlib.Core.Option.{none, some}
use native.Mathlib.Omega.{arith}
use sample_rate_tap.Common.Lists.{
  length, get_elem?, set, take, drop, length-set, get_elem?-set_self,
}
use sample_rate_tap.Common.Lists.{get_elem?-set_ne}

module _ {ℓ} {A : Type ℓ} where
  -- `memcpy` of a block to index `i`.
  abbrev pub copy_at : List A → ℕ → List A → List A
  copy_at buf i [] = buf
  copy_at buf i (x ∷ xs) = copy_at (set buf i x) (suc i) xs

  pub length-copy_at : (buf : List A) (i : ℕ) (xs : List A) → length (copy_at buf i xs) ≡ length buf
  length-copy_at buf i [] = refl
  length-copy_at buf i (x ∷ xs) = length-copy_at (set buf i x) (suc i) xs ∙ length-set buf i x

  pub get_elem?-copy_before :
      (buf : List A) (i : ℕ) (xs : List A) (p : ℕ)
      → p < i
      → get_elem? (copy_at buf i xs) p ≡ get_elem? buf p
  get_elem?-copy_before buf i [] p h = refl
  get_elem?-copy_before buf i (x ∷ xs) p h =
      get_elem?-copy_before (set buf i x) (suc i) xs p (omega arith)
      ∙ get_elem?-set_ne buf i p x (λ e. omega arith)

  pub get_elem?-copy_after :
      (buf : List A) (i : ℕ) (xs : List A) (p : ℕ)
      → i + length xs ≤ p
      → get_elem? (copy_at buf i xs) p ≡ get_elem? buf p
  get_elem?-copy_after buf i [] p h = refl
  get_elem?-copy_after buf i (x ∷ xs) p h =
      get_elem?-copy_after (set buf i x) (suc i) xs p (omega arith)
      ∙ get_elem?-set_ne buf i p x (λ e. omega arith)

  pub get_elem?-copy_inside :
      (buf : List A) (i : ℕ) (xs : List A) (j : ℕ)
      → j < length xs
      → i + length xs ≤ length buf
      → get_elem? (copy_at buf i xs) (i + j) ≡ get_elem? xs j
  get_elem?-copy_inside buf i [] j h room = absurd (omega arith)
  get_elem?-copy_inside buf i (x ∷ xs) zero h room =
      let here : i + 0 ≡ i = omega arith in
      rw (here, get_elem?-copy_before (set buf i x) (suc i) xs i (omega arith))
        (get_elem?-set_self buf i x (omega arith))
  get_elem?-copy_inside buf i (x ∷ xs) (suc j) h room =
      let there : i + suc j ≡ suc i + j = omega arith in
      rw there (
        get_elem?-copy_inside (set buf i x) (suc i) xs j (omega arith)
          (omega (arith, length-set buf i x)))

  pub get_elem?-take :
      (n : ℕ) (xs : List A) (i : ℕ) → i < n → get_elem? (take n xs) i ≡ get_elem? xs i
  get_elem?-take zero xs i h = absurd (omega arith)
  get_elem?-take (suc n) [] i h = refl
  get_elem?-take (suc n) (x ∷ xs) zero h = refl
  get_elem?-take (suc n) (x ∷ xs) (suc i) h = get_elem?-take n xs i (omega arith)

  pub get_elem?-drop :
      (n : ℕ) (xs : List A) (i : ℕ) → get_elem? (drop n xs) i ≡ get_elem? xs (n + i)
  get_elem?-drop zero xs i = ap (get_elem? xs) (omega arith)
  get_elem?-drop (suc n) [] i = refl
  get_elem?-drop (suc n) (x ∷ xs) i =
      let e : suc n + i ≡ suc (n + i) = omega arith in rw e (get_elem?-drop n xs i)

  pub get_elem?-append_left :
      (xs ys : List A) (i : ℕ) → i < length xs → get_elem? (xs ++ ys) i ≡ get_elem? xs i
  get_elem?-append_left [] ys i h = absurd (omega arith)
  get_elem?-append_left (x ∷ xs) ys zero h = refl
  get_elem?-append_left (x ∷ xs) ys (suc i) h = get_elem?-append_left xs ys i (omega arith)

  pub get_elem?-append_right :
      (xs ys : List A) (i : ℕ) → get_elem? (xs ++ ys) (length xs + i) ≡ get_elem? ys i
  get_elem?-append_right [] ys i = ap (get_elem? ys) (omega arith)
  get_elem?-append_right (x ∷ xs) ys i =
      let e : suc (length xs) + i ≡ suc (length xs + i) = omega arith in
      rw e (get_elem?-append_right xs ys i)

  some_inj : {x y : A} → some x ≡ some y → x ≡ y
  some_inj {x} e = ap (λ t. elim t [ none ↦ x | some a ↦ a ]) e

  -- Lists of a length that agree at every index are equal.
  pub get_elem?-ext :
      (xs ys : List A)
      → length xs ≡ length ys
      → ((i : ℕ) → i < length xs → get_elem? xs i ≡ get_elem? ys i)
      → xs ≡ ys
  get_elem?-ext [] [] e h = refl
  get_elem?-ext [] (y ∷ ys) e h = absurd (omega arith)
  get_elem?-ext (x ∷ xs) [] e h = absurd (omega arith)
  get_elem?-ext (x ∷ xs) (y ∷ ys) e h =
      ap₂ ◌∷◌ (some_inj (h 0 (omega arith)))
        (get_elem?-ext xs ys (omega arith) (λ i lt. h (suc i) (omega arith)))
