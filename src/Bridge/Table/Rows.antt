-- ===== src/Bridge/Table/Rows.antt =====
-- The rows that the constructor stores, and the phases that they serve.
use mathlib.Core.List.{flatten, reverse, reverse-cons}
use sample_rate_tap.Common.{
  ℕ, zero, suc, ◌+◌, ◌-◌, ◌*◌, ◌<◌, ◌≡◌, refl, sym, ap, ap₂, ◌∙◌, arith, List, [], ◌∷◌, ◌++◌, map,
  length, take, drop, get_or, range_from, take-append, map-range_split, map-range_cong,
  if◌then◌else◌, true, false, Bool-cases, inl, inr, leb→le, lt→ltb, ge→ltb,
}
use sample_rate_tap.Bridge.Schedule.{Direction, up_to_48k, down_to_44k1, k_phases}
use sample_rate_tap.Bridge.Table.{
  k_stored, is_mirrored, stored_index, stored_row, gathered_row, build_table,
}

module _ {A : Type 0} where
  drop-append_all : (n m : ℕ) (xs ys : List A) → length xs ≡ n → drop (n + m) (xs ++ ys) ≡ drop m ys
  drop-append_all zero m [] ys h = let e : 0 + m ≡ m = omega arith in rw e refl
  drop-append_all zero m (x ∷ xs) ys h = absurd (omega arith)
  drop-append_all (suc n) m [] ys h = absurd (omega arith)
  drop-append_all (suc n) m (x ∷ xs) ys h =
      let e : suc n + m ≡ suc (n + m) = omega arith in
      rw e (drop-append_all n m xs ys (omega arith))

  -- Row `j` of rows that have one length.
  pub row-flatten :
      (w lo n j : ℕ) (f : ℕ → List A)
      → ((i : ℕ) → length (f i) ≡ w)
      → j < n
      → take w (drop (j * w) (flatten (map f (range_from lo n)))) ≡ f (lo + j)
  unfolding flatten
  row-flatten w lo zero j f sized h = absurd (omega arith)
  row-flatten w lo (suc n) zero f sized h =
      let none : 0 * w ≡ 0 = omega arith in
      let here : lo + 0 ≡ lo = omega arith in
      rw (none, here) (take-append w (f lo) (flatten (map f (range_from (suc lo) n))) (sized lo))
  row-flatten w lo (suc n) (suc j) f sized h =
      let one : suc j * w ≡ w + j * w = grind arith in
      let there : lo + suc j ≡ suc lo + j = omega arith in
      rw
        (
          one,
          there,
          drop-append_all w (j * w) (f lo) (flatten (map f (range_from (suc lo) n))) (sized lo),
        )
        (row-flatten w (suc lo) n j f sized (omega arith))

  pub length-map_range : (f : ℕ → A) (lo n : ℕ) → length (map f (range_from lo n)) ≡ n
  length-map_range f lo zero = refl
  length-map_range f lo (suc n) = ap suc (length-map_range f (suc lo) n)

  pub reverse-map_range :
      (f : ℕ → A) (lo n : ℕ)
      → reverse (map f (range_from lo n)) ≡ map (λ i. f (lo + (n - 1 - i))) (range_from 0 n)
  unfolding reverse
  reverse-map_range f lo zero = refl
  reverse-map_range f lo (suc n) =
      let grown : suc n ≡ n + 1 = omega arith in
      let last : lo ≡ lo + (suc n - 1 - (0 + n)) = omega arith in
      reverse-cons (f lo) (map f (range_from (suc lo) n))
      ∙ ap₂ ◌++◌
          (reverse-map_range f (suc lo) n ∙ map-range_cong _ _ 0 n (λ i a b. ap f (omega arith)))
          (ap (λ t. f t ∷ []) last)
      ∙ sym (map-range_split (λ i. f (lo + (suc n - 1 - i))) 0 n 1)
      ∙ ap (λ t. map (λ i. f (lo + (suc n - 1 - i))) (range_from 0 t)) (sym grown)

stored-lt : (d : Direction) (ph : ℕ) → ph < k_phases d → stored_index d ph < k_stored d
stored-lt up_to_48k ph h = ground arith
stored-lt down_to_44k1 ph h = ground arith

-- Tap `i` of the partner stands opposite to it in the prototype.
opposite :
    (d : Direction) (taps ph i : ℕ)
    → ph < k_phases d
    → i < taps
    → ((taps - 1 - i) * k_phases d + (k_phases d - 1 - ph) < k_phases d * taps)
      × (k_phases d * taps - 1 - ((taps - 1 - i) * k_phases d + (k_phases d - 1 - ph))
          ≡ (taps - 1 - (0 + (taps - 1 - i))) * k_phases d + ph)
opposite up_to_48k taps ph i h lt = (omega arith, omega arith)
opposite down_to_44k1 taps ph i h lt = (omega arith, omega arith)

partner_index :
    (d : Direction) (ph : ℕ) → is_mirrored d ph ≡ true → stored_index d ph ≡ k_phases d - 1 - ph
partner_index d ph e = let low = leb→le (k_stored d) ph e in rw (ge→ltb ph (k_stored d) low) refl

own_row : (d : Direction) (ph : ℕ) → is_mirrored d ph ≡ false → stored_index d ph ≡ ph
own_row d ph e = let low : ph < k_stored d = ground arith in rw (lt→ltb ph (k_stored d) low) refl

module _ {F C : Type 0} (quantize_row : List F → List C) (zero_f : F) (d : Direction)
    (row_sized : (row : List F) → length (quantize_row row) ≡ length row) where
  -- Each phase is served by its partner's or its own row.
  stored_row-build_table :
      (proto : List F) (taps ph : ℕ)
      → ph < k_phases d
      → stored_row d (build_table quantize_row zero_f d proto taps) ph
        ≡ quantize_row (gathered_row quantize_row zero_f d proto taps (stored_index d ph))
  unfolding stored_row build_table
  stored_row-build_table proto taps ph h =
      let row : ℕ → List C = λ j. quantize_row (gathered_row quantize_row zero_f d proto taps j) in
      row-flatten taps 0 (k_stored d) (stored_index d ph) row
        (λ j. row_sized _ ∙ length-map_range _ 0 taps) (stored-lt d ph h)
      ∙ ap row (let e : 0 + stored_index d ph ≡ stored_index d ph = omega arith in e)

  -- A prototype of linear phase makes each branch its partner read backwards.
  partner_row :
      (proto : List F) (taps ph : ℕ)
      → ((i : ℕ)
          → i < k_phases d * taps
          → get_or proto i zero_f ≡ get_or proto (k_phases d * taps - 1 - i) zero_f)
      → ph < k_phases d
      → gathered_row quantize_row zero_f d proto taps (k_phases d - 1 - ph)
        ≡ reverse (gathered_row quantize_row zero_f d proto taps ph)
  partner_row proto taps ph symmetric h =
      map-range_cong _ _ 0 taps (λ i lo hi.
        let (inside, there) = opposite d taps ph i h (omega arith) in
        symmetric _ inside ∙ ap (λ t. get_or proto t zero_f) there)
      ∙ sym (reverse-map_range (λ i. get_or proto ((taps - 1 - i) * k_phases d + ph) zero_f) 0 taps)

  -- With a symmetric prototype, and a quantization that keeps the length of a row, the row that serves
  -- a phase is the quantization of that phase's branch of the prototype, read backwards exactly where
  -- the table says that the row is mirrored.
  pub stored_row-gathered_row :
      (proto : List F) (taps ph : ℕ)
      → ((i : ℕ)
          → i < k_phases d * taps
          → get_or proto i zero_f ≡ get_or proto (k_phases d * taps - 1 - i) zero_f)
      → ph < k_phases d
      → stored_row d (build_table quantize_row zero_f d proto taps) ph
        ≡ quantize_row (
            if is_mirrored d ph
            then reverse (gathered_row quantize_row zero_f d proto taps ph)
            else gathered_row quantize_row zero_f d proto taps ph)
  stored_row-gathered_row proto taps ph symmetric h =
      stored_row-build_table proto taps ph h
      ∙ ap quantize_row (elim (Bool-cases (is_mirrored d ph)) [
        | inl far ↦ rw (far, partner_index d ph far) (partner_row proto taps ph symmetric h)
        | inr near ↦ rw (near, own_row d ph near) refl
      ])
