-- ===== src/Async/Ring/Segments.antt =====
-- The two segments of a bulk write, by the slot of each element.
use native.Mathlib.Nat.{mod-lt, mod-add-mod, add-mod_right}
use sample_rate_tap.Common.{
  mod_wrap, ℕ, ◌+◌, ◌-◌, ◌%◌, ◌≤◌, ◌<◌, ◌≡◌, inl, inr, sym, ap, ◌∙◌, arith, min, List, ◌++◌, length,
  take, drop, get_elem?, copy_at, length-copy_at, length-take, length-drop, length-append,
  get_elem?-copy_before, get_elem?-copy_after, get_elem?-copy_inside, get_elem?-take,
  get_elem?-drop, get_elem?-append_left, get_elem?-append_right, dec_lt,
}

module _ {A : Type 0} where
  -- Two segments, the second one at the front.
  abbrev pub two_segments : List A → ℕ → List A → List A
  two_segments buf idx xs =
      let first = min (length xs) (length buf - idx) in
      copy_at (copy_at buf idx (take first xs)) 0 (drop first xs)

  module _ (buf : List A) (idx : ℕ) (xs : List A) (inside : idx < length buf)
      (room : length xs ≤ length buf) where
    abbrev first : ℕ
    first = min (length xs) (length buf - idx)

    front : length (take first xs) ≡ first
    front = omega (arith, length-take first xs)

    back : length (drop first xs) ≡ length xs - first
    back = length-drop first xs

    -- The element at distance `j` from the index, when it was copied.
    pub get-two_segments :
        (j : ℕ)
        → j < length xs
        → get_elem? (two_segments buf idx xs) ((idx + j) % length buf) ≡ get_elem? xs j
    get-two_segments j h = elim (mod_wrap (length buf) (idx + j) (omega arith)) [
      | inl (lo, e) ↦ rw e (
          get_elem?-copy_after (copy_at buf idx (take first xs)) 0 (drop first xs) (idx + j)
            (omega (arith, back))
          ∙ get_elem?-copy_inside buf idx (take first xs) j (omega (arith, front))
              (omega (arith, front))
          ∙ get_elem?-take first xs j (omega arith))
      | inr (hi, e) ↦
          let far : idx + j - length buf ≡ 0 + (j - first) = omega arith in
          let same : first + (j - first) ≡ j = omega arith in
          rw (e, far)
            (get_elem?-copy_inside (copy_at buf idx (take first xs)) 0 (drop first xs) (j - first)
                (omega (arith, back)) (omega (arith, back, length-copy_at buf idx (take first xs)))
              ∙ get_elem?-drop first xs (j - first)
              ∙ ap (get_elem? xs) same)
    ]

    -- The slots beyond keep what they had.
    pub get-two_segments_beyond :
        (j : ℕ)
        → length xs ≤ j
        → j < length buf
        → get_elem? (two_segments buf idx xs) ((idx + j) % length buf)
          ≡ get_elem? buf ((idx + j) % length buf)
    get-two_segments_beyond j low high = elim (mod_wrap (length buf) (idx + j) (omega arith)) [
      | inl (lo, e) ↦ rw e (
          get_elem?-copy_after (copy_at buf idx (take first xs)) 0 (drop first xs) (idx + j)
            (omega (arith, back))
          ∙ get_elem?-copy_after buf idx (take first xs) (idx + j) (omega (arith, front)))
      | inr (hi, e) ↦ rw e (
          get_elem?-copy_after (copy_at buf idx (take first xs)) 0 (drop first xs)
            (idx + j - length buf) (omega (arith, back))
          ∙ get_elem?-copy_before buf idx (take first xs) (idx + j - length buf) (omega arith))
    ]

    pub length-two_segments : length (two_segments buf idx xs) ≡ length buf
    length-two_segments =
        length-copy_at (copy_at buf idx (take first xs)) 0 (drop first xs)
        ∙ length-copy_at buf idx (take first xs)

  -- What was in the queue stays, and the new elements follow it.
  pub queue_after :
      (buf : List A) (taken : ℕ) (q xs : List A)
      → 0 < length buf
      → length q + length xs ≤ length buf
      → ((i : ℕ) → i < length q → get_elem? buf ((taken + i) % length buf) ≡ get_elem? q i)
      → (i : ℕ) → i < length (q ++ xs)
      → get_elem? (two_segments buf ((taken + length q) % length buf) xs) ((taken + i) % length buf)
        ≡ get_elem? (q ++ xs) i
  queue_after buf taken q xs some_slots room h i lt =
      let cap = length buf in
      let idx = (taken + length q) % cap in
      let inside : idx < cap = mod-lt (taken + length q) some_slots in
      elim (dec_lt i (length q)) [
        | yes old ↦
            let j = i + (cap - length q) in
            let slot : (idx + j) % cap ≡ (taken + i) % cap =
              mod-add-mod (taken + length q) cap j
              ∙ ap (λ t. t % cap)
                  (let e : taken + length q + j ≡ taken + i + cap = omega arith in e)
              ∙ add-mod_right (taken + i) cap in
            let kept : get_elem? buf ((idx + j) % cap) ≡ get_elem? q i = rw slot (h i old) in
            rw (← slot) (
              get-two_segments_beyond buf idx xs inside (omega arith) j (omega arith) (omega arith)
              ∙ kept
              ∙ sym (get_elem?-append_left q xs i old))
        | no new ↦
            let j = i - length q in
            let slot : (idx + j) % cap ≡ (taken + i) % cap =
              mod-add-mod (taken + length q) cap j
              ∙ ap (λ t. t % cap) (let e : taken + length q + j ≡ taken + i = omega arith in e) in
            let there : length q + j ≡ i = omega arith in
            rw (← slot) (
              get-two_segments buf idx xs inside (omega arith) j (omega (arith, length-append q xs))
              ∙ sym (get_elem?-append_right q xs j)
              ∙ ap (get_elem? (q ++ xs)) there)
      ]
