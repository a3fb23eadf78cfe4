-- ===== src/Rational/Stage/Table/Spans.antt =====
-- What the trimmed table holds.
use native.Mathlib.Nat.{le-div_iff_mul-le}
use sample_rate_tap.Common.{
  ℕ, zero, suc, ◌+◌, ◌-◌, ◌*◌, ◌≤◌, ◌<◌, ◌≡◌, refl, sym, ap, ◌∙◌, arith, Bool, true, false, ◌&&◌,
  List, [], ◌∷◌, ◌++◌, map, length, length-map_range, get_or, get_or-map_range, ltb, leb,
  if◌then◌else◌, Bool-cases, inl, inr, dec_lt, lt→ltb, ◌^◌, ◌⊎◌, sub_w, sub_w-eq,
}
use sample_rate_tap.Rational.Ratio.{k_is_decimator}
use sample_rate_tap.Rational.Stage.{Kernels, StageTable, k_rows}
use sample_rate_tap.Rational.Stage.Table.Trim.{
  outside, trim_first-le, first_there, nil_before, trim_last-le, trim_last-ge, nil_behind,
  last_there,
}
use sample_rate_tap.Rational.Stage.Valid.{IsValid}
use sample_rate_tap.Rational.Stage.Table.{
  Doubles, rows_from, phase_row, trim_first, trim_last, branch_len, branch_row, quantized,
  row_len_of, table_row, build_table, coefficient,
}

module _ {C : Type 0} where
  get_or-append_left :
      (xs ys : List C) (i : ℕ) (d : C) → i < length xs → get_or (xs ++ ys) i d ≡ get_or xs i d
  get_or-append_left [] ys i d h = absurd (omega arith)
  get_or-append_left (x ∷ xs) ys zero d h = refl
  get_or-append_left (x ∷ xs) ys (suc i) d h = get_or-append_left xs ys i d (omega arith)

  get_or-append_right :
      (xs ys : List C) (i : ℕ) (d : C) → get_or (xs ++ ys) (length xs + i) d ≡ get_or ys i d
  get_or-append_right [] ys i d = ap (λ z. get_or ys z d) (omega arith)
  get_or-append_right (x ∷ xs) ys i d =
      let next : suc (length xs) + i ≡ suc (length xs + i) = omega arith in
      rw next (get_or-append_right xs ys i d)

  length-map : {D : Type 0} (g : D → C) (xs : List D) → length (map g xs) ≡ length xs
  length-map g [] = refl
  length-map g (x ∷ xs) = ap suc (length-map g xs)

  length-if : (b : Bool) (g : C → C) (xs : List C) → length (if b then xs else map g xs) ≡ length xs
  length-if true g xs = refl
  length-if false g xs = length-map g xs

module _ {C : Type 0} (is_nil : C → Bool) (nil : C) (up down : ℕ) where
  -- What the trimming leaves of a table.
  pub record IsTrimmed (t : StageTable C) : Type 0 where
    pub valid : IsValid up down t
    pub starts :
        (r : ℕ)
        → r < k_rows up down
        → 0 < t.count r
        → is_nil (get_or t.rows (r * t.row_len + t.first r) nil) ≡ false
    pub ends :
        (r : ℕ)
        → r < k_rows up down
        → 0 < t.count r
        → is_nil (get_or t.rows (r * t.row_len + (t.first r + t.count r - 1)) nil) ≡ false
    pub outside_nil :
        (r i : ℕ)
        → r < k_rows up down
        → i < t.row_len
        → i < t.first r ⊎ t.first r + t.count r ≤ i
        → is_nil (get_or t.rows (r * t.row_len + i) nil) ≡ true

module _ {S C A D : Type 0} (k : Kernels S C A) (f : Doubles D C) (up down : ℕ) (fixed16 : Bool)
    (keeps_length : (xs : List D) → length (f.quantize_row xs) ≡ length xs) (h : List D) where
  abbrev len : ℕ
  len = row_len_of k f up down fixed16 (length h)

  abbrev row : ℕ → List C
  row r = table_row k f up down fixed16 h r

  length-phase_row : (p : ℕ) → length (phase_row k f up down fixed16 h p) ≡ len
  unfolding phase_row
  length-phase_row p = keeps_length _ ∙ length-if _ _ _ ∙ length-map_range _ 0 len

  length-row : (r : ℕ) → length (row r) ≡ len
  unfolding table_row
  length-row r = elim (Bool-cases (k_is_decimator up down)) [
    | inl e ↦ rw e (length-map_range _ 0 len)
    | inr e ↦ rw e (length-phase_row r)
  ]

  -- The rows lie behind each other.
  get_or-rows :
      (r n j i : ℕ)
      → j < n
      → i < len
      → get_or (rows_from k f up down fixed16 h r n) (j * len + i) k.nil_coeff
        ≡ get_or (row (r + j)) i k.nil_coeff
  get_or-rows r zero j i lt small = absurd (omega arith)
  get_or-rows r (suc n) zero i lt small =
      let here : 0 * len + i ≡ i = omega arith in
      let same : r + 0 ≡ r = omega arith in
      rw (here, same)
        (get_or-append_left (row r) (rows_from k f up down fixed16 h (suc r) n) i k.nil_coeff
          (omega (arith, length-row r)))
  get_or-rows r (suc n) (suc j) i lt small =
      let there : suc j * len + i ≡ length (row r) + (j * len + i) =
        rw (length-row r) (grind arith) in
      let next : r + suc j ≡ suc r + j = omega arith in
      rw (there, next)
        (get_or-append_right (row r) (rows_from k f up down fixed16 h (suc r) n) (j * len + i)
            k.nil_coeff
          ∙ get_or-rows (suc r) n j i (omega arith) small)

  -- The span of a row, from one test to the other, and its length.
  count_lem :
      (bits r : ℕ)
      → len < 2 ^ bits
      → let first = trim_first k.is_nil (row r) in
        let last = trim_last k.is_nil k.nil_coeff (row r) first len in
        (first ≤ last) × (last ≤ len) × (sub_w (2 ^ bits) last first ≡ last - first)
  count_lem bits r word =
      let first = trim_first k.is_nil (row r) in
      let last = trim_last k.is_nil k.nil_coeff (row r) first len in
      let low : first ≤ len =
        omega (arith, trim_first-le k.is_nil k.nil_coeff (row r), length-row r) in
      let on : first ≤ last = trim_last-ge k.is_nil k.nil_coeff (row r) first len low in
      let within : last ≤ len = trim_last-le k.is_nil k.nil_coeff (row r) first len in
      (on, within, sub_w-eq (2 ^ bits) last first on (omega arith))

  nil_outside :
      (r i : ℕ)
      → i < len
      → let first = trim_first k.is_nil (row r) in
        i < first ⊎ trim_last k.is_nil k.nil_coeff (row r) first len ≤ i
        → k.is_nil (get_or (row r) i k.nil_coeff) ≡ true
  nil_outside r i small (inl early) = nil_before k.is_nil k.nil_coeff (row r) i early
  nil_outside r i small (inr late) =
      nil_behind k.is_nil k.nil_coeff (row r) (trim_first k.is_nil (row r)) len i late small

  stored :
      (r i : ℕ)
      → r < k_rows up down
      → i < len
      → get_or (rows_from k f up down fixed16 h 0 (k_rows up down)) (r * len + i) k.nil_coeff
        ≡ get_or (row r) i k.nil_coeff
  stored r i lt small =
      let at : 0 + r ≡ r = omega arith in
      get_or-rows 0 (k_rows up down) r i lt small ∙ ap (λ z. get_or (row z) i k.nil_coeff) at

  -- While `quantize_row_preserving_sum` fills a row of the length it is given, and a row has a tap and
  -- its length is a `std::size_t`: in the table that `build_table` makes, the wrapping difference that
  -- `trim_row` stores is the length of a span that lies in the row, the delay lines are `k_hist_slack`
  -- longer than a row, and every span is the shortest: it starts and ends with a coefficient that does
  -- not test equal to 0, and all those outside it do.
  pub build_table-IsTrimmed :
      (bits channels : ℕ)
      → 0 < len
      → len < 2 ^ bits
      → IsTrimmed k.is_nil k.nil_coeff up down (build_table k f up down fixed16 bits channels h)
  unfolding build_table
  build_table-IsTrimmed bits channels some word = record {
    valid = record {
      some_taps = some;
      room = refl;
      spans = λ r lt. omega (arith, count_lem bits r word);
    };
    starts = λ r lt more.
        let first = trim_first k.is_nil (row r) in
        let (on, within, e) = count_lem bits r word in
        let inside : first < len = omega arith in
        rw (stored r first lt inside)
          (first_there k.is_nil k.nil_coeff (row r) (omega (arith, length-row r)));
    ends = λ r lt more.
        let first = trim_first k.is_nil (row r) in
        let last = trim_last k.is_nil k.nil_coeff (row r) first len in
        let (on, within, e) = count_lem bits r word in
        let at : first + sub_w (2 ^ bits) last first - 1 ≡ last - 1 = omega arith in
        rw (at, stored r (last - 1) lt (omega arith))
          (last_there k.is_nil k.nil_coeff (row r) first len (omega arith));
    outside_nil = λ r i lt small out.
        let (on, within, e) = count_lem bits r word in
        rw (stored r i lt small) (
          nil_outside r i small
            (elim out [ inl early ↦ inl early | inr late ↦ inr (omega arith) ]));
  }

  -- While `quantize_row_preserving_sum` fills a row of the length it is given, the row's length is
  -- a `std::size_t`, and only the coefficient 0 tests equal to 0: for every row and every tap in it, `coefficient` reads the coefficient that the row
  -- had before it was trimmed.
  pub coefficient-row :
      (bits channels r i : ℕ)
      → ((c : C) → k.is_nil c ≡ true → c ≡ k.nil_coeff)
      → len < 2 ^ bits
      → r < k_rows up down
      → i < len
      → coefficient k up down (build_table k f up down fixed16 bits channels h) r i
        ≡ get_or (row r) i k.nil_coeff
  unfolding build_table coefficient
  coefficient-row bits channels r i only word lt small =
      let first = trim_first k.is_nil (row r) in
      let last = trim_last k.is_nil k.nil_coeff (row r) first len in
      let (on, within, size) = count_lem bits r word in
      rw size (elim (Bool-cases (leb first i && ltb i (first + (last - first)))) [
        | inl e ↦ rw e (stored r i lt small)
        | inr e ↦ rw e (
            sym (
              only _ (elim (dec_lt i first) [
                | yes early ↦ nil_before k.is_nil k.nil_coeff (row r) i early
                | no ge ↦
                    nil_behind k.is_nil k.nil_coeff (row r) first len i
                      (omega (arith, outside first (first + (last - first)) i e (omega arith)))
                      small
              ])))
      ])

module _ {S C A D : Type 0} (k : Kernels S C A) (f : Doubles D C) (down : ℕ) (fixed16 : Bool)
    (keeps_length : (xs : List D) → length (f.quantize_row xs) ≡ length xs) (h : List D) where
  abbrev branch_length : ℕ
  branch_length = row_len_of k f 1 down fixed16 (length h)

  table_row-branch : (j : ℕ) → table_row k f 1 down fixed16 h j ≡ branch_row k f 1 down fixed16 h j
  unfolding table_row
  table_row-branch j = refl

  -- While `quantize_row_preserving_sum` fills a row of the length it is given, the row's length is
  -- a `std::size_t`, and only the coefficient 0 tests equal to 0: at a decimator, tap j + s M of the quantized filter is `coefficient` of branch j
  -- at s places from the row's end.
  pub coefficient-quantized :
      (bits channels j s : ℕ)
      → ((c : C) → k.is_nil c ≡ true → c ≡ k.nil_coeff)
      → branch_length < 2 ^ bits
      → 0 < down
      → j < down
      → j + s * down < length h
      → coefficient k 1 down
          (build_table k f 1 down fixed16 bits channels h)
          j
          (branch_length - 1 - s)
        ≡ get_or (quantized k f 1 down fixed16 h) (j + s * down) k.nil_coeff
  unfolding row_len_of
  coefficient-quantized bits channels j s only word some lt inside =
      let split : suc s * down ≡ s * down + down = grind arith in
      let whole : s < branch_length =
        (le-div_iff_mul-le {x = suc s} {y = length h + down - 1} some).1 (omega arith) in
      let short : s < branch_len k f 1 down fixed16 (length h) j =
        (le-div_iff_mul-le {x = suc s} {y = length h + down - 1 - j} some).1 (omega arith) in
      let back : branch_length - 1 - (0 + (branch_length - 1 - s)) ≡ s = omega arith in
      coefficient-row k f 1 down fixed16 keeps_length h bits channels j (branch_length - 1 - s) only
        word lt (omega arith)
      ∙ ap (λ r. get_or r (branch_length - 1 - s) k.nil_coeff) (table_row-branch j)
      ∙ get_or-map_range _ 0 branch_length (branch_length - 1 - s) k.nil_coeff (omega arith)
      ∙ rw (back, lt→ltb s (branch_len k f 1 down fixed16 (length h) j) short) refl
