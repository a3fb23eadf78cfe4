-- ===== src/Rational/Stage/Table.antt =====
-- The constructor's table: `build_table`, `trim_row` and the accessors on their result. The prototype
-- comes from `design_stage`, its arithmetic is that of `double`, and rows are quantized by tap::dsp.
mod Trim
pub mod Spans
use sample_rate_tap.Common.{
  ℕ, zero, suc, ◌+◌, ◌-◌, ◌*◌, ◌/◌, ◌%◌, ◌<◌, ◌≡◌, Bool, not, ◌&&◌, List, [], ◌∷◌, ◌++◌, map,
  length, get_or, range_from, ltb, leb, if◌then◌else◌, ◌^◌, sub_w,
}
use sample_rate_tap.Rational.Ratio.{k_is_up, k_is_decimator}
use sample_rate_tap.Rational.Stage.{
  Kernels, StageTable, k_rows, k_branch_quantized, k_table_gain, k_hist_slack,
}

-- `double`, and `quantize_row_preserving_sum<S>`.
pub record Doubles (D C : Type 0) : Type 0 where
  pub nothing : D  -- `0.0`
  pub plus : D → D → D
  pub times : D → D → D
  pub over : D → D → D
  pub of_count : ℕ → D  -- `static_cast<double>`
  pub quantize_row : List D → List C

module _ {C : Type 0} (is_nil : C → Bool) where
  -- `trim_row`, its first loop.
  abbrev pub trim_first : List C → ℕ
  trim_first [] = 0
  trim_first (c ∷ cs) = let rest = trim_first cs in if is_nil c then suc rest else 0

  -- Its second loop, from `last` down.
  abbrev pub trim_last : C → List C → ℕ → ℕ → ℕ
  trim_last nil row first zero = zero
  trim_last nil row first (suc last) =
      let rest = trim_last nil row first last in
      if ltb first (suc last) && is_nil (get_or row last nil) then rest else suc last

module _ {S C A D : Type 0} (k : Kernels S C A) (f : Doubles D C) (up down : ℕ)
    (fixed16 : Bool) where
  -- The taps j, j + M, … of the prototype.
  abbrev pub branch_len : ℕ → ℕ → ℕ
  branch_len n j = (n + down - 1 - j) / down

  abbrev pub branch_of : List D → ℕ → List D
  branch_of h j =
      map (λ s. get_or h (j + s * down) f.nothing) (range_from 0 (branch_len (length h) j))

  -- The whole filter, quantized: branch by branch in Q15, as one row otherwise.
  unfoldable pub quantized : List D → List C
  quantized h =
      if k_branch_quantized up down fixed16
      then map (λ i. get_or (f.quantize_row (branch_of h (i % down))) (i / down) k.nil_coeff)
          (range_from 0 (length h))
      else f.quantize_row (map (λ v. f.over v (f.of_count down)) h)

  unfoldable pub row_len_of : ℕ → ℕ
  row_len_of n = if k_is_decimator up down then (n + down - 1) / down else (n + up - 1) / up

  -- Branch `j`, the newest tap last.
  abbrev pub branch_row : List D → ℕ → List C
  branch_row h j =
      let len = row_len_of (length h) in
      map
        (λ u.
          let s = len - 1 - u in
          if ltb s (branch_len (length h) j)
          then get_or (quantized h) (j + s * down) k.nil_coeff
          else k.nil_coeff)
        (range_from 0 len)

  -- `sum += v`, the taps from the oldest index on.
  abbrev pub sum_from : (ℕ → D) → ℕ → ℕ → D → D
  sum_from v zero t acc = acc
  sum_from v (suc n) t acc = sum_from v n (suc t) (f.plus acc (v t))

  -- Phase `p`, the newest tap last.
  unfoldable pub phase_row : List D → ℕ → List C
  phase_row h p =
      let len = row_len_of (length h) in
      let v : ℕ → D =
        λ t. if ltb (p + t * up) (length h) then get_or h (p + t * up) f.nothing else f.nothing in
      let sum = sum_from v len 0 f.nothing in
      let row = map (λ u. v (len - 1 - u)) (range_from 0 len) in
      f.quantize_row (
        if k_is_up up down
        then row
        else map (λ x. f.times (f.over x sum) (f.of_count (k_table_gain up down fixed16))) row)

  unfoldable pub table_row : List D → ℕ → List C
  table_row h r = if k_is_decimator up down then branch_row h r else phase_row h r

  abbrev pub rows_from : List D → ℕ → ℕ → List C
  rows_from h r zero = []
  rows_from h r (suc n) = table_row h r ++ rows_from h (suc r) n

  -- The constructor on the prototype `h`, before its lines are allocated; `last - first` wraps on a
  -- `std::size_t` of so many bits.
  unfoldable pub build_table : ℕ → ℕ → List D → StageTable C
  build_table bits channels h =
      let len = row_len_of (length h) in
      let first : ℕ → ℕ = λ r. trim_first k.is_nil (table_row h r) in
      record {
        channels = channels;
        taps = length h;
        row_len = len;
        hist_cap = len + k_hist_slack;
        rows = rows_from h 0 (k_rows up down);
        first = first;
        count = λ r.
            sub_w (2 ^ bits) (trim_last k.is_nil k.nil_coeff (table_row h r) (first r) len)
              (first r);
      }

module _ {S C A : Type 0} (k : Kernels S C A) (up down : ℕ) (t : StageTable C) where
  unfoldable pub coefficient : ℕ → ℕ → C
  coefficient r i =
      if leb (t.first r) i && ltb i (t.first r + t.count r)
      then get_or t.rows (r * t.row_len + i) k.nil_coeff
      else k.nil_coeff

  abbrev pub sum_counts : ℕ → ℕ
  sum_counts zero = 0
  sum_counts (suc r) = sum_counts r + t.count r

  unfoldable pub macs_per_superblock : ℕ
  macs_per_superblock = sum_counts (k_rows up down)
