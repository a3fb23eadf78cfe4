-- ===== src/Rational/Stage/Tests.antt =====
-- A 3:2 stage and a decimator by 2 over numbers.
use sample_rate_tap.Common.{
  ℕ, ◌+◌, ◌*◌, ◌/◌, ◌≤◌, ◌<◌, ◌≡◌, ◌↔◌, refl, sym, arith, some, List, [], ◌∷◌, ◌++◌, length, take,
  drop, min, length-take, take-append-drop, false, map, range_from, ◌==◌, get_or, true, ==_iff, ◌-◌,
}
use sample_rate_tap.Machine.Source.{Source}
use sample_rate_tap.Rational.Stage.{Kernels, Frame, StageTable, StageState, k_schedule}
use sample_rate_tap.Rational.Stage.Calls.{outputs_for, frames_needed, process, pull, reset, initial}
use sample_rate_tap.Rational.Stage.Schedule.{Fits, k_schedule_lem}
use sample_rate_tap.Rational.Stage.Valid.{IsValid}
use sample_rate_tap.Rational.Stage.Table.{
  Doubles, build_table, coefficient, table_row, row_len_of, phase_row, quantized,
}
use sample_rate_tap.Rational.Stage.Table.Spans.{
  IsTrimmed, build_table-IsTrimmed, coefficient-row, coefficient-quantized,
}
use sample_rate_tap.Rational.Stage.Stream.{InStream, ideal_stage}
use sample_rate_tap.Rational.Stage.Stream.Counts.{Counted}
use sample_rate_tap.Rational.Stage.Stream.Process.{
  outputs_for-ready_iff, frames_needed-outputs_for, process-ideal_stage, process-append,
}
use sample_rate_tap.Rational.Stage.Stream.Pull.{
  pull-ideal_stage, pull-length_iff, flush-zeros, Flushes,
}
use sample_rate_tap.Rational.Stage.Stream.Reset.{initial-InStream, reset-initial}

abbrev dot : ℕ → List ℕ → List ℕ → ℕ
dot acc [] ys = acc
dot acc (x ∷ xs) [] = acc
dot acc (x ∷ xs) (y ∷ ys) = dot (acc + x * y) xs ys

abbrev numbers : Kernels ℕ ℕ ℕ
numbers = record {
  silence = 0;
  accum = 0;
  accumulate_row = dot;
  dot_row = dot 0;
  finalize = λ a. a;
  finalize_divided = λ g a. a / g;
  nil_coeff = 0;
  is_nil = λ c. c == 0;
}

-- Six taps in rows of two.
abbrev mixed : StageTable ℕ
mixed = record {
  channels = 1;
  taps = 6;
  row_len = 2;
  hist_cap = 66;
  rows = 1 ∷ 2 ∷ 3 ∷ 4 ∷ 5 ∷ 6 ∷ [];
  first = λ r. 0;
  count = λ r. 2;
}

-- Four taps in two branches.
abbrev halving : StageTable ℕ
halving = record {
  channels = 1;
  taps = 4;
  row_len = 2;
  hist_cap = 66;
  rows = 1 ∷ 2 ∷ 3 ∷ 4 ∷ [];
  first = λ r. 0;
  count = λ r. 2;
}

mixed-Fits : Fits 3 2
mixed-Fits = record {
  some_up = omega arith;
  some_down = omega arith;
  few_phases = omega arith;
  word = omega arith;
}

halving-Fits : Fits 1 2
halving-Fits = record {
  some_up = omega arith;
  some_down = omega arith;
  few_phases = omega arith;
  word = omega arith;
}

mixed-IsValid : IsValid 3 2 mixed
mixed-IsValid = record { some_taps = omega arith; room = refl; spans = λ r lt. omega arith }

halving-IsValid : IsValid 1 2 halving
halving-IsValid = record { some_taps = omega arith; room = refl; spans = λ r lt. omega arith }

Counted-mixed : (a : ℕ) → a ≤ 100 → Counted 64 3 2 a
Counted-mixed a le = record { wide = omega arith; room = omega arith }

Counted-halving : (a : ℕ) → a ≤ 100 → Counted 64 1 2 a
Counted-halving a le = record { wide = omega arith; room = omega arith }

abbrev mono : ℕ → Frame ℕ
mono v c = v

abbrev start : StageState ℕ
start = initial numbers 64 3 2 false mixed

abbrev begun : StageState ℕ
begun = initial numbers 64 1 2 false halving

start-InStream : InStream numbers 3 2 false mixed 0 [] start
start-InStream = initial-InStream numbers 64 3 2 false mixed mixed-Fits mixed-IsValid

begun-InStream : InStream numbers 1 2 false halving 0 [] begun
begun-InStream = initial-InStream numbers 64 1 2 false halving halving-Fits halving-IsValid

abbrev three : List (Frame ℕ)
three = mono 5 ∷ mono 7 ∷ mono 1 ∷ []

abbrev two : List (Frame ℕ)
two = mono 4 ∷ mono 9 ∷ []

halving_run : outputs_for 64 1 2 begun 3 ≡ 2
unfolding outputs_for initial reset
halving_run = refl

k_schedule_lem_example : k_schedule 3 2 2 ≡ record { phase = 1; advance = 1 }
k_schedule_lem_example = k_schedule_lem 3 2 mixed-Fits 2 (omega arith)

outputs_for-ready_iff_example :
    (1 < outputs_for 64 3 2 start 3) ↔ ((0 + 1) * 2 / 3 + 1 ≤ length {A = Frame ℕ} [] + 3)
outputs_for-ready_iff_example =
    outputs_for-ready_iff numbers 64 3 2 false mixed mixed-Fits mixed-IsValid 0 [] start
      start-InStream 3 (Counted-mixed 3 (omega arith)) 1

frames_needed-outputs_for_example :
    (frames_needed 64 3 2 start 4 ≤ 3) ↔ (4 ≤ outputs_for 64 3 2 start 3)
frames_needed-outputs_for_example =
    frames_needed-outputs_for numbers 64 3 2 false mixed mixed-Fits mixed-IsValid 0 [] start
      start-InStream 4 3 (Counted-mixed 4 (omega arith)) (Counted-mixed 3 (omega arith))

process-ideal_stage_example :
    (y : StageState ℕ) × (process numbers 64 3 2 false mixed three start
      ≡ some (
        map
            (ideal_stage numbers 3 2 false mixed ([] ++ three))
            (range_from 0 (outputs_for 64 3 2 start 3)),
        y,
      ))
    × InStream numbers 3 2 false mixed (0 + outputs_for 64 3 2 start 3) ([] ++ three) y
process-ideal_stage_example =
    process-ideal_stage numbers 64 3 2 false mixed mixed-Fits mixed-IsValid 0 [] three start
      start-InStream (Counted-mixed 3 (omega arith))

process-append_example :
    (o₁ o₂ : List (List ℕ)) × (y₁ y₂ y : StageState ℕ) × (process numbers 64 1 2 false halving three
        begun
      ≡ some (o₁, y₁))
    × (process numbers 64 1 2 false halving two y₁ ≡ some (o₂, y₂))
    × (process numbers 64 1 2 false halving (three ++ two) begun ≡ some (o₁ ++ o₂, y))
    × InStream numbers 1 2 false halving (0 + outputs_for 64 1 2 begun 5) ([] ++ (three ++ two)) y₂
    × InStream numbers 1 2 false halving (0 + outputs_for 64 1 2 begun 5) ([] ++ (three ++ two)) y
process-append_example =
    process-append numbers 64 1 2 false halving halving-Fits halving-IsValid 0 [] three two begun
      begun-InStream (Counted-halving 5 (omega arith))

-- What is left of a list, given out one by one.
abbrev one_by_one : Source (Frame ℕ) (List (Frame ℕ))
one_by_one = record {
  pop = λ want q. (drop (min want 1) q, take (min want 1) q);
  ahead = λ q. q;
  delivers = λ want q. sym (take-append-drop (min want 1) q);
  fits = λ want q. omega (arith, length-take (min want 1) q);
  ended = nothing_left;
}
  where
    nothing_left :
        (want : ℕ) (q : List (Frame ℕ)) → 0 < want → length (take (min want 1) q) ≡ 0 → q ≡ []
    nothing_left want [] pos e = refl
    nothing_left want (x ∷ q) pos e = absurd (omega (arith, length-take (min want 1) (x ∷ q)))

pull-ideal_stage_example :
    (next : StageState ℕ) × (left taken : List (Frame ℕ)) × (pull numbers 64 3 2 false mixed
        one_by_one.pop 2 start three
      ≡ some (
        map
            (ideal_stage numbers 3 2 false mixed ([] ++ three))
            (range_from 0 (min 2 (outputs_for 64 3 2 start 3))),
        next,
        left,
      ))
    × (three ≡ taken ++ left)
    × InStream numbers 3 2 false mixed (0 + min 2 (outputs_for 64 3 2 start 3)) ([] ++ taken) next
pull-ideal_stage_example =
    pull-ideal_stage numbers 64 3 2 false mixed mixed-Fits mixed-IsValid 0 [] start start-InStream
      one_by_one 2 three (Counted-mixed 2 (omega arith)) (Counted-mixed 3 (omega arith))

pull-length_iff_example :
    (out : List (List ℕ)) × (next : StageState ℕ) × (left : List (Frame ℕ)) × (pull numbers 64 1 2
        false halving one_by_one.pop 2 begun three
      ≡ some (out, next, left))
    × ((length out ≡ 2) ↔ (frames_needed 64 1 2 begun 2 ≤ 3))
pull-length_iff_example =
    pull-length_iff numbers 64 1 2 false halving halving-Fits halving-IsValid 0 [] begun
      begun-InStream one_by_one 2 three (Counted-halving 2 (omega arith))
      (Counted-halving 3 (omega arith))

flush-zeros_example : Flushes numbers 64 2 false mixed 0 [] start 3
flush-zeros_example =
    flush-zeros numbers 64 3 2 false mixed mixed-Fits mixed-IsValid 0 [] start start-InStream
      (Counted-mixed 2 (omega arith))

reset-initial_example :
    (out : List (List ℕ)) × (y z : StageState ℕ) × (process numbers 64 3 2 false mixed two
        (reset numbers 64 3 2 false mixed start)
      ≡ some (out, y))
    × (process numbers 64 3 2 false mixed two (initial numbers 64 3 2 false mixed) ≡ some (out, z))
reset-initial_example =
    reset-initial numbers 64 3 2 false mixed mixed-Fits mixed-IsValid 0 [] two start start-InStream
      (Counted-mixed 2 (omega arith))

-- Numbers that are their own quantization.
abbrev rounding : Doubles ℕ ℕ
rounding = record {
  nothing = 0;
  plus = ◌+◌;
  times = ◌*◌;
  over = ◌/◌;
  of_count = λ n. n;
  quantize_row = λ xs. xs;
}

abbrev prototype : List ℕ
prototype = 0 ∷ 4 ∷ 8 ∷ 2 ∷ 6 ∷ []

only_zero : (c : ℕ) → (c == 0) ≡ true → c ≡ 0
only_zero c e = (==_iff c 0).0 e

trimmed : coefficient numbers 3 1 (build_table numbers rounding 3 1 false 64 1 prototype) 0 0 ≡ 2
unfolding coefficient build_table table_row row_len_of phase_row
trimmed = refl

build_table-IsTrimmed_example :
    IsTrimmed (λ c. c == 0) 0 1 2 (build_table numbers rounding 1 2 false 64 1 prototype)
unfolding row_len_of
build_table-IsTrimmed_example =
    build_table-IsTrimmed numbers rounding 1 2 false (λ xs. refl) prototype 64 1 (omega arith)
      (omega arith)

coefficient-row_example :
    coefficient numbers 1 2 (build_table numbers rounding 1 2 false 64 1 prototype) 1 0
    ≡ get_or (table_row numbers rounding 1 2 false prototype 1) 0 0
unfolding row_len_of
coefficient-row_example =
    coefficient-row numbers rounding 1 2 false (λ xs. refl) prototype 64 1 1 0 only_zero
      (omega arith) (omega arith) (omega arith)

coefficient-quantized_example :
    coefficient numbers 1 2
      (build_table numbers rounding 1 2 false 64 1 prototype)
      1
      (row_len_of numbers rounding 1 2 false 5 - 1 - 1)
    ≡ get_or (quantized numbers rounding 1 2 false prototype) (1 + 1 * 2) 0
unfolding row_len_of
coefficient-quantized_example =
    coefficient-quantized numbers rounding 2 false (λ xs. refl) prototype 64 1 1 1 only_zero
      (omega arith) (omega arith) (omega arith) (omega arith)
