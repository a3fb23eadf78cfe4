-- ===== src/Async/Resampler/Tests.antt =====
-- A resampler of two taps over numbers.
use sample_rate_tap.Common.{
  ℕ, ◌+◌, ◌*◌, ◌%◌, ◌^◌, ◌<◌, ◌≡◌, refl, sym, arith, true, List, [], ◌∷◌, take, drop, length,
  length-take, take-append-drop, u64,
}
use sample_rate_tap.Machine.Source.{Source}
use sample_rate_tap.Async.Resampler.{Frame, FilterBank, Resampler, advance_of_step}
use sample_rate_tap.Async.Samples.{numbers}
use sample_rate_tap.Async.Resampler.Read.{Reads, pace, advance_of_step_lem}
use sample_rate_tap.Async.Resampler.Process.{Processed, process_fixed-ideal_at}

abbrev halves : FilterBank ℕ
halves = record { phases = 2; taps = 2; table = (1 ∷ 2 ∷ []) ∷ (3 ∷ 4 ∷ []) ∷ (0 ∷ 1 ∷ []) ∷ [] }

abbrev mono : ℕ → Frame ℕ
mono v c = v

abbrev primed_with : List (Frame ℕ)
primed_with = mono 5 ∷ mono 7 ∷ []

abbrev primed_resampler : Resampler ℕ
primed_resampler = record {
  channels = 1;
  chunk = 2;
  hist_cap = 4;
  hist = λ c. 5 ∷ 7 ∷ 0 ∷ 0 ∷ [];
  end = 2;
  scratch = [];
  phase = 2 ^ 63;
  primed = true;
}

primed_resampler-Reads : Reads numbers halves 1 primed_with primed_resampler
primed_resampler-Reads = record {
  some_taps = omega arith;
  room = omega arith;
  planar = refl;
  some_chunk = omega arith;
  held = record { sized = λ i. refl; low = omega arith; high = omega arith; window = λ i lt. refl };
}

-- What is left of a list, as many as are asked for.
abbrev from_list : Source (Frame ℕ) (List (Frame ℕ))
from_list = record {
  pop = λ want q. (drop want q, take want q);
  ahead = λ q. q;
  delivers = λ want q. sym (take-append-drop want q);
  fits = λ want q. omega (arith, length-take want q);
  ended = nothing_left;
}
  where
    nothing_left : (want : ℕ) (q : List (Frame ℕ)) → 0 < want → length (take want q) ≡ 0 → q ≡ []
    nothing_left want [] pos e = refl
    nothing_left want (x ∷ q) pos e = absurd (omega (arith, length-take want (x ∷ q)))

abbrev three : List (Frame ℕ)
three = mono 1 ∷ mono 2 ∷ mono 3 ∷ []

advance_of_step_lem_example :
    advance_of_step (2 ^ 62) (2 ^ 63) * u64 + (2 ^ 63 + 2 ^ 62) % u64 ≡ 2 ^ 63 + pace (2 ^ 62)
advance_of_step_lem_example = advance_of_step_lem (2 ^ 62) (2 ^ 63) (omega arith) (omega arith)

process_fixed-ideal_at_example :
    Processed numbers halves 1 from_list (2 ^ 62) 3 primed_with primed_resampler three
process_fixed-ideal_at_example =
    process_fixed-ideal_at numbers halves 1 from_list (2 ^ 62) 3 primed_with primed_resampler three
      (omega arith) (omega arith) (omega arith) primed_resampler-Reads
