-- ===== src/Bridge/Converter/Pull/Tests.antt =====
-- `pull` and `flush` on the numbers, from a source that delivers a frame at a time.
use sample_rate_tap.Common.{
  ℕ, ◌+◌, ◌≤◌, ◌<◌, ◌≡◌, ◌↔◌, refl, sym, arith, some, List, [], ◌∷◌, ◌++◌, length, take, drop, min,
  length-take, take-append-drop,
}
use sample_rate_tap.Bridge.Schedule.{up_to_48k}
use sample_rate_tap.Bridge.Converter.{Frame, Converter, frames_needed, construct, reset}
use sample_rate_tap.Bridge.Converter.Walk.{process}
use sample_rate_tap.Bridge.Converter.Stream.{InStream}
use sample_rate_tap.Bridge.Converter.Samples.{numbers, fresh, mono, fresh-InStream}
use sample_rate_tap.Bridge.Converter.Pull.{pull, flush, flush_output_frames}
use sample_rate_tap.Bridge.Converter.Pull.Source.{Source}
use sample_rate_tap.Bridge.Converter.Pull.Stream.{Pulled, pull-stream}
use sample_rate_tap.Bridge.Converter.Pull.Counts.{pull-complete_iff, pull-process}
use sample_rate_tap.Bridge.Converter.Pull.Feed.{silent_frames}
use sample_rate_tap.Bridge.Converter.Pull.Drain.{flush-process}

-- What is left of a list, given out one by one.
abbrev one_by_one : Source ℕ (List (Frame ℕ))
one_by_one = record {
  pop = λ want q. (drop (min want 1) q, take (min want 1) q);
  ahead = λ q. q;
  delivers = λ want q. sym (take-append-drop (min want 1) q);
  fits = λ want q. omega (arith, length-take (min want 1) q);
  ended = nothing_left;
}
  where
    nothing_left :
        (want : ℕ) (q : List (Frame ℕ)) → 0 < want → length (take (min want 1) q) ≡ 0 → q ≡ []
    nothing_left want [] pos e = refl
    nothing_left want (x ∷ q) pos e = absurd (omega (arith, length-take (min want 1) (x ∷ q)))

abbrev two_frames : List (Frame ℕ)
two_frames = mono 5 ∷ mono 7 ∷ []

pull-stream_example : Pulled numbers up_to_48k one_by_one 3 0 [] fresh two_frames
pull-stream_example =
    pull-stream numbers up_to_48k one_by_one 3 0 [] fresh two_frames fresh-InStream

pull-complete_iff_example :
    (out : List (List ℕ)) × (next : Converter ℕ ℕ) × (left : List (Frame ℕ)) × (pull numbers
        up_to_48k one_by_one.pop 3 fresh two_frames
      ≡ some (out, next, left))
    × ((length out ≡ 3) ↔ (frames_needed up_to_48k fresh 3 ≤ length (one_by_one.ahead two_frames)))
pull-complete_iff_example =
    pull-complete_iff numbers up_to_48k 0 [] fresh fresh-InStream one_by_one 3 two_frames
      (omega arith) (omega arith)

pull-process_example :
    (out more : List (List ℕ)) × (next whole : Converter ℕ ℕ) × (left taken : List (Frame ℕ))
    × (pull numbers up_to_48k one_by_one.pop 3 fresh two_frames ≡ some (out, next, left))
    × (one_by_one.ahead two_frames ≡ taken ++ one_by_one.ahead left)
    × (process numbers up_to_48k fresh taken ≡ some (whole, out ++ more))
pull-process_example =
    pull-process numbers up_to_48k 0 [] fresh fresh-InStream one_by_one 3 two_frames (omega arith)

flush-process_example :
    (out : List (List ℕ)) × (last whole : Converter ℕ ℕ) × (flush numbers up_to_48k fresh
      ≡ some (out, last))
    × (length out ≡ flush_output_frames numbers up_to_48k fresh)
    × (process numbers up_to_48k fresh (silent_frames numbers up_to_48k 2) ≡ some (whole, out))
    × InStream numbers up_to_48k (0 + length out) ([] ++ silent_frames numbers up_to_48k 2) last
unfolding construct reset
flush-process_example = flush-process numbers up_to_48k 0 [] fresh fresh-InStream (omega arith)
