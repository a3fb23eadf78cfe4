-- ===== src/Bridge/Converter/Tests.antt =====
-- The converter over numbers on short inputs.
use mathlib.Core.List.{flatten}
use sample_rate_tap.Common.{ℕ, ◌≤◌, ◌≡◌, ◌↔◌, refl, arith, Option, some, List, [], ◌∷◌, ◌++◌}
use sample_rate_tap.Bridge.Schedule.{up_to_48k, down_to_44k1, k_schedule}
use sample_rate_tap.Bridge.Table.{stored_row}
use sample_rate_tap.Bridge.Converter.{Converter, outputs_for, frames_needed, construct, reset}
use sample_rate_tap.Bridge.Converter.Walk.{
  process, process_taps, process_walk, append, fill, take_leftover, produce, emit_step,
}
use sample_rate_tap.Bridge.Converter.Samples.{numbers, two_taps, fresh, mono, dot, fresh-InStream}
use sample_rate_tap.Bridge.Converter.Stream.{InStream, Processed, process-stream}
use sample_rate_tap.Bridge.Converter.Reset.{construct-InStream, reset-InStream}
use sample_rate_tap.Bridge.Converter.Chunks.{frames_needed-le_iff, process-chunks}

abbrev written : Option (Converter ℕ ℕ × List (List ℕ)) → List (List ℕ)
written o = elim o [ some (c, out) ↦ out | _ ↦ [] ]

-- Outputs 0 and 1 see `0, 5` at phases 0 and 147 (row 12 backwards), output 2 sees `5, 7` at 134.
first_frames :
    written (process numbers up_to_48k fresh (mono 5 ∷ mono 7 ∷ []))
    ≡ (5 ∷ []) ∷ (60 ∷ []) ∷ (180 ∷ []) ∷ []
unfolding process process_taps process_walk produce fill append emit_step take_leftover construct
    outputs_for k_schedule stored_row dot flatten
first_frames = refl

construct-InStream_example : InStream numbers down_to_44k1 0 [] (construct numbers two_taps 2)
construct-InStream_example = construct-InStream numbers down_to_44k1 two_taps 2 (omega arith)

process-stream_example :
    (out : List (List ℕ)) × (c : Converter ℕ ℕ) × (process numbers up_to_48k fresh
        (mono 5 ∷ mono 7 ∷ [])
      ≡ some (c, out))
    × Processed numbers up_to_48k 0 [] (mono 5 ∷ mono 7 ∷ []) fresh out c
process-stream_example =
    process-stream numbers up_to_48k 0 [] (mono 5 ∷ mono 7 ∷ []) fresh fresh-InStream (omega arith)

process-chunks_example :
    (o₁ o₂ : List (List ℕ)) × (c₁ c₂ whole : Converter ℕ ℕ) × (process numbers up_to_48k fresh
        (mono 5 ∷ [])
      ≡ some (c₁, o₁))
    × (process numbers up_to_48k c₁ (mono 7 ∷ []) ≡ some (c₂, o₂))
    × (process numbers up_to_48k fresh (mono 5 ∷ mono 7 ∷ []) ≡ some (whole, o₁ ++ o₂))
    × (whole.pos ≡ c₂.pos)
    × (whole.pending ≡ c₂.pending)
process-chunks_example =
    process-chunks numbers up_to_48k 0 [] (mono 5 ∷ []) (mono 7 ∷ []) fresh fresh-InStream
      (omega arith)

-- Seven outputs into the stream, one input owed.
abbrev later : Converter ℕ ℕ
later = record {
  table = two_taps;
  channels = 1;
  hist_cap = 66;
  hist = λ i. [];
  end = 8;
  pos = 7;
  pending = 1;
}

frames_needed-le_iff_example :
    (frames_needed up_to_48k later 5 ≤ 4) ↔ (5 ≤ outputs_for up_to_48k later 4)
frames_needed-le_iff_example =
    frames_needed-le_iff up_to_48k later 5 4 (omega arith) (omega arith) (omega arith) (omega arith)

reset-InStream_example : InStream numbers up_to_48k 0 [] (reset numbers (record fresh { pos = 7 }))
unfolding construct reset
reset-InStream_example =
    reset-InStream numbers up_to_48k (record fresh { pos = 7 }) (omega arith) refl (λ i. refl)
