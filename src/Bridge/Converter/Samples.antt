-- ===== src/Bridge/Converter/Samples.antt =====
-- A converter over numbers, with a table of two taps.
use mathlib.Core.List.{flatten, reverse}
use sample_rate_tap.Common.{ℕ, ◌+◌, ◌*◌, arith, List, [], ◌∷◌, map, range_from}
use sample_rate_tap.Bridge.Schedule.{up_to_48k}
use sample_rate_tap.Bridge.Table.{PhaseTable}
use sample_rate_tap.Bridge.Converter.{Kernels, Frame, Converter, construct}
use sample_rate_tap.Bridge.Converter.Stream.{InStream}
use sample_rate_tap.Bridge.Converter.Reset.{construct-InStream}

unfoldable pub dot : List ℕ → List ℕ → ℕ
dot [] w = 0
dot (c ∷ row) [] = 0
dot (c ∷ row) (x ∷ w) = c * x + dot row w

abbrev pub numbers : Kernels ℕ ℕ
numbers = record { silence = 0; dot_row = dot; dot_row_reversed = λ row w. dot (reverse row) w }

-- Row `ph` is `ph, 1`.
abbrev pub two_taps : PhaseTable ℕ
two_taps = record { taps = 2; table = flatten (map (λ ph. ph ∷ 1 ∷ []) (range_from 0 80)) }

abbrev pub fresh : Converter ℕ ℕ
fresh = construct numbers two_taps 1

abbrev pub mono : ℕ → Frame ℕ
mono x i = x

pub fresh-InStream : InStream numbers up_to_48k 0 [] fresh
fresh-InStream = construct-InStream numbers up_to_48k two_taps 1 (omega arith)
