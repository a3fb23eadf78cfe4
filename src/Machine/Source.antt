-- ===== src/Machine/Source.antt =====
-- Where `pull` takes its input from.
use sample_rate_tap.Common.{ℕ, ◌≤◌, ◌<◌, ◌≡◌, List, [], ◌++◌, length}
use sample_rate_tap.Machine.{Pop}

-- A source that a caller may give to `pull`: it holds a stream, delivers from its front at most as
-- many frames as it is asked for, and nothing only at the end of the stream.
pub record Source (F Q : Type 0) : Type 0 where
  pub pop : Pop F Q
  pub ahead : Q → List F
  pub delivers : (want : ℕ) (q : Q) → ahead q ≡ (pop want q).1 ++ ahead (pop want q).0
  pub fits : (want : ℕ) (q : Q) → length (pop want q).1 ≤ want
  pub ended : (want : ℕ) (q : Q) → 0 < want → length (pop want q).1 ≡ 0 → ahead q ≡ []
