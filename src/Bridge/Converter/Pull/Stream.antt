-- ===== src/Bridge/Converter/Pull/Stream.antt =====
-- What `pull` writes, and how it ends.
use mathlib.Core.List.{append_assoc, append-nil}
use native.Mathlib.Nat.{add-zero}
use native.Mathlib.Numerals.{add-one}
use sample_rate_tap.Common.{
  ℕ, zero, suc, ◌+◌, ◌*◌, ◌/◌, ◌≤◌, ◌<◌, ◌≡◌, ◌⊎◌, refl, sym, ap, ◌∙◌, some, List, [], ◌∷◌, ◌++◌,
  map, arith, length, length-append, range_from, inl, inr,
}
use sample_rate_tap.Bridge.Schedule.{Direction, k_phases, k_decimation}
use sample_rate_tap.Bridge.Converter.{Kernels, Frame, Converter}
use sample_rate_tap.Bridge.Converter.Produce.{ideal_frame}
use sample_rate_tap.Bridge.Converter.Stream.{InStream}
use sample_rate_tap.Bridge.Converter.Pull.{emit, pull}
use sample_rate_tap.Bridge.Converter.Pull.Frames.{
  Kept, Kept-refl, Kept-trans, emit-stream, frames_cons,
}
use sample_rate_tap.Bridge.Converter.Pull.Source.{Source, draw_lem}

module _ {S C Q : Type 0} (k : Kernels S C) (d : Direction) (s : Source S Q) where
  abbrev M : ℕ
  M = k_decimation d

  abbrev L : ℕ
  L = k_phases d

  -- What a call for `count` frames leaves and writes.
  pub record Pulled (count n : ℕ) (past : List (Frame S)) (c : Converter S C) (q : Q) : Type 0 where
    pub out : List (List S)
    pub next : Converter S C
    pub left : Q
    pub taken : List (Frame S)
    pub ran : pull k d s.pop count c q ≡ some (out, next, left)
    pub split : s.ahead q ≡ taken ++ s.ahead left
    pub stands : InStream k d (n + length out) (past ++ taken) next
    pub kept : Kept c next
    pub wrote :
        out ≡ map (ideal_frame k d c.table c.channels (past ++ taken)) (range_from n (length out))
    pub fed : (i : ℕ) → i < length out → (n + i) * M / L + 1 ≤ length (past ++ taken)
    pub outcome :
        (length out ≡ count) ⊎ (length out < count) × (0 < next.pending) × (s.ahead left ≡ [])

  fed_cons :
      (n m a b : ℕ)
      → n * M / L + 1 ≤ a
      → a ≤ b
      → ((i : ℕ) → i < m → (suc n + i) * M / L + 1 ≤ b)
      → (i : ℕ) → i < suc m
      → (n + i) * M / L + 1 ≤ b
  fed_cons n m a b first le rest zero h = rw add-zero (omega arith)
  fed_cons n m a b first le rest (suc i) h =
      let at : n + suc i ≡ suc n + i = omega arith in rw at (rest i (omega arith))

  -- `pull` ends, whatever the source delivers in one call. It takes a front part of the source's
  -- stream and writes the outputs of the stream that are next in order, `count` of them, or fewer if
  -- the source's stream ended with inputs still owed; it stands in the stream after them.
  pub pull-stream :
      (count n : ℕ) (past : List (Frame S)) (c : Converter S C) (q : Q)
      → InStream k d n past c
      → Pulled count n past c q
  unfolding pull
  pull-stream zero n past c q h = record {
    out = [];
    next = c;
    left = q;
    taken = [];
    ran = refl;
    split = refl;
    stands = rw (append-nil past, add-zero) h;
    kept = Kept-refl c;
    wrote = refl;
    fed = λ i lt. absurd (omega arith);
    outcome = inl refl;
  }
  pull-stream (suc count) n past c q h =
      let r = draw_lem k d s c.pending n past c q h (omega arith) in
      elim r.outcome [
        | inr (ran, owed, over) ↦ record {
          out = [];
          next = r.next;
          left = r.left;
          taken = r.taken;
          ran = rw ran refl;
          split = r.split;
          stands = rw add-zero r.stands;
          kept = r.kept;
          wrote = refl;
          fed = λ i lt. absurd (omega arith);
          outcome = inr (omega arith, owed, over);
        }
        | inl (ran, none_owed) ↦
            let (after, frame, kept) =
              emit-stream k d n (past ++ r.taken) r.next r.stands none_owed in
            let p =
              pull-stream count (suc n) (past ++ r.taken) (emit k d r.next).1 r.left
                (rw add-one at after) in
            let whole = append_assoc past r.taken p.taken in
            let later : n + suc (length p.out) ≡ suc n + length p.out = omega arith in
            let on = Kept-trans c r.next (emit k d r.next).1 r.kept kept in
            let first : n * M / L + 1 ≤ length (past ++ r.taken) = omega (arith, r.stands.owed) in
            record {
              out = (emit k d r.next).0 ∷ p.out;
              next = p.next;
              left = p.left;
              taken = r.taken ++ p.taken;
              ran = rw (ran, p.ran) refl;
              split =
                  r.split
                  ∙ ap (λ t. r.taken ++ t) p.split
                  ∙ sym (append_assoc r.taken p.taken (s.ahead p.left));
              stands = rw (later, ← whole) p.stands;
              kept = Kept-trans c (emit k d r.next).1 p.next on p.kept;
              wrote =
                  frames_cons k d n past c r.next (emit k d r.next).1 r.taken p.taken
                    (emit k d r.next).0 p.out r.kept on first frame p.wrote;
              fed = rw (← whole) (
                  fed_cons n (length p.out) (length (past ++ r.taken)) _ first
                    (omega (arith, length-append (past ++ r.taken) p.taken)) p.fed);
              outcome = elim p.outcome [
                | inl all ↦ inl (ap suc all)
                | inr (fewer, owed, over) ↦ inr (omega arith, owed, over)
              ];
            }
      ]
