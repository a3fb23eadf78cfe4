-- ===== src/Bridge/Converter/Pull/Counts.antt =====
-- `pull` against `frames_needed` and `process`.
use native.Mathlib.Nat.{mod-lt}
use sample_rate_tap.Common.{
  ℕ, zero, suc, ◌+◌, ◌-◌, ◌*◌, ◌/◌, ◌^◌, ◌≤◌, ◌<◌, ◌≡◌, ◌↔◌, refl, sym, ap, ◌∙◌, some, List, [],
  ◌++◌, map, arith, length, length-append, range_from, inl, inr, map-range_split, outputs_absolute,
  dec_lt,
}
use sample_rate_tap.Bridge.Schedule.{Direction, k_phases, k_decimation}
use sample_rate_tap.Bridge.Schedule.Need.{phases_pos}
use sample_rate_tap.Bridge.Converter.{Kernels, Frame, Converter, outputs_for, frames_needed}
use sample_rate_tap.Bridge.Converter.Walk.{process}
use sample_rate_tap.Bridge.Converter.Produce.{ideal_frame}
use sample_rate_tap.Bridge.Converter.Stream.{InStream, outputs_for-exact, process-stream}
use sample_rate_tap.Bridge.Converter.Chunks.{frames_needed-le_iff}
use sample_rate_tap.Bridge.Converter.Pull.{pull}
use sample_rate_tap.Bridge.Converter.Pull.Source.{Source}
use sample_rate_tap.Bridge.Converter.Pull.Stream.{Pulled, pull-stream}

module _ {S C : Type 0} (k : Kernels S C) (d : Direction) (n : ℕ) (past : List (Frame S))
    (c : Converter S C) (h : InStream k d n past c) where
  abbrev M : ℕ
  M = k_decimation d

  abbrev L : ℕ
  L = k_phases d

  in_cycle : c.pos < L
  in_cycle = rw h.cursor (mod-lt n (phases_pos d).0)

  -- Output `i` from here waits for the first floor((n + i) M / L) + 1 frames of the stream.
  pub outputs_for_iff :
      (a i : ℕ) → a ≤ 2 ^ 56 → (i < outputs_for d c a) ↔ ((n + i) * M / L + 1 ≤ length past + a)
  outputs_for_iff a i small =
      rw (outputs_for-exact d c a in_cycle h.small small, h.cursor)
        (outputs_absolute L M (phases_pos d).0 (phases_pos d).1 n c.pending (length past) a i
          h.owed)

  module _ {Q : Type 0} (s : Source S Q) (count : ℕ) (q : Q) where
    all_ahead : (p : Pulled k d s count n past c q) → length p.taken ≤ length (s.ahead q)
    all_ahead p = omega (arith, ap length p.split, length-append p.taken (s.ahead p.left))

    reached :
        (p : Pulled k d s count n past c q)
        → length (s.ahead q) ≤ 2 ^ 56
        → (m : ℕ) → length p.out ≡ m
        → m ≤ outputs_for d c (length p.taken)
    reached p small zero e = omega arith
    reached p small (suc m) e =
        (outputs_for_iff (length p.taken) m (omega (arith, all_ahead p))).1
          (omega (arith, p.fed m (omega arith), length-append past p.taken))

    -- More outputs are not to be had from more of the stream.
    fewer :
        (p : Pulled k d s count n past c q)
        → length (s.ahead q) ≤ 2 ^ 56
        → 0 < p.next.pending
        → s.ahead p.left ≡ []
        → outputs_for d c (length (s.ahead q)) ≤ length p.out
    fewer p small owed over = elim (dec_lt (length p.out) (outputs_for d c (length (s.ahead q)))) [
      | yes lt ↦ absurd (
          omega (
            arith,
            (outputs_for_iff (length (s.ahead q)) (length p.out) small).0 lt,
            p.stands.owed,
            length-append past p.taken,
            ap length p.split,
            length-append p.taken (s.ahead p.left),
            ap length over,
          ))
      | no ge ↦ omega arith
    ]

    -- Counts up to 2 ^ 56: `pull` writes all the frames asked for exactly if the source holds as many
    -- frames as `frames_needed` says, however it portions them.
    pub pull-complete_iff :
        count ≤ 2 ^ 56
        → length (s.ahead q) ≤ 2 ^ 56
        → (out : List (List S)) × (next : Converter S C) × (left : Q) × (pull k d s.pop count c q
            ≡ some (out, next, left))
          × ((length out ≡ count) ↔ (frames_needed d c count ≤ length (s.ahead q)))
    pull-complete_iff hc small =
        let p = pull-stream k d s count n past c q h in
        let adjoint =
          frames_needed-le_iff d c count (length (s.ahead q)) in_cycle h.small hc small in
        (
          p.out,
          p.next,
          p.left,
          p.ran,
          (
            λ all. adjoint.1 (more p count all),
            λ enough. elim p.outcome [
              | inl all ↦ all
              | inr (short, owed, over) ↦
                  absurd (omega (arith, adjoint.0 enough, fewer p small owed over))
            ],
          ),
        )
      where
        more :
            (p : Pulled k d s count n past c q)
            → (m : ℕ) → length p.out ≡ m
            → m ≤ outputs_for d c (length (s.ahead q))
        more p zero e = omega arith
        more p (suc m) e =
            (outputs_for_iff (length (s.ahead q)) m small).1
              (omega (arith, p.fed m (omega arith), all_ahead p, length-append past p.taken))

    -- What `pull` writes is the front of what `process` writes when it is given the frames that `pull`
    -- took from the source, for sources that hold up to 2 ^ 56 frames.
    pub pull-process :
        length (s.ahead q) ≤ 2 ^ 56
        → (out more : List (List S)) × (next whole : Converter S C) × (left : Q) × (taken : List
            (Frame S))
          × (pull k d s.pop count c q ≡ some (out, next, left))
          × (s.ahead q ≡ taken ++ s.ahead left)
          × (process k d c taken ≡ some (whole, out ++ more))
    pull-process small =
        let p = pull-stream k d s count n past c q h in
        let (o, whole, ran, r) =
          process-stream k d n past p.taken c h (omega (arith, all_ahead p)) in
        let total = outputs_for d c (length p.taken) in
        let ideal = ideal_frame k d c.table c.channels (past ++ p.taken) in
        let parts : length p.out + (total - length p.out) ≡ total =
          omega (arith, reached p small (length p.out) refl) in
        let more = map ideal (range_from (n + length p.out) (total - length p.out)) in
        let joined : o ≡ p.out ++ more =
          r.wrote
          ∙ ap (λ t. map ideal (range_from n t)) (sym parts)
          ∙ map-range_split ideal n (length p.out) (total - length p.out)
          ∙ ap (λ t. t ++ more) (sym p.wrote) in
        (p.out, more, p.next, whole, p.left, p.taken, p.ran, p.split, rw (← joined) ran)
