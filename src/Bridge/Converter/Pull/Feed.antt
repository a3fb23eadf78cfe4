-- ===== src/Bridge/Converter/Pull/Feed.antt =====
-- The silence that `flush` feeds, and how many outputs it releases.
use mathlib.Core.List.{append_assoc, append-nil}
use sample_rate_tap.Common.{
  ℕ, zero, suc, ◌+◌, ◌*◌, ◌/◌, ◌^◌, ◌≤◌, ◌<◌, ◌≡◌, ◌↔◌, ◌⊎◌, refl, ap, List, [], ◌∷◌, ◌++◌, arith,
  length, length-append, length-replicate, replicate, inl, inr, Bool-cases, ◌==◌, eq-suc_of_iff,
  sub_w, u32,
}
use sample_rate_tap.Bridge.Schedule.{Direction, k_phases, k_decimation}
use sample_rate_tap.Bridge.Converter.{Kernels, Frame, Converter, outputs_for}
use sample_rate_tap.Bridge.Converter.Stream.{InStream}
use sample_rate_tap.Bridge.Converter.Pull.{append_frame, feed}
use sample_rate_tap.Bridge.Converter.Pull.Frames.{Kept, Kept-refl, Kept-trans, take_frame_lem}
use sample_rate_tap.Bridge.Converter.Pull.Counts.{outputs_for_iff}

module _ {S C : Type 0} (k : Kernels S C) (d : Direction) where
  abbrev M : ℕ
  M = k_decimation d

  abbrev L : ℕ
  L = k_phases d

  -- A frame of silence, and some of them.
  abbrev pub silent_frame : Frame S
  silent_frame i = k.silence

  abbrev pub silent_frames : ℕ → List (Frame S)
  silent_frames m = replicate m silent_frame

  -- How the wait for silence ends.
  pub record Fed (left n : ℕ) (past : List (Frame S)) (c : Converter S C) : Type 0 where
    pub fed : ℕ
    pub counted : fed + (feed k d left c).0 ≡ left
    pub stands : InStream k d n (past ++ silent_frames fed) (feed k d left c).1
    pub kept : Kept c (feed k d left c).1
    pub outcome :
        ((feed k d left c).1.pending ≡ 0)
        ⊎ ((feed k d left c).0 ≡ 0) × (0 < (feed k d left c).1.pending)

  pub feed_lem :
      (left n : ℕ) (past : List (Frame S)) (c : Converter S C)
      → InStream k d n past c
      → Fed left n past c
  unfolding feed
  feed_lem zero n past c h = record {
    fed = 0;
    counted = refl;
    stands = rw (append-nil past) h;
    kept = Kept-refl c;
    outcome = elim (Bool-cases (c.pending == 0)) [
      | inl e ↦ inl (ground arith)
      | inr owed ↦ inr (refl, ground arith)
    ];
  }
  feed_lem (suc left) n past c h = elim (Bool-cases (c.pending == 0)) [
    | inl e ↦ record {
      fed = 0;
      counted = rw e (omega arith);
      stands = rw (e, append-nil past) h;
      kept = rw e (Kept-refl c);
      outcome = rw e (inl (ground arith));
    }
    | inr owed ↦
        let (on, kept, same) = take_frame_lem k d n past silent_frame c h (ground arith) in
        let v : Converter S C = record (append_frame silent_frame c) {
          pending = sub_w u32 (append_frame silent_frame c).pending 1;
        } in
        let r = feed_lem left n (past ++ silent_frame ∷ []) v on in
        record {
          fed = suc r.fed;
          counted = rw owed (omega (arith, r.counted));
          stands =
              rw owed
                (rw (append_assoc past (silent_frame ∷ []) (silent_frames r.fed)) at r.stands);
          kept =
              rw owed
                (Kept-trans c v _ (record { table = kept.table; channels = kept.channels }) r.kept);
          outcome = rw owed r.outcome;
        }
  ]

  module _ (left n : ℕ) (past : List (Frame S)) (c : Converter S C) (h : InStream k d n past c)
      (small : left ≤ 2 ^ 56) (r : Fed left n past c) where
    length-fed : length (past ++ silent_frames r.fed) ≡ length past + r.fed
    length-fed =
        omega (arith, length-append past (silent_frames r.fed), length-replicate r.fed silent_frame)

    -- All of the silence is fed and the next output still waits.
    pub none_out :
        (feed k d left c).0 ≡ 0 → 0 < (feed k d left c).1.pending → outputs_for d c left ≡ 0
    none_out all owed =
        let here : n + 0 ≡ n = omega arith in
        elim (Bool-cases (outputs_for d c left == 0)) [
          | inl e ↦ ground arith
          | inr some_out ↦ absurd (
              omega (
                arith,
                (outputs_for_iff k d n past c h left 0 small).0 (ground arith),
                ap (λ t. t * M / L) (here),
                r.stands.owed,
                length-fed,
                r.counted,
              ))
        ]

    -- One output is written, the others are those of the converter after it.
    pub one_out :
        (next : Converter S C)
        → (feed k d left c).1.pending ≡ 0
        → InStream k d (suc n) (past ++ silent_frames r.fed) next
        → outputs_for d c left ≡ suc (outputs_for d next (feed k d left c).0)
    one_out next none_owed on = eq-suc_of_iff _ _ moved
      where
        moved :
            (i : ℕ) → (suc i ≤ outputs_for d c left) ↔ (i ≤ outputs_for d next (feed k d left c).0)
        moved zero =
            let here : n + 0 ≡ n = omega arith in
            (
              λ _. omega arith,
              λ _.
                  (outputs_for_iff k d n past c h left 0 small).1
                    (omega (arith, ap (λ t. t * M / L) here, r.stands.owed, length-fed, r.counted)),
            )
        moved (suc i) =
            let there : n + suc i ≡ suc n + i = omega arith in
            let before = outputs_for_iff k d n past c h left (suc i) small in
            let after =
              outputs_for_iff k d (suc n) (past ++ silent_frames r.fed) next on (feed k d left c).0
                i (omega (arith, r.counted)) in
            (
              λ a.
                  after.1
                    (omega (arith, before.0 a, ap (λ t. t * M / L) there, length-fed, r.counted)),
              λ a.
                  before.1
                    (omega (arith, after.0 a, ap (λ t. t * M / L) there, length-fed, r.counted)),
            )
