-- ===== src/Bridge/Converter/Align.antt =====
-- Where the walk stands in the stream, and what it has written.
use mathlib.Core.List.{append_assoc, append-nil}
use sample_rate_tap.Common.{
  ℕ, zero, suc, ◌+◌, ◌-◌, ◌≤◌, ◌<◌, ◌≡◌, refl, ◌∙◌, some, List, [], ◌∷◌, ◌++◌, arith, length,
  Bool-cases, inl, inr, ◌==◌, slide, store_frame, sub_w, u64, Holds, Holds-store, Holds-slide,
}
use sample_rate_tap.Bridge.Converter.{Frame}
use sample_rate_tap.Bridge.Converter.Walk.{Walk, append, fill, take_leftover}

module _ {S : Type 0} (silence : S) (cap taps ch : ℕ) where
  -- The lines hold what came before; the input still to come is `rest`.
  pub record At (past : List (Frame S)) (rest : List (Frame S)) (w : Walk S) : Type 0 where
    pub held : Holds silence taps cap ch past w.hist w.end
    pub ahead : w.src ≡ rest

  -- What `append` leaves alone.
  pub record Appended (past : List (Frame S)) (rest : List (Frame S)) (w : Walk S) (v : Walk S)
      : Type 0 where
    pub at : At past rest v
    pub pos : v.pos ≡ w.pos
    pub pending : v.pending ≡ w.pending
    pub out : v.out ≡ w.out

  module _ (some_taps : 0 < taps) (room : taps < cap) where
    pub append_lem :
        (past : List (Frame S)) (f : Frame S) (rest : List (Frame S)) (w : Walk S)
        → At past (f ∷ rest) w
        → (v : Walk S) × (append cap taps ch w ≡ some v) × Appended (past ++ f ∷ []) rest w v
    unfolding append
    append_lem past f rest w h = elim (Bool-cases (w.end == cap)) [
      | inl full ↦ (
        record w {
          hist = store_frame ch f (λ i. slide (taps - 1) w.end (w.hist i)) (taps - 1);
          src = rest;
          end = taps - 1 + 1;
        },
        rw (h.ahead, full),
        record {
          at = record {
            held = Holds-slide silence taps some_taps cap ch past f w.hist w.end h.held room;
            ahead = refl;
          };
          pos = refl;
          pending = refl;
          out = refl;
        },
      )
      | inr free ↦ (
        record w { hist = store_frame ch f w.hist w.end; src = rest; end = w.end + 1 },
        rw (h.ahead, free),
        record {
          at = record {
            held =
                Holds-store silence taps some_taps cap ch past f w.hist w.end h.held (ground arith);
            ahead = refl;
          };
          pos = refl;
          pending = refl;
          out = refl;
        },
      )
    ]

    -- The inner loop takes `p` frames.
    pub fill_lem :
        (p : ℕ) (past fs rest : List (Frame S)) (w : Walk S)
        → At past (fs ++ rest) w
        → length fs ≡ p
        → w.pending ≡ p
        → (v : Walk S) × (fill cap taps ch p w ≡ some v)
          × At (past ++ fs) rest v
          × (v.pos ≡ w.pos)
          × (v.out ≡ w.out)
    unfolding fill
    fill_lem zero past [] rest w h e q = (w, refl, rw (append-nil past) h, refl, refl)
    fill_lem zero past (f ∷ fs) rest w h e q = absurd (omega arith)
    fill_lem (suc p) past [] rest w h e q = absurd (omega arith)
    fill_lem (suc p) past (f ∷ fs) rest w h e q =
        let (v, ran, a) = append_lem past f (fs ++ rest) w h in
        let held : At (past ++ f ∷ []) (fs ++ rest) (record v { pending = p }) = record {
          held = a.at.held;
          ahead = a.at.ahead;
        } in
        let (u, more, at, pos, out) =
          fill_lem p (past ++ f ∷ []) fs rest (record v { pending = p }) held (omega arith) refl in
        (u, rw ran more, rw (append_assoc past (f ∷ []) fs) at at, pos ∙ a.pos, out ∙ a.out)

    -- The closing loop takes what is left, and less is left than is owed.
    pub take_leftover_lem :
        (past rest : List (Frame S)) (w : Walk S)
        → At past rest w
        → length rest < w.pending
        → w.pending ≤ 2
        → (v : Walk S) × (take_leftover cap taps ch (length rest) w ≡ some v)
          × At (past ++ rest) [] v
          × (v.pos ≡ w.pos)
          × (v.pending + length rest ≡ w.pending)
          × (v.out ≡ w.out)
    unfolding take_leftover
    take_leftover_lem past [] w h lt small =
        (w, refl, rw (append-nil past) h, refl, omega arith, refl)
    take_leftover_lem past (f ∷ rest) w h lt small =
        let (v, ran, a) = append_lem past f rest w h in
        let w' : Walk S = record v { pending = sub_w u64 v.pending 1 } in
        let left : sub_w u64 v.pending 1 + 1 ≡ w.pending = omega (arith, a.pending) in
        let (u, more, at, pos, pending, out) =
          take_leftover_lem (past ++ f ∷ []) rest w'
            (record { held = a.at.held; ahead = a.at.ahead }) (omega arith) (omega arith) in
        (
          u,
          rw ran more,
          rw (append_assoc past (f ∷ []) rest) at at,
          pos ∙ a.pos,
          omega arith,
          out ∙ a.out,
        )
