-- ===== src/Bridge/Converter/Pull/Frames.antt =====
-- A converter in its stream takes a frame, or writes one.
use mathlib.Core.List.{append_assoc, append-nil}
use sample_rate_tap.Common.{
  ℕ, suc, ◌+◌, ◌*◌, ◌/◌, ◌≤◌, ◌<◌, ◌≡◌, refl, ap, ◌∙◌, List, [], ◌∷◌, ◌++◌, arith, ap₂, map,
  range_from, take-append_le, length, length-append, Bool-cases, inl, inr, ◌==◌, sub_w, u32,
  Holds-store, Holds-slide,
}
use sample_rate_tap.Bridge.Schedule.{Direction, k_phases, k_decimation}
use sample_rate_tap.Bridge.Converter.{Kernels, Frame, Converter}
use sample_rate_tap.Bridge.Converter.Walk.{Walk, emit_step}
use sample_rate_tap.Bridge.Converter.Produce.{ideal_frame, emit_lem}
use sample_rate_tap.Bridge.Converter.Stream.{InStream}
use sample_rate_tap.Bridge.Converter.Pull.{compact_if_full, append_frame, take_frames, emit}

-- No operation on the stream touches the table or the channel count.
pub record Kept {S C : Type 0} (c c' : Converter S C) : Type 0 where
  pub table : c'.table ≡ c.table
  pub channels : c'.channels ≡ c.channels

pub Kept-refl : {S C : Type 0} (c : Converter S C) → Kept c c
Kept-refl c = record { table = refl; channels = refl }

pub Kept-trans : {S C : Type 0} (a b c : Converter S C) → Kept a b → Kept b c → Kept a c
Kept-trans a b c h g = record { table = g.table ∙ h.table; channels = g.channels ∙ h.channels }

module _ {S C : Type 0} (k : Kernels S C) (d : Direction) where
  -- One frame taken, of those that are owed.
  pub take_frame_lem :
      (n : ℕ) (past : List (Frame S)) (f : Frame S) (c : Converter S C)
      → InStream k d n past c
      → 0 < c.pending
      → InStream k d n
          (past ++ f ∷ [])
          (record (append_frame f c) { pending = sub_w u32 (append_frame f c).pending 1 })
        × Kept c (append_frame f c)
        × ((append_frame f c).pending ≡ c.pending)
  unfolding append_frame compact_if_full
  take_frame_lem n past f c h some = elim (Bool-cases (c.end == c.hist_cap)) [
    | inl full ↦ rw full (
      record {
        some_taps = h.some_taps;
        room = h.room;
        held =
            Holds-slide k.silence c.table.taps h.some_taps c.hist_cap c.channels past f c.hist c.end
              h.held (omega (arith, h.room));
        cursor = h.cursor;
        owed = omega (arith, h.owed, h.small, length-append past (f ∷ []));
        small = omega (arith, h.small);
      },
      record { table = refl; channels = refl },
      refl,
    )
    | inr free ↦ rw free (
      record {
        some_taps = h.some_taps;
        room = h.room;
        held =
            Holds-store k.silence c.table.taps h.some_taps c.hist_cap c.channels past f c.hist c.end
              h.held (let top = h.held.high in ground arith);
        cursor = h.cursor;
        owed = omega (arith, h.owed, h.small, length-append past (f ∷ []));
        small = omega (arith, h.small);
      },
      record { table = refl; channels = refl },
      refl,
    )
  ]

  pub take_frames_lem :
      (fs : List (Frame S)) (n : ℕ) (past : List (Frame S)) (c : Converter S C)
      → InStream k d n past c
      → length fs ≤ c.pending
      → InStream k d n (past ++ fs) (take_frames fs c)
        × Kept c (take_frames fs c)
        × ((take_frames fs c).pending + length fs ≡ c.pending)
  unfolding take_frames
  take_frames_lem [] n past c h le = (rw (append-nil past) h, Kept-refl c, omega arith)
  take_frames_lem (f ∷ fs) n past c h le =
      let (stands, kept, same) = take_frame_lem n past f c h (omega arith) in
      let v : Converter S C = record (append_frame f c) {
        pending = sub_w u32 (append_frame f c).pending 1;
      } in
      let one_less : sub_w u32 (append_frame f c).pending 1 + 1 ≡ c.pending =
        omega (arith, same, h.small) in
      let (on, more, count) = take_frames_lem fs n (past ++ f ∷ []) v stands (omega arith) in
      (
        rw (append_assoc past (f ∷ []) fs) at on,
        Kept-trans c v (take_frames fs v) (record { table = kept.table; channels = kept.channels })
            more,
        omega arith,
      )

  abbrev walk_of : Converter S C → Walk S
  walk_of c = record {
    hist = c.hist;
    src = [];
    end = c.end;
    pos = c.pos;
    pending = c.pending;
    out = [];
  }

  -- With nothing owed, `emit` writes output `n` of what was received.
  pub emit-stream :
      (n : ℕ) (past : List (Frame S)) (c : Converter S C)
      → InStream k d n past c
      → c.pending ≡ 0
      → InStream k d (n + 1) past (emit k d c).1
        × ((emit k d c).0 ≡ ideal_frame k d c.table c.channels past n)
        × Kept c (emit k d c).1
  unfolding emit emit_step
  emit-stream n past c h none_owed =
      let (al, wrote) =
        emit_lem k d c c.channels h.some_taps (omega (arith, h.room)) n past [] (walk_of c)
          (record { held = h.held; ahead = refl }) h.cursor (omega (arith, h.owed)) in
      (
        record {
          some_taps = h.some_taps;
          room = h.room;
          held = al.at.held;
          cursor = al.cursor;
          owed = al.owed;
          small = al.small;
        },
        first wrote ∙ ap (λ t. ideal_frame k d c.table c.channels t n) (append-nil past),
        record { table = refl; channels = refl },
      )
    where
      first : {x y : List S} → (x ∷ [] ≡ y ∷ []) → x ≡ y
      first {x} e = ap (λ t. elim t [ [] ↦ x | a ∷ rest ↦ a ]) e

module _ {S C : Type 0} (k : Kernels S C) (d : Direction) where
  -- A frame that an input determines stays the same when more comes.
  ideal_extends :
      (c : Converter S C) (past more : List (Frame S)) (n : ℕ)
      → n * k_decimation d / k_phases d + 1 ≤ length past
      → ideal_frame k d c.table c.channels past n
        ≡ ideal_frame k d c.table c.channels (past ++ more) n
  ideal_extends c past more n h =
      rw (take-append_le (n * k_decimation d / k_phases d + 1) past more h) refl

  -- The frame written first, and the others after it.
  pub frames_cons :
      (n : ℕ) (past : List (Frame S)) (c at next : Converter S C) (xs ys : List (Frame S))
      → (frame : List S) (out : List (List S)) → Kept c at
      → Kept c next
      → n * k_decimation d / k_phases d + 1 ≤ length (past ++ xs)
      → frame ≡ ideal_frame k d at.table at.channels (past ++ xs) n
      → out
        ≡ map
            (ideal_frame k d next.table next.channels ((past ++ xs) ++ ys))
            (range_from (suc n) (length out))
      → frame ∷ out
        ≡ map
            (ideal_frame k d c.table c.channels (past ++ (xs ++ ys)))
            (range_from n (suc (length out)))
  frames_cons n past c at next xs ys frame out near far first e es =
      let whole = append_assoc past xs ys in
      ap₂ ◌∷◌
        (e
          ∙ ap₂ (λ t ch. ideal_frame k d t ch (past ++ xs) n) near.table near.channels
          ∙ ideal_extends c (past ++ xs) ys n first
          ∙ ap (λ t. ideal_frame k d c.table c.channels t n) whole)
        (es
          ∙ ap₂
              (λ t ch.
                map (ideal_frame k d t ch ((past ++ xs) ++ ys)) (range_from (suc n) (length out)))
              far.table far.channels
          ∙ ap (λ t. map (ideal_frame k d c.table c.channels t) (range_from (suc n) (length out)))
              whole)
