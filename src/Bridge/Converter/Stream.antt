-- ===== src/Bridge/Converter/Stream.antt =====
-- The converter in its stream: what `process` writes, from any position.
use sample_rate_tap.Common.{
  ℕ, ◌+◌, ◌*◌, ◌/◌, ◌%◌, ◌^◌, ◌≤◌, ◌<◌, ◌≡◌, refl, sym, ap, ◌∙◌, some, List, [], ◌++◌, map, arith,
  true, length, length-append, range_from, Holds, outputs_from, Bool-cases, inl, inr, ==_iff, ◌==◌,
  ge→ltb, lt→ltb, u32, if◌then◌else◌, dec_lt,
}
use native.Mathlib.Nat.{mod-lt}
use sample_rate_tap.Bridge.Schedule.{Direction, up_to_48k, down_to_44k1, k_phases, k_decimation}
use sample_rate_tap.Bridge.Schedule.Need.{phases_pos}
use sample_rate_tap.Bridge.Converter.{
  Kernels, Frame, Converter, outputs_for, k_hist_slack, k_taps_economy, k_taps_super_economy,
  k_taps_balanced, k_taps_transparent,
}
use sample_rate_tap.Bridge.Converter.Walk.{Walk, process_walk, process_taps, process}
use sample_rate_tap.Bridge.Converter.Align.{At, take_leftover_lem}
use sample_rate_tap.Bridge.Converter.Produce.{ideal_frame, Produced, produce_lem}

pub outputs_for-exact :
    {S C : Type 0} (d : Direction) (c : Converter S C) (a : ℕ)
    → c.pos < k_phases d
    → c.pending ≤ 2
    → a ≤ 2 ^ 56
    → outputs_for d c a ≡ outputs_from (k_phases d) (k_decimation d) c.pos c.pending a
unfolding outputs_for
outputs_for-exact up_to_48k c a hp hq ha = elim (dec_lt a c.pending) [
  | yes lt ↦ rw (lt→ltb a c.pending lt)
  | no ge ↦ rw (ge→ltb a c.pending (omega arith)) (omega arith)
]
outputs_for-exact down_to_44k1 c a hp hq ha = elim (dec_lt a c.pending) [
  | yes lt ↦ rw (lt→ltb a c.pending lt)
  | no ge ↦ rw (ge→ltb a c.pending (omega arith)) (omega arith)
]

position-fits : (d : Direction) (x : ℕ) → x % k_phases d % u32 ≡ x % k_phases d
position-fits up_to_48k x = omega arith
position-fits down_to_44k1 x = omega arith

module _ {S C : Type 0} (k : Kernels S C) (d : Direction) where
  -- The converter has received `past` and written `n` frames since its reset.
  pub record InStream (n : ℕ) (past : List (Frame S)) (c : Converter S C) : Type 0 where
    pub some_taps : 0 < c.table.taps
    pub room : c.hist_cap ≡ c.table.taps + k_hist_slack
    pub held : Holds k.silence c.table.taps c.hist_cap c.channels past c.hist c.end
    pub cursor : c.pos ≡ n % k_phases d
    pub owed : c.pending + length past ≡ n * k_decimation d / k_phases d + 1
    pub small : c.pending ≤ 2

  -- What a call that was given `frames` leaves and writes.
  pub record Processed (n : ℕ) (past frames : List (Frame S)) (c : Converter S C)
      (out : List (List S)) (c' : Converter S C) : Type 0 where
    pub wrote :
        out
        ≡ map
            (ideal_frame k d c.table c.channels (past ++ frames))
            (range_from n (outputs_for d c (length frames)))
    pub stream : InStream (n + outputs_for d c (length frames)) (past ++ frames) c'
    pub table : c'.table ≡ c.table
    pub channels : c'.channels ≡ c.channels

  module _ (n : ℕ) (past frames : List (Frame S)) (c : Converter S C) (h : InStream n past c)
      (fits : length frames ≤ 2 ^ 56) where
    abbrev total : ℕ
    total = outputs_for d c (length frames)

    abbrev start : Walk S
    start = record {
      hist = c.hist;
      src = frames;
      end = c.end;
      pos = c.pos;
      pending = c.pending;
      out = [];
    }

    abbrev stored : Walk S → Converter S C
    stored v = record c { hist = v.hist; end = v.end; pos = v.pos % u32; pending = v.pending % u32 }

    room : c.table.taps < c.hist_cap
    room = omega (arith, h.room)

    outer : Produced k d c c.channels h.some_taps room n total past frames start
    outer =
        produce_lem k d c c.channels h.some_taps room total n past frames start
          (record {
            at = record { held = h.held; ahead = refl };
            cursor = h.cursor;
            owed = h.owed;
            small = h.small;
          })
          (sym (
            outputs_for-exact d c (length frames) (rw h.cursor (mod-lt n (phases_pos d).0)) h.small
              fits))

    -- The state that the walk stores back stands in the stream.
    settle :
        (p : Produced k d c c.channels h.some_taps room n total past frames start) (v : Walk S)
        → At k.silence c.hist_cap c.table.taps c.channels (p.past' ++ p.rest) [] v
        → v.pos ≡ p.walk.pos
        → v.pending + length p.rest ≡ p.walk.pending
        → InStream (n + total) (past ++ frames) (stored v)
    settle p v at pos pending = record {
      some_taps = h.some_taps;
      room = h.room;
      held = rw p.split at at.held;
      cursor = rw (pos, p.aligned.cursor) (position-fits d (n + total));
      owed = omega (
        arith,
        pending,
        p.aligned.small,
        p.aligned.owed,
        ap length p.split,
        length-append p.past' p.rest,
      );
      small = omega (arith, pending, p.aligned.small);
    }

    -- The generic walk, at the counts read at run time.
    walk_lem :
        (out : List (List S)) × (c' : Converter S C) × (process_walk k d c 0 0 frames
          ≡ some (c', out))
        × Processed n past frames c out c'
    unfolding process_walk
    walk_lem =
        let p = outer in
        let (v, ran, at, pos, pending, out) =
          take_leftover_lem k.silence c.hist_cap c.table.taps c.channels h.some_taps room p.past'
            p.rest p.walk p.aligned.at p.short p.aligned.small in
        (
          v.out,
          stored v,
          rw (p.ran, ap length p.aligned.at.ahead, ran),
          record {
            wrote = out ∙ p.wrote;
            stream = settle p v at pos pending;
            table = refl;
            channels = refl;
          },
        )

  -- A compile-time count is the run-time one.
  walk_constants :
      (c : Converter S C) (ch t : ℕ) (frames : List (Frame S))
      → (if ch == 0 then c.channels else ch) ≡ c.channels
      → (if t == 0 then c.table.taps else t) ≡ c.table.taps
      → process_walk k d c ch t frames ≡ process_walk k d c 0 0 frames
  unfolding process_walk
  walk_constants c ch t frames e f = rw (e, f)

  process_taps_lem :
      (c : Converter S C) (t : ℕ) (frames : List (Frame S))
      → (if t == 0 then c.table.taps else t) ≡ c.table.taps
      → process_taps k d c t frames ≡ process_walk k d c 0 0 frames
  unfolding process_taps
  process_taps_lem c t frames f = elim (Bool-cases (c.channels == 1)) [
    | inl one ↦ rw one (walk_constants c 1 t frames (sym ((==_iff c.channels 1).0 one)) f)
    | inr not_one ↦ elim (Bool-cases (c.channels == 2)) [
      | inl two ↦
          rw (not_one, two) (walk_constants c 2 t frames (sym ((==_iff c.channels 2).0 two)) f)
      | inr other ↦ rw (not_one, other) (walk_constants c 0 t frames refl f)
    ]
  ]

  committed :
      (c : Converter S C) (t : ℕ)
      → (c.table.taps == t) ≡ true
      → (if t == 0 then c.table.taps else t) ≡ c.table.taps
  committed c t e = ground arith

  -- The dispatch on trip count and channel count chooses among equal walks.
  pub process-eq-walk :
      (c : Converter S C) (frames : List (Frame S))
      → process k d c frames ≡ process_walk k d c 0 0 frames
  unfolding process
  process-eq-walk c frames = elim (Bool-cases (c.table.taps == k_taps_economy d)) [
    | inl e ↦ rw e (process_taps_lem c _ frames (committed c _ e))
    | inr a ↦ elim (Bool-cases (c.table.taps == k_taps_super_economy d)) [
      | inl e ↦ rw (a, e) (process_taps_lem c _ frames (committed c _ e))
      | inr b ↦ elim (Bool-cases (c.table.taps == k_taps_balanced d)) [
        | inl e ↦ rw (a, b, e) (process_taps_lem c _ frames (committed c _ e))
        | inr f ↦ elim (Bool-cases (c.table.taps == k_taps_transparent d)) [
          | inl e ↦ rw (a, b, f, e) (process_taps_lem c _ frames (committed c _ e))
          | inr g ↦ rw (a, b, f, g) (process_taps_lem c 0 frames refl)
        ]
      ]
    ]
  ]

  -- From any position of a stream, `process` consumes its input without reading past it and writes
  -- exactly `outputs_for` frames: output n is the dot product of phase n M mod L with the newest
  -- samples of the first floor(n M / L) + 1 frames received, behind silence. It stands in the stream
  -- after them, with the table and the channels it had.
  pub process-stream :
      (n : ℕ) (past frames : List (Frame S)) (c : Converter S C)
      → InStream n past c
      → length frames ≤ 2 ^ 56
      → (out : List (List S)) × (c' : Converter S C) × (process k d c frames ≡ some (c', out))
        × Processed n past frames c out c'
  process-stream n past frames c h fits = rw process-eq-walk (walk_lem n past frames c h fits)
