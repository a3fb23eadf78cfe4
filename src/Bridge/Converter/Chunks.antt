-- ===== src/Bridge/Converter/Chunks.antt =====
-- Input in two calls, and the two counts of a converter.
use mathlib.Core.List.{append_assoc}
use native.Mathlib.Nat.{mod-lt}
use sample_rate_tap.Common.{
  ℕ, zero, suc, ◌+◌, ◌-◌, ◌*◌, ◌/◌, ◌%◌, ◌^◌, ◌≤◌, ◌<◌, ◌≡◌, ◌↔◌, refl, sym, ap, ap₂, ◌∙◌, some,
  List, ◌++◌, map, arith, length, length-append, range_from, outputs_from, outputs_chunks,
  outputs_absolute, needed_from, needed-le_iff, take-append_le, map-range_split, map-range_cong,
  add_w, sub_w, u64, suc-==-zero,
}
use sample_rate_tap.Bridge.Schedule.{Direction, up_to_48k, down_to_44k1, k_phases, k_decimation}
use sample_rate_tap.Bridge.Schedule.Need.{phases_pos, frames_needed-exact}
use sample_rate_tap.Bridge.Converter.{Kernels, Frame, Converter, outputs_for, frames_needed}
use sample_rate_tap.Bridge.Converter.Walk.{process}
use sample_rate_tap.Bridge.Converter.Produce.{ideal_frame}
use sample_rate_tap.Bridge.Converter.Stream.{InStream, Processed, outputs_for-exact, process-stream}

-- In range the count of the code is the rounded quotient.
frames_needed_lem :
    {S C : Type 0} (d : Direction) (c : Converter S C) (n : ℕ)
    → c.pos < k_phases d
    → c.pending ≤ 2
    → n ≤ 2 ^ 56
    → frames_needed d c n ≡ needed_from (k_phases d) (k_decimation d) c.pos c.pending n
unfolding frames_needed
frames_needed_lem d c zero hp hq hn = refl
frames_needed_lem d c (suc n) hp hq hn =
    let one_less : sub_w u64 (suc n) 1 ≡ n = omega arith in
    rw (suc-==-zero n, one_less, frames_needed-exact d c.pos n hp (omega arith))
      (in_range d c.pos c.pending n hp hq (omega arith))
  where
    in_range :
        (e : Direction) (pos pending i : ℕ)
        → pos < k_phases e
        → pending ≤ 2
        → i ≤ 2 ^ 56
        → add_w u64 pending
            ((pos + i) * k_decimation e / k_phases e - pos * k_decimation e / k_phases e)
          ≡ pending + ((pos + i) * k_decimation e / k_phases e - pos * k_decimation e / k_phases e)
    in_range up_to_48k pos pending i a b f = omega arith
    in_range down_to_44k1 pos pending i a b f = omega arith

-- At any schedule position, `a` inputs are enough for `n` outputs exactly if `a` inputs yield at
-- least `n`: the two counts of the converter are adjoint, for counts up to 2 ^ 56.
pub frames_needed-le_iff :
    {S C : Type 0} (d : Direction) (c : Converter S C) (n a : ℕ)
    → c.pos < k_phases d
    → c.pending ≤ 2
    → n ≤ 2 ^ 56
    → a ≤ 2 ^ 56
    → (frames_needed d c n ≤ a) ↔ (n ≤ outputs_for d c a)
frames_needed-le_iff d c n a hp hq hn ha =
    rw (frames_needed_lem d c n hp hq hn, outputs_for-exact d c a hp hq ha)
      (needed-le_iff (k_phases d) (k_decimation d) (phases_pos d).0 (phases_pos d).1 c.pos c.pending
        a n)

module _ {S C : Type 0} (k : Kernels S C) (d : Direction) where
  abbrev hl : 0 < k_phases d
  hl = (phases_pos d).0

  abbrev hm : 0 < k_decimation d
  hm = (phases_pos d).1

  module _ (n : ℕ) (past : List (Frame S)) (c : Converter S C) (h : InStream k d n past c) where
    outputs-at :
        (a : ℕ)
        → a ≤ 2 ^ 56
        → outputs_for d c a
          ≡ outputs_from (k_phases d) (k_decimation d) (n % k_phases d) c.pending a
    outputs-at a small =
        rw (← h.cursor) (outputs_for-exact d c a (rw h.cursor (mod-lt n hl)) h.small small)

    -- Frames written from a part of the input are those of the whole.
    ideal-prefix :
        (xs ys : List (Frame S)) (i : ℕ)
        → length xs ≤ 2 ^ 56
        → n ≤ i
        → i < n + outputs_for d c (length xs)
        → ideal_frame k d c.table c.channels (past ++ xs) i
          ≡ ideal_frame k d c.table c.channels (past ++ (xs ++ ys)) i
    ideal-prefix xs ys i small lo hi = rw (
      ← append_assoc past xs ys,
      take-append_le (i * k_decimation d / k_phases d + 1) (past ++ xs) ys reached,
    )
      where
        reached : i * k_decimation d / k_phases d + 1 ≤ length (past ++ xs)
        reached =
            let there : n + (i - n) ≡ i = omega arith in
            omega (
              arith,
              length-append past xs,
              ap (λ t. t * k_decimation d / k_phases d) there,
              (outputs_absolute (k_phases d) (k_decimation d) hl hm n c.pending (length past)
                    (length xs) (i - n) h.owed).0
                  (omega (arith, outputs-at (length xs) small)),
            )

  module _ (n : ℕ) (past xs ys : List (Frame S)) (c : Converter S C) (h : InStream k d n past c)
      (small : length xs + length ys ≤ 2 ^ 56) where
    -- Frames of the first call, of the second call from `c₁`, and of the whole.
    chunk_counts :
        (c₁ : Converter S C)
        → InStream k d (n + outputs_for d c (length xs)) (past ++ xs) c₁
        → outputs_for d c (length (xs ++ ys))
          ≡ outputs_for d c (length xs) + outputs_for d c₁ (length ys)
    chunk_counts c₁ h₁ =
        let first = outputs-at n past c h (length xs) (omega arith) in
        rw
          (
            length-append xs ys,
            outputs-at n past c h (length xs + length ys) small,
            outputs-at _ _ c₁ h₁ (length ys) (omega arith),
            first,
          )
          (outputs_chunks (k_phases d) (k_decimation d) hl hm n (length past) c.pending c₁.pending
            (length xs) (length ys) h.owed
            (omega (arith, length-append past xs, rw first at h₁.owed)))

    abbrev ideal : List (Frame S) → ℕ → List S
    ideal = ideal_frame k d c.table c.channels

    -- The frames of the two calls are those of the whole.
    chunk_frames :
        (t₁ t₂ : ℕ)
        → outputs_for d c (length xs) ≡ t₁
        → map (ideal (past ++ (xs ++ ys))) (range_from n (t₁ + t₂))
          ≡ map (ideal (past ++ xs)) (range_from n t₁)
            ++ map (ideal ((past ++ xs) ++ ys)) (range_from (n + t₁) t₂)
    chunk_frames t₁ t₂ e =
        map-range_split (ideal (past ++ (xs ++ ys))) n t₁ t₂
        ∙ ap₂ ◌++◌
            (map-range_cong _ _ n t₁
              (λ i lo hi. sym (ideal-prefix n past c h xs ys i (omega arith) lo (omega arith))))
            (ap (λ t. map (ideal t) (range_from (n + t₁) t₂)) (sym (append_assoc past xs ys)))

    module _ (o₁ o₂ o : List (List S)) (c₁ c₂ whole : Converter S C)
        (p₁ : Processed k d n past xs c o₁ c₁)
        (p₂ : Processed k d (n + outputs_for d c (length xs)) (past ++ xs) ys c₁ o₂ c₂)
        (p : Processed k d n past (xs ++ ys) c o whole) where
      joined : o₁ ++ o₂ ≡ o
      joined =
          ap₂ ◌++◌ p₁.wrote (
            p₂.wrote
            ∙ ap₂
                (λ t ch.
                  map (ideal_frame k d t ch ((past ++ xs) ++ ys))
                    (range_from (n + outputs_for d c (length xs)) (outputs_for d c₁ (length ys))))
                p₁.table p₁.channels)
          ∙ sym (chunk_frames (outputs_for d c (length xs)) (outputs_for d c₁ (length ys)) refl)
          ∙ ap (λ t. map (ideal (past ++ (xs ++ ys))) (range_from n t))
              (sym (chunk_counts c₁ p₁.stream))
          ∙ sym p.wrote

      same_count :
          n + outputs_for d c (length (xs ++ ys))
          ≡ n + outputs_for d c (length xs) + outputs_for d c₁ (length ys)
      same_count = omega (arith, chunk_counts c₁ p₁.stream)

      same_pos : whole.pos ≡ c₂.pos
      same_pos = p.stream.cursor ∙ ap (λ t. t % k_phases d) same_count ∙ sym p₂.stream.cursor

      same_pending : whole.pending ≡ c₂.pending
      same_pending = omega (
        arith,
        p.stream.owed,
        p₂.stream.owed,
        ap (λ t. t * k_decimation d / k_phases d) same_count,
        ap length (append_assoc past xs ys),
      )

    -- Cutting the input of a call in two changes neither the frames written, in order, nor where the
    -- schedule stands after them, at whatever position the call finds the converter in its stream.
    pub process-chunks :
        (o₁ o₂ : List (List S)) × (c₁ c₂ whole : Converter S C) × (process k d c xs ≡ some (c₁, o₁))
        × (process k d c₁ ys ≡ some (c₂, o₂))
        × (process k d c (xs ++ ys) ≡ some (whole, o₁ ++ o₂))
        × (whole.pos ≡ c₂.pos)
        × (whole.pending ≡ c₂.pending)
    process-chunks =
        let (o₁, c₁, ran₁, p₁) = process-stream k d n past xs c h (omega arith) in
        let t₁ = outputs_for d c (length xs) in
        let (o₂, c₂, ran₂, p₂) =
          process-stream k d (n + t₁) (past ++ xs) ys c₁ p₁.stream (omega arith) in
        let (o, whole, ran, p) =
          process-stream k d n past (xs ++ ys) c h (omega (arith, length-append xs ys)) in
        (
          o₁,
          o₂,
          c₁,
          c₂,
          whole,
          ran₁,
          ran₂,
          rw (joined o₁ o₂ o c₁ c₂ whole p₁ p₂ p) ran,
          same_pos o₁ o₂ o c₁ c₂ whole p₁ p₂ p,
          same_pending o₁ o₂ o c₁ c₂ whole p₁ p₂ p,
        )
