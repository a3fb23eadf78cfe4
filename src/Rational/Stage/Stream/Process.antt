-- ===== src/Rational/Stage/Stream/Process.antt =====
-- What `process` does to a stage in its stream.
use sample_rate_tap.Common.{
  ℕ, suc, ◌+◌, ◌-◌, ◌*◌, ◌/◌, ◌%◌, ◌≤◌, ◌<◌, ◌≡◌, ◌↔◌, refl, sym, ap, ◌∙◌, arith, List, ◌++◌, some,
  length, length-append, range_from, map, Bool, false, ◌==◌, outputs_absolute, needed-le_iff,
}
use sample_rate_tap.Machine.Laws.{Exact, Exact-unique}
use sample_rate_tap.Machine.Process.{Processed, process_total_lem}
use sample_rate_tap.Machine.Each.{process_each_lem}
use sample_rate_tap.Machine.Counts.{Exact-append, Processed-append}
use sample_rate_tap.Rational.Stage.{Kernels, Frame, StageTable, StageState, pending_inputs, machine}
use sample_rate_tap.Rational.Stage.Calls.{outputs_for, frames_needed, process}
use sample_rate_tap.Rational.Stage.Schedule.{Fits}
use sample_rate_tap.Rational.Stage.Valid.{IsValid}
use sample_rate_tap.Rational.Stage.Branch.Cycle.{due_branch, waits_again, decimate_each, due_at}
use sample_rate_tap.Rational.Stage.Stream.{InStream, ideal_stage, stage_laws, by_machine}
use sample_rate_tap.Rational.Stage.Stream.Counts.{
  Counted, fewer-Counted, outputs_for-exact, frames_needed-exact,
}

module _ {S C A : Type 0} (k : Kernels S C A) (bits up down : ℕ) (fixed16 : Bool) (t : StageTable C)
    (fits : Fits up down) (valid : IsValid up down t) where
  module _ (n : ℕ) (past : List (Frame S)) (x : StageState S)
      (h : InStream k up down fixed16 t n past x) where
    -- In a stream of which `past` has been received and `n` frames written, and while `std::size_t`
    -- has room for the counts: output `n + i` is among those that `outputs_for` announces for `a` more
    -- inputs exactly if these complete the first floor((n + i) M / L) + 1 frames of the stream. Both
    -- machines.
    pub outputs_for-ready_iff :
        (a : ℕ)
        → Counted bits up down a
        → (i : ℕ) → (i < outputs_for bits up down x a) ↔ ((n + i) * down / up + 1 ≤ length past + a)
    outputs_for-ready_iff a c i =
        rw (outputs_for-exact k bits down fixed16 t fits.some_down n a past x up fits.some_up c h) (
          outputs_absolute up down fits.some_up fits.some_down n _ (length past) a i
            ((stage_laws k up down fixed16 t fits valid).owed n past _ x h))

    -- In a stream, and while `std::size_t` has room for the counts: `frames_needed` of `c` outputs is the
    -- least number of inputs for which `outputs_for` announces `c`. Both machines.
    pub frames_needed-outputs_for :
        (c a : ℕ)
        → Counted bits up down c
        → Counted bits up down a
        → (frames_needed bits up down x c ≤ a) ↔ (c ≤ outputs_for bits up down x a)
    frames_needed-outputs_for c a hc ha =
        rw
          (
            frames_needed-exact k bits down fixed16 t fits.some_down n c past x up fits.some_up hc
                h,
            outputs_for-exact k bits down fixed16 t fits.some_down n a past x up fits.some_up ha h,
          )
          (needed-le_iff up down fits.some_up fits.some_down _ _ a c)

-- What a call of `process` gives that is to write `total` frames.
abbrev pub Gives :
    {S C A : Type 0} (k : Kernels S C A) (bits : ℕ) (fixed16 : Bool) (t : StageTable C)
    → (up down : ℕ) → Fits up down
    → IsValid up down t
    → ℕ
    → ℕ
    → List (Frame S)
    → List (Frame S)
    → StageState S
    → Type 0
Gives {S} k bits fixed16 t up down fits valid total n past src x =
    (out : List (List S)) × (y : StageState S) × (process k bits up down fixed16 t src x
      ≡ some (out, y))
    × Processed (machine k up down fixed16 t) up down (stage_laws k up down fixed16 t fits valid)
        total n past src out y

module _ {S C A : Type 0} (k : Kernels S C A) (bits down : ℕ) (fixed16 : Bool) (t : StageTable C)
    (n : ℕ) (past src : List (Frame S)) (x : StageState S) where
  process_branch :
      (total : ℕ) (fits : Fits 1 down) (valid : IsValid 1 down t)
      → InStream k 1 down fixed16 t n past x
      → Exact 1 down n past (length src) total
      → Gives k bits fixed16 t 1 down fits valid total n past src x
  unfolding process pending_inputs
  process_branch total fits valid h exact =
      let laws = stage_laws k 1 down fixed16 t fits valid in
      let next : 1 + (down - x.dphase) % down ≡ suc ((down - x.dphase) % down) = omega arith in
      let p =
        process_each_lem (machine k 1 down fixed16 t) 1 down laws due_at
          (due_branch k down fixed16 t fits.some_down valid)
          (waits_again k down fixed16 t fits.some_down valid) src total n past
          ((down - x.dphase) % down) x (rw next at h) exact in
      (_, _, rw (decimate_each k down fixed16 t fits.some_down valid bits src x) refl, p)

  process_phase :
      (up total : ℕ) (fits : Fits up down) (valid : IsValid up down t)
      → (up == 1) ≡ false
      → total ≡ outputs_for bits up down x (length src)
      → InStream k up down fixed16 t n past x
      → Exact up down n past (length src) total
      → Gives k bits fixed16 t up down fits valid total n past src x
  unfolding process
  process_phase up total fits valid many e h exact =
      let (out, y, ran, p) =
        process_total_lem (machine k up down fixed16 t) up down
          (stage_laws k up down fixed16 t fits valid) total n past src x h exact in
      (out, y, rw (many, ← e) ran, p)

module _ {S C A : Type 0} (k : Kernels S C A) (bits up down : ℕ) (fixed16 : Bool) (t : StageTable C)
    (fits : Fits up down) (valid : IsValid up down t) where
  pub gives :
      (n : ℕ) (past src : List (Frame S)) (x : StageState S)
      → InStream k up down fixed16 t n past x
      → Counted bits up down (length src)
      → Gives k bits fixed16 t up down fits valid
          (outputs_for bits up down x (length src))
          n
          past
          src
          x
  gives n past src x h c =
      by_machine
        (λ u.
          (f : Fits u down) (v : IsValid u down t)
          → InStream k u down fixed16 t n past x
          → Counted bits u down (length src)
          → Gives k bits fixed16 t u down f v (outputs_for bits u down x (length src)) n past src x)
        up
        (λ f v h c.
          process_branch k bits down fixed16 t n past src x _ f v h
            (outputs_for-ready_iff k bits 1 down fixed16 t f v n past x h (length src) c))
        (λ many f v h c.
          process_phase k bits down fixed16 t n past src x up _ f v many refl h
            (outputs_for-ready_iff k bits up down fixed16 t f v n past x h (length src) c))
        fits valid h c

  -- In a stream, and while `std::size_t` has room for the counts: `process` returns, writes
  -- `outputs_for` frames, each of which is the filter's output `n`, `n + 1`, … of the whole stream (one
  -- row's dot product with the newest samples at an L-phase ratio, all branches summed at a decimator),
  -- and leaves the stage in the stream behind the input.
  pub process-ideal_stage :
      (n : ℕ) (past src : List (Frame S)) (x : StageState S)
      → InStream k up down fixed16 t n past x
      → Counted bits up down (length src)
      → (y : StageState S) × (process k bits up down fixed16 t src x
          ≡ some (
            map
                (ideal_stage k up down fixed16 t (past ++ src))
                (range_from n (outputs_for bits up down x (length src))),
            y,
          ))
        × InStream k up down fixed16 t (n + outputs_for bits up down x (length src)) (past ++ src) y
  process-ideal_stage n past src x h c =
      let (out, y, ran, p) = gives n past src x h c in (y, rw (← p.wrote) ran, p.stands)

  -- In a stream, and while `std::size_t` has room for the counts: `process` of two inputs in turn writes
  -- the frames that `process` of the two in one call writes, and leaves a stage that stands at the same
  -- place of the same stream.
  pub process-append :
      (n : ℕ) (past xs ys : List (Frame S)) (x : StageState S)
      → InStream k up down fixed16 t n past x
      → Counted bits up down (length (xs ++ ys))
      → (o₁ o₂ : List (List S)) × (y₁ y₂ y : StageState S) × (process k bits up down fixed16 t xs x
          ≡ some (o₁, y₁))
        × (process k bits up down fixed16 t ys y₁ ≡ some (o₂, y₂))
        × (process k bits up down fixed16 t (xs ++ ys) x ≡ some (o₁ ++ o₂, y))
        × InStream k up down fixed16 t
            (n + outputs_for bits up down x (length (xs ++ ys)))
            (past ++ (xs ++ ys))
            y₂
        × InStream k up down fixed16 t
            (n + outputs_for bits up down x (length (xs ++ ys)))
            (past ++ (xs ++ ys))
            y
  process-append n past xs ys x h c =
      let all = length-append xs ys in
      let less = λ (a : ℕ) (le : a ≤ length (xs ++ ys)).
        fewer-Counted bits up down a (length (xs ++ ys)) le c in
      let here = less (length xs) (omega arith) in
      let (o₁, y₁, ran₁, p₁) = gives n past xs x h here in
      let a = outputs_for bits up down x (length xs) in
      let later = less (length ys) (omega arith) in
      let (o₂, y₂, ran₂, p₂) = gives (n + a) (past ++ xs) ys y₁ p₁.stands later in
      let b = outputs_for bits up down y₁ (length ys) in
      let (o, y, ran, p) = gives n past (xs ++ ys) x h c in
      let first =
        outputs_for-ready_iff k bits up down fixed16 t fits valid n past x h (length xs) here in
      let second =
        outputs_for-ready_iff k bits up down fixed16 t fits valid (n + a) (past ++ xs) y₁ p₁.stands
          (length ys) later in
      let machine' = machine k up down fixed16 t in
      let laws = stage_laws k up down fixed16 t fits valid in
      let joined =
        Processed-append machine' up down laws n past xs ys a b first second o₁ o₂ y₁ y₂ p₁ p₂ in
      let same : a + b ≡ outputs_for bits up down x (length (xs ++ ys)) =
        Exact-unique up down n past (length (xs ++ ys)) (a + b) _
          (Exact-append machine' up down laws n past xs ys a b first second)
          (outputs_for-ready_iff k bits up down fixed16 t fits valid n past x h (length (xs ++ ys))
            c) in
      let out : o ≡ o₁ ++ o₂ =
        p.wrote
        ∙ ap (λ z. map (ideal_stage k up down fixed16 t (past ++ (xs ++ ys))) (range_from n z))
            (sym same)
        ∙ sym joined.wrote in
      (o₁, o₂, y₁, y₂, y, ran₁, ran₂, rw (← out) ran, rw same at joined.stands, p.stands)
