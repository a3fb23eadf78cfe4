-- ===== src/Async/Converter/Fifo.antt =====
-- The converter's ring of samples as a queue of frames.
use mathlib.Core.Path.{subst}
use native.Mathlib.Nat.{div-lt_iff_lt-mul, mul-div_cancel, mul-le-mul_right}
use sample_rate_tap.Common.{
  ℕ, zero, suc, ◌+◌, ◌-◌, ◌*◌, ◌/◌, ◌^◌, ◌≤◌, ◌<◌, ◌≡◌, refl, sym, ap, ◌∙◌, arith, min, List, [],
  ◌∷◌, ◌++◌, length, length-take, length-drop, take, drop, get_or, mul_w-eq, dec_le, take-append_le,
  take-all, drop-append,
}
use sample_rate_tap.Async.Ring
use sample_rate_tap.Async.Ring.{SpscRing}
use sample_rate_tap.Async.Ring.Inv.{Represents}
use sample_rate_tap.Async.Ring.Read.{read-Represents, read_available-Represents, discard-Represents}
use sample_rate_tap.Async.Resampler.{Kernels, Frame}
use sample_rate_tap.Async.Servo.{Doubles}
use sample_rate_tap.Async.Config.{Casts}
use sample_rate_tap.Async.Converter.{frames_of, pop}

min-mul : (a b c : ℕ) → min (a * c) (b * c) ≡ min a b * c
min-mul a b c = elim (dec_le a b) [
  | yes le ↦
      let e : min a b ≡ a = omega arith in
      let le' : a * c ≤ b * c = mul-le-mul_right c le in rw e (omega arith)
  | no gt ↦
      let e : min a b ≡ b = omega arith in
      let ge' : b * c ≤ a * c = mul-le-mul_right c (omega arith) in rw e (omega arith)
]

module _ {S : Type 0} where
  take-take : (n m : ℕ) (xs : List S) → n ≤ m → take n (take m xs) ≡ take n xs
  take-take zero m xs le = refl
  take-take (suc n) zero xs le = absurd (omega arith)
  take-take (suc n) (suc m) [] le = refl
  take-take (suc n) (suc m) (x ∷ xs) le = ap (λ t. x ∷ t) (take-take n m xs (omega arith))

  drop-take_add : (n m : ℕ) (xs : List S) → drop n (take (n + m) xs) ≡ take m (drop n xs)
  drop-take_add zero m xs = let e : 0 + m ≡ m = omega arith in rw e refl
  drop-take_add (suc n) zero [] = let e : suc n + 0 ≡ suc n = omega arith in rw e refl
  drop-take_add (suc n) (suc m) [] =
      let e : suc n + suc m ≡ suc (n + suc m) = omega arith in rw e refl
  drop-take_add (suc n) m (x ∷ xs) =
      let e : suc n + m ≡ suc (n + m) = omega arith in rw e (drop-take_add n m xs)

  drop-drop : (n m : ℕ) (xs : List S) → drop (n + m) xs ≡ drop m (drop n xs)
  drop-drop zero m xs = let e : 0 + m ≡ m = omega arith in rw e refl
  drop-drop (suc n) zero [] = let e : suc n + 0 ≡ suc n = omega arith in rw e refl
  drop-drop (suc n) (suc m) [] = let e : suc n + suc m ≡ suc (n + suc m) = omega arith in rw e refl
  drop-drop (suc n) m (x ∷ xs) =
      let e : suc n + m ≡ suc (n + m) = omega arith in rw e (drop-drop n m xs)

  drop-all : (n : ℕ) (xs : List S) → length xs ≤ n → drop n xs ≡ []
  drop-all zero [] h = refl
  drop-all zero (x ∷ xs) h = absurd (omega arith)
  drop-all (suc n) [] h = refl
  drop-all (suc n) (x ∷ xs) h = drop-all n xs (omega arith)

  pub take-min : (n : ℕ) (xs : List S) → take (min n (length xs)) xs ≡ take n xs
  take-min n xs = elim (dec_le n (length xs)) [
    | yes le ↦ (let e : min n (length xs) ≡ n = omega arith in rw e refl)
    | no gt ↦
        let e : min n (length xs) ≡ length xs = omega arith in
        rw e (take-all (length xs) xs (omega arith) ∙ sym (take-all n xs (omega arith)))
  ]

  pub drop-min : (n : ℕ) (xs : List S) → drop (min n (length xs)) xs ≡ drop n xs
  drop-min n xs = elim (dec_le n (length xs)) [
    | yes le ↦ (let e : min n (length xs) ≡ n = omega arith in rw e refl)
    | no gt ↦
        let e : min n (length xs) ≡ length xs = omega arith in
        rw e (drop-all (length xs) xs (omega arith) ∙ sym (drop-all n xs (omega arith)))
  ]

  module _ (silence : S) (ch : ℕ) where
    pub length-frames_of : (n : ℕ) (xs : List S) → length (frames_of silence ch n xs) ≡ n
    unfolding frames_of
    length-frames_of zero xs = refl
    length-frames_of (suc n) xs = ap suc (length-frames_of n (drop ch xs))

    pub frames_of-take :
        (n m : ℕ) (xs : List S)
        → m ≤ n
        → frames_of silence ch m (take (m * ch) xs) ≡ take m (frames_of silence ch n xs)
    unfolding frames_of
    frames_of-take n zero xs le = refl
    frames_of-take zero (suc m) xs le = absurd (omega arith)
    frames_of-take (suc n) (suc m) xs le =
        let size : suc m * ch ≡ ch + m * ch = grind arith in
        rw (size, take-take ch (ch + m * ch) xs (omega arith), drop-take_add ch (m * ch) xs)
          (ap (λ t. (λ c. get_or (take ch xs) c silence) ∷ t)
            (frames_of-take n m (drop ch xs) (omega arith)))

    frames_of-drop :
        (n m : ℕ) (xs : List S)
        → m ≤ n
        → frames_of silence ch (n - m) (drop (m * ch) xs) ≡ drop m (frames_of silence ch n xs)
    unfolding frames_of
    frames_of-drop n zero xs le =
        let none : 0 * ch ≡ 0 = omega arith in
        let all : n - 0 ≡ n = omega arith in rw (none, all) refl
    frames_of-drop zero (suc m) xs le = absurd (omega arith)
    frames_of-drop (suc n) (suc m) xs le =
        let size : suc m * ch ≡ ch + m * ch = grind arith in
        let less : suc n - suc m ≡ n - m = omega arith in
        rw (size, less, drop-drop ch (m * ch) xs) (frames_of-drop n m (drop ch xs) (omega arith))

    pub frames_of-append :
        (n m : ℕ) (xs ys : List S)
        → length xs ≡ n * ch
        → frames_of silence ch (n + m) (xs ++ ys)
          ≡ frames_of silence ch n xs ++ frames_of silence ch m ys
    unfolding frames_of
    frames_of-append zero m [] ys e = let all : 0 + m ≡ m = omega arith in rw all refl
    frames_of-append zero m (x ∷ xs) ys e = absurd (omega arith)
    frames_of-append (suc n) m xs ys e =
        let size : suc n * ch ≡ ch + n * ch = grind arith in
        let more : suc n + m ≡ suc (n + m) = omega arith in
        rw (more, take-append_le ch xs ys (omega arith), drop-append ch xs ys (omega arith))
          (ap (λ t. (λ c. get_or (take ch xs) c silence) ∷ t)
            (frames_of-append n m (drop ch xs) ys (omega (arith, length-drop ch xs))))

no_frames : {S : Type 0} (silence : S) (ch : ℕ) → [] ≡ frames_of silence ch 0 []
unfolding frames_of
no_frames silence ch = refl

-- The ring holds the frames `q`, whole.
pub record Holding (bits log ch : ℕ) {S : Type 0} (silence : S) (r : SpscRing S)
    (q : List (Frame S)) : Type 0 where
  pub samples : List S
  pub frames : ℕ
  pub whole : length samples ≡ frames * ch
  pub contents : q ≡ frames_of silence ch frames samples
  pub ring : Represents bits log samples r

module _ {S : Type 0} (bits log ch : ℕ) (silence : S) (some : 0 < ch) where
  module _ {r : SpscRing S} {q : List (Frame S)} (h : Holding bits log ch silence r q) where
    pub length-Holding : length q ≡ h.frames
    length-Holding = ap length h.contents ∙ length-frames_of silence ch h.frames h.samples

    pub frames_below : length q * ch ≤ 2 ^ log
    frames_below =
        let within = h.ring.not_above in
        let old = h.ring.old_tail in
        let e : length q * ch ≡ h.frames * ch = ap (λ n. n * ch) length-Holding in
        omega (arith, h.ring.count, h.whole)

    pub length-cap : length q ≤ 2 ^ log / ch
    length-cap = elim (dec_le (length q) (2 ^ log / ch)) [
      | yes le ↦ le
      | no gt ↦
          let over : 2 ^ log < length q * ch = (div-lt_iff_lt-mul some).0 (omega arith) in
          absurd (omega (arith, frames_below))
    ]

    -- What is taken from the front of the samples is so many frames.
    front-Holding :
        (n : ℕ)
        → n ≤ length q
        → (frames_of silence ch (length (take (n * ch) h.samples) / ch) (take (n * ch) h.samples)
            ≡ take n q)
          × ((r' : SpscRing S)
              → Represents bits log (drop (n * ch) h.samples) r'
              → Holding bits log ch silence r' (drop n q))
    front-Holding n le =
        let low : n ≤ h.frames = omega (arith, length-Holding) in
        let part : n * ch ≤ h.frames * ch = grind arith in
        let taken : length (take (n * ch) h.samples) ≡ n * ch =
          omega (arith, length-take (n * ch) h.samples, h.whole) in
        (
          rw (taken, mul-div_cancel n some)
              (frames_of-take silence ch h.frames n h.samples low ∙ ap (take n) (sym h.contents)),
          λ r' on. record {
            samples = drop (n * ch) h.samples;
            frames = h.frames - n;
            whole =
                let back : h.frames ≡ h.frames - n + n = omega arith in
                let share : (h.frames - n + n) * ch ≡ (h.frames - n) * ch + n * ch = grind arith in
                omega (arith, length-drop (n * ch) h.samples, h.whole, ap (λ t. t * ch) back);
            contents =
                ap (drop n) h.contents ∙ sym (frames_of-drop silence ch h.frames n h.samples low);
            ring = on;
          },
        )

    pub read_available-Holding :
        ((Ring.read_available bits r).0 / ch ≡ length q)
        × Holding bits log ch silence (Ring.read_available bits r).1 q
    read_available-Holding =
        let (count, on) = read_available-Represents bits log h.samples r h.ring in
        (
          rw (count, h.whole, mul-div_cancel h.frames some) (sym length-Holding),
          record {
            samples = h.samples;
            frames = h.frames;
            whole = h.whole;
            contents = h.contents;
            ring = on;
          },
        )

    pub discard-Holding :
        (n : ℕ)
        → n ≤ length q
        → Holding bits log ch silence (Ring.discard bits (n * ch) r).1 (drop n q)
    discard-Holding n le =
        let (count, on) = discard-Represents bits log (n * ch) h.samples r h.ring in
        let part : n * ch ≤ h.frames * ch = mul-le-mul_right ch (omega (arith, length-Holding)) in
        let all : min (n * ch) (length h.samples) ≡ n * ch = omega (arith, h.whole) in
        (front-Holding n le).1 (Ring.discard bits (n * ch) r).1 (rw all at on)

    pub pop-Holding :
        {C A B D F : Type 0} (k : Kernels S C A B D) (d : Doubles D) (v : Casts D F) (want : ℕ)
        → k.silence ≡ silence
        → want * ch < 2 ^ bits
        → ((pop bits k d v ch want r).1 ≡ take want q)
          × Holding bits log ch silence (pop bits k d v ch want r).0 (drop want q)
    unfolding pop
    pop-Holding k d v want same small =
        let (elements, on) = read-Represents bits log (want * ch) h.samples r h.ring in
        let n = min want (length q) in
        let size : min (want * ch) (length h.samples) ≡ n * ch =
          ap (min (want * ch)) h.whole
          ∙ min-mul want h.frames ch
          ∙ ap (λ t. min want t * ch) (sym length-Holding) in
        let (front, rest) = front-Holding n (omega arith) in
        rw (mul_w-eq (2 ^ bits) want ch small, same, elements, size)
          (
            front ∙ take-min want q,
            subst (λ z. Holding bits log ch silence (Ring.read bits (want * ch) r).1 z)
                (drop-min want q) (rest (Ring.read bits (want * ch) r).1 (rw size at on)),
          )

    -- A discard of all that is seen leaves nothing.
    pub drain-Holding :
        Holding bits log ch silence
          (Ring.discard bits (Ring.read_available bits r).0 (Ring.read_available bits r).1).1
          []
    drain-Holding =
        let (count, on) = read_available-Represents bits log h.samples r h.ring in
        let r' = (Ring.read_available bits r).1 in
        let (m, over) = discard-Represents bits log (length h.samples) h.samples r' on in
        let all : min (length h.samples) (length h.samples) ≡ length h.samples = omega arith in
        rw count (record {
          samples = [];
          frames = 0;
          whole = omega arith;
          contents = no_frames silence ch;
          ring = rw (all, drop-all (length h.samples) h.samples (omega arith)) at over;
        })
