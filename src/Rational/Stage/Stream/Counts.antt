-- ===== src/Rational/Stage/Stream/Counts.antt =====
-- `outputs_for` and `frames_needed` in a stream, while `std::size_t` holds the numbers.
use native.Mathlib.Nat.{
  mod-lt, mod-eq_of_lt, mul-le-mul, mul-le-mul_left, mul-le-mul_right, div-le_self,
  div-le_of_le-mul, mul_comm, mod-one, pow-le-pow_right,
}
use sample_rate_tap.Common.{
  ℕ, zero, suc, ◌+◌, ◌-◌, ◌*◌, ◌/◌, ◌%◌, ◌^◌, ◌≤◌, ◌<◌, ◌≡◌, refl, ◌∙◌, arith, List, Bool, false,
  ◌==◌, lt→ltb, ge→ltb, dec_lt, outputs_from, needed_from, sub_w, add_w, mul_w, sub_w-eq, add_w-eq,
  mul_w-eq, floor-le_iff, floor_mono,
}
use sample_rate_tap.Rational.Stage.{Kernels, Frame, StageTable, StageState, pending_inputs}
use sample_rate_tap.Rational.Stage.Calls.{outputs_for, frames_needed, schedule_frames_needed}
use sample_rate_tap.Rational.Stage.Stream.{InStage, by_machine}

-- A `std::size_t` of `bits` bits has room for the counts of `a` frames at ratio up / down.
pub record Counted (bits up down a : ℕ) : Type 0 where
  pub wide : bits ≤ 64
  pub room : (up + down) * (up + down + a + 2) < 2 ^ bits

pub fewer-Counted : (bits up down a b : ℕ) → a ≤ b → Counted bits up down b → Counted bits up down a
fewer-Counted bits up down a b le c = record {
  wide = c.wide;
  room = omega (
    arith,
    c.room,
    mul-le-mul_left {m = up + down + a + 2} {n = up + down + b + 2} (up + down) (omega arith),
  );
}

-- A floor of the schedule below `up` is at most `down`.
floor-small : (up down pos : ℕ) → 0 < up → pos ≤ up → pos * down / up ≤ down
floor-small up down pos some_up le = div-le_of_le-mul up (mul-le-mul_right down le)

-- None of the sums and products of the L-phase count wraps.
words_of_count :
    (w up down pos pending a : ℕ)
    → 0 < up
    → 0 < down
    → pos < up
    → pending ≤ a
    → (up + down) * (up + down + a + 2) < w
    → add_w w
        (sub_w w
          (sub_w w (mul_w w up (add_w w (add_w w (mul_w w pos down / up) (sub_w w a pending)) 1)) 1
            / down)
          pos)
        1
      ≡ (up * (pos * down / up + (a - pending) + 1) - 1) / down - pos + 1
words_of_count w up down pos pending a some_up some_down lt le room =
    let base = pos * down / up in
    let low = floor-small up down pos some_up (omega arith) in
    let reach = base + (a - pending) + 1 in
    let q = (up * reach - 1) / down in
    let whole : (up + down) * (up + down + a + 2) < w = room in
    let first : pos * down < w = omega (
      arith,
      mul-le-mul {n₁ = pos} {m₁ = down} {n₂ = up + down} {m₂ = up + down + a + 2} (omega arith)
          (omega arith),
    ) in
    let last : up * reach < w = omega (
      arith,
      mul-le-mul {n₁ = up} {m₁ = reach} {n₂ = up + down} {m₂ = up + down + a + 2} (omega arith)
          (omega arith),
    ) in
    let some : 0 < up * reach = mul-pos_of up (base + (a - pending)) some_up in
    let all : a + up + down < w = omega (
      arith,
      mul-le-mul {n₁ = 1} {m₁ = up + down + a + 2} {n₂ = up + down} {m₂ = up + down + a + 2}
          (omega arith) (omega arith),
    ) in
    let below : pos ≤ q =
      (floor-le_iff up down some_up some_down pos (base + (a - pending))).0 (omega arith) in
    let under : q ≤ up * reach - 1 = div-le_self (up * reach - 1) down in
    rw
      (
        mul_w-eq w pos down first,
        sub_w-eq w a pending le (omega arith),
        add_w-eq w base (a - pending) (omega arith),
        add_w-eq w (base + (a - pending)) 1 (omega arith),
        mul_w-eq w up reach last,
        sub_w-eq w (up * reach) 1 (omega arith) last,
        sub_w-eq w q pos below (omega arith),
        add_w-eq w (q - pos) 1 (omega arith),
      )
      refl
  where
    mul-pos_of : (x y : ℕ) → 0 < x → 0 < x * (y + 1)
    mul-pos_of x y h = grind arith

-- Nor do the counts themselves.
room_for :
    (w up down a : ℕ) → 0 < up → (up + down) * (up + down + a + 2) < w → a + up + down + 1 < w
room_for w up down a some_up room = omega (
  arith,
  mul-le-mul {n₁ = 1} {m₁ = up + down + a + 2} {n₂ = up + down} {m₂ = up + down + a + 2}
      (omega arith) (omega arith),
)

outputs_for-phase :
    {S : Type 0} (bits up down a : ℕ) (x : StageState S)
    → 0 < up
    → 0 < down
    → (up == 1) ≡ false
    → x.pos < up
    → x.pending ≤ down
    → Counted bits up down a
    → outputs_for bits up down x a ≡ outputs_from up down x.pos x.pending a
unfolding outputs_for
outputs_for-phase bits up down a x some_up some_down many pos pending c =
    elim (dec_lt a x.pending) [
      | yes lt ↦ rw (many, lt→ltb a x.pending lt) refl
      | no ge ↦
          rw (many, ge→ltb a x.pending (omega arith))
            (words_of_count (2 ^ bits) up down x.pos x.pending a some_up some_down pos (omega arith)
              c.room)
    ]

outputs_for-branch :
    {S : Type 0} (bits down a : ℕ) (x : StageState S)
    → 0 < down
    → Counted bits 1 down a
    → outputs_for bits 1 down x a ≡ outputs_from 1 down 0 (1 + (down - x.dphase) % down) a
unfolding outputs_for
outputs_for-branch bits down a x some_down c = elim (dec_lt a (1 + (down - x.dphase) % down)) [
  | yes lt ↦ rw (lt→ltb a (1 + (down - x.dphase) % down) lt) refl
  | no ge ↦ rw (ge→ltb a (1 + (down - x.dphase) % down) (omega arith)) (
      let first = 1 + (down - x.dphase) % down in
      let small = room_for (2 ^ bits) 1 down a (omega arith) c.room in
      let under : (a - first) / down ≤ a - first = div-le_self (a - first) down in
      let same : 1 * (0 * down / 1 + (a - first) + 1) - 1 ≡ a - first = omega arith in
      rw
        (
          sub_w-eq (2 ^ bits) a first (omega arith) (omega arith),
          add_w-eq (2 ^ bits) 1 ((a - first) / down) (omega arith),
          same,
        )
        (omega arith))
]

-- What an output count needs fits too.
words_of_need :
    (w v up down pos pending c : ℕ)
    → 0 < up
    → 0 < down
    → pos < up
    → pending ≤ down
    → (up + down) * (up + down + suc c + 2) < w
    → w ≤ v
    → add_w w pending (
        sub_w v
          (mul_w v (add_w v (pos % up) (sub_w w (suc c) 1)) down / up)
          (mul_w v (pos % up) down / up)
        % w)
      ≡ pending + ((pos + c) * down / up - pos * down / up)
words_of_need w v up down pos pending c some_up some_down lt le room wider =
    let small = room_for w up down (suc c) some_up room in
    let prev : sub_w w (suc c) 1 ≡ c =
      sub_w-eq w (suc c) 1 (omega arith) (omega arith) ∙ omega arith in
    let split : (pos + c + 1) * down ≡ (pos + c) * down + down = grind arith in
    let most : (pos + c + 1) * down < w = omega (
      arith,
      mul-le-mul {n₁ = pos + c + 1} {m₁ = down} {n₂ = up + down + suc c + 2} {m₂ = up + down}
          (omega arith) (omega arith),
      mul_comm (up + down) (up + down + suc c + 2),
    ) in
    let part : pos * down ≤ (pos + c) * down = mul-le-mul_right down (omega arith) in
    let high : (pos + c) * down / up ≤ (pos + c) * down = div-le_self ((pos + c) * down) up in
    let mono : pos * down / up ≤ (pos + c) * down / up =
      floor_mono up down some_up some_down pos (pos + c) (omega arith) in
    let at : pos % up ≡ pos = mod-eq_of_lt lt in
    let fits_w : ((pos + c) * down / up - pos * down / up) % w
        ≡ (pos + c) * down / up - pos * down / up =
      mod-eq_of_lt (omega arith) in
    rw
      (
        at,
        prev,
        add_w-eq v pos c (omega arith),
        mul_w-eq v (pos + c) down (omega arith),
        mul_w-eq v pos down (omega arith),
        sub_w-eq v ((pos + c) * down / up) (pos * down / up) mono (omega arith),
        fits_w,
        add_w-eq w pending ((pos + c) * down / up - pos * down / up) (omega arith),
      )
      refl

needed-phase :
    {S : Type 0} (bits up down c : ℕ) (x : StageState S)
    → 0 < up
    → 0 < down
    → (up == 1) ≡ false
    → x.pos < up
    → x.pending ≤ down
    → Counted bits up down c
    → frames_needed bits up down x c ≡ needed_from up down x.pos x.pending c
unfolding frames_needed schedule_frames_needed
needed-phase bits up down zero x some_up some_down many pos pending r = refl
needed-phase bits up down (suc c) x some_up some_down many pos pending r = rw many (
    let here : (suc c == 0) ≡ false = ground arith in
    rw here (
      words_of_need (2 ^ bits) (2 ^ 64) up down x.pos x.pending c some_up some_down pos pending
        r.room (pow-le-pow_right (omega arith) r.wide)))

needed-branch :
    {S : Type 0} (bits down c : ℕ) (x : StageState S)
    → 0 < down
    → Counted bits 1 down c
    → frames_needed bits 1 down x c ≡ needed_from 1 down 0 (1 + (down - x.dphase) % down) c
unfolding frames_needed
needed-branch bits down zero x some_down r = refl
needed-branch bits down (suc c) x some_down r =
    (let first = 1 + (down - x.dphase) % down in
      let small = room_for (2 ^ bits) 1 down (suc c) (omega arith) r.room in
      let prev : sub_w (2 ^ bits) (suc c) 1 ≡ c =
        sub_w-eq (2 ^ bits) (suc c) 1 (omega arith) (omega arith) ∙ omega arith in
      let split : (c + 1) * down ≡ c * down + down = grind arith in
      let most : (c + 1) * down < 2 ^ bits = omega (
        arith,
        r.room,
        mul-le-mul {n₁ = c + 1} {m₁ = down} {n₂ = 1 + down + suc c + 2} {m₂ = 1 + down}
            (omega arith) (omega arith),
        mul_comm (1 + down) (1 + down + suc c + 2),
      ) in
      let here : (suc c == 0) ≡ false = ground arith in
      let zero_here : 0 + c ≡ c = omega arith in
      rw
        (
          here,
          prev,
          mul_w-eq (2 ^ bits) c down (omega arith),
          add_w-eq (2 ^ bits) first (c * down) (omega (arith, mod-lt (down - x.dphase) some_down)),
          zero_here,
        )
        (omega arith))

module _ {S C A : Type 0} (k : Kernels S C A) (bits down : ℕ) (fixed16 : Bool) (t : StageTable C)
    (some_down : 0 < down) (n a : ℕ) (past : List (Frame S)) (x : StageState S) where
  abbrev waits : ℕ → ℕ
  waits up = pending_inputs k up down fixed16 t x

  abbrev Here : ℕ → Type 0
  Here up = InStage k up down fixed16 t n past (waits up) x

  -- What a stream settles at each of the two machines.
  at_branch : waits 1 ≡ 1 + (down - x.dphase) % down
  unfolding pending_inputs
  at_branch = refl

  at_phase : (up : ℕ) → (up == 1) ≡ false → waits up ≡ x.pending
  unfolding pending_inputs
  at_phase up many = rw many refl

  in_phase : (up : ℕ) → (up == 1) ≡ false → Here up → (x.pos ≡ n % up) × (x.pending ≤ down)
  in_phase up many h = let p = rw many at h in (p.cursor, omega (arith, at_phase up many, p.small))

  pub outputs_for-exact :
      (up : ℕ)
      → 0 < up
      → Counted bits up down a
      → Here up
      → outputs_for bits up down x a ≡ outputs_from up down (n % up) (waits up) a
  outputs_for-exact up =
      by_machine
        (λ u.
          0 < u
          → Counted bits u down a
          → Here u
          → outputs_for bits u down x a ≡ outputs_from u down (n % u) (waits u) a)
        up (λ some c h. rw (at_branch, mod-one) (outputs_for-branch bits down a x some_down c))
        (λ many some c h.
          let (cursor, small) = in_phase up many h in
          rw (at_phase up many, ← cursor)
            (outputs_for-phase bits up down a x some some_down many (rw cursor (mod-lt n some))
              small c))

  pub frames_needed-exact :
      (up : ℕ)
      → 0 < up
      → Counted bits up down a
      → Here up
      → frames_needed bits up down x a ≡ needed_from up down (n % up) (waits up) a
  frames_needed-exact up =
      by_machine
        (λ u.
          0 < u
          → Counted bits u down a
          → Here u
          → frames_needed bits u down x a ≡ needed_from u down (n % u) (waits u) a)
        up (λ some c h. rw (at_branch, mod-one) (needed-branch bits down a x some_down c))
        (λ many some c h.
          let (cursor, small) = in_phase up many h in
          rw (at_phase up many, ← cursor)
            (needed-phase bits up down a x some some_down many (rw cursor (mod-lt n some)) small c))
