-- ===== src/Machine.antt =====
-- A converter that is fed frame by frame: what its loops need of it, and the loops. The stages of
-- rational/include/tap/sr/rational/stage.h run on two machines of this kind.
pub mod Laws
pub mod Process
pub mod Each
pub mod Source
pub mod Pull
pub mod Drain
pub mod Counts
use sample_rate_tap.Common.{
  ℕ, zero, suc, ◌-◌, Bool, Option, none, some, List, [], ◌∷◌, length, take, ltb, ◌==◌,
  if◌then◌else◌,
}

-- `X` is the state of the machine, `F` an input frame, `O` an output frame.
pub record Machine (X F O : Type 0) : Type 0 where
  pub absorb : F → X → X  -- append a frame and count it
  pub emit : X → O × X
  pub need : X → ℕ  -- inputs to absorb before the next output

infixl 5 ◌>>=◌
abbrev pub ◌>>=◌ {ℓ κ} : {A : Type ℓ} {B : Type κ} → Option A → (A → Option B) → Option B
none >>= f = none
some a >>= f = f a

abbrev pub k_pop_chunk : ℕ
k_pop_chunk = 16

-- Whether what `pop` gives ends the wait for input.
pub data Drawn (X Q : Type 0) : Type 0 where
  ready : X → Q → Drawn X Q
  dry : X → Q → Drawn X Q

-- `pop(dst, max_frames)` on the state of its source: the frames that it delivers.
abbrev pub Pop : Type 0 → Type 0 → Type 0
Pop F Q = ℕ → Q → Q × List F

module _ {X F O : Type 0} (k : Machine X F O) where
  open k use {absorb, emit, need}

  abbrev pub absorb_all : List F → X → X
  absorb_all [] x = x
  absorb_all (f ∷ fs) x = absorb_all fs (absorb f x)

  -- `while (m_pending != 0)`, the number being the inputs pending; `none` is a read past the input.
  unfoldable pub fill : ℕ → X → List F → Option (X × List F)
  fill zero x src = some (x, src)
  fill (suc w) x src = elim src [ [] ↦ none | f ∷ rest ↦ fill w (absorb f x) rest ]

  -- `for (; produced < total; ++produced)`, the number being the outputs to come.
  unfoldable pub produce : ℕ → X → List F → Option (List O × X × List F)
  produce zero x src = some ([], x, src)
  produce (suc n) x src = fill (need x) x src >>= λ (y, rest).
      let (o, z) = emit y in produce n z rest >>= λ (out, last, left). some (o ∷ out, last, left)

  -- `process` of a machine that settles the number of its outputs beforehand.
  unfoldable pub process_total : ℕ → X → List F → Option (List O × X)
  process_total total x src =
      produce total x src >>= λ (out, y, left). some (out, absorb_all left y)

  -- The `for` loop of `pull` over the frames popped. The caller passes at most `w` of them.
  unfoldable pub take_popped : List F → ℕ → X → ℕ × X
  take_popped [] w x = (w, x)
  take_popped (f ∷ fs) w x = take_popped fs (w - 1) (absorb f x)

  -- `while (need != 0)`; `none` is the end of the fuel.
  unfoldable pub draw : {Q : Type 0} → Pop F Q → ℕ → ℕ → X → Q → Option (Drawn X Q)
  draw pop zero w x q = if w == 0 then some (ready x q) else none
  draw pop (suc fuel) w x q =
      let want = if ltb w k_pop_chunk then w else k_pop_chunk in
      let (q', got) = pop want q in
      let (left, y) = take_popped (take want got) w x in
      let rest = draw pop fuel left y q' in
      if w == 0 then some (ready x q) else if length got == 0 then some (dry x q') else rest

  -- The frames written; the number returned is their count.
  unfoldable pub pull : {Q : Type 0} → Pop F Q → ℕ → X → Q → Option (List O × X × Q)
  pull pop zero x q = some ([], x, q)
  pull pop (suc n) x q = draw pop (need x) (need x) x q >>= λ r. elim r [
    | dry y q' ↦ some ([], y, q')
    | ready y q' ↦
        let (o, z) = emit y in pull pop n z q' >>= λ (out, last, q''). some (o ∷ out, last, q'')
  ]

  -- `while (m_pending != 0 && fed < zeros)`, the first number being `zeros - fed`.
  unfoldable pub feed : F → ℕ → ℕ → X → ℕ × ℕ × X
  feed silent zero w x = (0, w, x)
  feed silent (suc left) w x = elim w [
    | zero ↦ (suc left, 0, x)
    | suc v ↦ feed silent left v (absorb silent x)
  ]

  -- The `for (;;)` of `flush`; `none` is the end of the fuel.
  unfoldable pub drain : F → ℕ → ℕ → X → Option (List O × X)
  drain silent zero left x = none
  drain silent (suc fuel) left x =
      let (left', w, y) = feed silent left (need x) x in
      let (o, z) = emit y in
      let rest = drain silent fuel left' z in
      if w == 0 then (rest >>= λ (out, last). some (o ∷ out, last)) else some ([], y)

  -- A machine that emits as it absorbs: `due` says that the frame to come completes an output.
  unfoldable pub process_each : (X → Bool) → List F → X → List O × X
  process_each due [] x = ([], x)
  process_each due (f ∷ fs) x =
      let y = absorb f x in
      let (o, z) = emit y in
      let on = process_each due fs z in
      let off = process_each due fs y in if due x then (o ∷ on.0, on.1) else off
