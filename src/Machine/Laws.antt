-- ===== src/Machine/Laws.antt =====
-- What a machine at ratio l / m must satisfy, and what its counts are.
use sample_rate_tap.Common.{
  ℕ, zero, suc, ◌+◌, ◌*◌, ◌/◌, ◌≤◌, ◌<◌, ◌≡◌, ◌↔◌, refl, ap, arith, List, [], ◌∷◌, ◌++◌, length,
  eq_of_reached, dec_lt,
}
use sample_rate_tap.Machine.{Machine}

-- `Stands n past w x`: the machine `x` has received `past`, has written `n` frames, and waits for `w`
-- inputs. `ideal past n` is output `n` of the stream `past`.
pub record Laws {X F O : Type 0} (k : Machine X F O) (l m : ℕ) : Type 1 where
  pub Stands : ℕ → List F → ℕ → X → Type 0
  pub ideal : List F → ℕ → O
  pub some_up : 0 < l
  pub some_down : 0 < m
  pub owed :
      (n : ℕ) (past : List F) (w : ℕ) (x : X) → Stands n past w x → w + length past ≡ n * m / l + 1
  pub need_eq : (n : ℕ) (past : List F) (w : ℕ) (x : X) → Stands n past (suc w) x → k.need x ≡ suc w
  pub absorb_on :
      (n : ℕ) (past : List F) (f : F) (w : ℕ) (x : X)
      → Stands n past (suc w) x
      → Stands n (past ++ f ∷ []) w (k.absorb f x)
  pub emit_on :
      (n : ℕ) (past : List F) (x : X)
      → Stands n past 0 x
      → Stands (suc n) past (k.need (k.emit x).1) (k.emit x).1
  pub emit_ideal : (n : ℕ) (past : List F) (x : X) → Stands n past 0 x → (k.emit x).0 ≡ ideal past n
  pub extends :
      (n : ℕ) (past more : List F)
      → n * m / l + 1 ≤ length past
      → ideal past n ≡ ideal (past ++ more) n

-- `total` outputs become ready with `a` more inputs.
abbrev pub Exact : {F : Type 0} → ℕ → ℕ → ℕ → List F → ℕ → ℕ → Type 0
Exact l m n past a total = (i : ℕ) → (i < total) ↔ ((n + i) * m / l + 1 ≤ length past + a)

module _ {F : Type 0} (l m n : ℕ) (past : List F) (a : ℕ) where
  pub Exact-unique : (s t : ℕ) → Exact l m n past a s → Exact l m n past a t → s ≡ t
  Exact-unique s t h g =
      eq_of_reached s t (λ i. (λ lt. (g i).1 ((h i).0 lt), λ lt. (h i).1 ((g i).0 lt)))

  -- The first of some outputs is ready when the inputs that it waits for have come.
  pub Exact-first : (t : ℕ) → Exact l m n past a (suc t) → n * m / l + 1 ≤ length past + a
  Exact-first t h =
      let here : n + 0 ≡ n = omega arith in
      omega (arith, ap (λ (x : ℕ). x * m / l) here, (h 0).0 (omega arith))

  pub Exact-none : Exact l m n past a 0 → length past + a < n * m / l + 1
  Exact-none h = elim (dec_lt (length past + a) (n * m / l + 1)) [
    | yes lt ↦ lt
    | no ge ↦
        let here : n + 0 ≡ n = omega arith in
        absurd (omega (arith, (h 0).1 (omega (arith, ap (λ (x : ℕ). x * m / l) here))))
  ]

  -- After one output the others are the next ones.
  pub Exact-suc :
      (past' : List F) (b t : ℕ)
      → length past' + b ≡ length past + a
      → Exact l m n past a (suc t)
      → Exact l m (suc n) past' b t
  Exact-suc past' b t e h i =
      let there : n + suc i ≡ suc n + i = omega arith in
      let same = ap (λ (x : ℕ). x * m / l) there in
      (
        λ lt. omega (arith, (h (suc i)).0 (omega arith)),
        λ le. omega (arith, (h (suc i)).1 (omega arith)),
      )

  -- A count that starts where an output is ready is not 0.
  pub Exact-ready :
      (t : ℕ) → Exact l m n past a t → n * m / l + 1 ≤ length past + a → (u : ℕ) × (t ≡ suc u)
  Exact-ready zero h ready = absurd (omega (arith, Exact-none h))
  Exact-ready (suc u) h ready = (u, refl)
