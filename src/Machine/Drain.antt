-- ===== src/Machine/Drain.antt =====
-- `flush` of a machine that is drained of its outputs while it is fed silence.
use mathlib.Core.List.{append_assoc, append-nil}
use mathlib.Core.Path.{subst}
use native.Mathlib.Nat.{add-zero}
use sample_rate_tap.Common.{
  ℕ, zero, suc, ◌+◌, ◌*◌, ◌/◌, ◌<◌, ◌≡◌, ◌⊎◌, refl, sym, ap, ap₂, ◌∙◌, arith, some, List, [], ◌∷◌,
  ◌++◌, map, length, length-append, length-replicate, replicate, range_from, inl, inr, ◌==◌, false,
}
use sample_rate_tap.Machine.{Machine, feed, drain}
use sample_rate_tap.Machine.Laws.{Laws, Exact, Exact-first, Exact-suc, Exact-ready}

module _ {X F O : Type 0} (k : Machine X F O) (l m : ℕ) (laws : Laws k l m) (silent : F) where
  open laws use {Stands, ideal}

  -- How the wait for silence ends.
  record Fed (left n : ℕ) (past : List F) (w : ℕ) (x : X) : Type 0 where
    fed : ℕ
    counted : fed + (feed k silent left w x).0 ≡ left
    stands :
        Stands n
          (past ++ replicate fed silent)
          (feed k silent left w x).1
          (feed k silent left w x).2
    outcome :
        ((feed k silent left w x).1 ≡ 0)
        ⊎ ((feed k silent left w x).0 ≡ 0) × (0 < (feed k silent left w x).1)

  feed_lem : (left n : ℕ) (past : List F) (w : ℕ) (x : X) → Stands n past w x → Fed left n past w x
  unfolding feed
  feed_lem zero n past zero x h = record {
    fed = 0;
    counted = refl;
    stands = rw (append-nil past) h;
    outcome = inl refl;
  }
  feed_lem zero n past (suc w) x h = record {
    fed = 0;
    counted = refl;
    stands = rw (append-nil past) h;
    outcome = inr (refl, omega arith);
  }
  feed_lem (suc left) n past zero x h = record {
    fed = 0;
    counted = omega arith;
    stands = rw (append-nil past) h;
    outcome = inl refl;
  }
  feed_lem (suc left) n past (suc w) x h =
      let r =
        feed_lem left n (past ++ silent ∷ []) w (k.absorb silent x)
          (laws.absorb_on n past silent w x h) in
      record {
        fed = suc r.fed;
        counted = omega (arith, r.counted);
        stands = rw (append_assoc past (silent ∷ []) (replicate r.fed silent)) at r.stands;
        outcome = r.outcome;
      }

  -- What a drain of `left` frames of silence leaves and writes.
  pub record Drained (fuel left n : ℕ) (past : List F) (x : X) (total : ℕ) : Type 0 where
    pub out : List O
    pub last : X
    pub ran : drain k silent fuel left x ≡ some (out, last)
    pub stands : Stands (n + total) (past ++ replicate left silent) (k.need last) last
    pub wrote : out ≡ map (ideal (past ++ replicate left silent)) (range_from n total)

  replicate-add : (a b : ℕ) → replicate a silent ++ replicate b silent ≡ replicate (a + b) silent
  replicate-add zero b = ap (λ t. replicate t silent) (omega arith)
  replicate-add (suc a) b =
      let e : suc a + b ≡ suc (a + b) = omega arith in
      rw e (ap (λ t. silent ∷ t) (replicate-add a b))

  none_out :
      (left n : ℕ) (past : List F) (x : X) (total : ℕ)
      → Exact l m n past left total
      → length past + left < n * m / l + 1
      → total ≡ 0
  none_out left n past x zero exact short = refl
  none_out left n past x (suc t) exact short =
      absurd (omega (arith, Exact-first l m n past left t exact))

  -- All the silence fed is less than the next output waits for.
  Drained-dry :
      (fuel left n : ℕ) (past : List F) (x : X) (total : ℕ) (r : Fed left n past (k.need x) x)
      → Exact l m n past left total
      → (feed k silent left (k.need x) x).0 ≡ 0
      → 0 < (feed k silent left (k.need x) x).1
      → Drained (suc fuel) left n past x total
  unfolding drain
  Drained-dry fuel left n past x total r exact all owed =
      let whole : r.fed ≡ left = omega (arith, r.counted) in
      let now = laws.owed n (past ++ replicate r.fed silent) _ _ r.stands in
      let none = none_out left n past x total exact (
        omega (
          arith,
          now,
          length-append past (replicate r.fed silent),
          length-replicate r.fed silent,
          r.counted,
        )) in
      let (v, some_owed) = positive _ owed in
      let need = laws.need_eq n (past ++ replicate r.fed silent) v _ (rw some_owed at r.stands) in
      record {
        out = [];
        last = (feed k silent left (k.need x) x).2;
        ran = rw (waits owed) refl;
        stands = rw (none, add-zero, need, ← some_owed) (rw whole at r.stands);
        wrote = rw none refl;
      }
    where
      waits : {y : ℕ} → 0 < y → (y == 0) ≡ false
      waits {y} h = ground arith

      positive : (y : ℕ) → 0 < y → (v : ℕ) × (y ≡ suc v)
      positive zero h = absurd (omega arith)
      positive (suc v) h = (v, refl)

  -- Silence up to an output, and the rest of the drain after it.
  Drained-ready :
      (fuel left n : ℕ) (past : List F) (x : X) (t : ℕ) (r : Fed left n past (k.need x) x)
      → (feed k silent left (k.need x) x).1 ≡ 0
      → Stands n (past ++ replicate r.fed silent) 0 (feed k silent left (k.need x) x).2
      → Drained fuel
          (feed k silent left (k.need x) x).0
          (suc n)
          (past ++ replicate r.fed silent)
          (k.emit (feed k silent left (k.need x) x).2).1
          t
      → Drained (suc fuel) left n past x (suc t)
  unfolding drain
  Drained-ready fuel left n past x t r none_owed on p =
      let y = (feed k silent left (k.need x) x).2 in
      let left' = (feed k silent left (k.need x) x).0 in
      let past' = past ++ replicate r.fed silent in
      let whole : past' ++ replicate left' silent ≡ past ++ replicate left silent =
        append_assoc past (replicate r.fed silent) (replicate left' silent)
        ∙ ap (λ z. past ++ z)
            (replicate-add r.fed left' ∙ ap (λ z. replicate z silent) r.counted) in
      let later : n + suc t ≡ suc n + t = omega arith in
      record {
        out = (k.emit y).0 ∷ p.out;
        last = p.last;
        ran = rw (none_owed, p.ran) refl;
        stands = rw later (rw whole at p.stands);
        wrote =
            ap₂ ◌∷◌
              (laws.emit_ideal n past' y on
                ∙ laws.extends n past' (replicate left' silent)
                    (omega (arith, laws.owed n past' 0 y on))
                ∙ ap (λ z. ideal z n) whole)
              (p.wrote ∙ ap (λ z. map (ideal z) (range_from (suc n) t)) whole);
      }

  pub drain_lem :
      (fuel left n : ℕ) (past : List F) (x : X) (total : ℕ)
      → Stands n past (k.need x) x
      → Exact l m n past left total
      → total < fuel
      → Drained fuel left n past x total
  drain_lem zero left n past x total h exact enough = absurd (omega arith)
  drain_lem (suc fuel) left n past x total h exact enough =
      let r = feed_lem left n past (k.need x) x h in
      elim r.outcome [
        | inr (all, owed) ↦ Drained-dry fuel left n past x total r exact all owed
        | inl none_owed ↦
            let y = (feed k silent left (k.need x) x).2 in
            let left' = (feed k silent left (k.need x) x).0 in
            let past' = past ++ replicate r.fed silent in
            let on = rw none_owed at r.stands in
            let now = laws.owed n past' 0 y on in
            let counts : length past' + left' ≡ length past + left = omega (
              arith,
              length-append past (replicate r.fed silent),
              length-replicate r.fed silent,
              r.counted,
            ) in
            let (t, one) = Exact-ready l m n past left total exact (omega arith) in
            let p =
              drain_lem fuel left' (suc n) past' (k.emit y).1 t (laws.emit_on n past' y on)
                (Exact-suc l m n past left past' left' t counts (rw one at exact)) (omega arith) in
            subst (λ z. Drained (suc fuel) left n past x z) (sym one)
              (Drained-ready fuel left n past x t r none_owed on p)
      ]
