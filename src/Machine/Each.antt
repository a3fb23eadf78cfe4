-- ===== src/Machine/Each.antt =====
-- A machine that emits as it absorbs.
use mathlib.Core.List.{append_assoc, append-nil}
use native.Mathlib.Nat.{add-zero}
use sample_rate_tap.Common.{
  ℕ, zero, suc, ◌+◌, ◌≡◌, refl, ap, ap₂, ◌∙◌, arith, Bool, true, false, Bool-cases, inl, inr, ◌==◌,
  ==_iff, List, [], ◌∷◌, ◌++◌, map, length, length-append, range_from,
}
use sample_rate_tap.Machine.{Machine, process_each}
use sample_rate_tap.Machine.Laws.{Laws, Exact, Exact-first, Exact-suc, Exact-ready}
use sample_rate_tap.Machine.Process.{Processed}

module _ {X F O : Type 0} (k : Machine X F O) (l m : ℕ) (laws : Laws k l m) (due : X → Bool)
    (due_eq : (n : ℕ) (past : List F) (w : ℕ) (x : X)
      → laws.Stands n past (suc w) x
      → due x ≡ (w == 0))
    (waits : (n : ℕ) (past : List F) (x : X)
      → laws.Stands n past 0 x
      → (w : ℕ) × (k.need (k.emit x).1 ≡ suc w)) where
  open laws use {Stands, ideal}

  -- The inputs owed are at least one between calls, and the counts are settled by the stream.
  pub process_each_lem :
      (src : List F) (total n : ℕ) (past : List F) (w : ℕ) (x : X)
      → Stands n past (suc w) x
      → Exact l m n past (length src) total
      → Processed k l m laws total n past src
          (process_each k due src x).0
          (process_each k due src x).1
  unfolding process_each
  process_each_lem [] zero n past w x h exact = record {
    wrote = refl;
    stands = rw (append-nil past, add-zero, laws.need_eq n past w x h) h;
  }
  process_each_lem [] (suc t) n past w x h exact =
      absurd (omega (arith, Exact-first l m n past 0 t exact, laws.owed n past (suc w) x h))
  process_each_lem (f ∷ src) total n past w x h exact = elim (Bool-cases (w == 0)) [
    | inl last ↦
        let at : due x ≡ true = due_eq n past w x h ∙ last in
        let done : w ≡ 0 = (==_iff w 0).0 last in
        let y = k.absorb f x in
        let ready = rw done at (laws.absorb_on n past f w x h) in
        let (v, again) = waits n (past ++ f ∷ []) y ready in
        let whole = append_assoc past (f ∷ []) src in
        let (t, one) =
          Exact-ready l m n past (length (f ∷ src)) total exact
            (omega (arith, laws.owed n past (suc w) x h)) in
        let p =
          process_each_lem src t (suc n) (past ++ f ∷ []) v (k.emit y).1
            (rw again at (laws.emit_on n (past ++ f ∷ []) y ready))
            (Exact-suc l m n past (length (f ∷ src)) (past ++ f ∷ []) (length src) t
              (omega (arith, length-append past (f ∷ []))) (rw one at exact)) in
        let later : n + suc t ≡ suc n + t = omega arith in
        rw (at, one)
          (record {
            wrote =
                ap₂ ◌∷◌
                  (laws.emit_ideal n (past ++ f ∷ []) y ready
                    ∙ laws.extends n (past ++ f ∷ []) src
                        (omega (arith, laws.owed n (past ++ f ∷ []) 0 y ready))
                    ∙ ap (λ t. ideal t n) whole)
                  (p.wrote ∙ ap (λ xs. map (ideal xs) (range_from (suc n) t)) whole);
            stands = rw (later, ← whole) p.stands;
          })
    | inr more ↦
        let at : due x ≡ false = due_eq n past w x h ∙ more in
        let (v, left) = predecessor w more in
        let whole = append_assoc past (f ∷ []) src in
        let y = k.absorb f x in
        let p =
          process_each_lem src total n (past ++ f ∷ []) v y
            (rw left at (laws.absorb_on n past f w x h)) (Exact-moved total n past f src exact) in
        rw at (record {
          wrote = p.wrote ∙ ap (λ xs. map (ideal xs) (range_from n total)) whole;
          stands = rw (← whole) p.stands;
        })
  ]
    where
      predecessor : (w : ℕ) → (w == 0) ≡ false → (v : ℕ) × (w ≡ suc v)
      predecessor zero h = absurd (ground arith)
      predecessor (suc v) h = (v, refl)

      Exact-moved :
          (total n : ℕ) (past : List F) (f : F) (src : List F)
          → Exact l m n past (length (f ∷ src)) total
          → Exact l m n (past ++ f ∷ []) (length src) total
      Exact-moved total n past f src e i = (
        λ lt. omega (arith, (e i).0 lt, length-append past (f ∷ [])),
        λ le. (e i).1 (omega (arith, length-append past (f ∷ []))),
      )
