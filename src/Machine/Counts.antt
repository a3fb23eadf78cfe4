-- ===== src/Machine/Counts.antt =====
-- `pull` and `process` in parts, against the whole stream.
use mathlib.Core.List.{append_assoc}
use sample_rate_tap.Common.{
  ℕ, zero, suc, ◌+◌, ◌-◌, ◌*◌, ◌/◌, ◌≤◌, ◌<◌, ◌≡◌, sym, ap, ap₂, ◌∙◌, arith, List, [], ◌++◌, map,
  length, length-append, range_from, map-range_cong, map-range_split, min, inl, inr, dec_lt,
}
use sample_rate_tap.Machine.{Machine}
use sample_rate_tap.Machine.Laws.{Laws, Exact}
use sample_rate_tap.Machine.Process.{Processed}
use sample_rate_tap.Machine.Pull.{Pulled}
use sample_rate_tap.Machine.Source.{Source}

module _ {X F O : Type 0} (k : Machine X F O) (l m : ℕ) (laws : Laws k l m) where
  open laws use {ideal}

  -- More input does not change outputs that are ready.
  map-ideal_extends :
      (n t : ℕ) (past more : List F)
      → ((i : ℕ) → i < t → (n + i) * m / l + 1 ≤ length past)
      → map (ideal past) (range_from n t) ≡ map (ideal (past ++ more)) (range_from n t)
  map-ideal_extends n t past more h = map-range_cong _ _ n t (λ j lo hi.
      let at : n + (j - n) ≡ j = omega arith in
      laws.extends j past more (omega (arith, ap (λ z. z * m / l) at, h (j - n) (omega arith))))

  module _ {Q : Type 0} (s : Source F Q) (count n : ℕ) (past : List F) (x : X) (q : Q) (total : ℕ)
      (exact : Exact l m n past (length (s.ahead q)) total)
      (p : Pulled k l m laws s count n past x q) where
    length-ahead : length (s.ahead q) ≡ length p.taken + length (s.ahead p.left)
    length-ahead = ap length p.split ∙ length-append p.taken (s.ahead p.left)

    -- No more is written than is ready.
    within : (t : ℕ) → length p.out ≡ t → t ≤ total
    within zero e = omega arith
    within (suc t) e =
        (exact t).1 (omega (arith, p.fed t (omega arith), length-append past p.taken, length-ahead))

    -- A call that comes short has written all that the source's frames release.
    spent : length p.out < count → s.ahead p.left ≡ [] → 0 < k.need p.next → total ≤ length p.out
    spent short over owed = elim (dec_lt (length p.out) total) [
      | yes lt ↦ absurd (
          omega (
            arith,
            (exact (length p.out)).0 lt,
            laws.owed (n + length p.out) (past ++ p.taken) (k.need p.next) p.next p.stands,
            length-append past p.taken,
            length-ahead,
            ap length over,
          ))
      | no ge ↦ omega arith
    ]

    pub length-pulled : length p.out ≡ min count total
    length-pulled = elim p.outcome [
      | inl all ↦ omega (arith, within (length p.out) (λ i. length p.out))
      | inr (short, owed, over) ↦
          omega (arith, within (length p.out) (λ i. length p.out), spent short over owed)
    ]

    -- What is written is the front of what the source's frames release.
    pub pulled_front : p.out ≡ map (ideal (past ++ s.ahead q)) (range_from n (min count total))
    pulled_front =
        p.wrote
        ∙ map-ideal_extends n (length p.out) (past ++ p.taken) (s.ahead p.left) p.fed
        ∙ ap₂ (λ z t. map (ideal z) (range_from n t))
            (append_assoc past p.taken (s.ahead p.left) ∙ ap (λ z. past ++ z) (sym p.split))
            length-pulled

  module _ (n : ℕ) (past xs ys : List F) (a b : ℕ) (first : Exact l m n past (length xs) a)
      (second : Exact l m (n + a) (past ++ xs) (length ys) b) where
    -- Input in two parts releases as many outputs as in one.
    pub Exact-append : Exact l m n past (length (xs ++ ys)) (a + b)
    Exact-append i = elim (dec_lt i a) [
      | yes early ↦ (λ lt. omega (arith, (first i).0 early, length-append xs ys), λ le. omega arith)
      | no late ↦
          let at : n + a + (i - a) ≡ n + i = omega arith in
          let same = ap (λ z. z * m / l) at in
          (
            λ lt. omega (
              arith,
              (second (i - a)).0 (omega arith),
              same,
              length-append xs ys,
              length-append past xs,
            ),
            λ le. omega (
              arith,
              (second (i - a)).1 (omega (arith, same, length-append xs ys, length-append past xs)),
            ),
          )
    ]

    pub Processed-append :
        (o₁ o₂ : List O) (x₁ x₂ : X)
        → Processed k l m laws a n past xs o₁ x₁
        → Processed k l m laws b (n + a) (past ++ xs) ys o₂ x₂
        → Processed k l m laws (a + b) n past (xs ++ ys) (o₁ ++ o₂) x₂
    Processed-append o₁ o₂ x₁ x₂ p₁ p₂ = record {
      wrote =
          ap₂ ◌++◌
            (p₁.wrote
              ∙ map-ideal_extends n a (past ++ xs) ys
                  (λ i lt. omega (arith, (first i).0 lt, length-append past xs)))
            p₂.wrote
          ∙ sym (map-range_split (ideal ((past ++ xs) ++ ys)) n a b)
          ∙ ap (λ z. map (ideal z) (range_from n (a + b))) (append_assoc past xs ys);
      stands =
          let at : n + (a + b) ≡ n + a + b = omega arith in
          rw (at, ← append_assoc past xs ys) p₂.stands;
    }
