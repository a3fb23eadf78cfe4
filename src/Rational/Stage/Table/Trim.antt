-- ===== src/Rational/Stage/Table/Trim.antt =====
-- The span that `trim_row` finds in a row.
use sample_rate_tap.Common.{
  ℕ, zero, suc, ◌≤◌, ◌<◌, ◌≡◌, refl, arith, Bool, true, false, ◌&&◌, List, [], ◌∷◌, length, get_or,
  ltb, leb, Bool-cases, inl, inr, dec_lt, ltb→lt, lt→ltb, ◌-◌,
}
use sample_rate_tap.Rational.Stage.Table.{trim_first, trim_last}

both : (a b : Bool) → (a && b) ≡ true → (a ≡ true) × (b ≡ true)
both true b h = (refl, h)
both false b h = absurd (ground arith)

pub outside : (a b i : ℕ) → (leb a i && ltb i b) ≡ false → a ≤ i → b ≤ i
outside a b i e le = elim (dec_lt i b) [ yes lt ↦ absurd (ground arith) | no ge ↦ omega arith ]

last_of : (a b : Bool) → (a && b) ≡ false → a ≡ true → b ≡ false
last_of true b h e = h
last_of false b h e = absurd (ground arith)

module _ {C : Type 0} (is_nil : C → Bool) (nil : C) where
  pub trim_first-le : (row : List C) → trim_first is_nil row ≤ length row
  trim_first-le [] = omega arith
  trim_first-le (c ∷ cs) =
      let h = trim_first-le cs in
      elim (Bool-cases (is_nil c)) [ inl e ↦ rw e (omega arith) | inr e ↦ rw e (omega arith) ]

  -- Before the span there is nothing.
  pub nil_before :
      (row : List C) (i : ℕ) → i < trim_first is_nil row → is_nil (get_or row i nil) ≡ true
  nil_before [] i h = absurd (omega arith)
  nil_before (c ∷ cs) zero h = elim (Bool-cases (is_nil c)) [
    | inl e ↦ e
    | inr e ↦ absurd (let none = rw e at h in omega arith)
  ]
  nil_before (c ∷ cs) (suc i) h = elim (Bool-cases (is_nil c)) [
    | inl e ↦ let more = rw e at h in nil_before cs i (omega arith)
    | inr e ↦ absurd (let none = rw e at h in omega arith)
  ]

  -- The span starts with a coefficient.
  pub first_there :
      (row : List C)
      → trim_first is_nil row < length row
      → is_nil (get_or row (trim_first is_nil row) nil) ≡ false
  first_there [] h = absurd (omega arith)
  first_there (c ∷ cs) h = elim (Bool-cases (is_nil c)) [
    | inl e ↦ rw e (first_there cs (let more = rw e at h in omega arith))
    | inr e ↦ rw e e
  ]

  pub trim_last-le : (row : List C) (first last : ℕ) → trim_last is_nil nil row first last ≤ last
  trim_last-le row first zero = omega arith
  trim_last-le row first (suc last) =
      let h = trim_last-le row first last in
      elim (Bool-cases (ltb first (suc last) && is_nil (get_or row last nil))) [
        | inl e ↦ rw e (omega arith)
        | inr e ↦ rw e (omega arith)
      ]

  pub trim_last-ge :
      (row : List C) (first last : ℕ) → first ≤ last → first ≤ trim_last is_nil nil row first last
  trim_last-ge row first zero h = omega arith
  trim_last-ge row first (suc last) h =
      elim (Bool-cases (ltb first (suc last) && is_nil (get_or row last nil))) [
        | inl e ↦
            let (lt, _) = both _ _ e in
            rw e (trim_last-ge row first last (let le = ltb→lt first (suc last) lt in omega arith))
        | inr e ↦ rw e h
      ]

  -- Behind the span there is nothing.
  pub nil_behind :
      (row : List C) (first last i : ℕ)
      → trim_last is_nil nil row first last ≤ i
      → i < last
      → is_nil (get_or row i nil) ≡ true
  nil_behind row first zero i low high = absurd (omega arith)
  nil_behind row first (suc last) i low high =
      elim (Bool-cases (ltb first (suc last) && is_nil (get_or row last nil))) [
        | inl e ↦
            let (_, nothing) = both _ _ e in
            let rest = nil_behind row first last i (rw e at low) in
            elim (dec_lt i last) [
              | yes lt ↦ rest lt
              | no ge ↦ let at : i ≡ last = omega arith in rw at nothing
            ]
        | inr e ↦ absurd (let all = rw e at low in omega arith)
      ]

  -- It ends with one.
  pub last_there :
      (row : List C) (first last : ℕ)
      → first < trim_last is_nil nil row first last
      → is_nil (get_or row (trim_last is_nil nil row first last - 1) nil) ≡ false
  last_there row first zero h = absurd (omega arith)
  last_there row first (suc last) h =
      elim (Bool-cases (ltb first (suc last) && is_nil (get_or row last nil))) [
        | inl e ↦ rw e (last_there row first last (rw e at h))
        | inr e ↦
            let some : first < suc last = rw e at h in
            let at : suc last - 1 ≡ last = omega arith in
            rw (e, at) (last_of _ _ e (lt→ltb first (suc last) some))
      ]
