-- ===== src/Machine/Pull.antt =====
-- `pull`: what it takes from its source, what it writes, and how it ends.
use mathlib.Core.List.{append_assoc, append-nil}
use native.Mathlib.Nat.{add-zero}
use sample_rate_tap.Common.{
  ℕ, zero, suc, ◌+◌, ◌-◌, ◌*◌, ◌/◌, ◌≤◌, ◌<◌, ◌≡◌, ◌⊎◌, refl, sym, ap, ap₂, ◌∙◌, arith, some, List,
  [], ◌∷◌, ◌++◌, map, length, length-append, range_from, take, take-all, Bool-cases, inl, inr, ltb,
  ◌==◌, if◌then◌else◌,
}
use sample_rate_tap.Machine.{Machine, ready, dry, draw, take_popped, pull, k_pop_chunk}
use sample_rate_tap.Machine.Laws.{Laws}
use sample_rate_tap.Machine.Source.{Source}

empty_of_length : {A : Type 0} (xs : List A) → length xs ≡ 0 → xs ≡ []
empty_of_length [] h = refl
empty_of_length (x ∷ xs) h = absurd (omega arith)

module _ {X F O Q : Type 0} (k : Machine X F O) (l m : ℕ) (laws : Laws k l m) (s : Source F Q) where
  open laws use {Stands, ideal}

  take_popped_lem :
      (fs : List F) (n : ℕ) (past : List F) (w : ℕ) (x : X)
      → Stands n past w x
      → length fs ≤ w
      → Stands n (past ++ fs) (take_popped k fs w x).0 (take_popped k fs w x).1
        × ((take_popped k fs w x).0 + length fs ≡ w)
  unfolding take_popped
  take_popped_lem [] n past w x h le = (rw (append-nil past) h, omega arith)
  take_popped_lem (f ∷ fs) n past zero x h le = absurd (omega arith)
  take_popped_lem (f ∷ fs) n past (suc w) x h le =
      let less : suc w - 1 ≡ w = omega arith in
      let (on, count) =
        take_popped_lem fs n (past ++ f ∷ []) w (k.absorb f x) (laws.absorb_on n past f w x h)
          (omega arith) in
      rw (less, take_popped) (rw (append_assoc past (f ∷ []) fs) at on, omega arith)

  abbrev want_of : ℕ → ℕ
  want_of w = if ltb w k_pop_chunk then w else k_pop_chunk

  -- How the wait for input ends.
  pub record Drew (n : ℕ) (past : List F) (w : ℕ) (x : X) (q : Q) (fuel : ℕ) : Type 0 where
    pub taken : List F
    pub next : X
    pub left : Q
    pub waits : ℕ
    pub split : s.ahead q ≡ taken ++ s.ahead left
    pub stands : Stands n (past ++ taken) waits next
    pub outcome :
        (draw k s.pop fuel w x q ≡ some (ready next left)) × (waits ≡ 0)
        ⊎ (draw k s.pop fuel w x q ≡ some (dry next left)) × (0 < waits) × (s.ahead left ≡ [])

  at_once :
      (n : ℕ) (past : List F) (w : ℕ) (x : X) (q : Q) (fuel : ℕ)
      → Stands n past w x
      → w ≡ 0
      → Drew n past w x q fuel
  unfolding draw
  at_once n past w x q fuel h e = record {
    taken = [];
    next = x;
    left = q;
    waits = w;
    split = refl;
    stands = rw (append-nil past) h;
    outcome = inl (stops fuel, e);
  }
    where
      stops : (f : ℕ) → draw k s.pop f w x q ≡ some (ready x q)
      stops zero = rw e refl
      stops (suc f) = rw e refl

  -- As many calls of `pop` as frames are owed are enough.
  pub draw_lem :
      (fuel n : ℕ) (past : List F) (w : ℕ) (x : X) (q : Q)
      → Stands n past w x
      → w ≤ fuel
      → Drew n past w x q fuel
  unfolding draw
  draw_lem zero n past w x q h enough = at_once n past w x q 0 h (omega arith)
  draw_lem (suc fuel) n past w x q h enough = elim (Bool-cases (w == 0)) [
    | inl e ↦ at_once n past w x q (suc fuel) h (ground arith)
    | inr owed ↦ elim (Bool-cases (length (s.pop (want_of w) q).1 == 0)) [
      | inl none_left ↦
          let over : s.ahead q ≡ [] = s.ended (want_of w) q (ground arith) (ground arith) in
          let got_none : (s.pop (want_of w) q).1 ≡ [] = empty_of_length _ (ground arith) in
          let split : s.ahead q ≡ s.ahead (s.pop (want_of w) q).0 =
            s.delivers (want_of w) q ∙ ap (λ t. t ++ s.ahead (s.pop (want_of w) q).0) got_none in
          record {
            taken = [];
            next = x;
            left = (s.pop (want_of w) q).0;
            waits = w;
            split = split;
            stands = rw (append-nil past) h;
            outcome = inr (rw (owed, none_left) refl, ground arith, sym split ∙ over);
          }
      | inr some_left ↦
          let got = (s.pop (want_of w) q).1 in
          let q' = (s.pop (want_of w) q).0 in
          let all : take (want_of w) got ≡ got = take-all (want_of w) got (s.fits (want_of w) q) in
          let room : length got ≤ w = let f = s.fits (want_of w) q in ground arith in
          let (stands, count) = take_popped_lem got n past w x h room in
          let v = (take_popped k got w x).0 in
          let y = (take_popped k got w x).1 in
          let r = draw_lem fuel n (past ++ got) v y q' stands (ground arith) in
          record {
            taken = got ++ r.taken;
            next = r.next;
            left = r.left;
            waits = r.waits;
            split =
                s.delivers (want_of w) q
                ∙ ap (λ t. got ++ t) r.split
                ∙ sym (append_assoc got r.taken (s.ahead r.left));
            stands = rw (append_assoc past got r.taken) at r.stands;
            outcome = rw (owed, some_left, all) r.outcome;
          }
    ]
  ]

  -- What a call for `count` frames leaves and writes.
  pub record Pulled (count n : ℕ) (past : List F) (x : X) (q : Q) : Type 0 where
    pub out : List O
    pub next : X
    pub left : Q
    pub taken : List F
    pub ran : pull k s.pop count x q ≡ some (out, next, left)
    pub split : s.ahead q ≡ taken ++ s.ahead left
    pub stands : Stands (n + length out) (past ++ taken) (k.need next) next
    pub wrote : out ≡ map (ideal (past ++ taken)) (range_from n (length out))
    pub fed : (i : ℕ) → i < length out → (n + i) * m / l + 1 ≤ length (past ++ taken)
    pub outcome :
        (length out ≡ count) ⊎ (length out < count) × (0 < k.need next) × (s.ahead left ≡ [])

  fed_cons :
      (n t a b : ℕ)
      → n * m / l + 1 ≤ a
      → a ≤ b
      → ((i : ℕ) → i < t → (suc n + i) * m / l + 1 ≤ b)
      → (i : ℕ) → i < suc t
      → (n + i) * m / l + 1 ≤ b
  fed_cons n t a b first le rest zero h = rw add-zero (omega arith)
  fed_cons n t a b first le rest (suc i) h =
      let at : n + suc i ≡ suc n + i = omega arith in rw at (rest i (omega arith))

  still_owed : (n : ℕ) (past : List F) (w : ℕ) (x : X) → Stands n past w x → 0 < w → k.need x ≡ w
  still_owed n past zero x h lt = absurd (omega arith)
  still_owed n past (suc w) x h lt = laws.need_eq n past w x h

  pub pull_lem :
      (count n : ℕ) (past : List F) (x : X) (q : Q)
      → Stands n past (k.need x) x
      → Pulled count n past x q
  unfolding pull
  pull_lem zero n past x q h = record {
    out = [];
    next = x;
    left = q;
    taken = [];
    ran = refl;
    split = refl;
    stands = rw (append-nil past, add-zero) h;
    wrote = refl;
    fed = λ i lt. absurd (omega arith);
    outcome = inl refl;
  }
  pull_lem (suc count) n past x q h =
      let r = draw_lem (k.need x) n past (k.need x) x q h (omega arith) in
      elim r.outcome [
        | inr (ran, owed, over) ↦
            let waits = still_owed n (past ++ r.taken) r.waits r.next r.stands owed in
            record {
              out = [];
              next = r.next;
              left = r.left;
              taken = r.taken;
              ran = rw ran refl;
              split = r.split;
              stands = rw (add-zero, waits) r.stands;
              wrote = refl;
              fed = λ i lt. absurd (omega arith);
              outcome = inr (omega arith, rw waits owed, over);
            }
        | inl (ran, none_owed) ↦
            let on = rw none_owed at r.stands in
            let now = laws.owed n (past ++ r.taken) 0 r.next on in
            let z = (k.emit r.next).1 in
            let p =
              pull_lem count (suc n) (past ++ r.taken) z r.left
                (laws.emit_on n (past ++ r.taken) r.next on) in
            let whole = append_assoc past r.taken p.taken in
            let later : n + suc (length p.out) ≡ suc n + length p.out = omega arith in
            let first : n * m / l + 1 ≤ length (past ++ r.taken) = omega arith in
            record {
              out = (k.emit r.next).0 ∷ p.out;
              next = p.next;
              left = p.left;
              taken = r.taken ++ p.taken;
              ran = rw (ran, p.ran) refl;
              split =
                  r.split
                  ∙ ap (λ t. r.taken ++ t) p.split
                  ∙ sym (append_assoc r.taken p.taken (s.ahead p.left));
              stands = rw (later, ← whole) p.stands;
              wrote =
                  ap₂ ◌∷◌
                    (laws.emit_ideal n (past ++ r.taken) r.next on
                      ∙ laws.extends n (past ++ r.taken) p.taken first
                      ∙ ap (λ t. ideal t n) whole)
                    (p.wrote ∙ ap (λ t. map (ideal t) (range_from (suc n) (length p.out))) whole);
              fed = rw (← whole) (
                  fed_cons n (length p.out) (length (past ++ r.taken)) _ first
                    (omega (arith, length-append (past ++ r.taken) p.taken)) p.fed);
              outcome = elim p.outcome [
                | inl all ↦ inl (ap suc all)
                | inr (fewer, owed, over) ↦ inr (omega arith, owed, over)
              ];
            }
      ]
