-- ===== src/Bridge/Converter/Pull/Source.antt =====
-- `pull` from a source that holds a stream: the frames it writes are those that `process` writes.
use mathlib.Core.List.{append_assoc, append-nil}
use sample_rate_tap.Common.{
  ℕ, zero, suc, ◌≤◌, ◌<◌, ◌≡◌, ◌⊎◌, refl, sym, ap, ◌∙◌, some, List, [], ◌∷◌, ◌++◌, arith, length,
  take, take-all, Bool-cases, inl, inr, ltb, ◌==◌, if◌then◌else◌,
}
use sample_rate_tap.Bridge.Schedule.{Direction}
use sample_rate_tap.Bridge.Converter.{Kernels, Frame, Converter, k_pop_chunk}
use sample_rate_tap.Bridge.Converter.Stream.{InStream}
use sample_rate_tap.Bridge.Converter.Pull.{Pop, ready, dry, draw, take_frames}
use sample_rate_tap.Bridge.Converter.Pull.Frames.{Kept, Kept-refl, Kept-trans, take_frames_lem}

-- A source that a caller may give to `pull`: it holds a stream, delivers from its front at most as
-- many frames as it is asked for, and nothing only at the end of the stream.
pub record Source (S Q : Type 0) : Type 0 where
  pub pop : Pop S Q
  pub ahead : Q → List (Frame S)
  pub delivers : (want : ℕ) (q : Q) → ahead q ≡ (pop want q).1 ++ ahead (pop want q).0
  pub fits : (want : ℕ) (q : Q) → length (pop want q).1 ≤ want
  pub ended : (want : ℕ) (q : Q) → 0 < want → length (pop want q).1 ≡ 0 → ahead q ≡ []

empty_of_length : {A : Type 0} (xs : List A) → length xs ≡ 0 → xs ≡ []
empty_of_length [] h = refl
empty_of_length (x ∷ xs) h = absurd (omega arith)

module _ {S C Q : Type 0} (k : Kernels S C) (d : Direction) (s : Source S Q) where
  abbrev want_of : Converter S C → ℕ
  want_of c = if ltb c.pending k_pop_chunk then c.pending else k_pop_chunk

  -- How the wait for input ends.
  pub record Drew (n : ℕ) (past : List (Frame S)) (c : Converter S C) (q : Q) (fuel : ℕ)
      : Type 0 where
    pub taken : List (Frame S)
    pub next : Converter S C
    pub left : Q
    pub split : s.ahead q ≡ taken ++ s.ahead left
    pub stands : InStream k d n (past ++ taken) next
    pub kept : Kept c next
    pub outcome :
        (draw s.pop fuel c q ≡ some (ready next left)) × (next.pending ≡ 0)
        ⊎ (draw s.pop fuel c q ≡ some (dry next left)) × (0 < next.pending) × (s.ahead left ≡ [])

  at_once :
      (n : ℕ) (past : List (Frame S)) (c : Converter S C) (q : Q) (fuel : ℕ)
      → InStream k d n past c
      → c.pending ≡ 0
      → Drew n past c q fuel
  unfolding draw
  at_once n past c q fuel h e = record {
    taken = [];
    next = c;
    left = q;
    split = refl;
    stands = rw (append-nil past) h;
    kept = Kept-refl c;
    outcome = inl (stops fuel, e);
  }
    where
      stops : (f : ℕ) → draw s.pop f c q ≡ some (ready c q)
      stops zero = rw e refl
      stops (suc f) = rw e refl

  -- As many calls of `pop` as frames are owed are enough.
  pub draw_lem :
      (fuel n : ℕ) (past : List (Frame S)) (c : Converter S C) (q : Q)
      → InStream k d n past c
      → c.pending ≤ fuel
      → Drew n past c q fuel
  unfolding draw
  draw_lem zero n past c q h enough = at_once n past c q 0 h (omega arith)
  draw_lem (suc fuel) n past c q h enough = elim (Bool-cases (c.pending == 0)) [
    | inl e ↦ at_once n past c q (suc fuel) h (ground arith)
    | inr owed ↦ elim (Bool-cases (length (s.pop (want_of c) q).1 == 0)) [
      | inl none_left ↦
          let over : s.ahead q ≡ [] = s.ended (want_of c) q (ground arith) (ground arith) in
          let got_none : (s.pop (want_of c) q).1 ≡ [] = empty_of_length _ (ground arith) in
          let split : s.ahead q ≡ s.ahead (s.pop (want_of c) q).0 =
            s.delivers (want_of c) q ∙ ap (λ t. t ++ s.ahead (s.pop (want_of c) q).0) got_none in
          record {
            taken = [];
            next = c;
            left = (s.pop (want_of c) q).0;
            split = split;
            stands = rw (append-nil past) h;
            kept = Kept-refl c;
            outcome = inr (rw (owed, none_left) refl, ground arith, sym split ∙ over);
          }
      | inr some_left ↦
          let got = (s.pop (want_of c) q).1 in
          let q' = (s.pop (want_of c) q).0 in
          let all : take (want_of c) got ≡ got = take-all (want_of c) got (s.fits (want_of c) q) in
          let room : length got ≤ c.pending =
            let f = s.fits (want_of c) q in let m = h.small in ground arith in
          let (stands, kept, count) = take_frames_lem k d got n past c h room in
          let r = draw_lem fuel n (past ++ got) (take_frames got c) q' stands (ground arith) in
          record {
            taken = got ++ r.taken;
            next = r.next;
            left = r.left;
            split =
                s.delivers (want_of c) q
                ∙ ap (λ t. got ++ t) r.split
                ∙ sym (append_assoc got r.taken (s.ahead r.left));
            stands = rw (append_assoc past got r.taken) at r.stands;
            kept = Kept-trans c (take_frames got c) r.next kept r.kept;
            outcome = rw (owed, some_left, all) r.outcome;
          }
    ]
  ]
