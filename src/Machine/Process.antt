-- ===== src/Machine/Process.antt =====
-- `process` of a machine that settles its outputs beforehand.
use mathlib.Core.List.{append_assoc, append-nil}
use native.Mathlib.Nat.{add-zero}
use sample_rate_tap.Common.{
  ℕ, zero, suc, ◌+◌, ◌-◌, ◌≤◌, ◌<◌, ◌≡◌, refl, ap, ap₂, ◌∙◌, arith, some, List, [], ◌∷◌, ◌++◌, map,
  length, length-append, range_from,
}
use sample_rate_tap.Machine.{Machine, absorb_all, fill, produce, process_total}
use sample_rate_tap.Machine.Laws.{Laws, Exact, Exact-first, Exact-none, Exact-suc}

module _ {X F O : Type 0} (k : Machine X F O) (l m : ℕ) (laws : Laws k l m) where
  open laws use {Stands, ideal}

  pub absorb_all_lem :
      (fs : List F) (n : ℕ) (past : List F) (w v : ℕ) (x : X)
      → Stands n past w x
      → w ≡ length fs + v
      → Stands n (past ++ fs) v (absorb_all k fs x)
  absorb_all_lem [] n past w v x h e =
      let same : w ≡ v = omega arith in rw (append-nil past) (rw same at h)
  absorb_all_lem (f ∷ fs) n past w v x h e =
      let more : w ≡ suc (length fs + v) = omega arith in
      rw (append_assoc past (f ∷ []) fs) at (
        absorb_all_lem fs n (past ++ f ∷ []) (length fs + v) v (k.absorb f x)
          (laws.absorb_on n past f (length fs + v) x (rw more at h)) refl)

  -- The inner loop takes the frames that are owed.
  pub record Filled (w n : ℕ) (past src : List F) (x : X) : Type 0 where
    pub taken : List F
    pub rest : List F
    pub next : X
    pub ran : fill k w x src ≡ some (next, rest)
    pub split : taken ++ rest ≡ src
    pub stands : Stands n (past ++ taken) 0 next

  pub fill_lem :
      (w n : ℕ) (past src : List F) (x : X)
      → Stands n past w x
      → w ≤ length src
      → Filled w n past src x
  unfolding fill
  fill_lem zero n past src x h le = record {
    taken = [];
    rest = src;
    next = x;
    ran = refl;
    split = refl;
    stands = rw (append-nil past) h;
  }
  fill_lem (suc w) n past [] x h le = absurd (omega arith)
  fill_lem (suc w) n past (f ∷ src) x h le =
      let r =
        fill_lem w n (past ++ f ∷ []) src (k.absorb f x) (laws.absorb_on n past f w x h)
          (omega arith) in
      record {
        taken = f ∷ r.taken;
        rest = r.rest;
        next = r.next;
        ran = r.ran;
        split = ap (λ t. f ∷ t) r.split;
        stands = rw (append_assoc past (f ∷ []) r.taken) at r.stands;
      }

  -- What the outer loop leaves.
  pub record Produced (total n : ℕ) (past src : List F) (x : X) : Type 0 where
    pub out : List O
    pub last : X
    pub left : List F
    pub past' : List F
    pub ran : produce k total x src ≡ some (out, last, left)
    pub split : past' ++ left ≡ past ++ src
    pub stands : Stands (n + total) past' (k.need last) last
    pub short : length left < k.need last
    pub wrote : out ≡ map (ideal (past ++ src)) (range_from n total)

  pub produce_lem :
      (total n : ℕ) (past src : List F) (x : X)
      → Stands n past (k.need x) x
      → Exact l m n past (length src) total
      → Produced total n past src x
  unfolding produce
  produce_lem zero n past src x h exact = record {
    out = [];
    last = x;
    left = src;
    past' = past;
    ran = refl;
    split = refl;
    stands = rw add-zero h;
    short =
        omega (arith, Exact-none l m n past (length src) exact, laws.owed n past (k.need x) x h);
    wrote = refl;
  }
  produce_lem (suc total) n past src x h exact =
      let due = Exact-first l m n past (length src) total exact in
      let owed = laws.owed n past (k.need x) x h in
      let r = fill_lem (k.need x) n past src x h (omega arith) in
      let now = laws.owed n (past ++ r.taken) 0 r.next r.stands in
      let z = (k.emit r.next).1 in
      let whole : (past ++ r.taken) ++ r.rest ≡ past ++ src =
        append_assoc past r.taken r.rest ∙ ap (λ t. past ++ t) r.split in
      let p =
        produce_lem total (suc n) (past ++ r.taken) r.rest z
          (laws.emit_on n (past ++ r.taken) r.next r.stands)
          (Exact-suc l m n past (length src) (past ++ r.taken) (length r.rest) total
            (omega (
              arith,
              ap length whole,
              length-append (past ++ r.taken) r.rest,
              length-append past src,
            ))
            exact) in
      let later : n + suc total ≡ suc n + total = omega arith in
      record {
        out = (k.emit r.next).0 ∷ p.out;
        last = p.last;
        left = p.left;
        past' = p.past';
        ran = rw (r.ran, p.ran) refl;
        split = p.split ∙ whole;
        stands = rw later p.stands;
        short = p.short;
        wrote =
            ap₂ ◌∷◌
              (laws.emit_ideal n (past ++ r.taken) r.next r.stands
                ∙ laws.extends n (past ++ r.taken) r.rest (omega arith)
                ∙ ap (λ t. ideal t n) whole)
              (p.wrote ∙ ap (λ t. map (ideal t) (range_from (suc n) total)) whole);
      }

  -- What a call leaves and writes.
  pub record Processed (total n : ℕ) (past src : List F) (out : List O) (x : X) : Type 0 where
    pub wrote : out ≡ map (ideal (past ++ src)) (range_from n total)
    pub stands : Stands (n + total) (past ++ src) (k.need x) x

  pub process_total_lem :
      (total n : ℕ) (past src : List F) (x : X)
      → Stands n past (k.need x) x
      → Exact l m n past (length src) total
      → (out : List O) × (y : X) × (process_total k total x src ≡ some (out, y))
        × Processed total n past src out y
  unfolding process_total
  process_total_lem total n past src x h exact =
      let p = produce_lem total n past src x h exact in
      let v = k.need p.last - length p.left - 1 in
      let on =
        absorb_all_lem p.left (n + total) p.past' (k.need p.last) (suc v) p.last p.stands
          (omega (arith, p.short)) in
      let at = rw p.split at on in
      (
        p.out,
        absorb_all k p.left p.last,
        rw p.ran refl,
        record {
          wrote = p.wrote;
          stands = rw (laws.need_eq (n + total) (past ++ src) v (absorb_all k p.left p.last) at) at;
        },
      )
