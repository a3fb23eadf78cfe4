-- ===== src/Async/Converter/Heard.antt =====
-- How the frames that a converter has in hand come from those that it was given.
use native.Mathlib.Nat.{mod-add-mod, mod-mod}
use mathlib.Core.List.{append_assoc}
use mathlib.Core.Path.{subst}
use sample_rate_tap.Common.{
  ℕ, zero, suc, ◌+◌, ◌%◌, ◌≡◌, sym, ap, ◌∙◌, arith, List, ◌++◌, take, drop, take-append-drop, add_w,
}

-- The frames `xs` are what is left of `all`, in order, when frames have been let go at the front and `n`
-- times a run of frames has been cut out behind some that stay.
pub data Heard {X : Type 0} (all : List X) : ℕ → List X → Type 0 where
  whole : Heard all zero all
  forget : {n : ℕ} {xs : List X} (gone : List X) → Heard all n (gone ++ xs) → Heard all n xs
  cut :
      {n : ℕ} (kept lost rest : List X)
      → Heard all n (kept ++ (lost ++ rest))
      → Heard all (suc n) (kept ++ rest)

module _ {X : Type 0} where
  pub Heard-moved :
      {all : List X} {n : ℕ} {xs ys : List X} → xs ≡ ys → Heard all n xs → Heard all n ys
  Heard-moved {all} {n} e h = subst (λ z. Heard all n z) e h

  -- More frames come at the end.
  pub Heard-append :
      {all : List X} {n : ℕ} {xs : List X} (more : List X)
      → Heard all n xs
      → Heard (all ++ more) n (xs ++ more)
  Heard-append more whole = whole
  Heard-append {xs = xs} more (forget gone h) =
      forget gone (Heard-moved (append_assoc gone xs more) (Heard-append more h))
  Heard-append more (cut kept lost rest h) =
      let inside : (kept ++ (lost ++ rest)) ++ more ≡ kept ++ (lost ++ (rest ++ more)) =
        append_assoc kept (lost ++ rest) more ∙ ap (λ z. kept ++ z) (append_assoc lost rest more) in
      Heard-moved (sym (append_assoc kept rest more))
        (cut kept lost (rest ++ more) (Heard-moved inside (Heard-append more h)))

  -- A run behind `kept` and what is staged.
  pub Heard-drop :
      {all : List X} {n : ℕ} (kept staged q : List X) (m : ℕ)
      → Heard all n (kept ++ (staged ++ q))
      → Heard all (suc n) (kept ++ (staged ++ drop m q))
  Heard-drop kept staged q m h =
      let split : kept ++ (staged ++ q) ≡ (kept ++ staged) ++ (take m q ++ drop m q) =
        ap (λ z. kept ++ (staged ++ z)) (sym (take-append-drop m q))
        ∙ sym (append_assoc kept staged (take m q ++ drop m q)) in
      Heard-moved (append_assoc kept staged (drop m q))
        (cut (kept ++ staged) (take m q) (drop m q) (Heard-moved split h))

-- One more, on a counter that wraps.
pub count_more :
    (w base n a b : ℕ) → a % w ≡ (base + n) % w → b ≡ add_w w a 1 → b % w ≡ (base + suc n) % w
count_more w base n a b h e =
    ap (λ z. z % w) e
    ∙ mod-mod (a + 1) w
    ∙ sym (mod-add-mod a w 1)
    ∙ ap (λ z. (z + 1) % w) h
    ∙ mod-add-mod (base + n) w 1
    ∙ ap (λ z. z % w) (omega arith)
