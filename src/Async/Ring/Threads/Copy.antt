-- ===== src/Async/Ring/Threads/Copy.antt =====
-- One element into the buffer and one out of it.
use native.Mathlib.Nat.{mod-lt}
use sample_rate_tap.Common.{
  ℕ, suc, ◌+◌, ◌%◌, ◌^◌, ◌≤◌, ◌<◌, ◌≡◌, refl, sym, ap, ◌∙◌, arith, none, some, List, [], ◌∷◌, ◌++◌,
  length, length-append, take, set, get_elem?, get_elem?-set_self, get_elem?-set_ne,
  get_elem?-append_left, get_elem?-append_right, dec_lt, lt→ltb,
}
use sample_rate_tap.Async.Ring.{SpscRing, and_w}
use sample_rate_tap.Async.Ring.Mask.{pow_pos}
use sample_rate_tap.Async.Ring.Inv.{Represents, slot_lem}
use sample_rate_tap.Async.Ring.Threads.{
  storing, loading, Threads, copy_in, copy_out, slot_of, put_element, get_element, produce_step,
  consume_step,
}
use sample_rate_tap.Async.Ring.Threads.Slots.{slot_eq, slot_ne, take_next}
use sample_rate_tap.Async.Ring.Threads.Inv.{InOrder, Leads, put_holds}

module _ {A : Type 0} (bits k : ℕ) where
  -- The slot of the element that the producer copies next.
  put_slot :
      (q : List A) (r : SpscRing A) (h : Represents bits k q r) (n i : ℕ)
      → i < n
      → h.written + n ≤ h.tail_seen + 2 ^ k
      → slot_of bits r (and_w bits r.head r.mask) n i ≡ (h.written + i) % 2 ^ k
  put_slot q r h n i lt room =
      let at = slot_lem bits k h.written r.mask h.fits h.ones in
      rw (h.head, at, h.sized)
        (slot_eq (2 ^ k) h.written n i (omega (arith, h.old_tail, h.count)) lt)

  get_slot :
      (q : List A) (r : SpscRing A) (h : Represents bits k q r) (n i : ℕ)
      → i < n
      → h.taken + n ≤ h.head_seen
      → slot_of bits r (and_w bits r.tail r.mask) n i ≡ (h.taken + i) % 2 ^ k
  get_slot q r h n i lt room =
      let at = slot_lem bits k h.taken r.mask h.fits h.ones in
      rw (h.tail, at, h.sized)
        (slot_eq (2 ^ k) h.taken n i (omega (arith, h.old_head, h.not_above, h.old_tail)) lt)

  put_element_lem :
      (done todo : List A) (x : A) (q : List A) (r : SpscRing A) (h : Represents bits k q r)
      → h.written + (length done + suc (length todo)) ≤ h.tail_seen + 2 ^ k
      → put_element bits done x todo r
        ≡ some (
          record r { buf = set r.buf ((h.written + length done) % 2 ^ k) x },
          storing (done ++ x ∷ []) todo,
        )
  put_element_lem done todo x q r h room =
      let slot = (h.written + length done) % 2 ^ k in
      let at = put_slot q r h (length done + suc (length todo)) (length done) (omega arith) room in
      let low : slot < length r.buf =
        omega (arith, h.sized, mod-lt (h.written + length done) (pow_pos k)) in
      rw (at, lt→ltb slot (length r.buf) low) refl

  -- One more element stands in its slot.
  put_stored :
      (done : List A) (x : A) (q : List A) (r : SpscRing A) (h : Represents bits k q r)
      → h.written + length done < h.tail_seen + 2 ^ k
      → ((j : ℕ) → j < length done → get_elem? r.buf ((h.written + j) % 2 ^ k) ≡ get_elem? done j)
      → (j : ℕ) → j < length (done ++ x ∷ [])
      → get_elem? (set r.buf ((h.written + length done) % 2 ^ k) x) ((h.written + j) % 2 ^ k)
        ≡ get_elem? (done ++ x ∷ []) j
  put_stored done x q r h room stored j lt =
      let slot = (h.written + length done) % 2 ^ k in
      let low : slot < length r.buf =
        omega (arith, h.sized, mod-lt (h.written + length done) (pow_pos k)) in
      elim (dec_lt j (length done)) [
        | yes old ↦
            get_elem?-set_ne r.buf slot ((h.written + j) % 2 ^ k) x (
              slot_ne (2 ^ k) (h.written + j) (h.written + length done) (omega arith)
                (omega (arith, h.old_tail, h.count)))
            ∙ stored j old
            ∙ sym (get_elem?-append_left done (x ∷ []) j old)
        | no new ↦
            let last : j ≡ length done + 0 = omega (arith, length-append done (x ∷ [])) in
            rw last (
              ap (λ p. get_elem? (set r.buf slot x) (p % 2 ^ k)) (omega arith)
              ∙ get_elem?-set_self r.buf slot x low
              ∙ sym (get_elem?-append_right done (x ∷ []) 0))
      ]

  pub copy_in-Leads :
      (done todo : List A) (x : A) (s : Threads A)
      → InOrder bits k (record s { producer = storing done (x ∷ todo) })
      → Leads bits k (produce_step bits copy_in (storing done (x ∷ todo)) s)
  unfolding produce_step put_holds
  copy_in-Leads done todo x s h =
      let r = s.ring in
      let g = h.holds in
      let room : g.written + length done < g.tail_seen + 2 ^ k = omega (arith, h.stores.0) in
      (
        record s {
          ring = record r { buf = set r.buf ((g.written + length done) % 2 ^ k) x };
          producer = storing (done ++ x ∷ []) todo;
        },
        ap (λ o. elim o [ none ↦ none | some w ↦ some (record s { ring = w.0; producer = w.1 }) ])
            (put_element_lem done todo x h.queue r g h.stores.0),
        record {
          queue = h.queue;
          split = h.split;
          holds = put_holds bits k h.queue r g (length done) x room;
          stores = (
            omega (arith, h.stores.0, length-append done (x ∷ [])),
            put_stored done x h.queue r g room h.stores.1,
          );
          loads = h.loads;
        },
      )

  pub copy_out-Leads :
      (left : ℕ) (out : List A) (s : Threads A)
      → InOrder bits k (record s { consumer = loading (suc left) out })
      → Leads bits k (consume_step bits copy_out (loading (suc left) out) s)
  unfolding consume_step
  copy_out-Leads left out s h =
      let g = h.holds in
      let (x, there, more) =
        take_next (length out) h.queue (omega (arith, g.count, h.loads.0, g.old_head)) in
      let at =
        get_slot h.queue s.ring g (length out + suc left) (length out) (omega arith) h.loads.0 in
      let stands = g.element (length out) (omega (arith, g.count, h.loads.0, g.old_head)) ∙ there in
      let e : get_element bits left out s.ring ≡ some (loading left (out ++ x ∷ [])) =
        ap (λ o. elim o [ none ↦ none | some y ↦ some (loading left (out ++ y ∷ [])) ])
          (ap (get_elem? s.ring.buf) at ∙ stands) in
      let longer : length (out ++ x ∷ []) ≡ suc (length out) =
        omega (arith, length-append out (x ∷ [])) in
      (
        record s { consumer = loading left (out ++ x ∷ []) },
        ap (λ o. elim o [ none ↦ none | some c ↦ some (record s { consumer = c }) ]) e,
        record {
          queue = h.queue;
          split = h.split;
          holds = g;
          stores = h.stores;
          loads = (
            omega (arith, longer, h.loads.0),
            ap (λ l. l ++ x ∷ []) h.loads.1 ∙ more ∙ ap (λ n. take n h.queue) (sym longer),
          );
        },
      )
