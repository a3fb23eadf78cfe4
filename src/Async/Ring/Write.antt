-- ===== src/Async/Ring/Write.antt =====
-- `write` and `write_available`, and the queue after them.
use native.Mathlib.Nat.{mod-lt, mod-add-mod}
use mathlib.Core.List.{append-nil}
use sample_rate_tap.Common.{
  ℕ, ◌+◌, ◌-◌, ◌%◌, ◌^◌, ◌≤◌, ◌<◌, ◌≡◌, inl, inr, refl, ap, ◌∙◌, arith, min, List, [], ◌++◌, length,
  take, get_elem?, length-take, length-append, Bool-cases, ltb, ltb→ge, ◌==◌, ==_iff, if◌then◌else◌,
  sub_w-eq,
}
use sample_rate_tap.Async.Ring.{
  SpscRing, and_w, store, write, write_available, free_seen, refresh_tail,
}
use sample_rate_tap.Async.Ring.Mask.{pow_pos}
use sample_rate_tap.Async.Ring.Inv.{Represents, sub_w-exact, slot_lem, room_below}
use sample_rate_tap.Async.Ring.Segments.{two_segments, length-two_segments, queue_after}

module _ (bits k : ℕ) {A : Type 0} where
  -- What the elements stored at the head become: the end of the queue.
  pub store-Represents :
      (q xs : List A) (r : SpscRing A) (h : Represents bits k q r)
      → h.written + length xs ≤ h.tail_seen + 2 ^ k
      → Represents bits k (q ++ xs) (store bits xs r)
  unfolding store
  store-Represents q xs r h room = record {
    fits = h.fits;
    sized = rw index (
        length-two_segments r.buf (h.written % 2 ^ k) xs inside (omega (arith, h.sized, h.old_tail))
        ∙ h.sized);
    ones = h.ones;
    written = h.written + length xs;
    taken = h.taken;
    tail_seen = h.tail_seen;
    head_seen = h.head_seen;
    head = rw h.head (mod-add-mod h.written (2 ^ bits) (length xs));
    tail = h.tail;
    tail_cache = h.tail_cache;
    head_cache = h.head_cache;
    old_tail = h.old_tail;
    old_head = omega (arith, h.old_head);
    not_below = h.not_below;
    not_above = room;
    count = omega (arith, h.count, length-append q xs);
    element = rw index moved;
  }
    where
      index : and_w bits r.head r.mask ≡ h.written % 2 ^ k
      index = rw h.head (slot_lem bits k h.written r.mask h.fits h.ones)

      inside : h.written % 2 ^ k < length r.buf
      inside = omega (arith, h.sized, mod-lt h.written (pow_pos k))

      moved :
          (i : ℕ)
          → i < length (q ++ xs)
          → get_elem? (two_segments r.buf (h.written % 2 ^ k) xs) ((h.taken + i) % 2 ^ k)
            ≡ get_elem? (q ++ xs) i
      moved =
          rw (← h.count, ← h.sized)
            (queue_after r.buf h.taken q xs (omega (arith, h.sized, pow_pos k))
              (omega (arith, h.sized, h.old_tail, h.count)) (rw h.sized h.element))

  free_at :
      (r : SpscRing A) (w t : ℕ)
      → k < bits
      → length r.buf ≡ 2 ^ k
      → r.head ≡ w % 2 ^ bits
      → r.tail_cache ≡ t % 2 ^ bits
      → t ≤ w
      → w ≤ t + 2 ^ k
      → free_seen bits r ≡ 2 ^ k - (w - t)
  free_at r w t fits sized head tail le near =
      let more = room_below bits k fits in
      rw (sized, head, tail, sub_w-exact (2 ^ bits) w t le (omega (arith, pow_pos k)))
        (sub_w-eq (2 ^ bits) (2 ^ k) (w - t) (omega arith) (omega (arith, pow_pos k)))

  pub free_seen_lem :
      (q : List A) (r : SpscRing A) (h : Represents bits k q r)
      → free_seen bits r ≡ 2 ^ k - (h.written - h.tail_seen)
  free_seen_lem q r h =
      free_at r h.written h.tail_seen h.fits h.sized h.head h.tail_cache
        (omega (arith, h.old_tail, h.count)) h.not_above

  pub refresh_tail-Represents :
      (q : List A) (r : SpscRing A)
      → Represents bits k q r
      → Represents bits k q (refresh_tail bits r)
  refresh_tail-Represents q r h = record {
    fits = h.fits;
    sized = h.sized;
    ones = h.ones;
    written = h.written;
    taken = h.taken;
    tail_seen = h.taken;
    head_seen = h.head_seen;
    head = h.head;
    tail = h.tail;
    tail_cache = h.tail;
    head_cache = h.head_cache;
    old_tail = omega arith;
    old_head = h.old_head;
    not_below = h.not_below;
    not_above = omega (arith, h.not_above, h.old_tail);
    count = h.count;
    element = h.element;
  }

  -- Fresh, the free space is exact.
  free_fresh :
      (q : List A) (r : SpscRing A)
      → Represents bits k q r
      → free_seen bits (refresh_tail bits r) ≡ 2 ^ k - length q
  free_fresh q r h =
      free_at (refresh_tail bits r) h.written h.taken h.fits h.sized h.head h.tail
        (omega (arith, h.count)) (omega (arith, h.not_above, h.old_tail))
      ∙ omega (arith, h.count)

  -- What is stored, once the view of the tail is settled.
  settled :
      (q src : List A) (v : SpscRing A) (m : ℕ)
      → Represents bits k q v
      → m ≡ min (length src) (free_seen bits v)
      → let o : ℕ × SpscRing A = if m == 0 then (m, v) else (m, store bits (take m src) v) in
        Represents bits k (q ++ take m src) o.1 × (o.0 ≡ m)
  settled q src v m h e = elim (Bool-cases (m == 0)) [
    | inl none ↦
        let nothing : take m src ≡ [] = ap (λ t. take t src) ((==_iff m 0).0 none) in
        (rw (none, nothing, append-nil q) h, rw none refl)
    | inr some ↦ (
      rw some (
          store-Represents q (take m src) v h
            (omega (arith, length-take m src, free_seen_lem q v h, h.not_above))),
      rw some refl,
    )
  ]

  -- `write` accepts as many elements as the ring has room for, however old the producer's view of the
  -- tail is, and puts them at the end of the queue in order.
  pub write-Represents :
      (q src : List A) (r : SpscRing A)
      → Represents bits k q r
      → ((write bits src r).0 ≡ min (length src) (2 ^ k - length q))
        × Represents bits k
            (q ++ take (min (length src) (2 ^ k - length q)) src)
            (write bits src r).1
  unfolding write
  write-Represents q src r h = elim (Bool-cases (ltb (free_seen bits r) (length src))) [
    | inl short ↦
        let v = refresh_tail bits r in
        let exact = free_fresh q r h in
        let (on, count) =
          settled q src v (min (length src) (free_seen bits v)) (refresh_tail-Represents q r h)
            refl in
        (rw (short, ← exact) count, rw (short, ← exact) on)
    | inr enough ↦
        let (on, count) = settled q src r (min (length src) (free_seen bits r)) h refl in
        let all : min (length src) (free_seen bits r) ≡ min (length src) (2 ^ k - length q) =
          omega (
            arith,
            ltb→ge (free_seen bits r) (length src) enough,
            free_seen_lem q r h,
            h.count,
            h.old_tail,
          ) in
        (rw (enough, ← all) count, rw (enough, ← all) on)
  ]

  pub write_available-Represents :
      (q : List A) (r : SpscRing A)
      → Represents bits k q r
      → ((write_available bits r).0 ≡ 2 ^ k - length q)
        × Represents bits k q (write_available bits r).1
  unfolding write_available
  write_available-Represents q r h = (free_fresh q r h, refresh_tail-Represents q r h)
