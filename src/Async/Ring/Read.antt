-- ===== src/Async/Ring/Read.antt =====
-- `read`, `read_available` and `discard`, and the queue after them.
use native.Mathlib.Nat.{mod-lt, mod-add-mod}
use sample_rate_tap.Common.{
  mod_wrap, ℕ, ◌+◌, ◌-◌, ◌%◌, ◌^◌, ◌≤◌, ◌<◌, ◌≡◌, inl, inr, refl, sym, ap, ◌∙◌, arith, min, List,
  ◌++◌, length, take, drop, get_elem?, length-take, length-drop, length-append, get_elem?-take,
  get_elem?-drop, get_elem?-append_left, get_elem?-append_right, get_elem?-ext, Bool-cases, ltb,
  ltb→ge, ◌==◌, ==_iff, if◌then◌else◌,
}
use sample_rate_tap.Async.Ring.{
  SpscRing, and_w, load, read, read_available, discard, avail_seen, refresh_head, add_size,
}
use sample_rate_tap.Async.Ring.Mask.{pow_pos}
use sample_rate_tap.Async.Ring.Inv.{Represents, sub_w-exact, slot_lem, room_below}

module _ {A : Type 0} where
  -- The two segments of a bulk read.
  abbrev segments_out : List A → ℕ → ℕ → List A
  segments_out buf idx m =
      let first = min m (length buf - idx) in take first (drop idx buf) ++ take (m - first) buf

  module _ (buf : List A) (idx m : ℕ) (inside : idx < length buf) (room : m ≤ length buf) where
    abbrev first : ℕ
    first = min m (length buf - idx)

    front : length (take first (drop idx buf)) ≡ first
    front = omega (arith, length-take first (drop idx buf), length-drop idx buf)

    length-segments_out : length (segments_out buf idx m) ≡ m
    length-segments_out = omega (
      arith,
      length-append (take first (drop idx buf)) (take (m - first) buf),
      front,
      length-take (m - first) buf,
    )

    get-segments_out :
        (i : ℕ)
        → i < m
        → get_elem? (segments_out buf idx m) i ≡ get_elem? buf ((idx + i) % length buf)
    get-segments_out i h = elim (mod_wrap (length buf) (idx + i) (omega arith)) [
      | inl (lo, e) ↦ rw e (
          get_elem?-append_left (take first (drop idx buf)) (take (m - first) buf) i
            (omega (arith, front))
          ∙ get_elem?-take first (drop idx buf) i (omega arith)
          ∙ get_elem?-drop idx buf i)
      | inr (hi, e) ↦
          let j = i - first in
          let there : length (take first (drop idx buf)) + j ≡ i = omega (arith, front) in
          let slot : j ≡ idx + i - length buf = omega arith in
          rw e (
            ap (get_elem? (segments_out buf idx m)) (sym there)
            ∙ get_elem?-append_right (take first (drop idx buf)) (take (m - first) buf) j
            ∙ get_elem?-take (m - first) buf j (omega arith)
            ∙ ap (get_elem? buf) slot)
    ]

module _ (bits k : ℕ) {A : Type 0} where
  -- The two segments are the front of the queue.
  load_lem :
      (q : List A) (r : SpscRing A) (m : ℕ)
      → Represents bits k q r
      → m ≤ length q
      → load bits m r ≡ take m q
  unfolding load
  load_lem q r m h le = rw index (
      get_elem?-ext (segments_out r.buf idx m) (take m q)
        (omega (arith, length-segments_out r.buf idx m inside room, length-take m q)) same)
    where
      idx : ℕ
      idx = h.taken % 2 ^ k

      index : and_w bits r.tail r.mask ≡ h.taken % 2 ^ k
      index = rw h.tail (slot_lem bits k h.taken r.mask h.fits h.ones)

      inside : idx < length r.buf
      inside = omega (arith, h.sized, mod-lt h.taken (pow_pos k))

      room : m ≤ length r.buf
      room = omega (arith, h.sized, h.count, h.not_above, h.old_tail)

      same :
          (i : ℕ)
          → i < length (segments_out r.buf idx m)
          → get_elem? (segments_out r.buf idx m) i ≡ get_elem? (take m q) i
      same i lt =
          let near : i < m = omega (arith, length-segments_out r.buf idx m inside room) in
          get-segments_out r.buf idx m inside room i near
          ∙ ap (get_elem? r.buf) (ap (λ t. (idx + i) % t) h.sized ∙ mod-add-mod h.taken (2 ^ k) i)
          ∙ h.element i (omega arith)
          ∙ sym (get_elem?-take m q i near)

  -- The tail moves over what the consumer has seen.
  advance-Represents :
      (q : List A) (r : SpscRing A) (m : ℕ) (h : Represents bits k q r)
      → h.taken + m ≤ h.head_seen
      → Represents bits k (drop m q) (record r { tail = add_size bits r.tail m })
  advance-Represents q r m h le = record {
    fits = h.fits;
    sized = h.sized;
    ones = h.ones;
    written = h.written;
    taken = h.taken + m;
    tail_seen = h.tail_seen;
    head_seen = h.head_seen;
    head = h.head;
    tail = rw h.tail (mod-add-mod h.taken (2 ^ bits) m);
    tail_cache = h.tail_cache;
    head_cache = h.head_cache;
    old_tail = omega (arith, h.old_tail);
    old_head = h.old_head;
    not_below = le;
    not_above = h.not_above;
    count = omega (arith, h.count, h.old_head, length-drop m q);
    element = λ i lt.
        let there : h.taken + m + i ≡ h.taken + (m + i) = omega arith in
        rw there (h.element (m + i) (omega (arith, length-drop m q)) ∙ sym (get_elem?-drop m q i));
  }

  avail_at :
      (r : SpscRing A) (s t : ℕ)
      → k < bits
      → r.head_cache ≡ s % 2 ^ bits
      → r.tail ≡ t % 2 ^ bits
      → t ≤ s
      → s ≤ t + 2 ^ k
      → avail_seen bits r ≡ s - t
  avail_at r s t fits head tail le near =
      rw (head, tail)
        (sub_w-exact (2 ^ bits) s t le (omega (arith, room_below bits k fits, pow_pos k)))

  pub avail_seen_lem :
      (q : List A) (r : SpscRing A) (h : Represents bits k q r)
      → avail_seen bits r ≡ h.head_seen - h.taken
  avail_seen_lem q r h =
      avail_at r h.head_seen h.taken h.fits h.head_cache h.tail h.not_below
        (omega (arith, h.old_head, h.not_above, h.old_tail))

  -- Fresh, the view of the head is the head.
  refreshed :
      (q : List A) (r : SpscRing A)
      → Represents bits k q r
      → (h : Represents bits k q (refresh_head bits r)) × (h.head_seen ≡ h.written)
        × (avail_seen bits (refresh_head bits r) ≡ length q)
  refreshed q r h = (
    record {
      fits = h.fits;
      sized = h.sized;
      ones = h.ones;
      written = h.written;
      taken = h.taken;
      tail_seen = h.tail_seen;
      head_seen = h.written;
      head = h.head;
      tail = h.tail;
      tail_cache = h.tail_cache;
      head_cache = h.head;
      old_tail = h.old_tail;
      old_head = omega arith;
      not_below = omega (arith, h.count);
      not_above = h.not_above;
      count = h.count;
      element = h.element;
    },
    refl,
    avail_at (refresh_head bits r) h.written h.taken h.fits h.head h.tail (omega (arith, h.count))
          (omega (arith, h.not_above, h.old_tail))
        ∙ omega (arith, h.count),
  )

  -- The view that an operation on `n` elements works with: it shows as many of them as there are.
  viewed :
      (n : ℕ) (q : List A) (r : SpscRing A)
      → Represents bits k q r
      → let v : SpscRing A = if ltb (avail_seen bits r) n then refresh_head bits r else r in
        (h : Represents bits k q v) × (min n (avail_seen bits v) ≡ min n (length q))
        × (h.taken + min n (length q) ≤ h.head_seen)
  viewed n q r h = elim (Bool-cases (ltb (avail_seen bits r) n)) [
    | inl short ↦
        let (on, exact, all) = refreshed q r h in
        rw short (on, omega (arith, all), omega (arith, exact, on.count))
    | inr enough ↦
        let seen = avail_seen_lem q r h in
        let much = ltb→ge (avail_seen bits r) n enough in
        rw enough
          (h, omega (arith, h.count, h.old_head), omega (arith, h.count, h.old_head, h.not_below))
  ]

  -- `discard` drops elements from the front of the queue, as many as asked for or as there are, however
  -- old the consumer's view of the head is.
  pub discard-Represents :
      (n : ℕ) (q : List A) (r : SpscRing A)
      → Represents bits k q r
      → ((discard bits n r).0 ≡ min n (length q))
        × Represents bits k (drop (min n (length q)) q) (discard bits n r).1
  unfolding discard
  discard-Represents n q r h =
      let (on, count, le) = viewed n q r h in
      (count, rw count (advance-Represents q _ (min n (length q)) on le))

  -- `read` takes elements from the front of the queue in order, as many as asked for or as there are,
  -- however old the consumer's view of the head is.
  pub read-Represents :
      (n : ℕ) (q : List A) (r : SpscRing A)
      → Represents bits k q r
      → ((read bits n r).0 ≡ take (min n (length q)) q)
        × Represents bits k (drop (min n (length q)) q) (read bits n r).1
  unfolding read
  read-Represents n q r h =
      let (on, count, le) = viewed n q r h in
      let m = min n (length q) in
      rw count (elim (Bool-cases (m == 0)) [
        | inl none ↦
            let e : m ≡ 0 = (==_iff m 0).0 none in
            (rw none (ap (λ t. take t q) (sym e)), rw (none, e) on)
        | inr some ↦
            (rw some (load_lem q _ m on (omega arith)), rw some (advance-Represents q _ m on le))
      ])

  pub read_available-Represents :
      (q : List A) (r : SpscRing A)
      → Represents bits k q r
      → ((read_available bits r).0 ≡ length q) × Represents bits k q (read_available bits r).1
  unfolding read_available
  read_available-Represents q r h = let (on, exact, all) = refreshed q r h in (all, on)
