-- ===== src/Async/Ring/Threads/Inv.antt =====
-- What stands between the two threads' steps, and that a step on the shared indices and elements keeps it.
use native.Mathlib.Nat.{mod-add-mod}
use sample_rate_tap.Common.{
  ℕ, ◌+◌, ◌-◌, ◌%◌, ◌^◌, ◌≤◌, ◌<◌, ◌≡◌, sym, ap, ◌∙◌, arith, Option, some, List, ◌++◌, length,
  length-append, length-set, length-drop, take, drop, set, get_elem?, get_elem?-set_ne,
  get_elem?-append_left, get_elem?-append_right, get_elem?-drop, dec_lt,
}
use sample_rate_tap.Async.Ring.{SpscRing, refresh_tail, refresh_head, add_size}
use sample_rate_tap.Async.Ring.Inv.{Represents}
use sample_rate_tap.Async.Ring.Threads.{
  Producer, at_rest, storing, Consumer, resting, loading, Threads,
}
use sample_rate_tap.Async.Ring.Threads.Slots.{slot_ne}

module _ {A : Type 0} (bits k : ℕ) where
  -- What the producer has copied stands behind the queue, in slots that are free.
  abbrev pub Storing : Producer A → List A → ℕ → ℕ → Type 0
  Storing at_rest buf written tail_seen = Unit {0}
  Storing (storing done todo) buf written tail_seen =
      (written + (length done + length todo) ≤ tail_seen + 2 ^ k)
      × ((j : ℕ) → j < length done → get_elem? buf ((written + j) % 2 ^ k) ≡ get_elem? done j)

  -- What the consumer has copied is the front of the queue, and what it will copy has been published.
  abbrev pub Loading : Consumer A → List A → ℕ → ℕ → Type 0
  Loading resting q taken head_seen = Unit {0}
  Loading (loading left out) q taken head_seen =
      (taken + (length out + left) ≤ head_seen) × (out ≡ take (length out) q)

  -- The queue between what was sent and what was got.
  pub record InOrder (s : Threads A) : Type 0 where
    pub queue : List A
    pub split : s.sent ≡ s.got ++ queue
    pub holds : Represents bits k queue s.ring
    pub stores : Storing s.producer s.ring.buf holds.written holds.tail_seen
    pub loads : Loading s.consumer queue holds.taken holds.head_seen

  -- An element into a free slot leaves the queue alone.
  unfoldable pub put_holds :
      (q : List A) (r : SpscRing A) (h : Represents bits k q r) (i : ℕ) (x : A)
      → h.written + i < h.tail_seen + 2 ^ k
      → Represents bits k q (record r { buf = set r.buf ((h.written + i) % 2 ^ k) x })
  put_holds q r h i x room = record {
    fits = h.fits;
    sized = length-set r.buf ((h.written + i) % 2 ^ k) x ∙ h.sized;
    ones = h.ones;
    written = h.written;
    taken = h.taken;
    tail_seen = h.tail_seen;
    head_seen = h.head_seen;
    head = h.head;
    tail = h.tail;
    tail_cache = h.tail_cache;
    head_cache = h.head_cache;
    old_tail = h.old_tail;
    old_head = h.old_head;
    not_below = h.not_below;
    not_above = h.not_above;
    count = h.count;
    element = λ j lt.
        get_elem?-set_ne r.buf ((h.written + i) % 2 ^ k) ((h.taken + j) % 2 ^ k) x (
          slot_ne (2 ^ k) (h.taken + j) (h.written + i) (omega (arith, h.count))
            (omega (arith, h.old_tail)))
        ∙ h.element j lt;
  }

  -- The stored elements, published, follow the queue.
  unfoldable pub publish_holds :
      (q done : List A) (r : SpscRing A) (h : Represents bits k q r)
      → h.written + length done ≤ h.tail_seen + 2 ^ k
      → ((j : ℕ) → j < length done → get_elem? r.buf ((h.written + j) % 2 ^ k) ≡ get_elem? done j)
      → Represents bits k (q ++ done) (record r { head = add_size bits r.head (length done) })
  publish_holds q done r h room stored = record {
    fits = h.fits;
    sized = h.sized;
    ones = h.ones;
    written = h.written + length done;
    taken = h.taken;
    tail_seen = h.tail_seen;
    head_seen = h.head_seen;
    head = rw h.head (mod-add-mod h.written (2 ^ bits) (length done));
    tail = h.tail;
    tail_cache = h.tail_cache;
    head_cache = h.head_cache;
    old_tail = h.old_tail;
    old_head = omega (arith, h.old_head);
    not_below = h.not_below;
    not_above = room;
    count = omega (arith, h.count, length-append q done);
    element = λ i lt. elim (dec_lt i (length q)) [
      | yes old ↦ h.element i old ∙ sym (get_elem?-append_left q done i old)
      | no new ↦
          let j = i - length q in
          let there : h.taken + i ≡ h.written + j = omega (arith, h.count) in
          let back : length q + j ≡ i = omega arith in
          rw there (
            stored j (omega (arith, length-append q done))
            ∙ sym (get_elem?-append_right q done j)
            ∙ ap (get_elem? (q ++ done)) back)
    ];
  }

  unfoldable pub see_tail_holds :
      (q : List A) (r : SpscRing A)
      → Represents bits k q r
      → Represents bits k q (refresh_tail bits r)
  see_tail_holds q r h = record {
    fits = h.fits;
    sized = h.sized;
    ones = h.ones;
    written = h.written;
    taken = h.taken;
    tail_seen = h.taken;
    head_seen = h.head_seen;
    head = h.head;
    tail = h.tail;
    tail_cache = h.tail;
    head_cache = h.head_cache;
    old_tail = omega arith;
    old_head = h.old_head;
    not_below = h.not_below;
    not_above = omega (arith, h.not_above, h.old_tail);
    count = h.count;
    element = h.element;
  }

  unfoldable pub see_head_holds :
      (q : List A) (r : SpscRing A)
      → Represents bits k q r
      → Represents bits k q (refresh_head bits r)
  see_head_holds q r h = record {
    fits = h.fits;
    sized = h.sized;
    ones = h.ones;
    written = h.written;
    taken = h.taken;
    tail_seen = h.tail_seen;
    head_seen = h.written;
    head = h.head;
    tail = h.tail;
    tail_cache = h.tail_cache;
    head_cache = h.head;
    old_tail = h.old_tail;
    old_head = omega arith;
    not_below = omega (arith, h.count);
    not_above = h.not_above;
    count = h.count;
    element = h.element;
  }

  unfoldable pub release_holds :
      (q : List A) (r : SpscRing A) (m : ℕ) (h : Represents bits k q r)
      → h.taken + m ≤ h.head_seen
      → Represents bits k (drop m q) (record r { tail = add_size bits r.tail m })
  release_holds q r m h le = record {
    fits = h.fits;
    sized = h.sized;
    ones = h.ones;
    written = h.written;
    taken = h.taken + m;
    tail_seen = h.tail_seen;
    head_seen = h.head_seen;
    head = h.head;
    tail = rw h.tail (mod-add-mod h.taken (2 ^ bits) m);
    tail_cache = h.tail_cache;
    head_cache = h.head_cache;
    old_tail = omega (arith, h.old_tail);
    old_head = h.old_head;
    not_below = le;
    not_above = h.not_above;
    count = omega (arith, h.count, h.old_head, length-drop m q);
    element = λ i lt.
        let there : h.taken + m + i ≡ h.taken + (m + i) = omega arith in
        rw there (h.element (m + i) (omega (arith, length-drop m q)) ∙ sym (get_elem?-drop m q i));
  }

  -- A step, taken from a state in order, is defined and leads to one.
  abbrev pub Leads : Option (Threads A) → Type 0
  Leads o = (t : Threads A) × (o ≡ some t) × InOrder t
