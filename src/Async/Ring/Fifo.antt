-- ===== src/Async/Ring/Fifo.antt =====
-- The ring as a bounded queue: its operations, whatever the order of the two threads' calls.
use native.Mathlib.Nat.{mod-eq_of_lt}
use sample_rate_tap.Common.{
  ℕ, ◌+◌, ◌-◌, ◌^◌, ◌≤◌, ◌<◌, ◌≡◌, refl, ap, ap₂, ◌∙◌, arith, min, max, List, [], ◌∷◌, ◌++◌, length,
  take, drop, replicate, length-replicate, sub_w-eq, ◌%◌, ◌*◌, sym,
}
use sample_rate_tap.Async.Ring.{
  SpscRing, bit_ceil, construct, write, write_available, read, read_available, discard,
}
use sample_rate_tap.Async.Ring.Mask.{pow_pos, pow_mono, bit_ceil_lem}
use sample_rate_tap.Async.Ring.Inv.{Represents, room_below}
use sample_rate_tap.Async.Ring.Write.{write-Represents, write_available-Represents}
use sample_rate_tap.Async.Ring.Read.{read-Represents, read_available-Represents, discard-Represents}

-- A call of the producer or of the consumer.
pub data Op (A : Type 0) : Type 0 where
  put : List A → Op A
  free : Op A
  get : ℕ → Op A
  filled : Op A
  skip : ℕ → Op A

-- What it returns: a count, or the elements read.
pub data Reply (A : Type 0) : Type 0 where
  count : ℕ → Reply A
  elements : List A → Reply A

module _ {A : Type 0} where
  unfoldable pub ring_step : ℕ → Op A → SpscRing A → Reply A × SpscRing A
  ring_step bits (put xs) r = let (n, r') = write bits xs r in (count n, r')
  ring_step bits free r = let (n, r') = write_available bits r in (count n, r')
  ring_step bits (get n) r = let (xs, r') = read bits n r in (elements xs, r')
  ring_step bits filled r = let (n, r') = read_available bits r in (count n, r')
  ring_step bits (skip n) r = let (m, r') = discard bits n r in (count m, r')

  -- The queue of at most `cap` elements.
  unfoldable pub fifo_step : ℕ → Op A → List A → Reply A × List A
  fifo_step cap (put xs) q = let n = min (length xs) (cap - length q) in (count n, q ++ take n xs)
  fifo_step cap free q = (count (cap - length q), q)
  fifo_step cap (get n) q = let m = min n (length q) in (elements (take m q), drop m q)
  fifo_step cap filled q = (count (length q), q)
  fifo_step cap (skip n) q = let m = min n (length q) in (count m, drop m q)

  unfoldable pub ring_run : ℕ → List (Op A) → SpscRing A → List (Reply A)
  ring_run bits [] r = []
  ring_run bits (op ∷ ops) r = let (reply, r') = ring_step bits op r in reply ∷ ring_run bits ops r'

  unfoldable pub fifo_run : ℕ → List (Op A) → List A → List (Reply A)
  fifo_run cap [] q = []
  fifo_run cap (op ∷ ops) q = let (reply, q') = fifo_step cap op q in reply ∷ fifo_run cap ops q'

  step_lem :
      (bits k : ℕ) (op : Op A) (q : List A) (r : SpscRing A)
      → Represents bits k q r
      → ((ring_step bits op r).0 ≡ (fifo_step (2 ^ k) op q).0)
        × Represents bits k (fifo_step (2 ^ k) op q).1 (ring_step bits op r).1
  unfolding ring_step fifo_step
  step_lem bits k (put xs) q r h =
      let (n, on) = write-Represents bits k q xs r h in (ap count n, on)
  step_lem bits k free q r h =
      let (n, on) = write_available-Represents bits k q r h in (ap count n, on)
  step_lem bits k (get n) q r h =
      let (xs, on) = read-Represents bits k n q r h in (ap elements xs, on)
  step_lem bits k filled q r h =
      let (n, on) = read_available-Represents bits k q r h in (ap count n, on)
  step_lem bits k (skip n) q r h =
      let (m, on) = discard-Represents bits k n q r h in (ap count m, on)

  -- A ring that holds a queue answers every sequence of calls as a queue of at most 2 ^ k elements
  -- does, k the binary logarithm of its capacity.
  pub ring_run-fifo_run :
      (bits k : ℕ) (ops : List (Op A)) (q : List A) (r : SpscRing A)
      → Represents bits k q r
      → ring_run bits ops r ≡ fifo_run (2 ^ k) ops q
  unfolding ring_run fifo_run
  ring_run-fifo_run bits k [] q r h = refl
  ring_run-fifo_run bits k (op ∷ ops) q r h =
      let (same, on) = step_lem bits k op q r h in
      ap₂ ◌∷◌ same (ring_run-fifo_run bits k ops _ _ on)

  empty-Represents :
      (bits k : ℕ) (z : A) (size : ℕ)
      → k < bits
      → size ≡ 2 ^ k
      → Represents bits k [] (record {
        buf = replicate size z;
        mask = (size + 2 ^ bits - 1) % 2 ^ bits;
        head = 0;
        tail_cache = 0;
        tail = 0;
        head_cache = 0;
      })
  empty-Represents bits k z size h e =
      let none : 0 ≡ 0 % 2 ^ bits = sym (mod-eq_of_lt (pow_pos bits)) in
      record {
        fits = h;
        sized = length-replicate size z ∙ e;
        ones = rw e (
            sub_w-eq (2 ^ bits) (2 ^ k) 1 (pow_pos k)
              (omega (arith, room_below bits k h, pow_pos k)));
        written = 0;
        taken = 0;
        tail_seen = 0;
        head_seen = 0;
        head = none;
        tail = none;
        tail_cache = none;
        head_cache = none;
        old_tail = omega arith;
        old_head = omega arith;
        not_below = omega arith;
        not_above = omega arith;
        count = omega arith;
        element = λ i lt. absurd (omega arith);
      }

  -- A new ring, of a capacity that half the range of `std::size_t` has room for, holds the empty queue;
  -- its capacity is a power of two, at least what was asked for and 2, and less than twice the larger
  -- of these.
  pub construct-Represents :
      (bits n : ℕ) (z : A)
      → 2 ≤ bits
      → n ≤ 2 ^ (bits - 1)
      → (k : ℕ) × Represents bits k [] (construct bits z n)
        × (length (construct bits z n).buf ≡ 2 ^ k)
        × (n ≤ 2 ^ k)
        × (2 ^ k < 2 * max n 2)
  unfolding construct
  construct-Represents bits n z two small =
      let some : 2 ≤ 2 ^ (bits - 1) = pow_mono 1 (bits - 1) (omega arith) in
      let (k, fits, eq, enough, not_twice) =
        bit_ceil_lem bits (max n 2) two (omega arith) (omega arith) in
      (
        k,
        empty-Represents bits k z (bit_ceil bits (max n 2)) fits eq,
        length-replicate (bit_ceil bits (max n 2)) z ∙ eq,
        omega arith,
        not_twice,
      )
