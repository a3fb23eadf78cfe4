-- ===== src/Async/Ring.antt =====
-- async/include/tap/sr/async/spsc_ring.h, `spsc_ring<T>`, each operation as a whole call.
-- A `std::size_t` has `bits` bits. A relaxed or an acquiring load reads the member.
pub mod Mask
pub mod Inv
pub mod Segments
pub mod Write
pub mod Read
pub mod Fifo
pub mod Threads
mod Tests
use sample_rate_tap.Common.{
  ℕ, zero, suc, ◌+◌, ◌-◌, ◌*◌, ◌/◌, ◌%◌, ◌^◌, min, max, List, [], ◌++◌, length, take, drop,
  replicate, copy_at, leb, ltb, ◌==◌, if◌then◌else◌, add_w, sub_w,
}

pub record SpscRing (A : Type 0) : Type 0 where
  pub buf : List A
  pub mask : ℕ
  pub head : ℕ  -- written by producer
  pub tail_cache : ℕ  -- producer's view of tail
  pub tail : ℕ  -- written by consumer
  pub head_cache : ℕ  -- consumer's view of head

-- `a & b` on words of so many bits.
unfoldable pub and_w : ℕ → ℕ → ℕ → ℕ
and_w zero a b = 0
and_w (suc bits) a b = (a % 2) * (b % 2) + 2 * and_w bits (a / 2) (b / 2)

-- `std::bit_ceil`: the first power of two from `2 ^ k` on, among `more + 1`, that is not below `n`.
unfoldable pub bit_ceil_from : ℕ → ℕ → ℕ → ℕ
bit_ceil_from zero k n = 2 ^ k
bit_ceil_from (suc more) k n =
    let rest = bit_ceil_from more (suc k) n in if leb n (2 ^ k) then 2 ^ k else rest

module _ (bits : ℕ) where
  abbrev pub bit_ceil : ℕ → ℕ
  bit_ceil n = bit_ceil_from bits 0 n

  -- Subtraction and addition of indices wrap.
  abbrev pub sub_size : ℕ → ℕ → ℕ
  sub_size a b = sub_w (2 ^ bits) a b

  abbrev pub add_size : ℕ → ℕ → ℕ
  add_size a b = add_w (2 ^ bits) a b

  module _ {A : Type 0} where
    -- The constructor; `zero_value` is what `std::vector` fills the buffer with.
    unfoldable pub construct : A → ℕ → SpscRing A
    construct zero_value min_capacity =
        let size = bit_ceil (max min_capacity 2) in
        record {
          buf = replicate size zero_value;
          mask = sub_size size 1;
          head = 0;
          tail_cache = 0;
          tail = 0;
          head_cache = 0;
        }

    abbrev pub capacity : SpscRing A → ℕ
    capacity r = length r.buf

    abbrev pub refresh_tail : SpscRing A → SpscRing A
    refresh_tail r = record r { tail_cache = r.tail }

    abbrev pub refresh_head : SpscRing A → SpscRing A
    refresh_head r = record r { head_cache = r.head }

    abbrev pub free_seen : SpscRing A → ℕ
    free_seen r = sub_size (capacity r) (sub_size r.head r.tail_cache)

    abbrev pub avail_seen : SpscRing A → ℕ
    avail_seen r = sub_size r.head_cache r.tail

    -- The two `memcpy` segments and the store of `head`, for the elements that fit.
    unfoldable pub store : List A → SpscRing A → SpscRing A
    store xs r =
        let idx = and_w bits r.head r.mask in
        let first = min (length xs) (capacity r - idx) in
        record r {
          buf = copy_at (copy_at r.buf idx (take first xs)) 0 (drop first xs);
          head = add_size r.head (length xs);
        }

    -- `write(src, n)`, `src` being the `n` elements.
    unfoldable pub write : List A → SpscRing A → ℕ × SpscRing A
    write src r =
        let v = if ltb (free_seen r) (length src) then refresh_tail r else r in
        let n = min (length src) (free_seen v) in
        if n == 0 then (n, v) else (n, store (take n src) v)

    unfoldable pub write_available : SpscRing A → ℕ × SpscRing A
    write_available r = let v = refresh_tail r in (free_seen v, v)

    -- What `read` copies out: two segments.
    unfoldable pub load : ℕ → SpscRing A → List A
    load n r =
        let idx = and_w bits r.tail r.mask in
        let first = min n (capacity r - idx) in
        take first (drop idx r.buf) ++ take (n - first) r.buf

    -- The elements read; the number returned is their count.
    unfoldable pub read : ℕ → SpscRing A → List A × SpscRing A
    read n r =
        let v = if ltb (avail_seen r) n then refresh_head r else r in
        let m = min n (avail_seen v) in
        if m == 0 then ([], v) else (load m v, record v { tail = add_size v.tail m })

    unfoldable pub read_available : SpscRing A → ℕ × SpscRing A
    read_available r = let v = refresh_head r in (avail_seen v, v)

    unfoldable pub discard : ℕ → SpscRing A → ℕ × SpscRing A
    discard n r =
        let v = if ltb (avail_seen r) n then refresh_head r else r in
        let m = min n (avail_seen v) in (m, record v { tail = add_size v.tail m })
