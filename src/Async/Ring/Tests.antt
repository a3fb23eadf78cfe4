-- ===== src/Async/Ring/Tests.antt =====
-- A ring of four slots on words of four bits, so that the indices wrap.
use sample_rate_tap.Common.{
  ℕ, some, none, ◌^◌, ◌*◌, ◌≤◌, ◌<◌, ◌≡◌, refl, arith, max, List, [], ◌∷◌, length,
}
use sample_rate_tap.Async.Ring.{
  SpscRing, construct, write, write_available, read, read_available, discard, store, load, and_w,
  bit_ceil_from,
}
use sample_rate_tap.Async.Ring.Inv.{Represents}
use sample_rate_tap.Async.Ring.Write.{write-Represents}
use sample_rate_tap.Async.Ring.Fifo.{
  Op, put, free, get, filled, skip, count, elements, ring_run, ring_step, fifo_run,
  ring_run-fifo_run, construct-Represents,
}
use sample_rate_tap.Async.Ring.Threads.{
  Threads, at_rest, resting, Step, begin_write, copy_in, publish, see_tail, begin_read, copy_out,
  release, produce_step, consume_step, schedule_run,
}
use sample_rate_tap.Async.Ring.Threads.Inv.{InOrder, Leads}
use sample_rate_tap.Async.Ring.Threads.Order.{schedule_run-InOrder}

-- Three slots asked for, four given.
abbrev empty_ring : SpscRing ℕ
empty_ring = construct 4 0 3

empty_ring-Represents : Represents 4 2 [] empty_ring
unfolding construct bit_ceil_from
empty_ring-Represents = record {
  fits = omega arith;
  sized = refl;
  ones = refl;
  written = 0;
  taken = 0;
  tail_seen = 0;
  head_seen = 0;
  head = refl;
  tail = refl;
  tail_cache = refl;
  head_cache = refl;
  old_tail = omega arith;
  old_head = omega arith;
  not_below = omega arith;
  not_above = omega arith;
  count = refl;
  element = λ i lt. absurd (omega arith);
}

abbrev calls : List (Op ℕ)
calls =
    put (1 ∷ 2 ∷ 3 ∷ []) ∷ get 2 ∷ put (4 ∷ 5 ∷ 6 ∷ 7 ∷ []) ∷ free ∷ skip 1 ∷ get 9 ∷ filled ∷ []

calls_answered :
    ring_run 4 calls empty_ring
    ≡ count 3
      ∷ elements (1 ∷ 2 ∷ [])
      ∷ count 3
      ∷ count 0
      ∷ count 1
      ∷ elements (4 ∷ 5 ∷ 6 ∷ [])
      ∷ count 0
      ∷ []
unfolding ring_run ring_step construct bit_ceil_from write write_available read read_available
    discard store load and_w
calls_answered = refl

ring_run-fifo_run_example : ring_run 4 calls empty_ring ≡ fifo_run 4 calls []
ring_run-fifo_run_example = ring_run-fifo_run 4 2 calls [] empty_ring empty_ring-Represents

-- Forty-eight slots asked for, on words of 64 bits.
abbrev large_ring : SpscRing ℕ
large_ring = construct 64 0 48

construct-Represents_example :
    (k : ℕ) × Represents 64 k [] large_ring
    × (length large_ring.buf ≡ 2 ^ k)
    × (48 ≤ 2 ^ k)
    × (2 ^ k < 2 * max 48 2)
construct-Represents_example = construct-Represents 64 48 0 (omega arith) (omega arith)

-- Two elements in the ring.
abbrev two_in : SpscRing ℕ
two_in = (write 4 (1 ∷ 2 ∷ []) empty_ring).1

two_in-Represents : Represents 4 2 (1 ∷ 2 ∷ []) two_in
two_in-Represents = (write-Represents 4 2 [] (1 ∷ 2 ∷ []) empty_ring empty_ring-Represents).1

abbrev idle_threads : Threads ℕ
idle_threads = record {
  ring = empty_ring;
  producer = at_rest;
  consumer = resting;
  sent = [];
  got = [];
}

idle_threads-InOrder : InOrder 4 2 idle_threads
idle_threads-InOrder = record {
  queue = [];
  split = refl;
  holds = empty_ring-Represents;
  stores = tt;
  loads = tt;
}

-- The second write starts while the first read has copied one of its two elements, and ends after it.
abbrev schedule : List (Step ℕ)
schedule =
    begin_write (1 ∷ 2 ∷ 3 ∷ [])
    ∷ copy_in
    ∷ begin_read 2
    ∷ copy_in
    ∷ copy_in
    ∷ publish
    ∷ begin_read 2
    ∷ copy_out
    ∷ begin_write (4 ∷ 5 ∷ [])
    ∷ copy_in
    ∷ copy_out
    ∷ release
    ∷ publish
    ∷ see_tail
    ∷ begin_write (6 ∷ [])
    ∷ copy_in
    ∷ begin_read 9
    ∷ publish
    ∷ copy_out
    ∷ copy_out
    ∷ release
    ∷ []

schedule_passed :
    elim (schedule_run 4 schedule idle_threads) [ none ↦ [] | some t ↦ t.sent ∷ t.got ∷ [] ]
    ≡ (1 ∷ 2 ∷ 3 ∷ 4 ∷ 6 ∷ []) ∷ (1 ∷ 2 ∷ 3 ∷ 4 ∷ []) ∷ []
unfolding construct bit_ceil_from and_w produce_step consume_step schedule_run
schedule_passed = refl

schedule_run-InOrder_example : Leads 4 2 (schedule_run 4 schedule idle_threads)
schedule_run-InOrder_example = schedule_run-InOrder 4 2 schedule idle_threads idle_threads-InOrder
