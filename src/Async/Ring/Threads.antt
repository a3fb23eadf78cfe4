-- ===== src/Async/Ring/Threads.antt =====
-- async/include/tap/sr/async/spsc_ring.h, `write`, `write_available`, `read` and `read_available` as the
-- two threads take their steps: each step has one access to what the threads share, an index or one
-- element, and the release and acquire pairs let the steps of the two be put in one sequence. The
-- elements of a `memcpy` go one by one.
pub mod Slots
pub mod Inv
pub mod Start
pub mod Copy
pub mod Order
use sample_rate_tap.Common.{
  ℕ, zero, suc, ◌+◌, ◌-◌, min, Option, none, some, List, [], ◌∷◌, ◌++◌, length, take, set,
  get_elem?, ltb, ◌==◌, if◌then◌else◌,
}
use sample_rate_tap.Async.Ring.{
  SpscRing, and_w, capacity, refresh_tail, refresh_head, free_seen, avail_seen, add_size,
}

-- The producer outside of its calls, or in the copy of a `write`: what it has copied and what is left.
pub data Producer (A : Type 0) : Type 0 where
  at_rest : Producer A
  storing : List A → List A → Producer A

-- The consumer outside of its calls, or in the copy of a `read`: how many are left, and what it has.
pub data Consumer (A : Type 0) : Type 0 where
  resting : Consumer A
  loading : ℕ → List A → Consumer A

-- The threads with their ring; `sent` and `got` are all that finished calls have written and read.
pub record Threads (A : Type 0) : Type 0 where
  pub ring : SpscRing A
  pub producer : Producer A
  pub consumer : Consumer A
  pub sent : List A
  pub got : List A

pub data Step (A : Type 0) : Type 0 where
  begin_write : List A → Step A
  copy_in : Step A
  publish : Step A
  see_tail : Step A
  begin_read : ℕ → Step A
  copy_out : Step A
  release : Step A
  see_head : Step A

module _ {A : Type 0} (bits : ℕ) where
  -- The slot of element `i` of `n` that go to the index `idx` on: in the first segment or in the second.
  abbrev pub slot_of : SpscRing A → ℕ → ℕ → ℕ → ℕ
  slot_of r idx n i =
      let first = min n (capacity bits r - idx) in if ltb i first then idx + i else i - first

  -- Up to the copy.
  abbrev pub start_write : List A → SpscRing A → SpscRing A × Producer A
  start_write src r =
      let v = if ltb (free_seen bits r) (length src) then refresh_tail bits r else r in
      let n = min (length src) (free_seen bits v) in
      (v, if n == 0 then at_rest else storing [] (take n src))

  abbrev pub start_read : ℕ → SpscRing A → SpscRing A × Consumer A
  start_read n r =
      let v = if ltb (avail_seen bits r) n then refresh_head bits r else r in
      let m = min n (avail_seen bits v) in (v, if m == 0 then resting else loading m [])

  -- One element into the buffer; `none` is a write beyond it.
  abbrev pub put_element : List A → A → List A → SpscRing A → Option (SpscRing A × Producer A)
  put_element done x todo r =
      let n = length done + suc (length todo) in
      let slot = slot_of r (and_w bits r.head r.mask) n (length done) in
      if ltb slot (length r.buf)
      then some (record r { buf = set r.buf slot x }, storing (done ++ x ∷ []) todo)
      else none

  -- One element out of it; `none` is a read beyond it.
  abbrev pub get_element : ℕ → List A → SpscRing A → Option (Consumer A)
  get_element left out r =
      let n = length out + suc left in
      let slot = slot_of r (and_w bits r.tail r.mask) n (length out) in
      elim (get_elem? r.buf slot) [ none ↦ none | some x ↦ some (loading left (out ++ x ∷ [])) ]

  -- The step of a thread. One that the thread is not at changes nothing.
  unfoldable pub produce_step : Step A → Producer A → Threads A → Option (Threads A)
  produce_step (begin_write src) at_rest s =
      let (v, p) = start_write src s.ring in some (record s { ring = v; producer = p })
  produce_step see_tail at_rest s = some (record s { ring = refresh_tail bits s.ring })
  produce_step copy_in (storing done (x ∷ todo)) s = elim (put_element done x todo s.ring) [
    | none ↦ none
    | some r ↦ some (record s { ring = r.0; producer = r.1 })
  ]
  produce_step publish (storing done []) s = some (record s {
    ring = record s.ring { head = add_size bits s.ring.head (length done) };
    producer = at_rest;
    sent = s.sent ++ done;
  })
  produce_step step p s = some s

  unfoldable pub consume_step : Step A → Consumer A → Threads A → Option (Threads A)
  consume_step (begin_read n) resting s =
      let (v, c) = start_read n s.ring in some (record s { ring = v; consumer = c })
  consume_step see_head resting s = some (record s { ring = refresh_head bits s.ring })
  consume_step copy_out (loading (suc left) out) s = elim (get_element left out s.ring) [
    | none ↦ none
    | some c ↦ some (record s { consumer = c })
  ]
  consume_step release (loading zero out) s = some (record s {
    ring = record s.ring { tail = add_size bits s.ring.tail (length out) };
    consumer = resting;
    got = s.got ++ out;
  })
  consume_step step c s = some s

  abbrev pub step_by : Step A → Threads A → Option (Threads A)
  step_by (begin_write src) s = produce_step (begin_write src) s.producer s
  step_by copy_in s = produce_step copy_in s.producer s
  step_by publish s = produce_step publish s.producer s
  step_by see_tail s = produce_step see_tail s.producer s
  step_by (begin_read n) s = consume_step (begin_read n) s.consumer s
  step_by copy_out s = consume_step copy_out s.consumer s
  step_by release s = consume_step release s.consumer s
  step_by see_head s = consume_step see_head s.consumer s

  -- A schedule: any sequence of the two threads' steps.
  unfoldable pub schedule_run : List (Step A) → Threads A → Option (Threads A)
  schedule_run [] s = some s
  schedule_run (step ∷ steps) s = elim (step_by step s) [
    | none ↦ none
    | some t ↦ schedule_run steps t
  ]
