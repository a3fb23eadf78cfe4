-- ===== src/Async/Ring/Threads/Start.antt =====
-- The starts of `write` and of `read`.
use sample_rate_tap.Common.{
  ℕ, inl, inr, refl, arith, min, List, [], length, length-take, take, ltb, ◌==◌, Bool-cases,
  if◌then◌else◌,
}
use sample_rate_tap.Async.Ring.{SpscRing, refresh_tail, refresh_head, free_seen, avail_seen}
use sample_rate_tap.Async.Ring.Write.{free_seen_lem}
use sample_rate_tap.Async.Ring.Read.{avail_seen_lem}
use sample_rate_tap.Async.Ring.Threads.{
  at_rest, storing, resting, loading, Threads, start_write, start_read,
}
use sample_rate_tap.Async.Ring.Threads.Inv.{InOrder, see_tail_holds, see_head_holds}

module _ {A : Type 0} (bits k : ℕ) where
  -- With the view of the other index settled.
  write_begun :
      (src : List A) (v : SpscRing A) (s : Threads A)
      → InOrder bits k (record s { ring = v; producer = at_rest })
      → let n = min (length src) (free_seen bits v) in
        InOrder bits k
          (record s { ring = v; producer = if n == 0 then at_rest else storing [] (take n src) })
  write_begun src v s h =
      let n = min (length src) (free_seen bits v) in
      elim (Bool-cases (n == 0)) [
        | inl full ↦ rw full h
        | inr more ↦ rw more (record {
          queue = h.queue;
          split = h.split;
          holds = h.holds;
          stores = (
            omega (
              arith,
              length-take n src,
              free_seen_lem bits k h.queue v h.holds,
              h.holds.not_above,
            ),
            λ j lt. absurd (omega arith),
          );
          loads = h.loads;
        })
      ]

  read_begun :
      (n : ℕ) (v : SpscRing A) (s : Threads A)
      → InOrder bits k (record s { ring = v; consumer = resting })
      → let m = min n (avail_seen bits v) in
        InOrder bits k (record s { ring = v; consumer = if m == 0 then resting else loading m [] })
  read_begun n v s h =
      let m = min n (avail_seen bits v) in
      elim (Bool-cases (m == 0)) [
        | inl none_left ↦ rw none_left h
        | inr more ↦ rw more (record {
          queue = h.queue;
          split = h.split;
          holds = h.holds;
          stores = h.stores;
          loads = (omega (arith, avail_seen_lem bits k h.queue v h.holds, h.holds.not_below), refl);
        })
      ]

  pub start_write-InOrder :
      (src : List A) (s : Threads A)
      → InOrder bits k s
      → let w = start_write bits src s.ring in
        InOrder bits k (record s { ring = w.0; producer = w.1 })
  unfolding see_tail_holds
  start_write-InOrder src s h = elim (Bool-cases (ltb (free_seen bits s.ring) (length src))) [
    | inl short ↦ rw short (
        write_begun src (refresh_tail bits s.ring) s (record {
          queue = h.queue;
          split = h.split;
          holds = see_tail_holds bits k h.queue s.ring h.holds;
          stores = tt;
          loads = h.loads;
        }))
    | inr enough ↦ rw enough (
        write_begun src s.ring s (record {
          queue = h.queue;
          split = h.split;
          holds = h.holds;
          stores = tt;
          loads = h.loads;
        }))
  ]

  pub start_read-InOrder :
      (n : ℕ) (s : Threads A)
      → InOrder bits k s
      → let w = start_read bits n s.ring in InOrder bits k (record s { ring = w.0; consumer = w.1 })
  unfolding see_head_holds
  start_read-InOrder n s h = elim (Bool-cases (ltb (avail_seen bits s.ring) n)) [
    | inl short ↦ rw short (
        read_begun n (refresh_head bits s.ring) s (record {
          queue = h.queue;
          split = h.split;
          holds = see_head_holds bits k h.queue s.ring h.holds;
          stores = h.stores;
          loads = tt;
        }))
    | inr enough ↦ rw enough (
        read_begun n s.ring s (record {
          queue = h.queue;
          split = h.split;
          holds = h.holds;
          stores = h.stores;
          loads = tt;
        }))
  ]
