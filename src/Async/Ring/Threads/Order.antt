-- ===== src/Async/Ring/Threads/Order.antt =====
-- Whatever the schedule, what the consumer gets is what the producer sent.
use mathlib.Core.List.{append_assoc}
use sample_rate_tap.Common.{
  ℕ, zero, suc, ◌+◌, ◌≤◌, refl, sym, ap, ◌∙◌, arith, none, some, List, [], ◌∷◌, ◌++◌, length, drop,
  take-append_le, take-append-drop,
}
use sample_rate_tap.Async.Ring.{add_size}
use sample_rate_tap.Async.Ring.Threads.{
  Producer, at_rest, storing, Consumer, resting, loading, Threads, Step, begin_write, copy_in,
  publish, see_tail, begin_read, copy_out, release, see_head, produce_step, consume_step, step_by,
  schedule_run,
}
use sample_rate_tap.Async.Ring.Threads.Inv.{
  Loading, InOrder, Leads, publish_holds, see_tail_holds, see_head_holds, release_holds,
}
use sample_rate_tap.Async.Ring.Threads.Start.{start_write-InOrder, start_read-InOrder}
use sample_rate_tap.Async.Ring.Threads.Copy.{copy_in-Leads, copy_out-Leads}

module _ {A : Type 0} (bits k : ℕ) where
  publish_loads :
      (c : Consumer A) (q done : List A) (taken head_seen : ℕ)
      → head_seen ≤ taken + length q
      → Loading bits k c q taken head_seen
      → Loading bits k c (q ++ done) taken head_seen
  publish_loads resting q done taken head_seen le loads = tt
  publish_loads (loading left out) q done taken head_seen le loads =
      (loads.0, loads.1 ∙ sym (take-append_le (length out) q done (omega (arith, loads.0))))

  publish-Leads :
      (done : List A) (s : Threads A)
      → InOrder bits k (record s { producer = storing done [] })
      → Leads bits k (produce_step bits publish (storing done []) s)
  unfolding produce_step publish_holds
  publish-Leads done s h = (
    record s {
      ring = record s.ring { head = add_size bits s.ring.head (length done) };
      producer = at_rest;
      sent = s.sent ++ done;
    },
    refl,
    record {
      queue = h.queue ++ done;
      split = ap (λ l. l ++ done) h.split ∙ append_assoc s.got h.queue done;
      holds =
          publish_holds bits k h.queue done s.ring h.holds (omega (arith, h.stores.0)) h.stores.1;
      stores = tt;
      loads =
          publish_loads s.consumer h.queue done h.holds.taken h.holds.head_seen
            (omega (arith, h.holds.old_head, h.holds.count)) h.loads;
    },
  )

  release-Leads :
      (out : List A) (s : Threads A)
      → InOrder bits k (record s { consumer = loading zero out })
      → Leads bits k (consume_step bits release (loading zero out) s)
  unfolding consume_step release_holds
  release-Leads out s h = (
    record s {
      ring = record s.ring { tail = add_size bits s.ring.tail (length out) };
      consumer = resting;
      got = s.got ++ out;
    },
    refl,
    record {
      queue = drop (length out) h.queue;
      split = rw h.split (
          ap (λ l. s.got ++ l)
            (sym (take-append-drop (length out) h.queue)
              ∙ ap (λ l. l ++ drop (length out) h.queue) (sym h.loads.1))
          ∙ sym (append_assoc s.got out (drop (length out) h.queue)));
      holds = release_holds bits k h.queue s.ring (length out) h.holds (omega (arith, h.loads.0));
      stores = h.stores;
      loads = tt;
    },
  )

  produce-Leads :
      (step : Step A) (p : Producer A) (s : Threads A)
      → InOrder bits k (record s { producer = p })
      → Leads bits k (produce_step bits step p (record s { producer = p }))
  unfolding produce_step see_tail_holds
  produce-Leads (begin_write src) at_rest s h =
      (_, refl, start_write-InOrder bits k src (record s { producer = at_rest }) h)
  produce-Leads see_tail at_rest s h = (
    _,
    refl,
    record {
      queue = h.queue;
      split = h.split;
      holds = see_tail_holds bits k h.queue s.ring h.holds;
      stores = tt;
      loads = h.loads;
    },
  )
  produce-Leads copy_in (storing done (x ∷ todo)) s h = copy_in-Leads bits k done todo x s h
  produce-Leads publish (storing done []) s h = publish-Leads done s h
  produce-Leads step p s h = (_, refl, h)

  consume-Leads :
      (step : Step A) (c : Consumer A) (s : Threads A)
      → InOrder bits k (record s { consumer = c })
      → Leads bits k (consume_step bits step c (record s { consumer = c }))
  unfolding consume_step see_head_holds
  consume-Leads (begin_read n) resting s h =
      (_, refl, start_read-InOrder bits k n (record s { consumer = resting }) h)
  consume-Leads see_head resting s h = (
    _,
    refl,
    record {
      queue = h.queue;
      split = h.split;
      holds = see_head_holds bits k h.queue s.ring h.holds;
      stores = h.stores;
      loads = tt;
    },
  )
  consume-Leads copy_out (loading (suc left) out) s h = copy_out-Leads bits k left out s h
  consume-Leads release (loading zero out) s h = release-Leads out s h
  consume-Leads step c s h = (_, refl, h)

  step_by-Leads :
      (step : Step A) (s : Threads A) → InOrder bits k s → Leads bits k (step_by bits step s)
  step_by-Leads (begin_write src) s h = produce-Leads (begin_write src) s.producer s h
  step_by-Leads copy_in s h = produce-Leads copy_in s.producer s h
  step_by-Leads publish s h = produce-Leads publish s.producer s h
  step_by-Leads see_tail s h = produce-Leads see_tail s.producer s h
  step_by-Leads (begin_read n) s h = consume-Leads (begin_read n) s.consumer s h
  step_by-Leads copy_out s h = consume-Leads copy_out s.consumer s h
  step_by-Leads release s h = consume-Leads release s.consumer s h
  step_by-Leads see_head s h = consume-Leads see_head s.consumer s h

  -- From threads whose ring holds, from a fitting mask on, exactly what was sent and is not yet got, any
  -- schedule of the two threads' steps runs without an access beyond the buffer and ends in such a state:
  -- what was sent is what was got, in the same order, and then what the ring holds.
  pub schedule_run-InOrder :
      (steps : List (Step A)) (s : Threads A)
      → InOrder bits k s
      → Leads bits k (schedule_run bits steps s)
  unfolding schedule_run
  schedule_run-InOrder [] s h = (s, refl, h)
  schedule_run-InOrder (step ∷ steps) s h =
      let (t, e, there) = step_by-Leads step s h in
      let (u, f, last) = schedule_run-InOrder steps t there in
      (u, ap (λ o. elim o [ none ↦ none | some t ↦ schedule_run bits steps t ]) e ∙ f, last)
