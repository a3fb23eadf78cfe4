-- ===== src/Async/Servo/Tests.antt =====
-- The servo over whole numbers that never go below 0.
use sample_rate_tap.Common.{ℕ, ◌+◌, ◌≡◌, refl, arith, List, [], ◌∷◌}
use sample_rate_tap.Async.Servo.{
  PiServo, track, construct, smooth, update, seed, reset, alpha, advance_stage, advance_hold, steer,
  compute_gains,
}
use sample_rate_tap.Async.Samples.{naturals, tuned}
use sample_rate_tap.Async.Servo.Bounds.{Call, update_call, run, IsOrdered, IsBounded, run-IsBounded}
use sample_rate_tap.Async.Servo.Stages.{Moves, update-Moves}

tuned-IsOrdered : IsOrdered naturals tuned
tuned-IsOrdered = record {
  irreflexive = λ v. ground arith;
  apart = refl;
  zero_low = refl;
  zero_high = refl;
}

abbrev servo : PiServo ℕ
servo = construct naturals tuned 48 100

abbrev calls : List (Call ℕ)
calls = update_call 101 1 1 ∷ update_call 102 0 1 ∷ []

-- Two updates of a second each near the target lock the servo.
locks : (run naturals calls servo).stage ≡ track
unfolding construct update smooth advance_stage advance_hold steer seed reset alpha compute_gains
locks = refl

run-IsBounded_example :
    IsBounded naturals tuned (run naturals calls (construct naturals tuned 48 100))
run-IsBounded_example = run-IsBounded naturals tuned tuned-IsOrdered 48 100 calls

update-Moves_example :
    Moves naturals
      (smooth naturals (101 + 1) 1 servo)
      1
      servo.stage
      (update naturals 101 1 1 servo).1.stage
      (update naturals 101 1 1 servo).1.hold_timer
update-Moves_example = update-Moves naturals 101 1 1 servo
