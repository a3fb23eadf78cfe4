-- ===== src/Async/Servo/Stages.antt =====
-- The lock stages as a state machine.
use sample_rate_tap.Common.{◌≡◌, refl, true, false, Bool-cases, inl, inr}
use sample_rate_tap.Async.Servo.{
  Doubles, PiServo, LockStage, acquire, track, quiet, advance_hold, smooth, switch_stage,
  advance_stage, steer, update,
}

module _ {D : Type 0} (d : Doubles D) where
  abbrev e_fast : PiServo D → D
  e_fast y = d.abs (d.minus y.lp_fast y.target)

  abbrev e_quiet : PiServo D → D
  e_quiet y = d.abs (d.minus y.q3 y.target)

  -- The move that one update makes, by what the smoothed state `y` shows: the stage before, the stage
  -- and the hold timer after. No two of the cases hold at once.
  pub data Moves (y : PiServo D) (dt : D) : LockStage → LockStage → D → Type 0 where
    seek : d.le y.cfg.lock_threshold_frames (e_fast y) ≡ true → Moves y dt acquire acquire d.nought
    hold_near :
        d.le y.cfg.lock_threshold_frames (e_fast y) ≡ false
        → d.lt (d.plus y.hold_timer dt) y.cfg.lock_hold_seconds ≡ true
        → Moves y dt acquire acquire (d.plus y.hold_timer dt)
    lock :
        d.le y.cfg.lock_threshold_frames (e_fast y) ≡ false
        → d.lt (d.plus y.hold_timer dt) y.cfg.lock_hold_seconds ≡ false
        → Moves y dt acquire track d.nought
    unlock :
        d.lt y.cfg.unlock_threshold_frames (e_fast y) ≡ true → Moves y dt track acquire d.nought
    stay_locked :
        d.lt y.cfg.unlock_threshold_frames (e_fast y) ≡ false
        → d.le y.cfg.lock_threshold_frames (e_quiet y) ≡ true
        → Moves y dt track track d.nought
    hold_quiet :
        d.lt y.cfg.unlock_threshold_frames (e_fast y) ≡ false
        → d.le y.cfg.lock_threshold_frames (e_quiet y) ≡ false
        → d.lt (d.plus y.hold_timer dt) y.cfg.quiet_hold_seconds ≡ true
        → Moves y dt track track (d.plus y.hold_timer dt)
    settle :
        d.lt y.cfg.unlock_threshold_frames (e_fast y) ≡ false
        → d.le y.cfg.lock_threshold_frames (e_quiet y) ≡ false
        → d.lt (d.plus y.hold_timer dt) y.cfg.quiet_hold_seconds ≡ false
        → Moves y dt track quiet d.nought
    loosen : d.lt y.cfg.unlock_threshold_frames (e_quiet y) ≡ true → Moves y dt quiet track d.nought
    stay_quiet :
        d.lt y.cfg.unlock_threshold_frames (e_quiet y) ≡ false → Moves y dt quiet quiet y.hold_timer

  -- By the two tests of a hold.
  switch-Moves :
      (s : LockStage) (dt : D) (y : PiServo D)
      → y.stage ≡ s
      → let z = switch_stage d s (d.minus y.lp_fast y.target) (d.minus y.q3 y.target) dt y in
        Moves y dt s z.stage z.hold_timer
  unfolding advance_hold
  switch-Moves acquire dt y at = elim (Bool-cases (d.le y.cfg.lock_threshold_frames (e_fast y))) [
    | inl out ↦ rw (out, at) (seek out)
    | inr inside ↦ elim (Bool-cases (d.lt (d.plus y.hold_timer dt) y.cfg.lock_hold_seconds)) [
      | inl short ↦ rw (inside, short, at) (hold_near inside short)
      | inr over ↦ rw (inside, over) (lock inside over)
    ]
  ]
  switch-Moves track dt y at = elim (Bool-cases (d.lt y.cfg.unlock_threshold_frames (e_fast y))) [
    | inl lost ↦ rw lost (unlock lost)
    | inr near ↦ elim (Bool-cases (d.le y.cfg.lock_threshold_frames (e_quiet y))) [
      | inl out ↦ rw (near, out, at) (stay_locked near out)
      | inr inside ↦ elim (Bool-cases (d.lt (d.plus y.hold_timer dt) y.cfg.quiet_hold_seconds)) [
        | inl short ↦ rw (near, inside, short, at) (hold_quiet near inside short)
        | inr over ↦ rw (near, inside, over) (settle near inside over)
      ]
    ]
  ]
  switch-Moves quiet dt y at = elim (Bool-cases (d.lt y.cfg.unlock_threshold_frames (e_quiet y))) [
    | inl lost ↦ rw lost (loosen lost)
    | inr near ↦ rw (near, at) (stay_quiet near)
  ]

  -- An update moves the lock stage as the smoothed errors and the hold timer say, each case stating when
  -- it applies: acquire is left for track, and track for quiet, exactly when the error is below the lock
  -- threshold and the timer has run to the end of the hold; track is left for acquire and quiet for track
  -- exactly when the error is above the unlock threshold, which track tests first; otherwise the stage
  -- stays, with the timer longer by dt inside the threshold and at 0 outside, and in quiet as it was. A
  -- move puts the timer at 0.
  pub update-Moves :
      (occ mu dt : D) (x : PiServo D)
      → let z = (update d occ mu dt x).1 in
        Moves (smooth d (d.plus occ mu) dt x) dt x.stage z.stage z.hold_timer
  unfolding update advance_stage steer smooth
  update-Moves occ mu dt x = switch-Moves x.stage dt (smooth d (d.plus occ mu) dt x) refl
