-- ===== src/Async/Servo.antt =====
-- async/include/tap/sr/async/pi_servo.h, `servo_config` and `pi_servo`, over the numbers of C++'s
-- `double`.
pub mod Bounds
pub mod Stages
mod Tests
use sample_rate_tap.Common.{ℕ, Bool, true, false, not, List, [], ◌∷◌, if◌then◌else◌}

-- All that the code does with a `double`; `lt` and `le` are `<` and `<=`.
pub record Doubles (D : Type 0) : Type 0 where
  pub nought : D
  pub one : D
  pub one_and_half : D
  pub two : D
  pub five : D
  pub micro : D  -- 1e-6
  pub pi : D
  pub design_rate : D  -- 48000.0
  pub plus : D → D → D
  pub minus : D → D → D
  pub times : D → D → D
  pub over : D → D → D
  pub negate : D → D
  pub exp : D → D
  pub abs : D → D
  pub lt : D → D → Bool
  pub le : D → D → Bool
  pub equal : D → D → Bool

pub record ServoConfig (D : Type 0) : Type 0 where
  pub acquire_bandwidth_hz : D
  pub track_bandwidth_hz : D
  pub quiet_bandwidth_hz : D
  pub damping : D
  pub acquire_smoother_hz : D
  pub track_smoother_hz : D
  pub quiet_smoother_hz : D
  pub lock_threshold_frames : D
  pub lock_hold_seconds : D
  pub quiet_hold_seconds : D
  pub unlock_threshold_frames : D
  pub max_deviation_ppm : D

pub data LockStage : Type 0 where
  acquire : LockStage
  track : LockStage
  quiet : LockStage

pub record PiServo (D : Type 0) : Type 0 where
  pub cfg : ServoConfig D
  pub fs : D
  pub target : D
  pub kp_acquire : D
  pub ki_acquire : D
  pub kp_track : D
  pub ki_track : D
  pub kp_quiet : D
  pub ki_quiet : D
  pub lp_fast : D
  pub q1 : D
  pub q2 : D
  pub q3 : D
  pub integ : D
  pub eps_hat : D
  pub eps_avg : D
  pub hold_timer : D
  pub stage : LockStage

module _ {D : Type 0} (d : Doubles D) where
  unfoldable pub scaled_to : D → ServoConfig D → ServoConfig D
  scaled_to sample_rate_hz s =
      let r = d.over sample_rate_hz d.design_rate in
      record s {
        acquire_bandwidth_hz = d.times s.acquire_bandwidth_hz r;
        track_bandwidth_hz = d.times s.track_bandwidth_hz r;
        quiet_bandwidth_hz = d.times s.quiet_bandwidth_hz r;
        acquire_smoother_hz = d.times s.acquire_smoother_hz r;
        track_smoother_hz = d.times s.track_smoother_hz r;
        quiet_smoother_hz = d.times s.quiet_smoother_hz r;
        lock_hold_seconds = d.over s.lock_hold_seconds r;
        quiet_hold_seconds = d.over s.quiet_hold_seconds r;
      }

  -- `std::clamp`.
  abbrev pub clamp : D → D → D → D
  clamp v lo hi = if d.lt v lo then lo else if d.lt hi v then hi else v

  unfoldable pub alpha : D → D → D
  alpha corner_hz dt =
      d.minus d.one (d.exp (d.times (d.times (d.times (d.negate d.two) d.pi) corner_hz) dt))

  unfoldable pub seed : D → PiServo D → PiServo D
  seed occ_plus_mu x = record x {
    lp_fast = occ_plus_mu;
    q1 = occ_plus_mu;
    q2 = occ_plus_mu;
    q3 = occ_plus_mu;
  }

  unfoldable pub set_target : D → PiServo D → PiServo D
  set_target target_frames x = record x { target = target_frames }

  unfoldable pub reset : Bool → PiServo D → PiServo D
  reset keep_integrator x =
      let integ = if keep_integrator then x.integ else d.nought in
      record (seed x.target (record x { integ = integ; eps_hat = integ })) {
        stage = acquire;
        hold_timer = d.nought;
      }

  -- `kp` and `ki` of a bandwidth.
  unfoldable pub compute_gains : ServoConfig D → D → D → D × D
  compute_gains cfg fs bandwidth_hz =
      let wn = d.times (d.times d.two d.pi) bandwidth_hz in
      (d.over (d.times (d.times d.two cfg.damping) wn) fs, d.over (d.times wn wn) fs)

  unfoldable pub construct : ServoConfig D → D → D → PiServo D
  construct cfg sample_rate_hz target_frames =
      let a = compute_gains cfg sample_rate_hz cfg.acquire_bandwidth_hz in
      let t = compute_gains cfg sample_rate_hz cfg.track_bandwidth_hz in
      let q = compute_gains cfg sample_rate_hz cfg.quiet_bandwidth_hz in
      reset false (record {
        cfg = cfg;
        fs = sample_rate_hz;
        target = target_frames;
        kp_acquire = a.0;
        ki_acquire = a.1;
        kp_track = t.0;
        ki_track = t.1;
        kp_quiet = q.0;
        ki_quiet = q.1;
        lp_fast = d.nought;
        q1 = d.nought;
        q2 = d.nought;
        q3 = d.nought;
        integ = d.nought;
        eps_hat = d.nought;
        eps_avg = d.nought;
        hold_timer = d.nought;
        stage = acquire;
      })

  -- The average that is taken while the error stays small.
  abbrev pub next_avg : D → D → PiServo D → D
  next_avg hold_seconds dt x =
      if d.equal x.hold_timer d.nought
      then x.eps_hat
      else d.plus x.eps_avg (
          d.times (d.minus d.one (d.exp (d.over (d.times (d.negate d.five) dt) hold_seconds)))
            (d.minus x.eps_hat x.eps_avg))

  unfoldable pub advance_hold : D → D → D → D → PiServo D → Bool × PiServo D
  advance_hold e threshold hold_seconds dt x =
      let timer = d.plus x.hold_timer dt in
      let v = record x { eps_avg = next_avg hold_seconds dt x } in
      if d.le threshold (d.abs e)
      then (false, record x { hold_timer = d.nought })
      else if d.lt timer hold_seconds
      then (false, record v { hold_timer = timer })
      else (true, record v { hold_timer = d.nought })

  -- `m_x += a * (v - m_x)`.
  abbrev pub smoothed : D → D → D → D
  smoothed a v x = d.plus x (d.times a (d.minus v x))

  -- The first part of `update`: the smoothers.
  unfoldable pub smooth : D → D → PiServo D → PiServo D
  smooth meas dt x =
      let fast_hz : D = elim x.stage [
        | acquire ↦ x.cfg.acquire_smoother_hz
        | track ↦ x.cfg.track_smoother_hz
        | quiet ↦ x.cfg.track_smoother_hz
      ] in
      let aq = alpha x.cfg.quiet_smoother_hz dt in
      let q1 = smoothed aq meas x.q1 in
      let q2 = smoothed aq q1 x.q2 in
      record x {
        lp_fast = smoothed (alpha fast_hz dt) meas x.lp_fast;
        q1 = q1;
        q2 = q2;
        q3 = smoothed aq q2 x.q3;
      }

  abbrev pub limit_of : PiServo D → D
  limit_of x = d.times (d.times d.one_and_half x.cfg.max_deviation_ppm) d.micro

  abbrev pub clamp_limit : PiServo D → D → D
  clamp_limit x v = clamp v (d.negate (limit_of x)) (limit_of x)

  -- A promotion to `next` when the hold is over.
  abbrev pub promote : LockStage → Bool × PiServo D → PiServo D
  promote next r =
      if r.0 then record (r.1) { stage = next; integ = clamp_limit (r.1) (r.1.eps_avg) } else r.1

  abbrev pub demote : LockStage → PiServo D → PiServo D
  demote next x = record x { stage = next; hold_timer = d.nought }

  -- The second part, the stages: the `switch`, on the two errors.
  abbrev pub switch_stage : LockStage → D → D → D → PiServo D → PiServo D
  switch_stage acquire e_fast e_quiet dt x =
      promote track (advance_hold e_fast x.cfg.lock_threshold_frames x.cfg.lock_hold_seconds dt x)
  switch_stage track e_fast e_quiet dt x =
      if d.lt x.cfg.unlock_threshold_frames (d.abs e_fast)
      then demote acquire x
      else promote quiet
          (advance_hold e_quiet x.cfg.lock_threshold_frames x.cfg.quiet_hold_seconds dt x)
  switch_stage quiet e_fast e_quiet dt x =
      if d.lt x.cfg.unlock_threshold_frames (d.abs e_quiet) then demote track x else x

  unfoldable pub advance_stage : D → PiServo D → PiServo D
  advance_stage dt x =
      switch_stage x.stage (d.minus x.lp_fast x.target) (d.minus x.q3 x.target) dt x

  -- `kp`, `ki` and `e` of the third part.
  abbrev pub gains_of : PiServo D → D × D × D
  gains_of x =
      let e_fast = d.minus x.lp_fast x.target in
      let e_quiet = d.minus x.q3 x.target in
      elim x.stage [
        | acquire ↦ (x.kp_acquire, x.ki_acquire, e_fast)
        | track ↦ (x.kp_track, x.ki_track, e_fast)
        | quiet ↦ (x.kp_quiet, x.ki_quiet, e_quiet)
      ]

  unfoldable pub steer : D → PiServo D → PiServo D
  steer dt x =
      let (kp, ki, e) = gains_of x in
      let integ = clamp_limit x (d.plus x.integ (d.times (d.times ki e) dt)) in
      record x { integ = integ; eps_hat = clamp_limit x (d.plus (d.times kp e) integ) }

  unfoldable pub update : D → D → D → PiServo D → D × PiServo D
  update occ_frames mu dt x =
      let y = steer dt (advance_stage dt (smooth (d.plus occ_frames mu) dt x)) in (y.eps_hat, y)

  abbrev pub smoothed_occupancy : PiServo D → D
  smoothed_occupancy x = elim x.stage [ acquire ↦ x.lp_fast | track ↦ x.lp_fast | quiet ↦ x.q3 ]

  unfoldable pub error : PiServo D → D
  error x = d.minus (smoothed_occupancy x) x.target

  abbrev pub locked : LockStage → Bool
  locked acquire = false
  locked track = true
  locked quiet = true
