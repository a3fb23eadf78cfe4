-- ===== src/Async/Servo/Bounds.antt =====
-- The deviation estimate stays within its clamp, whatever is called.
use sample_rate_tap.Common.{◌≡◌, refl, ◌∙◌, Bool, true, false, List, [], ◌∷◌, Bool-cases, inl, inr}
use sample_rate_tap.Async.Servo.{
  Doubles, ServoConfig, PiServo, LockStage, acquire, track, quiet, clamp, seed, set_target, reset,
  construct, advance_hold, smooth, promote, switch_stage, advance_stage, steer, update,
}

-- A call of the servo's interface that changes it.
pub data Call (D : Type 0) : Type 0 where
  reset_call : Bool → Call D
  seed_call : D → Call D
  set_target_call : D → Call D
  update_call : D → D → D → Call D

module _ {D : Type 0} (d : Doubles D) where
  abbrev pub call : Call D → PiServo D → PiServo D
  call (reset_call keep) x = reset d keep x
  call (seed_call occ) x = seed d occ x
  call (set_target_call frames) x = set_target d frames x
  call (update_call occ mu dt) x = (update d occ mu dt x).1

  abbrev pub run : List (Call D) → PiServo D → PiServo D
  run [] x = x
  run (c ∷ cs) x = run cs (call c x)

  abbrev pub limit : ServoConfig D → D
  limit cfg = d.times (d.times d.one_and_half cfg.max_deviation_ppm) d.micro

  -- `<` as IEEE 754 has it on the clamp's bounds: irreflexive, and 0 between them.
  pub record IsOrdered (cfg : ServoConfig D) : Type 0 where
    pub irreflexive : (v : D) → d.lt v v ≡ false
    pub apart : d.lt (limit cfg) (d.negate (limit cfg)) ≡ false
    pub zero_low : d.lt d.nought (d.negate (limit cfg)) ≡ false
    pub zero_high : d.lt (limit cfg) d.nought ≡ false

  -- Neither below the clamp nor above it.
  pub record IsWithin (cfg : ServoConfig D) (v : D) : Type 0 where
    pub low : d.lt v (d.negate (limit cfg)) ≡ false
    pub high : d.lt (limit cfg) v ≡ false

  pub record IsBounded (cfg : ServoConfig D) (x : PiServo D) : Type 0 where
    pub same : x.cfg ≡ cfg
    pub integ : IsWithin cfg x.integ
    pub eps_hat : IsWithin cfg x.eps_hat

  module _ (cfg : ServoConfig D) (o : IsOrdered cfg) where
    clamp-IsWithin : (v : D) → IsWithin cfg (clamp d v (d.negate (limit cfg)) (limit cfg))
    clamp-IsWithin v = elim (Bool-cases (d.lt v (d.negate (limit cfg)))) [
      | inl below ↦ rw below (record { low = o.irreflexive _; high = o.apart })
      | inr at_least ↦ rw at_least (elim (Bool-cases (d.lt (limit cfg) v)) [
        | inl above ↦ rw above (record { low = o.apart; high = o.irreflexive _ })
        | inr at_most ↦ rw at_most (record { low = at_least; high = at_most })
      ])
    ]

    nought-IsWithin : IsWithin cfg d.nought
    nought-IsWithin = record { low = o.zero_low; high = o.zero_high }

    reset-IsBounded :
        (keep : Bool) (x : PiServo D) → IsBounded cfg x → IsBounded cfg (reset d keep x)
    unfolding reset seed
    reset-IsBounded true x h = record { same = h.same; integ = h.integ; eps_hat = h.integ }
    reset-IsBounded false x h = record {
      same = h.same;
      integ = nought-IsWithin;
      eps_hat = nought-IsWithin;
    }

    steer-IsBounded : (dt : D) (x : PiServo D) → x.cfg ≡ cfg → IsBounded cfg (steer d dt x)
    unfolding steer
    steer-IsBounded dt x e = record {
      same = e;
      integ = rw e (clamp-IsWithin _);
      eps_hat = rw e (clamp-IsWithin _);
    }

    hold-cfg :
        (e threshold hold dt : D) (x : PiServo D)
        → (advance_hold d e threshold hold dt x).1.cfg ≡ x.cfg
    unfolding advance_hold
    hold-cfg e threshold hold dt x = elim (Bool-cases (d.le threshold (d.abs e))) [
      | inl out ↦ rw out refl
      | inr inside ↦ rw inside (elim (Bool-cases (d.lt (d.plus x.hold_timer dt) hold)) [
        | inl short ↦ rw short refl
        | inr over ↦ rw over refl
      ])
    ]

    promote-cfg : (next : LockStage) (r : Bool × PiServo D) → (promote d next r).cfg ≡ r.1.cfg
    promote-cfg next (true, x) = refl
    promote-cfg next (false, x) = refl

    switch-cfg :
        (s : LockStage) (e_fast e_quiet dt : D) (x : PiServo D)
        → (switch_stage d s e_fast e_quiet dt x).cfg ≡ x.cfg
    switch-cfg acquire e_fast e_quiet dt x = promote-cfg track _ ∙ hold-cfg e_fast _ _ dt x
    switch-cfg track e_fast e_quiet dt x =
        elim (Bool-cases (d.lt x.cfg.unlock_threshold_frames (d.abs e_fast))) [
          | inl lost ↦ rw lost refl
          | inr held ↦ rw held (promote-cfg quiet _ ∙ hold-cfg e_quiet _ _ dt x)
        ]
    switch-cfg quiet e_fast e_quiet dt x =
        elim (Bool-cases (d.lt x.cfg.unlock_threshold_frames (d.abs e_quiet))) [
          | inl lost ↦ rw lost refl
          | inr held ↦ rw held refl
        ]

    update-IsBounded :
        (occ mu dt : D) (x : PiServo D) → x.cfg ≡ cfg → IsBounded cfg (update d occ mu dt x).1
    unfolding update advance_stage smooth
    update-IsBounded occ mu dt x e = steer-IsBounded dt _ (switch-cfg _ _ _ dt _ ∙ e)

    call-IsBounded : (c : Call D) (x : PiServo D) → IsBounded cfg x → IsBounded cfg (call c x)
    unfolding seed set_target
    call-IsBounded (reset_call keep) x h = reset-IsBounded keep x h
    call-IsBounded (seed_call occ) x h = record {
      same = h.same;
      integ = h.integ;
      eps_hat = h.eps_hat;
    }
    call-IsBounded (set_target_call frames) x h = record {
      same = h.same;
      integ = h.integ;
      eps_hat = h.eps_hat;
    }
    call-IsBounded (update_call occ mu dt) x h = update-IsBounded occ mu dt x h.same

    runs : (cs : List (Call D)) (x : PiServo D) → IsBounded cfg x → IsBounded cfg (run cs x)
    runs [] x h = h
    runs (c ∷ cs) x h = runs cs (call c x) (call-IsBounded c x h)

    -- With `<` irreflexive and 0 between the clamp's bounds: after the constructor and any sequence of
    -- calls of reset, seed, set_target and update, neither the integrator nor the deviation estimate is
    -- below minus 1.5 times the configured deviation or above it.
    pub run-IsBounded :
        (fs target : D) (cs : List (Call D)) → IsBounded cfg (run cs (construct d cfg fs target))
    unfolding construct reset seed
    run-IsBounded fs target cs =
        runs cs _ (record { same = refl; integ = nought-IsWithin; eps_hat = nought-IsWithin })
