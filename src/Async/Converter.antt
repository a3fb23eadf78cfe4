-- ===== src/Async/Converter.antt =====
-- async/include/tap/sr/async/converter.h, `basic_converter`: a ring of samples between two threads, the
-- servo that reads its occupancy, and the resampler that reads its frames. Each call is whole.
pub mod Pull
pub mod Fifo
pub mod Inv
pub mod Push
pub mod Steps
pub mod Restart
pub mod Finish
pub mod Play
pub mod Raise
pub mod Whole
pub mod Enough
pub mod Construct
pub mod Heard
pub mod Session
pub mod Calls
mod Tests
use sample_rate_tap.Common.{
  ℕ, zero, suc, ◌+◌, ◌-◌, ◌*◌, ◌/◌, ◌%◌, ◌^◌, min, max, Bool, true, false, not, ◌||◌, ◌&&◌, Option,
  none, some, List, [], ◌∷◌, get_or, length, take, drop, ltb, leb, ◌==◌, if◌then◌else◌, add_w,
  mul_w, u32,
}
use sample_rate_tap.Async.Ring
use sample_rate_tap.Async.Ring.{SpscRing}
use sample_rate_tap.Async.Servo
use sample_rate_tap.Async.Servo.{Doubles, PiServo}
use sample_rate_tap.Async.Resampler
use sample_rate_tap.Async.Resampler.{Kernels, Frame, FilterBank, buffered_frames, construct_bank}
use sample_rate_tap.Async.Config.{
  Casts, Config, Reason, validate, fill_threshold, high_water, ring_capacity_elems,
}

pub data ConverterState : Type 0 where
  filling : ConverterState
  acquiring : ConverterState
  locked : ConverterState

pub record ConverterStatus (D : Type 0) : Type 0 where
  pub state : ConverterState
  pub ratio_estimate : D
  pub ppm : D
  pub fifo_fill_frames : D
  pub underruns : ℕ
  pub overruns : ℕ
  pub resyncs : ℕ
  pub effective_target_latency_frames : ℕ

-- The members; what other threads read of them is under `state` and the names below it.
pub record Converter (S C D F : Type 0) : Type 0 where
  pub cfg : Config D
  pub bank : FilterBank C
  pub resampler : Resampler.Resampler S
  pub ring : SpscRing S
  pub servo : PiServo D
  pub target_frames : ℕ
  pub fill_threshold_frames : ℕ
  pub high_water_frames : ℕ
  pub max_target_frames : ℕ
  pub observed_max_pull : ℕ
  pub is_filling : Bool
  pub fade_frames_left : ℕ
  pub state : ConverterState
  pub ppm : F
  pub fill : F
  pub effective_target : ℕ
  pub underruns : ℕ
  pub overruns : ℕ
  pub resyncs : ℕ

abbrev pub k_pop_chunk_frames : ℕ
k_pop_chunk_frames = 16

abbrev pub k_fade_frames : ℕ
k_fade_frames = 64

-- `n` interleaved frames of `ch` samples, as the resampler reads them. No channel from `ch` on is read.
unfoldable pub frames_of : {S : Type 0} → S → ℕ → ℕ → List S → List (Frame S)
frames_of silence ch zero xs = []
frames_of silence ch (suc n) xs =
    (λ c. get_or (take ch xs) c silence) ∷ frames_of silence ch n (drop ch xs)

-- The largest setpoint that a FIFO of `cap_frames` supports.
unfoldable pub max_target : ℕ → ℕ → ℕ → ℕ → ℕ
max_target bits target taps cap_frames = max target (
    min ((cap_frames - 1) / 3)
      (if ltb (add_w (2 ^ bits) taps 1) cap_frames then (cap_frames - taps - 1) / 2 else target))

-- The setpoint for pulls of so many frames: `std::clamp`.
unfoldable pub raised_target : ℕ → ℕ → ℕ → ℕ → ℕ
raised_target bits frames lo hi =
    let needed = add_w (2 ^ bits) frames (max (frames / 2) k_pop_chunk_frames) in
    if ltb needed lo then lo else if ltb hi needed then hi else needed

module _ {S C A B D F : Type 0} (bits : ℕ) (k : Kernels S C A B D) (d : Doubles D)
    (v : Casts D F) where
  -- `pop_fn`, on the ring.
  unfoldable pub pop : ℕ → ℕ → SpscRing S → SpscRing S × List (Frame S)
  pop ch max_frames r =
      let (xs, r') = Ring.read bits (mul_w (2 ^ bits) max_frames ch) r in
      (r', frames_of k.silence ch (length xs / ch) xs)

  -- The double behind `static_cast<double>(m_phase) * 0x1p-64`.
  abbrev pub mu : Converter S C D F → D
  mu c = d.times (v.of_size c.resampler.phase) v.two_to_minus_64

  -- The members that the constructor makes of the others, and its assignments.
  unfoldable pub members : S → Config D → FilterBank C → Resampler.Resampler S → Converter S C D F
  members zero_value cfg bank resampler =
      let target = cfg.target_latency_frames in
      let ring = Ring.construct bits zero_value (ring_capacity_elems bits cfg bank.taps) in
      record {
        cfg = cfg;
        bank = bank;
        resampler = resampler;
        ring = ring;
        servo = Servo.construct d cfg.servo cfg.sample_rate_hz (v.of_size target);
        target_frames = target;
        fill_threshold_frames = fill_threshold bits target bank.taps;
        high_water_frames = high_water bits target bank.taps;
        max_target_frames =
            max_target bits target bank.taps (Ring.capacity bits ring / cfg.channels);
        observed_max_pull = 0;
        is_filling = true;
        fade_frames_left = 0;
        state = filling;
        ppm = v.to_float d.nought;
        fill = v.to_float d.nought;
        effective_target = target % u32;
        underruns = 0;
        overruns = 0;
        resyncs = 0;
      }

  -- `none` is a rejection.
  unfoldable pub construct_with :
      S → Config D → FilterBank C → Resampler.Resampler S → Option (Converter S C D F)
  construct_with zero_value cfg bank resampler =
      let c = members zero_value cfg bank resampler in
      if leb (Ring.capacity bits c.ring / cfg.channels) c.high_water_frames then none else some c

  -- The members that reject by themselves.
  abbrev pub with_resampler :
      S → Config D → FilterBank C → Option (Resampler.Resampler S) → Option (Converter S C D F)
  with_resampler zero_value cfg bank none = none
  with_resampler zero_value cfg bank (some x) = construct_with zero_value cfg bank x

  abbrev pub with_bank : S → Config D → Option (FilterBank C) → Option (Converter S C D F)
  with_bank zero_value cfg none = none
  with_bank zero_value cfg (some bank) =
      with_resampler zero_value cfg bank
        (Resampler.construct k bank cfg.channels k_pop_chunk_frames)

  -- `validated`, on what `validate` says.
  abbrev pub if_validated : S → Config D → Option Reason → Option (Converter S C D F)
  if_validated zero_value cfg (some why) = none
  if_validated zero_value cfg none =
      with_bank zero_value cfg (construct_bank k d bits cfg.filter cfg.sample_rate_hz)

  unfoldable pub construct : S → Config D → Option (Converter S C D F)
  construct zero_value cfg = if_validated zero_value cfg (validate bits d v cfg)

  -- Producer thread.
  unfoldable pub push : List S → ℕ → Converter S C D F → ℕ × Converter S C D F
  push interleaved frames c =
      let (free, r) = Ring.write_available bits c.ring in
      let accept_frames = min frames (free / c.cfg.channels) in
      let (n, r') =
        Ring.write bits (take (mul_w (2 ^ bits) accept_frames c.cfg.channels) interleaved) r in
      (
        accept_frames,
        record c {
          ring = r';
          overruns = if ltb accept_frames frames then add_w u32 c.overruns 1 else c.overruns;
        },
      )

  -- `backlog_frames`, before it is made a double.
  unfoldable pub backlog_frames : Converter S C D F → ℕ × Converter S C D F
  backlog_frames c =
      let (n, r) = Ring.read_available bits c.ring in
      (
        add_w (2 ^ bits) (n / c.cfg.channels) (buffered_frames k c.bank c.resampler),
        record c { ring = r },
      )

  unfoldable pub publish_status : Converter S C D F → Converter S C D F
  publish_status c = record c {
    state =
        if c.is_filling
        then filling
        else if Servo.locked d c.servo.stage
        then locked
        else acquiring;
    ppm = v.to_float (d.times c.servo.eps_hat v.million);
    fill = v.to_float (Servo.smoothed_occupancy d c.servo);
  }

  unfoldable pub status : Converter S C D F → ConverterStatus D
  status c = record {
    state = c.state;
    ratio_estimate = d.plus d.one (d.times (v.of_float c.ppm) d.micro);
    ppm = v.of_float c.ppm;
    fifo_fill_frames = v.of_float c.fill;
    underruns = c.underruns;
    overruns = c.overruns;
    resyncs = c.resyncs;
    effective_target_latency_frames = c.effective_target;
  }

  unfoldable pub reset_from_consumer : Converter S C D F → Converter S C D F
  reset_from_consumer c =
      let (n, r) = Ring.read_available bits c.ring in
      let (m, r') = Ring.discard bits n r in
      publish_status (record c {
        ring = r';
        resampler = Resampler.reset k c.bank c.resampler;
        servo = Servo.reset d false c.servo;
        is_filling = true;
      })
