-- ===== src/Async/Converter/Construct.antt =====
-- What validation promises the constructor.
use native.Mathlib.Nat.{div-lt_iff_lt-mul, div-mul-le_self}
use sample_rate_tap.Common.{
  ℕ, ◌+◌, ◌-◌, ◌*◌, ◌/◌, ◌^◌, ◌≤◌, ◌<◌, ◌≡◌, refl, ap, arith, inl, inr, max, true, false, ◌||◌,
  ◌&&◌, none, some, [], replicate, length-replicate, ltb, leb, ◌==◌, Bool-cases, dec_le, add_w,
  add_w-eq, mul_w,
}
use sample_rate_tap.Async.Ring
use sample_rate_tap.Async.Ring.{bit_ceil}
use sample_rate_tap.Async.Ring.Mask.{pow_mono, bit_ceil_from_lem}
use sample_rate_tap.Async.Ring.Fifo.{construct-Represents}
use sample_rate_tap.Async.Servo.{Doubles}
use sample_rate_tap.Async.Resampler
use sample_rate_tap.Async.Resampler.{
  Kernels, FilterBank, FilterSpec, bank_rejects, build_table, construct_bank,
}
use sample_rate_tap.Async.Config.{
  Casts, Config, config_rejects, edges_reject, validate, high_water, fifo_frames_of,
  ring_capacity_elems,
}
use sample_rate_tap.Async.Converter.{
  Converter, k_pop_chunk_frames, max_target, frames_of, members, construct_with, construct,
}
use sample_rate_tap.Async.Converter.Inv.{Tracks}
use sample_rate_tap.Async.Converter.Steps.{marks}

module _ {D F : Type 0} (bits : ℕ) (d : Doubles D) (v : Casts D F) (cfg : Config D) where
  -- What a configuration without a rejection is.
  record Accepted : Type 0 where
    configured : config_rejects bits d v cfg ≡ false
    taps : 4 ≤ cfg.filter.taps_per_phase
    phases : 2 ≤ bit_ceil bits cfg.filter.num_phases
    images : (cfg.filter.image_zeros && ltb cfg.filter.taps_per_phase 8) ≡ false
    edges : edges_reject bits d v cfg.filter cfg.sample_rate_hz ≡ false
    holds :
        high_water bits cfg.target_latency_frames cfg.filter.taps_per_phase
        < ring_capacity_elems bits cfg cfg.filter.taps_per_phase / cfg.channels

  accepted_lem : validate bits d v cfg ≡ none → Accepted
  unfolding validate
  accepted_lem e = record {
    configured = ground arith;
    taps = ground arith;
    phases = ground arith;
    images = ground arith;
    edges = ground arith;
    holds = ground arith;
  }

  accepted_channels : Accepted → 0 < cfg.channels
  unfolding config_rejects
  accepted_channels a = let c = a.configured in ground arith

  accepted_target : Accepted → 0 < cfg.target_latency_frames
  unfolding config_rejects
  accepted_target a = let c = a.configured in ground arith

  bank_accepts :
      Accepted
      → bank_rejects d cfg.filter (bit_ceil bits cfg.filter.num_phases) cfg.sample_rate_hz ≡ false
  unfolding bank_rejects config_rejects edges_reject
  bank_accepts a =
      let t = a.taps in
      let p = a.phases in
      let c = a.configured in let i = a.images in let e = a.edges in ground arith

div_mono : (a b ch : ℕ) → 0 < ch → a ≤ b → a / ch ≤ b / ch
div_mono a b ch pos le = elim (dec_le (a / ch) (b / ch)) [
  | yes within ↦ within
  | no over ↦
      let past : b < a / ch * ch = (div-lt_iff_lt-mul pos).0 (omega arith) in
      absurd (omega (arith, div-mul-le_self a ch))
]

bit_ceil-le : (bits m n : ℕ) → m ≤ bits → n ≤ 2 ^ m → bit_ceil bits n ≤ 2 ^ m
bit_ceil-le bits m n le small =
    let whole : 0 + bits ≡ bits = omega arith in
    let (j, low, high, eq, fits, first) =
      bit_ceil_from_lem bits 0 n (rw whole (omega (arith, pow_mono m bits le))) in
    elim (dec_le j m) [
      | yes within ↦ rw eq (pow_mono j m within)
      | no past ↦ absurd (omega (arith, first m (omega arith) (omega arith)))
    ]

log-le : (bits log asked : ℕ) → log < bits → asked ≤ 2 ^ 51 → 2 ^ log < 2 * max asked 2 → log ≤ 52
log-le bits log asked fits small less = elim (dec_le log 52) [
  | yes within ↦ within
  | no past ↦ absurd (omega (arith, pow_mono 52 log (omega arith)))
]

-- The largest setpoint keeps both marks below the capacity.
max_target_lem :
    (bits target taps cap : ℕ)
    → target + taps < 2 ^ bits - 1
    → 3 * target < cap
    → 2 * target + taps < cap
    → (target ≤ max_target bits target taps cap)
      × (3 * max_target bits target taps cap < cap)
      × (2 * max_target bits target taps cap + taps < cap)
unfolding max_target
max_target_lem bits target taps frames small thrice twice =
    let e : add_w (2 ^ bits) taps 1 ≡ taps + 1 = add_w-eq (2 ^ bits) taps 1 (omega arith) in
    rw e (elim (Bool-cases (ltb (taps + 1) frames)) [
      | inl room ↦ rw room (omega arith, omega arith, omega arith)
      | inr tight ↦ rw tight (omega arith, omega arith, omega arith)
    ])

module _ {S C A B D F : Type 0} (bits : ℕ) (k : Kernels S C A B D) (d : Doubles D) (v : Casts D F)
    (cfg : Config D) where
  -- The FIFO's size in samples before it is rounded up.
  abbrev pub requested : ℕ
  requested =
      mul_w (2 ^ bits)
        (fifo_frames_of bits cfg.fifo_frames cfg.target_latency_frames cfg.filter.taps_per_phase)
        cfg.channels

  asked-le :
      (m : ℕ)
      → m ≤ bits
      → requested ≤ 2 ^ m
      → ring_capacity_elems bits cfg cfg.filter.taps_per_phase ≤ 2 ^ m
  unfolding ring_capacity_elems
  asked-le m le small = bit_ceil-le bits m (requested) le small

  -- A converter just built.
  pub record Built (zero_value : S) : Type 0 where
    pub converter : Converter S C D F
    pub log : ℕ
    pub built : construct bits k d v zero_value cfg ≡ some converter
    pub tracks : Tracks bits log k [] [] converter
    pub fills : converter.is_filling ≡ true

  -- For a std::size_t of at least 32 bits, when validate names no reason, and while 16 times the
  -- channels and 4 times the sum of setpoint and taps do not wrap and the ring's size is at most
  -- 2^51 and half the range of std::size_t: the constructor rejects nothing, and the converter
  -- that it builds is filling and in a state that Tracks describes, with an empty ring.
  pub construct-Built :
      (zero_value : S)
      → 32 ≤ bits
      → k_pop_chunk_frames * cfg.channels < 2 ^ bits
      → 4 * (cfg.target_latency_frames + cfg.filter.taps_per_phase) < 2 ^ bits
      → requested ≤ 2 ^ 51
      → requested ≤ 2 ^ (bits - 1)
      → validate bits d v cfg ≡ none
      → Built zero_value
  unfolding construct construct_with members frames_of construct_bank Resampler.construct
      Resampler.reset
  construct-Built zero_value word few sizes exact half ok =
      let a = accepted_lem bits d v cfg ok in
      let target = cfg.target_latency_frames in
      let taps = cfg.filter.taps_per_phase in
      let asked = ring_capacity_elems bits cfg taps in
      let ring = Ring.construct bits zero_value asked in
      let ask_half : asked ≤ 2 ^ (bits - 1) = asked-le (bits - 1) (omega arith) half in
      let (log, holds, size, enough, not_twice) =
        construct-Represents bits asked zero_value (omega arith) ask_half in
      let exact_log : log ≤ 52 = elim (dec_le bits 52) [
        | yes narrow ↦ let fits = holds.fits in omega arith
        | no wide ↦ log-le bits log asked holds.fits (asked-le 51 (omega arith) exact) not_twice
      ] in
      let channels : 0 < cfg.channels = accepted_channels bits d v cfg a in
      let frames : asked / cfg.channels ≤ 2 ^ log / cfg.channels =
        div_mono asked (2 ^ log) cfg.channels channels enough in
      let m = marks bits target taps (omega arith) (omega arith) in
      let high = a.holds in
      let cap : Ring.capacity bits ring / cfg.channels ≡ 2 ^ log / cfg.channels =
        ap (λ n. n / cfg.channels) size in
      let capacity = Ring.capacity bits ring / cfg.channels in
      let x =
        max_target_lem bits target taps capacity (omega arith) (omega (arith, m.1, cap))
          (omega (arith, m.1, cap)) in
      let banked = bank_accepts bits d v cfg a in
      let planar : ((cfg.channels == 0) || (k_pop_chunk_frames == 0)) ≡ false = ground arith in
      let room : leb capacity (high_water bits target taps) ≡ false = ground arith in
      let phases = bit_ceil bits cfg.filter.num_phases in
      let bank : FilterBank C = record {
        phases = phases;
        taps = taps;
        table = build_table k (k.design cfg.filter cfg.sample_rate_hz phases taps) phases taps;
      } in
      let lines : Resampler.Resampler S = record {
        channels = cfg.channels;
        chunk = k_pop_chunk_frames;
        hist_cap = taps + k_pop_chunk_frames;
        hist = λ c. replicate (taps + k_pop_chunk_frames) k.silence;
        end = 0;
        scratch = [];
        phase = 0;
        primed = false;
      } in
      let c = members bits k d v zero_value cfg bank lines in
      record {
        converter = c;
        log = log;
        built = rw (ok, banked, planar, room) refl;
        tracks = record {
          word = word;
          exact = exact_log;
          some_channels = channels;
          few_channels = few;
          some_taps = omega (arith, a.taps);
          holding = record {
            samples = [];
            frames = 0;
            whole = omega arith;
            contents = refl;
            ring = holds;
          };
          setpoint = record {
            some_target = accepted_target bits d v cfg a;
            within = x.0;
            fills_at = m.0;
            mark = m.1;
            thrice = omega (arith, x.1, cap);
            twice = omega (arith, x.2, cap);
          };
          lowest = omega arith;
          fits = record { planar = refl; asks = refl; capacity = refl; staged = omega arith };
          sized = λ i. length-replicate (taps + k_pop_chunk_frames) k.silence;
          phase = omega arith;
          unstaged = λ fills. refl;
          running = λ no. absurd (let e : true ≡ false = no in cc);
          fading = omega arith;
        };
        fills = refl;
      }
