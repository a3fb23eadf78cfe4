-- ===== src/Async/Resampler.antt =====
-- async/include/tap/sr/async/polyphase_filter.h: the filter bank and `fractional_resampler` with planar
-- histories, one line for each channel.
pub mod Read
pub mod Process
pub mod Prime
pub mod Simulate
mod Tests
use sample_rate_tap.Common.{
  ℕ, zero, suc, ◌+◌, ◌-◌, ◌*◌, ◌/◌, ◌%◌, ◌^◌, Bool, true, false, not, ◌&&◌, ◌||◌, Option, none,
  some, List, [], ◌∷◌, ◌++◌, map, length, take, drop, get_or, replicate, range_from, window_of,
  slide, store_frame, ltb, leb, ◌==◌, if◌then◌else◌, u64,
}
use sample_rate_tap.Async.Ring.{bit_ceil}
use sample_rate_tap.Async.Servo.{Doubles}

pub record FilterSpec (D : Type 0) : Type 0 where
  pub num_phases : ℕ
  pub taps_per_phase : ℕ
  pub passband_hz : D
  pub stopband_hz : D
  pub stopband_atten_db : D
  pub image_zeros : Bool

-- What tap::dsp and sample_traits give for a sample type `S` with coefficients `C`, accumulator `A` and
-- blend factors `B`, and the prototype that tap::dsp designs in numbers `D`.
pub record Kernels (S C A B D : Type 0) : Type 0 where
  pub silence : S
  pub nil_coeff : C  -- `coeff{0}`
  pub accum : A
  pub blend : C → C → B → C
  pub blend_factor_from_q64 : ℕ → B
  pub mac : A → S → C → A
  pub finalize : A → S
  pub dot_row : List C → List S → S
  pub nothing : D  -- `0.0`
  pub design : FilterSpec D → D → ℕ → ℕ → List D
  pub quantize_row : List D → List C
  pub prefer_dot_row : Bool

abbrev pub Frame : Type 0 → Type 0
Frame S = ℕ → S

pub record FilterBank (C : Type 0) : Type 0 where
  pub phases : ℕ
  pub taps : ℕ
  pub table : List (List C)

module _ {D : Type 0} (d : Doubles D) where
  unfoldable pub scaled_to : D → FilterSpec D → FilterSpec D
  scaled_to sample_rate_hz s = record s {
    passband_hz = d.times s.passband_hz (d.over sample_rate_hz d.design_rate);
    stopband_hz = d.times s.stopband_hz (d.over sample_rate_hz d.design_rate);
  }

  -- The constructor's three rejections.
  unfoldable pub bank_rejects : FilterSpec D → ℕ → D → Bool
  bank_rejects spec phases sample_rate_hz =
      d.le sample_rate_hz d.nought
      || ltb spec.taps_per_phase 4
      || ltb phases 2
      || (spec.image_zeros && ltb spec.taps_per_phase 8)
      || d.le spec.passband_hz d.nought
      || d.le spec.stopband_hz spec.passband_hz
      || d.lt sample_rate_hz spec.stopband_hz

module _ {S C A B D : Type 0} (k : Kernels S C A B D) where
  -- Branch `p` of the prototype, the newest tap last.
  abbrev pub branch_row : List D → ℕ → ℕ → ℕ → List C
  branch_row proto phases taps p =
      k.quantize_row
        (map (λ u. get_or proto ((taps - 1 - u) * phases + p) k.nothing) (range_from 0 taps))

  -- The row behind the last: row 0 an input sample on.
  abbrev pub extra_row : ℕ → List C → List C
  extra_row taps row = k.nil_coeff ∷ take (taps - 1) row

  unfoldable pub build_table : List D → ℕ → ℕ → List (List C)
  build_table proto phases taps =
      map (branch_row proto phases taps) (range_from 0 phases)
      ++ extra_row taps (branch_row proto phases taps 0) ∷ []

  -- `std::size_t` has `bits` bits; `none` is a rejected specification.
  unfoldable pub construct_bank : Doubles D → ℕ → FilterSpec D → D → Option (FilterBank C)
  construct_bank d bits spec sample_rate_hz =
      let phases = bit_ceil bits spec.num_phases in
      let taps = spec.taps_per_phase in
      if bank_rejects d spec phases sample_rate_hz
      then none
      else some (record {
        phases = phases;
        taps = taps;
        table = build_table (k.design spec sample_rate_hz phases taps) phases taps;
      })

  abbrev pub phase_row : FilterBank C → ℕ → List C
  phase_row bank p = get_or bank.table p []

  -- `std::countr_zero`; the first argument is fuel.
  abbrev pub countr_zero : ℕ → ℕ → ℕ
  countr_zero zero n = 0
  countr_zero (suc fuel) n =
      let rest = countr_zero fuel (n / 2) in if n % 2 == 0 then suc rest else 0

  abbrev pub blend_rows : List C → List C → B → List C
  blend_rows [] ys fr = []
  blend_rows (x ∷ xs) [] fr = []
  blend_rows (x ∷ xs) (y ∷ ys) fr = k.blend x y fr ∷ blend_rows xs ys fr

  unfoldable pub blend_row_phase : FilterBank C → ℕ → List C
  blend_row_phase bank phase =
      let lg = countr_zero 64 bank.phases in
      let p = phase / 2 ^ (64 - lg) in
      blend_rows (phase_row bank p) (phase_row bank (p + 1))
        (k.blend_factor_from_q64 (phase * 2 ^ lg % u64))

  abbrev pub mac_rows : B → A → List S → List C → List C → A
  mac_rows fr acc (v ∷ vs) (x ∷ xs) (y ∷ ys) = mac_rows fr (k.mac acc v (k.blend x y fr)) vs xs ys
  mac_rows fr acc [] xs ys = acc
  mac_rows fr acc (v ∷ vs) [] ys = acc
  mac_rows fr acc (v ∷ vs) (x ∷ xs) [] = acc

  unfoldable pub interpolate_phase : FilterBank C → List S → ℕ → S
  interpolate_phase bank hist phase =
      let lg = countr_zero 64 bank.phases in
      let p = phase / 2 ^ (64 - lg) in
      k.finalize (
        mac_rows (k.blend_factor_from_q64 (phase * 2 ^ lg % u64)) k.accum hist (phase_row bank p)
          (phase_row bank (p + 1)))

-- `eps_u` is the deviation as a two's complement number of 64 bits.
abbrev pub advance_of_step : ℕ → ℕ → ℕ
advance_of_step eps_u phase =
    let m = (phase + eps_u) % u64 in
    if ltb eps_u (2 ^ 63) then (if ltb m phase then 2 else 1) else if ltb phase m then 0 else 1

-- `scratch` is what of the staging buffer is still to be consumed.
pub record Resampler (S : Type 0) : Type 0 where
  pub channels : ℕ
  pub chunk : ℕ
  pub hist_cap : ℕ
  pub hist : ℕ → List S
  pub end : ℕ
  pub scratch : List (Frame S)
  pub phase : ℕ
  pub primed : Bool

module _ {S C A B D : Type 0} (k : Kernels S C A B D) (bank : FilterBank C) where
  unfoldable pub reset : Resampler S → Resampler S
  reset x = record x { phase = 0; end = 0; primed = false; scratch = [] }

  -- `none` is the constructor's rejection.
  unfoldable pub construct : ℕ → ℕ → Option (Resampler S)
  construct channels chunk_frames =
      if channels == 0 || chunk_frames == 0
      then none
      else some (
          reset (record {
            channels = channels;
            chunk = chunk_frames;
            hist_cap = bank.taps + chunk_frames;
            hist = λ c. replicate (bank.taps + chunk_frames) k.silence;
            end = 0;
            scratch = [];
            phase = 0;
            primed = false;
          }))

  abbrev pub buffered_frames : Resampler S → ℕ
  buffered_frames x = length x.scratch

  -- A frame of the staging buffer goes into the lines.
  unfoldable pub compact : Resampler S → Resampler S
  compact x =
      let keep = bank.taps - 1 in
      if x.end == x.hist_cap
      then record x { hist = λ c. slide keep x.end (x.hist c); end = keep }
      else x

  abbrev pub take_in : List (Frame S) → Resampler S → Bool × Resampler S
  take_in [] x = (false, record x { scratch = [] })
  take_in (f ∷ fs) x =
      let v = compact x in
      (
        true,
        record v {
          hist = λ c. store_frame v.channels f v.hist v.end c;
          end = v.end + 1;
          scratch = fs;
        },
      )

  abbrev pub window : Resampler S → ℕ → List S
  window x c = window_of bank.taps x.end (x.hist c)

  unfoldable pub frame_at : Resampler S → ℕ → List S
  frame_at x m =
      if (x.channels == 1) && not k.prefer_dot_row
      then interpolate_phase k bank (window x 0) m ∷ []
      else map (λ c. k.dot_row (blend_row_phase k bank m) (window x c)) (range_from 0 x.channels)

  module _ {Q : Type 0} (pop : ℕ → Q → Q × List (Frame S)) where
    -- With `fs` in the staging buffer.
    abbrev pub append_from : List (Frame S) → Resampler S → Q → Bool × Resampler S × Q
    append_from [] x q = let r = pop x.chunk q in let t = take_in r.1 x in (t.0, t.1, r.0)
    append_from (f ∷ fs) x q = let t = take_in (f ∷ fs) x in (t.0, t.1, q)

    unfoldable pub append_one : Resampler S → Q → Bool × Resampler S × Q
    append_one x q = append_from x.scratch x q

    -- `n` calls, up to the first that finds the source dry.
    unfoldable pub append_times : ℕ → Resampler S → Q → Bool × Resampler S × Q
    append_times zero x q = (true, x, q)
    append_times (suc n) x q =
        let (ok, y, left) = append_one x q in
        let rest = append_times n y left in if ok then rest else (false, y, left)

    unfoldable pub prime : Resampler S → Q → Bool × Resampler S × Q
    prime x q =
        let (ok, y, left) = append_times bank.taps x q in
        (ok, if ok then record y { primed = true } else y, left)

    -- The loop of `process`, on the deviation in Q0.64.
    unfoldable pub process_fixed : ℕ → ℕ → Resampler S → Q → List (List S) × Resampler S × Q
    process_fixed eps_u zero x q = ([], x, q)
    process_fixed eps_u (suc max_frames) x q =
        let m = (x.phase + eps_u) % u64 in
        let (ok, y, left) = append_times (advance_of_step eps_u x.phase) x q in
        let z = record y { phase = m } in
        let (out, last, rest) = process_fixed eps_u max_frames z left in
        if ok then (frame_at z m ∷ out, last, rest) else ([], y, left)
