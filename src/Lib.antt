-- ===== src/Lib.antt =====
-- SampleRateTap: the tap::sr sample-rate converters.
--
-- The repository has three engines over a kernel library, tap::dsp, that is a git submodule.
--   * bridge/ converts between 44.1 and 48 kHz by the fixed ratio 160/147 (or 147/160): a superblock
--     schedule says which polyphase branch an output uses and how many inputs are consumed after it;
--     the converter keeps a delay line per channel and walks the schedule.
--   * async/ couples two clock domains: a lock-free ring takes frames from a producer thread, a servo
--     steers the resampling ratio by the ring's occupancy, a fractional resampler reads the ring.
--   * rational/ converts between rates whose ratio is a product of powers of 2 and 3 by a chain of
--     integer stages.
-- The modules follow the headers.
--   * Common: tests, lists, wrapping words, and what the engines share: division by a step as a cursor
--     (Floor, Cursor), two calls against one (Chunks), the delay line (Line) and what it holds of the
--     stream it was fed (Stream).
--   * Bridge.Schedule: bridge/include/tap/sr/bridge/schedule.h, with the counts L and M of design.h.
--   * Bridge.Table: bridge/include/tap/sr/bridge/phase_table.h.
--   * Bridge.Converter: bridge/include/tap/sr/bridge/converter.h, the state, the counts, reset and the
--     constructor; Bridge.Converter.Walk has process and its walk, Bridge.Converter.Pull has pull,
--     flush, emit and the appends.
--   * Async.Ring: async/include/tap/sr/async/spsc_ring.h; Inv says what queue a ring holds, Segments how
--     the two copies of a bulk write land, Write and Read what the operations do, Fifo compares the ring
--     with a bounded queue. Async.Ring.Threads has write and read as the steps of two threads: Inv is what
--     holds between steps, Start, Copy and Order go through them.
--   * Async.Servo: async/include/tap/sr/async/pi_servo.h over a record of what the code does with a
--     double; Bounds runs any sequence of calls, Stages has the lock stages as a relation.
--   * Async.Resampler: async/include/tap/sr/async/polyphase_filter.h, the bank and the fractional
--     resampler with a line for each channel. The read position is counted in units of 2^-64 of a frame;
--     the deviation is given to the loop of process as the two's complement number that the source makes
--     of its double. Read says what appends consume, Process where the outputs lie, Prime what a fill of
--     the lines takes, Simulate that two sources of the same frames give the same outputs.
--   * Async.Config: async/include/tap/sr/async/converter.h, the configuration and its validation.
--   * Async.Converter: the same file, the converter: the constructor, push, reset_from_consumer and the
--     status; Async.Converter.Pull has pull, in the parts that its comments name. Inv says what a state
--     means, Fifo reads the ring's samples as frames, Push, Steps, Restart, Raise, Play, Finish and Whole say
--     what the parts of a call do to the frames, Enough when a pull is complete, Construct what validation
--     promises, Session and Calls take the calls in any order, and Heard says how the frames then in
--     hand come from the input. Async.Samples has the numbers of the tests.
--   * Machine: the loops that rational/include/tap/sr/rational/stage.h shares with no one ratio: process,
--     pull and flush of anything that absorbs frames, emits them and says how many inputs it waits for.
--     Laws says what such a machine owes to its stream; Process, Each, Pull and Drain what the loops then
--     do, Counts what two calls do and what pull has in common with process.
--   * Rational.Stage: rational/include/tap/sr/rational/stage.h, the state, the schedule, the appends and
--     emit; Calls has the counts, process, pull, flush and reset, Table the constructor's table. Phase and
--     Branch show that the L-phase machine and the decimator keep the laws, Stream puts them together.
--   * Rational.Chain: rational/include/tap/sr/rational/chain.h, the design divisor; Divisor says what it is.
--   * Rational.Ratio: rational/include/tap/sr/rational/ratio.h, the loops of namespace detail and the
--     members of ratio_traits.
--
-- An object is a record of its members, and an operation returns the record after it. A function that
-- writes an interleaved buffer returns the list of its frames. What the source leaves undefined is
-- `none`: a read past the input. A std::size_t has 64 bits in bridge/; in async/ the ring is modelled
-- on words of any number of bits, and its capacity is a power of two of at most half their range; in
-- rational/ it has any number of bits up to 64, and Counted says that it has room for a call's counts.
-- The narrowing casts and the wrapping of unsigned arithmetic are written out. Counts that a caller
-- gives are taken up to 2^56, below which no product of theirs with L or M wraps; that is more than
-- ten thousand years of audio.
--
-- Loops are structural recursion on the number of rounds that the source computes beforehand. The
-- one loop that asks a caller for input, in pull, runs on fuel: each call that does not end the loop
-- delivers a frame, so that as many calls as frames are pending suffice. flush runs on one more
-- round than flush_output_frames says, in both engines; the divisions of ratio.h run on the number
-- itself, which each round makes smaller.
--
-- A double is an abstract value with the operations and comparisons that the code uses; what a
-- theorem needs of them is a hypothesis, such as IsExact of Async.Converter.Inv: the integers up to
-- 2^53 and their differences are exact. A sample type, its silence, its dot products and the
-- quantization of a coefficient row come from tap::dsp and are parameters. Not modelled: floating-
-- point design (window, Kaiser formulas) and the resampler's frame-major layout, the steps of
-- async/'s two threads inside a call of push or pull (those inside a call of the ring are modelled),
-- the composition of a chain and the converter of rational/, the C interfaces, which only forward,
-- and tests, benches, examples, tools and documentation.
pub mod Common
pub mod Machine
pub mod Bridge
pub mod Async
pub mod Rational
