-- ===== src/Async/Converter/Calls.antt =====
-- Any sequence of the two threads' calls.
use sample_rate_tap.Common.{List}
use sample_rate_tap.Async.Converter.{Converter}
use sample_rate_tap.Async.Converter.Heard.{Heard}
