-- ===== src/Async.antt =====
-- The asynchronous converter's parts: async/include/tap/sr/async.
pub mod Ring
pub mod Servo
pub mod Resampler
pub mod Config
pub mod Converter
pub mod Samples
