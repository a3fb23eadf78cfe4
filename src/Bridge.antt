-- ===== src/Bridge.antt =====
-- bridge/include/tap/sr/bridge: the synchronous 44.1 ↔ 48 kHz converter.
pub mod Schedule
pub mod Table
pub mod Converter
