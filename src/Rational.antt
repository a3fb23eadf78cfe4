-- ===== src/Rational.antt =====
-- The rational converter's parts: rational/include/tap/sr/rational.
pub mod Ratio
pub mod Stage
pub mod Chain
