-- ===== src/Variation.antt =====
-- internal/variation: the expansion of a template over its axes, and the statistics of a pool.
pub mod Axis
pub mod Expand
pub mod Template
pub mod Pool
