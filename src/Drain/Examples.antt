-- ===== src/Drain/Examples.antt =====
-- The results on draining at concrete inputs.
pub mod Status
pub mod Recovery
pub mod Workers
