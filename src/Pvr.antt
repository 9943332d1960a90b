-- ===== src/Pvr.antt =====
-- The graphics chip's timing (runtime/src/pvr).
pub mod Spg
mod Examples
