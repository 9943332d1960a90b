-- ===== src/Aica.antt =====
-- The AICA block of the runtime.
pub mod Rtc
mod Examples
