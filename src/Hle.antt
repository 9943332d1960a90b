-- ===== src/Hle.antt =====
-- The services of the console's ROMs (runtime/src/hle).
pub mod Flash
mod Examples
