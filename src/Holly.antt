-- ===== src/Holly.antt =====
-- The Holly system ASIC (runtime/src/holly).
pub mod Intc
pub mod G2Dma
mod Examples
