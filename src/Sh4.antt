-- ===== src/Sh4.antt =====
-- The SH-4: runtime/include/dream/runtime/sh4 and runtime/src/sh4.
pub mod Ctx
pub mod Multiply
pub mod Memory
pub mod State
pub mod Float
pub mod Interp
mod Examples
pub mod Alu
pub mod Intc
pub mod System
pub mod Tmu
pub mod Dmac
