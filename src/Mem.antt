-- ===== src/Mem.antt =====
-- The address space: runtime/include/dream/runtime/mem/dc_memory.h and runtime/src/mem/dc_memory.cpp.
pub mod Vram
pub mod Fixture
mod Examples
pub mod Utlb
pub mod FaultLog
pub mod Bytes
pub mod Machine
pub mod DcMemory
pub mod Access
