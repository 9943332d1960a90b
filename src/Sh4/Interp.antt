-- ===== src/Sh4/Interp.antt =====
-- runtime/src/devinterp/interpreter.cpp: the development interpreter.
pub mod Fpu
pub mod System
pub mod Logic
pub mod Arith
pub mod Moves
pub mod Run
