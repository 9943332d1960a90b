-- ===== src/Lib.antt =====
-- A model of dream-recomp, which translates Dreamcast programs into C++ and runs them.
--
-- The translator (translator/) decodes SH-4 instruction words and emits C++; the emitted code calls
-- the helpers of runtime/include/dream/runtime/sh4/ops.h on a context, and loads and stores through
-- the guest memory (runtime/src/mem). Devices sit behind address ranges of that memory, take their
-- time from the event scheduler (runtime/src/sched), and report to the ASIC's interrupt controller
-- (runtime/src/holly/intc.cpp), which drives three lines of the SH-4's (runtime/src/sh4/intc.cpp).
--
-- Base holds what the parts share: tests on numbers, lists, integers, and the laws of bits.
--
-- Translator.Decoder: translator/src/sh4/decoder.cpp. `table` is kTable in its sections, `index` the
--   lookup, `extract` the switch of `decode`. The 65536 cached indices are computed on demand.
-- Mem: runtime/include/dream/runtime/mem/dc_memory.h and runtime/src/mem/dc_memory.cpp. Vram is the
--   interleave, Utlb the TLB arrays, FaultLog the log, Bytes the arrays with memcpy, Machine the
--   state of DcMemory with the devices as functions on it, DcMemory the address decoding with load
--   and store, Access the public reads and writes, the store queues and the journal. A pointer into
--   guest memory is a region with an offset.
-- Sched: runtime/include/dream/runtime/sched/scheduler.h and runtime/src/sched/scheduler.cpp. The
--   callbacks are one function on the scheduler and the rest of the world. `advance_to` recurses on
--   fuel; the distance to the target in cycles times the number of events plus one, with the events
--   that are due, is enough when callbacks re-arm for a later time only.
-- Sh4.Ctx, Sh4.Alu: runtime/include/dream/runtime/sh4/ctx.h and ops.h, the integer helpers.
-- Sh4.Multiply, Sh4.Float: the multiply-accumulate steps and the FPU helpers of ops.h. A float
--   register is its bit pattern, and the host's arithmetic on patterns is the record Floats.
-- Sh4.Memory: the interface of runtime/include/dream/runtime/memory.h as a record of operations,
--   which `dc_memory` fills with Mem.Access.
-- Sh4.Interp: runtime/src/devinterp/interpreter.cpp. `exec` is a chain of functions over the groups
--   of its switch, each of which hands an operation it does not have to the next; `none` is an
--   exception. Run is `run`: `turn` is a turn of its loop, with the delay slot, the polls and the
--   calls of translated code, and `loop` takes fuel: the limit on instructions bounds the turns.
--   The runtime's functions of abi.h are the record Abi.
-- Translator.Constprop: translator/src/analysis/constprop.cpp, and the Image of
--   translator/include/dream/translator/emit.h. The turns of the loop are counted off beforehand.
-- Translator.Switch: translator/src/analysis/switch.cpp and its header. Recover is the search for the
--   load of the jump register, Tables reads the table. The steps of a search are counted off
--   beforehand, half the distance in bytes, which is all of them for even addresses.
-- Sh4.System: the status register, the bank exchanges and CMP/STR of ops.h.
-- Sh4.Intc: runtime/src/sh4/intc.cpp.
-- Sh4.Tmu: runtime/include/dream/runtime/sh4/tmu.h and runtime/src/sh4/tmu.cpp, with the scheduler and
--   the interrupt controller in the state.
-- Sh4.Dmac: runtime/include/dream/runtime/sh4/dmac.h and runtime/src/sh4/dmac.cpp, with the guest memory
--   in the state.
-- Pvr.Spg: runtime/include/dream/runtime/pvr/spg.h and runtime/src/pvr/spg.cpp, likewise; the hook that
--   starts a transfer of the Maple bus is a parameter. Rearm reads the callback of its event as one of
--   the callbacks of Sched: the generator is the world, and the scheduler stands in it while it runs.
-- Holly.Intc: runtime/src/holly/intc.cpp, with the SH-4's controller in its state.
-- Aica.Rtc: runtime/include/dream/runtime/aica/rtc.h.
-- Holly.G2Dma: runtime/include/dream/runtime/holly/g2dma.h and runtime/src/holly/g2dma.cpp.
-- Hle.Flash: runtime/include/dream/runtime/hle/flash.h and runtime/src/hle/flash.cpp, on the bytes of
--   the flash ROM.
--
-- Numbers are natural numbers; where the source's type wraps, the remainder is written out. Counters
-- of 64 bits that only grow are not wrapped.
--
-- Not modelled: the arithmetic of floats, the emitter's text, the translator's discovery of
-- functions, the interpreter's trace and its replay, the renderer, the sound chip, the disc drive,
-- the BIOS calls, the other devices, and the decoder's printing.
pub mod Base
pub mod Mem
pub mod Sched
pub mod Sh4
pub mod Pvr
pub mod Holly
pub mod Hle
pub mod Aica
pub mod Translator
