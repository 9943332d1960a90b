-- ===== src/Sh4/Memory.antt =====
-- runtime/include/dream/runtime/memory.h: the interface `class Memory`, which emitted code and the
-- interpreter call, and its implementation by the guest memory of runtime/src/mem.
use dream_recomp.Base.{ℕ}
use dream_recomp.Sh4.Ctx.{Ctx}
use dream_recomp.Mem.Machine.{Machine, Devices}
use dream_recomp.Mem.Access

-- An access sees the context, since the devices behind it run on its clock, and gives the memory
-- after it and the new poll deadline, which an interrupt controller behind a device may lower
-- (runtime/src/system.cpp). A read gives the value as well.
pub record Memory (M : Type 0) : Type 0 where
  pub read8 : ℕ → Ctx → M → (M × ℕ) × ℕ
  pub read16 : ℕ → Ctx → M → (M × ℕ) × ℕ
  pub read32 : ℕ → Ctx → M → (M × ℕ) × ℕ
  pub read64 : ℕ → Ctx → M → (M × ℕ) × ℕ
  pub write8 : ℕ → ℕ → Ctx → M → M × ℕ
  pub write16 : ℕ → ℕ → Ctx → M → M × ℕ
  pub write32 : ℕ → ℕ → Ctx → M → M × ℕ
  pub write64 : ℕ → ℕ → Ctx → M → M × ℕ
  pub sq_write32 : ℕ → ℕ → Ctx → M → M × ℕ
  pub sq_flush : ℕ → Ctx → M → M × ℕ

-- `deadline` is the wire from the interrupt controller to the context.
module _ {D : Type 0} (devices : Devices D) (deadline : Machine D → Ctx → ℕ) where
  pub polled : Ctx → Machine D → Machine D × ℕ
  polled c m = (m, deadline m c)

  pub answered : Ctx → Machine D × ℕ → (Machine D × ℕ) × ℕ
  unfolding polled
  answered c (m, v) = (polled c m, v)

  -- `class DcMemory final : public Memory`.
  unfoldable pub dc_memory : Memory (Machine D)
  dc_memory = record {
    read8 = λ a c m. answered c (Access.read8 devices a m);
    read16 = λ a c m. answered c (Access.read16 devices a m);
    read32 = λ a c m. answered c (Access.read32 devices a m);
    read64 = λ a c m. answered c (Access.read64 devices a m);
    write8 = λ a v c m. polled c (Access.write8 devices a v m);
    write16 = λ a v c m. polled c (Access.write16 devices a v m);
    write32 = λ a v c m. polled c (Access.write32 devices a v m);
    write64 = λ a v c m. polled c (Access.write64 devices a v m);
    sq_write32 = λ a v c m. polled c (Access.sq_write32 a v m);
    sq_flush = λ a c m. polled c (Access.sq_flush devices a m);
  }
