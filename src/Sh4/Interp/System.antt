-- ===== src/Sh4/Interp/System.antt =====
-- runtime/src/devinterp/interpreter.cpp: the system group of `exec`, and the FPU control group.
use dream_recomp.Base.{
  ℕ, ◌+◌, ◌-◌, ◌^◌, bit_and, bit_or, bit_xor, Bool, ◌==◌, ltb, if◌then◌else◌, Option, none, some,
  get_or, set,
}
use dream_recomp.Base.Bits.{u32}
use dream_recomp.Sh4.Alu.{sub32, not32}
use dream_recomp.Sh4.Ctx.{Ctx, sr_s}
use dream_recomp.Sh4.Memory.{Memory}
use dream_recomp.Sh4.State.{State, reg, set_reg, set_ctx, set_t, load32, store32, flush}
use dream_recomp.Sh4.Float.{Floats, fpscr_sz, write_fpscr}
use dream_recomp.Sh4.System.{write_sr, read_sr, frchg}
use dream_recomp.Sh4.Interp.Fpu.{exec_fp}
use dream_recomp.Translator.Decoder.{Instr, to_u32}
use dream_recomp.Translator.Decoder.Op

-- What translated code does when it is called: it returns, or it ends in a non-local return, which
-- the caller of the interpreter may have asked it to catch.
pub data Called (M : Type 0) : Type 0 where
  returned : State M → Called M
  nonlocal : ℕ → State M → Called M

-- The functions of runtime/include/dream/runtime/sh4/abi.h that the runtime in use implements.
-- `none` is an exception that leaves the interpreter. `find_function` gives the translated code of
-- an address, and `rte` whether the run ends.
pub record Abi (M : Type 0) : Type 0 where
  pub deliver_irq : State M → Option (State M)
  pub trapa : ℕ → State M → Option (State M)
  pub rte : State M → Option (State M × Bool)
  pub find_function : ℕ → State M → Option (State M → Option (Called M))
  pub trace_return : ℕ → State M → State M

module _ {M : Type 0} (memory : Memory M) (abi : Abi M) (floats : Floats) where
  open abi use {deliver_irq, trapa}

  -- `f(c, m.read32(rm)); rm += 4`.
  unfoldable pub load_inc : (ℕ → Ctx → Ctx) → ℕ → State M → State M
  load_inc f m s =
      let (s1, v) = load32 memory (reg s m) s in
      let s2 = set_ctx (f v s1.ctx) s1 in set_reg m (u32 (reg s2 m + 4)) s2

  -- `rn -= 4; m.write32(rn, f(c))`.
  unfoldable pub store_dec : (Ctx → ℕ) → ℕ → State M → State M
  store_dec f n s =
      let s' = set_reg n (sub32 (reg s n) 4) s in store32 memory (reg s' n) (f s'.ctx) s'

  unfoldable pub to_ctx : (ℕ → Ctx → Ctx) → ℕ → State M → State M
  to_ctx f m s = set_ctx (f (reg s m) s.ctx) s

  unfoldable pub from_ctx : (Ctx → ℕ) → ℕ → State M → State M
  from_ctx f n s = set_reg n (f s.ctx) s

  -- SLEEP: the clock moves to the next event, which is then delivered.
  unfoldable pub sleep : State M → Option (State M)
  sleep s =
      if s.ctx.next_event == 2 ^ 64 - 1
      then none
      else deliver_irq (
          if ltb s.ctx.cycles s.ctx.next_event
          then set_ctx (record s.ctx { cycles = s.ctx.next_event }) s
          else s)

  unfoldable pub put_sr : ℕ → Ctx → Ctx
  put_sr v c = write_sr c v

  unfoldable pub prefetch : ℕ → State M → State M
  prefetch a s = if bit_and a 0xfc00_0000 == 0xe000_0000 then flush memory a s else s

  unfoldable pub exec_fpu_control : Op.Op → Instr → State M → Option (State M)
  exec_fpu_control Op.frchg ins s = some (set_ctx (frchg s.ctx) s)
  exec_fpu_control Op.fschg ins s =
      some (set_ctx (record s.ctx { fpscr = bit_xor s.ctx.fpscr fpscr_sz }) s)
  exec_fpu_control Op.lds_fpul ins s = some (to_ctx (λ v c. record c { fpul = v }) ins.m s)
  exec_fpu_control Op.sts_fpul ins s = some (from_ctx (λ c. c.fpul) ins.n s)
  exec_fpu_control Op.lds_l_fpul ins s = some (load_inc (λ v c. record c { fpul = v }) ins.m s)
  exec_fpu_control Op.sts_l_fpul ins s = some (store_dec (λ c. c.fpul) ins.n s)
  exec_fpu_control Op.sts_fpscr ins s = some (from_ctx (λ c. c.fpscr) ins.n s)
  exec_fpu_control Op.sts_l_fpscr ins s = some (store_dec (λ c. c.fpscr) ins.n s)
  exec_fpu_control Op.lds_fpscr ins s = some (to_ctx write_fpscr ins.m s)
  exec_fpu_control Op.lds_l_fpscr ins s = some (load_inc write_fpscr ins.m s)
  exec_fpu_control op ins s = exec_fp memory floats op ins s

  unfoldable pub exec_system : Op.Op → Instr → ℕ → State M → Option (State M)
  exec_system Op.clrmac ins pc s = some (set_ctx (record s.ctx { mach = 0; macl = 0 }) s)
  exec_system Op.clrs ins pc s =
      some (set_ctx (record s.ctx { sr = bit_and s.ctx.sr (not32 sr_s) }) s)
  exec_system Op.clrt ins pc s = some (set_t 0 s)
  exec_system Op.sets ins pc s = some (set_ctx (record s.ctx { sr = bit_or s.ctx.sr sr_s }) s)
  exec_system Op.sett ins pc s = some (set_t 1 s)
  exec_system Op.nop ins pc s = some s
  exec_system Op.ldc_sr ins pc s = some (to_ctx put_sr ins.m s)
  exec_system Op.ldc_gbr ins pc s = some (to_ctx (λ v c. record c { gbr = v }) ins.m s)
  exec_system Op.ldc_vbr ins pc s = some (to_ctx (λ v c. record c { vbr = v }) ins.m s)
  exec_system Op.ldc_ssr ins pc s = some (to_ctx (λ v c. record c { ssr = v }) ins.m s)
  exec_system Op.ldc_spc ins pc s = some (to_ctx (λ v c. record c { spc = v }) ins.m s)
  exec_system Op.ldc_dbr ins pc s = some (to_ctx (λ v c. record c { dbr = v }) ins.m s)
  exec_system Op.ldc_bank ins pc s =
      some (to_ctx (λ v c. record c { r_bank = set c.r_bank ins.bank v }) ins.m s)
  exec_system Op.ldc_l_sr ins pc s = some (load_inc put_sr ins.m s)
  exec_system Op.ldc_l_gbr ins pc s = some (load_inc (λ v c. record c { gbr = v }) ins.m s)
  exec_system Op.ldc_l_vbr ins pc s = some (load_inc (λ v c. record c { vbr = v }) ins.m s)
  exec_system Op.ldc_l_ssr ins pc s = some (load_inc (λ v c. record c { ssr = v }) ins.m s)
  exec_system Op.ldc_l_spc ins pc s = some (load_inc (λ v c. record c { spc = v }) ins.m s)
  exec_system Op.ldc_l_dbr ins pc s = some (load_inc (λ v c. record c { dbr = v }) ins.m s)
  exec_system Op.ldc_l_bank ins pc s =
      some (load_inc (λ v c. record c { r_bank = set c.r_bank ins.bank v }) ins.m s)
  exec_system Op.lds_mach ins pc s = some (to_ctx (λ v c. record c { mach = v }) ins.m s)
  exec_system Op.lds_macl ins pc s = some (to_ctx (λ v c. record c { macl = v }) ins.m s)
  exec_system Op.lds_pr ins pc s = some (to_ctx (λ v c. record c { pr = v }) ins.m s)
  exec_system Op.lds_l_mach ins pc s = some (load_inc (λ v c. record c { mach = v }) ins.m s)
  exec_system Op.lds_l_macl ins pc s = some (load_inc (λ v c. record c { macl = v }) ins.m s)
  exec_system Op.lds_l_pr ins pc s = some (load_inc (λ v c. record c { pr = v }) ins.m s)
  exec_system Op.stc_sr ins pc s = some (from_ctx read_sr ins.n s)
  exec_system Op.stc_gbr ins pc s = some (from_ctx (λ c. c.gbr) ins.n s)
  exec_system Op.stc_vbr ins pc s = some (from_ctx (λ c. c.vbr) ins.n s)
  exec_system Op.stc_ssr ins pc s = some (from_ctx (λ c. c.ssr) ins.n s)
  exec_system Op.stc_spc ins pc s = some (from_ctx (λ c. c.spc) ins.n s)
  exec_system Op.stc_sgr ins pc s = some (from_ctx (λ c. c.sgr) ins.n s)
  exec_system Op.stc_dbr ins pc s = some (from_ctx (λ c. c.dbr) ins.n s)
  exec_system Op.stc_bank ins pc s = some (from_ctx (λ c. get_or c.r_bank ins.bank 0) ins.n s)
  exec_system Op.stc_l_sr ins pc s = some (store_dec read_sr ins.n s)
  exec_system Op.stc_l_gbr ins pc s = some (store_dec (λ c. c.gbr) ins.n s)
  exec_system Op.stc_l_vbr ins pc s = some (store_dec (λ c. c.vbr) ins.n s)
  exec_system Op.stc_l_ssr ins pc s = some (store_dec (λ c. c.ssr) ins.n s)
  exec_system Op.stc_l_spc ins pc s = some (store_dec (λ c. c.spc) ins.n s)
  exec_system Op.stc_l_sgr ins pc s = some (store_dec (λ c. c.sgr) ins.n s)
  exec_system Op.stc_l_dbr ins pc s = some (store_dec (λ c. c.dbr) ins.n s)
  exec_system Op.stc_l_bank ins pc s = some (store_dec (λ c. get_or c.r_bank ins.bank 0) ins.n s)
  exec_system Op.sts_mach ins pc s = some (from_ctx (λ c. c.mach) ins.n s)
  exec_system Op.sts_macl ins pc s = some (from_ctx (λ c. c.macl) ins.n s)
  exec_system Op.sts_pr ins pc s = some (from_ctx (λ c. c.pr) ins.n s)
  exec_system Op.sts_l_mach ins pc s = some (store_dec (λ c. c.mach) ins.n s)
  exec_system Op.sts_l_macl ins pc s = some (store_dec (λ c. c.macl) ins.n s)
  exec_system Op.sts_l_pr ins pc s = some (store_dec (λ c. c.pr) ins.n s)
  exec_system Op.trapa ins pc s = trapa (to_u32 ins.imm) (set_ctx (record s.ctx { pc = pc }) s)
  exec_system Op.movca_l ins pc s = some (store32 memory (reg s ins.n) (reg s 0) s)
  exec_system Op.pref ins pc s = some (prefetch (reg s ins.n) s)
  exec_system Op.ocbi ins pc s = some s
  exec_system Op.ocbp ins pc s = some s
  exec_system Op.ocbwb ins pc s = some s
  exec_system Op.sleep ins pc s = sleep s
  exec_system op ins pc s = exec_fpu_control op ins s
