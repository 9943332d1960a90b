-- ===== src/Sh4/Interp/Fpu.antt =====
-- runtime/src/devinterp/interpreter.cpp: `exec_fp`. The mode is read from FPSCR at run time.
use dream_recomp.Base.{
  ℕ, ◌+◌, bit_and, bit_xor, Bool, not, ◌==◌, bit, if◌then◌else◌, Option, none, some,
}
use dream_recomp.Base.Bits.{u32}
use dream_recomp.Base.Int.{signed32}
use dream_recomp.Sh4.Alu.{sub32}
use dream_recomp.Sh4.Ctx.{Ctx}
use dream_recomp.Sh4.Memory.{Memory}
use dream_recomp.Sh4.State.{State, reg, set_reg, set_ctx, load32, store32}
use dream_recomp.Sh4.Float
use dream_recomp.Sh4.Float.{
  Floats, fpscr_pr, fpscr_sz, freg, set_freg, get_dr, set_dr, even, fmov_pair_load, fmov_pair_store,
  read_pair, write_pair,
}
use dream_recomp.Translator.Decoder.{Instr}
use dream_recomp.Translator.Decoder.Op

abbrev pub is_pr : Ctx → Bool
is_pr c = not (bit_and c.fpscr fpscr_pr == 0)

abbrev pub is_sz : Ctx → Bool
is_sz c = not (bit_and c.fpscr fpscr_sz == 0)

-- An operation in the precision that PR selects: on pairs or on singles.
unfoldable pub binary : (ℕ → ℕ → ℕ → ℕ) → (ℕ → ℕ → ℕ → ℕ) → ℕ → ℕ → Ctx → Ctx
binary f64 f32 n m c =
    if is_pr c
    then set_dr (even n) (f64 c.fpscr (get_dr c (even n)) (get_dr c (even m))) c
    else set_freg n (f32 c.fpscr (freg c n) (freg c m)) c

unfoldable pub compare : (ℕ → ℕ → Bool) → (ℕ → ℕ → Bool) → ℕ → ℕ → Ctx → Ctx
compare p64 p32 n m c = record c {
  t =
      bit (
        if is_pr c then p64 (get_dr c (even n)) (get_dr c (even m)) else p32 (freg c n) (freg c m));
}

module _ (floats : Floats) where
  open floats use {
    add32, sub32 as sub_f32, mul32, div32, sqrt32, fma32, add64, sub64, mul64, div64, sqrt64, eq32,
    gt32, eq64, gt64, of_int32, of_int64, widen, narrow,
  }

  -- The operations on the FPU registers alone.
  unfoldable pub compute : Op.Op → ℕ → ℕ → Ctx → Option Ctx
  compute Op.fldi0 n m c = some (set_freg n 0 c)
  compute Op.fldi1 n m c = some (set_freg n 0x3f80_0000 c)
  compute Op.flds n m c = some (record c { fpul = freg c n })
  compute Op.fsts n m c = some (set_freg n c.fpul c)
  compute Op.fabs n m c = some (set_freg n (bit_and (freg c n) 0x7fff_ffff) c)
  compute Op.fneg n m c = some (set_freg n (bit_xor (freg c n) 0x8000_0000) c)
  compute Op.fadd n m c = some (binary add64 add32 n m c)
  compute Op.fsub n m c = some (binary sub64 sub_f32 n m c)
  compute Op.fmul n m c = some (binary mul64 mul32 n m c)
  compute Op.fdiv n m c = some (binary div64 div32 n m c)
  compute Op.fcmp_eq n m c = some (compare eq64 eq32 n m c)
  compute Op.fcmp_gt n m c = some (compare gt64 gt32 n m c)
  compute Op.fmac n m c = some (set_freg n (fma32 c.fpscr (freg c 0) (freg c m) (freg c n)) c)
  compute Op.float n m c = some (
      if is_pr c
      then set_dr (even n) (of_int64 c.fpscr (signed32 c.fpul)) c
      else set_freg n (of_int32 c.fpscr (signed32 c.fpul)) c)
  compute Op.ftrc n m c = some (record c {
    fpul =
        if is_pr c then Float.ftrc64 floats (get_dr c (even n)) else Float.ftrc32 floats (freg c n);
  })
  compute Op.fsqrt n m c = some (
      if is_pr c
      then set_dr (even n) (sqrt64 c.fpscr (get_dr c (even n))) c
      else set_freg n (sqrt32 c.fpscr (freg c n)) c)
  compute Op.fsrra n m c =
      some (set_freg n (div32 c.fpscr 0x3f80_0000 (sqrt32 c.fpscr (freg c n))) c)
  compute Op.fcnvsd n m c = some (set_dr (even n) (widen c.fpul) c)
  compute Op.fcnvds n m c = some (record c { fpul = narrow c.fpscr (get_dr c (even n)) })
  compute Op.fsca n m c = some (Float.fsca floats (even n) c)
  compute Op.fipr n m c = some (Float.fipr floats m n c)
  compute Op.ftrv n m c = some (Float.ftrv floats n c)
  compute Op.fmov n m c =
      some (if is_sz c then fmov_pair_load n (fmov_pair_store c m) c else set_freg n (freg c m) c)
  compute op n m c = none

unfoldable pub computed : {M : Type 0} → State M → Option Ctx → Option (State M)
computed s none = none
computed s (some c) = some (set_ctx c s)

module _ {M : Type 0} where
  unfoldable pub loaded : (ℕ → Ctx → Ctx) → State M × ℕ → State M
  loaded f (s, v) = set_ctx (f v s.ctx) s

  abbrev pub fmov_size : State M → ℕ
  fmov_size s = if is_sz s.ctx then 8 else 4

module _ {M : Type 0} (memory : Memory M) where
  -- FMOV from and to memory, a pair or a single.
  unfoldable pub fmov_load : ℕ → ℕ → State M → State M
  fmov_load n a s =
      if is_sz s.ctx
      then loaded (fmov_pair_load n) (read_pair memory a s)
      else loaded (set_freg n) (load32 memory a s)

  unfoldable pub fmov_store : ℕ → ℕ → State M → State M
  fmov_store m a s =
      if is_sz s.ctx
      then write_pair memory a (fmov_pair_store s.ctx m) s
      else store32 memory a (freg s.ctx m) s

module _ {M : Type 0} (memory : Memory M) (floats : Floats) where
  unfoldable pub exec_fp : Op.Op → Instr → State M → Option (State M)
  exec_fp Op.fmov_load ins s = some (fmov_load memory ins.n (reg s ins.m) s)
  exec_fp Op.fmov_load_inc ins s =
      let s' = fmov_load memory ins.n (reg s ins.m) s in
      some (set_reg ins.m (u32 (reg s' ins.m + fmov_size s)) s')
  exec_fp Op.fmov_load_r0 ins s = some (fmov_load memory ins.n (u32 (reg s ins.m + reg s 0)) s)
  exec_fp Op.fmov_store ins s = some (fmov_store memory ins.m (reg s ins.n) s)
  exec_fp Op.fmov_store_dec ins s =
      let s' = set_reg ins.n (sub32 (reg s ins.n) (fmov_size s)) s in
      some (fmov_store memory ins.m (reg s' ins.n) s')
  exec_fp Op.fmov_store_r0 ins s = some (fmov_store memory ins.m (u32 (reg s ins.n + reg s 0)) s)
  exec_fp op ins s = computed s (compute floats op ins.n ins.m s.ctx)
