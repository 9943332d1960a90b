-- ===== src/Sh4/Interp/Moves.antt =====
-- runtime/src/devinterp/interpreter.cpp: the moves, loads and stores of `exec`, and `exec` itself.
use dream_recomp.Base.{ℕ, ◌+◌, ◌*◌, ◌/◌, ◌^◌, bit_and, bit_or, ◌==◌, if◌then◌else◌, Option, some}
use dream_recomp.Base.Bits.{u32}
use dream_recomp.Base.Int.{ℤ}
use dream_recomp.Sh4.Alu.{sub32}
use dream_recomp.Sh4.Memory.{Memory}
use dream_recomp.Sh4.State.{
  State, reg, set_reg, sx8, sx16, load8, load16, load32, store8, store16, store32,
}
use dream_recomp.Sh4.Float.{Floats}
use dream_recomp.Sh4.Interp.System.{Abi}
use dream_recomp.Sh4.Interp.Arith.{exec_arith}
use dream_recomp.Translator.Decoder.{Instr, to_u32, pcrel_target}
use dream_recomp.Translator.Decoder.Op

-- `d`, `d2` and `d4` of `exec`.
abbrev pub disp : ℕ → ℤ → ℕ
disp size imm = u32 (to_u32 imm * size)

module _ {M : Type 0} where
  -- `rn = f(m.read…(…))`.
  unfoldable pub load_into : ℕ → (ℕ → ℕ) → State M × ℕ → State M
  load_into n f (s, v) = set_reg n (f v) s

  -- The pointer of a post-increment load advances unless it is the destination.
  unfoldable pub load_advance : ℕ → ℕ → ℕ → (ℕ → ℕ) → State M × ℕ → State M
  load_advance n m size f (s, v) =
      set_reg n (f v) (if n == m then s else set_reg m (u32 (reg s m + size)) s)

  -- `rn -= size; m.write…(rn, rm)`.
  unfoldable pub store_predec : (ℕ → ℕ → State M → State M) → ℕ → ℕ → ℕ → State M → State M
  store_predec store size n m s =
      let s' = set_reg n (sub32 (reg s n) size) s in store (reg s' n) (reg s' m) s'

module _ {M : Type 0} (memory : Memory M) (abi : Abi M) (floats : Floats) where
  unfoldable pub exec_loads : Op.Op → Instr → ℕ → State M → Option (State M)
  exec_loads Op.mov_w_pcrel ins pc s =
      some (load_into ins.n sx16 (load16 memory (pcrel_target ins pc) s))
  exec_loads Op.mov_l_pcrel ins pc s =
      some (load_into ins.n (λ v. v) (load32 memory (pcrel_target ins pc) s))
  exec_loads Op.mov_b_l ins pc s = some (load_into ins.n sx8 (load8 memory (reg s ins.m) s))
  exec_loads Op.mov_w_l ins pc s = some (load_into ins.n sx16 (load16 memory (reg s ins.m) s))
  exec_loads Op.mov_l_l ins pc s = some (load_into ins.n (λ v. v) (load32 memory (reg s ins.m) s))
  exec_loads Op.mov_b_li ins pc s =
      some (load_advance ins.n ins.m 1 sx8 (load8 memory (reg s ins.m) s))
  exec_loads Op.mov_w_li ins pc s =
      some (load_advance ins.n ins.m 2 sx16 (load16 memory (reg s ins.m) s))
  exec_loads Op.mov_l_li ins pc s =
      some (load_advance ins.n ins.m 4 (λ v. v) (load32 memory (reg s ins.m) s))
  exec_loads Op.mov_l_l_disp ins pc s =
      some (load_into ins.n (λ v. v) (load32 memory (u32 (reg s ins.m + disp 4 ins.imm)) s))
  exec_loads Op.mov_b_l_disp0 ins pc s =
      some (load_into 0 sx8 (load8 memory (u32 (reg s ins.m + disp 1 ins.imm)) s))
  exec_loads Op.mov_w_l_disp0 ins pc s =
      some (load_into 0 sx16 (load16 memory (u32 (reg s ins.m + disp 2 ins.imm)) s))
  exec_loads Op.mov_b_l_r0 ins pc s =
      some (load_into ins.n sx8 (load8 memory (u32 (reg s ins.m + reg s 0)) s))
  exec_loads Op.mov_w_l_r0 ins pc s =
      some (load_into ins.n sx16 (load16 memory (u32 (reg s ins.m + reg s 0)) s))
  exec_loads Op.mov_l_l_r0 ins pc s =
      some (load_into ins.n (λ v. v) (load32 memory (u32 (reg s ins.m + reg s 0)) s))
  exec_loads Op.mov_b_l_gbr ins pc s =
      some (load_into 0 sx8 (load8 memory (u32 (s.ctx.gbr + disp 1 ins.imm)) s))
  exec_loads Op.mov_w_l_gbr ins pc s =
      some (load_into 0 sx16 (load16 memory (u32 (s.ctx.gbr + disp 2 ins.imm)) s))
  exec_loads Op.mov_l_l_gbr ins pc s =
      some (load_into 0 (λ v. v) (load32 memory (u32 (s.ctx.gbr + disp 4 ins.imm)) s))
  exec_loads op ins pc s = exec_arith memory abi floats op ins pc s

  unfoldable pub exec_stores : Op.Op → Instr → ℕ → State M → Option (State M)
  exec_stores Op.mov_b_s ins pc s = some (store8 memory (reg s ins.n) (reg s ins.m) s)
  exec_stores Op.mov_w_s ins pc s = some (store16 memory (reg s ins.n) (reg s ins.m) s)
  exec_stores Op.mov_l_s ins pc s = some (store32 memory (reg s ins.n) (reg s ins.m) s)
  exec_stores Op.mov_b_sd ins pc s = some (store_predec (store8 memory) 1 ins.n ins.m s)
  exec_stores Op.mov_w_sd ins pc s = some (store_predec (store16 memory) 2 ins.n ins.m s)
  exec_stores Op.mov_l_sd ins pc s = some (store_predec (store32 memory) 4 ins.n ins.m s)
  exec_stores Op.mov_l_s_disp ins pc s =
      some (store32 memory (u32 (reg s ins.n + disp 4 ins.imm)) (reg s ins.m) s)
  exec_stores Op.mov_b_s_disp0 ins pc s =
      some (store8 memory (u32 (reg s ins.m + disp 1 ins.imm)) (reg s 0) s)
  exec_stores Op.mov_w_s_disp0 ins pc s =
      some (store16 memory (u32 (reg s ins.m + disp 2 ins.imm)) (reg s 0) s)
  exec_stores Op.mov_b_s_r0 ins pc s =
      some (store8 memory (u32 (reg s ins.n + reg s 0)) (reg s ins.m) s)
  exec_stores Op.mov_w_s_r0 ins pc s =
      some (store16 memory (u32 (reg s ins.n + reg s 0)) (reg s ins.m) s)
  exec_stores Op.mov_l_s_r0 ins pc s =
      some (store32 memory (u32 (reg s ins.n + reg s 0)) (reg s ins.m) s)
  exec_stores Op.mov_b_s_gbr ins pc s =
      some (store8 memory (u32 (s.ctx.gbr + disp 1 ins.imm)) (reg s 0) s)
  exec_stores Op.mov_w_s_gbr ins pc s =
      some (store16 memory (u32 (s.ctx.gbr + disp 2 ins.imm)) (reg s 0) s)
  exec_stores Op.mov_l_s_gbr ins pc s =
      some (store32 memory (u32 (s.ctx.gbr + disp 4 ins.imm)) (reg s 0) s)
  exec_stores op ins pc s = exec_loads op ins pc s

  unfoldable pub exec_op : Op.Op → Instr → ℕ → State M → Option (State M)
  exec_op Op.mov_i ins pc s = some (set_reg ins.n (to_u32 ins.imm) s)
  exec_op Op.mov ins pc s = some (set_reg ins.n (reg s ins.m) s)
  exec_op Op.mova ins pc s = some (set_reg 0 (pcrel_target ins pc) s)
  exec_op Op.movt ins pc s = some (set_reg ins.n s.ctx.t s)
  exec_op Op.swap_b ins pc s =
      let v = reg s ins.m in
      some (
        set_reg ins.n
          (bit_or (bit_or (bit_and v 0xffff_0000) (bit_and v 0xff * 2 ^ 8))
            (bit_and (v / 2 ^ 8) 0xff))
          s)
  exec_op Op.swap_w ins pc s =
      let v = reg s ins.m in some (set_reg ins.n (bit_or (u32 (v * 2 ^ 16)) (v / 2 ^ 16)) s)
  exec_op Op.xtrct ins pc s =
      some (set_reg ins.n (bit_or (u32 (reg s ins.m * 2 ^ 16)) (reg s ins.n / 2 ^ 16)) s)
  exec_op op ins pc s = exec_stores op ins pc s

  -- `exec`; `none` is `unimplemented`, or an exception of a called function.
  unfoldable pub exec : ℕ → Instr → State M → Option (State M)
  exec pc ins s = exec_op ins.op ins pc s
