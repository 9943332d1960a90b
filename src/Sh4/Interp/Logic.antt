-- ===== src/Sh4/Interp/Logic.antt =====
-- runtime/src/devinterp/interpreter.cpp: the logic group of `exec`, and the shifts and rotates.
use dream_recomp.Base.{ℕ, ◌+◌, ◌*◌, ◌/◌, ◌^◌, bit_and, bit_or, bit_xor, ◌==◌, bit, Option, some}
use dream_recomp.Base.Bits.{u32}
use dream_recomp.Sh4.Alu.{not32, sar32, shad, shld, rotcl, rotcr}
use dream_recomp.Sh4.Memory.{Memory}
use dream_recomp.Sh4.State.{State, reg, set_reg, set_t, keep_result, load8, store8}
use dream_recomp.Sh4.Float.{Floats}
use dream_recomp.Sh4.Interp.System.{Abi, exec_system}
use dream_recomp.Translator.Decoder.{Instr, to_u32}
use dream_recomp.Translator.Decoder.Op

module _ {M : Type 0} (memory : Memory M) (abi : Abi M) (floats : Floats) where
  -- The byte at GBR + R0 is read, changed and written.
  unfoldable pub change_byte : (ℕ → ℕ) → State M → State M
  change_byte f s =
      let a = u32 (s.ctx.gbr + reg s 0) in
      let (s', v) = load8 memory a s in store8 memory a (f v) s'

  unfoldable pub tas : ℕ → State M → State M
  tas n s =
      let (s1, v) = load8 memory (reg s n) s in
      let s2 = set_t (bit (v == 0)) s1 in store8 memory (reg s2 n) (bit_or v 0x80) s2

  unfoldable pub test_byte : ℕ → State M → State M
  test_byte d s =
      let (s', v) = load8 memory (u32 (s.ctx.gbr + reg s 0)) s in set_t (bit (bit_and v d == 0)) s'

  -- `c.t` takes a bit of the register, which is then shifted.
  unfoldable pub shift_out : (ℕ → ℕ) → (ℕ → ℕ) → ℕ → State M → State M
  shift_out out shift n s = set_reg n (shift (reg s n)) (set_t (out (reg s n)) s)

  unfoldable pub exec_shift : Op.Op → Instr → ℕ → State M → Option (State M)
  exec_shift Op.rotl ins pc s =
      some (shift_out (λ v. v / 2 ^ 31) (λ v. bit_or (u32 (v * 2)) (v / 2 ^ 31)) ins.n s)
  exec_shift Op.rotr ins pc s =
      some (shift_out (λ v. bit_and v 1) (λ v. bit_or (v / 2) (u32 (bit_and v 1 * 2 ^ 31))) ins.n s)
  exec_shift Op.rotcl ins pc s = some (keep_result ins.n (rotcl s.ctx (reg s ins.n)) s)
  exec_shift Op.rotcr ins pc s = some (keep_result ins.n (rotcr s.ctx (reg s ins.n)) s)
  exec_shift Op.shad ins pc s = some (set_reg ins.n (shad (reg s ins.n) (reg s ins.m)) s)
  exec_shift Op.shld ins pc s = some (set_reg ins.n (shld (reg s ins.n) (reg s ins.m)) s)
  exec_shift Op.shal ins pc s = some (shift_out (λ v. v / 2 ^ 31) (λ v. u32 (v * 2)) ins.n s)
  exec_shift Op.shll ins pc s = some (shift_out (λ v. v / 2 ^ 31) (λ v. u32 (v * 2)) ins.n s)
  exec_shift Op.shar ins pc s = some (shift_out (λ v. bit_and v 1) (λ v. sar32 v 1) ins.n s)
  exec_shift Op.shlr ins pc s = some (shift_out (λ v. bit_and v 1) (λ v. v / 2) ins.n s)
  exec_shift Op.shll2 ins pc s = some (set_reg ins.n (u32 (reg s ins.n * 2 ^ 2)) s)
  exec_shift Op.shll8 ins pc s = some (set_reg ins.n (u32 (reg s ins.n * 2 ^ 8)) s)
  exec_shift Op.shll16 ins pc s = some (set_reg ins.n (u32 (reg s ins.n * 2 ^ 16)) s)
  exec_shift Op.shlr2 ins pc s = some (set_reg ins.n (reg s ins.n / 2 ^ 2) s)
  exec_shift Op.shlr8 ins pc s = some (set_reg ins.n (reg s ins.n / 2 ^ 8) s)
  exec_shift Op.shlr16 ins pc s = some (set_reg ins.n (reg s ins.n / 2 ^ 16) s)
  exec_shift op ins pc s = exec_system memory abi floats op ins pc s

  unfoldable pub exec_logic : Op.Op → Instr → ℕ → State M → Option (State M)
  exec_logic Op.and ins pc s = some (set_reg ins.n (bit_and (reg s ins.n) (reg s ins.m)) s)
  exec_logic Op.and_i ins pc s = some (set_reg 0 (bit_and (reg s 0) (to_u32 ins.imm)) s)
  exec_logic Op.and_b_gbr ins pc s = some (change_byte (λ v. bit_and v (to_u32 ins.imm)) s)
  exec_logic Op.not ins pc s = some (set_reg ins.n (not32 (reg s ins.m)) s)
  exec_logic Op.or ins pc s = some (set_reg ins.n (bit_or (reg s ins.n) (reg s ins.m)) s)
  exec_logic Op.or_i ins pc s = some (set_reg 0 (bit_or (reg s 0) (to_u32 ins.imm)) s)
  exec_logic Op.or_b_gbr ins pc s = some (change_byte (λ v. bit_or v (to_u32 ins.imm)) s)
  exec_logic Op.tas_b ins pc s = some (tas ins.n s)
  exec_logic Op.tst ins pc s = some (set_t (bit (bit_and (reg s ins.n) (reg s ins.m) == 0)) s)
  exec_logic Op.tst_i ins pc s = some (set_t (bit (bit_and (reg s 0) (to_u32 ins.imm) == 0)) s)
  exec_logic Op.tst_b_gbr ins pc s = some (test_byte (to_u32 ins.imm) s)
  exec_logic Op.xor ins pc s = some (set_reg ins.n (bit_xor (reg s ins.n) (reg s ins.m)) s)
  exec_logic Op.xor_i ins pc s = some (set_reg 0 (bit_xor (reg s 0) (to_u32 ins.imm)) s)
  exec_logic Op.xor_b_gbr ins pc s = some (change_byte (λ v. bit_xor v (to_u32 ins.imm)) s)
  exec_logic op ins pc s = exec_shift op ins pc s
