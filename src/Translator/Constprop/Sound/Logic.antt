-- ===== src/Translator/Constprop/Sound/Logic.antt =====
-- The logic operations and shifts of the interpreter, as the analysis sees them.
use dream_recomp.Base.{ℕ, ◌*◌, ◌/◌, ◌^◌, bit_and, bit_or, bit_xor, ◌≡◌, true, false, Option, List}
use dream_recomp.Base.Bits.{u32}
use dream_recomp.Sh4.Alu.{not32, sar32}
use dream_recomp.Sh4.Memory.{Memory}
use dream_recomp.Sh4.State.{State, set_reg, keep_result, after_access, load8, store8}
use dream_recomp.Sh4.Float.{Floats}
use dream_recomp.Sh4.Interp.System.{Abi}
use dream_recomp.Translator.Decoder.{Instr, to_u32}
use dream_recomp.Translator.Decoder.Op
use dream_recomp.Translator.Constprop.{Image, known, transfer_op, transfer_unary, other, reads_only}
use dream_recomp.Translator.Constprop.Agree.{Agree, Agree-get, Agree-set, Holds-or_known}
use dream_recomp.Translator.Constprop.Sound.{
  assign-Agree, both-Agree, Sound, Shaped, tracked, forget,
}
use dream_recomp.Sh4.Alu.{rotcl, rotcr}
use dream_recomp.Sh4.Interp.Logic.{exec_logic, exec_shift, shift_out, change_byte, tas, test_byte}
use dream_recomp.Translator.Constprop.Sound.System.{exec_system-Sound}

module _ {M : Type 0} (memory : Memory M) (abi : Abi M) (floats : Floats) (img : Image) where
  pub exec_shift-Sound :
      (p : ℕ) (op : Op.Op) (i : Instr) (os : List (Option ℕ)) (s : State M)
      → Agree os s.ctx.r
      → tracked op ≡ true
      → Sound (transfer_op img false p op i os) (exec_shift memory abi floats op i p s)
  unfolding exec_shift transfer_op transfer_unary other reads_only tracked set_reg keep_result
      shift_out rotcl rotcr
  exec_shift-Sound p Op.rotl i os s h t = forget os s.ctx.r i.n _ h
  exec_shift-Sound p Op.rotr i os s h t = forget os s.ctx.r i.n _ h
  exec_shift-Sound p Op.rotcl i os s h t = forget os s.ctx.r i.n _ h
  exec_shift-Sound p Op.rotcr i os s h t = forget os s.ctx.r i.n _ h
  exec_shift-Sound p Op.shad i os s h t = forget os s.ctx.r i.n _ h
  exec_shift-Sound p Op.shld i os s h t = forget os s.ctx.r i.n _ h
  exec_shift-Sound p Op.shal i os s h t = assign-Agree (λ v. u32 (v * 2)) os s.ctx.r i.n i.n h
  exec_shift-Sound p Op.shll i os s h t = assign-Agree (λ v. u32 (v * 2)) os s.ctx.r i.n i.n h
  exec_shift-Sound p Op.shar i os s h t = assign-Agree (λ v. sar32 v 1) os s.ctx.r i.n i.n h
  exec_shift-Sound p Op.shlr i os s h t = assign-Agree (λ v. v / 2) os s.ctx.r i.n i.n h
  exec_shift-Sound p Op.shll2 i os s h t = assign-Agree (λ v. u32 (v * 2 ^ 2)) os s.ctx.r i.n i.n h
  exec_shift-Sound p Op.shll8 i os s h t = assign-Agree (λ v. u32 (v * 2 ^ 8)) os s.ctx.r i.n i.n h
  exec_shift-Sound p Op.shll16 i os s h t =
      assign-Agree (λ v. u32 (v * 2 ^ 16)) os s.ctx.r i.n i.n h
  exec_shift-Sound p Op.shlr2 i os s h t = assign-Agree (λ v. v / 2 ^ 2) os s.ctx.r i.n i.n h
  exec_shift-Sound p Op.shlr8 i os s h t = assign-Agree (λ v. v / 2 ^ 8) os s.ctx.r i.n i.n h
  exec_shift-Sound p Op.shlr16 i os s h t = assign-Agree (λ v. v / 2 ^ 16) os s.ctx.r i.n i.n h
  exec_shift-Sound p op i os s h t = exec_system-Sound memory abi floats img p op i os s h t

  pub exec_logic-Sound :
      (p : ℕ) (op : Op.Op) (i : Instr) (os : List (Option ℕ)) (s : State M)
      → Agree os s.ctx.r
      → tracked op ≡ true
      → Shaped op i
      → Sound (transfer_op img false p op i os) (exec_logic memory abi floats op i p s)
  unfolding exec_logic transfer_op transfer_unary other reads_only tracked set_reg Shaped
      change_byte tas test_byte load8 store8 after_access
  exec_logic-Sound p Op.and i os s h t shape = both-Agree (λ v w. bit_and v w) os s.ctx.r i.n i.m h
  exec_logic-Sound p Op.xor i os s h t shape = both-Agree (λ v w. bit_xor v w) os s.ctx.r i.n i.m h
  exec_logic-Sound p Op.or i os s h t shape = Agree-set os s.ctx.r i.n _ _ h (
      Holds-or_known (known os i.n) (known os i.m) _ _ (Agree-get os s.ctx.r i.n h)
        (Agree-get os s.ctx.r i.m h))
  exec_logic-Sound p Op.and_i i os s h t shape =
      rw shape (assign-Agree (λ v. bit_and v (to_u32 i.imm)) os s.ctx.r 0 0 h)
  exec_logic-Sound p Op.xor_i i os s h t shape =
      rw shape (assign-Agree (λ v. bit_xor v (to_u32 i.imm)) os s.ctx.r 0 0 h)
  exec_logic-Sound p Op.or_i i os s h t shape =
      rw (shape.0, shape.1) (assign-Agree (λ v. bit_or v (to_u32 i.imm)) os s.ctx.r 0 0 h)
  exec_logic-Sound p Op.not i os s h t shape = assign-Agree (λ v. not32 v) os s.ctx.r i.n i.m h
  exec_logic-Sound p Op.and_b_gbr i os s h t shape = h
  exec_logic-Sound p Op.or_b_gbr i os s h t shape = h
  exec_logic-Sound p Op.xor_b_gbr i os s h t shape = h
  exec_logic-Sound p Op.tas_b i os s h t shape = h
  exec_logic-Sound p Op.tst i os s h t shape = h
  exec_logic-Sound p Op.tst_i i os s h t shape = h
  exec_logic-Sound p Op.tst_b_gbr i os s h t shape = h
  exec_logic-Sound p op i os s h t shape = exec_shift-Sound p op i os s h t
