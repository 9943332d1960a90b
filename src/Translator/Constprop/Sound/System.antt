-- ===== src/Translator/Constprop/Sound/System.antt =====
-- The system operations of the interpreter, as the analysis sees them.
use dream_recomp.Base.{ℕ, bit_and, ◌≡◌, sym, true, false, Option, List, Bool-cases, ◌==◌, inl, inr}
use mathlib.Core.Bool.{true≢false}
use dream_recomp.Sh4.Memory.{Memory}
use dream_recomp.Sh4.State.{State, reg, set_reg, after_access, load32, store32, flush}
use dream_recomp.Sh4.Float.{Floats, write_fpscr}
use dream_recomp.Sh4.System.{frchg}
use dream_recomp.Sh4.Interp.System.{
  Abi, load_inc, store_dec, to_ctx, from_ctx, prefetch, exec_fpu_control, exec_system,
}
use dream_recomp.Translator.Decoder.{Instr}
use dream_recomp.Translator.Decoder.Op
use dream_recomp.Translator.Constprop.{Image, transfer_op, transfer_unary, other, reads_only}
use dream_recomp.Translator.Constprop.Agree.{Agree}
use dream_recomp.Translator.Constprop.Sound.{Sound, tracked, forget}
use dream_recomp.Translator.Constprop.Sound.Fpu.{exec_fp-Sound}

module _ {M : Type 0} (memory : Memory M) (abi : Abi M) (floats : Floats) (img : Image) where
  pub exec_fpu_control-Sound :
      (p : ℕ) (op : Op.Op) (i : Instr) (os : List (Option ℕ)) (s : State M)
      → Agree os s.ctx.r
      → tracked op ≡ true
      → Sound (transfer_op img false p op i os) (exec_fpu_control memory abi floats op i s)
  unfolding exec_fpu_control transfer_op transfer_unary other reads_only tracked set_reg to_ctx
      from_ctx load_inc store_dec after_access load32 store32 write_fpscr frchg
  exec_fpu_control-Sound p Op.frchg i os s h t = h
  exec_fpu_control-Sound p Op.fschg i os s h t = h
  exec_fpu_control-Sound p Op.lds_fpul i os s h t = h
  exec_fpu_control-Sound p Op.lds_fpscr i os s h t = h
  exec_fpu_control-Sound p Op.sts_fpul i os s h t = forget os s.ctx.r i.n _ h
  exec_fpu_control-Sound p Op.sts_l_fpul i os s h t = forget os s.ctx.r i.n _ h
  exec_fpu_control-Sound p Op.sts_fpscr i os s h t = forget os s.ctx.r i.n _ h
  exec_fpu_control-Sound p Op.sts_l_fpscr i os s h t = forget os s.ctx.r i.n _ h
  exec_fpu_control-Sound p Op.lds_l_fpul i os s h t = absurd (true≢false (sym t))
  exec_fpu_control-Sound p Op.lds_l_fpscr i os s h t = absurd (true≢false (sym t))
  exec_fpu_control-Sound p op i os s h t = exec_fp-Sound memory floats img p op i os s h

  prefetch-Agree :
      (os : List (Option ℕ)) (a : ℕ) (s : State M)
      → Agree os s.ctx.r
      → Agree os (prefetch memory abi floats a s).ctx.r
  unfolding prefetch flush after_access
  prefetch-Agree os a s h = elim (Bool-cases (bit_and a 0xfc00_0000 == 0xe000_0000)) [
    | inl hit ↦ rw hit h
    | inr miss ↦ rw miss h
  ]

  pub exec_system-Sound :
      (p : ℕ) (op : Op.Op) (i : Instr) (os : List (Option ℕ)) (s : State M)
      → Agree os s.ctx.r
      → tracked op ≡ true
      → Sound (transfer_op img false p op i os) (exec_system memory abi floats op i p s)
  unfolding exec_system transfer_op transfer_unary other reads_only tracked set_reg to_ctx from_ctx
      load_inc store_dec after_access load32 store32
  exec_system-Sound p Op.clrmac i os s h t = h
  exec_system-Sound p Op.clrs i os s h t = h
  exec_system-Sound p Op.clrt i os s h t = h
  exec_system-Sound p Op.sets i os s h t = h
  exec_system-Sound p Op.sett i os s h t = h
  exec_system-Sound p Op.nop i os s h t = h
  exec_system-Sound p Op.ldc_gbr i os s h t = h
  exec_system-Sound p Op.ldc_vbr i os s h t = h
  exec_system-Sound p Op.ldc_ssr i os s h t = h
  exec_system-Sound p Op.ldc_spc i os s h t = h
  exec_system-Sound p Op.ldc_dbr i os s h t = h
  exec_system-Sound p Op.ldc_bank i os s h t = h
  exec_system-Sound p Op.lds_mach i os s h t = h
  exec_system-Sound p Op.lds_macl i os s h t = h
  exec_system-Sound p Op.lds_pr i os s h t = h
  exec_system-Sound p Op.movca_l i os s h t = h
  exec_system-Sound p Op.ocbi i os s h t = h
  exec_system-Sound p Op.ocbp i os s h t = h
  exec_system-Sound p Op.ocbwb i os s h t = h
  exec_system-Sound p Op.pref i os s h t = prefetch-Agree os (reg s i.n) s h
  exec_system-Sound p Op.stc_sr i os s h t = forget os s.ctx.r i.n _ h
  exec_system-Sound p Op.stc_gbr i os s h t = forget os s.ctx.r i.n _ h
  exec_system-Sound p Op.stc_vbr i os s h t = forget os s.ctx.r i.n _ h
  exec_system-Sound p Op.stc_ssr i os s h t = forget os s.ctx.r i.n _ h
  exec_system-Sound p Op.stc_spc i os s h t = forget os s.ctx.r i.n _ h
  exec_system-Sound p Op.stc_sgr i os s h t = forget os s.ctx.r i.n _ h
  exec_system-Sound p Op.stc_dbr i os s h t = forget os s.ctx.r i.n _ h
  exec_system-Sound p Op.stc_bank i os s h t = forget os s.ctx.r i.n _ h
  exec_system-Sound p Op.stc_l_sr i os s h t = forget os s.ctx.r i.n _ h
  exec_system-Sound p Op.stc_l_gbr i os s h t = forget os s.ctx.r i.n _ h
  exec_system-Sound p Op.stc_l_vbr i os s h t = forget os s.ctx.r i.n _ h
  exec_system-Sound p Op.stc_l_ssr i os s h t = forget os s.ctx.r i.n _ h
  exec_system-Sound p Op.stc_l_spc i os s h t = forget os s.ctx.r i.n _ h
  exec_system-Sound p Op.stc_l_sgr i os s h t = forget os s.ctx.r i.n _ h
  exec_system-Sound p Op.stc_l_dbr i os s h t = forget os s.ctx.r i.n _ h
  exec_system-Sound p Op.stc_l_bank i os s h t = forget os s.ctx.r i.n _ h
  exec_system-Sound p Op.sts_mach i os s h t = forget os s.ctx.r i.n _ h
  exec_system-Sound p Op.sts_macl i os s h t = forget os s.ctx.r i.n _ h
  exec_system-Sound p Op.sts_pr i os s h t = forget os s.ctx.r i.n _ h
  exec_system-Sound p Op.sts_l_mach i os s h t = forget os s.ctx.r i.n _ h
  exec_system-Sound p Op.sts_l_macl i os s h t = forget os s.ctx.r i.n _ h
  exec_system-Sound p Op.sts_l_pr i os s h t = forget os s.ctx.r i.n _ h
  exec_system-Sound p Op.ldc_sr i os s h t = absurd (true≢false (sym t))
  exec_system-Sound p Op.ldc_l_sr i os s h t = absurd (true≢false (sym t))
  exec_system-Sound p Op.ldc_l_gbr i os s h t = absurd (true≢false (sym t))
  exec_system-Sound p Op.ldc_l_vbr i os s h t = absurd (true≢false (sym t))
  exec_system-Sound p Op.ldc_l_ssr i os s h t = absurd (true≢false (sym t))
  exec_system-Sound p Op.ldc_l_spc i os s h t = absurd (true≢false (sym t))
  exec_system-Sound p Op.ldc_l_dbr i os s h t = absurd (true≢false (sym t))
  exec_system-Sound p Op.ldc_l_bank i os s h t = absurd (true≢false (sym t))
  exec_system-Sound p Op.lds_l_mach i os s h t = absurd (true≢false (sym t))
  exec_system-Sound p Op.lds_l_macl i os s h t = absurd (true≢false (sym t))
  exec_system-Sound p Op.lds_l_pr i os s h t = absurd (true≢false (sym t))
  exec_system-Sound p Op.trapa i os s h t = absurd (true≢false (sym t))
  exec_system-Sound p Op.sleep i os s h t = absurd (true≢false (sym t))
  exec_system-Sound p op i os s h t = exec_fpu_control-Sound p op i os s h t
