-- ===== src/Translator/Constprop/Sound/Arith.antt =====
-- The arithmetic operations of the interpreter, as the analysis sees them.
use dream_recomp.Base.{ℕ, ◌+◌, bit_and, ◌≡◌, arith, refl, true, false, Option, none, List, set}
use dream_recomp.Base.Bits.{u32}
use dream_recomp.Sh4.Alu.{sub32}
use dream_recomp.Sh4.Ctx.{Ctx}
use dream_recomp.Sh4.Memory.{Memory}
use dream_recomp.Sh4.State.{State, set_reg, keep_result, after_access, load16, load32, sx8, sx16}
use dream_recomp.Sh4.Float.{Floats}
use dream_recomp.Sh4.Interp.System.{Abi}
use dream_recomp.Translator.Decoder.{Instr, to_u32}
use dream_recomp.Translator.Decoder.Op
use dream_recomp.Translator.Constprop.{Image, transfer_op, transfer_unary, other, reads_only}
use dream_recomp.Translator.Constprop.Agree.{Agree}
use dream_recomp.Translator.Constprop.Sound.{
  assign-Agree, both-Agree, Sound, Shaped, tracked, forget,
}
use dream_recomp.Base.Int.{ℤ}
use dream_recomp.Sh4.Alu.{addc, addv, subc, subv, negc, div0s, div0u, div1}
use dream_recomp.Sh4.System.{dmulu}
use dream_recomp.Sh4.Multiply.{dmuls, mac_l, mac_w, mac_w_saturated}
use dream_recomp.Sh4.Interp.Arith.{
  exec_arith, exec_compare, exec_multiply, exec_mac_l, exec_mac_w, exec_dt, set_macl,
}
use dream_recomp.Translator.Constprop.Sound.Fpu.{if_same_regs}
use dream_recomp.Translator.Constprop.Sound.Logic.{exec_logic-Sound}

mac_l_regs : (c : Ctx) (a b : ℤ) → (mac_l c a b).r ≡ c.r
unfolding mac_l
mac_l_regs c a b = if_same_regs _ c.r _ _ refl refl

mac_w_saturated_regs : (c : Ctx) (sum : ℤ) → (mac_w_saturated c sum).r ≡ c.r
unfolding mac_w_saturated
mac_w_saturated_regs c sum = ground arith

mac_w_regs : (c : Ctx) (a b : ℤ) → (mac_w c a b).r ≡ c.r
unfolding mac_w
mac_w_regs c a b = if_same_regs _ c.r _ _ refl (mac_w_saturated_regs c _)

module _ {M : Type 0} (memory : Memory M) (abi : Abi M) (floats : Floats) (img : Image) where
  pub exec_multiply-Sound :
      (p : ℕ) (op : Op.Op) (i : Instr) (os : List (Option ℕ)) (s : State M)
      → Agree os s.ctx.r
      → tracked op ≡ true
      → Shaped op i
      → Sound (transfer_op img false p op i os) (exec_multiply memory abi floats op i p s)
  unfolding exec_multiply transfer_op transfer_unary other reads_only tracked set_reg Shaped
      exec_mac_l exec_mac_w set_macl dmuls dmulu load16 load32 after_access
  exec_multiply-Sound p Op.mac_l i os s h t shape =
      rw (mac_l_regs _ _ _)
        (forget (set os i.n none) (set s.ctx.r i.n _) i.m _ (forget os s.ctx.r i.n _ h))
  exec_multiply-Sound p Op.mac_w i os s h t shape =
      rw (mac_w_regs _ _ _)
        (forget (set os i.n none) (set s.ctx.r i.n _) i.m _ (forget os s.ctx.r i.n _ h))
  exec_multiply-Sound p Op.mul_l i os s h t shape = h
  exec_multiply-Sound p Op.muls_w i os s h t shape = h
  exec_multiply-Sound p Op.mulu_w i os s h t shape = h
  exec_multiply-Sound p Op.dmuls_l i os s h t shape = h
  exec_multiply-Sound p Op.dmulu_l i os s h t shape = h
  exec_multiply-Sound p op i os s h t shape =
      exec_logic-Sound memory abi floats img p op i os s h t shape

  pub exec_compare-Sound :
      (p : ℕ) (op : Op.Op) (i : Instr) (os : List (Option ℕ)) (s : State M)
      → Agree os s.ctx.r
      → tracked op ≡ true
      → Shaped op i
      → Sound (transfer_op img false p op i os) (exec_compare memory abi floats op i p s)
  unfolding exec_compare transfer_op transfer_unary other reads_only tracked set_reg Shaped
  exec_compare-Sound p Op.cmp_eq_i i os s h t shape = h
  exec_compare-Sound p Op.cmp_eq i os s h t shape = h
  exec_compare-Sound p Op.cmp_hs i os s h t shape = h
  exec_compare-Sound p Op.cmp_ge i os s h t shape = h
  exec_compare-Sound p Op.cmp_hi i os s h t shape = h
  exec_compare-Sound p Op.cmp_gt i os s h t shape = h
  exec_compare-Sound p Op.cmp_pz i os s h t shape = h
  exec_compare-Sound p Op.cmp_pl i os s h t shape = h
  exec_compare-Sound p Op.cmp_str i os s h t shape = h
  exec_compare-Sound p op i os s h t shape = exec_multiply-Sound p op i os s h t shape

  pub exec_arith-Sound :
      (p : ℕ) (op : Op.Op) (i : Instr) (os : List (Option ℕ)) (s : State M)
      → Agree os s.ctx.r
      → tracked op ≡ true
      → Shaped op i
      → Sound (transfer_op img false p op i os) (exec_arith memory abi floats op i p s)
  unfolding exec_arith transfer_op transfer_unary other reads_only tracked set_reg Shaped
      keep_result addc addv subc subv negc div0s div0u div1 exec_dt
  exec_arith-Sound p Op.add i os s h t shape = both-Agree (λ v w. u32 (v + w)) os s.ctx.r i.n i.m h
  exec_arith-Sound p Op.sub i os s h t shape = both-Agree (λ v w. sub32 v w) os s.ctx.r i.n i.m h
  exec_arith-Sound p Op.add_i i os s h t shape =
      assign-Agree (λ v. u32 (v + to_u32 i.imm)) os s.ctx.r i.n i.n h
  exec_arith-Sound p Op.dt i os s h t shape = assign-Agree (λ v. sub32 v 1) os s.ctx.r i.n i.n h
  exec_arith-Sound p Op.addc i os s h t shape = forget os s.ctx.r i.n _ h
  exec_arith-Sound p Op.addv i os s h t shape = forget os s.ctx.r i.n _ h
  exec_arith-Sound p Op.div1 i os s h t shape = forget os s.ctx.r i.n _ h
  exec_arith-Sound p Op.negc i os s h t shape = forget os s.ctx.r i.n _ h
  exec_arith-Sound p Op.subc i os s h t shape = forget os s.ctx.r i.n _ h
  exec_arith-Sound p Op.subv i os s h t shape = forget os s.ctx.r i.n _ h
  exec_arith-Sound p Op.div0s i os s h t shape = h
  exec_arith-Sound p Op.div0u i os s h t shape = h
  exec_arith-Sound p Op.exts_b i os s h t shape = assign-Agree sx8 os s.ctx.r i.n i.m h
  exec_arith-Sound p Op.exts_w i os s h t shape = assign-Agree sx16 os s.ctx.r i.n i.m h
  exec_arith-Sound p Op.extu_b i os s h t shape =
      assign-Agree (λ v. bit_and v 0xff) os s.ctx.r i.n i.m h
  exec_arith-Sound p Op.extu_w i os s h t shape =
      assign-Agree (λ v. bit_and v 0xffff) os s.ctx.r i.n i.m h
  exec_arith-Sound p Op.neg i os s h t shape = assign-Agree (λ v. sub32 0 v) os s.ctx.r i.n i.m h
  exec_arith-Sound p op i os s h t shape = exec_compare-Sound p op i os s h t shape
