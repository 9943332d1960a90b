-- ===== src/Sh4/Interp/Arith.antt =====
-- runtime/src/devinterp/interpreter.cpp: the arithmetic group of `exec`.
use dream_recomp.Base.{ℕ, ◌+◌, ◌*◌, bit_and, not, ◌==◌, ltb, leb, bit, Option, some}
use dream_recomp.Base.Bits.{u32}
use dream_recomp.Base.Int.{pos, signed, signed32, pattern_of, ltb_ℤ, ◌*ℤ◌}
use dream_recomp.Sh4.Alu.{sub32, addc, addv, subc, subv, negc, div0s, div0u, div1}
use dream_recomp.Sh4.Memory.{Memory}
use dream_recomp.Sh4.Multiply.{dmuls, mac_l, mac_w}
use dream_recomp.Sh4.System.{cmp_str, dmulu}
use dream_recomp.Sh4.State.{
  State, reg, set_reg, set_ctx, set_t, keep_result, sx8, sx16, load16, load32,
}
use dream_recomp.Sh4.Float.{Floats}
use dream_recomp.Sh4.Interp.System.{Abi}
use dream_recomp.Sh4.Interp.Logic.{exec_logic}
use dream_recomp.Translator.Decoder.{Instr, to_u32}
use dream_recomp.Translator.Decoder.Op

module _ {M : Type 0} (memory : Memory M) (abi : Abi M) (floats : Floats) where
  -- Both pointers advance; where they are one register, the second read takes the advanced one.
  unfoldable pub exec_mac_l : ℕ → ℕ → State M → State M
  exec_mac_l n m s =
      let (s1, a) = load32 memory (reg s n) s in
      let s2 = set_reg n (u32 (reg s1 n + 4)) s1 in
      let (s3, b) = load32 memory (reg s2 m) s2 in
      let s4 = set_reg m (u32 (reg s3 m + 4)) s3 in
      set_ctx (mac_l s4.ctx (signed32 a) (signed32 b)) s4

  unfoldable pub exec_mac_w : ℕ → ℕ → State M → State M
  exec_mac_w n m s =
      let (s1, a) = load16 memory (reg s n) s in
      let s2 = set_reg n (u32 (reg s1 n + 2)) s1 in
      let (s3, b) = load16 memory (reg s2 m) s2 in
      let s4 = set_reg m (u32 (reg s3 m + 2)) s3 in
      set_ctx (mac_w s4.ctx (signed 16 a) (signed 16 b)) s4

  unfoldable pub exec_dt : ℕ → State M → State M
  exec_dt n s = let s' = set_reg n (sub32 (reg s n) 1) s in set_t (bit (reg s' n == 0)) s'

  unfoldable pub set_macl : ℕ → State M → State M
  set_macl v s = set_ctx (record s.ctx { macl = v }) s

  unfoldable pub exec_multiply : Op.Op → Instr → ℕ → State M → Option (State M)
  exec_multiply Op.mac_l ins pc s = some (exec_mac_l ins.n ins.m s)
  exec_multiply Op.mac_w ins pc s = some (exec_mac_w ins.n ins.m s)
  exec_multiply Op.mul_l ins pc s = some (set_macl (u32 (reg s ins.n * reg s ins.m)) s)
  exec_multiply Op.muls_w ins pc s =
      some (
        set_macl (pattern_of 32 (signed32 (sx16 (reg s ins.n)) *ℤ signed32 (sx16 (reg s ins.m)))) s)
  exec_multiply Op.mulu_w ins pc s =
      some (set_macl (u32 (bit_and (reg s ins.n) 0xffff * bit_and (reg s ins.m) 0xffff)) s)
  exec_multiply Op.dmuls_l ins pc s = some (set_ctx (dmuls s.ctx (reg s ins.n) (reg s ins.m)) s)
  exec_multiply Op.dmulu_l ins pc s = some (set_ctx (dmulu s.ctx (reg s ins.n) (reg s ins.m)) s)
  exec_multiply op ins pc s = exec_logic memory abi floats op ins pc s

  unfoldable pub exec_compare : Op.Op → Instr → ℕ → State M → Option (State M)
  exec_compare Op.cmp_eq_i ins pc s = some (set_t (bit (reg s 0 == to_u32 ins.imm)) s)
  exec_compare Op.cmp_eq ins pc s = some (set_t (bit (reg s ins.n == reg s ins.m)) s)
  exec_compare Op.cmp_hs ins pc s = some (set_t (bit (leb (reg s ins.m) (reg s ins.n))) s)
  exec_compare Op.cmp_ge ins pc s =
      some (set_t (bit (not (ltb_ℤ (signed32 (reg s ins.n)) (signed32 (reg s ins.m))))) s)
  exec_compare Op.cmp_hi ins pc s = some (set_t (bit (ltb (reg s ins.m) (reg s ins.n))) s)
  exec_compare Op.cmp_gt ins pc s =
      some (set_t (bit (ltb_ℤ (signed32 (reg s ins.m)) (signed32 (reg s ins.n)))) s)
  exec_compare Op.cmp_pz ins pc s =
      some (set_t (bit (not (ltb_ℤ (signed32 (reg s ins.n)) (pos 0)))) s)
  exec_compare Op.cmp_pl ins pc s = some (set_t (bit (ltb_ℤ (pos 0) (signed32 (reg s ins.n)))) s)
  exec_compare Op.cmp_str ins pc s = some (set_t (cmp_str (reg s ins.n) (reg s ins.m)) s)
  exec_compare op ins pc s = exec_multiply op ins pc s

  unfoldable pub exec_arith : Op.Op → Instr → ℕ → State M → Option (State M)
  exec_arith Op.add ins pc s = some (set_reg ins.n (u32 (reg s ins.n + reg s ins.m)) s)
  exec_arith Op.add_i ins pc s = some (set_reg ins.n (u32 (reg s ins.n + to_u32 ins.imm)) s)
  exec_arith Op.addc ins pc s = some (keep_result ins.n (addc s.ctx (reg s ins.n) (reg s ins.m)) s)
  exec_arith Op.addv ins pc s = some (keep_result ins.n (addv s.ctx (reg s ins.n) (reg s ins.m)) s)
  exec_arith Op.div1 ins pc s = some (keep_result ins.n (div1 s.ctx (reg s ins.n) (reg s ins.m)) s)
  exec_arith Op.div0s ins pc s = some (set_ctx (div0s s.ctx (reg s ins.n) (reg s ins.m)) s)
  exec_arith Op.div0u ins pc s = some (set_ctx (div0u s.ctx) s)
  exec_arith Op.dt ins pc s = some (exec_dt ins.n s)
  exec_arith Op.exts_b ins pc s = some (set_reg ins.n (sx8 (reg s ins.m)) s)
  exec_arith Op.exts_w ins pc s = some (set_reg ins.n (sx16 (reg s ins.m)) s)
  exec_arith Op.extu_b ins pc s = some (set_reg ins.n (bit_and (reg s ins.m) 0xff) s)
  exec_arith Op.extu_w ins pc s = some (set_reg ins.n (bit_and (reg s ins.m) 0xffff) s)
  exec_arith Op.neg ins pc s = some (set_reg ins.n (sub32 0 (reg s ins.m)) s)
  exec_arith Op.negc ins pc s = some (keep_result ins.n (negc s.ctx (reg s ins.m)) s)
  exec_arith Op.sub ins pc s = some (set_reg ins.n (sub32 (reg s ins.n) (reg s ins.m)) s)
  exec_arith Op.subc ins pc s = some (keep_result ins.n (subc s.ctx (reg s ins.n) (reg s ins.m)) s)
  exec_arith Op.subv ins pc s = some (keep_result ins.n (subv s.ctx (reg s ins.n) (reg s ins.m)) s)
  exec_arith op ins pc s = exec_compare op ins pc s
