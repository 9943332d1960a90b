-- ===== src/Translator/Constprop/Stale.antt =====
-- The post-increment loads of system registers in the analysis and in the interpreter.
use dream_recomp.Base.{
  ℕ, ◌+◌, ◌<◌, ◌≡◌, ◌≢◌, sym, Bool, true, false, Option, none, some, List, set, length,
  get_or-set_self, get_or-set_ne,
}
use mathlib.Core.Bool.{true≢false}
use dream_recomp.Base.Bits.{u32}
use dream_recomp.Sh4.Memory.{Memory}
use dream_recomp.Sh4.State.{State, reg, set_reg, load32, after_access}
use dream_recomp.Sh4.Float.{Floats}
use dream_recomp.Sh4.Interp.System.{Abi, load_inc, exec_system}
use dream_recomp.Translator.Decoder.{Instr}
use dream_recomp.Translator.Decoder.Op
use dream_recomp.Translator.Constprop.{Image, known, transfer_op, transfer_unary, other, reads_only}

-- The loads that take a system register from memory and advance the pointer in the field `m`.
abbrev pub pops : Op.Op → Bool
pops Op.lds_l_mach = true
pops Op.lds_l_macl = true
pops Op.lds_l_pr = true
pops Op.ldc_l_gbr = true
pops Op.ldc_l_vbr = true
pops Op.ldc_l_ssr = true
pops Op.ldc_l_spc = true
pops Op.ldc_l_dbr = true
pops op = false

module _ {M : Type 0} (memory : Memory M) (abi : Abi M) (floats : Floats) where
  -- The register after the instruction, which does not raise.
  abbrev pub Advanced : ℕ → State M → Option (State M) → Type 0
  Advanced k s none = ⊥
  Advanced k s (some s') = reg s' k ≡ u32 (reg s k + 4)

  cleared : (os : List (Option ℕ)) (n m : ℕ) → n ≡ 0 → m ≢ 0 → known (set os n none) m ≡ known os m
  cleared os n m z m≢0 = rw z (get_or-set_ne os 0 m none none (λ e. m≢0 (sym e)))

  -- Where a load of PR, MACH, MACL, GBR, VBR, SSR, SPC or DBR at @Rm+ is decoded with 0 in the field
  -- `n` and Rm is not R0: the interpreter adds 4 to Rm, and the analysis keeps for Rm the value that
  -- it had before. Condition: Rm is one of the context's registers.
  pub pop-stale :
      (img : Image) (alias_or : Bool) (p : ℕ) (op : Op.Op) (i : Instr) (os : List (Option ℕ))
      (s : State M)
      → pops op ≡ true
      → i.n ≡ 0
      → i.m ≢ 0
      → i.m < length s.ctx.r
      → (known (transfer_op img alias_or p op i os) i.m ≡ known os i.m)
        × Advanced i.m s (exec_system memory abi floats op i p s)
  unfolding exec_system transfer_op transfer_unary other reads_only load_inc load32 after_access
      set_reg
  pop-stale img alias_or p Op.lds_l_mach i os s pop z m≢0 h =
      (cleared os i.n i.m z m≢0, get_or-set_self s.ctx.r i.m _ 0 h)
  pop-stale img alias_or p Op.lds_l_macl i os s pop z m≢0 h =
      (cleared os i.n i.m z m≢0, get_or-set_self s.ctx.r i.m _ 0 h)
  pop-stale img alias_or p Op.lds_l_pr i os s pop z m≢0 h =
      (cleared os i.n i.m z m≢0, get_or-set_self s.ctx.r i.m _ 0 h)
  pop-stale img alias_or p Op.ldc_l_gbr i os s pop z m≢0 h =
      (cleared os i.n i.m z m≢0, get_or-set_self s.ctx.r i.m _ 0 h)
  pop-stale img alias_or p Op.ldc_l_vbr i os s pop z m≢0 h =
      (cleared os i.n i.m z m≢0, get_or-set_self s.ctx.r i.m _ 0 h)
  pop-stale img alias_or p Op.ldc_l_ssr i os s pop z m≢0 h =
      (cleared os i.n i.m z m≢0, get_or-set_self s.ctx.r i.m _ 0 h)
  pop-stale img alias_or p Op.ldc_l_spc i os s pop z m≢0 h =
      (cleared os i.n i.m z m≢0, get_or-set_self s.ctx.r i.m _ 0 h)
  pop-stale img alias_or p Op.ldc_l_dbr i os s pop z m≢0 h =
      (cleared os i.n i.m z m≢0, get_or-set_self s.ctx.r i.m _ 0 h)
  pop-stale img alias_or p op i os s pop z m≢0 h = absurd (true≢false (sym pop))
