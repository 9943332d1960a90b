-- ===== src/Translator/Constprop/Sound/Fpu.antt =====
-- The FPU operations leave the general registers alone, but for the pointers of FMOV.
use dream_recomp.Base.{
  ℕ, ◌+◌, ◌≡◌, refl, Bool, true, false, if◌then◌else◌, Option, none, some, List,
}
use dream_recomp.Base.Bits.{u32}
use dream_recomp.Sh4.Ctx.{Ctx}
use dream_recomp.Sh4.Memory.{Memory}
use dream_recomp.Sh4.State.{State, reg, set_reg, load32, store32, after_access}
use dream_recomp.Sh4.Float
use dream_recomp.Sh4.Float.{Floats, set_freg, set_dr, set_xd, fmov_pair_load, read_pair, write_pair}
use dream_recomp.Sh4.Interp.Fpu.{
  compute, computed, binary, compare, fmov_load, fmov_store, loaded, exec_fp, is_sz, is_pr,
}
use dream_recomp.Translator.Decoder.{Instr}
use dream_recomp.Translator.Decoder.Op
use dream_recomp.Translator.Constprop.{Image, transfer_op, transfer_unary, other, reads_only}
use dream_recomp.Translator.Constprop.Agree.{Agree}
use dream_recomp.Translator.Constprop.Sound.{Sound, forget}

pub if_same_regs :
    (b : Bool) (r : List ℕ) (c d : Ctx) → c.r ≡ r → d.r ≡ r → (if b then c else d).r ≡ r
if_same_regs true r c d p q = p
if_same_regs false r c d p q = q

pair_load_regs : (n v : ℕ) (c : Ctx) → (fmov_pair_load n v c).r ≡ c.r
unfolding fmov_pair_load set_dr set_xd
pair_load_regs n v c = if_same_regs _ c.r _ _ refl refl

module _ {M : Type 0} where
  if_state :
      (b : Bool) (r : List ℕ) (s u : State M)
      → s.ctx.r ≡ r
      → u.ctx.r ≡ r
      → (if b then s else u).ctx.r ≡ r
  if_state true r s u p q = p
  if_state false r s u p q = q

module _ {M : Type 0} (memory : Memory M) where
  pub fmov_load_regs : (n a : ℕ) (s : State M) → (fmov_load memory n a s).ctx.r ≡ s.ctx.r
  unfolding fmov_load loaded read_pair load32 after_access set_freg
  fmov_load_regs n a s = if_state (is_sz s.ctx) s.ctx.r _ _ (pair_load_regs n _ _) refl

  pub fmov_store_regs : (m a : ℕ) (s : State M) → (fmov_store memory m a s).ctx.r ≡ s.ctx.r
  unfolding fmov_store write_pair store32 after_access
  fmov_store_regs m a s = if_state (is_sz s.ctx) s.ctx.r _ _ refl refl

module _ (floats : Floats) where
  abbrev Same : Ctx → Option Ctx → Type 0
  Same c none = Unit
  Same c (some d) = d.r ≡ c.r

  -- An operation of `compute` is one that the analysis takes to read only.
  compute-Same : (op : Op.Op) (n m : ℕ) (c : Ctx) → Same c (compute floats op n m c)
  unfolding compute binary compare set_dr set_freg Float.fsca Float.fipr Float.ftrv
  compute-Same Op.fldi0 n m c = refl
  compute-Same Op.fldi1 n m c = refl
  compute-Same Op.flds n m c = refl
  compute-Same Op.fsts n m c = refl
  compute-Same Op.fabs n m c = refl
  compute-Same Op.fneg n m c = refl
  compute-Same Op.fadd n m c = if_same_regs (is_pr c) c.r _ _ refl refl
  compute-Same Op.fsub n m c = if_same_regs (is_pr c) c.r _ _ refl refl
  compute-Same Op.fmul n m c = if_same_regs (is_pr c) c.r _ _ refl refl
  compute-Same Op.fdiv n m c = if_same_regs (is_pr c) c.r _ _ refl refl
  compute-Same Op.fcmp_eq n m c = refl
  compute-Same Op.fcmp_gt n m c = refl
  compute-Same Op.fmac n m c = refl
  compute-Same Op.float n m c = if_same_regs (is_pr c) c.r _ _ refl refl
  compute-Same Op.ftrc n m c = refl
  compute-Same Op.fsqrt n m c = if_same_regs (is_pr c) c.r _ _ refl refl
  compute-Same Op.fsrra n m c = refl
  compute-Same Op.fcnvsd n m c = refl
  compute-Same Op.fcnvds n m c = refl
  compute-Same Op.fsca n m c = refl
  compute-Same Op.fipr n m c = refl
  compute-Same Op.ftrv n m c = refl
  compute-Same Op.fmov n m c = if_same_regs (is_sz c) c.r _ _ (pair_load_regs n _ c) refl
  compute-Same op n m c = tt

module _ {M : Type 0} (memory : Memory M) (floats : Floats) where
  computed-Sound :
      (os : List (Option ℕ)) (s : State M) (o : Option Ctx)
      → Agree os s.ctx.r
      → Same floats s.ctx o
      → Sound os (computed s o)
  unfolding computed
  computed-Sound os s none h e = tt
  computed-Sound os s (some c) h e = rw e h

  pub exec_fp-Sound :
      (img : Image) (p : ℕ) (op : Op.Op) (i : Instr) (os : List (Option ℕ)) (s : State M)
      → Agree os s.ctx.r
      → Sound (transfer_op img false p op i os) (exec_fp memory floats op i s)
  unfolding exec_fp transfer_op transfer_unary other reads_only set_reg computed compute
  exec_fp-Sound img p Op.fmov_load i os s h = rw (fmov_load_regs memory i.n (reg s i.m) s) h
  exec_fp-Sound img p Op.fmov_load_inc i os s h =
      rw (fmov_load_regs memory i.n (reg s i.m) s) (forget os s.ctx.r i.m _ h)
  exec_fp-Sound img p Op.fmov_load_r0 i os s h =
      rw (fmov_load_regs memory i.n (u32 (reg s i.m + reg s 0)) s) h
  exec_fp-Sound img p Op.fmov_store i os s h = rw (fmov_store_regs memory i.m (reg s i.n) s) h
  exec_fp-Sound img p Op.fmov_store_dec i os s h =
      rw (fmov_store_regs memory i.m _ _) (forget os s.ctx.r i.n _ h)
  exec_fp-Sound img p Op.fmov_store_r0 i os s h =
      rw (fmov_store_regs memory i.m (u32 (reg s i.n + reg s 0)) s) h
  exec_fp-Sound img p Op.fldi0 i os s h =
      computed-Sound os s (compute floats Op.fldi0 i.n i.m s.ctx) h
        (compute-Same floats Op.fldi0 i.n i.m s.ctx)
  exec_fp-Sound img p Op.fldi1 i os s h =
      computed-Sound os s (compute floats Op.fldi1 i.n i.m s.ctx) h
        (compute-Same floats Op.fldi1 i.n i.m s.ctx)
  exec_fp-Sound img p Op.flds i os s h =
      computed-Sound os s (compute floats Op.flds i.n i.m s.ctx) h
        (compute-Same floats Op.flds i.n i.m s.ctx)
  exec_fp-Sound img p Op.fsts i os s h =
      computed-Sound os s (compute floats Op.fsts i.n i.m s.ctx) h
        (compute-Same floats Op.fsts i.n i.m s.ctx)
  exec_fp-Sound img p Op.fabs i os s h =
      computed-Sound os s (compute floats Op.fabs i.n i.m s.ctx) h
        (compute-Same floats Op.fabs i.n i.m s.ctx)
  exec_fp-Sound img p Op.fneg i os s h =
      computed-Sound os s (compute floats Op.fneg i.n i.m s.ctx) h
        (compute-Same floats Op.fneg i.n i.m s.ctx)
  exec_fp-Sound img p Op.fadd i os s h =
      computed-Sound os s (compute floats Op.fadd i.n i.m s.ctx) h
        (compute-Same floats Op.fadd i.n i.m s.ctx)
  exec_fp-Sound img p Op.fsub i os s h =
      computed-Sound os s (compute floats Op.fsub i.n i.m s.ctx) h
        (compute-Same floats Op.fsub i.n i.m s.ctx)
  exec_fp-Sound img p Op.fmul i os s h =
      computed-Sound os s (compute floats Op.fmul i.n i.m s.ctx) h
        (compute-Same floats Op.fmul i.n i.m s.ctx)
  exec_fp-Sound img p Op.fdiv i os s h =
      computed-Sound os s (compute floats Op.fdiv i.n i.m s.ctx) h
        (compute-Same floats Op.fdiv i.n i.m s.ctx)
  exec_fp-Sound img p Op.fcmp_eq i os s h =
      computed-Sound os s (compute floats Op.fcmp_eq i.n i.m s.ctx) h
        (compute-Same floats Op.fcmp_eq i.n i.m s.ctx)
  exec_fp-Sound img p Op.fcmp_gt i os s h =
      computed-Sound os s (compute floats Op.fcmp_gt i.n i.m s.ctx) h
        (compute-Same floats Op.fcmp_gt i.n i.m s.ctx)
  exec_fp-Sound img p Op.fmac i os s h =
      computed-Sound os s (compute floats Op.fmac i.n i.m s.ctx) h
        (compute-Same floats Op.fmac i.n i.m s.ctx)
  exec_fp-Sound img p Op.float i os s h =
      computed-Sound os s (compute floats Op.float i.n i.m s.ctx) h
        (compute-Same floats Op.float i.n i.m s.ctx)
  exec_fp-Sound img p Op.ftrc i os s h =
      computed-Sound os s (compute floats Op.ftrc i.n i.m s.ctx) h
        (compute-Same floats Op.ftrc i.n i.m s.ctx)
  exec_fp-Sound img p Op.fsqrt i os s h =
      computed-Sound os s (compute floats Op.fsqrt i.n i.m s.ctx) h
        (compute-Same floats Op.fsqrt i.n i.m s.ctx)
  exec_fp-Sound img p Op.fsrra i os s h =
      computed-Sound os s (compute floats Op.fsrra i.n i.m s.ctx) h
        (compute-Same floats Op.fsrra i.n i.m s.ctx)
  exec_fp-Sound img p Op.fcnvsd i os s h =
      computed-Sound os s (compute floats Op.fcnvsd i.n i.m s.ctx) h
        (compute-Same floats Op.fcnvsd i.n i.m s.ctx)
  exec_fp-Sound img p Op.fcnvds i os s h =
      computed-Sound os s (compute floats Op.fcnvds i.n i.m s.ctx) h
        (compute-Same floats Op.fcnvds i.n i.m s.ctx)
  exec_fp-Sound img p Op.fsca i os s h =
      computed-Sound os s (compute floats Op.fsca i.n i.m s.ctx) h
        (compute-Same floats Op.fsca i.n i.m s.ctx)
  exec_fp-Sound img p Op.fipr i os s h =
      computed-Sound os s (compute floats Op.fipr i.n i.m s.ctx) h
        (compute-Same floats Op.fipr i.n i.m s.ctx)
  exec_fp-Sound img p Op.ftrv i os s h =
      computed-Sound os s (compute floats Op.ftrv i.n i.m s.ctx) h
        (compute-Same floats Op.ftrv i.n i.m s.ctx)
  exec_fp-Sound img p Op.fmov i os s h =
      computed-Sound os s (compute floats Op.fmov i.n i.m s.ctx) h
        (compute-Same floats Op.fmov i.n i.m s.ctx)
  exec_fp-Sound img p op i os s h = tt
