-- ===== src/Translator/Constprop/Sound.antt =====
-- What it is for an instruction of the analysis to be sound for the interpreter's `exec`.
pub mod Fpu
pub mod System
pub mod Logic
pub mod Arith
pub mod Moves
use dream_recomp.Base.{ℕ, ◌≡◌, refl, Bool, true, false, Option, none, some, List, get_or, set}
use dream_recomp.Sh4.Memory.{Memory}
use dream_recomp.Sh4.State.{State}
use dream_recomp.Translator.Decoder.{Instr, to_u32}
use dream_recomp.Translator.Decoder.Op
use dream_recomp.Translator.Constprop.{
  Image, contains, image_read16, image_read32, imm8, known, on_known, on_both,
}
use dream_recomp.Translator.Constprop.Agree.{
  Agree, Agree-get, Agree-set, Holds-on_known, Holds-on_both,
}

-- The operations that the analysis follows. It does not for the ones that advance a pointer through
-- the field `m` while they are decoded without `n`, for LDC Rm,SR, which can exchange the register
-- banks, and for the two that run other code.
unfoldable pub tracked : Op.Op → Bool
tracked Op.ldc_sr = false
tracked Op.ldc_l_sr = false
tracked Op.ldc_l_gbr = false
tracked Op.ldc_l_vbr = false
tracked Op.ldc_l_ssr = false
tracked Op.ldc_l_spc = false
tracked Op.ldc_l_dbr = false
tracked Op.ldc_l_bank = false
tracked Op.lds_l_mach = false
tracked Op.lds_l_macl = false
tracked Op.lds_l_pr = false
tracked Op.lds_l_fpul = false
tracked Op.lds_l_fpscr = false
tracked Op.trapa = false
tracked Op.sleep = false
tracked op = true

-- What the decoder guarantees of the fields of an operation on R0.
unfoldable pub Shaped : Op.Op → Instr → Type 0
Shaped Op.mov_b_l_disp0 i = i.n ≡ 0
Shaped Op.mov_w_l_disp0 i = i.n ≡ 0
Shaped Op.mov_b_l_gbr i = i.n ≡ 0
Shaped Op.mov_w_l_gbr i = i.n ≡ 0
Shaped Op.mov_l_l_gbr i = i.n ≡ 0
Shaped Op.or_i i = (i.n ≡ 0) × (imm8 i.imm ≡ to_u32 i.imm)
Shaped Op.and_i i = imm8 i.imm ≡ to_u32 i.imm
Shaped Op.xor_i i = imm8 i.imm ≡ to_u32 i.imm
Shaped op i = Unit

module _ {M : Type 0} where
  -- The guest reads from the image's addresses what the image holds.
  pub record Shows (memory : Memory M) (img : Image) (s : State M) : Type 0 where
    pub shows16 :
        (a : ℕ) → contains img a 2 ≡ true → (memory.read16 a s.ctx s.mem).1 ≡ image_read16 img a
    pub shows32 :
        (a : ℕ) → contains img a 4 ≡ true → (memory.read32 a s.ctx s.mem).1 ≡ image_read32 img a

  -- What is known after an instruction holds of the registers it leaves, where it does not raise.
  abbrev pub Sound : List (Option ℕ) → Option (State M) → Type 0
  Sound os none = Unit
  Sound os (some s) = Agree os s.ctx.r

pub forget :
    (os : List (Option ℕ)) (vs : List ℕ) (k v : ℕ)
    → Agree os vs
    → Agree (set os k none) (set vs k v)
forget os vs k v h = Agree-set os vs k none v h tt

pub assign-Agree :
    (f : ℕ → ℕ) (os : List (Option ℕ)) (vs : List ℕ) (n m : ℕ)
    → Agree os vs
    → Agree (set os n (on_known f (known os m))) (set vs n (f (get_or vs m 0)))
assign-Agree f os vs n m h =
    Agree-set os vs n _ _ h (Holds-on_known f (known os m) _ (Agree-get os vs m h))

pub both-Agree :
    (f : ℕ → ℕ → ℕ) (os : List (Option ℕ)) (vs : List ℕ) (n m : ℕ)
    → Agree os vs
    → Agree
        (set os n (on_both f (known os n) (known os m)))
        (set vs n (f (get_or vs n 0) (get_or vs m 0)))
both-Agree f os vs n m h =
    Agree-set os vs n _ _ h
      (Holds-on_both f (known os n) (known os m) _ _ (Agree-get os vs n h) (Agree-get os vs m h))
