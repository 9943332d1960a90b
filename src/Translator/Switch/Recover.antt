-- ===== src/Translator/Switch/Recover.antt =====
-- translator/src/analysis/switch.cpp and translator/include/dream/translator/analysis/switch.h:
-- the backward loops of `recover_switch`, for the load of the jump register and for the stride of a code
-- table.
use dream_recomp.Base.{ℕ, zero, suc, not, ◌&&◌, ◌==◌, ltb, if◌then◌else◌, Option, none, some}
use dream_recomp.Sh4.Alu.{sub32}
use dream_recomp.Translator.Constprop.{Image}
use dream_recomp.Translator.Decoder.{Instr, to_u32}
use dream_recomp.Translator.Decoder.Op
use dream_recomp.Translator.Switch.{at}

-- The search for the load of the jump register: its place and size, or that there is none in sight,
-- or that the register has another definition. `add_base` is the register of an ADD on the way.
pub data Walked : Type 0 where
  loaded : ℕ → ℕ → Option ℕ → Walked
  unloaded : Walked
  refused : Walked

-- What one instruction that writes the jump register is for the search.
pub data Definition : Type 0 where
  added : Definition
  load : ℕ → Definition
  copy : Definition
  scaled : Definition
  unknown : Definition

unfoldable pub definition : Op.Op → Definition
definition Op.add = added
definition Op.mov_b_l_r0 = load 1
definition Op.mov_w_l_r0 = load 2
definition Op.mov_l_l_r0 = load 4
definition Op.mov = copy
definition Op.shll = scaled
definition Op.shll2 = scaled
definition Op.shll8 = scaled
definition Op.shll16 = scaled
definition Op.and_i = scaled
definition op = unknown

-- What the first loop of `recover_switch` does after an instruction.
pub data Next : Type 0 where
  halt : Walked → Next
  again : ℕ → Option ℕ → Next

unfoldable pub next_of : Definition → ℕ → Instr → ℕ → Option ℕ → Next
next_of added q i jreg none = again jreg (some i.m)
next_of added q i jreg (some r) = halt refused
next_of (load size) q i jreg add_base = halt (loaded q size add_base)
next_of copy q i jreg add_base = again i.m add_base
next_of scaled q i jreg add_base = halt unloaded
next_of unknown q i jreg add_base = halt refused

-- That loop, of at most `k` more steps.
unfoldable pub walk_back : ℕ → Image → ℕ → ℕ → ℕ → Option ℕ → Walked
walk_back zero img block_start p jreg add_base = unloaded
walk_back (suc k) img block_start p jreg add_base =
    let q = sub32 p 2 in
    let i = at img q in
    let next : Next =
      if i.n == jreg then next_of (definition i.op) q i jreg add_base else again jreg add_base in
    elim (if ltb block_start p then next else halt unloaded) [
      | halt w ↦ w
      | again j a ↦ walk_back k img block_start q j a
    ]

-- What the loop over the code-table idiom does after an instruction: it ends, with a mask where it
-- has found one, or goes on with a stride; a stride of 0 is none yet.
pub data Stride : Type 0 where
  ends : Option ℕ → Stride
  strides : ℕ → Stride

unfoldable pub stride_of : Op.Op → Instr → ℕ → ℕ → Stride
stride_of Op.shll2 i jreg stride =
    if not (i.n == jreg) then strides stride else if stride == 0 then strides 4 else ends none
stride_of Op.shll i jreg stride =
    if not (i.n == jreg) then strides stride else if stride == 0 then strides 2 else ends none
stride_of Op.and_i i jreg stride =
    if jreg == 0 && not (stride == 0)
    then ends (some (to_u32 i.imm))
    else if i.n == jreg
    then ends none
    else strides stride
stride_of Op.mov i jreg stride = strides stride
stride_of Op.cmp_eq i jreg stride = strides stride
stride_of Op.tst i jreg stride = strides stride
stride_of op i jreg stride = if i.n == jreg then ends none else strides stride

unfoldable pub idiom : ℕ → Image → ℕ → ℕ → ℕ → ℕ → ℕ × Option ℕ
idiom zero img block_start q jreg stride = (stride, none)
idiom (suc k) img block_start q jreg stride =
    let p = sub32 q 2 in
    let i = at img p in
    elim (if ltb block_start q then stride_of i.op i jreg stride else ends none) [
      | ends mask ↦ (stride, mask)
      | strides n ↦ idiom k img block_start p jreg n
    ]
