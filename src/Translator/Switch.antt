-- ===== src/Translator/Switch.antt =====
-- translator/src/analysis/switch.cpp: the backward searches of the switch recovery, for the constant in
-- a register and for the bound of a table. An address goes down by two, and the steps of a search are
-- counted off: half the distance, rounded up, which is all of them for even addresses.
pub mod Recover
pub mod Tables
pub mod Targets
mod Examples
use dream_recomp.Base.{
  ℕ, zero, suc, ◌+◌, ◌-◌, ◌*◌, ◌/◌, ◌%◌, ◌^◌, Bool, true, false, not, ◌&&◌, ◌||◌, ◌==◌, leb, ltb,
  if◌then◌else◌, Option, none, some,
}
use dream_recomp.Base.Bits.{u32}
use dream_recomp.Sh4.Alu.{sub32}
use dream_recomp.Translator.Constprop.{Image, contains, image_read16, image_read32}
use dream_recomp.Translator.Decoder.{Instr, decode, has_delay_slot, pcrel_target, to_u32}
use dream_recomp.Translator.Decoder.Op

abbrev pub at : Image → ℕ → Instr
at img a = decode (image_read16 img a)

-- What an instruction says of the register that is searched for.
pub data Finding : Type 0 where
  found : ℕ → Finding
  lost : Finding
  follow : ℕ → Finding
  go_on : Finding

unfoldable pub only_reads : Op.Op → Bool
only_reads Op.mov_b_s = true
only_reads Op.mov_w_s = true
only_reads Op.mov_l_s = true
only_reads Op.mov_l_s_disp = true
only_reads Op.mov_b_s_r0 = true
only_reads Op.mov_w_s_r0 = true
only_reads Op.mov_l_s_r0 = true
only_reads Op.cmp_eq = true
only_reads Op.cmp_hs = true
only_reads Op.cmp_ge = true
only_reads Op.cmp_hi = true
only_reads Op.cmp_gt = true
only_reads Op.tst = true
only_reads Op.div0s = true
only_reads Op.mul_l = true
only_reads Op.muls_w = true
only_reads Op.mulu_w = true
only_reads Op.dmuls_l = true
only_reads Op.dmulu_l = true
only_reads Op.cmp_pz = true
only_reads Op.cmp_pl = true
only_reads Op.jsr = true
only_reads Op.jmp = true
only_reads Op.braf = true
only_reads Op.bsrf = true
only_reads Op.pref = true
only_reads Op.movca_l = true
only_reads Op.tas_b = true
only_reads Op.ldc_sr = true
only_reads Op.ldc_gbr = true
only_reads Op.ldc_vbr = true
only_reads Op.lds_pr = true
only_reads op = false

unfoldable pub ends_block : Op.Op → Bool
ends_block Op.bt = true
ends_block Op.bf = true
ends_block op = has_delay_slot op

-- The tests after the first `switch` of the loop.
unfoldable pub past : Op.Op → Instr → ℕ → Finding
past op i reg =
    if i.n == reg && not (only_reads op) then lost else if ends_block op then lost else go_on

unfoldable pub finding : Image → ℕ → Op.Op → Instr → ℕ → Finding
finding img p Op.mova i reg = if reg == 0 then found (pcrel_target i p) else past Op.mova i reg
finding img p Op.mov_l_pcrel i reg =
    let a = pcrel_target i p in
    if i.n == reg
    then if contains img a 4 then found (image_read32 img a) else lost
    else past Op.mov_l_pcrel i reg
finding img p Op.mov_i i reg = if i.n == reg then found (to_u32 i.imm) else past Op.mov_i i reg
finding img p Op.mov i reg = if i.n == reg then follow i.m else past Op.mov i reg
finding img p op i reg = past op i reg

-- The loop, with which the call for a copied register goes on; at most three copies are followed.
unfoldable pub seek : ℕ → Image → ℕ → ℕ → ℕ → ℕ → Option ℕ
seek zero img lo p reg depth = none
seek (suc k) img lo p reg depth =
    let q = sub32 p 2 in
    elim (if ltb lo p then finding img q (at img q).op (at img q) reg else lost) [
      | found v ↦ some v
      | lost ↦ none
      | follow m ↦ let copied = seek k img lo q m (depth + 1) in if depth == 3 then none else copied
      | go_on ↦ seek k img lo q reg depth
    ]

unfoldable pub constant_in : Image → ℕ → ℕ → ℕ → Option ℕ
constant_in img lo pc reg = seek ((pc + 1 - lo) / 2) img lo pc reg 0

-- What an instruction says of the bound on the index register.
pub data Bounding : Type 0 where
  bound : ℕ → Bounding
  index : ℕ → Bounding

-- The comparison of the index with a constant, by what it admits beyond the constant.
unfoldable pub compared : ℕ → Option ℕ → Bounding
compared more none = bound 0
compared more (some limit) = if ltb 0x7fff limit then bound 0 else bound (limit + more)

unfoldable pub comparison : Image → ℕ → ℕ → ℕ → Instr → ℕ → Bounding
comparison img lo p more i idx =
    if i.n == idx then compared more (constant_in img lo p i.m) else index idx

unfoldable pub bounding : Image → ℕ → ℕ → Op.Op → Instr → ℕ → Bounding
bounding img lo p Op.rts i idx = bound 0
bounding img lo p Op.rte i idx = bound 0
bounding img lo p Op.jmp i idx = bound 0
bounding img lo p Op.braf i idx = bound 0
bounding img lo p Op.bt i idx = index idx
bounding img lo p Op.bf i idx = index idx
bounding img lo p Op.bt_s i idx = index idx
bounding img lo p Op.bf_s i idx = index idx
bounding img lo p Op.bra i idx = index idx
bounding img lo p Op.bsr i idx = index idx
bounding img lo p Op.nop i idx = index idx
bounding img lo p Op.mova i idx = index idx
bounding img lo p Op.cmp_pz i idx = index idx
bounding img lo p Op.cmp_pl i idx = index idx
bounding img lo p Op.cmp_eq_i i idx = index idx
bounding img lo p Op.tst_i i idx = index idx
bounding img lo p Op.and_i i idx = if idx == 0 then bound 0 else index idx
bounding img lo p Op.or_i i idx = if idx == 0 then bound 0 else index idx
bounding img lo p Op.xor_i i idx = if idx == 0 then bound 0 else index idx
bounding img lo p Op.cmp_hi i idx = comparison img lo p 1 i idx
bounding img lo p Op.cmp_gt i idx = comparison img lo p 1 i idx
bounding img lo p Op.cmp_hs i idx = comparison img lo p 0 i idx
bounding img lo p Op.cmp_ge i idx = comparison img lo p 0 i idx
bounding img lo p Op.mov i idx = index (if i.n == idx then i.m else idx)
bounding img lo p Op.extu_b i idx = index (if i.n == idx then i.m else idx)
bounding img lo p Op.extu_w i idx = index (if i.n == idx then i.m else idx)
bounding img lo p Op.shll i idx = index idx
bounding img lo p Op.shll2 i idx = index idx
bounding img lo p op i idx = if i.n == idx then bound 0 else index idx

unfoldable pub bound_from : ℕ → Image → ℕ → ℕ → ℕ → ℕ
bound_from zero img lo p idx = 0
bound_from (suc k) img lo p idx =
    let q = sub32 p 2 in
    let inside = ltb lo p && contains img q 2 in
    elim (if inside then bounding img lo q (at img q).op (at img q) idx else bound 0) [
      | bound n ↦ n
      | index idx' ↦ bound_from k img lo q idx'
    ]

-- The search goes back 64 bytes.
unfoldable pub table_bound : Image → ℕ → ℕ → ℕ
table_bound img from idx =
    let lo : ℕ = if leb 64 from then from - 64 else 0 in
    bound_from ((from + 1 - lo) / 2) img lo from idx
