-- ===== src/Translator/Constprop.antt =====
-- translator/src/analysis/constprop.cpp: the constant that a register holds at an instruction, from
-- the code of its block; and the guest image of translator/include/dream/translator/emit.h.
pub mod Agree
pub mod Sound
pub mod Shape
pub mod Block
pub mod Stale
mod Fixture
mod Examples
use dream_recomp.Base.{
  ℕ, zero, suc, ◌+◌, ◌-◌, ◌*◌, ◌/◌, ◌%◌, ◌^◌, bit_and, bit_or, bit_xor, Bool, true, false, not,
  ◌&&◌, ◌||◌, ◌==◌, leb, ltb, if◌then◌else◌, Option, none, some, List, get_or, set, length,
  replicate,
}
use dream_recomp.Base.Bits.{u32}
use dream_recomp.Base.Int.{ℤ}
use dream_recomp.Sh4.Alu.{sub32, not32, sar32}
use dream_recomp.Sh4.State.{sx8, sx16}
use dream_recomp.Translator.Decoder.{Instr, decode, to_u32, pcrel_target}
use dream_recomp.Translator.Decoder.Op

pub record Image : Type 0 where
  pub bytes : List ℕ
  pub base : ℕ

unfoldable pub contains : Image → ℕ → ℕ → Bool
contains img a len = leb img.base a && leb (u32 (sub32 a img.base + len)) (length img.bytes)

abbrev pub byte : Image → ℕ → ℕ
byte img o = get_or img.bytes o 0

unfoldable pub image_read16 : Image → ℕ → ℕ
image_read16 img a =
    let o = sub32 a img.base in bit_or (byte img o) (byte img (o + 1) * 2 ^ 8) % 2 ^ 16

unfoldable pub image_read32 : Image → ℕ → ℕ
image_read32 img a =
    let o = sub32 a img.base in
    bit_or (bit_or (bit_or (byte img o) (byte img (o + 1) * 2 ^ 8)) (byte img (o + 2) * 2 ^ 16))
      (byte img (o + 3) * 2 ^ 24)

unfoldable pub reads_only : Op.Op → Bool
reads_only Op.mov_b_s = true
reads_only Op.mov_w_s = true
reads_only Op.mov_l_s = true
reads_only Op.mov_b_s_r0 = true
reads_only Op.mov_w_s_r0 = true
reads_only Op.mov_l_s_r0 = true
reads_only Op.mov_b_s_disp0 = true
reads_only Op.mov_w_s_disp0 = true
reads_only Op.mov_l_s_disp = true
reads_only Op.mov_b_s_gbr = true
reads_only Op.mov_w_s_gbr = true
reads_only Op.mov_l_s_gbr = true
reads_only Op.movca_l = true
reads_only Op.fmov_store = true
reads_only Op.fmov_store_r0 = true
reads_only Op.cmp_eq = true
reads_only Op.cmp_eq_i = true
reads_only Op.cmp_hs = true
reads_only Op.cmp_ge = true
reads_only Op.cmp_hi = true
reads_only Op.cmp_gt = true
reads_only Op.cmp_str = true
reads_only Op.cmp_pz = true
reads_only Op.cmp_pl = true
reads_only Op.tst = true
reads_only Op.tst_i = true
reads_only Op.tst_b_gbr = true
reads_only Op.and_b_gbr = true
reads_only Op.or_b_gbr = true
reads_only Op.xor_b_gbr = true
reads_only Op.div0s = true
reads_only Op.div0u = true
reads_only Op.mul_l = true
reads_only Op.muls_w = true
reads_only Op.mulu_w = true
reads_only Op.dmuls_l = true
reads_only Op.dmulu_l = true
reads_only Op.jsr = true
reads_only Op.jmp = true
reads_only Op.braf = true
reads_only Op.bsrf = true
reads_only Op.bsr = true
reads_only Op.bra = true
reads_only Op.bt = true
reads_only Op.bf = true
reads_only Op.bt_s = true
reads_only Op.bf_s = true
reads_only Op.rts = true
reads_only Op.rte = true
reads_only Op.nop = true
reads_only Op.trapa = true
reads_only Op.pref = true
reads_only Op.ocbi = true
reads_only Op.ocbp = true
reads_only Op.ocbwb = true
reads_only Op.clrt = true
reads_only Op.sett = true
reads_only Op.clrs = true
reads_only Op.sets = true
reads_only Op.clrmac = true
reads_only Op.ldtlb = true
reads_only Op.sleep = true
reads_only Op.tas_b = true
reads_only Op.lds_fpscr = true
reads_only Op.lds_fpul = true
reads_only Op.lds_mach = true
reads_only Op.lds_macl = true
reads_only Op.lds_pr = true
reads_only Op.ldc_sr = true
reads_only Op.ldc_gbr = true
reads_only Op.ldc_vbr = true
reads_only Op.ldc_ssr = true
reads_only Op.ldc_spc = true
reads_only Op.ldc_dbr = true
reads_only Op.ldc_sgr = true
reads_only Op.ldc_bank = true
reads_only Op.fadd = true
reads_only Op.fsub = true
reads_only Op.fmul = true
reads_only Op.fdiv = true
reads_only Op.fmac = true
reads_only Op.fcmp_eq = true
reads_only Op.fcmp_gt = true
reads_only Op.fabs = true
reads_only Op.fneg = true
reads_only Op.fsqrt = true
reads_only Op.fsrra = true
reads_only Op.fldi0 = true
reads_only Op.fldi1 = true
reads_only Op.flds = true
reads_only Op.fsts = true
reads_only Op.float = true
reads_only Op.ftrc = true
reads_only Op.fcnvsd = true
reads_only Op.fcnvds = true
reads_only Op.fsca = true
reads_only Op.fipr = true
reads_only Op.ftrv = true
reads_only Op.fmov = true
reads_only Op.fschg = true
reads_only Op.frchg = true
reads_only Op.fmov_load = true
reads_only Op.fmov_load_r0 = true
reads_only op = false

-- `r[k]`, where `none` is a register that is not known.
abbrev pub known : List (Option ℕ) → ℕ → Option ℕ
known r k = get_or r k none

unfoldable pub on_known : (ℕ → ℕ) → Option ℕ → Option ℕ
on_known f none = none
on_known f (some v) = some (f v)

unfoldable pub on_both : (ℕ → ℕ → ℕ) → Option ℕ → Option ℕ → Option ℕ
on_both f (some v) (some w) = some (f v w)
on_both f v w = none

-- OR keeps the value of the destination where only that is known and `alias_or` is set.
unfoldable pub or_known : Bool → Option ℕ → Option ℕ → Option ℕ
or_known alias_or (some v) (some w) = some (bit_or v w)
or_known alias_or (some v) none = if alias_or then some v else none
or_known alias_or none w = none

-- A load from the code of the image.
unfoldable pub literal : Bool → ℕ → Option ℕ
literal inside v = if inside then some v else none

abbrev pub imm8 : ℤ → ℕ
imm8 imm = bit_and (to_u32 imm) 0xff

unfoldable pub swap_bytes : ℕ → ℕ
swap_bytes v =
    bit_or (bit_or (bit_and v 0xffff_0000) (bit_and (v / 2 ^ 8) 0xff)) (bit_and v 0xff * 2 ^ 8)

unfoldable pub swap_words : ℕ → ℕ
swap_words v = bit_or (v / 2 ^ 16) (u32 (v * 2 ^ 16))

-- `if (known(m)) r[n] = f(val(m)); else r[n].reset();`, and with `n` in place of `m` also
-- `if (known(n)) r[n] = f(val(n));`.
abbrev pub assign : ℕ → (ℕ → ℕ) → ℕ → List (Option ℕ) → List (Option ℕ)
assign n f m r = set r n (on_known f (known r m))

abbrev pub assign_both : (ℕ → ℕ → ℕ) → Instr → List (Option ℕ) → List (Option ℕ)
assign_both f i r = set r i.n (on_both f (known r i.n) (known r i.m))

-- The post-increment loads.
unfoldable pub advance : ℕ → Instr → List (Option ℕ) → List (Option ℕ)
advance size i r =
    let r' = set r i.n none in if i.n == i.m then r' else assign i.m (λ v. u32 (v + size)) i.m r'

-- The `default` of the `switch`.
unfoldable pub other : Op.Op → Instr → List (Option ℕ) → List (Option ℕ)
other op i r = if reads_only op then r else set r i.n none

unfoldable pub transfer_unary : Op.Op → Instr → List (Option ℕ) → List (Option ℕ)
transfer_unary Op.shll i r = assign i.n (λ v. u32 (v * 2)) i.n r
transfer_unary Op.shal i r = assign i.n (λ v. u32 (v * 2)) i.n r
transfer_unary Op.shll2 i r = assign i.n (λ v. u32 (v * 2 ^ 2)) i.n r
transfer_unary Op.shll8 i r = assign i.n (λ v. u32 (v * 2 ^ 8)) i.n r
transfer_unary Op.shll16 i r = assign i.n (λ v. u32 (v * 2 ^ 16)) i.n r
transfer_unary Op.shlr i r = assign i.n (λ v. v / 2) i.n r
transfer_unary Op.shlr2 i r = assign i.n (λ v. v / 2 ^ 2) i.n r
transfer_unary Op.shlr8 i r = assign i.n (λ v. v / 2 ^ 8) i.n r
transfer_unary Op.shlr16 i r = assign i.n (λ v. v / 2 ^ 16) i.n r
transfer_unary Op.shar i r = assign i.n (λ v. sar32 v 1) i.n r
transfer_unary Op.not i r = assign i.n (λ v. not32 v) i.m r
transfer_unary Op.neg i r = assign i.n (λ v. sub32 0 v) i.m r
transfer_unary Op.extu_b i r = assign i.n (λ v. bit_and v 0xff) i.m r
transfer_unary Op.extu_w i r = assign i.n (λ v. bit_and v 0xffff) i.m r
transfer_unary Op.exts_b i r = assign i.n sx8 i.m r
transfer_unary Op.exts_w i r = assign i.n sx16 i.m r
transfer_unary Op.swap_w i r = assign i.n swap_words i.m r
transfer_unary Op.swap_b i r = assign i.n swap_bytes i.m r
transfer_unary Op.dt i r = assign i.n (λ v. sub32 v 1) i.n r
transfer_unary Op.mov_b_li i r = advance 1 i r
transfer_unary Op.mov_w_li i r = advance 2 i r
transfer_unary Op.mov_l_li i r = advance 4 i r
transfer_unary Op.mac_l i r = set (set r i.n none) i.m none
transfer_unary Op.mac_w i r = set (set r i.n none) i.m none
transfer_unary Op.fmov_load_inc i r = set r i.m none
transfer_unary Op.mov_b_sd i r = assign i.n (λ v. sub32 v 1) i.n r
transfer_unary Op.mov_w_sd i r = assign i.n (λ v. sub32 v 2) i.n r
transfer_unary Op.mov_l_sd i r = assign i.n (λ v. sub32 v 4) i.n r
transfer_unary Op.fmov_store_dec i r = set r i.n none
transfer_unary op i r = other op i r

-- The `switch` of `constant_at`, on the instruction at `p`.
unfoldable pub transfer_op : Image → Bool → ℕ → Op.Op → Instr → List (Option ℕ) → List (Option ℕ)
transfer_op img alias_or p Op.mov_i i r = set r i.n (some (to_u32 i.imm))
transfer_op img alias_or p Op.mov_l_pcrel i r =
    let a = pcrel_target i p in set r i.n (literal (contains img a 4) (image_read32 img a))
transfer_op img alias_or p Op.mov_w_pcrel i r =
    let a = pcrel_target i p in set r i.n (literal (contains img a 2) (sx16 (image_read16 img a)))
transfer_op img alias_or p Op.mova i r = set r 0 (some (pcrel_target i p))
transfer_op img alias_or p Op.mov i r = set r i.n (known r i.m)
transfer_op img alias_or p Op.add_i i r = assign i.n (λ v. u32 (v + to_u32 i.imm)) i.n r
transfer_op img alias_or p Op.add i r = assign_both (λ v w. u32 (v + w)) i r
transfer_op img alias_or p Op.sub i r = assign_both (λ v w. sub32 v w) i r
transfer_op img alias_or p Op.or i r = set r i.n (or_known alias_or (known r i.n) (known r i.m))
transfer_op img alias_or p Op.and i r = assign_both (λ v w. bit_and v w) i r
transfer_op img alias_or p Op.xor i r = assign_both (λ v w. bit_xor v w) i r
transfer_op img alias_or p Op.or_i i r =
    if i.n == 0 then assign 0 (λ v. bit_or v (imm8 i.imm)) 0 r else r
transfer_op img alias_or p Op.and_i i r = assign 0 (λ v. bit_and v (imm8 i.imm)) 0 r
transfer_op img alias_or p Op.xor_i i r = assign 0 (λ v. bit_xor v (imm8 i.imm)) 0 r
transfer_op img alias_or p op i r = transfer_unary op i r

unfoldable pub transfer : Image → Bool → ℕ → Instr → List (Option ℕ) → List (Option ℕ)
transfer img alias_or p i r = transfer_op img alias_or p i.op i r

-- The loop from `p`, whose turns are counted; `none` where it leaves the image.
unfoldable pub walk : ℕ → Image → Bool → ℕ → List (Option ℕ) → Option (List (Option ℕ))
walk zero img alias_or p r = some r
walk (suc k) img alias_or p r =
    let rest =
      walk k img alias_or (p + 2) (transfer img alias_or p (decode (image_read16 img p)) r) in
    if contains img p 2 then rest else none

unfoldable pub answer : ℕ → Option (List (Option ℕ)) → Option ℕ
answer reg none = none
answer reg (some r) = known r (bit_and reg 15)

-- The loop takes a turn for each two bytes from the block's start to `pc`, the last one rounded up;
-- its address does not wrap for a `pc` below 2 ^ 32 - 1.
unfoldable pub constant_at : Image → ℕ → ℕ → ℕ → Bool → Option ℕ
constant_at img block_start pc reg alias_or =
    answer reg (walk ((pc + 1 - block_start) / 2) img alias_or block_start (replicate 16 none))
