-- ===== src/Translator/Decoder/TableLow.antt =====
-- translator/src/sh4/decoder.cpp: `kTable`, the words that begin with 0000 to 0011.
use dream_recomp.Base.{List, [], ◌∷◌}
use dream_recomp.Translator.Decoder.Op
use dream_recomp.Translator.Decoder.Entry.{
  Entry, entry, fields_bank_n, fields_m, fields_n, fields_nm, fields_nmd4, fields_none,
}

-- The words of `---- 0000 ----`.
abbrev pub table_0 : List Entry
table_0 =
    entry 0xffff 0x0008 Op.clrt fields_none
    ∷ entry 0xffff 0x0018 Op.sett fields_none
    ∷ entry 0xffff 0x0028 Op.clrmac fields_none
    ∷ entry 0xffff 0x0038 Op.ldtlb fields_none
    ∷ entry 0xffff 0x0048 Op.clrs fields_none
    ∷ entry 0xffff 0x0058 Op.sets fields_none
    ∷ entry 0xffff 0x0009 Op.nop fields_none
    ∷ entry 0xffff 0x0019 Op.div0u fields_none
    ∷ entry 0xffff 0x000b Op.rts fields_none
    ∷ entry 0xffff 0x001b Op.sleep fields_none
    ∷ entry 0xffff 0x002b Op.rte fields_none
    ∷ entry 0xf0ff 0x0002 Op.stc_sr fields_n
    ∷ entry 0xf0ff 0x0012 Op.stc_gbr fields_n
    ∷ entry 0xf0ff 0x0022 Op.stc_vbr fields_n
    ∷ entry 0xf0ff 0x0032 Op.stc_ssr fields_n
    ∷ entry 0xf0ff 0x0042 Op.stc_spc fields_n
    ∷ entry 0xf0ff 0x003a Op.stc_sgr fields_n
    ∷ entry 0xf0ff 0x00fa Op.stc_dbr fields_n
    ∷ entry 0xf08f 0x0082 Op.stc_bank fields_bank_n
    ∷ entry 0xf0ff 0x0003 Op.bsrf fields_m
    ∷ entry 0xf0ff 0x0023 Op.braf fields_m
    ∷ entry 0xf0ff 0x0083 Op.pref fields_n
    ∷ entry 0xf0ff 0x0093 Op.ocbi fields_n
    ∷ entry 0xf0ff 0x00a3 Op.ocbp fields_n
    ∷ entry 0xf0ff 0x00b3 Op.ocbwb fields_n
    ∷ entry 0xf0ff 0x00c3 Op.movca_l fields_n
    ∷ entry 0xf00f 0x0004 Op.mov_b_s_r0 fields_nm
    ∷ entry 0xf00f 0x0005 Op.mov_w_s_r0 fields_nm
    ∷ entry 0xf00f 0x0006 Op.mov_l_s_r0 fields_nm
    ∷ entry 0xf00f 0x0007 Op.mul_l fields_nm
    ∷ entry 0xf0ff 0x0029 Op.movt fields_n
    ∷ entry 0xf0ff 0x000a Op.sts_mach fields_n
    ∷ entry 0xf0ff 0x001a Op.sts_macl fields_n
    ∷ entry 0xf0ff 0x002a Op.sts_pr fields_n
    ∷ entry 0xf0ff 0x005a Op.sts_fpul fields_n
    ∷ entry 0xf0ff 0x006a Op.sts_fpscr fields_n
    ∷ entry 0xf00f 0x000c Op.mov_b_l_r0 fields_nm
    ∷ entry 0xf00f 0x000d Op.mov_w_l_r0 fields_nm
    ∷ entry 0xf00f 0x000e Op.mov_l_l_r0 fields_nm
    ∷ entry 0xf00f 0x000f Op.mac_l fields_nm
    ∷ []

-- The words of `---- 0001 / 0101 ----`.
abbrev pub table_1_5 : List Entry
table_1_5 =
    entry 0xf000 0x1000 Op.mov_l_s_disp fields_nmd4
    ∷ entry 0xf000 0x5000 Op.mov_l_l_disp fields_nmd4
    ∷ []

-- The words of `---- 0010 ----`.
abbrev pub table_2 : List Entry
table_2 =
    entry 0xf00f 0x2000 Op.mov_b_s fields_nm
    ∷ entry 0xf00f 0x2001 Op.mov_w_s fields_nm
    ∷ entry 0xf00f 0x2002 Op.mov_l_s fields_nm
    ∷ entry 0xf00f 0x2004 Op.mov_b_sd fields_nm
    ∷ entry 0xf00f 0x2005 Op.mov_w_sd fields_nm
    ∷ entry 0xf00f 0x2006 Op.mov_l_sd fields_nm
    ∷ entry 0xf00f 0x2007 Op.div0s fields_nm
    ∷ entry 0xf00f 0x2008 Op.tst fields_nm
    ∷ entry 0xf00f 0x2009 Op.and fields_nm
    ∷ entry 0xf00f 0x200a Op.xor fields_nm
    ∷ entry 0xf00f 0x200b Op.or fields_nm
    ∷ entry 0xf00f 0x200c Op.cmp_str fields_nm
    ∷ entry 0xf00f 0x200d Op.xtrct fields_nm
    ∷ entry 0xf00f 0x200e Op.mulu_w fields_nm
    ∷ entry 0xf00f 0x200f Op.muls_w fields_nm
    ∷ []

-- The words of `---- 0011 ----`.
abbrev pub table_3 : List Entry
table_3 =
    entry 0xf00f 0x3000 Op.cmp_eq fields_nm
    ∷ entry 0xf00f 0x3002 Op.cmp_hs fields_nm
    ∷ entry 0xf00f 0x3003 Op.cmp_ge fields_nm
    ∷ entry 0xf00f 0x3004 Op.div1 fields_nm
    ∷ entry 0xf00f 0x3005 Op.dmulu_l fields_nm
    ∷ entry 0xf00f 0x3006 Op.cmp_hi fields_nm
    ∷ entry 0xf00f 0x3007 Op.cmp_gt fields_nm
    ∷ entry 0xf00f 0x3008 Op.sub fields_nm
    ∷ entry 0xf00f 0x300a Op.subc fields_nm
    ∷ entry 0xf00f 0x300b Op.subv fields_nm
    ∷ entry 0xf00f 0x300c Op.add fields_nm
    ∷ entry 0xf00f 0x300d Op.dmuls_l fields_nm
    ∷ entry 0xf00f 0x300e Op.addc fields_nm
    ∷ entry 0xf00f 0x300f Op.addv fields_nm
    ∷ []
