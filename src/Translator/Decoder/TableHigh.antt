-- ===== src/Translator/Decoder/TableHigh.antt =====
-- translator/src/sh4/decoder.cpp: `kTable`, the words that begin with 0110 to 1111.
use dream_recomp.Base.{List, [], ◌∷◌}
use dream_recomp.Translator.Decoder.Op
use dream_recomp.Translator.Decoder.Entry.{
  Entry, entry, fields_fipr, fields_ftrv, fields_i8, fields_md4_r0, fields_n, fields_ni8, fields_nm,
  fields_none, fields_nu8, fields_s12, fields_s8, fields_u8,
}

-- The words of `---- 0110 ----`.
abbrev pub table_6 : List Entry
table_6 =
    entry 0xf00f 0x6000 Op.mov_b_l fields_nm
    ∷ entry 0xf00f 0x6001 Op.mov_w_l fields_nm
    ∷ entry 0xf00f 0x6002 Op.mov_l_l fields_nm
    ∷ entry 0xf00f 0x6003 Op.mov fields_nm
    ∷ entry 0xf00f 0x6004 Op.mov_b_li fields_nm
    ∷ entry 0xf00f 0x6005 Op.mov_w_li fields_nm
    ∷ entry 0xf00f 0x6006 Op.mov_l_li fields_nm
    ∷ entry 0xf00f 0x6007 Op.not fields_nm
    ∷ entry 0xf00f 0x6008 Op.swap_b fields_nm
    ∷ entry 0xf00f 0x6009 Op.swap_w fields_nm
    ∷ entry 0xf00f 0x600a Op.negc fields_nm
    ∷ entry 0xf00f 0x600b Op.neg fields_nm
    ∷ entry 0xf00f 0x600c Op.extu_b fields_nm
    ∷ entry 0xf00f 0x600d Op.extu_w fields_nm
    ∷ entry 0xf00f 0x600e Op.exts_b fields_nm
    ∷ entry 0xf00f 0x600f Op.exts_w fields_nm
    ∷ []

-- The words of `---- 0111 ----`.
abbrev pub table_7 : List Entry
table_7 = entry 0xf000 0x7000 Op.add_i fields_ni8 ∷ []

-- The words of `---- 1000 ----`.
abbrev pub table_8 : List Entry
table_8 =
    entry 0xff00 0x8000 Op.mov_b_s_disp0 fields_md4_r0
    ∷ entry 0xff00 0x8100 Op.mov_w_s_disp0 fields_md4_r0
    ∷ entry 0xff00 0x8400 Op.mov_b_l_disp0 fields_md4_r0
    ∷ entry 0xff00 0x8500 Op.mov_w_l_disp0 fields_md4_r0
    ∷ entry 0xff00 0x8800 Op.cmp_eq_i fields_i8
    ∷ entry 0xff00 0x8900 Op.bt fields_s8
    ∷ entry 0xff00 0x8b00 Op.bf fields_s8
    ∷ entry 0xff00 0x8d00 Op.bt_s fields_s8
    ∷ entry 0xff00 0x8f00 Op.bf_s fields_s8
    ∷ []

-- The words of `---- 1001 / 1010 / 1011 ----`.
abbrev pub table_9_a_b : List Entry
table_9_a_b =
    entry 0xf000 0x9000 Op.mov_w_pcrel fields_nu8
    ∷ entry 0xf000 0xa000 Op.bra fields_s12
    ∷ entry 0xf000 0xb000 Op.bsr fields_s12
    ∷ []

-- The words of `---- 1100 ----`.
abbrev pub table_c : List Entry
table_c =
    entry 0xff00 0xc000 Op.mov_b_s_gbr fields_u8
    ∷ entry 0xff00 0xc100 Op.mov_w_s_gbr fields_u8
    ∷ entry 0xff00 0xc200 Op.mov_l_s_gbr fields_u8
    ∷ entry 0xff00 0xc300 Op.trapa fields_u8
    ∷ entry 0xff00 0xc400 Op.mov_b_l_gbr fields_u8
    ∷ entry 0xff00 0xc500 Op.mov_w_l_gbr fields_u8
    ∷ entry 0xff00 0xc600 Op.mov_l_l_gbr fields_u8
    ∷ entry 0xff00 0xc700 Op.mova fields_u8
    ∷ entry 0xff00 0xc800 Op.tst_i fields_u8
    ∷ entry 0xff00 0xc900 Op.and_i fields_u8
    ∷ entry 0xff00 0xca00 Op.xor_i fields_u8
    ∷ entry 0xff00 0xcb00 Op.or_i fields_u8
    ∷ entry 0xff00 0xcc00 Op.tst_b_gbr fields_u8
    ∷ entry 0xff00 0xcd00 Op.and_b_gbr fields_u8
    ∷ entry 0xff00 0xce00 Op.xor_b_gbr fields_u8
    ∷ entry 0xff00 0xcf00 Op.or_b_gbr fields_u8
    ∷ []

-- The words of `---- 1101 / 1110 ----`.
abbrev pub table_d_e : List Entry
table_d_e =
    entry 0xf000 0xd000 Op.mov_l_pcrel fields_nu8 ∷ entry 0xf000 0xe000 Op.mov_i fields_ni8 ∷ []

-- The words of `---- 1111 FPU ----`.
abbrev pub table_f : List Entry
table_f =
    entry 0xffff 0xf3fd Op.fschg fields_none
    ∷ entry 0xffff 0xfbfd Op.frchg fields_none
    ∷ entry 0xf3ff 0xf1fd Op.ftrv fields_ftrv
    ∷ entry 0xf1ff 0xf0fd Op.fsca fields_n
    ∷ entry 0xf0ff 0xf0ed Op.fipr fields_fipr
    ∷ entry 0xf1ff 0xf0ad Op.fcnvsd fields_n
    ∷ entry 0xf1ff 0xf0bd Op.fcnvds fields_n
    ∷ entry 0xf0ff 0xf00d Op.fsts fields_n
    ∷ entry 0xf0ff 0xf01d Op.flds fields_n
    ∷ entry 0xf0ff 0xf02d Op.float fields_n
    ∷ entry 0xf0ff 0xf03d Op.ftrc fields_n
    ∷ entry 0xf0ff 0xf04d Op.fneg fields_n
    ∷ entry 0xf0ff 0xf05d Op.fabs fields_n
    ∷ entry 0xf0ff 0xf06d Op.fsqrt fields_n
    ∷ entry 0xf0ff 0xf07d Op.fsrra fields_n
    ∷ entry 0xf0ff 0xf08d Op.fldi0 fields_n
    ∷ entry 0xf0ff 0xf09d Op.fldi1 fields_n
    ∷ entry 0xf00f 0xf000 Op.fadd fields_nm
    ∷ entry 0xf00f 0xf001 Op.fsub fields_nm
    ∷ entry 0xf00f 0xf002 Op.fmul fields_nm
    ∷ entry 0xf00f 0xf003 Op.fdiv fields_nm
    ∷ entry 0xf00f 0xf004 Op.fcmp_eq fields_nm
    ∷ entry 0xf00f 0xf005 Op.fcmp_gt fields_nm
    ∷ entry 0xf00f 0xf006 Op.fmov_load_r0 fields_nm
    ∷ entry 0xf00f 0xf007 Op.fmov_store_r0 fields_nm
    ∷ entry 0xf00f 0xf008 Op.fmov_load fields_nm
    ∷ entry 0xf00f 0xf009 Op.fmov_load_inc fields_nm
    ∷ entry 0xf00f 0xf00a Op.fmov_store fields_nm
    ∷ entry 0xf00f 0xf00b Op.fmov_store_dec fields_nm
    ∷ entry 0xf00f 0xf00c Op.fmov fields_nm
    ∷ entry 0xf00f 0xf00e Op.fmac fields_nm
    ∷ []
