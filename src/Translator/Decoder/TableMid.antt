-- ===== src/Translator/Decoder/TableMid.antt =====
-- translator/src/sh4/decoder.cpp: `kTable`, the words that begin with 0100.
use dream_recomp.Base.{List, [], ◌∷◌}
use dream_recomp.Translator.Decoder.Op
use dream_recomp.Translator.Decoder.Entry.{
  Entry, entry, fields_bank_m, fields_bank_n, fields_m, fields_n, fields_nm, sh4a_entry,
}

-- The words of `---- 0100 ----`.
abbrev pub table_4 : List Entry
table_4 =
    entry 0xf0ff 0x4000 Op.shll fields_n
    ∷ entry 0xf0ff 0x4010 Op.dt fields_n
    ∷ entry 0xf0ff 0x4020 Op.shal fields_n
    ∷ entry 0xf0ff 0x4001 Op.shlr fields_n
    ∷ entry 0xf0ff 0x4011 Op.cmp_pz fields_n
    ∷ entry 0xf0ff 0x4021 Op.shar fields_n
    ∷ entry 0xf0ff 0x4002 Op.sts_l_mach fields_n
    ∷ entry 0xf0ff 0x4012 Op.sts_l_macl fields_n
    ∷ entry 0xf0ff 0x4022 Op.sts_l_pr fields_n
    ∷ entry 0xf0ff 0x4052 Op.sts_l_fpul fields_n
    ∷ entry 0xf0ff 0x4062 Op.sts_l_fpscr fields_n
    ∷ entry 0xf0ff 0x4003 Op.stc_l_sr fields_n
    ∷ entry 0xf0ff 0x4013 Op.stc_l_gbr fields_n
    ∷ entry 0xf0ff 0x4023 Op.stc_l_vbr fields_n
    ∷ entry 0xf0ff 0x4033 Op.stc_l_ssr fields_n
    ∷ entry 0xf0ff 0x4043 Op.stc_l_spc fields_n
    ∷ entry 0xf0ff 0x4032 Op.stc_l_sgr fields_n
    ∷ entry 0xf0ff 0x40f2 Op.stc_l_dbr fields_n
    ∷ entry 0xf08f 0x4083 Op.stc_l_bank fields_bank_n
    ∷ entry 0xf0ff 0x4004 Op.rotl fields_n
    ∷ entry 0xf0ff 0x4024 Op.rotcl fields_n
    ∷ entry 0xf0ff 0x4005 Op.rotr fields_n
    ∷ entry 0xf0ff 0x4015 Op.cmp_pl fields_n
    ∷ entry 0xf0ff 0x4025 Op.rotcr fields_n
    ∷ entry 0xf0ff 0x4006 Op.lds_l_mach fields_m
    ∷ entry 0xf0ff 0x4016 Op.lds_l_macl fields_m
    ∷ entry 0xf0ff 0x4026 Op.lds_l_pr fields_m
    ∷ entry 0xf0ff 0x4056 Op.lds_l_fpul fields_m
    ∷ entry 0xf0ff 0x4066 Op.lds_l_fpscr fields_m
    ∷ entry 0xf0ff 0x4007 Op.ldc_l_sr fields_m
    ∷ entry 0xf0ff 0x4017 Op.ldc_l_gbr fields_m
    ∷ entry 0xf0ff 0x4027 Op.ldc_l_vbr fields_m
    ∷ entry 0xf0ff 0x4037 Op.ldc_l_ssr fields_m
    ∷ entry 0xf0ff 0x4047 Op.ldc_l_spc fields_m
    ∷ sh4a_entry 0xf0ff 0x4036 Op.ldc_l_sgr fields_m
    ∷ entry 0xf0ff 0x40f6 Op.ldc_l_dbr fields_m
    ∷ entry 0xf08f 0x4087 Op.ldc_l_bank fields_bank_m
    ∷ entry 0xf0ff 0x4008 Op.shll2 fields_n
    ∷ entry 0xf0ff 0x4018 Op.shll8 fields_n
    ∷ entry 0xf0ff 0x4028 Op.shll16 fields_n
    ∷ entry 0xf0ff 0x4009 Op.shlr2 fields_n
    ∷ entry 0xf0ff 0x4019 Op.shlr8 fields_n
    ∷ entry 0xf0ff 0x4029 Op.shlr16 fields_n
    ∷ entry 0xf0ff 0x400a Op.lds_mach fields_m
    ∷ entry 0xf0ff 0x401a Op.lds_macl fields_m
    ∷ entry 0xf0ff 0x402a Op.lds_pr fields_m
    ∷ entry 0xf0ff 0x405a Op.lds_fpul fields_m
    ∷ entry 0xf0ff 0x406a Op.lds_fpscr fields_m
    ∷ entry 0xf0ff 0x400b Op.jsr fields_m
    ∷ entry 0xf0ff 0x401b Op.tas_b fields_n
    ∷ entry 0xf0ff 0x402b Op.jmp fields_m
    ∷ entry 0xf00f 0x400c Op.shad fields_nm
    ∷ entry 0xf00f 0x400d Op.shld fields_nm
    ∷ entry 0xf0ff 0x400e Op.ldc_sr fields_m
    ∷ entry 0xf0ff 0x401e Op.ldc_gbr fields_m
    ∷ entry 0xf0ff 0x402e Op.ldc_vbr fields_m
    ∷ entry 0xf0ff 0x403e Op.ldc_ssr fields_m
    ∷ entry 0xf0ff 0x404e Op.ldc_spc fields_m
    ∷ sh4a_entry 0xf0ff 0x403a Op.ldc_sgr fields_m
    ∷ entry 0xf0ff 0x40fa Op.ldc_dbr fields_m
    ∷ entry 0xf08f 0x408e Op.ldc_bank fields_bank_m
    ∷ entry 0xf00f 0x400f Op.mac_w fields_nm
    ∷ []
