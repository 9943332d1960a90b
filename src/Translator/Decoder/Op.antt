-- ===== src/Translator/Decoder/Op.antt =====
-- translator/include/dream/translator/sh4/decoder.h: the operations of the SH-4.

-- `invalid` and `count` are the enumeration's bounds, not operations.
pub data Op : Type 0 where
  invalid mov_i mov_w_pcrel mov_l_pcrel mov mov_b_s mov_w_s mov_l_s mov_b_l mov_w_l mov_l_l : Op
  mov_b_sd mov_w_sd mov_l_sd mov_b_li mov_w_li mov_l_li mov_l_s_disp mov_l_l_disp : Op
  mov_b_s_disp0 mov_w_s_disp0 mov_b_l_disp0 mov_w_l_disp0 mov_b_s_r0 mov_w_s_r0 mov_l_s_r0 : Op
  mov_b_l_r0 mov_w_l_r0 mov_l_l_r0 mov_b_s_gbr mov_w_s_gbr mov_l_s_gbr mov_b_l_gbr : Op
  mov_w_l_gbr mov_l_l_gbr mova movt swap_b swap_w xtrct add add_i addc addv cmp_eq_i cmp_eq : Op
  cmp_hs cmp_ge cmp_hi cmp_gt cmp_pz cmp_pl cmp_str div1 div0s div0u dmuls_l dmulu_l dt : Op
  exts_b exts_w extu_b extu_w mac_l mac_w mul_l muls_w mulu_w neg negc sub subc subv and : Op
  and_i and_b_gbr not or or_i or_b_gbr tas_b tst tst_i tst_b_gbr xor xor_i xor_b_gbr rotl : Op
  rotr rotcl rotcr shad shal shar shld shll shll2 shll8 shll16 shlr shlr2 shlr8 shlr16 bf : Op
  bf_s bt bt_s bra braf bsr bsrf jmp jsr rts clrmac clrs clrt ldc_sr ldc_gbr ldc_vbr ldc_ssr : Op
  ldc_spc ldc_dbr ldc_sgr ldc_bank ldc_l_sr ldc_l_gbr ldc_l_vbr ldc_l_ssr ldc_l_spc : Op
  ldc_l_dbr ldc_l_sgr ldc_l_bank lds_mach lds_macl lds_pr lds_l_mach lds_l_macl lds_l_pr : Op
  ldtlb movca_l nop ocbi ocbp ocbwb pref rte sets sett sleep stc_sr stc_gbr stc_vbr stc_ssr : Op
  stc_spc stc_sgr stc_dbr stc_bank stc_l_sr stc_l_gbr stc_l_vbr stc_l_ssr stc_l_spc : Op
  stc_l_sgr stc_l_dbr stc_l_bank sts_mach sts_macl sts_pr sts_l_mach sts_l_macl sts_l_pr : Op
  trapa fldi0 fldi1 fmov fmov_load fmov_store fmov_load_inc fmov_store_dec fmov_load_r0 : Op
  fmov_store_r0 flds fsts fabs fneg fadd fsub fmul fdiv fmac fcmp_eq fcmp_gt float ftrc : Op
  fsqrt fsrra fcnvds fcnvsd fipr ftrv fsca fschg frchg lds_fpul lds_fpscr lds_l_fpul : Op
  lds_l_fpscr sts_fpul sts_fpscr sts_l_fpul sts_l_fpscr count : Op
