-- ===== src/Sh4/Ctx.antt =====
-- runtime/include/dream/runtime/sh4/ctx.h: the guest context and the bits of SR. A float register
-- is its bit pattern.
use dream_recomp.Base.{ℕ, List}

pub record Ctx : Type 0 where
  pub r : List ℕ
  pub r_bank : List ℕ
  pub pc : ℕ
  pub pr : ℕ
  pub gbr : ℕ
  pub vbr : ℕ
  pub sr : ℕ
  pub ssr : ℕ
  pub spc : ℕ
  pub sgr : ℕ
  pub dbr : ℕ
  pub mach : ℕ
  pub macl : ℕ
  pub fpul : ℕ
  pub fpscr : ℕ
  pub t : ℕ
  pub fr : List ℕ
  pub xf : List ℕ
  pub cycles : ℕ
  pub next_event : ℕ

abbrev pub sr_t : ℕ
sr_t = 0x1

abbrev pub sr_s : ℕ
sr_s = 0x2

abbrev pub sr_imask : ℕ
sr_imask = 0xf0

abbrev pub sr_q : ℕ
sr_q = 0x100

abbrev pub sr_m : ℕ
sr_m = 0x200

abbrev pub sr_bl : ℕ
sr_bl = 0x1000_0000

abbrev pub sr_rb : ℕ
sr_rb = 0x2000_0000
