-- ===== src/Holly/Intc.antt =====
-- runtime/include/dream/runtime/holly/intc.h and runtime/src/holly/intc.cpp: the ASIC's interrupt
-- controller. The SH-4's controller, which the source holds by reference, is the field `cpu`.
pub mod Routing
pub mod Sources
use dream_recomp.Base.{
  ℕ, ◌+◌, ◌-◌, ◌%◌, ◌/◌, ◌^◌, bit_and, bit_or, Bool, true, false, not, ◌&&◌, ◌||◌, ◌==◌, ltb,
  if◌then◌else◌, Option, none, some,
}
use dream_recomp.Base.Bits.{u32}
use dream_recomp.Sh4.Alu.{not32}
use dream_recomp.Sh4.Intc as cpu_intc

pub record Intc : Type 0 where
  pub istnrm : ℕ
  pub istext : ℕ
  pub isterr : ℕ
  pub iml2nrm : ℕ
  pub iml2ext : ℕ
  pub iml2err : ℕ
  pub iml4nrm : ℕ
  pub iml4ext : ℕ
  pub iml4err : ℕ
  pub iml6nrm : ℕ
  pub iml6ext : ℕ
  pub iml6err : ℕ
  pub cpu : cpu_intc.Intc

-- `a & b` as a condition.
abbrev pub common : ℕ → ℕ → Bool
common a b = not (bit_and a b == 0)

abbrev pub level6 : Intc → Bool
level6 h = common h.istnrm h.iml6nrm || (common h.istext h.iml6ext || common h.isterr h.iml6err)

abbrev pub level4 : Intc → Bool
level4 h = common h.istnrm h.iml4nrm || (common h.istext h.iml4ext || common h.isterr h.iml4err)

abbrev pub level2 : Intc → Bool
level2 h = common h.istnrm h.iml2nrm || (common h.istext h.iml2ext || common h.isterr h.iml2err)

unfoldable pub recompute : Intc → Intc
recompute h = record h {
  cpu = cpu_intc.set_pending cpu_intc.irl13 (level2 h) (
      cpu_intc.set_pending cpu_intc.irl11 (level4 h)
        (cpu_intc.set_pending cpu_intc.irl9 (level6 h) h.cpu));
}

unfoldable pub reset : Intc → Intc
reset h = recompute (record {
  istnrm = 0;
  istext = 0;
  isterr = 0;
  iml2nrm = 0;
  iml2ext = 0;
  iml2err = 0;
  iml4nrm = 0;
  iml4ext = 0;
  iml4err = 0;
  iml6nrm = 0;
  iml6ext = 0;
  iml6err = 0;
  cpu = h.cpu;
})

-- The sources are numbered as the source's `enum Irq`: 0 to 31, 32 to 63, and 64 to 95.
unfoldable pub raise : ℕ → Intc → Intc
raise n h =
    if ltb n 32
    then recompute (record h { istnrm = bit_or h.istnrm (u32 (2 ^ n)) })
    else if ltb n 64
    then recompute (record h { istext = bit_or h.istext (u32 (2 ^ (n - 32))) })
    else recompute (record h { isterr = bit_or h.isterr (u32 (2 ^ (n - 64))) })

unfoldable pub clear : ℕ → Intc → Intc
clear n h =
    if ltb n 32
    then recompute (record h { istnrm = bit_and h.istnrm (not32 (u32 (2 ^ n))) })
    else if ltb n 64
    then recompute (record h { istext = bit_and h.istext (not32 (u32 (2 ^ (n - 32)))) })
    else recompute (record h { isterr = bit_and h.isterr (not32 (u32 (2 ^ (n - 64)))) })

unfoldable pub raised : Intc → ℕ → Bool
raised h n =
    if ltb n 32
    then common (h.istnrm / 2 ^ n) 1
    else if ltb n 64
    then common (h.istext / 2 ^ (n - 32)) 1
    else common (h.isterr / 2 ^ (n - 64)) 1

abbrev pub holly_base : ℕ
holly_base = 0x5f_6900

pub read : Intc → ℕ → ℕ
read h addr =
    let off = u32 (addr + 2 ^ 32 - holly_base) in
    let normal = bit_and h.istnrm 0x3fff_ffff in
    let with_ext = if h.istext == 0 then normal else bit_or normal 0x4000_0000 in
    let with_err = if h.isterr == 0 then with_ext else bit_or with_ext 0x8000_0000 in
    if off == 0x00
    then with_err
    else if off == 0x04
    then h.istext
    else if off == 0x08
    then h.isterr
    else if off == 0x10
    then h.iml2nrm
    else if off == 0x14
    then h.iml2ext
    else if off == 0x18
    then h.iml2err
    else if off == 0x20
    then h.iml4nrm
    else if off == 0x24
    then h.iml4ext
    else if off == 0x28
    then h.iml4err
    else if off == 0x30
    then h.iml6nrm
    else if off == 0x34
    then h.iml6ext
    else if off == 0x38
    then h.iml6err
    else 0

-- The `switch` of `write`: nothing is written on its `default`.
unfoldable pub write_register : ℕ → ℕ → Intc → Option Intc
write_register off v h =
    if off == 0x00
    then some (record h { istnrm = bit_and h.istnrm (not32 v) })
    else if off == 0x04
    then some h
    else if off == 0x08
    then some (record h { isterr = bit_and h.isterr (not32 v) })
    else if off == 0x10
    then some (record h { iml2nrm = v })
    else if off == 0x14
    then some (record h { iml2ext = v })
    else if off == 0x18
    then some (record h { iml2err = v })
    else if off == 0x20
    then some (record h { iml4nrm = v })
    else if off == 0x24
    then some (record h { iml4ext = v })
    else if off == 0x28
    then some (record h { iml4err = v })
    else if off == 0x30
    then some (record h { iml6nrm = v })
    else if off == 0x34
    then some (record h { iml6ext = v })
    else if off == 0x38
    then some (record h { iml6err = v })
    else none

-- The end of `write`: `recompute()`, or the `return` of the `default`.
abbrev pub written : Intc → Option Intc → Intc
written h none = h
written h (some w) = recompute w

unfoldable pub write : ℕ → ℕ → Intc → Intc
write addr v h = written h (write_register (u32 (addr + 2 ^ 32 - holly_base)) v h)
