-- ===== src/Sh4/Intc.antt =====
-- runtime/include/dream/runtime/sh4/intc.h and runtime/src/sh4/intc.cpp: the interrupt controller.
pub mod Selection
pub mod Pending
use dream_recomp.Base.{
  ℕ, zero, suc, ◌+◌, ◌-◌, ◌*◌, ◌/◌, ◌%◌, ◌^◌, bit_and, bit_or, Bool, true, false, not, ◌&&◌, ◌||◌,
  ◌==◌, ltb, leb, if◌then◌else◌, Option, none, some, List, [], ◌∷◌,
}
use dream_recomp.Base.Bits.{u32, bit_at}
use dream_recomp.Sh4.Ctx.{sr_bl, sr_imask}
use dream_recomp.Sh4.Alu.{not32}

pub data Irq : Type 0 where
  irl9 irl11 irl13 tmu0 tmu1 tmu2 dmte0 dmte1 dmte2 dmte3 dmae scif_eri scif_rxi scif_bri : Irq
  scif_txi : Irq

abbrev pub irq_number : Irq → ℕ
irq_number irl9 = 0
irq_number irl11 = 1
irq_number irl13 = 2
irq_number tmu0 = 3
irq_number tmu1 = 4
irq_number tmu2 = 5
irq_number dmte0 = 6
irq_number dmte1 = 7
irq_number dmte2 = 8
irq_number dmte3 = 9
irq_number dmae = 10
irq_number scif_eri = 11
irq_number scif_rxi = 12
irq_number scif_bri = 13
irq_number scif_txi = 14

-- The values of `Irq` below `Count`, in the order of their numbers.
abbrev pub all_irqs : List Irq
all_irqs =
    irl9 ∷ irl11 ∷ irl13 ∷ tmu0 ∷ tmu1 ∷ tmu2 ∷ dmte0 ∷ dmte1 ∷ dmte2 ∷ dmte3 ∷ dmae ∷ scif_eri
    ∷ scif_rxi ∷ scif_bri ∷ scif_txi ∷ []

pub record Intc : Type 0 where
  pub ipra : ℕ
  pub iprb : ℕ
  pub iprc : ℕ
  pub icr : ℕ
  pub pending_bits : ℕ

pub record Selected : Type 0 where
  pub irq : Irq
  pub code : ℕ
  pub level : ℕ

unfoldable pub set_pending : Irq → Bool → Intc → Intc
set_pending irq p c =
    let mask = u32 (2 ^ irq_number irq) in
    record c {
      pending_bits = if p then bit_or c.pending_bits mask else bit_and c.pending_bits (not32 mask);
    }

unfoldable pub pending : Intc → Irq → Bool
pending c irq = not (bit_and (c.pending_bits / 2 ^ irq_number irq) 1 == 0)

pub any_pending : Intc → Bool
any_pending c = not (c.pending_bits == 0)

pub intevt : Irq → ℕ
intevt irl9 = 0x320
intevt irl11 = 0x360
intevt irl13 = 0x3a0
intevt tmu0 = 0x400
intevt tmu1 = 0x420
intevt tmu2 = 0x440
intevt dmte0 = 0x640
intevt dmte1 = 0x660
intevt dmte2 = 0x680
intevt dmte3 = 0x6a0
intevt dmae = 0x6c0
intevt scif_eri = 0x700
intevt scif_rxi = 0x720
intevt scif_bri = 0x740
intevt scif_txi = 0x760

unfoldable pub priority : Intc → Irq → ℕ
priority c irl9 = 6
priority c irl11 = 4
priority c irl13 = 2
priority c tmu0 = bit_and (c.ipra / 2 ^ 12) 0xf
priority c tmu1 = bit_and (c.ipra / 2 ^ 8) 0xf
priority c tmu2 = bit_and (c.ipra / 2 ^ 4) 0xf
priority c dmte0 = bit_and (c.iprc / 2 ^ 8) 0xf
priority c dmte1 = bit_and (c.iprc / 2 ^ 8) 0xf
priority c dmte2 = bit_and (c.iprc / 2 ^ 8) 0xf
priority c dmte3 = bit_and (c.iprc / 2 ^ 8) 0xf
priority c dmae = bit_and (c.iprc / 2 ^ 8) 0xf
priority c scif_eri = bit_and (c.iprc / 2 ^ 4) 0xf
priority c scif_rxi = bit_and (c.iprc / 2 ^ 4) 0xf
priority c scif_bri = bit_and (c.iprc / 2 ^ 4) 0xf
priority c scif_txi = bit_and (c.iprc / 2 ^ 4) 0xf

-- `!best || pr > best->priority`.
abbrev pub better : ℕ → Option Selected → Bool
better pr none = true
better pr (some b) = ltb b.level pr

-- One turn of the loop of `select`.
unfoldable pub consider : Intc → ℕ → Irq → Option Selected → Option Selected
consider c imask irq best =
    let pr = priority c irq in
    if not (pending c irq)
    then best
    else if pr == 0 || leb pr imask
    then best
    else if better pr best
    then some (record { irq = irq; code = intevt irq; level = pr })
    else best

unfoldable pub select_from : Intc → ℕ → List Irq → Option Selected → Option Selected
select_from c imask [] best = best
select_from c imask (irq ∷ irqs) best = select_from c imask irqs (consider c imask irq best)

unfoldable pub select : Intc → ℕ → Option Selected
select c sr =
    if c.pending_bits == 0 || not (bit_and sr sr_bl == 0)
    then none
    else select_from c (bit_and sr sr_imask / 2 ^ 4) all_irqs none

abbrev pub intc_base : ℕ
intc_base = 0xffd0_0000

pub read : Intc → ℕ → ℕ
read c addr =
    let off = u32 (addr + 2 ^ 32 - intc_base) in
    if off == 0x0
    then c.icr
    else if off == 0x4
    then c.ipra
    else if off == 0x8
    then c.iprb
    else if off == 0xc
    then c.iprc
    else 0

pub write : ℕ → ℕ → Intc → Intc
write addr v c =
    let off = u32 (addr + 2 ^ 32 - intc_base) in
    if off == 0x0
    then record c { icr = bit_and v 0xc380 % 2 ^ 16 }
    else if off == 0x4
    then record c { ipra = v % 2 ^ 16 }
    else if off == 0x8
    then record c { iprb = bit_and v 0xfff0 % 2 ^ 16 }
    else if off == 0xc
    then record c { iprc = v % 2 ^ 16 }
    else c
