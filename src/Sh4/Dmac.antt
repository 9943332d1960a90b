-- ===== src/Sh4/Dmac.antt =====
-- runtime/include/dream/runtime/sh4/dmac.h and runtime/src/sh4/dmac.cpp: the DMA controller, with the
-- guest memory that it holds by reference. A device that a transfer writes to acts on the memory,
-- not back on the controller.
pub mod Transfer
mod Examples
use dream_recomp.Base.{
  ℕ, zero, suc, ◌+◌, ◌-◌, ◌*◌, ◌/◌, ◌%◌, ◌^◌, bit_and, bit_or, Bool, true, false, not, ◌&&◌, ◌||◌,
  ◌==◌, ltb, leb, if◌then◌else◌, List, [], ◌∷◌, get_or, set, replicate,
}
use dream_recomp.Base.Bits.{u32}
use dream_recomp.Sh4.Alu.{sub32, not32}
use dream_recomp.Mem.Machine.{Machine, Devices}
use dream_recomp.Mem.Access

pub record Channel : Type 0 where
  pub sar : ℕ
  pub dar : ℕ
  pub tcr : ℕ
  pub chcr : ℕ

pub record Dmac (D : Type 0) : Type 0 where
  pub memory : Machine D
  pub ch : List Channel
  pub dmaor : ℕ
  pub manual_transfers : ℕ

abbrev pub kde : ℕ
kde = 1

abbrev pub kte : ℕ
kte = 2

abbrev pub kie : ℕ
kie = 4

abbrev pub kdme : ℕ
kdme = 1

abbrev pub knmif : ℕ
knmif = 2

abbrev pub kae : ℕ
kae = 4

abbrev pub blank_channel : Channel
blank_channel = record { sar = 0; dar = 0; tcr = 0; chcr = 0 }

-- `kSizes` at the field TS.
abbrev pub unit_size : ℕ → ℕ
unit_size ts = get_or (8 ∷ 1 ∷ 2 ∷ 4 ∷ 32 ∷ 0 ∷ 0 ∷ 0 ∷ []) ts 0

-- The step of an address: up, down or none.
abbrev pub step : ℕ → ℕ → ℕ → ℕ
step mode size a = if mode == 1 then u32 (a + size) else if mode == 2 then sub32 a size else a

-- A count of 0 stands for 2 ^ 24.
abbrev pub unit_count : ℕ → ℕ
unit_count tcr = if tcr == 0 then 0x100_0000 else tcr

module _ {D : Type 0} where
  abbrev pub channel : Dmac D → ℕ → Channel
  channel d n = get_or d.ch n blank_channel

  unfoldable pub set_channel : ℕ → Channel → Dmac D → Dmac D
  set_channel n c d = record d { ch = set d.ch n c }

  pub reset : Dmac D → Dmac D
  reset d = record d { ch = replicate 4 blank_channel; dmaor = 0 }

  pub ddt_ready : Dmac D → Bool
  ddt_ready d = bit_and d.dmaor 0xffff_8201 == 0x8201

  pub address_error : Dmac D → Dmac D
  address_error d = record d { dmaor = bit_or d.dmaor kae }

  pub read : ℕ → Dmac D → ℕ
  read addr d =
      let off = sub32 addr 0xffa0_0000 in
      let c = channel d (off / 0x10) in
      let field = off % 0x10 in
      if off == 0x40
      then d.dmaor
      else if leb 0x40 off
      then 0
      else if field == 0
      then c.sar
      else if field == 4
      then c.dar
      else if field == 8
      then c.tcr
      else c.chcr

module _ {D : Type 0} (devices : Devices D) where
  -- The inner loop over the words of a unit of 4 bytes or more.
  unfoldable pub copy_words : ℕ → ℕ → ℕ → ℕ → Machine D → Machine D
  copy_words zero k dar sar m = m
  copy_words (suc words) k dar sar m =
      let (m1, v) = Access.read32 devices (u32 (sar + k)) m in
      copy_words words (k + 4) dar sar (Access.write32 devices (u32 (dar + k)) v m1)

  unfoldable pub copy_unit : ℕ → ℕ → ℕ → Machine D → Machine D
  copy_unit ts dar sar m =
      let (m1, b) = Access.read8 devices sar m in
      let (m2, h) = Access.read16 devices sar m in
      if ts == 1
      then Access.write8 devices dar b m1
      else if ts == 2
      then Access.write16 devices dar h m2
      else copy_words (ts / 4) 0 dar sar m

  -- The loop over the units.
  unfoldable pub copy_units : ℕ → ℕ → ℕ → ℕ → Channel × Machine D → Channel × Machine D
  copy_units zero smode dmode ts (c, m) = (c, m)
  copy_units (suc count) smode dmode ts (c, m) = copy_units count smode dmode ts (
    record c { sar = step smode ts c.sar; dar = step dmode ts c.dar },
    copy_unit ts c.dar c.sar m,
  )

module _ {D : Type 0} (devices : Devices D) (on_transfer_end : ℕ → Dmac D → Dmac D) where
  -- The device's end of a channel. A hook that is not set is the identity.
  unfoldable pub complete : ℕ → Dmac D → Dmac D
  complete ch d =
      let n = bit_and ch 3 in
      let c = channel d n in
      let d' = set_channel n (record c { chcr = bit_or c.chcr kte; tcr = 0 }) d in
      if bit_and c.chcr kie == 0 then d' else on_transfer_end n d'

  unfoldable pub manual_dma : ℕ → Dmac D → Dmac D
  manual_dma n d =
      let c = channel d n in
      let ts = unit_size (bit_and (c.chcr / 2 ^ 4) 7) in
      let (c', m') =
        copy_units devices (unit_count c.tcr) (bit_and (c.chcr / 2 ^ 12) 3)
          (bit_and (c.chcr / 2 ^ 14) 3) ts (c, d.memory) in
      let copied = record (set_channel n c' d) {
        memory = m';
        manual_transfers = (d.manual_transfers + 1) % 2 ^ 64;
      } in
      if ts == 0 then d else complete n copied

  -- An auto-request with the channel and the controller enabled.
  unfoldable pub starts : Channel → ℕ → Bool
  starts c dmaor =
      bit_and c.chcr kte == 0
      && (not (bit_and c.chcr kde == 0)
          && (not (bit_and dmaor kdme == 0) && bit_and (c.chcr / 2 ^ 8) 0xf == 4))

  -- TE is cleared by writing 0 and unaffected by 1.
  unfoldable pub written_chcr : ℕ → ℕ → ℕ → ℕ
  written_chcr n old value =
      let mask : ℕ = if ltb n 2 then 0xff0f_fff7 else 0xff0a_fff7 in
      bit_or (bit_and (bit_and value mask) (not32 kte)) (bit_and (bit_and old value) kte)

  unfoldable pub write_chcr : ℕ → ℕ → Dmac D → Dmac D
  write_chcr n value d =
      let c = record (channel d n) { chcr = written_chcr n (channel d n).chcr value } in
      let d' = set_channel n c d in if starts c d.dmaor then manual_dma n d' else d'

  pub write : ℕ → ℕ → Dmac D → Dmac D
  write addr value d =
      let off = sub32 addr 0xffa0_0000 in
      let n = off / 0x10 in
      let c = channel d n in
      let field = off % 0x10 in
      if off == 0x40
      then record d {
        dmaor =
            bit_or (bit_and value 0xffff_8201) (bit_and (bit_and d.dmaor value) (bit_or knmif kae));
      }
      else if leb 0x40 off
      then d
      else if field == 0
      then set_channel n (record c { sar = value }) d
      else if field == 4
      then set_channel n (record c { dar = value }) d
      else if field == 8
      then set_channel n (record c { tcr = bit_and value 0xff_ffff }) d
      else write_chcr n value d
