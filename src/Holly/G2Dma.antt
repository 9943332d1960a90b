-- ===== src/Holly/G2Dma.antt =====
-- runtime/include/dream/runtime/holly/g2dma.h and runtime/src/holly/g2dma.cpp: the DMA channels of the
-- G2 bus, with the scheduler, the interrupt controller and the guest memory that it holds by
-- reference. A device that a transfer writes to acts on the memory, not back on the channels.
pub mod Settled
pub mod Progress
mod Examples
use dream_recomp.Base.{
  ℕ, ◌+◌, ◌-◌, ◌*◌, ◌/◌, ◌%◌, ◌^◌, bit_and, bit_or, Bool, true, false, not, ◌&&◌, ◌||◌, ◌==◌, leb,
  if◌then◌else◌, List, [], ◌∷◌, get_or, set, replicate,
}
use dream_recomp.Base.Bits.{u32}
use dream_recomp.Sched.{Scheduler, request}
use dream_recomp.Sched as scheduler
use dream_recomp.Holly.Intc as holly_intc
use dream_recomp.Sh4.Alu.{sub32, not32}
use dream_recomp.Sh4.Dmac.{copy_words}
use dream_recomp.Mem.Machine.{Machine, Devices}

pub record G2Dma (D W : Type 0) : Type 0 where
  pub sched : Scheduler W
  pub holly : holly_intc.Intc
  pub memory : Machine D
  pub regs : List ℕ
  pub events : List ℕ
  pub transfers : ℕ
  pub bytes : ℕ
  pub refused : ℕ
  pub to_aica_ram : ℕ

abbrev pub kbase : ℕ
kbase = 0x5f_7800

abbrev pub err_aica_illegal_addr : ℕ
err_aica_illegal_addr = 79

abbrev pub done_irq : ℕ → ℕ
done_irq ch = get_or (15 ∷ 16 ∷ 17 ∷ 18 ∷ []) ch 0

abbrev pub kcycles_per_byte : ℕ
kcycles_per_byte = 4

-- The register offsets of a channel, and the identification.
abbrev pub kstag : ℕ
kstag = 0

abbrev pub kstar : ℕ
kstar = 4

abbrev pub klen : ℕ
klen = 8

abbrev pub kdir : ℕ
kdir = 0xc

abbrev pub ktsel : ℕ
ktsel = 0x10

abbrev pub ken : ℕ
ken = 0x14

abbrev pub kst : ℕ
kst = 0x18

abbrev pub ksusp : ℕ
ksusp = 0x1c

abbrev pub kg2_id : ℕ
kg2_id = 0x80

-- Which of the eight areas of the bus an address lies in.
abbrev pub area : ℕ → ℕ
area a = bit_and (a / 2 ^ 26) 7

-- The registers of an idle controller.
abbrev pub idle_regs : List ℕ
idle_regs = set (set (set (set (set (replicate 64 0) 32 0x12) 7 0x10) 15 0x10) 23 0x10) 31 0x10

module _ {D W : Type 0} where
  abbrev pub reg : G2Dma D W → ℕ → ℕ → ℕ
  reg d ch offset = get_or d.regs (ch * 8 + offset / 4) 0

  abbrev pub set_reg : ℕ → ℕ → ℕ → G2Dma D W → G2Dma D W
  set_reg ch offset v d = record d { regs = set d.regs (ch * 8 + offset / 4) v }

  -- The constructor, which adds the four events to the scheduler.
  pub make : Scheduler W → holly_intc.Intc → Machine D → G2Dma D W
  make s holly memory =
      let (s0, e0) = scheduler.add s in
      let (s1, e1) = scheduler.add s0 in
      let (s2, e2) = scheduler.add s1 in
      let (s3, e3) = scheduler.add s2 in
      record {
        sched = s3;
        holly = holly;
        memory = memory;
        regs = idle_regs;
        events = e0 ∷ e1 ∷ e2 ∷ e3 ∷ [];
        transfers = 0;
        bytes = 0;
        refused = 0;
        to_aica_ram = 0;
      }

  pub read : ℕ → G2Dma D W → ℕ
  read addr d = get_or d.regs (bit_and (sub32 addr kbase) 0xfc / 4) 0

  -- The registers of a channel at the end of a transfer of `len` bytes.
  unfoldable pub ended : ℕ → ℕ → G2Dma D W → G2Dma D W
  ended ch len d =
      let d1 = set_reg ch kstar (u32 (reg d ch kstar + len)) d in
      let d2 = set_reg ch kstag (u32 (reg d1 ch kstag + len)) d1 in
      let d3 = set_reg ch kst 0 (set_reg ch klen 0 d2) in
      set_reg ch ksusp (bit_or (reg d3 ch ksusp) 0x10) d3

  unfoldable pub finished : ℕ → G2Dma D W → G2Dma D W
  finished ch d =
      let len = reg d ch klen in
      ended ch (bit_and len 0x7fff_ffff)
        (if bit_and len 0x8000_0000 == 0 then d else set_reg ch ken 0 d)

  unfoldable pub finish : ℕ → G2Dma D W → G2Dma D W
  finish ch d =
      let d' = finished ch d in record d' { holly = holly_intc.raise (done_irq ch) d.holly }

  -- A transfer with a bad address or no length.
  unfoldable pub refuse : ℕ → G2Dma D W → G2Dma D W
  refuse ch d =
      let d' = set_reg ch ken 0 (set_reg ch kst 0 d) in
      record d' {
        refused = (d.refused + 1) % 2 ^ 64;
        holly = holly_intc.raise err_aica_illegal_addr d.holly;
      }

  -- The channel is in progress: its end is now, for a short transfer, or the event's.
  unfoldable pub in_progress : ℕ → ℕ → G2Dma D W → G2Dma D W
  in_progress ch len d =
      let d1 = set_reg ch kst 1 d in
      let d2 = set_reg ch ksusp (bit_and (reg d1 ch ksusp) (not32 0x10)) d1 in
      let cycles = len * kcycles_per_byte in
      if leb cycles 512
      then finish ch d2
      else record d2 { sched = request (get_or d.events ch 0) cycles d.sched }

module _ {D W : Type 0} (devices : Devices D) where
  -- The copy, from `src` to `dst`, with the counters.
  unfoldable pub copied : ℕ → ℕ → ℕ → G2Dma D W → G2Dma D W
  copied src dst len d =
      let sound = bit_and dst 0x1f00_0000 == 0 && not (bit_and dst 0x0080_0000 == 0) in
      record d {
        memory = copy_words devices ((len + 3) / 4) 0 dst src d.memory;
        transfers = (d.transfers + 1) % 2 ^ 64;
        bytes = (d.bytes + len) % 2 ^ 64;
        to_aica_ram = if sound then (d.to_aica_ram + len) % 2 ^ 64 else d.to_aica_ram;
      }

  unfoldable pub start : ℕ → G2Dma D W → G2Dma D W
  start ch d =
      let star = reg d ch kstar in
      let stag = reg d ch kstag in
      let len = bit_and (reg d ch klen) 0x7fff_ffff in
      let src_ok = area star == 3 || area star == 1 in
      let dst_ok = area stag == 0 || area stag == 3 in
      let d' = if reg d ch kdir == 1 then copied stag star len d else copied star stag len d in
      if not (reg d ch ken == 1)
      then d
      else if not src_ok || (not dst_ok || len == 0)
      then refuse ch d
      else in_progress ch len d'

  -- A write to the register `field` of a channel.
  unfoldable pub write_channel : ℕ → ℕ → ℕ → G2Dma D W → G2Dma D W
  write_channel ch field value d =
      if field == kst
      then if bit_and value 1 == 1 && bit_and (reg d ch kst) 1 == 0 then start ch d else d
      else if field == ksusp
      then set_reg ch ksusp (bit_or (bit_and (reg d ch ksusp) 0x10) (bit_and value 1)) d
      else if field == klen
      then set_reg ch klen (bit_and value 0x9fff_ffff) d
      else if field == ken || (field == kdir || field == ktsel)
      then set_reg ch field (bit_and value 1) d
      else set_reg ch field (bit_and value 0x1fff_ffe0) d

  unfoldable pub write : ℕ → ℕ → G2Dma D W → G2Dma D W
  write addr value d =
      let off = bit_and (sub32 addr kbase) 0xfc in
      let stored = record d { regs = set d.regs (off / 4) value } in
      if leb 0x80 off
      then if off == kg2_id then d else stored
      else write_channel (off / 0x20) (bit_and off 0x1c) value d
