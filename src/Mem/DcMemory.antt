-- ===== src/Mem/DcMemory.antt =====
-- runtime/src/mem/dc_memory.cpp, `DcMemory`: address decoding, loads, stores, the journal and the
-- store queues.
pub mod Bounds
use dream_recomp.Base.{
  ℕ, zero, suc, ◌+◌, ◌-◌, ◌*◌, ◌/◌, ◌%◌, ◌^◌, bit_and, bit_or, Bool, true, false, ◌&&◌, ◌==◌, ltb,
  leb, not, if◌then◌else◌, Option, none, some, List, [], ◌∷◌, get_or, set,
}
use dream_recomp.Sh4.Alu.{not32}
use dream_recomp.Mem.Vram.{vram_map32}
use dream_recomp.Mem.Utlb
use dream_recomp.Mem.FaultLog.{record_fault}
use dream_recomp.Mem.Bytes.{Region, ram, vram, aram, bios, flash, ocram, store_queues, region_size}
use dream_recomp.Mem.Machine.{
  Range, WriteRecord, Machine, Devices, peek, poke, push_journal, saw_device, note_ram_write,
  tracing_writes,
}

-- The UTLB is the memory's own device.
pub data Handler : Type 0 where
  utlb : Handler
  device : ℕ → Handler

pub data Target : Type 0 where
  nothing : Target
  bytes_at : Region → ℕ → Target
  mmio_at : Handler → ℕ → Target

unfoldable pub find : List Range → ℕ → Option ℕ
find [] a = none
find (r ∷ t) a = if leb r.lo a && ltb a r.hi then some r.handler else find t a

-- The bytes that area 0, 1 or 3 of the physical space stands for; `none` goes to the device table.
unfoldable pub decode_phys : ℕ → Option (Region × ℕ)
decode_phys phys =
    let area = phys / 2 ^ 26 in
    let off0 = bit_and phys 0x03ff_ffff in
    let off1 = bit_and phys 0x007f_ffff in
    if area == 0
    then if ltb off0 0x0020_0000
      then some (bios, off0)
      else if ltb off0 0x0040_0000
      then some (flash, bit_and off0 (region_size flash - 1))
      else if leb 0x0080_0000 off0 && ltb off0 0x0100_0000
      then some (aram, bit_and off0 (region_size aram - 1))
      else none
    else if area == 1
    then some (vram, if bit_and phys 0x0100_0000 == 0 then off1 else vram_map32 off1)
    else if area == 3
    then some (ram, bit_and phys (region_size ram - 1))
    else none

-- Where an address leads, with no state but the device tables.
unfoldable pub decode : List Range → List Range → ℕ → Target
decode phys_mmio p4_mmio a =
    if bit_and a 0xe000_0000 == 0xe000_0000
    then if ltb a 0xe400_0000
      then bytes_at store_queues (bit_and (a / 2 ^ 5) 1 * 32 + bit_and a 0x1c)
      else if leb 0xf600_0000 a && ltb a 0xf800_0000
      then mmio_at utlb a
      else elim (find p4_mmio a) [ none ↦ nothing | some h ↦ mmio_at (device h) a ]
    else if bit_and a 0xfc00_0000 == 0x7c00_0000
    then bytes_at ocram (bit_and (a / 2 ^ 13) 1 * 2 ^ 12 + bit_and a 0xfff)
    else let phys = bit_and a 0x1fff_ffff in
      elim (decode_phys phys) [
        | some (r, off) ↦ bytes_at r off
        | none ↦ elim (find phys_mmio phys) [ none ↦ nothing | some h ↦ mmio_at (device h) phys ]
      ]

abbrev pub lo32 : ℕ → ℕ
lo32 v = v % 2 ^ 32

abbrev pub hi32 : ℕ → ℕ
hi32 v = v / 2 ^ 32

module _ {D : Type 0} (devices : Devices D) where
  open devices use {read, write, write_burst, on_device_access, on_unmapped}

  -- The hooks that a decoded address runs before the access.
  unfoldable pub enter : Target → ℕ → ℕ → Bool → Machine D → Machine D
  enter nothing a size is_write m =
      let m' = on_unmapped a size is_write m in
      record m' { faults = record_fault m'.faults a size is_write }
  enter (bytes_at r off) a size is_write m = m
  enter (mmio_at h x) a size is_write m = on_device_access m

  unfoldable pub resolve : ℕ → ℕ → Bool → Machine D → Machine D × Target
  resolve a size is_write m =
      let t = decode m.phys_mmio m.p4_mmio a in (enter t a size is_write m, t)

  unfoldable pub device_read : Handler → ℕ → ℕ → Machine D → Machine D × ℕ
  device_read utlb x size m = (m, Utlb.read m.utlb x)
  device_read (device h) x size m = read h x size m

  unfoldable pub device_write : Handler → ℕ → ℕ → ℕ → Machine D → Machine D
  device_write utlb x v size m = record m { utlb = Utlb.write m.utlb x v size }
  device_write (device h) x v size m = write h x v size m

  -- `MmioHandler::write_burst`, which the UTLB does not override.
  unfoldable pub default_burst : Handler → ℕ → List ℕ → Machine D → Machine D
  default_burst h x [] m = m
  default_burst h x (w ∷ ws) m = default_burst h (x + 4) ws (device_write h x w 4 m)

  unfoldable pub device_burst : Handler → ℕ → List ℕ → Machine D → Machine D
  device_burst utlb x ws m = default_burst utlb x ws m
  device_burst (device h) x ws m = write_burst h x ws m

  unfoldable pub load_at : Target → ℕ → Machine D → Machine D × ℕ
  load_at nothing size m = (m, 0)
  load_at (bytes_at r off) size m = (m, peek m r off size)
  load_at (mmio_at h x) size m =
      let (m', v) = device_read h x size (saw_device m) in (m', v % 256 ^ size)

  -- `load<T>`, with the size of `T` in bytes.
  unfoldable pub load : ℕ → ℕ → Machine D → Machine D × ℕ
  load size a m = let (m', t) = resolve a size false m in load_at t size m'

  unfoldable pub store_at : Target → ℕ → ℕ → ℕ → Machine D → Machine D
  store_at nothing size a v m = m
  store_at (bytes_at r off) size a v m =
      note_ram_write devices a v size
        (poke (push_journal m a (peek m r off size) v size) r off size v)
  store_at (mmio_at h x) size a v m = device_write h x (lo32 v) size (saw_device m)

  -- `store<T>`.
  unfoldable pub store : ℕ → ℕ → ℕ → Machine D → Machine D
  store size a v m = let (m', t) = resolve a size true m in store_at t size a v m'
