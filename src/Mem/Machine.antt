-- ===== src/Mem/Machine.antt =====
-- The state of `class DcMemory` of dc_memory.h, the bus of devices it is connected to, and the
-- bookkeeping of guest stores (`note_write`, `note_ram_write`).
-- A host pointer is a region with an offset. The hooks and the devices of other parts are functions
-- on the whole machine, since a device may write memory; `world` is their own state.
use dream_recomp.Base.{
  ℕ, ◌+◌, ◌*◌, ◌%◌, ◌^◌, bit_and, bit_xor, Bool, ◌&&◌, ◌||◌, ◌==◌, ltb, leb, if◌then◌else◌, List,
  [], ◌∷◌, ◌++◌,
}
use dream_recomp.Mem.Bytes.{Region, Bytes, read_bytes, put}
use dream_recomp.Mem.Utlb.{Utlb}
use dream_recomp.Mem.FaultLog.{FaultLog}

-- [lo, hi) with the number of the device that serves it.
pub record Range : Type 0 where
  pub lo : ℕ
  pub hi : ℕ
  pub handler : ℕ

pub record WriteRecord : Type 0 where
  pub addr : ℕ
  pub old_value : ℕ
  pub new_value : ℕ
  pub size : ℕ

pub record Machine (D : Type 0) : Type 0 where
  pub bytes : Bytes
  pub phys_mmio : List Range
  pub p4_mmio : List Range
  pub tra : ℕ
  pub expevt : ℕ
  pub intevt : ℕ
  pub qacr0 : ℕ
  pub qacr1 : ℕ
  pub ccn : List ℕ
  pub utlb : Utlb
  pub sq_tlb_flushes : ℕ
  pub sq_tlb_misses : ℕ
  pub faults : FaultLog
  pub journaling : Bool
  pub journal_saw_device : Bool
  pub journal : List WriteRecord
  pub hash_writes : Bool
  pub hash_mask_segment : Bool
  pub write_hash : ℕ
  pub writes_hashed : ℕ
  pub log_from : ℕ
  pub log_to : ℕ
  pub watch_lo : ℕ
  pub watch_hi : ℕ
  pub watch_armed : Bool
  pub world : D

-- The virtual functions of `MmioHandler` for each device, and the hooks; a hook that is not set is
-- the identity.
pub record Devices (D : Type 0) : Type 0 where
  pub read : ℕ → ℕ → ℕ → Machine D → Machine D × ℕ
  pub write : ℕ → ℕ → ℕ → ℕ → Machine D → Machine D
  pub write_burst : ℕ → ℕ → List ℕ → Machine D → Machine D
  pub on_device_access : Machine D → Machine D
  pub on_unmapped : ℕ → ℕ → Bool → Machine D → Machine D
  pub on_watch_write : ℕ → ℕ → ℕ → Machine D → Machine D
  pub on_hashed_write : ℕ → ℕ → ℕ → ℕ → Machine D → Machine D

module _ {D : Type 0} where
  unfoldable pub peek : Machine D → Region → ℕ → ℕ → ℕ
  peek m r off n = read_bytes (m.bytes r) off n

  unfoldable pub poke : Machine D → Region → ℕ → ℕ → ℕ → Machine D
  poke m r off n v = record m { bytes = put r off n v m.bytes }

  unfoldable pub push_journal : Machine D → ℕ → ℕ → ℕ → ℕ → Machine D
  push_journal m addr old new size =
      if m.journaling
      then record m {
        journal =
            m.journal ++ record { addr = addr; old_value = old; new_value = new; size = size } ∷ [];
      }
      else m

  unfoldable pub saw_device : Machine D → Machine D
  saw_device m = record m { journal_saw_device = m.journaling || m.journal_saw_device }

abbrev hash_prime : ℕ
hash_prime = 0x100_0000_01b3

abbrev mix_hash : ℕ → ℕ → ℕ
mix_hash h v = bit_xor h v * hash_prime % 2 ^ 64

module _ {D : Type 0} (devices : Devices D) where
  open devices use {on_watch_write, on_hashed_write}

  unfoldable pub note_write : ℕ → ℕ → ℕ → Machine D → Machine D
  note_write addr value size m =
      let v = if m.hash_mask_segment && size == 4 then bit_and value 0x1fff_ffff else value in
      let m' =
        if leb m.log_from m.writes_hashed && ltb m.writes_hashed m.log_to
        then on_hashed_write m.writes_hashed addr v size m
        else m in
      record m' {
        write_hash = mix_hash (mix_hash (mix_hash m'.write_hash (bit_and addr 0x1fff_ffff)) v) size;
        writes_hashed = m'.writes_hashed + 1;
      }

  unfoldable pub note_ram_write : ℕ → ℕ → ℕ → Machine D → Machine D
  note_ram_write addr value size m =
      let m' = if m.hash_writes then note_write addr value size m else m in
      if leb m'.watch_lo (bit_and addr 0x1fff_ffff)
        && (ltb (bit_and addr 0x1fff_ffff) m'.watch_hi && m'.watch_armed)
      then on_watch_write addr (value % 2 ^ 32) size m'
      else m'

  unfoldable pub tracing_writes : Machine D → Bool
  tracing_writes m = m.hash_writes || (m.watch_armed && ltb m.watch_lo m.watch_hi)
