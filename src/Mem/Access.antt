-- ===== src/Mem/Access.antt =====
-- The `Memory` interface of runtime/src/mem/dc_memory.cpp: `read8` to `write64`, the CCN registers,
-- the store queues with `sq_flush`, and `undo_journal` and `redo_journal`.
pub mod Words
pub mod Journal
use dream_recomp.Base.{
  ℕ, zero, suc, ◌+◌, ◌-◌, ◌*◌, ◌/◌, ◌%◌, ◌^◌, bit_and, bit_or, Bool, true, false, not, ◌==◌,
  if◌then◌else◌, Option, none, some, List, [], ◌∷◌, get_or, set,
}
use dream_recomp.Base.Bits.{u32}
use dream_recomp.Sh4.Alu.{not32}
use dream_recomp.Mem.Utlb
use dream_recomp.Mem.Bytes.{Region, store_queues}
use dream_recomp.Mem.Machine.{
  WriteRecord, Machine, Devices, peek, poke, push_journal, saw_device, note_ram_write,
  tracing_writes,
}
use dream_recomp.Mem.DcMemory.{
  Target, nothing, bytes_at, mmio_at, resolve, device_read, device_write, device_burst, load, store,
  lo32, hi32, decode,
}

-- The registers at 0xFF000000 to 0xFF00003F.
abbrev pub is_ccn : ℕ → Bool
is_ccn a = bit_and a 0xffff_ffc0 == 0xff00_0000

module _ {D : Type 0} where
  pub read_ccn : Machine D → ℕ → ℕ
  read_ccn m a =
      let r = bit_and a 0x3c in
      if r == 0x20
      then m.tra
      else if r == 0x24
      then m.expevt
      else if r == 0x28
      then m.intevt
      else if r == 0x38
      then m.qacr0
      else if r == 0x3c
      then m.qacr1
      else get_or m.ccn (bit_and (a / 2 ^ 2) 15) 0

  pub write_ccn : Machine D → ℕ → ℕ → Machine D
  write_ccn m a v =
      let r = bit_and a 0x3c in
      if r == 0x20
      then record m { tra = bit_and v 0x3fc }
      else if r == 0x24
      then record m { expevt = bit_and v 0xfff }
      else if r == 0x28
      then record m { intevt = bit_and v 0xfff }
      else if r == 0x10
      then record m {
        ccn = set m.ccn 4 (bit_and v (not32 4));
        utlb = if not (bit_and v 4 == 0) then Utlb.invalidate m.utlb else m.utlb;
      }
      else if r == 0x38
      then record m { qacr0 = bit_and v 0x1c }
      else if r == 0x3c
      then record m { qacr1 = bit_and v 0x1c }
      else record m { ccn = set m.ccn (bit_and (a / 2 ^ 2) 15) v }

  -- The word of a store queue that an address names.
  pub sq_write32 : ℕ → ℕ → Machine D → Machine D
  sq_write32 a v m =
      poke m store_queues (bit_and (a / 2 ^ 5) 1 * 32 + bit_and (a / 2 ^ 2) 7 * 4) 4 v

  -- The eight words of one store queue.
  pub sq_words : Machine D → ℕ → ℕ → List ℕ
  sq_words m n zero = []
  sq_words m n (suc k) = peek m store_queues (n * 32 + (8 - suc k) * 4) 4 ∷ sq_words m n k

  -- The journal entries of a burst: `left` words from the `i`-th.
  pub journal_burst : ℕ → Region → ℕ → List ℕ → ℕ → Machine D → Machine D
  journal_burst dest r off [] i m = m
  journal_burst dest r off (w ∷ ws) i m =
      journal_burst dest r off ws (i + 1)
        (push_journal m (u32 (dest + 4 * i)) (peek m r (off + 4 * i) 4) w 4)

  -- `memcpy(t.bytes, words, 32)`.
  pub copy_words : Region → ℕ → List ℕ → Machine D → Machine D
  copy_words r off [] m = m
  copy_words r off (w ∷ ws) m = copy_words r (off + 4) ws (poke m r off 4 w)

module _ {D : Type 0} (devices : Devices D) where
  unfoldable pub read8 : ℕ → Machine D → Machine D × ℕ
  read8 a m = load devices 1 a m

  unfoldable pub read16 : ℕ → Machine D → Machine D × ℕ
  read16 a m = load devices 2 a m

  unfoldable pub read32 : ℕ → Machine D → Machine D × ℕ
  read32 a m = if is_ccn a then (m, read_ccn m a) else load devices 4 a m

  pub read64_at : Target → Machine D → Machine D × ℕ
  read64_at nothing m = (m, 0)
  read64_at (bytes_at r off) m = (m, peek m r off 8)
  read64_at (mmio_at h x) m =
      let (m', lo) = device_read devices h x 4 m in
      let (m'', hi) = device_read devices h (u32 (x + 4)) 4 m' in (m'', lo + hi * 2 ^ 32)

  unfoldable pub read64 : ℕ → Machine D → Machine D × ℕ
  read64 a m = let (m', t) = resolve devices a 8 false m in read64_at t m'

  unfoldable pub write8 : ℕ → ℕ → Machine D → Machine D
  write8 a v m = store devices 1 a v m

  unfoldable pub write16 : ℕ → ℕ → Machine D → Machine D
  write16 a v m = store devices 2 a v m

  unfoldable pub write32 : ℕ → ℕ → Machine D → Machine D
  write32 a v m = if is_ccn a then write_ccn m a v else store devices 4 a v m

  unfoldable pub write64_at : Target → ℕ → ℕ → Machine D → Machine D
  write64_at nothing a v m = m
  write64_at (bytes_at r off) a v m =
      let m1 = push_journal m a (peek m r off 4) (lo32 v) 4 in
      let m2 = push_journal m1 (u32 (a + 4)) (peek m r (off + 4) 4) (hi32 v) 4 in
      let m3 = poke m2 r off 8 v in
      note_ram_write devices (u32 (a + 4)) (hi32 v) 4 (note_ram_write devices a (lo32 v) 4 m3)
  write64_at (mmio_at h x) a v m =
      device_write devices h (u32 (x + 4)) (hi32 v) 4 (device_write devices h x (lo32 v) 4 m)

  unfoldable pub write64 : ℕ → ℕ → Machine D → Machine D
  write64 a v m = let (m', t) = resolve devices a 8 true m in write64_at t a v m'

  pub note_words : ℕ → List ℕ → ℕ → Machine D → Machine D
  note_words dest [] i m = m
  note_words dest (w ∷ ws) i m =
      note_words dest ws (i + 1) (note_ram_write devices (u32 (dest + 4 * i)) w 4 m)

  pub flush_to : Target → ℕ → List ℕ → Machine D → Machine D
  flush_to nothing dest words m = m
  flush_to (bytes_at r off) dest words m =
      let m' = copy_words r off words (journal_burst dest r off words 0 m) in
      if tracing_writes devices m' then note_words dest words 0 m' else m'
  flush_to (mmio_at h x) dest words m = device_burst devices h x words (saw_device m)

  -- The address that QACR gives a burst.
  pub qacr_dest : Machine D → ℕ → ℕ
  qacr_dest m a =
      let q = if bit_and (a / 2 ^ 5) 1 == 0 then m.qacr0 else m.qacr1 in
      bit_or (u32 (q * 2 ^ 24)) (bit_and a 0x03ff_ffe0)

  -- Where the burst goes, with the counters of the two ways there.
  pub sq_dest : ℕ → Machine D → Machine D × ℕ
  sq_dest a m =
      if bit_and (get_or m.ccn 4 0) 1 == 0
      then (m, qacr_dest m a)
      else elim (Utlb.translate m.utlb (bit_and a 0xffff_ffe0)) [
        | some pa ↦ (record m { sq_tlb_flushes = m.sq_tlb_flushes + 1 }, pa)
        | none ↦ (record m { sq_tlb_misses = m.sq_tlb_misses + 1 }, qacr_dest m a)
      ]

  pub sq_flush : ℕ → Machine D → Machine D
  sq_flush a m =
      let words = sq_words m (bit_and (a / 2 ^ 5) 1) 8 in
      let (m1, dest) = sq_dest a m in
      let (m2, t) = resolve devices dest 4 true m1 in flush_to t dest words m2

  pub restore_at : Target → ℕ → ℕ → Machine D → Machine D
  restore_at nothing size v m = m
  restore_at (bytes_at r off) size v m = poke m r off size v
  restore_at (mmio_at h x) size v m = m

  -- One turn of the loops of `undo_journal` and `redo_journal`.
  pub restore : ℕ → ℕ → ℕ → Machine D → Machine D
  restore a size v m = let (m', t) = resolve devices a size true m in restore_at t size v m'

  -- Newest first: the last entry is put back before the ones that stand above it.
  pub undo_entries : List WriteRecord → Machine D → Machine D
  undo_entries [] m = m
  undo_entries (w ∷ ws) m = restore w.addr w.size w.old_value (undo_entries ws m)

  pub undo_journal : Machine D → Machine D
  undo_journal m = let m' = undo_entries m.journal m in record m' { journal = [] }

  pub redo_entries : List WriteRecord → Machine D → Machine D
  redo_entries [] m = m
  redo_entries (w ∷ ws) m = redo_entries ws (restore w.addr w.size w.new_value m)

  pub redo_journal : Machine D → Machine D
  redo_journal m = redo_entries m.journal m
