-- ===== src/Mem/Fixture.antt =====
-- A guest memory without devices, for the tests.
use dream_recomp.Base.{ℕ, ◌/◌, ◌%◌, ◌^◌, true, false, []}
use dream_recomp.Mem.Bytes.{Bytes}
use dream_recomp.Mem.Utlb as utlb
use dream_recomp.Mem.FaultLog as fault_log
use dream_recomp.Mem.Machine.{Machine, Devices}

abbrev pub no_devices : Devices ℕ
no_devices = record {
  read = λ h a n m. (m, 0);
  write = λ h a v n m. m;
  write_burst = λ h a ws m. m;
  on_device_access = λ m. m;
  on_unmapped = λ a n w m. m;
  on_watch_write = λ a v n m. m;
  on_hashed_write = λ i a v n m. m;
}

-- Memory filled with the number of each byte's page.
abbrev pub counted_bytes : Bytes
counted_bytes r o = o / 2 ^ 8 % 256

abbrev pub machine : Machine ℕ
machine = record {
  bytes = counted_bytes;
  phys_mmio = [];
  p4_mmio = [];
  tra = 0;
  expevt = 0;
  intevt = 0;
  qacr0 = 0;
  qacr1 = 0;
  ccn = [];
  utlb = utlb.init;
  sq_tlb_flushes = 0;
  sq_tlb_misses = 0;
  faults = fault_log.init;
  journaling = true;
  journal_saw_device = false;
  journal = [];
  hash_writes = false;
  hash_mask_segment = false;
  write_hash = 0;
  writes_hashed = 0;
  log_from = 0;
  log_to = 0;
  watch_lo = 0;
  watch_hi = 0;
  watch_armed = false;
  world = 0;
}
