-- ===== src/Mem/Examples.antt =====
-- The memory's theorems at a machine with two stores in main memory.
use dream_recomp.Base.{
  ◌+◌, ◌*◌, ◌^◌, ◌<◌, ◌≤◌, ◌≡◌, ◌↔◌, inl, inr, refl, arith, true, List, [], ◌∷◌, none,
}
use dream_recomp.Mem.Bytes.{AreBytes, ram}
use dream_recomp.Mem.Vram.{vram_map32, vram_unmap32, vram_size, vram_map32-bijective}
use dream_recomp.Mem.Utlb as utlb
use dream_recomp.Mem.FaultLog as fault_log
use dream_recomp.Mem.DcMemory.{decode, decode_phys, find, load, store}
use dream_recomp.Mem.DcMemory.Bounds.{decode_bounds}
use dream_recomp.Mem.Access.{write64, undo_journal}
use dream_recomp.Mem.Access.Words.{load-store, load-store_apart, write64_loses_high_word}
use dream_recomp.Mem.Access.Journal.{Store, w8, w32, w64, perform_all}
use dream_recomp.Mem.Access.Journal.Undo.{undo_journal-perform_all}
use dream_recomp.Mem.Fixture.{no_devices, counted_bytes, machine}

abbrev stores : List Store
stores = w8 0x8c00_0004 5 ∷ w64 0x0c00_0100 0x1_0000_0002 ∷ w32 0xac00_0004 9 ∷ []

counted_bytes-AreBytes : AreBytes counted_bytes
counted_bytes-AreBytes r o = omega arith

undo_journal-perform_all_example :
    ((undo_journal no_devices (perform_all no_devices stores machine)).bytes ≡ machine.bytes)
    × ((undo_journal no_devices (perform_all no_devices stores machine)).journal ≡ [])
unfolding decode decode_phys
undo_journal-perform_all_example =
    undo_journal-perform_all no_devices machine stores counted_bytes-AreBytes (refl, refl) refl refl
      ((ram, 4, refl), ((ram, 0x100, refl, refl), ((refl, (ram, 4, refl)), tt)))

decode_bounds_example : 0x1f_fffe + 2 ≤ 2 * 2 ^ 20
unfolding decode decode_phys find
decode_bounds_example = decode_bounds [] [] 0xa01f_fffe 2 _ 0x1f_fffe (inr (inl (refl, refl))) refl

load-store_example :
    (load no_devices 4 0x8c00_0010 (store no_devices 4 0x8c00_0010 0x1_2345_6789 machine)).1
    ≡ 0x2345_6789
unfolding decode decode_phys
load-store_example =
    load-store no_devices 4 0x8c00_0010 0x1_2345_6789 machine ram 0x10 (refl, refl) refl

load-store_apart_example :
    (load no_devices 2 0x8c00_0014 (store no_devices 4 0x8c00_0010 7 machine)).1
    ≡ (load no_devices 2 0x8c00_0014 machine).1
unfolding decode decode_phys
load-store_apart_example =
    load-store_apart no_devices 4 0x8c00_0010 7 machine ram 0x10 2 0x8c00_0014 ram 0x14 (refl, refl)
      refl refl (inr (inr (omega arith)))

write64_loses_high_word_example :
    (load no_devices 4 0xa500_0014 (write64 no_devices 0xa500_0010 0x7_0000_0005 machine)).1
    ≡ (load no_devices 4 0xa500_0014 machine).1
write64_loses_high_word_example =
    write64_loses_high_word no_devices 0xa500_0010 0x7_0000_0005 machine (refl, refl) (omega arith)
      refl refl refl

vram_map32-bijective_example :
    (vram_map32 0x40_0004 < vram_size)
    × (vram_unmap32 12 < vram_size)
    × ((vram_map32 0x40_0004 ≡ 12) ↔ (vram_unmap32 12 ≡ 0x40_0004))
vram_map32-bijective_example = vram_map32-bijective 0x40_0004 12 (omega arith) (omega arith)

-- A translation of one page of 4 KB, from 0x1000 to 0x0c123000.
abbrev mapped_utlb : utlb.Utlb
mapped_utlb = record {
  addr = 0x1100 ∷ [];
  data1 = 0x0c12_3110 ∷ [];
  data2 = 0 ∷ [];
  associative_writes = 0;
}

write-Coherent_example : utlb.Coherence.Coherent (utlb.write utlb.init 0xf600_0300 0x1100 4)
write-Coherent_example =
    utlb.Coherence.write-Coherent utlb.init 0xf600_0300 0x1100 4 utlb.Coherence.init-Coherent

invalidate-translate_example :
    (utlb.translate (utlb.invalidate mapped_utlb) 0x1234 ≡ none)
    × utlb.Coherence.Coherent (utlb.invalidate mapped_utlb)
invalidate-translate_example = utlb.Coherence.invalidate-translate mapped_utlb 0x1234 (refl, tt)

translate-Hit_example : utlb.Translation.Hit mapped_utlb.addr mapped_utlb.data1 0x1234 0x0c12_3234
unfolding utlb.translate utlb.translate_from utlb.matches utlb.physical utlb.page_mask
translate-Hit_example = utlb.Translation.translate-Hit mapped_utlb 0x1234 0x0c12_3234 refl

record_fault-IsSound_example :
    fault_log.IsSound (fault_log.record_fault fault_log.init 0x1000_0000 4 true)
    × ((fault_log.record_fault fault_log.init 0x1000_0000 4 true).total ≡ fault_log.init.total + 1)
record_fault-IsSound_example =
    fault_log.record_fault-IsSound fault_log.init 0x1000_0000 4 true fault_log.init-IsSound

record_fault-count_of_example :
    fault_log.count_of 0 (fault_log.record_fault fault_log.init 0x1000_0000 4 true).map ≡ 0
unfolding fault_log.count_of fault_log.key fault_log.init
record_fault-count_of_example =
    fault_log.record_fault-count_of fault_log.init 0x1000_0000 4 true 0 (inl (omega arith))
