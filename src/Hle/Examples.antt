-- ===== src/Hle/Examples.antt =====
-- The flash ROM's theorems at an array of zeros and at a partition that was written twice.
use dream_recomp.Base.{◌≡◌, refl, arith, ◌==◌, ◌||◌, if◌then◌else◌}
use dream_recomp.Hle.Flash.{Data, user_blocks, lookup, lookup_from, erase_partition}
use dream_recomp.Hle.Flash.Partitions.{erase_partition-apart}
use dream_recomp.Hle.Flash.Lookup.{IsHighest, lookup-IsHighest}

abbrev zeros : Data
zeros o = 0

erase_partition-apart_example :
    (erase_partition 2 zeros 0x1_c000 ≡ 0xff) × (erase_partition 3 zeros 0x1_c000 ≡ zeros 0x1_c000)
unfolding dream_recomp.Hle.Flash.partition
erase_partition-apart_example =
    erase_partition-apart 3 2 0x1_c000 0x4000 0x1_c000 zeros (omega arith) refl (omega arith)
      (omega arith)

-- The user partition with the logical block 5 in its blocks 1 and 2, of which the later one counts,
-- and the rest free. The bitmap stands at 0x1_ffc0.
abbrev two_writes : Data
two_writes o =
    if o == 0x1_c040 || o == 0x1_c080
    then 5
    else if o == 0x1_c041 || o == 0x1_c081
    then 0
    else if o == 0x1_ffc0
    then 0x3f
    else 0xff

lookup-IsHighest_example : IsHighest two_writes 0x1_c000 254 5 2
unfolding lookup lookup_from user_blocks
lookup-IsHighest_example =
    lookup-IsHighest two_writes 0x1_c000 0x4000 5 254 1 (omega arith) (omega arith) (omega arith)
      (omega arith)
