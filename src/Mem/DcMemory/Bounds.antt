-- ===== src/Mem/DcMemory/Bounds.antt =====
-- Where the decoded address of an aligned access lies.
use dream_recomp.Base.{
  ℕ, ◌+◌, ◌/◌, ◌%◌, ◌^◌, ◌≤◌, ◌≡◌, ◌⊎◌, arith, some, List, ◌≢◌, ◌==◌, if◌then◌else◌, ap,
}
use dream_recomp.Base.Bits.{bit_and_mask, bit_and-pow, bit_and_field}
use dream_recomp.Mem.Vram.{vram_map32, vram_map32_sum}
use dream_recomp.Mem.Bytes.{Region, ram, vram, region_size}
use dream_recomp.Mem.Machine.{Range}
use dream_recomp.Mem.DcMemory.{decode, decode_phys, bytes_at}

-- An access of 1, 2, 4 or 8 bytes at a multiple of its size.
abbrev pub IsAligned : ℕ → ℕ → Type 0
IsAligned a n =
    (n ≡ 1) ⊎ (((n ≡ 2) × (a % 2 ≡ 0)) ⊎ (((n ≡ 4) × (a % 4 ≡ 0)) ⊎ ((n ≡ 8) × (a % 8 ≡ 0))))

decode_phys_bounds :
    (phys n : ℕ) (r : Region) (off : ℕ)
    → IsAligned phys n
    → decode_phys phys ≡ some (r, off)
    → off + n ≤ region_size r
unfolding decode_phys
decode_phys_bounds phys n r off al e = ground (
  arith,
  bit_and_mask 26 phys,
  bit_and_mask 23 phys,
  bit_and_mask 24 phys,
  bit_and_mask 17 (phys % 2 ^ 26),
  bit_and_mask 21 (phys % 2 ^ 26),
  bit_and-pow 24 phys,
  vram_map32_sum (phys % 2 ^ 23),
)

IsAligned-mod : (a n : ℕ) → IsAligned a n → IsAligned (a % 2 ^ 29) n
IsAligned-mod a n al = ground arith

-- An aligned access to memory of any kind lies inside its array, in every mirror of every area: the
-- `memcpy` of a load or a store leaves no array.
pub decode_bounds :
    (ps qs : List Range) (a n : ℕ) (r : Region) (off : ℕ)
    → IsAligned a n
    → decode ps qs a ≡ bytes_at r off
    → off + n ≤ region_size r
unfolding decode
decode_bounds ps qs a n r off al e = ground (
  arith,
  bit_and_field 29 3 a,
  bit_and_field 26 6 a,
  bit_and_field 2 3 a,
  bit_and_mask 1 (a / 2 ^ 5),
  bit_and_mask 1 (a / 2 ^ 13),
  bit_and_mask 12 a,
  bit_and_mask 29 a,
  IsAligned-mod a n al,
  decode_phys_bounds (a % 2 ^ 29) n r off,
)

-- Outside P4 every address of area 3 is main memory at its low 24 bits, in all segments and mirrors.
pub decode-ram :
    (ps qs : List Range) (a : ℕ)
    → a / 2 ^ 29 % 8 ≢ 7
    → a / 2 ^ 26 % 8 ≡ 3
    → decode ps qs a ≡ bytes_at ram (a % 2 ^ 24)
unfolding decode decode_phys
decode-ram ps qs a p4 area = ground (
  arith,
  bit_and_field 29 3 a,
  bit_and_field 26 6 a,
  bit_and_mask 29 a,
  bit_and_mask 24 (a % 2 ^ 29),
)

-- Outside P4 every address of area 1 is video memory: bit 24 chooses between the 64-bit view, at
-- the low 23 bits, and the interleaved 32-bit view of them.
pub decode-vram :
    (ps qs : List Range) (a : ℕ)
    → a / 2 ^ 29 % 8 ≢ 7
    → a / 2 ^ 26 % 8 ≡ 1
    → decode ps qs a
      ≡ bytes_at vram (if a / 2 ^ 24 % 2 == 0 then a % 2 ^ 23 else vram_map32 (a % 2 ^ 23))
unfolding decode decode_phys
decode-vram ps qs a p4 area = ground (
  arith,
  bit_and_field 29 3 a,
  bit_and_field 26 6 a,
  bit_and_mask 29 a,
  bit_and_mask 23 (a % 2 ^ 29),
  bit_and-pow 24 (a % 2 ^ 29),
  ap vram_map32 (low_23 a),
)
  where
    low_23 : (a : ℕ) → a % 2 ^ 29 % 2 ^ 23 ≡ a % 2 ^ 23
    low_23 a = omega arith
