-- ===== src/Hle/Flash.antt =====
-- runtime/include/dream/runtime/hle/flash.h and runtime/src/hle/flash.cpp: the flash ROM. `Data` is
-- the byte array that `class Flash` holds a pointer to.
pub mod Partitions
pub mod Lookup
use dream_recomp.Base.{
  ℕ, zero, suc, ◌+◌, ◌-◌, ◌*◌, ◌/◌, ◌%◌, ◌^◌, bit_and, bit_or, bit_xor, Bool, true, false, not,
  ◌&&◌, ◌==◌, ltb, leb, if◌then◌else◌, Option, none, some, List, [], ◌∷◌, length, get_or, replicate,
  replicate,
}
use dream_recomp.Base.Bits.{u32}
use dream_recomp.Sh4.Alu.{not32, sub32}

abbrev pub Data : Type 0
Data = ℕ → ℕ

abbrev pub flash_size : ℕ
flash_size = 128 * 2 ^ 10

abbrev pub block : ℕ
block = 64

-- `kBitmapBlocks`, the blocks that one bitmap covers.
abbrev pub bitmap_blocks : ℕ
bitmap_blocks = block * 8

-- The partitions are numbered 0 to 4; the result is the offset and the size.
unfoldable pub partition : ℕ → Option (ℕ × ℕ)
partition zero = some (0x1a000, 0x2000)
partition (suc zero) = some (0x18000, 0x2000)
partition (suc (suc zero)) = some (0x1c000, 0x4000)
partition (suc (suc (suc zero))) = some (0x10000, 0x8000)
partition (suc (suc (suc (suc zero)))) = some (0, 0x10000)
partition (suc (suc (suc (suc (suc id))))) = none

-- One byte, `memset`, and `memcpy` of a list of bytes.
unfoldable pub set_byte : ℕ → ℕ → Data → Data
set_byte off v d o = if o == off then v else d o

unfoldable pub fill : ℕ → ℕ → ℕ → Data → Data
fill off n v d o = if leb off o && ltb o (off + n) then v else d o

unfoldable pub copy : ℕ → List ℕ → Data → Data
copy off bs d o = if leb off o && ltb o (off + length bs) then get_or bs (o - off) 0 else d o

abbrev pub magic : List ℕ
magic = 75 ∷ 65 ∷ 84 ∷ 65 ∷ 78 ∷ 65 ∷ 95 ∷ 70 ∷ 76 ∷ 65 ∷ 83 ∷ 72 ∷ 95 ∷ 95 ∷ 95 ∷ 95 ∷ []

-- The rounds of the inner loop of `crc`; the `int` is its low 32 bits.
pub crc_bits : ℕ → ℕ → ℕ
crc_bits zero n = n
crc_bits (suc c) n =
    crc_bits c (if bit_and n 0x8000 == 0 then u32 (n * 2) else bit_xor (u32 (n * 2)) 4129)

pub crc_bytes : ℕ → (ℕ → ℕ) → ℕ → ℕ → ℕ
crc_bytes zero b i n = n
crc_bytes (suc k) b i n = crc_bytes k b (i + 1) (crc_bits 8 (bit_xor n (b i * 2 ^ 8)))

pub crc : (ℕ → ℕ) → ℕ
crc b = bit_and (not32 (crc_bytes 62 b 0 0xffff)) 0xffff

-- Below two blocks the count wraps; a partition has at least 128.
unfoldable pub user_blocks : ℕ → ℕ
user_blocks size =
    let total : ℕ = size / block in
    let bitmaps : ℕ = (total + bitmap_blocks - 1) / bitmap_blocks in sub32 (sub32 total 1) bitmaps

-- `memset` of a partition, where there is one.
abbrev pub erase_range : Option (ℕ × ℕ) → Data → Data
erase_range none d = d
erase_range (some (off, size)) d = fill off size 0xff d

unfoldable pub erase_partition : ℕ → Data → Data
erase_partition part d = erase_range (partition part) d

-- `memcmp` with a list of bytes.
pub agrees : Data → ℕ → List ℕ → Bool
agrees d off [] = true
agrees d off (b ∷ bs) = d off == b && agrees d (off + 1) bs

unfoldable pub header_ok : Data → ℕ → ℕ → Bool
header_ok d offset part = agrees d offset magic && d (offset + 16) == part

-- Where the byte of a block's bit lies in a bitmap, and the bit's mask.
abbrev pub bitmap_byte : ℕ → ℕ
bitmap_byte phys = (phys - 1) % bitmap_blocks / 8

abbrev pub bitmap_mask : ℕ → ℕ
bitmap_mask phys = 0x80 / 2 ^ ((phys - 1) % bitmap_blocks % 8)

-- Each bitmap serves the blocks from one that is 1 modulo `bitmap_blocks`; `bitmap_id` is the next.
abbrev pub next_id : ℕ → ℕ → ℕ
next_id phys bitmap_id = if phys % bitmap_blocks == 1 then bitmap_id + 1 else bitmap_id

abbrev pub next_bitmap : ℕ → ℕ → ℕ → ℕ → ℕ
next_bitmap offset phys bitmap_id bitmap =
    if phys % bitmap_blocks == 1 then offset + bitmap_id * block else bitmap

abbrev pub is_free : Data → ℕ → ℕ → Bool
is_free d bitmap phys = not (bit_and (d (bitmap + bitmap_byte phys)) (bitmap_mask phys) == 0)

-- The loop of `lookup`, with `left` blocks to go.
unfoldable pub lookup_from : Data → ℕ → ℕ → ℕ → ℕ → ℕ → ℕ → ℕ → ℕ
lookup_from d offset block_id zero phys bitmap_id bitmap result = result
lookup_from d offset block_id (suc left) phys bitmap_id bitmap result =
    let here = next_bitmap offset phys bitmap_id bitmap in
    let blk = offset + phys * block in
    let found = if bit_or (d blk) (d (blk + 1) * 2 ^ 8) == block_id then phys else result in
    let rest = lookup_from d offset block_id left (phys + 1) (next_id phys bitmap_id) here found in
    if is_free d here phys then result else rest

unfoldable pub lookup : Data → ℕ → ℕ → ℕ → ℕ
lookup d offset size block_id =
    lookup_from d offset block_id (user_blocks size) 1 (u32 (1 + user_blocks size)) 0 0

-- The loop of `alloc`: the block, or 0.
unfoldable pub alloc_from : Data → ℕ → ℕ → ℕ → ℕ → ℕ → Data × ℕ
alloc_from d offset zero phys bitmap_id bitmap = (d, 0)
alloc_from d offset (suc left) phys bitmap_id bitmap =
    let here = next_bitmap offset phys bitmap_id bitmap in
    let byte = here + bitmap_byte phys in
    let rest = alloc_from d offset left (phys + 1) (next_id phys bitmap_id) here in
    if is_free d here phys
    then (set_byte byte (bit_and (d byte) (255 - bitmap_mask phys)) d, phys)
    else rest

unfoldable pub alloc : Data → ℕ → ℕ → Data × ℕ
alloc d offset size = alloc_from d offset (user_blocks size) 1 (u32 (1 + user_blocks size)) 0

-- `n` bytes from an offset.
unfoldable pub bytes_from : Data → ℕ → ℕ → List ℕ
bytes_from d off zero = []
bytes_from d off (suc n) = d off ∷ bytes_from d (off + 1) n

pub read_block : Data → ℕ → ℕ → Option (List ℕ)
read_block d part block_id = elim (partition part) [
  | none ↦ none
  | some (off, size) ↦
      if not (header_ok d off part)
      then none
      else let phys = lookup d off size block_id in
        if phys == 0 then none else some (bytes_from d (off + phys * block + 2) 60)
]

-- The stores into a block: its id, the payload, and the checksum of both.
unfoldable pub write_payload : ℕ → ℕ → List ℕ → Data → Data
write_payload blk block_id payload d =
    let filled =
      copy (blk + 2) payload
        (set_byte (blk + 1) (block_id / 2 ^ 8 % 2 ^ 8) (set_byte blk (block_id % 2 ^ 8) d)) in
    let c = crc (λ i. filled (blk + i)) in
    set_byte (blk + 63) (c / 2 ^ 8 % 2 ^ 8) (set_byte (blk + 62) (c % 2 ^ 8) filled)

pub write_at : ℕ → ℕ → List ℕ → Data × ℕ → Data × Bool
write_at off block_id payload (d, phys) =
    if phys == 0 then (d, false) else (write_payload (off + phys * block) block_id payload d, true)

pub write_block : ℕ → ℕ → List ℕ → Data → Data × Bool
write_block part block_id payload d = elim (partition part) [
  | none ↦ (d, false)
  | some (off, size) ↦
      if not (header_ok d off part)
      then (d, false)
      else let phys = lookup d off size block_id in
        write_at off block_id payload (if phys == 0 then alloc d off size else (d, phys))
]

pub read8 : Data → ℕ → ℕ
read8 d offset = d (bit_and offset (flash_size - 1))

-- Programming only clears bits.
pub program8 : ℕ → ℕ → Data → Data
program8 offset v d = let o = bit_and offset (flash_size - 1) in set_byte o (bit_and (d o) v) d

-- The factory string and the three digits that `format` stamps over it.
pub stamp : ℕ → ℕ → ℕ → List ℕ → ℕ → Data → Data
stamp lang region broadcast sysinfo base d = set_byte (base + 4) ((48 + broadcast) % 2 ^ 8) (
    set_byte (base + 3) ((48 + lang) % 2 ^ 8)
      (set_byte (base + 2) ((48 + region) % 2 ^ 8) (copy base sysinfo d)))

-- The header of one block-allocated partition.
pub format_range : ℕ → Option (ℕ × ℕ) → Data → Data
format_range part none d = d
format_range part (some (off, size)) d =
    fill (off + 18) (block - 18) 0
      (set_byte (off + 17) 0 (set_byte (off + 16) part (copy off magic (fill off size 0xff d))))

pub format_partition : ℕ → Data → Data
format_partition part d = format_range part (partition part) d

-- `lang`, `region` and `broadcast` are the values of the source's enumerations, and `sysinfo` has
-- 16 bytes.
pub format : ℕ → ℕ → ℕ → List ℕ → Data → Data
format lang region broadcast sysinfo d =
    let erased = fill 0 flash_size 0xff d in
    let factory =
      stamp lang region broadcast sysinfo 0x1a0a0
        (stamp lang region broadcast sysinfo 0x1a000 erased) in
    let formatted = format_partition 4 (format_partition 3 (format_partition 2 factory)) in
    let syscfg = 0 ∷ 0 ∷ 0 ∷ 0 ∷ 0 ∷ lang ∷ 0 ∷ 1 ∷ replicate 52 0 in
    (write_block 2 5 syscfg formatted).0
