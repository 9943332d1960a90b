-- ===== src/Mem/Vram.antt =====
-- `DcMemory::vram_map32`: where a byte of the 32-bit view of video memory lies in the 64-bit view.
use dream_recomp.Base.{
  ℕ, ◌+◌, ◌-◌, ◌*◌, ◌/◌, ◌%◌, ◌^◌, ◌<◌, ◌≡◌, arith, bit_and, bit_or, ◌∙◌, ap, ap₂, ◌↔◌,
}
use dream_recomp.Base.Bits.{
  bit_and_mask, bit_and-pow, bit_and_field, bit_or_fields, bit_or_above, bit_or_comm,
}

abbrev pub vram_size : ℕ
vram_size = 8 * 2 ^ 20

pub vram_map32 : ℕ → ℕ
vram_map32 offset =
    let bank_bit : ℕ = 0x40_0000 in
    let static_bits : ℕ = vram_size - 1 - (bank_bit * 2 - 1) + 3 in
    let offset_bits : ℕ = bit_and (bank_bit - 1) (2 ^ 32 - 1 - 3) in
    let bank = bit_and offset bank_bit / bank_bit in
    let rv = bit_and offset static_bits in
    bit_or (bit_or rv (bit_and offset offset_bits * 2)) (bank * 4)

-- The word number moves up by one bit, to make room for the bank.
pub vram_map32_sum : (x : ℕ) → vram_map32 x ≡ x / 4 % 2 ^ 20 * 8 + x / 2 ^ 22 % 2 * 4 + x % 4
unfolding vram_map32
vram_map32_sum x =
    rw (bit_and_mask 2 x, bit_and-pow 22 x, bit_and_field 2 20 x)
      (merge (x / 4 % 2 ^ 20) (x / 2 ^ 22 % 2) (x % 4) (omega arith) (omega arith))
  where
    bank_field : (b : ℕ) → b * 2 ^ 22 / 2 ^ 22 * 4 ≡ b * 4
    bank_field b = omega arith

    eight : (y : ℕ) → y * 4 * 2 ≡ y * 2 ^ 3
    eight y = omega arith

    merge :
        (y b r : ℕ)
        → b < 2
        → r < 4
        → bit_or (bit_or r (y * 4 * 2)) (b * 2 ^ 22 / 2 ^ 22 * 4) ≡ y * 8 + b * 4 + r
    merge y b r hb hr = omega (
      arith,
      ap₂ bit_or low (bank_field b),
      bit_or_above 2 (y * 2) r b hr,
      bit_or_fields 1 y b hb,
    )
      where
        low : bit_or r (y * 4 * 2) ≡ y * 2 * 2 ^ 2 + r
        low =
            bit_or_comm r (y * 4 * 2)
            ∙ omega (arith, ap (λ (t : ℕ). bit_or t r) (eight y), bit_or_fields 3 y r (omega arith))

-- The offset in the 32-bit view of a byte of the 64-bit view.
pub vram_unmap32 : ℕ → ℕ
vram_unmap32 y = y / 4 % 2 * 2 ^ 22 + y / 8 * 4 + y % 4

-- The interleave is a bijection of the 8 MB of video memory onto itself: it stays inside, and no
-- byte is missed or hit twice.
pub vram_map32-bijective :
    (x y : ℕ)
    → x < vram_size
    → y < vram_size
    → (vram_map32 x < vram_size)
      × (vram_unmap32 y < vram_size)
      × ((vram_map32 x ≡ y) ↔ (vram_unmap32 y ≡ x))
unfolding vram_unmap32
vram_map32-bijective x y hx hy = omega (arith, vram_map32_sum x)

-- A word stays a word: the four bytes of an aligned word stay together and in order.
pub vram_map32_word : (x k : ℕ) → k < 4 → vram_map32 (x * 4 + k) ≡ vram_map32 (x * 4) + k
vram_map32_word x k h = omega (arith, vram_map32_sum (x * 4 + k), vram_map32_sum (x * 4))

-- Two words that follow one another in a bank lie eight bytes apart.
pub vram_map32_next :
    (x : ℕ) → x % 4 ≡ 0 → x % 2 ^ 22 + 4 < 2 ^ 22 → vram_map32 (x + 4) ≡ vram_map32 x + 8
vram_map32_next x h p = omega (arith, vram_map32_sum (x + 4), vram_map32_sum x)
