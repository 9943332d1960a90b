-- ===== src/Translator/Decoder/Words.antt =====
-- The fields of an instruction word, as `decode` takes them out and as the table's masks fix them.
use dream_recomp.Base.{ℕ, ◌+◌, ◌-◌, ◌*◌, ◌/◌, ◌%◌, ◌^◌, ◌<◌, ◌≡◌, arith, bit_and, dec_lt}
use dream_recomp.Base.Bits.{bit_and_mask, bit_and_field}
use dream_recomp.Base.Bits.Split.{bit_and_split, bit_xor_top_clear, bit_xor_top_set}
use dream_recomp.Translator.Decoder.{sext, to_u32, hi, mid}

pub low_imm8 : (v : ℕ) → v < 2 ^ 8 → to_u32 (sext v 8) % 2 ^ 8 ≡ v
unfolding sext
low_imm8 v h = elim (dec_lt v 128) [
  | yes l ↦ ground (arith, bit_xor_top_clear 7 v l)
  | no l ↦ ground (arith, bit_xor_top_set 7 (v - 128) (omega arith))
]

pub low_imm12 : (v : ℕ) → v < 2 ^ 12 → to_u32 (sext v 12) % 2 ^ 12 ≡ v
unfolding sext
low_imm12 v h = elim (dec_lt v 2048) [
  | yes l ↦ ground (arith, bit_xor_top_clear 11 v l)
  | no l ↦ ground (arith, bit_xor_top_set 11 (v - 2048) (omega arith))
]

pub mask_f000 : (x : ℕ) → bit_and x 0xf000 ≡ x / 2 ^ 12 % 2 ^ 4 * 2 ^ 12
mask_f000 x = bit_and_field 12 4 x

pub mask_ff00 : (x : ℕ) → bit_and x 0xff00 ≡ x / 2 ^ 8 % 2 ^ 8 * 2 ^ 8
mask_ff00 x = bit_and_field 8 8 x

pub mask_f00f : (x : ℕ) → bit_and x 0xf00f ≡ x / 2 ^ 12 % 2 ^ 4 * 2 ^ 12 + x % 2 ^ 4
mask_f00f x = omega (
  arith,
  bit_and_split 4 x 0xf00 0xf (omega arith),
  bit_and_field 8 4 (x / 2 ^ 4),
  bit_and_mask 4 (x % 2 ^ 4),
)

pub mask_f0ff : (x : ℕ) → bit_and x 0xf0ff ≡ x / 2 ^ 12 % 2 ^ 4 * 2 ^ 12 + x % 2 ^ 8
mask_f0ff x = omega (
  arith,
  bit_and_split 8 x 0xf0 0xff (omega arith),
  bit_and_field 4 4 (x / 2 ^ 8),
  bit_and_mask 8 (x % 2 ^ 8),
)

pub mask_f1ff : (x : ℕ) → bit_and x 0xf1ff ≡ x / 2 ^ 12 % 2 ^ 4 * 2 ^ 12 + x % 2 ^ 9
mask_f1ff x = omega (
  arith,
  bit_and_split 9 x 0x78 0x1ff (omega arith),
  bit_and_field 3 4 (x / 2 ^ 9),
  bit_and_mask 9 (x % 2 ^ 9),
)

pub mask_f3ff : (x : ℕ) → bit_and x 0xf3ff ≡ x / 2 ^ 12 % 2 ^ 4 * 2 ^ 12 + x % 2 ^ 10
mask_f3ff x = omega (
  arith,
  bit_and_split 10 x 0x3c 0x3ff (omega arith),
  bit_and_field 2 4 (x / 2 ^ 10),
  bit_and_mask 10 (x % 2 ^ 10),
)

pub mask_f08f :
    (x : ℕ) → bit_and x 0xf08f ≡ x / 2 ^ 12 % 2 ^ 4 * 2 ^ 12 + x / 2 ^ 7 % 2 * 2 ^ 7 + x % 2 ^ 4
mask_f08f x = omega (
  arith,
  bit_and_split 4 x 0xf08 0xf (omega arith),
  bit_and_mask 4 (x % 2 ^ 4),
  bit_and_split 8 (x / 2 ^ 4) 0xf 8 (omega arith),
  bit_and_mask 4 (x / 2 ^ 4 / 2 ^ 8),
  bit_and_field 3 1 (x / 2 ^ 4 % 2 ^ 8),
)

pub hi_value : (x : ℕ) → hi x ≡ x / 2 ^ 8 % 2 ^ 4
hi_value x = bit_and_mask 4 (x / 2 ^ 8)

pub mid_value : (x : ℕ) → mid x ≡ x / 2 ^ 4 % 2 ^ 4
mid_value x = bit_and_mask 4 (x / 2 ^ 4)
