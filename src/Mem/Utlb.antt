-- ===== src/Mem/Utlb.antt =====
-- `class Utlb` of dc_memory.h and its functions in dc_memory.cpp. The arrays have 64 entries.
pub mod Coherence
pub mod Translation
use dream_recomp.Base.{
  ℕ, zero, suc, ◌+◌, ◌-◌, ◌*◌, ◌/◌, ◌%◌, ◌^◌, bit_and, bit_or, bit_xor, Bool, not, ◌&&◌, ◌==◌, ltb,
  if◌then◌else◌, Option, none, some, List, [], ◌∷◌, get_or, set, replicate, map,
}
use dream_recomp.Sh4.Alu.{not32}

pub record Utlb : Type 0 where
  pub addr : List ℕ
  pub data1 : List ℕ
  pub data2 : List ℕ
  pub associative_writes : ℕ

abbrev pub valid_bit : ℕ
valid_bit = 0x100

pub init : Utlb
init = record {
  addr = replicate 64 0;
  data1 = replicate 64 0;
  data2 = replicate 64 0;
  associative_writes = 0;
}

-- The entry that an address of the arrays names.
abbrev pub entry_of : ℕ → ℕ
entry_of a = bit_and (a / 2 ^ 8) 63

pub read : Utlb → ℕ → ℕ
read u a =
    if ltb a 0xf700_0000
    then get_or u.addr (entry_of a) 0
    else if bit_and a 0x0080_0000 == 0
    then get_or u.data1 (entry_of a) 0
    else get_or u.data2 (entry_of a) 0

-- `(word & ~kValid) | (value & kValid)`.
abbrev pub with_valid : ℕ → ℕ → ℕ
with_valid word value = bit_or (bit_and word (not32 valid_bit)) (bit_and value valid_bit)

pub write : Utlb → ℕ → ℕ → ℕ → Utlb
write u a value size =
    let i = entry_of a in
    if not (size == 4)
    then u
    else if ltb a 0xf700_0000
    then if not (bit_and a 0x80 == 0)
      then record u { associative_writes = u.associative_writes + 1 }
      else record u {
        addr = set u.addr i value;
        data1 = set u.data1 i (with_valid (get_or u.data1 i 0) value);
      }
    else if not (bit_and a 0x0080_0000 == 0)
    then record u { data2 = set u.data2 i (bit_and value 0xf) }
    else record u {
      data1 = set u.data1 i (bit_and value 0x1fff_fdff);
      addr = set u.addr i (with_valid (get_or u.addr i 0) value);
    }

unfoldable pub page_mask : ℕ → ℕ
page_mask size =
    if size == 0
    then 0xffff_fc00
    else if size == 1
    then 0xffff_f000
    else if size == 2
    then 0xffff_0000
    else 0xfff0_0000

-- The SZ1 and SZ0 bits of a data entry.
abbrev pub page_size : ℕ → ℕ
page_size word = bit_or (bit_and (word / 2 ^ 6) 2) (bit_and (word / 2 ^ 4) 1)

unfoldable pub matches : ℕ → ℕ → ℕ → Bool
matches va entry word =
    not (bit_and word valid_bit == 0)
    && bit_and (bit_xor va entry) (page_mask (page_size word)) == 0

unfoldable pub physical : ℕ → ℕ → ℕ
physical va word =
    let mask = page_mask (page_size word) in
    bit_or (bit_and (bit_and word 0x1fff_fc00) mask) (bit_and va (not32 mask))

-- The loop of `translate` over the entries that are left.
unfoldable pub translate_from : List ℕ → List ℕ → ℕ → Option ℕ
translate_from [] ds va = none
translate_from (e ∷ es) [] va = none
translate_from (e ∷ es) (d ∷ ds) va =
    if matches va e d then some (physical va d) else translate_from es ds va

unfoldable pub translate : Utlb → ℕ → Option ℕ
translate u va = translate_from u.addr u.data1 va

pub invalidate : Utlb → Utlb
invalidate u = record u {
  addr = map (λ w. bit_and w (not32 valid_bit)) u.addr;
  data1 = map (λ w. bit_and w (not32 valid_bit)) u.data1;
}
