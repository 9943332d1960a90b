-- ===== src/Translator/Decoder/Encode.antt =====
-- The encoding of an instruction by its row of the table.
use dream_recomp.Base.{
  ℕ, zero, suc, ◌+◌, ◌*◌, ◌/◌, ◌%◌, ◌^◌, ◌<◌, ◌≡◌, ◌⊎◌, inl, inr, refl, sym, ap, ◌∙◌, arith,
  bit_and, Bool, true, false, ◌&&◌, ◌||◌, ◌==◌, ==_iff, some, List, [], ◌∷◌, get_elem?,
}
use mathlib.Core.Path.{subst}
use dream_recomp.Base.Bits.{bit_and_mask}
use dream_recomp.Base.Int.{pos}
use dream_recomp.Translator.Decoder.{
  table, matches, sext, to_u32, Instr, mid, extract, blank, decode,
}
use dream_recomp.Translator.Decoder.Words.{
  low_imm8, low_imm12, mask_f000, mask_ff00, mask_f00f, mask_f0ff, mask_f1ff, mask_f3ff, mask_f08f,
  hi_value, mid_value,
}
use dream_recomp.Translator.Decoder.Unique.{both, row, matches-value, entry_at-index}
use dream_recomp.Translator.Decoder.Entry.{
  Entry, Fields, fields_none, fields_n, fields_m, fields_nm, fields_nmd4, fields_md4_r0, fields_ni8,
  fields_nu8, fields_i8, fields_u8, fields_s8, fields_s12, fields_bank_n, fields_bank_m,
  fields_fipr, fields_ftrv,
}

-- The word that the SH-4 manual's formats give for a row's value and an instruction's operands.
unfoldable pub assemble : Fields → ℕ → Instr → ℕ
assemble fields_none value ins = value
assemble fields_n value ins = bit_and value 0xf0ff + ins.n * 2 ^ 8
assemble fields_m value ins = value + ins.m * 2 ^ 8
assemble fields_nm value ins = value + ins.n * 2 ^ 8 + ins.m * 2 ^ 4
assemble fields_nmd4 value ins = value + ins.n * 2 ^ 8 + ins.m * 2 ^ 4 + to_u32 ins.imm % 2 ^ 4
assemble fields_md4_r0 value ins = value + ins.m * 2 ^ 4 + to_u32 ins.imm % 2 ^ 4
assemble fields_ni8 value ins = value + ins.n * 2 ^ 8 + to_u32 ins.imm % 2 ^ 8
assemble fields_nu8 value ins = value + ins.n * 2 ^ 8 + to_u32 ins.imm % 2 ^ 8
assemble fields_i8 value ins = value + to_u32 ins.imm % 2 ^ 8
assemble fields_u8 value ins = value + to_u32 ins.imm % 2 ^ 8
assemble fields_s8 value ins = value + to_u32 ins.imm % 2 ^ 8
assemble fields_s12 value ins = value + to_u32 ins.imm % 2 ^ 12
assemble fields_bank_n value ins = value + ins.n * 2 ^ 8 + ins.bank * 2 ^ 4
assemble fields_bank_m value ins = value + ins.m * 2 ^ 8 + ins.bank * 2 ^ 4
assemble fields_fipr value ins = value + ins.n * 2 ^ 8 + ins.m / 4 * 2 ^ 8
assemble fields_ftrv value ins = value + ins.n * 2 ^ 8

-- The mask that a row's format asks for: the bits that no operand takes.
abbrev pub fixed_bits : Fields → ℕ → Bool
fixed_bits fields_none mask = mask == 0xffff
fixed_bits fields_n mask = (mask == 0xf0ff) || (mask == 0xf1ff)
fixed_bits fields_m mask = mask == 0xf0ff
fixed_bits fields_nm mask = mask == 0xf00f
fixed_bits fields_nmd4 mask = mask == 0xf000
fixed_bits fields_md4_r0 mask = mask == 0xff00
fixed_bits fields_ni8 mask = mask == 0xf000
fixed_bits fields_nu8 mask = mask == 0xf000
fixed_bits fields_i8 mask = mask == 0xff00
fixed_bits fields_u8 mask = mask == 0xff00
fixed_bits fields_s8 mask = mask == 0xff00
fixed_bits fields_s12 mask = mask == 0xf000
fixed_bits fields_bank_n mask = mask == 0xf08f
fixed_bits fields_bank_m mask = mask == 0xf08f
fixed_bits fields_fipr mask = mask == 0xf0ff
fixed_bits fields_ftrv mask = mask == 0xf3ff

abbrev pub all_fixed : List Entry → Bool
all_fixed [] = true
all_fixed (e ∷ es) = fixed_bits e.fields e.mask && all_fixed es

table-fixed : all_fixed table ≡ true
table-fixed = refl

known :
    (raw mask value c : ℕ) → (mask == c) ≡ true → bit_and raw mask ≡ value → bit_and raw c ≡ value
known raw mask value c h k = sym (ap (bit_and raw) ((==_iff mask c).0 h)) ∙ k

either : (a b : Bool) → a || b ≡ true → (a ≡ true) ⊎ (b ≡ true)
either true b h = inl refl
either false b h = inr h

assemble-extract :
    (f : Fields) (mask value : ℕ) (ins : Instr)
    → ins.raw < 2 ^ 16
    → ins.imm ≡ pos 0
    → fixed_bits f mask ≡ true
    → bit_and ins.raw mask ≡ value
    → assemble f value (extract f ins) ≡ ins.raw
unfolding assemble extract
assemble-extract fields_none mask value ins s z h k =
    omega (arith, known ins.raw mask value 0xffff h k, bit_and_mask 16 ins.raw)
assemble-extract fields_n mask value ins s z h k =
    elim (either (mask == 0xf0ff) (mask == 0xf1ff) h) [
      | inl l ↦ omega (
        arith,
        known ins.raw mask value 0xf0ff l k,
        mask_f0ff ins.raw,
        mask_f0ff value,
        hi_value ins.raw,
      )
      | inr l ↦ omega (
        arith,
        known ins.raw mask value 0xf1ff l k,
        mask_f1ff ins.raw,
        mask_f0ff value,
        hi_value ins.raw,
      )
    ]
assemble-extract fields_m mask value ins s z h k =
    omega (arith, known ins.raw mask value 0xf0ff h k, mask_f0ff ins.raw, hi_value ins.raw)
assemble-extract fields_nm mask value ins s z h k = omega (
  arith,
  known ins.raw mask value 0xf00f h k,
  mask_f00f ins.raw,
  hi_value ins.raw,
  mid_value ins.raw,
)
assemble-extract fields_nmd4 mask value ins s z h k = omega (
  arith,
  known ins.raw mask value 0xf000 h k,
  mask_f000 ins.raw,
  hi_value ins.raw,
  mid_value ins.raw,
  bit_and_mask 4 ins.raw,
)
assemble-extract fields_md4_r0 mask value ins s z h k = omega (
  arith,
  known ins.raw mask value 0xff00 h k,
  mask_ff00 ins.raw,
  mid_value ins.raw,
  bit_and_mask 4 ins.raw,
)
assemble-extract fields_ni8 mask value ins s z h k = omega (
  arith,
  known ins.raw mask value 0xf000 h k,
  mask_f000 ins.raw,
  hi_value ins.raw,
  ap (λ (t : ℕ). to_u32 (sext t 8)) (bit_and_mask 8 ins.raw),
  low_imm8 (ins.raw % 2 ^ 8) (omega arith),
)
assemble-extract fields_nu8 mask value ins s z h k = omega (
  arith,
  known ins.raw mask value 0xf000 h k,
  mask_f000 ins.raw,
  hi_value ins.raw,
  bit_and_mask 8 ins.raw,
)
assemble-extract fields_i8 mask value ins s z h k = omega (
  arith,
  known ins.raw mask value 0xff00 h k,
  mask_ff00 ins.raw,
  ap (λ (t : ℕ). to_u32 (sext t 8)) (bit_and_mask 8 ins.raw),
  low_imm8 (ins.raw % 2 ^ 8) (omega arith),
)
assemble-extract fields_u8 mask value ins s z h k =
    omega (arith, known ins.raw mask value 0xff00 h k, mask_ff00 ins.raw, bit_and_mask 8 ins.raw)
assemble-extract fields_s8 mask value ins s z h k = omega (
  arith,
  known ins.raw mask value 0xff00 h k,
  mask_ff00 ins.raw,
  ap (λ (t : ℕ). to_u32 (sext t 8)) (bit_and_mask 8 ins.raw),
  low_imm8 (ins.raw % 2 ^ 8) (omega arith),
)
assemble-extract fields_s12 mask value ins s z h k = omega (
  arith,
  known ins.raw mask value 0xf000 h k,
  mask_f000 ins.raw,
  ap (λ (t : ℕ). to_u32 (sext t 12)) (bit_and_mask 12 ins.raw),
  low_imm12 (ins.raw % 2 ^ 12) (omega arith),
)
assemble-extract fields_bank_n mask value ins s z h k = omega (
  arith,
  known ins.raw mask value 0xf08f h k,
  mask_f08f ins.raw,
  hi_value ins.raw,
  mid_value ins.raw,
  bit_and_mask 3 (mid ins.raw),
)
assemble-extract fields_bank_m mask value ins s z h k = omega (
  arith,
  known ins.raw mask value 0xf08f h k,
  mask_f08f ins.raw,
  hi_value ins.raw,
  mid_value ins.raw,
  bit_and_mask 3 (mid ins.raw),
)
assemble-extract fields_fipr mask value ins s z h k = omega (
  arith,
  known ins.raw mask value 0xf0ff h k,
  mask_f0ff ins.raw,
  bit_and_mask 2 (ins.raw / 2 ^ 10),
  bit_and_mask 2 (ins.raw / 2 ^ 8),
)
assemble-extract fields_ftrv mask value ins s z h k = omega (
  arith,
  known ins.raw mask value 0xf3ff h k,
  mask_f3ff ins.raw,
  bit_and_mask 2 (ins.raw / 2 ^ 10),
)

pub extract-op : (f : Fields) (ins : Instr) → (extract f ins).op ≡ ins.op
unfolding extract
extract-op f ins = grind arith

fixed-get :
    (es : List Entry) (i : ℕ) (e : Entry)
    → all_fixed es ≡ true
    → get_elem? es i ≡ some e
    → fixed_bits e.fields e.mask ≡ true
fixed-get [] i e h k = ground arith
fixed-get (x ∷ es) zero e h k =
    subst (λ (t : Entry). fixed_bits t.fields t.mask ≡ true) (row x e k)
      (both (fixed_bits x.fields x.mask) (all_fixed es) h).0
fixed-get (x ∷ es) (suc i) e h k =
    fixed-get es i e (both (fixed_bits x.fields x.mask) (all_fixed es) h).1 k

-- A 16-bit word that matches a row of the table is decoded to that row's operation, and the
-- row's value with the decoded operands put back is the word: decoding loses nothing.
pub decode-assemble :
    (raw i : ℕ) (e : Entry)
    → raw < 2 ^ 16
    → get_elem? table i ≡ some e
    → matches raw e ≡ true
    → ((decode raw).op ≡ e.op) × (assemble e.fields e.value (decode raw) ≡ raw)
unfolding decode
decode-assemble raw i e s g h = rw (entry_at-index raw i e g h) (
  extract-op e.fields ins,
  assemble-extract e.fields e.mask e.value ins s refl (fixed-get table i e table-fixed g)
      (matches-value raw e h),
)
  where
    ins : Instr
    ins = record (blank raw) { op = e.op; sh4a_only = e.sh4a }
