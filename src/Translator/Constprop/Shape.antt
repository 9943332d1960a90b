-- ===== src/Translator/Constprop/Shape.antt =====
-- The fields that the decoder leaves for the operations on R0.
use mathlib.Core.Bool.{true≢false}
use mathlib.Core.Path.{subst}
use dream_recomp.Base.{
  ℕ, zero, suc, bit_and, ◌≡◌, refl, sym, arith, Bool, true, false, ◌&&◌, some, Option-cases, List,
  [], ◌∷◌, get_elem?, inl, inr,
}
use dream_recomp.Base.Bits.{u32, bit_and_mask}
use dream_recomp.Translator.Decoder.{
  Instr, table, index, entry_at, extract, blank, decode, decode_as, to_u32,
}
use dream_recomp.Translator.Decoder.Op
use dream_recomp.Translator.Decoder.Entry.{Entry, Fields, fields_md4_r0, fields_u8}
use dream_recomp.Translator.Decoder.Unique.{both, row}
use dream_recomp.Translator.Decoder.Encode.{extract-op}
use dream_recomp.Translator.Constprop.{imm8}
use dream_recomp.Translator.Constprop.Sound.{Shaped}

abbrev on_r0 : Fields → Bool
on_r0 fields_md4_r0 = true
on_r0 fields_u8 = true
on_r0 f = false

abbrev is_u8 : Fields → Bool
is_u8 fields_u8 = true
is_u8 f = false

abbrev row_shape : Op.Op → Fields → Bool
row_shape Op.mov_b_l_disp0 f = on_r0 f
row_shape Op.mov_w_l_disp0 f = on_r0 f
row_shape Op.mov_b_l_gbr f = on_r0 f
row_shape Op.mov_w_l_gbr f = on_r0 f
row_shape Op.mov_l_l_gbr f = on_r0 f
row_shape Op.or_i f = is_u8 f
row_shape Op.and_i f = is_u8 f
row_shape Op.xor_i f = is_u8 f
row_shape op f = true

abbrev all_shaped : List Entry → Bool
all_shaped [] = true
all_shaped (e ∷ es) = row_shape e.op e.fields && all_shaped es

table-shaped : all_shaped table ≡ true
table-shaped = refl

on_r0-zero : (f : Fields) (ins : Instr) → on_r0 f ≡ true → ins.n ≡ 0 → (extract f ins).n ≡ 0
unfolding extract
on_r0-zero fields_md4_r0 ins h z = z
on_r0-zero fields_u8 ins h z = z
on_r0-zero f ins h z = absurd (true≢false (sym h))

is_u8-zero : (f : Fields) (ins : Instr) → is_u8 f ≡ true → ins.n ≡ 0 → (extract f ins).n ≡ 0
unfolding extract
is_u8-zero fields_u8 ins h z = z
is_u8-zero f ins h z = absurd (true≢false (sym h))

is_u8-imm :
    (f : Fields) (ins : Instr)
    → is_u8 f ≡ true
    → imm8 (extract f ins).imm ≡ to_u32 (extract f ins).imm
unfolding extract
is_u8-imm fields_u8 ins h =
    omega (arith, bit_and_mask 8 ins.raw, bit_and_mask 8 (u32 (bit_and ins.raw 0xff)))
is_u8-imm f ins h = absurd (true≢false (sym h))

Shaped-extract :
    (op : Op.Op) (f : Fields) (ins : Instr)
    → row_shape op f ≡ true
    → ins.n ≡ 0
    → Shaped op (extract f ins)
unfolding Shaped
Shaped-extract Op.mov_b_l_disp0 f ins h z = on_r0-zero f ins h z
Shaped-extract Op.mov_w_l_disp0 f ins h z = on_r0-zero f ins h z
Shaped-extract Op.mov_b_l_gbr f ins h z = on_r0-zero f ins h z
Shaped-extract Op.mov_w_l_gbr f ins h z = on_r0-zero f ins h z
Shaped-extract Op.mov_l_l_gbr f ins h z = on_r0-zero f ins h z
Shaped-extract Op.or_i f ins h z = (is_u8-zero f ins h z, is_u8-imm f ins h)
Shaped-extract Op.and_i f ins h z = is_u8-imm f ins h
Shaped-extract Op.xor_i f ins h z = is_u8-imm f ins h
Shaped-extract op f ins h z = tt

shaped-get :
    (es : List Entry) (i : ℕ) (e : Entry)
    → all_shaped es ≡ true
    → get_elem? es i ≡ some e
    → row_shape e.op e.fields ≡ true
shaped-get [] i e h k = ground arith
shaped-get (x ∷ es) zero e h k =
    subst (λ (t : Entry). row_shape t.op t.fields ≡ true) (row x e k)
      (both (row_shape x.op x.fields) (all_shaped es) h).0
shaped-get (x ∷ es) (suc i) e h k =
    shaped-get es i e (both (row_shape x.op x.fields) (all_shaped es) h).1 k

entry_at-shaped : (i : ℕ) (e : Entry) → entry_at i ≡ some e → row_shape e.op e.fields ≡ true
unfolding entry_at
entry_at-shaped zero e h = ground arith
entry_at-shaped (suc i) e h = shaped-get table i e table-shaped h

decode_as-Shaped :
    (raw : ℕ) (e : Entry)
    → row_shape e.op e.fields ≡ true
    → Shaped (decode_as raw (some e)).op (decode_as raw (some e))
unfolding extract
decode_as-Shaped raw e h =
    let ins : Instr = record (blank raw) { op = e.op; sh4a_only = e.sh4a } in
    rw (extract-op e.fields ins) (Shaped-extract e.op e.fields ins h refl)

pub decode-Shaped : (raw : ℕ) → Shaped (decode raw).op (decode raw)
unfolding decode Shaped
decode-Shaped raw = elim (Option-cases (entry_at (index raw))) [
  | inl missing ↦ rw missing tt
  | inr (e, found) ↦ rw found (decode_as-Shaped raw e (entry_at-shaped (index raw) e found))
]
