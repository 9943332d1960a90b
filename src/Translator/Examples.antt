-- ===== src/Translator/Examples.antt =====
-- The decoder's theorems at `add r3,r2`, the 68th row of the table.
use dream_recomp.Base.{◌≡◌, refl, arith, some}
use dream_recomp.Translator.Decoder as decoder

abbrev add_entry : decoder.Entry.Entry
add_entry = decoder.Entry.entry 0xf00f 0x300c decoder.Op.add decoder.Entry.fields_nm

entry_at-index_example : decoder.entry_at (decoder.index 0x323c) ≡ some add_entry
unfolding decoder.matches
entry_at-index_example = decoder.Unique.entry_at-index 0x323c 67 add_entry refl refl

decode-assemble_example :
    ((decoder.decode 0x323c).op ≡ decoder.Op.add)
    × (decoder.Encode.assemble add_entry.fields add_entry.value (decoder.decode 0x323c) ≡ 0x323c)
unfolding decoder.matches
decode-assemble_example = decoder.Encode.decode-assemble 0x323c 67 add_entry (omega arith) refl refl
