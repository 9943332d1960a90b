-- ===== src/Translator/Decoder/Entry.antt =====
-- translator/src/sh4/decoder.cpp: the rows of the decoder's table.
use dream_recomp.Base.{ℕ, Bool, true, false}
use dream_recomp.Translator.Decoder.Op.{Op}

-- The source's `enum class Fields`.
pub data Fields : Type 0 where
  fields_none fields_n fields_m fields_nm fields_nmd4 fields_md4_r0 fields_ni8 : Fields
  fields_nu8 fields_i8 fields_u8 fields_s8 fields_s12 fields_bank_n fields_bank_m : Fields
  fields_fipr fields_ftrv : Fields

pub record Entry : Type 0 where
  pub mask : ℕ
  pub value : ℕ
  pub op : Op
  pub fields : Fields
  pub sh4a : Bool

abbrev pub entry : ℕ → ℕ → Op → Fields → Entry
entry mask value op fields = record {
  mask = mask;
  value = value;
  op = op;
  fields = fields;
  sh4a = false;
}

abbrev pub sh4a_entry : ℕ → ℕ → Op → Fields → Entry
sh4a_entry mask value op fields = record {
  mask = mask;
  value = value;
  op = op;
  fields = fields;
  sh4a = true;
}
