-- ===== src/Translator/Decoder.antt =====
-- translator/src/sh4/decoder.cpp: the SH-4 instruction decoder.
pub mod Op
pub mod Entry
pub mod TableLow
pub mod TableMid
pub mod TableHigh
pub mod Unique
pub mod Words
pub mod Encode
use dream_recomp.Base.{
  ℕ, zero, suc, ◌+◌, ◌-◌, ◌*◌, ◌/◌, ◌%◌, ◌^◌, bit_and, bit_xor, Bool, true, false, ◌==◌,
  if◌then◌else◌, Option, none, some, List, [], ◌∷◌, ◌++◌, get_elem?,
}
use dream_recomp.Base.Bits.{u32}
use dream_recomp.Base.Int.{ℤ, pos, negsuc, signed32}

-- `kTable`.
abbrev pub table : List Entry.Entry
table =
    TableLow.table_0
    ++ (TableLow.table_1_5
        ++ (TableLow.table_2
            ++ (TableLow.table_3
                ++ (TableMid.table_4
                    ++ (TableHigh.table_6
                        ++ (TableHigh.table_7
                            ++ (TableHigh.table_8
                                ++ (TableHigh.table_9_a_b
                                    ++ (TableHigh.table_c
                                        ++ (TableHigh.table_d_e ++ TableHigh.table_f))))))))))

unfoldable pub matches : ℕ → Entry.Entry → Bool
matches raw e = bit_and raw e.mask == e.value

-- The inner loop of `Lookup`: 1 and the index of the first match, counted from `i`, or else 0.
unfoldable pub index_from : ℕ → ℕ → List Entry.Entry → ℕ
index_from raw i [] = 0
index_from raw i (e ∷ es) = if matches raw e then (i + 1) % 2 ^ 8 else index_from raw (i + 1) es

unfoldable pub index : ℕ → ℕ
index raw = index_from raw 0 table

-- The sign extension of the lowest `bits` bits.
unfoldable pub sext : ℕ → ℕ → ℤ
sext v bits = let sign = 2 ^ (bits - 1) in signed32 (u32 (bit_xor v sign + 2 ^ 32 - sign))

pub record Instr : Type 0 where
  pub op : Op.Op
  pub raw : ℕ
  pub n : ℕ
  pub m : ℕ
  pub imm : ℤ
  pub bank : ℕ
  pub sh4a_only : Bool

abbrev pub hi : ℕ → ℕ
hi raw = bit_and (raw / 2 ^ 8) 0xf

abbrev pub mid : ℕ → ℕ
mid raw = bit_and (raw / 2 ^ 4) 0xf

-- The `switch` of `decode`.
unfoldable pub extract : Entry.Fields → Instr → Instr
extract Entry.fields_none ins = ins
extract Entry.fields_n ins = record ins { n = hi ins.raw }
extract Entry.fields_m ins = record ins { m = hi ins.raw }
extract Entry.fields_nm ins = record ins { n = hi ins.raw; m = mid ins.raw }
extract Entry.fields_nmd4 ins = record ins {
  n = hi ins.raw;
  m = mid ins.raw;
  imm = pos (bit_and ins.raw 0xf);
}
extract Entry.fields_md4_r0 ins = record ins { m = mid ins.raw; imm = pos (bit_and ins.raw 0xf) }
extract Entry.fields_ni8 ins = record ins { n = hi ins.raw; imm = sext (bit_and ins.raw 0xff) 8 }
extract Entry.fields_nu8 ins = record ins { n = hi ins.raw; imm = pos (bit_and ins.raw 0xff) }
extract Entry.fields_i8 ins = record ins { imm = sext (bit_and ins.raw 0xff) 8 }
extract Entry.fields_u8 ins = record ins { imm = pos (bit_and ins.raw 0xff) }
extract Entry.fields_s8 ins = record ins { imm = sext (bit_and ins.raw 0xff) 8 }
extract Entry.fields_s12 ins = record ins { imm = sext (bit_and ins.raw 0xfff) 12 }
extract Entry.fields_bank_n ins = record ins { n = hi ins.raw; bank = bit_and (mid ins.raw) 7 }
extract Entry.fields_bank_m ins = record ins { m = hi ins.raw; bank = bit_and (mid ins.raw) 7 }
extract Entry.fields_fipr ins = record ins {
  n = bit_and (ins.raw / 2 ^ 10) 3 * 4;
  m = bit_and (ins.raw / 2 ^ 8) 3 * 4;
}
extract Entry.fields_ftrv ins = record ins { n = bit_and (ins.raw / 2 ^ 10) 3 * 4 }

-- An `Instr` as it is declared, with its word.
abbrev pub blank : ℕ → Instr
blank raw = record {
  op = Op.invalid;
  raw = raw;
  n = 0;
  m = 0;
  imm = pos 0;
  bank = 0;
  sh4a_only = false;
}

abbrev pub decode_as : ℕ → Option Entry.Entry → Instr
decode_as raw none = blank raw
decode_as raw (some e) = extract e.fields (record (blank raw) { op = e.op; sh4a_only = e.sh4a })

-- The entry that `index` selects.
unfoldable pub entry_at : ℕ → Option Entry.Entry
entry_at zero = none
entry_at (suc i) = get_elem? table i

unfoldable pub decode : ℕ → Instr
decode raw = decode_as raw (entry_at (index raw))

unfoldable pub has_delay_slot : Op.Op → Bool
has_delay_slot Op.bra = true
has_delay_slot Op.bsr = true
has_delay_slot Op.braf = true
has_delay_slot Op.bsrf = true
has_delay_slot Op.jmp = true
has_delay_slot Op.jsr = true
has_delay_slot Op.rts = true
has_delay_slot Op.rte = true
has_delay_slot Op.bt_s = true
has_delay_slot Op.bf_s = true
has_delay_slot op = false

unfoldable pub is_control_flow : Op.Op → Bool
is_control_flow Op.bf = true
is_control_flow Op.bt = true
is_control_flow Op.trapa = true
is_control_flow op = has_delay_slot op

-- `static_cast<std::uint32_t>` of a signed number.
abbrev pub to_u32 : ℤ → ℕ
to_u32 (pos k) = u32 k
to_u32 (negsuc k) = u32 (2 ^ 32 - 1 - u32 k)

abbrev pub target : ℕ → ℤ → ℕ
target pc imm = u32 (pc + 4 + to_u32 imm * 2)

abbrev pub long_target : ℕ → ℤ → ℕ
long_target pc imm = u32 (bit_and pc 0xffff_fffc + 4 + to_u32 imm * 4)

unfoldable pub pcrel_of : Op.Op → ℤ → ℕ → ℕ
pcrel_of Op.bt imm pc = target pc imm
pcrel_of Op.bf imm pc = target pc imm
pcrel_of Op.bt_s imm pc = target pc imm
pcrel_of Op.bf_s imm pc = target pc imm
pcrel_of Op.bra imm pc = target pc imm
pcrel_of Op.bsr imm pc = target pc imm
pcrel_of Op.mov_w_pcrel imm pc = target pc imm
pcrel_of Op.mov_l_pcrel imm pc = long_target pc imm
pcrel_of Op.mova imm pc = long_target pc imm
pcrel_of op imm pc = 0

unfoldable pub pcrel_target : Instr → ℕ → ℕ
pcrel_target ins pc = pcrel_of ins.op ins.imm pc
