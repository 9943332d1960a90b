-- ===== src/Translator/Switch/Examples.antt =====
-- The recovery of the table of a small dispatch: MOVA, MOV.W @(R0,R1),R2, BRAF R2.
use dream_recomp.Base.{◌≡◌, refl, true, false, some, none, [], ◌∷◌}
use dream_recomp.Base.Int.{pos}
use dream_recomp.Translator.Constprop.{Image, image_read16, contains}
use dream_recomp.Translator.Decoder.{
  Instr, decode, index, index_from, matches, entry_at, extract, has_delay_slot, sext, pcrel_target,
  pcrel_of,
}
use dream_recomp.Translator.Decoder.Op
use dream_recomp.Translator.Switch.{
  at, constant_in, table_bound, seek, finding, bound_from, bounding, ends_block, only_reads, past,
}
use dream_recomp.Translator.Switch.Recover.{loaded, walk_back, definition, next_of}
use dream_recomp.Translator.Switch.Tables.{
  SwitchTable, recover_switch, recovered, load_table, table_base, add_base_of, is_some, is_braf,
  entries, table_entry, target_of, takes_entry, unless_empty,
}
use dream_recomp.Translator.Switch.Targets.{Dispatches, recover_switch-Dispatches}

abbrev image : Image
image = record {
  base = 0x100;
  bytes =
      0x02 ∷ 0xc7 ∷ 0x1d ∷ 0x02 ∷ 0x23 ∷ 0x02 ∷ 0x09 ∷ 0x00 ∷ 0x09 ∷ 0x00 ∷ 0x09 ∷ 0x00 ∷ 0x00
      ∷ 0x00 ∷ 0x02 ∷ 0x00 ∷ 0xff ∷ 0x7f ∷ [];
}

abbrev dispatch : Instr
dispatch = record {
  op = Op.braf;
  raw = 0x0223;
  n = 0;
  m = 2;
  imm = pos 0;
  bank = 0;
  sh4a_only = false;
}

dispatch_decoded : at image 0x104 ≡ dispatch
unfolding decode index index_from matches entry_at extract sext image_read16
dispatch_decoded = refl

abbrev shown : SwitchTable
shown = record {
  table = 0x10c;
  entry_size = 2;
  relative_to_pc = true;
  relative_to_table = false;
  rebased = false;
  targets = 0x108 ∷ 0x10a ∷ [];
}

walked : walk_back 12 image 0x100 0x104 2 none ≡ loaded 0x102 2 none
unfolding walk_back decode index index_from matches entry_at extract sext image_read16 definition
    next_of
walked = refl

register : Instr.m (at image 0x102) ≡ 1
unfolding decode index index_from matches entry_at extract sext image_read16
register = refl

unbounded : table_bound image 0x102 1 ≡ 0
unfolding decode index index_from matches entry_at extract sext image_read16 table_bound bound_from
    contains bounding
unbounded = refl

based : table_base image 0x100 0x104 dispatch 0x100 0x10c 4 0x102 1 ≡ some (0x10c, 1)
unfolding table_base decode index index_from matches entry_at extract sext image_read16
    has_delay_slot constant_in seek finding ends_block only_reads past pcrel_target pcrel_of
based = refl

filled :
    load_table image 0x100 0x104 dispatch 0x100 0x10c 4 0x102 2 none (some (0x10c, 1)) ≡ some shown
unfolding load_table entries contains image_read16 table_entry target_of takes_entry unless_empty
    add_base_of is_some is_braf
filled = rw unbounded refl

recovers : recover_switch image 0x100 0x104 dispatch 0x100 0x10c 4 ≡ some shown
unfolding recover_switch recovered is_braf
recovers = rw (walked, register, based) filled

recover_switch-Dispatches_example : Dispatches true 0x100 0x10c 4 shown
unfolding is_braf
recover_switch-Dispatches_example =
    recover_switch-Dispatches image 0x100 0x104 dispatch 0x100 0x10c 4 shown recovers
