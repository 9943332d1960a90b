-- ===== src/Translator/Switch/Tables.antt =====
-- translator/src/analysis/switch.cpp and translator/include/dream/translator/analysis/switch.h:
-- the tables of `recover_switch`, and `recover_switch` itself.
use dream_recomp.Base.{
  ℕ, zero, suc, ◌+◌, ◌*◌, bit_and, bit_or, Bool, true, false, not, ◌&&◌, ◌||◌, ◌==◌, leb, ltb,
  if◌then◌else◌, Option, none, some, List, [], ◌∷◌,
}
use dream_recomp.Base.Bits.{u32}
use dream_recomp.Sh4.Alu.{sub32}
use dream_recomp.Sh4.State.{sx8, sx16}
use dream_recomp.Translator.Constprop.{Image, contains, image_read16, image_read32, byte}
use dream_recomp.Translator.Decoder.{Instr}
use dream_recomp.Translator.Decoder.Op
use dream_recomp.Translator.Switch.{at, constant_in, table_bound}
use dream_recomp.Translator.Switch.Recover.{Walked, loaded, unloaded, refused, walk_back, idiom}

pub record SwitchTable : Type 0 where
  pub table : ℕ
  pub entry_size : ℕ
  pub relative_to_pc : Bool
  pub relative_to_table : Bool
  pub rebased : Bool
  pub targets : List ℕ

unfoldable pub rebase_to_segment : ℕ → ℕ → ℕ
rebase_to_segment a ref =
    if leb 0xe000_0000 a || leb 0xe000_0000 ref
    then a
    else bit_or (bit_and a 0x1fff_ffff) (bit_and ref 0xe000_0000)

unfoldable pub is_bra : Op.Op → Bool
is_bra Op.bra = true
is_bra op = false

unfoldable pub is_nop : Op.Op → Bool
is_nop Op.nop = true
is_nop op = false

unfoldable pub is_invalid : Op.Op → Bool
is_invalid Op.invalid = true
is_invalid op = false

-- `bra x` or `nop; nop`.
unfoldable pub is_stub : Image → ℕ → Bool
is_stub img t =
    is_bra (at img t).op
    || (is_nop (at img t).op && (contains img (u32 (t + 2)) 2 && is_nop (at img (u32 (t + 2))).op))

-- The range that targets lie in.
abbrev pub in_range : ℕ → ℕ → ℕ → Bool
in_range lo hi t = leb lo t && ltb t hi

-- An entry of the code table is taken: it is in range and in the image, and, without a mask, it is a
-- stub, one of 32 where not even the stride is known.
unfoldable pub takes_stub : Image → ℕ → ℕ → Option ℕ → Bool → ℕ → ℕ → Bool
takes_stub img lo hi mask unbounded k t =
    let looks : Bool = elim mask [
      | some v ↦ true
      | none ↦ is_stub img t && not (unbounded && leb 32 k)
    ] in
    (in_range lo hi t && contains img t 2) && (looks && not (is_invalid (at img t).op))

-- The targets from the `k`-th on, of at most `n`.
unfoldable pub stubs : ℕ → Image → ℕ → ℕ → ℕ → Option ℕ → Bool → ℕ → ℕ → List ℕ
stubs zero img lo hi jump_pc mask unbounded stride k = []
stubs (suc n) img lo hi jump_pc mask unbounded stride k =
    let t = u32 (jump_pc + 4 + k * stride) in
    let rest = stubs n img lo hi jump_pc mask unbounded stride (k + 1) in
    if takes_stub img lo hi mask unbounded k t then t ∷ rest else []

-- An entry of the table at `ea` as 32 bits.
unfoldable pub table_entry : Image → ℕ → ℕ → ℕ
table_entry img size ea =
    if size == 4
    then image_read32 img ea
    else if size == 2
    then sx16 (image_read16 img ea)
    else sx8 (byte img (sub32 ea img.base))

unfoldable pub target_of : SwitchTable → ℕ → ℕ → ℕ → ℕ
target_of out jump_pc lo entry =
    if out.relative_to_pc
    then u32 (jump_pc + 4 + entry)
    else if out.relative_to_table
    then u32 (out.table + entry)
    else rebase_to_segment entry lo

-- A target is taken: it is in range, even, and not on the table's entries so far.
unfoldable pub takes_entry : SwitchTable → ℕ → ℕ → ℕ → ℕ → Bool
takes_entry out lo hi k t =
    in_range lo hi t
    && (bit_and t 1 == 0
        && not (leb out.table t && ltb t (u32 (out.table + (k + 1) * out.entry_size))))

unfoldable pub entries : ℕ → Image → ℕ → ℕ → ℕ → SwitchTable → ℕ → SwitchTable
entries zero img lo hi jump_pc out k = record out { targets = [] }
entries (suc n) img lo hi jump_pc out k =
    let ea = u32 (out.table + k * out.entry_size) in
    let entry = table_entry img out.entry_size ea in
    let t = target_of out jump_pc lo entry in
    let moved = not (t == entry) && (not out.relative_to_pc && not out.relative_to_table) in
    let rest =
      entries n img lo hi jump_pc (record out { rebased = out.rebased || moved }) (k + 1) in
    if contains img ea out.entry_size && takes_entry out lo hi k t
    then record rest { targets = t ∷ rest.targets }
    else record out { targets = [] }

-- `return !out.targets.empty()`.
unfoldable pub unless_empty : SwitchTable → Option SwitchTable
unless_empty out = elim out.targets [ [] ↦ none | t ∷ ts ↦ some out ]

unfoldable pub is_braf : Op.Op → Bool
is_braf Op.braf = true
is_braf op = false

unfoldable pub is_jmp : Op.Op → Bool
is_jmp Op.jmp = true
is_jmp op = false

module _ (img : Image) (block_start jump_pc : ℕ) (jump : Instr) (range_lo range_hi : ℕ)
    (max_entries : ℕ) where
  -- The code-table idiom.
  unfoldable pub stub_table : ℕ × Option ℕ → Option SwitchTable
  stub_table (stride, mask) =
      let unbounded = stride == 0 in
      let step : ℕ = if unbounded then 4 else stride in
      let count : ℕ = elim mask [ some v ↦ v + 1 | none ↦ max_entries ] in
      if unbounded && not (jump_pc == block_start)
      then none
      else unless_empty (record {
        table = u32 (jump_pc + 4);
        entry_size = step;
        relative_to_pc = true;
        relative_to_table = false;
        rebased = false;
        targets = stubs count img range_lo range_hi jump_pc mask unbounded step 0;
      })

  -- The table's address and the register of the index: the load's base register before R0.
  unfoldable pub table_base : ℕ → ℕ → Option (ℕ × ℕ)
  table_base def_pc m =
      let other : Option (ℕ × ℕ) = elim (constant_in img block_start def_pc 0) [
        | some base ↦ some (base, m)
        | none ↦ none
      ] in
      elim (if m == 0 then none else constant_in img block_start def_pc m) [
        | some base ↦ some (base, 0)
        | none ↦ other
      ]

  -- The base that entries relative to a table count from, where it is another register's.
  unfoldable pub add_base_of : ℕ → ℕ → Option ℕ → ℕ → ℕ
  add_base_of def_pc m none base = base
  add_base_of def_pc m (some r) base =
      let own : ℕ = elim (constant_in img block_start def_pc r) [ some b2 ↦ b2 | none ↦ base ] in
      if not (r == m) && not (r == 0) then own else base

  unfoldable pub is_some : Option ℕ → Bool
  is_some none = false
  is_some (some r) = true

  unfoldable pub load_table : ℕ → ℕ → Option ℕ → Option (ℕ × ℕ) → Option SwitchTable
  load_table def_pc size add_base none = none
  load_table def_pc size add_base (some (base, index)) =
      let bound = table_bound img def_pc index in
      let count : ℕ = if not (bound == 0) && ltb bound max_entries then bound else max_entries in
      unless_empty (
        entries count img range_lo range_hi jump_pc
          (record {
            table = add_base_of def_pc (at img def_pc).m add_base base;
            entry_size = size;
            relative_to_pc = is_braf jump.op;
            relative_to_table = is_some add_base;
            rebased = false;
            targets = [];
          })
          0)

  unfoldable pub recovered : Walked → Option SwitchTable
  recovered refused = none
  recovered unloaded =
      if is_braf jump.op then stub_table (idiom 8 img block_start jump_pc jump.m 0) else none
  recovered (loaded def_pc size add_base) =
      load_table def_pc size add_base (table_base def_pc (at img def_pc).m)

  -- `none` is the answer false.
  unfoldable pub recover_switch : Option SwitchTable
  recover_switch =
      if is_braf jump.op || is_jmp jump.op
      then recovered (walk_back 12 img block_start jump_pc jump.m none)
      else none
