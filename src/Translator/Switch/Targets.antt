-- ===== src/Translator/Switch/Targets.antt =====
-- What the recovery of a switch table answers for.
use mathlib.Core.Path.{subst}
use mathlib.Core.Bool.{true≢false}
use mathlib.Core.Option.{some-injective}
use dream_recomp.Base.{
  ℕ, zero, suc, ◌+◌, ◌*◌, ◌<◌, ◌≤◌, ◌≡◌, refl, arith, Bool, true, false, not, ◌&&◌, ◌||◌, ◌==◌,
  bit_and, leb, ltb, if◌then◌else◌, Option, none, some, List, [], ◌∷◌, length, sym,
}
use dream_recomp.Base.Bits.{u32}
use dream_recomp.Translator.Constprop.{Image, contains}
use dream_recomp.Translator.Decoder.{Instr}
use dream_recomp.Translator.Switch.{table_bound}
use dream_recomp.Translator.Switch.Recover.{Walked, loaded, unloaded, refused}
use dream_recomp.Translator.Switch.Tables.{
  SwitchTable, in_range, takes_stub, stubs, takes_entry, entries, unless_empty, stub_table,
  load_table, recovered, recover_switch, table_entry, target_of, is_braf, is_jmp,
}

-- A target of a table whose jump is BRAF, or not: in range, and even where it is not.
unfoldable pub taken : Bool → ℕ → ℕ → ℕ → Bool
taken braf lo hi t = in_range lo hi t && (bit_and t 1 == 0 || braf)

unfoldable pub all_taken : Bool → ℕ → ℕ → List ℕ → Bool
all_taken braf lo hi [] = true
all_taken braf lo hi (t ∷ ts) = taken braf lo hi t && all_taken braf lo hi ts

unfoldable pub Dispatches : Bool → ℕ → ℕ → ℕ → SwitchTable → Type 0
Dispatches braf lo hi most out =
    (0 < length out.targets)
    × ((all_taken braf lo hi out.targets ≡ true) × ((leb (length out.targets) most || braf) ≡ true))

and_true : (a b : Bool) → a ≡ true → b ≡ true → a && b ≡ true
and_true a b p q = rw p q

or_true : (a : Bool) → a || true ≡ true
or_true true = refl
or_true false = refl

or_left : (a b : Bool) → a ≡ true → a || b ≡ true
or_left a b p = rw p refl

cons_in :
    (braf b : Bool) (lo hi t : ℕ) (ts : List ℕ)
    → (b ≡ true → taken braf lo hi t ≡ true)
    → all_taken braf lo hi ts ≡ true
    → all_taken braf lo hi (if b then t ∷ ts else []) ≡ true
unfolding all_taken
cons_in braf true lo hi t ts h rest = and_true _ _ (h refl) rest
cons_in braf false lo hi t ts h rest = refl

and_left : (a b : Bool) → a && b ≡ true → a ≡ true
and_left true b e = refl
and_left false b e = e

and_right : (a b : Bool) → a && b ≡ true → b ≡ true
and_right true b e = e
and_right false b e = absurd (true≢false (sym e))

-- An answer behind a test is given where the test fails, or where it holds.
if_some :
    (b : Bool) (r : Option SwitchTable) (out : SwitchTable)
    → (if b then none else r) ≡ some out
    → (b ≡ false) × (r ≡ some out)
if_some true r out e = cc
if_some false r out e = (refl, e)

then_some :
    (b : Bool) (r : Option SwitchTable) (out : SwitchTable)
    → (if b then r else none) ≡ some out
    → (b ≡ true) × (r ≡ some out)
then_some true r out e = (refl, e)
then_some false r out e = cc

stub_in :
    (img : Image) (lo hi : ℕ) (mask : Option ℕ) (unbounded : Bool) (k t : ℕ)
    → takes_stub img lo hi mask unbounded k t ≡ true
    → taken true lo hi t ≡ true
unfolding takes_stub taken
stub_in img lo hi mask unbounded k t e =
    and_true _ _ (and_left (in_range lo hi t) _ (and_left _ _ e)) (or_true (bit_and t 1 == 0))

stubs_in :
    (n : ℕ) (img : Image) (lo hi jump_pc : ℕ) (mask : Option ℕ) (unbounded : Bool) (stride k : ℕ)
    → all_taken true lo hi (stubs n img lo hi jump_pc mask unbounded stride k) ≡ true
unfolding stubs all_taken
stubs_in zero img lo hi jump_pc mask unbounded stride k = refl
stubs_in (suc n) img lo hi jump_pc mask unbounded stride k =
    let t = u32 (jump_pc + 4 + k * stride) in
    cons_in true (takes_stub img lo hi mask unbounded k t) lo hi t _
      (stub_in img lo hi mask unbounded k t)
      (stubs_in n img lo hi jump_pc mask unbounded stride (k + 1))

unless_some :
    (r out : SwitchTable) (ts : List ℕ)
    → elim ts [ [] ↦ none | t ∷ us ↦ some r ] ≡ some out
    → (r ≡ out) × (0 < length ts)
unless_some r out [] e = cc
unless_some r out (t ∷ ts) e = (some-injective r out e, omega arith)

unless_empty_in :
    (braf : Bool) (lo hi most : ℕ) (r out : SwitchTable)
    → all_taken braf lo hi r.targets ≡ true
    → (leb (length r.targets) most || braf) ≡ true
    → unless_empty r ≡ some out
    → Dispatches braf lo hi most out
unfolding unless_empty Dispatches
unless_empty_in braf lo hi most r out h few e =
    let (same, inhabited) = unless_some r out r.targets e in
    subst (Dispatches braf lo hi most) same (inhabited, (h, few))

entry_in :
    (braf : Bool) (out : SwitchTable) (lo hi k t : ℕ)
    → takes_entry out lo hi k t ≡ true
    → taken braf lo hi t ≡ true
unfolding takes_entry taken
entry_in braf out lo hi k t e =
    and_true _ _ (and_left (in_range lo hi t) _ e)
      (or_left (bit_and t 1 == 0) braf (and_left _ _ (and_right (in_range lo hi t) _ e)))

cons_table :
    (braf b : Bool) (lo hi t : ℕ) (rest out : SwitchTable)
    → (b ≡ true → taken braf lo hi t ≡ true)
    → all_taken braf lo hi rest.targets ≡ true
    → all_taken braf lo hi (
        SwitchTable.targets
          (if b then record rest { targets = t ∷ rest.targets } else record out { targets = [] }))
      ≡ true
unfolding all_taken
cons_table braf true lo hi t rest out h e = and_true _ _ (h refl) e
cons_table braf false lo hi t rest out h e = refl

cons_few :
    (b : Bool) (t : ℕ) (rest out : SwitchTable) (n : ℕ)
    → length rest.targets ≤ n
    → length (
        SwitchTable.targets
          (if b then record rest { targets = t ∷ rest.targets } else record out { targets = [] }))
      ≤ suc n
cons_few true t rest out n e = omega arith
cons_few false t rest out n e = omega arith

entries_few :
    (n : ℕ) (img : Image) (lo hi jump_pc : ℕ) (out : SwitchTable) (k : ℕ)
    → length (SwitchTable.targets (entries n img lo hi jump_pc out k)) ≤ n
unfolding entries
entries_few zero img lo hi jump_pc out k = omega arith
entries_few (suc n) img lo hi jump_pc out k =
    cons_few _ _ _ out n (entries_few n img lo hi jump_pc _ (k + 1))

entries_in :
    (braf : Bool) (n : ℕ) (img : Image) (lo hi jump_pc : ℕ) (out : SwitchTable) (k : ℕ)
    → all_taken braf lo hi (SwitchTable.targets (entries n img lo hi jump_pc out k)) ≡ true
unfolding entries all_taken
entries_in braf zero img lo hi jump_pc out k = refl
entries_in braf (suc n) img lo hi jump_pc out k =
    let ea = u32 (out.table + k * out.entry_size) in
    let entry = table_entry img out.entry_size ea in
    let t = target_of out jump_pc lo entry in
    cons_table braf _ lo hi t _ out
      (λ e. entry_in braf out lo hi k t (and_right (contains img ea out.entry_size) _ e))
      (entries_in braf n img lo hi jump_pc _ (k + 1))

le_leb : (a b : ℕ) → a ≤ b → leb a b ≡ true
le_leb a b h = ground arith

at_most : (bound most : ℕ) → (if not (bound == 0) && ltb bound most then bound else most) ≤ most
at_most bound most = ground arith

module _ (img : Image) (block_start jump_pc : ℕ) (jump : Instr) (lo hi most : ℕ) where
  load_table_in :
      (def_pc size : ℕ) (add_base : Option ℕ) (base : Option (ℕ × ℕ)) (out : SwitchTable)
      → load_table img block_start jump_pc jump lo hi most def_pc size add_base base ≡ some out
      → Dispatches (is_braf jump.op) lo hi most out
  unfolding load_table
  load_table_in def_pc size add_base none out e = cc
  load_table_in def_pc size add_base (some (base, index)) out e =
      let bound = table_bound img def_pc index in
      unless_empty_in (is_braf jump.op) lo hi most _ out
        (entries_in (is_braf jump.op) _ img lo hi jump_pc _ 0)
        (or_left _ (is_braf jump.op) (
          le_leb _ most (
            omega (
              arith,
              entries_few (if not (bound == 0) && ltb bound most then bound else most) img lo hi
                  jump_pc _ 0,
              at_most bound most,
            ))))
        e

  stub_table_in :
      (found : ℕ × Option ℕ) (out : SwitchTable)
      → stub_table img block_start jump_pc jump lo hi most found ≡ some out
      → Dispatches true lo hi most out
  unfolding stub_table
  stub_table_in (stride, mask) out e =
      let (shape, answered) = if_some _ _ out e in
      unless_empty_in true lo hi most _ out (stubs_in _ img lo hi jump_pc mask _ _ 0) (or_true _)
        answered

  recovered_in :
      (w : Walked) (out : SwitchTable)
      → recovered img block_start jump_pc jump lo hi most w ≡ some out
      → Dispatches (is_braf jump.op) lo hi most out
  unfolding recovered
  recovered_in refused out e = cc
  recovered_in unloaded out e =
      let (braf, answered) = then_some (is_braf jump.op) _ out e in
      subst (λ b. Dispatches b lo hi most out) (sym braf) (stub_table_in _ out answered)
  recovered_in (loaded def_pc size add_base) out e = load_table_in def_pc size add_base _ out e

  -- A table that `recover_switch` recovers has a target; every target lies in the range from `lo` up
  -- to `hi`; and, where the jump is not BRAF, every target is even and there are at most `most` of
  -- them, the largest number of entries asked for.
  pub recover_switch-Dispatches :
      (out : SwitchTable)
      → recover_switch img block_start jump_pc jump lo hi most ≡ some out
      → Dispatches (is_braf jump.op) lo hi most out
  unfolding recover_switch
  recover_switch-Dispatches out e =
      let (jumps, answered) = then_some (is_braf jump.op || is_jmp jump.op) _ out e in
      recovered_in _ out answered
