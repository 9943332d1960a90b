-- ===== src/Translator/Constprop/Block.antt =====
-- The analysis of a block against the interpreter's loop on it.
use mathlib.Core.Bool.{true≢false}
use mathlib.Core.Path.{subst}
use mathlib.Core.Option.{some-injective}
use dream_recomp.Base.{
  ℕ, zero, suc, ◌+◌, ◌-◌, ◌*◌, ◌/◌, ◌^◌, ◌<◌, bit_and, ◌≡◌, refl, sym, arith, Bool, true, false,
  not, ◌&&◌, Bool-cases, if◌then◌else◌, Option, none, some, inl, inr, List, [], ◌∷◌, get_or, length,
  replicate,
}
use dream_recomp.Base.Bits.{u32}
use dream_recomp.Sh4.Memory.{Memory}
use dream_recomp.Sh4.State.{State, load16, after_access}
use dream_recomp.Sh4.Float.{Floats}
use dream_recomp.Sh4.Interp.System.{Abi}
use dream_recomp.Sh4.Interp.Moves.{exec}
use dream_recomp.Sh4.Interp.Run.{
  Options, Session, Turn, going, stopped, with_state, continue_at, fetch, plain_turn, dispatch,
  at_limit, turn, is_cond,
}
use dream_recomp.Translator.Decoder.{decode, has_delay_slot}
use dream_recomp.Translator.Decoder.Op
use dream_recomp.Translator.Constprop.{
  Image, contains, image_read16, transfer, transfer_op, known, walk, answer, constant_at,
}
use dream_recomp.Translator.Constprop.Agree.{Agree, Agree-get, Holds}
use dream_recomp.Translator.Constprop.Sound.{Sound, Shows, tracked}
use dream_recomp.Translator.Constprop.Sound.Moves.{exec_op-Sound}
use dream_recomp.Translator.Constprop.Shape.{decode-Shaped}

-- The operations of a block that the analysis may take as it does.
abbrev pub straight : Op.Op → Bool
straight op = tracked op && (not (has_delay_slot op) && not (is_cond op))

parts : (a b c : Bool) → a && (not b && not c) ≡ true → (a ≡ true) × (b ≡ false) × (c ≡ false)
parts true false false h = (refl, refl, refl)
parts true false true h = absurd (true≢false (sym h))
parts true true c h = absurd (true≢false (sym h))
parts false b c h = absurd (true≢false (sym h))

if_some {ℓ} :
    {A : Type ℓ} (b : Bool) (o : Option A) (a : A)
    → (if b then o else none) ≡ some a
    → (b ≡ true) × (o ≡ some a)
if_some true o a e = (refl, e)
if_some false o a e = ground arith

Agree-unknown : (vs : List ℕ) → Agree (replicate (length vs) none) vs
Agree-unknown [] = tt
Agree-unknown (v ∷ vs) = (tt, Agree-unknown vs)

module _ {M : Type 0} (memory : Memory M) (abi : Abi M) (floats : Floats) (opt : Options)
    (return_to : ℕ) (img : Image) where
  -- A number of turns of the loop along a block, over instructions of the image that the guest reads
  -- as they stand there.
  pub data Straight : ℕ → Session M → Session M → Type 0 where
    arrived : {x : Session M} → Straight zero x x
    turned :
        {k : ℕ} {x y z : Session M}
        → Shows memory img x.state
        → Shows memory img (fetch memory abi floats opt return_to x.state.ctx.pc x).0.state
        → straight (decode (image_read16 img x.state.ctx.pc)).op ≡ true
        → turn memory abi floats opt return_to x ≡ some (going y)
        → Straight k y z
        → Straight (suc k) x z

  -- What is known holds after a turn, and the turn has gone to `next`.
  abbrev After : List (Option ℕ) → ℕ → Option (Turn M) → Type 0
  After os next none = Unit
  After os next (some (stopped why y)) = Unit
  After os next (some (going y)) = Agree os y.state.ctx.r × (y.state.ctx.pc ≡ next)

  plain_turn-After :
      (os : List (Option ℕ)) (pc : ℕ) (o : Option (State M)) (x : Session M)
      → Sound os o
      → After os (u32 (pc + 2)) (plain_turn memory abi floats opt return_to pc o x)
  unfolding plain_turn continue_at with_state
  plain_turn-After os pc none x h = tt
  plain_turn-After os pc (some s) x h = (h, refl)

  dispatch-After :
      (os : List (Option ℕ)) (pc : ℕ) (x : Session M) (w : ℕ)
      → Agree os x.state.ctx.r
      → Shows memory img x.state
      → straight (decode w).op ≡ true
      → After
          (transfer img false pc (decode w) os)
          (u32 (pc + 2))
          (dispatch memory abi floats opt return_to pc (x, decode w))
  unfolding dispatch transfer exec
  dispatch-After os pc x w h shows s =
      let ins = decode w in
      let (follows, no_slot, no_branch) =
        parts (tracked ins.op) (has_delay_slot ins.op) (is_cond ins.op) s in
      let plain =
        plain_turn-After (transfer_op img false pc ins.op ins os) pc
          (exec memory abi floats pc ins x.state) x
          (exec_op-Sound memory abi floats img pc ins.op ins os x.state h follows (decode-Shaped w)
            shows) in
      rw (no_slot, no_branch) plain

  turn-After :
      (os : List (Option ℕ)) (x : Session M)
      → Agree os x.state.ctx.r
      → contains img x.state.ctx.pc 2 ≡ true
      → Shows memory img x.state
      → Shows memory img (fetch memory abi floats opt return_to x.state.ctx.pc x).0.state
      → straight (decode (image_read16 img x.state.ctx.pc)).op ≡ true
      → After
          (transfer img false x.state.ctx.pc (decode (image_read16 img x.state.ctx.pc)) os)
          (u32 (x.state.ctx.pc + 2))
          (turn memory abi floats opt return_to x)
  unfolding turn fetch load16 after_access
  turn-After os x h inside shows fetched s =
      let pc = x.state.ctx.pc in
      let w = image_read16 img pc in
      let x' = (fetch memory abi floats opt return_to pc x).0 in
      let next =
        subst
          (λ v.
            After (transfer img false pc (decode w) os) (u32 (pc + 2))
              (dispatch memory abi floats opt return_to pc (x', decode v)))
          (sym (shows.shows16 pc inside)) (dispatch-After os pc x' w h fetched s) in
      elim (Bool-cases (at_limit memory abi floats opt return_to x)) [
        | inl full ↦ rw full tt
        | inr below ↦ rw below next
      ]

  walk-Agree :
      {k : ℕ} (os os' : List (Option ℕ)) {x y : Session M}
      → Straight k x y
      → x.state.ctx.pc + 2 * k < 2 ^ 32
      → Agree os x.state.ctx.r
      → walk k img false x.state.ctx.pc os ≡ some os'
      → Agree os' y.state.ctx.r
  unfolding walk
  walk-Agree os os' {x} arrived small h e =
      subst (λ r. Agree r x.state.ctx.r) (some-injective os os' e) h
  walk-Agree os os' (turned {k} {x} {y} shows fetched s t rest) small h e =
      let pc = x.state.ctx.pc in
      let os1 = transfer img false pc (decode (image_read16 img pc)) os in
      let (inside, on) = if_some (contains img pc 2) (walk k img false (pc + 2) os1) os' e in
      let (known1, there) =
        subst (After os1 (u32 (pc + 2))) t (turn-After os x h inside shows fetched s) in
      let next : y.state.ctx.pc ≡ pc + 2 = omega (arith, there) in
      walk-Agree os1 os' rest (omega (arith, next)) known1
        (subst (λ q. walk k img false q os1 ≡ some os') (sym next) on)

  answer-known :
      (o : Option (List (Option ℕ))) (reg v : ℕ)
      → answer reg o ≡ some v
      → (os : List (Option ℕ)) × ((o ≡ some os) × (known os (bit_and reg 15) ≡ some v))
  unfolding answer
  answer-known none reg v h = ground arith
  answer-known (some os) reg v h = (os, (refl, h))

  -- A constant that the analysis finds in register `reg & 15` at `pc`, without the guess for OR, is
  -- what the register holds when the interpreter gets there: after the turns of its loop over the
  -- instructions from the block's start to `pc`. Conditions: the context has 16 registers, the PC
  -- is at the block's start, which is below 2 ^ 32 as `pc` is below 2 ^ 32 - 1; in each of these
  -- turns the guest reads the image's addresses as the image has them, before the fetch and after
  -- it, and the instruction is no branch, TRAPA, SLEEP, LDC Rm,SR or post-increment load of a
  -- system register.
  pub constant_at_sound :
      (start pc reg v : ℕ) (x y : Session M)
      → length x.state.ctx.r ≡ 16
      → x.state.ctx.pc ≡ start
      → start < 2 ^ 32
      → pc + 1 < 2 ^ 32
      → Straight ((pc + 1 - start) / 2) x y
      → constant_at img start pc reg false ≡ some v
      → get_or y.state.ctx.r (bit_and reg 15) 0 ≡ v
  unfolding constant_at
  constant_at_sound start pc reg v x y sixteen at low high run found =
      let (os, (walked, held)) =
        answer-known (walk ((pc + 1 - start) / 2) img false start (replicate 16 none)) reg v
          found in
      let unknown =
        subst (λ n. Agree (replicate n none) x.state.ctx.r) sixteen (Agree-unknown x.state.ctx.r) in
      let agree = walk-Agree (replicate 16 none) os run (omega (arith, at)) unknown (
        subst (λ q. walk ((pc + 1 - start) / 2) img false q (replicate 16 none) ≡ some os) (sym at)
          walked) in
      subst (λ o. Holds o (get_or y.state.ctx.r (bit_and reg 15) 0)) held
        (Agree-get os y.state.ctx.r (bit_and reg 15) agree)
