-- ===== src/Sh4/Interp/Run/Limit.antt =====
-- The step limit of the interpreter's loop: how the counter of instructions moves in one turn, and
-- how far it gets.
use dream_recomp.Base.{
  ℕ, zero, suc, ◌+◌, ◌%◌, ◌^◌, ◌≤◌, ◌<◌, ◌≡◌, refl, sym, ◌⊎◌, inl, inr, arith, Bool, true, false,
  not, ◌&&◌, ◌||◌, ◌==◌, Bool-cases, if◌then◌else◌, Option, none, some,
}
use dream_recomp.Base.Bits.{u32}
use dream_recomp.Sh4.Memory.{Memory}
use dream_recomp.Sh4.State.{State}
use dream_recomp.Sh4.Float.{Floats}
use dream_recomp.Sh4.Interp.System.{Abi, Called, returned, nonlocal}
use dream_recomp.Sh4.Interp.Moves.{exec}
use dream_recomp.Translator.Decoder.{Instr, has_delay_slot}
use dream_recomp.Translator.Decoder.Op
use dream_recomp.Sh4.Interp.Run.{
  Options, step_limit, stop_returned, stop_rte, Session, Turn, going, stopped, Flow, flow_jump,
  flow_call, flow_ret, flow_rte, Branch, Outcome, ended, raised, out_of_fuel, set_pc, with_state,
  continue_at, count_native, poll, fetch, after_tail, after_call, native_of, jump_native,
  call_native, do_jump, do_return, after_rte, transfer, after_slot, run_slot, delayed_turn,
  cond_turn, plain_turn, dispatch, at_limit, turn, loop, run, is_cond, read_branch,
}

module _ {M : Type 0} where
  -- The counter after what follows a fetch, where it does not raise; it never stops at the limit.
  abbrev Spent : ℕ → Option (Turn M) → Type 0
  Spent k none = Unit
  Spent k (some (going x)) = x.instructions ≡ k
  Spent k (some (stopped step_limit x)) = ⊥
  Spent k (some (stopped why x)) = x.instructions ≡ k

  if-Spent :
      (b : Bool) (k : ℕ) (u v : Option (Turn M))
      → Spent k u
      → Spent k v
      → Spent k (if b then u else v)
  if-Spent true k u v p q = p
  if-Spent false k u v p q = q

  continue_at-Spent :
      (x : Session M) (o : Option (State M)) → Spent x.instructions (continue_at x o)
  unfolding continue_at with_state
  continue_at-Spent x none = tt
  continue_at-Spent x (some s) = refl

module _ {M : Type 0} (memory : Memory M) (abi : Abi M) (floats : Floats) (opt : Options)
    (return_to : ℕ) where
  after_tail-Spent :
      (x : Session M) (o : Option (Called M))
      → Spent x.instructions (after_tail memory abi floats opt return_to x o)
  unfolding after_tail with_state
  after_tail-Spent x none = tt
  after_tail-Spent x (some (nonlocal t s)) =
      if-Spent opt.catch_nonlocal x.instructions _ none (continue_at-Spent x _) tt
  after_tail-Spent x (some (returned s)) =
      if-Spent (s.ctx.pr == return_to) x.instructions _ _ refl (continue_at-Spent x _)

  after_call-Spent :
      (pc : ℕ) (x : Session M) (o : Option (Called M))
      → Spent x.instructions (after_call memory abi floats opt return_to pc x o)
  unfolding after_call
  after_call-Spent pc x none = tt
  after_call-Spent pc x (some (nonlocal t s)) =
      if-Spent opt.catch_nonlocal x.instructions _ none (continue_at-Spent x _) tt
  after_call-Spent pc x (some (returned s)) = continue_at-Spent x _

  jump_native-Spent :
      (pc t : ℕ) (x : Session M) (o : Option (State M → Option (Called M)))
      → Spent x.instructions (jump_native memory abi floats opt return_to pc t x o)
  unfolding jump_native count_native
  jump_native-Spent pc t x (some fn) = after_tail-Spent (count_native x) (fn (set_pc t x.state))
  jump_native-Spent pc t x none = continue_at-Spent x _

  call_native-Spent :
      (pc t : ℕ) (x : Session M) (o : Option (State M → Option (Called M)))
      → Spent x.instructions (call_native memory abi floats opt return_to pc t x o)
  unfolding call_native count_native
  call_native-Spent pc t x (some fn) = after_call-Spent pc (count_native x) (fn (set_pc pc x.state))
  call_native-Spent pc t x none = continue_at-Spent x _

  do_jump-Spent :
      (op : Op.Op) (pc : ℕ) (taken : Bool) (t : ℕ) (x : Session M)
      → Spent x.instructions (do_jump memory abi floats opt return_to op pc taken t x)
  unfolding do_jump
  do_jump-Spent op pc taken t x = if-Spent (not taken) x.instructions _ _ (continue_at-Spent x _) (
      if-Spent (t == return_to && _) x.instructions _ _ refl
        (jump_native-Spent pc t x (native_of memory abi floats opt return_to _ t x.state)))

  do_return-Spent :
      (pc t : ℕ) (x : Session M)
      → Spent x.instructions (do_return memory abi floats opt return_to pc t x)
  unfolding do_return with_state
  do_return-Spent pc t x = if-Spent (t == return_to) x.instructions _ _ refl (continue_at-Spent x _)

  after_rte-Spent :
      (op : Op.Op) (pc : ℕ) (x : Session M) (o : Option (State M × Bool))
      → Spent x.instructions (after_rte memory abi floats opt return_to op pc x o)
  unfolding after_rte with_state
  after_rte-Spent op pc x none = tt
  after_rte-Spent op pc x (some (s, true)) = refl
  after_rte-Spent op pc x (some (s, false)) = do_jump-Spent op pc true s.ctx.pc (with_state x s)

  transfer-Spent :
      (op : Op.Op) (pc : ℕ) (b : Branch) (flow : Flow) (x : Session M)
      → Spent x.instructions (transfer memory abi floats opt return_to op pc b flow x)
  unfolding transfer
  transfer-Spent op pc b flow_rte x = after_rte-Spent op pc x _
  transfer-Spent op pc b flow_jump x = do_jump-Spent op pc b.taken b.target x
  transfer-Spent op pc b flow_call x = call_native-Spent pc b.target x _
  transfer-Spent op pc b flow_ret x = do_return-Spent pc b.target x

  after_slot-Spent :
      (op : Op.Op) (pc : ℕ) (b : Branch) (x : Session M) (o : Option (State M))
      → Spent x.instructions (after_slot memory abi floats opt return_to op pc b x o)
  unfolding after_slot with_state
  after_slot-Spent op pc b x none = tt
  after_slot-Spent op pc b x (some s) = transfer-Spent op pc b b.flow (with_state x s)

  run_slot-Spent :
      (op : Op.Op) (pc : ℕ) (slot : Instr) (x : Session M) (o : Option (Branch × State M))
      → Spent x.instructions (run_slot memory abi floats opt return_to op pc slot x o)
  unfolding run_slot
  run_slot-Spent op pc slot x none = tt
  run_slot-Spent op pc slot x (some (b, s)) =
      if-Spent (has_delay_slot slot.op || is_cond slot.op) x.instructions none _ tt
        (after_slot-Spent op pc b x _)

  cond_turn-Spent :
      (pc : ℕ) (ins : Instr) (x : Session M)
      → Spent x.instructions (cond_turn memory abi floats opt return_to pc ins x)
  unfolding cond_turn with_state
  cond_turn-Spent pc ins x =
      if-Spent (not _) x.instructions _ _ (continue_at-Spent x _)
        (if-Spent (_ == return_to) x.instructions _ _ refl (continue_at-Spent x _))

  plain_turn-Spent :
      (pc : ℕ) (o : Option (State M)) (x : Session M)
      → Spent x.instructions (plain_turn memory abi floats opt return_to pc o x)
  unfolding plain_turn
  plain_turn-Spent pc none x = tt
  plain_turn-Spent pc (some s) x = continue_at-Spent x _

  -- A turn counts one instruction, or two for a delayed branch.
  Turned : ℕ → Option (Turn M) → Type 0
  Turned i o = Spent (i + 1) o ⊎ Spent (i + 2) o

  fetch-count :
      (pc : ℕ) (x : Session M)
      → x.instructions + 1 < 2 ^ 64
      → (fetch memory abi floats opt return_to pc x).0.instructions ≡ x.instructions + 1
  unfolding fetch
  fetch-count pc x h = omega arith

  delayed_turn-Spent :
      (pc : ℕ) (ins : Instr) (x : Session M)
      → x.instructions + 1 < 2 ^ 64
      → Spent (x.instructions + 1) (delayed_turn memory abi floats opt return_to pc ins x)
  unfolding delayed_turn
  delayed_turn-Spent pc ins x h =
      let (x', slot) = fetch memory abi floats opt return_to (u32 (pc + 2)) x in
      rw (sym (fetch-count (u32 (pc + 2)) x h))
        (run_slot-Spent ins.op pc slot x' (read_branch ins.op ins pc x'.state))

  -- After the fetch the counter stands at `i + 1`.
  dispatch-Turned :
      (pc i : ℕ) (x : Session M) (ins : Instr)
      → x.instructions ≡ i + 1
      → i + 2 < 2 ^ 64
      → Turned i (dispatch memory abi floats opt return_to pc (x, ins))
  unfolding dispatch Turned
  dispatch-Turned pc i x ins e h = elim (Bool-cases (has_delay_slot ins.op)) [
    | inl delayed ↦
        let two : i + 2 ≡ x.instructions + 1 = omega arith in
        inr (rw delayed (rw two (delayed_turn-Spent pc ins x (omega arith))))
    | inr other ↦ inl (
        rw other (
          rw (sym e) (
            if-Spent (is_cond ins.op) x.instructions _ _ (cond_turn-Spent pc ins x)
              (plain_turn-Spent pc (exec memory abi floats pc ins x.state) x))))
  ]

  turn-Turned :
      (x : Session M)
      → x.instructions + 2 < 2 ^ 64
      → at_limit memory abi floats opt return_to x ≡ false
      → Turned x.instructions (turn memory abi floats opt return_to x)
  unfolding turn
  turn-Turned x h low =
      let pc = x.state.ctx.pc in
      let (x', ins) = fetch memory abi floats opt return_to pc x in
      rw low (dispatch-Turned pc x.instructions x' ins (fetch-count pc x (omega arith)) h)

  -- With fuel for every count up to the limit, the loop stops within one instruction of it.
  Fuelled : ℕ → Option (Turn M) → Type 0
  Fuelled fuel none = Unit
  Fuelled fuel (some (stopped step_limit x)) =
      (opt.max_instructions ≤ x.instructions) × (x.instructions ≤ opt.max_instructions + 1)
  Fuelled fuel (some (stopped why x)) = x.instructions ≤ opt.max_instructions + 1
  Fuelled fuel (some (going x)) =
      (x.instructions ≤ opt.max_instructions + 1)
      × (opt.max_instructions + 2 ≤ x.instructions + fuel)

  -- An end within the limit: never for want of fuel, and at the limit only once it is reached.
  unfoldable pub Within : Outcome M → Type 0
  Within (ended step_limit x) =
      (opt.max_instructions ≤ x.instructions) × (x.instructions ≤ opt.max_instructions + 1)
  Within (ended why x) = x.instructions ≤ opt.max_instructions + 1
  Within raised = Unit
  Within out_of_fuel = ⊥

  -- Between two turns below the limit.
  Turned-Fuelled :
      (fuel i : ℕ) (o : Option (Turn M))
      → i < opt.max_instructions
      → opt.max_instructions + 2 ≤ i + suc fuel
      → Turned i o
      → Fuelled fuel o
  unfolding Fuelled Turned
  Turned-Fuelled fuel i none low enough t = tt
  Turned-Fuelled fuel i (some (going x)) low enough t = ground arith
  Turned-Fuelled fuel i (some (stopped stop_returned x)) low enough t = ground arith
  Turned-Fuelled fuel i (some (stopped stop_rte x)) low enough t = ground arith
  Turned-Fuelled fuel i (some (stopped step_limit x)) low enough (inl t) = elim t [ ]
  Turned-Fuelled fuel i (some (stopped step_limit x)) low enough (inr t) = elim t [ ]

  limit_reached :
      (x : Session M)
      → at_limit memory abi floats opt return_to x ≡ true
      → opt.max_instructions ≤ x.instructions
  unfolding at_limit
  limit_reached x full = ground arith

  limit_ahead :
      (x : Session M)
      → 0 < opt.max_instructions
      → at_limit memory abi floats opt return_to x ≡ false
      → x.instructions < opt.max_instructions
  unfolding at_limit
  limit_ahead x p low = ground arith

  turn-Fuelled :
      (fuel : ℕ) (x : Session M)
      → 0 < opt.max_instructions
      → opt.max_instructions + 2 < 2 ^ 64
      → x.instructions ≤ opt.max_instructions + 1
      → opt.max_instructions + 2 ≤ x.instructions + suc fuel
      → Fuelled fuel (turn memory abi floats opt return_to x)
  unfolding turn Fuelled
  turn-Fuelled fuel x some_limit range low enough =
      elim (Bool-cases (at_limit memory abi floats opt return_to x)) [
        | inl full ↦ rw full (limit_reached x full, low)
        | inr below ↦
            Turned-Fuelled fuel x.instructions (turn memory abi floats opt return_to x)
              (limit_ahead x some_limit below) enough
              (turn-Turned x (omega (arith, limit_ahead x some_limit below)) below)
      ]

  loop-Within :
      (fuel : ℕ) (o : Option (Turn M))
      → 0 < opt.max_instructions
      → opt.max_instructions + 2 < 2 ^ 64
      → Fuelled fuel o
      → Within (loop memory abi floats opt return_to fuel o)
  unfolding loop Fuelled Within
  loop-Within fuel none p q h = tt
  loop-Within fuel (some (stopped stop_returned x)) p q h = h
  loop-Within fuel (some (stopped stop_rte x)) p q h = h
  loop-Within fuel (some (stopped step_limit x)) p q h = h
  loop-Within zero (some (going x)) p q h = absurd (omega arith)
  loop-Within (suc fuel) (some (going x)) p q h =
      loop-Within fuel (turn memory abi floats opt return_to x) p q
        (turn-Fuelled fuel x p q h.0 h.1)

  continue_at-Fuelled :
      (fuel : ℕ) (x : Session M) (o : Option (State M))
      → x.instructions ≤ opt.max_instructions + 1
      → opt.max_instructions + 2 ≤ x.instructions + fuel
      → Fuelled fuel (continue_at x o)
  unfolding continue_at with_state Fuelled
  continue_at-Fuelled fuel x none low enough = tt
  continue_at-Fuelled fuel x (some s) low enough = (low, enough)

  -- With a limit L of instructions, 0 < L and L + 2 < 2 ^ 64, and a counter of at most L + 1 at the
  -- start, a run with at least L + 2 turns less the counter never runs out of turns: it raises, or
  -- it stops with a counter of at most L + 1, and as `step_limit` only with one of at least L.
  pub run-Within :
      (fuel : ℕ) (x : Session M)
      → 0 < opt.max_instructions
      → opt.max_instructions + 2 < 2 ^ 64
      → x.instructions ≤ opt.max_instructions + 1
      → opt.max_instructions + 2 ≤ x.instructions + fuel
      → Within (run memory abi floats opt return_to fuel x)
  unfolding run
  run-Within fuel x some_limit range low enough =
      let x' = record x { runs = (x.runs + 1) % 2 ^ 64 } in
      loop-Within fuel (continue_at x' (poll memory abi floats opt return_to x'.state)) some_limit
        range (continue_at-Fuelled fuel x' _ low enough)
