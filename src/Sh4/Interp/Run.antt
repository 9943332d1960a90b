-- ===== src/Sh4/Interp/Run.antt =====
-- runtime/src/devinterp/interpreter.cpp and interpreter.h: `run`. One turn of its loop is `turn`,
-- and an exception that leaves `run` is `none`. The trace on stderr is left out.
pub mod Limit
use dream_recomp.Base.{
  ℕ, zero, suc, ◌+◌, ◌%◌, ◌^◌, Bool, true, false, not, ◌&&◌, ◌||◌, ◌==◌, ltb, leb, if◌then◌else◌,
  Option, none, some,
}
use dream_recomp.Base.Bits.{u32}
use dream_recomp.Sh4.Ctx.{Ctx}
use dream_recomp.Sh4.Memory.{Memory}
use dream_recomp.Sh4.State.{State, reg, set_ctx, load16}
use dream_recomp.Sh4.Float.{Floats}
use dream_recomp.Sh4.Interp.System.{Abi, Called, returned, nonlocal}
use dream_recomp.Sh4.Interp.Moves.{exec}
use dream_recomp.Translator.Decoder.{Instr, decode, has_delay_slot, pcrel_target}
use dream_recomp.Translator.Decoder.Op

pub record Options : Type 0 where
  pub call_translated : Bool
  pub native_lo : ℕ
  pub native_hi : ℕ
  pub catch_nonlocal : Bool
  pub max_instructions : ℕ

pub data Stop : Type 0 where
  stop_returned stop_rte step_limit : Stop

-- The machine with the counters of `Stats`. Nested runs that share the counters are not modelled.
pub record Session (M : Type 0) : Type 0 where
  pub state : State M
  pub runs : ℕ
  pub instructions : ℕ
  pub native_calls : ℕ

pub data Turn (M : Type 0) : Type 0 where
  going : Session M → Turn M
  stopped : Stop → Session M → Turn M

pub data Flow : Type 0 where
  flow_jump flow_call flow_ret flow_rte : Flow

pub record Branch : Type 0 where
  pub taken : Bool
  pub target : ℕ
  pub flow : Flow

abbrev pub native_ok_for : Options → ℕ → Bool
native_ok_for opt t = opt.call_translated || (leb opt.native_lo t && ltb t opt.native_hi)

module _ {M : Type 0} where
  abbrev pub set_pc : ℕ → State M → State M
  set_pc t s = set_ctx (record s.ctx { pc = t }) s

  unfoldable pub with_state : Session M → State M → Session M
  with_state x s = record x { state = s }

  unfoldable pub continue_at : Session M → Option (State M) → Option (Turn M)
  continue_at x none = none
  continue_at x (some s) = some (going (with_state x s))

  -- `++st.native_calls`.
  unfoldable pub count_native : Session M → Session M
  count_native x = record x { native_calls = (x.native_calls + 1) % 2 ^ 64 }

  abbrev link : ℕ → State M → State M
  link pc s = set_ctx (record s.ctx { pr = u32 (pc + 4) }) s

  -- The first `switch`: what a delayed branch reads and writes before its slot runs.
  unfoldable pub read_branch : Op.Op → Instr → ℕ → State M → Option (Branch × State M)
  read_branch Op.bt_s ins pc s =
      some
        (record { taken = not (s.ctx.t == 0); target = pcrel_target ins pc; flow = flow_jump }, s)
  read_branch Op.bf_s ins pc s =
      some (record { taken = s.ctx.t == 0; target = pcrel_target ins pc; flow = flow_jump }, s)
  read_branch Op.bra ins pc s =
      some (record { taken = true; target = pcrel_target ins pc; flow = flow_jump }, s)
  read_branch Op.braf ins pc s =
      some (record { taken = true; target = u32 (pc + 4 + reg s ins.m); flow = flow_jump }, s)
  read_branch Op.jmp ins pc s =
      some (record { taken = true; target = reg s ins.m; flow = flow_jump }, s)
  read_branch Op.bsr ins pc s =
      some (record { taken = true; target = pcrel_target ins pc; flow = flow_call }, link pc s)
  read_branch Op.bsrf ins pc s =
      some
        (record { taken = true; target = u32 (pc + 4 + reg s ins.m); flow = flow_call }, link pc s)
  read_branch Op.jsr ins pc s =
      some (record { taken = true; target = reg s ins.m; flow = flow_call }, link pc s)
  read_branch Op.rts ins pc s =
      some (record { taken = true; target = s.ctx.pr; flow = flow_ret }, s)
  read_branch Op.rte ins pc s = some (record { taken = true; target = 0; flow = flow_rte }, s)
  read_branch op ins pc s = none

unfoldable pub is_cond : Op.Op → Bool
is_cond Op.bt = true
is_cond Op.bf = true
is_cond op = false

unfoldable pub cond_taken : Op.Op → ℕ → Bool
cond_taken Op.bt t = not (t == 0)
cond_taken op t = t == 0

unfoldable pub is_computed : Op.Op → Bool
is_computed Op.jmp = true
is_computed Op.braf = true
is_computed Op.rte = true
is_computed op = false

unfoldable pub is_rte : Op.Op → Bool
is_rte Op.rte = true
is_rte op = false

module _ {M : Type 0} (memory : Memory M) (abi : Abi M) (floats : Floats) (opt : Options)
    (return_to : ℕ) where
  open abi use {deliver_irq, rte, find_function, trace_return}

  unfoldable pub poll : State M → Option (State M)
  poll s = if leb s.ctx.next_event s.ctx.cycles then deliver_irq s else some s

  -- `c.pc = t; if (t <= pc) poll()`.
  unfoldable pub go_to : ℕ → ℕ → State M → Option (State M)
  go_to pc t s = if leb t pc then poll (set_pc t s) else some (set_pc t s)

  -- `fetch`, with the counters that are advanced after it.
  unfoldable pub fetch : ℕ → Session M → Session M × Instr
  fetch pc x =
      let (s, w) = load16 memory pc x.state in
      (
        record x {
          state = set_ctx (record s.ctx { cycles = (s.ctx.cycles + 1) % 2 ^ 64 }) s;
          instructions = (x.instructions + 1) % 2 ^ 64;
        },
        decode w,
      )

  -- What follows a call of translated code from a computed jump: `true` is a caught non-local
  -- return. In `after_tail` the code has returned to its PR.
  unfoldable pub after_tail : Session M → Option (Called M) → Option (Turn M)
  after_tail x none = none
  after_tail x (some (nonlocal t s)) =
      if opt.catch_nonlocal then continue_at x (poll (set_pc t s)) else none
  after_tail x (some (returned s)) =
      if s.ctx.pr == return_to
      then some (stopped stop_returned (with_state x s))
      else continue_at x (poll (set_pc s.ctx.pr s))

  unfoldable pub after_call : ℕ → Session M → Option (Called M) → Option (Turn M)
  after_call pc x none = none
  after_call pc x (some (nonlocal t s)) =
      if opt.catch_nonlocal then continue_at x (poll (set_pc t s)) else none
  after_call pc x (some (returned s)) = continue_at x (poll (set_pc (u32 (pc + 4)) s))

  -- `find_function` where native calls are allowed for the target.
  unfoldable pub native_of : Bool → ℕ → State M → Option (State M → Option (Called M))
  native_of allowed t s = if allowed && native_ok_for opt t then find_function t s else none

  unfoldable pub jump_native :
      ℕ → ℕ → Session M → Option (State M → Option (Called M)) → Option (Turn M)
  jump_native pc t x (some fn) = after_tail (count_native x) (fn (set_pc t x.state))
  jump_native pc t x none = continue_at x (go_to pc t x.state)

  unfoldable pub call_native :
      ℕ → ℕ → Session M → Option (State M → Option (Called M)) → Option (Turn M)
  call_native pc t x (some fn) = after_call pc (count_native x) (fn (set_pc pc x.state))
  call_native pc t x none = continue_at x (some (set_pc t x.state))

  unfoldable pub do_jump : Op.Op → ℕ → Bool → ℕ → Session M → Option (Turn M)
  do_jump op pc taken t x =
      if not taken
      then continue_at x (some (set_pc (u32 (pc + 4)) x.state))
      else if t == return_to && not (is_rte op)
      then some (stopped stop_returned x)
      else jump_native pc t x (native_of (is_computed op) t x.state)

  unfoldable pub do_return : ℕ → ℕ → Session M → Option (Turn M)
  do_return pc t x =
      let s = trace_return pc x.state in
      if t == return_to
      then some (stopped stop_returned (with_state x s))
      else continue_at x (poll (set_pc t s))

  -- An RTE that does not end the run is a jump to the PC that it has set.
  unfoldable pub after_rte : Op.Op → ℕ → Session M → Option (State M × Bool) → Option (Turn M)
  after_rte op pc x none = none
  after_rte op pc x (some (s, true)) = some (stopped stop_rte (with_state x s))
  after_rte op pc x (some (s, false)) = do_jump op pc true s.ctx.pc (with_state x s)

  unfoldable pub transfer : Op.Op → ℕ → Branch → Flow → Session M → Option (Turn M)
  transfer op pc b flow_rte x = after_rte op pc x (rte (set_pc pc x.state))
  transfer op pc b flow_jump x = do_jump op pc b.taken b.target x
  transfer op pc b flow_call x = call_native pc b.target x (native_of true b.target x.state)
  transfer op pc b flow_ret x = do_return pc b.target x

  unfoldable pub after_slot : Op.Op → ℕ → Branch → Session M → Option (State M) → Option (Turn M)
  after_slot op pc b x none = none
  after_slot op pc b x (some s) = transfer op pc b b.flow (with_state x s)

  -- The slot of a delayed branch, which may be no branch itself.
  unfoldable pub run_slot :
      Op.Op → ℕ → Instr → Session M → Option (Branch × State M) → Option (Turn M)
  run_slot op pc slot x none = none
  run_slot op pc slot x (some (b, s)) =
      if has_delay_slot slot.op || is_cond slot.op
      then none
      else after_slot op pc b x (exec memory abi floats (u32 (pc + 2)) slot s)

  unfoldable pub delayed_turn : ℕ → Instr → Session M → Option (Turn M)
  delayed_turn pc ins x =
      let (x', slot) = fetch (u32 (pc + 2)) x in
      run_slot ins.op pc slot x' (read_branch ins.op ins pc x'.state)

  unfoldable pub cond_turn : ℕ → Instr → Session M → Option (Turn M)
  cond_turn pc ins x =
      let s = x.state in
      let t = pcrel_target ins pc in
      let ticked = set_ctx (record s.ctx { cycles = (s.ctx.cycles + 1) % 2 ^ 64 }) s in
      if not (cond_taken ins.op s.ctx.t)
      then continue_at x (some (set_pc (u32 (pc + 2)) s))
      else if t == return_to
      then some (stopped stop_returned (with_state x ticked))
      else continue_at x (go_to pc t ticked)

  unfoldable pub plain_turn : ℕ → Option (State M) → Session M → Option (Turn M)
  plain_turn pc none x = none
  plain_turn pc (some s) x = continue_at x (some (set_pc (u32 (pc + 2)) s))

  unfoldable pub dispatch : ℕ → Session M × Instr → Option (Turn M)
  dispatch pc (x, ins) =
      if has_delay_slot ins.op
      then delayed_turn pc ins x
      else if is_cond ins.op
      then cond_turn pc ins x
      else plain_turn pc (exec memory abi floats pc ins x.state) x

  unfoldable pub at_limit : Session M → Bool
  at_limit x = not (opt.max_instructions == 0) && leb opt.max_instructions x.instructions

  -- One turn of `for (;;)`.
  unfoldable pub turn : Session M → Option (Turn M)
  turn x =
      if at_limit x
      then some (stopped step_limit x)
      else let pc = x.state.ctx.pc in dispatch pc (fetch pc x)

-- How `run` ends: it stops, it raises, or the fuel is used up.
pub data Outcome (M : Type 0) : Type 0 where
  ended : Stop → Session M → Outcome M
  raised : Outcome M
  out_of_fuel : Outcome M

module _ {M : Type 0} (memory : Memory M) (abi : Abi M) (floats : Floats) (opt : Options)
    (return_to : ℕ) where
  unfoldable pub loop : ℕ → Option (Turn M) → Outcome M
  loop fuel none = raised
  loop fuel (some (stopped why x)) = ended why x
  loop zero (some (going x)) = out_of_fuel
  loop (suc fuel) (some (going x)) = loop fuel (turn memory abi floats opt return_to x)

  -- `run`, with the turns that the loop may take.
  unfoldable pub run : ℕ → Session M → Outcome M
  run fuel x =
      let x' = record x { runs = (x.runs + 1) % 2 ^ 64 } in
      loop fuel (continue_at x' (poll memory abi floats opt return_to x'.state))
