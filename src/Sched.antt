-- ===== src/Sched.antt =====
-- runtime/include/dream/runtime/sched/scheduler.h and runtime/src/sched/scheduler.cpp. Time is 64 bits
-- of SH-4 cycles. An event is its deadline; the callbacks are one function of the event's number,
-- on the scheduler and a `world` that holds the rest of the runtime.
pub mod Earliest
pub mod Advance
mod Examples
use dream_recomp.Base.{
  ℕ, zero, suc, ◌+◌, ◌-◌, ◌%◌, ◌^◌, Bool, not, ◌||◌, ◌==◌, ltb, if◌then◌else◌, Option, none, some,
  List, [], ◌∷◌, ◌++◌, length, get_or, set,
}

abbrev pub never : ℕ
never = 2 ^ 64 - 1

pub record Scheduler (W : Type 0) : Type 0 where
  pub events : List ℕ
  pub now : ℕ
  pub world : W

-- An index with a deadline.
pub record Due : Type 0 where
  pub idx : ℕ
  pub best : ℕ

-- The loop of `advance_to` over the deadlines from the `i`-th on.
unfoldable pub scan : List ℕ → ℕ → Due → Due
scan [] i d = d
scan (e ∷ es) i d = scan es (i + 1) (if ltb e d.best then record { idx = i; best = e } else d)

-- The loop of `next_deadline`.
unfoldable pub least : List ℕ → ℕ → ℕ
least [] best = best
least (e ∷ es) best = least es (if ltb e best then e else best)

module _ {W : Type 0} where
  pub add : Scheduler W → Scheduler W × ℕ
  add s = (record s { events = s.events ++ never ∷ [] }, length s.events)

  unfoldable pub request : ℕ → ℕ → Scheduler W → Scheduler W
  request id cycles s = record s {
    events = set s.events id (if cycles == never then never else (s.now + cycles) % 2 ^ 64);
  }

  unfoldable pub cancel : ℕ → Scheduler W → Scheduler W
  cancel id s = request id never s

  unfoldable pub deadline : ℕ → Scheduler W → ℕ
  deadline id s = get_or s.events id never

  pub armed : ℕ → Scheduler W → Bool
  armed id s = not (deadline id s == never)

  pub next_deadline : Scheduler W → ℕ
  next_deadline s = least s.events never

  unfoldable pub earliest : Scheduler W → Due
  earliest s = scan s.events 0 (record { idx = length s.events; best = never })

module _ {W : Type 0} (callback : ℕ → ℕ → ℕ → Scheduler W → Scheduler W) where
  -- The part of the loop after the test: move the clock, disarm the event and call it.
  unfoldable pub fire : Due → Scheduler W → Scheduler W
  fire d s =
      let late : ℕ = if ltb d.best s.now then s.now - d.best else 0 in
      let now : ℕ = if ltb s.now d.best then d.best else s.now in
      callback d.idx now late (record s { now = now; events = set s.events d.idx never })

  unfoldable pub stops : ℕ → Scheduler W → Bool
  stops target s = let d = earliest s in (d.idx == length s.events) || ltb target d.best

  -- `none` means that the fuel ran out.
  unfoldable pub advance_to : ℕ → ℕ → Scheduler W → Option (Scheduler W)
  advance_to zero target s = none
  advance_to (suc fuel) target s =
      let rest = advance_to fuel target (fire (earliest s) s) in
      if stops target s
      then some (record s { now = if ltb s.now target then target else s.now })
      else rest

  pub advance : ℕ → ℕ → Scheduler W → Option (Scheduler W)
  advance fuel cycles s = advance_to fuel ((s.now + cycles) % 2 ^ 64) s
