-- ===== src/Sh4/Tmu/Reload.antt =====
-- What the timer unit does once a counter has passed below zero.
use native.Mathlib.Nat.{mod-lt, one-le-pow}
use dream_recomp.Base.{
  ℕ, ◌-◌, ◌%◌, ◌^◌, ◌+◌, ◌≤◌, ◌<◌, ◌≡◌, ◌≢◌, refl, arith, true, not, ◌==◌, ==_iff, length, set,
  get_or-set_self, length-set, ◌∙◌, bit_and, bit_or,
}
use dream_recomp.Base.Bits.{bit_and_field, bit_at-bit_or}
use dream_recomp.Base.Int.{ℤ, pos, negsuc, ◌+ℤ◌, pattern_of}
use dream_recomp.Sched.{request, deadline, never}
use dream_recomp.Sh4.Intc.{pending, irq_number}
use dream_recomp.Sh4.Intc.Pending.{pending-set_pending}
use dream_recomp.Sh4.Tmu.{
  Tmu, channel, set_channel, counter, based, schedule, set_counter, update_irq, reload, tcnt,
  cycles_to_underflow, schedule_as, at_least_zero, ksh4_clock, kunf, kunie, tmu_irq, blank_channel,
}
use dream_recomp.Sh4.Tmu.Counter.{counter-set_counter}

reload_value : (tcor m : ℕ) → at_least_zero (pos tcor +ℤ negsuc m +ℤ pos 1) ≡ pos (tcor - m)
reload_value tcor m = ground arith

unf_set : (a : ℕ) → bit_and (bit_or a kunf) kunf ≡ kunf
unf_set a = omega (arith, bit_and_field 8 1 (bit_or a kunf), bit_at-bit_or 8 a kunf)

unie_kept : (a : ℕ) → bit_and (bit_or a kunf) kunie ≡ bit_and a kunie
unie_kept a =
    omega (arith, bit_and_field 5 1 (bit_or a kunf), bit_and_field 5 1 a, bit_at-bit_or 5 a kunf)

module _ {W : Type 0} where
  reload-counter :
      (ch m : ℕ) (t : Tmu W)
      → ch < length t.channels
      → counter (reload ch (negsuc m) t) ch ≡ pos ((channel t ch).tcor - m)
  unfolding reload update_irq set_channel
  reload-counter ch m t h =
      let c = channel t ch in
      let flagged = record c { tcr = bit_or c.tcr kunf } in
      let t1 = update_irq ch (set_channel ch flagged t) in
      counter-set_counter ch (at_least_zero (pos c.tcor +ℤ negsuc m +ℤ pos 1)) t1
        (omega (arith, length-set t.channels ch flagged))
      ∙ reload_value c.tcor m

  reload-tcr :
      (ch : ℕ) (v : ℤ) (t : Tmu W)
      → ch < length t.channels
      → bit_and (channel (reload ch v t) ch).tcr kunf ≡ kunf
  unfolding reload set_counter schedule set_channel update_irq based
  reload-tcr ch v t h =
      let c = channel t ch in
      let flagged = record c { tcr = bit_or c.tcr kunf } in
      let length_kept : ch < length (set t.channels ch flagged) =
        omega (arith, length-set t.channels ch flagged) in
      rw
        (
          get_or-set_self (set t.channels ch flagged) ch _ blank_channel length_kept,
          get_or-set_self t.channels ch flagged blank_channel h,
        )
        (unf_set c.tcr)

  reload-pending :
      (ch : ℕ) (v : ℤ) (t : Tmu W)
      → ch < length t.channels
      → pending (reload ch v t).intc (tmu_irq ch) ≡ not (bit_and (channel t ch).tcr kunie == 0)
  unfolding reload set_counter schedule set_channel update_irq
  reload-pending ch v t h =
      let c = channel t ch in
      let flagged = record c { tcr = bit_or c.tcr kunf } in
      let same = (==_iff (irq_number (tmu_irq ch)) (irq_number (tmu_irq ch))).1 refl in
      rw
        (
          get_or-set_self t.channels ch flagged blank_channel h,
          unf_set c.tcr,
          unie_kept c.tcr,
          pending-set_pending (tmu_irq ch) (tmu_irq ch) (not (bit_and c.tcr kunie == 0)) t.intc,
          same,
        )
        refl

  -- A read of TCNT after an underflow by `m` + 1 ticks gives TCOR less `m`, or 0 where that is below
  -- it; it leaves UNF set, and the channel's interrupt pending just when UNIE is set. Conditions: the
  -- channel is there, its counter is at -(m + 1), and TCOR has 32 bits.
  pub tcnt-late :
      (ch m : ℕ) (t : Tmu W)
      → ch < length t.channels
      → (channel t ch).tcor < 2 ^ 32
      → counter t ch ≡ negsuc m
      → ((tcnt ch t).1 ≡ (channel t ch).tcor - m)
        × (bit_and (channel (tcnt ch t).0 ch).tcr kunf ≡ kunf)
        × (pending (tcnt ch t).0.intc (tmu_irq ch) ≡ not (bit_and (channel t ch).tcr kunie == 0))
  unfolding tcnt
  tcnt-late ch m t h small late =
      let read : pattern_of 32 (counter (reload ch (negsuc m) t) ch) ≡ (channel t ch).tcor - m =
        rw (reload-counter ch m t h) (omega arith) in
      rw late (read, reload-tcr ch (negsuc m) t h, reload-pending ch (negsuc m) t h)

cycles_late :
    (now shift m : ℕ)
    → now % 2 ^ shift ≢ 0
    → 2 ^ shift ≤ 2 ^ 12
    → cycles_to_underflow now shift (negsuc m) ≡ ksh4_clock
unfolding cycles_to_underflow
cycles_late now shift m inside small =
    ground (arith, inside, mod-lt now (one-le-pow shift 2 (omega arith)))

-- Where the counter of a channel that runs is below zero already, `schedule` does not ask for its
-- underflow at once: the event of the channel is set a second ahead. Conditions: the clock stands
-- inside a prescaled tick of at most 2 ^ 12 cycles, the event is one of the scheduler's, and the
-- clock is more than a second below its last value.
pub schedule-late :
    {W : Type 0} (ch m : ℕ) (t : Tmu W)
    → (channel t ch).running ≡ true
    → counter t ch ≡ negsuc m
    → t.sched.now % 2 ^ (channel t ch).shift ≢ 0
    → 2 ^ (channel t ch).shift ≤ 2 ^ 12
    → (channel t ch).event < length t.sched.events
    → t.sched.now + ksh4_clock < 2 ^ 64
    → deadline (channel t ch).event (schedule ch t).sched ≡ t.sched.now + ksh4_clock
unfolding schedule schedule_as request deadline counter
schedule-late ch m t runs late inside small there fits =
    let c = channel t ch in
    rw (runs, late, cycles_late t.sched.now c.shift m inside small)
      (get_or-set_self t.sched.events c.event _ never there ∙ omega arith)
