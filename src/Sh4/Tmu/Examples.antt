-- ===== src/Sh4/Tmu/Examples.antt =====
-- The theorems of the timer unit on a unit whose channel 0 runs.
use dream_recomp.Base.{ℕ, ◌+◌, ◌-◌, ◌≡◌, refl, arith, true, false, not, ◌==◌, [], ◌∷◌, leb, bit_and}
use dream_recomp.Base.Int.{pos, negsuc, ltb_ℤ}
use dream_recomp.Sched.{never, deadline}
use dream_recomp.Sh4.Intc.{pending}
use dream_recomp.Sh4.Tmu.{
  Tmu, Channel, channel, counter, count_of, set_counter, tcnt, schedule, ksh4_clock, kunf, kunie,
  tmu_irq,
}
use dream_recomp.Sh4.Tmu.Counter.{at_clock, underflow_at, counter-set_counter, underflow_event}
use dream_recomp.Sh4.Tmu.Reload.{tcnt-late, schedule-late}

-- A channel that runs at the peripheral clock over 4 with UNIE set, from TCOR 1000.
abbrev running_channel : Channel
running_channel = record {
  tcor = 1000;
  tcr = 0x20;
  tcr_mode = 0;
  shift = 4;
  running = true;
  base = pos 5;
  event = 0;
}

abbrev unit : Tmu ℕ
unit = record {
  channels =
      running_channel
      ∷ record running_channel { event = 1; running = false }
      ∷ record running_channel { event = 2; running = false }
      ∷ [];
  tstr = 1;
  tocr = 0;
  intc = record { ipra = 0xf000; iprb = 0; iprc = 0; icr = 0; pending_bits = 0 };
  sched = record { events = never ∷ never ∷ never ∷ []; now = 130; world = 0 };
}

counter-set_counter_example : counter (set_counter 0 (pos 77) unit) 0 ≡ pos 77
counter-set_counter_example = counter-set_counter 0 (pos 77) unit (omega arith)

underflow_event_example :
    ltb_ℤ (counter (at_clock 500 (set_counter 0 (pos 77) unit)) 0) (pos 0)
    ≡ leb (underflow_at 0 (set_counter 0 (pos 77) unit)) 500
underflow_event_example =
    underflow_event 0 77 500 unit (omega arith) (omega arith) refl (omega arith) (omega arith)
      (omega arith) (omega arith)

late : counter unit 0 ≡ negsuc 2
unfolding counter count_of
late = refl

tcnt-late_example :
    ((tcnt 0 unit).1 ≡ 1000 - 2)
    × (bit_and (channel (tcnt 0 unit).0 0).tcr kunf ≡ kunf)
    × (pending (tcnt 0 unit).0.intc (tmu_irq 0) ≡ not (bit_and 0x20 kunie == 0))
tcnt-late_example = tcnt-late 0 2 unit (omega arith) (omega arith) late

schedule-late_example : deadline 0 (schedule 0 unit).sched ≡ 130 + ksh4_clock
schedule-late_example =
    schedule-late 0 2 unit refl late (λ e. ground arith) (omega arith) (omega arith) (omega arith)
