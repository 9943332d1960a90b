-- ===== src/Pvr/Examples.antt =====
-- The theorem of the sync pulse generator on a frame of the NTSC timing, and the scheduler's theorem
-- where the generator's event is the only one, and arms itself again on each line.
use dream_recomp.Base.{ℕ, ◌≡◌, refl, arith, ◌^◌, some, false, [], ◌∷◌}
use dream_recomp.Sched.{Scheduler, never, advance_to}
use dream_recomp.Sched.Advance.{Done, advance_to-Done}
use dream_recomp.Pvr.Spg.{Spg, lines}
use dream_recomp.Pvr.Spg.Rearm.{IsTimed, line_event, line_event-IsPrompt}
use dream_recomp.Pvr.Spg.Frame.{count, ahead, run_lines, run_lines-ahead}

abbrev ntsc : Spg ℕ
ntsc = record {
  spg_hblank_int = 0x031d_0000;
  spg_vblank_int = 0x0015_0104;
  spg_control = 0;
  spg_hblank = 0x007e_0345;
  spg_load = 0x0106_0359;
  spg_vblank = 0x0015_0104;
  spg_width = 0x07f1_933f;
  event = 0;
  vclk_full = false;
  line_cycles = 12711;
  scanline = 10;
  vsync = false;
  fieldnum = false;
  frames = 0;
  holly = record {
    istnrm = 0;
    istext = 0;
    isterr = 0;
    iml2nrm = 0;
    iml2ext = 0;
    iml2err = 0;
    iml4nrm = 0;
    iml4ext = 0;
    iml4err = 0;
    iml6nrm = 8;
    iml6ext = 0;
    iml6err = 0;
    cpu = record { ipra = 0; iprb = 0; iprc = 0; icr = 0; pending_bits = 0 };
  };
  sched = record { events = never ∷ []; now = 0; world = 0 };
}

run_lines-ahead_example : count (run_lines (λ x. x) 263 ntsc) ≡ ahead 263 263 (count ntsc)
unfolding lines
run_lines-ahead_example =
    run_lines-ahead (λ x. x) (λ x. refl) 263 ntsc (omega arith) (omega arith) (omega arith)

abbrev first_line : Scheduler (Spg ℕ)
first_line = record { events = 12711 ∷ []; now = 0; world = ntsc }

advance_to-Done_example :
    (s' : Scheduler (Spg ℕ)) × (advance_to (line_event (λ x. x)) 3_000_000 1_000_000 first_line
      ≡ some s')
    × Done (line_event (λ x. x)) 1_000_000 first_line s'
    × IsTimed s'.world
unfolding dream_recomp.Sched.Advance.overdue
advance_to-Done_example =
    advance_to-Done (line_event (λ x. x)) (2 ^ 63) IsTimed
      (line_event-IsPrompt (λ x. x) (λ x. refl)) 3_000_000 1_000_000 first_line (omega arith)
      (omega arith) (omega arith) (omega arith, omega arith) (omega arith)
