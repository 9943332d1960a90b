-- ===== src/Pvr/Spg/Rearm.antt =====
-- The event of the scan lines as a callback of the scheduler: it arms itself again.
use mathlib.Core.Path.{subst, sym}
use dream_recomp.Base.{
  ℕ, ◌^◌, ◌≤◌, ◌<◌, ◌≡◌, refl, ap, ◌∙◌, arith, Bool, true, false, ◌==◌, Bool-cases, inl, inr,
}
use dream_recomp.Sched.{Scheduler, request}
use dream_recomp.Sched.Advance.{IsPrompt, Prompt, request-Prompt}
use dream_recomp.Pvr.Spg.{Spg, raise_if, next_line, sync, count_frame, rearm, vblank_out, on_line}

-- What decides when the next line is due.
record Timing (W : Type 0) : Type 0 where
  pub event : ℕ
  pub line_cycles : ℕ
  pub sched : Scheduler W

abbrev timing : {W : Type 0} → Spg W → Timing W
timing x = record { event = x.event; line_cycles = x.line_cycles; sched = x.sched }

-- The scheduler's state in the generator, and back.
abbrev pub inside : {W : Type 0} → Scheduler (Spg W) → Spg W
inside s = record s.world {
  sched = record { events = s.events; now = s.now; world = s.world.sched.world };
}

unfoldable pub line_event :
    {W : Type 0} → (Spg W → Spg W) → ℕ → ℕ → ℕ → Scheduler (Spg W) → Scheduler (Spg W)
line_event hook id now late s =
    let x = on_line hook (inside s) in
    record { events = x.sched.events; now = x.sched.now; world = x }

-- A line takes at least a cycle, and less than 2 ^ 32.
abbrev pub IsTimed : {W : Type 0} → Spg W → Type 0
IsTimed x = (1 ≤ x.line_cycles) × (x.line_cycles < 2 ^ 32)

module _ {W : Type 0} where
  raise_if-timing : (b : Bool) (irq : ℕ) (x : Spg W) → timing (raise_if b irq x) ≡ timing x
  unfolding raise_if
  raise_if-timing true irq x = refl
  raise_if-timing false irq x = refl

  count_frame-timing : (x : Spg W) → timing (count_frame x) ≡ timing x
  unfolding count_frame
  count_frame-timing x = elim (Bool-cases (x.scanline == 0)) [
    | inl e ↦ rw e refl
    | inr e ↦ rw e refl
  ]

module _ {W : Type 0} (hook : Spg W → Spg W)
    (hook_keeps : (x : Spg W) → timing (hook x) ≡ timing x) where
  vblank_out-timing : (b : Bool) (x : Spg W) → timing (vblank_out hook b x) ≡ timing x
  unfolding vblank_out
  vblank_out-timing true x = hook_keeps _ ∙ raise_if-timing true _ x
  vblank_out-timing false x = refl

  on_line-timing :
      (x : Spg W)
      → timing (on_line hook x) ≡ record {
        event = x.event;
        line_cycles = x.line_cycles;
        sched = request x.event x.line_cycles x.sched;
      }
  unfolding on_line rearm next_line sync
  on_line-timing x =
      ap (λ (c : Timing W). record c { sched = request c.event c.line_cycles c.sched })
        (count_frame-timing _
          ∙ raise_if-timing _ _ _
          ∙ vblank_out-timing _ _
          ∙ raise_if-timing _ _ _)

  -- The event is prompt up to a clock of 2 ^ 63, where the hook of the Maple bus leaves alone when the
  -- next line is due.
  pub line_event-IsPrompt : IsPrompt (2 ^ 63) IsTimed (line_event hook)
  unfolding line_event request
  line_event-IsPrompt = record {
    same_clock = λ id late s h i. ap (λ (c : Timing W). c.sched.now) (on_line-timing (inside s));
    later_deadlines = λ id late s h i.
        subst (λ es. Prompt s.now s.events es)
          (sym (ap (λ (c : Timing W). c.sched.events) (on_line-timing (inside s))))
          (request-Prompt s.world.event s.world.line_cycles (inside s).sched i.0
            (omega (arith, i.1)));
    same_inv = λ id late s h i.
        subst (λ n. (1 ≤ n) × (n < 2 ^ 32))
          (sym (ap (λ (c : Timing W). c.line_cycles) (on_line-timing (inside s)))) i;
  }
