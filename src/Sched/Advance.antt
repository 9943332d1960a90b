-- ===== src/Sched/Advance.antt =====
-- The rounds of `advance_to`, and where it leaves the clock and the events.
use Prim.Native.Nat.{max}
use dream_recomp.Base.{
  ℕ, zero, suc, ◌+◌, ◌-◌, ◌*◌, ◌%◌, ◌^◌, ◌==◌, ◌≤◌, ◌<◌, ◌≡◌, ◌⊎◌, inl, inr, refl, ◌∙◌, arith, true,
  false, ltb, leb, bit, if◌then◌else◌, Bool-cases, some, List, [], ◌∷◌, length, get_or, set,
  length-set,
}
use dream_recomp.Sched.{Scheduler, Due, never, earliest, fire, request, stops, advance_to}
use dream_recomp.Sched.Earliest.{earliest-IsNext}

-- How many events are due at a time.
unfoldable pub overdue : ℕ → List ℕ → ℕ
overdue now [] = 0
overdue now (e ∷ es) = bit (leb e now) + overdue now es

overdue-le-length : (now : ℕ) (es : List ℕ) → overdue now es ≤ length es
unfolding overdue
overdue-le-length now [] = omega arith
overdue-le-length now (e ∷ es) = ground (arith, overdue-le-length now es)

-- Deadlines that are kept, or moved to after `now`.
abbrev pub Prompt : ℕ → List ℕ → List ℕ → Type 0
Prompt now es fs =
    (length fs ≡ length es)
    × ((j : ℕ) → (get_or fs j never ≡ get_or es j never) ⊎ (now < get_or fs j never))

overdue-Prompt : (now : ℕ) (es fs : List ℕ) → Prompt now es fs → overdue now fs ≤ overdue now es
unfolding overdue
overdue-Prompt now [] [] h = omega arith
overdue-Prompt now [] (f ∷ fs) h = absurd (omega arith)
overdue-Prompt now (e ∷ es) [] h = absurd (omega arith)
overdue-Prompt now (e ∷ es) (f ∷ fs) h =
    ground (arith, h.1 0, overdue-Prompt now es fs (omega arith, λ j. h.1 (suc j)))

overdue-set :
    (now : ℕ) (es : List ℕ) (i : ℕ)
    → now < never
    → i < length es
    → get_or es i never ≤ now
    → overdue now (set es i never) + 1 ≡ overdue now es
unfolding overdue
overdue-set now [] i n h p = absurd (omega arith)
overdue-set now (e ∷ es) zero n h p = ground arith
overdue-set now (e ∷ es) (suc i) n h p = omega (arith, overdue-set now es i n (omega arith) p)

-- A callback that, called at a clock up to `limit` in a world with the invariant `Inv`, leaves the
-- clock and the number of events alone, of the deadlines only sets ones that lie after the present,
-- and keeps the invariant.
pub record IsPrompt {W : Type 0} (limit : ℕ) (Inv : W → Type 0)
    (callback : ℕ → ℕ → ℕ → Scheduler W → Scheduler W) : Type 0 where
  pub same_clock :
      (id late : ℕ) (s : Scheduler W)
      → s.now ≤ limit
      → Inv s.world
      → (callback id s.now late s).now ≡ s.now
  pub later_deadlines :
      (id late : ℕ) (s : Scheduler W)
      → s.now ≤ limit
      → Inv s.world
      → Prompt s.now s.events (callback id s.now late s).events
  pub same_inv :
      (id late : ℕ) (s : Scheduler W)
      → s.now ≤ limit
      → Inv s.world
      → Inv (callback id s.now late s).world

-- A request of at least one cycle is prompt while the clock does not wrap within it.
pub request-Prompt :
    {W : Type 0} (id cycles : ℕ) (s : Scheduler W)
    → 1 ≤ cycles
    → s.now + cycles < never
    → Prompt s.now s.events (request id cycles s).events
unfolding request
request-Prompt id cycles s some_cycles fits = (
  length-set s.events id _,
  λ j. moved_only s.now s.events id j _ (after s.now cycles some_cycles fits),
)
  where
    after :
        (now k : ℕ)
        → 1 ≤ k
        → now + k < never
        → now < (if k == never then never else (now + k) % 2 ^ 64)
    after now k a b = ground arith

    moved_only :
        (now : ℕ) (es : List ℕ) (i j v : ℕ)
        → now < v
        → (get_or (set es i v) j never ≡ get_or es j never) ⊎ (now < get_or (set es i v) j never)
    moved_only now [] i j v h = inl refl
    moved_only now (e ∷ es) zero zero v h = inr h
    moved_only now (e ∷ es) zero (suc j) v h = inl refl
    moved_only now (e ∷ es) (suc i) zero v h = inl refl
    moved_only now (e ∷ es) (suc i) (suc j) v h = moved_only now es i j v h

-- Bounds the rounds of the loop that are left: the clock moves on, or an event that is due is gone.
abbrev pub rounds_left : {W : Type 0} → ℕ → Scheduler W → ℕ
rounds_left target s = (target + 1 - s.now) * (length s.events + 1) + overdue s.now s.events

-- The event that the loop runs when it does not stop.
pub record IsRun {W : Type 0} (target : ℕ) (s : Scheduler W) (d : Due) : Type 0 where
  pub inside : d.idx < length s.events
  pub its_deadline : d.best ≡ get_or s.events d.idx never
  pub due : d.best ≤ target

pub record Progress {W : Type 0} (target : ℕ) (s s' : Scheduler W) : Type 0 where
  pub fewer : rounds_left target s' < rounds_left target s
  pub later : s.now ≤ s'.now
  pub within : s'.now ≤ max s.now target
  pub as_many : length s'.events ≡ length s.events

moved_on :
    (target now now' n o o' : ℕ)
    → now < now'
    → now' ≤ target
    → o' ≤ n
    → (target + 1 - now') * (n + 1) + o' < (target + 1 - now) * (n + 1) + o
moved_on target now now' n o o' p q r = grind arith

module _ {W : Type 0} (target : ℕ) (s s' : Scheduler W) (d : Due) (run : IsRun target s d) where
  as_many_events :
      Prompt s'.now (set s.events d.idx never) s'.events → length s'.events ≡ length s.events
  as_many_events h = h.0 ∙ length-set s.events d.idx never

  jump-Progress :
      s.now < d.best
      → s'.now ≡ d.best
      → Prompt s'.now (set s.events d.idx never) s'.events
      → Progress target s s'
  jump-Progress l e h = record {
    fewer = rw (as_many_events h) (
        moved_on target s.now s'.now (length s.events) _ _ (omega arith) (omega (arith, run.due))
          fits);
    later = omega arith;
    within = omega (arith, run.due);
    as_many = as_many_events h;
  }
    where
      fits : overdue s'.now s'.events ≤ length s.events
      fits = omega (arith, overdue-le-length s'.now s'.events, as_many_events h)

  stay-Progress :
      s.now < never
      → d.best ≤ s.now
      → s'.now ≡ s.now
      → Prompt s'.now (set s.events d.idx never) s'.events
      → Progress target s s'
  stay-Progress n l e h = record {
    fewer = rw (as_many_events h, e) (omega (arith, fewer_due));
    later = omega arith;
    within = omega arith;
    as_many = as_many_events h;
  }
    where
      fewer_due : overdue s.now s'.events < overdue s.now s.events
      fewer_due = omega (
        arith,
        overdue-Prompt s.now (set s.events d.idx never) s'.events (rw e at h),
        overdue-set s.now s.events d.idx n run.inside (omega (arith, run.its_deadline)),
      )

module _ {W : Type 0} (callback : ℕ → ℕ → ℕ → Scheduler W → Scheduler W) where
  runs :
      (target : ℕ) (s : Scheduler W) → stops callback target s ≡ false → IsRun target s (earliest s)
  unfolding stops
  runs target s h = elim (earliest-IsNext s).chosen [
    | inl (p, q) ↦ absurd (ground arith)
    | inr (p, q, r, b) ↦ record { inside = p; its_deadline = q; due = ground arith }
  ]

  at_stop :
      (target : ℕ) (s : Scheduler W)
      → stops callback target s ≡ true
      → target < never
      → (j : ℕ) → j < length s.events
      → target < get_or s.events j never
  unfolding stops
  at_stop target s h t j p = elim (earliest-IsNext s).chosen [
    | inl (a, b) ↦ ground (arith, (earliest-IsNext s).least_of j p)
    | inr (a, b, r, q) ↦ ground (arith, (earliest-IsNext s).least_of j p)
  ]

  module _ (limit : ℕ) (Inv : W → Type 0) (prompt : IsPrompt limit Inv callback) where
    fire-Progress :
        (target : ℕ) (s : Scheduler W) (d : Due)
        → s.now ≤ limit
        → target ≤ limit
        → limit < never
        → Inv s.world
        → IsRun target s d
        → Progress target s (fire callback d s)
    unfolding fire
    fire-Progress target s d n t l i run = elim (Bool-cases (ltb s.now d.best)) [
      | inl h ↦
          let called = record s { now = d.best; events = set s.events d.idx never } in
          let in_time : d.best ≤ limit = omega (arith, run.due) in
          let e = prompt.same_clock d.idx _ called in_time i in
          rw h (
            jump-Progress target s _ d run (ground arith) e
              (rw e (prompt.later_deadlines d.idx _ called in_time i)))
      | inr h ↦
          let called = record s { events = set s.events d.idx never } in
          let e = prompt.same_clock d.idx _ called n i in
          rw h (
            stay-Progress target s _ d run (omega arith) (ground arith) e
              (rw e (prompt.later_deadlines d.idx _ called n i)))
    ]

    fire_inv :
        (target : ℕ) (s : Scheduler W) (d : Due)
        → s.now ≤ limit
        → target ≤ limit
        → Inv s.world
        → IsRun target s d
        → Inv (fire callback d s).world
    unfolding fire
    fire_inv target s d n t i run =
        let now : ℕ = if ltb s.now d.best then d.best else s.now in
        let called = record s { now = now; events = set s.events d.idx never } in
        prompt.same_inv d.idx _ called (ground (arith, run.due)) i

  -- The clock stands at the target, or where it was if that is later, and every event that is armed
  -- lies after the target.
  pub record Done (target : ℕ) (s s' : Scheduler W) : Type 0 where
    pub clock : s'.now ≡ max s.now target
    pub as_many : length s'.events ≡ length s.events
    pub none_due : (j : ℕ) → j < length s'.events → target < get_or s'.events j never

  -- With callbacks that, at clocks up to `limit` and under an invariant of the world, leave the clock
  -- and the number of events alone, set deadlines after the present only and keep the invariant, a
  -- clock and a target up to `limit`, which is below `never`, and fuel above `rounds_left`,
  -- `advance_to` ends. The clock is then at the target, or where it was if that is later, there are
  -- as many events, each armed one lies after the target, and the invariant holds.
  pub advance_to-Done :
      (limit : ℕ) (Inv : W → Type 0)
      → IsPrompt limit Inv callback
      → (fuel target : ℕ) (s : Scheduler W) → s.now ≤ limit
      → target ≤ limit
      → limit < never
      → Inv s.world
      → rounds_left target s < fuel
      → (s' : Scheduler W) × (advance_to callback fuel target s ≡ some s')
        × Done target s s'
        × Inv s'.world
  unfolding advance_to
  advance_to-Done limit Inv prompt zero target s n t l i f = absurd (omega arith)
  advance_to-Done limit Inv prompt (suc fuel) target s n t l i f =
      elim (Bool-cases (stops callback target s)) [
        | inl h ↦ rw h (
          record s { now = if ltb s.now target then target else s.now },
          refl,
          record {
            clock = ground arith;
            as_many = refl;
            none_due = at_stop target s h (omega arith);
          },
          i,
        )
        | inr h ↦
            let p =
              fire-Progress limit Inv prompt target s (earliest s) n t l i (runs target s h) in
            let i' = fire_inv limit Inv prompt target s (earliest s) n t i (runs target s h) in
            let (s', e, v, j) =
              advance_to-Done limit Inv prompt fuel target (fire callback (earliest s) s)
                (omega (arith, p.within)) t l i' (omega (arith, p.fewer)) in
            rw h (
              s',
              e,
              record {
                clock = omega (arith, v.clock, p.later, p.within);
                as_many = v.as_many ∙ p.as_many;
                none_due = v.none_due;
              },
              j,
            )
      ]
