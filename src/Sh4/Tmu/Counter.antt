-- ===== src/Sh4/Tmu/Counter.antt =====
-- The counters of the timer unit as functions of the clock, and the events of their underflows.
use mathlib.Core.Path.{subst}
use native.Mathlib.Nat.{
  div-lt_iff_lt-mul, div-add-mod', one-le-pow, pow-le-pow_right, mul-le-mul, add-mul, suc-mul,
  mod-lt,
}
use dream_recomp.Base.{
  ℕ, suc, ◌+◌, ◌-◌, ◌*◌, ◌/◌, ◌%◌, ◌^◌, ◌≤◌, ◌<◌, ◌≡◌, refl, arith, true, leb, ltb, Bool-cases,
  if◌then◌else◌, inl, inr, length, get_or, get_or-set_self, dec_lt,
}
use dream_recomp.Base.Int.{ℤ, pos, negsuc, ◌+ℤ◌, ◌-ℤ◌, ltb_ℤ}
use dream_recomp.Sched.{Scheduler, request, cancel, never}
use dream_recomp.Sh4.Tmu.{
  Tmu, Channel, channel, set_channel, count_of, based, counter, schedule_as, schedule, set_counter,
  blank_channel, cycles_to_underflow, ksh4_clock,
}

add-sub_ℤ : (v : ℤ) (e : ℕ) → v +ℤ pos e -ℤ pos e ≡ v
add-sub_ℤ (pos n) e = ground arith
add-sub_ℤ (negsuc n) e = ground arith

count_of-based : (c : Channel) (now : ℕ) (v : ℤ) → count_of (based c now v) now ≡ v
unfolding count_of based
count_of-based c now v = elim (Bool-cases c.running) [
  | inl on ↦ rw on (add-sub_ℤ v (now / 2 ^ c.shift))
  | inr off ↦ rw off refl
]

cycles-le : (now shift : ℕ) (v : ℤ) → cycles_to_underflow now shift v ≤ ksh4_clock
unfolding cycles_to_underflow
cycles-le now shift v = ground arith

module _ {W : Type 0} where
  -- The unit with the clock at `k`.
  abbrev pub at_clock : ℕ → Tmu W → Tmu W
  at_clock k t = record t { sched = record t.sched { now = k } }

  schedule_as-now : (c : Channel) (s : Scheduler W) → (schedule_as c s).now ≡ s.now
  unfolding schedule_as request cancel
  schedule_as-now c s = elim (Bool-cases c.running) [ inl on ↦ rw on refl | inr off ↦ rw off refl ]

  -- Setting a counter makes it read that value, whether it runs or not.
  pub counter-set_counter :
      (ch : ℕ) (v : ℤ) (t : Tmu W) → ch < length t.channels → counter (set_counter ch v t) ch ≡ v
  unfolding counter set_counter schedule set_channel
  counter-set_counter ch v t h =
      rw
        (
          get_or-set_self t.channels ch (based (channel t ch) t.sched.now v) blank_channel h,
          schedule_as-now (based (channel t ch) t.sched.now v) t.sched,
        )
        (count_of-based (channel t ch) t.sched.now v)

  -- A later reading depends on the clock alone.
  counter_later :
      (ch k : ℕ) (v : ℤ) (t : Tmu W)
      → ch < length t.channels
      → counter (at_clock k (set_counter ch v t)) ch
        ≡ count_of (based (channel t ch) t.sched.now v) k
  unfolding counter set_counter schedule set_channel
  counter_later ch k v t h =
      rw (get_or-set_self t.channels ch (based (channel t ch) t.sched.now v) blank_channel h) refl

  request-deadline :
      (id cycles : ℕ) (s : Scheduler W)
      → id < length s.events
      → cycles ≤ ksh4_clock
      → s.now + ksh4_clock < 2 ^ 64
      → get_or (request id cycles s).events id never ≡ s.now + cycles
  unfolding request
  request-deadline id cycles s h c small = rw (get_or-set_self s.events id _ never h) (ground arith)

  schedule_as-deadline :
      (c : Channel) (s : Scheduler W)
      → c.running ≡ true
      → c.event < length s.events
      → s.now + ksh4_clock < 2 ^ 64
      → get_or (schedule_as c s).events c.event never
        ≡ s.now + cycles_to_underflow s.now c.shift (count_of c s.now)
  unfolding schedule_as
  schedule_as-deadline c s on e small = simp on (
      request-deadline c.event (cycles_to_underflow s.now c.shift (count_of c s.now)) s e
        (cycles-le s.now c.shift (count_of c s.now)) small)

  -- The deadline of a channel's event.
  abbrev pub underflow_at : ℕ → Tmu W → ℕ
  underflow_at ch t = get_or t.sched.events (channel t ch).event never

  underflow_at-set_counter :
      (ch : ℕ) (v : ℤ) (t : Tmu W)
      → ch < length t.channels
      → (channel t ch).event < length t.sched.events
      → (channel t ch).running ≡ true
      → t.sched.now + ksh4_clock < 2 ^ 64
      → underflow_at ch (set_counter ch v t)
        ≡ t.sched.now + cycles_to_underflow t.sched.now (channel t ch).shift v
  unfolding set_counter schedule set_channel based
  underflow_at-set_counter ch v t h e on small =
      let now = t.sched.now in
      let c = based (channel t ch) now v in
      rw (get_or-set_self t.channels ch c blank_channel h) (
        subst
          (λ w.
            get_or (schedule_as c t.sched).events c.event never
            ≡ now + cycles_to_underflow now c.shift w)
          (count_of-based (channel t ch) now v) (schedule_as-deadline c t.sched on e small))

-- The clock at which a prescaled count of `n` from `now` on passes below zero.
pub passes_zero :
    (p now n k : ℕ)
    → 0 < p
    → ltb_ℤ (pos n +ℤ pos (now / p) -ℤ pos (k / p)) (pos 0) ≡ leb (now + (suc n * p - now % p)) k
passes_zero p now n k h =
    let q = now / p in
    let whole : (q + suc n) * p ≡ q * p + suc n * p = add-mul q (suc n) p in
    let parts = div-add-mod' now p in
    let rest = mod-lt now h in
    let one_more = suc-mul n p in
    elim (dec_lt k ((q + suc n) * p)) [
      | yes below ↦ ground (arith, (div-lt_iff_lt-mul h).1 below)
      | no above ↦ ground (arith, λ (b : k / p < q + suc n). above ((div-lt_iff_lt-mul h).0 b))
    ]

-- Without the wrap of its 64 bits, and cut to a second.
cycles_cut :
    (now shift n : ℕ)
    → n < 2 ^ 32
    → shift ≤ 12
    → cycles_to_underflow now shift (pos n) ≡ (
        if ltb (suc n * 2 ^ shift - now % 2 ^ shift) ksh4_clock
        then suc n * 2 ^ shift - now % 2 ^ shift
        else ksh4_clock)
unfolding cycles_to_underflow
cycles_cut now shift n h s =
    let positive = one-le-pow shift 2 (omega arith) in
    let bound : suc n ≤ 2 ^ 32 = omega arith in
    ground (
      arith,
      mod-lt now positive,
      suc-mul n (2 ^ shift),
      mul-le-mul bound (pow-le-pow_right {n = 2} (omega arith) s),
    )

count_of-running :
    (c : Channel) (now k : ℕ) (v : ℤ)
    → c.running ≡ true
    → count_of (based c now v) k ≡ v +ℤ pos (now / 2 ^ c.shift) -ℤ pos (k / 2 ^ c.shift)
unfolding count_of based
count_of-running c now k v on = rw on refl

-- The same reading up to the cut.
cut :
    (p now n k : ℕ)
    → 0 < p
    → k < now + ksh4_clock
    → ltb_ℤ (pos n +ℤ pos (now / p) -ℤ pos (k / p)) (pos 0)
      ≡ leb
          (now + (if ltb (suc n * p - now % p) ksh4_clock then suc n * p - now % p else ksh4_clock))
          k
cut p now n k h ahead = rw (passes_zero p now n k h) (ground arith)

module _ {W : Type 0} where
  -- A running channel that is set to count `n` reads below zero from the deadline of its event on and
  -- not before, as far as a second ahead, past which the event comes to be armed anew. Conditions:
  -- the channel and its event are there, the prescaler is one of the source's, at most 2 ^ 12, `n`
  -- has 32 bits, and the clock is a second short of its 64 bits.
  pub underflow_event :
      (ch n k : ℕ) (t : Tmu W)
      → ch < length t.channels
      → (channel t ch).event < length t.sched.events
      → (channel t ch).running ≡ true
      → (channel t ch).shift ≤ 12
      → n < 2 ^ 32
      → t.sched.now + ksh4_clock < 2 ^ 64
      → k < t.sched.now + ksh4_clock
      → ltb_ℤ (counter (at_clock k (set_counter ch (pos n) t)) ch) (pos 0)
        ≡ leb (underflow_at ch (set_counter ch (pos n) t)) k
  underflow_event ch n k t h e on s w small ahead =
      let now = t.sched.now in
      let p = 2 ^ (channel t ch).shift in
      rw
        (
          counter_later ch k (pos n) t h,
          count_of-running (channel t ch) now k (pos n) on,
          underflow_at-set_counter ch (pos n) t h e on small,
          cycles_cut now (channel t ch).shift n w s,
        )
        (cut p now n k (one-le-pow (channel t ch).shift 2 (omega arith)) ahead)
