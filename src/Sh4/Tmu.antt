-- ===== src/Sh4/Tmu.antt =====
-- runtime/include/dream/runtime/sh4/tmu.h and runtime/src/sh4/tmu.cpp: the timer unit, with the
-- scheduler and the interrupt controller that it holds references to. A counter is an
-- `std::int64_t` in the source, and here an integer.
pub mod Counter
pub mod Reload
mod Examples
use dream_recomp.Base.{
  ℕ, zero, suc, ◌+◌, ◌-◌, ◌*◌, ◌/◌, ◌%◌, ◌^◌, bit_and, bit_or, Bool, true, false, not, ◌&&◌, ◌==◌,
  ltb, leb, if◌then◌else◌, List, [], ◌∷◌, get_or, set, replicate,
}
use dream_recomp.Base.Int.{ℤ, pos, negsuc, ◌+ℤ◌, ◌-ℤ◌, ltb_ℤ, pattern_of}
use dream_recomp.Base.Bits.{u32}
use dream_recomp.Sched.{Scheduler, request, cancel}
use dream_recomp.Sh4.Intc.{Intc, Irq, tmu0, tmu1, tmu2, set_pending}
use dream_recomp.Sh4.Alu.{sub32}

-- One entry of the arrays of `Tmu`.
pub record Channel : Type 0 where
  pub tcor : ℕ
  pub tcr : ℕ
  pub tcr_mode : ℕ
  pub shift : ℕ
  pub running : Bool
  pub base : ℤ
  pub event : ℕ

pub record Tmu (W : Type 0) : Type 0 where
  pub channels : List Channel
  pub tstr : ℕ
  pub tocr : ℕ
  pub intc : Intc
  pub sched : Scheduler W

abbrev pub kunf : ℕ
kunf = 0x100

abbrev pub kunie : ℕ
kunie = 0x20

abbrev pub ksh4_clock : ℕ
ksh4_clock = 200_000_000

abbrev pub blank_channel : Channel
blank_channel = record {
  tcor = 0;
  tcr = 0;
  tcr_mode = 0;
  shift = 0;
  running = false;
  base = pos 0;
  event = 0;
}

abbrev pub tmu_irq : ℕ → Irq
tmu_irq zero = tmu0
tmu_irq (suc zero) = tmu1
tmu_irq (suc (suc ch)) = tmu2

-- `std::max(value, 0)`, and `std::max(cnt + 1, 0)`.
abbrev pub at_least_zero : ℤ → ℤ
at_least_zero (pos n) = pos n
at_least_zero (negsuc n) = pos 0

abbrev pub ticks_left : ℤ → ℕ
ticks_left (pos n) = suc n
ticks_left (negsuc n) = 0

-- The cycles that `schedule` asks for: a count of prescaled ticks in 64 bits, less the part of the
-- current tick that has passed, and a second at most.
unfoldable pub cycles_to_underflow : ℕ → ℕ → ℤ → ℕ
cycles_to_underflow now shift cnt =
    let cycles : ℕ = (ticks_left cnt * 2 ^ shift + 2 ^ 64 - now % 2 ^ shift) % 2 ^ 64 in
    if ltb cycles ksh4_clock then cycles else ksh4_clock

-- What a channel counts at a time, and the channel that counts a value at a time.
unfoldable pub count_of : Channel → ℕ → ℤ
count_of c now = if c.running then c.base -ℤ pos (now / 2 ^ c.shift) else c.base

unfoldable pub based : Channel → ℕ → ℤ → Channel
based c now value = record c {
  base = if c.running then value +ℤ pos (now / 2 ^ c.shift) else value;
}

module _ {W : Type 0} where
  abbrev pub channel : Tmu W → ℕ → Channel
  channel t ch = get_or t.channels ch blank_channel

  unfoldable pub set_channel : ℕ → Channel → Tmu W → Tmu W
  set_channel ch c t = record t { channels = set t.channels ch c }

  unfoldable pub counter : Tmu W → ℕ → ℤ
  counter t ch = count_of (channel t ch) t.sched.now

  -- The event of a channel that runs is at its underflow; another has none.
  unfoldable pub schedule_as : Channel → Scheduler W → Scheduler W
  schedule_as c s =
      if c.running
      then request c.event (cycles_to_underflow s.now c.shift (count_of c s.now)) s
      else cancel c.event s

  unfoldable pub schedule : ℕ → Tmu W → Tmu W
  schedule ch t = record t { sched = schedule_as (channel t ch) t.sched }

  unfoldable pub set_counter : ℕ → ℤ → Tmu W → Tmu W
  set_counter ch value t = schedule ch (set_channel ch (based (channel t ch) t.sched.now value) t)

  unfoldable pub update_irq : ℕ → Tmu W → Tmu W
  update_irq ch t =
      let tcr = (channel t ch).tcr in
      record t {
        intc =
            set_pending (tmu_irq ch) (not (bit_and tcr kunf == 0) && not (bit_and tcr kunie == 0))
              t.intc;
      }

  unfoldable pub reload : ℕ → ℤ → Tmu W → Tmu W
  reload ch value t =
      let c = channel t ch in
      let t1 = update_irq ch (set_channel ch (record c { tcr = bit_or c.tcr kunf }) t) in
      set_counter ch (at_least_zero (pos c.tcor +ℤ value +ℤ pos 1)) t1

  unfoldable pub tcnt : ℕ → Tmu W → Tmu W × ℕ
  tcnt ch t =
      let v = counter t ch in
      let t' = reload ch v t in
      if ltb_ℤ v (pos 0) then (t', pattern_of 32 (counter t' ch)) else (t, pattern_of 32 v)

  -- The callback of a channel's event.
  unfoldable pub on_event : ℕ → Tmu W → Tmu W
  on_event ch t =
      let v = counter t ch in
      if not (channel t ch).running
      then t
      else if ltb_ℤ v (pos 0)
      then reload ch v t
      else schedule ch t

  unfoldable pub update_mode : ℕ → Tmu W → Tmu W
  update_mode ch t =
      let mode = bit_and (channel t ch).tcr 7 in
      let t1 = update_irq ch t in
      let c = channel t1 ch in
      let t2 =
        set_channel ch
          (record c { tcr_mode = mode; shift = if leb mode 4 then 4 + 2 * mode else 4 }) t1 in
      if mode == c.tcr_mode then t1 else set_counter ch (counter t1 ch) t2

  -- One turn of the loop of `reset`.
  unfoldable pub reset_channel : ℕ → Tmu W → Tmu W
  reset_channel ch t =
      let c = channel t ch in
      let t1 =
        set_channel ch
          (record c {
            tcor = 0xffff_ffff;
            tcr = 0;
            tcr_mode = 0xffff;
            shift = 4;
            running = false;
            base = pos 0xffff_ffff;
          })
          t in
      set_counter ch (pos 0xffff_ffff)
        (update_mode ch (record t1 { sched = cancel c.event t1.sched }))

  unfoldable pub reset : Tmu W → Tmu W
  reset t = record (reset_channel 2 (reset_channel 1 (reset_channel 0 t))) { tstr = 0; tocr = 0 }

  pub read : ℕ → Tmu W → Tmu W × ℕ
  read addr t =
      let off = sub32 addr 0xffd8_0000 in
      if off == 0x00
      then (t, t.tocr)
      else if off == 0x04
      then (t, t.tstr)
      else if off == 0x08
      then (t, (channel t 0).tcor)
      else if off == 0x0c
      then tcnt 0 t
      else if off == 0x10
      then (t, (channel t 0).tcr)
      else if off == 0x14
      then (t, (channel t 1).tcor)
      else if off == 0x18
      then tcnt 1 t
      else if off == 0x1c
      then (t, (channel t 1).tcr)
      else if off == 0x20
      then (t, (channel t 2).tcor)
      else if off == 0x24
      then tcnt 2 t
      else if off == 0x28
      then (t, (channel t 2).tcr)
      else (t, 0)

  -- One turn of the loop over TSTR: a channel that starts or stops keeps its count.
  unfoldable pub start_stop : ℕ → Bool → Tmu W → Tmu W
  start_stop ch on t =
      let c = channel t ch in
      let t' = set_counter ch (counter t ch) (set_channel ch (record c { running = on }) t) in
      if on then if c.running then t else t' else if c.running then t' else t

  unfoldable pub write_tstr : ℕ → Tmu W → Tmu W
  write_tstr v t =
      let bits = bit_and v 7 in
      let on : ℕ → Bool = λ ch. not (bit_and (bits / 2 ^ ch) 1 == 0) in
      start_stop 2 (on 2) (start_stop 1 (on 1) (start_stop 0 (on 0) (record t { tstr = bits })))

  -- Writing 0 to UNF clears it; writing 1 leaves it.
  unfoldable pub write_tcr : ℕ → ℕ → Tmu W → Tmu W
  write_tcr ch v t =
      let c = channel t ch in
      let keep_unf = bit_and (bit_and c.tcr v) kunf in
      let mask : ℕ = if ch == 2 then 0x2ff else 0xff in
      update_mode ch (set_channel ch (record c { tcr = bit_or (bit_and v mask) keep_unf }) t)

  pub write_channel : ℕ → ℕ → ℕ → Tmu W → Tmu W
  write_channel ch field v t =
      if field == 0
      then set_channel ch (record (channel t ch) { tcor = v }) t
      else if field == 4
      then set_counter ch (pos v) t
      else if field == 8
      then write_tcr ch v t
      else t

  pub write : ℕ → ℕ → Tmu W → Tmu W
  write addr v t =
      let off = sub32 addr 0xffd8_0000 in
      if off == 0x00
      then record t { tocr = bit_and v 1 }
      else if off == 0x04
      then write_tstr v t
      else if leb 0x08 off && ltb off 0x2c
      then write_channel ((off - 0x08) / 12) ((off - 0x08) % 12) v t
      else t
