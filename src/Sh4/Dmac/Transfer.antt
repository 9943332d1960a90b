-- ===== src/Sh4/Dmac/Transfer.antt =====
-- How a transfer leaves its channel.
use native.Mathlib.Nat.{suc-mul}
use dream_recomp.Base.{
  ℕ, zero, suc, ◌+◌, ◌-◌, ◌*◌, ◌/◌, ◌%◌, ◌^◌, ◌≤◌, ◌<◌, ◌≡◌, ◌≢◌, arith, false, ◌==◌, if◌then◌else◌,
  length, get_or-set_self, length-set, bit_and, bit_or, ◌∙◌, ap, ap₂, sym, Bool-cases, inl, inr,
}
use dream_recomp.Base.Bits.{bit_and_mask}
use dream_recomp.Mem.Machine.{Machine, Devices}
use dream_recomp.Sh4.Dmac.{
  Dmac, Channel, channel, set_channel, unit_size, unit_count, step, copy_unit, copy_units, complete,
  manual_dma, kte, kie, blank_channel,
}

-- An address after `count` units.
abbrev pub moved : ℕ → ℕ → ℕ → ℕ → ℕ
moved count mode size a =
    if mode == 1
    then (a + count * size) % 2 ^ 32
    else if mode == 2
    then (a + count * (2 ^ 32 - size)) % 2 ^ 32
    else a

moved-step :
    (count mode size a : ℕ)
    → size ≤ 32
    → a < 2 ^ 32
    → moved count mode size (step mode size a) ≡ moved (suc count) mode size a
moved-step count mode size a s h = ground (arith, suc-mul count size, suc-mul count (2 ^ 32 - size))

moved-none : (mode size a : ℕ) → a < 2 ^ 32 → moved 0 mode size a ≡ a
moved-none mode size a h = ground arith

step-lt : (mode size a : ℕ) → a < 2 ^ 32 → step mode size a < 2 ^ 32
step-lt mode size a h = ground arith

-- A channel whose addresses have advanced over a number of units.
abbrev pub advanced : ℕ → ℕ → ℕ → ℕ → Channel → Channel
advanced count smode dmode ts c = record c {
  sar = moved count smode ts c.sar;
  dar = moved count dmode ts c.dar;
}

module _ {D : Type 0} (devices : Devices D) where
  copy_units-advanced :
      (count smode dmode ts : ℕ) (c : Channel) (m : Machine D)
      → ts ≤ 32
      → c.sar < 2 ^ 32
      → c.dar < 2 ^ 32
      → (copy_units devices count smode dmode ts (c, m)).0 ≡ advanced count smode dmode ts c
  unfolding copy_units
  copy_units-advanced zero smode dmode ts c m s p q =
      ap₂ (λ sar dar. record c { sar = sar; dar = dar }) (sym (moved-none smode ts c.sar p))
        (sym (moved-none dmode ts c.dar q))
  copy_units-advanced (suc count) smode dmode ts c m s p q =
      copy_units-advanced count smode dmode ts
        (record c { sar = step smode ts c.sar; dar = step dmode ts c.dar })
        (copy_unit devices ts c.dar c.sar m) s (step-lt smode ts c.sar p) (step-lt dmode ts c.dar q)
      ∙ ap₂ (λ sar dar. record c { sar = sar; dar = dar }) (moved-step count smode ts c.sar s p)
          (moved-step count dmode ts c.dar s q)

unit_size-le : (ts : ℕ) → unit_size ts ≤ 32
unit_size-le ts = grind arith

nonzero : (a : ℕ) → a ≢ 0 → (a == 0) ≡ false
nonzero a h = ground (arith, h)

module _ {D : Type 0} (devices : Devices D) (on_transfer_end : ℕ → Dmac D → Dmac D)
    (hook_keeps : (n : ℕ) (d : Dmac D) → (on_transfer_end n d).ch ≡ d.ch) where
  complete-channel :
      (n : ℕ) (d : Dmac D)
      → n < 4
      → n < length d.ch
      → channel (complete devices on_transfer_end n d) n
        ≡ record (channel d n) { chcr = bit_or (channel d n).chcr kte; tcr = 0 }
  unfolding complete set_channel
  complete-channel n d four h =
      let low : bit_and n 3 ≡ n = omega (arith, bit_and_mask 2 n) in
      let c = channel d n in
      let ended = record c { chcr = bit_or c.chcr kte; tcr = 0 } in
      elim (Bool-cases (bit_and c.chcr kie == 0)) [
        | inl quiet ↦ rw (low, quiet) (get_or-set_self d.ch n ended blank_channel h)
        | inr tells ↦
            rw (low, tells, hook_keeps n (set_channel n ended d))
              (get_or-set_self d.ch n ended blank_channel h)
      ]

  -- A manual transfer of channel `n` ends: its addresses have moved by the number of units, up, down or
  -- not as CHCR says, its count is 0 and TE is set. Conditions: the channel is one of four, CHCR
  -- names a size, the addresses have 32 bits, and the hook leaves the channels alone.
  pub manual_dma-channel :
      (n : ℕ) (d : Dmac D)
      → n < 4
      → n < length d.ch
      → unit_size (bit_and ((channel d n).chcr / 2 ^ 4) 7) ≢ 0
      → (channel d n).sar < 2 ^ 32
      → (channel d n).dar < 2 ^ 32
      → channel (manual_dma devices on_transfer_end n d) n
        ≡ record (advanced
            (unit_count (channel d n).tcr)
            (bit_and ((channel d n).chcr / 2 ^ 12) 3)
            (bit_and ((channel d n).chcr / 2 ^ 14) 3)
            (unit_size (bit_and ((channel d n).chcr / 2 ^ 4) 7))
            (channel d n)) { tcr = 0; chcr = bit_or (channel d n).chcr kte }
  unfolding manual_dma set_channel
  manual_dma-channel n d four h some_size p q =
      let c = channel d n in
      let ts = unit_size (bit_and (c.chcr / 2 ^ 4) 7) in
      let smode = bit_and (c.chcr / 2 ^ 12) 3 in
      let dmode = bit_and (c.chcr / 2 ^ 14) 3 in
      let (c', m') = copy_units devices (unit_count c.tcr) smode dmode ts (c, d.memory) in
      let copied = record (set_channel n c' d) {
        memory = m';
        manual_transfers = (d.manual_transfers + 1) % 2 ^ 64;
      } in
      let moved_on =
        get_or-set_self d.ch n c' blank_channel h
        ∙ copy_units-advanced devices (unit_count c.tcr) smode dmode ts c d.memory (unit_size-le _)
            p q in
      rw (nonzero ts some_size) (
        complete-channel n copied four (omega (arith, length-set d.ch n c'))
        ∙ ap (λ (e : Channel). record e { chcr = bit_or e.chcr kte; tcr = 0 }) moved_on)
