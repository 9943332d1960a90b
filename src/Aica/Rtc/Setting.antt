-- ===== src/Aica/Rtc/Setting.antt =====
-- Setting the real-time clock: a program unlocks it, writes the low half, then the high half.
use dream_recomp.Base.{ℕ, ◌+◌, ◌*◌, ◌/◌, ◌%◌, ◌^◌, ◌<◌, ◌≡◌, refl, ap, arith, bit_and, bit_or}
use dream_recomp.Base.Bits.{bit_and_mask, bit_and_field, bit_or_fields, bit_or_comm}
use dream_recomp.Aica.Rtc.{Rtc, read, write, write_hi, write_lo}

low_half :
    (v s : ℕ)
    → bit_or (bit_and s 0xffff_0000) (bit_and v 0xffff) ≡ s / 2 ^ 16 % 2 ^ 16 * 2 ^ 16 + v % 2 ^ 16
low_half v s =
    rw (bit_and_field 16 16 s, bit_and_mask 16 v)
      (bit_or_fields 16 (s / 2 ^ 16 % 2 ^ 16) (v % 2 ^ 16) (omega arith))

high_half :
    (v s : ℕ)
    → bit_or (bit_and s 0xffff) (bit_and v 0xffff * 2 ^ 16) ≡ v % 2 ^ 16 * 2 ^ 16 + s % 2 ^ 16
high_half v s =
    rw (bit_and_mask 16 s, bit_and_mask 16 v, bit_or_comm (s % 2 ^ 16) (v % 2 ^ 16 * 2 ^ 16))
      (bit_or_fields 16 (v % 2 ^ 16) (s % 2 ^ 16) (omega arith))

halves :
    (v s : ℕ)
    → v < 2 ^ 32
    → bit_or
        (bit_and (bit_or (bit_and s 0xffff_0000) (bit_and v 0xffff)) 0xffff)
        (bit_and (v / 2 ^ 16) 0xffff * 2 ^ 16)
      ≡ v
halves v s h =
    let low = bit_or (bit_and s 0xffff_0000) (bit_and v 0xffff) in
    omega (arith, high_half (v / 2 ^ 16) low, low_half v s)

set_clock :
    (v : ℕ) (c : Rtc)
    → v < 2 ^ 32
    → write 0x71_0000 (v / 2 ^ 16) (write 0x71_0004 v (write 0x71_0008 1 c))
      ≡ record { seconds = v; enable = 0 }
unfolding write write_hi write_lo
set_clock v c h = ap (λ n. record { seconds = n; enable = 0 }) (halves v c.seconds h)

joined : (v : ℕ) → v < 2 ^ 32 → bit_and (v / 2 ^ 16) 0xffff * 2 ^ 16 + bit_and v 0xffff ≡ v
joined v h = omega (arith, bit_and_mask 16 (v / 2 ^ 16), bit_and_mask 16 v)

locked :
    (v w : ℕ)
    → v < 2 ^ 32
    → let s : Rtc = record { seconds = v; enable = 0 } in
      ((read 0x71_0000 s * 2 ^ 16 + read 0x71_0004 s ≡ v) × (read 0x71_0008 s ≡ 0))
      × ((write 0x71_0000 w s ≡ s) × (write 0x71_0004 w s ≡ s))
unfolding read write write_hi write_lo
locked v w h = ((joined v h, refl), (refl, refl))

-- A program that unlocks the clock, writes the low half of a time of 32 bits and then its upper half
-- reads the time back from the two halves and finds the clock locked, whatever it was before; writes
-- of either half then leave it as it is.
pub set_clock-read :
    (v w : ℕ) (c : Rtc)
    → v < 2 ^ 32
    → let s : Rtc = write 0x71_0000 (v / 2 ^ 16) (write 0x71_0004 v (write 0x71_0008 1 c)) in
      ((read 0x71_0000 s * 2 ^ 16 + read 0x71_0004 s ≡ v) × (read 0x71_0008 s ≡ 0))
      × ((write 0x71_0000 w s ≡ s) × (write 0x71_0004 w s ≡ s))
set_clock-read v w c h = rw (set_clock v c h) (locked v w h)
