-- ===== src/Sh4/Examples.antt =====
-- The theorems of the SH-4 at concrete registers.
use dream_recomp.Base.{
  ℕ, ◌+◌, ◌*◌, ◌^◌, ◌<◌, ◌≤◌, ◌≡◌, bit_and, ◌↔◌, refl, arith, replicate, [], ◌∷◌, get_or,
}
use dream_recomp.Base.Int.{signed32, ◌+ℤ◌, ◌-ℤ◌}
use dream_recomp.Sh4.Ctx.{Ctx}
use dream_recomp.Sh4.Alu.{addc, addv, subv, div1}
use dream_recomp.Sh4.Alu.Carry.{addc_exact}
use dream_recomp.Sh4.Alu.Overflow.{addv_overflow, subv_overflow}
use dream_recomp.Sh4.Alu.Divide.{Dividing, div1_step}
use dream_recomp.Sh4.Alu.Divide.Loop.{divide, divide_exact}
use dream_recomp.Sh4.Intc as intc
use dream_recomp.Sh4.System.{same_rb, sr_defined, read_sr, write_sr}
use dream_recomp.Sh4.System.Status.{exchanged, read_sr-write_sr, write_sr-banks}

abbrev ctx : Ctx
ctx = record {
  r = replicate 16 0;
  r_bank = replicate 8 0;
  pc = 0;
  pr = 0;
  gbr = 0;
  vbr = 0;
  sr = 0x4000_00f0;
  ssr = 0;
  spc = 0;
  sgr = 0;
  dbr = 0;
  mach = 0;
  macl = 0;
  fpul = 0;
  fpscr = 0;
  t = 1;
  fr = replicate 16 0;
  xf = replicate 16 0;
  cycles = 0;
  next_event = 0;
}

addc_exact_example :
    ((addc ctx 0xffff_ffff 0).1 + 2 ^ 32 * (addc ctx 0xffff_ffff 0).0.t ≡ 0xffff_ffff + 0 + 1)
    × ((addc ctx 0xffff_ffff 0).1 < 2 ^ 32)
addc_exact_example = addc_exact ctx 0xffff_ffff 0 (omega arith) (omega arith) (omega arith)

addv_overflow_example :
    ((addv ctx 0x7fff_ffff 1).0.t ≤ 1)
    × (((addv ctx 0x7fff_ffff 1).0.t ≡ 0)
        ↔ (signed32 (addv ctx 0x7fff_ffff 1).1 ≡ signed32 0x7fff_ffff +ℤ signed32 1))
addv_overflow_example = addv_overflow ctx 0x7fff_ffff 1 (omega arith) (omega arith)

subv_overflow_example :
    ((subv ctx 0x8000_0000 1).0.t ≤ 1)
    × (((subv ctx 0x8000_0000 1).0.t ≡ 0)
        ↔ (signed32 (subv ctx 0x8000_0000 1).1 ≡ signed32 0x8000_0000 -ℤ signed32 1))
subv_overflow_example = subv_overflow ctx 0x8000_0000 1 (omega arith) (omega arith)

div1_step_example :
    (rem : ℕ) × Dividing (div1 ctx 5 7).0 (div1 ctx 5 7).1 7 rem
    × (rem + (div1 ctx 5 7).0.t * 7 ≡ 2 * 5 + 1)
    × ((div1 ctx 5 7).0.t ≤ 1)
div1_step_example =
    div1_step ctx 5 7 5 (omega arith) (omega arith)
      (record { no_m = refl; small = omega arith; in_word = omega arith; restored = refl })

divide_exact_example :
    (rem : ℕ) × ((divide ctx 1 9 7).lo * 7 + rem ≡ 1 * 2 ^ 32 + 9)
    × Dividing (divide ctx 1 9 7).ctx (divide ctx 1 9 7).rn 7 rem
divide_exact_example = divide_exact ctx 1 9 7 (omega arith) (omega arith) (omega arith)

-- Timer 0 and IRL11 are pending.
abbrev two_pending : intc.Intc
two_pending = record { ipra = 0xf000; iprb = 0; iprc = 0; icr = 0; pending_bits = 10 }

select-Best_example : intc.Selection.Best two_pending 2 intc.all_irqs (intc.select two_pending 0x20)
select-Best_example = intc.Selection.select-Best two_pending 0x20 refl

read_sr-write_sr_example : read_sr (write_sr ctx 0xffff_ffff) ≡ bit_and 0xffff_ffff sr_defined
read_sr-write_sr_example = read_sr-write_sr ctx 0xffff_ffff

-- R0 to R7 of the two banks are told apart.
abbrev banked : Ctx
banked = record ctx {
  r = 10 ∷ 11 ∷ 12 ∷ 13 ∷ 14 ∷ 15 ∷ 16 ∷ 17 ∷ replicate 8 18;
  r_bank = 20 ∷ 21 ∷ 22 ∷ 23 ∷ 24 ∷ 25 ∷ 26 ∷ 27 ∷ [];
}

write_sr-banks_example :
    ((get_or (write_sr banked 0x6000_0000).r 3 0 ≡ 23)
      × (get_or (write_sr banked 0x6000_0000).r_bank 3 0 ≡ 13))
    × ((write_sr (write_sr banked 0x6000_0000) 0x4000_0001).r ≡ banked.r)
    × ((write_sr (write_sr banked 0x6000_0000) 0x4000_0001).r_bank ≡ banked.r_bank)
unfolding same_rb exchanged
write_sr-banks_example =
    write_sr-banks banked 0x6000_0000 0x4000_0001 3 (omega arith) (omega arith) refl
