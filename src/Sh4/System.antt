-- ===== src/Sh4/System.antt =====
-- runtime/include/dream/runtime/sh4/ops.h: the status register, the register banks, CMP/STR and the
-- unsigned long multiplication. The loops that swap two banks are recursions on them.
pub mod Status
use dream_recomp.Base.{
  ℕ, zero, suc, ◌*◌, ◌/◌, ◌%◌, ◌^◌, bit_and, bit_or, bit_xor, Bool, not, ◌||◌, ◌==◌, bit,
  if◌then◌else◌, List, [], ◌∷◌,
}
use dream_recomp.Base.Bits.{u32}
use dream_recomp.Sh4.Ctx.{Ctx, sr_t, sr_imask, sr_bl, sr_rb}
use dream_recomp.Sh4.Alu.{not32}

-- The loop that exchanges the first `n` registers of two banks.
unfoldable pub swap_banks : ℕ → List ℕ → List ℕ → List ℕ × List ℕ
swap_banks zero xs ys = (xs, ys)
swap_banks (suc n) [] ys = ([], ys)
swap_banks (suc n) (x ∷ xs) [] = (x ∷ xs, [])
swap_banks (suc n) (x ∷ xs) (y ∷ ys) = let (xs', ys') = swap_banks n xs ys in (y ∷ xs', x ∷ ys')

abbrev pub fpscr_fr : ℕ
fpscr_fr = 0x20_0000

abbrev pub sr_defined : ℕ
sr_defined = 0x7000_83f3

-- The registers after `write_sr`, by whether SR.RB changes.
unfoldable pub same_rb : ℕ → ℕ → Bool
same_rb a b = bit (not (bit_and a sr_rb == 0)) == bit (not (bit_and b sr_rb == 0))

unfoldable pub write_sr : Ctx → ℕ → Ctx
write_sr c v =
    let (r, r_bank) = if same_rb c.sr v then (c.r, c.r_bank) else swap_banks 8 c.r c.r_bank in
    record c {
      r = r;
      r_bank = r_bank;
      next_event =
          if bit_and (bit_xor c.sr v) (bit_or sr_bl sr_imask) == 0 then c.next_event else 0;
      sr = bit_and v sr_defined;
      t = bit_and v sr_t;
    }

unfoldable pub read_sr : Ctx → ℕ
read_sr c = bit_or (bit_and c.sr (not32 sr_t)) (bit_and c.t 1)

unfoldable pub frchg : Ctx → Ctx
frchg c =
    let (fr, xf) = swap_banks 16 c.fr c.xf in
    record c { fr = fr; xf = xf; fpscr = bit_xor c.fpscr fpscr_fr }

pub cmp_str : ℕ → ℕ → ℕ
cmp_str a b =
    let x = bit_xor a b in
    bit (
      bit_and x 0xff00_0000 == 0
      || (bit_and x 0x00ff_0000 == 0 || (bit_and x 0xff00 == 0 || bit_and x 0xff == 0)))

unfoldable pub dmulu : Ctx → ℕ → ℕ → Ctx
dmulu c rn rm =
    let product : ℕ = rn * rm in record c { mach = u32 (product / 2 ^ 32); macl = u32 product }
