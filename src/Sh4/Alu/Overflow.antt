-- ===== src/Sh4/Alu/Overflow.antt =====
-- The signed overflow flag of ADDV and SUBV.
use Prim.Native.Nat.{min}
use dream_recomp.Base.{ℕ, ◌+◌, ◌-◌, ◌/◌, ◌%◌, ◌^◌, ◌≤◌, ◌<◌, ◌≡◌, ◌↔◌, arith, bit_and, bit_xor}
use dream_recomp.Base.Bits.{bit_at-bit_and, bit_at-bit_xor, bit_xor-lt, bit_and-le_right}
use native.Mathlib.Nat.{le_refl}
use dream_recomp.Base.Int.{signed32, ◌+ℤ◌, ◌-ℤ◌}
use dream_recomp.Sh4.Ctx.{Ctx}
use dream_recomp.Sh4.Alu.{addv, subv, not32}

-- The flag of a word `x & y` below 2 ^ 32 is the product of the two sign bits.
sign_and :
    (x y : ℕ) → x < 2 ^ 32 → y < 2 ^ 32 → bit_and x y / 2 ^ 31 ≡ min (x / 2 ^ 31) (y / 2 ^ 31)
sign_and x y p q = omega (arith, bit_at-bit_and 31 x y, bit_and-le_right x x y (le_refl x))

sign_xor :
    (x y : ℕ) → x < 2 ^ 32 → y < 2 ^ 32 → bit_xor x y / 2 ^ 31 ≡ (x / 2 ^ 31 + y / 2 ^ 31) % 2
sign_xor x y p q = omega (arith, bit_at-bit_xor 31 x y, bit_xor-lt 32 x y p q)

addv_flag :
    (a b res : ℕ)
    → a < 2 ^ 32
    → b < 2 ^ 32
    → res < 2 ^ 32
    → bit_and (not32 (bit_xor a b)) (bit_xor a res) / 2 ^ 31
      ≡ min (1 - (a / 2 ^ 31 + b / 2 ^ 31) % 2) ((a / 2 ^ 31 + res / 2 ^ 31) % 2)
addv_flag a b res p q r = omega (
  arith,
  sign_and (not32 (bit_xor a b)) (bit_xor a res) (omega arith) (bit_xor-lt 32 a res p r),
  sign_xor a b p q,
  sign_xor a res p r,
  bit_xor-lt 32 a b p q,
)

subv_flag :
    (a b res : ℕ)
    → a < 2 ^ 32
    → b < 2 ^ 32
    → res < 2 ^ 32
    → bit_and (bit_xor a b) (bit_xor a res) / 2 ^ 31
      ≡ min ((a / 2 ^ 31 + b / 2 ^ 31) % 2) ((a / 2 ^ 31 + res / 2 ^ 31) % 2)
subv_flag a b res p q r = omega (
  arith,
  sign_and (bit_xor a b) (bit_xor a res) (bit_xor-lt 32 a b p q) (bit_xor-lt 32 a res p r),
  sign_xor a b p q,
  sign_xor a res p r,
)

-- On 32-bit words ADDV sets T to 0 or 1, and to 0 exactly when its result is the true signed
-- sum.
pub addv_overflow :
    (c : Ctx) (a b : ℕ)
    → a < 2 ^ 32
    → b < 2 ^ 32
    → ((addv c a b).0.t ≤ 1)
      × (((addv c a b).0.t ≡ 0) ↔ (signed32 (addv c a b).1 ≡ signed32 a +ℤ signed32 b))
unfolding addv
addv_overflow c a b p q = ground (arith, addv_flag a b ((a + b) % 2 ^ 32))

-- On 32-bit words SUBV sets T to 0 or 1, and to 0 exactly when its result is the true signed
-- difference.
pub subv_overflow :
    (c : Ctx) (a b : ℕ)
    → a < 2 ^ 32
    → b < 2 ^ 32
    → ((subv c a b).0.t ≤ 1)
      × (((subv c a b).0.t ≡ 0) ↔ (signed32 (subv c a b).1 ≡ signed32 a -ℤ signed32 b))
unfolding subv
subv_overflow c a b p q = ground (arith, subv_flag a b ((a + 2 ^ 32 - b) % 2 ^ 32))
