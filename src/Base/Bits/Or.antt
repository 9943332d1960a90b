-- ===== src/Base/Bits/Or.antt =====
-- `|` as an operation on numbers: it is associative.
use Prim.Native.Nat.{ℕ, zero, suc, ◌/◌, ◌%◌, ◌≤◌, max, bit_or}
use mathlib.Core.Path.{◌≡◌, refl, ◌∙◌}
use native.Mathlib.Omega.{arith}
use dream_recomp.Base.Bits.Digits.{bit_or_step}
use dream_recomp.Base.Bits.{halve_or, bit_or-zero, bit_or_comm}

bit_or_bit : (a b : ℕ) → bit_or a b % 2 ≡ max (a % 2) (b % 2)
bit_or_bit a b = omega (arith, bit_or_step a b)

bit_or_zero_left : (b : ℕ) → bit_or 0 b ≡ b
bit_or_zero_left b = bit_or_comm 0 b ∙ bit_or-zero b b (omega arith)

bit_or_assoc_below : (n a b c : ℕ) → a ≤ n → bit_or (bit_or a b) c ≡ bit_or a (bit_or b c)
bit_or_assoc_below zero zero b c p = rw (bit_or_zero_left b, bit_or_zero_left (bit_or b c)) refl
bit_or_assoc_below zero (suc a) b c p = absurd (omega arith)
bit_or_assoc_below (suc n) a b c p = omega (
  arith,
  bit_or_step (bit_or a b) c,
  bit_or_step a (bit_or b c),
  bit_or_bit a b,
  bit_or_bit b c,
  halves a b c (bit_or_assoc_below n (a / 2) (b / 2) (c / 2) (omega arith)),
)
  where
    halves :
        (a b c : ℕ)
        → bit_or (bit_or (a / 2) (b / 2)) (c / 2) ≡ bit_or (a / 2) (bit_or (b / 2) (c / 2))
        → bit_or (bit_or a b / 2) (c / 2) ≡ bit_or (a / 2) (bit_or b c / 2)
    halves a b c h = rw (halve_or a b, halve_or b c) h

pub bit_or_assoc : (a b c : ℕ) → bit_or (bit_or a b) c ≡ bit_or a (bit_or b c)
bit_or_assoc a b c = bit_or_assoc_below a a b c (omega arith)

-- The last two of three operands change places.
pub bit_or_swap : (a b c : ℕ) → bit_or (bit_or a b) c ≡ bit_or (bit_or a c) b
bit_or_swap a b c = rw (bit_or_assoc a b c, bit_or_assoc a c b, bit_or_comm b c) refl
