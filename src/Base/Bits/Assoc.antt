-- ===== src/Base/Bits/Assoc.antt =====
-- `&` as an operation on numbers: it commutes and is associative.
use Prim.Native.Nat.{ℕ, zero, suc, ◌+◌, ◌/◌, ◌%◌, ◌≤◌, min, bit_and, bit_and-bitwise}
use mathlib.Core.Path.{◌≡◌, refl}
use native.Mathlib.Omega.{arith}
use dream_recomp.Base.Bits.Digits.{bit_and_step}

bit_and_bit : (a b : ℕ) → bit_and a b % 2 ≡ min (a % 2) (b % 2)
bit_and_bit a b = omega (arith, bit_and_step a b)

bit_and_half : (a b : ℕ) → bit_and a b / 2 ≡ bit_and (a / 2) (b / 2)
bit_and_half a b = omega (arith, bit_and_step a b)

bit_and_comm_below : (n a b : ℕ) → a ≤ n → b ≤ n → bit_and a b ≡ bit_and b a
bit_and_comm_below zero zero zero p q = refl
bit_and_comm_below zero zero (suc b) p q = absurd (omega arith)
bit_and_comm_below zero (suc a) b p q = absurd (omega arith)
bit_and_comm_below (suc n) a b p q = omega (
  arith,
  bit_and_step a b,
  bit_and_step b a,
  bit_and_comm_below n (a / 2) (b / 2) (omega arith) (omega arith),
)

pub bit_and_comm : (a b : ℕ) → bit_and a b ≡ bit_and b a
bit_and_comm a b = bit_and_comm_below (a + b) a b (omega arith) (omega arith)

pub bit_and-zero_left : (b : ℕ) → bit_and 0 b ≡ 0
bit_and-zero_left b = simp bit_and-bitwise refl

bit_and_assoc_below : (n a b c : ℕ) → a ≤ n → bit_and (bit_and a b) c ≡ bit_and a (bit_and b c)
bit_and_assoc_below zero zero b c p =
    rw (bit_and-zero_left b, bit_and-zero_left c, bit_and-zero_left (bit_and b c)) refl
bit_and_assoc_below zero (suc a) b c p = absurd (omega arith)
bit_and_assoc_below (suc n) a b c p = omega (
  arith,
  bit_and_step (bit_and a b) c,
  bit_and_step a (bit_and b c),
  bit_and_bit a b,
  bit_and_bit b c,
  halves a b c (bit_and_assoc_below n (a / 2) (b / 2) (c / 2) (omega arith)),
)
  where
    halves :
        (a b c : ℕ)
        → bit_and (bit_and (a / 2) (b / 2)) (c / 2) ≡ bit_and (a / 2) (bit_and (b / 2) (c / 2))
        → bit_and (bit_and a b / 2) (c / 2) ≡ bit_and (a / 2) (bit_and b c / 2)
    halves a b c h = rw (bit_and_half a b, bit_and_half b c) h

pub bit_and_assoc : (a b c : ℕ) → bit_and (bit_and a b) c ≡ bit_and a (bit_and b c)
bit_and_assoc a b c = bit_and_assoc_below a a b c (omega arith)
