-- ===== src/Base/Bits/Digits.antt =====
-- The lowest binary digit of `&`, `|` and `^`, taken off both operands at once.
use mathlib.Core.Path.{◌≡◌, refl}
use native.Mathlib.Omega.{arith}
use Prim.Native.Nat.{bit_and, bit_or, bit_xor, bit_and-bitwise, bit_or-bitwise, bit_xor-bitwise}
use Prim.Native.Nat.{ℕ, zero, suc, digits, differ, min, max, ◌<◌, ◌≤◌, ◌+◌, ◌*◌, ◌/◌, ◌%◌}

module _ (rest : ℕ → ℕ) (op : ℕ → ℕ → ℕ) where
  -- More fuel than the first operand needs changes nothing.
  spare_fuel :
      (x y more fuel : ℕ)
      → fuel ≤ more
      → x ≤ fuel
      → digits rest op more x y ≡ digits rest op fuel x y
  spare_fuel zero y zero zero h k = refl
  spare_fuel zero y (suc more) zero h k = refl
  spare_fuel zero y (suc more) (suc fuel) h k = refl
  spare_fuel x y zero (suc fuel) h k = absurd (omega arith)
  spare_fuel (suc x) y more zero h k = absurd (omega arith)
  spare_fuel (suc x) y (suc more) (suc fuel) h k =
      rw (spare_fuel (suc x / 2) (y / 2) more fuel (omega arith) (omega arith))

  pub last_digit :
      (x y : ℕ)
      → digits rest op (suc x) (suc x) y
        ≡ op (suc x % 2) (y % 2) + 2 * digits rest op (suc x / 2) (suc x / 2) (y / 2)
  last_digit x y =
      omega (arith, spare_fuel (suc x / 2) (y / 2) x (suc x / 2) (omega arith) (omega arith))

pub bit_and_step : (x y : ℕ) → bit_and x y ≡ min (x % 2) (y % 2) + 2 * bit_and (x / 2) (y / 2)
bit_and_step zero y = simp bit_and-bitwise (omega arith)
bit_and_step (suc x) y = simp bit_and-bitwise (last_digit (λ _. zero) min x y)

pub bit_or_step : (x y : ℕ) → bit_or x y ≡ max (x % 2) (y % 2) + 2 * bit_or (x / 2) (y / 2)
bit_or_step zero y = simp bit_or-bitwise (omega arith)
bit_or_step (suc x) y = simp bit_or-bitwise (last_digit (λ right. right) max x y)

-- `differ` of two digits is their sum without the carry.
differ_sum : (x y : ℕ) → x < 2 → y < 2 → differ x y ≡ (x + y) % 2
differ_sum zero y h k = omega arith
differ_sum (suc zero) zero h k = refl
differ_sum (suc zero) (suc zero) h k = refl
differ_sum (suc x) (suc (suc y)) h k = absurd (omega arith)
differ_sum (suc (suc x)) y h k = absurd (omega arith)

xor_digit : (x y : ℕ) → bit_xor x y ≡ differ (x % 2) (y % 2) + 2 * bit_xor (x / 2) (y / 2)
xor_digit zero y = simp bit_xor-bitwise (omega arith)
xor_digit (suc x) y = simp bit_xor-bitwise (last_digit (λ right. right) differ x y)

pub bit_xor_step : (x y : ℕ) → bit_xor x y ≡ (x % 2 + y % 2) % 2 + 2 * bit_xor (x / 2) (y / 2)
bit_xor_step x y =
    omega (arith, xor_digit x y, differ_sum (x % 2) (y % 2) (omega arith) (omega arith))
