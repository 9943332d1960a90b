-- ===== src/Base/Bits.antt =====
-- Words of 32 bits, single bits of a word, and the laws of `&`, `|` and `^` on bits.
mod Digits
pub mod Assoc
pub mod Or
pub mod Split
use Prim.Native.Nat.{ℕ, zero, suc, ◌+◌, ◌-◌, ◌*◌, ◌/◌, ◌%◌, ◌^◌, ◌≤◌, ◌<◌, min, max}
use Prim.Native.Nat.{bit_and, bit_or, bit_xor, bit_and-bitwise}
use mathlib.Core.Path.{◌≡◌, refl, ap, ap₂}
use native.Mathlib.Omega.{arith}
use native.Mathlib.Nat.{pow-suc, div-div-eq-div-mul, mul_comm, one-le-pow, div-add-mod', div-one}
use Digits.{bit_and_step, bit_or_step, bit_xor_step}

-- `static_cast<std::uint32_t>`.
abbrev pub u32 : ℕ → ℕ
u32 n = n % 2 ^ 32

-- Bit `k` of a word, `(x >> k) & 1`.
abbrev pub bit_at : ℕ → ℕ → ℕ
bit_at x k = x / 2 ^ k % 2

pub div-pow-suc : (x k : ℕ) → x / 2 ^ suc k ≡ x / 2 / 2 ^ k
div-pow-suc x k = rw (div-div-eq-div-mul, pow-suc) (rw mul_comm)

halve_and : (a b : ℕ) → bit_and a b / 2 ≡ bit_and (a / 2) (b / 2)
halve_and a b = omega (arith, bit_and_step a b)

pub halve_or : (a b : ℕ) → bit_or a b / 2 ≡ bit_or (a / 2) (b / 2)
halve_or a b = omega (arith, bit_or_step a b)

bit_xor_zeros : (a b : ℕ) → a ≤ 0 → b ≤ 0 → bit_xor a b ≡ 0
bit_xor_zeros zero zero p q = refl
bit_xor_zeros zero (suc b) p q = absurd (omega arith)
bit_xor_zeros (suc a) b p q = absurd (omega arith)

bit_or_zeros : (a b : ℕ) → a ≤ 0 → b ≤ 0 → bit_or a b ≡ 0
bit_or_zeros zero zero p q = refl
bit_or_zeros zero (suc b) p q = absurd (omega arith)
bit_or_zeros (suc a) b p q = absurd (omega arith)

times_one : (x : ℕ) → x * 1 ≡ x
times_one x = omega arith

bit_or_above_zero : (q r s : ℕ) → r < 1 → bit_or (q * 1 + r) (s * 1) ≡ bit_or q s * 1 + r
bit_or_above_zero q r s p = omega (arith, ap₂ bit_or (plain q r p) (times_one s))
  where
    plain : (q r : ℕ) → r < 1 → q * 1 + r ≡ q
    plain q r p = omega arith

pub half_sum : (q k r : ℕ) → (q * 2 ^ suc k + r) / 2 ≡ q * 2 ^ k + r / 2
half_sum q k r = omega (arith, ap (λ (t : ℕ). q * t) (pow-suc 2 k))

half_field : (q k : ℕ) → q * 2 ^ suc k / 2 ≡ q * 2 ^ k
half_field q k = omega (arith, ap (λ (t : ℕ). q * t) (pow-suc 2 k))

pub half_pow : (k : ℕ) → 2 ^ suc k / 2 ≡ 2 ^ k
half_pow k = omega (arith, pow-suc 2 k)

pub bit_at-bit_and : (k a b : ℕ) → bit_at (bit_and a b) k ≡ min (bit_at a k) (bit_at b k)
bit_at-bit_and zero a b = omega (arith, bit_and_step a b)
bit_at-bit_and (suc k) a b = simp (div-pow-suc, halve_and) (bit_at-bit_and k (a / 2) (b / 2))

pub bit_at-bit_or : (k a b : ℕ) → bit_at (bit_or a b) k ≡ max (bit_at a k) (bit_at b k)
bit_at-bit_or zero a b = omega (arith, bit_or_step a b)
bit_at-bit_or (suc k) a b = simp (div-pow-suc, halve_or) (bit_at-bit_or k (a / 2) (b / 2))

halve_xor : (a b : ℕ) → bit_xor a b / 2 ≡ bit_xor (a / 2) (b / 2)
halve_xor a b = omega (arith, bit_xor_step a b)

pub bit_at-bit_xor : (k a b : ℕ) → bit_at (bit_xor a b) k ≡ (bit_at a k + bit_at b k) % 2
bit_at-bit_xor zero a b = omega (arith, bit_xor_step a b)
bit_at-bit_xor (suc k) a b = simp (div-pow-suc, halve_xor) (bit_at-bit_xor k (a / 2) (b / 2))

-- `and`, `or` and `xor` of numbers of `k` bits have `k` bits.
pub bit_xor-lt : (k a b : ℕ) → a < 2 ^ k → b < 2 ^ k → bit_xor a b < 2 ^ k
bit_xor-lt zero a b p q =
    omega (arith, bit_xor_step a b, bit_xor_zeros a b (omega arith) (omega arith))
bit_xor-lt (suc k) a b p q = omega (
  arith,
  pow-suc 2 k,
  bit_xor_step a b,
  bit_xor-lt k (a / 2) (b / 2) (omega (arith, pow-suc 2 k)) (omega (arith, pow-suc 2 k)),
)

pub bit_or-lt : (k a b : ℕ) → a < 2 ^ k → b < 2 ^ k → bit_or a b < 2 ^ k
bit_or-lt zero a b p q =
    omega (arith, bit_or_step a b, bit_or_zeros a b (omega arith) (omega arith))
bit_or-lt (suc k) a b p q = omega (
  arith,
  pow-suc 2 k,
  bit_or_step a b,
  bit_or-lt k (a / 2) (b / 2) (omega (arith, pow-suc 2 k)) (omega (arith, pow-suc 2 k)),
)

pub bit_and-le_right : (n a b : ℕ) → a ≤ n → bit_and a b ≤ b
bit_and-le_right zero zero b p = omega (arith, bit_and-bitwise 0 b)
bit_and-le_right zero (suc a) b p = absurd (omega arith)
bit_and-le_right (suc n) zero b p = omega (arith, bit_and-bitwise 0 b)
bit_and-le_right (suc n) (suc a) b p =
    omega (arith, bit_and_step (suc a) b, bit_and-le_right n (suc a / 2) (b / 2) (omega arith))

bit_and-zero : (n a : ℕ) → a ≤ n → bit_and a 0 ≡ 0
bit_and-zero n a p = omega (arith, bit_and-le_right n a 0 p)

-- Testing one bit with `&`.
pub bit_and-pow : (k a : ℕ) → bit_and a (2 ^ k) ≡ bit_at a k * 2 ^ k
bit_and-pow zero a = omega (arith, bit_and_step a 1, bit_and-zero (a / 2) (a / 2) (omega arith))
bit_and-pow (suc k) a = rw div-pow-suc (
    omega (
      arith,
      pow-suc 2 k,
      bit_and_step a (2 ^ suc k),
      bit_and-pow k (a / 2),
      ap (bit_and (a / 2)) (half_pow k),
      ap (λ (t : ℕ). bit_at (a / 2) k * t) (pow-suc 2 k),
    ))

half_mask : (k : ℕ) → (2 ^ suc k - 1) / 2 ≡ 2 ^ k - 1
half_mask k = omega (arith, pow-suc 2 k)

pub mod-pow-suc : (k a : ℕ) → a % 2 ^ suc k ≡ a / 2 % 2 ^ k * 2 + a % 2
mod-pow-suc k a = omega (
  arith,
  div-add-mod' a (2 ^ suc k),
  div-add-mod' (a / 2) (2 ^ k),
  ap (λ (t : ℕ). t * 2 ^ suc k) (div-pow-suc a k),
  ap (λ (t : ℕ). a / 2 / 2 ^ k * t) (pow-suc 2 k),
)

-- A mask of `k` ones is the remainder by `2 ^ k`.
pub bit_and_mask : (k a : ℕ) → bit_and a (2 ^ k - 1) ≡ a % 2 ^ k
bit_and_mask zero a = omega (arith, bit_and-zero a a (omega arith))
bit_and_mask (suc k) a = omega (
  arith,
  mod-pow-suc k a,
  one-le-pow k 2,
  pow-suc 2 k,
  bit_and_step a (2 ^ suc k - 1),
  ap (bit_and (a / 2)) (half_mask k),
  bit_and_mask k (a / 2),
)

pub bit_or-zero : (n a : ℕ) → a ≤ n → bit_or a 0 ≡ a
bit_or-zero n zero p = refl
bit_or-zero zero (suc a) p = absurd (omega arith)
bit_or-zero (suc n) (suc a) p =
    omega (arith, bit_or_step (suc a) 0, bit_or-zero n (suc a / 2) (omega arith))

-- `|` of fields that do not overlap is their sum.
pub bit_or_fields : (k q r : ℕ) → r < 2 ^ k → bit_or (q * 2 ^ k) r ≡ q * 2 ^ k + r
bit_or_fields zero q zero p = omega (arith, bit_or-zero (q * 1) (q * 1) (omega arith))
bit_or_fields zero q (suc r) p = absurd (omega arith)
bit_or_fields (suc k) q r p = omega (
  arith,
  bit_or_step (q * 2 ^ suc k) r,
  ap (λ (t : ℕ). q * t) (pow-suc 2 k),
  pow-suc 2 k,
  ap (λ (t : ℕ). bit_or t (r / 2)) (half_field q k),
  bit_or_fields k q (r / 2) (omega (arith, pow-suc 2 k)),
)

field_zero : (w a : ℕ) → bit_and a ((2 ^ w - 1) * 1) ≡ a / 1 % 2 ^ w * 1
field_zero w a = omega (
  arith,
  ap (λ (t : ℕ). t % 2 ^ w) (div-one a),
  ap (bit_and a) (times_one (2 ^ w - 1)),
  bit_and_mask w a,
)

-- A mask of `w` ones above `k` zeros.
pub bit_and_field : (k w a : ℕ) → bit_and a ((2 ^ w - 1) * 2 ^ k) ≡ a / 2 ^ k % 2 ^ w * 2 ^ k
bit_and_field zero w a = field_zero w a
bit_and_field (suc k) w a = rw div-pow-suc (
    omega (
      arith,
      bit_and_step a ((2 ^ w - 1) * 2 ^ suc k),
      ap (bit_and (a / 2)) (half_field (2 ^ w - 1) k),
      ap (λ (t : ℕ). (2 ^ w - 1) * t) (pow-suc 2 k),
      ap (λ (t : ℕ). a / 2 / 2 ^ k % 2 ^ w * t) (pow-suc 2 k),
      bit_and_field k w (a / 2),
    ))

bit_or_comm_below : (n a b : ℕ) → a ≤ n → b ≤ n → bit_or a b ≡ bit_or b a
bit_or_comm_below zero zero zero p q = refl
bit_or_comm_below zero zero (suc b) p q = absurd (omega arith)
bit_or_comm_below zero (suc a) b p q = absurd (omega arith)
bit_or_comm_below (suc n) a b p q = omega (
  arith,
  bit_or_step a b,
  bit_or_step b a,
  bit_or_comm_below n (a / 2) (b / 2) (omega arith) (omega arith),
)

pub bit_or_comm : (a b : ℕ) → bit_or a b ≡ bit_or b a
bit_or_comm a b = bit_or_comm_below (a + b) a b (omega arith) (omega arith)

-- The same with a low part under both fields.
pub bit_or_above :
    (k q r s : ℕ) → r < 2 ^ k → bit_or (q * 2 ^ k + r) (s * 2 ^ k) ≡ bit_or q s * 2 ^ k + r
bit_or_above zero q r s p = bit_or_above_zero q r s (omega arith)
bit_or_above (suc k) q r s p = omega (
  arith,
  bit_or_step (q * 2 ^ suc k + r) (s * 2 ^ suc k),
  ap (λ (t : ℕ). q * t) (pow-suc 2 k),
  ap (λ (t : ℕ). s * t) (pow-suc 2 k),
  ap (λ (t : ℕ). bit_or q s * t) (pow-suc 2 k),
  pow-suc 2 k,
  ap₂ bit_or (half_sum q k r) (half_field s k),
  bit_or_above k q (r / 2) s (omega (arith, pow-suc 2 k)),
)
