-- ===== src/Base/Bits/Split.antt =====
-- `&` with a mask of several fields, and `^` with the sign bit.
use Prim.Native.Nat.{ℕ, zero, suc, ◌+◌, ◌*◌, ◌/◌, ◌%◌, ◌^◌, ◌<◌, bit_and, bit_xor}
use mathlib.Core.Path.{◌≡◌, refl, ap, ap₂}
use native.Mathlib.Omega.{arith}
use native.Mathlib.Nat.{pow-suc, div-one}
use dream_recomp.Base.Bits.Digits.{bit_and_step, bit_xor_step}
use dream_recomp.Base.Bits.{mod-pow-suc, div-pow-suc, half_sum, half_pow}
use dream_recomp.Base.Bits.Assoc.{bit_and-zero_left}

pub bit_and_split :
    (k a h l : ℕ)
    → l < 2 ^ k
    → bit_and a (h * 2 ^ k + l) ≡ bit_and (a / 2 ^ k) h * 2 ^ k + bit_and (a % 2 ^ k) l
bit_and_split zero a h l p = omega (
  arith,
  ap (bit_and a) (plain h l p),
  ap (λ (t : ℕ). bit_and t h) (div-one a),
  ap (λ (t : ℕ). bit_and t l) (no_low a),
  bit_and-zero_left l,
)
  where
    plain : (h l : ℕ) → l < 1 → h * 1 + l ≡ h
    plain h l p = omega arith

    no_low : (a : ℕ) → a % 1 ≡ 0
    no_low a = omega arith
bit_and_split (suc k) a h l p = rw (div-pow-suc a k) (
    omega (
      arith,
      bit_and_step a (h * 2 ^ suc k + l),
      bit_and_step (a % 2 ^ suc k) l,
      ap (bit_and (a / 2)) (half_sum h k l),
      bit_and_split k (a / 2) h (l / 2) (omega (arith, pow-suc 2 k)),
      ap (λ (t : ℕ). bit_and t (l / 2)) (half_mod k a),
      ap (λ (t : ℕ). bit_and (a / 2 / 2 ^ k) h * t) (pow-suc 2 k),
      ap (λ (t : ℕ). h * t) (pow-suc 2 k),
      mod-pow-suc k a,
    ))
  where
    half_mod : (k a : ℕ) → a % 2 ^ suc k / 2 ≡ a / 2 % 2 ^ k
    half_mod k a = omega (arith, mod-pow-suc k a)

pub bit_xor_top_clear : (k v : ℕ) → v < 2 ^ k → bit_xor v (2 ^ k) ≡ v + 2 ^ k
bit_xor_top_clear zero zero p = refl
bit_xor_top_clear zero (suc v) p = absurd (omega arith)
bit_xor_top_clear (suc k) v p = omega (
  arith,
  bit_xor_step v (2 ^ suc k),
  ap (bit_xor (v / 2)) (half_pow k),
  bit_xor_top_clear k (v / 2) (omega (arith, pow-suc 2 k)),
  pow-suc 2 k,
)

pub bit_xor_top_set : (k v : ℕ) → v < 2 ^ k → bit_xor (v + 2 ^ k) (2 ^ k) ≡ v
bit_xor_top_set zero zero p = refl
bit_xor_top_set zero (suc v) p = absurd (omega arith)
bit_xor_top_set (suc k) v p = omega (
  arith,
  bit_xor_step (v + 2 ^ suc k) (2 ^ suc k),
  ap₂ bit_xor (half_top k v) (half_pow k),
  bit_xor_top_set k (v / 2) (omega (arith, pow-suc 2 k)),
  pow-suc 2 k,
)
  where
    half_top : (k v : ℕ) → (v + 2 ^ suc k) / 2 ≡ v / 2 + 2 ^ k
    half_top k v = omega (arith, pow-suc 2 k)
