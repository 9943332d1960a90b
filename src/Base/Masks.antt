-- ===== src/Base/Masks.antt =====
-- The bits of the masks `1u << k` and `~x`.
use Prim.Native.Nat.{ℕ, zero, suc, ◌-◌, ◌/◌, ◌%◌, ◌^◌, ◌<◌}
use mathlib.Core.Path.{◌≡◌, refl, ◌∙◌}
use native.Mathlib.Omega.{arith}
use native.Mathlib.Nat.{pow-suc, one-le-pow}
use dream_recomp.Base.Tests.{◌==◌, bit}
use dream_recomp.Base.Bits.{u32, bit_at, div-pow-suc, half_pow}

pub pow-lt : (a w : ℕ) → a < w → 2 ^ a < 2 ^ w
pow-lt a zero h = elim h [ ]
pow-lt zero (suc w) h = omega (arith, pow-suc 2 w, one-le-pow w 2)
pow-lt (suc a) (suc w) h = omega (arith, pow-suc 2 w, pow-suc 2 a, pow-lt a w (omega arith))

half_one : (b : ℕ) → bit_at 1 (suc b) ≡ 0
half_one b = rw (div-pow-suc 1 b) (zero-div b)
  where
    zero-div : (n : ℕ) → 0 / 2 ^ n % 2 ≡ 0
    zero-div n = omega arith

pub bit_at-pow : (a b : ℕ) → bit_at (2 ^ a) b ≡ bit (a == b)
bit_at-pow zero zero = refl
bit_at-pow zero (suc b) = ground (arith, half_one b)
bit_at-pow (suc a) zero = ground (arith, pow-suc 2 a)
bit_at-pow (suc a) (suc b) =
    rw (div-pow-suc (2 ^ suc a) b, half_pow a) (bit_at-pow a b ∙ ground arith)

half_complement : (w x : ℕ) → x < 2 ^ suc w → (2 ^ suc w - 1 - x) / 2 ≡ 2 ^ w - 1 - x / 2
half_complement w x h = omega (arith, pow-suc 2 w)

pub bit_at-complement : (w b x : ℕ) → x < 2 ^ w → b < w → bit_at (2 ^ w - 1 - x) b ≡ 1 - bit_at x b
bit_at-complement zero b x h k = elim k [ ]
bit_at-complement (suc w) zero x h k = omega (arith, pow-suc 2 w, one-le-pow w 2)
bit_at-complement (suc w) (suc b) x h k =
    rw (div-pow-suc (2 ^ suc w - 1 - x) b, half_complement w x h, div-pow-suc x b)
      (bit_at-complement w b (x / 2) (omega (arith, pow-suc 2 w)) (omega arith))

pub u32-pow : (a : ℕ) → a < 32 → u32 (2 ^ a) ≡ 2 ^ a
u32-pow a h = small (2 ^ a) (pow-lt a 32 h)
  where
    small : (x : ℕ) → x < 2 ^ 32 → u32 x ≡ x
    small x h = omega arith
