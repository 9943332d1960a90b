-- ===== src/Sh4/Float.antt =====
-- runtime/include/dream/runtime/sh4/ops.h: the helpers of the FPU. A float is its bit pattern, so
-- that `f2u` and `u2f` are the identity; the host's arithmetic on patterns is a parameter.
use dream_recomp.Base.{
  ℕ, ◌+◌, ◌-◌, ◌*◌, ◌/◌, ◌^◌, bit_and, bit_xor, Bool, ◌==◌, if◌then◌else◌, get_or, set,
}
use dream_recomp.Base.Bits.{u32}
use dream_recomp.Base.Int.{ℤ, pattern_of}
use dream_recomp.Sh4.Ctx.{Ctx}
use dream_recomp.Sh4.Memory.{Memory}
use dream_recomp.Sh4.State.{State, load32, store32}
use dream_recomp.Sh4.System.{swap_banks, fpscr_fr}

-- The arithmetic of `float` (32) and `double` (64) on the host. The first argument of an operation
-- that rounds is the FPSCR whose mode `fenv::apply` has set.
pub record Floats : Type 0 where
  pub add32 : ℕ → ℕ → ℕ → ℕ
  pub sub32 : ℕ → ℕ → ℕ → ℕ
  pub mul32 : ℕ → ℕ → ℕ → ℕ
  pub div32 : ℕ → ℕ → ℕ → ℕ
  pub sqrt32 : ℕ → ℕ → ℕ
  pub fma32 : ℕ → ℕ → ℕ → ℕ → ℕ
  pub add64 : ℕ → ℕ → ℕ → ℕ
  pub sub64 : ℕ → ℕ → ℕ → ℕ
  pub mul64 : ℕ → ℕ → ℕ → ℕ
  pub div64 : ℕ → ℕ → ℕ → ℕ
  pub sqrt64 : ℕ → ℕ → ℕ
  pub eq32 : ℕ → ℕ → Bool
  pub ge32 : ℕ → ℕ → Bool
  pub gt32 : ℕ → ℕ → Bool
  pub eq64 : ℕ → ℕ → Bool
  pub ge64 : ℕ → ℕ → Bool
  pub gt64 : ℕ → ℕ → Bool
  pub is_nan32 : ℕ → Bool
  pub is_nan64 : ℕ → Bool
  pub of_int32 : ℕ → ℤ → ℕ
  pub of_int64 : ℕ → ℤ → ℕ
  pub truncate32 : ℕ → ℤ
  pub truncate64 : ℕ → ℤ
  pub widen : ℕ → ℕ
  pub narrow : ℕ → ℕ → ℕ
  -- `fsca_table`: the sine and the cosine of an entry.
  pub sine : ℕ → ℕ
  pub cosine : ℕ → ℕ

abbrev pub fpscr_pr : ℕ
fpscr_pr = 0x8_0000

abbrev pub fpscr_sz : ℕ
fpscr_sz = 0x10_0000

abbrev pub freg : Ctx → ℕ → ℕ
freg c i = get_or c.fr i 0

unfoldable pub set_freg : ℕ → ℕ → Ctx → Ctx
set_freg i v c = record c { fr = set c.fr i v }

-- The upper half of a pair stands in the register with the lower number.
unfoldable pub get_dr : Ctx → ℕ → ℕ
get_dr c n = get_or c.fr n 0 * 2 ^ 32 + get_or c.fr (n + 1) 0

unfoldable pub set_dr : ℕ → ℕ → Ctx → Ctx
set_dr n d c = record c { fr = set (set c.fr n (d / 2 ^ 32)) (n + 1) (u32 d) }

unfoldable pub get_xd : Ctx → ℕ → ℕ
get_xd c n = get_or c.xf n 0 * 2 ^ 32 + get_or c.xf (n + 1) 0

unfoldable pub set_xd : ℕ → ℕ → Ctx → Ctx
set_xd n d c = record c { xf = set (set c.xf n (d / 2 ^ 32)) (n + 1) (u32 d) }

-- `field & ~1u`.
abbrev pub even : ℕ → ℕ
even field = field - bit_and field 1

-- The lowest bit of the field selects the bank.
unfoldable pub fmov_pair_load : ℕ → ℕ → Ctx → Ctx
fmov_pair_load field v c =
    if bit_and field 1 == 0 then set_dr (even field) v c else set_xd (even field) v c

unfoldable pub fmov_pair_store : Ctx → ℕ → ℕ
fmov_pair_store c field =
    if bit_and field 1 == 0 then get_dr c (even field) else get_xd c (even field)

module _ {M : Type 0} (memory : Memory M) where
  unfoldable pub read_pair : ℕ → State M → State M × ℕ
  read_pair a s =
      let (s1, high) = load32 memory a s in
      let (s2, low) = load32 memory (u32 (a + 4)) s1 in (s2, high * 2 ^ 32 + low)

  unfoldable pub write_pair : ℕ → ℕ → State M → State M
  write_pair a v s = store32 memory (u32 (a + 4)) (u32 v) (store32 memory a (v / 2 ^ 32) s)

unfoldable pub write_fpscr : ℕ → Ctx → Ctx
write_fpscr value c =
    let v = bit_and value 0x3f_ffff in
    let (fr, xf) =
      if bit_and (bit_xor v c.fpscr) fpscr_fr == 0 then (c.fr, c.xf) else swap_banks 16 c.fr c.xf in
    record c { fr = fr; xf = xf; fpscr = v }

module _ (floats : Floats) where
  open floats use {
    mul64, add64, widen, narrow, is_nan32, is_nan64, ge32, ge64, truncate32, truncate64, sine,
    cosine,
  }

  unfoldable pub ftrc32 : ℕ → ℕ
  ftrc32 f =
      if is_nan32 f
      then 0x8000_0000
      else if ge32 f 0x4f00_0000
      then 0x7fff_ffff
      else if ge32 0xcf00_0000 f
      then 0x8000_0000
      else pattern_of 32 (truncate32 f)

  unfoldable pub ftrc64 : ℕ → ℕ
  ftrc64 d =
      if is_nan64 d
      then 0x8000_0000
      else if ge64 d 0x41e0_0000_0000_0000
      then 0x7fff_ffff
      else if ge64 0xc1e0_0000_0000_0000 d
      then 0x8000_0000
      else pattern_of 32 (truncate64 d)

  unfoldable pub fsca : ℕ → Ctx → Ctx
  fsca n c =
      let angle = bit_and c.fpul 0xffff in
      set_freg (n + 1) (cosine angle) (set_freg n (sine angle) c)

  -- One product of two singles, exact in a double.
  abbrev product : ℕ → ℕ → ℕ → ℕ
  product mode a b = mul64 mode (widen a) (widen b)

  -- The sum of four products, from the left to the right.
  abbrev dot : ℕ → (ℕ → ℕ) → (ℕ → ℕ) → ℕ
  dot mode a b =
      let d0 = product mode (a 0) (b 0) in
      let d1 = add64 mode d0 (product mode (a 1) (b 1)) in
      let d2 = add64 mode d1 (product mode (a 2) (b 2)) in add64 mode d2 (product mode (a 3) (b 3))

  unfoldable pub fipr : ℕ → ℕ → Ctx → Ctx
  fipr m n c =
      let d = dot c.fpscr (λ i. freg c (n + i)) (λ i. freg c (m + i)) in
      set_freg (n + 3) (narrow c.fpscr d) c

  -- The `i`-th row of the matrix in the back bank.
  abbrev row : Ctx → ℕ → ℕ → ℕ
  row c n i = narrow c.fpscr (dot c.fpscr (λ k. get_or c.xf (i + 4 * k) 0) (λ k. freg c (n + k)))

  unfoldable pub ftrv : ℕ → Ctx → Ctx
  ftrv n c =
      set_freg (n + 3) (row c n 3)
        (set_freg (n + 2) (row c n 2) (set_freg (n + 1) (row c n 1) (set_freg n (row c n 0) c)))
