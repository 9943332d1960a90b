-- ===== src/Sh4/Alu.antt =====
-- runtime/include/dream/runtime/sh4/ops.h: the integer helpers that emitted code calls. A register
-- is a number below 2 ^ 32, and the wrap of each sum and difference is written out.
pub mod Carry
pub mod Divide
pub mod Overflow
use dream_recomp.Base.{
  ℕ, ◌+◌, ◌-◌, ◌*◌, ◌/◌, ◌%◌, ◌^◌, ◌≤◌, ◌<◌, bit_and, bit_or, bit_xor, ◌≡◌, Bool, true, false, not,
  ◌||◌, ◌==◌, ltb, bit, if◌then◌else◌, List, [], ◌∷◌,
}
use dream_recomp.Base.Bits.{u32}
use dream_recomp.Sh4.Ctx.{Ctx, sr_t, sr_imask, sr_q, sr_m, sr_bl, sr_rb}

-- `a - b` and `~a` of `std::uint32_t`.
abbrev pub sub32 : ℕ → ℕ → ℕ
sub32 a b = u32 (a + 2 ^ 32 - b)

abbrev pub not32 : ℕ → ℕ
not32 a = 2 ^ 32 - 1 - a

unfoldable pub addc : Ctx → ℕ → ℕ → Ctx × ℕ
addc c a b =
    let tmp = u32 (a + b) in
    let res = u32 (tmp + c.t) in (record c { t = bit (ltb tmp a || ltb res tmp) }, res)

unfoldable pub subc : Ctx → ℕ → ℕ → Ctx × ℕ
subc c a b =
    let tmp = sub32 a b in
    let res = sub32 tmp c.t in (record c { t = bit (ltb a tmp || ltb tmp res) }, res)

unfoldable pub negc : Ctx → ℕ → Ctx × ℕ
negc c a =
    let tmp = sub32 0 a in
    let res = sub32 tmp c.t in (record c { t = bit (ltb 0 tmp || ltb tmp res) }, res)

unfoldable pub addv : Ctx → ℕ → ℕ → Ctx × ℕ
addv c a b =
    let res = u32 (a + b) in
    (record c { t = bit_and (not32 (bit_xor a b)) (bit_xor a res) / 2 ^ 31 }, res)

unfoldable pub subv : Ctx → ℕ → ℕ → Ctx × ℕ
subv c a b =
    let res = sub32 a b in (record c { t = bit_and (bit_xor a b) (bit_xor a res) / 2 ^ 31 }, res)

-- The right shift of an `std::int32_t` fills with the sign bit.
pub sar32 : ℕ → ℕ → ℕ
sar32 v k = if ltb v (2 ^ 31) then v / 2 ^ k else v / 2 ^ k + (2 ^ 32 - 2 ^ (32 - k))

pub shad : ℕ → ℕ → ℕ
unfolding sar32
shad v count =
    let s = bit_and count 0x1f in
    if bit_and count 0x8000_0000 == 0
    then u32 (v * 2 ^ s)
    else if s == 0
    then if bit_and v 0x8000_0000 == 0 then 0 else 0xffff_ffff
    else sar32 v (32 - s)

pub shld : ℕ → ℕ → ℕ
shld v count =
    let s = bit_and count 0x1f in
    if bit_and count 0x8000_0000 == 0
    then u32 (v * 2 ^ s)
    else if s == 0
    then 0
    else v / 2 ^ (32 - s)

unfoldable pub rotcl : Ctx → ℕ → Ctx × ℕ
rotcl c v = let t = v / 2 ^ 31 in let res = bit_or (u32 (v * 2)) c.t in (record c { t = t }, res)

unfoldable pub rotcr : Ctx → ℕ → Ctx × ℕ
rotcr c v =
    let t = bit_and v 1 in
    let res = bit_or (v / 2) (u32 (c.t * 2 ^ 31)) in (record c { t = t }, res)

unfoldable pub div0u : Ctx → Ctx
div0u c = record c { sr = bit_and c.sr (not32 (bit_or sr_q sr_m)); t = 0 }

unfoldable pub div0s : Ctx → ℕ → ℕ → Ctx
div0s c rn rm =
    let q = rn / 2 ^ 31 in
    let m = rm / 2 ^ 31 in
    record c {
      sr =
          bit_or (bit_or (bit_and c.sr (not32 (bit_or sr_q sr_m))) (if q == 0 then 0 else sr_q))
            (if m == 0 then 0 else sr_m);
      t = bit_xor q m;
    }

-- `q ? x : y` for the flags, which are 0 or 1.
abbrev pub choose : ℕ → ℕ → ℕ → ℕ
choose q x y = if q == 0 then y else x

-- The four cases of DIV1: the register after the subtraction or addition, and the new Q.
unfoldable pub div1_cases : ℕ → ℕ → ℕ → ℕ → ℕ → ℕ × ℕ
div1_cases old_q m q tmp0 rm =
    let less = sub32 tmp0 rm in
    let more = u32 (tmp0 + rm) in
    let borrow = bit (ltb tmp0 less) in
    let carry = bit (ltb more tmp0) in
    if old_q == 0
    then if m == 0
      then (less, choose q (bit (borrow == 0)) borrow)
      else (more, choose q carry (bit (carry == 0)))
    else if m == 0
    then (more, choose q (bit (carry == 0)) carry)
    else (less, choose q borrow (bit (borrow == 0)))

unfoldable pub div1 : Ctx → ℕ → ℕ → Ctx × ℕ
div1 c rn rm =
    let old_q = bit (not (bit_and c.sr sr_q == 0)) in
    let m = bit (not (bit_and c.sr sr_m == 0)) in
    let next = div1_cases old_q m (rn / 2 ^ 31) (bit_or (u32 (rn * 2)) c.t) rm in
    let q = next.1 in
    (
      record c { sr = bit_or (bit_and c.sr (not32 sr_q)) (choose q sr_q 0); t = bit (q == m) },
      next.0,
    )
