-- ===== src/Sh4/Multiply.antt =====
-- runtime/include/dream/runtime/sh4/ops.h: the signed multiplication and the multiply-accumulate
-- steps. Where the source's sum of two `std::int64_t` would leave their range, the sum wraps.
use dream_recomp.Base.{ℕ, ◌+◌, ◌-◌, ◌*◌, ◌/◌, ◌%◌, ◌^◌, bit_and, bit_or, ◌==◌, if◌then◌else◌}
use dream_recomp.Base.Bits.{u32}
use dream_recomp.Base.Int.{ℤ, pos, negsuc, signed32, signed, pattern_of, ltb_ℤ, ◌+ℤ◌, ◌*ℤ◌}
use dream_recomp.Sh4.Ctx.{Ctx, sr_s}

-- MACH and MACL from a 64-bit pattern, and the pattern that they hold.
abbrev pub set_mac : Ctx → ℕ → Ctx
set_mac c p = record c { mach = p / 2 ^ 32; macl = u32 p }

abbrev pub mac_of : Ctx → ℕ
mac_of c = c.mach * 2 ^ 32 + c.macl

unfoldable pub dmuls : Ctx → ℕ → ℕ → Ctx
dmuls c rn rm = set_mac c (pattern_of 64 (signed32 rn *ℤ signed32 rm))

-- The two comparisons with the bounds of 48 bits.
unfoldable pub saturate48 : ℤ → ℤ
saturate48 sum =
    let low = if ltb_ℤ (pos (2 ^ 47 - 1)) sum then pos (2 ^ 47 - 1) else sum in
    if ltb_ℤ low (negsuc (2 ^ 47 - 1)) then negsuc (2 ^ 47 - 1) else low

-- `a` and `b` are an `std::int32_t` each.
unfoldable pub mac_l : Ctx → ℤ → ℤ → Ctx
mac_l c a b =
    let prod = a *ℤ b in
    if bit_and c.sr sr_s == 0
    then set_mac c (pattern_of 64 (signed 64 (mac_of c) +ℤ prod))
    else set_mac c (pattern_of 64 (saturate48 (signed 48 (mac_of c % 2 ^ 48) +ℤ prod)))

-- The branch of MAC.W with SR.S set, on the sum.
unfoldable pub mac_w_saturated : Ctx → ℤ → Ctx
mac_w_saturated c sum =
    if ltb_ℤ (pos 0x7fff_ffff) sum
    then record c { macl = 0x7fff_ffff; mach = bit_or c.mach 1 }
    else if ltb_ℤ sum (negsuc 0x7fff_ffff)
    then record c { macl = 0x8000_0000; mach = bit_or c.mach 1 }
    else record c { macl = pattern_of 32 sum }

unfoldable pub mac_w : Ctx → ℤ → ℤ → Ctx
mac_w c a b =
    let prod = a *ℤ b in
    if bit_and c.sr sr_s == 0
    then set_mac c (pattern_of 64 (signed 64 (mac_of c) +ℤ prod))
    else mac_w_saturated c (signed32 c.macl +ℤ prod)
