-- ===== src/Sh4/Alu/Carry.antt =====
-- The carry, borrow and overflow flags of ops.h.
use dream_recomp.Base.{ℕ, ◌+◌, ◌*◌, ◌^◌, ◌≤◌, ◌<◌, ◌≡◌, arith}
use dream_recomp.Sh4.Ctx.{Ctx}
use dream_recomp.Sh4.Alu.{addc, subc, negc}

-- On 32-bit words and T at most 1, ADDC is exact: the 32-bit result and the carry out together
-- are the sum with the carry in.
pub addc_exact :
    (c : Ctx) (a b : ℕ)
    → a < 2 ^ 32
    → b < 2 ^ 32
    → c.t ≤ 1
    → ((addc c a b).1 + 2 ^ 32 * (addc c a b).0.t ≡ a + b + c.t) × ((addc c a b).1 < 2 ^ 32)
unfolding addc
addc_exact c a b ha hb ht = ground arith

-- On 32-bit words and T at most 1, SUBC is exact: the 32-bit result with what it borrows is the
-- difference with the borrow in.
pub subc_exact :
    (c : Ctx) (a b : ℕ)
    → a < 2 ^ 32
    → b < 2 ^ 32
    → c.t ≤ 1
    → ((subc c a b).1 + b + c.t ≡ a + 2 ^ 32 * (subc c a b).0.t) × ((subc c a b).1 < 2 ^ 32)
unfolding subc
subc_exact c a b ha hb ht = ground arith

-- NEGC is SUBC from zero, flag and result.
pub negc-subc : (c : Ctx) (a : ℕ) → negc c a ≡ subc c 0 a
unfolding subc negc
negc-subc c a = ground arith
