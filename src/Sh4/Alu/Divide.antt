-- ===== src/Sh4/Alu/Divide.antt =====
-- DIV1, one step of the non-restoring division of unsigned numbers.
pub mod Loop
use Prim.Native.Nat.{min, max}
use dream_recomp.Base.{
  ℕ, zero, suc, ◌+◌, ◌-◌, ◌*◌, ◌/◌, ◌%◌, ◌^◌, ◌≤◌, ◌<◌, ◌≡◌, arith, bit_and, bit_or, ◌==◌, ap, bit,
  not, Bool, true, false, ◌∙◌, if◌then◌else◌, refl,
}
use dream_recomp.Base.Bits.{bit_at, bit_at-bit_and, bit_at-bit_or, bit_and-pow, bit_or_fields}
use native.Mathlib.Nat.{one-le-pow}
use dream_recomp.Sh4.Ctx.{Ctx, sr_q, sr_m}
use dream_recomp.Sh4.Alu.{div0u, div1, div1_cases, not32, choose}

-- The remainder that the register and Q stand for: with Q set the divisor was subtracted once
-- too often.
pub record Dividing (c : Ctx) (rn d rem : ℕ) : Type 0 where
  pub no_m : bit_at c.sr 9 ≡ 0
  pub small : rem < d
  pub in_word : rn < 2 ^ 32
  pub restored : rem + bit_at c.sr 8 * 2 ^ 32 ≡ rn + (if bit_at c.sr 8 == 0 then 0 else d)

-- Writing Q leaves M, and is read back.
q_written :
    (sr q : ℕ)
    → q ≤ 1
    → (bit_at (bit_or (bit_and sr (not32 sr_q)) (choose q sr_q 0)) 8 ≡ q)
      × (bit_at (bit_or (bit_and sr (not32 sr_q)) (choose q sr_q 0)) 9 ≡ bit_at sr 9)
q_written sr zero p = (
  omega (arith, bit_at-bit_or 8 (bit_and sr (not32 sr_q)) 0, bit_at-bit_and 8 sr (not32 sr_q)),
  omega (arith, bit_at-bit_or 9 (bit_and sr (not32 sr_q)) 0, bit_at-bit_and 9 sr (not32 sr_q)),
)
q_written sr (suc zero) p = (
  omega (arith, bit_at-bit_or 8 (bit_and sr (not32 sr_q)) sr_q, bit_at-bit_and 8 sr (not32 sr_q)),
  omega (arith, bit_at-bit_or 9 (bit_and sr (not32 sr_q)) sr_q, bit_at-bit_and 9 sr (not32 sr_q)),
)
q_written sr (suc (suc q)) p = absurd (omega arith)

pub shift_in : (rn t : ℕ) → t ≤ 1 → bit_or (rn * 2 % 2 ^ 32) t ≡ rn * 2 % 2 ^ 32 + t
shift_in rn t p =
    omega
      (arith, ap (λ (x : ℕ). bit_or x t) (even rn), bit_or_fields 1 (rn % 2 ^ 31) t (omega arith))
  where
    even : (rn : ℕ) → rn * 2 % 2 ^ 32 ≡ rn % 2 ^ 31 * 2 ^ 1
    even rn = omega arith

-- What is left of `rem` doubled with the next bit of the dividend, after the quotient bit.
abbrev pub next_rem : ℕ → ℕ → ℕ → ℕ → ℕ
next_rem rem t d q = if q == 0 then 2 * rem + t else 2 * rem + t - d

-- Q after a step, and the register after it, of a division of unsigned numbers.
abbrev step_q : Ctx → ℕ → ℕ → ℕ
step_q c rn d = (div1_cases (bit_at c.sr 8) 0 (rn / 2 ^ 31) (rn * 2 % 2 ^ 32 + c.t) d).1

abbrev step_rn : Ctx → ℕ → ℕ → ℕ
step_rn c rn d = (div1_cases (bit_at c.sr 8) 0 (rn / 2 ^ 31) (rn * 2 % 2 ^ 32 + c.t) d).0

flag_value : (b p : ℕ) → b ≤ 1 → 0 < p → bit (not (b * p == 0)) ≡ b
flag_value zero p h q = ground arith
flag_value (suc zero) p h q = ground arith
flag_value (suc (suc b)) p h q = absurd (omega arith)

flag_at : (k sr : ℕ) → bit (not (bit_and sr (2 ^ k) == 0)) ≡ bit_at sr k
flag_at k sr =
    rw (bit_and-pow k sr)
      (flag_value (bit_at sr k) (2 ^ k) (omega arith) (one-le-pow k 2 (omega arith)))

div1_lem :
    (c : Ctx) (rn d : ℕ)
    → c.t ≤ 1
    → bit_at c.sr 9 ≡ 0
    → div1 c rn d ≡ (
      record c {
        sr = bit_or (bit_and c.sr (not32 sr_q)) (choose (step_q c rn d) sr_q 0);
        t = bit (step_q c rn d == 0);
      },
      step_rn c rn d,
    )
unfolding div1
div1_lem c rn d p m = rw (flag_at 8 c.sr, flag_at 9 c.sr, shift_in rn c.t p, m)

step_arith :
    (q rn t d rem : ℕ)
    → q ≤ 1
    → t ≤ 1
    → rn < 2 ^ 32
    → d < 2 ^ 32
    → rem < d
    → rem + q * 2 ^ 32 ≡ rn + (if q == 0 then 0 else d)
    → let next = div1_cases q 0 (rn / 2 ^ 31) (rn * 2 % 2 ^ 32 + t) d in
      let rest = next_rem rem t d (bit (next.1 == 0)) in
      (next.0 < 2 ^ 32)
      × (next.1 ≤ 1)
      × (rest < d)
      × (rest + next.1 * 2 ^ 32 ≡ next.0 + (if next.1 == 0 then 0 else d))
      × (rest + (if next.1 == 0 then d else 0) ≡ 2 * rem + t)
unfolding div1_cases
step_arith q rn t d rem hq ht hr hd hs e = ground arith

taken_product :
    (q d rest x : ℕ) → rest + (if q == 0 then d else 0) ≡ x → rest + bit (q == 0) * d ≡ x
taken_product q d rest x e = ground arith

bit-le-one : (b : Bool) → bit b ≤ 1
bit-le-one true = omega arith
bit-le-one false = omega arith

-- One step with M clear, T at most 1 and a 32-bit divisor, where register and Q stand for a
-- remainder below the divisor: the new ones stand for the remainder doubled with T taken in and
-- the divisor taken off when it fits, and T says whether it did.
pub div1_step :
    (c : Ctx) (rn d rem : ℕ)
    → c.t ≤ 1
    → d < 2 ^ 32
    → Dividing c rn d rem
    → let (c', rn') = div1 c rn d in
      (rem' : ℕ) × Dividing c' rn' d rem' × (rem' + c'.t * d ≡ 2 * rem + c.t) × (c'.t ≤ 1)
div1_step c rn d rem p h v =
    let a =
      step_arith (bit_at c.sr 8) rn c.t d rem (omega arith) p v.in_word h v.small v.restored in
    let w = q_written c.sr (step_q c rn d) a.1 in
    rw (div1_lem c rn d p v.no_m) (
      next_rem rem c.t d (bit (step_q c rn d == 0)),
      record { no_m = w.1 ∙ v.no_m; small = a.2; in_word = a.0; restored = rw w.0 a.3 },
      taken_product (step_q c rn d) d _ (2 * rem + c.t) a.4,
      bit-le-one (step_q c rn d == 0),
    )

-- DIV0U clears M, Q and T.
pub div0u_flags :
    (c : Ctx) → (bit_at (div0u c).sr 8 ≡ 0) × (bit_at (div0u c).sr 9 ≡ 0) × ((div0u c).t ≡ 0)
unfolding div0u
div0u_flags c = (
  omega (arith, bit_at-bit_and 8 c.sr (not32 (bit_or sr_q sr_m))),
  omega (arith, bit_at-bit_and 9 c.sr (not32 (bit_or sr_q sr_m))),
  refl,
)
