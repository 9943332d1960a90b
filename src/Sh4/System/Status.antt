-- ===== src/Sh4/System/Status.antt =====
-- SR written and read back, and the banks exchanged twice.
use native.Mathlib.Nat.{le_refl}
use dream_recomp.Base.{
  ℕ, zero, suc, ◌*◌, ◌/◌, ◌%◌, ◌^◌, ◌≤◌, ◌<◌, ◌≡◌, refl, arith, inl, inr, Bool-cases, ap, ap₂, ◌∙◌,
  true, bit_and, bit_or, Bool, List, [], ◌∷◌, length, get_or, ◌==◌, ◌&&◌, ltb, if◌then◌else◌, not,
  bit,
}
use dream_recomp.Base.Bits.{
  bit_at, bit_at-bit_and, bit_and_field, bit_and_mask, bit_or_fields, bit_and-le_right, bit_and-pow,
}
use dream_recomp.Sh4.Ctx.{Ctx, sr_t, sr_rb}
use dream_recomp.Sh4.Alu.{not32}
use dream_recomp.Sh4.System.{swap_banks, same_rb, sr_defined, write_sr, read_sr, frchg}

swap_banks_twice :
    (n : ℕ) (xs ys : List ℕ)
    → let (xs', ys') = swap_banks n xs ys in swap_banks n xs' ys' ≡ (xs, ys)
unfolding swap_banks
swap_banks_twice zero xs ys = refl
swap_banks_twice (suc n) [] ys = refl
swap_banks_twice (suc n) (x ∷ xs) [] = refl
swap_banks_twice (suc n) (x ∷ xs) (y ∷ ys) =
    ap (λ (p : List ℕ × List ℕ). (x ∷ p.0, y ∷ p.1)) (swap_banks_twice n xs ys)

low_bit : (v : ℕ) → bit_and v sr_defined % 2 ≡ v % 2
low_bit v = omega (arith, bit_at-bit_and 0 v sr_defined)

defined-le : (v : ℕ) → bit_and v sr_defined ≤ sr_defined
defined-le v = bit_and-le_right v v sr_defined (le_refl v)

upper_bits : (x : ℕ) → x < 2 ^ 32 → bit_and x (not32 sr_t) ≡ x / 2 * 2 ^ 1
upper_bits x h = omega (arith, bit_and_field 1 31 x)

t_bit : (v : ℕ) → bit_and (bit_and v sr_t) 1 ≡ v % 2
t_bit v = omega (arith, bit_and_mask 1 (bit_and v 1), bit_and_mask 1 v)

-- SR reads back as its defined bits of what was written, T included, which is kept apart.
pub read_sr-write_sr : (c : Ctx) (v : ℕ) → read_sr (write_sr c v) ≡ bit_and v sr_defined
unfolding read_sr write_sr
read_sr-write_sr c v =
    ap₂ bit_or (upper_bits (bit_and v sr_defined) (omega (arith, defined-le v))) (t_bit v)
    ∙ bit_or_fields 1 (bit_and v sr_defined / 2) (v % 2) (omega arith)
    ∙ omega (arith, low_bit v)

rb_flag : (v : ℕ) → bit (not (bit_and v sr_rb == 0)) ≡ bit_at v 29
rb_flag v = ground (arith, bit_and-pow 29 v)

rb_kept : (v : ℕ) → bit_at (bit_and v sr_defined) 29 ≡ bit_at v 29
rb_kept v = omega (arith, bit_at-bit_and 29 v sr_defined)

same_rb_lem : (a b : ℕ) → same_rb a b ≡ (bit_at a 29 == bit_at b 29)
unfolding same_rb
same_rb_lem a b = rw (rb_flag a, rb_flag b) refl

-- Where the third value has the first one's RB, both changes swap or neither does.
both_swap : (a v w : ℕ) → same_rb a w ≡ true → same_rb (bit_and v sr_defined) w ≡ same_rb a v
both_swap a v w h =
    rw (same_rb_lem (bit_and v sr_defined) w, same_rb_lem a v, rb_kept v)
      (agree (bit_at a 29) (bit_at v 29) (bit_at w 29) (rw (same_rb_lem a w) at h))
  where
    agree : (a b d : ℕ) → (a == d) ≡ true → (b == d) ≡ (a == b)
    agree a b d h = ground arith

-- Writing SR and then writing it with the RB it had at first leaves both register banks as they
-- were.
write_sr_twice :
    (c : Ctx) (v w : ℕ)
    → same_rb c.sr w ≡ true
    → ((write_sr (write_sr c v) w).r ≡ c.r) × ((write_sr (write_sr c v) w).r_bank ≡ c.r_bank)
unfolding write_sr
write_sr_twice c v w h = elim (Bool-cases (same_rb c.sr v)) [
  | inl e ↦ rw (both_swap c.sr v w h, e) (refl, refl)
  | inr e ↦
      rw (both_swap c.sr v w h, e)
        (
          ap (λ (p : List ℕ × List ℕ). p.0) (swap_banks_twice 8 c.r c.r_bank),
          ap (λ (p : List ℕ × List ℕ). p.1) (swap_banks_twice 8 c.r c.r_bank),
        )
]

-- Whether register `i` is in a bank that a change of SR from `a` to `b` exchanges.
unfoldable pub exchanged : ℕ → ℕ → ℕ → Bool
exchanged a b i = ltb i 8 && not (bit_at a 29 == bit_at b 29)

-- The exchange, register by register.
swap_banks-get_or :
    (n i : ℕ) (xs ys : List ℕ)
    → n ≤ length xs
    → n ≤ length ys
    → let (xs', ys') = swap_banks n xs ys in
      (get_or xs' i 0 ≡ (if ltb i n then get_or ys i 0 else get_or xs i 0))
      × (get_or ys' i 0 ≡ (if ltb i n then get_or xs i 0 else get_or ys i 0))
unfolding swap_banks
swap_banks-get_or zero i xs ys h k = (ground arith, ground arith)
swap_banks-get_or (suc n) i [] ys h k = absurd (omega arith)
swap_banks-get_or (suc n) i (x ∷ xs) [] h k = absurd (omega arith)
swap_banks-get_or (suc n) zero (x ∷ xs) (y ∷ ys) h k = (ground arith, ground arith)
swap_banks-get_or (suc n) (suc i) (x ∷ xs) (y ∷ ys) h k =
    let (p, q) = swap_banks-get_or n i xs ys (omega arith) (omega arith) in
    (ground (arith, p), ground (arith, q))

write_sr-get_or :
    (c : Ctx) (v i : ℕ)
    → 8 ≤ length c.r
    → 8 ≤ length c.r_bank
    → (get_or (write_sr c v).r i 0
        ≡ (if exchanged c.sr v i then get_or c.r_bank i 0 else get_or c.r i 0))
      × (get_or (write_sr c v).r_bank i 0
          ≡ (if exchanged c.sr v i then get_or c.r i 0 else get_or c.r_bank i 0))
unfolding write_sr exchanged
write_sr-get_or c v i h k = elim (Bool-cases (bit_at c.sr 29 == bit_at v 29)) [
  | inl e ↦ rw (same_rb_lem c.sr v, e) (ground arith, ground arith)
  | inr e ↦
      rw (same_rb_lem c.sr v, e)
        (
          ground (arith, (swap_banks-get_or 8 i c.r c.r_bank h k).0),
          ground (arith, (swap_banks-get_or 8 i c.r c.r_bank h k).1),
        )
]

-- A write of SR exchanges each of R0 to R7 with its register in the other bank if it changes bit 29,
-- RB, and leaves every other register of both banks alone; where RB stays, it leaves them all alone.
-- A second write, with the RB of before the first, leaves both banks as they were at first.
-- Condition: both banks have eight registers at least.
pub write_sr-banks :
    (c : Ctx) (v w i : ℕ)
    → 8 ≤ length c.r
    → 8 ≤ length c.r_bank
    → same_rb c.sr w ≡ true
    → ((get_or (write_sr c v).r i 0
          ≡ (if exchanged c.sr v i then get_or c.r_bank i 0 else get_or c.r i 0))
        × (get_or (write_sr c v).r_bank i 0
            ≡ (if exchanged c.sr v i then get_or c.r i 0 else get_or c.r_bank i 0)))
      × ((write_sr (write_sr c v) w).r ≡ c.r)
      × ((write_sr (write_sr c v) w).r_bank ≡ c.r_bank)
write_sr-banks c v w i h k e =
    let (r, r_bank) = write_sr_twice c v w e in (write_sr-get_or c v i h k, r, r_bank)

-- FRCHG twice changes neither bank of float registers.
pub frchg_twice : (c : Ctx) → ((frchg (frchg c)).fr ≡ c.fr) × ((frchg (frchg c)).xf ≡ c.xf)
unfolding frchg
frchg_twice c = (
  ap (λ (p : List ℕ × List ℕ). p.0) (swap_banks_twice 16 c.fr c.xf),
  ap (λ (p : List ℕ × List ℕ). p.1) (swap_banks_twice 16 c.fr c.xf),
)
