-- ===== src/Sh4/Intc/Pending.antt =====
-- The pending bits under `set_pending`.
use dream_recomp.Base.{
  ℕ, ◌/◌, ◌^◌, ◌<◌, ◌≡◌, refl, arith, bit_and, bit_or, Bool, true, false, not, ◌==◌, bit,
  if◌then◌else◌,
}
use dream_recomp.Base.Bits.{u32, bit_at, bit_at-bit_and, bit_at-bit_or, bit_and_mask}
use dream_recomp.Base.Masks.{bit_at-pow, bit_at-complement, pow-lt, u32-pow}
use dream_recomp.Sh4.Alu.{not32}
use dream_recomp.Sh4.Intc.{Intc, Irq, irq_number, set_pending, pending}

irq_number-lt : (irq : Irq) → irq_number irq < 32
irq_number-lt irq = grind arith

pub pending-bit_at :
    (c : Intc) (irq : Irq) → pending c irq ≡ not (bit_at c.pending_bits (irq_number irq) == 0)
unfolding pending
pending-bit_at c irq = rw (bit_and_mask 1 (c.pending_bits / 2 ^ irq_number irq)) refl

-- Word `w` with bit `k` made `p`.
abbrev pub with_bit : ℕ → Bool → ℕ → ℕ
with_bit k p w = if p then bit_or w (u32 (2 ^ k)) else bit_and w (not32 (u32 (2 ^ k)))

pub bit_at-with_bit :
    (k : ℕ) (p : Bool) (w j : ℕ)
    → k < 32
    → j < 32
    → bit_at (with_bit k p w) j ≡ (if k == j then bit p else bit_at w j)
bit_at-with_bit k true w j h l =
    rw (u32-pow k h) (ground (arith, bit_at-bit_or j w (2 ^ k), bit_at-pow k j))
bit_at-with_bit k false w j h l = rw (u32-pow k h) (
    ground (
      arith,
      bit_at-bit_and j w (not32 (2 ^ k)),
      bit_at-pow k j,
      bit_at-complement 32 j (2 ^ k) (pow-lt k 32 h) l,
    ))

-- Marking a line sets its own pending flag and leaves every other line's as it was.
pub pending-set_pending :
    (i j : Irq) (p : Bool) (c : Intc)
    → pending (set_pending i p c) j ≡ (if irq_number i == irq_number j then p else pending c j)
unfolding set_pending
pending-set_pending i j p c =
    rw
      (
        pending-bit_at (record c { pending_bits = with_bit (irq_number i) p c.pending_bits }) j,
        pending-bit_at c j,
        bit_at-with_bit (irq_number i) p c.pending_bits (irq_number j) (irq_number-lt i)
            (irq_number-lt j),
      )
      (choose (irq_number i == irq_number j) p (bit_at c.pending_bits (irq_number j)))
  where
    choose :
        (b q : Bool) (n : ℕ) → not ((if b then bit q else n) == 0) ≡ (if b then q else not (n == 0))
    choose true true n = refl
    choose true false n = refl
    choose false q n = refl
