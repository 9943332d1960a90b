-- ===== src/Hle/Flash/Partitions.antt =====
-- The partitions of the flash ROM.
use dream_recomp.Base.{
  ℕ, zero, suc, ◌+◌, ◌≤◌, ◌<◌, ◌≡◌, ◌≢◌, ◌⊎◌, refl, arith, some, Option-cases, inl, inr,
}
use dream_recomp.Hle.Flash.{Data, partition, fill, erase_partition}

abbrev Apart : ℕ → ℕ → Type 0
Apart p q =
    (off size off' size' : ℕ)
    → p ≢ q
    → partition p ≡ some (off, size)
    → partition q ≡ some (off', size')
    → (off + size ≤ off') ⊎ (off' + size' ≤ off)

partitions-Apart : (p q : ℕ) → Apart p q
unfolding partition
partitions-Apart zero zero off size off' size' n h k = ground arith
partitions-Apart zero (suc zero) off size off' size' n h k = ground arith
partitions-Apart zero (suc (suc zero)) off size off' size' n h k = ground arith
partitions-Apart zero (suc (suc (suc zero))) off size off' size' n h k = ground arith
partitions-Apart zero (suc (suc (suc (suc zero)))) off size off' size' n h k = ground arith
partitions-Apart zero (suc (suc (suc (suc (suc q))))) off size off' size' n h k = ground arith
partitions-Apart (suc zero) zero off size off' size' n h k = ground arith
partitions-Apart (suc zero) (suc zero) off size off' size' n h k = ground arith
partitions-Apart (suc zero) (suc (suc zero)) off size off' size' n h k = ground arith
partitions-Apart (suc zero) (suc (suc (suc zero))) off size off' size' n h k = ground arith
partitions-Apart (suc zero) (suc (suc (suc (suc zero)))) off size off' size' n h k = ground arith
partitions-Apart (suc zero) (suc (suc (suc (suc (suc q))))) off size off' size' n h k = ground arith
partitions-Apart (suc (suc zero)) zero off size off' size' n h k = ground arith
partitions-Apart (suc (suc zero)) (suc zero) off size off' size' n h k = ground arith
partitions-Apart (suc (suc zero)) (suc (suc zero)) off size off' size' n h k = ground arith
partitions-Apart (suc (suc zero)) (suc (suc (suc zero))) off size off' size' n h k = ground arith
partitions-Apart (suc (suc zero)) (suc (suc (suc (suc zero)))) off size off' size' n h k =
    ground arith
partitions-Apart (suc (suc zero)) (suc (suc (suc (suc (suc q))))) off size off' size' n h k =
    ground arith
partitions-Apart (suc (suc (suc zero))) zero off size off' size' n h k = ground arith
partitions-Apart (suc (suc (suc zero))) (suc zero) off size off' size' n h k = ground arith
partitions-Apart (suc (suc (suc zero))) (suc (suc zero)) off size off' size' n h k = ground arith
partitions-Apart (suc (suc (suc zero))) (suc (suc (suc zero))) off size off' size' n h k =
    ground arith
partitions-Apart (suc (suc (suc zero))) (suc (suc (suc (suc zero)))) off size off' size' n h k =
    ground arith
partitions-Apart (suc (suc (suc zero))) (suc (suc (suc (suc (suc q))))) off size off' size' n h k =
    ground arith
partitions-Apart (suc (suc (suc (suc zero)))) zero off size off' size' n h k = ground arith
partitions-Apart (suc (suc (suc (suc zero)))) (suc zero) off size off' size' n h k = ground arith
partitions-Apart (suc (suc (suc (suc zero)))) (suc (suc zero)) off size off' size' n h k =
    ground arith
partitions-Apart (suc (suc (suc (suc zero)))) (suc (suc (suc zero))) off size off' size' n h k =
    ground arith
partitions-Apart (suc (suc (suc (suc zero)))) (suc (suc (suc (suc zero)))) off size off' size' n h
      k =
    ground arith
partitions-Apart (suc (suc (suc (suc zero)))) (suc (suc (suc (suc (suc q))))) off size off' size' n
      h k =
    ground arith
partitions-Apart (suc (suc (suc (suc (suc p))))) q off size off' size' n h k = ground arith

fill-outside : (off n v o : ℕ) (d : Data) → (o < off) ⊎ (off + n ≤ o) → fill off n v d o ≡ d o
unfolding fill
fill-outside off n v o d h = ground arith

fill-inside : (off n v o : ℕ) (d : Data) → off ≤ o → o < off + n → fill off n v d o ≡ v
unfolding fill
fill-inside off n v o d h k = ground arith

-- Erasing a partition sets each of its bytes to 0xff, and erasing another one leaves each of its
-- bytes alone.
pub erase_partition-apart :
    (p q off size o : ℕ) (d : Data)
    → p ≢ q
    → partition q ≡ some (off, size)
    → off ≤ o
    → o < off + size
    → (erase_partition q d o ≡ 0xff) × (erase_partition p d o ≡ d o)
unfolding erase_partition
erase_partition-apart p q off size o d n e h k = (
  rw e (fill-inside off size 0xff o d h k),
  elim (Option-cases (partition p)) [
    | inl none_p ↦ rw none_p refl
    | inr ((off_p, size_p), some_p) ↦ rw some_p (
        fill-outside off_p size_p 0xff o d
          (elim (partitions-Apart p q off_p size_p off size n some_p e) [
            | inl before ↦ inr (omega arith)
            | inr after ↦ inl (omega arith)
          ]))
  ],
)
