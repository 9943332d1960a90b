-- ===== src/Holly/Intc/Sources.antt =====
-- One source of the ASIC at a time.
use dream_recomp.Base.{
  ℕ, ◌-◌, ◌/◌, ◌^◌, ◌<◌, ◌≤◌, ◌≡◌, refl, arith, Bool, true, false, not, ◌==◌, if◌then◌else◌, bit,
  dec_lt,
}
use dream_recomp.Base.Bits.{bit_at, bit_and_mask}
use dream_recomp.Sh4.Intc.Pending.{with_bit, bit_at-with_bit}
use dream_recomp.Holly.Intc.{Intc, common, recompute, raise, raised}

common-with_bit :
    (k : ℕ) (p : Bool) (w j : ℕ)
    → k < 32
    → j < 32
    → common (with_bit k p w / 2 ^ j) 1 ≡ (if k == j then p else common (w / 2 ^ j) 1)
common-with_bit k p w j h l =
    rw
      (
        bit_and_mask 1 (with_bit k p w / 2 ^ j),
        bit_and_mask 1 (w / 2 ^ j),
        bit_at-with_bit k p w j h l,
      )
      (choose (k == j) p (bit_at w j))
  where
    choose :
        (b q : Bool) (n : ℕ) → not ((if b then bit q else n) == 0) ≡ (if b then q else not (n == 0))
    choose true true n = refl
    choose true false n = refl
    choose false q n = refl

-- A source's status bit in a controller, by its register.
raised_low : (h : Intc) (m : ℕ) → m < 32 → raised h m ≡ common (h.istnrm / 2 ^ m) 1
unfolding raised
raised_low h m l = ground arith

raised_mid : (h : Intc) (m : ℕ) → 32 ≤ m → m < 64 → raised h m ≡ common (h.istext / 2 ^ (m - 32)) 1
unfolding raised
raised_mid h m k l = ground arith

raised_high : (h : Intc) (m : ℕ) → 64 ≤ m → raised h m ≡ common (h.isterr / 2 ^ (m - 64)) 1
unfolding raised
raised_high h m l = ground arith

raise_low :
    (n : ℕ) (h : Intc)
    → n < 32
    → raise n h ≡ recompute (record h { istnrm = with_bit n true h.istnrm })
unfolding raise
raise_low n h l = ground arith

raise_mid :
    (n : ℕ) (h : Intc)
    → 32 ≤ n
    → n < 64
    → raise n h ≡ recompute (record h { istext = with_bit (n - 32) true h.istext })
unfolding raise
raise_mid n h k l = ground arith

raise_high :
    (n : ℕ) (h : Intc)
    → 64 ≤ n
    → raise n h ≡ recompute (record h { isterr = with_bit (n - 64) true h.isterr })
unfolding raise
raise_high n h l = ground arith

raised-raise_low :
    (n m : ℕ) (h : Intc)
    → n < 32
    → m < 96
    → raised (raise n h) m ≡ (if n == m then true else raised h m)
unfolding recompute
raised-raise_low n m h a q = rw (raise_low n h (omega arith)) (elim (dec_lt m 32) [
  | yes c ↦
      rw
        (
          raised_low (recompute (record h { istnrm = with_bit (n) true h.istnrm })) m (omega arith),
          raised_low h m (omega arith),
        )
        (ground (arith, common-with_bit (n) true h.istnrm (m) (omega arith) (omega arith)))
  | no c ↦ elim (dec_lt m 64) [
    | yes d ↦
        rw
          (
            raised_mid (recompute (record h { istnrm = with_bit (n) true h.istnrm })) m
                (omega arith) (omega arith),
            raised_mid h m (omega arith) (omega arith),
          )
          (ground arith)
    | no d ↦
        rw
          (
            raised_high (recompute (record h { istnrm = with_bit (n) true h.istnrm })) m
                (omega arith),
            raised_high h m (omega arith),
          )
          (ground arith)
  ]
])

raised-raise_mid :
    (n m : ℕ) (h : Intc)
    → 32 ≤ n
    → n < 64
    → m < 96
    → raised (raise n h) m ≡ (if n == m then true else raised h m)
unfolding recompute
raised-raise_mid n m h a b q = rw (raise_mid n h (omega arith) (omega arith)) (elim (dec_lt m 32) [
  | yes c ↦
      rw
        (
          raised_low (recompute (record h { istext = with_bit (n - 32) true h.istext })) m
              (omega arith),
          raised_low h m (omega arith),
        )
        (ground arith)
  | no c ↦ elim (dec_lt m 64) [
    | yes d ↦
        rw
          (
            raised_mid (recompute (record h { istext = with_bit (n - 32) true h.istext })) m
                (omega arith) (omega arith),
            raised_mid h m (omega arith) (omega arith),
          )
          (ground
            (arith, common-with_bit (n - 32) true h.istext (m - 32) (omega arith) (omega arith)))
    | no d ↦
        rw
          (
            raised_high (recompute (record h { istext = with_bit (n - 32) true h.istext })) m
                (omega arith),
            raised_high h m (omega arith),
          )
          (ground arith)
  ]
])

raised-raise_high :
    (n m : ℕ) (h : Intc)
    → 64 ≤ n
    → n < 96
    → m < 96
    → raised (raise n h) m ≡ (if n == m then true else raised h m)
unfolding recompute
raised-raise_high n m h a b q = rw (raise_high n h (omega arith)) (elim (dec_lt m 32) [
  | yes c ↦
      rw
        (
          raised_low (recompute (record h { isterr = with_bit (n - 64) true h.isterr })) m
              (omega arith),
          raised_low h m (omega arith),
        )
        (ground arith)
  | no c ↦ elim (dec_lt m 64) [
    | yes d ↦
        rw
          (
            raised_mid (recompute (record h { isterr = with_bit (n - 64) true h.isterr })) m
                (omega arith) (omega arith),
            raised_mid h m (omega arith) (omega arith),
          )
          (ground arith)
    | no d ↦
        rw
          (
            raised_high (recompute (record h { isterr = with_bit (n - 64) true h.isterr })) m
                (omega arith),
            raised_high h m (omega arith),
          )
          (ground
            (arith, common-with_bit (n - 64) true h.isterr (m - 64) (omega arith) (omega arith)))
  ]
])

-- After `raise` the source is raised, and every other of the 96 sources is as it was.
pub raised-raise :
    (n m : ℕ) (h : Intc)
    → n < 96
    → m < 96
    → raised (raise n h) m ≡ (if n == m then true else raised h m)
raised-raise n m h p q = elim (dec_lt n 32) [
  | yes a ↦ raised-raise_low n m h a q
  | no a ↦ elim (dec_lt n 64) [
    | yes b ↦ raised-raise_mid n m h (omega arith) b q
    | no b ↦ raised-raise_high n m h (omega arith) p q
  ]
]
