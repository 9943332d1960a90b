-- ===== src/Holly/G2Dma/Settled.antt =====
-- The two places in which a channel of the G2 bus says whether a transfer is in progress.
use mathlib.Core.Path.{subst}
use dream_recomp.Base.{
  ℕ_discrete, ℕ, ◌+◌, ◌-◌, ◌*◌, ◌/◌, ◌%◌, ◌^◌, ◌≤◌, ◌<◌, ◌≡◌, ◌≢◌, arith, ◌==◌, bit_and, bit_or,
  List, get_or, set, length, get_or-set_self, get_or-set_ne, length-set, true, false, ◌&&◌, ◌∙◌,
}
use dream_recomp.Base.Bits.{
  bit_and_field, bit_and_mask, bit_at-bit_or, bit_at-bit_and, bit_or_fields,
}
use dream_recomp.Sh4.Alu.{not32}
use dream_recomp.Holly.G2Dma.{kst, ksusp}

-- The suspend register's bit 4, "stopped", is set when the start register is 0 and clear when it is 1.
unfoldable pub IsSettled : List ℕ → ℕ → Type 0
IsSettled rs i =
    (bit_and (get_or rs (i * 8 + 7) 0) 0x10 ≡ (1 - get_or rs (i * 8 + 6) 0) * 16)
    × (get_or rs (i * 8 + 6) 0 ≤ 1)

pub stopped_set : (s : ℕ) → bit_and (bit_or s 0x10) 0x10 ≡ 0x10
stopped_set s = omega (arith, bit_and_field 4 1 (bit_or s 0x10), bit_at-bit_or 4 s 0x10)

pub stopped_cleared : (s : ℕ) → bit_and (bit_and s (not32 0x10)) 0x10 ≡ 0
stopped_cleared s =
    omega (arith, bit_and_field 4 1 (bit_and s (not32 0x10)), bit_at-bit_and 4 s (not32 0x10))

pub stopped_kept : (s v : ℕ) → bit_and (bit_or (bit_and s 0x10) (bit_and v 1)) 0x10 ≡ bit_and s 0x10
stopped_kept s v =
    let q = s / 2 ^ 4 % 2 ^ 1 in
    rw (bit_and_field 4 1 s, bit_and_mask 1 v, bit_or_fields 4 q (v % 2 ^ 1) (omega arith))
      (omega (arith, bit_and_field 4 1 (q * 2 ^ 4 + v % 2 ^ 1)))

-- A write to another register than the two of channel `i`.
elsewhere :
    (rs : List ℕ) (i k v : ℕ)
    → k ≢ i * 8 + 6
    → k ≢ i * 8 + 7
    → IsSettled rs i
    → IsSettled (set rs k v) i
unfolding IsSettled
elsewhere rs i k v a b h =
    rw (get_or-set_ne rs k (i * 8 + 6) v 0 a, get_or-set_ne rs k (i * 8 + 7) v 0 b) h

-- A write to both of them.
both :
    (rs : List ℕ) (i st susp : ℕ)
    → i * 8 + 7 < length rs
    → bit_and susp 0x10 ≡ (1 - st) * 16
    → st ≤ 1
    → IsSettled (set (set rs (i * 8 + 6) st) (i * 8 + 7) susp) i
unfolding IsSettled
both rs i st susp h e small =
    let first = set rs (i * 8 + 6) st in
    rw
      (
        get_or-set_self first (i * 8 + 7) susp 0 (omega (arith, length-set rs (i * 8 + 6) st)),
        get_or-set_ne first (i * 8 + 7) (i * 8 + 6) susp 0 (omega arith),
        get_or-set_self rs (i * 8 + 6) st 0 (omega arith),
      )
      (e, small)

-- A write to the suspend register that keeps the bit.
suspend :
    (rs : List ℕ) (i susp : ℕ)
    → i * 8 + 7 < length rs
    → bit_and susp 0x10 ≡ bit_and (get_or rs (i * 8 + 7) 0) 0x10
    → IsSettled rs i
    → IsSettled (set rs (i * 8 + 7) susp) i
unfolding IsSettled
suspend rs i susp h e (p, q) =
    rw
      (
        get_or-set_self rs (i * 8 + 7) susp 0 h,
        get_or-set_ne rs (i * 8 + 7) (i * 8 + 6) susp 0 (omega arith),
      )
      (e ∙ p, q)

-- All four channels are settled.
unfoldable pub IsConsistent : List ℕ → Type 0
IsConsistent rs = (length rs ≡ 64) × ((i : ℕ) → i < 4 → IsSettled rs i)

-- The other six registers of a channel.
pub low :
    (rs : List ℕ) (ch o v : ℕ) → o < 6 → IsConsistent rs → IsConsistent (set rs (ch * 8 + o) v)
unfolding IsConsistent
low rs ch o v h (len, settled) = (
  omega (arith, length-set rs (ch * 8 + o) v),
  λ i i4. elsewhere rs i (ch * 8 + o) v (omega arith) (omega arith) (settled i i4),
)

-- The registers past the channels.
pub past : (rs : List ℕ) (k v : ℕ) → 32 ≤ k → IsConsistent rs → IsConsistent (set rs k v)
unfolding IsConsistent
past rs k v h (len, settled) = (
  omega (arith, length-set rs k v),
  λ i i4. elsewhere rs i k v (omega arith) (omega arith) (settled i i4),
)

-- Both registers of a channel.
pub restart :
    (rs : List ℕ) (ch st susp : ℕ)
    → ch < 4
    → bit_and susp 0x10 ≡ (1 - st) * 16
    → st ≤ 1
    → IsConsistent rs
    → IsConsistent (set (set rs (ch * 8 + 6) st) (ch * 8 + 7) susp)
unfolding IsConsistent
restart rs ch st susp ch4 e small (len, settled) =
    let first = set rs (ch * 8 + 6) st in
    (
      omega (arith, length-set rs (ch * 8 + 6) st, length-set first (ch * 8 + 7) susp),
      λ i i4. elim (ℕ_discrete ch i) [
        | yes same ↦
            subst (IsSettled (set first (ch * 8 + 7) susp)) same
              (both rs ch st susp (omega arith) e small)
        | no other ↦
            elsewhere first i (ch * 8 + 7) susp (omega arith) (omega arith)
              (elsewhere rs i (ch * 8 + 6) st (omega arith) (omega arith) (settled i i4))
      ],
    )

pub suspended :
    (rs : List ℕ) (ch susp : ℕ)
    → ch < 4
    → bit_and susp 0x10 ≡ bit_and (get_or rs (ch * 8 + 7) 0) 0x10
    → IsConsistent rs
    → IsConsistent (set rs (ch * 8 + 7) susp)
unfolding IsConsistent
suspended rs ch susp ch4 e (len, settled) = (
  omega (arith, length-set rs (ch * 8 + 7) susp),
  λ i i4. elim (ℕ_discrete ch i) [
    | yes same ↦
        subst (IsSettled (set rs (ch * 8 + 7) susp)) same
          (suspend rs ch susp (omega arith) e (settled ch ch4))
    | no other ↦ elsewhere rs i (ch * 8 + 7) susp (omega arith) (omega arith) (settled i i4)
  ],
)

-- A start register that is 0 is written 0.
pub stopped :
    (rs : List ℕ) (ch : ℕ)
    → ch < 4
    → get_or rs (ch * 8 + 6) 0 ≡ 0
    → IsConsistent rs
    → IsConsistent (set rs (ch * 8 + 6) 0)
unfolding IsConsistent IsSettled
stopped rs ch ch4 e (len, settled) = (
  omega (arith, length-set rs (ch * 8 + 6) 0),
  λ i i4. elim (ℕ_discrete ch i) [
    | yes same ↦ subst (IsSettled (set rs (ch * 8 + 6) 0)) same (
        rw
          (
            get_or-set_self rs (ch * 8 + 6) 0 0 (omega arith),
            get_or-set_ne rs (ch * 8 + 6) (ch * 8 + 7) 0 0 (omega arith),
          )
          (omega (arith, (settled ch ch4).0, e), omega arith))
    | no other ↦ elsewhere rs i (ch * 8 + 6) 0 (omega arith) (omega arith) (settled i i4)
  ],
)

pub other_field :
    (field : ℕ)
    → (field == kst) ≡ false
    → (field == ksusp) ≡ false
    → field / 4 < 8
    → field / 4 * 4 ≡ field
    → field / 4 < 6
other_field field a b small whole = ground (arith, a, b)

-- A start register with bit 0 clear is 0.
pub idle :
    (rs : List ℕ) (ch v : ℕ)
    → ch < 4
    → IsConsistent rs
    → bit_and v 1 == 1 && bit_and (get_or rs (ch * 8 + 6) 0) 1 == 0 ≡ true
    → get_or rs (ch * 8 + 6) 0 ≡ 0
unfolding IsConsistent IsSettled
idle rs ch v h (len, settled) e =
    ground (arith, (settled ch h).1, bit_and_mask 1 (get_or rs (ch * 8 + 6) 0))
