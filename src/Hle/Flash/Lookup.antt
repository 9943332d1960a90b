-- ===== src/Hle/Flash/Lookup.antt =====
-- What `lookup` finds, against the layout of a partition: a header, the user blocks, and a bitmap of
-- one bit for each block after them.
use native.Mathlib.Nat.{one-le-pow}
use mathlib.Core.Bool.{true≢false}
use dream_recomp.Base.{
  ℕ, zero, suc, ◌+◌, ◌-◌, ◌*◌, ◌/◌, ◌%◌, ◌^◌, ◌≤◌, ◌<◌, ◌≡◌, ◌≢◌, ◌⊎◌, inl, inr, refl, ap, ◌∙◌,
  arith, bit_and, bit_or, ==_iff, ◌==◌, Bool, true, not, Bool-cases, ℕ_discrete, sym, dec_lt,
}
use dream_recomp.Base.Bits.{bit_at, bit_and-pow}
use dream_recomp.Hle.Flash.{Data, is_free, next_id, next_bitmap, user_blocks, lookup_from, lookup}

-- The mask of a block is a bit of its bitmap's byte, from the top.
mask_lem : (j : ℕ) → j < 8 → 0x80 / 2 ^ j ≡ 2 ^ (7 - j)
mask_lem zero h = refl
mask_lem (suc zero) h = refl
mask_lem (suc (suc zero)) h = refl
mask_lem (suc (suc (suc zero))) h = refl
mask_lem (suc (suc (suc (suc zero)))) h = refl
mask_lem (suc (suc (suc (suc (suc zero))))) h = refl
mask_lem (suc (suc (suc (suc (suc (suc zero)))))) h = refl
mask_lem (suc (suc (suc (suc (suc (suc (suc zero))))))) h = refl
mask_lem (suc (suc (suc (suc (suc (suc (suc (suc j)))))))) h = absurd (omega arith)

product_zero : (b w : ℕ) → 1 ≤ w → (b * w == 0) ≡ (b == 0)
product_zero zero w h = ground arith
product_zero (suc b) w h = ground arith

-- `bitmap[bit / 8] & (0x80 >> bit % 8)` tests one bit.
tested : (a bit : ℕ) → (bit_and a (0x80 / 2 ^ (bit % 512 % 8)) == 0) ≡ (bit_at a (7 - bit % 8) == 0)
tested a bit =
    let same : bit % 512 % 8 ≡ bit % 8 = omega arith in
    rw (same, mask_lem (bit % 8) (omega arith), bit_and-pow (7 - bit % 8) a)
      (product_zero (bit_at a (7 - bit % 8)) (2 ^ (7 - bit % 8))
        (one-le-pow (7 - bit % 8) 2 (omega arith)))

user_blocks_lem :
    (size n b : ℕ)
    → size < 2 ^ 32
    → 1 + n + b ≡ size / 64
    → size / 64 ≤ b * 512
    → b * 512 < size / 64 + 512
    → user_blocks size ≡ n
unfolding user_blocks
user_blocks_lem size n b small parts enough fewest = omega arith

module _ (d : Data) (offset n block_id : ℕ) where
  -- The bitmap of block `p` is the one after `n` user blocks and the bitmaps of 512 blocks each that
  -- come before, and its bit there is clear.
  unfoldable pub allocated : ℕ → Bool
  allocated p =
      bit_at (d (offset + (1 + n + (p - 1) / 512) * 64 + (p - 1) % 512 / 8)) (7 - (p - 1) % 8) == 0

  -- The logical id in the first two bytes of block `p`.
  unfoldable pub id_of : ℕ → ℕ
  id_of p = bit_or (d (offset + p * 64)) (d (offset + p * 64 + 1) * 2 ^ 8)

  -- Block `p` is one of the `n` user blocks, it and all before it are allocated, and it carries the id.
  pub record IsLive (p : ℕ) : Type 0 where
    pub first : 1 ≤ p
    pub last : p ≤ n
    pub in_use : (q : ℕ) → 1 ≤ q → q ≤ p → allocated q ≡ true
    pub carries : id_of p ≡ block_id

  -- The highest of these blocks, or 0 where there is none.
  pub record IsHighest (r : ℕ) : Type 0 where
    pub found : (r ≡ 0) ⊎ IsLive r
    pub highest : (p : ℕ) → IsLive p → p ≤ r

  -- The bitmap of block `p`.
  here : ℕ → ℕ
  here p = offset + (1 + n + (p - 1) / 512) * 64

  is_free-allocated : (p : ℕ) → is_free d (here p) p ≡ not (allocated p)
  unfolding here allocated
  is_free-allocated p = ap not (tested (d (here p + (p - 1) % 512 / 8)) (p - 1))

  -- What the loop knows of the bitmaps when it comes to block `p`.
  record Placed (p bitmap_id bitmap : ℕ) : Type 0 where
    next : bitmap_id ≡ 1 + n + (p - 1 + 511) / 512
    current : (p - 1) % 512 ≢ 0 → bitmap ≡ here p

  next_bitmap-Placed : (p i b : ℕ) → 1 ≤ p → Placed p i b → next_bitmap offset p i b ≡ here p
  unfolding here
  next_bitmap-Placed p i b h at_p = elim (ℕ_discrete ((p - 1) % 512) 0) [
    | yes starts ↦ ground (arith, starts, at_p.next)
    | no inside ↦ ground (arith, inside, at_p.current inside)
  ]

  next-Placed : (p i b : ℕ) → 1 ≤ p → Placed p i b → Placed (p + 1) (next_id p i) (here p)
  unfolding here
  next-Placed p i b h at_p = record {
    next = ground (arith, at_p.next);
    current = λ k. ground (arith, k);
  }

  lookup_from-IsHighest :
      (left p i b r : ℕ)
      → 1 ≤ p
      → p + left ≡ n + 1
      → Placed p i b
      → ((q : ℕ) → 1 ≤ q → q < p → allocated q ≡ true)
      → (r ≡ 0) ⊎ IsLive r
      → ((q : ℕ) → IsLive q → q < p → q ≤ r)
      → IsHighest (lookup_from d offset block_id left p i b r)
  unfolding lookup_from id_of
  lookup_from-IsHighest zero p i b r h e at_p before ok most = record {
    found = ok;
    highest = λ q live. most q live (omega (arith, live.last));
  }
  lookup_from-IsHighest (suc left) p i b r h e at_p before ok most =
      rw (next_bitmap-Placed p i b h at_p, is_free-allocated p)
        (elim (Bool-cases (allocated p)) [
          | inl used ↦
              let so_far : (q : ℕ) → 1 ≤ q → q < p + 1 → allocated q ≡ true = λ q one below.
                elim (ℕ_discrete q p) [
                  | yes same ↦ rw same used
                  | no other ↦ before q one (omega arith)
                ] in
              let go : (r' : ℕ)
                  → (r' ≡ 0) ⊎ IsLive r'
                  → ((q : ℕ) → IsLive q → q < p + 1 → q ≤ r')
                  → IsHighest
                      (lookup_from d offset block_id left (p + 1) (next_id p i) (here p) r') =
                λ r'.
                  lookup_from-IsHighest left (p + 1) _ _ r' (omega arith) (omega arith)
                    (next-Placed p i b h at_p) so_far in
              rw used (elim (Bool-cases (id_of p == block_id)) [
                | inl same ↦ rw same (
                    go p
                      (inr (record {
                        first = h;
                        last = omega arith;
                        in_use = λ q one le. so_far q one (omega arith);
                        carries = (==_iff (id_of p) block_id).0 same;
                      }))
                      (λ q live below. omega arith))
                | inr other ↦ rw other (
                    go r ok (λ q live below. elim (ℕ_discrete q p) [
                      | yes at_p ↦ absurd (
                          true≢false
                            (sym ((==_iff (id_of p) block_id).1 (rw at_p at live.carries)) ∙ other))
                      | no apart ↦ most q live (omega arith)
                    ]))
              ])
          | inr free ↦ rw free (record {
            found = ok;
            highest = λ q live. elim (dec_lt q p) [
              | yes below ↦ most q live below
              | no above ↦ absurd (true≢false (sym (live.in_use p h (omega arith)) ∙ free))
            ];
          })
        ])

-- In a partition of a header, `n` user blocks and `b` bitmaps, the fewest that have a bit for every
-- block, `lookup` answers the highest user block that carries the id and comes before every free
-- block, and 0 where there is none. Conditions: the size has 32 bits.
pub lookup-IsHighest :
    (d : Data) (offset size block_id n b : ℕ)
    → size < 2 ^ 32
    → 1 + n + b ≡ size / 64
    → size / 64 ≤ b * 512
    → b * 512 < size / 64 + 512
    → IsHighest d offset n block_id (lookup d offset size block_id)
unfolding lookup
lookup-IsHighest d offset size block_id n b small parts enough fewest =
    let blocks : user_blocks size ≡ n = user_blocks_lem size n b small parts enough fewest in
    rw blocks (
      lookup_from-IsHighest d offset n block_id n 1 _ 0 0 (omega arith) (omega arith)
        (record { next = omega arith; current = λ k. absurd (k refl) })
        (λ q one below. absurd (omega arith)) (inl refl)
        (λ q live below. absurd (omega (arith, live.first))))
