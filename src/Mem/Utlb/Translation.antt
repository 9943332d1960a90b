-- ===== src/Mem/Utlb/Translation.antt =====
-- What `Utlb::translate` returns.
use dream_recomp.Base.{
  ℕ, zero, suc, ◌+◌, ◌*◌, ◌/◌, ◌%◌, ◌^◌, ◌<◌, ◌≡◌, sym, ◌∙◌, arith, bit_and, bit_or, List, [], ◌∷◌,
  get_or, ◌==◌, if◌then◌else◌, true, false, some, Bool-cases, inl, inr, length,
}
use dream_recomp.Base.Bits.{bit_and_mask, bit_and_field, bit_or_fields}
use dream_recomp.Sh4.Alu.{not32}
use dream_recomp.Mem.Utlb.{Utlb, matches, physical, translate, translate_from, page_mask, page_size}

-- The page holds 2 ^ 10, 2 ^ 12, 2 ^ 16 or 2 ^ 20 bytes.
pub page_bits : ℕ → ℕ
page_bits size = if size == 0 then 10 else if size == 1 then 12 else if size == 2 then 16 else 20

page_10 :
    (va word : ℕ)
    → bit_or (bit_and (bit_and word 0x1fff_fc00) 4294966272) (bit_and va (not32 4294966272))
      ≡ word % 2 ^ 29 / 2 ^ 10 * 2 ^ 10 + va % 2 ^ 10
page_10 va word =
    rw
      (
        bit_and_field 10 19 word,
        bit_and_field 10 22 (word / 2 ^ 10 % 2 ^ 19 * 2 ^ 10),
        bit_and_mask 10 va,
      )
      (rw
        (bit_or_fields 10 (word / 2 ^ 10 % 2 ^ 19 * 2 ^ 10 / 2 ^ 10 % 2 ^ 22) (va % 2 ^ 10)
          (omega arith))
        (omega arith))

page_12 :
    (va word : ℕ)
    → bit_or (bit_and (bit_and word 0x1fff_fc00) 4294963200) (bit_and va (not32 4294963200))
      ≡ word % 2 ^ 29 / 2 ^ 12 * 2 ^ 12 + va % 2 ^ 12
page_12 va word =
    rw
      (
        bit_and_field 10 19 word,
        bit_and_field 12 20 (word / 2 ^ 10 % 2 ^ 19 * 2 ^ 10),
        bit_and_mask 12 va,
      )
      (rw
        (bit_or_fields 12 (word / 2 ^ 10 % 2 ^ 19 * 2 ^ 10 / 2 ^ 12 % 2 ^ 20) (va % 2 ^ 12)
          (omega arith))
        (omega arith))

page_16 :
    (va word : ℕ)
    → bit_or (bit_and (bit_and word 0x1fff_fc00) 4294901760) (bit_and va (not32 4294901760))
      ≡ word % 2 ^ 29 / 2 ^ 16 * 2 ^ 16 + va % 2 ^ 16
page_16 va word =
    rw
      (
        bit_and_field 10 19 word,
        bit_and_field 16 16 (word / 2 ^ 10 % 2 ^ 19 * 2 ^ 10),
        bit_and_mask 16 va,
      )
      (rw
        (bit_or_fields 16 (word / 2 ^ 10 % 2 ^ 19 * 2 ^ 10 / 2 ^ 16 % 2 ^ 16) (va % 2 ^ 16)
          (omega arith))
        (omega arith))

page_20 :
    (va word : ℕ)
    → bit_or (bit_and (bit_and word 0x1fff_fc00) 4293918720) (bit_and va (not32 4293918720))
      ≡ word % 2 ^ 29 / 2 ^ 20 * 2 ^ 20 + va % 2 ^ 20
page_20 va word =
    rw
      (
        bit_and_field 10 19 word,
        bit_and_field 20 12 (word / 2 ^ 10 % 2 ^ 19 * 2 ^ 10),
        bit_and_mask 20 va,
      )
      (rw
        (bit_or_fields 20 (word / 2 ^ 10 % 2 ^ 19 * 2 ^ 10 / 2 ^ 20 % 2 ^ 12) (va % 2 ^ 20)
          (omega arith))
        (omega arith))

abbrev PageSplit : ℕ → ℕ → ℕ → ℕ → Type 0
PageSplit va word mask k =
    bit_or (bit_and (bit_and word 0x1fff_fc00) mask) (bit_and va (not32 mask))
    ≡ word % 2 ^ 29 / 2 ^ k * 2 ^ k + va % 2 ^ k

at_size :
    (va word n mask k : ℕ)
    → page_mask n ≡ mask
    → page_bits n ≡ k
    → PageSplit va word mask k
    → PageSplit va word (page_mask n) (page_bits n)
at_size va word n mask k em ek h = rw (em, ek) h

by_size : (va word n : ℕ) → PageSplit va word (page_mask n) (page_bits n)
by_size va word n = elim (Bool-cases (n == 0)) [
  | inl e ↦
      at_size va word n 0xffff_fc00 10 (unfold page_mask in rw e) (unfold page_bits in rw e)
        (page_10 va word)
  | inr e ↦ elim (Bool-cases (n == 1)) [
    | inl f ↦
        at_size va word n 0xffff_f000 12 (unfold page_mask in rw (e, f))
          (unfold page_bits in rw (e, f)) (page_12 va word)
    | inr f ↦ elim (Bool-cases (n == 2)) [
      | inl g ↦
          at_size va word n 0xffff_0000 16 (unfold page_mask in rw (e, f, g))
            (unfold page_bits in rw (e, f, g)) (page_16 va word)
      | inr g ↦
          at_size va word n 0xfff0_0000 20 (unfold page_mask in rw (e, f, g))
            (unfold page_bits in rw (e, f, g)) (page_20 va word)
    ]
  ]
]

-- A hit is the frame of the data entry with the page offset of the address.
physical_page :
    (va word : ℕ)
    → let k = page_bits (page_size word) in
      physical va word ≡ word % 2 ^ 29 / 2 ^ k * 2 ^ k + va % 2 ^ k
unfolding physical
physical_page va word = by_size va word (page_size word)

-- The entry that answers, and what it answers.
pub record Hit (es ds : List ℕ) (va pa : ℕ) : Type 0 where
  pub index : ℕ
  pub inside : index < length ds
  pub matched : matches va (get_or es index 0) (get_or ds index 0) ≡ true
  pub first : (j : ℕ) → j < index → matches va (get_or es j 0) (get_or ds j 0) ≡ false
  pub address :
      let k = page_bits (page_size (get_or ds index 0)) in
      pa ≡ get_or ds index 0 % 2 ^ 29 / 2 ^ k * 2 ^ k + va % 2 ^ k

later-Hit :
    (e d : ℕ) (es ds : List ℕ) (va pa : ℕ)
    → matches va e d ≡ false
    → Hit es ds va pa
    → Hit (e ∷ es) (d ∷ ds) va pa
later-Hit e d es ds va pa miss h = record {
  index = suc h.index;
  inside = omega (arith, h.inside);
  matched = h.matched;
  first = before;
  address = h.address;
}
  where
    before :
        (j : ℕ) → j < suc h.index → matches va (get_or (e ∷ es) j 0) (get_or (d ∷ ds) j 0) ≡ false
    before zero p = miss
    before (suc j) p = h.first j (omega arith)

first_hit : (va d pa : ℕ) → some (physical va d) ≡ some pa → physical va d ≡ pa
first_hit va d pa e = cc

translate_from-Hit :
    (es ds : List ℕ) (va pa : ℕ) → translate_from es ds va ≡ some pa → Hit es ds va pa
unfolding translate_from
translate_from-Hit [] ds va pa e = cc
translate_from-Hit (x ∷ es) [] va pa e = cc
translate_from-Hit (x ∷ es) (d ∷ ds) va pa e = elim (Bool-cases (matches va x d)) [
  | inl hit ↦ record {
    index = 0;
    inside = omega arith;
    matched = hit;
    first = λ j p. absurd (omega arith);
    address = sym (first_hit va d pa (rw hit at e)) ∙ physical_page va d;
  }
  | inr miss ↦ later-Hit x d es ds va pa miss (translate_from-Hit es ds va pa (rw miss at e))
]

-- `translate` answers from the first valid entry whose page holds the address: the frame number is
-- the entry's, cut to 29 bits, and the offset in the page is the address's.
pub translate-Hit : (u : Utlb) (va pa : ℕ) → translate u va ≡ some pa → Hit u.addr u.data1 va pa
unfolding translate
translate-Hit u va pa e = translate_from-Hit u.addr u.data1 va pa e
