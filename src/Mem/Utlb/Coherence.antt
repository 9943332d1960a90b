-- ===== src/Mem/Utlb/Coherence.antt =====
-- The valid bit stands in both the address array and data array 1.
use dream_recomp.Base.{
  ℕ, zero, suc, ◌≡◌, refl, sym, ◌∙◌, arith, bit_and, List, [], ◌∷◌, map, set, get_or, none, false,
  not, ◌==◌, if_intro, ltb,
}
use dream_recomp.Base.Bits.{bit_at, bit_at-bit_and, bit_at-bit_or, bit_and-pow}
use dream_recomp.Sh4.Alu.{not32}
use dream_recomp.Mem.Utlb.{
  Utlb, init, write, invalidate, valid_bit, with_valid, entry_of, matches, translate,
  translate_from,
}

-- Entry by entry the two arrays have es many words and the same valid bit.
abbrev pub SameValid : List ℕ → List ℕ → Type 0
SameValid [] [] = Unit {0}
SameValid [] (d ∷ ds) = ⊥
SameValid (a ∷ es) [] = ⊥
SameValid (a ∷ es) (d ∷ ds) = (bit_at a 8 ≡ bit_at d 8) × SameValid es ds

abbrev pub Coherent : Utlb → Type 0
Coherent u = SameValid u.addr u.data1

SameValid-set :
    (es ds : List ℕ) (i v w : ℕ)
    → bit_at v 8 ≡ bit_at w 8
    → SameValid es ds
    → SameValid (set es i v) (set ds i w)
SameValid-set [] [] i v w e h = tt
SameValid-set [] (d ∷ ds) i v w e h = absurd h
SameValid-set (a ∷ es) [] i v w e h = absurd h
SameValid-set (a ∷ es) (d ∷ ds) zero v w e h = (e, h.1)
SameValid-set (a ∷ es) (d ∷ ds) (suc i) v w e h = (h.0, SameValid-set es ds i v w e h.1)

valid-with_valid : (w v : ℕ) → bit_at (with_valid w v) 8 ≡ bit_at v 8
valid-with_valid w v = omega (
  arith,
  bit_at-bit_or 8 (bit_and w (not32 valid_bit)) (bit_and v valid_bit),
  bit_at-bit_and 8 w (not32 valid_bit),
  bit_at-bit_and 8 v valid_bit,
)

valid-data1 : (v : ℕ) → bit_at (bit_and v 0x1fff_fdff) 8 ≡ bit_at v 8
valid-data1 v = omega (arith, bit_at-bit_and 8 v 0x1fff_fdff)

cleared : (w : ℕ) → bit_at (bit_and w (not32 valid_bit)) 8 ≡ 0
cleared w = omega (arith, bit_at-bit_and 8 w (not32 valid_bit))

pub init-Coherent : Coherent init
unfolding init
init-Coherent = omega arith

-- Where the two valid bits of every entry agree, they agree after any write to any of the
-- arrays.
pub write-Coherent : (u : Utlb) (a v size : ℕ) → Coherent u → Coherent (write u a v size)
unfolding write
write-Coherent u a v size h =
    if_intro Coherent (not (size == 4)) (λ _. h)
      λ _.
        if_intro Coherent (ltb a 0xf700_0000)
          (λ _.
            if_intro Coherent (not (bit_and a 0x80 == 0)) (λ _. h)
              λ _.
                SameValid-set u.addr u.data1 (entry_of a) v
                  (with_valid (get_or u.data1 (entry_of a) 0) v) (sym (valid-with_valid _ v)) h)
          (λ _.
            if_intro Coherent (not (bit_and a 0x0080_0000 == 0)) (λ _. h)
              λ _.
                SameValid-set u.addr u.data1 (entry_of a)
                  (with_valid (get_or u.addr (entry_of a) 0) v) (bit_and v 0x1fff_fdff)
                  (valid-with_valid _ v ∙ sym (valid-data1 v)) h)

SameValid-cleared :
    (es ds : List ℕ)
    → SameValid es ds
    → SameValid
        (map (λ w. bit_and w (not32 valid_bit)) es)
        (map (λ w. bit_and w (not32 valid_bit)) ds)
SameValid-cleared [] [] h = tt
SameValid-cleared [] (d ∷ ds) h = absurd h
SameValid-cleared (a ∷ es) [] h = absurd h
SameValid-cleared (a ∷ es) (d ∷ ds) h = (cleared a ∙ sym (cleared d), SameValid-cleared es ds h.1)

invalidate-Coherent : (u : Utlb) → Coherent u → Coherent (invalidate u)
unfolding invalidate
invalidate-Coherent u h = SameValid-cleared u.addr u.data1 h

invalid-matches : (va e w : ℕ) → matches va e (bit_and w (not32 valid_bit)) ≡ false
unfolding matches
invalid-matches va e w = ground (arith, bit_and-pow 8 (bit_and w (not32 valid_bit)), cleared w)

no_hit :
    (es ds : List ℕ) (va : ℕ)
    → translate_from es (map (λ w. bit_and w (not32 valid_bit)) ds) va ≡ none
unfolding translate_from
no_hit [] [] va = refl
no_hit [] (d ∷ ds) va = refl
no_hit (a ∷ es) [] va = refl
no_hit (a ∷ es) (d ∷ ds) va = rw (invalid-matches va a d) (no_hit es ds va)

-- Where the valid bits of the two arrays agree, after MMUCR.TI no address translates, and they
-- still agree.
pub invalidate-translate :
    (u : Utlb) (va : ℕ)
    → Coherent u
    → (translate (invalidate u) va ≡ none) × Coherent (invalidate u)
unfolding translate
invalidate-translate u va h =
    (unfold invalidate in no_hit (invalidate u).addr u.data1 va, invalidate-Coherent u h)
