-- ===== src/Translator/Decoder/Unique.antt =====
-- Which row of the decoder's table a word is decoded by.
use mathlib.Core.Path.{subst}
use dream_recomp.Base.{
  ℕ, zero, suc, ◌+◌, ◌%◌, ◌^◌, ◌<◌, ◌≡◌, refl, sym, ap, ◌∙◌, arith, bit_and, Bool, true, false, not,
  ◌&&◌, ◌==◌, ==_iff, Bool-cases, inl, inr, Option, none, some, List, [], ◌∷◌, get_elem?, length,
}
use dream_recomp.Base.Bits.Assoc.{bit_and_comm, bit_and_assoc}
use dream_recomp.Translator.Decoder.{table, matches, index_from, index, entry_at}
use dream_recomp.Translator.Decoder.Entry.{Entry}

-- Two rows that no word matches together, by their masks and values alone.
abbrev pub apart : Entry → Entry → Bool
apart d e = not (bit_and d.value e.mask == bit_and e.value d.mask)

abbrev pub apart_from_all : Entry → List Entry → Bool
apart_from_all d [] = true
apart_from_all d (e ∷ es) = apart d e && apart_from_all d es

abbrev pub all_apart : List Entry → Bool
all_apart [] = true
all_apart (e ∷ es) = apart_from_all e es && all_apart es

table-apart : all_apart table ≡ true
table-apart = refl

pub matches-value : (raw : ℕ) (e : Entry) → matches raw e ≡ true → bit_and raw e.mask ≡ e.value
unfolding matches
matches-value raw e h = (==_iff (bit_and raw e.mask) e.value).0 h

common_mask : (raw a b : ℕ) → bit_and (bit_and raw a) b ≡ bit_and (bit_and raw b) a
common_mask raw a b =
    bit_and_assoc raw a b ∙ ap (bit_and raw) (bit_and_comm a b) ∙ sym (bit_and_assoc raw b a)

apart-exclusive :
    (raw : ℕ) (d e : Entry) → apart d e ≡ true → matches raw d ≡ true → matches raw e ≡ true → ⊥
apart-exclusive raw d e h k l = clash (bit_and d.value e.mask) (bit_and e.value d.mask) h (
    sym (ap (λ (t : ℕ). bit_and t e.mask) (matches-value raw d k))
    ∙ common_mask raw d.mask e.mask
    ∙ ap (λ (t : ℕ). bit_and t d.mask) (matches-value raw e l))
  where
    clash : (a b : ℕ) → not (a == b) ≡ true → a ≡ b → ⊥
    clash a b h k = ground arith

pub both : (a b : Bool) → a && b ≡ true → (a ≡ true) × (b ≡ true)
both true true h = (refl, refl)
both true false h = ground arith
both false b h = ground arith

pub row : (d e : Entry) → some d ≡ some e → d ≡ e
row d e h = ap (λ (o : Option Entry). elim o [ none ↦ d | some x ↦ x ]) h

apart_from_all-get :
    (d e : Entry) (es : List Entry) (i : ℕ)
    → apart_from_all d es ≡ true
    → get_elem? es i ≡ some e
    → apart d e ≡ true
apart_from_all-get d e [] i h k = ground arith
apart_from_all-get d e (x ∷ es) zero h k =
    subst (λ (t : Entry). apart d t ≡ true) (row x e k) (both (apart d x) (apart_from_all d es) h).0
apart_from_all-get d e (x ∷ es) (suc i) h k =
    apart_from_all-get d e es i (both (apart d x) (apart_from_all d es) h).1 k

-- In a table without overlaps the search finds the row that matches, wherever it stands.
index_from-get :
    (raw : ℕ) (e : Entry) (k : ℕ) (es : List Entry) (i : ℕ)
    → all_apart es ≡ true
    → get_elem? es i ≡ some e
    → matches raw e ≡ true
    → index_from raw k es ≡ (k + i + 1) % 2 ^ 8
unfolding index_from
index_from-get raw e k [] i h g l = ground arith
index_from-get raw e k (x ∷ es) zero h g l =
    rw (subst (λ (t : Entry). matches raw t ≡ true) (sym (row x e g)) l) (omega arith)
index_from-get raw e k (x ∷ es) (suc i) h g l = elim (Bool-cases (matches raw x)) [
  | inl y ↦ absurd (
      apart-exclusive raw x e
        (apart_from_all-get x e es i (both (apart_from_all x es) (all_apart es) h).0 g) y l)
  | inr y ↦ rw y (
      omega (
        arith,
        index_from-get raw e (k + 1) es i (both (apart_from_all x es) (all_apart es) h).1 g l,
      ))
]

get_elem?-lt : (es : List Entry) (i : ℕ) (e : Entry) → get_elem? es i ≡ some e → i < length es
get_elem?-lt [] i e h = ground arith
get_elem?-lt (x ∷ es) zero e h = omega arith
get_elem?-lt (x ∷ es) (suc i) e h = omega (arith, get_elem?-lt es i e h)

-- A row of the table that matches a word is the row that the word is decoded by, wherever it stands
-- in the table.
pub entry_at-index :
    (raw i : ℕ) (e : Entry)
    → get_elem? table i ≡ some e
    → matches raw e ≡ true
    → entry_at (index raw) ≡ some e
unfolding entry_at index
entry_at-index raw i e h l =
    rw (index_from-get raw e 0 table i table-apart h l, small i (get_elem?-lt table i e h)) h
  where
    small : (i : ℕ) → i < 211 → (0 + i + 1) % 2 ^ 8 ≡ suc i
    small i h = omega arith
