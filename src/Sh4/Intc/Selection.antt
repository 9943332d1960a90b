-- ===== src/Sh4/Intc/Selection.antt =====
-- Which interrupt `select` delivers.
use mathlib.Core.List.{append_assoc, append-nil}
use dream_recomp.Base.{
  ℕ, ◌/◌, ◌^◌, ◌≤◌, ◌<◌, ◌≡◌, ◌⊎◌, inl, inr, refl, sym, ◌∙◌, ap, arith, bit_and, Bool, true, false,
  not, ◌&&◌, ◌==◌, ltb, ◌≢◌, ==_iff, Option, none, some, List, [], ◌∷◌, ◌++◌, Bool-cases, dec_lt,
}
use dream_recomp.Sh4.Ctx.{sr_bl, sr_imask}
use dream_recomp.Sh4.Intc.{
  Intc, Irq, Selected, all_irqs, irq_number, intevt, priority, pending, consider, select_from,
  select,
}

-- Pending, with a priority above the mask, and not 0.
pub deliverable : Intc → ℕ → Irq → Bool
deliverable c imask irq = pending c irq && (not (priority c irq == 0) && ltb imask (priority c irq))

abbrev pub All : (Irq → Type 0) → List Irq → Type 0
All P [] = Unit {0}
All P (x ∷ xs) = P x × All P xs

-- The choice among `irqs`: those before it have a lower priority, those after it no higher one.
pub record Chosen (c : Intc) (imask : ℕ) (irqs : List Irq) (b : Selected) : Type 0 where
  pub before : List Irq
  pub after : List Irq
  pub place : irqs ≡ before ++ b.irq ∷ after
  pub is_deliverable : deliverable c imask b.irq ≡ true
  pub its_code : b.code ≡ intevt b.irq
  pub its_level : b.level ≡ priority c b.irq
  pub lower_before : All (λ x. (deliverable c imask x ≡ false) ⊎ (priority c x < b.level)) before
  pub no_higher_after : All (λ x. (deliverable c imask x ≡ false) ⊎ (priority c x ≤ b.level)) after

abbrev pub Best : Intc → ℕ → List Irq → Option Selected → Type 0
Best c imask irqs none = All (λ x. deliverable c imask x ≡ false) irqs
Best c imask irqs (some b) = Chosen c imask irqs b

All-append : (P : Irq → Type 0) (xs ys : List Irq) → All P xs → All P ys → All P (xs ++ ys)
All-append P [] ys h k = k
All-append P (x ∷ xs) ys h k = (h.0, All-append P xs ys h.1 k)

All-map : (P Q : Irq → Type 0) → ((x : Irq) → P x → Q x) → (xs : List Irq) → All P xs → All Q xs
All-map P Q f [] h = tt
All-map P Q f (x ∷ xs) h = (f x h.0, All-map P Q f xs h.1)

abbrev taken : Intc → Irq → Selected
taken c x = record { irq = x; code = intevt x; level = priority c x }

consider-rejected :
    (c : Intc) (m : ℕ) (x : Irq) (best : Option Selected)
    → deliverable c m x ≡ false
    → consider c m x best ≡ best
unfolding consider deliverable
consider-rejected c m x best h = ground arith

consider-first :
    (c : Intc) (m : ℕ) (x : Irq) → deliverable c m x ≡ true → consider c m x none ≡ some (taken c x)
unfolding consider deliverable
consider-first c m x h = ground arith

consider-higher :
    (c : Intc) (m : ℕ) (x : Irq) (b : Selected)
    → deliverable c m x ≡ true
    → b.level < priority c x
    → consider c m x (some b) ≡ some (taken c x)
unfolding consider deliverable
consider-higher c m x b h k = ground arith

consider-not_higher :
    (c : Intc) (m : ℕ) (x : Irq) (b : Selected)
    → priority c x ≤ b.level
    → consider c m x (some b) ≡ some b
unfolding consider
consider-not_higher c m x b k = ground arith

add_last :
    (c : Intc) (m : ℕ) (seen : List Irq) (x : Irq) (b : Selected)
    → (deliverable c m x ≡ false) ⊎ (priority c x ≤ b.level)
    → Chosen c m seen b
    → Chosen c m (seen ++ x ∷ []) b
add_last c m seen x b h k = record {
  before = k.before;
  after = k.after ++ x ∷ [];
  place =
      ap (λ (t : List Irq). t ++ x ∷ []) k.place ∙ append_assoc k.before (b.irq ∷ k.after) (x ∷ []);
  is_deliverable = k.is_deliverable;
  its_code = k.its_code;
  its_level = k.its_level;
  lower_before = k.lower_before;
  no_higher_after = All-append _ k.after (x ∷ []) k.no_higher_after (h, tt);
}

first_choice :
    (c : Intc) (m : ℕ) (seen : List Irq) (x : Irq)
    → deliverable c m x ≡ true
    → All (λ y. (deliverable c m y ≡ false) ⊎ (priority c y < priority c x)) seen
    → Chosen c m (seen ++ x ∷ []) (taken c x)
first_choice c m seen x h k = record {
  before = seen;
  after = [];
  place = refl;
  is_deliverable = h;
  its_code = refl;
  its_level = refl;
  lower_before = k;
  no_higher_after = tt;
}

All-lower :
    (c : Intc) (m n : ℕ) (seen : List Irq) (b : Selected)
    → b.level < n
    → Chosen c m seen b
    → All (λ y. (deliverable c m y ≡ false) ⊎ (priority c y < n)) seen
All-lower c m n seen b h k = rw k.place (
    All-append _ k.before (b.irq ∷ k.after)
      (All-map (λ y. (deliverable c m y ≡ false) ⊎ (priority c y < b.level)) _
        (λ y e. elim e [ inl d ↦ inl d | inr l ↦ inr (omega arith) ]) k.before k.lower_before)
      (
        inr (omega (arith, k.its_level)),
        All-map (λ y. (deliverable c m y ≡ false) ⊎ (priority c y ≤ b.level)) _
            (λ y e. elim e [ inl d ↦ inl d | inr l ↦ inr (omega arith) ]) k.after k.no_higher_after,
      ))

consider-Best :
    (c : Intc) (m : ℕ) (seen : List Irq) (x : Irq) (best : Option Selected)
    → Best c m seen best
    → Best c m (seen ++ x ∷ []) (consider c m x best)
consider-Best c m seen x none h = elim (Bool-cases (deliverable c m x)) [
  | inl d ↦
      rw (consider-first c m x d) (
        first_choice c m seen x d
          (All-map (λ y. deliverable c m y ≡ false) _ (λ y e. inl e) seen h))
  | inr d ↦
      rw (consider-rejected c m x none d)
        (All-append (λ y. deliverable c m y ≡ false) seen (x ∷ []) h (d, tt))
]
consider-Best c m seen x (some b) h = elim (dec_lt b.level (priority c x)) [
  | no k ↦
      rw (consider-not_higher c m x b (omega arith)) (add_last c m seen x b (inr (omega arith)) h)
  | yes k ↦ elim (Bool-cases (deliverable c m x)) [
    | inl d ↦
        rw (consider-higher c m x b d k)
          (first_choice c m seen x d (All-lower c m (priority c x) seen b k h))
    | inr d ↦ rw (consider-rejected c m x (some b) d) (add_last c m seen x b (inl d) h)
  ]
]

select_from-Best :
    (c : Intc) (m : ℕ) (seen rest : List Irq) (best : Option Selected)
    → Best c m seen best
    → Best c m (seen ++ rest) (select_from c m rest best)
unfolding select_from
select_from-Best c m seen [] best h = rw (append-nil seen) h
select_from-Best c m seen (x ∷ rest) best h = rw (sym (append_assoc seen (x ∷ []) rest)) (
    select_from-Best c m (seen ++ x ∷ []) rest (consider c m x best)
      (consider-Best c m seen x best h))

not_pending : (c : Intc) (x : Irq) → c.pending_bits ≡ 0 → pending c x ≡ false
unfolding pending
not_pending c x h = rw h (rw (zero-div (irq_number x)) refl)
  where
    zero-div : (n : ℕ) → 0 / 2 ^ n ≡ 0
    zero-div n = omega arith

none_pending :
    (c : Intc) (m : ℕ) (irqs : List Irq)
    → c.pending_bits ≡ 0
    → All (λ x. deliverable c m x ≡ false) irqs
unfolding deliverable
none_pending c m [] h = tt
none_pending c m (x ∷ xs) h = (rw (not_pending c x h) refl, none_pending c m xs h)

pub select-blocked : (c : Intc) (sr : ℕ) → bit_and sr sr_bl ≢ 0 → select c sr ≡ none
unfolding select
select-blocked c sr h = ground arith

-- With SR.BL clear, `select` answers nothing only when no interrupt is pending with a priority that
-- is not 0 and above SR.IMASK; what it answers is such an interrupt with its code and priority, and
-- every other such interrupt has a lower priority, or the same and comes later in the order.
pub select-Best :
    (c : Intc) (sr : ℕ)
    → bit_and sr sr_bl ≡ 0
    → Best c (bit_and sr sr_imask / 2 ^ 4) all_irqs (select c sr)
unfolding select
select-Best c sr h = elim (Bool-cases (c.pending_bits == 0)) [
  | inl z ↦ rw z (none_pending c _ all_irqs ((==_iff c.pending_bits 0).0 z))
  | inr z ↦ rw (z, h) (select_from-Best c _ [] all_irqs none tt)
]
