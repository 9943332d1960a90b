-- ===== src/Sched/Earliest.antt =====
-- The choice of the next event.
use dream_recomp.Base.{
  ℕ, zero, suc, ◌+◌, ◌≤◌, ◌<◌, ◌≡◌, ◌⊎◌, inl, inr, refl, ap, arith, ltb, Bool-cases, List, [], ◌∷◌,
  length, get_or,
}
use dream_recomp.Sched.{Scheduler, Due, never, scan, least, earliest, next_deadline}

-- `d` is the first of the least deadlines among those from the `i`-th on and `before`.
pub record IsFirst (es : List ℕ) (i : ℕ) (before d : Due) : Type 0 where
  pub no_later : d.best ≤ before.best
  pub least_of : (j : ℕ) → j < length es → d.best ≤ get_or es j never
  pub chosen :
      (d ≡ before)
      ⊎ ((k : ℕ) × (k < length es)
          × (d.idx ≡ i + k)
          × (d.best ≡ get_or es k never)
          × (d.best < before.best)
          × ((j : ℕ) → j < k → d.best < get_or es j never))

below_all :
    (b e : ℕ) (es : List ℕ)
    → b ≤ e
    → ((j : ℕ) → j < length es → b ≤ get_or es j never)
    → (j : ℕ) → j < suc (length es)
    → b ≤ get_or (e ∷ es) j never
below_all b e es h k zero p = h
below_all b e es h k (suc j) p = k j (omega arith)

before_all :
    (b e n : ℕ) (es : List ℕ)
    → b < e
    → ((j : ℕ) → j < n → b < get_or es j never)
    → (j : ℕ) → j < suc n
    → b < get_or (e ∷ es) j never
before_all b e n es h k zero p = h
before_all b e n es h k (suc j) p = k j (omega arith)

taken :
    (e : ℕ) (es : List ℕ) (i : ℕ) (d r : Due)
    → e < d.best
    → IsFirst es (i + 1) (record { idx = i; best = e }) r
    → IsFirst (e ∷ es) i d r
taken e es i d r h v = record {
  no_later = omega (arith, v.no_later);
  least_of = below_all r.best e es v.no_later v.least_of;
  chosen = elim v.chosen [
    | inl same ↦ inr (0, omega arith, ground arith, ground arith, ground arith, λ j p. elim p [ ])
    | inr (k, p, q, b, l, before) ↦
        inr (suc k, omega arith, omega arith, b, omega arith, before_all r.best e k es l before)
  ];
}

skipped :
    (e : ℕ) (es : List ℕ) (i : ℕ) (d r : Due)
    → d.best ≤ e
    → IsFirst es (i + 1) d r
    → IsFirst (e ∷ es) i d r
skipped e es i d r h v = record {
  no_later = v.no_later;
  least_of = below_all r.best e es (omega (arith, v.no_later)) v.least_of;
  chosen = elim v.chosen [
    | inl same ↦ inl same
    | inr (k, p, q, b, l, before) ↦
        inr (suc k, omega arith, omega arith, b, l, before_all r.best e k es (omega arith) before)
  ];
}

scan-IsFirst : (es : List ℕ) (i : ℕ) (d : Due) → IsFirst es i d (scan es i d)
unfolding scan
scan-IsFirst [] i d = record {
  no_later = omega arith;
  least_of = λ j h. elim h [ ];
  chosen = inl refl;
}
scan-IsFirst (e ∷ es) i d = elim (Bool-cases (ltb e d.best)) [
  | inl h ↦
      rw h
        (taken e es i d _ (ground arith) (scan-IsFirst es (i + 1) (record { idx = i; best = e })))
  | inr h ↦ rw h (skipped e es i d _ (ground arith) (scan-IsFirst es (i + 1) d))
]

-- The event that runs next: none has an earlier deadline, and of those with the same one it was
-- added first. Where nothing is armed the index is the number of events.
pub record IsNext {W : Type 0} (s : Scheduler W) (d : Due) : Type 0 where
  pub least_of : (j : ℕ) → j < length s.events → d.best ≤ get_or s.events j never
  pub chosen :
      ((d.idx ≡ length s.events) × (d.best ≡ never))
      ⊎ ((d.idx < length s.events)
          × (d.best ≡ get_or s.events d.idx never)
          × (d.best < never)
          × ((j : ℕ) → j < d.idx → d.best < get_or s.events j never))

-- The scan of `advance_to` finds the first of the least deadlines, or that nothing is armed.
pub earliest-IsNext : {W : Type 0} (s : Scheduler W) → IsNext s (earliest s)
unfolding earliest
earliest-IsNext s =
    let v = scan-IsFirst s.events 0 (record { idx = length s.events; best = never }) in
    record {
      least_of = v.least_of;
      chosen = elim v.chosen [
        | inl same ↦ inl (ap (λ (d : Due). d.idx) same, ap (λ (d : Due). d.best) same)
        | inr (k, p, q, b, l, before) ↦
            let e : (scan s.events 0 (record { idx = length s.events; best = never })).idx ≡ k =
              omega arith in
            inr (rw e p, rw e b, l, rw e before)
      ];
    }

least-scan : (es : List ℕ) (i : ℕ) (d : Due) → least es d.best ≡ (scan es i d).best
unfolding least scan
least-scan [] i d = refl
least-scan (e ∷ es) i d =
    ground (arith, least-scan es (i + 1) (record { idx = i; best = e }), least-scan es (i + 1) d)

-- `next_deadline` is the deadline that `advance_to` would stop at.
pub next_deadline-earliest : {W : Type 0} (s : Scheduler W) → next_deadline s ≡ (earliest s).best
unfolding next_deadline earliest
next_deadline-earliest s = least-scan s.events 0 (record { idx = length s.events; best = never })
