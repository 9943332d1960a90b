-- ===== src/Translator/Constprop/Agree.antt =====
-- What the analysis claims of the registers, and how it is kept.
use dream_recomp.Base.{
  ℕ, zero, suc, ◌≡◌, refl, ap, ap₂, Bool, true, false, Option, none, some, List, [], ◌∷◌, get_or,
  set, bit_or,
}
use dream_recomp.Translator.Constprop.{known, on_known, on_both, or_known, literal}

-- A value that is known is the register's.
abbrev pub Holds : Option ℕ → ℕ → Type 0
Holds none v = Unit
Holds (some w) v = v ≡ w

-- Each value that the analysis has is that of the register.
abbrev pub Agree : List (Option ℕ) → List ℕ → Type 0
Agree [] [] = Unit
Agree (o ∷ os) (v ∷ vs) = Holds o v × Agree os vs
Agree [] (v ∷ vs) = ⊥
Agree (o ∷ os) [] = ⊥

pub Agree-get :
    (os : List (Option ℕ)) (vs : List ℕ) (k : ℕ) → Agree os vs → Holds (known os k) (get_or vs k 0)
Agree-get [] [] k h = tt
Agree-get (o ∷ os) (v ∷ vs) zero h = h.0
Agree-get (o ∷ os) (v ∷ vs) (suc k) h = Agree-get os vs k h.1
Agree-get [] (v ∷ vs) k h = absurd h
Agree-get (o ∷ os) [] k h = absurd h

pub Agree-set :
    (os : List (Option ℕ)) (vs : List ℕ) (k : ℕ) (o : Option ℕ) (v : ℕ)
    → Agree os vs
    → Holds o v
    → Agree (set os k o) (set vs k v)
Agree-set [] [] k o v h e = tt
Agree-set (p ∷ os) (w ∷ vs) zero o v h e = (e, h.1)
Agree-set (p ∷ os) (w ∷ vs) (suc k) o v h e = (h.0, Agree-set os vs k o v h.1 e)
Agree-set [] (w ∷ vs) k o v h e = absurd h
Agree-set (p ∷ os) [] k o v h e = absurd h

pub Holds-on_known : (f : ℕ → ℕ) (o : Option ℕ) (v : ℕ) → Holds o v → Holds (on_known f o) (f v)
unfolding on_known
Holds-on_known f none v h = tt
Holds-on_known f (some w) v h = ap f h

pub Holds-on_both :
    (f : ℕ → ℕ → ℕ) (o p : Option ℕ) (v w : ℕ)
    → Holds o v
    → Holds p w
    → Holds (on_both f o p) (f v w)
unfolding on_both
Holds-on_both f none none v w h g = tt
Holds-on_both f none (some y) v w h g = tt
Holds-on_both f (some x) none v w h g = tt
Holds-on_both f (some x) (some y) v w h g = ap₂ f h g

pub Holds-or_known :
    (o p : Option ℕ) (v w : ℕ) → Holds o v → Holds p w → Holds (or_known false o p) (bit_or v w)
unfolding or_known
Holds-or_known none p v w h g = tt
Holds-or_known (some x) none v w h g = tt
Holds-or_known (some x) (some y) v w h g = ap₂ bit_or h g

pub Holds-literal : (b : Bool) (v w : ℕ) → (b ≡ true → v ≡ w) → Holds (literal b w) v
unfolding literal
Holds-literal true v w h = h refl
Holds-literal false v w h = tt
