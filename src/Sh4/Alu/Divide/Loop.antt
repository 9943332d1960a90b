-- ===== src/Sh4/Alu/Divide/Loop.antt =====
-- The unsigned division of 64 by 32 bits that a guest makes of DIV0U and 32 rounds of ROTCL and DIV1.
use native.Mathlib.Nat.{
  one-le-pow, pow-suc, div-add-mod', div-div-eq-div-mul, mod-lt, zero-add, suc-add,
}
use mathlib.Core.Path.{subst}
use dream_recomp.Base.{ℕ, zero, suc, ◌+◌, ◌*◌, ◌/◌, ◌%◌, ◌^◌, ◌≤◌, ◌<◌, ◌≡◌, arith, ap, sym, ◌∙◌}
use dream_recomp.Sh4.Ctx.{Ctx}
use dream_recomp.Sh4.Alu.{div0u, div1, rotcl}
use dream_recomp.Sh4.Alu.Divide.{Dividing, shift_in, div1_step, div0u_flags}

-- The body of the guest's division loop: `rotcl` moves the next bit of the dividend into T and
-- the last quotient bit into the low register, then `div1`.
pub record Loop : Type 0 where
  pub ctx : Ctx
  pub lo : ℕ
  pub rn : ℕ

pub round : ℕ → Loop → Loop
round d s =
    let (c, lo) = rotcl s.ctx s.lo in
    let (c', rn) = div1 c s.rn d in record { ctx = c'; lo = lo; rn = rn }

pub rounds : ℕ → ℕ → Loop → Loop
rounds d zero s = s
rounds d (suc n) s = round d (rounds d n s)

-- After `n` rounds of a division of `hi : lo` with `m` rounds to go.
pub record Progress (n m d hi lo : ℕ) (s : Loop) : Type 0 where
  pub rem : ℕ
  pub half : ℕ
  pub dividing : Dividing s.ctx s.rn d rem
  pub t_bit : s.ctx.t ≤ 1
  pub half_fits : half < 2 ^ n
  pub shifted : s.lo ≡ lo % 2 ^ m * 2 ^ n + half
  pub exact : hi * 2 ^ n + lo / 2 ^ m ≡ (2 * half + s.ctx.t) * d + rem

rotcl_word :
    (b y : ℕ) (c : Ctx)
    → b ≤ 1
    → y < 2 ^ 31
    → c.t ≤ 1
    → rotcl c (b * 2 ^ 31 + y) ≡ (record c { t = b }, 2 * y + c.t)
unfolding rotcl
rotcl_word b y c hb hy ht = rw (shift_in (b * 2 ^ 31 + y) c.t ht) (ground arith)

low_bits_split : (q lo : ℕ) → lo % (q * 2) ≡ lo / q % 2 * q + lo % q
low_bits_split q lo = omega (
  arith,
  div-add-mod' lo (q * 2),
  div-add-mod' lo q,
  ap (λ (x : ℕ). x * (q * 2)) (div-div-eq-div-mul lo q 2),
  ap (λ (x : ℕ). x * q) (div-add-mod' (lo / q) 2),
)

low_field : (r p q half : ℕ) → r < q → half < p → q * p ≡ 2 ^ 31 → r * p + half < 2 ^ 31
low_field r p q half hr hh e = grind arith

rotcl_round :
    (lo half p q : ℕ) (c : Ctx)
    → c.t ≤ 1
    → half < p
    → q * p ≡ 2 ^ 31
    → 0 < q
    → rotcl c (lo % (q * 2) * p + half)
      ≡ (record c { t = lo / q % 2 }, lo % q * (p * 2) + (2 * half + c.t))
rotcl_round lo half p q c ht hh e pos =
    let r : lo % q < q = mod-lt lo pos in
    rw
      (
        word,
        rotcl_word (lo / q % 2) (lo % q * p + half) c (omega arith)
            (low_field (lo % q) p q half r hh e) ht,
      )
      (ap (λ (x : ℕ). (record c { t = lo / q % 2 }, x)) (omega arith))
  where
    word : lo % (q * 2) * p + half ≡ lo / q % 2 * 2 ^ 31 + (lo % q * p + half)
    word =
        omega (arith, ap (λ (x : ℕ). x * p) (low_bits_split q lo), ap (λ (x : ℕ). lo / q % 2 * x) e)

pow-add : (m n : ℕ) → 2 ^ m * 2 ^ n ≡ 2 ^ (m + n)
pow-add zero n = rw zero-add (omega arith)
pow-add (suc m) n = rw suc-add (
    omega
      (arith, pow-suc 2 m, pow-suc 2 (m + n), pow-add m n, ap (λ (k : ℕ). k * 2 ^ n) (pow-suc 2 m)))

two_pow_split : (n m : ℕ) → n + suc m ≡ 32 → 2 ^ m * 2 ^ n ≡ 2 ^ 31
two_pow_split n m e = pow-add m n ∙ ap (λ (k : ℕ). 2 ^ k) exponent
  where
    exponent : m + n ≡ 31
    exponent = omega arith

Dividing-t :
    {c : Ctx} {rn d rem : ℕ} (t : ℕ) → Dividing c rn d rem → Dividing (record c { t = t }) rn d rem
Dividing-t t v = record {
  no_m = v.no_m;
  small = v.small;
  in_word = v.in_word;
  restored = v.restored;
}

half_of : (lo m : ℕ) → lo / 2 ^ suc m ≡ lo / 2 ^ m / 2
half_of lo m = ap (λ (x : ℕ). lo / x) (pow-suc 2 m) ∙ sym (div-div-eq-div-mul lo (2 ^ m) 2)

round-Progress :
    (n m d hi lo : ℕ) (s : Loop)
    → n + suc m ≡ 32
    → d < 2 ^ 32
    → Progress n (suc m) d hi lo s
    → Progress (suc n) m d hi lo (round d s)
unfolding round
round-Progress n m d hi lo s e h v =
    let b = lo / 2 ^ m % 2 in
    let (rem', dividing, exact, t_bit) =
      div1_step (record s.ctx { t = b }) s.rn d v.rem (omega arith) h (Dividing-t b v.dividing) in
    rw start (record {
      rem = rem';
      half = 2 * v.half + s.ctx.t;
      dividing = dividing;
      t_bit = t_bit;
      half_fits = omega (arith, pow-suc 2 n, v.half_fits, v.t_bit);
      shifted = omega (arith, ap (λ (x : ℕ). lo % 2 ^ m * x) (pow-suc 2 n));
      exact = omega (arith, exact, v.exact, ap (λ (x : ℕ). hi * x) (pow-suc 2 n), half_of lo m);
    })
  where
    widths : lo % 2 ^ suc m * 2 ^ n + v.half ≡ lo % (2 ^ m * 2) * 2 ^ n + v.half
    widths = ap (λ (x : ℕ). lo % x * 2 ^ n + v.half) (pow-suc 2 m)

    start :
        rotcl s.ctx s.lo
        ≡ (record s.ctx { t = lo / 2 ^ m % 2 }, lo % 2 ^ m * (2 ^ n * 2) + (2 * v.half + s.ctx.t))
    start =
        ap (rotcl s.ctx) (v.shifted ∙ widths)
        ∙ rotcl_round lo v.half (2 ^ n) (2 ^ m) s.ctx v.t_bit v.half_fits (two_pow_split n m e)
            (one-le-pow m 2 (omega arith))

rounds-Progress :
    (n m d hi lo : ℕ) (s : Loop)
    → n + m ≡ 32
    → d < 2 ^ 32
    → Progress 0 32 d hi lo s
    → Progress n m d hi lo (rounds d n s)
unfolding rounds
rounds-Progress zero m d hi lo s e h v = subst (λ k. Progress 0 k d hi lo s) (omega arith) v
rounds-Progress (suc n) m d hi lo s e h v =
    round-Progress n m d hi lo (rounds d n s) (omega arith) h
      (rounds-Progress n (suc m) d hi lo s (omega arith) h v)

-- The whole idiom: DIV0U, 32 rounds, and a last `rotcl` for the last quotient bit.
pub divide : Ctx → ℕ → ℕ → ℕ → Loop
divide c hi lo d =
    let s = rounds d 32 (record { ctx = div0u c; lo = lo; rn = hi }) in
    let (c', quotient) = rotcl s.ctx s.lo in record { ctx = c'; lo = quotient; rn = s.rn }

start-Progress :
    (c : Ctx) (hi lo d : ℕ)
    → lo < 2 ^ 32
    → d < 2 ^ 32
    → hi < d
    → Progress 0 32 d hi lo (record { ctx = div0u c; lo = lo; rn = hi })
start-Progress c hi lo d hlo hd hhi = record {
  rem = hi;
  half = 0;
  dividing = record {
    no_m = (div0u_flags c).1;
    small = hhi;
    in_word = omega arith;
    restored = rw (div0u_flags c).0 (omega arith);
  };
  t_bit = omega (arith, (div0u_flags c).2);
  half_fits = omega arith;
  shifted = omega arith;
  exact = rw (div0u_flags c).2 (omega arith);
}

quotient_fits :
    (q d rem hi lo : ℕ) → hi * 2 ^ 32 + lo ≡ q * d + rem → lo < 2 ^ 32 → hi < d → q < 2 ^ 32
quotient_fits q d rem hi lo e hlo hhi = grind arith

last_quotient_bit :
    (d hi lo : ℕ) (s : Loop)
    → lo < 2 ^ 32
    → hi < d
    → Progress 32 0 d hi lo s
    → let (c', quotient) = rotcl s.ctx s.lo in
      (rem : ℕ) × (quotient * d + rem ≡ hi * 2 ^ 32 + lo) × Dividing c' s.rn d rem
last_quotient_bit d hi lo s hlo hhi v =
    rw turn (v.rem, omega (arith, v.exact), Dividing-t 0 v.dividing)
  where
    fits : 2 * v.half + s.ctx.t < 2 ^ 32
    fits = quotient_fits (2 * v.half + s.ctx.t) d v.rem hi lo (omega (arith, v.exact)) hlo hhi

    low : s.lo ≡ 0 * 2 ^ 31 + v.half
    low = omega (arith, v.shifted)

    turn : rotcl s.ctx s.lo ≡ (record s.ctx { t = 0 }, 2 * v.half + s.ctx.t)
    turn =
        ap (rotcl s.ctx) low ∙ rotcl_word 0 v.half s.ctx (omega arith) (omega (arith, fits)) v.t_bit

-- For 32-bit words with the divisor above the high word, DIV0U, 32 rounds of ROTCL and DIV1, and
-- a last ROTCL leave the quotient of `hi : lo` in the low register; the high register with Q
-- stands for the remainder, which is below the divisor.
pub divide_exact :
    (c : Ctx) (hi lo d : ℕ)
    → lo < 2 ^ 32
    → d < 2 ^ 32
    → hi < d
    → let s = divide c hi lo d in
      (rem : ℕ) × (s.lo * d + rem ≡ hi * 2 ^ 32 + lo) × Dividing s.ctx s.rn d rem
unfolding divide
divide_exact c hi lo d hlo hd hhi =
    last_quotient_bit d hi lo _ hlo hhi
      (rounds-Progress 32 0 d hi lo _ (omega arith) hd (start-Progress c hi lo d hlo hd hhi))
