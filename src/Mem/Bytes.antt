-- ===== src/Mem/Bytes.antt =====
-- The arrays of dc_memory.h that hold guest memory, and `memcpy` from and to them. Numbers are
-- little-endian, as on the hosts that the runtime is built for.
use native.Mathlib.Nat.{div-div-eq-div-mul, pow-suc, div-add-mod', mul_comm, div-one, add-zero}
use mathlib.Core.Path.{fun_ext, subst}
use dream_recomp.Base.{
  ℕ, zero, suc, ◌+◌, ◌-◌, ◌*◌, ◌/◌, ◌%◌, ◌^◌, ◌≤◌, ◌<◌, ◌≡◌, refl, sym, ◌∙◌, ap, arith, Bool, true,
  false, ◌&&◌, ◌==◌, ==_iff, ltb, leb, if◌then◌else◌, Bool-cases, inl, inr, ◌⊎◌,
}

pub data Region : Type 0 where
  ram vram aram bios flash ocram store_queues : Region

abbrev pub region_size : Region → ℕ
region_size ram = 16 * 2 ^ 20
region_size vram = 8 * 2 ^ 20
region_size aram = 2 * 2 ^ 20
region_size bios = 2 * 2 ^ 20
region_size flash = 128 * 2 ^ 10
region_size ocram = 8 * 2 ^ 10
region_size store_queues = 64

abbrev region_number : Region → ℕ
region_number ram = 0
region_number vram = 1
region_number aram = 2
region_number bios = 3
region_number flash = 4
region_number ocram = 5
region_number store_queues = 6

abbrev pub same_region : Region → Region → Bool
same_region r s = region_number r == region_number s

abbrev pub Bytes : Type 0
Bytes = Region → ℕ → ℕ

-- `memcpy` from memory: `n` bytes from an offset, the lowest first.
pub read_bytes : (ℕ → ℕ) → ℕ → ℕ → ℕ
read_bytes b off zero = 0
read_bytes b off (suc n) = b off + 256 * read_bytes b (off + 1) n

-- `memcpy` to memory.
pub put_bytes : (ℕ → ℕ) → ℕ → ℕ → ℕ → ℕ → ℕ
put_bytes b off n v o = if leb off o && ltb o (off + n) then v / 256 ^ (o - off) % 256 else b o

pub put : Region → ℕ → ℕ → ℕ → Bytes → Bytes
put r off n v b s o = if same_region r s then put_bytes (b s) off n v o else b s o

abbrev pub AreBytes : Bytes → Type 0
AreBytes b = (r : Region) (o : ℕ) → b r o < 256

region_of : ℕ → Region
region_of zero = ram
region_of (suc zero) = vram
region_of (suc (suc zero)) = aram
region_of (suc (suc (suc zero))) = bios
region_of (suc (suc (suc (suc zero)))) = flash
region_of (suc (suc (suc (suc (suc zero))))) = ocram
region_of (suc (suc (suc (suc (suc (suc n)))))) = store_queues

region_of-number : (r : Region) → region_of (region_number r) ≡ r
unfolding region_of
region_of-number ram = refl
region_of-number vram = refl
region_of-number aram = refl
region_of-number bios = refl
region_of-number flash = refl
region_of-number ocram = refl
region_of-number store_queues = refl

same_region-eq : (r s : Region) → same_region r s ≡ true → r ≡ s
same_region-eq r s e =
    sym (region_of-number r)
    ∙ ap region_of ((==_iff (region_number r) (region_number s)).0 e)
    ∙ region_of-number s

same_region_refl : (r : Region) → same_region r r ≡ true
same_region_refl r = (==_iff (region_number r) (region_number r)).1 refl

byte_up : (v k : ℕ) → v / 256 ^ suc k ≡ v / 256 / 256 ^ k
byte_up v k =
    ap (λ (x : ℕ). v / x) (pow-suc 256 k ∙ mul_comm (256 ^ k) 256)
    ∙ sym (div-div-eq-div-mul v 256 (256 ^ k))

head_byte : (x y : ℕ) → x < 256 → (x + 256 * y) / 1 % 256 ≡ x
head_byte x y h = omega arith

tail_bytes : (x y : ℕ) → x < 256 → (x + 256 * y) / 256 ≡ y
tail_bytes x y h = omega arith

byte_of_read :
    (b : ℕ → ℕ) (off n k : ℕ)
    → ((o : ℕ) → b o < 256)
    → k < n
    → read_bytes b off n / 256 ^ k % 256 ≡ b (off + k)
unfolding read_bytes
byte_of_read b off zero k h p = absurd (omega arith)
byte_of_read b off (suc n) zero h p =
    head_byte (b off) (read_bytes b (off + 1) n) (h off) ∙ sym (ap b (add-zero off))
byte_of_read b off (suc n) (suc k) h p =
    ap (λ (x : ℕ). x % 256) (byte_up (b off + 256 * read_bytes b (off + 1) n) k)
    ∙ ap (λ (x : ℕ). x / 256 ^ k % 256) (tail_bytes (b off) (read_bytes b (off + 1) n) (h off))
    ∙ byte_of_read b (off + 1) n k h (omega arith)
    ∙ ap b (next off k)
  where
    next : (off k : ℕ) → off + 1 + k ≡ off + suc k
    next off k = omega arith

mod-byte-suc : (n v : ℕ) → v % 256 ^ suc n ≡ v % 256 + 256 * (v / 256 % 256 ^ n)
mod-byte-suc n v = omega (
  arith,
  div-add-mod' v (256 ^ suc n),
  div-add-mod' (v / 256) (256 ^ n),
  ap (λ (t : ℕ). t * 256 ^ suc n) (byte_up v n),
  ap (λ (t : ℕ). v / 256 / 256 ^ n * t) (pow-suc 256 n),
)

-- What reads as the bytes of a number is that number.
read_of_bytes :
    (b : ℕ → ℕ) (off n v : ℕ)
    → ((k : ℕ) → k < n → b (off + k) ≡ v / 256 ^ k % 256)
    → read_bytes b off n ≡ v % 256 ^ n
unfolding read_bytes
read_of_bytes b off zero v h = omega arith
read_of_bytes b off (suc n) v h = omega (
  arith,
  mod-byte-suc n v,
  ap b (add-zero off),
  first,
  read_of_bytes b (off + 1) n (v / 256) rest,
)
  where
    shifted : (off k : ℕ) → off + 1 + k ≡ off + suc k
    shifted off k = omega arith

    first : b (off + 0) ≡ v % 256
    first = h 0 (omega arith) ∙ ap (λ (x : ℕ). x % 256) (div-one v)

    rest : (k : ℕ) → k < n → b (off + 1 + k) ≡ v / 256 / 256 ^ k % 256
    rest k p =
        ap b (shifted off k) ∙ h (suc k) (omega arith) ∙ ap (λ (x : ℕ). x % 256) (byte_up v k)

put_inside :
    (r : Region) (off n v k : ℕ) (b : Bytes)
    → k < n
    → put r off n v b r (off + k) ≡ v / 256 ^ k % 256
unfolding put put_bytes
put_inside r off n v k b p =
    rw (same_region_refl r) (ground (arith, ap (λ (x : ℕ). v / 256 ^ x % 256) (offset off k)))
  where
    offset : (off k : ℕ) → off + k - off ≡ k
    offset off k = omega arith

-- A read of the bytes just written gives the number back, cut to its width.
pub read-put :
    (r : Region) (off n v : ℕ) (b : Bytes) → read_bytes (put r off n v b r) off n ≡ v % 256 ^ n
read-put r off n v b = read_of_bytes (put r off n v b r) off n v (λ k p. put_inside r off n v k b p)

-- Bytes outside the range keep their value.
pub put_outside :
    (r s : Region) (off n v o : ℕ) (b : Bytes)
    → (same_region r s ≡ false) ⊎ ((o < off) ⊎ (off + n ≤ o))
    → put r off n v b s o ≡ b s o
unfolding put put_bytes
put_outside r s off n v o b h = ground arith

-- A read beside the range sees what was there.
pub read_outside :
    (r s : Region) (off n v o k : ℕ) (b : Bytes)
    → (same_region r s ≡ false) ⊎ ((o + k ≤ off) ⊎ (off + n ≤ o))
    → read_bytes (put r off n v b s) o k ≡ read_bytes (b s) o k
unfolding read_bytes
read_outside r s off n v o zero b h = refl
read_outside r s off n v o (suc k) b h = omega (
  arith,
  put_outside r s off n v o b (ground arith),
  read_outside r s off n v (o + 1) k b (ground arith),
)

pub put-AreBytes : (r : Region) (off n v : ℕ) (b : Bytes) → AreBytes b → AreBytes (put r off n v b)
unfolding put put_bytes
put-AreBytes r off n v b h s o = ground (arith, h s o)

back_inside :
    (b : ℕ → ℕ) (off n o : ℕ)
    → ((o : ℕ) → b o < 256)
    → off ≤ o
    → o < off + n
    → read_bytes b off n / 256 ^ (o - off) % 256 ≡ b o
back_inside b off n o h p q = byte_of_read b off n (o - off) h (omega arith) ∙ ap b again
  where
    again : off + (o - off) ≡ o
    again = omega arith

put_back_own :
    (r : Region) (off n v o : ℕ) (b : Bytes)
    → AreBytes b
    → put r off n (read_bytes (b r) off n) (put r off n v b) r o ≡ b r o
unfolding put put_bytes
put_back_own r off n v o b h =
    rw (same_region_refl r) (elim (Bool-cases (leb off o && ltb o (off + n))) [
      | inl e ↦ rw e (back_inside (b r) off n o (h r) (ground arith) (ground arith))
      | inr e ↦ rw e
    ])

-- Writing back what a range held undoes a write to it.
pub put_back :
    (r : Region) (off n v : ℕ) (b : Bytes)
    → AreBytes b
    → put r off n (read_bytes (b r) off n) (put r off n v b) ≡ b
put_back r off n v b h = fun_ext λ s. fun_ext λ o. at s o
  where
    at : (s : Region) (o : ℕ) → put r off n (read_bytes (b r) off n) (put r off n v b) s o ≡ b s o
    at s o = elim (Bool-cases (same_region r s)) [
      | inl e ↦
          subst (λ t. put r off n (read_bytes (b r) off n) (put r off n v b) t o ≡ b t o)
            (same_region-eq r s e) (put_back_own r off n v o b h)
      | inr e ↦ put_outside r s off n _ o _ (inl e) ∙ put_outside r s off n v o b (inl e)
    ]

-- Two writes of four bytes undone one after the other, where one write of eight was made.
pub put_back_pair :
    (r : Region) (off v : ℕ) (b : Bytes)
    → AreBytes b
    → put r off 4
        (read_bytes (b r) off 4)
        (put r (off + 4) 4 (read_bytes (b r) (off + 4) 4) (put r off 8 v b))
      ≡ b
put_back_pair r off v b h = fun_ext λ s. fun_ext λ o. at s o
  where
    own :
        (o : ℕ)
        → put r off 4
            (read_bytes (b r) off 4)
            (put r (off + 4) 4 (read_bytes (b r) (off + 4) 4) (put r off 8 v b))
            r
            o
          ≡ b r o
    own o =
        unfold put put_bytes in
        rw (same_region_refl r)
          (ground (arith, back_inside (b r) off 4 o (h r), back_inside (b r) (off + 4) 4 o (h r)))

    at :
        (s : Region) (o : ℕ)
        → put r off 4
            (read_bytes (b r) off 4)
            (put r (off + 4) 4 (read_bytes (b r) (off + 4) 4) (put r off 8 v b))
            s
            o
          ≡ b s o
    at s o = elim (Bool-cases (same_region r s)) [
      | inl e ↦
          subst
            (λ t.
              put r off 4 (read_bytes (b r) off 4)
                (put r (off + 4) 4 (read_bytes (b r) (off + 4) 4) (put r off 8 v b)) t o
              ≡ b t o)
            (same_region-eq r s e) (own o)
      | inr e ↦
          put_outside r s off 4 _ o _ (inl e)
          ∙ put_outside r s (off + 4) 4 _ o _ (inl e)
          ∙ put_outside r s off 8 v o b (inl e)
    ]
