-- ===== src/Mem/Access/Words.antt =====
-- Loads after stores.
use dream_recomp.Base.{ℕ, ◌+◌, ◌/◌, ◌%◌, ◌^◌, ◌≤◌, ◌≡◌, ◌≢◌, ◌⊎◌, inr, ◌∙◌, ap, arith, false, List}
use dream_recomp.Base.Bits.{u32}
use dream_recomp.Mem.Vram.{vram_map32, vram_map32_next}
use dream_recomp.Mem.Bytes.{Region, vram, read_bytes, put, read-put, read_outside, same_region}
use dream_recomp.Mem.Machine.{Range, Machine, Devices, peek, poke, push_journal, note_ram_write}
use dream_recomp.Mem.DcMemory.{
  decode, bytes_at, resolve, enter, load, load_at, store, store_at, lo32, hi32,
}
use dream_recomp.Mem.DcMemory.Bounds.{decode-vram}
use dream_recomp.Mem.Access.{write64, write64_at}
use dream_recomp.Mem.Access.Journal.{IsQuiet}

-- What an access to memory leaves alone.
pub record Kept {D : Type 0} (m m' : Machine D) : Type 0 where
  pub phys_mmio : m'.phys_mmio ≡ m.phys_mmio
  pub p4_mmio : m'.p4_mmio ≡ m.p4_mmio
  pub quiet : IsQuiet m'

module _ {D : Type 0} where
  push-Kept :
      (m : Machine D) (a old v n : ℕ)
      → IsQuiet m
      → Kept m (push_journal m a old v n) × ((push_journal m a old v n).bytes ≡ m.bytes)
  unfolding push_journal
  push-Kept m a old v n q = ground arith

-- The two words of a pair in the 32-bit view of video memory lie eight bytes apart.
view32_pair :
    (ps qs : List Range) (a : ℕ)
    → a / 2 ^ 29 % 8 ≢ 7
    → a / 2 ^ 26 % 8 ≡ 1
    → a / 2 ^ 24 % 2 ≡ 1
    → a % 8 ≡ 0
    → (decode ps qs a ≡ bytes_at vram (vram_map32 (a % 2 ^ 23)))
      × (decode ps qs (a + 4) ≡ bytes_at vram (vram_map32 (a % 2 ^ 23) + 8))
view32_pair ps qs a p4 area view al = (first, second)
  where
    first : decode ps qs a ≡ bytes_at vram (vram_map32 (a % 2 ^ 23))
    first = decode-vram ps qs a p4 area ∙ ground arith

    next : vram_map32 ((a + 4) % 2 ^ 23) ≡ vram_map32 (a % 2 ^ 23) + 8
    next = ap vram_map32 (omega arith) ∙ vram_map32_next (a % 2 ^ 23) (omega arith) (omega arith)

    second : decode ps qs (a + 4) ≡ bytes_at vram (vram_map32 (a % 2 ^ 23) + 8)
    second = decode-vram ps qs (a + 4) (omega arith) (omega arith) ∙ ground (arith, next)

module _ {D : Type 0} (devices : Devices D) where
  note-quiet : (a v n : ℕ) (m : Machine D) → IsQuiet m → note_ram_write devices a v n m ≡ m
  unfolding note_ram_write
  note-quiet a v n m q = ground arith

  load-mapped :
      (n a : ℕ) (m : Machine D) (r : Region) (off : ℕ)
      → decode m.phys_mmio m.p4_mmio a ≡ bytes_at r off
      → load devices n a m ≡ (m, read_bytes (m.bytes r) off n)
  unfolding load resolve enter load_at peek
  load-mapped n a m r off e = rw e

  store-mapped :
      (n a v : ℕ) (m : Machine D) (r : Region) (off : ℕ)
      → IsQuiet m
      → decode m.phys_mmio m.p4_mmio a ≡ bytes_at r off
      → Kept m (store devices n a v m) × ((store devices n a v m).bytes ≡ put r off n v m.bytes)
  unfolding store resolve enter store_at poke
  store-mapped n a v m r off q e =
      let (k, b) = push-Kept m a (peek m r off n) v n q in
      rw (e, note-quiet a v n (poke (push_journal m a (peek m r off n) v n) r off n v) k.quiet)
        (
          record { phys_mmio = k.phys_mmio; p4_mmio = k.p4_mmio; quiet = k.quiet },
          ap (put r off n v) b,
        )

  -- With the store hooks off, a load from an address that leads to memory gives the number just
  -- stored there, cut to the width.
  pub load-store :
      (n a v : ℕ) (m : Machine D) (r : Region) (off : ℕ)
      → IsQuiet m
      → decode m.phys_mmio m.p4_mmio a ≡ bytes_at r off
      → (load devices n a (store devices n a v m)).1 ≡ v % 256 ^ n
  load-store n a v m r off q e =
      let (k, b) = store-mapped n a v m r off q e in
      rw
        (
          load-mapped n a (store devices n a v m) r off (rw (k.phys_mmio, k.p4_mmio) e),
          ap (λ f. read_bytes (f r) off n) b,
        )
        (read-put r off n v m.bytes)

  -- With the store hooks off, a store to memory does not change what a load of other bytes of
  -- memory gives.
  pub load-store_apart :
      (n a v : ℕ) (m : Machine D) (r : Region) (off : ℕ) (k a' : ℕ) (s : Region) (o : ℕ)
      → IsQuiet m
      → decode m.phys_mmio m.p4_mmio a ≡ bytes_at r off
      → decode m.phys_mmio m.p4_mmio a' ≡ bytes_at s o
      → (same_region r s ≡ false) ⊎ ((o + k ≤ off) ⊎ (off + n ≤ o))
      → (load devices k a' (store devices n a v m)).1 ≡ (load devices k a' m).1
  load-store_apart n a v m r off k a' s o q e e' apart =
      let (kept, b) = store-mapped n a v m r off q e in
      rw
        (
          load-mapped k a' (store devices n a v m) s o (rw (kept.phys_mmio, kept.p4_mmio) e'),
          load-mapped k a' m s o e',
          ap (λ f. read_bytes (f s) o k) b,
        )
        (read_outside r s off n v o k m.bytes apart)

  write64-mapped :
      (a v : ℕ) (m : Machine D) (r : Region) (off : ℕ)
      → IsQuiet m
      → decode m.phys_mmio m.p4_mmio a ≡ bytes_at r off
      → Kept m (write64 devices a v m) × ((write64 devices a v m).bytes ≡ put r off 8 v m.bytes)
  unfolding write64 resolve enter write64_at poke
  write64-mapped a v m r off q e =
      let (k, b) = push-Kept m a (peek m r off 4) (lo32 v) 4 q in
      let m1 = push_journal m a (peek m r off 4) (lo32 v) 4 in
      let (k', b') = push-Kept m1 (u32 (a + 4)) (peek m r (off + 4) 4) (hi32 v) 4 k.quiet in
      let m2 = push_journal m1 (u32 (a + 4)) (peek m r (off + 4) 4) (hi32 v) 4 in
      let m3 = poke m2 r off 8 v in
      rw (e, note-quiet a (lo32 v) 4 m3 k'.quiet, note-quiet (u32 (a + 4)) (hi32 v) 4 m3 k'.quiet)
        (
          record {
            phys_mmio = k'.phys_mmio ∙ k.phys_mmio;
            p4_mmio = k'.p4_mmio ∙ k.p4_mmio;
            quiet = k'.quiet;
          },
          ap (put r off 8 v) (b' ∙ b),
        )

  -- A 64-bit store at a multiple of 8 in the 32-bit view of video memory, outside P4 and with
  -- the store hooks off, loses its high word: a word load at the second address gives what it
  -- gave before the store.
  pub write64_loses_high_word :
      (a v : ℕ) (m : Machine D)
      → IsQuiet m
      → a / 2 ^ 29 % 8 ≢ 7
      → a / 2 ^ 26 % 8 ≡ 1
      → a / 2 ^ 24 % 2 ≡ 1
      → a % 8 ≡ 0
      → (load devices 4 (a + 4) (write64 devices a v m)).1 ≡ (load devices 4 (a + 4) m).1
  write64_loses_high_word a v m q p4 area view al =
      let (e, e') = view32_pair m.phys_mmio m.p4_mmio a p4 area view al in
      let off = vram_map32 (a % 2 ^ 23) in
      let (kept, b) = write64-mapped a v m vram off q e in
      rw
        (
          load-mapped 4 (a + 4) (write64 devices a v m) vram (off + 8)
              (rw (kept.phys_mmio, kept.p4_mmio) e'),
          load-mapped 4 (a + 4) m vram (off + 8) e',
          ap (λ f. read_bytes (f vram) (off + 8) 4) b,
        )
        (read_outside vram vram off 8 v (off + 8) 4 m.bytes (inr (inr (omega arith))))
