-- ===== src/Mem/Access/Journal.antt =====
-- The journal of guest stores: recording, and putting back with `undo_journal`.
pub mod Undo
use dream_recomp.Base.{
  ℕ, ◌+◌, ◌≡◌, refl, sym, ◌∙◌, ap, arith, Bool, true, false, List, [], ◌∷◌, ◌++◌,
}
use dream_recomp.Base.Bits.{u32}
use dream_recomp.Mem.Bytes.{
  Region, Bytes, AreBytes, read_bytes, put, put_back, put_back_pair, put-AreBytes,
}
use dream_recomp.Mem.Machine.{
  Range, WriteRecord, Machine, Devices, peek, poke, push_journal, note_ram_write,
}
use dream_recomp.Mem.DcMemory.{
  Target, nothing, bytes_at, mmio_at, decode, enter, resolve, store, store_at, lo32, hi32,
}
use dream_recomp.Mem.Access.{
  is_ccn, write8, write16, write32, write64, write64_at, restore, restore_at, undo_entries,
  undo_journal,
}

-- An address that leads to memory.
abbrev pub Mapped : List Range → List Range → ℕ → Type 0
Mapped ps qs a = (r : Region) × (off : ℕ) × (decode ps qs a ≡ bytes_at r off)

abbrev pub AllMapped : List Range → List Range → List WriteRecord → Type 0
AllMapped ps qs [] = Unit {0}
AllMapped ps qs (w ∷ ws) = Mapped ps qs w.addr × AllMapped ps qs ws

unfoldable pub back_at : Target → ℕ → ℕ → Bytes → Bytes
back_at nothing n v b = b
back_at (bytes_at r off) n v b = put r off n v b
back_at (mmio_at h x) n v b = b

-- What `undo_journal` does to memory, with nothing else of the machine.
unfoldable pub back_all : List Range → List Range → List WriteRecord → Bytes → Bytes
back_all ps qs [] b = b
back_all ps qs (w ∷ ws) b = back_at (decode ps qs w.addr) w.size w.old_value (back_all ps qs ws b)

pub back_all-append :
    (ps qs : List Range) (ws vs : List WriteRecord) (b : Bytes)
    → back_all ps qs (ws ++ vs) b ≡ back_all ps qs ws (back_all ps qs vs b)
unfolding back_all
back_all-append ps qs [] vs b = refl
back_all-append ps qs (w ∷ ws) vs b =
    ap (back_at (decode ps qs w.addr) w.size w.old_value) (back_all-append ps qs ws vs b)

pub AllMapped-append :
    (ps qs : List Range) (ws vs : List WriteRecord)
    → AllMapped ps qs ws
    → AllMapped ps qs vs
    → AllMapped ps qs (ws ++ vs)
AllMapped-append ps qs [] vs h k = k
AllMapped-append ps qs (w ∷ ws) vs h k = (h.0, AllMapped-append ps qs ws vs h.1 k)

-- The hash and the watch of stores are off, as they are by default.
abbrev pub IsQuiet : {D : Type 0} → Machine D → Type 0
IsQuiet m = (m.hash_writes ≡ false) × (m.watch_armed ≡ false)

-- `m` is `start` after stores that its journal records.
pub record Recording {D : Type 0} (start m : Machine D) : Type 0 where
  pub mapped : AllMapped m.phys_mmio m.p4_mmio m.journal
  pub undone : back_all m.phys_mmio m.p4_mmio m.journal m.bytes ≡ start.bytes
  pub are_bytes : AreBytes m.bytes
  pub quiet : IsQuiet m
  pub recording : m.journaling ≡ true

-- A guest store.
pub data Store : Type 0 where
  w8 w16 w32 w64 : ℕ → ℕ → Store

module _ {D : Type 0} (devices : Devices D) where
  pub perform : Store → Machine D → Machine D
  perform (w8 a v) m = write8 devices a v m
  perform (w16 a v) m = write16 devices a v m
  perform (w32 a v) m = write32 devices a v m
  perform (w64 a v) m = write64 devices a v m

  pub perform_all : List Store → Machine D → Machine D
  perform_all [] m = m
  perform_all (s ∷ ss) m = perform_all ss (perform s m)

-- The store goes to memory, and the two words of a 64-bit one lie next to each other there.
abbrev pub ToMemory : List Range → List Range → Store → Type 0
ToMemory ps qs (w8 a v) = Mapped ps qs a
ToMemory ps qs (w16 a v) = Mapped ps qs a
ToMemory ps qs (w32 a v) = (is_ccn a ≡ false) × Mapped ps qs a
ToMemory ps qs (w64 a v) =
    (r : Region) × (off : ℕ) × (decode ps qs a ≡ bytes_at r off)
    × (decode ps qs (u32 (a + 4)) ≡ bytes_at r (off + 4))

abbrev pub AllToMemory : List Range → List Range → List Store → Type 0
AllToMemory ps qs [] = Unit {0}
AllToMemory ps qs (s ∷ ss) = ToMemory ps qs s × AllToMemory ps qs ss

module _ {D : Type 0} where
  -- What a store of one number leaves behind.
  abbrev pub recorded : Machine D → ℕ → ℕ → Region → ℕ → ℕ → Machine D
  recorded m a n r off v = record m {
    bytes = put r off n v m.bytes;
    journal =
        m.journal
        ++ record { addr = a; old_value = read_bytes (m.bytes r) off n; new_value = v; size = n }
          ∷ [];
  }

  abbrev pub recorded64 : Machine D → ℕ → Region → ℕ → ℕ → Machine D
  recorded64 m a r off v = record m {
    bytes = put r off 8 v m.bytes;
    journal =
        (m.journal
          ++ record {
            addr = a;
            old_value = read_bytes (m.bytes r) off 4;
            new_value = lo32 v;
            size = 4;
          }
            ∷ [])
        ++ record {
          addr = u32 (a + 4);
          old_value = read_bytes (m.bytes r) (off + 4) 4;
          new_value = hi32 v;
          size = 4;
        }
          ∷ [];
  }

module _ {D : Type 0} (devices : Devices D) where
  note-quiet : (a v n : ℕ) (m : Machine D) → IsQuiet m → note_ram_write devices a v n m ≡ m
  unfolding note_ram_write
  note-quiet a v n m q = ground arith

  push-on :
      (m : Machine D) (a old v n : ℕ)
      → m.journaling ≡ true
      → push_journal m a old v n ≡ record m {
        journal = m.journal ++ record { addr = a; old_value = old; new_value = v; size = n } ∷ [];
      }
  unfolding push_journal
  push-on m a old v n e = rw e

  pub store-mapped :
      (n a v : ℕ) (m : Machine D) (r : Region) (off : ℕ)
      → IsQuiet m
      → m.journaling ≡ true
      → decode m.phys_mmio m.p4_mmio a ≡ bytes_at r off
      → store devices n a v m ≡ recorded m a n r off v
  unfolding store resolve enter store_at poke peek
  store-mapped n a v m r off q on e =
      rw (e, push-on m a _ v n on) (note-quiet a v n (recorded m a n r off v) q)

  pub restore-mapped :
      (n a v : ℕ) (m : Machine D) (r : Region) (off : ℕ)
      → decode m.phys_mmio m.p4_mmio a ≡ bytes_at r off
      → restore devices a n v m ≡ record m { bytes = put r off n v m.bytes }
  unfolding restore resolve enter restore_at poke
  restore-mapped n a v m r off e = rw e

  push-pair :
      (m : Machine D) (a old v b old' v' : ℕ)
      → m.journaling ≡ true
      → push_journal (push_journal m a old v 4) b old' v' 4 ≡ record m {
        journal =
            (m.journal ++ record { addr = a; old_value = old; new_value = v; size = 4 } ∷ [])
            ++ record { addr = b; old_value = old'; new_value = v'; size = 4 } ∷ [];
      }
  unfolding push_journal
  push-pair m a old v b old' v' e = ground arith

  pub write64-mapped :
      (a v : ℕ) (m : Machine D) (r : Region) (off : ℕ)
      → IsQuiet m
      → m.journaling ≡ true
      → decode m.phys_mmio m.p4_mmio a ≡ bytes_at r off
      → write64 devices a v m ≡ recorded64 m a r off v
  unfolding write64 resolve enter write64_at poke peek
  write64-mapped a v m r off q on e =
      rw
        (
          e,
          push-pair m a (read_bytes (m.bytes r) off 4) (lo32 v) (u32 (a + 4))
              (read_bytes (m.bytes r) (off + 4) 4) (hi32 v) on,
          note-quiet a (lo32 v) 4 (recorded64 m a r off v) q,
        )
        (note-quiet (u32 (a + 4)) (hi32 v) 4 (recorded64 m a r off v) q)
