-- ===== src/Mem/Access/Journal/Undo.antt =====
-- `undo_journal` after a run of guest stores.
use mathlib.Core.Path.{subst₂}
use dream_recomp.Base.{ℕ, ◌+◌, ◌≡◌, refl, sym, ◌∙◌, ap, true, List, [], ◌∷◌, ◌++◌}
use dream_recomp.Base.Bits.{u32}
use dream_recomp.Mem.Bytes.{Region, Bytes, AreBytes, put, put_back, put_back_pair, put-AreBytes}
use dream_recomp.Mem.Machine.{Range, WriteRecord, Machine, Devices}
use dream_recomp.Mem.DcMemory.{bytes_at, decode, store}
use dream_recomp.Mem.Access.{write8, write16, write32, undo_entries, undo_journal}
use dream_recomp.Mem.Access.Journal.{
  Mapped, AllMapped, back_at, back_all, back_all-append, AllMapped-append, IsQuiet, Recording,
  Store, w8, w16, w32, w64, perform, perform_all, ToMemory, AllToMemory, recorded, recorded64,
  store-mapped, restore-mapped, write64-mapped,
}

back_at-mapped :
    (ps qs : List Range) (a n v : ℕ) (b : Bytes) (r : Region) (off : ℕ)
    → decode ps qs a ≡ bytes_at r off
    → back_at (decode ps qs a) n v b ≡ put r off n v b
unfolding back_at
back_at-mapped ps qs a n v b r off e = rw e

module _ {D : Type 0} (devices : Devices D) where
  -- Undoing touches memory only, as `back_all` says.
  undo_entries-back_all :
      (ws : List WriteRecord) (m : Machine D)
      → AllMapped m.phys_mmio m.p4_mmio ws
      → undo_entries devices ws m ≡ record m { bytes = back_all m.phys_mmio m.p4_mmio ws m.bytes }
  unfolding undo_entries back_all
  undo_entries-back_all [] m h = refl
  undo_entries-back_all (w ∷ ws) m h =
      let (r, off, e) = h.0 in
      let b = back_all m.phys_mmio m.p4_mmio ws m.bytes in
      rw (
        undo_entries-back_all ws m h.1,
        restore-mapped devices w.size w.addr w.old_value (record m { bytes = b }) r off e,
        back_at-mapped m.phys_mmio m.p4_mmio w.addr w.size w.old_value b r off e,
      )

module _ {D : Type 0} (start m : Machine D) (h : Recording start m) where
  recorded-Recording :
      (a n : ℕ) (r : Region) (off v : ℕ)
      → decode m.phys_mmio m.p4_mmio a ≡ bytes_at r off
      → Recording start (recorded m a n r off v)
  unfolding back_all
  recorded-Recording a n r off v e = record {
    mapped = AllMapped-append _ _ m.journal _ h.mapped ((r, off, e), tt);
    undone =
        back_all-append _ _ m.journal _ _
        ∙ ap (back_all m.phys_mmio m.p4_mmio m.journal) (
            back_at-mapped _ _ a n _ (put r off n v m.bytes) r off e
            ∙ put_back r off n v m.bytes h.are_bytes)
        ∙ h.undone;
    are_bytes = put-AreBytes r off n v m.bytes h.are_bytes;
    quiet = h.quiet;
    recording = h.recording;
  }

  recorded64-Recording :
      (a : ℕ) (r : Region) (off v : ℕ)
      → decode m.phys_mmio m.p4_mmio a ≡ bytes_at r off
      → decode m.phys_mmio m.p4_mmio (u32 (a + 4)) ≡ bytes_at r (off + 4)
      → Recording start (recorded64 m a r off v)
  unfolding back_all
  recorded64-Recording a r off v e f = record {
    mapped =
        AllMapped-append _ _ (m.journal ++ _ ∷ []) _
          (AllMapped-append _ _ m.journal _ h.mapped ((r, off, e), tt)) ((r, off + 4, f), tt);
    undone =
        back_all-append _ _ (m.journal ++ _ ∷ []) _ _
        ∙ back_all-append _ _ m.journal _ _
        ∙ ap (back_all m.phys_mmio m.p4_mmio m.journal) (
            back_at-mapped _ _ a 4 _ _ r off e
            ∙ ap (put r off 4 _) (back_at-mapped _ _ (u32 (a + 4)) 4 _ _ r (off + 4) f)
            ∙ put_back_pair r off v m.bytes h.are_bytes)
        ∙ h.undone;
    are_bytes = put-AreBytes r off 8 v m.bytes h.are_bytes;
    quiet = h.quiet;
    recording = h.recording;
  }

module _ {D : Type 0} (devices : Devices D) where
  -- What a store to memory is, for each width.
  abbrev Recorded : Machine D → Machine D → Machine D → Type 0
  Recorded start m m' = Recording start m' × (m'.phys_mmio ≡ m.phys_mmio) × (m'.p4_mmio ≡ m.p4_mmio)

  store-Recorded :
      (start m : Machine D) (n a v : ℕ)
      → Recording start m
      → Mapped m.phys_mmio m.p4_mmio a
      → Recorded start m (store devices n a v m)
  store-Recorded start m n a v h (r, off, e) =
      rw (store-mapped devices n a v m r off h.quiet h.recording e)
        (recorded-Recording start m h a n r off v e, refl, refl)

  perform-Recorded :
      (start m : Machine D) (s : Store)
      → Recording start m
      → ToMemory m.phys_mmio m.p4_mmio s
      → Recorded start m (perform devices s m)
  unfolding perform write8 write16 write32
  perform-Recorded start m (w8 a v) h t = store-Recorded start m 1 a v h t
  perform-Recorded start m (w16 a v) h t = store-Recorded start m 2 a v h t
  perform-Recorded start m (w32 a v) h t = rw t.0 (store-Recorded start m 4 a v h t.1)
  perform-Recorded start m (w64 a v) h (r, off, e, f) =
      rw (write64-mapped devices a v m r off h.quiet h.recording e)
        (recorded64-Recording start m h a r off v e f, refl, refl)

  perform_all-Recording :
      (start m : Machine D) (ss : List Store)
      → Recording start m
      → AllToMemory m.phys_mmio m.p4_mmio ss
      → Recording start (perform_all devices ss m)
  unfolding perform_all
  perform_all-Recording start m [] h t = h
  perform_all-Recording start m (s ∷ ss) h t =
      let (k, p, q) = perform-Recorded start m s h t.0 in
      perform_all-Recording start (perform devices s m) ss k
        (subst₂ (λ ps qs. AllToMemory ps qs ss) (sym p) (sym q) t.1)

  undo-Recording :
      (start m : Machine D)
      → Recording start m
      → ((undo_journal devices m).bytes ≡ start.bytes) × ((undo_journal devices m).journal ≡ [])
  unfolding undo_journal
  undo-Recording start m h =
      (rw (undo_entries-back_all devices m.journal m h.mapped) h.undone, refl)

  -- After any run of 8- to 64-bit stores to memory under the journal, which starts empty,
  -- `undo_journal` puts every byte of every memory back and empties the journal. The store hooks
  -- are off, no store is to a CCN register, and the two words of a 64-bit store lie next to each
  -- other.
  pub undo_journal-perform_all :
      (m : Machine D) (ss : List Store)
      → AreBytes m.bytes
      → IsQuiet m
      → m.journaling ≡ true
      → m.journal ≡ []
      → AllToMemory m.phys_mmio m.p4_mmio ss
      → let m' = undo_journal devices (perform_all devices ss m) in
        (m'.bytes ≡ m.bytes) × (m'.journal ≡ [])
  unfolding back_all
  undo_journal-perform_all m ss b q on e t =
      undo-Recording m (perform_all devices ss m) (perform_all-Recording m m ss begin t)
    where
      begin : Recording m m
      begin = record { mapped = rw e tt; undone = rw e; are_bytes = b; quiet = q; recording = on }
