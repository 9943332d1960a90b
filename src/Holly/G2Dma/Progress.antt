-- ===== src/Holly/G2Dma/Progress.antt =====
-- The operations of a G2 bus channel keep its start register and its bit "stopped" in agreement.
use dream_recomp.Base.{
  ℕ, ◌+◌, ◌*◌, ◌/◌, ◌%◌, ◌^◌, ◌≤◌, ◌<◌, ◌≡◌, refl, arith, ◌==◌, bit_and, bit_or, set, leb, Bool,
  true, false, ◌&&◌, if◌then◌else◌, Bool-cases, inl, inr,
}
use dream_recomp.Base.Bits.{bit_and_field}
use dream_recomp.Sh4.Alu.{sub32, not32}
use dream_recomp.Mem.Machine.{Devices}
use dream_recomp.Holly.G2Dma.{
  G2Dma, reg, set_reg, ended, finished, finish, refuse, in_progress, copied, start, write_channel,
  write, kst, ksusp, klen, ken, kbase, kg2_id,
}
use dream_recomp.Holly.G2Dma.Settled.{
  IsConsistent, low, past, restart, suspended, stopped, idle, other_field, stopped_set,
  stopped_cleared, stopped_kept,
}

module _ {D W : Type 0} where
  -- The channels of the controller are settled.
  unfoldable pub IsSteady : G2Dma D W → Type 0
  IsSteady d = IsConsistent d.regs

  ended-IsConsistent :
      (ch len : ℕ) (d : G2Dma D W)
      → ch < 4
      → IsConsistent d.regs
      → IsConsistent (ended ch len d).regs
  unfolding ended
  ended-IsConsistent ch len d h c =
      restart _ ch 0 _ h (stopped_set _) (omega arith)
        (low _ ch 2 0 (omega arith) (low _ ch 0 _ (omega arith) (low _ ch 1 _ (omega arith) c)))

  finish-IsConsistent :
      (ch : ℕ) (d : G2Dma D W) → ch < 4 → IsConsistent d.regs → IsConsistent (finish ch d).regs
  unfolding finish finished
  finish-IsConsistent ch d h c = elim (Bool-cases (bit_and (reg d ch klen) 0x8000_0000 == 0)) [
    | inl keeps ↦ rw keeps (ended-IsConsistent ch _ d h c)
    | inr clears ↦
        rw clears
          (ended-IsConsistent ch _ (set_reg ch ken 0 d) h (low d.regs ch 5 0 (omega arith) c))
  ]

  refuse-IsConsistent :
      (ch : ℕ) (d : G2Dma D W)
      → ch < 4
      → reg d ch kst ≡ 0
      → IsConsistent d.regs
      → IsConsistent (refuse ch d).regs
  unfolding refuse
  refuse-IsConsistent ch d h e c = low _ ch 5 0 (omega arith) (stopped d.regs ch h e c)

  in_progress-IsConsistent :
      (ch len : ℕ) (d : G2Dma D W)
      → ch < 4
      → IsConsistent d.regs
      → IsConsistent (in_progress ch len d).regs
  unfolding in_progress
  in_progress-IsConsistent ch len d h c =
      let d1 = set_reg ch kst 1 d in
      let susp = bit_and (reg d1 ch ksusp) (not32 0x10) in
      let begun = restart d.regs ch 1 susp h (stopped_cleared (reg d1 ch ksusp)) (omega arith) c in
      elim (Bool-cases (leb (len * 4) 512)) [
        | inl short ↦ rw short (finish-IsConsistent ch (set_reg ch ksusp susp d1) h begun)
        | inr long ↦ rw long begun
      ]

  running : (ch len : ℕ) (d : G2Dma D W) → ch < 4 → IsSteady d → IsSteady (in_progress ch len d)
  unfolding IsSteady
  running = in_progress-IsConsistent

  refused_steady :
      (ch : ℕ) (d : G2Dma D W) → ch < 4 → reg d ch kst ≡ 0 → IsSteady d → IsSteady (refuse ch d)
  unfolding IsSteady
  refused_steady = refuse-IsConsistent

  ended_steady : (ch : ℕ) (d : G2Dma D W) → ch < 4 → IsSteady d → IsSteady (finish ch d)
  unfolding IsSteady
  ended_steady = finish-IsConsistent

  low_steady :
      (ch o v : ℕ) (d : G2Dma D W)
      → o < 6
      → IsSteady d
      → IsSteady (record d { regs = set d.regs (ch * 8 + o) v })
  unfolding IsSteady
  low_steady ch o v d = low d.regs ch o v

  past_steady :
      (k v : ℕ) (d : G2Dma D W)
      → 32 ≤ k
      → IsSteady d
      → IsSteady (record d { regs = set d.regs k v })
  unfolding IsSteady
  past_steady k v d = past d.regs k v

  suspended_steady :
      (ch v : ℕ) (d : G2Dma D W)
      → ch < 4
      → IsSteady d
      → IsSteady (set_reg ch ksusp (bit_or (bit_and (reg d ch ksusp) 0x10) (bit_and v 1)) d)
  unfolding IsSteady
  suspended_steady ch v d h = suspended d.regs ch _ h (stopped_kept (reg d ch ksusp) v)

  idle_steady :
      (ch v : ℕ) (d : G2Dma D W)
      → ch < 4
      → IsSteady d
      → bit_and v 1 == 1 && bit_and (reg d ch kst) 1 == 0 ≡ true
      → reg d ch kst ≡ 0
  unfolding IsSteady
  idle_steady ch v d h c e = idle d.regs ch v h c e

module _ {D W : Type 0} (devices : Devices D) where
  -- One of two controllers by a test.
  chosen :
      (b : Bool) (x y : G2Dma D W)
      → (b ≡ true → IsSteady x)
      → (b ≡ false → IsSteady y)
      → IsSteady (if b then x else y)
  chosen true x y p q = p refl
  chosen false x y p q = q refl

  -- A copy leaves the registers alone.
  moved :
      (b : Bool) (star stag len : ℕ) (d : G2Dma D W)
      → IsSteady d
      → IsSteady (if b then copied devices stag star len d else copied devices star stag len d)
  unfolding copied IsSteady
  moved true star stag len d c = c
  moved false star stag len d c = c

  start-IsConsistent :
      (ch : ℕ) (d : G2Dma D W)
      → ch < 4
      → reg d ch kst ≡ 0
      → IsSteady d
      → IsSteady (start devices ch d)
  unfolding start
  start-IsConsistent ch d h e c = search (chosen, refused_steady, running, moved)

  write_channel-IsConsistent :
      (ch field v : ℕ) (d : G2Dma D W)
      → ch < 4
      → field / 4 < 8
      → field / 4 * 4 ≡ field
      → IsSteady d
      → IsSteady (write_channel devices ch field v d)
  unfolding write_channel
  write_channel-IsConsistent ch field v d h small whole c =
      let starts : bit_and v 1 == 1 && bit_and (reg d ch kst) 1 == 0 ≡ true
          → IsSteady (start devices ch d) =
        λ e. start-IsConsistent ch d h (idle_steady ch v d h c e) c in
      let stored : (w : ℕ)
          → (field == kst) ≡ false
          → (field == ksusp) ≡ false
          → IsSteady (set_reg ch field w d) =
        λ w a b. low_steady ch (field / 4) w d (other_field field a b small whole) c in
      let len_stored : (w : ℕ) → IsSteady (set_reg ch klen w d) =
        λ w. low_steady ch 2 w d (omega arith) c in
      search (chosen, starts, stored, len_stored, suspended_steady)

  write-IsConsistent : (addr v : ℕ) (d : G2Dma D W) → IsSteady d → IsSteady (write devices addr v d)
  unfolding write
  write-IsConsistent addr v d c =
      let off = bit_and (sub32 addr kbase) 0xfc in
      let word : off ≡ sub32 addr kbase / 2 ^ 2 % 2 ^ 6 * 2 ^ 2 =
        bit_and_field 2 6 (sub32 addr kbase) in
      let field : bit_and off 0x1c ≡ off / 2 ^ 2 % 2 ^ 3 * 2 ^ 2 = bit_and_field 2 3 off in
      chosen (leb 0x80 off) _ _
        (λ high.
          chosen (off == kg2_id) d _ (λ _. c)
            (λ _. past_steady (off / 4) v d (ground (arith, high)) c))
        (λ below.
          write_channel-IsConsistent (off / 0x20) (bit_and off 0x1c) v d (ground (arith, below))
            (omega (arith, field)) (omega (arith, field)) c)

  -- If the start register and the bit "stopped" of the suspend register agree for every channel, they
  -- agree after a write of any register, which may start a transfer, end it or refuse it, and after
  -- the end of a transfer of any of the four channels.
  pub write-IsSteady :
      (addr v ch : ℕ) (d : G2Dma D W)
      → ch < 4
      → IsSteady d
      → IsSteady (write devices addr v d) × IsSteady (finish ch d)
  write-IsSteady addr v ch d h c = (write-IsConsistent addr v d c, ended_steady ch d h c)
