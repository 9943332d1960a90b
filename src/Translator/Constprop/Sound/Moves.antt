-- ===== src/Translator/Constprop/Sound/Moves.antt =====
-- The moves, loads and stores of the interpreter, as the analysis sees them.
use dream_recomp.Base.{
  ℕ, ◌+◌, ◌*◌, ◌/◌, ◌^◌, bit_and, bit_or, ◌≡◌, refl, sym, true, false, Option, none, List, set,
  get_or, Bool-cases, ◌==◌, inl, inr,
}
use mathlib.Core.Bool.{true≢false}
use dream_recomp.Base.Bits.{u32}
use dream_recomp.Sh4.Alu.{sub32}
use dream_recomp.Sh4.Memory.{Memory}
use dream_recomp.Sh4.State.{
  State, reg, set_reg, after_access, load8, load16, load32, store8, store16, store32, sx8, sx16,
}
use dream_recomp.Sh4.Float.{Floats}
use dream_recomp.Sh4.Interp.System.{Abi}
use dream_recomp.Translator.Decoder.{Instr, pcrel_target}
use dream_recomp.Translator.Decoder.Op
use dream_recomp.Translator.Constprop.{
  Image, contains, swap_bytes, swap_words, advance, transfer_op, transfer_unary, other, reads_only,
}
use dream_recomp.Translator.Constprop.Agree.{Agree, Agree-get, Agree-set, Holds-literal}
use dream_recomp.Translator.Constprop.Sound.{assign-Agree, Sound, Shaped, Shows, tracked, forget}
use dream_recomp.Base.{suc, zero, [], ◌∷◌, ap, ◌≢◌, get_or-set_ne, ==_iff, ◌∙◌}
use dream_recomp.Base.Bits.{bit_or_comm}
use dream_recomp.Base.Bits.Or.{bit_or_swap}
use dream_recomp.Sh4.Interp.Moves.{
  exec_op, exec_stores, exec_loads, load_into, load_advance, store_predec,
}
use dream_recomp.Translator.Constprop.Sound.Arith.{exec_arith-Sound}

set_comm {ℓ} :
    {A : Type ℓ} (xs : List A) (i j : ℕ) (a b : A)
    → i ≢ j
    → set (set xs i a) j b ≡ set (set xs j b) i a
set_comm [] i j a b h = refl
set_comm (x ∷ xs) zero zero a b h = absurd (h refl)
set_comm (x ∷ xs) zero (suc j) a b h = refl
set_comm (x ∷ xs) (suc i) zero a b h = refl
set_comm (x ∷ xs) (suc i) (suc j) a b h =
    ap (λ ys. x ∷ ys) (set_comm xs i j a b (λ e. h (ap suc e)))

different : (a b : ℕ) → (a == b) ≡ false → a ≢ b
different a b h e = true≢false (sym ((==_iff a b).1 e) ∙ h)

-- A post-increment load: the pointer advances where it is known, unless it is the destination.
advance-Agree :
    {M : Type 0} (size : ℕ) (f : ℕ → ℕ) (i : Instr) (os : List (Option ℕ)) (s : State M) (v : ℕ)
    → Agree os s.ctx.r
    → Agree (advance size i os) (load_advance i.n i.m size f (s, v)).ctx.r
unfolding advance load_advance set_reg
advance-Agree size f i os s v h =
    let r = s.ctx.r in
    let cleared = forget os r i.n (f v) h in
    elim (Bool-cases (i.n == i.m)) [
      | inl same ↦ rw same cleared
      | inr apart ↦
          let n≢m = different i.n i.m apart in
          let kept : get_or (set r i.n (f v)) i.m 0 ≡ get_or r i.m 0 =
            get_or-set_ne r i.n i.m (f v) 0 n≢m in
          rw
            (
              apart,
              set_comm r i.m i.n (u32 (get_or r i.m 0 + size)) (f v) (λ e. n≢m (sym e)),
              sym kept,
            )
            (assign-Agree (λ w. u32 (w + size)) (set os i.n none) (set r i.n (f v)) i.m i.m cleared)
    ]

swap_bytes_order :
    (v : ℕ)
    → bit_or (bit_or (bit_and v 0xffff_0000) (bit_and v 0xff * 2 ^ 8)) (bit_and (v / 2 ^ 8) 0xff)
      ≡ swap_bytes v
unfolding swap_bytes
swap_bytes_order v =
    bit_or_swap (bit_and v 0xffff_0000) (bit_and v 0xff * 2 ^ 8) (bit_and (v / 2 ^ 8) 0xff)

module _ {M : Type 0} (memory : Memory M) (abi : Abi M) (floats : Floats) (img : Image) where
  pub exec_loads-Sound :
      (p : ℕ) (op : Op.Op) (i : Instr) (os : List (Option ℕ)) (s : State M)
      → Agree os s.ctx.r
      → tracked op ≡ true
      → Shaped op i
      → Shows memory img s
      → Sound (transfer_op img false p op i os) (exec_loads memory abi floats op i p s)
  unfolding exec_loads transfer_op transfer_unary other reads_only tracked set_reg Shaped load_into
      load_advance load8 load16 load32 after_access
  exec_loads-Sound p Op.mov_w_pcrel i os s h t shape shows = Agree-set os s.ctx.r i.n _ _ h (
      Holds-literal (contains img (pcrel_target i p) 2) _ _
        (λ inside. ap sx16 (shows.shows16 (pcrel_target i p) inside)))
  exec_loads-Sound p Op.mov_l_pcrel i os s h t shape shows =
      Agree-set os s.ctx.r i.n _ _ h
        (Holds-literal (contains img (pcrel_target i p) 4) _ _ (shows.shows32 (pcrel_target i p)))
  exec_loads-Sound p Op.mov_b_l i os s h t shape shows = forget os s.ctx.r i.n _ h
  exec_loads-Sound p Op.mov_w_l i os s h t shape shows = forget os s.ctx.r i.n _ h
  exec_loads-Sound p Op.mov_l_l i os s h t shape shows = forget os s.ctx.r i.n _ h
  exec_loads-Sound p Op.mov_l_l_disp i os s h t shape shows = forget os s.ctx.r i.n _ h
  exec_loads-Sound p Op.mov_b_l_r0 i os s h t shape shows = forget os s.ctx.r i.n _ h
  exec_loads-Sound p Op.mov_w_l_r0 i os s h t shape shows = forget os s.ctx.r i.n _ h
  exec_loads-Sound p Op.mov_l_l_r0 i os s h t shape shows = forget os s.ctx.r i.n _ h
  exec_loads-Sound p Op.mov_b_l_disp0 i os s h t shape shows = rw shape (forget os s.ctx.r 0 _ h)
  exec_loads-Sound p Op.mov_w_l_disp0 i os s h t shape shows = rw shape (forget os s.ctx.r 0 _ h)
  exec_loads-Sound p Op.mov_b_l_gbr i os s h t shape shows = rw shape (forget os s.ctx.r 0 _ h)
  exec_loads-Sound p Op.mov_w_l_gbr i os s h t shape shows = rw shape (forget os s.ctx.r 0 _ h)
  exec_loads-Sound p Op.mov_l_l_gbr i os s h t shape shows = rw shape (forget os s.ctx.r 0 _ h)
  exec_loads-Sound p Op.mov_b_li i os s h t shape shows = advance-Agree 1 sx8 i os _ _ h
  exec_loads-Sound p Op.mov_w_li i os s h t shape shows = advance-Agree 2 sx16 i os _ _ h
  exec_loads-Sound p Op.mov_l_li i os s h t shape shows = advance-Agree 4 (λ v. v) i os _ _ h
  exec_loads-Sound p op i os s h t shape shows =
      exec_arith-Sound memory abi floats img p op i os s h t shape

  pub exec_stores-Sound :
      (p : ℕ) (op : Op.Op) (i : Instr) (os : List (Option ℕ)) (s : State M)
      → Agree os s.ctx.r
      → tracked op ≡ true
      → Shaped op i
      → Shows memory img s
      → Sound (transfer_op img false p op i os) (exec_stores memory abi floats op i p s)
  unfolding exec_stores transfer_op transfer_unary other reads_only tracked set_reg Shaped
      store_predec store8 store16 store32 after_access
  exec_stores-Sound p Op.mov_b_s i os s h t shape shows = h
  exec_stores-Sound p Op.mov_w_s i os s h t shape shows = h
  exec_stores-Sound p Op.mov_l_s i os s h t shape shows = h
  exec_stores-Sound p Op.mov_l_s_disp i os s h t shape shows = h
  exec_stores-Sound p Op.mov_b_s_disp0 i os s h t shape shows = h
  exec_stores-Sound p Op.mov_w_s_disp0 i os s h t shape shows = h
  exec_stores-Sound p Op.mov_b_s_r0 i os s h t shape shows = h
  exec_stores-Sound p Op.mov_w_s_r0 i os s h t shape shows = h
  exec_stores-Sound p Op.mov_l_s_r0 i os s h t shape shows = h
  exec_stores-Sound p Op.mov_b_s_gbr i os s h t shape shows = h
  exec_stores-Sound p Op.mov_w_s_gbr i os s h t shape shows = h
  exec_stores-Sound p Op.mov_l_s_gbr i os s h t shape shows = h
  exec_stores-Sound p Op.mov_b_sd i os s h t shape shows =
      assign-Agree (λ v. sub32 v 1) os s.ctx.r i.n i.n h
  exec_stores-Sound p Op.mov_w_sd i os s h t shape shows =
      assign-Agree (λ v. sub32 v 2) os s.ctx.r i.n i.n h
  exec_stores-Sound p Op.mov_l_sd i os s h t shape shows =
      assign-Agree (λ v. sub32 v 4) os s.ctx.r i.n i.n h
  exec_stores-Sound p op i os s h t shape shows = exec_loads-Sound p op i os s h t shape shows

  pub exec_op-Sound :
      (p : ℕ) (op : Op.Op) (i : Instr) (os : List (Option ℕ)) (s : State M)
      → Agree os s.ctx.r
      → tracked op ≡ true
      → Shaped op i
      → Shows memory img s
      → Sound (transfer_op img false p op i os) (exec_op memory abi floats op i p s)
  unfolding exec_op transfer_op transfer_unary other reads_only tracked set_reg Shaped swap_words
  exec_op-Sound p Op.mov_i i os s h t shape shows = Agree-set os s.ctx.r i.n _ _ h refl
  exec_op-Sound p Op.mov i os s h t shape shows =
      Agree-set os s.ctx.r i.n _ _ h (Agree-get os s.ctx.r i.m h)
  exec_op-Sound p Op.mova i os s h t shape shows = Agree-set os s.ctx.r 0 _ _ h refl
  exec_op-Sound p Op.movt i os s h t shape shows = forget os s.ctx.r i.n _ h
  exec_op-Sound p Op.xtrct i os s h t shape shows = forget os s.ctx.r i.n _ h
  exec_op-Sound p Op.swap_b i os s h t shape shows =
      rw (swap_bytes_order (reg s i.m)) (assign-Agree swap_bytes os s.ctx.r i.n i.m h)
  exec_op-Sound p Op.swap_w i os s h t shape shows =
      rw (bit_or_comm (u32 (reg s i.m * 2 ^ 16)) (reg s i.m / 2 ^ 16))
        (assign-Agree swap_words os s.ctx.r i.n i.m h)
  exec_op-Sound p op i os s h t shape shows = exec_stores-Sound p op i os s h t shape shows
