-- ===== src/Pvr/Spg/Frame.antt =====
-- How scan lines add up to frames.
use native.Mathlib.Nat.{mod-eq_of_lt, mod_self}
use dream_recomp.Base.{
  ℕ, zero, suc, ◌+◌, ◌-◌, ◌/◌, ◌%◌, ◌^◌, ◌≤◌, ◌<◌, ◌≡◌, refl, ap, ◌∙◌, arith, Bool, true, false,
  ◌==◌, Bool-cases, inl, inr, ltb, bit_and, dec_lt, ap₂, if◌then◌else◌,
}
use dream_recomp.Pvr.Spg.{
  Spg, lines, vblank_in_irq, hblank_irq, raise_if, next_line, sync, hblank_due, count_frame, rearm,
  vblank_out, on_line,
}

-- What the events of scan lines count.
pub record Count : Type 0 where
  pub line : ℕ
  pub frame : ℕ
  pub load : ℕ

abbrev lines_of : ℕ → ℕ
lines_of load = bit_and (load / 2 ^ 16) 0x3ff + 1

-- A frame is counted at its first line.
abbrev to_frame : Count → Count
to_frame c = record c { frame = if c.line == 0 then (c.frame + 1) % 2 ^ 64 else c.frame }

abbrev next_count : ℕ → Count → Count
next_count total c = to_frame (record c { line = (c.line + 1) % total })

-- Where the beam stands `j` lines on, at most a frame: the lines wrap at the end of the frame, which is
-- counted there.
abbrev pub ahead : ℕ → ℕ → Count → Count
ahead total j c = record c {
  line = if ltb (c.line + j) total then c.line + j else c.line + j - total;
  frame = if ltb (c.line + j) total then c.frame else c.frame + 1;
}

step_line : (total a : ℕ) → a < total → (a + 1) % total ≡ (if a + 1 == total then 0 else a + 1)
step_line total a h = elim (dec_lt (a + 1) total) [
  | yes inside ↦ rw (mod-eq_of_lt inside) (ground arith)
  | no outside ↦
      let last : a + 1 ≡ total = omega (arith, outside) in
      rw last (rw (mod_self total) (ground arith))
]

ahead-line :
    (total j : ℕ) (c : Count)
    → suc j ≤ total
    → c.line < total
    → ((ahead total j c).line + 1) % total ≡ (ahead total (suc j) c).line
ahead-line total j c h l = rw (step_line total (ahead total j c).line (ground arith)) (ground arith)

next_count-ahead :
    (total j : ℕ) (c : Count)
    → suc j ≤ total
    → c.line < total
    → c.frame + 1 < 2 ^ 64
    → next_count total (ahead total j c) ≡ ahead total (suc j) c
next_count-ahead total j c h l f =
    ap₂ (λ line frame. record c { line = line; frame = frame }) (ahead-line total j c h l)
      (rw (ahead-line total j c h l) (ground arith))

module _ {W : Type 0} where
  abbrev pub count : Spg W → Count
  count x = record { line = x.scanline; frame = x.frames; load = x.spg_load }

  raise_if-count : (b : Bool) (irq : ℕ) (x : Spg W) → count (raise_if b irq x) ≡ count x
  unfolding raise_if
  raise_if-count true irq x = refl
  raise_if-count false irq x = refl

  count_frame-count : (x : Spg W) → count (count_frame x) ≡ to_frame (count x)
  unfolding count_frame
  count_frame-count x = elim (Bool-cases (x.scanline == 0)) [
    | inl first ↦ rw first refl
    | inr other ↦ rw other refl
  ]

module _ {W : Type 0} (on_vblank_out : Spg W → Spg W) where
  -- A number of line events, one after the other.
  unfoldable pub run_lines : ℕ → Spg W → Spg W
  run_lines zero x = x
  run_lines (suc j) x = on_line on_vblank_out (run_lines j x)

module _ {W : Type 0} (on_vblank_out : Spg W → Spg W)
    (hook_keeps : (x : Spg W) → count (on_vblank_out x) ≡ count x) where
  vblank_out-count : (b : Bool) (x : Spg W) → count (vblank_out on_vblank_out b x) ≡ count x
  unfolding vblank_out
  vblank_out-count true x = hook_keeps _ ∙ raise_if-count true _ x
  vblank_out-count false x = refl

  on_line-count : (x : Spg W) → count (on_line on_vblank_out x) ≡ next_count (lines x) (count x)
  unfolding on_line rearm next_line sync lines
  on_line-count x =
      let x1 = next_line x in
      let x2 = raise_if (x1.scanline == bit_and x.spg_vblank_int 0x3ff) vblank_in_irq x1 in
      let out = x2.scanline == bit_and (x.spg_vblank_int / 2 ^ 16) 0x3ff in
      let x3 = vblank_out on_vblank_out out x2 in
      let x4 = sync (bit_and x.spg_vblank 0x3ff) (bit_and (x.spg_vblank / 2 ^ 16) 0x3ff) x3 in
      let x5 = raise_if (hblank_due x4) hblank_irq x4 in
      let kept : count x5 ≡ count x1 =
        raise_if-count (hblank_due x4) hblank_irq x4
        ∙ (vblank_out-count out x2 ∙ raise_if-count _ vblank_in_irq x1) in
      count_frame-count x5 ∙ ap to_frame kept

  -- From a line of the frame, `j` line events, at most as many as the frame has lines, lead `j` lines
  -- on, and the frame is counted once, where the beam wraps; in particular a whole frame leads back
  -- to the line and counts one. Conditions: the hook of VBlank-out leaves the line, the frames and
  -- SPG_LOAD alone, and the counter of frames is not at the end of its 64 bits.
  pub run_lines-ahead :
      (j : ℕ) (x : Spg W)
      → j ≤ lines x
      → x.scanline < lines x
      → x.frames + 1 < 2 ^ 64
      → count (run_lines on_vblank_out j x) ≡ ahead (lines x) j (count x)
  unfolding run_lines lines
  run_lines-ahead zero x h l f =
      ap₂ (λ line frame. record (count x) { line = line; frame = frame }) (ground arith)
        (ground arith)
  run_lines-ahead (suc j) x h l f =
      on_line-count (run_lines on_vblank_out j x)
      ∙ (ap (λ c. next_count (lines_of c.load) c) (run_lines-ahead j x (omega arith) l f)
          ∙ next_count-ahead (lines x) j (count x) h l f)
