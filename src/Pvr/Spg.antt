-- ===== src/Pvr/Spg.antt =====
-- runtime/include/dream/runtime/pvr/spg.h and runtime/src/pvr/spg.cpp: the sync pulse generator. The
-- scheduler and the interrupt controller, which the source holds by reference, are fields.
pub mod Frame
pub mod Rearm
use dream_recomp.Base.{
  ℕ, ◌+◌, ◌-◌, ◌*◌, ◌/◌, ◌%◌, ◌^◌, bit_and, bit_or, Bool, true, false, not, ◌||◌, ◌==◌, leb,
  if◌then◌else◌,
}
use dream_recomp.Base.Bits.{u32}
use dream_recomp.Sched.{Scheduler, request}
use dream_recomp.Holly.Intc as holly_intc
use dream_recomp.Sh4.Alu.{sub32}

pub record Spg (W : Type 0) : Type 0 where
  pub spg_hblank_int : ℕ
  pub spg_vblank_int : ℕ
  pub spg_control : ℕ
  pub spg_hblank : ℕ
  pub spg_load : ℕ
  pub spg_vblank : ℕ
  pub spg_width : ℕ
  pub event : ℕ
  pub vclk_full : Bool
  pub line_cycles : ℕ
  pub scanline : ℕ
  pub vsync : Bool
  pub fieldnum : Bool
  pub frames : ℕ
  pub holly : holly_intc.Intc
  pub sched : Scheduler W

abbrev pub kpixel_clock : ℕ
kpixel_clock = 27_000_000

abbrev pub vblank_in_irq : ℕ
vblank_in_irq = 3

abbrev pub vblank_out_irq : ℕ
vblank_out_irq = 4

abbrev pub hblank_irq : ℕ
hblank_irq = 5

-- The cycles of a scan line: the pixel clock is halved, and the line with interlacing.
unfoldable pub line_length : Bool → ℕ → ℕ → ℕ
line_length vclk_full load control =
    let pixel_clock : ℕ = if vclk_full then kpixel_clock else kpixel_clock / 2 in
    let hcount = bit_and load 0x3ff + 1 in
    let whole : ℕ = 200_000_000 * hcount / pixel_clock in
    let cycles : ℕ = if bit_and control 0x10 == 0 then whole else whole / 2 in
    if cycles == 0 then 1 else cycles

module _ {W : Type 0} where
  unfoldable pub lines : Spg W → ℕ
  lines x = bit_and (x.spg_load / 2 ^ 16) 0x3ff + 1

  unfoldable pub recalc : Spg W → Spg W
  recalc x =
      let cycles = line_length x.vclk_full x.spg_load x.spg_control in
      record x { line_cycles = cycles; sched = request x.event cycles x.sched }

  unfoldable pub reset : Spg W → Spg W
  reset x = recalc (record x {
    spg_hblank_int = 0x031d_0000;
    spg_vblank_int = 0x0015_0104;
    spg_control = 0;
    spg_hblank = 0x007e_0345;
    spg_load = 0x0106_0359;
    spg_vblank = 0x0015_0104;
    spg_width = 0x07f1_933f;
    scanline = 0;
    vsync = false;
    fieldnum = false;
    frames = 0;
  })

  unfoldable pub set_vclk_div : Bool → Spg W → Spg W
  set_vclk_div full x = recalc (record x { vclk_full = full })

  unfoldable pub raise_if : Bool → ℕ → Spg W → Spg W
  raise_if b irq x = if b then record x { holly = holly_intc.raise irq x.holly } else x

  unfoldable pub next_line : Spg W → Spg W
  next_line x = record x { scanline = (x.scanline + 1) % lines x }

  -- The vertical sync, from the registers that `on_line` has read at its start.
  unfoldable pub sync : ℕ → ℕ → Spg W → Spg W
  sync vstart vbend x =
      let started = x.vsync || x.scanline == vstart in
      record x { vsync = if x.scanline == vbend then false else started }

  unfoldable pub hblank_due : Spg W → Bool
  hblank_due x =
      let mode = bit_and (x.spg_hblank_int / 2 ^ 12) 3 in
      if mode == 0 then x.scanline == bit_and (x.spg_hblank_int / 2 ^ 16) 0x3ff else mode == 2

  unfoldable pub count_frame : Spg W → Spg W
  count_frame x =
      if x.scanline == 0
      then record x {
        fieldnum = if bit_and x.spg_control 0x10 == 0 then false else not x.fieldnum;
        frames = (x.frames + 1) % 2 ^ 64;
      }
      else x

  unfoldable pub rearm : Spg W → Spg W
  rearm x = record x { sched = request x.event x.line_cycles x.sched }

  pub read : ℕ → Spg W → ℕ
  read addr x =
      let off = sub32 addr 0x005f_8000 in
      let vstart = bit_and x.spg_vblank 0x3ff in
      let blank = x.vsync || leb vstart x.scanline in
      if addr == 0x005f_810c
      then bit_or
          (bit_or (bit_or x.scanline (if x.fieldnum then 2 ^ 10 else 0))
            (if blank then 2 ^ 11 else 0))
          (if x.vsync then 2 ^ 13 else 0)
      else if off == 0xc8
      then x.spg_hblank_int
      else if off == 0xcc
      then x.spg_vblank_int
      else if off == 0xd0
      then x.spg_control
      else if off == 0xd4
      then x.spg_hblank
      else if off == 0xd8
      then x.spg_load
      else if off == 0xdc
      then x.spg_vblank
      else if off == 0xe0
      then x.spg_width
      else 0

  unfoldable pub write : ℕ → ℕ → Spg W → Spg W
  write addr v x =
      let off = sub32 addr 0x005f_8000 in
      if off == 0xc8
      then record x { spg_hblank_int = v }
      else if off == 0xcc
      then record x { spg_vblank_int = v }
      else if off == 0xd0
      then recalc (record x { spg_control = v })
      else if off == 0xd4
      then record x { spg_hblank = v }
      else if off == 0xd8
      then recalc (record x { spg_load = v })
      else if off == 0xdc
      then record x { spg_vblank = v }
      else if off == 0xe0
      then record x { spg_width = v }
      else x

module _ {W : Type 0} (on_vblank_out : Spg W → Spg W) where
  -- The line on which the hook of the Maple bus is called; a hook that is not set is the identity.
  unfoldable pub vblank_out : Bool → Spg W → Spg W
  vblank_out b x = if b then on_vblank_out (raise_if true vblank_out_irq x) else x

  -- The event of a scan line.
  unfoldable pub on_line : Spg W → Spg W
  on_line x =
      let vblank_in = bit_and x.spg_vblank_int 0x3ff in
      let vblank_end = bit_and (x.spg_vblank_int / 2 ^ 16) 0x3ff in
      let x1 = next_line x in
      let x2 = raise_if (x1.scanline == vblank_in) vblank_in_irq x1 in
      let x3 = vblank_out (x2.scanline == vblank_end) x2 in
      let x4 = sync (bit_and x.spg_vblank 0x3ff) (bit_and (x.spg_vblank / 2 ^ 16) 0x3ff) x3 in
      let x5 = raise_if (hblank_due x4) hblank_irq x4 in rearm (count_frame x5)
