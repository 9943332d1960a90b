-- ===== src/Translator/Constprop/Fixture.antt =====
-- A guest whose memory is an image that cannot be written, for the tests of the analysis.
use dream_recomp.Base.{◌+◌, ◌-◌, ◌*◌, ◌%◌, ◌^◌, true, false, none, some, [], ◌∷◌, replicate, ◌==◌}
use dream_recomp.Base.Int.{pos}
use dream_recomp.Sh4.Memory.{Memory}
use dream_recomp.Sh4.State.{State}
use dream_recomp.Sh4.Float.{Floats}
use dream_recomp.Sh4.Interp.System.{Abi}
use dream_recomp.Sh4.Interp.Run.{Options, Session}
use dream_recomp.Translator.Constprop.{Image, image_read16, image_read32}

abbrev pub rom : Memory Image
rom = record {
  read8 = λ a c img. ((img, c.next_event), image_read16 img a % 2 ^ 8);
  read16 = λ a c img. ((img, c.next_event), image_read16 img a);
  read32 = λ a c img. ((img, c.next_event), image_read32 img a);
  read64 = λ a c img. ((img, c.next_event), image_read32 img a + 2 ^ 32 * image_read32 img (a + 4));
  write8 = λ a v c img. (img, c.next_event);
  write16 = λ a v c img. (img, c.next_event);
  write32 = λ a v c img. (img, c.next_event);
  write64 = λ a v c img. (img, c.next_event);
  sq_write32 = λ a v c img. (img, c.next_event);
  sq_flush = λ a c img. (img, c.next_event);
}

-- The bare runtime: no interrupts, no translated code, and an exception for TRAPA and RTE.
abbrev pub bare : Abi Image
bare = record {
  deliver_irq = λ s. some s;
  trapa = λ v s. none;
  rte = λ s. none;
  find_function = λ a s. none;
  trace_return = λ pc s. s;
}

-- Arithmetic for programs that use no float.
abbrev pub no_floats : Floats
no_floats = record {
  add32 = λ mode a b. 0;
  sub32 = λ mode a b. 0;
  mul32 = λ mode a b. 0;
  div32 = λ mode a b. 0;
  sqrt32 = λ mode a. 0;
  fma32 = λ mode a b c. 0;
  add64 = λ mode a b. 0;
  sub64 = λ mode a b. 0;
  mul64 = λ mode a b. 0;
  div64 = λ mode a b. 0;
  sqrt64 = λ mode a. 0;
  eq32 = λ a b. a == b;
  ge32 = λ a b. false;
  gt32 = λ a b. false;
  eq64 = λ a b. a == b;
  ge64 = λ a b. false;
  gt64 = λ a b. false;
  is_nan32 = λ a. false;
  is_nan64 = λ a. false;
  of_int32 = λ mode a. 0;
  of_int64 = λ mode a. 0;
  truncate32 = λ a. pos 0;
  truncate64 = λ a. pos 0;
  widen = λ a. a;
  narrow = λ mode a. a % 2 ^ 32;
  sine = λ a. 0;
  cosine = λ a. 0;
}

-- mov #5,r1; mov r1,r2; lds.l @r2+,pr; nop.
abbrev pub program : Image
program = record {
  bytes = 0x05 ∷ 0xe1 ∷ 0x13 ∷ 0x62 ∷ 0x26 ∷ 0x42 ∷ 0x09 ∷ 0x00 ∷ 0 ∷ 0 ∷ [];
  base = 0x100;
}

abbrev pub start : State Image
start = record {
  ctx = record {
    r = replicate 16 0;
    r_bank = replicate 8 0;
    pc = 0x100;
    pr = 0;
    gbr = 0;
    vbr = 0;
    sr = 0x4000_00f0;
    ssr = 0;
    spc = 0;
    sgr = 0;
    dbr = 0;
    mach = 0;
    macl = 0;
    fpul = 0;
    fpscr = 0x4_0001;
    t = 0;
    fr = replicate 16 0;
    xf = replicate 16 0;
    cycles = 0;
    next_event = 2 ^ 64 - 1;
  };
  mem = program;
}

abbrev pub session : Session Image
session = record { state = start; runs = 0; instructions = 0; native_calls = 0 }

-- The options with a limit of three instructions.
abbrev pub options : Options
options = record {
  call_translated = true;
  native_lo = 0;
  native_hi = 0;
  catch_nonlocal = false;
  max_instructions = 3;
}
