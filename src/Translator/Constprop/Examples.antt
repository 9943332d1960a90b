-- ===== src/Translator/Constprop/Examples.antt =====
-- The theorems of the analysis and of the interpreter's loop on a small program.
use dream_recomp.Base.{◌≡◌, refl, ap, arith, false, none, some, replicate, get_or, bit_and, set}
use dream_recomp.Base.Int.{pos}
use dream_recomp.Sh4.State.{State, load16, after_access, set_reg}
use dream_recomp.Sh4.Interp.System.{exec_system}
use dream_recomp.Sh4.Interp.Moves.{exec, exec_op}
use dream_recomp.Sh4.Interp.Run.{
  Session, going, turn, dispatch, fetch, at_limit, plain_turn, continue_at, with_state, is_cond,
  run,
}
use dream_recomp.Sh4.Interp.Run.Limit.{Within, run-Within}
use dream_recomp.Translator.Decoder.{
  Instr, decode, index, index_from, matches, entry_at, extract, has_delay_slot, sext,
}
use dream_recomp.Translator.Decoder.Op
use dream_recomp.Translator.Constprop.{
  Image, image_read16, image_read32, constant_at, answer, walk, contains, transfer, transfer_op,
  known,
}
use dream_recomp.Translator.Constprop.Sound.{tracked, Shows}
use dream_recomp.Translator.Constprop.Block.{Straight, arrived, turned, constant_at_sound}
use dream_recomp.Translator.Constprop.Stale.{Advanced, pop-stale}
use dream_recomp.Translator.Constprop.Fixture.{
  rom, bare, no_floats, program, start, session, options,
}

abbrev pop : Instr
pop = record {
  op = Op.lds_l_pr;
  raw = 0x4226;
  n = 0;
  m = 2;
  imm = pos 0;
  bank = 0;
  sh4a_only = false;
}

shown : (s : State Image) → s.mem ≡ program → Shows rom program s
shown s e = record {
  shows16 = λ a inside. ap (λ img. image_read16 img a) e;
  shows32 = λ a inside. ap (λ img. image_read32 img a) e;
}

abbrev after_one : Session Image
after_one = record session {
  state = record start {
    ctx = record start.ctx { r = set (replicate 16 0) 1 5; pc = 0x102; cycles = 1 };
  };
  instructions = 1;
}

abbrev after_two : Session Image
after_two = record after_one {
  state = record start {
    ctx = record start.ctx { r = set (set (replicate 16 0) 1 5) 2 5; pc = 0x104; cycles = 2 };
  };
  instructions = 2;
}

first_turn : turn rom bare no_floats options 0 session ≡ some (going after_one)
unfolding turn dispatch fetch at_limit load16 after_access image_read16 decode index index_from
    matches entry_at extract has_delay_slot is_cond sext exec exec_op set_reg plain_turn continue_at
    with_state
first_turn = refl

second_turn : turn rom bare no_floats options 0 after_one ≡ some (going after_two)
unfolding turn dispatch fetch at_limit load16 after_access image_read16 decode index index_from
    matches entry_at extract has_delay_slot is_cond sext exec exec_op set_reg plain_turn continue_at
    with_state
second_turn = refl

block : Straight rom bare no_floats options 0 program 2 session after_two
unfolding tracked decode index index_from matches entry_at extract has_delay_slot is_cond sext fetch
    load16 after_access image_read16
block =
    turned (shown session.state refl) (shown _ refl) refl first_turn
      (turned (shown after_one.state refl) (shown _ refl) refl second_turn arrived)

found : constant_at program 0x100 0x104 2 false ≡ some 5
unfolding constant_at walk answer contains transfer transfer_op image_read16 decode index index_from
    matches entry_at extract sext
found = refl

constant_at_sound_example : get_or after_two.state.ctx.r (bit_and 2 15) 0 ≡ 5
constant_at_sound_example =
    constant_at_sound rom bare no_floats options 0 program 0x100 0x104 2 5 session after_two refl
      refl (omega arith) (omega arith) block found

run-Within_example :
    Within rom bare no_floats options 0 (run rom bare no_floats options 0 5 session)
run-Within_example =
    run-Within rom bare no_floats options 0 5 session (omega arith) (omega arith) (omega arith)
      (omega arith)

-- lds.l @r2+,pr with R2 known to be 5.
pop-stale_example :
    (known (transfer_op program false 0x104 Op.lds_l_pr pop (set (replicate 16 none) 2 (some 5))) 2
      ≡ some 5)
    × Advanced rom bare no_floats 2 after_two.state
        (exec_system rom bare no_floats Op.lds_l_pr pop 0x104 after_two.state)
pop-stale_example =
    pop-stale rom bare no_floats program false 0x104 Op.lds_l_pr pop
      (set (replicate 16 none) 2 (some 5)) after_two.state refl refl (λ e. ground arith)
      (omega arith)
