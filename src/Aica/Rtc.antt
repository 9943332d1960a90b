-- ===== src/Aica/Rtc.antt =====
-- runtime/include/dream/runtime/aica/rtc.h: the real-time clock.
pub mod Setting
use dream_recomp.Base.{ℕ, ◌+◌, ◌*◌, ◌/◌, ◌%◌, ◌^◌, bit_and, bit_or, ◌==◌, if◌then◌else◌}

pub record Rtc : Type 0 where
  pub seconds : ℕ
  pub enable : ℕ

unfoldable pub tick : Rtc → Rtc
tick c = record c { seconds = (c.seconds + 1) % 2 ^ 32 }

unfoldable pub read : ℕ → Rtc → ℕ
read addr c =
    let off = bit_and addr 0xff in
    if off == 0
    then bit_and (c.seconds / 2 ^ 16) 0xffff
    else if off == 4
    then bit_and c.seconds 0xffff
    else if off == 8
    then c.enable
    else 0

-- The three registers; the high half is the last write of a set and locks the clock again.
unfoldable pub write_hi : ℕ → Rtc → Rtc
write_hi v c = if c.enable == 0 then c else record {
  seconds = bit_or (bit_and c.seconds 0xffff) (bit_and v 0xffff * 2 ^ 16);
  enable = 0;
}

unfoldable pub write_lo : ℕ → Rtc → Rtc
write_lo v c =
    if c.enable == 0
    then c
    else record c { seconds = bit_or (bit_and c.seconds 0xffff_0000) (bit_and v 0xffff) }

unfoldable pub write : ℕ → ℕ → Rtc → Rtc
write addr v c =
    let off = bit_and addr 0xff in
    if off == 0
    then write_hi v c
    else if off == 4
    then write_lo v c
    else if off == 8
    then record c { enable = bit_and v 1 }
    else c
