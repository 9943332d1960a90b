-- ===== src/Aica/Examples.antt =====
-- The theorem of the real-time clock on one time.
use dream_recomp.Base.{◌+◌, ◌*◌, ◌^◌, ◌≡◌, arith}
use dream_recomp.Aica.Rtc.{Rtc, read, write}
use dream_recomp.Aica.Rtc.Setting.{set_clock-read}

abbrev clock : Rtc
clock = record { seconds = 0xffff_ffff; enable = 0 }

abbrev shown : Rtc
shown = write 0x71_0000 0x5bfc (write 0x71_0004 0x5bfc_8900 (write 0x71_0008 1 clock))

set_clock-read_example :
    ((read 0x71_0000 shown * 2 ^ 16 + read 0x71_0004 shown ≡ 0x5bfc_8900)
      × (read 0x71_0008 shown ≡ 0))
    × ((write 0x71_0000 7 shown ≡ shown) × (write 0x71_0004 7 shown ≡ shown))
set_clock-read_example = set_clock-read 0x5bfc_8900 7 clock (omega arith)
