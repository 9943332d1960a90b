-- ===== src/Holly/Intc/Routing.antt =====
-- The routing of the ASIC's sources to the SH-4's IRL lines.
use dream_recomp.Base.{ℕ, ◌≡◌, refl, ltb, if_intro, Option, none, some}
use dream_recomp.Sh4.Intc.{irl9, irl11, irl13, pending}
use dream_recomp.Sh4.Intc.Pending.{pending-set_pending}
use dream_recomp.Holly.Intc.{
  Intc, level2, level4, level6, recompute, reset, raise, clear, written, write,
}

-- Each IRL line is pending exactly when an unmasked source of its level is set.
abbrev pub IsRouted : Intc → Type 0
IsRouted h =
    (pending h.cpu irl9 ≡ level6 h)
    × (pending h.cpu irl11 ≡ level4 h)
    × (pending h.cpu irl13 ≡ level2 h)

pub recompute-IsRouted : (h : Intc) → IsRouted (recompute h)
unfolding recompute
recompute-IsRouted h = (
  rw (pending-set_pending, pending-set_pending, pending-set_pending) refl,
  rw (pending-set_pending, pending-set_pending) refl,
  rw pending-set_pending refl,
)

pub reset-IsRouted : (h : Intc) → IsRouted (reset h)
unfolding reset
reset-IsRouted h = recompute-IsRouted _

-- After raising any source each IRL line is pending exactly when an unmasked source of its level
-- is set, whatever the lines were before.
pub raise-IsRouted : (n : ℕ) (h : Intc) → IsRouted (raise n h)
unfolding raise
raise-IsRouted n h =
    if_intro IsRouted (ltb n 32) (λ _. recompute-IsRouted _)
      (λ _. if_intro IsRouted (ltb n 64) (λ _. recompute-IsRouted _) (λ _. recompute-IsRouted _))

-- After clearing any source each IRL line is pending exactly when an unmasked source of its
-- level is set, whatever the lines were before.
pub clear-IsRouted : (n : ℕ) (h : Intc) → IsRouted (clear n h)
unfolding clear
clear-IsRouted n h =
    if_intro IsRouted (ltb n 32) (λ _. recompute-IsRouted _)
      (λ _. if_intro IsRouted (ltb n 64) (λ _. recompute-IsRouted _) (λ _. recompute-IsRouted _))

written-IsRouted : (h : Intc) (o : Option Intc) → IsRouted h → IsRouted (written h o)
written-IsRouted h none k = k
written-IsRouted h (some w) k = recompute-IsRouted w

-- Where each IRL line is pending exactly when an unmasked source of its level is set, this still
-- holds after a write of any value to any address.
pub write-IsRouted : (addr v : ℕ) (h : Intc) → IsRouted h → IsRouted (write addr v h)
unfolding write
write-IsRouted addr v h k = written-IsRouted h _ k
