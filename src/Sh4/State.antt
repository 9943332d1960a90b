-- ===== src/Sh4/State.antt =====
-- What an instruction works on: the context and the memory of `struct Machine` of
-- runtime/src/devinterp/interpreter.cpp, its reads and writes of both, and the sign extensions.
use dream_recomp.Base.{ℕ, ◌+◌, ◌-◌, ◌%◌, ◌^◌, leb, if◌then◌else◌, get_or, set}
use dream_recomp.Sh4.Ctx.{Ctx}
use dream_recomp.Sh4.Memory.{Memory}

pub record State (M : Type 0) : Type 0 where
  pub ctx : Ctx
  pub mem : M

-- `sx8` and `sx16` of the interpreter, on the low bits of their argument.
abbrev pub sx8 : ℕ → ℕ
sx8 v = let low = v % 2 ^ 8 in if leb (2 ^ 7) low then low + (2 ^ 32 - 2 ^ 8) else low

abbrev pub sx16 : ℕ → ℕ
sx16 v = let low = v % 2 ^ 16 in if leb (2 ^ 15) low then low + (2 ^ 32 - 2 ^ 16) else low

module _ {M : Type 0} where
  -- `c.r[i]`, and an assignment to it.
  abbrev pub reg : State M → ℕ → ℕ
  reg s i = get_or s.ctx.r i 0

  unfoldable pub set_reg : ℕ → ℕ → State M → State M
  set_reg i v s = record s { ctx = record s.ctx { r = set s.ctx.r i v } }

  abbrev pub set_ctx : Ctx → State M → State M
  set_ctx c s = record s { ctx = c }

  abbrev pub set_t : ℕ → State M → State M
  set_t v s = record s { ctx = record s.ctx { t = v } }

  -- `rn = f(c, …)` for a helper that also changes the context.
  unfoldable pub keep_result : ℕ → Ctx × ℕ → State M → State M
  keep_result n (c, v) s = set_reg n v (set_ctx c s)

  unfoldable pub after_access : State M → M × ℕ → State M
  after_access s (m, deadline) = record s { ctx = record s.ctx { next_event = deadline }; mem = m }

module _ {M : Type 0} (memory : Memory M) where
  open memory use {read8, read16, read32, write8, write16, write32, sq_flush}

  unfoldable pub load8 : ℕ → State M → State M × ℕ
  load8 a s = let (m, v) = read8 a s.ctx s.mem in (after_access s m, v)

  unfoldable pub load16 : ℕ → State M → State M × ℕ
  load16 a s = let (m, v) = read16 a s.ctx s.mem in (after_access s m, v)

  unfoldable pub load32 : ℕ → State M → State M × ℕ
  load32 a s = let (m, v) = read32 a s.ctx s.mem in (after_access s m, v)

  -- The casts to `std::uint8_t` and `std::uint16_t` are part of the stores.
  unfoldable pub store8 : ℕ → ℕ → State M → State M
  store8 a v s = after_access s (write8 a (v % 2 ^ 8) s.ctx s.mem)

  unfoldable pub store16 : ℕ → ℕ → State M → State M
  store16 a v s = after_access s (write16 a (v % 2 ^ 16) s.ctx s.mem)

  unfoldable pub store32 : ℕ → ℕ → State M → State M
  store32 a v s = after_access s (write32 a v s.ctx s.mem)

  unfoldable pub flush : ℕ → State M → State M
  flush a s = after_access s (sq_flush a s.ctx s.mem)
