-- ===== src/Holly/G2Dma/Examples.antt =====
-- The theorem of the G2 bus channels where a write starts a transfer into sound memory.
use dream_recomp.Base.{ℕ, zero, suc, ◌<◌, refl, arith, set, [], ◌∷◌}
use dream_recomp.Sched.{never}
use dream_recomp.Mem.Fixture.{no_devices, machine}
use dream_recomp.Holly.G2Dma.{G2Dma, write, finish, idle_regs}
use dream_recomp.Holly.G2Dma.Settled.{IsSettled, IsConsistent}
use dream_recomp.Holly.G2Dma.Progress.{IsSteady, write-IsSteady}

-- Channel 0 is enabled, with 8 bytes to copy.
abbrev loaded : G2Dma ℕ ℕ
loaded = record {
  sched = record { events = never ∷ never ∷ never ∷ never ∷ []; now = 0; world = 0 };
  holly = record {
    istnrm = 0;
    istext = 0;
    isterr = 0;
    iml2nrm = 0;
    iml2ext = 0;
    iml2err = 0;
    iml4nrm = 0;
    iml4ext = 0;
    iml4err = 0;
    iml6nrm = 0x8000;
    iml6ext = 0;
    iml6err = 0;
    cpu = record { ipra = 0; iprb = 0; iprc = 0; icr = 0; pending_bits = 0 };
  };
  memory = machine;
  regs = set (set (set (set idle_regs 0 0x0080_0000) 1 0x0c00_0000) 2 8) 5 1;
  events = 0 ∷ 1 ∷ 2 ∷ 3 ∷ [];
  transfers = 0;
  bytes = 0;
  refused = 0;
  to_aica_ram = 0;
}

channels : (i : ℕ) → i < 4 → IsSettled loaded.regs i
unfolding IsSettled
channels zero h = (refl, omega arith)
channels (suc zero) h = (refl, omega arith)
channels (suc (suc zero)) h = (refl, omega arith)
channels (suc (suc (suc zero))) h = (refl, omega arith)
channels (suc (suc (suc (suc i)))) h = absurd (omega arith)

loaded-IsSteady : IsSteady loaded
unfolding IsSteady IsConsistent
loaded-IsSteady = (refl, channels)

write-IsSteady_example : IsSteady (write no_devices 0x5f_7818 1 loaded) × IsSteady (finish 0 loaded)
write-IsSteady_example =
    write-IsSteady no_devices 0x5f_7818 1 0 loaded (omega arith) loaded-IsSteady
