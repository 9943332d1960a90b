-- ===== src/Sh4/Dmac/Examples.antt =====
-- The theorem of the DMA controller on a transfer of three words, up from 0x8c001000.
use dream_recomp.Base.{ℕ, ◌≡◌, refl, arith, ◌∷◌, replicate, bit_or}
use dream_recomp.Mem.Fixture.{no_devices, machine}
use dream_recomp.Sh4.Dmac.{Dmac, Channel, channel, blank_channel, manual_dma, kte}
use dream_recomp.Sh4.Dmac.Transfer.{advanced, manual_dma-channel}

abbrev up : Channel
up = record { sar = 0x8c00_1000; dar = 0x8c00_2000; tcr = 3; chcr = 0x5431 }

abbrev controller : Dmac ℕ
controller = record {
  memory = machine;
  ch = up ∷ replicate 3 blank_channel;
  dmaor = 1;
  manual_transfers = 0;
}

manual_dma-channel_example :
    channel (manual_dma no_devices (λ n d. d) 0 controller) 0
    ≡ record (advanced 3 1 1 4 up) { tcr = 0; chcr = bit_or 0x5431 kte }
manual_dma-channel_example =
    manual_dma-channel no_devices (λ n d. d) (λ n d. refl) 0 controller (omega arith) (omega arith)
      (λ e. ground arith) (omega arith) (omega arith)
