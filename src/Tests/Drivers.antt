-- ===== src/Tests/Drivers.antt =====
-- A packet driver, and DOS, that grant every call with the handle 5.
use rmtdos.Base.{ℕ, ◌+◌, ◌≡◌, ◌≢◌, ◌⊎◌, true, false}
use rmtdos.Base.Memory.{Bytes}
use rmtdos.X86.{CpuRegs, carry, high, x86_reset_regs}
use rmtdos.Pktdrv.{Pktdrv, cleared, err_no_driver}
use rmtdos.Pktdrv.Connect.{irq_used, access, init, init_handle}
use rmtdos.Resident.{Resident}

-- The world counts the calls.
abbrev pub call : ℕ → ℕ → CpuRegs → ℕ × CpuRegs
call w irq regs = (w + 1, record regs { ax = 5; flags = 0 })

abbrev pub memory : ℕ → ℕ → ℕ → Bytes
memory w segment at i = at + i

abbrev registered : Pktdrv
registered = record cleared { irq = 0x60; handle = 5 }

init_handle_example :
    ((irq_used call memory 0 0 0x60 100 200 300 0 ≡ 0)
      × ((init call memory 0 0 0x60 100 200 300 0).1 ≡ cleared)
      × ((init call memory 0 0 0x60 100 200 300 0).2 ≡ err_no_driver))
    ⊎ ((irq_used call memory 0 0 0x60 100 200 300 0 ≢ 0)
        × (carry (access call memory 0 0 0x60 100 200 300 0).1 ≡ true)
        × ((init call memory 0 0 0x60 100 200 300 0).1 ≡ cleared)
        × ((init call memory 0 0 0x60 100 200 300 0).2
            ≡ high (access call memory 0 0 0x60 100 200 300 0).1.dx))
    ⊎ ((irq_used call memory 0 0 0x60 100 200 300 0 ≢ 0)
        × (carry (access call memory 0 0 0x60 100 200 300 0).1 ≡ false)
        × ((init call memory 0 0 0x60 100 200 300 0).1.handle
            ≡ (access call memory 0 0 0x60 100 200 300 0).1.ax)
        × ((init call memory 0 0 0x60 100 200 300 0).1.irq
            ≡ irq_used call memory 0 0 0x60 100 200 300 0))
init_handle_example = init_handle call memory 0 0 0x60 100 200 300 0

-- Vectors that point at some handlers.
abbrev pub resident : Resident
resident = record {
  vectors = λ i. 5000 + i;
  int08_original_handler = 0;
  int2f_original_handler = 0;
  int2f_ticks = 0;
  pktdrv = registered;
}

abbrev request : CpuRegs
request = record (x86_reset_regs 0) { dx = 1 }
