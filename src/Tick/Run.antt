-- ===== src/Tick/Run.antt =====
-- The server of src/server between its interrupts: the calls of the packet driver and the timer's
-- ticks, in any order.
use rmtdos.Base.{◌≢◌, ◌%◌, ℕ, ◌+◌, ◌<◌, ◌≡◌, some, List, ◌∷◌, ◌==◌, true, length, if◌then◌else◌}
use rmtdos.Base.Memory.{Bytes}
use rmtdos.Bufmgr.{
  null, buffer_get_ready, buffer_release, Ptr, Bufmgr, data_of, buffer_of, driver_write,
}
use rmtdos.Bufmgr.Chain.{contains, erase}
use rmtdos.Bufmgr.Invariant.{Holds, pool}
use rmtdos.Bufmgr.Content.{contents}
use rmtdos.X86.{CpuRegs}
use rmtdos.Pktdrv.{Pktdrv, pktdrv_receive_func}
use rmtdos.Protocol.{Env, handle}
use rmtdos.Broadcast.{Screen, session_mgr_update_all}
use rmtdos.Tick.{Server, int08_handler}
use rmtdos.Tick.Table.{IsTable, AreBytes, AllBytes}

-- What the driver was handed and has not called back for is `held`, and what the loop of
-- protocol_process has taken and not given back is `busy`.
pub record State : Type 0 where
  pub driver : Pktdrv
  pub held : List Ptr
  pub busy : List Ptr
  pub server : Server

-- The buffer of an answer in ES:DI.
abbrev pub given : Ptr → List Ptr → List Ptr
given di held = if di == 0 then held else buffer_of di ∷ held

-- The state after a call of the driver.
abbrev pub called : State → List Ptr → Pktdrv × Bufmgr × CpuRegs → State
called s held (d, m, answer) = record s {
  driver = d;
  held = held;
  server = record s.server { buffers = m };
}

abbrev pub answered : ℕ → State → CpuRegs → Pktdrv × Bufmgr × CpuRegs
answered ds s regs = pktdrv_receive_func ds s.driver s.server.buffers regs

-- The loop has taken the packet at the head of the ready list and handled it.
abbrev pub taken : Env → State → State
taken env s =
    let m = s.server.buffers in
    let b = m.cell m.ready_list in
    record s {
      busy = m.ready_list ∷ s.busy;
      server = record s.server {
        buffers = (buffer_get_ready m).0;
        screen = record s.server.screen {
          host = handle env s.server.screen.host b.bytes b.data_area;
        };
      };
    }

-- The driver asks for a buffer; or it has filled one that it holds, and calls with its address; or the
-- timer ticks, and finds a screen with columns. The driver's calls may also come between the parts of
-- a tick: its loop takes a packet and handles it, gives the buffer back, or has ended, and the screen
-- is sent.
pub data Step (ds : ℕ) : State → State → Type 0 where
  first_call :
      (s : State) (regs : CpuRegs)
      → regs.ax ≡ 0
      → Step ds s (called s (given (answered ds s regs).2.di s.held) (answered ds s regs))
  second_call :
      (s : State) (regs : CpuRegs) (p : Ptr) (packet : Bytes)
      → regs.ax ≡ 1
      → regs.si ≡ data_of p
      → contains p s.held ≡ true
      → AreBytes packet
      → Step ds s (
          called s
            (erase p s.held)
            (pktdrv_receive_func ds s.driver (driver_write s.server.buffers p packet) regs))
  tick :
      (s : State) (env : Env) (frame : Bytes) (fuel : ℕ) (server : Server)
      → 0 < env.video.text_cols
      → s.server.buffers.buffer_count < fuel
      → int08_handler env frame fuel s.server ≡ some server
      → Step ds s (record s { server = server })
  take : (s : State) (env : Env) → s.server.buffers.ready_list ≢ null → Step ds s (taken env s)
  give :
      (s : State) (p : Ptr)
      → contains p s.busy ≡ true
      → Step ds s (record s {
        busy = erase p s.busy;
        server = record s.server { buffers = buffer_release s.server.buffers p };
      })
  send :
      (s : State) (env : Env) (frame : Bytes) (screen : Screen)
      → 0 < env.video.text_cols
      → session_mgr_update_all env frame s.server.screen ≡ some screen
      → Step ds s (record s {
        server = record s.server {
          int08_ticks = (s.server.int08_ticks + 1) % 4294967296;
          screen = screen;
        };
      })

pub data Reach (ds : ℕ) (s : State) : State → Type 0 where
  here : Reach ds s s
  further : (t u : State) → Reach ds s t → Step ds t u → Reach ds s u

-- The buffers stand for a pool of which the driver has those that it holds, and the loop those
-- that it works on; the table of sessions has `n` slots; there are `c` buffers; and the packets that wait are made of bytes.
pub record Sound (n c : ℕ) (s : State) : Type 0 where
  pub fs : List Ptr
  pub rs : List Ptr
  pub holds : Holds s.server.buffers (pool fs s.held rs s.busy)
  pub table : IsTable n s.server.screen.host.sessions
  pub size : length fs + length s.held + length rs + length s.busy ≡ c
  pub bytes : AllBytes (contents s.server.buffers.cell rs)
