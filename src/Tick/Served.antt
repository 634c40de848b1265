-- ===== src/Tick/Served.antt =====
-- The server of src/server from its start on: every sequence of the packet driver's calls and the
-- timer's ticks.
use rmtdos.Base.{ℕ, ◌+◌, ◌<◌, ◌≡◌, refl, some, List, [], arith, length, sym, subst}
use rmtdos.Base.Memory.{Bytes}
use rmtdos.Bufmgr.{Ptr, null, Bufmgr, Buffer, buffer_init}
use rmtdos.Bufmgr.Init.{FitsSegment, buffer_init_lem, buffer_init_count, slots}
use rmtdos.Bufmgr.Invariant.{Holds, pool}
use rmtdos.Broadcast.{Screen}
use rmtdos.Pktdrv.{Pktdrv}
use rmtdos.Protocol.{Env}
use rmtdos.Session.{max_sessions, session_mgr_init}
use rmtdos.Tick.{Server, int08_handler}
use rmtdos.Tick.Table.{IsTable}
use rmtdos.Tick.Run.{State, Reach, Sound}
use rmtdos.Tick.Sound.{Reach-Sound, ticked}

-- The server once it is resident, with the buffers that buffer_init has set up.
abbrev pub resident : Pktdrv → Bufmgr → Screen → State
resident d m screen = record {
  driver = d;
  held = [];
  busy = [];
  server = record { int08_ticks = 0; buffers = m; screen = screen };
}

init-IsTable : IsTable max_sessions session_mgr_init
unfolding session_mgr_init
init-IsTable = record {
  slots = refl;
  well_formed =
      (refl, omega arith, (refl, omega arith, (refl, omega arith, (refl, omega arith, tt))));
}

init-Sound :
    (cell : Ptr → Buffer) (base : Ptr) (count : ℕ) (m : Bufmgr) (d : Pktdrv) (screen : Screen)
    → FitsSegment base count
    → 0 < count
    → buffer_init cell base count ≡ some m
    → screen.host.sessions ≡ session_mgr_init
    → Sound max_sessions count (resident d m screen)
init-Sound cell base count m d screen fits positive set fresh =
    let (m', set', h, _) = buffer_init_lem cell base count fits positive in
    let same : m' ≡ m = grind (arith, set, set') in
    let h' = subst (λ x. Holds x (pool (slots base 0 count) [] [] [])) same h in
    record {
      fs = slots base 0 count;
      rs = [];
      holds = h';
      table = subst (IsTable max_sessions) (sym fresh) init-IsTable;
      size = omega (arith, h'.counted, buffer_init_count cell base count m set);
      bytes = tt;
    }

-- The server has started with a table of at least one buffer inside the segment. Since then the
-- packet driver has asked for buffers, filled those that it holds with bytes and called back, and the
-- timer has ticked on a screen with columns, in any order, the driver's calls also between the rounds
-- of the loop that handles packets and before the screen is sent. Then a tick that is not interrupted
-- returns, with fuel for one round more than there are buffers. It leaves no packet waiting, and every
-- buffer is free, or is one of those that the driver holds or that the loop is working on; the lists of
-- the table are linked and none of its buffers is lost. The table of sessions still has its 4 slots,
-- with addresses of 6 bytes and ids of 32 bits.
pub server_serves :
    (ds : ℕ) (cell : Ptr → Buffer) (base : Ptr) (count : ℕ) (m : Bufmgr) (d : Pktdrv)
    (screen : Screen) (t : State) (env : Env) (frame : Bytes) (fuel : ℕ)
    → FitsSegment base count
    → 0 < count
    → buffer_init cell base count ≡ some m
    → screen.host.sessions ≡ session_mgr_init
    → Reach ds (resident d m screen) t
    → 0 < env.video.text_cols
    → count < fuel
    → (server : Server) × (fs : List Ptr) × (int08_handler env frame fuel t.server ≡ some server)
      × (server.buffers.ready_list ≡ null)
      × Holds server.buffers (pool fs t.held [] t.busy)
      × (length fs + length t.held + length t.busy ≡ count)
      × IsTable max_sessions server.screen.host.sessions
server_serves ds cell base count m d screen t env frame fuel fits positive set fresh reached wide
      enough =
    let k =
      Reach-Sound max_sessions count ds _ t reached
        (init-Sound cell base count m d screen fits positive set fresh) in
    let (server, returns, empty, fs, h, table, size) =
      ticked max_sessions count ds t env frame fuel k wide
        (omega (arith, k.holds.counted, k.size)) in
    (server, fs, returns, empty, h, omega (arith, size), table)
