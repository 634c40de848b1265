-- ===== src/Tests/Services.antt =====
-- A server with two buffers that is handed a second start request while it handles the first, and
-- lends the first buffer again when it is given back.
use rmtdos.Base.{
  sym, ◌∙◌, ◌++◌, zero, suc, true, ◌&&◌, Bool, ltb, ℕ, ◌+◌, ◌≡◌, refl, none, some, Option, List, [],
  ◌∷◌, arith, length,
}
use rmtdos.Base.Memory.{Bytes, zeros, of_list}
use rmtdos.Bufmgr.{
  slot, buffer_get_ready, buffer_release, buffer_mark_ready, buffer_acquire, driver_write, Ptr,
  null, Bufmgr, buffer_init, data_of,
}
use rmtdos.Bufmgr.Invariant.{Holds, pool}
use rmtdos.Bufmgr.Chain.{contains, erase}
use rmtdos.X86.{CpuRegs, x86_reset_regs}
use rmtdos.Pktdrv.{cleared, pktdrv_receive_func}
use rmtdos.Broadcast.{Screen}
use rmtdos.Session.{session_mgr_init, max_sessions}
use rmtdos.Tick.{Server, int08_handler}
use rmtdos.Tick.Table.{IsTable, AreBytes}
use rmtdos.Tick.Run.{
  State, called, given, answered, Reach, here, further, taken, first_call, second_call, take, give,
}
use rmtdos.Tick.Served.{resident, server_serves}
use rmtdos.Tests.Sessions.{env, client_mac}
use rmtdos.Tests.Buffers.{table}

abbrev all_bytes : List ℕ → Bool
all_bytes [] = true
all_bytes (x ∷ xs) = ltb x 256 && all_bytes xs

of_list-AreBytes : (xs : List ℕ) → all_bytes xs ≡ true → AreBytes (of_list xs)
of_list-AreBytes [] all i = omega arith
of_list-AreBytes (x ∷ xs) all zero = ground arith
of_list-AreBytes (x ∷ xs) all (suc i) = of_list-AreBytes xs (ground arith) i

abbrev request_bytes : List ℕ
request_bytes =
    2
    ∷ 2
    ∷ 2
    ∷ 2
    ∷ 2
    ∷ 2
    ∷ (client_mac ++ (128 ∷ 171 ∷ 123 ∷ 110 ∷ 5 ∷ 176 ∷ 0 ∷ 0 ∷ 0 ∷ 7 ∷ 0 ∷ 0 ∷ 0 ∷ 5 ∷ []))

abbrev request : Bytes
request = of_list request_bytes

request-AreBytes : AreBytes request
request-AreBytes = of_list-AreBytes request_bytes refl

abbrev set_up : Option Bufmgr → Bufmgr
set_up none = table
set_up (some m) = m

abbrev two_buffers : Bufmgr
two_buffers = set_up (buffer_init table.cell 1000 2)

two_buffers_set : buffer_init table.cell 1000 2 ≡ some two_buffers
unfolding buffer_init
two_buffers_set = refl

abbrev screen : Screen
screen = record {
  host = record { sessions = session_mgr_init; send_buffer = zeros; sent = []; keys = [] };
  video_chksum = 0;
  video_next_row = 0;
}

abbrev asks : CpuRegs
asks = record (x86_reset_regs 0) { ax = 0; cx = 60 }

abbrev fills : Ptr → CpuRegs
fills p = record (x86_reset_regs 0) { ax = 1; si = data_of p }

abbrev asked : State → State
asked s = called s (given (answered 0 s asks).2.di s.held) (answered 0 s asks)

abbrev delivered : Ptr → State → State
delivered p s =
    called s (erase p s.held)
      (pktdrv_receive_func 0 s.driver (driver_write s.server.buffers p request) (fills p))

abbrev started : State
started = resident cleared two_buffers screen

-- The first packet is taken, and while it is handled the second one comes.
abbrev filled : State
filled = delivered 1000 (asked started)

abbrev both_filled : State
both_filled = delivered (slot 1000 1) (asked (taken env filled))

abbrev given_back : State
given_back = record both_filled {
  busy = erase 1000 both_filled.busy;
  server = record both_filled.server { buffers = buffer_release both_filled.server.buffers 1000 };
}

abbrev lent_again : State
lent_again = asked given_back

first-held : contains 1000 (asked started).held ≡ true
unfolding pktdrv_receive_func buffer_acquire buffer_init
first-held = refl

filled-ready : filled.server.buffers.ready_list ≡ 1000
unfolding pktdrv_receive_func buffer_acquire buffer_mark_ready buffer_init
filled-ready = refl

second-held : contains (slot 1000 1) (asked (taken env filled)).held ≡ true
unfolding pktdrv_receive_func buffer_acquire buffer_mark_ready driver_write buffer_get_ready
    buffer_init
second-held = refl

busy-first : contains 1000 both_filled.busy ≡ true
unfolding pktdrv_receive_func buffer_acquire buffer_mark_ready buffer_init
busy-first = refl

reached : Reach 0 started lent_again
reached =
    let r1 = further started (asked started) here (first_call started asks refl) in
    let r2 = further (asked started) filled r1 (
      second_call (asked started) (fills 1000) 1000 request refl refl first-held
        request-AreBytes) in
    let r3 =
      further filled (taken env filled) r2
        (take filled env (λ e. (let clash : 1000 ≡ 0 = sym filled-ready ∙ e in omega arith))) in
    let r4 =
      further (taken env filled) (asked (taken env filled)) r3
        (first_call (taken env filled) asks refl) in
    let r5 = further (asked (taken env filled)) both_filled r4 (
      second_call (asked (taken env filled)) (fills (slot 1000 1)) (slot 1000 1) request refl refl
        second-held request-AreBytes) in
    let r6 = further both_filled given_back r5 (give both_filled 1000 busy-first) in
    further given_back lent_again r6 (first_call given_back asks refl)

server_serves_example :
    (server : Server) × (fs : List Ptr) × (int08_handler env zeros 3 lent_again.server
      ≡ some server)
    × (server.buffers.ready_list ≡ null)
    × Holds server.buffers (pool fs lent_again.held [] lent_again.busy)
    × (length fs + length lent_again.held + length lent_again.busy ≡ 2)
    × IsTable max_sessions server.screen.host.sessions
server_serves_example =
    server_serves 0 table.cell 1000 2 two_buffers cleared screen lent_again env zeros 3
      (omega arith, omega arith) (omega arith) two_buffers_set refl reached (omega arith)
      (omega arith)
