-- ===== src/Tests/Packets.antt =====
-- Packets between a client and the server.
use rmtdos.Base.{
  ℕ, ◌+◌, ◌%◌, ◌≡◌, ◌<◌, ◌≤◌, refl, List, [], ◌∷◌, ◌++◌, arith, some, none, Option, ◌⊎◌, ◌==◌,
  if◌then◌else◌,
}
use rmtdos.Base.Memory.{Bytes, zeros, of_list}
use rmtdos.Wire.{max_payload_length, combined_header_len, eth_frame_len, v1_ping, v1_pong, payload}
use rmtdos.Bufmgr.{Bufmgr, buffer_max_size, ready, slot, null}
use rmtdos.Bufmgr.Invariant.{Holds, pool}
use rmtdos.Bufmgr.Content.{contents}
use rmtdos.Network.{RawSocket, Sent, send_packet, send_keystrokes}
use rmtdos.Network.Frame.{IsValid, Headers, send_packet_lem}
use rmtdos.Protocol.{Keystroke, echoed_len, handle_ping, handle, protocol_process}
use rmtdos.Protocol.Replies.{IsReply, handle_ping_lem}
use rmtdos.Protocol.Keys.{key_bytes, keys_arrive}
use rmtdos.Session.{prune}
use rmtdos.Protocol.Process.{handle_all, released, protocol_process_lem}
use rmtdos.Broadcast.{session_mgr_update_all}
use rmtdos.Tick.{Server, int08_handler, int08_handler_lem}
use rmtdos.Tests.Sessions.{env, host, client_mac}
use rmtdos.Tests.Buffers.{table, empty}

abbrev pub socket : RawSocket
socket = record {
  sock_fd = some 3;
  if_name = b'e' ∷ b't' ∷ b'h' ∷ b'0' ∷ [];
  if_index = 2;
  if_addr = client_mac;
  ethertype = 0x80ab;
  session_id = 7;
}

pub socket-IsValid : IsValid socket
socket-IsValid = record { address = refl; type_fits = omega arith; session_fits = omega arith }

abbrev pub server_mac : List ℕ
server_mac = 2 ∷ 2 ∷ 2 ∷ 2 ∷ 2 ∷ 2 ∷ []

send_packet_lem_example :
    ((max_payload_length < 4)
      × (send_packet socket zeros (some server_mac) v1_ping (some zeros) 4 ≡ none))
    ⊎ ((s : Sent) × (send_packet socket zeros (some server_mac) v1_ping (some zeros) 4 ≡ some s)
        × Headers s.frame socket server_mac v1_ping 4
        × (s.to ≡ server_mac)
        × (s.len ≡ combined_header_len + 4)
        × (s.len ≤ eth_frame_len))
send_packet_lem_example =
    send_packet_lem socket zeros server_mac v1_ping (some zeros) 4 socket-IsValid refl (omega arith)

-- A ping whose payload is 9 8 7.
abbrev ping : Bytes
ping = of_list (
    server_mac
    ++ (client_mac
        ++ (128 ∷ 171 ∷ 123 ∷ 110 ∷ 5 ∷ 176 ∷ 0 ∷ 0 ∷ 0 ∷ 7 ∷ 0 ∷ 3 ∷ 0 ∷ 1 ∷ 9 ∷ 8 ∷ 7 ∷ [])))

handle_ping_lem_example :
    (f : Bytes) × ((handle_ping env host 60 ping).sent ≡ [] ++ ((f, 60) ∷ []))
    × IsReply env ping f v1_pong (echoed_len env ping)
    × ((i : ℕ) → i < echoed_len env ping → f (payload + i) ≡ ping (payload + i))
    × ((handle_ping env host 60 ping).sessions ≡ host.sessions)
    × ((handle_ping env host 60 ping).keys ≡ [])
handle_ping_lem_example = handle_ping_lem env host ping refl (omega arith) 60

abbrev pub keys : List Keystroke
keys =
    record { bios_scan_code = 30; ascii_value = 97; flags_17 = 0 }
    ∷ record { bios_scan_code = 48; ascii_value = 66; flags_17 = 3 }
    ∷ []

abbrev pub sent_of : Option Sent → Sent
sent_of none = record { to = []; frame = zeros; len = 0 }
sent_of (some s) = s

keys_arrive_example :
    (s : Sent) × (send_keystrokes socket zeros (some server_mac) 2 (of_list (key_bytes keys))
      ≡ some s)
    × (s.to ≡ server_mac)
    × (s.len ≤ buffer_max_size)
    × ((handle env host s.len s.frame).keys ≡ [] ++ keys)
keys_arrive_example =
    keys_arrive env socket zeros server_mac keys host socket-IsValid refl
      (omega arith, (omega arith, tt)) (omega arith)

-- Two packets wait, the one in the second buffer on top.
abbrev waiting : Bufmgr
waiting = record table {
  free_list = null;
  ready_list = slot 1000 1;
  cell = λ p.
      if p == 1000
      then record (empty null ping) { state = ready; bytes = 60 }
      else record (empty 1000 ping) { state = ready; bytes = 64 };
}

waiting-Holds : Holds waiting (pool [] [] (slot 1000 1 ∷ 1000 ∷ []) [])
waiting-Holds = record {
  free_chain = refl;
  ready_chain = (refl, omega arith, (refl, omega arith, refl));
  free_on = tt;
  pending_on = tt;
  ready_on =
      (refl, omega arith, omega arith, (omega arith, tt), (refl, omega arith, omega arith, tt, tt));
  user_on = tt;
  counted = refl;
}

protocol_process_lem_example :
    (m' : Bufmgr) × (protocol_process env 3 waiting host
      ≡ some (m', handle_all env host (contents waiting.cell (slot 1000 1 ∷ 1000 ∷ []))))
    × Holds m' (pool (released (slot 1000 1 ∷ 1000 ∷ []) []) [] [] [])
protocol_process_lem_example =
    protocol_process_lem env 3 waiting host [] [] (slot 1000 1 ∷ 1000 ∷ []) [] waiting-Holds
      (omega arith)

abbrev ticking : Server
ticking = record {
  int08_ticks = 41;
  buffers = waiting;
  screen = record { host = host; video_chksum = 0; video_next_row = 9 };
}

int08_handler_lem_example :
    let handled = handle_all env host (contents waiting.cell (slot 1000 1 ∷ 1000 ∷ [])) in
    (s' : Server) × (int08_handler env zeros 3 ticking ≡ some s')
    × (session_mgr_update_all env zeros (record ticking.screen { host = handled }) ≡ some s'.screen)
    × (s'.screen.host.keys ≡ handled.keys)
    × (s'.screen.host.sessions ≡ (prune handled.sessions 1000).0)
    × Holds s'.buffers (pool (released (slot 1000 1 ∷ 1000 ∷ []) []) [] [] [])
    × (s'.int08_ticks ≡ (41 + 1) % 4294967296)
int08_handler_lem_example =
    int08_handler_lem env zeros 3 ticking [] [] (slot 1000 1 ∷ 1000 ∷ []) [] waiting-Holds
      (omega arith) (omega arith)
