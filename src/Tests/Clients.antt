-- ===== src/Tests/Clients.antt =====
-- The client with one server in its list.
use rmtdos.Base.{
  false, ℕ, ◌+◌, ◌*◌, ◌-◌, ◌≡◌, ◌<◌, ◌≤◌, refl, ◌⊎◌, List, [], ◌∷◌, ◌++◌, arith, some, none,
  get_elem?, true, bytes_eq,
}
use rmtdos.Base.Memory.{Bytes, zeros, of_list}
use rmtdos.Wire.{src_mac_addr, dest_mac_addr, session_id, v1_status_req}
use rmtdos.Network.{Sent, broadcast_addr}
use rmtdos.Network.Frame.{Headers}
use rmtdos.Hostlist.{
  RemoteHost, Hosts, host_create, hostlist_find_by_mac, free_slot, hostlist_register,
}
use rmtdos.Hostlist.Register.{Known, register_lem}
use rmtdos.Broadcast.{Chunk, chunk_at, compose, video_word}
use rmtdos.Broadcast.Frames.{Shows, compose-Shows}
use rmtdos.Client.{
  Client, process_socket_io, process_incoming_video_text, process_timers, video_text_buffer_len,
  broadcast_probe_interval,
}
use rmtdos.Client.Screen.{frame_shown, text_in_bounds}
use rmtdos.Client.Timers.{Refreshed, process_timers_lem}
use rmtdos.Display.{color_table_init, basic_table}
use rmtdos.Display.Window.{Window, space, update_session_window}
use rmtdos.Display.Rows.{Presented}
use rmtdos.Display.Packet.{packet_shown}
use rmtdos.Tests.Sessions.{env}
use rmtdos.Tests.Packets.{socket, socket-IsValid, server_mac}
use rmtdos.Tests.Keymaps.{client}

abbrev server : RemoteHost
server = record (host_create 0) { if_addr = server_mac; window = true }

abbrev known : Hosts
known = some server ∷ none ∷ []

abbrev other_mac : List ℕ
other_mac = 3 ∷ 3 ∷ 3 ∷ 3 ∷ 3 ∷ 3 ∷ []

-- A status response of another server.
abbrev pub response : Bytes
response = of_list (
    (1 ∷ 1 ∷ 1 ∷ 1 ∷ 1 ∷ 1 ∷ [])
    ++ (other_mac
        ++ (128 ∷ 171 ∷ 123 ∷ 110 ∷ 5 ∷ 176 ∷ 0 ∷ 0 ∷ 0 ∷ 7 ∷ 0 ∷ 6 ∷ 0 ∷ 4 ∷ 3 ∷ 0 ∷ 25 ∷ 80 ∷ 1
            ∷ 2 ∷ [])))

abbrev of_client : Client
of_client = record client { hosts = known }

register_lem_example :
    ((hostlist_find_by_mac known (src_mac_addr response) ≡ none)
      × (free_slot known ≡ none)
      × (hostlist_register 77 known response ≡ known))
    ⊎ ((i : ℕ) × (rh : RemoteHost) × (hostlist_find_by_mac
            (hostlist_register 77 known response)
            (src_mac_addr response)
          ≡ some i)
        × (get_elem? (hostlist_register 77 known response) i ≡ some (some rh))
        × Known 77 response rh)
register_lem_example = register_lem 77 known response

server_found : hostlist_find_by_mac known server_mac ≡ some 0
unfolding hostlist_find_by_mac bytes_eq
server_found = refl

text_in_bounds_example :
    (rh' : RemoteHost) × (get_elem? (process_incoming_video_text 77 known response) 0
      ≡ some (some rh'))
    × ((k : ℕ) → video_text_buffer_len ≤ k → rh'.video_text_buffer k ≡ zeros k)
text_in_bounds_example = text_in_bounds 77 known response 0 server refl

process_timers_lem_example :
    (c' : Client) × (probe fs : List Sent) × (process_timers socket zeros 9000000 of_client
      ≡ some c')
    × (c'.sent ≡ [] ++ (probe ++ fs))
    × (((9000000 - 0 ≤ broadcast_probe_interval) × (probe ≡ []) × (c'.last_probe ≡ 0))
        ⊎ ((s : Sent) × (broadcast_probe_interval < 9000000 - 0)
            × (probe ≡ s ∷ [])
            × (s.to ≡ broadcast_addr)
            × Headers s.frame socket broadcast_addr v1_status_req 0
            × (c'.last_probe ≡ 9000000)))
    × Refreshed socket 9000000 known fs c'.hosts
process_timers_lem_example =
    process_timers_lem socket zeros 9000000 of_client socket-IsValid (refl, tt)

-- The rows from 9 on, of a screen of ones, addressed to the client.
abbrev some_rows : Chunk
some_rows = record { row = 9; rows = 2; offset = 1440; word_count = 160 }

abbrev ones : Bytes
ones i = 1

abbrev addressed : Bytes
addressed =
    of_list
      ((1 ∷ 1 ∷ 1 ∷ 1 ∷ 1 ∷ 1 ∷ []) ++ (server_mac ++ (0 ∷ 0 ∷ 0 ∷ 0 ∷ 0 ∷ 0 ∷ 0 ∷ 0 ∷ 0 ∷ 7 ∷ [])))

packet-Shows : Shows env ones some_rows (compose env ones addressed some_rows)
packet-Shows =
    compose-Shows env ones some_rows addressed refl (omega arith) (omega arith) (omega arith)

to_client : dest_mac_addr (compose env ones addressed some_rows) ≡ socket.if_addr
unfolding compose
to_client = refl

in_session : session_id (compose env ones addressed some_rows) ≡ socket.session_id
unfolding compose
in_session = refl

frame_shown_example :
    (rh' : RemoteHost) × (get_elem?
        (process_socket_io socket 77 of_client 354 (compose env ones addressed some_rows)).hosts
        0
      ≡ some (some rh'))
    × ((k : ℕ) → k < 160 * video_word → rh'.video_text_buffer (1440 + k) ≡ 1)
    × ((k : ℕ) → (k < 1440) ⊎ (1440 + 160 * video_word ≤ k) → rh'.video_text_buffer k ≡ zeros k)
    × (rh'.text_rows ≡ 25)
    × (rh'.text_cols ≡ 80)
    × (rh'.status.cursor_row ≡ 4)
    × (rh'.status.cursor_col ≡ 9)
    × (rh'.tv_last_resp ≡ 77)
frame_shown_example =
    frame_shown env ones some_rows (compose env ones addressed some_rows) socket 77 of_client 354 0
      server packet-Shows (omega arith) to_client in_session server_found refl (omega arith)

-- A packet of a whole screen.
abbrev packet : ℕ → Bytes
packet row = compose env ones addressed (chunk_at env.video row)

abbrev blank_window : Window
blank_window = record { lines = 30; columns = 100; cell = λ y x. space 7 }

-- Every code as itself.
abbrev plain : ℕ → List ℕ
plain c = c ∷ []

packet-Shows_9 : Shows env ones (chunk_at env.video 9) (packet 9)
unfolding chunk_at
packet-Shows_9 =
    compose-Shows env ones (chunk_at env.video 9) addressed refl (omega arith) (omega arith)
      (omega arith)

to_client_9 : dest_mac_addr (packet 9) ≡ socket.if_addr
unfolding compose
to_client_9 = refl

in_session_9 : session_id (packet 9) ≡ socket.session_id
unfolding compose
in_session_9 = refl

few_words : (chunk_at env.video 9).word_count < 721
unfolding chunk_at
few_words = omega arith

packet_shown_example :
    (rh' : RemoteHost) × (w' : Window) × (get_elem?
        (process_socket_io socket 77 of_client 1474 (packet 9)).hosts
        0
      ≡ some (some rh'))
    × (update_session_window plain
          (λ attr. attr)
          rh'
          721
          (chunk_at env.video 9).offset
          ((chunk_at env.video 9).word_count * video_word)
          blank_window
        ≡ some w')
    × Presented plain
        (λ attr. attr)
        ones
        9
        (9 + (chunk_at env.video 9).rows)
        blank_window
        w'
        25
        80
        4
        9
packet_shown_example =
    packet_shown socket env ones 9 (packet 9) 77 of_client 1474 0 server plain (λ attr. attr)
      blank_window 721
      (record { rows_byte = omega arith; cols_byte = omega arith; some_cols = omega arith })
      (omega arith) (omega arith) packet-Shows_9 (omega arith) to_client_9 in_session_9 server_found
      refl few_words

basic_made : color_table_init true 8 64 false ≡ some basic_table
unfolding color_table_init
basic_made = refl
