-- ===== src/Client.antt =====
-- src/client/main.c: what the client does with a packet, with a key in its menu and on a timer.
-- ncurses, the clock and the sockets are the system's: a time is a parameter, a packet that is sent is
-- kept in a list. What is drawn stands in Display and Delivery.Terminal; here it is left out but for the
-- division by which it can end the program.
pub mod Keyboard
pub mod Screen
pub mod Mirror
pub mod Timers
pub mod Menu
pub mod Events
pub mod Start
pub mod Probing
use rmtdos.Base.{
  ℕ, zero, suc, ◌+◌, ◌-◌, Option, none, some, List, [], ◌∷◌, ◌++◌, ◌==◌, ltb, leb, ◌&&◌, ◌||◌, not,
  bytes_eq, if◌then◌else◌, Bool, true, false,
}
use rmtdos.Base.Memory.{Bytes, load16, memcpy}
use rmtdos.Wire.{
  dest_mac_addr, src_mac_addr, signature, session_id, pkt_type, packet_signature, v1_status_resp,
  v1_vga_text,
}
use rmtdos.Network.{RawSocket, Sent, send_status_req, send_session_start}
use rmtdos.Keymap.{Keymap}
use rmtdos.Hostlist.{
  RemoteHost, Hosts, modify, hostlist_find_by_mac, hostlist_find_by_index, hostlist_register,
}

-- The client's globals, and the packets that it has sent.
pub record Client : Type 0 where
  pub hosts : Hosts
  pub active_host : Option ℕ
  pub running : Bool
  pub show_debug_window : Bool
  pub show_status : Bool
  pub last_probe : ℕ
  pub keymap : Keymap
  pub sent : List Sent

-- sizeof(rh->video_text_buffer)
abbrev pub video_text_buffer_len : ℕ
video_text_buffer_len = 32768

-- The fields of `struct VideoText`.
abbrev pub video_offset : Bytes → ℕ
video_offset buf = load16 buf 30

abbrev pub video_count : Bytes → ℕ
video_count buf = load16 buf 32

-- What the packet's content does to the host, the drawing left out.
abbrev pub show_text : Bytes → RemoteHost → RemoteHost
show_text buf rh = record rh {
  video_text_buffer = memcpy rh.video_text_buffer (video_offset buf) buf 34 (video_count buf);
  text_rows = buf 26;
  text_cols = buf 27;
  status = record rh.status { cursor_row = buf 28; cursor_col = buf 29 };
}

unfoldable pub process_incoming_video_text : ℕ → Hosts → Bytes → Hosts
process_incoming_video_text now hosts buf = elim (hostlist_find_by_mac hosts (src_mac_addr buf)) [
  | none ↦ hosts
  | some i ↦
      let hosts1 = modify hosts i (λ rh. record rh { tv_last_resp = now }) in
      if ltb video_text_buffer_len (video_count buf + video_offset buf)
      then hosts1
      else modify hosts1 i (show_text buf)
]

-- The packet is not dropped by one of the filters.
abbrev pub accepts : RawSocket → Bytes → Bool
accepts rs buf =
    bytes_eq (dest_mac_addr buf) rs.if_addr
    && signature buf == packet_signature
    && session_id buf == rs.session_id

-- `received` is 0 where recvfrom fails.
unfoldable pub process_socket_io : RawSocket → ℕ → Client → (received : ℕ) → Bytes → Client
process_socket_io rs now c received buf =
    if received == 0
    then c
    else if accepts rs buf
    then if pkt_type buf == v1_status_resp
      then record c { hosts = hostlist_register now c.hosts buf }
      else if pkt_type buf == v1_vga_text
      then record c { hosts = process_incoming_video_text now c.hosts buf }
      else c
    else c

-- The packet's text gets as far as the loop of update_session_window, and has something to draw.
abbrev pub draws : Hosts → Bytes → Bool
draws hosts buf = elim (hostlist_find_by_mac hosts (src_mac_addr buf)) [
  | none ↦ false
  | some i ↦
      leb (video_count buf + video_offset buf) video_text_buffer_len && ltb 0 (video_count buf)
]

-- update_session_window divides by the columns that the packet has given.
unfoldable pub divides_by_zero : RawSocket → Client → (received : ℕ) → Bytes → Bool
divides_by_zero rs c received buf =
    not (received == 0)
    && accepts rs buf
    && pkt_type buf == v1_vga_text
    && draws c.hosts buf
    && buf 27 == 0

unfoldable pub start_remote_control : Client → ℕ → Client
start_remote_control c i = record c {
  active_host = some i;
  hosts = modify c.hosts i (λ rh. record rh { window = true });
}

-- EXIT_WCH_CODE
abbrev pub exit_wch_code : ℕ
exit_wch_code = 0x9b

-- KEY_F(12) is a code of ncurses.
module _ (key_f12 : ℕ) where
  abbrev pub leaves : ℕ → Bool
  leaves ch = ch == exit_wch_code || ch == key_f12 || ch == 27

  unfoldable pub process_stdin_menu_mode : Client → ℕ → Client
  process_stdin_menu_mode c ch =
      if leaves ch
      then record c { running = false }
      else if leb b'0' ch && leb ch b'9'
      then elim (hostlist_find_by_index c.hosts (ch - b'0')) [
        | none ↦ c
        | some i ↦ start_remote_control c i
      ]
      else c

-- broadcast_probe_interval and session_start_interval, in microseconds
abbrev pub broadcast_probe_interval : ℕ
broadcast_probe_interval = 2500000

abbrev pub session_start_interval : ℕ
session_start_interval = 2000000

module _ (rs : RawSocket) (heap : Bytes) (now : ℕ) where
  -- timersub and timercmp; a clock that was set back gives a negative difference.
  abbrev pub expired : ℕ → ℕ → Bool
  expired last interval = ltb interval (now - last)

  -- The loop over the hosts that hostlist_iter yields; `none` is a failed assertion.
  refresh_sessions : Hosts → List Sent → Option (Hosts × List Sent)
  refresh_sessions [] sent = some ([], sent)
  refresh_sessions (none ∷ hosts) sent = elim (refresh_sessions hosts sent) [
    | none ↦ none
    | some (hosts', sent') ↦ some (none ∷ hosts', sent')
  ]
  refresh_sessions (some rh ∷ hosts) sent =
      let due = rh.window && expired rh.tv_last_session_start session_start_interval in
      let rh' = if due then record rh { tv_last_session_start = now } else rh in
      elim (send_session_start rs heap (some rh.if_addr)) [
        | none ↦ none
        | some s ↦ elim (refresh_sessions hosts (if due then sent ++ (s ∷ []) else sent)) [
          | none ↦ none
          | some (hosts', sent') ↦ some (some rh' ∷ hosts', sent')
        ]
      ]

  unfoldable pub process_timers : Client → Option Client
  unfolding refresh_sessions
  process_timers c =
      let probing = expired c.last_probe broadcast_probe_interval in
      elim (send_status_req rs heap none) [
        | none ↦ none
        | some s ↦
            elim (refresh_sessions c.hosts (if probing then c.sent ++ (s ∷ []) else c.sent)) [
              | none ↦ none
              | some (hosts', sent') ↦ some (record c {
                hosts = hosts';
                sent = sent';
                last_probe = if probing then now else c.last_probe;
              })
            ]
      ]
