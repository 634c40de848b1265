-- ===== src/Delivery/Terminal.antt =====
-- The client of src/client/main.c with its terminal: process_socket_io, and what
-- process_incoming_video_text draws by update_session_window of src/client/curses.c.
use rmtdos.Base.{ℕ, ◌+◌, ◌==◌, Option, none, some, List, [], ◌∷◌, ltb, if◌then◌else◌, get_elem?}
use rmtdos.Base.Memory.{Bytes}
use rmtdos.Wire.{src_mac_addr, pkt_type, v1_status_resp, v1_vga_text}
use rmtdos.Network.{RawSocket}
use rmtdos.Hostlist.{RemoteHost, Hosts, hostlist_find_by_mac}
use rmtdos.Client.{
  Client, process_socket_io, accepts, video_text_buffer_len, video_offset, video_count,
}
use rmtdos.Client.Mirror.{Arrival}
use rmtdos.Display.Window.{Window, update_session_window}

-- The session's window; it is `none` where the drawing has divided by zero.
pub record Terminal : Type 0 where
  pub client : Client
  pub window : Option Window

module _ (rs : RawSocket) (g_cp437_table : ℕ → List ℕ) (g_ncurses_colors : ℕ → ℕ) where
  abbrev pub draw_slot : Option (Option RemoteHost) → Bytes → Window → Option Window
  draw_slot none buf w = some w
  draw_slot (some none) buf w = some w
  draw_slot (some (some rh)) buf w =
      update_session_window g_cp437_table g_ncurses_colors rh video_text_buffer_len
        (video_offset buf) (video_count buf) w

  -- The hosts before the packet and after it. As many rounds as the buffer has bytes are enough.
  abbrev pub draw_text : (hosts hosts' : Hosts) → Bytes → Window → Option Window
  draw_text hosts hosts' buf w = elim (hostlist_find_by_mac hosts (src_mac_addr buf)) [
    | none ↦ some w
    | some i ↦
        if ltb video_text_buffer_len (video_count buf + video_offset buf)
        then some w
        else draw_slot (get_elem? hosts' i) buf w
  ]

  unfoldable pub draw_packet :
      (hosts hosts' : Hosts) → (received : ℕ) → Bytes → Option Window → Option Window
  draw_packet hosts hosts' received buf none = none
  draw_packet hosts hosts' received buf (some w) =
      if received == 0
      then some w
      else if accepts rs buf
      then if pkt_type buf == v1_status_resp
        then some w
        else if pkt_type buf == v1_vga_text
        then draw_text hosts hosts' buf w
        else some w
      else some w

  unfoldable pub receive : Terminal → Arrival → Terminal
  unfolding draw_packet
  receive t a =
      let c' = process_socket_io rs a.now t.client a.received a.frame in
      record {
        client = c';
        window = draw_packet t.client.hosts c'.hosts a.received a.frame t.window;
      }

  -- The packets one after the other.
  unfoldable pub receive_all : Terminal → List Arrival → Terminal
  unfolding receive
  receive_all t [] = t
  receive_all t (a ∷ as') = receive_all (receive t a) as'
