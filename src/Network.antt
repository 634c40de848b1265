-- ===== src/Network.antt =====
-- src/client/network.c and network.h: how the client builds and sends a packet. Sockets are the
-- system's: a call of sendto is the frame, its length and the link-layer address that it is given.
pub mod Frame
pub mod Socket
pub mod Opened
use rmtdos.Base.{ℕ, ◌+◌, ◌*◌, Option, none, some, List, [], ◌∷◌, leb, if◌then◌else◌}
use rmtdos.Base.Memory.{Bytes, zeros, memcpy, store16, store32, of_list}
use rmtdos.Wire.{
  packet_signature, max_payload_length, combined_header_len, v1_ping, v1_status_req,
  v1_session_start, v1_inject_keystroke, keystroke_len,
}

-- `struct RawSocket`; a negative `sock_fd` is `none`.
pub record RawSocket : Type 0 where
  pub sock_fd : Option ℕ
  pub if_name : List ℕ
  pub if_index : ℕ
  pub if_addr : List ℕ
  pub ethertype : ℕ
  pub session_id : ℕ

-- What sendto is called with: sll_addr, the buffer and its length.
pub record Sent : Type 0 where
  pub to : List ℕ
  pub frame : Bytes
  pub len : ℕ

-- g_broadcast_addr
abbrev pub broadcast_addr : List ℕ
broadcast_addr = 255 ∷ 255 ∷ 255 ∷ 255 ∷ 255 ∷ 255 ∷ []

abbrev destination : Option (List ℕ) → List ℕ
destination none = broadcast_addr
destination (some mac) = mac

-- The payload; `none` is a NULL pointer.
abbrev copy_payload : Bytes → Option Bytes → ℕ → Bytes
copy_payload m none n = m
copy_payload m (some p) n = memcpy m 26 p 0 n

module _ (sock : RawSocket) where
  -- The headers, as they are written into the memory that malloc returned.
  header : Bytes → List ℕ → ℕ → ℕ → Bytes
  header buffer dest pkt_type payload_len =
      let m1 = memcpy buffer 6 (of_list sock.if_addr) 0 6 in
      let m2 = memcpy m1 0 (of_list dest) 0 6 in
      let m3 = store16 m2 12 sock.ethertype in
      let m4 = store32 m3 14 packet_signature in
      let m5 = store32 m4 18 sock.session_id in
      let m6 = store16 m5 22 payload_len in store16 m6 24 pkt_type

  -- `buffer` is the memory that malloc returned; `none` is the failed assertion.
  unfoldable pub send_packet :
      (buffer : Bytes) → Option (List ℕ) → ℕ → Option Bytes → ℕ → Option Sent
  unfolding header
  send_packet buffer dest_mac_addr pkt_type payload payload_len =
      let dest = destination dest_mac_addr in
      if leb payload_len max_payload_length
      then some (record {
        to = dest;
        frame = copy_payload (header buffer dest pkt_type payload_len) payload payload_len;
        len = combined_header_len + payload_len;
      })
      else none

  abbrev send_ping : Bytes → Option (List ℕ) → Option Sent
  send_ping buffer dest =
      send_packet buffer dest v1_ping (some (of_list (b'P' ∷ b'I' ∷ b'N' ∷ b'G' ∷ []))) 4

  unfoldable pub send_status_req : Bytes → Option (List ℕ) → Option Sent
  send_status_req buffer dest = send_packet buffer dest v1_status_req none 0

  unfoldable pub send_session_start : Bytes → Option (List ℕ) → Option Sent
  send_session_start buffer dest = send_packet buffer dest v1_session_start none 0

  unfoldable pub send_keystrokes : Bytes → Option (List ℕ) → ℕ → Bytes → Option Sent
  send_keystrokes buffer dest count keys =
      send_packet buffer dest v1_inject_keystroke (some keys) (count * keystroke_len)
