-- ===== src/Wire.antt =====
-- src/common/protocol.h and ethernet.h: the frame that client and server exchange, as offsets into
-- its bytes. All multi-byte fields are in network byte order.
pub mod Fields
use rmtdos.Base.{ℕ, ◌+◌, ◌-◌, List}
use rmtdos.Base.Memory.{Bytes, slice, load16, load32}

-- ETH_ALEN and ETH_FRAME_LEN
abbrev pub eth_alen : ℕ
eth_alen = 6

abbrev pub eth_frame_len : ℕ
eth_frame_len = 1514

-- ETHERTYPE_RMTDOS
abbrev pub ethertype_rmtdos : ℕ
ethertype_rmtdos = 0x80ab

-- PACKET_SIGNATURE
abbrev pub packet_signature : ℕ
packet_signature = 0x7b6e05b0

-- `enum PKT_TYPE`
abbrev pub v1_noop : ℕ
v1_noop = 0

abbrev pub v1_ping : ℕ
v1_ping = 1

abbrev pub v1_pong : ℕ
v1_pong = 2

abbrev pub v1_status_req : ℕ
v1_status_req = 3

abbrev pub v1_status_resp : ℕ
v1_status_resp = 4

abbrev pub v1_session_start : ℕ
v1_session_start = 5

abbrev pub v1_vga_text : ℕ
v1_vga_text = 6

abbrev pub v1_inject_keystroke : ℕ
v1_inject_keystroke = 7

-- sizeof(struct EthernetHeader), and of it with struct ProtocolHeader
abbrev pub ethernet_header_len : ℕ
ethernet_header_len = 14

abbrev pub combined_header_len : ℕ
combined_header_len = 26

-- MAX_PAYLOAD_LENGTH
abbrev pub max_payload_length : ℕ
max_payload_length = eth_frame_len - combined_header_len

-- sizeof(struct StatusResponse), sizeof(struct VideoText) and sizeof(struct Keystroke)
abbrev pub status_response_len : ℕ
status_response_len = 6

abbrev pub video_text_len : ℕ
video_text_len = 8

abbrev pub keystroke_len : ℕ
keystroke_len = 4

-- The fields of `struct EthernetHeader`.
abbrev pub dest_mac_addr : Bytes → List ℕ
dest_mac_addr m = slice m 0 eth_alen

abbrev pub src_mac_addr : Bytes → List ℕ
src_mac_addr m = slice m 6 eth_alen

abbrev pub ethertype : Bytes → ℕ
ethertype m = load16 m 12

-- The fields of `struct ProtocolHeader`.
abbrev pub signature : Bytes → ℕ
signature m = load32 m 14

abbrev pub session_id : Bytes → ℕ
session_id m = load32 m 18

abbrev pub payload_len : Bytes → ℕ
payload_len m = load16 m 22

abbrev pub pkt_type : Bytes → ℕ
pkt_type m = load16 m 24

-- Where the payload begins.
abbrev pub payload : ℕ
payload = combined_header_len
