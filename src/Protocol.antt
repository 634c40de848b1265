-- ===== src/Protocol.antt =====
-- src/server/protocol.c: how the server answers packets. A call of pktdrv_send is kept as the contents
-- of g_send_buffer and the length it is given, a call of x86_inject_keystroke as its arguments.
pub mod Replies
pub mod Starts
pub mod Keys
pub mod Process
use rmtdos.Base.{
  ℕ, zero, suc, ◌+◌, ◌*◌, ◌/◌, ◌%◌, Option, none, some, List, [], ◌∷◌, ◌++◌, ltb, ◌==◌,
  if◌then◌else◌,
}
use rmtdos.Base.Memory.{Bytes, memcpy, memset, store8, store16, store32, of_list}
use rmtdos.Bufmgr.{Bufmgr, buffer_get_ready, buffer_release}
use rmtdos.Session.{Session, session_mgr_start}
use rmtdos.Wire.{
  packet_signature, signature, pkt_type, payload_len, v1_ping, v1_pong, v1_status_req,
  v1_status_resp, v1_session_start, v1_inject_keystroke, combined_header_len, max_payload_length,
  status_response_len, keystroke_len, payload,
}

-- `struct VideoState` of src/lib16/video.h
pub record VideoState : Type 0 where
  pub video_mode : ℕ
  pub active_page : ℕ
  pub text_rows : ℕ
  pub text_cols : ℕ
  pub cursor_row : ℕ
  pub cursor_col : ℕ

-- `struct Keystroke` of src/common/protocol.h
pub record Keystroke : Type 0 where
  pub bios_scan_code : ℕ
  pub ascii_value : ℕ
  pub flags_17 : ℕ

-- What the handlers work on: the session table, g_send_buffer, and what they did to the outside.
pub record Host : Type 0 where
  pub sessions : List Session
  pub send_buffer : Bytes
  pub sent : List (Bytes × ℕ)
  pub keys : List Keystroke

-- What they read: g_pktdrv_info.mac_addr, g_ethertype, the BIOS clock and the video state.
pub record Env : Type 0 where
  pub mac_addr : List ℕ
  pub ethertype : ℕ
  pub now : ℕ
  pub video : VideoState

-- pktdrv_send(g_send_buffer, length); Pktdrv has what this makes of it: the length is raised to 60 there.
abbrev pub call_pktdrv_send : Host → Bytes → ℕ → Host
call_pktdrv_send h buffer length = record h {
  send_buffer = buffer;
  sent = h.sent ++ ((buffer, length) ∷ []);
}

module _ (env : Env) where
  -- The reply's headers but for type and length, with the payload zeroed.
  abbrev pub prep_for_reply : Bytes → Bytes → Bytes
  prep_for_reply out packet =
      let m1 = memcpy out 0 packet 6 6 in
      let m2 = memcpy m1 6 (of_list env.mac_addr) 0 6 in
      let m3 = store16 m2 12 env.ethertype in
      let m4 = memcpy m3 18 packet 18 4 in
      let m5 = memset m4 payload 0 max_payload_length in store32 m5 14 packet_signature

  -- MIN(MAX_PAYLOAD_LENGTH, ntohs(in_ph->payload_len))
  abbrev pub echoed_len : Bytes → ℕ
  echoed_len packet =
      if ltb max_payload_length (payload_len packet) then max_payload_length else payload_len packet

  pub handle_ping : Host → ℕ → Bytes → Host
  handle_ping h bytes packet =
      let m1 = prep_for_reply h.send_buffer packet in
      let m2 = store16 m1 24 v1_pong in
      let m3 = store16 m2 22 (echoed_len packet) in
      call_pktdrv_send h (memcpy m3 payload packet payload (echoed_len packet)) bytes

  pub handle_status_req : Host → Bytes → Host
  handle_status_req h packet =
      let m1 = prep_for_reply h.send_buffer packet in
      let m2 = store16 m1 24 v1_status_resp in
      let m3 = store16 m2 22 status_response_len in
      let m4 = store8 m3 payload env.video.video_mode in
      let m5 = store8 m4 27 env.video.active_page in
      let m6 = store8 m5 28 env.video.text_rows in
      let m7 = store8 m6 29 env.video.text_cols in
      let m8 = store8 m7 30 env.video.cursor_row in
      let m9 = store8 m8 31 env.video.cursor_col in
      call_pktdrv_send h m9 (combined_header_len + status_response_len)

  -- The keystroke that stands at an offset: a 16-bit PC stores the low byte of `flags_17` first.
  abbrev pub keystroke_at : Bytes → ℕ → Keystroke
  keystroke_at m at = record {
    bios_scan_code = m at;
    ascii_value = m (at + 1);
    flags_17 = m (at + 2) + 256 * m (at + 3);
  }

  -- The arguments of x86_inject_keystroke, whose `flags_17` is a byte.
  abbrev pub passed : Keystroke → Keystroke
  passed k = record k { flags_17 = k.flags_17 % 256 }

  -- for (; key_count; ++in_keys, --key_count)
  inject : ℕ → Bytes → ℕ → List Keystroke
  inject zero m at = []
  inject (suc key_count) m at = passed (keystroke_at m at) ∷ inject key_count m (at + keystroke_len)

  pub handle_inject_keystroke : Host → Bytes → Host
  unfolding inject
  handle_inject_keystroke h packet = record h {
    keys = h.keys ++ inject (payload_len packet / keystroke_len) packet payload;
  }

  -- The switch of protocol_process.
  pub dispatch : Host → ℕ → Bytes → Host
  unfolding handle_ping handle_status_req handle_inject_keystroke session_mgr_start
  dispatch h bytes packet =
      if pkt_type packet == v1_ping
      then handle_ping h bytes packet
      else if pkt_type packet == v1_status_req
      then handle_status_req h packet
      else if pkt_type packet == v1_session_start
      then record h { sessions = (session_mgr_start h.sessions packet env.now).0 }
      else if pkt_type packet == v1_inject_keystroke
      then handle_inject_keystroke h packet
      else h

  -- A packet without the signature is skipped.
  pub handle : Host → ℕ → Bytes → Host
  unfolding dispatch
  handle h bytes packet =
      if signature packet == packet_signature then dispatch h bytes packet else h

  -- The loop of protocol_process, on fuel; `none` means that the fuel ran out.
  pub protocol_process : ℕ → Bufmgr → Host → Option (Bufmgr × Host)
  protocol_process zero m h = none
  protocol_process (suc fuel) m h =
      let (m', buffer) = buffer_get_ready m in
      let h' = handle h (m'.cell buffer).bytes (m'.cell buffer).data_area in
      let rest = protocol_process fuel (buffer_release m' buffer) h' in
      if buffer == 0 then some (m', h) else rest
