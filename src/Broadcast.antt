-- ===== src/Broadcast.antt =====
-- session_mgr_update_all of src/server/session.c, with the checksum of src/lib16/video.s: on each
-- timer tick one chunk of the text screen goes to every client.
pub mod Cover
pub mod Frames
pub mod Silence
use rmtdos.Base.{
  ℕ, zero, suc, ◌+◌, ◌-◌, ◌*◌, ◌/◌, ◌%◌, Option, none, some, List, [], ◌∷◌, ltb, leb, ◌==◌, ◌&&◌,
  if◌then◌else◌,
}
use rmtdos.Base.Memory.{Bytes, memcpy, store8, store16, store32, of_list}
use rmtdos.Session.{Session, in_use, prune}
use rmtdos.Wire.{
  packet_signature, v1_vga_text, combined_header_len, video_text_len, eth_frame_len, payload,
}
use rmtdos.Protocol.{Env, Host, VideoState, call_pktdrv_send}

-- VIDEO_WORD
abbrev pub video_word : ℕ
video_word = 2

-- rol dx, #1
abbrev rotate_left : ℕ → ℕ
rotate_left x = x * 2 % 65536 + x / 32768

-- checksum_loop: `rounds` in CX, the source in SI, the sum in DX. The words of the video segment are
-- read with their bytes swapped.
checksum_loop : ℕ → Bytes → ℕ → ℕ → ℕ
checksum_loop zero frame si dx = dx
checksum_loop (suc rounds) frame si dx =
    checksum_loop rounds frame ((si + 2) % 65536)
      (rotate_left ((dx + (frame si * 256 + frame ((si + 1) % 65536))) % 65536))

-- The `loop` instruction counts CX down before it looks at it.
unfoldable pub video_checksum_frame_buffer : Bytes → ℕ → ℕ → ℕ
unfolding checksum_loop
video_checksum_frame_buffer frame offset words =
    checksum_loop (if words == 0 then 65536 else words) frame offset 0

-- The state between two ticks: the handlers' one, `video_chksum` and `video_next_row`.
pub record Screen : Type 0 where
  pub host : Host
  pub video_chksum : ℕ
  pub video_next_row : ℕ

-- What one packet carries: its first row, how many rows, where they begin and how long they are.
pub record Chunk : Type 0 where
  pub row : ℕ
  pub rows : ℕ
  pub offset : ℕ
  pub word_count : ℕ

-- The rows that fit into an Ethernet frame.
abbrev pub rows_per_frame : ℕ → ℕ
rows_per_frame text_cols =
    (eth_frame_len - (combined_header_len + video_text_len)) / (text_cols * video_word)

abbrev pub rows_from : VideoState → ℕ → ℕ
rows_from video row =
    if ltb video.text_rows (rows_per_frame video.text_cols + row)
    then video.text_rows - row
    else rows_per_frame video.text_cols

unfoldable pub chunk_at : VideoState → ℕ → Chunk
chunk_at video row = record {
  row = row;
  rows = rows_from video row;
  offset = row * video.text_cols * video_word % 65536;
  word_count = rows_from video row * video.text_cols;
}

abbrev pub payload_size : Chunk → ℕ
payload_size c = video_text_len + c.word_count * video_word

module _ (env : Env) (frame : Bytes) where
  -- The packet, but for the destination and the session.
  unfoldable pub compose : Bytes → Chunk → Bytes
  compose out c =
      let m1 = memcpy out 6 (of_list env.mac_addr) 0 6 in
      let m2 = store16 m1 12 env.ethertype in
      let m3 = store32 m2 14 packet_signature in
      let m4 = store16 m3 22 (payload_size c) in
      let m5 = store16 m4 24 v1_vga_text in
      let m6 = store8 m5 26 env.video.text_rows in
      let m7 = store8 m6 27 env.video.text_cols in
      let m8 = store8 m7 28 env.video.cursor_row in
      let m9 = store8 m8 29 env.video.cursor_col in
      let m10 = store16 m9 30 c.offset in
      let m11 = store16 m10 32 (c.word_count * video_word) in
      memcpy m11 34 (λ i. frame (i % 65536)) c.offset (c.word_count * video_word)

  -- The last loop: the same buffer, addressed to each session in use.
  unfoldable pub send_all : List Session → Host → ℕ → Host
  send_all [] h len = h
  send_all (s ∷ ss) h len =
      if in_use s
      then send_all ss
          (call_pktdrv_send h
            (store32 (memcpy h.send_buffer 0 (of_list s.mac_addr) 0 6) 18 s.session_id) len)
          len
      else send_all ss h len

  -- `none` is the fault of a division by zero, where the video state reports no columns.
  unfoldable pub session_mgr_update_all : Screen → Option Screen
  unfolding prune chunk_at compose send_all video_checksum_frame_buffer
  session_mgr_update_all st =
      let (sessions, active) = prune st.host.sessions env.now in
      let host = record st.host { sessions = sessions } in
      let row = if leb env.video.text_rows st.video_next_row then 0 else st.video_next_row in
      let current =
        video_checksum_frame_buffer frame 0
          (env.video.text_rows * env.video.text_cols * video_word % 65536) in
      let chunk = chunk_at env.video row in
      let composed = record host { send_buffer = compose host.send_buffer chunk } in
      if active == 0
      then some (record st { host = host; video_next_row = 0 })
      else if row == 0 && current == st.video_chksum
      then some (record st { host = host; video_next_row = row })
      else if env.video.text_cols == 0
      then none
      else some (record {
        host = send_all sessions composed (combined_header_len + payload_size chunk);
        video_chksum = if row == 0 then current else st.video_chksum;
        video_next_row = row + chunk.rows;
      })
