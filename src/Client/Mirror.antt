-- ===== src/Client/Mirror.antt =====
-- src/client/main.c on the packets of session_mgr_update_all in src/server/session.c: the server's screen
-- appears in the client.
use rmtdos.Base.{
  ℕ, ◌+◌, ◌-◌, ◌*◌, ◌<◌, ◌≤◌, ◌≡◌, ap, sym, ◌∙◌, some, arith, ltb, Bool-cases, get_elem?, inl, inr,
  ltb→lt,
}
use native.Mathlib.Nat.{mul-le-mul_right, add-mul}
use rmtdos.Base.Memory.{Bytes}
use rmtdos.Wire.{dest_mac_addr, session_id}
use rmtdos.Network.{RawSocket}
use rmtdos.Hostlist.{RemoteHost, hostlist_find_by_mac}
use rmtdos.Protocol.{Env, VideoState}
use rmtdos.Broadcast.{chunk_at, rows_from, video_word}
use rmtdos.Broadcast.Cover.{IsText, chunk_at_lem}
use rmtdos.Broadcast.Frames.{Shows}
use rmtdos.Client.{Client, process_socket_io, video_text_buffer_len}
use rmtdos.Client.Screen.{frame_shown, frame_known}

-- What recvfrom returned, at which time, and how many bytes.
pub record Arrival : Type 0 where
  pub frame : Bytes
  pub received : ℕ
  pub now : ℕ

-- The bytes of the text screen down to a row.
abbrev pub bytes_to : VideoState → ℕ → ℕ
bytes_to video row = row * video.text_cols * video_word

pub bytes_mono : (video : VideoState) {m n : ℕ} → m ≤ n → bytes_to video m ≤ bytes_to video n
bytes_mono video le = mul-le-mul_right video_word (mul-le-mul_right video.text_cols le)

module _ (rs : RawSocket) where
  module _ (env : Env) (screen : Bytes) where
    -- The client has the screen down to a row.
    pub record Mirrors (c : Client) (i row : ℕ) (rh : RemoteHost) : Type 0 where
      pub known : hostlist_find_by_mac c.hosts env.mac_addr ≡ some i
      pub slot : get_elem? c.hosts i ≡ some (some rh)
      pub same : (k : ℕ) → k < bytes_to env.video row → rh.video_text_buffer k ≡ screen k

    -- A chunk lies between its first row and the next.
    pub chunk_place :
        (row : ℕ)
        → row < env.video.text_rows
        → IsText env.video
        → bytes_to env.video env.video.text_rows ≤ video_text_buffer_len
        → ((chunk_at env.video row).offset ≡ bytes_to env.video row)
          × (bytes_to env.video row + (chunk_at env.video row).word_count * video_word
              ≡ bytes_to env.video (row + (chunk_at env.video row).rows))
          × (bytes_to env.video (row + (chunk_at env.video row).rows) ≤ video_text_buffer_len)
    unfolding chunk_at
    chunk_place row lt text fits =
        let cols = env.video.text_cols in
        let inside = (chunk_at_lem env.video row text lt).1 in
        let whole : bytes_to env.video (row + rows_from env.video row)
            ≤ bytes_to env.video env.video.text_rows =
          bytes_mono env.video inside in
        let part : bytes_to env.video row ≤ bytes_to env.video env.video.text_rows =
          bytes_mono env.video (omega arith) in
        let joined = add-mul row (rows_from env.video row) cols in
        (omega (arith, part), omega (arith, joined), omega (arith, whole))

    -- One packet.
    pub chunk-Mirrors :
        (row : ℕ) (c : Client) (a : Arrival) (i : ℕ) (rh : RemoteHost)
        → IsText env.video
        → bytes_to env.video env.video.text_rows ≤ video_text_buffer_len
        → row < env.video.text_rows
        → Shows env screen (chunk_at env.video row) a.frame
        → 0 < a.received
        → dest_mac_addr a.frame ≡ rs.if_addr
        → session_id a.frame ≡ rs.session_id
        → Mirrors c i row rh
        → (rh' : RemoteHost) × Mirrors
            (process_socket_io rs a.now c a.received a.frame)
            i
            (row + (chunk_at env.video row).rows)
            rh'
    chunk-Mirrors row c a i rh text fits lt shows some_bytes to in_session m =
        let chunk = chunk_at env.video row in
        let (start, joined, room) = chunk_place row lt text fits in
        let fit : chunk.offset + chunk.word_count * video_word ≤ video_text_buffer_len =
          omega (arith, start, joined, room) in
        let (rh', slot, written, kept, _, _, _, _, _) =
          frame_shown env screen chunk a.frame rs a.now c a.received i rh shows some_bytes to
            in_session m.known m.slot fit in
        (
          rh',
          record {
            known =
                frame_known env screen chunk a.frame rs a.now c a.received i rh shows some_bytes to
                  in_session m.known m.slot fit;
            slot = slot;
            same = λ k below. elim (Bool-cases (ltb k chunk.offset)) [
              | inl before ↦
                  kept k (inl (ltb→lt k chunk.offset before))
                  ∙ m.same k (omega (arith, ltb→lt k chunk.offset before, start))
              | inr behind ↦
                  let from : chunk.offset + (k - chunk.offset) ≡ k = ground arith in
                  let inside : k - chunk.offset < chunk.word_count * video_word =
                    ground (arith, start, joined) in
                  ap rh'.video_text_buffer (sym from)
                  ∙ written (k - chunk.offset) inside
                  ∙ ap screen from
            ];
          },
        )
