-- ===== src/Display/Packet.antt =====
-- A packet of src/server/session.c on the client's terminal, through process_incoming_video_text of
-- src/client/main.c and update_session_window of src/client/curses.c.
use rmtdos.Base.{ℕ, ◌+◌, ◌-◌, ◌*◌, ◌<◌, ◌≤◌, ◌≡◌, ap, sym, ◌∙◌, some, arith, get_elem?, List}
use rmtdos.Base.Memory.{Bytes}
use rmtdos.Wire.{dest_mac_addr, session_id}
use rmtdos.Network.{RawSocket}
use rmtdos.Hostlist.{RemoteHost, hostlist_find_by_mac}
use rmtdos.Protocol.{Env}
use rmtdos.Broadcast.{chunk_at, video_word}
use rmtdos.Broadcast.Cover.{IsText, chunk_at_lem}
use rmtdos.Broadcast.Frames.{Shows}
use rmtdos.Client.{Client, process_socket_io, video_text_buffer_len}
use rmtdos.Client.Screen.{frame_shown}
use rmtdos.Client.Mirror.{bytes_to, chunk_place}
use rmtdos.Display.Window.{Window, update_session_window}
use rmtdos.Display.Rows.{Presented, update-Updates}

-- The bytes of a chunk, by their place in the buffer.
copied :
    (buffer frame : Bytes) (offset count : ℕ)
    → ((k : ℕ) → k < count → buffer (offset + k) ≡ frame (offset + k))
    → (at : ℕ) → offset ≤ at
    → at < offset + count
    → buffer at ≡ frame at
copied buffer frame offset count same at low high =
    let e : offset + (at - offset) ≡ at = omega arith in
    ap buffer (sym e) ∙ same (at - offset) (omega arith) ∙ ap frame e

module _ (rs : RawSocket) (env : Env) (frame : Bytes) (row : ℕ) (f : Bytes) (now : ℕ) (c : Client)
    (received i : ℕ) (rh : RemoteHost) (table : ℕ → List ℕ) (colors : ℕ → ℕ) (w : Window)
    (fuel : ℕ) where
  -- A packet from a known server, to the client and in its session, that shows the chunk of a row, on
  -- a text screen with columns and smaller than the client's buffer: update_session_window for the
  -- packet returns, on fuel above the number of its characters. Where the window has a place for it,
  -- each character of the packet's rows is shown as the string of its code in its colours, the margin
  -- at the right of the screen is empty, the line below the screen is a separator, and the cursor is at
  -- its place, which shows no character. The screen's other cells are as before.
  pub packet_shown :
      IsText env.video
      → bytes_to env.video env.video.text_rows ≤ video_text_buffer_len
      → row < env.video.text_rows
      → Shows env frame (chunk_at env.video row) f
      → 0 < received
      → dest_mac_addr f ≡ rs.if_addr
      → session_id f ≡ rs.session_id
      → hostlist_find_by_mac c.hosts env.mac_addr ≡ some i
      → get_elem? c.hosts i ≡ some (some rh)
      → (chunk_at env.video row).word_count < fuel
      → (rh' : RemoteHost) × (w' : Window) × (get_elem?
            (process_socket_io rs now c received f).hosts
            i
          ≡ some (some rh'))
        × (update_session_window table colors rh' fuel
              (chunk_at env.video row).offset
              ((chunk_at env.video row).word_count * video_word)
              w
            ≡ some w')
        × Presented table colors frame row
            (row + (chunk_at env.video row).rows)
            w
            w'
            env.video.text_rows
            env.video.text_cols
            env.video.cursor_row
            env.video.cursor_col
  unfolding chunk_at
  packet_shown text fits on_screen shows some_bytes to in_session known at enough =
      let chunk = chunk_at env.video row in
      let cols = env.video.text_cols in
      let (place, joined, room) = chunk_place rs env frame row on_screen text fits in
      let inside = (chunk_at_lem env.video row text on_screen).1 in
      let (rh', slot, written, _, tall, wide, at_row, at_col, _) =
        frame_shown env frame chunk f rs now c received i rh shows some_bytes to in_session known at
          (omega (arith, place, joined, room)) in
      let from : 2 * (row * cols) ≡ chunk.offset = omega (arith, place) in
      let length : 2 * (chunk.rows * cols) ≡ chunk.word_count * video_word = omega (arith, place) in
      let (w', drawn, presented) =
        update-Updates table colors frame rh' row chunk.rows fuel w _ cols _ _ tall wide at_row
          at_col text.some_cols enough inside (omega (arith, place, joined, room))
          (λ at low high.
            copied rh'.video_text_buffer frame chunk.offset (chunk.word_count * video_word) written
              at (omega (arith, from)) (omega (arith, from, length))) in
      (
        rh',
        w',
        slot,
        ap (λ a. update_session_window table colors rh' fuel a (chunk.word_count * video_word) w)
              (sym from)
            ∙ ap (λ b. update_session_window table colors rh' fuel (2 * (row * cols)) b w)
                (sym length)
            ∙ drawn,
        presented,
      )
