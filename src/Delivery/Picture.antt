-- ===== src/Delivery/Picture.antt =====
-- The server's picture on the client's terminal, from the ticks of src/server/session.c to the
-- window of src/client/curses.c.
use rmtdos.Base.{
  ℕ, ◌+◌, ◌<◌, ◌≤◌, ◌≡◌, ◌≢◌, refl, true, false, some, List, [], ◌∷◌, ◌++◌, arith, get_elem?,
  length, ◌==◌,
}
use rmtdos.Base.Memory.{Bytes}
use rmtdos.Network.{RawSocket}
use rmtdos.Hostlist.{RemoteHost, hostlist_find_by_mac}
use rmtdos.Session.{Session, in_use}
use rmtdos.Protocol.{Env}
use rmtdos.Broadcast.{Screen, chunk_at}
use rmtdos.Broadcast.Cover.{IsText, chunk_at_lem}
use rmtdos.Broadcast.Frames.{WellFormed}
use rmtdos.Broadcast.Silence.{screen_checksum, next_row}
use rmtdos.Client.{Client, video_text_buffer_len}
use rmtdos.Client.Mirror.{bytes_to}
use rmtdos.Display.Window.{Window}
use rmtdos.Delivery.{run_ticks, arrive}
use rmtdos.Delivery.Terminal.{Terminal, receive_all}
use rmtdos.Delivery.Painted.{IsPainted}
use rmtdos.Delivery.Packets.{Painted}
use rmtdos.Delivery.Ticks.{InTime, no_byte, one_tick, later_ticks, join}

-- The checksum of the server's screen is not the one that the server keeps, and the next tick begins
-- at the top of the screen. From then on the timer ticks as often as the screen has rows, or more
-- often, with the screen standing still, and the session of the client does not time out. If
-- everything that is sent arrives, the packets for other clients too, the client, which knows the
-- server, has the whole screen, and its window shows it, as far as that has a place for it: every
-- character but the one under the cursor as the string of its code, in its colours, with nothing at
-- the right of the screen, a separator below it, and the cursor at its place. The screen has rows
-- and columns, both fewer than 256, and is no larger than the client's buffer; addresses, session
-- ids and the EtherType have their sizes.
pub picture_arrives :
    (rs : RawSocket) (glyphs : ℕ → List ℕ) (colors : ℕ → ℕ) (env : Env) (frame : Bytes)
    (time i j : ℕ) (s : Session) (ts : List ℕ) (st : Screen) (c : Client) (w : Window)
    (rh : RemoteHost)
    → length env.mac_addr ≡ 6
    → env.ethertype < 65536
    → IsText env.video
    → 0 < env.video.text_rows
    → bytes_to env.video env.video.text_rows ≤ video_text_buffer_len
    → WellFormed st.host.sessions
    → get_elem? st.host.sessions j ≡ some s
    → in_use s ≡ true
    → s.mac_addr ≡ rs.if_addr
    → s.session_id ≡ rs.session_id
    → InTime s ts
    → next_row env st ≡ 0
    → screen_checksum env frame ≢ st.video_chksum
    → env.video.text_rows ≤ length ts
    → hostlist_find_by_mac c.hosts env.mac_addr ≡ some i
    → get_elem? c.hosts i ≡ some (some rh)
    → (st' : Screen) × (fs : List (Bytes × ℕ)) × (rh' : RemoteHost) × (w' : Window) × (run_ticks env
          frame ts st
        ≡ some st')
      × (st'.host.sent ≡ st.host.sent ++ fs)
      × (let shown =
            receive_all rs glyphs colors
              (record { client = c; window = some w })
              (arrive time fs) in
          (get_elem? shown.client.hosts i ≡ some (some rh')) × (shown.window ≡ some w'))
      × ((k : ℕ) → k < bytes_to env.video env.video.text_rows → rh'.video_text_buffer k ≡ frame k)
      × IsPainted glyphs colors env frame w.lines w.columns w' env.video.text_rows
picture_arrives rs glyphs colors env frame time i j s [] st c w rh address type_fits text some_rows
      fits wf at on mac id fresh top changed enough known slot =
    absurd (omega arith)
picture_arrives rs glyphs colors env frame time i j s (t ∷ ts) st c w rh address type_fits text
      some_rows fits wf at on mac id fresh top changed enough known slot =
    let other : (screen_checksum env frame == st.video_chksum) ≡ false = ground arith in
    let start : Terminal = record { client = c; window = some w } in
    let m : Painted rs glyphs colors env frame i w.lines w.columns start 0 = record {
      rh = rh;
      mirrors = record { known = known; slot = slot; same = λ k below. absurd (no_byte env below) };
      w = w;
      on_window = refl;
      painted = record {
        size = (refl, refl);
        shown = λ y x under. absurd (omega arith);
        margin = λ some. absurd (omega arith);
        below = λ some. absurd (omega arith);
        cursor = λ some. absurd (omega arith);
      };
    } in
    let chunk = chunk_at_lem env.video 0 text some_rows in
    let moved =
      one_tick rs glyphs colors env frame time i w.lines w.columns j s address type_fits text
        some_rows fits on mac id t 0 st start (record { well_formed = wf; at_slot = at }) fresh.0
        top some_rows (rw other refl) refl m in
    let row : ℕ = 0 + (chunk_at env.video 0).rows in
    let rest =
      later_ticks rs glyphs colors env frame time i w.lines w.columns j s address type_fits text
        some_rows fits on mac id ts row moved.after.st'
        (receive_all rs glyphs colors start (arrive time moved.after.fs)) moved.table fresh.1
        moved.at_row (omega (arith, chunk.0)) moved.summed (omega arith) moved.after.has in
    let all =
      join rs glyphs colors env frame time i w.lines w.columns j s t row env.video.text_rows ts st
        start moved rest in
    let has = all.has in
    (
      all.st',
      all.fs,
      has.rh,
      has.w,
      all.returns,
      all.all_sent,
      (has.mirrors.slot, has.on_window),
      has.mirrors.same,
      has.painted,
    )
