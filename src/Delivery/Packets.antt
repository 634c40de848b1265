-- ===== src/Delivery/Packets.antt =====
-- A packet of the server's screen to the client and its terminal.
use rmtdos.Base.{
  ℕ, ◌+◌, ◌*◌, ◌<◌, ◌≤◌, ◌≡◌, refl, ap, ◌∙◌, Option, none, some, List, true, false, arith, ◌==◌,
  ltb, bytes_eq, bytes_eq_iff, get_elem?,
}
use rmtdos.Base.Memory.{Bytes}
use rmtdos.Wire.{dest_mac_addr, src_mac_addr, session_id, pkt_type, v1_status_resp, v1_vga_text}
use rmtdos.Network.{RawSocket}
use rmtdos.Hostlist.{RemoteHost, Hosts, hostlist_find_by_mac}
use rmtdos.Protocol.{Env}
use rmtdos.Broadcast.{chunk_at, video_word}
use rmtdos.Broadcast.Cover.{IsText, chunk_at_lem}
use rmtdos.Broadcast.Frames.{Shows}
use rmtdos.Client.{
  Client, accepts, process_socket_io, video_text_buffer_len, video_count, video_offset,
}
use rmtdos.Client.Mirror.{Arrival, Mirrors, chunk-Mirrors, chunk_place, bytes_to, bytes_mono}
use rmtdos.Display.Window.{Window, update_session_window}
use rmtdos.Display.Packet.{packet_shown}
use rmtdos.Delivery.Terminal.{Terminal, draw_packet, draw_text, receive}
use rmtdos.Delivery.Painted.{IsPainted, Presented-IsPainted}

not_taken :
    (rs : RawSocket) (time : ℕ) (c : Client) (len : ℕ) (f : Bytes)
    → accepts rs f ≡ false
    → process_socket_io rs time c len f ≡ c
unfolding process_socket_io
not_taken rs time c len f no_match = rw no_match (ground arith)

module _ (rs : RawSocket) (table : ℕ → List ℕ) (colors : ℕ → ℕ) (env : Env) (screen : Bytes)
    (i lines columns : ℕ) where
  -- The client and its terminal have the server's screen down to a row.
  pub record Painted (t : Terminal) (row : ℕ) : Type 0 where
    pub rh : RemoteHost
    pub mirrors : Mirrors rs env screen t.client i row rh
    pub w : Window
    pub on_window : t.window ≡ some w
    pub painted : IsPainted table colors env screen lines columns w row

  -- What the handler draws for a packet that shows a chunk of a known server.
  drawn :
      (row : ℕ) (a : Arrival) (c : Client) (rh' : RemoteHost) (w w' : Window)
      → (chunk_at env.video row).offset + (chunk_at env.video row).word_count * video_word
        ≤ video_text_buffer_len
      → Shows env screen (chunk_at env.video row) a.frame
      → 0 < a.received
      → dest_mac_addr a.frame ≡ rs.if_addr
      → session_id a.frame ≡ rs.session_id
      → hostlist_find_by_mac c.hosts env.mac_addr ≡ some i
      → get_elem? (process_socket_io rs a.now c a.received a.frame).hosts i ≡ some (some rh')
      → update_session_window table colors rh' video_text_buffer_len
          (chunk_at env.video row).offset
          ((chunk_at env.video row).word_count * video_word)
          w
        ≡ some w'
      → draw_packet rs table colors c.hosts
          (process_socket_io rs a.now c a.received a.frame).hosts
          a.received
          a.frame
          (some w)
        ≡ some w'
  unfolding draw_packet
  drawn row a c rh' w w' fits shows some_bytes to in_session known slot update =
      let f = a.frame in
      let mine : bytes_eq (dest_mac_addr f) rs.if_addr ≡ true =
        (bytes_eq_iff (dest_mac_addr f) rs.if_addr).1 to in
      let taken : accepts rs f ≡ true = ground (arith, mine, shows.signed, in_session) in
      let came : (a.received == 0) ≡ false = ground arith in
      let kind : (pkt_type f == v1_status_resp) ≡ false = ground (arith, shows.kind) in
      let text : (pkt_type f == v1_vga_text) ≡ true = ground (arith, shows.kind) in
      let found : hostlist_find_by_mac c.hosts (src_mac_addr f) ≡ some i =
        ap (hostlist_find_by_mac c.hosts) shows.from ∙ known in
      let inside : ltb video_text_buffer_len (video_count f + video_offset f) ≡ false =
        ground (arith, shows.offset, shows.count) in
      let drawing : update_session_window table colors rh' video_text_buffer_len (video_offset f)
            (video_count f) w
          ≡ some w' =
        ap (λ o. update_session_window table colors rh' video_text_buffer_len o (video_count f) w)
          shows.offset
        ∙ ap
            (λ n.
              update_session_window table colors rh' video_text_buffer_len
                (chunk_at env.video row).offset n w)
            shows.count
        ∙ update in
      rw (came, taken, kind, text, draw_text, found, inside, slot) drawing

  -- Its packet brings a chunk's rows to the client and to its terminal.
  pub packet-Painted :
      (row : ℕ) (t : Terminal) (a : Arrival)
      → IsText env.video
      → bytes_to env.video env.video.text_rows ≤ video_text_buffer_len
      → row < env.video.text_rows
      → Shows env screen (chunk_at env.video row) a.frame
      → 0 < a.received
      → dest_mac_addr a.frame ≡ rs.if_addr
      → session_id a.frame ≡ rs.session_id
      → Painted t row
      → Painted (receive rs table colors t a) (row + (chunk_at env.video row).rows)
  unfolding receive
  packet-Painted row t a text fits lt shows some_bytes to in_session p =
      let chunk = chunk_at env.video row in
      let (place, joined, room) = chunk_place rs env screen row lt text fits in
      let (rh1, m1) =
        chunk-Mirrors rs env screen row t.client a i p.rh text fits lt shows some_bytes to
          in_session p.mirrors in
      let (rh', w', slot, update, presented) =
        packet_shown rs env screen row a.frame a.now t.client a.received i p.rh table colors p.w
          video_text_buffer_len text fits lt shows some_bytes to in_session p.mirrors.known
          p.mirrors.slot (omega (arith, place, joined, room)) in
      record {
        rh = rh1;
        mirrors = m1;
        w = w';
        on_window =
            ap (draw_packet rs table colors t.client.hosts _ a.received a.frame) p.on_window
            ∙ drawn row a t.client rh' p.w w' (omega (arith, place, joined, room)) shows some_bytes
                to in_session p.mirrors.known slot update;
        painted =
            Presented-IsPainted table colors env screen lines columns p.w w' row chunk.rows lt
              (chunk_at_lem env.video row text lt).0 p.painted presented;
      }

  undrawn :
      (hosts hosts' : Hosts) (received : ℕ) (f : Bytes) (window : Option Window)
      → accepts rs f ≡ false
      → draw_packet rs table colors hosts hosts' received f window ≡ window
  unfolding draw_packet
  undrawn hosts hosts' received f none other = refl
  undrawn hosts hosts' received f (some w) other = rw other (ground arith)

  -- A packet that is not for the client changes nothing.
  pub not_received :
      (t : Terminal) (a : Arrival) → accepts rs a.frame ≡ false → receive rs table colors t a ≡ t
  unfolding receive
  not_received t a other =
      let c' = process_socket_io rs a.now t.client a.received a.frame in
      let drawn : Option Window =
        draw_packet rs table colors t.client.hosts c'.hosts a.received a.frame t.window in
      let same : c' ≡ t.client = not_taken rs a.now t.client a.received a.frame other in
      ap (λ (c : Client). record { client = c; window = drawn }) same
      ∙ ap (λ (w : Option Window). record { client = t.client; window = w })
          (undrawn t.client.hosts c'.hosts a.received a.frame t.window other)

  pub Painted-weaken : {t : Terminal} (m n : ℕ) → m ≤ n → Painted t n → Painted t m
  Painted-weaken m n le p = record {
    rh = p.rh;
    mirrors = record {
      known = p.mirrors.known;
      slot = p.mirrors.slot;
      same = λ k below. p.mirrors.same k (omega (arith, bytes_mono env.video le));
    };
    w = p.w;
    on_window = p.on_window;
    painted = record {
      size = p.painted.size;
      shown = λ y x under. p.painted.shown y x (omega arith);
      margin = λ some. p.painted.margin (omega arith);
      below = λ some. p.painted.below (omega arith);
      cursor = λ some. p.painted.cursor (omega arith);
    };
  }
