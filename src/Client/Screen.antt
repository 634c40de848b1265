-- ===== src/Client/Screen.antt =====
-- process_incoming_video_text of src/client/main.c: the server's screen in the client's buffer.
use rmtdos.Base.{
  ℕ, zero, suc, ◌+◌, ◌*◌, ◌%◌, ◌<◌, ◌≤◌, ◌≡◌, refl, ap, sym, ◌∙◌, true, false, none, some, [], ◌∷◌,
  arith, ◌==◌, ltb, bytes_eq, bytes_eq_iff, get_elem?, set, inl, inr, ◌⊎◌, Bool-cases, Option-cases,
  get_elem?-set_self, get_elem?-in_range,
}
use rmtdos.Base.Memory.{Bytes, memcpy}
use rmtdos.Wire.{dest_mac_addr, src_mac_addr, session_id, pkt_type, v1_status_resp, v1_vga_text}
use rmtdos.Network.{RawSocket}
use rmtdos.Hostlist.{RemoteHost, Hosts, hostlist_find_by_mac, modify}
use rmtdos.Hostlist.Slots.{modify_used, modify-set, find-set_same}
use rmtdos.Protocol.{Env}
use rmtdos.Broadcast.{Chunk, video_word}
use rmtdos.Broadcast.Frames.{Shows}
use rmtdos.Client.{
  Client, process_incoming_video_text, process_socket_io, accepts, show_text, video_text_buffer_len,
  video_offset, video_count,
}

memcpy_inside :
    (dest : Bytes) (at : ℕ) (src : Bytes) (from n k : ℕ)
    → k < n
    → memcpy dest at src from n (at + k) ≡ src (from + k)
memcpy_inside dest at src from n k lt = ground arith

memcpy_outside :
    (dest : Bytes) (at : ℕ) (src : Bytes) (from n k : ℕ)
    → (k < at) ⊎ (at + n ≤ k)
    → memcpy dest at src from n k ≡ dest k
memcpy_outside dest at src from n k (inl before) = ground arith
memcpy_outside dest at src from n k (inr behind) = ground arith

-- The text that a packet brings is written to the slot of its sender, unless it reaches behind the
-- buffer; the time is noted in either case.
incoming :
    (now : ℕ) (hosts : Hosts) (buf : Bytes) (i : ℕ) (rh : RemoteHost)
    → hostlist_find_by_mac hosts (src_mac_addr buf) ≡ some i
    → get_elem? hosts i ≡ some (some rh)
    → ltb video_text_buffer_len (video_count buf + video_offset buf) ≡ false
    → process_incoming_video_text now hosts buf
      ≡ set hosts i (some (show_text buf (record rh { tv_last_resp = now })))
unfolding process_incoming_video_text
incoming now hosts buf i rh found at fits =
    let timed = record rh { tv_last_resp = now } in
    let first : modify hosts i (λ h. record h { tv_last_resp = now }) ≡ set hosts i (some timed) =
      modify_used hosts i (λ h. record h { tv_last_resp = now }) at in
    rw (found, process_incoming_video_text, fits, first) (modify-set hosts i timed (show_text buf))

module _ (env : Env) (frame : Bytes) (chunk : Chunk) (f : Bytes) (rs : RawSocket) (now : ℕ)
    (c : Client) (received i : ℕ) (rh : RemoteHost) where
  -- What process_socket_io makes of the list of hosts.
  frame_taken :
      Shows env frame chunk f
      → 0 < received
      → dest_mac_addr f ≡ rs.if_addr
      → session_id f ≡ rs.session_id
      → hostlist_find_by_mac c.hosts env.mac_addr ≡ some i
      → get_elem? c.hosts i ≡ some (some rh)
      → chunk.offset + chunk.word_count * video_word ≤ video_text_buffer_len
      → (process_socket_io rs now c received f).hosts
        ≡ set c.hosts i (some (show_text f (record rh { tv_last_resp = now })))
  unfolding process_socket_io
  frame_taken shows some_bytes to in_session known at fits =
      let mine : bytes_eq (dest_mac_addr f) rs.if_addr ≡ true =
        (bytes_eq_iff (dest_mac_addr f) rs.if_addr).1 to in
      let taken : accepts rs f ≡ true = ground (arith, mine, shows.signed, in_session) in
      let came : (received == 0) ≡ false = ground arith in
      let kind : (pkt_type f == v1_status_resp) ≡ false = ground (arith, shows.kind) in
      let text : (pkt_type f == v1_vga_text) ≡ true = ground (arith, shows.kind) in
      let found : hostlist_find_by_mac c.hosts (src_mac_addr f) ≡ some i =
        ap (hostlist_find_by_mac c.hosts) shows.from ∙ known in
      let inside : ltb video_text_buffer_len (video_count f + video_offset f) ≡ false =
        ground (arith, shows.offset, shows.count) in
      rw (came, taken, kind, text) (incoming now c.hosts f i rh found at inside)

  -- The server is still found where it was.
  pub frame_known :
      Shows env frame chunk f
      → 0 < received
      → dest_mac_addr f ≡ rs.if_addr
      → session_id f ≡ rs.session_id
      → hostlist_find_by_mac c.hosts env.mac_addr ≡ some i
      → get_elem? c.hosts i ≡ some (some rh)
      → chunk.offset + chunk.word_count * video_word ≤ video_text_buffer_len
      → hostlist_find_by_mac (process_socket_io rs now c received f).hosts env.mac_addr ≡ some i
  frame_known shows some_bytes to in_session known at fits =
      ap (λ hs. hostlist_find_by_mac hs env.mac_addr)
        (frame_taken shows some_bytes to in_session known at fits)
      ∙ find-set_same c.hosts i env.mac_addr (show_text f (record rh { tv_last_resp = now })) at
          refl
      ∙ known

-- A packet from a known server, to the client and in its session, that shows a chunk of the
-- server's screen and does not reach behind the client's buffer, puts the chunk's bytes where the
-- server has them, leaves all the other bytes alone, and takes over the size of the screen, the
-- cursor and the time.
pub frame_shown :
    (env : Env) (frame : Bytes) (chunk : Chunk) (f : Bytes) (rs : RawSocket) (now : ℕ) (c : Client)
    (received i : ℕ) (rh : RemoteHost)
    → Shows env frame chunk f
    → 0 < received
    → dest_mac_addr f ≡ rs.if_addr
    → session_id f ≡ rs.session_id
    → hostlist_find_by_mac c.hosts env.mac_addr ≡ some i
    → get_elem? c.hosts i ≡ some (some rh)
    → chunk.offset + chunk.word_count * video_word ≤ video_text_buffer_len
    → (rh' : RemoteHost) × (get_elem? (process_socket_io rs now c received f).hosts i
        ≡ some (some rh'))
      × ((k : ℕ)
          → k < chunk.word_count * video_word
          → rh'.video_text_buffer (chunk.offset + k) ≡ frame (chunk.offset + k))
      × ((k : ℕ)
          → (k < chunk.offset) ⊎ (chunk.offset + chunk.word_count * video_word ≤ k)
          → rh'.video_text_buffer k ≡ rh.video_text_buffer k)
      × (rh'.text_rows ≡ env.video.text_rows)
      × (rh'.text_cols ≡ env.video.text_cols)
      × (rh'.status.cursor_row ≡ env.video.cursor_row)
      × (rh'.status.cursor_col ≡ env.video.cursor_col)
      × (rh'.tv_last_resp ≡ now)
frame_shown env frame chunk f rs now c received i rh shows some_bytes to in_session known at fits =
    let taken =
      frame_taken env frame chunk f rs now c received i rh shows some_bytes to in_session known at
        fits in
    let shown = show_text f (record rh { tv_last_resp = now }) in
    let start : video_offset f ≡ chunk.offset = shows.offset in
    let many : video_count f ≡ chunk.word_count * video_word = shows.count in
    (
      shown,
      ap (λ hs. get_elem? hs i) taken
          ∙ get_elem?-set_self c.hosts i (some shown) (get_elem?-in_range c.hosts i at),
      λ k lt.
          let here : k < video_count f = omega (arith, many) in
          let same : (chunk.offset + k) % 65536 ≡ chunk.offset + k = omega arith in
          ap (λ o. memcpy rh.video_text_buffer (video_offset f) f 34 (video_count f) (o + k))
            (sym start)
          ∙ memcpy_inside rh.video_text_buffer (video_offset f) f 34 (video_count f) k here
          ∙ shows.content k lt
          ∙ ap frame same,
      λ k outside.
          memcpy_outside rh.video_text_buffer (video_offset f) f 34 (video_count f) k
            (rw (start, many) outside),
      shows.text_rows,
      shows.text_cols,
      shows.cursor_row,
      shows.cursor_col,
      refl,
    )

-- A write through one pointer, seen from a slot in use.
modify_each :
    (hosts : Hosts) (j i : ℕ) (f : RemoteHost → RemoteHost) (rh : RemoteHost)
    → get_elem? hosts i ≡ some (some rh)
    → (rh' : RemoteHost) × (get_elem? (modify hosts j f) i ≡ some (some rh'))
      × ((rh' ≡ rh) ⊎ (rh' ≡ f rh))
unfolding modify
modify_each [] j i f rh at = cc
modify_each (none ∷ hosts) zero i f rh at = (rh, at, inl refl)
modify_each (some r ∷ hosts) zero zero f rh at =
    let same : r ≡ rh = cc at in (f r, refl, inr (ap f same))
modify_each (some r ∷ hosts) zero (suc i) f rh at = (rh, at, inl refl)
modify_each (none ∷ hosts) (suc j) zero f rh at = cc
modify_each (some r ∷ hosts) (suc j) zero f rh at = (rh, at, inl refl)
modify_each (none ∷ hosts) (suc j) (suc i) f rh at = modify_each hosts j i f rh at
modify_each (some r ∷ hosts) (suc j) (suc i) f rh at = modify_each hosts j i f rh at

-- Whatever a packet says of itself, every known host is still there, and nothing behind its buffer is
-- written.
pub text_in_bounds :
    (now : ℕ) (hosts : Hosts) (buf : Bytes) (i : ℕ) (rh : RemoteHost)
    → get_elem? hosts i ≡ some (some rh)
    → (rh' : RemoteHost) × (get_elem? (process_incoming_video_text now hosts buf) i
        ≡ some (some rh'))
      × ((k : ℕ) → video_text_buffer_len ≤ k → rh'.video_text_buffer k ≡ rh.video_text_buffer k)
unfolding process_incoming_video_text
text_in_bounds now hosts buf i rh at =
    elim (Option-cases (hostlist_find_by_mac hosts (src_mac_addr buf))) [
      | inl unknown ↦ (rh, rw (unknown, process_incoming_video_text) at, λ k behind. refl)
      | inr (j, found) ↦
          (let note = λ (h : RemoteHost). record h { tv_last_resp = now } in
            let (rh1, at1, kept1) = modify_each hosts j i note rh at in
            let same1 : rh1.video_text_buffer ≡ rh.video_text_buffer = elim kept1 [
              | inl e ↦ ap (λ h. h.video_text_buffer) e
              | inr e ↦ ap (λ h. h.video_text_buffer) e
            ] in
            elim (Bool-cases (ltb video_text_buffer_len (video_count buf + video_offset buf))) [
              | inl long ↦ (
                rh1,
                rw (found, process_incoming_video_text, long) at1,
                λ k behind. ap (λ m. m k) same1,
              )
              | inr fits ↦
                  (let (rh2, at2, kept2) =
                      modify_each (modify hosts j note) j i (show_text buf) rh1 at1 in
                    (
                      rh2,
                      rw (found, process_incoming_video_text, fits) at2,
                      λ k behind.
                          let outside : video_offset buf + video_count buf ≤ k = ground arith in
                          elim kept2 [
                            | inl e ↦ ap (λ h. h.video_text_buffer k) e ∙ ap (λ m. m k) same1
                            | inr e ↦
                                ap (λ h. h.video_text_buffer k) e
                                ∙ memcpy_outside rh1.video_text_buffer (video_offset buf) buf 34
                                    (video_count buf) k (inr outside)
                                ∙ ap (λ m. m k) same1
                          ],
                    ))
            ])
    ]
