-- ===== src/Broadcast/Frames.antt =====
-- The packets of session_mgr_update_all in src/server/session.c.
use rmtdos.Base.{
  ℕ, ◌+◌, ◌*◌, ◌%◌, ◌<◌, ◌≤◌, ◌≡◌, ◌≢◌, refl, some, List, [], ◌∷◌, ◌++◌, arith, ◌==◌, ◌&&◌, true,
  false, if◌then◌else◌, Bool-cases, inl, inr, length, ◌∙◌, sym,
}
use mathlib.Core.List.{append_assoc, append-nil}
use rmtdos.Base.Memory.{Bytes, load16, of_list, store32, memcpy}
use rmtdos.Wire.{
  dest_mac_addr, src_mac_addr, ethertype, signature, session_id, payload_len, pkt_type,
  packet_signature, max_payload_length, combined_header_len, v1_vga_text,
}
use rmtdos.Wire.Fields.{slice-of_list, join16, join32}
use rmtdos.Session.{Session, in_use, prune}
use rmtdos.Protocol.{Env, Host, call_pktdrv_send}
use rmtdos.Broadcast.{
  Chunk, Screen, chunk_at, compose, send_all, payload_size, session_mgr_update_all, video_word,
}
use rmtdos.Broadcast.Cover.{IsText, chunk_at_lem}
use rmtdos.Broadcast.Silence.{screen_checksum, next_row}

-- All of a packet but its addressee.
pub record Shows (env : Env) (frame : Bytes) (c : Chunk) (f : Bytes) : Type 0 where
  pub from : src_mac_addr f ≡ env.mac_addr
  pub of_type : ethertype f ≡ env.ethertype
  pub signed : signature f ≡ packet_signature
  pub declared : payload_len f ≡ payload_size c
  pub kind : pkt_type f ≡ v1_vga_text
  pub text_rows : f 26 ≡ env.video.text_rows
  pub text_cols : f 27 ≡ env.video.text_cols
  pub cursor_row : f 28 ≡ env.video.cursor_row
  pub cursor_col : f 29 ≡ env.video.cursor_col
  pub offset : load16 f 30 ≡ c.offset
  pub count : load16 f 32 ≡ c.word_count * video_word
  pub content :
      (i : ℕ) → i < c.word_count * video_word → f (34 + i) ≡ frame ((c.offset + i) % 65536)

-- One packet for each session in use, addressed to it, in the order of the table.
pub data Delivered (env : Env) (frame : Bytes) (c : Chunk) (len : ℕ)
    : List Session → List (Bytes × ℕ) → Type 0 where
  none_left : Delivered env frame c len [] []
  idle :
      {s : Session} {ss : List Session} {fs : List (Bytes × ℕ)}
      → in_use s ≡ false
      → Delivered env frame c len ss fs
      → Delivered env frame c len (s ∷ ss) fs
  sent :
      {s : Session} {ss : List Session} {f : Bytes} {fs : List (Bytes × ℕ)}
      → in_use s ≡ true
      → dest_mac_addr f ≡ s.mac_addr
      → session_id f ≡ s.session_id
      → Shows env frame c f
      → Delivered env frame c len ss fs
      → Delivered env frame c len (s ∷ ss) ((f, len) ∷ fs)

-- What the table holds of a client: an address and a 32-bit id.
abbrev pub WellFormed : List Session → Type 0
WellFormed [] = Unit {0}
WellFormed (s ∷ ss) = (length s.mac_addr ≡ 6) × (s.session_id < 4294967296) × WellFormed ss

module _ (env : Env) (frame : Bytes) (c : Chunk) where
  pub compose-Shows :
      (out : Bytes)
      → length env.mac_addr ≡ 6
      → env.ethertype < 65536
      → c.offset < 65536
      → payload_size c ≤ max_payload_length
      → Shows env frame c (compose env frame out c)
  unfolding compose
  compose-Shows out address type_fits offset_fits size_fits = record {
    from = slice-of_list env.mac_addr address;
    of_type = join16 env.ethertype type_fits;
    signed = refl;
    declared = join16 (payload_size c) (omega arith);
    kind = refl;
    text_rows = refl;
    text_cols = refl;
    cursor_row = refl;
    cursor_col = refl;
    offset = join16 c.offset offset_fits;
    count = join16 (c.word_count * video_word) (omega arith);
    content = λ i lt. ground arith;
  }

  -- The same packet, addressed to a session.
  abbrev address : Bytes → Session → Bytes
  address m s = store32 (memcpy m 0 (of_list s.mac_addr) 0 6) 18 s.session_id

  address-Shows : (m : Bytes) (s : Session) → Shows env frame c m → Shows env frame c (address m s)
  address-Shows m s b = record {
    from = b.from;
    of_type = b.of_type;
    signed = b.signed;
    declared = b.declared;
    kind = b.kind;
    text_rows = b.text_rows;
    text_cols = b.text_cols;
    cursor_row = b.cursor_row;
    cursor_col = b.cursor_col;
    offset = b.offset;
    count = b.count;
    content = λ i lt. ground (arith, b.content i);
  }

  send_all-Delivered :
      (ss : List Session) (h : Host) (len : ℕ)
      → WellFormed ss
      → Shows env frame c h.send_buffer
      → (fs : List (Bytes × ℕ)) × ((send_all env frame ss h len).sent ≡ h.sent ++ fs)
        × Delivered env frame c len ss fs
        × ((send_all env frame ss h len).sessions ≡ h.sessions)
  unfolding send_all
  send_all-Delivered [] h len wf b = ([], sym (append-nil h.sent), none_left, refl)
  send_all-Delivered (s ∷ ss) h len wf b = elim (Bool-cases (in_use s)) [
    | inr off ↦
        let (fs, e, d, same) = send_all-Delivered ss h len wf.2 b in
        (fs, rw off e, idle off d, rw off same)
    | inl on ↦
        let f = address h.send_buffer s in
        let shown = address-Shows h.send_buffer s b in
        let (fs, e, d, same) = send_all-Delivered ss (call_pktdrv_send h f len) len wf.2 shown in
        (
          (f, len) ∷ fs,
          rw on (e ∙ append_assoc h.sent ((f, len) ∷ []) fs),
          sent on (slice-of_list s.mac_addr wf.0) (join32 s.session_id wf.1) shown d,
          rw on same,
        )
  ]

-- A tick with sessions in use, on a screen that is not known to be unchanged, sends one packet to
-- each of them, in the order of the table, with the next chunk of the screen, and goes on behind
-- that chunk; a tick at the top keeps the checksum. The screen has rows and columns, both fewer than 256, and addresses, session ids and
-- the EtherType have their sizes.
pub update_sends :
    (env : Env) (frame : Bytes) (st : Screen)
    → length env.mac_addr ≡ 6
    → env.ethertype < 65536
    → IsText env.video
    → 0 < env.video.text_rows
    → WellFormed (prune st.host.sessions env.now).0
    → (prune st.host.sessions env.now).1 ≢ 0
    → (next_row env st == 0 && screen_checksum env frame == st.video_chksum) ≡ false
    → let c = chunk_at env.video (next_row env st) in
      (st' : Screen) × (fs : List (Bytes × ℕ)) × (session_mgr_update_all env frame st ≡ some st')
      × (st'.host.sent ≡ st.host.sent ++ fs)
      × Delivered env frame c
          (combined_header_len + payload_size c)
          (prune st.host.sessions env.now).0
          fs
      × (st'.host.sessions ≡ (prune st.host.sessions env.now).0)
      × (st'.video_next_row ≡ next_row env st + c.rows)
      × (st'.video_chksum
          ≡ (if next_row env st == 0 then screen_checksum env frame else st.video_chksum))
unfolding session_mgr_update_all chunk_at
update_sends env frame st address type_fits text some_rows wf active changed =
    let row = next_row env st in
    let c = chunk_at env.video row in
    let kept = record st.host { sessions = (prune st.host.sessions env.now).0 } in
    let host = record kept { send_buffer = compose env frame kept.send_buffer c } in
    let on_screen : row < env.video.text_rows = ground arith in
    let fits = (chunk_at_lem env.video row text on_screen).2 in
    let shown = compose-Shows env frame c kept.send_buffer address type_fits (omega arith) fits in
    let len = combined_header_len + payload_size c in
    let (fs, e, d, same) = send_all-Delivered env frame c kept.sessions host len wf shown in
    let used : ((prune st.host.sessions env.now).1 == 0) ≡ false = ground arith in
    let wide : (env.video.text_cols == 0) ≡ false = ground (arith, text.some_cols) in
    (
      record {
        host = send_all env frame kept.sessions host len;
        video_chksum = if row == 0 then screen_checksum env frame else st.video_chksum;
        video_next_row = row + c.rows;
      },
      fs,
      rw (used, changed, wide) refl,
      e,
      d,
      same,
      refl,
      refl,
    )
