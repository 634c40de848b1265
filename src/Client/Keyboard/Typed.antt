-- ===== src/Client/Keyboard/Typed.antt =====
-- From a key typed in src/client/keyboard.c to the keystroke that src/server/protocol.c injects.
use rmtdos.Base.{
  ℕ, ◌+◌, ◌-◌, ◌<◌, ◌≡◌, refl, Option, some, List, [], ◌∷◌, ◌++◌, ◌==◌, ltb, bytes_eq, true, false,
  length, arith, inl, inr, Bool-cases,
}
use rmtdos.Base.Memory.{Bytes, of_list}
use rmtdos.Wire.{v1_inject_keystroke, signature, packet_signature, pkt_type, combined_header_len}
use rmtdos.Network.{RawSocket, Sent, send_keystrokes}
use rmtdos.Network.Frame.{IsValid, send_packet_lem}
use rmtdos.Protocol.{Env, Host, handle_inject_keystroke}
use rmtdos.Protocol.Keys.{key_bytes, injected}
use rmtdos.Keymap.{KeyMapEntry, keymap_find, keymap_load}
use rmtdos.Client.{Client}
use rmtdos.Client.Keyboard.{
  seq_buffer_size, k_exit, k_reload, k_debug, k_status, capture, captured, keystroke, send_key,
  mapped, process_stdin_session_mode,
}

-- The escape sequence never fills seq_buf, however much is typed.
capture_bound :
    (used : ℕ) (codes : List ℕ)
    → used < seq_buffer_size
    → used + length (capture used codes) < seq_buffer_size
capture_bound used [] lt = ground arith
capture_bound used (ch ∷ codes) lt = elim (Bool-cases (ltb used (seq_buffer_size - 1))) [
  | inl more ↦
      (let below : used + 1 < seq_buffer_size = ground arith in
        let rest = capture_bound (used + 1) codes below in rw more (omega arith))
  | inr full ↦ rw full (omega arith)
]

-- Whatever is typed, the bytes that are captured fit into seq_buf, with one to spare.
pub captured_bound :
    (ch : ℕ) (codes : List ℕ)
    → (0 < length (captured ch codes)) × (length (captured ch codes) < seq_buffer_size)
captured_bound ch codes = elim (Bool-cases (ch == 27)) [
  | inl esc ↦
      (let rest = capture_bound 1 codes (omega arith) in
        (rw esc (omega arith), rw esc (omega arith)))
  | inr plain ↦ (rw plain (omega arith), rw plain (omega arith))
]

-- The description is none that the client keeps for itself.
pub record IsPlain (key : KeyMapEntry) : Type 0 where
  pub no_exit : bytes_eq key.description k_exit ≡ false
  pub no_reload : bytes_eq key.description k_reload ≡ false
  pub no_debug : bytes_eq key.description k_debug ≡ false
  pub no_status : bytes_eq key.description k_status ≡ false

-- One packet to the server, on which every server injects that keystroke.
pub record Typed (rs : RawSocket) (if_addr : List ℕ) (key : KeyMapEntry) (s : Sent) : Type 0 where
  pub to : s.to ≡ if_addr
  pub signed : signature s.frame ≡ packet_signature
  pub kind : pkt_type s.frame ≡ v1_inject_keystroke
  pub size : s.len ≡ combined_header_len + 4
  pub injects :
      (env : Env) (h : Host)
      → (handle_inject_keystroke env h s.frame).keys ≡ h.keys ++ (keystroke key.keydos ∷ [])

module _ (rs : RawSocket) (heap : Bytes) (if_addr : List ℕ) where
  send_key-Typed :
      (c : Client) (key : KeyMapEntry)
      → IsValid rs
      → length if_addr ≡ 6
      → key.keydos.flags_17 < 256
      → (s : Sent) × (send_key rs heap if_addr c key
          ≡ some (record c { sent = c.sent ++ (s ∷ []) }))
        × Typed rs if_addr key s
  unfolding send_key send_keystrokes
  send_key-Typed c key v six fits =
      let ks = keystroke key.keydos ∷ [] in
      elim (send_packet_lem rs heap if_addr v1_inject_keystroke (some (of_list (key_bytes ks))) 4 v
        six (omega arith)) [
          | inl (long, refused) ↦ absurd (omega (arith, long))
          | inr (s, sent, headers, to, len, short) ↦ (
            s,
            (let made : send_keystrokes rs heap (some if_addr) 1 (of_list (key_bytes ks)) ≡ some s =
                  sent in
                rw (made, send_key) refl),
            record {
              to = to;
              signed = headers.signed;
              kind = headers.kind;
              size = len;
              injects = λ env h. injected env rs heap if_addr ks h v six (fits, tt) sent;
            },
          )
        ]

  -- A typed key that the keymap knows, with flags within a byte, and that is not one of the client's
  -- own, is sent to the server in one packet, on which the server injects exactly the keystroke of the
  -- keymap. Nothing else of the client changes. The socket's fields must be in range.
  pub mapped_key_sent :
      (file : Option (List (List ℕ))) (c : Client) (ch : ℕ) (codes : List ℕ) (key : KeyMapEntry)
      → IsValid rs
      → length if_addr ≡ 6
      → key.keydos.flags_17 < 256
      → IsPlain key
      → keymap_find c.keymap.hash (captured ch codes) ≡ some key
      → (s : Sent) × (process_stdin_session_mode rs heap if_addr file c (ch ∷ codes)
          ≡ some (record c { sent = c.sent ++ (s ∷ []) }))
        × Typed rs if_addr key s
  unfolding process_stdin_session_mode mapped
  mapped_key_sent file c ch codes key v six fits plain found =
      let (s, sent, typed) = send_key-Typed c key v six fits in
      (
        s,
        rw
            (
              found, process_stdin_session_mode, plain.no_exit, plain.no_reload, plain.no_debug,
              plain.no_status,
            )
            sent,
        typed,
      )

  -- The key that reloads the keymap, its flags within a byte, is, where the file can be read, also sent
  -- to the server, as the keystroke that the keymap gave it before. The socket's fields must be in
  -- range.
  pub reload_key_sent :
      (lines : List (List ℕ)) (c : Client) (ch : ℕ) (codes : List ℕ) (key : KeyMapEntry)
      → IsValid rs
      → length if_addr ≡ 6
      → key.keydos.flags_17 < 256
      → key.description ≡ k_reload
      → keymap_find c.keymap.hash (captured ch codes) ≡ some key
      → (s : Sent) × (process_stdin_session_mode rs heap if_addr (some lines) c (ch ∷ codes)
          ≡ some (record c {
            keymap = (keymap_load c.keymap (some lines)).1;
            sent = c.sent ++ (s ∷ []);
          }))
        × Typed rs if_addr key s
  unfolding process_stdin_session_mode mapped keymap_load bytes_eq
  reload_key_sent lines c ch codes key v six fits named found =
      let loaded = record c { keymap = (keymap_load c.keymap (some lines)).1 } in
      let (s, sent, typed) = send_key-Typed loaded key v six fits in
      let no_exit : bytes_eq key.description k_exit ≡ false = rw named refl in
      let is_reload : bytes_eq key.description k_reload ≡ true = rw named refl in
      (s, rw (found, process_stdin_session_mode, no_exit, is_reload) sent, typed)
