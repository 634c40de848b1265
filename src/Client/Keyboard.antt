-- ===== src/Client/Keyboard.antt =====
-- process_stdin_session_mode of src/client/keyboard.c: what a key does while a server is under remote
-- control. The codes that wgetch returns before its ERR are a parameter; the loop's body always leaves
-- it. What is only drawn is left out.
pub mod Typed
pub mod Kept
use rmtdos.Base.{
  ℕ, zero, suc, ◌+◌, ◌-◌, ◌%◌, ◌<◌, ◌≤◌, ◌≡◌, refl, Option, none, some, List, [], ◌∷◌, ◌++◌, ◌==◌,
  ltb, bytes_eq, if◌then◌else◌, Bool, true, false, not, take, map, length, arith, inl, inr, ◌⊎◌,
}
use rmtdos.Base.Memory.{Bytes, of_list}
use rmtdos.Network.{RawSocket, Sent, send_keystrokes}
use rmtdos.Protocol.{Keystroke}
use rmtdos.Protocol.Keys.{key_bytes}
use rmtdos.Keymap.{KeyDos, KeyMapEntry, Keymap, keymap_find, keymap_load}
use rmtdos.Client.{Client}

-- SEQ_BUFFER_SIZE
abbrev pub seq_buffer_size : ℕ
seq_buffer_size = 32

-- K_EXIT, K_RELOAD, K_DEBUG and K_STATUS
abbrev pub k_exit : List ℕ
k_exit = b'C' ∷ b't' ∷ b'r' ∷ b'l' ∷ b'+' ∷ b'F' ∷ b'1' ∷ b'2' ∷ []

abbrev pub k_reload : List ℕ
k_reload = b'C' ∷ b't' ∷ b'r' ∷ b'l' ∷ b'+' ∷ b'F' ∷ b'1' ∷ b'1' ∷ []

abbrev pub k_debug : List ℕ
k_debug = b'C' ∷ b't' ∷ b'r' ∷ b'l' ∷ b'+' ∷ b'F' ∷ b'1' ∷ b'0' ∷ []

abbrev pub k_status : List ℕ
k_status = b'C' ∷ b't' ∷ b'r' ∷ b'l' ∷ b'+' ∷ b'F' ∷ b'9' ∷ []

-- The loop over what follows an ESC, `used` bytes being in seq_buf.
abbrev pub capture : ℕ → List ℕ → List ℕ
capture used [] = []
capture used (next_ch ∷ codes) =
    if ltb used (seq_buffer_size - 1) then next_ch % 256 ∷ capture (used + 1) codes else []

-- The bytes in seq_buf: one, or an escape sequence.
abbrev pub captured : ℕ → List ℕ → List ℕ
captured ch codes = if ch == 27 then ch % 256 ∷ capture 1 codes else ch % 256 ∷ []

-- const struct Keystroke ks
abbrev pub keystroke : KeyDos → Keystroke
keystroke k = record {
  bios_scan_code = k.bios_scan_code;
  ascii_value = k.ascii_value;
  flags_17 = k.flags_17;
}

module _ (rs : RawSocket) (heap : Bytes) (if_addr : List ℕ) where
  -- send_keystrokes of one key; `none` is a failed assertion.
  pub send_key : Client → KeyMapEntry → Option Client
  send_key c key =
      elim (send_keystrokes rs heap (some if_addr) 1
        (of_list (key_bytes (keystroke key.keydos ∷ [])))) [
          | none ↦ none
          | some s ↦ some (record c { sent = c.sent ++ (s ∷ []) })
        ]

  -- The part of the body where a mapping was found. `file` is what keymap_load finds on the disk.
  mapped : Option (List (List ℕ)) → Client → KeyMapEntry → Option Client
  unfolding send_key
  mapped file c key =
      if bytes_eq key.description k_exit
      then some (record c { running = false })
      else if bytes_eq key.description k_reload
      then (let (loaded, keymap) = keymap_load c.keymap file in
          let c1 = record c { keymap = keymap } in
          let sent = send_key c1 key in if loaded then sent else some c1)
      else if bytes_eq key.description k_debug
      then some (record c { show_debug_window = not c.show_debug_window })
      else if bytes_eq key.description k_status
      then some (record c { show_status = not c.show_status })
      else send_key c key

  pub process_stdin_session_mode :
      Option (List (List ℕ)) → Client → (typed : List ℕ) → Option Client
  unfolding mapped
  process_stdin_session_mode file c [] = some c
  process_stdin_session_mode file c (ch ∷ codes) =
      elim (keymap_find c.keymap.hash (captured ch codes)) [
        | none ↦ some c
        | some key ↦ mapped file c key
      ]
