-- ===== src/Client/Keyboard/Kept.antt =====
-- process_stdin_session_mode of src/client/keyboard.c fails no assertion, and leaves the list of hosts alone.
use rmtdos.Base.{
  ℕ, ◌≤◌, ◌≡◌, refl, Option, some, List, [], ◌∷◌, ◌++◌, true, false, arith, Bool-cases,
  Option-cases, inl, inr, bytes_eq,
}
use rmtdos.Base.Memory.{Bytes, of_list}
use rmtdos.Wire.{max_payload_length, v1_inject_keystroke}
use rmtdos.Network.{RawSocket, Sent, send_packet, send_keystrokes}
use rmtdos.Protocol.Keys.{key_bytes}
use rmtdos.Keymap.{KeyMapEntry, keymap_find, keymap_load}
use rmtdos.Client.{Client}
use rmtdos.Client.Keyboard.{
  captured, keystroke, send_key, mapped, process_stdin_session_mode, k_exit, k_reload, k_debug,
  k_status,
}

pub sent_packet :
    (rs : RawSocket) (heap : Bytes) (dest : Option (List ℕ)) (type : ℕ) (p : Option Bytes) (n : ℕ)
    → n ≤ max_payload_length
    → (s : Sent) × (send_packet rs heap dest type p n ≡ some s)
unfolding send_packet
sent_packet rs heap dest type p n le = elim (Option-cases (send_packet rs heap dest type p n)) [
  | inr sent ↦ sent
  | inl refused ↦ absurd (ground arith)
]

-- A run that ends, with the same hosts and the same one active.
abbrev pub Runs : Client → Option Client → Type 0
Runs c run =
    (c' : Client) × (run ≡ some c') × (c'.hosts ≡ c.hosts) × (c'.active_host ≡ c.active_host)

module _ (rs : RawSocket) (heap : Bytes) (if_addr : List ℕ) where
  send_key-Runs : (c : Client) (key : KeyMapEntry) → Runs c (send_key rs heap if_addr c key)
  unfolding send_key send_keystrokes
  send_key-Runs c key =
      let (s, sent) =
        sent_packet rs heap (some if_addr) v1_inject_keystroke
          (some (of_list (key_bytes (keystroke key.keydos ∷ [])))) 4 (omega arith) in
      let made : send_keystrokes rs heap (some if_addr) 1
            (of_list (key_bytes (keystroke key.keydos ∷ [])))
          ≡ some s =
        sent in
      (record c { sent = c.sent ++ (s ∷ []) }, rw (made, send_key) refl, refl, refl)

  mapped-Runs :
      (file : Option (List (List ℕ))) (c : Client) (key : KeyMapEntry)
      → Runs c (mapped rs heap if_addr file c key)
  unfolding mapped
  mapped-Runs file c key = elim (Bool-cases (bytes_eq key.description k_exit)) [
    | inl exits ↦ rw exits (record c { running = false }, refl, refl, refl)
    | inr no_exit ↦ elim (Bool-cases (bytes_eq key.description k_reload)) [
      | inl reloads ↦
          let c1 : Client = record c { keymap = (keymap_load c.keymap file).1 } in
          elim (Bool-cases (keymap_load c.keymap file).0) [
            | inl loaded ↦ rw (no_exit, reloads, loaded) (send_key-Runs c1 key)
            | inr failed ↦ rw (no_exit, reloads, failed) (c1, refl, refl, refl)
          ]
      | inr no_reload ↦ elim (Bool-cases (bytes_eq key.description k_debug)) [
        | inl debugs ↦ rw (no_exit, no_reload, debugs) (_, refl, refl, refl)
        | inr no_debug ↦ elim (Bool-cases (bytes_eq key.description k_status)) [
          | inl status ↦ rw (no_exit, no_reload, no_debug, status) (_, refl, refl, refl)
          | inr no_status ↦ rw (no_exit, no_reload, no_debug, no_status) (send_key-Runs c key)
        ]
      ]
    ]
  ]

  pub session_mode-Runs :
      (file : Option (List (List ℕ))) (c : Client) (typed : List ℕ)
      → Runs c (process_stdin_session_mode rs heap if_addr file c typed)
  unfolding process_stdin_session_mode
  session_mode-Runs file c [] = (c, refl, refl, refl)
  session_mode-Runs file c (ch ∷ codes) =
      elim (Option-cases (keymap_find c.keymap.hash (captured ch codes))) [
        | inl unknown ↦ rw (unknown, process_stdin_session_mode) (c, refl, refl, refl)
        | inr (key, found) ↦ rw (found, process_stdin_session_mode) (mapped-Runs file c key)
      ]

  pub exit_key :
      (file : Option (List (List ℕ))) (c : Client) (ch : ℕ) (codes : List ℕ) (key : KeyMapEntry)
      → keymap_find c.keymap.hash (captured ch codes) ≡ some key
      → key.description ≡ k_exit
      → process_stdin_session_mode rs heap if_addr file c (ch ∷ codes)
        ≡ some (record c { running = false })
  unfolding process_stdin_session_mode mapped bytes_eq
  exit_key file c ch codes key found named =
      let exits : bytes_eq key.description k_exit ≡ true = rw named refl in
      rw (found, process_stdin_session_mode, exits) refl
