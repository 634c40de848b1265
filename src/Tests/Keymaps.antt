-- ===== src/Tests/Keymaps.antt =====
-- A key of the terminal, from the keymap's file to the server.
use rmtdos.Base.{ℕ, ◌≡◌, refl, List, [], ◌∷◌, ◌++◌, arith, some, none, true, bytes_eq}
use rmtdos.Base.Memory.{zeros}
use rmtdos.Network.{Sent}
use rmtdos.Keymap.{
  KeyMapEntry, Keymap, no_keymap, keymap_find, keymap_find_linear, keymap_load, keymap_build_hash,
  parse_hex_sequence, keymap_format_sequence_hex, reverse_onto,
}
use rmtdos.Keymap.Index.{find-build_hash}
use rmtdos.Keymap.Reload.{entries, first_load, reload_keeps}
use rmtdos.Keymap.Hex.{parse-format_hex}
use rmtdos.Client.{Client}
use rmtdos.Client.Keyboard.{k_reload}
use rmtdos.Client.Keyboard.Typed.{Typed}
use rmtdos.Client.Events.{on_stdin}
use rmtdos.Client.Start.{ready, running, main_loop}
use rmtdos.Client.Start.Upkeep.{AllUpkeep}
use rmtdos.Client.Start.Selects.{select_and_type}
use rmtdos.Hostlist.{RemoteHost, host_create}
use rmtdos.Tests.Packets.{socket, socket-IsValid, server_mac}

-- The sequence of a cursor key.
abbrev pub up : List ℕ
up = 27 ∷ 91 ∷ 65 ∷ []

abbrev pub key_up : KeyMapEntry
key_up = record {
  description = b'U' ∷ b'p' ∷ [];
  sequence = up;
  keydos = record { bios_scan_code = 0x48; ascii_value = 0; flags_17 = 0 };
}

abbrev key_again : KeyMapEntry
key_again = record key_up { keydos = record { bios_scan_code = 1; ascii_value = 2; flags_17 = 3 } }

abbrev key_reload : KeyMapEntry
key_reload = record {
  description = k_reload;
  sequence = 27 ∷ 91 ∷ 50 ∷ [];
  keydos = record { bios_scan_code = 0x8a; ascii_value = 0; flags_17 = 4 };
}

abbrev list : List KeyMapEntry
list = key_again ∷ key_reload ∷ key_up ∷ []

abbrev keymap : Keymap
keymap = record { g_keymap = list; hash = keymap_build_hash list }

-- up|\x41|0x1|2|3
abbrev line : List ℕ
line =
    b'u' ∷ b'p' ∷ b'|' ∷ 92 ∷ b'x' ∷ b'4' ∷ b'1' ∷ b'|' ∷ b'0' ∷ b'x' ∷ b'1' ∷ b'|' ∷ b'2' ∷ b'|'
    ∷ b'3' ∷ 10 ∷ []

find-build_hash_example :
    keymap_find (keymap_build_hash list) up ≡ keymap_find_linear (reverse_onto list []) up
find-build_hash_example = find-build_hash list up

first_load_example :
    keymap_find (keymap_load no_keymap (some (line ∷ []))).1.hash (65 ∷ [])
    ≡ keymap_find_linear (entries (line ∷ [])) (65 ∷ [])
first_load_example = first_load (line ∷ []) (65 ∷ [])

up_found : keymap_find keymap.hash up ≡ some key_up
unfolding keymap_find keymap_build_hash bytes_eq
up_found = refl

reload_found : keymap_find keymap.hash (27 ∷ 91 ∷ 50 ∷ []) ≡ some key_reload
unfolding keymap_find keymap_build_hash bytes_eq
reload_found = refl

reload_keeps_example : keymap_find (keymap_load keymap (some (line ∷ []))).1.hash up ≡ some key_up
reload_keeps_example = reload_keeps keymap (line ∷ []) up key_up refl up_found

parse-format_hex_example : parse_hex_sequence (keymap_format_sequence_hex up 512) ≡ some up
parse-format_hex_example =
    parse-format_hex up 512 (omega arith, (omega arith, (omega arith, tt))) (omega arith)
      (omega arith)

abbrev pub client : Client
client = record {
  hosts = [];
  active_host = none;
  running = true;
  show_debug_window = true;
  show_status = true;
  last_probe = 0;
  keymap = keymap;
  sent = [];
}

abbrev server : RemoteHost
server = record (host_create 0) { if_addr = server_mac }

-- In the menu, with one server.
abbrev in_menu : Client
in_menu = record client { hosts = some server ∷ [] }

select_and_type_example :
    (c' : Client) × (s : Sent) × (before after : List Sent) × (main_loop 276 socket zeros none
        in_menu
        (ready 5000000 (on_stdin (b'0' ∷ []) ∷ []) ∷ ready 5000001 (on_stdin up ∷ []) ∷ [])
      ≡ running c')
    × (c'.sent ≡ [] ++ (before ++ (s ∷ after)))
    × AllUpkeep socket before
    × Typed socket server_mac key_up s
    × AllUpkeep socket after
unfolding bytes_eq
select_and_type_example =
    select_and_type 276 socket zeros none 5000000 5000001 in_menu 0 server 27 (91 ∷ 65 ∷ []) key_up
      (omega arith) socket-IsValid refl refl (omega arith) refl refl (refl, tt) (omega arith)
      (record { no_exit = refl; no_reload = refl; no_debug = refl; no_status = refl }) up_found
