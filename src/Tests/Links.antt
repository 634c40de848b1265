-- ===== src/Tests/Links.antt =====
-- The server and the client of the other tests on one network.
use rmtdos.Base.{
  ℕ, ◌<◌, ◌≡◌, ◌≢◌, refl, List, [], ◌∷◌, ◌++◌, arith, some, none, get_elem?, bytes_eq, true, inr,
}
use rmtdos.Base.Memory.{Bytes, zeros}
use rmtdos.Session.{Session, in_use}
use rmtdos.Hostlist.{RemoteHost, host_create, hostlist_find_by_mac}
use rmtdos.Protocol.{VideoState, Env}
use rmtdos.Broadcast.{Screen, video_checksum_frame_buffer}
use rmtdos.Broadcast.Silence.{screen_checksum}
use rmtdos.Client.{Client}
use rmtdos.Display.Window.{Window, space}
use rmtdos.Delivery.Terminal.{receive_all}
use rmtdos.Delivery.Painted.{IsPainted}
use rmtdos.Delivery.{run_ticks, arrive}
use rmtdos.Delivery.Picture.{picture_arrives}
use rmtdos.Tests.Sessions.{env, video, other, client_mac}
use rmtdos.Tests.Packets.{socket, server_mac}
use rmtdos.Delivery.Arrivals.{deliver_all}
use rmtdos.Delivery.Typing.{TimedKey, typed, on_wire, AllTo, typed_keys_reversed}
use rmtdos.Base.{map}
use rmtdos.X86.{x86_reset_regs}
use rmtdos.Pktdrv.{cleared}
use rmtdos.Tick.{Server, int08_handler}
use rmtdos.Bufmgr.{slot}
use rmtdos.Network.{Sent}
use rmtdos.Keymap.{KeyMapEntry, Keymap, keymap_find, keymap_build_hash}
use rmtdos.Client.Keyboard.{keystroke}
use rmtdos.Client.Keyboard.Typed.{IsPlain}
use rmtdos.Client.Start.{running, main_loop}
use rmtdos.Tests.Buffers.{table, holds}
use rmtdos.Tests.Packets.{socket-IsValid}
use rmtdos.Tests.Keymaps.{client, up, key_up}

-- A screen of two rows with three columns, and ones on it.
abbrev small : VideoState
small = record video { text_rows = 2; text_cols = 3 }

abbrev with_small : Env
with_small = record env { video = small }

abbrev ones : Bytes
ones k = 1

abbrev joined : Session
joined = record { t_last_recv = 950; session_id = 7; mac_addr = client_mac; video_chksum = 0 }

-- Nothing of it was sent yet.
abbrev fresh : Screen
fresh = record {
  host = record { sessions = other ∷ joined ∷ []; send_buffer = zeros; sent = []; keys = [] };
  video_chksum = 0;
  video_next_row = 0;
}

abbrev server : RemoteHost
server = record (host_create 0) { if_addr = server_mac }

abbrev knows_server : Client
knows_server = record client { hosts = some server ∷ none ∷ [] }

server_known : hostlist_find_by_mac knows_server.hosts server_mac ≡ some 0
unfolding hostlist_find_by_mac bytes_eq
server_known = refl

joined_used : in_use joined ≡ true
unfolding bytes_eq
joined_used = refl

changed : screen_checksum with_small ones ≢ 0
unfolding video_checksum_frame_buffer
changed = λ e. omega arith

-- A window of 30 lines and 100 columns, and every code as itself.
abbrev blank_window : Window
blank_window = record { lines = 30; columns = 100; cell = λ y x. space 7 }

abbrev plain : ℕ → List ℕ
plain c = c ∷ []

picture_arrives_example :
    (st' : Screen) × (fs : List (Bytes × ℕ)) × (rh' : RemoteHost) × (w' : Window) × (run_ticks
        with_small ones
        (1000 ∷ 1001 ∷ 1002 ∷ [])
        fresh
      ≡ some st')
    × (st'.host.sent ≡ [] ++ fs)
    × (let shown =
          receive_all socket plain
            (λ attr. attr)
            (record { client = knows_server; window = some blank_window })
            (arrive 77 fs) in
        (get_elem? shown.client.hosts 0 ≡ some (some rh')) × (shown.window ≡ some w'))
    × ((k : ℕ) → k < 12 → rh'.video_text_buffer k ≡ 1)
    × IsPainted plain (λ attr. attr) with_small ones 30 100 w' with_small.video.text_rows
picture_arrives_example =
    picture_arrives socket plain (λ attr. attr) with_small ones 77 0 1 joined
      (1000 ∷ 1001 ∷ 1002 ∷ []) fresh knows_server blank_window server refl (omega arith)
      (record { rows_byte = omega arith; cols_byte = omega arith; some_cols = omega arith })
      (omega arith) (omega arith) (refl, omega arith, (refl, omega arith, tt)) refl joined_used refl
      refl (refl, (refl, (refl, tt))) refl changed (omega arith) server_known refl

abbrev key_a : KeyMapEntry
key_a = record {
  description = b'a' ∷ [];
  sequence = 97 ∷ [];
  keydos = record { bios_scan_code = 30; ascii_value = 97; flags_17 = 0 };
}

abbrev keymap : Keymap
keymap = record { g_keymap = key_a ∷ key_up ∷ []; hash = keymap_build_hash (key_a ∷ key_up ∷ []) }

abbrev selected : Client
selected = record knows_server { active_host = some 0; keymap = keymap }

a_found : keymap_find keymap.hash (97 ∷ []) ≡ some key_a
unfolding keymap_find keymap_build_hash bytes_eq
a_found = refl

up_found : keymap_find keymap.hash up ≡ some key_up
unfolding keymap_find keymap_build_hash bytes_eq
up_found = refl

a-IsPlain : IsPlain key_a
unfolding bytes_eq
a-IsPlain = record { no_exit = refl; no_reload = refl; no_debug = refl; no_status = refl }

up-IsPlain : IsPlain key_up
unfolding bytes_eq
up-IsPlain = record { no_exit = refl; no_reload = refl; no_debug = refl; no_status = refl }

-- The letter, and then the cursor key.
abbrev keys : List TimedKey
keys = (5, (97, [])) ∷ (6, (27, 91 ∷ 65 ∷ [])) ∷ []

abbrev idle_server : Server
idle_server = record { int08_ticks = 41; buffers = table; screen = fresh }

typed_keys_reversed_example :
    (ss : List Sent) × (server' : Server) × (main_loop 276 socket zeros none selected
        (map typed keys)
      ≡ running (record selected { sent = [] ++ ss }))
    × AllTo server_mac ss
    × (int08_handler env zeros 3 (record idle_server {
      buffers = (deliver_all 0 (x86_reset_regs 0) cleared table (map on_wire ss)).1;
    })
        ≡ some server')
    × (server'.screen.host.keys ≡ [] ++ (keystroke key_up.keydos ∷ keystroke key_a.keydos ∷ []))
typed_keys_reversed_example =
    typed_keys_reversed 276 socket zeros none 0 server keys (key_a ∷ key_up ∷ []) selected env zeros
      3 0 (x86_reset_regs 0) cleared idle_server (1000 ∷ slot 1000 1 ∷ []) [] [] socket-IsValid refl
      refl refl refl
      (omega arith, (inr (omega arith), tt), (omega arith, (inr (omega arith), tt), tt))
      (
        record { found = a_found; plain = a-IsPlain; flags = omega arith },
        (record { found = up_found; plain = up-IsPlain; flags = omega arith }, tt),
      )
      holds (omega arith) (omega arith) (omega arith)
