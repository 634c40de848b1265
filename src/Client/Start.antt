-- ===== src/Client/Start.antt =====
-- main of src/client/main.c: its options, what it opens, the main loop, and how it ends. getopt,
-- sscanf, strtoul and the files are the C library's, system calls go through the kernel of Network.Socket;
-- what is only printed is left out.
pub mod Hosts
pub mod Listed
pub mod Faults
pub mod Runs
pub mod Ends
pub mod Rounds
pub mod Upkeep
pub mod Selects
pub mod Leaves
use rmtdos.Base.{
  ℕ, ◌==◌, Option, none, some, List, [], ◌∷◌, ◌++◌, if◌then◌else◌, Bool, true, false, not, codes,
}
use rmtdos.Base.Memory.{Bytes}
use rmtdos.Wire.{ethertype_rmtdos}
use rmtdos.Network.{RawSocket, Sent, send_status_req}
use rmtdos.Display.{Colors, color_table_init}
use rmtdos.Display.Characters.{Table, cp437_table_init}
use rmtdos.Network.Socket.{Kernel, create_socket, close_socket}
use rmtdos.Hostlist.{hostlist_create, hostlist_destroy}
use rmtdos.Keymap.{Keymap, no_keymap, keymap_load, keymap_free}
use rmtdos.Client.{Client, process_timers}
use rmtdos.Client.Events.{Event, handle_events}

abbrev pub exit_success : ℕ
exit_success = 0

abbrev pub exit_failure : ℕ
exit_failure = 1

-- What one call of epoll_wait returns: an interruption by a signal, another error, or events. The
-- time is the clock's in that round.
pub data Round : Type 0 where
  interrupted : Round
  wait_failed : Round
  ready : (now : ℕ) → List Event → Round

-- How far the main loop gets: it is still running, it was left, or the program crashed.
pub data Progress : Type 0 where
  running : Client → Progress
  left : Client → Progress
  fault : Progress

module _ (key_f12 : ℕ) (rs : RawSocket) (heap : Bytes) (file : Option (List (List ℕ))) where
  -- A round with events; `none` is a crash.
  pub client_round : (now : ℕ) → List Event → Client → Option Client
  client_round now events c = elim (handle_events key_f12 rs heap file now c events) [
    | none ↦ none
    | some c' ↦ process_timers rs heap now c'
  ]

  unfoldable pub main_loop : Client → List Round → Progress
  unfolding client_round
  main_loop c [] = if c.running then running c else left c
  main_loop c (interrupted ∷ rounds) = if c.running then main_loop c rounds else left c
  main_loop c (wait_failed ∷ rounds) =
      if c.running then left (record c { running = false }) else left c
  main_loop c (ready now events ∷ rounds) =
      let next : Progress = elim (client_round now events c) [
        | none ↦ fault
        | some c' ↦ main_loop c' rounds
      ] in
      if c.running then next else left c

-- What the options set, with the terminal's type in the environment. The address given with -d
-- is read and not used.
pub record Settings : Type 0 where
  pub if_name : List ℕ
  pub ethertype : ℕ
  pub keymap_filename : List ℕ
  pub basic_colors : Bool
  pub old_term : Option (List ℕ)
  pub term : Option (List ℕ)

abbrev pub default_settings : (term : Option (List ℕ)) → Settings
default_settings term = record {
  if_name = codes "eth0";
  ethertype = ethertype_rmtdos;
  keymap_filename = codes "./xterm.kmap";
  basic_colors = false;
  old_term = none;
  term = term;
}

-- An option's letter and its argument, as getopt finds them.
abbrev pub Opt : Type 0
Opt = ℕ × List ℕ

-- `is_mac` tells whether sscanf finds six fields, and `hex` is what strtoul reads, in 16 bits.
module _ (is_mac : List ℕ → Bool) (hex : List ℕ → ℕ) where
  -- One option; `none` prints the usage.
  pub set_option : Settings → Opt → Option Settings
  set_option s (opt, optarg) =
      if opt == b'i'
      then some (record s { if_name = optarg })
      else if opt == b'd'
      then if is_mac optarg then some s else none
      else if opt == b'e'
      then some (record s { ethertype = hex optarg })
      else if opt == b'k'
      then some (record s { keymap_filename = optarg })
      else if opt == b'B'
      then some (record s { basic_colors = true })
      else if opt == b'T'
      then some (record s { old_term = s.term; term = some (codes "xterm-256color") })
      else none

  pub parse_options : Settings → List Opt → Option Settings
  unfolding set_option
  parse_options s [] = some s
  parse_options s (o ∷ rest) = elim (set_option s o) [
    | none ↦ none
    | some s' ↦ parse_options s' rest
  ]

-- How main ends, or where it is: it returns before the main loop, returns behind it, is still in it,
-- or has crashed.
pub data Exit (W : Type 0) : Type 0 where
  exited : (code : ℕ) → W → Exit W
  finished : W → (term : Option (List ℕ)) → Client → Exit W
  still_running : W → Client → Exit W
  crashed : W → Exit W

-- The globals before the main loop, once the first probe was sent.
abbrev pub initial : Keymap → Sent → Client
initial keymap probe = record {
  hosts = hostlist_create;
  active_host = none;
  running = true;
  show_debug_window = false;
  show_status = false;
  last_probe = 0;
  keymap = keymap;
  sent = probe ∷ [];
}

-- The terminal is what ncurses says of it, and `read` what fgets returns of a file.
module _ {W : Type 0} (k : Kernel W) (key_f12 : ℕ) (heap : Bytes)
    (read : List ℕ → Option (List (List ℕ))) (has_colors : Bool) (colors color_pairs : ℕ)
    (rounds : List Round) where
  -- Behind the main loop.
  ended : W → Settings → RawSocket → (epoll_fd : ℕ) → Progress → Exit W
  ended w s rs epoll_fd fault = crashed w
  ended w s rs epoll_fd (running c) = still_running w c
  ended w s rs epoll_fd (left c) =
      let restored : Option (List ℕ) = elim s.old_term [ none ↦ s.term | some t ↦ some t ] in
      let (w', _) = close_socket k (k.close w epoll_fd) rs in
      finished w' restored
        (record c { hosts = hostlist_destroy c.hosts; keymap = keymap_free c.keymap })

  -- From the first probe on.
  probed : W → Settings → RawSocket → (epoll_fd : ℕ) → Keymap → Option Sent → Exit W
  unfolding ended
  probed w s rs epoll_fd keymap none = crashed w
  probed w s rs epoll_fd keymap (some probe) =
      ended w s rs epoll_fd
        (main_loop key_f12 rs heap (read s.keymap_filename) (initial keymap probe) rounds)

  -- With both descriptors watched, from init_ncurses on.
  watched : W → Settings → RawSocket → (epoll_fd : ℕ) → Keymap → Option Colors → Exit W
  unfolding probed
  watched w s rs epoll_fd keymap none = exited exit_failure w
  watched w s rs epoll_fd keymap (some table) =
      probed w s rs epoll_fd keymap (send_status_req rs heap none)

  after_epoll : W → Settings → RawSocket → (fd : ℕ) → Keymap → Option ℕ → Exit W
  unfolding watched
  after_epoll w s rs fd keymap none = exited exit_failure w
  after_epoll w s rs fd keymap (some epoll_fd) =
      let (w1, socket_added) = k.epoll_ctl_add w epoll_fd fd in
      let (w2, stdin_added) = k.epoll_ctl_add w1 epoll_fd 0 in
      if not socket_added
      then exited exit_failure w1
      else if not stdin_added
      then exited exit_failure w2
      else watched w2 s rs epoll_fd keymap
          (color_table_init has_colors colors color_pairs s.basic_colors)

  after_socket : W → Settings → RawSocket → Keymap → Option ℕ → Exit W
  unfolding after_epoll
  after_socket w s rs keymap none = exited exit_failure w
  after_socket w s rs keymap (some fd) =
      let (w1, epoll_fd) = k.epoll_create1 w in after_epoll w1 s rs fd keymap epoll_fd

  after_keymap : W → Settings → (loaded : Bool) → Keymap → Exit W
  unfolding after_socket
  after_keymap w s false keymap = exited exit_failure w
  after_keymap w s true keymap =
      let (w1, rs, fd) = create_socket k w s.if_name s.ethertype in after_socket w1 s rs keymap fd

  -- `extra` is an argument that is no option.
  after_options : W → (extra : Bool) → Option Settings → Exit W
  unfolding after_keymap
  after_options w extra none = exited exit_failure w
  after_options w true (some s) = exited exit_failure w
  after_options w false (some s) =
      let (loaded, keymap) = keymap_load no_keymap (read s.keymap_filename) in
      after_keymap w s loaded keymap

  -- With the table of characters, or without.
  after_table : W → Option Table → (rest : Exit W) → Exit W
  after_table w none rest = exited exit_failure w
  after_table w (some table) rest = rest

  pub main :
      (is_mac : List ℕ → Bool) (hex : List ℕ → ℕ) (iconv : ℕ → Option (List ℕ))
      → W
      → (term : Option (List ℕ)) → List Opt
      → (extra : Bool) → Exit W
  unfolding parse_options after_options after_table
  main is_mac hex iconv w term opts extra =
      after_table w (cp437_table_init iconv)
        (after_options w extra (parse_options is_mac hex (default_settings term) opts))
