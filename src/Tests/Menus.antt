-- ===== src/Tests/Menus.antt =====
-- The client's menu with two servers, of which the second has responded.
use rmtdos.Base.{ℕ, zero, suc, List, ◌+◌, ◌<◌, ◌≡◌, refl, some, [], ◌∷◌, arith, get_elem?, true}
use rmtdos.Hostlist.{RemoteHost, host_create}
use rmtdos.Hostlist.Names.{names}
use rmtdos.Hostlist.Listed.{IsListed}
use rmtdos.Client.{Client, process_stdin_menu_mode}
use rmtdos.Client.Probing.{
  HostLine, fmt_mac_addr, update_probing_window, probe_window_lines, menu_choice,
}
use rmtdos.Client.Events.{on_socket, on_stdin}
use rmtdos.Client.Start.{Round, ready, interrupted}
use rmtdos.Tests.Clients.{response}
use rmtdos.Tests.Packets.{server_mac}
use rmtdos.Tests.Keymaps.{client}

abbrev silent : RemoteHost
silent = host_create 0

abbrev responding : RemoteHost
responding = record (host_create 1) { if_addr = server_mac; tv_last_resp = 5000000 }

abbrev choosing : Client
choosing = record client { hosts = some silent ∷ some responding ∷ [] }

choosing-IsListed : IsListed (names choosing.hosts)
choosing-IsListed = record { indexed = indexed; unique = unique }
  where
    indexed :
        (i n : ℕ) (mac : List ℕ) → get_elem? (names choosing.hosts) i ≡ some (some (n, mac)) → n ≡ i
    indexed zero n mac at = cc
    indexed (suc zero) n mac at = cc
    indexed (suc (suc i)) n mac at = cc

    unique :
        (i j n m : ℕ) (mac : List ℕ)
        → get_elem? (names choosing.hosts) i ≡ some (some (n, mac))
        → get_elem? (names choosing.hosts) j ≡ some (some (m, mac))
        → i ≡ j
    unique zero zero n m mac at at' = refl
    unique zero (suc zero) n m mac at at' = cc
    unique zero (suc (suc j)) n m mac at at' = cc
    unique (suc zero) zero n m mac at at' = cc
    unique (suc zero) (suc zero) n m mac at at' = refl
    unique (suc zero) (suc (suc j)) n m mac at at' = cc
    unique (suc (suc i)) j n m mac at at' = cc

menu_choice_example :
    (y : ℕ) × (line : HostLine) × (y < probe_window_lines)
    × (update_probing_window 7000000 choosing.hosts y ≡ some line)
    × (line.source ≡ fmt_mac_addr server_mac)
    × (line.video_mode ≡ responding.status.video_mode)
    × (line.text_cols ≡ responding.status.text_cols)
    × (line.text_rows ≡ responding.status.text_rows)
    × (let c' = process_stdin_menu_mode 276 choosing (b'0' + line.id) in
        (c'.active_host ≡ some 1)
        × (get_elem? c'.hosts 1 ≡ some (some (record responding { window = true }))))
menu_choice_example =
    menu_choice 276 7000000 choosing 1 responding (omega arith) (omega arith) refl refl
      choosing-IsListed

-- A response of a server, an interruption, and a digit.
abbrev rounds : List Round
rounds =
    ready 5000000 (on_socket 60 response ∷ [])
    ∷ interrupted
    ∷ ready 6000000 (on_stdin (b'0' ∷ []) ∷ [])
    ∷ []
