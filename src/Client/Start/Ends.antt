-- ===== src/Client/Start/Ends.antt =====
-- How main of src/client/main.c ends, and which descriptors are open then.
use rmtdos.Base.{
  ℕ, ◌<◌, ◌≡◌, subst, refl, ap, ◌∙◌, Option, none, some, List, [], ◌∷◌, ◌⊎◌, inl, inr, Bool, true,
  false, arith, Bool-cases, Option-cases,
}
use rmtdos.Base.Memory.{Bytes}
use rmtdos.Wire.{v1_status_req}
use rmtdos.Network.{RawSocket, send_status_req}
use rmtdos.Network.Socket.{Kernel, IsKernel, opening, erase, close_socket, close_fd, create_socket}
use rmtdos.Network.Opened.{erase_head, Created, create_socket-Created}
use rmtdos.Hostlist.{Hosts, hostlist_destroy}
use rmtdos.Keymap.{Keymap, no_keymap, keymap_load}
use rmtdos.Client.Keyboard.Kept.{sent_packet}
use rmtdos.Display.Characters.{Table, cp437_table_init}
use rmtdos.Display.{Colors, color_table_init}
use rmtdos.Client.Start.{
  Round, Progress, running, left, fault, Settings, Opt, default_settings, set_option, parse_options,
  Exit, exited, finished, still_running, crashed, ended, probed, watched, after_epoll, after_socket,
  after_keymap, after_options, after_table, main, exit_failure,
}
use rmtdos.Client.Start.Runs.{SomeRound, client_crash}

-- No slot of the list has a server.
abbrev pub AllFree : Hosts → Type 0
AllFree [] = Unit {0}
AllFree (slot ∷ hs) = (slot ≡ none) × AllFree hs

destroy-AllFree : (hs : Hosts) → AllFree (hostlist_destroy hs)
unfolding hostlist_destroy
destroy-AllFree [] = tt
destroy-AllFree (slot ∷ hs) = (refl, destroy-AllFree hs)

-- At the end everything is closed and given back, in the main loop the socket and the epoll descriptor
-- are open, and a crash has a reason. Where it gives up before, it reports failure, and what
-- it had opened by then is left to the system.
abbrev pub Ends : {W : Type 0} → (W → List ℕ) → List ℕ → (reason : Type 0) → Exit W → Type 0
Ends opened fds reason (finished w term c) = (opened w ≡ fds) × AllFree c.hosts
Ends opened fds reason (still_running w c) = (fd epoll_fd : ℕ) × (opened w ≡ epoll_fd ∷ fd ∷ fds)
Ends opened fds reason (exited code w) =
    (code ≡ exit_failure)
    × ((opened w ≡ fds)
        ⊎ ((fd : ℕ) × (opened w ≡ fd ∷ fds))
        ⊎ ((fd epoll_fd : ℕ) × (opened w ≡ epoll_fd ∷ fd ∷ fds)))
Ends opened fds reason (crashed w) = reason

-- The EtherType keeps its two bytes.
set_option-fits :
    (is_mac : List ℕ → Bool) (hex : List ℕ → ℕ) (s s' : Settings) (o : Opt)
    → ((l : List ℕ) → hex l < 65536)
    → s.ethertype < 65536
    → set_option is_mac hex s o ≡ some s'
    → s'.ethertype < 65536
unfolding set_option
set_option-fits is_mac hex s s' (opt, optarg) range fits set = ground (arith, range optarg)

parse_options-fits :
    (is_mac : List ℕ → Bool) (hex : List ℕ → ℕ) (opts : List Opt) (s s' : Settings)
    → ((l : List ℕ) → hex l < 65536)
    → s.ethertype < 65536
    → parse_options is_mac hex s opts ≡ some s'
    → s'.ethertype < 65536
unfolding parse_options
parse_options-fits is_mac hex [] s s' range fits parsed =
    let same : s ≡ s' = cc in subst (λ (t : Settings). t.ethertype < 65536) same fits
parse_options-fits is_mac hex (o ∷ opts) s s' range fits parsed =
    elim (Option-cases (set_option is_mac hex s o)) [
      | inl usage ↦ (let bad : none ≡ some s' = rw (usage, parse_options) at parsed in cc)
      | inr (s1, set) ↦
          parse_options-fits is_mac hex opts s1 s' range
            (set_option-fits is_mac hex s s1 o range fits set) (rw (set, parse_options) at parsed)
    ]

module _ {W : Type 0} (k : Kernel W) (opened : W → List ℕ) (ok : IsKernel k opened) (key_f12 : ℕ)
    (heap : Bytes) (read : List ℕ → Option (List (List ℕ))) (has_colors : Bool)
    (colors color_pairs : ℕ) (rounds : List Round) (fds : List ℕ) where
  ended-Ends :
      (w : W) (s : Settings) (rs : RawSocket) (fd epoll_fd : ℕ) (p : Progress)
      → rs.sock_fd ≡ some fd
      → opened w ≡ epoll_fd ∷ fd ∷ fds
      → (p ≡ fault → SomeRound rounds)
      → Ends opened fds
          (SomeRound rounds)
          (ended k key_f12 heap read has_colors colors color_pairs rounds w s rs epoll_fd p)
  unfolding ended close_socket close_fd
  ended-Ends w s rs fd epoll_fd fault at held sound = sound refl
  ended-Ends w s rs fd epoll_fd (running c) at held sound = (fd, epoll_fd, held)
  ended-Ends w s rs fd epoll_fd (left c) at held sound =
      let w1 = k.close w epoll_fd in
      let one : opened w1 ≡ fd ∷ fds =
        ok.closes w epoll_fd ∙ (ap (erase epoll_fd) held ∙ erase_head epoll_fd (fd ∷ fds)) in
      (
        ap (λ o. opened (close_fd k w1 o)) at
            ∙ (ok.closes w1 fd ∙ (ap (erase fd) one ∙ erase_head fd fds)),
        destroy-AllFree c.hosts,
      )

  watched-Ends :
      (w : W) (s : Settings) (rs : RawSocket) (fd epoll_fd : ℕ) (keymap : Keymap)
      (table : Option Colors)
      → rs.sock_fd ≡ some fd
      → opened w ≡ epoll_fd ∷ fd ∷ fds
      → Ends opened fds (SomeRound rounds) (
          watched k key_f12 heap read has_colors colors color_pairs rounds w s rs epoll_fd keymap
            table)
  unfolding watched probed send_status_req
  watched-Ends w s rs fd epoll_fd keymap none at held = (refl, inr (inr (fd, epoll_fd, held)))
  watched-Ends w s rs fd epoll_fd keymap (some table) at held =
      let (probe, built) = sent_packet rs heap none v1_status_req none 0 (omega arith) in
      rw built (
        ended-Ends w s rs fd epoll_fd _ at held
          (client_crash key_f12 rs heap (read s.keymap_filename) keymap probe rounds))

  after_epoll-Ends :
      (w : W) (s : Settings) (rs : RawSocket) (fd : ℕ) (keymap : Keymap) (answer : Option ℕ)
      → rs.sock_fd ≡ some fd
      → opened w ≡ opening answer (fd ∷ fds)
      → Ends opened fds (SomeRound rounds) (
          after_epoll k key_f12 heap read has_colors colors color_pairs rounds w s rs fd keymap
            answer)
  unfolding after_epoll
  after_epoll-Ends w s rs fd keymap none at held = (refl, inr (inl (fd, held)))
  after_epoll-Ends w s rs fd keymap (some epoll_fd) at held =
      let w1 = (k.epoll_ctl_add w epoll_fd fd).0 in
      let w2 = (k.epoll_ctl_add w1 epoll_fd 0).0 in
      let held1 = ok.adds w epoll_fd fd ∙ held in
      let held2 = ok.adds w1 epoll_fd 0 ∙ held1 in
      elim (Bool-cases (k.epoll_ctl_add w epoll_fd fd).1) [
        | inr failed ↦ rw failed (refl, inr (inr (fd, epoll_fd, held1)))
        | inl added ↦ elim (Bool-cases (k.epoll_ctl_add w1 epoll_fd 0).1) [
          | inr failed ↦ rw (added, failed) (refl, inr (inr (fd, epoll_fd, held2)))
          | inl both ↦
              rw (added, both)
                (watched-Ends w2 s rs fd epoll_fd keymap
                  (color_table_init has_colors colors color_pairs s.basic_colors) at held2)
        ]
      ]

  after_socket-Ends :
      (ethertype : ℕ) (w : W) (s : Settings) (rs : RawSocket) (keymap : Keymap) (answer : Option ℕ)
      → Created k opened fds ethertype (w, rs, answer)
      → Ends opened fds (SomeRound rounds) (
          after_socket k key_f12 heap read has_colors colors color_pairs rounds w s rs keymap
            answer)
  unfolding after_socket
  after_socket-Ends ethertype w s rs keymap none (inl (fd, returned, _, _, _, _, _)) = cc
  after_socket-Ends ethertype w s rs keymap none (inr (_, _, held)) = (refl, inl held)
  after_socket-Ends ethertype w s rs keymap (some fd) (inr (no_fd, _, _)) = cc
  after_socket-Ends ethertype w s rs keymap (some fd) (inl (fd', returned, at, held, _, _, _)) =
      let same : fd' ≡ fd = cc in
      after_epoll-Ends (k.epoll_create1 w).0 s rs fd keymap (k.epoll_create1 w).1
        (at ∙ ap some same)
        (ok.creates w ∙ ap (opening (k.epoll_create1 w).1) (held ∙ ap (λ f. f ∷ fds) same))

-- Where the system calls do what is documented of them, and strtoul's value is cut to 16 bits, main
-- has one of these ends: it returns before its main loop, always with a failure, with at most the
-- socket and the epoll descriptor left open; or it is in its main loop, with these two open; or it
-- returns behind the loop, having closed what it opened and given back every slot of the list of
-- hosts. Whatever the options, the files and the events are, a failed assertion, a missing server or
-- a division by zero ends it only in its main loop, and only if one of the packets has the text of a
-- screen without columns, by which the client divides.
pub client_main-Ends :
    {W : Type 0} (k : Kernel W) (opened : W → List ℕ) (key_f12 : ℕ) (heap : Bytes)
    (read : List ℕ → Option (List (List ℕ))) (has_colors : Bool) (colors color_pairs : ℕ)
    (rounds : List Round) (is_mac : List ℕ → Bool) (hex : List ℕ → ℕ) (iconv : ℕ → Option (List ℕ))
    (w : W) (term : Option (List ℕ)) (opts : List Opt) (extra : Bool)
    → IsKernel k opened
    → ((l : List ℕ) → hex l < 65536)
    → Ends opened (opened w) (SomeRound rounds) (
        main k key_f12 heap read has_colors colors color_pairs rounds is_mac hex iconv w term opts
          extra)
unfolding main after_table after_options after_keymap
client_main-Ends {W} k opened key_f12 heap read has_colors colors color_pairs rounds is_mac hex
      iconv w term opts extra ok range =
    with_table (cp437_table_init iconv) _ (
      with_settings (parse_options is_mac hex (default_settings term) opts) extra (λ s parsed.
        parse_options-fits is_mac hex opts (default_settings term) s range (omega arith) parsed))
  where
    with_table :
        (answer : Option Table) (rest : Exit W)
        → Ends opened (opened w) (SomeRound rounds) rest
        → Ends opened
            (opened w)
            (SomeRound rounds)
            (after_table k key_f12 heap read has_colors colors color_pairs rounds w answer rest)
    with_table none rest ends = (refl, inl refl)
    with_table (some table) rest ends = ends

    with_keymap :
        (s : Settings) (loaded : Bool) (keymap : Keymap)
        → s.ethertype < 65536
        → Ends opened (opened w) (SomeRound rounds) (
            after_keymap k key_f12 heap read has_colors colors color_pairs rounds w s loaded keymap)
    with_keymap s false keymap fits = (refl, inl refl)
    with_keymap s true keymap fits =
        after_socket-Ends k opened ok key_f12 heap read has_colors colors color_pairs rounds
          (opened w) s.ethertype (create_socket k w s.if_name s.ethertype).0 s
          (create_socket k w s.if_name s.ethertype).1 keymap
          (create_socket k w s.if_name s.ethertype).2
          (create_socket-Created k opened w s.if_name s.ethertype ok fits)

    with_settings :
        (answer : Option Settings) (extra : Bool)
        → ((s : Settings) → answer ≡ some s → s.ethertype < 65536)
        → Ends opened
            (opened w)
            (SomeRound rounds)
            (after_options k key_f12 heap read has_colors colors color_pairs rounds w extra answer)
    with_settings none extra fits = (refl, inl refl)
    with_settings (some s) true fits = (refl, inl refl)
    with_settings (some s) false fits =
        with_keymap s (keymap_load no_keymap (read s.keymap_filename)).0
          (keymap_load no_keymap (read s.keymap_filename)).1 (fits s refl)
