-- ===== src/Client/Start/Faults.antt =====
-- No assertion of src/client fails, and no pointer to no server is followed, in what a round of the main
-- loop of src/client/main.c does.
use rmtdos.Base.{
  ℕ, zero, suc, ◌≡◌, refl, ap, ◌∙◌, sym, Option, none, some, List, [], ◌∷◌, ◌++◌, true, arith,
  get_elem?, leb, ltb, ◌-◌, subst, if◌then◌else◌, ◌&&◌, Bool-cases, Option-cases, inl, inr, ◌⊎◌,
}
use rmtdos.Base.Memory.{Bytes}
use rmtdos.Wire.{v1_session_start, v1_status_req, v1_vga_text, pkt_type}
use rmtdos.Network.{RawSocket, Sent, send_status_req, send_session_start}
use rmtdos.Hostlist.{RemoteHost, Hosts, hostlist_find_by_index, max_hosts}
use rmtdos.Hostlist.Names.{names}
use rmtdos.Client.Start.Listed.{Lists, same-Lists, socket-Lists, menu-Lists}
use rmtdos.Client.{
  Client, start_remote_control, process_stdin_menu_mode, leaves, process_timers, refresh_sessions,
  process_socket_io, divides_by_zero, expired, session_start_interval, broadcast_probe_interval,
}
use rmtdos.Client.Keyboard.Kept.{sent_packet, session_mode-Runs}
use rmtdos.Client.Events.{
  Event, on_stdin, on_socket, handle_event, handle_events, handle_stdin, session_keys, menu_keys,
  handle_socket, event_handled,
}
use rmtdos.Client.Start.Hosts.{
  occupied, occupied_slot, slot_occupied, modify-Keeps, Selected, socket-Selected, Keeps,
}

find-occupied : (hs : Hosts) (n i : ℕ) → hostlist_find_by_index hs n ≡ some i → occupied hs i ≡ true
find-occupied hs n i found = elim (Bool-cases (ltb n max_hosts)) [
  | inr out ↦ absurd (ground arith)
  | inl inside ↦ elim (Option-cases (get_elem? hs n)) [
    | inl missing ↦ (let bad : none ≡ some i = rw (inside, missing) at found in cc)
    | inr (none, at) ↦ (let bad : none ≡ some i = rw (inside, at) at found in cc)
    | inr (some rh, at) ↦
        let here : some n ≡ some i = rw (inside, at) at found in
        let same : n ≡ i = cc in subst (λ j. occupied hs j ≡ true) same (slot_occupied hs n at)
  ]
]

started-Selected :
    (c : Client) (i : ℕ) → occupied c.hosts i ≡ true → Selected (start_remote_control c i)
unfolding start_remote_control
started-Selected c i on j active =
    let same : i ≡ j = cc in
    subst (λ k. occupied (start_remote_control c i).hosts k ≡ true) same
      (modify-Keeps c.hosts i (λ rh. record rh { window = true }) i on)

menu-Selected :
    (key_f12 : ℕ) (c : Client) (ch : ℕ)
    → Selected c
    → Selected (process_stdin_menu_mode key_f12 c ch)
unfolding process_stdin_menu_mode
menu-Selected key_f12 c ch sel = elim (Bool-cases (leaves key_f12 ch)) [
  | inl leaving ↦ rw leaving sel
  | inr stays ↦ elim (Bool-cases (leb b'0' ch && leb ch b'9')) [
    | inr no_digit ↦ rw (stays, no_digit) sel
    | inl digit ↦ elim (Option-cases (hostlist_find_by_index c.hosts (ch - b'0'))) [
      | inl unknown ↦ rw (stays, digit, unknown, process_stdin_menu_mode) sel
      | inr (i, found) ↦
          rw (stays, digit, found, process_stdin_menu_mode)
            (started-Selected c i (find-occupied c.hosts (ch - b'0') i found))
    ]
  ]
]

next-Keeps :
    (slot slot' : Option RemoteHost) (hs hs' : Hosts)
    → (occupied (slot ∷ []) 0 ≡ true → occupied (slot' ∷ []) 0 ≡ true)
    → Keeps hs hs'
    → Keeps (slot ∷ hs) (slot' ∷ hs')
next-Keeps none none hs hs' same keeps zero on = on
next-Keeps none (some h) hs hs' same keeps zero on = refl
next-Keeps (some h) none hs hs' same keeps zero on = same refl
next-Keeps (some h) (some h') hs hs' same keeps zero on = refl
next-Keeps none none hs hs' same keeps (suc i) on = keeps i on
next-Keeps none (some h) hs hs' same keeps (suc i) on = keeps i on
next-Keeps (some h) none hs hs' same keeps (suc i) on = keeps i on
next-Keeps (some h) (some h') hs hs' same keeps (suc i) on = keeps i on

-- A run that ends, in a client whose active host is in its list.
abbrev pub Safe : Client → Option Client → Type 0
Safe c run = (c' : Client) × (run ≡ some c') × Selected c' × Lists c c'

same-Selected :
    (c c' : Client) → c'.hosts ≡ c.hosts → c'.active_host ≡ c.active_host → Selected c → Selected c'
same-Selected c c' hosts active sel i at = ap (λ hs. occupied hs i) hosts ∙ sel i (sym active ∙ at)

-- A packet with the text of a screen that has no columns.
abbrev pub IsColumnless : Event → Type 0
IsColumnless (on_stdin codes) = ⊥
IsColumnless (on_socket received buf) = (pkt_type buf ≡ v1_vga_text) × (buf 27 ≡ 0)

abbrev pub SomeColumnless : List Event → Type 0
SomeColumnless [] = ⊥
SomeColumnless (e ∷ events) = IsColumnless e ⊎ SomeColumnless events

module _ (key_f12 : ℕ) (rs : RawSocket) (heap : Bytes) (file : Option (List (List ℕ))) where
  stdin-Safe :
      (now : ℕ) (c : Client) (active : Option ℕ) (codes : List ℕ)
      → c.active_host ≡ active
      → Selected c
      → Safe c (handle_stdin key_f12 rs heap file now c active codes)
  unfolding handle_stdin menu_keys session_keys
  stdin-Safe now c none [] at sel = (c, refl, sel, λ l. l)
  stdin-Safe now c none (ch ∷ codes) at sel = (
    process_stdin_menu_mode key_f12 c ch,
    refl,
    menu-Selected key_f12 c ch sel,
    menu-Lists key_f12 c ch,
  )
  stdin-Safe now c (some i) codes at sel =
      let (rh, slot) = occupied_slot c.hosts i (sel i at) in
      let (c', done, hosts, active) = session_mode-Runs rs heap rh.if_addr file c codes in
      (
        c',
        ap (λ o. session_keys key_f12 rs heap file now c o codes) slot ∙ done,
        same-Selected c c' hosts active sel,
        same-Lists c c' (ap names hosts),
      )

  -- One event crashes the program only if it is a packet without columns.
  event-Safe :
      (now : ℕ) (c : Client) (e : Event)
      → Selected c
      → Safe c (handle_event key_f12 rs heap file now c e)
        ⊎ ((handle_event key_f12 rs heap file now c e ≡ none) × IsColumnless e)
  unfolding handle_event handle_socket divides_by_zero
  event-Safe now c (on_stdin codes) sel = inl (stdin-Safe now c c.active_host codes refl sel)
  event-Safe now c (on_socket received buf) sel =
      elim (Bool-cases (divides_by_zero rs c received buf)) [
        | inl crash ↦ inr (rw crash refl, (ground arith, ground arith))
        | inr through ↦ inl (
          process_socket_io rs now c received buf,
          rw through refl,
          socket-Selected rs now c received buf sel,
          socket-Lists rs now c received buf,
        )
      ]

  pub events-Safe :
      (now : ℕ) (events : List Event) (c : Client)
      → Selected c
      → Safe c (handle_events key_f12 rs heap file now c events)
        ⊎ ((handle_events key_f12 rs heap file now c events ≡ none) × SomeColumnless events)
  unfolding handle_events
  events-Safe now [] c sel = inl (c, refl, sel, λ l. l)
  events-Safe now (e ∷ events) c sel = elim (event-Safe now c e sel) [
    | inr (crashed, columnless) ↦ inr (rw (handle_events, crashed) refl, inl columnless)
    | inl (c1, done, sel1, lists1) ↦
        let through = event_handled key_f12 rs heap file now c c1 e events done in
        elim (events-Safe now events c1 sel1) [
          | inl (c2, rest, sel2, lists2) ↦ inl (c2, through ∙ rest, sel2, λ l. lists2 (lists1 l))
          | inr (crashed, columnless) ↦ inr (through ∙ crashed, inr columnless)
        ]
  ]

  refresh-Keeps :
      (now : ℕ) (hs : Hosts) (sent : List Sent)
      → (hs' : Hosts) × (sent' : List Sent) × (refresh_sessions rs heap now hs sent
          ≡ some (hs', sent'))
        × Keeps hs hs'
        × (names hs' ≡ names hs)
  unfolding refresh_sessions send_session_start
  refresh-Keeps now [] sent = ([], sent, refl, λ i on. on, refl)
  refresh-Keeps now (none ∷ hs) sent =
      let (hs', sent', done, keeps, same) = refresh-Keeps now hs sent in
      (
        none ∷ hs',
        sent',
        rw done refl,
        next-Keeps none none hs hs' (λ on. on) keeps,
        ap (λ v. none ∷ v) same,
      )
  refresh-Keeps now (some rh ∷ hs) sent =
      let (s, built) =
        sent_packet rs heap (some rh.if_addr) v1_session_start none 0 (omega arith) in
      let made : send_session_start rs heap (some rh.if_addr) ≡ some s = built in
      elim (Bool-cases
        (rh.window && expired rs heap now rh.tv_last_session_start session_start_interval)) [
          | inr idle ↦
              let (hs', sent', done, keeps, same) = refresh-Keeps now hs sent in
              (
                some rh ∷ hs',
                sent',
                rw (refresh_sessions, made, idle, done, idle) refl,
                next-Keeps (some rh) (some rh) hs hs' (λ on. on) keeps,
                ap (λ v. some (rh.index, rh.if_addr) ∷ v) same,
              )
          | inl due ↦
              let (hs', sent', done, keeps, same) = refresh-Keeps now hs (sent ++ (s ∷ [])) in
              let rh' : RemoteHost = record rh { tv_last_session_start = now } in
              (
                some rh' ∷ hs',
                sent',
                rw (refresh_sessions, made, due, done, due) refl,
                next-Keeps (some rh) (some rh') hs hs' (λ on. on) keeps,
                ap (λ v. some (rh.index, rh.if_addr) ∷ v) same,
              )
        ]

  -- The timers leave `running` as it is.
  pub timers-Safe :
      (now : ℕ) (c : Client)
      → Selected c
      → (c' : Client) × (process_timers rs heap now c ≡ some c')
        × Selected c'
        × (c'.running ≡ c.running)
        × Lists c c'
  unfolding process_timers send_status_req
  timers-Safe now c sel =
      let (s, built) = sent_packet rs heap none v1_status_req none 0 (omega arith) in
      let made : send_status_req rs heap none ≡ some s = built in
      let probing = expired rs heap now c.last_probe broadcast_probe_interval in
      let (hs', sent', done, keeps, same) =
        refresh-Keeps now c.hosts (if probing then c.sent ++ (s ∷ []) else c.sent) in
      let c' : Client = record c {
        hosts = hs';
        sent = sent';
        last_probe = if probing then now else c.last_probe;
      } in
      (
        c',
        rw (process_timers, made, done) refl,
        λ i active. keeps i (sel i active),
        refl,
        same-Lists c c' same,
      )
