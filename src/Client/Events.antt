-- ===== src/Client/Events.antt =====
-- The main loop of src/client/main.c: what epoll_wait reports, and what the handlers make of it. A
-- descriptor that is ready comes with what the handler reads from it. A failed epoll_wait is left out.
use rmtdos.Base.{if◌then◌else◌, ℕ, ◌≡◌, refl, ap, ◌∙◌, Option, none, some, List, [], ◌∷◌, get_elem?}
use rmtdos.Base.Memory.{Bytes}
use rmtdos.Network.{RawSocket}
use rmtdos.Hostlist.{RemoteHost}
use rmtdos.Client.{Client, divides_by_zero, process_socket_io, process_stdin_menu_mode}
use rmtdos.Client.Keyboard.{process_stdin_session_mode}

-- The standard input, with the codes that are read before an ERR, and the socket, with what recvfrom
-- returns.
pub data Event : Type 0 where
  on_stdin : List ℕ → Event
  on_socket : (received : ℕ) → Bytes → Event

module _ (key_f12 : ℕ) (rs : RawSocket) (heap : Bytes) (file : Option (List (List ℕ)))
    (now : ℕ) where
  unfoldable pub menu_keys : Client → List ℕ → Client
  menu_keys c [] = c
  menu_keys c (ch ∷ codes) = process_stdin_menu_mode key_f12 c ch

  -- Keys for the server in a slot; `none` is a failed assertion, or a pointer to no server.
  unfoldable pub session_keys : Client → Option (Option RemoteHost) → List ℕ → Option Client
  session_keys c none codes = none
  session_keys c (some none) codes = none
  session_keys c (some (some rh)) codes = process_stdin_session_mode rs heap rh.if_addr file c codes

  unfoldable pub handle_stdin : Client → (active_host : Option ℕ) → List ℕ → Option Client
  unfolding menu_keys session_keys
  handle_stdin c none codes = some (menu_keys c codes)
  handle_stdin c (some i) codes = session_keys c (get_elem? c.hosts i) codes

  -- A packet; `none` is a division by zero.
  unfoldable pub handle_socket : Client → (received : ℕ) → Bytes → Option Client
  handle_socket c received buf =
      if divides_by_zero rs c received buf
      then none
      else some (process_socket_io rs now c received buf)

  unfoldable pub handle_event : Client → Event → Option Client
  unfolding handle_stdin handle_socket
  handle_event c (on_stdin codes) = handle_stdin c c.active_host codes
  handle_event c (on_socket received buf) = handle_socket c received buf

  -- The loop over the events of one epoll_wait.
  unfoldable pub handle_events : Client → List Event → Option Client
  unfolding handle_event
  handle_events c [] = some c
  handle_events c (e ∷ events) = elim (handle_event c e) [
    | none ↦ none
    | some c' ↦ handle_events c' events
  ]

  pub event_handled :
      (c c1 : Client) (e : Event) (events : List Event)
      → handle_event c e ≡ some c1
      → handle_events c (e ∷ events) ≡ handle_events c1 events
  unfolding handle_events
  event_handled c c1 e events first = rw (handle_events, first) refl

  -- With a server selected a key goes to process_stdin_session_mode.
  pub session_event :
      (c c1 : Client) (i : ℕ) (rh : RemoteHost) (codes : List ℕ)
      → c.active_host ≡ some i
      → get_elem? c.hosts i ≡ some (some rh)
      → process_stdin_session_mode rs heap rh.if_addr file c codes ≡ some c1
      → handle_event c (on_stdin codes) ≡ some c1
  unfolding handle_event handle_stdin session_keys
  session_event c c1 i rh codes active slot result =
      ap (λ a. handle_stdin c a codes) active ∙ (ap (λ o. session_keys c o codes) slot ∙ result)
