-- ===== src/Client/Start/Listed.antt =====
-- What src/client/main.c does to the numbers and addresses in the list of hosts.
use rmtdos.Base.{
  ℕ, ◌≡◌, refl, ◌∙◌, sym, subst, true, Option-cases, Bool-cases, inl, inr, ltb, leb, ◌&&◌, ◌-◌,
  ◌==◌, ◌+◌,
}
use rmtdos.Base.Memory.{Bytes}
use rmtdos.Wire.{src_mac_addr, pkt_type, v1_status_resp, v1_vga_text}
use rmtdos.Network.{RawSocket}
use rmtdos.Hostlist.{RemoteHost, Hosts, modify, hostlist_find_by_mac, hostlist_find_by_index}
use rmtdos.Hostlist.Names.{names, names-modify}
use rmtdos.Hostlist.Listed.{IsListed, register-IsListed}
use rmtdos.Client.{
  Client, process_incoming_video_text, process_socket_io, accepts, show_text, video_count,
  video_offset, video_text_buffer_len, leaves, process_stdin_menu_mode, start_remote_control,
}

-- The list stays one in which every server has the number of its slot and an address of its own.
abbrev pub Lists : Client → Client → Type 0
Lists c c' = IsListed (names c.hosts) → IsListed (names c'.hosts)

pub same-Lists : (c c' : Client) → names c'.hosts ≡ names c.hosts → Lists c c'
same-Lists c c' same l = subst IsListed (sym same) l

text-names :
    (now : ℕ) (hs : Hosts) (buf : Bytes) → names (process_incoming_video_text now hs buf) ≡ names hs
unfolding process_incoming_video_text
text-names now hs buf = elim (Option-cases (hostlist_find_by_mac hs (src_mac_addr buf))) [
  | inl unknown ↦ rw (unknown, process_incoming_video_text) refl
  | inr (j, found) ↦
      let note = λ (rh : RemoteHost). record rh { tv_last_resp = now } in
      let noted = names-modify hs j note (λ rh. (refl, refl)) in
      elim (Bool-cases (ltb video_text_buffer_len (video_count buf + video_offset buf))) [
        | inl long ↦ rw (found, process_incoming_video_text, long) noted
        | inr short ↦
            rw (found, process_incoming_video_text, short)
              (names-modify (modify hs j note) j (show_text buf) (λ rh. (refl, refl)) ∙ noted)
      ]
]

pub socket-Lists :
    (rs : RawSocket) (now : ℕ) (c : Client) (received : ℕ) (buf : Bytes)
    → Lists c (process_socket_io rs now c received buf)
unfolding process_socket_io
socket-Lists rs now c received buf l = elim (Bool-cases (received == 0)) [
  | inl none_read ↦ rw none_read l
  | inr read ↦ elim (Bool-cases (accepts rs buf)) [
    | inr other ↦ rw (read, other) l
    | inl mine ↦ elim (Bool-cases (pkt_type buf == v1_status_resp)) [
      | inl status ↦ rw (read, mine, status) (register-IsListed now c.hosts buf l)
      | inr no_status ↦ elim (Bool-cases (pkt_type buf == v1_vga_text)) [
        | inl is_text ↦
            rw (read, mine, no_status, is_text)
              (subst IsListed (sym (text-names now c.hosts buf)) l)
        | inr no_text ↦ rw (read, mine, no_status, no_text) l
      ]
    ]
  ]
]

pub menu-Lists :
    (key_f12 : ℕ) (c : Client) (ch : ℕ) → Lists c (process_stdin_menu_mode key_f12 c ch)
unfolding process_stdin_menu_mode start_remote_control
menu-Lists key_f12 c ch l = elim (Bool-cases (leaves key_f12 ch)) [
  | inl leaving ↦ rw leaving l
  | inr stays ↦ elim (Bool-cases (leb b'0' ch && leb ch b'9')) [
    | inr no_digit ↦ rw (stays, no_digit) l
    | inl digit ↦ elim (Option-cases (hostlist_find_by_index c.hosts (ch - b'0'))) [
      | inl unknown ↦ rw (stays, digit, unknown, process_stdin_menu_mode) l
      | inr (i, found) ↦
          rw (stays, digit, found, process_stdin_menu_mode)
            (subst IsListed
              (sym (
                names-modify c.hosts i (λ (rh : RemoteHost). record rh { window = true })
                  (λ rh. (refl, refl))))
              l)
    ]
  ]
]
