-- ===== src/Client/Start/Hosts.antt =====
-- src/client/hostlist.c and src/client/main.c never give a slot of the list of hosts back.
use rmtdos.Base.{
  ℕ, zero, suc, ◌≡◌, refl, ◌∙◌, none, some, [], ◌∷◌, Bool, true, false, get_elem?, set,
  Option-cases, Bool-cases, ltb, ◌==◌, ◌+◌, inl, inr,
}
use rmtdos.Base.Memory.{Bytes}
use rmtdos.Wire.{src_mac_addr, pkt_type, v1_status_resp, v1_vga_text}
use rmtdos.Network.{RawSocket}
use rmtdos.Hostlist.{
  RemoteHost, Hosts, modify, hostlist_find_by_mac, free_slot, hostlist_register, heard, host_create,
}
use rmtdos.Client.{
  Client, process_incoming_video_text, process_socket_io, accepts, show_text, video_count,
  video_offset, video_text_buffer_len,
}

-- There is a server in the slot.
abbrev pub occupied : Hosts → ℕ → Bool
occupied [] i = false
occupied (none ∷ hs) zero = false
occupied (some rh ∷ hs) zero = true
occupied (slot ∷ hs) (suc i) = occupied hs i

pub occupied_slot :
    (hs : Hosts) (i : ℕ)
    → occupied hs i ≡ true
    → (rh : RemoteHost) × (get_elem? hs i ≡ some (some rh))
occupied_slot [] i h = cc
occupied_slot (none ∷ hs) zero h = cc
occupied_slot (some rh ∷ hs) zero h = (rh, refl)
occupied_slot (none ∷ hs) (suc i) h = occupied_slot hs i h
occupied_slot (some rh ∷ hs) (suc i) h = occupied_slot hs i h

pub slot_occupied :
    (hs : Hosts) (i : ℕ) {rh : RemoteHost} → get_elem? hs i ≡ some (some rh) → occupied hs i ≡ true
slot_occupied [] i h = cc
slot_occupied (none ∷ hs) zero h = cc
slot_occupied (some rh ∷ hs) zero h = refl
slot_occupied (none ∷ hs) (suc i) h = slot_occupied hs i h
slot_occupied (some rh ∷ hs) (suc i) h = slot_occupied hs i h

-- Whatever was occupied still is.
abbrev pub Keeps : Hosts → Hosts → Type 0
Keeps hs hs' = (i : ℕ) → occupied hs i ≡ true → occupied hs' i ≡ true

occupied-modify :
    (hs : Hosts) (j : ℕ) (f : RemoteHost → RemoteHost) (i : ℕ)
    → occupied (modify hs j f) i ≡ occupied hs i
unfolding modify
occupied-modify [] j f i = refl
occupied-modify (none ∷ hs) zero f i = refl
occupied-modify (some rh ∷ hs) zero f zero = refl
occupied-modify (some rh ∷ hs) zero f (suc i) = refl
occupied-modify (none ∷ hs) (suc j) f zero = refl
occupied-modify (some rh ∷ hs) (suc j) f zero = refl
occupied-modify (none ∷ hs) (suc j) f (suc i) = occupied-modify hs j f i
occupied-modify (some rh ∷ hs) (suc j) f (suc i) = occupied-modify hs j f i

pub modify-Keeps : (hs : Hosts) (j : ℕ) (f : RemoteHost → RemoteHost) → Keeps hs (modify hs j f)
modify-Keeps hs j f i on = occupied-modify hs j f i ∙ on

set-Keeps : (hs : Hosts) (j : ℕ) (rh : RemoteHost) → Keeps hs (set hs j (some rh))
set-Keeps [] j rh i on = on
set-Keeps (none ∷ hs) zero rh zero on = refl
set-Keeps (some h ∷ hs) zero rh zero on = refl
set-Keeps (none ∷ hs) zero rh (suc i) on = on
set-Keeps (some h ∷ hs) zero rh (suc i) on = on
set-Keeps (none ∷ hs) (suc j) rh zero on = on
set-Keeps (some h ∷ hs) (suc j) rh zero on = on
set-Keeps (none ∷ hs) (suc j) rh (suc i) on = set-Keeps hs j rh i on
set-Keeps (some h ∷ hs) (suc j) rh (suc i) on = set-Keeps hs j rh i on

register-Keeps :
    (now : ℕ) (hs : Hosts) (packet : Bytes) → Keeps hs (hostlist_register now hs packet)
unfolding hostlist_register
register-Keeps now hs packet i on =
    elim (Option-cases (hostlist_find_by_mac hs (src_mac_addr packet))) [
      | inr (j, found) ↦ rw (hostlist_register, found) (modify-Keeps hs j (heard now packet) i on)
      | inl unknown ↦ elim (Option-cases (free_slot hs)) [
        | inl full ↦ rw (hostlist_register, unknown, full) on
        | inr (j, free) ↦
            let hs1 = set hs j (some (host_create j)) in
            let named = λ (rh : RemoteHost). record rh { if_addr = src_mac_addr packet } in
            rw (hostlist_register, unknown, free)
              (modify-Keeps (modify hs1 j named) j (heard now packet) i
                (modify-Keeps hs1 j named i (set-Keeps hs j (host_create j) i on)))
      ]
    ]

text-Keeps :
    (now : ℕ) (hs : Hosts) (buf : Bytes) → Keeps hs (process_incoming_video_text now hs buf)
unfolding process_incoming_video_text
text-Keeps now hs buf i on = elim (Option-cases (hostlist_find_by_mac hs (src_mac_addr buf))) [
  | inl unknown ↦ rw (unknown, process_incoming_video_text) on
  | inr (j, found) ↦
      let note = λ (rh : RemoteHost). record rh { tv_last_resp = now } in
      let noted = modify-Keeps hs j note i on in
      elim (Bool-cases (ltb video_text_buffer_len (video_count buf + video_offset buf))) [
        | inl long ↦ rw (found, process_incoming_video_text, long) noted
        | inr short ↦
            rw (found, process_incoming_video_text, short)
              (modify-Keeps (modify hs j note) j (show_text buf) i noted)
      ]
]

-- The active host is a server in the list.
abbrev pub Selected : Client → Type 0
Selected c = (i : ℕ) → c.active_host ≡ some i → occupied c.hosts i ≡ true

hosts-Selected :
    (c : Client) (hs : Hosts) → Keeps c.hosts hs → Selected c → Selected (record c { hosts = hs })
hosts-Selected c hs keeps sel i active = keeps i (sel i active)

pub socket-Selected :
    (rs : RawSocket) (now : ℕ) (c : Client) (received : ℕ) (buf : Bytes)
    → Selected c
    → Selected (process_socket_io rs now c received buf)
unfolding process_socket_io
socket-Selected rs now c received buf sel = elim (Bool-cases (received == 0)) [
  | inl none_read ↦ rw none_read sel
  | inr read ↦ elim (Bool-cases (accepts rs buf)) [
    | inr other ↦ rw (read, other) sel
    | inl mine ↦ elim (Bool-cases (pkt_type buf == v1_status_resp)) [
      | inl status ↦
          rw (read, mine, status)
            (hosts-Selected c (hostlist_register now c.hosts buf) (register-Keeps now c.hosts buf)
              sel)
      | inr no_status ↦ elim (Bool-cases (pkt_type buf == v1_vga_text)) [
        | inl is_text ↦
            rw (read, mine, no_status, is_text)
              (hosts-Selected c (process_incoming_video_text now c.hosts buf)
                (text-Keeps now c.hosts buf) sel)
        | inr no_text ↦ rw (read, mine, no_status, no_text) sel
      ]
    ]
  ]
]
