-- ===== src/Session.antt =====
-- src/server/session.c and session.h: the server's table of sessions, one for each client that
-- controls it.
pub mod Lookup
pub mod Start
pub mod Prune
use rmtdos.Base.{
  ℕ, zero, suc, ◌+◌, ◌%◌, Bool, true, false, ◌&&◌, not, Option, none, some, List, [], ◌∷◌, ltb,
  ◌==◌, if◌then◌else◌, bytes_eq, replicate,
}
use mathlib.Core.Option
use rmtdos.Base.Memory.{Bytes, slice, load32}

-- A MAC address: ETH_ALEN bytes.
abbrev pub Mac : Type 0
Mac = List ℕ

-- null_if_addr
abbrev pub null_if_addr : Mac
null_if_addr = 0 ∷ 0 ∷ 0 ∷ 0 ∷ 0 ∷ 0 ∷ []

-- `struct Session`
pub record Session : Type 0 where
  pub t_last_recv : ℕ
  pub session_id : ℕ
  pub mac_addr : Mac
  pub video_chksum : ℕ

abbrev pub blank : Session
blank = record { t_last_recv = 0; session_id = 0; mac_addr = null_if_addr; video_chksum = 0 }

-- MAX_SESSIONS
abbrev pub max_sessions : ℕ
max_sessions = 4

-- session_lifetime_bios_ticks
abbrev pub session_lifetime : ℕ
session_lifetime = 182

unfoldable pub session_mgr_init : List Session
session_mgr_init = replicate max_sessions blank

-- The test of session_mgr_find.
abbrev pub matches : Mac → ℕ → Session → Bool
matches mac id s = bytes_eq s.mac_addr mac && s.session_id == id

-- The index of the first slot with that address and id.
unfoldable pub session_mgr_find : List Session → Mac → ℕ → Option ℕ
session_mgr_find [] mac id = none
session_mgr_find (s ∷ ss) mac id =
    if matches mac id s then some 0 else Option.map suc (session_mgr_find ss mac id)

abbrev pub modify : List Session → ℕ → (Session → Session) → List Session
modify [] i f = []
modify (s ∷ ss) zero f = f s ∷ ss
modify (s ∷ ss) (suc i) f = s ∷ modify ss i f

abbrev pub claim : Mac → ℕ → Session → Session
claim mac id s = record s { mac_addr = mac; session_id = id }

abbrev pub refresh : ℕ → Session → Session
refresh now s = record s { t_last_recv = now; video_chksum = 0 }

-- in_eh->src_mac_addr and ntohl(in_ph->session_id) of a received packet.
abbrev pub packet_source : Bytes → Mac
packet_source data_area = slice data_area 6 6

abbrev pub packet_session : Bytes → ℕ
packet_session data_area = load32 data_area 18

-- The slot is answered by its index; `none` is NULL.
unfoldable pub start_slot : List Session → Mac → ℕ → ℕ → List Session × Option ℕ
start_slot ss mac id now = elim (session_mgr_find ss mac id) [
  | some i ↦ (modify ss i (refresh now), some i)
  | none ↦ elim (session_mgr_find ss null_if_addr 0) [
    | none ↦ (ss, none)
    | some i ↦ (modify ss i (λ s. refresh now (claim mac id s)), some i)
  ]
]

unfoldable pub session_mgr_start : List Session → Bytes → ℕ → List Session × Option ℕ
unfolding start_slot
session_mgr_start ss packet now = start_slot ss (packet_source packet) (packet_session packet) now

abbrev pub in_use : Session → Bool
in_use s = not (bytes_eq s.mac_addr null_if_addr)

-- The sum is a `uint32_t`.
abbrev pub timed_out : ℕ → Session → Bool
timed_out now s = ltb ((s.t_last_recv + session_lifetime) % 4294967296) now

-- session_mgr_reclaim
abbrev pub session_mgr_reclaim : Session → Session
session_mgr_reclaim s = blank

-- The first loop of session_mgr_update_all, with `active_sessions`.
unfoldable pub prune : List Session → ℕ → List Session × ℕ
prune [] now = ([], 0)
prune (s ∷ ss) now =
    let (rest, active) = prune ss now in
    if not (in_use s)
    then (s ∷ rest, active)
    else if timed_out now s
    then (session_mgr_reclaim s ∷ rest, active)
    else (s ∷ rest, active + 1)
