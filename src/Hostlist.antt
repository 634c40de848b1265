-- ===== src/Hostlist.antt =====
-- src/client/hostlist.c and hostlist.h: the servers that the client has heard of. A pointer to a host
-- is its slot in g_remote_hosts; a time is a number of microseconds, 0 where it is not set. malloc
-- succeeds.
pub mod Slots
pub mod Register
pub mod Names
pub mod Listed
use rmtdos.Base.{
  ℕ, zero, suc, ◌+◌, Option, none, some, List, [], ◌∷◌, ◌==◌, bytes_eq, get_elem?, set,
  if◌then◌else◌, Bool, true, false, replicate, ltb, ◌≡◌,
}
use rmtdos.Base.Memory.{Bytes, zeros}
use rmtdos.Wire.{src_mac_addr, pkt_type, v1_status_resp}

-- `struct StatusResponse` of src/common/protocol.h
pub record StatusResponse : Type 0 where
  pub video_mode : ℕ
  pub active_page : ℕ
  pub text_rows : ℕ
  pub text_cols : ℕ
  pub cursor_row : ℕ
  pub cursor_col : ℕ

-- `struct RemoteHost`; `window` is whether it is not NULL.
pub record RemoteHost : Type 0 where
  pub index : ℕ
  pub if_addr : List ℕ
  pub tv_last_resp : ℕ
  pub tv_last_session_start : ℕ
  pub status : StatusResponse
  pub window : Bool
  pub text_rows : ℕ
  pub text_cols : ℕ
  pub video_text_buffer : Bytes

abbrev pub Hosts : Type 0
Hosts = List (Option RemoteHost)

-- MAX_HOSTS
abbrev pub max_hosts : ℕ
max_hosts = 16

abbrev pub hostlist_create : Hosts
hostlist_create = replicate max_hosts none

-- Every slot is freed and cleared.
unfoldable pub hostlist_destroy : Hosts → Hosts
hostlist_destroy [] = []
hostlist_destroy (slot ∷ hosts) = none ∷ hostlist_destroy hosts

-- host_create, of memory that is all zero, with its index.
abbrev pub host_create : ℕ → RemoteHost
host_create i = record {
  index = i;
  if_addr = 0 ∷ 0 ∷ 0 ∷ 0 ∷ 0 ∷ 0 ∷ [];
  tv_last_resp = 0;
  tv_last_session_start = 0;
  status = record {
    video_mode = 0;
    active_page = 0;
    text_rows = 0;
    text_cols = 0;
    cursor_row = 0;
    cursor_col = 0;
  };
  window = false;
  text_rows = 0;
  text_cols = 0;
  video_text_buffer = zeros;
}

-- g_remote_hosts[i] && !memcmp(g_remote_hosts[i]->if_addr, if_addr, ETH_ALEN)
abbrev pub has_mac : List ℕ → Option RemoteHost → Bool
has_mac mac none = false
has_mac mac (some rh) = bytes_eq rh.if_addr mac

unfoldable pub hostlist_find_by_mac : Hosts → List ℕ → Option ℕ
hostlist_find_by_mac [] mac = none
hostlist_find_by_mac (slot ∷ hosts) mac =
    let rest = hostlist_find_by_mac hosts mac in
    if has_mac mac slot then some 0 else elim rest [ none ↦ none | some i ↦ some (suc i) ]

-- The index is not negative.
abbrev pub hostlist_find_by_index : Hosts → ℕ → Option ℕ
hostlist_find_by_index hosts index =
    if ltb index max_hosts
    then elim (get_elem? hosts index) [
      | none ↦ none
      | some slot ↦ elim slot [ none ↦ none | some rh ↦ some index ]
    ]
    else none

-- The first free slot.
unfoldable pub free_slot : Hosts → Option ℕ
free_slot [] = none
free_slot (none ∷ hosts) = some 0
free_slot (some rh ∷ hosts) = elim (free_slot hosts) [ none ↦ none | some i ↦ some (suc i) ]

-- A write through a pointer into the list.
unfoldable pub modify : Hosts → ℕ → (RemoteHost → RemoteHost) → Hosts
modify [] i f = []
modify (none ∷ hosts) zero f = none ∷ hosts
modify (some rh ∷ hosts) zero f = some (f rh) ∷ hosts
modify (slot ∷ hosts) (suc i) f = slot ∷ modify hosts i f

pub hostlist_allocate : Hosts → Option (ℕ × Hosts)
hostlist_allocate hosts = elim (free_slot hosts) [
  | none ↦ none
  | some i ↦ some (i, set hosts i (some (host_create i)))
]

-- The status of a V1_STATUS_RESP, whatever length the packet has.
abbrev pub status_at : Bytes → StatusResponse
status_at packet = record {
  video_mode = packet 26;
  active_page = packet 27;
  text_rows = packet 28;
  text_cols = packet 29;
  cursor_row = packet 30;
  cursor_col = packet 31;
}

abbrev pub heard : ℕ → Bytes → RemoteHost → RemoteHost
heard now packet rh =
    let rh1 = record rh { tv_last_resp = now } in
    if pkt_type packet == v1_status_resp then record rh1 { status = status_at packet } else rh1

unfoldable pub hostlist_register : ℕ → Hosts → Bytes → Hosts
unfolding hostlist_allocate
hostlist_register now hosts packet = elim (hostlist_find_by_mac hosts (src_mac_addr packet)) [
  | some i ↦ modify hosts i (heard now packet)
  | none ↦ elim (hostlist_allocate hosts) [
    | none ↦ hosts
    | some (i, hosts1) ↦
        let hosts2 = modify hosts1 i (λ rh. record rh { if_addr = src_mac_addr packet }) in
        modify hosts2 i (heard now packet)
  ]
]
