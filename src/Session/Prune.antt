-- ===== src/Session/Prune.antt =====
-- How sessions end: the pruning loop of session_mgr_update_all in src/server/session.c.
use rmtdos.Base.{
  ℕ, zero, suc, ◌+◌, ◌≤◌, ◌<◌, ◌≡◌, ◌≢◌, refl, true, false, ◌&&◌, some, List, [], ◌∷◌, arith,
  if◌then◌else◌, bytes_eq_refl, get_elem?, sym, ◌∙◌, map,
}
use rmtdos.Base.Memory.{Bytes}
use rmtdos.Session.{
  Session, null_if_addr, matches, session_mgr_find, session_mgr_start, packet_source,
  packet_session, in_use, prune, timed_out, session_lifetime, blank,
}
use rmtdos.Session.Start.{Started, start-Started}
use rmtdos.Session.Lookup.{find-some}

abbrev pub count_in_use : List Session → ℕ
count_in_use [] = 0
count_in_use (s ∷ ss) = (if in_use s then 1 else 0) + count_in_use ss

abbrev pub kept : ℕ → Session → Session
kept now s = if in_use s && timed_out now s then blank else s

pub prune-map : (ss : List Session) (now : ℕ) → (prune ss now).0 ≡ map (kept now) ss
unfolding prune
prune-map [] now = refl
prune-map (s ∷ ss) now = ground (arith, prune-map ss now)

prune-count : (ss : List Session) (now : ℕ) → (prune ss now).1 ≡ count_in_use (prune ss now).0
unfolding prune
prune-count [] now = refl
prune-count (s ∷ ss) now = ground (arith, prune-count ss now, bytes_eq_refl null_if_addr)

get_elem?-map :
    (f : Session → Session) (ss : List Session) (i : ℕ) {s : Session}
    → get_elem? ss i ≡ some s
    → get_elem? (map f ss) i ≡ some (f s)
get_elem?-map f [] i h = cc
get_elem?-map f (t ∷ ss) zero h = ground arith
get_elem?-map f (t ∷ ss) (suc i) h = get_elem?-map f ss i h

-- The pruning loop clears the slots whose session is in use and timed out, keeps every other slot
-- as it is, and counts the sessions that remain.
pub prune_lem :
    (ss : List Session) (now : ℕ)
    → ((i : ℕ) (s : Session)
        → get_elem? ss i ≡ some s
        → get_elem? (prune ss now).0 i ≡ some (if in_use s && timed_out now s then blank else s))
      × ((prune ss now).1 ≡ count_in_use (prune ss now).0)
prune_lem ss now =
    (λ i s h. rw (prune-map ss now) (get_elem?-map (kept now) ss i h), prune-count ss now)

-- A session that was refreshed at most its lifetime ago is kept, where its last tick and the
-- lifetime together stay below the wrap of the tick counter.
pub prune_keeps :
    (ss : List Session) (now i : ℕ) {s : Session}
    → get_elem? ss i ≡ some s
    → now ≤ s.t_last_recv + session_lifetime
    → s.t_last_recv + session_lifetime < 4294967296
    → get_elem? (prune ss now).0 i ≡ some s
prune_keeps ss now i {s} at recent small = ground (arith, (prune_lem ss now).0 i s)

-- A start request with the null address and a session id other than 0 takes a slot for good: no
-- pruning, at any time, changes the slot, and it is not found as an empty slot either.
pub null_address_leaks :
    (ss : List Session) (packet : Bytes) (now later i : ℕ)
    → (session_mgr_start ss packet now).1 ≡ some i
    → packet_source packet ≡ null_if_addr
    → packet_session packet ≢ 0
    → let taken = (session_mgr_start ss packet now).0 in
      (get_elem? (prune taken later).0 i ≡ get_elem? taken i)
      × (session_mgr_find taken null_if_addr 0 ≢ some i)
      × (session_mgr_find (prune taken later).0 null_if_addr 0 ≢ some i)
null_address_leaks ss packet now later i h mac_null id_set =
    let st = start-Started ss packet now i h in
    let idle : in_use st.slot ≡ false =
      rw (st.is_client.0, mac_null, bytes_eq_refl null_if_addr) refl in
    let stays : get_elem? (prune taken later).0 i ≡ some st.slot =
      (prune_lem taken later).0 i st.slot st.at_slot ∙ (rw idle) in
    (
      stays ∙ sym st.at_slot,
      not_empty taken st st.at_slot,
      not_empty (prune taken later).0 st stays,
    )
  where
    taken : List Session
    taken = (session_mgr_start ss packet now).0

    not_empty :
        (table : List Session)
        (st : Started ss taken (packet_source packet) (packet_session packet) now i)
        → get_elem? table i ≡ some st.slot
        → session_mgr_find table null_if_addr 0 ≢ some i
    not_empty table st at found =
        let (s, at', hit) = find-some table null_if_addr 0 i found in
        let same : s ≡ st.slot = cc (at', at) in
        let is_zero : matches null_if_addr 0 st.slot ≡ true = rw (← same) hit in
        ground (arith, st.is_client.1)
