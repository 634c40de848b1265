-- ===== src/Session/Start.antt =====
-- session_mgr_start of src/server/session.c: what a start request does to the table.
use rmtdos.Base.{
  ℕ, ◌≡◌, ◌≢◌, refl, true, false, ◌&&◌, Option, none, some, List, arith, ◌==◌, bytes_eq,
  bytes_eq_iff, bytes_eq_refl, get_elem?, inl, inr, ◌∙◌, Option-cases, subst,
}
use rmtdos.Base.Memory.{Bytes}
use rmtdos.Session.{
  Session, Mac, null_if_addr, matches, session_mgr_find, modify, start_slot, session_mgr_start,
  packet_source, packet_session, claim, refresh,
}
use rmtdos.Session.Lookup.{
  find-some, get_elem?-modify_self, get_elem?-modify_ne, find-modify_miss, find-modify_hit,
}

-- The slot `i` was written for this client at that time, and no other slot.
pub record Started (ss ss' : List Session) (mac : Mac) (id now i : ℕ) : Type 0 where
  pub found : session_mgr_find ss' mac id ≡ some i
  pub slot : Session
  pub at_slot : get_elem? ss' i ≡ some slot
  pub is_client : (slot.mac_addr ≡ mac) × (slot.session_id ≡ id)
  pub is_fresh : (slot.t_last_recv ≡ now) × (slot.video_chksum ≡ 0)
  pub others : (j : ℕ) → i ≢ j → get_elem? ss' j ≡ get_elem? ss j

-- The three ways through session_mgr_start.
data Outcome (ss : List Session) (mac : Mac) (id now : ℕ) : List Session × Option ℕ → Type 0 where
  existing :
      (i : ℕ)
      → session_mgr_find ss mac id ≡ some i
      → Outcome ss mac id now (modify ss i (refresh now), some i)
  claimed :
      (i : ℕ)
      → session_mgr_find ss mac id ≡ none
      → session_mgr_find ss null_if_addr 0 ≡ some i
      → Outcome ss mac id now (modify ss i (λ s. refresh now (claim mac id s)), some i)
  full :
      session_mgr_find ss mac id ≡ none
      → session_mgr_find ss null_if_addr 0 ≡ none
      → Outcome ss mac id now (ss, none)

module _ (ss : List Session) (mac : Mac) (id now : ℕ) where
  outcome : Outcome ss mac id now (start_slot ss mac id now)
  unfolding start_slot
  outcome = elim (Option-cases (session_mgr_find ss mac id)) [
    | inr (i, e) ↦ rw (e, start_slot) (existing i e)
    | inl e ↦ elim (Option-cases (session_mgr_find ss null_if_addr 0)) [
      | inr (i, e') ↦ rw (e, start_slot, e') (claimed i e e')
      | inl e' ↦ rw (e, start_slot, e') (full e e')
    ]
  ]

matches→eq :
    (mac : Mac) (id : ℕ) (s : Session)
    → matches mac id s ≡ true
    → (s.mac_addr ≡ mac) × (s.session_id ≡ id)
matches→eq mac id s h = ground (arith, bytes_eq_iff s.mac_addr mac)

matches_claimed :
    (mac : Mac) (id now : ℕ) (s : Session) → matches mac id (refresh now (claim mac id s)) ≡ true
matches_claimed mac id now s = ground (arith, bytes_eq_refl mac)

module _ {ss : List Session} {mac : Mac} {id now : ℕ} where
  Outcome-Started :
      {r : List Session × Option ℕ} (i : ℕ)
      → Outcome ss mac id now r
      → r.1 ≡ some i
      → Started ss r.0 mac id now i
  Outcome-Started i (existing j e) h =
      let (s, at, hit) = find-some ss mac id j e in
      let same : j ≡ i = ground arith in
      let (mac_same, id_same) = matches→eq mac id s hit in
      subst (Started ss _ mac id now) same (record {
        found = find-modify_miss (refresh now) ss j mac id at refl ∙ e;
        slot = refresh now s;
        at_slot = get_elem?-modify_self (refresh now) ss j at;
        is_client = (mac_same, id_same);
        is_fresh = (refl, refl);
        others = get_elem?-modify_ne (refresh now) ss j;
      })
  Outcome-Started i (claimed j e e') h =
      let (s, at, hit) = find-some ss null_if_addr 0 j e' in
      let same : j ≡ i = ground arith in
      let f = λ (s : Session). refresh now (claim mac id s) in
      subst (Started ss _ mac id now) same (record {
        found = find-modify_hit f ss j mac id e at (matches_claimed mac id now s);
        slot = f s;
        at_slot = get_elem?-modify_self f ss j at;
        is_client = (refl, refl);
        is_fresh = (refl, refl);
        others = get_elem?-modify_ne f ss j;
      })
  Outcome-Started i (full e e') h = cc

  Outcome-full :
      {r : List Session × Option ℕ}
      → Outcome ss mac id now r
      → r.1 ≡ none
      → (r.0 ≡ ss)
        × (session_mgr_find ss mac id ≡ none)
        × (session_mgr_find ss null_if_addr 0 ≡ none)
  Outcome-full (existing j e) h = cc
  Outcome-full (claimed j e e') h = cc
  Outcome-full (full e e') h = (refl, e, e')

  -- Other clients' sessions are found where they were.
  Outcome-others :
      {r : List Session × Option ℕ} (mac' : Mac) (id' : ℕ)
      → Outcome ss mac id now r
      → (bytes_eq mac mac' && id == id') ≡ false
      → (bytes_eq null_if_addr mac' && 0 == id') ≡ false
      → session_mgr_find r.0 mac' id' ≡ session_mgr_find ss mac' id'
  Outcome-others mac' id' (existing j e) other used =
      let (s, at, hit) = find-some ss mac id j e in
      find-modify_miss (refresh now) ss j mac' id' at refl
  Outcome-others mac' id' (claimed j e e') other used =
      let (s, at, hit) = find-some ss null_if_addr 0 j e' in
      let (mac_same, id_same) = matches→eq null_if_addr 0 s hit in
      find-modify_miss (λ s. refresh now (claim mac id s)) ss j mac' id' at
        (rw (mac_same, id_same, other, used))
  Outcome-others mac' id' (full e e') other used = refl

module _ (ss : List Session) (packet : Bytes) (now : ℕ) where
  -- After a start request that is granted its client is found in the slot that was answered, the
  -- slot holds the client's address and id and the present time, and every other slot is as it
  -- was.
  pub start-Started :
      (i : ℕ)
      → (session_mgr_start ss packet now).1 ≡ some i
      → Started ss
          (session_mgr_start ss packet now).0
          (packet_source packet)
          (packet_session packet)
          now
          i
  unfolding session_mgr_start
  start-Started i h = Outcome-Started i (outcome ss _ _ now) h

  -- A start request is refused only if its client has no session and no slot is empty, and then the
  -- table stays as it is.
  pub start_refused :
      (session_mgr_start ss packet now).1 ≡ none
      → ((session_mgr_start ss packet now).0 ≡ ss)
        × (session_mgr_find ss (packet_source packet) (packet_session packet) ≡ none)
        × (session_mgr_find ss null_if_addr 0 ≡ none)
  unfolding session_mgr_start
  start_refused h = Outcome-full (outcome ss _ _ now) h

  -- A start request does not disturb the lookup of an address and id that are neither its client's
  -- nor those of an empty slot.
  pub start_others :
      (mac' : Mac) (id' : ℕ)
      → (bytes_eq (packet_source packet) mac' && packet_session packet == id') ≡ false
      → (bytes_eq null_if_addr mac' && 0 == id') ≡ false
      → session_mgr_find (session_mgr_start ss packet now).0 mac' id' ≡ session_mgr_find ss mac' id'
  unfolding session_mgr_start
  start_others mac' id' = Outcome-others mac' id' (outcome ss _ _ now)
