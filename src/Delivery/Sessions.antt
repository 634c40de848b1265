-- ===== src/Delivery/Sessions.antt =====
-- A client's session under the pruning loop of session_mgr_update_all in src/server/session.c.
use rmtdos.Base.{
  ℕ, zero, suc, ◌<◌, ◌≡◌, ◌≢◌, refl, true, false, some, List, [], ◌∷◌, arith, get_elem?, Bool-cases,
  inl, inr, map, length, ◌&&◌,
}
use rmtdos.Session.{Session, in_use, timed_out, prune, blank}
use rmtdos.Session.Prune.{count_in_use, kept, prune-map, prune_lem}
use rmtdos.Broadcast.Frames.{WellFormed}

blank_or_same : (P : Session → Type 0) (now : ℕ) (s : Session) → P s → P blank → P (kept now s)
blank_or_same P now s h b = elim (Bool-cases (in_use s && timed_out now s)) [
  | inl e ↦ rw e b
  | inr e ↦ rw e h
]

map-WellFormed : (ss : List Session) (now : ℕ) → WellFormed ss → WellFormed (map (kept now) ss)
map-WellFormed [] now wf = wf
map-WellFormed (s ∷ ss) now wf = (
  blank_or_same (λ s. length s.mac_addr ≡ 6) now s wf.0 refl,
  blank_or_same (λ s. s.session_id < 4294967296) now s wf.1 (omega arith),
  map-WellFormed ss now wf.2,
)

pub prune-WellFormed : (ss : List Session) (now : ℕ) → WellFormed ss → WellFormed (prune ss now).0
prune-WellFormed ss now wf = rw (prune-map ss now) (map-WellFormed ss now wf)

counted_one :
    (ss : List Session) (j : ℕ) (s : Session)
    → get_elem? ss j ≡ some s
    → in_use s ≡ true
    → 0 < count_in_use ss
counted_one [] j s at on = cc
counted_one (t ∷ ss) zero s at on = ground arith
counted_one (t ∷ ss) (suc j) s at on = ground (arith, counted_one ss j s at on)

-- A session that has not timed out stays, and so the tick has somebody to send to.
pub session_stays :
    (ss : List Session) (now j : ℕ) (s : Session)
    → get_elem? ss j ≡ some s
    → in_use s ≡ true
    → timed_out now s ≡ false
    → (get_elem? (prune ss now).0 j ≡ some s) × ((prune ss now).1 ≢ 0)
session_stays ss now j s at on fresh =
    let stays : get_elem? (prune ss now).0 j ≡ some s =
      ground (arith, (prune_lem ss now).0 j s at) in
    let counted = (prune_lem ss now).1 in
    let some = counted_one (prune ss now).0 j s stays on in (stays, λ e. omega arith)
