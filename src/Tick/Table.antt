-- ===== src/Tick/Table.antt =====
-- The table of sessions of src/server/session.c under the handlers of src/server/protocol.c.
use rmtdos.Base.{
  ℕ, zero, suc, ◌+◌, ◌<◌, ◌≡◌, refl, ap, ◌∙◌, List, [], ◌∷◌, arith, length, map, inl, inr,
  Option-cases, subst, sym,
}
use rmtdos.Base.Memory.{Bytes}
use rmtdos.Session.{
  Session, Mac, null_if_addr, modify, claim, start_slot, refresh, packet_source, packet_session,
  session_mgr_find, session_mgr_start, prune,
}
use rmtdos.Session.Prune.{kept, prune-map}
use rmtdos.Broadcast.Frames.{WellFormed}
use rmtdos.Delivery.Sessions.{prune-WellFormed}
use rmtdos.Protocol.{Env, Host, handle}
use rmtdos.Protocol.Process.{handle_all}
use rmtdos.Protocol.Starts.{handle-sessions}

-- A table of that many sessions, each with an address of six bytes and an id of 32 bits.
pub record IsTable (n : ℕ) (ss : List Session) : Type 0 where
  pub slots : length ss ≡ n
  pub well_formed : WellFormed ss

-- A packet is made of bytes.
abbrev pub AreBytes : Bytes → Type 0
AreBytes f = (i : ℕ) → f i < 256

abbrev pub AllBytes : List (ℕ × Bytes) → Type 0
AllBytes [] = Unit {0}
AllBytes ((bytes, f) ∷ rest) = AreBytes f × AllBytes rest

length-modify :
    (ss : List Session) (i : ℕ) (f : Session → Session) → length (modify ss i f) ≡ length ss
length-modify [] i f = refl
length-modify (s ∷ ss) zero f = refl
length-modify (s ∷ ss) (suc i) f = ap suc (length-modify ss i f)

modify-WellFormed :
    (ss : List Session) (i : ℕ) (f : Session → Session)
    → ((s : Session)
        → length s.mac_addr ≡ 6
        → s.session_id < 4294967296
        → (length (f s).mac_addr ≡ 6) × ((f s).session_id < 4294967296))
    → WellFormed ss
    → WellFormed (modify ss i f)
modify-WellFormed [] i f keeps wf = wf
modify-WellFormed (s ∷ ss) zero f keeps wf = let (mac, id) = keeps s wf.0 wf.1 in (mac, id, wf.2)
modify-WellFormed (s ∷ ss) (suc i) f keeps wf = (wf.0, wf.1, modify-WellFormed ss i f keeps wf.2)

session_fits : (f : Bytes) → AreBytes f → packet_session f < 4294967296
session_fits f bytes = omega (arith, bytes 18, bytes (18 + 1), bytes (18 + 2), bytes (18 + 2 + 1))

start_slot-IsTable :
    (n : ℕ) (ss : List Session) (mac : Mac) (id now : ℕ)
    → length mac ≡ 6
    → id < 4294967296
    → IsTable n ss
    → IsTable n (start_slot ss mac id now).0
unfolding start_slot
start_slot-IsTable n ss mac id now six fits t =
    let changed =
      λ (i : ℕ) (f : Session → Session)
          (keeps : (s : Session)
            → length s.mac_addr ≡ 6
            → s.session_id < 4294967296
            → (length (f s).mac_addr ≡ 6) × ((f s).session_id < 4294967296)).
        let r : IsTable n (modify ss i f) = record {
          slots = length-modify ss i f ∙ t.slots;
          well_formed = modify-WellFormed ss i f keeps t.well_formed;
        } in
        r in
    elim (Option-cases (session_mgr_find ss mac id)) [
      | inr (i, found) ↦ rw (found, start_slot) (changed i (refresh now) (λ s m d. (m, d)))
      | inl unknown ↦ elim (Option-cases (session_mgr_find ss null_if_addr 0)) [
        | inl full ↦ rw (unknown, start_slot, full) t
        | inr (i, free) ↦
            rw (unknown, start_slot, free)
              (changed i (λ s. refresh now (claim mac id s)) (λ s m d. (six, fits)))
      ]
    ]

start-IsTable :
    (n : ℕ) (ss : List Session) (packet : Bytes) (now : ℕ)
    → AreBytes packet
    → IsTable n ss
    → IsTable n (session_mgr_start ss packet now).0
unfolding session_mgr_start
start-IsTable n ss packet now bytes t =
    start_slot-IsTable n ss (packet_source packet) (packet_session packet) now refl
      (session_fits packet bytes) t

pub handle-IsTable :
    (n : ℕ) (env : Env) (h : Host) (bytes : ℕ) (f : Bytes)
    → AreBytes f
    → IsTable n h.sessions
    → IsTable n (handle env h bytes f).sessions
handle-IsTable n env h bytes f are t = elim (handle-sessions env h bytes f) [
  | inl same ↦ subst (IsTable n) (sym same) t
  | inr started ↦ subst (IsTable n) (sym started) (start-IsTable n h.sessions f env.now are t)
]

-- The packets of a tick keep the table.
pub handle_all-IsTable :
    (n : ℕ) (env : Env) (h : Host) (packets : List (ℕ × Bytes))
    → AllBytes packets
    → IsTable n h.sessions
    → IsTable n (handle_all env h packets).sessions
handle_all-IsTable n env h [] all t = t
handle_all-IsTable n env h ((bytes, f) ∷ rest) all t =
    handle_all-IsTable n env (handle env h bytes f) rest all.1
      (handle-IsTable n env h bytes f all.0 t)

length-map : (f : Session → Session) (ss : List Session) → length (map f ss) ≡ length ss
length-map f [] = refl
length-map f (s ∷ ss) = ap suc (length-map f ss)

-- And so does its pruning.
pub prune-IsTable :
    (n : ℕ) (ss : List Session) (now : ℕ) → IsTable n ss → IsTable n (prune ss now).0
prune-IsTable n ss now t = record {
  slots = ap length (prune-map ss now) ∙ (length-map (kept now) ss ∙ t.slots);
  well_formed = prune-WellFormed ss now t.well_formed;
}
