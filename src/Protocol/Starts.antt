-- ===== src/Protocol/Starts.antt =====
-- What the handlers of src/server/protocol.c do to the sessions.
use rmtdos.Base.{ℕ, ◌≡◌, refl, ◌==◌, Bool-cases, ◌⊎◌, inl, inr}
use rmtdos.Base.Memory.{Bytes}
use rmtdos.Wire.{
  signature, pkt_type, packet_signature, v1_ping, v1_status_req, v1_session_start,
  v1_inject_keystroke,
}
use rmtdos.Session.{session_mgr_start}
use rmtdos.Protocol.{
  Env, Host, handle, dispatch, handle_ping, handle_status_req, handle_inject_keystroke,
}

-- Either nothing, or what session_mgr_start does.
pub handle-sessions :
    (env : Env) (h : Host) (bytes : ℕ) (f : Bytes)
    → ((handle env h bytes f).sessions ≡ h.sessions)
      ⊎ ((handle env h bytes f).sessions ≡ (session_mgr_start h.sessions f env.now).0)
unfolding handle dispatch handle_ping handle_status_req handle_inject_keystroke
handle-sessions env h bytes f = elim (Bool-cases (signature f == packet_signature)) [
  | inr unsigned ↦ rw unsigned (inl refl)
  | inl signed ↦ elim (Bool-cases (pkt_type f == v1_ping)) [
    | inl ping ↦ rw (signed, ping) (inl refl)
    | inr no_ping ↦ elim (Bool-cases (pkt_type f == v1_status_req)) [
      | inl status ↦ rw (signed, no_ping, status) (inl refl)
      | inr no_status ↦ elim (Bool-cases (pkt_type f == v1_session_start)) [
        | inl starts ↦ rw (signed, no_ping, no_status, starts) (inr refl)
        | inr no_start ↦ elim (Bool-cases (pkt_type f == v1_inject_keystroke)) [
          | inl keys ↦ rw (signed, no_ping, no_status, no_start, keys) (inl refl)
          | inr other ↦ rw (signed, no_ping, no_status, no_start, other) (inl refl)
        ]
      ]
    ]
  ]
]
