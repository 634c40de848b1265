-- ===== src/Client/Timers.antt =====
-- process_timers of src/client/main.c: the packets by which the client keeps its sessions.
use rmtdos.Base.{
  ℕ, ◌-◌, ◌<◌, ◌≤◌, ◌≡◌, refl, none, some, List, [], ◌∷◌, ◌++◌, ◌&&◌, true, false, length, arith,
  inl, inr, ◌⊎◌, Bool-cases, ◌∙◌,
}
use mathlib.Core.List.{append_assoc, append-nil}
use rmtdos.Base.Memory.{Bytes}
use rmtdos.Wire.{v1_status_req, v1_session_start}
use rmtdos.Network.{RawSocket, Sent, broadcast_addr, send_status_req, send_session_start}
use rmtdos.Network.Frame.{IsValid, Headers, send_packet_lem, send_packet_broadcast}
use rmtdos.Hostlist.{RemoteHost, Hosts}
use rmtdos.Client.{
  Client, expired, session_start_interval, broadcast_probe_interval, refresh_sessions,
  process_timers,
}

-- The hosts after a round, with the packets that it sent: a V1_SESSION_START to each host under remote
-- control whose last one is too old, which is then noted.
pub data Refreshed (rs : RawSocket) (now : ℕ) : Hosts → List Sent → Hosts → Type 0 where
  all_seen : Refreshed rs now [] [] []
  free :
      {hs hs' : Hosts} {fs : List Sent}
      → Refreshed rs now hs fs hs'
      → Refreshed rs now (none ∷ hs) fs (none ∷ hs')
  kept :
      {rh : RemoteHost} {hs hs' : Hosts} {fs : List Sent}
      → (rh.window ≡ false) ⊎ (now - rh.tv_last_session_start ≤ session_start_interval)
      → Refreshed rs now hs fs hs'
      → Refreshed rs now (some rh ∷ hs) fs (some rh ∷ hs')
  renewed :
      {rh : RemoteHost} {s : Sent} {hs hs' : Hosts} {fs : List Sent}
      → rh.window ≡ true
      → session_start_interval < now - rh.tv_last_session_start
      → s.to ≡ rh.if_addr
      → Headers s.frame rs rh.if_addr v1_session_start 0
      → Refreshed rs now hs fs hs'
      → Refreshed rs now
          (some rh ∷ hs)
          (s ∷ fs)
          (some (record rh { tv_last_session_start = now }) ∷ hs')

-- Every known host has an address.
abbrev pub Addressed : Hosts → Type 0
Addressed [] = Unit {0}
Addressed (none ∷ hs) = Addressed hs
Addressed (some rh ∷ hs) = (length rh.if_addr ≡ 6) × Addressed hs

module _ (rs : RawSocket) (heap : Bytes) (now : ℕ) where
  not_due :
      (rh : RemoteHost)
      → (rh.window && expired rs heap now rh.tv_last_session_start session_start_interval) ≡ false
      → (rh.window ≡ false) ⊎ (now - rh.tv_last_session_start ≤ session_start_interval)
  not_due rh h = elim (Bool-cases rh.window) [ inr off ↦ inl off | inl on ↦ inr (ground arith) ]

  refresh_sessions_lem :
      (hs : Hosts) (sent : List Sent)
      → IsValid rs
      → Addressed hs
      → (hs' : Hosts) × (fs : List Sent) × (refresh_sessions rs heap now hs sent
          ≡ some (hs', sent ++ fs))
        × Refreshed rs now hs fs hs'
  unfolding refresh_sessions send_session_start
  refresh_sessions_lem [] sent v addressed = ([], [], rw (append-nil sent) refl, all_seen)
  refresh_sessions_lem (none ∷ hs) sent v addressed =
      let (hs', fs, e, r) = refresh_sessions_lem hs sent v addressed in
      (none ∷ hs', fs, rw e refl, free r)
  refresh_sessions_lem (some rh ∷ hs) sent v addressed =
      elim (send_packet_lem rs heap rh.if_addr v1_session_start none 0 v addressed.0
        (omega arith)) [
          | inl (long, refused) ↦ absurd (omega (arith, long))
          | inr (s, built, headers, to, _, _) ↦
              (let made : send_session_start rs heap (some rh.if_addr) ≡ some s = built in
                elim (Bool-cases (
                  rh.window
                  && expired rs heap now rh.tv_last_session_start session_start_interval)) [
                    | inr idle ↦
                        (let (hs', fs, e, r) = refresh_sessions_lem hs sent v addressed.1 in
                          (
                            some rh ∷ hs',
                            fs,
                            rw (refresh_sessions, made, idle, e, idle) refl,
                            kept (not_due rh idle) r,
                          ))
                    | inl due ↦
                        (let (hs', fs, e, r) =
                            refresh_sessions_lem hs (sent ++ (s ∷ [])) v addressed.1 in
                          let on : rh.window ≡ true = ground arith in
                          let old : session_start_interval < now - rh.tv_last_session_start =
                            ground arith in
                          (
                            some (record rh { tv_last_session_start = now }) ∷ hs',
                            s ∷ fs,
                            rw (refresh_sessions, made, due, e, due, append_assoc sent (s ∷ []) fs)
                                refl,
                            renewed on old to headers r,
                          ))
                  ])
        ]

  -- With a socket whose fields have their sizes, and hosts with addresses of six bytes,
  -- process_timers returns: it sends the probe, by broadcast, when the last one is too old, and
  -- then renews the sessions that are due, and sends no other packet.
  pub process_timers_lem :
      (c : Client)
      → IsValid rs
      → Addressed c.hosts
      → (c' : Client) × (probe fs : List Sent) × (process_timers rs heap now c ≡ some c')
        × (c'.sent ≡ c.sent ++ (probe ++ fs))
        × (((now - c.last_probe ≤ broadcast_probe_interval)
              × (probe ≡ [])
              × (c'.last_probe ≡ c.last_probe))
            ⊎ ((s : Sent) × (broadcast_probe_interval < now - c.last_probe)
                × (probe ≡ s ∷ [])
                × (s.to ≡ broadcast_addr)
                × Headers s.frame rs broadcast_addr v1_status_req 0
                × (c'.last_probe ≡ now)))
        × Refreshed rs now c.hosts fs c'.hosts
  unfolding process_timers send_status_req
  process_timers_lem c v addressed =
      elim (send_packet_lem rs heap broadcast_addr v1_status_req none 0 v refl (omega arith)) [
        | inl (long, refused) ↦ absurd (omega (arith, long))
        | inr (s, built, headers, to, _, _) ↦
            (let made : send_status_req rs heap none ≡ some s =
                send_packet_broadcast rs heap v1_status_req none 0 ∙ built in
              elim (Bool-cases (expired rs heap now c.last_probe broadcast_probe_interval)) [
                | inl due ↦
                    (let (hs, fs, e, r) =
                        refresh_sessions_lem c.hosts (c.sent ++ (s ∷ [])) v addressed in
                      let sent' = append_assoc c.sent (s ∷ []) fs in
                      (
                        record c {
                          hosts = hs;
                          sent = c.sent ++ ((s ∷ []) ++ fs);
                          last_probe = now;
                        },
                        s ∷ [],
                        fs,
                        rw (process_timers, made, due, e, due, sent') refl,
                        refl,
                        inr (s, ground arith, refl, to, headers, refl),
                        r,
                      ))
                | inr recent ↦
                    (let (hs, fs, e, r) = refresh_sessions_lem c.hosts c.sent v addressed in
                      (
                        record c { hosts = hs; sent = c.sent ++ fs },
                        [],
                        fs,
                        rw (process_timers, made, recent, e, recent) refl,
                        refl,
                        inl (ground arith, refl, refl),
                        r,
                      ))
              ])
      ]
