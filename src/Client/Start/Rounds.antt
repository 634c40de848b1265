-- ===== src/Client/Start/Rounds.antt =====
-- A round of the main loop of src/client/main.c in which nothing fails, and process_timers when nothing
-- is due.
use rmtdos.Base.{
  ℕ, ◌-◌, ◌≤◌, ◌≡◌, refl, ◌∙◌, Option, some, none, List, [], ◌∷◌, ◌&&◌, Bool, true, false,
  if◌then◌else◌, arith, ◌⊎◌, inl, inr,
}
use rmtdos.Base.Memory.{Bytes}
use rmtdos.Wire.{v1_session_start, v1_status_req}
use rmtdos.Network.{RawSocket, Sent, send_status_req, send_session_start}
use rmtdos.Hostlist.{RemoteHost, Hosts}
use rmtdos.Client.{
  Client, expired, session_start_interval, broadcast_probe_interval, refresh_sessions,
  process_timers,
}
use rmtdos.Client.Keyboard.Kept.{sent_packet}
use rmtdos.Client.Events.{Event, handle_events}
use rmtdos.Client.Start.{Round, ready, Progress, left, client_round, main_loop}

pub entered :
    (b : Bool) (next : Progress) (c : Client) → b ≡ true → (if b then next else left c) ≡ next
entered true next c on = refl
entered false next c on = cc

-- No server's session is due at a time.
abbrev pub AllRecent : (now : ℕ) → Hosts → Type 0
AllRecent now [] = Unit {0}
AllRecent now (none ∷ hs) = AllRecent now hs
AllRecent now (some rh ∷ hs) =
    ((rh.window ≡ false) ⊎ (now - rh.tv_last_session_start ≤ session_start_interval))
    × AllRecent now hs

module _ (key_f12 : ℕ) (rs : RawSocket) (heap : Bytes) (file : Option (List (List ℕ))) where
  pub round_done :
      (now : ℕ) (events : List Event) (rounds : List Round) (c c1 c2 : Client)
      → c.running ≡ true
      → handle_events key_f12 rs heap file now c events ≡ some c1
      → process_timers rs heap now c1 ≡ some c2
      → main_loop key_f12 rs heap file c (ready now events ∷ rounds)
        ≡ main_loop key_f12 rs heap file c2 rounds
  unfolding main_loop client_round
  round_done now events rounds c c1 c2 on handled timed =
      entered c.running _ c on ∙ rw (handled, timed) refl

module _ (rs : RawSocket) (heap : Bytes) (now : ℕ) where
  none_due :
      (rh : RemoteHost)
      → (rh.window ≡ false) ⊎ (now - rh.tv_last_session_start ≤ session_start_interval)
      → (rh.window && expired rs heap now rh.tv_last_session_start session_start_interval) ≡ false
  none_due rh (inl off) = rw off refl
  none_due rh (inr recent) = ground arith

  refresh-recent :
      (hs : Hosts) (sent : List Sent)
      → AllRecent now hs
      → refresh_sessions rs heap now hs sent ≡ some (hs, sent)
  unfolding refresh_sessions send_session_start
  refresh-recent [] sent recent = refl
  refresh-recent (none ∷ hs) sent recent = rw (refresh-recent hs sent recent) refl
  refresh-recent (some rh ∷ hs) sent recent =
      let (s, built) =
        sent_packet rs heap (some rh.if_addr) v1_session_start none 0 (omega arith) in
      let made : send_session_start rs heap (some rh.if_addr) ≡ some s = built in
      let idle = none_due rh recent.0 in
      let rest = refresh-recent hs sent recent.1 in
      rw (refresh_sessions, made, idle, rest, idle) refl

  -- Then the timers do nothing.
  pub quiet_timers :
      (c : Client)
      → now - c.last_probe ≤ broadcast_probe_interval
      → AllRecent now c.hosts
      → process_timers rs heap now c ≡ some c
  unfolding process_timers send_status_req
  quiet_timers c probed recent =
      let (s, built) = sent_packet rs heap none v1_status_req none 0 (omega arith) in
      let made : send_status_req rs heap none ≡ some s = built in
      let early : expired rs heap now c.last_probe broadcast_probe_interval ≡ false =
        ground arith in
      let rest = refresh-recent c.hosts c.sent recent in
      rw (process_timers, made, early, rest, early) refl
