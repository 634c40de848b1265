-- ===== src/Delivery/Waiting.antt =====
-- A client that joins while the screen of src/server/session.c stands still.
use rmtdos.Base.{
  ℕ, ◌+◌, ◌%◌, ◌≤◌, ◌≡◌, refl, ap, ◌∙◌, true, false, some, List, [], ◌∷◌, arith, get_elem?,
  bytes_eq, not, Option,
}
use rmtdos.Base.Memory.{Bytes}
use rmtdos.Session.{
  Session, in_use, timed_out, session_mgr_start, packet_source, packet_session, null_if_addr,
  session_lifetime,
}
use rmtdos.Session.Start.{start-Started}
use rmtdos.Protocol.{Env}
use rmtdos.Broadcast.{Screen}
use rmtdos.Broadcast.Silence.{screen_checksum, next_row, unchanged_silent}
use rmtdos.Delivery.{run_ticks}
use rmtdos.Delivery.Sessions.{session_stays}

-- None of the times is behind the end of a session that began at `now`.
abbrev pub AllWithin : (now : ℕ) → List ℕ → Type 0
AllWithin now [] = Unit {0}
AllWithin now (t ∷ ts) = (t ≤ (now + session_lifetime) % 4294967296) × AllWithin now ts

-- What the ticks leave: nothing was sent, and the session is there.
abbrev pub Waits : Screen → (i : ℕ) → Session → Option Screen → Type 0
Waits st i s run =
    (st' : Screen) × (run ≡ some st')
    × (st'.host.sent ≡ st.host.sent)
    × (get_elem? st'.host.sessions i ≡ some s)

module _ (env : Env) (frame : Bytes) (i : ℕ) (s : Session) where
  ticks-Waits :
      (ts : List ℕ) (st : Screen)
      → next_row env st ≡ 0
      → screen_checksum env frame ≡ st.video_chksum
      → get_elem? st.host.sessions i ≡ some s
      → in_use s ≡ true
      → AllWithin s.t_last_recv ts
      → Waits st i s (run_ticks env frame ts st)
  unfolding run_ticks
  ticks-Waits [] st top same at on within = (st, refl, refl, at)
  ticks-Waits (t ∷ ts) st top same at on within =
      let now : Env = record env { now = t } in
      let (st1, done, sent, chksum, next, sessions) = unchanged_silent now frame st top same in
      let fresh : timed_out t s ≡ false = ground (arith, within.0) in
      let (stays, _) = session_stays st.host.sessions t i s at on fresh in
      let (st', rest, sent', at') =
        ticks-Waits ts st1 (rw next (ground arith)) (rw chksum same)
          (ap (λ ss. get_elem? ss i) sessions ∙ stays) on within.1 in
      (st', rw (run_ticks, done) rest, sent' ∙ sent, at')

-- The next tick begins at the top of the screen and finds the checksum that was kept, and a client's
-- request for a session has just been granted, its address not being zero. However many ticks follow
-- while the screen stands still and its session lasts, it gets no picture: nothing is sent to it or to
-- anybody, though its session is in the table, with its address and id.
pub joining_client_silent :
    (env : Env) (frame packet : Bytes) (ts : List ℕ) (st : Screen) (i : ℕ)
    → next_row env st ≡ 0
    → screen_checksum env frame ≡ st.video_chksum
    → (session_mgr_start st.host.sessions packet env.now).1 ≡ some i
    → bytes_eq (packet_source packet) null_if_addr ≡ false
    → AllWithin env.now ts
    → let sessions = (session_mgr_start st.host.sessions packet env.now).0 in
      let joined : Screen = record st { host = record st.host { sessions = sessions } } in
      (s : Session) × (s.mac_addr ≡ packet_source packet)
      × (s.session_id ≡ packet_session packet)
      × Waits joined i s (run_ticks env frame ts joined)
joining_client_silent env frame packet ts st i top same granted some_address within =
    let sessions = (session_mgr_start st.host.sessions packet env.now).0 in
    let joined : Screen = record st { host = record st.host { sessions = sessions } } in
    let started = start-Started st.host.sessions packet env.now i granted in
    let s = started.slot in
    let on : in_use s ≡ true =
      ap (λ mac. not (bytes_eq mac null_if_addr)) started.is_client.0 ∙ ap not some_address in
    (
      s,
      started.is_client.0,
      started.is_client.1,
      ticks-Waits env frame i s ts joined top same started.at_slot on
          (rw started.is_fresh.0 within),
    )
