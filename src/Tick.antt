-- ===== src/Tick.antt =====
-- int08_handler of src/server/resident.c: what the server does on each timer interrupt, with DEBUG off.
pub mod Table
pub mod Run
pub mod Sound
pub mod Served
use rmtdos.Base.{
  ℕ, ◌+◌, ◌%◌, ◌<◌, ◌≡◌, refl, Option, some, none, List, [], ◌∷◌, ◌==◌, ◌&&◌, if◌then◌else◌, false,
  arith, length, Bool-cases, inl, inr,
}
use rmtdos.Base.Memory.{Bytes}
use rmtdos.Bufmgr.{Ptr, Bufmgr}
use rmtdos.Bufmgr.Invariant.{Holds, pool}
use rmtdos.Bufmgr.Content.{contents}
use rmtdos.Session.{Session, in_use, prune}
use rmtdos.Protocol.{Env, Host, protocol_process}
use rmtdos.Protocol.Process.{handle_all, released, protocol_process_lem}
use rmtdos.Broadcast.{Screen, session_mgr_update_all, send_all, compose, chunk_at, payload_size}
use rmtdos.Broadcast.Silence.{next_row, screen_checksum}
use rmtdos.Wire.{combined_header_len}

-- The counter of ticks, the buffers, and what the handlers work on.
pub record Server : Type 0 where
  pub int08_ticks : ℕ
  pub buffers : Bufmgr
  pub screen : Screen

-- `fuel` is that of protocol_process.
pub int08_handler : Env → (frame : Bytes) → (fuel : ℕ) → Server → Option Server
int08_handler env frame fuel s = elim (protocol_process env fuel s.buffers s.screen.host) [
  | none ↦ none
  | some (buffers, host) ↦
      elim (session_mgr_update_all env frame (record s.screen { host = host })) [
        | none ↦ none
        | some screen ↦ some (record {
          int08_ticks = (s.int08_ticks + 1) % 4294967296;
          buffers = buffers;
          screen = screen;
        })
      ]
]

send_all-keys :
    (env : Env) (frame : Bytes) (ss : List Session) (h : Host) (len : ℕ)
    → (send_all env frame ss h len).keys ≡ h.keys
unfolding send_all
send_all-keys env frame [] h len = refl
send_all-keys env frame (s ∷ ss) h len = elim (Bool-cases (in_use s)) [
  | inl on ↦ rw on (send_all-keys env frame ss _ len)
  | inr off ↦ rw off (send_all-keys env frame ss h len)
]

send_all-sessions :
    (env : Env) (frame : Bytes) (ss : List Session) (h : Host) (len : ℕ)
    → (send_all env frame ss h len).sessions ≡ h.sessions
unfolding send_all
send_all-sessions env frame [] h len = refl
send_all-sessions env frame (s ∷ ss) h len = elim (Bool-cases (in_use s)) [
  | inl on ↦ rw on (send_all-sessions env frame ss _ len)
  | inr off ↦ rw off (send_all-sessions env frame ss h len)
]

-- The broadcast answers on any screen with columns, leaves the keys alone, and prunes the sessions.
pub update_all-keys :
    (env : Env) (frame : Bytes) (st : Screen)
    → 0 < env.video.text_cols
    → (st' : Screen) × (session_mgr_update_all env frame st ≡ some st')
      × (st'.host.keys ≡ st.host.keys)
      × (st'.host.sessions ≡ (prune st.host.sessions env.now).0)
unfolding session_mgr_update_all
update_all-keys env frame st wide =
    let sessions = (prune st.host.sessions env.now).0 in
    let host = record st.host { sessions = sessions } in
    let chunk = chunk_at env.video (next_row env st) in
    let composed = record host { send_buffer = compose env frame host.send_buffer chunk } in
    let len = combined_header_len + payload_size chunk in
    let some_cols : (env.video.text_cols == 0) ≡ false = ground arith in
    elim (Bool-cases ((prune st.host.sessions env.now).1 == 0)) [
      | inl idle ↦ (record st { host = host; video_next_row = 0 }, rw idle refl, refl, refl)
      | inr active ↦
          elim (Bool-cases (next_row env st == 0 && screen_checksum env frame == st.video_chksum)) [
            | inl same ↦ (
              record st { host = host; video_next_row = next_row env st },
              rw (active, same) refl,
              refl,
              refl,
            )
            | inr changed ↦ (
              record {
                host = send_all env frame sessions composed len;
                video_chksum =
                    if next_row env st == 0 then screen_checksum env frame else st.video_chksum;
                video_next_row = next_row env st + chunk.rows;
              },
              rw (active, changed, some_cols) refl,
              send_all-keys env frame sessions composed len,
              send_all-sessions env frame sessions composed len,
            )
          ]
    ]

-- On a table that stands for a pool, with fuel for one round more than there are ready packets, and on
-- a screen with columns, the handler of a timer tick returns. It counts the tick, has taken every ready
-- packet through the protocol's handlers, once each, has injected the keystrokes of all of them before
-- the screen is sent, has pruned the sessions, and has left no buffer ready.
pub int08_handler_lem :
    (env : Env) (frame : Bytes) (fuel : ℕ) (s : Server) (fs ps rs us : List Ptr)
    → Holds s.buffers (pool fs ps rs us)
    → length rs < fuel
    → 0 < env.video.text_cols
    → let handled = handle_all env s.screen.host (contents s.buffers.cell rs) in
      (s' : Server) × (int08_handler env frame fuel s ≡ some s')
      × (session_mgr_update_all env frame (record s.screen { host = handled }) ≡ some s'.screen)
      × (s'.screen.host.keys ≡ handled.keys)
      × (s'.screen.host.sessions ≡ (prune handled.sessions env.now).0)
      × Holds s'.buffers (pool (released rs fs) ps [] us)
      × (s'.int08_ticks ≡ (s.int08_ticks + 1) % 4294967296)
unfolding int08_handler
int08_handler_lem env frame fuel s fs ps rs us holds enough wide =
    let handled = handle_all env s.screen.host (contents s.buffers.cell rs) in
    let (m', done, holds') =
      protocol_process_lem env fuel s.buffers s.screen.host fs ps rs us holds enough in
    let (st', sent, keys, sessions) =
      update_all-keys env frame (record s.screen { host = handled }) wide in
    (
      record { int08_ticks = (s.int08_ticks + 1) % 4294967296; buffers = m'; screen = st' },
      rw (int08_handler, done, sent) refl,
      sent,
      keys,
      sessions,
      holds',
      refl,
    )
