-- ===== src/Tests/Sessions.antt =====
-- The session table and the screen of a server with two slots.
use rmtdos.Base.{
  ℕ, ◌+◌, ◌≡◌, ◌≢◌, ◌==◌, ◌&&◌, refl, List, [], ◌∷◌, ◌++◌, arith, some, none, get_elem?, bytes_eq,
  false,
}
use rmtdos.Base.Memory.{Bytes, zeros, of_list}
use rmtdos.Wire.{combined_header_len}
use rmtdos.Session.{
  Session, blank, null_if_addr, packet_source, packet_session, session_mgr_find, session_mgr_start,
  prune,
}
use rmtdos.Session.Start.{Started, start-Started}
use rmtdos.Session.Prune.{null_address_leaks}
use rmtdos.Protocol.{VideoState, Env, Host}
use rmtdos.Broadcast.{Screen, chunk_at, payload_size, session_mgr_update_all}
use rmtdos.Broadcast.Cover.{IsText}
use rmtdos.Broadcast.Silence.{screen_checksum}
use rmtdos.Delivery.{run_ticks}
use rmtdos.Delivery.Waiting.{Waits, joining_client_silent}
use rmtdos.Broadcast.Frames.{Delivered, update_sends}

-- A start request for the server 2:2:2:2:2:2, of a client and its session.
abbrev pub start_from : List ℕ → ℕ → Bytes
start_from mac id = of_list (
    2
    ∷ 2
    ∷ 2
    ∷ 2
    ∷ 2
    ∷ 2
    ∷ (mac ++ (128 ∷ 171 ∷ 123 ∷ 110 ∷ 5 ∷ 176 ∷ 0 ∷ 0 ∷ 0 ∷ id ∷ 0 ∷ 0 ∷ 0 ∷ 5 ∷ [])))

abbrev pub client_mac : List ℕ
client_mac = 1 ∷ 1 ∷ 1 ∷ 1 ∷ 1 ∷ 1 ∷ []

abbrev pub other_mac : List ℕ
other_mac = 3 ∷ 3 ∷ 3 ∷ 3 ∷ 3 ∷ 3 ∷ []

abbrev pub other : Session
other = record { t_last_recv = 900; session_id = 4; mac_addr = other_mac; video_chksum = 0 }

abbrev request : Bytes
request = start_from client_mac 7

abbrev null_request : Bytes
null_request = start_from null_if_addr 7

granted : (session_mgr_start (other ∷ blank ∷ []) request 1000).1 ≡ some 1
unfolding session_mgr_start session_mgr_find bytes_eq
granted = refl

null_granted : (session_mgr_start (other ∷ blank ∷ []) null_request 1000).1 ≡ some 1
unfolding session_mgr_start session_mgr_find bytes_eq
null_granted = refl

refused : (session_mgr_start (other ∷ []) request 1000).1 ≡ none
unfolding session_mgr_start session_mgr_find bytes_eq
refused = refl

start-Started_example :
    Started
      (other ∷ blank ∷ [])
      (session_mgr_start (other ∷ blank ∷ []) request 1000).0
      (packet_source request)
      (packet_session request)
      1000
      1
start-Started_example = start-Started (other ∷ blank ∷ []) request 1000 1 granted

is_other : (bytes_eq (packet_source request) other_mac && packet_session request == 4) ≡ false
unfolding bytes_eq
is_other = refl

is_used : (bytes_eq null_if_addr other_mac && 0 == 4) ≡ false
unfolding bytes_eq
is_used = refl

null_address_leaks_example :
    let taken = (session_mgr_start (other ∷ blank ∷ []) null_request 1000).0 in
    (get_elem? (prune taken 5000).0 1 ≡ get_elem? taken 1)
    × (session_mgr_find taken null_if_addr 0 ≢ some 1)
    × (session_mgr_find (prune taken 5000).0 null_if_addr 0 ≢ some 1)
null_address_leaks_example =
    null_address_leaks (other ∷ blank ∷ []) null_request 1000 5000 1 null_granted refl (omega arith)

abbrev pub video : VideoState
video = record {
  video_mode = 3;
  active_page = 0;
  text_rows = 25;
  text_cols = 80;
  cursor_row = 4;
  cursor_col = 9;
}

pub text : IsText video
text = record { rows_byte = omega arith; cols_byte = omega arith; some_cols = omega arith }

abbrev pub env : Env
env = record {
  mac_addr = 2 ∷ 2 ∷ 2 ∷ 2 ∷ 2 ∷ 2 ∷ [];
  ethertype = 0x80ab;
  now = 1000;
  video = video;
}

abbrev pub host : Host
host = record { sessions = other ∷ blank ∷ []; send_buffer = zeros; sent = []; keys = [] }

abbrev still : Screen
still = record { host = host; video_chksum = screen_checksum env zeros; video_next_row = 25 }

joining_client_silent_example :
    let sessions = (session_mgr_start host.sessions request env.now).0 in
    let joined : Screen = record still { host = record host { sessions = sessions } } in
    (s : Session) × (s.mac_addr ≡ packet_source request)
    × (s.session_id ≡ packet_session request)
    × Waits joined 1 s (run_ticks env zeros (1001 ∷ 1002 ∷ 1003 ∷ []) joined)
unfolding session_mgr_start session_mgr_find bytes_eq
joining_client_silent_example =
    joining_client_silent env zeros request (1001 ∷ 1002 ∷ 1003 ∷ []) still 1 refl refl refl refl
      (omega arith, (omega arith, (omega arith, tt)))

-- In the middle of a round.
abbrev moving : Screen
moving = record { host = host; video_chksum = 0; video_next_row = 9 }

pruned : prune (other ∷ blank ∷ []) 1000 ≡ (other ∷ blank ∷ [], 1)
unfolding prune bytes_eq
pruned = refl

update_sends_example :
    let c = chunk_at video 9 in
    (st' : Screen) × (fs : List (Bytes × ℕ)) × (session_mgr_update_all env zeros moving ≡ some st')
    × (st'.host.sent ≡ [] ++ fs)
    × Delivered env zeros c (combined_header_len + payload_size c) (prune host.sessions 1000).0 fs
    × (st'.host.sessions ≡ (prune host.sessions 1000).0)
    × (st'.video_next_row ≡ 9 + c.rows)
    × (st'.video_chksum ≡ moving.video_chksum)
unfolding prune bytes_eq
update_sends_example =
    update_sends env zeros moving refl (omega arith) text (omega arith)
      (refl, omega arith, (refl, omega arith, tt)) (omega arith) refl
