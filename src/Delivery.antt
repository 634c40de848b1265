-- ===== src/Delivery.antt =====
-- The server of src/server and the client of src/client/main.c on one network: ticks of
-- session_mgr_update_all, and what it sends received by process_socket_io.
pub mod Sessions
pub mod Terminal
pub mod Painted
pub mod Packets
pub mod Frames
pub mod Ticks
pub mod Waiting
pub mod Picture
pub mod Arrivals
pub mod Typing
use rmtdos.Base.{ℕ, Option, none, some, List, [], ◌∷◌}
use rmtdos.Base.Memory.{Bytes}
use rmtdos.Protocol.{Env}
use rmtdos.Broadcast.{Screen, session_mgr_update_all}
use rmtdos.Client.Mirror.{Arrival}

-- The ticks at these times of the BIOS clock, with one picture in the frame buffer.
unfoldable pub run_ticks : Env → Bytes → List ℕ → Screen → Option Screen
run_ticks env frame [] st = some st
run_ticks env frame (t ∷ ts) st = elim (session_mgr_update_all (record env { now = t }) frame st) [
  | none ↦ none
  | some st' ↦ run_ticks env frame ts st'
]

-- Everything that was sent arrives, in its order, at one time of the client's clock.
pub arrive : ℕ → List (Bytes × ℕ) → List Arrival
arrive time [] = []
arrive time ((f, len) ∷ fs) = record { frame = f; received = len; now = time } ∷ arrive time fs
