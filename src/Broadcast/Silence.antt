-- ===== src/Broadcast/Silence.antt =====
-- When session_mgr_update_all of src/server/session.c sends nothing.
use rmtdos.Base.{
  ℕ, ◌*◌, ◌%◌, ◌≡◌, refl, some, arith, leb, ◌==◌, true, if◌then◌else◌, Bool-cases, inl, inr,
}
use rmtdos.Base.Memory.{Bytes}
use rmtdos.Session.{prune}
use rmtdos.Protocol.{Env}
use rmtdos.Broadcast.{Screen, session_mgr_update_all, video_checksum_frame_buffer, video_word}

-- The checksum that a tick computes.
abbrev pub screen_checksum : Env → Bytes → ℕ
screen_checksum env frame =
    video_checksum_frame_buffer frame 0
      (env.video.text_rows * env.video.text_cols * video_word % 65536)

-- The row at which a tick begins.
abbrev pub next_row : Env → Screen → ℕ
next_row env st = if leb env.video.text_rows st.video_next_row then 0 else st.video_next_row

module _ (env : Env) (frame : Bytes) (st : Screen) where
  -- At the top of the screen, and with the checksum of the last round, a tick sends nothing.
  pub unchanged_silent :
      next_row env st ≡ 0
      → screen_checksum env frame ≡ st.video_chksum
      → (st' : Screen) × (session_mgr_update_all env frame st ≡ some st')
        × (st'.host.sent ≡ st.host.sent)
        × (st'.video_chksum ≡ st.video_chksum)
        × (st'.video_next_row ≡ 0)
        × (st'.host.sessions ≡ (prune st.host.sessions env.now).0)
  unfolding session_mgr_update_all
  unchanged_silent top same =
      let active = (prune st.host.sessions env.now).1 in
      let unchanged : (screen_checksum env frame == st.video_chksum) ≡ true = ground arith in
      let pruned : Screen = record st {
        host = record st.host { sessions = (prune st.host.sessions env.now).0 };
        video_next_row = 0;
      } in
      elim (Bool-cases (active == 0)) [
        | inl e ↦ (pruned, rw e, refl, refl, refl, refl)
        | inr e ↦ (pruned, rw (e, top, unchanged), refl, refl, refl, refl)
      ]
