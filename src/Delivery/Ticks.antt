-- ===== src/Delivery/Ticks.antt =====
-- What the ticks of src/server/session.c send, and what of it the terminal of src/client/main.c shows.
use rmtdos.Base.{
  ℕ, ◌+◌, ◌<◌, ◌≤◌, ◌≡◌, refl, true, false, some, Option, List, [], ◌∷◌, ◌++◌, arith, ap, get_elem?,
  Bool-cases, inl, inr, ◌∙◌, sym, length, leb, ◌==◌, ◌&&◌, if◌then◌else◌, subst,
}
use mathlib.Core.List.{append_assoc, append-nil}
use native.Mathlib.Nat.{zero-mul}
use rmtdos.Base.Memory.{Bytes}
use rmtdos.Network.{RawSocket}
use rmtdos.Session.{Session, in_use, timed_out, prune}
use rmtdos.Protocol.{Env}
use rmtdos.Broadcast.{Screen, session_mgr_update_all, chunk_at}
use rmtdos.Broadcast.Cover.{IsText, chunk_at_lem}
use rmtdos.Broadcast.Frames.{WellFormed, update_sends}
use rmtdos.Broadcast.Silence.{screen_checksum, next_row, unchanged_silent}
use rmtdos.Client.{video_text_buffer_len}
use rmtdos.Client.Mirror.{bytes_to}
use rmtdos.Delivery.{run_ticks, arrive}
use rmtdos.Delivery.Sessions.{prune-WellFormed, session_stays}
use rmtdos.Delivery.Terminal.{Terminal, receive_all}
use rmtdos.Delivery.Packets.{Painted, Painted-weaken}
use rmtdos.Delivery.Frames.{receive_all-append, tick-Painted}

-- The session has not timed out at any of the ticks.
abbrev pub InTime : Session → List ℕ → Type 0
InTime s [] = Unit {0}
InTime s (t ∷ ts) = (timed_out t s ≡ false) × InTime s ts

-- The table of sessions has the client's one.
pub record Table (ss : List Session) (j : ℕ) (s : Session) : Type 0 where
  pub well_formed : WellFormed ss
  pub at_slot : get_elem? ss j ≡ some s

pub no_byte : (env : Env) {k : ℕ} → k < bytes_to env.video 0 → ⊥
no_byte env below = omega (arith, below, zero-mul env.video.text_cols)

module _ (rs : RawSocket) (glyphs : ℕ → List ℕ) (colors : ℕ → ℕ) (env : Env) (frame : Bytes)
    (time i lines columns j : ℕ) (s : Session) where
  -- The client and its terminal have the server's screen down to a row, at a time of the server's clock.
  abbrev pub Has : Env → Terminal → ℕ → Type 0
  Has e c row = Painted rs glyphs colors e frame i lines columns c row

  abbrev pub got : Terminal → List (Bytes × ℕ) → Terminal
  got c fs = receive_all rs glyphs colors c (arrive time fs)

  -- The server's side, and the client's: what was sent since `st`, and what the client has of the screen.
  pub record After (run : Option Screen) (st : Screen) (c : Terminal) (row : ℕ) : Type 0 where
    pub st' : Screen
    pub fs : List (Bytes × ℕ)
    pub returns : run ≡ some st'
    pub all_sent : st'.host.sent ≡ st.host.sent ++ fs
    pub has : Has env (got c fs) row

  -- After a tick in the middle of the screen.
  pub record Moved (t : ℕ) (st : Screen) (c : Terminal) (row : ℕ) : Type 0 where
    pub after : After (session_mgr_update_all (record env { now = t }) frame st) st c row
    pub table : Table after.st'.host.sessions j s
    pub at_row : after.st'.video_next_row ≡ row
    pub summed : after.st'.video_chksum ≡ screen_checksum env frame

  -- The server's clock is not part of it.
  at_time :
      (a b row : ℕ) (c : Terminal)
      → Has (record env { now = a }) c row
      → Has (record env { now = b }) c row
  at_time a b row c p = record {
    rh = p.rh;
    mirrors = record { known = p.mirrors.known; slot = p.mirrors.slot; same = p.mirrors.same };
    w = p.w;
    on_window = p.on_window;
    painted = record {
      size = p.painted.size;
      shown = p.painted.shown;
      margin = p.painted.margin;
      below = p.painted.below;
      cursor = p.painted.cursor;
    };
  }

  pub next_tick :
      (t : ℕ) (ts : List ℕ) (st st' : Screen)
      → session_mgr_update_all (record env { now = t }) frame st ≡ some st'
      → run_ticks env frame (t ∷ ts) st ≡ run_ticks env frame ts st'
  unfolding run_ticks
  next_tick t ts st st' done = rw (run_ticks, done) refl

  -- At the top of the screen with its checksum known, nothing is sent any more.
  silent :
      (ts : List ℕ) (st : Screen) (c : Terminal)
      → next_row env st ≡ 0
      → st.video_chksum ≡ screen_checksum env frame
      → Has env c env.video.text_rows
      → After (run_ticks env frame ts st) st c env.video.text_rows
  unfolding run_ticks receive_all arrive
  silent [] st c top sum m = record {
    st' = st;
    fs = [];
    returns = refl;
    all_sent = sym (append-nil st.host.sent);
    has = m;
  }
  silent (t ∷ ts) st c top sum m =
      let now = record env { now = t } in
      let (st', done, sent, chksum, next, _) = unchanged_silent now frame st top (sym sum) in
      let rest = silent ts st' c (rw next (ground arith)) (chksum ∙ sum) m in
      record {
        st' = rest.st';
        fs = rest.fs;
        returns = next_tick t ts st st' done ∙ rest.returns;
        all_sent = rest.all_sent ∙ ap (λ l. l ++ rest.fs) sent;
        has = rest.has;
      }

  -- A tick, and the ticks behind it.
  pub join :
      (t row m : ℕ) (ts : List ℕ) (st : Screen) (c : Terminal) (moved : Moved t st c row)
      → After (run_ticks env frame ts moved.after.st') moved.after.st' (got c moved.after.fs) m
      → After (run_ticks env frame (t ∷ ts) st) st c m
  unfolding run_ticks
  join t row m ts st c moved rest =
      let first = moved.after in
      record {
        st' = rest.st';
        fs = first.fs ++ rest.fs;
        returns = next_tick t ts st first.st' first.returns ∙ rest.returns;
        all_sent =
            rest.all_sent
            ∙ (ap (λ l. l ++ rest.fs) first.all_sent ∙ append_assoc st.host.sent first.fs rest.fs);
        has =
            subst (λ c'. Has env c' m)
              (sym (receive_all-append rs glyphs colors c time first.fs rest.fs)) rest.has;
      }

  module _ (address : length env.mac_addr ≡ 6) (type_fits : env.ethertype < 65536)
      (text : IsText env.video) (some_rows : 0 < env.video.text_rows)
      (fits : bytes_to env.video env.video.text_rows ≤ video_text_buffer_len) (on : in_use s ≡ true)
      (mac : s.mac_addr ≡ rs.if_addr) (id : s.session_id ≡ rs.session_id) where
    pub one_tick :
        (t row : ℕ) (st : Screen) (c : Terminal)
        → Table st.host.sessions j s
        → timed_out t s ≡ false
        → next_row env st ≡ row
        → row < env.video.text_rows
        → (row == 0 && screen_checksum env frame == st.video_chksum) ≡ false
        → (if row == 0 then screen_checksum env frame else st.video_chksum)
          ≡ screen_checksum env frame
        → Has env c row
        → Moved t st c (row + (chunk_at env.video row).rows)
    one_tick t row st c table fresh at lt changed sum m =
        let now = record env { now = t } in
        let (stays, busy) = session_stays st.host.sessions t j s table.at_slot on fresh in
        let wf = prune-WellFormed st.host.sessions t table.well_formed in
        let (st', fs, done, sent, delivered, sessions, next, chksum) =
          update_sends now frame st address type_fits text some_rows wf busy (rw at changed) in
        let m' =
          tick-Painted rs glyphs colors now frame time i lines columns text fits row lt _ s
            (omega arith) on mac id j c (prune st.host.sessions t).0 fs stays (rw at at delivered)
            (at_time env.now t row c m) in
        record {
          after = record {
            st' = st';
            fs = fs;
            returns = done;
            all_sent = sent;
            has = at_time t env.now (row + (chunk_at env.video row).rows) _ m';
          };
          table = record { well_formed = rw sessions wf; at_slot = rw sessions stays };
          at_row = next ∙ ap (λ r. r + (chunk_at env.video r).rows) at;
          summed =
              chksum
              ∙ ap (λ (r : ℕ). if r == 0 then screen_checksum env frame else st.video_chksum) at
              ∙ sum;
        }

    -- The ticks behind the first.
    pub later_ticks :
        (ts : List ℕ) (row : ℕ) (st : Screen) (c : Terminal)
        → Table st.host.sessions j s
        → InTime s ts
        → st.video_next_row ≡ row
        → 0 < row
        → st.video_chksum ≡ screen_checksum env frame
        → env.video.text_rows ≤ row + length ts
        → Has env c row
        → After (run_ticks env frame ts st) st c env.video.text_rows
    later_ticks [] row st c table fresh at low sum enough m =
        let le : env.video.text_rows ≤ row = omega arith in
        silent [] st c (rw at (ground arith)) sum
          (Painted-weaken rs glyphs colors env frame i lines columns env.video.text_rows row le m)
    later_ticks (t ∷ ts) row st c table fresh at low sum enough m =
        elim (Bool-cases (leb env.video.text_rows row)) [
          | inl done ↦ silent (t ∷ ts) st c (rw (at, done) refl) sum (
              Painted-weaken rs glyphs colors env frame i lines columns env.video.text_rows row
                (ground arith) m)
          | inr more ↦
              let lt : row < env.video.text_rows = ground arith in
              let inside : (row == 0) ≡ false = ground arith in
              let chunk = chunk_at_lem env.video row text lt in
              let moved =
                one_tick t row st c table fresh.0 (rw (at, more) refl) lt (rw inside refl)
                  (rw inside sum) m in
              join t (row + (chunk_at env.video row).rows) env.video.text_rows ts st c moved (
                later_ticks ts (row + (chunk_at env.video row).rows) moved.after.st'
                  (got c moved.after.fs) moved.table fresh.1 moved.at_row (omega arith) moved.summed
                  (omega arith) moved.after.has)
        ]
