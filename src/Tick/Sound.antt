-- ===== src/Tick/Sound.antt =====
-- What src/server keeps true between its interrupts: each call of the packet driver and each tick of
-- the timer keeps the server sound.
use rmtdos.Base.{
  ◌≢◌, ℕ, ◌+◌, ◌≤◌, ◌<◌, ◌≡◌, refl, ◌∙◌, sym, subst, some, List, [], ◌∷◌, arith, ◌==◌, true, false,
  length, Bool-cases, inl, inr, ◌⊎◌, leb,
}
use rmtdos.Base.Memory.{Bytes}
use rmtdos.Bufmgr.{
  user, buffer_get_ready, buffer_release, Ptr, null, data_of, buffer_of, buffer_acquire,
  driver_write, buffer_max_size, ready, pending,
}
use rmtdos.Bufmgr.Chain.{NotIn, contains, erase, length-erase, state_of_contains}
use rmtdos.Bufmgr.Pool
use rmtdos.Bufmgr.Pool.{Pool, total}
use rmtdos.Bufmgr.Invariant.{Holds, pool, apart}
use rmtdos.Bufmgr.Content.{get_ready_keeps, release_keeps, contents, acquire_keeps, marked_content}
use rmtdos.Bufmgr.Refine.{
  get_ready_refines, release_refines, acquire_fits, acquire-none, acquire_refines,
  driver_write_refines, mark_ready_refines,
}
use rmtdos.X86.{CpuRegs}
use rmtdos.Pktdrv.{pktdrv_receive_func}
use rmtdos.Pktdrv.Receive.{first-buffer, first-null, second-call}
use rmtdos.Protocol.{Env}
use rmtdos.Protocol.Process.{released}
use rmtdos.Broadcast.{Screen, session_mgr_update_all}
use rmtdos.Tick.{update_all-keys, Server, int08_handler, int08_handler_lem}
use rmtdos.Tick.Table.{
  handle-IsTable, IsTable, AreBytes, AllBytes, handle_all-IsTable, prune-IsTable,
}
use rmtdos.Tick.Run.{
  State, given, called, answered, taken, Step, first_call, second_call, tick, take, give, send,
  Reach, here, further, Sound,
}

refused-Sound :
    (n c ds : ℕ) (s : State) (regs : CpuRegs)
    → regs.ax ≡ 0
    → (k : Sound n c s) → (k.fs ≡ []) ⊎ (buffer_max_size < regs.cx)
    → Sound n c (called s (given (answered ds s regs).2.di s.held) (answered ds s regs))
refused-Sound n c ds s regs first k no_room =
    let m = s.server.buffers in
    rw
      (first-null ds s.driver m regs first
        (acquire-none m (pool k.fs s.held k.rs s.busy) regs.cx k.holds no_room))
      (record {
        fs = k.fs;
        rs = k.rs;
        holds = k.holds;
        table = k.table;
        size = k.size;
        bytes = k.bytes;
      })

granted-Sound :
    (n c ds : ℕ) (s : State) (regs : CpuRegs) (p : Ptr) (fs rs : List Ptr)
    → regs.ax ≡ 0
    → Holds s.server.buffers (pool (p ∷ fs) s.held rs s.busy)
    → IsTable n s.server.screen.host.sessions
    → length (p ∷ fs) + length s.held + length rs + length s.busy ≡ c
    → AllBytes (contents s.server.buffers.cell rs)
    → regs.cx ≤ buffer_max_size
    → Sound n c (called s (given (answered ds s regs).2.di s.held) (answered ds s regs))
granted-Sound n c ds s regs p fs rs first h table size bytes fits =
    let m = s.server.buffers in
    let (h1, answer) = acquire_refines regs.cx h in
    let h2 = rw (acquire_fits p fs s.held rs s.busy regs.cx fits) at h1 in
    let positive : 0 < p = h.free_on.1 in
    let found : (p == null) ≡ false = ground arith in
    let back : buffer_of (data_of p) ≡ p = omega arith in
    let some_data : (data_of p == 0) ≡ false = ground arith in
    let got : (buffer_acquire m regs.cx).1 ≡ data_of p =
      answer ∙ rw (acquire_fits p fs s.held rs s.busy regs.cx fits, found) refl in
    let out = apart m.cell p (m.cell p) h.free_on.0 ready (λ e. cc) rs h.ready_on in
    let kept = acquire_keeps m regs.cx rs (rw (h.free_chain.0) out) in
    rw (first-buffer ds s.driver m regs first got (omega arith), some_data, back)
      (record {
        fs = fs;
        rs = rs;
        holds = h2;
        table = table;
        size = omega (arith, size);
        bytes = subst AllBytes (sym kept) bytes;
      })

first-Sound :
    (n c ds : ℕ) (s : State) (regs : CpuRegs) (fs rs : List Ptr)
    → regs.ax ≡ 0
    → Holds s.server.buffers (pool fs s.held rs s.busy)
    → IsTable n s.server.screen.host.sessions
    → length fs + length s.held + length rs + length s.busy ≡ c
    → AllBytes (contents s.server.buffers.cell rs)
    → Sound n c (called s (given (answered ds s regs).2.di s.held) (answered ds s regs))
first-Sound n c ds s regs [] rs first h table size bytes =
    refused-Sound n c ds s regs first
      (record { fs = []; rs = rs; holds = h; table = table; size = size; bytes = bytes }) (inl refl)
first-Sound n c ds s regs (p ∷ fs) rs first h table size bytes =
    elim (Bool-cases (leb regs.cx buffer_max_size)) [
      | inl short ↦ granted-Sound n c ds s regs p fs rs first h table size bytes (ground arith)
      | inr long ↦
          refused-Sound n c ds s regs first
            (record { fs = p ∷ fs; rs = rs; holds = h; table = table; size = size; bytes = bytes })
            (inr (ground arith))
    ]

second-Sound :
    (n c ds : ℕ) (s : State) (regs : CpuRegs) (p : Ptr) (packet : Bytes)
    → regs.ax ≡ 1
    → regs.si ≡ data_of p
    → contains p s.held ≡ true
    → AreBytes packet
    → Sound n c s
    → Sound n c (
        called s
          (erase p s.held)
          (pktdrv_receive_func ds s.driver (driver_write s.server.buffers p packet) regs))
unfolding Pool.mark_ready
second-Sound n c ds s regs p packet second at held are k =
    let m = s.server.buffers in
    let h1 = driver_write_refines p packet held k.holds in
    let h2 = mark_ready_refines p held h1 in
    let (was, positive, inside) =
      state_of_contains m.cell pending p s.held k.holds.pending_on held in
    let out = apart m.cell p (m.cell p) was ready (λ e. cc) k.rs k.holds.ready_on in
    let (filled, kept) = marked_content m p packet k.rs positive inside out in
    rw (second-call ds s.driver (driver_write m p packet) regs second, at)
      (record {
        fs = k.fs;
        rs = p ∷ k.rs;
        holds = h2;
        table = k.table;
        size = omega (arith, k.size, length-erase p s.held held);
        bytes = (subst AreBytes (sym filled) are, subst AllBytes (sym kept) k.bytes);
      })

length-released : (rs fs : List Ptr) → length (released rs fs) ≡ length rs + length fs
length-released [] fs = omega arith
length-released (r ∷ rs) fs = omega (arith, length-released rs (r ∷ fs))

module _ (n c ds : ℕ) (s : State) (env : Env) (frame : Bytes) (fuel : ℕ) (k : Sound n c s)
    (wide : 0 < env.video.text_cols) (enough : s.server.buffers.buffer_count < fuel) where
  -- A tick returns from a sound state, in a sound state that has no packet left.
  pub ticked :
      (server : Server) × (int08_handler env frame fuel s.server ≡ some server)
      × (server.buffers.ready_list ≡ null)
      × (fs : List Ptr) × Holds server.buffers (pool fs s.held [] s.busy)
      × IsTable n server.screen.host.sessions
      × (length fs + length s.held + length s.busy ≡ c)
  ticked =
      let count = k.holds.counted in
      let (server, returns, _, _, pruned, h, _) =
        int08_handler_lem env frame fuel s.server k.fs s.held k.rs s.busy k.holds (omega arith)
          wide in
      let kept =
        prune-IsTable n _ env.now
          (handle_all-IsTable n env s.server.screen.host _ k.bytes k.table) in
      (
        server,
        returns,
        h.ready_chain,
        released k.rs k.fs,
        h,
        subst (IsTable n) (sym pruned) kept,
        omega (arith, k.size, length-released k.rs k.fs),
      )

take-Sound :
    (n c : ℕ) (s : State) (env : Env) (fs rs : List Ptr)
    → s.server.buffers.ready_list ≢ null
    → Holds s.server.buffers (pool fs s.held rs s.busy)
    → IsTable n s.server.screen.host.sessions
    → length fs + length s.held + length rs + length s.busy ≡ c
    → AllBytes (contents s.server.buffers.cell rs)
    → Sound n c (taken env s)
unfolding Pool.get_ready
take-Sound n c s env fs [] some_ready holds table size bytes = absurd (some_ready holds.ready_chain)
take-Sound n c s env fs (p ∷ rs) some_ready holds table size bytes =
    let m = s.server.buffers in
    let head : m.ready_list ≡ p = holds.ready_chain.0 in
    let are : AreBytes (m.cell m.ready_list).data_area = rw head bytes.0 in
    let out : NotIn m.ready_list rs = rw head holds.ready_on.3 in
    record {
      fs = fs;
      rs = rs;
      holds =
          subst (λ q. Holds (buffer_get_ready m).0 (pool fs s.held rs (q ∷ s.busy))) (sym head)
            (get_ready_refines holds).0;
      table = handle-IsTable n env s.server.screen.host _ _ are table;
      size = omega (arith, size);
      bytes = subst AllBytes (sym (get_ready_keeps m some_ready rs out)) bytes.1;
    }

give-Sound :
    (n c : ℕ) (s : State) (p : Ptr)
    → contains p s.busy ≡ true
    → Sound n c s
    → Sound n c (record s {
      busy = erase p s.busy;
      server = record s.server { buffers = buffer_release s.server.buffers p };
    })
unfolding Pool.release
give-Sound n c s p at_work k =
    let m = s.server.buffers in
    let was = (state_of_contains m.cell user p s.busy k.holds.user_on at_work).0 in
    let out = apart m.cell p (m.cell p) was ready (λ e. cc) k.rs k.holds.ready_on in
    record {
      fs = p ∷ k.fs;
      rs = k.rs;
      holds = release_refines p at_work k.holds;
      table = k.table;
      size = omega (arith, k.size, length-erase p s.busy at_work);
      bytes = subst AllBytes (sym (release_keeps m p k.rs out)) k.bytes;
    }

send-Sound :
    (n c ticks : ℕ) (s : State) (env : Env) (frame : Bytes) (screen : Screen)
    → 0 < env.video.text_cols
    → session_mgr_update_all env frame s.server.screen ≡ some screen
    → Sound n c s
    → Sound n c (record s { server = record s.server { int08_ticks = ticks; screen = screen } })
send-Sound n c ticks s env frame screen wide sent k =
    let (screen', sent', _, pruned) = update_all-keys env frame s.server.screen wide in
    let same : screen' ≡ screen = grind (arith, sent, sent') in
    let kept = subst (IsTable n) (sym pruned) (prune-IsTable n _ env.now k.table) in
    record {
      fs = k.fs;
      rs = k.rs;
      holds = k.holds;
      table = subst (λ (x : Screen). IsTable n x.host.sessions) same kept;
      size = k.size;
      bytes = k.bytes;
    }

step-Sound : (n c ds : ℕ) (s t : State) → Step ds s t → Sound n c s → Sound n c t
step-Sound n c ds _ _ (first_call s regs first) k =
    first-Sound n c ds s regs k.fs k.rs first k.holds k.table k.size k.bytes
step-Sound n c ds _ _ (second_call s regs p packet second at held are) k =
    second-Sound n c ds s regs p packet second at held are k
step-Sound n c ds _ _ (tick s env frame fuel server wide enough run) k =
    let (server', returns, _, fs, h, table, size) = ticked n c ds s env frame fuel k wide enough in
    let sound : Sound n c (record s { server = server' }) = record {
      fs = fs;
      rs = [];
      holds = h;
      table = table;
      size = omega (arith, size);
      bytes = tt;
    } in
    let same : server' ≡ server = grind (arith, returns, run) in
    subst (λ (x : Server). Sound n c (record s { server = x })) same sound
step-Sound n c ds _ _ (take s env some_ready) k =
    take-Sound n c s env k.fs k.rs some_ready k.holds k.table k.size k.bytes
step-Sound n c ds _ _ (give s p at_work) k = give-Sound n c s p at_work k
step-Sound n c ds _ _ (send s env frame screen wide sent) k =
    send-Sound n c _ s env frame screen wide sent k

pub Reach-Sound : (n c ds : ℕ) (s t : State) → Reach ds s t → Sound n c s → Sound n c t
Reach-Sound n c ds s _ here k = k
Reach-Sound n c ds s _ (further u t before step) k =
    step-Sound n c ds u t step (Reach-Sound n c ds s u before k)
