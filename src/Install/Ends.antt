-- ===== src/Install/Ends.antt =====
-- How the start of the server, src/server/main.c, leaves the machine.
use rmtdos.Base.{
  ℕ, ◌/◌, ◌≤◌, ◌≡◌, refl, ◌∙◌, Option, some, List, ◌==◌, arith, Bool, true, false, Option-cases,
  inl, inr, if◌then◌else◌, ◌⊎◌,
}
use rmtdos.Base.Memory.{Bytes}
use rmtdos.X86.{CpuRegs, x86_reset_regs}
use rmtdos.Bufmgr.{Ptr, Buffer, Bufmgr, buffer_init}
use rmtdos.Session.{session_mgr_init}
use rmtdos.Pktdrv.{pktdrv_init}
use rmtdos.Resident.{
  restore_interrupt_handlers, resident_uninstall_check, install_lem, multiplex_cmd_install_check,
  multiplex_cmd_uninstall,
}
use rmtdos.Bufmgr.Init.{buffer_init_count}
use rmtdos.Install.{
  Program, Settings, Opt, Parsed, parsed, stopped, Result, returned, resides, clamp_buffers,
  go_resident, load, check_and_load, run_parsed, main, multiplex_regs, parse_options,
  default_buffers, exit_success,
}

-- Whether the options ask for the removal of a copy.
abbrev pub asks : Parsed → Bool
asks (stopped code) = false
asks (parsed s) = s.unload

-- Whether the command line does.
abbrev pub asked : (atoi : List ℕ → ℕ) (ethertype : ℕ) (options : List Opt) → Bool
asked atoi ethertype options = asks (
    parse_options atoi
      (record { buffers = default_buffers; irq = 0; unload = false; g_ethertype = ethertype })
      options)

module _ {W : Type 0} (x86_call : W → ℕ → CpuRegs → W × CpuRegs) (memory : W → ℕ → ℕ → Bytes)
    (segment : ℕ) (terminate : W → CpuRegs → Option (W × CpuRegs)) (zap : W → W) (table : W → ℕ → ℕ)
    (int08_isr int2f_isr : ℕ) (probed ethertype_at receive_isr mac_at envseg keep_ptr : ℕ)
    (cell : Ptr → Buffer) (allocated : Ptr) where
  -- What has to hold of a server that stays, of the program as it was before.
  pub record IsResident (p p' : Program) : Type 0 where
    pub timer : p'.resident.vectors 8 ≡ int08_isr
    pub multiplex : p'.resident.vectors 47 ≡ int2f_isr
    pub removable : resident_uninstall_check int08_isr int2f_isr p'.resident ≡ 0
    pub undone :
        (i : ℕ)
        → (restore_interrupt_handlers int08_isr int2f_isr p'.resident).vectors i
          ≡ p.resident.vectors i
    pub fresh : p'.sessions ≡ session_mgr_init
    pub buffers : (m : Bufmgr) × (p'.bufmgr ≡ some m) × (1 ≤ m.buffer_count) × (m.buffer_count ≤ 10)

  -- A program that returns leaves every interrupt vector as it was, or it has asked a copy that answers
  -- as removable to go, and the vectors are those that the copy left.
  abbrev pub Leaves : (u : Bool) → W → Program → Result W → Type 0
  Leaves u w0 p (returned code w p') =
      ((i : ℕ) → p'.resident.vectors i ≡ p.resident.vectors i)
      ⊎ ((u ≡ true)
          × (let (w1, regs) = x86_call w0 47 (multiplex_regs segment multiplex_cmd_install_check) in
              (regs.bx ≡ 0)
              × (regs.ax ≡ 0)
              × (code ≡ exit_success)
              × (w ≡ (x86_call w1 47 (multiplex_regs segment multiplex_cmd_uninstall)).0))
          × ((i : ℕ) → p'.resident.vectors i ≡ table w i))
  Leaves u w0 p (resides w p') = IsResident p p'

  abbrev start_resident : W → Program → Result W
  start_resident =
      go_resident x86_call memory segment terminate zap table int08_isr int2f_isr probed
        ethertype_at receive_isr mac_at envseg keep_ptr cell allocated

  -- The buffers, the sessions and the vectors as they are when the packet driver has been asked.
  record IsLoaded (p p' : Program) : Type 0 where
    same : (i : ℕ) → p'.resident.vectors i ≡ p.resident.vectors i
    fresh : p'.sessions ≡ session_mgr_init
    buffers : (m : Bufmgr) × (p'.bufmgr ≡ some m) × (1 ≤ m.buffer_count) × (m.buffer_count ≤ 10)

  go_resident-Leaves :
      (u : Bool) (w0 w : W) (p p' : Program) → IsLoaded p p' → Leaves u w0 p (start_resident w p')
  unfolding go_resident
  go_resident-Leaves u w0 w p p' h =
      let (timer, multiplex, removable, undone) = install_lem int08_isr int2f_isr p'.resident in
      let (w1, freed) =
        x86_call w 33 (record (x86_reset_regs segment) { ax = 0x4900; es = envseg }) in
      elim (Option-cases (
        terminate (zap w1) (record (x86_reset_regs segment) { ax = 0x3100; dx = keep_ptr / 16 }))) [
          | inl gone ↦
              rw (gone, go_resident, Leaves)
                (record {
                  timer = timer;
                  multiplex = multiplex;
                  removable = removable;
                  undone = λ i. undone i ∙ h.same i;
                  fresh = h.fresh;
                  buffers = h.buffers;
                })
          | inr (back, came) ↦ rw (came, go_resident, Leaves) (inl (λ i. undone i ∙ h.same i))
        ]

  abbrev start_load : W → Program → Settings → Result W
  start_load =
      load x86_call memory segment terminate zap table int08_isr int2f_isr probed ethertype_at
        receive_isr mac_at envseg keep_ptr cell allocated

  Leaves-if :
      (u : Bool) (w0 : W) (p : Program) (test : Bool) (a b : Result W)
      → (test ≡ true → Leaves u w0 p a)
      → Leaves u w0 p b
      → Leaves u w0 p (if test then a else b)
  Leaves-if u w0 p true a b ha hb = ha refl
  Leaves-if u w0 p false a b ha hb = hb

  load-Leaves :
      (u : Bool) (w0 w : W) (p : Program) (s : Settings) → Leaves u w0 p (start_load w p s)
  unfolding load
  load-Leaves u w0 w p s =
      elim (Option-cases (buffer_init cell allocated (clamp_buffers s.buffers))) [
        | inl failed ↦ rw (failed, load, Leaves) (inl (λ i. refl))
        | inr (m, made) ↦
            let (w1, d, r) =
              pktdrv_init x86_call memory segment w probed ethertype_at receive_isr mac_at s.irq in
            let p2 : Program = record {
              bufmgr = some m;
              sessions = session_mgr_init;
              resident = record p.resident { pktdrv = d };
            } in
            let count = buffer_init_count cell allocated (clamp_buffers s.buffers) m made in
            let loaded : IsLoaded p p2 = record {
              same = λ i. refl;
              fresh = refl;
              buffers = (m, refl, ground (arith, count), ground (arith, count));
            } in
            rw (made, load, Leaves)
              (Leaves-if u w0 p (r == 0) (start_resident w1 p2) (returned r w1 p2)
                (λ connected. go_resident-Leaves u w0 w1 p p2 loaded) (inl (λ i. refl)))
      ]

  abbrev start_checked : W → Program → Settings → Result W
  start_checked =
      check_and_load x86_call memory segment terminate zap table int08_isr int2f_isr probed
        ethertype_at receive_isr mac_at envseg keep_ptr cell allocated

  check_and_load-Leaves :
      (w : W) (p : Program) (s : Settings) → Leaves s.unload w p (start_checked w p s)
  unfolding check_and_load
  check_and_load-Leaves w p s =
      let (w1, regs) = x86_call w 47 (multiplex_regs segment multiplex_cmd_install_check) in
      let safe_to_remove = regs.ax == 0 in
      let installed = regs.bx == 0 in
      let removed = λ (u : s.unload ≡ true) (there : installed ≡ true).
        Leaves-if s.unload w p safe_to_remove _ _
          (λ free. inr (u, (ground arith, ground arith, refl, refl), λ i. refl))
          (inl (λ i. refl)) in
      Leaves-if s.unload w p s.unload _ _
        (λ u. Leaves-if s.unload w p installed _ _ (removed u) (inl (λ i. refl)))
        (Leaves-if s.unload w p installed _ _ (λ there. inl (λ i. refl))
          (load-Leaves s.unload w w1 p s))

  run_parsed-Leaves :
      (w : W) (p : Program) (left_over : Bool) (result : Parsed)
      → Leaves (asks result) w p (
          run_parsed x86_call memory segment terminate zap table int08_isr int2f_isr probed
            ethertype_at receive_isr mac_at envseg keep_ptr cell allocated w p left_over result)
  unfolding run_parsed
  run_parsed-Leaves w p left_over (stopped code) = inl (λ i. refl)
  run_parsed-Leaves w p left_over (parsed s) =
      Leaves-if s.unload w p left_over _ _ (λ more. inl (λ i. refl)) (check_and_load-Leaves w p s)

  -- However the server is started, whatever the machine answers: if main returns, every interrupt
  -- vector is what it was before, or the options ask for an unload, a copy has answered that it is there
  -- and removable, and every vector is what this copy left; and if it stays resident, the two vectors
  -- are its own, it can be removed, which puts every vector back, it has no sessions, and it has from 1
  -- to 10 buffers.
  pub main-Leaves :
      (atoi : List ℕ → ℕ) (ethertype : ℕ) (w : W) (p : Program) (options : List Opt)
      (left_over : Bool)
      → Leaves (asked atoi ethertype options) w p (
          main x86_call memory segment terminate zap table int08_isr int2f_isr probed ethertype_at
            receive_isr mac_at envseg keep_ptr cell allocated atoi ethertype w p options left_over)
  unfolding main
  main-Leaves atoi ethertype w p options left_over = run_parsed-Leaves w p left_over _
