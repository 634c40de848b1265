-- ===== src/Install/Unload.antt =====
-- A second run of src/server/main.c with -u, answered by int2f_handler of src/server/resident.c in the
-- copy that is resident.
use rmtdos.Base.{
  ℕ, ◌≡◌, ◌≢◌, refl, ap, ◌∙◌, ◌⊎◌, Option, List, [], ◌∷◌, ◌==◌, arith, true, false, Bool-cases, inl,
  inr,
}
use rmtdos.Base.Memory.{Bytes}
use rmtdos.X86.{CpuRegs}
use rmtdos.Bufmgr.{Ptr, Buffer}
use rmtdos.Resident.{
  Resident, int2f_handler, restore_interrupt_handlers, resident_uninstall_check, ticked,
  check-ticked, restore-ticked, install_check_lem, uninstall_lem, multiplex_cmd_install_check,
  multiplex_cmd_uninstall,
}
use rmtdos.Install.{
  Program, Result, returned, main, check_and_load, run_parsed, parse_options, multiplex_regs,
  multiplex_magic_ax, multiplex_magic_bx, exit_success, exit_failure,
}

module _ {V : Type 0} (dos_call : V → ℕ → CpuRegs → V × CpuRegs) (memory_of : V → ℕ → ℕ → Bytes)
    (resident_segment int08_isr int2f_isr : ℕ) where
  -- The handler in the copy that is resident.
  abbrev handler : V → Resident → CpuRegs → V × Resident × CpuRegs
  handler = int2f_handler int08_isr int2f_isr dos_call memory_of resident_segment

  -- Interrupt 0x2f with the two magic numbers reaches that handler, as int2f_isr of src/server/int2f.s
  -- passes it on.
  pub record IsReached (x86_call : V × Resident → ℕ → CpuRegs → (V × Resident) × CpuRegs)
      : Type 0 where
    pub state :
        (v : V) (r : Resident) (regs : CpuRegs)
        → regs.ax ≡ multiplex_magic_ax
        → regs.bx ≡ multiplex_magic_bx
        → (x86_call (v, r) 47 regs).0 ≡ ((handler v r regs).0, (handler v r regs).1)
    pub answer_ax :
        (v : V) (r : Resident) (regs : CpuRegs)
        → regs.ax ≡ multiplex_magic_ax
        → regs.bx ≡ multiplex_magic_bx
        → (x86_call (v, r) 47 regs).1.ax ≡ (handler v r regs).2.ax
    pub answer_bx :
        (v : V) (r : Resident) (regs : CpuRegs)
        → regs.ax ≡ multiplex_magic_ax
        → regs.bx ≡ multiplex_magic_bx
        → (x86_call (v, r) 47 regs).1.bx ≡ (handler v r regs).2.bx

  module _ (x86_call : V × Resident → ℕ → CpuRegs → (V × Resident) × CpuRegs)
      (memory : V × Resident → ℕ → ℕ → Bytes) (segment : ℕ)
      (terminate : V × Resident → CpuRegs → Option ((V × Resident) × CpuRegs))
      (zap : V × Resident → V × Resident)
      (probed ethertype_at receive_isr mac_at envseg keep_ptr : ℕ) (cell : Ptr → Buffer)
      (allocated : Ptr) where
    abbrev pub with_vectors : Program → Resident → Program
    with_vectors p r = record p { resident = record p.resident { vectors = r.vectors } }

    -- The program run with the option -u alone.
    abbrev pub unload_run : (List ℕ → ℕ) → ℕ → V × Resident → Program → Result (V × Resident)
    unload_run atoi ethertype w p =
        main x86_call memory segment terminate zap (λ w. w.1.vectors) int08_isr int2f_isr probed
          ethertype_at receive_isr mac_at envseg keep_ptr cell allocated atoi ethertype w p
          ((b'u', []) ∷ []) false

    -- Where the resident copy is reached, a run with -u alone ends with success and the copy's vectors
    -- restored, if both vectors are still the copy's, which is all that the program finds changed; and
    -- else it ends with failure, no vector is changed, and the program is as before.
    pub unload_lem :
        (atoi : List ℕ → ℕ) (ethertype : ℕ) (v : V) (r : Resident) (p : Program)
        → IsReached x86_call
        → (v' : V) × (r' : Resident) × (((resident_uninstall_check int08_isr int2f_isr r ≡ 0)
              × (unload_run atoi ethertype (v, r) p
                  ≡ returned exit_success (v', r') (with_vectors p r'))
              × ((i : ℕ)
                  → r'.vectors i ≡ (restore_interrupt_handlers int08_isr int2f_isr r).vectors i))
            ⊎ ((resident_uninstall_check int08_isr int2f_isr r ≢ 0)
                × (unload_run atoi ethertype (v, r) p ≡ returned exit_failure (v', r') p)
                × ((i : ℕ) → r'.vectors i ≡ r.vectors i)))
    unfolding main run_parsed check_and_load parse_options
    unload_lem atoi ethertype v r p reached =
        let asked = multiplex_regs segment multiplex_cmd_install_check in
        let (same_v, next_r, check, zero_bx) =
          install_check_lem int08_isr int2f_isr dos_call memory_of resident_segment v r asked
            refl in
        let w1 : (x86_call (v, r) 47 asked).0 ≡ (v, ticked r) =
          reached.state v r asked refl refl
          ∙ ap (λ x. (x, (handler v r asked).1)) same_v
          ∙ ap (λ y. (v, y)) next_r in
        let there : ((x86_call (v, r) 47 asked).1.bx == 0) ≡ true =
          ap (λ n. n == 0) (reached.answer_bx v r asked refl refl ∙ zero_bx) in
        let says : ((x86_call (v, r) 47 asked).1.ax == 0)
            ≡ (resident_uninstall_check int08_isr int2f_isr r == 0) =
          ap (λ n. n == 0) (reached.answer_ax v r asked refl refl ∙ check) in
        let removal = multiplex_regs segment multiplex_cmd_uninstall in
        elim (Bool-cases (resident_uninstall_check int08_isr int2f_isr r == 0)) [
          | inl free ↦
              let zero_check : resident_uninstall_check int08_isr int2f_isr r ≡ 0 = ground arith in
              let safe = says ∙ free in
              (
                (handler v (ticked r) removal).0,
                (handler v (ticked r) removal).1,
                inl (
                  zero_check,
                  rw (there, safe)
                      (ap (λ w. returned exit_success w (with_vectors p w.1))
                        (ap (λ w. (x86_call w 47 removal).0) w1
                          ∙ reached.state v (ticked r) removal refl refl)),
                  λ i.
                      uninstall_lem int08_isr int2f_isr dos_call memory_of resident_segment v
                        (ticked r) removal refl (check-ticked int08_isr int2f_isr r ∙ zero_check) i
                      ∙ restore-ticked int08_isr int2f_isr r i,
                ),
              )
          | inr hooked ↦
              let kept : resident_uninstall_check int08_isr int2f_isr r ≢ 0 = λ e. ground arith in
              let unsafe = says ∙ hooked in
              (
                v,
                ticked r,
                inr (kept, rw (there, unsafe) (ap (λ w. returned exit_failure w p) w1), λ i. refl),
              )
        ]
