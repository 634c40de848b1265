-- ===== src/Resident.antt =====
-- src/server/resident.c, and the installation in src/server/main.c: how the server takes the interrupt
-- vectors and gives them back. As in src/server/config.h there is neither DEBUG nor HAS_INT28. A far
-- pointer, MK_FP(cs, isr), is a number; the world behind x86_call is a parameter, which __setvect and
-- the C code write through `setvect` only.
use rmtdos.Base.{
  ℕ, ◌+◌, ◌-◌, ◌%◌, ◌≡◌, ◌≢◌, refl, ap, ◌==◌, if◌then◌else◌, arith, ◌⊎◌, inl, inr, true, false,
  Bool-cases, not,
}
use rmtdos.Base.Memory.{Bytes}
use rmtdos.X86.{CpuRegs, x86_reset_regs}
use rmtdos.Pktdrv.{Pktdrv, pktdrv_done}

-- The interrupt vector table, as __getvect and __setvect see it.
abbrev pub Vectors : Type 0
Vectors = ℕ → ℕ

abbrev pub setvect : Vectors → ℕ → ℕ → Vectors
setvect vectors irq handler i = if i == irq then handler else vectors i

-- The vectors, and the globals int08_original_handler, int2f_original_handler.
pub record Resident : Type 0 where
  pub vectors : Vectors
  pub int08_original_handler : ℕ
  pub int2f_original_handler : ℕ
  pub int2f_ticks : ℕ
  pub pktdrv : Pktdrv

-- MULTIPLEX_CMD_INSTALL_CHECK and MULTIPLEX_CMD_UNINSTALL
abbrev pub multiplex_cmd_install_check : ℕ
multiplex_cmd_install_check = 0

abbrev pub multiplex_cmd_uninstall : ℕ
multiplex_cmd_uninstall = 1

-- ++int2f_ticks
abbrev pub ticked : Resident → Resident
ticked r = record r { int2f_ticks = (r.int2f_ticks + 1) % 4294967296 }

module _ (int08_isr int2f_isr : ℕ) where
  pub install_interrupt_handlers : Resident → Resident
  install_interrupt_handlers r =
      let r1 = record r {
        int08_original_handler = r.vectors 8;
        vectors = setvect r.vectors 8 int08_isr;
      } in
      record r1 {
        int2f_original_handler = r1.vectors 47;
        vectors = setvect r1.vectors 47 int2f_isr;
      }

  pub resident_uninstall_check : Resident → ℕ
  resident_uninstall_check r =
      if not (int08_isr == r.vectors 8)
      then 8
      else if not (int2f_isr == r.vectors 47)
      then 47
      else 0

  pub restore_interrupt_handlers : Resident → Resident
  restore_interrupt_handlers r = record r {
    vectors = setvect (setvect r.vectors 8 r.int08_original_handler) 47 r.int2f_original_handler;
  }

  -- After the installation both vectors are the server's, which can be removed, and restoring them puts
  -- every vector back.
  pub install_lem :
      (r : Resident)
      → let installed = install_interrupt_handlers r in
        (installed.vectors 8 ≡ int08_isr)
        × (installed.vectors 47 ≡ int2f_isr)
        × (resident_uninstall_check installed ≡ 0)
        × ((i : ℕ) → (restore_interrupt_handlers installed).vectors i ≡ r.vectors i)
  unfolding install_interrupt_handlers resident_uninstall_check restore_interrupt_handlers
  install_lem r = (refl, refl, ground arith, λ i. ground arith)

  -- The count of requests is no part of either.
  pub check-ticked :
      (r : Resident) → resident_uninstall_check (ticked r) ≡ resident_uninstall_check r
  unfolding resident_uninstall_check
  check-ticked r = refl

  pub restore-ticked :
      (r : Resident) (i : ℕ)
      → (restore_interrupt_handlers (ticked r)).vectors i ≡ (restore_interrupt_handlers r).vectors i
  unfolding restore_interrupt_handlers
  restore-ticked r i = refl

  module _ {W : Type 0} (x86_call : W → ℕ → CpuRegs → W × CpuRegs) (memory : W → ℕ → ℕ → Bytes)
      (segment : ℕ) where
    -- The result is an `int` of 16 bits.
    pub resident_do_uninstall : W → Resident → W × Resident × ℕ
    unfolding resident_uninstall_check restore_interrupt_handlers
    resident_do_uninstall w r =
        let x = resident_uninstall_check r in
        let restored = restore_interrupt_handlers r in
        let (w1, d, code) = pktdrv_done x86_call memory segment w restored.pktdrv in
        let (w2, regs) =
          x86_call w1 33 (record (x86_reset_regs segment) { ax = 0x4900; es = segment }) in
        if x == 0
        then (w2, record restored { pktdrv = d }, (65536 - regs.ax) % 65536)
        else (w, r, x)

    -- Called by int2f_isr; `regs` are the registers of the caller.
    pub int2f_handler : W → Resident → CpuRegs → W × Resident × CpuRegs
    unfolding resident_uninstall_check resident_do_uninstall
    int2f_handler w r0 regs =
        let r = record r0 { int2f_ticks = (r0.int2f_ticks + 1) % 4294967296 } in
        if regs.dx == multiplex_cmd_install_check
        then (w, r, record regs { ax = resident_uninstall_check r; bx = 0; cx = segment; dx = 0 })
        else if regs.dx == multiplex_cmd_uninstall
        then (let (w', r', ax) = resident_do_uninstall w r in
            (w', r', record regs { ax = ax; bx = 0; cx = segment; dx = 0 }))
        else (w, r, regs)

    -- The answer to an installation check.
    pub install_check_lem :
        (w : W) (r : Resident) (regs : CpuRegs)
        → regs.dx ≡ multiplex_cmd_install_check
        → let (w', r', regs') = int2f_handler w r regs in
          (w' ≡ w) × (r' ≡ ticked r) × (regs'.ax ≡ resident_uninstall_check r) × (regs'.bx ≡ 0)
    unfolding int2f_handler
    install_check_lem w r regs command =
        let check : (regs.dx == multiplex_cmd_install_check) ≡ true = ground arith in
        (rw check refl, rw check refl, rw check refl, rw check refl)

    -- The removal of a server that has both vectors.
    pub uninstall_lem :
        (w : W) (r : Resident) (regs : CpuRegs)
        → regs.dx ≡ multiplex_cmd_uninstall
        → resident_uninstall_check r ≡ 0
        → (i : ℕ) → (int2f_handler w r regs).1.vectors i ≡ (restore_interrupt_handlers r).vectors i
    unfolding int2f_handler resident_do_uninstall restore_interrupt_handlers
        resident_uninstall_check
    uninstall_lem w r regs command removable i =
        let other : (regs.dx == multiplex_cmd_install_check) ≡ false = ground arith in
        let remove : (regs.dx == multiplex_cmd_uninstall) ≡ true = ground arith in
        let ready : (resident_uninstall_check (ticked r) == 0) ≡ true =
          ap (λ n. n == 0) removable in
        rw (other, remove, ready) refl

    -- Right after the installation the server can be removed, and removing it puts every vector
    -- back to what it was before.
    pub uninstall_restores :
        (w : W) (r : Resident)
        → let installed = install_interrupt_handlers r in
          (resident_uninstall_check installed ≡ 0)
          × ((i : ℕ) → (resident_do_uninstall w installed).1.vectors i ≡ r.vectors i)
    unfolding install_interrupt_handlers resident_uninstall_check resident_do_uninstall
        restore_interrupt_handlers
    uninstall_restores w r = (ground arith, λ i. ground arith)

    -- When another program has taken one of the two vectors, a request to remove the server answers
    -- that interrupt's number, and neither the vectors, nor the packet driver, nor DOS is touched.
    pub hooked_refuses :
        (w : W) (r : Resident) (regs : CpuRegs)
        → (r.vectors 8 ≢ int08_isr) ⊎ (r.vectors 47 ≢ int2f_isr)
        → regs.dx ≡ multiplex_cmd_uninstall
        → let (w', r', regs') = int2f_handler w r regs in
          (w' ≡ w)
          × (r' ≡ record r { int2f_ticks = (r.int2f_ticks + 1) % 4294967296 })
          × (regs'.bx ≡ 0)
          × (((regs'.ax ≡ 8) × (r.vectors 8 ≢ int08_isr))
              ⊎ ((regs'.ax ≡ 47) × (r.vectors 47 ≢ int2f_isr)))
    unfolding int2f_handler resident_do_uninstall resident_uninstall_check
    hooked_refuses w r regs hooked command =
        let other : (regs.dx == multiplex_cmd_install_check) ≡ false = ground arith in
        let remove : (regs.dx == multiplex_cmd_uninstall) ≡ true = ground arith in
        elim (Bool-cases (int08_isr == r.vectors 8)) [
          | inr taken ↦ (
            rw (other, remove, taken) refl,
            rw (other, remove, taken) refl,
            rw (other, remove) refl,
            inl (rw (other, remove, taken) refl, ground arith),
          )
          | inl mine ↦
              (let taken : (int2f_isr == r.vectors 47) ≡ false = ground arith in
                (
                  rw (other, remove, mine, taken) refl,
                  rw (other, remove, mine, taken) refl,
                  rw (other, remove) refl,
                  inr (rw (other, remove, mine, taken) refl, ground arith),
                ))
        ]
