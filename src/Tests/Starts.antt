-- ===== src/Tests/Starts.antt =====
-- The server's start on a machine that grants every call, and its removal by a second run.
use rmtdos.Base.{ℕ, ◌≡◌, ◌≢◌, ◌⊎◌, refl, Option, none, List, [], ◌∷◌, ◌==◌, false, if◌then◌else◌}
use rmtdos.Base.Memory.{Bytes}
use rmtdos.X86.{CpuRegs}
use rmtdos.Bufmgr.{Ptr, Buffer, cleared}
use rmtdos.Resident.{
  Resident, install_interrupt_handlers, int2f_handler, restore_interrupt_handlers,
  resident_uninstall_check,
}
use rmtdos.Install.{Program, Opt, main, returned, exit_success, exit_failure}
use rmtdos.Install.Ends.{Leaves, asked, main-Leaves}
use rmtdos.Install.Unload.{IsReached, unload_run, unload_lem}
use rmtdos.Tests.Drivers.{call, memory, resident}

-- DOS keeps the program.
abbrev keeps : ℕ → CpuRegs → Option (ℕ × CpuRegs)
keeps w regs = none

abbrev atoi : List ℕ → ℕ
atoi s = 3

abbrev program : Program
program = record { bufmgr = none; sessions = []; resident = resident }

abbrev some_cell : Ptr → Buffer
some_cell a = cleared

-- -b 3
abbrev options : List Opt
options = (b'b', b'3' ∷ []) ∷ []

main-Leaves_example :
    Leaves call memory 0 keeps
      (λ w. w)
      (λ w i. 0)
      100
      200
      0x60
      100
      200
      300
      400
      4096
      some_cell
      5000
      (asked atoi 0x80ab options)
      7
      program
      (main call memory 0 keeps
        (λ w. w)
        (λ w i. 0)
        100
        200
        0x60
        100
        200
        300
        400
        4096
        some_cell
        5000
        atoi
        0x80ab
        7
        program
        options
        false)
main-Leaves_example =
    main-Leaves call memory 0 keeps (λ w. w) (λ w i. 0) 100 200 0x60 100 200 300 400 4096 some_cell
      5000 atoi 0x80ab 7 program options false

-- The machine with the copy in it.
abbrev copy_call : ℕ × Resident → ℕ → CpuRegs → (ℕ × Resident) × CpuRegs
copy_call w irq regs =
    let (v', r', regs') = int2f_handler 100 200 call memory 0 w.0 w.1 regs in
    if irq == 47 then ((v', r'), regs') else (w, regs)

copy-IsReached : IsReached call memory 0 100 200 copy_call
copy-IsReached = record {
  state = λ v r regs ax bx. refl;
  answer_ax = λ v r regs ax bx. refl;
  answer_bx = λ v r regs ax bx. refl;
}

abbrev copy : Resident
copy = install_interrupt_handlers 100 200 resident

abbrev copy_memory : ℕ × Resident → ℕ → ℕ → Bytes
copy_memory w = memory w.0

abbrev copy_ends : ℕ × Resident → CpuRegs → Option ((ℕ × Resident) × CpuRegs)
copy_ends w regs = none

unload_lem_example :
    (v' : ℕ) × (r' : Resident) × (((resident_uninstall_check 100 200 copy ≡ 0)
        × (unload_run call memory 0 100 200 copy_call copy_memory 0 copy_ends
              (λ w. w)
              0x60
              100
              200
              300
              400
              4096
              some_cell
              5000
              atoi
              0x80ab
              (7, copy)
              program
            ≡ returned exit_success
                (v', r')
                (record program { resident = record program.resident { vectors = r'.vectors } }))
        × ((i : ℕ) → r'.vectors i ≡ (restore_interrupt_handlers 100 200 copy).vectors i))
      ⊎ ((resident_uninstall_check 100 200 copy ≢ 0)
          × (unload_run call memory 0 100 200 copy_call copy_memory 0 copy_ends
                (λ w. w)
                0x60
                100
                200
                300
                400
                4096
                some_cell
                5000
                atoi
                0x80ab
                (7, copy)
                program
              ≡ returned exit_failure (v', r') program)
          × ((i : ℕ) → r'.vectors i ≡ copy.vectors i)))
unload_lem_example =
    unload_lem call memory 0 100 200 copy_call copy_memory 0 copy_ends (λ w. w) 0x60 100 200 300 400
      4096 some_cell 5000 atoi 0x80ab 7 copy program copy-IsReached
