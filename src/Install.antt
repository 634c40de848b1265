-- ===== src/Install.antt =====
-- src/server/main.c: the server's start. getopt, atoi and malloc are the C library's, interrupts go
-- through x86_call, and what only prints is left out; DEBUG and HAS_INT28 are off.
pub mod Ends
pub mod Unload
use rmtdos.Base.{
  ℕ, ◌/◌, Option, none, some, List, [], ◌∷◌, ◌==◌, ltb, if◌then◌else◌, Bool, true, false,
}
use rmtdos.Base.Memory.{Bytes}
use rmtdos.X86.{CpuRegs, x86_reset_regs}
use rmtdos.Bufmgr.{Ptr, Buffer, Bufmgr, buffer_init}
use rmtdos.Session.{Session, session_mgr_init}
use rmtdos.Pktdrv.{pktdrv_init, pktdrv_done}
use rmtdos.Resident.{
  Resident, install_interrupt_handlers, restore_interrupt_handlers, multiplex_cmd_install_check,
  multiplex_cmd_uninstall,
}
use rmtdos.Hex2int.{hex_to_uint16}

abbrev pub exit_success : ℕ
exit_success = 0

abbrev pub exit_failure : ℕ
exit_failure = 1

-- MAX_BUFFERS and DEFAULT_BUFFERS
abbrev pub max_buffers : ℕ
max_buffers = 10

abbrev pub default_buffers : ℕ
default_buffers = 2

-- MULTIPLEX_MAGIC_AX and MULTIPLEX_MAGIC_BX
abbrev pub multiplex_magic_ax : ℕ
multiplex_magic_ax = 0xfb00

abbrev pub multiplex_magic_bx : ℕ
multiplex_magic_bx = 0x5a98

-- What the options set.
pub record Settings : Type 0 where
  pub buffers : ℕ
  pub irq : ℕ
  pub unload : Bool
  pub g_ethertype : ℕ

-- An option's letter and its argument, as getopt finds them.
abbrev pub Opt : Type 0
Opt = ℕ × List ℕ

pub data Parsed : Type 0 where
  parsed : Settings → Parsed
  stopped : ℕ → Parsed

module _ (atoi : List ℕ → ℕ) where
  -- The loop over the options; `-h` and an unknown letter end the program.
  pub parse_options : Settings → List Opt → Parsed
  parse_options s [] = parsed s
  parse_options s (o ∷ rest) =
      let (opt, optarg) = o in
      let with_buffers = parse_options (record s { buffers = atoi optarg }) rest in
      let unchanged = parse_options s rest in
      let with_ethertype = parse_options (record s { g_ethertype = hex_to_uint16 optarg }) rest in
      let with_irq = parse_options (record s { irq = atoi optarg }) rest in
      let with_unload = parse_options (record s { unload = true }) rest in
      if opt == b'b'
      then with_buffers
      else if opt == b'd'
      then unchanged
      else if opt == b'e'
      then with_ethertype
      else if opt == b'h'
      then stopped exit_success
      else if opt == b'i'
      then with_irq
      else if opt == b'u'
      then with_unload
      else stopped exit_failure

-- `buffers` is a `size_t`, so that a negative number is a large one.
abbrev pub clamp_buffers : ℕ → ℕ
clamp_buffers buffers =
    if ltb buffers 1 then 1 else if ltb max_buffers buffers then max_buffers else buffers

-- The registers for the resident copy.
abbrev pub multiplex_regs : (segment cmd : ℕ) → CpuRegs
multiplex_regs segment cmd = record (x86_reset_regs segment) {
  ax = multiplex_magic_ax;
  bx = multiplex_magic_bx;
  dx = cmd;
}

-- The program's data: the buffers from buffer_init on, the sessions, and the interrupt vectors with
-- the packet driver's globals.
pub record Program : Type 0 where
  pub bufmgr : Option Bufmgr
  pub sessions : List Session
  pub resident : Resident

-- How the start ends: with an exit code, or resident.
pub data Result (W : Type 0) : Type 0 where
  returned : ℕ → W → Program → Result W
  resides : W → Program → Result W

-- The machine and the addresses of the program. `terminate` is the call that ends resident, and
-- returns only if it fails; `zap` clears the environment's segment in the PSP; `table` is what stands
-- in the interrupt vectors when the resident copy has returned from its removal.
module _ {W : Type 0} (x86_call : W → ℕ → CpuRegs → W × CpuRegs) (memory : W → ℕ → ℕ → Bytes)
    (segment : ℕ) (terminate : W → CpuRegs → Option (W × CpuRegs)) (zap : W → W) (table : W → ℕ → ℕ)
    (int08_isr int2f_isr : ℕ) (probed ethertype_at receive_isr mac_at envseg keep_ptr : ℕ)
    (cell : Ptr → Buffer) (allocated : Ptr) where
  abbrev pub unload_other_tsr : W → W × ℕ
  unload_other_tsr w =
      let (w', regs) = x86_call w 47 (multiplex_regs segment multiplex_cmd_uninstall) in
      (w', regs.ax)

  -- With the packet driver there: the handlers are installed, the environment is freed, and the
  -- program ends resident, or takes everything back.
  pub go_resident : W → Program → Result W
  go_resident w p =
      let hooked = install_interrupt_handlers int08_isr int2f_isr p.resident in
      let (w1, freed) =
        x86_call w 33 (record (x86_reset_regs segment) { ax = 0x4900; es = envseg }) in
      let w2 = zap w1 in
      elim (terminate w2 (record (x86_reset_regs segment) { ax = 0x3100; dx = keep_ptr / 16 })) [
        | none ↦ resides w2 (record p { resident = hooked })
        | some (w3, regs) ↦
            let restored = restore_interrupt_handlers int08_isr int2f_isr hooked in
            let (w4, d, code) = pktdrv_done x86_call memory segment w3 restored.pktdrv in
            returned exit_failure w4 (record p { resident = record restored { pktdrv = d } })
      ]

  -- From buffer_init on; a malloc that fails ends the program.
  pub load : W → Program → Settings → Result W
  unfolding go_resident
  load w p s = elim (buffer_init cell allocated (clamp_buffers s.buffers)) [
    | none ↦ returned exit_failure w p
    | some m ↦
        let p1 = record p { bufmgr = some m; sessions = session_mgr_init } in
        let (w1, d, r) =
          pktdrv_init x86_call memory segment w probed ethertype_at receive_isr mac_at s.irq in
        let p2 = record p1 { resident = record p1.resident { pktdrv = d } } in
        if r == 0 then go_resident w1 p2 else returned r w1 p2
  ]

  -- The copy has put its vectors back, in the one table that there is.
  abbrev pub unloaded : W → Program → Result W
  unloaded w p =
      returned exit_success w (record p { resident = record p.resident { vectors = table w } })

  -- Behind the options: a server that is there already answers with BX clear, and AX clear if it can
  -- be removed.
  pub check_and_load : W → Program → Settings → Result W
  unfolding load
  check_and_load w p s =
      let (w1, regs) = x86_call w 47 (multiplex_regs segment multiplex_cmd_install_check) in
      let installed = regs.bx == 0 in
      let safe_to_remove = regs.ax == 0 in
      if s.unload
      then if installed
        then if safe_to_remove
          then unloaded (unload_other_tsr w1).0 p
          else returned exit_failure w1 p
        else returned exit_failure w1 p
      else if installed
      then returned exit_success w1 p
      else load w1 p s

  -- What follows the loop over the options.
  pub run_parsed : W → Program → (left_over : Bool) → Parsed → Result W
  unfolding check_and_load
  run_parsed w p left_over (stopped code) = returned code w p
  run_parsed w p left_over (parsed s) =
      if left_over then returned exit_failure w p else check_and_load w p s

  -- main, for what getopt finds and whether arguments are left behind the options.
  pub main : (atoi : List ℕ → ℕ) → (ethertype : ℕ) → W → Program → List Opt → Bool → Result W
  unfolding parse_options run_parsed
  main atoi ethertype w p options left_over = run_parsed w p left_over (
      parse_options atoi
        (record { buffers = default_buffers; irq = 0; unload = false; g_ethertype = ethertype })
        options)
