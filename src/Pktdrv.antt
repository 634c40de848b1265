-- ===== src/Pktdrv.antt =====
-- src/server/pktdrv.c and pktdrv.h: the connection to the packet driver. The driver is reached by
-- software interrupts and is a parameter: `x86_call` maps a state of the machine, an interrupt and
-- the registers to those after the interrupt, and `memory` reads the machine's memory.
pub mod Receive
pub mod Connect
use rmtdos.Base.{
  ℕ, ◌+◌, ◌*◌, ◌%◌, ◌/◌, Bool, true, false, Option, none, some, List, [], ltb, ◌==◌, if◌then◌else◌,
}
use rmtdos.Base.Memory.{Bytes, slice}
use rmtdos.Bufmgr.{Ptr, null, Bufmgr, buffer_acquire, buffer_mark_ready}
use rmtdos.X86.{CpuRegs, high, low, carry, x86_reset_regs}

-- `enum PktDrvFunctions`, those that are called, and the class that is asked for
abbrev pub func_driver_info : ℕ
func_driver_info = 1

abbrev pub func_access_type : ℕ
func_access_type = 2

abbrev pub func_release_type : ℕ
func_release_type = 3

abbrev pub func_send_pkt : ℕ
func_send_pkt = 4

abbrev pub func_get_address : ℕ
func_get_address = 6

abbrev pub class_ethernet : ℕ
class_ethernet = 1

-- `enum PktDrvResultCode`: 0 is success, and most codes are the driver's.
abbrev pub pktdrv_ok : ℕ
pktdrv_ok = 0

abbrev pub err_no_driver : ℕ
err_no_driver = 16

-- `struct PktDrvInfo`; the name is kept as the place in the driver's memory that it is read from.
pub record PktDrvInfo : Type 0 where
  pub version : ℕ
  pub type : ℕ
  pub class : ℕ
  pub number : ℕ
  pub functionality : ℕ
  pub mac_addr : List ℕ
  pub name_at : ℕ × ℕ

abbrev pub no_info : PktDrvInfo
no_info = record {
  version = 0;
  type = 0;
  class = 0;
  number = 0;
  functionality = 0;
  mac_addr = slice (λ i. 0) 0 6;
  name_at = (0, 0);
}

-- `struct PktDrvStats`
pub record PktDrvStats : Type 0 where
  pub packets_recv : ℕ
  pub packets_dropped : ℕ
  pub packets_sent : ℕ

-- The globals g_pktdrv_irq, g_pktdrv_handle, g_pktdrv_info and g_pktdrv_stats.
pub record Pktdrv : Type 0 where
  pub irq : ℕ
  pub handle : ℕ
  pub info : PktDrvInfo
  pub stats : PktDrvStats

abbrev pub cleared : Pktdrv
cleared = record {
  irq = 0;
  handle = 0;
  info = no_info;
  stats = record { packets_recv = 0; packets_dropped = 0; packets_sent = 0 };
}

-- ++g_pktdrv_stats.packets_recv and ++g_pktdrv_stats.packets_dropped, of `uint32_t`
abbrev pub count_recv : Pktdrv → Pktdrv
count_recv d = record d {
  stats = record d.stats { packets_recv = (d.stats.packets_recv + 1) % 4294967296 };
}

abbrev pub count_dropped : Pktdrv → Pktdrv
count_dropped d = record d {
  stats = record d.stats { packets_dropped = (d.stats.packets_dropped + 1) % 4294967296 };
}

-- The driver's two calls for each packet: a first one for a buffer of CX bytes, answered in ES:DI,
-- and a second one when the buffer is filled.
unfoldable pub pktdrv_receive_func :
    (ds : ℕ) → Pktdrv → Bufmgr → CpuRegs → Pktdrv × Bufmgr × CpuRegs
pktdrv_receive_func ds d m regs =
    if ltb 0 regs.ax
    then (d, buffer_mark_ready m regs.si, regs)
    else (let (m', buffer) = buffer_acquire m regs.cx in
        if ltb 0 buffer
        then (count_recv d, m', record regs { es = ds; di = buffer })
        else (count_dropped d, m', record regs { es = 0; di = 0 }))

-- MIN_ETH_FRAME_SIZE
abbrev pub min_eth_frame_size : ℕ
min_eth_frame_size = 60

-- The registers with which pktdrv_send calls the driver for a frame at `buffer`.
abbrev pub send_regs : (segment : ℕ) → (buffer length : ℕ) → CpuRegs
send_regs segment buffer length = record (x86_reset_regs segment) {
  ax = func_send_pkt * 256;
  cx = if ltb min_eth_frame_size length then length else min_eth_frame_size;
  ds = segment;
  si = buffer;
}

-- The machine: its states, the interrupts, its memory, and the fixed addresses of this program.
module _ {W : Type 0} (x86_call : W → ℕ → CpuRegs → W × CpuRegs) (memory : W → ℕ → ℕ → Bytes)
    (segment : ℕ) where
  -- access_type(): `ethertype_at` and `receive_isr` are the addresses of the local variable and of
  -- pktdrv_receive_isr.
  access_regs : ℕ → ℕ → CpuRegs
  access_regs ethertype_at receive_isr = record (x86_reset_regs segment) {
    ax = func_access_type * 256 + class_ethernet;
    bx = 0xffff;
    dx = 0;
    ds = segment;
    si = ethertype_at;
    cx = 2;
    es = segment;
    di = receive_isr;
  }

  -- get_address(), into g_pktdrv_info.mac_addr at `mac_at`.
  get_address : W → ℕ → ℕ → Pktdrv → W × Pktdrv × ℕ
  get_address w irq mac_at d =
      let (w', regs) = x86_call w irq (record (x86_reset_regs segment) {
        ax = func_get_address * 256;
        bx = d.handle;
        cx = 6;
        es = segment;
        di = mac_at;
      }) in
      let d' = record d {
        info = record d.info { mac_addr = slice (memory w' segment mac_at) 0 6 };
      } in
      if carry regs then (w', d', high regs.dx) else (w', d', pktdrv_ok)

  driver_info : W → ℕ → ℕ → Pktdrv → W × Pktdrv × ℕ
  unfolding get_address
  driver_info w irq mac_at d =
      let (w', regs) =
        x86_call w irq
          (record (x86_reset_regs segment) { ax = func_driver_info * 256 + 0xff; bx = d.handle }) in
      let d' = record d {
        info = record d.info {
          version = regs.bx;
          type = regs.dx;
          class = high regs.cx;
          number = low regs.cx;
          functionality = low regs.ax;
          name_at = (regs.ds, regs.si);
        };
      } in
      if carry regs then (w', d, high regs.dx) else get_address w' irq mac_at d'

  -- `probed` is what pktdrv_probe_all finds.
  pub pktdrv_init : W → (probed ethertype_at receive_isr mac_at : ℕ) → ℕ → W × Pktdrv × ℕ
  unfolding access_regs driver_info
  pktdrv_init w probed ethertype_at receive_isr mac_at asked =
      let irq = if asked == 0 then probed else asked in
      if irq == 0
      then (w, cleared, err_no_driver)
      else (let (w', regs) = x86_call w irq (access_regs ethertype_at receive_isr) in
          if carry regs
          then (w', cleared, high regs.dx)
          else driver_info w' irq mac_at (record cleared { irq = irq; handle = regs.ax }))

  pub pktdrv_done : W → Pktdrv → W × Pktdrv × ℕ
  pktdrv_done w d =
      let released = record d { irq = 0; handle = 0 } in
      if d.handle == 0
      then (w, released, pktdrv_ok)
      else (let (w', regs) =
            x86_call w d.irq
              (record (x86_reset_regs segment) { ax = func_release_type * 256; bx = d.handle }) in
          if carry regs then (w', d, high regs.dx) else (w', released, pktdrv_ok))

  pub pktdrv_send : W → Pktdrv → (buffer length : ℕ) → W × ℕ
  pktdrv_send w d buffer length =
      if d.handle == 0
      then (w, pktdrv_ok)
      else (let (w', regs) = x86_call w d.irq (send_regs segment buffer length) in
          if carry regs then (w', high regs.dx) else (w', pktdrv_ok))
