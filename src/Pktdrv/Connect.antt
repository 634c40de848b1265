-- ===== src/Pktdrv/Connect.antt =====
-- Connecting to the packet driver, sending, and letting go of it: pktdrv_init, pktdrv_send and
-- pktdrv_done of src/server/pktdrv.c.
use rmtdos.Base.{
  ℕ, ◌*◌, ◌≤◌, ◌≡◌, ◌≢◌, refl, arith, ◌==◌, true, false, if◌then◌else◌, inl, inr, Bool-cases, ◌⊎◌,
}
use rmtdos.Base.Memory.{Bytes}
use rmtdos.X86.{CpuRegs, carry, high, x86_reset_regs}
use rmtdos.Pktdrv.{
  Pktdrv, cleared, pktdrv_ok, err_no_driver, send_regs, access_regs, driver_info, pktdrv_init,
  pktdrv_done, pktdrv_send, func_release_type, min_eth_frame_size,
}

module _ {W : Type 0} (x86_call : W → ℕ → CpuRegs → W × CpuRegs) (memory : W → ℕ → ℕ → Bytes)
    (segment : ℕ) where
  driver_info_keeps :
      (w : W) (irq mac_at : ℕ) (d : Pktdrv)
      → let d' = (driver_info x86_call memory segment w irq mac_at d).1 in
        (d'.handle ≡ d.handle) × (d'.irq ≡ d.irq)
  unfolding driver_info
  driver_info_keeps w irq mac_at d = (ground arith, ground arith)

  -- pktdrv_done calls release_type() for a registered receiver and for no other. Unless the driver
  -- refuses it leaves no handle behind, so that a second call makes no interrupt; if the driver
  -- refuses it answers the driver's code and keeps the handle.
  pub done_lem :
      (w : W) (d : Pktdrv)
      → let (w', d', code) = pktdrv_done x86_call memory segment w d in
        ((d.handle ≡ 0) × (w' ≡ w) × (d'.handle ≡ 0) × (code ≡ pktdrv_ok))
        ⊎ ((d.handle ≢ 0)
            × (let (w'', regs) = x86_call w d.irq (record (x86_reset_regs segment) {
              ax = func_release_type * 256;
              bx = d.handle;
            }) in
                (w' ≡ w'')
                × (((carry regs ≡ true) × (d' ≡ d) × (code ≡ high regs.dx))
                    ⊎ ((carry regs ≡ false)
                        × (d'.handle ≡ 0)
                        × (d'.irq ≡ 0)
                        × (code ≡ pktdrv_ok)
                        × (pktdrv_done x86_call memory segment w' d' ≡ (w', d', pktdrv_ok))))))
  unfolding pktdrv_done
  done_lem w d = elim (Bool-cases (d.handle == 0)) [
    | inl e ↦ inl (ground arith, rw e, rw e, rw e)
    | inr e ↦ inr (
      ground arith,
      rw e (
          let regs =
            (x86_call w d.irq (record (x86_reset_regs segment) {
              ax = func_release_type * 256;
              bx = d.handle;
            })).1 in
          elim (Bool-cases (carry regs)) [
            | inl c ↦ (rw c, inl (c, rw c, rw c))
            | inr c ↦ (rw c, inr (c, rw c, rw c, rw c, rw c))
          ]),
    )
  ]

  -- pktdrv_send makes no interrupt without a receiver. With one it hands the driver the buffer with
  -- a length of at least 60 that is the given one where that is longer.
  pub send_lem :
      (w : W) (d : Pktdrv) (buffer length : ℕ)
      → let (w', code) = pktdrv_send x86_call memory segment w d buffer length in
        ((d.handle ≡ 0) × (w' ≡ w) × (code ≡ pktdrv_ok))
        ⊎ ((d.handle ≢ 0)
            × (regs : CpuRegs) × (w' ≡ (x86_call w d.irq regs).0)
            × (regs.si ≡ buffer)
            × (regs.ds ≡ segment)
            × (min_eth_frame_size ≤ regs.cx)
            × ((min_eth_frame_size ≤ length) → (regs.cx ≡ length))
            × ((code ≡ pktdrv_ok) ⊎ (carry (x86_call w d.irq regs).1 ≡ true)))
  unfolding pktdrv_send
  send_lem w d buffer length = elim (Bool-cases (d.handle == 0)) [
    | inl e ↦ inl (ground arith, rw e, rw e)
    | inr e ↦
        let regs = send_regs segment buffer length in
        inr (
          ground arith,
          regs,
          ground arith,
          refl,
          refl,
          ground arith,
          λ h. ground arith,
          ground arith,
        )
  ]

module _ {W : Type 0} (x86_call : W → ℕ → CpuRegs → W × CpuRegs) (memory : W → ℕ → ℕ → Bytes)
    (segment : ℕ) (w : W) (probed ethertype_at receive_isr mac_at asked : ℕ) where
  -- The interrupt that is used: the one that was asked for, or the one that was found.
  abbrev pub irq_used : ℕ
  irq_used = if asked == 0 then probed else asked

  -- What access_type() answers.
  pub access : W × CpuRegs
  unfolding access_regs
  access = x86_call w irq_used (access_regs x86_call memory segment ethertype_at receive_isr)

  abbrev pub init : W × Pktdrv × ℕ
  init = pktdrv_init x86_call memory segment w probed ethertype_at receive_isr mac_at asked

  -- pktdrv_init leaves the globals cleared, with no receiver registered, where there is no driver or
  -- access_type() fails. Otherwise the receiver is registered and its handle is kept, whatever
  -- driver_info() and get_address() answer.
  pub init_handle :
      ((irq_used ≡ 0) × (init.1 ≡ cleared) × (init.2 ≡ err_no_driver))
      ⊎ ((irq_used ≢ 0)
          × (carry access.1 ≡ true)
          × (init.1 ≡ cleared)
          × (init.2 ≡ high access.1.dx))
      ⊎ ((irq_used ≢ 0)
          × (carry access.1 ≡ false)
          × (init.1.handle ≡ access.1.ax)
          × (init.1.irq ≡ irq_used))
  unfolding pktdrv_init access
  init_handle = elim (Bool-cases (irq_used == 0)) [
    | inl e ↦ inl (ground arith, rw e, rw e)
    | inr e ↦ elim (Bool-cases (carry access.1)) [
      | inl c ↦ inr (inl (ground arith, c, rw (e, c), rw (e, c)))
      | inr c ↦
          let start = record cleared { irq = irq_used; handle = access.1.ax } in
          let (keeps, keeps_irq) =
            driver_info_keeps x86_call memory segment access.0 irq_used mac_at start in
          inr (inr (ground arith, c, rw (e, c) keeps, rw (e, c) keeps_irq))
    ]
  ]
