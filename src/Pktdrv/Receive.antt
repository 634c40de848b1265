-- ===== src/Pktdrv/Receive.antt =====
-- A packet's way from the driver into the ready list, through pktdrv_receive_func of
-- src/server/pktdrv.c and the buffer manager.
use rmtdos.Base.{
  ℕ, ◌+◌, ◌≤◌, ◌<◌, ◌≡◌, refl, List, [], ◌∷◌, arith, ltb, ◌==◌, true, false, if◌then◌else◌, ◌∙◌,
  lt→ltb, ◌⊎◌,
}
use rmtdos.Base.Memory.{Bytes}
use rmtdos.Bufmgr.{
  Ptr, null, Bufmgr, data_of, buffer_of, buffer_acquire, buffer_mark_ready, driver_write,
  buffer_max_size, sizeof_buffer, ready,
}
use rmtdos.Bufmgr.Chain.{contains}
use rmtdos.Bufmgr.Pool
use rmtdos.Bufmgr.Pool.{Pool}
use rmtdos.Bufmgr.Content.{contents, received, received_content, received_keeps}
use rmtdos.Bufmgr.Invariant.{Holds, apart}
use rmtdos.Bufmgr.Refine.{
  acquire_fits, mark_ready_top, acquire-none, acquire_refines, mark_ready_refines,
  driver_write_refines,
}
use rmtdos.X86.{CpuRegs}
use rmtdos.Pktdrv.{Pktdrv, pktdrv_receive_func, count_recv, count_dropped}

-- The two answers to a first call, and the second call.
module _ (ds : ℕ) (d : Pktdrv) (m : Bufmgr) (regs : CpuRegs) where
  pub first-buffer :
      {b : Ptr}
      → regs.ax ≡ 0
      → (buffer_acquire m regs.cx).1 ≡ b
      → 0 < b
      → pktdrv_receive_func ds d m regs
        ≡ (count_recv d, (buffer_acquire m regs.cx).0, record regs { es = ds; di = b })
  unfolding pktdrv_receive_func
  first-buffer first e positive =
      let call : ltb 0 regs.ax ≡ false = ground arith in rw (call, e, lt→ltb 0 _ positive)

  pub first-null :
      regs.ax ≡ 0
      → buffer_acquire m regs.cx ≡ (m, null)
      → pktdrv_receive_func ds d m regs ≡ (count_dropped d, m, record regs { es = 0; di = 0 })
  unfolding pktdrv_receive_func
  first-null first e = let call : ltb 0 regs.ax ≡ false = ground arith in rw (call, e)

  pub second-call :
      regs.ax ≡ 1 → pktdrv_receive_func ds d m regs ≡ (d, buffer_mark_ready m regs.si, regs)
  unfolding pktdrv_receive_func
  second-call second = rw second

-- What the driver does for a packet: it asks for a buffer, and if it gets one it copies the packet to
-- ES:DI and calls again with that address in SI.
pub deliver : ℕ → Pktdrv → Bufmgr → CpuRegs → Bytes → Pktdrv × Bufmgr
deliver ds d m regs packet =
    let (d', m', answer) = pktdrv_receive_func ds d m regs in
    if answer.di == 0
    then (d', m')
    else (let filled = driver_write m' (buffer_of answer.di) packet in
        let (d'', m'', _) =
          pktdrv_receive_func ds d' filled (record regs { ax = 1; si = answer.di }) in
        (d'', m''))

module _ (d : Pktdrv) (m : Bufmgr) (ds : ℕ) (regs : CpuRegs) (packet : Bytes)
    (first : regs.ax ≡ 0) where
  deliver-received :
      (p : Ptr)
      → (buffer_acquire m regs.cx).1 ≡ data_of p
      → 0 < p
      → p + sizeof_buffer ≤ 65536
      → deliver ds d m regs packet ≡ (count_recv d, received m p packet regs.cx)
  unfolding deliver
  deliver-received p e positive inside =
      let back : buffer_of (data_of p) ≡ p = omega arith in
      let found : (data_of p == 0) ≡ false = ground arith in
      rw (first-buffer ds d m regs first e (omega arith), found, back)
        (rw (second-call ds (count_recv d) _ (record regs { ax = 1; si = data_of p }) refl))

  -- On a table that stands for a pool, a packet for which a buffer is free and which fits into it
  -- is counted as received, and its buffer, filled and with its length, moves to the top of the
  -- ready stack; the packets that wait there stay as they are.
  pub deliver_ready :
      (p : Ptr) (fs ps rs us : List Ptr)
      → Holds m (record { free = p ∷ fs; pending = ps; ready = rs; user = us })
      → regs.cx ≤ buffer_max_size
      → Holds
          (deliver ds d m regs packet).1
          (record { free = fs; pending = ps; ready = p ∷ rs; user = us })
        × ((deliver ds d m regs packet).0 ≡ count_recv d)
        × (((deliver ds d m regs packet).1.cell p).bytes ≡ regs.cx)
        × (((deliver ds d m regs packet).1.cell p).data_area ≡ packet)
        × (contents (deliver ds d m regs packet).1.cell rs ≡ contents m.cell rs)
  deliver_ready p fs ps rs us h fits =
      let v : Pool = record { free = p ∷ fs; pending = ps; ready = rs; user = us } in
      let taken : Pool.acquire v regs.cx
          ≡ (record { free = fs; pending = p ∷ ps; ready = rs; user = us }, p) =
        acquire_fits p fs ps rs us regs.cx fits in
      let (h1, answer) = acquire_refines regs.cx h in
      let h1' = rw taken at h1 in
      let held : contains p (p ∷ ps) ≡ true = ground arith in
      let h2 = driver_write_refines p packet held h1' in
      let h3 = mark_ready_refines p held h2 in
      let positive : 0 < p = h.free_on.1 in
      let inside : p + sizeof_buffer ≤ 65536 = h.free_on.2 in
      let found : (p == null) ≡ false = ground arith in
      let got : (buffer_acquire m regs.cx).1 ≡ data_of p = answer ∙ rw (taken, found) refl in
      let (len, content) =
        received_content m p packet regs.cx h.free_chain.0 positive inside fits in
      rw (deliver-received p got positive inside) (
        rw (mark_ready_top p fs ps rs us) at h3,
        refl,
        len,
        content,
        received_keeps m p packet regs.cx rs h.free_chain.0 positive inside fits
            (apart m.cell p (m.cell p) h.free_on.0 ready (λ e. cc) rs h.ready_on),
      )

  -- On a table that stands for a pool, a packet for which no buffer is free, or which is too long,
  -- is counted as dropped, and nothing else changes.
  pub deliver_dropped :
      (v : Pool)
      → Holds m v
      → (v.free ≡ []) ⊎ (buffer_max_size < regs.cx)
      → deliver ds d m regs packet ≡ (count_dropped d, m)
  unfolding deliver
  deliver_dropped v h no_room =
      rw (first-null ds d m regs first (acquire-none m v regs.cx h no_room))
