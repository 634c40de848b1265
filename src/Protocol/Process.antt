-- ===== src/Protocol/Process.antt =====
-- The loop of protocol_process in src/server/protocol.c over the ready packets.
use rmtdos.Base.{
  ℕ, zero, suc, ◌<◌, ◌≡◌, some, List, [], ◌∷◌, arith, ◌==◌, length, false, subst, true,
}
use rmtdos.Base.Memory.{Bytes}
use rmtdos.Bufmgr.{Ptr, null, Bufmgr, buffer_get_ready, buffer_release}
use rmtdos.Bufmgr.Chain.{contains, erase}
use rmtdos.Bufmgr.Content.{contents, get_ready_content, contents_after_round}
use rmtdos.Bufmgr.Pool
use rmtdos.Bufmgr.Invariant.{Holds, pool}
use rmtdos.Bufmgr.Refine.{get_ready_refines, release_refines}
use rmtdos.Protocol.{Env, Host, handle, protocol_process}

-- Packets handled one after the other.
abbrev pub handle_all : Env → Host → List (ℕ × Bytes) → Host
handle_all env h [] = h
handle_all env h ((bytes, packet) ∷ rest) = handle_all env (handle env h bytes packet) rest

-- The free stack once these buffers are released in order.
abbrev pub released : List Ptr → List Ptr → List Ptr
released [] fs = fs
released (r ∷ rs) fs = released rs (r ∷ fs)

-- What the loop does from a table with those stacks.
abbrev pub Processed : Env → ℕ → Bufmgr → Host → List Ptr → List Ptr → List Ptr → List Ptr → Type 0
Processed env fuel m h fs ps rs us =
    (m' : Bufmgr) × (protocol_process env fuel m h
      ≡ some (m', handle_all env h (contents m.cell rs)))
    × Holds m' (pool (released rs fs) ps [] us)

module _ (env : Env) where
  last_round :
      (fuel : ℕ) (m : Bufmgr) (h : Host) (fs ps us : List Ptr)
      → Holds m (pool fs ps [] us)
      → Processed env (suc fuel) m h fs ps [] us
  unfolding protocol_process Pool.get_ready
  last_round fuel m h fs ps us holds =
      let (holds', answer) = get_ready_refines holds in ((buffer_get_ready m).0, rw answer, holds')

  -- What a round leaves behind, with the head of the ready list as the buffer.
  round :
      (m : Bufmgr) (fs ps rs us : List Ptr)
      → Holds m (pool fs ps (m.ready_list ∷ rs) us)
      → ((buffer_get_ready m).1 ≡ m.ready_list)
        × Holds
            (buffer_release (buffer_get_ready m).0 m.ready_list)
            (pool (m.ready_list ∷ fs) ps rs us)
  unfolding Pool.get_ready Pool.release
  round m fs ps rs us holds =
      let (holds', answer) = get_ready_refines holds in
      let held : contains m.ready_list (m.ready_list ∷ us) ≡ true = ground arith in
      let back : erase m.ready_list (m.ready_list ∷ us) ≡ us = ground arith in
      let after : Holds (buffer_release (buffer_get_ready m).0 m.ready_list)
          (pool (m.ready_list ∷ fs) ps rs (erase m.ready_list (m.ready_list ∷ us))) =
        release_refines m.ready_list held holds' in
      (answer, rw back at after)

  next_round :
      (rs : List Ptr) (fuel : ℕ)
      → ((m : Bufmgr) (h : Host) (fs ps us : List Ptr)
          → Holds m (pool fs ps rs us)
          → Processed env fuel m h fs ps rs us)
      → (m : Bufmgr) (h : Host) (fs ps us : List Ptr) → Holds m (pool fs ps (m.ready_list ∷ rs) us)
      → Processed env (suc fuel) m h fs ps (m.ready_list ∷ rs) us
  unfolding protocol_process
  next_round rs fuel ih m h fs ps us holds =
      let (answer, holds') = round m fs ps rs us holds in
      let waiting = holds.ready_chain.1 in
      let found : (m.ready_list == null) ≡ false = ground arith in
      let (bytes, content) = get_ready_content m waiting in
      let (m', done, holds'') =
        ih _ (handle env h (m.cell m.ready_list).bytes (m.cell m.ready_list).data_area) _ ps us
          holds' in
      (
        m',
        rw (answer, found, bytes, content)
            (rw (← contents_after_round m waiting rs holds.ready_on.3) done),
        holds'',
      )

  process-rounds :
      (rs : List Ptr) (fuel : ℕ) (m : Bufmgr) (h : Host) (fs ps us : List Ptr)
      → length rs < fuel
      → Holds m (pool fs ps rs us)
      → Processed env fuel m h fs ps rs us
  process-rounds rs zero m h fs ps us enough holds = absurd (omega arith)
  process-rounds [] (suc fuel) m h fs ps us enough holds = last_round fuel m h fs ps us holds
  process-rounds (r ∷ rs) (suc fuel) m h fs ps us enough holds =
      subst (λ q. Holds m (pool fs ps (q ∷ rs) us) → Processed env (suc fuel) m h fs ps (q ∷ rs) us)
        holds.ready_chain.0
        (next_round rs fuel (λ m h fs ps us. process-rounds rs fuel m h fs ps us (omega arith)) m h
          fs ps us)
        holds

  -- On a table that stands for a pool, and with fuel for one round more than there are ready
  -- packets, the loop ends. It has handled every ready packet once, from the one that became ready
  -- last to the one that did first, and nothing else; no buffer is ready any more, and each that
  -- was is free. What the driver and the program hold stays.
  pub protocol_process_lem :
      (fuel : ℕ) (m : Bufmgr) (h : Host) (fs ps rs us : List Ptr)
      → Holds m (pool fs ps rs us)
      → length rs < fuel
      → (m' : Bufmgr) × (protocol_process env fuel m h
          ≡ some (m', handle_all env h (contents m.cell rs)))
        × Holds m' (pool (released rs fs) ps [] us)
  protocol_process_lem fuel m h fs ps rs us holds enough =
      process-rounds rs fuel m h fs ps us enough holds
