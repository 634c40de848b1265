-- ===== src/Bufmgr/Refine.antt =====
-- The operations of src/server/bufmgr.c implement those of the pool.
use rmtdos.Base.{ℕ, ◌≤◌, ◌<◌, ◌≡◌, ◌≢◌, refl, List, [], ◌∷◌, arith, true, inl, inr, ◌⊎◌}
use rmtdos.Base.Memory.{Bytes, memset}
use rmtdos.Bufmgr.{
  Ptr, null, Bufmgr, Buffer, free, pending, ready, user, update, data_of, buffer_of,
  buffer_max_size, buffer_acquire, buffer_mark_ready, buffer_get_ready, buffer_release,
  driver_write,
}
use rmtdos.Bufmgr.Chain.{
  Chain, NotIn, contains, state_of_contains, OnList-erase, length-erase, OnList-same, Chain-same,
  state-head,
}
use rmtdos.Bufmgr.Pool
use rmtdos.Bufmgr.Pool.{Pool, total}
use rmtdos.Bufmgr.Invariant.{Holds, data_pointer, pool, apart, stays_on, stays_linked}
use rmtdos.Bufmgr.Take.{acquire-lists, get_ready-lists}

module _ {m : Bufmgr} {v : Pool} where
  -- buffer_acquire takes the top of the free stack, unless the packet is too long or none is left;
  -- then it answers NULL and changes nothing. The table still stands for the pool.
  pub acquire_refines :
      (bytes : ℕ)
      → Holds m v
      → Holds (buffer_acquire m bytes).0 (Pool.acquire v bytes).0
        × ((buffer_acquire m bytes).1 ≡ data_pointer (Pool.acquire v bytes).1)
  acquire_refines bytes h = acquire-lists m bytes v.free v.pending v.ready v.user h

  -- buffer_get_ready hands out the top of the ready stack, or NULL.
  pub get_ready_refines :
      Holds m v
      → Holds (buffer_get_ready m).0 (Pool.get_ready v).0
        × ((buffer_get_ready m).1 ≡ (Pool.get_ready v).1)
  get_ready_refines h = get_ready-lists m v.free v.pending v.ready v.user h

  -- buffer_mark_ready, given the data pointer of a buffer that the driver holds, finds that buffer
  -- and puts it on the ready stack.
  pub mark_ready_refines :
      (p : Ptr)
      → contains p v.pending ≡ true
      → Holds m v
      → Holds (buffer_mark_ready m (data_of p)) (Pool.mark_ready v p)
  unfolding buffer_mark_ready Pool.mark_ready
  mark_ready_refines p held h =
      let (was, positive, fits) = state_of_contains m.cell pending p v.pending h.pending_on held in
      let back : buffer_of (data_of p) ≡ p = omega arith in
      let b : Buffer = record (m.cell p) { state = ready; next = m.ready_list } in
      let self : update m.cell p b p ≡ b = ground arith in
      rw back (record {
        free_chain = stays_linked m.cell p b was free (λ e. cc) v.free h.free_on _ h.free_chain;
        ready_chain = (
          refl,
          omega arith,
          rw self (stays_linked m.cell p b was ready (λ e. cc) v.ready h.ready_on _ h.ready_chain),
        );
        free_on = stays_on m.cell p b was free (λ e. cc) v.free h.free_on;
        pending_on = OnList-erase m.cell p b pending v.pending held h.pending_on;
        ready_on = (
          ground arith,
          positive,
          fits,
          apart m.cell p b was ready (λ e. cc) v.ready h.ready_on,
          stays_on m.cell p b was ready (λ e. cc) v.ready h.ready_on,
        );
        user_on = stays_on m.cell p b was user (λ e. cc) v.user h.user_on;
        counted = omega (arith, h.counted, length-erase p v.pending held);
      })

  -- buffer_release puts a buffer that the program holds back on the free stack.
  pub release_refines :
      (p : Ptr)
      → contains p v.user ≡ true
      → Holds m v
      → Holds (buffer_release m p) (Pool.release v p)
  unfolding buffer_release Pool.release
  release_refines p held h =
      let (was, positive, fits) = state_of_contains m.cell user p v.user h.user_on held in
      let b : Buffer = record (m.cell p) {
        data_area = memset (m.cell p).data_area 0 0 buffer_max_size;
        state = free;
        bytes = 0;
        next = m.free_list;
      } in
      let self : update m.cell p b p ≡ b = ground arith in
      record {
        free_chain = (
          refl,
          omega arith,
          rw self (stays_linked m.cell p b was free (λ e. cc) v.free h.free_on _ h.free_chain),
        );
        ready_chain =
            stays_linked m.cell p b was ready (λ e. cc) v.ready h.ready_on _ h.ready_chain;
        free_on = (
          ground arith,
          positive,
          fits,
          apart m.cell p b was free (λ e. cc) v.free h.free_on,
          stays_on m.cell p b was free (λ e. cc) v.free h.free_on,
        );
        pending_on = stays_on m.cell p b was pending (λ e. cc) v.pending h.pending_on;
        ready_on = stays_on m.cell p b was ready (λ e. cc) v.ready h.ready_on;
        user_on = OnList-erase m.cell p b user v.user held h.user_on;
        counted = omega (arith, h.counted, length-erase p v.user held);
      }

  -- The packet driver may write to a buffer that it holds.
  pub driver_write_refines :
      (p : Ptr) (packet : Bytes)
      → contains p v.pending ≡ true
      → Holds m v
      → Holds (driver_write m p packet) v
  unfolding driver_write
  driver_write_refines p packet held h =
      let was = (state_of_contains m.cell pending p v.pending h.pending_on held).0 in
      let b : Buffer = record (m.cell p) { data_area = packet } in
      record {
        free_chain = Chain-same m.cell p b _ v.free refl h.free_chain;
        ready_chain = Chain-same m.cell p b _ v.ready refl h.ready_chain;
        free_on = stays_on m.cell p b was free (λ e. cc) v.free h.free_on;
        pending_on = OnList-same m.cell p b pending v.pending was h.pending_on;
        ready_on = stays_on m.cell p b was ready (λ e. cc) v.ready h.ready_on;
        user_on = stays_on m.cell p b was user (λ e. cc) v.user h.user_on;
        counted = h.counted;
      }

  -- A buffer that buffer_acquire hands out, from a table that stands for a pool, is with nobody
  -- else.
  pub acquire_exclusive :
      (bytes : ℕ)
      → Holds m v
      → (buffer_acquire m bytes).1 ≢ null
      → (p : Ptr) × ((buffer_acquire m bytes).1 ≡ data_of p)
        × NotIn p v.pending
        × NotIn p v.ready
        × NotIn p v.user
  unfolding buffer_acquire
  acquire_exclusive bytes h found =
      let p = m.free_list in
      let some_free : p ≢ null = ground arith in
      let was = state-head m.cell free p v.free h.free_chain h.free_on some_free in
      (
        p,
        ground arith,
        apart m.cell p (m.cell p) was pending (λ e. cc) v.pending h.pending_on,
        apart m.cell p (m.cell p) was ready (λ e. cc) v.ready h.ready_on,
        apart m.cell p (m.cell p) was user (λ e. cc) v.user h.user_on,
      )

-- What the specification answers at concrete stacks, and the table's answer without a buffer.
pub acquire_fits :
    (p : Ptr) (fs ps rs us : List Ptr) (bytes : ℕ)
    → bytes ≤ buffer_max_size
    → Pool.acquire (pool (p ∷ fs) ps rs us) bytes ≡ (pool fs (p ∷ ps) rs us, p)
unfolding Pool.acquire
acquire_fits p fs ps rs us bytes fits = ground arith

pub mark_ready_top :
    (p : Ptr) (fs ps rs us : List Ptr)
    → Pool.mark_ready (pool fs (p ∷ ps) rs us) p ≡ pool fs ps (p ∷ rs) us
unfolding Pool.mark_ready
mark_ready_top p fs ps rs us = ground arith

pub acquire-none :
    (m : Bufmgr) (v : Pool) (bytes : ℕ)
    → Holds m v
    → (v.free ≡ []) ⊎ (buffer_max_size < bytes)
    → buffer_acquire m bytes ≡ (m, null)
unfolding buffer_acquire
acquire-none m v bytes h (inl none_free) =
    let chain : Chain m.cell m.free_list [] = rw none_free at h.free_chain in ground arith
acquire-none m v bytes h (inr long) = ground arith
