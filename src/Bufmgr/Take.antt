-- ===== src/Bufmgr/Take.antt =====
-- buffer_acquire and buffer_get_ready of src/server/bufmgr.c, which take the head of a list.
use rmtdos.Base.{ℕ, ◌≡◌, refl, List, [], ◌∷◌, arith, ltb, ◌==◌, false, inl, inr, Bool-cases, subst}
use rmtdos.Bufmgr.{
  Ptr, null, Bufmgr, Buffer, free, pending, ready, user, buffer_max_size, buffer_acquire,
  buffer_get_ready,
}
use rmtdos.Bufmgr.Chain.{Chain-update, OnList-update}
use rmtdos.Bufmgr.Pool
use rmtdos.Bufmgr.Pool.{Pool, total}
use rmtdos.Bufmgr.Invariant.{Holds, data_pointer, pool, apart, stays_on, stays_linked}

module _ (m : Bufmgr) where
  acquire-head :
      (bytes : ℕ) (fs ps rs us : List Ptr)
      → Holds m (pool (m.free_list ∷ fs) ps rs us)
      → let (v, p) = Pool.acquire (pool (m.free_list ∷ fs) ps rs us) bytes in
        Holds (buffer_acquire m bytes).0 v × ((buffer_acquire m bytes).1 ≡ data_pointer p)
  unfolding buffer_acquire Pool.acquire
  acquire-head bytes fs ps rs us h =
      let p = m.free_list in
      let b : Buffer = record (m.cell p) { bytes = bytes; state = pending; next = null } in
      let was = h.free_on.0 in
      elim (Bool-cases (ltb buffer_max_size bytes)) [
        | inl big ↦ ground arith
        | inr fits ↦
            let found : (p == null) ≡ false = ground arith in
            rw (found, fits)
              (
                record {
                  free_chain = Chain-update m.cell p b _ fs h.free_on.3 h.free_chain.2;
                  ready_chain =
                      stays_linked m.cell p b was ready (λ e. cc) rs h.ready_on _ h.ready_chain;
                  free_on = OnList-update m.cell p b free fs h.free_on.3 h.free_on.4;
                  pending_on = (
                    ground arith,
                    h.free_on.1,
                    h.free_on.2,
                    apart m.cell p b was pending (λ e. cc) ps h.pending_on,
                    stays_on m.cell p b was pending (λ e. cc) ps h.pending_on,
                  );
                  ready_on = stays_on m.cell p b was ready (λ e. cc) rs h.ready_on;
                  user_on = stays_on m.cell p b was user (λ e. cc) us h.user_on;
                  counted = omega (arith, h.counted);
                },
                ground arith,
              )
      ]

  get_ready-head :
      (fs ps rs us : List Ptr)
      → Holds m (pool fs ps (m.ready_list ∷ rs) us)
      → let (v, p) = Pool.get_ready (pool fs ps (m.ready_list ∷ rs) us) in
        Holds (buffer_get_ready m).0 v × ((buffer_get_ready m).1 ≡ p)
  unfolding buffer_get_ready Pool.get_ready
  get_ready-head fs ps rs us h =
      let p = m.ready_list in
      let b : Buffer = record (m.cell p) { state = user; next = null } in
      let was = h.ready_on.0 in
      let found : (p == null) ≡ false = ground arith in
      rw found (
        record {
          free_chain = stays_linked m.cell p b was free (λ e. cc) fs h.free_on _ h.free_chain;
          ready_chain = Chain-update m.cell p b _ rs h.ready_on.3 h.ready_chain.2;
          free_on = stays_on m.cell p b was free (λ e. cc) fs h.free_on;
          pending_on = stays_on m.cell p b was pending (λ e. cc) ps h.pending_on;
          ready_on = OnList-update m.cell p b ready rs h.ready_on.3 h.ready_on.4;
          user_on = (
            ground arith,
            h.ready_on.1,
            h.ready_on.2,
            apart m.cell p b was user (λ e. cc) us h.user_on,
            stays_on m.cell p b was user (λ e. cc) us h.user_on,
          );
          counted = omega (arith, h.counted);
        },
        refl,
      )

  pub acquire-lists :
      (bytes : ℕ) (fs ps rs us : List Ptr)
      → Holds m (pool fs ps rs us)
      → let (v, p) = Pool.acquire (pool fs ps rs us) bytes in
        Holds (buffer_acquire m bytes).0 v × ((buffer_acquire m bytes).1 ≡ data_pointer p)
  acquire-lists bytes [] ps rs us h =
      unfold buffer_acquire Pool.acquire in ground (arith, h.free_chain)
  acquire-lists bytes (f ∷ fs) ps rs us h =
      subst
        (λ q.
          Holds m (pool (q ∷ fs) ps rs us)
          → let (v, p) = Pool.acquire (pool (q ∷ fs) ps rs us) bytes in
            Holds (buffer_acquire m bytes).0 v × ((buffer_acquire m bytes).1 ≡ data_pointer p))
        h.free_chain.0 (acquire-head bytes fs ps rs us) h

  pub get_ready-lists :
      (fs ps rs us : List Ptr)
      → Holds m (pool fs ps rs us)
      → let (v, p) = Pool.get_ready (pool fs ps rs us) in
        Holds (buffer_get_ready m).0 v × ((buffer_get_ready m).1 ≡ p)
  get_ready-lists fs ps [] us h =
      unfold buffer_get_ready Pool.get_ready in ground (arith, h.ready_chain)
  get_ready-lists fs ps (r ∷ rs) us h =
      subst
        (λ q.
          Holds m (pool fs ps (q ∷ rs) us)
          → let (v, p) = Pool.get_ready (pool fs ps (q ∷ rs) us) in
            Holds (buffer_get_ready m).0 v × ((buffer_get_ready m).1 ≡ p))
        h.ready_chain.0 (get_ready-head fs ps rs us) h
