-- ===== src/Bufmgr/Run.antt =====
-- Whole histories of calls into src/server/bufmgr.c, in any order of the packet driver's interrupts
-- and the program's own calls.
use rmtdos.Base.{ℕ, ◌≡◌, refl, List, [], ◌∷◌, true}
use rmtdos.Base.Memory.{Bytes}
use rmtdos.Bufmgr.{
  Ptr, Bufmgr, data_of, buffer_acquire, buffer_mark_ready, buffer_get_ready, buffer_release,
  driver_write,
}
use rmtdos.Bufmgr.Chain.{contains}
use rmtdos.Bufmgr.Pool
use rmtdos.Bufmgr.Pool.{Pool}
use rmtdos.Bufmgr.Invariant.{Holds, data_pointer}
use rmtdos.Bufmgr.Refine.{
  acquire_refines, get_ready_refines, mark_ready_refines, release_refines, driver_write_refines,
}

-- A call, and for the driver the copying of a packet.
pub data Call : Type 0 where
  acquire : ℕ → Call
  write : Ptr → Bytes → Call
  mark : Ptr → Call
  get : Call
  release : Ptr → Call

-- The pointers that the calls answer with.
unfoldable pub run : Bufmgr → List Call → List Ptr
run m [] = []
run m (acquire n ∷ cs) = (buffer_acquire m n).1 ∷ run (buffer_acquire m n).0 cs
run m (write p d ∷ cs) = run (driver_write m p d) cs
run m (mark p ∷ cs) = run (buffer_mark_ready m (data_of p)) cs
run m (get ∷ cs) = (buffer_get_ready m).1 ∷ run (buffer_get_ready m).0 cs
run m (release p ∷ cs) = run (buffer_release m p) cs

unfoldable pub run_pool : Pool → List Call → List Ptr
run_pool v [] = []
run_pool v (acquire n ∷ cs) = data_pointer (Pool.acquire v n).1 ∷ run_pool (Pool.acquire v n).0 cs
run_pool v (write p d ∷ cs) = run_pool v cs
run_pool v (mark p ∷ cs) = run_pool (Pool.mark_ready v p) cs
run_pool v (get ∷ cs) = (Pool.get_ready v).1 ∷ run_pool (Pool.get_ready v).0 cs
run_pool v (release p ∷ cs) = run_pool (Pool.release v p) cs

-- The driver writes and returns only what it holds, and the program releases only what it holds.
abbrev pub Disciplined : Pool → List Call → Type 0
Disciplined v [] = Unit {0}
Disciplined v (acquire n ∷ cs) = Disciplined (Pool.acquire v n).0 cs
Disciplined v (write p d ∷ cs) = (contains p v.pending ≡ true) × Disciplined v cs
Disciplined v (mark p ∷ cs) = (contains p v.pending ≡ true) × Disciplined (Pool.mark_ready v p) cs
Disciplined v (get ∷ cs) = Disciplined (Pool.get_ready v).0 cs
Disciplined v (release p ∷ cs) = (contains p v.user ≡ true) × Disciplined (Pool.release v p) cs

-- From a table that stands for a pool no history of calls, in which only a buffer that the driver
-- holds is written and marked and only one that the program holds is released, tells the linked
-- lists of the buffer manager from the pool of two stacks and two sets: every call answers with
-- the same pointer.
pub run_refines :
    (cs : List Call) {m : Bufmgr} {v : Pool}
    → Holds m v
    → Disciplined v cs
    → run m cs ≡ run_pool v cs
unfolding run run_pool
run_refines [] h d = refl
run_refines (acquire n ∷ cs) h d =
    let (h', same) = acquire_refines n h in rw (same, run_refines cs h' d)
run_refines (write p x ∷ cs) h d = run_refines cs (driver_write_refines p x d.0 h) d.1
run_refines (mark p ∷ cs) h d = run_refines cs (mark_ready_refines p d.0 h) d.1
run_refines (get ∷ cs) h d = let (h', same) = get_ready_refines h in rw (same, run_refines cs h' d)
run_refines (release p ∷ cs) h d = run_refines cs (release_refines p d.0 h) d.1
