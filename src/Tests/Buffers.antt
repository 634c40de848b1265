-- ===== src/Tests/Buffers.antt =====
-- The buffer manager on a table of two buffers at address 1000.
use rmtdos.Base.{ℕ, ◌≡◌, ◌==◌, refl, List, [], ◌∷◌, arith, if◌then◌else◌, inr}
use rmtdos.Base.Memory.{Bytes, zeros, of_list}
use rmtdos.X86.{CpuRegs, x86_reset_regs}
use rmtdos.Bufmgr.{Ptr, null, Buffer, Bufmgr, free, slot}
use rmtdos.Bufmgr.Content.{contents}
use rmtdos.Bufmgr.Pool
use rmtdos.Bufmgr.Invariant.{Holds, pool}
use rmtdos.Bufmgr.Run.{
  Call, acquire, write, mark, get, release, run, run_pool, Disciplined, run_refines,
}
use rmtdos.Pktdrv.{Pktdrv, cleared, count_recv, count_dropped}
use rmtdos.Pktdrv.Receive.{deliver, deliver_ready, deliver_dropped}

abbrev base : Ptr
base = 1000

abbrev pub empty : Ptr → Bytes → Buffer
empty next content = record { state = free; bytes = 0; next = next; data_area = content }

abbrev pub table : Bufmgr
table = record {
  buffer_count = 2;
  buffers = base;
  free_list = base;
  ready_list = null;
  cell = λ p. if p == base then empty (slot base 1) zeros else empty null zeros;
}

pub holds : Holds table (pool (base ∷ slot base 1 ∷ []) [] [] [])
holds = record {
  free_chain = (refl, omega arith, (refl, omega arith, refl));
  ready_chain = refl;
  free_on =
      (refl, omega arith, omega arith, (omega arith, tt), (refl, omega arith, omega arith, tt, tt));
  pending_on = tt;
  ready_on = tt;
  user_on = tt;
  counted = refl;
}

abbrev calls : List Call
calls =
    acquire 60
    ∷ write base (of_list (1 ∷ 2 ∷ 3 ∷ []))
    ∷ acquire 2000
    ∷ mark base
    ∷ acquire 60
    ∷ get
    ∷ release base
    ∷ acquire 1504
    ∷ []

disciplined : Disciplined (pool (base ∷ slot base 1 ∷ []) [] [] []) calls
unfolding Pool.acquire Pool.mark_ready Pool.get_ready
disciplined = (refl, (refl, (refl, tt)))

run_refines_example : run table calls ≡ run_pool (pool (base ∷ slot base 1 ∷ []) [] [] []) calls
run_refines_example = run_refines calls holds disciplined

abbrev first_call : ℕ → CpuRegs
first_call cx = record (x86_reset_regs 0) { ax = 0; cx = cx }

abbrev delivered : Pktdrv × Bufmgr
delivered = deliver 0 cleared table (first_call 64) (of_list (9 ∷ []))

deliver_ready_example :
    Holds delivered.1
      (record { free = slot base 1 ∷ []; pending = []; ready = base ∷ []; user = [] })
    × (delivered.0 ≡ count_recv cleared)
    × ((delivered.1.cell base).bytes ≡ 64)
    × ((delivered.1.cell base).data_area ≡ of_list (9 ∷ []))
    × (contents delivered.1.cell [] ≡ contents table.cell [])
deliver_ready_example =
    deliver_ready cleared table 0 (first_call 64) (of_list (9 ∷ [])) refl base (slot base 1 ∷ []) []
      [] [] holds (omega arith)

deliver_dropped_example :
    deliver 0 cleared table (first_call 1510) zeros ≡ (count_dropped cleared, table)
deliver_dropped_example =
    deliver_dropped cleared table 0 (first_call 1510) zeros refl
      (pool (base ∷ slot base 1 ∷ []) [] [] []) holds (inr (omega arith))
