-- ===== src/Bufmgr/Pool.antt =====
-- What the buffer manager promises: a fixed set of buffers, each of them free, with the packet
-- driver (pending), waiting for the program (ready) or with the program (user). The free and the
-- ready ones are stacks.
use rmtdos.Base.{ℕ, ◌+◌, List, [], ◌∷◌, ltb, if◌then◌else◌, length}
use rmtdos.Bufmgr.{Ptr, null, buffer_max_size}
use rmtdos.Bufmgr.Chain.{erase}

pub record Pool : Type 0 where
  pub free : List Ptr
  pub pending : List Ptr
  pub ready : List Ptr
  pub user : List Ptr

abbrev pub total : Pool → ℕ
total v = length v.free + length v.pending + length v.ready + length v.user

take_free : Pool → List Ptr → Pool × Ptr
take_free v [] = (v, null)
take_free v (p ∷ rest) = (record v { free = rest; pending = p ∷ v.pending }, p)

-- A packet that no buffer can hold gets none.
unfoldable pub acquire : Pool → ℕ → Pool × Ptr
unfolding take_free
acquire v bytes = if ltb buffer_max_size bytes then (v, null) else take_free v v.free

unfoldable pub mark_ready : Pool → Ptr → Pool
mark_ready v p = record v { pending = erase p v.pending; ready = p ∷ v.ready }

take_ready : Pool → List Ptr → Pool × Ptr
take_ready v [] = (v, null)
take_ready v (p ∷ rest) = (record v { ready = rest; user = p ∷ v.user }, p)

unfoldable pub get_ready : Pool → Pool × Ptr
unfolding take_ready
get_ready v = take_ready v v.ready

unfoldable pub release : Pool → Ptr → Pool
release v p = record v { user = erase p v.user; free = p ∷ v.free }
