-- ===== src/Bufmgr/Invariant.antt =====
-- What it means that the static variables of src/server/bufmgr.c stand for a pool, and that a write to
-- one buffer keeps the lists of the others.
use rmtdos.Base.{◌≡◌, ◌≢◌, List, ◌==◌, if◌then◌else◌, sym, ◌∙◌}
use rmtdos.Bufmgr.{
  Ptr, null, Bufmgr, Buffer, BufferState, free, pending, ready, user, update, data_of,
}
use rmtdos.Bufmgr.Chain.{Chain, NotIn, OnList, NotIn-of_state, Chain-update, OnList-update}
use rmtdos.Bufmgr.Pool.{Pool, total}

-- The static variables stand for that pool: both lists are linked and end in NULL, the four kinds
-- are told apart by `state`, and no buffer of the table is missing.
pub record Holds (m : Bufmgr) (v : Pool) : Type 0 where
  pub free_chain : Chain m.cell m.free_list v.free
  pub ready_chain : Chain m.cell m.ready_list v.ready
  pub free_on : OnList m.cell free v.free
  pub pending_on : OnList m.cell pending v.pending
  pub ready_on : OnList m.cell ready v.ready
  pub user_on : OnList m.cell user v.user
  pub counted : total v ≡ m.buffer_count

-- What the caller of buffer_acquire sees: the data pointer of the buffer, or NULL.
abbrev pub data_pointer : Ptr → Ptr
data_pointer p = if p == null then null else data_of p

abbrev pub pool : List Ptr → List Ptr → List Ptr → List Ptr → Pool
pool fs ps rs us = record { free = fs; pending = ps; ready = rs; user = us }

-- A write to a buffer in one state leaves the lists of the others alone.
module _ (cell : Ptr → Buffer) (p : Ptr) (b : Buffer) {s : BufferState}
    (in_state : (cell p).state ≡ s) (s' : BufferState) (other : s ≢ s') (qs : List Ptr)
    (on : OnList cell s' qs) where
  pub apart : NotIn p qs
  apart = NotIn-of_state cell s' p qs (λ e. other (sym in_state ∙ e)) on

  pub stays_on : OnList (update cell p b) s' qs
  stays_on = OnList-update cell p b s' qs apart on

  pub stays_linked : (h : Ptr) → Chain cell h qs → Chain (update cell p b) h qs
  stays_linked h = Chain-update cell p b h qs apart
