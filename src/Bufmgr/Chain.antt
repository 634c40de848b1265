-- ===== src/Bufmgr/Chain.antt =====
-- The linked lists of src/server/bufmgr.c as lists of pointers.
use rmtdos.Base.{
  ◌+◌, ◌≤◌, ◌<◌, ◌≡◌, ◌≢◌, List, [], ◌∷◌, arith, ◌==◌, Bool, true, false, ◌||◌, length,
  if◌then◌else◌, inl, inr, Bool-cases,
}
use rmtdos.Bufmgr.{Ptr, null, Buffer, BufferState, update, sizeof_buffer}

-- From `p` the `next` pointers lead through `qs` to NULL.
abbrev pub Chain : (Ptr → Buffer) → Ptr → List Ptr → Type 0
Chain cell p [] = p ≡ null
Chain cell p (q ∷ qs) = (p ≡ q) × (q ≢ null) × Chain cell (cell q).next qs

abbrev pub NotIn : Ptr → List Ptr → Type 0
NotIn p [] = Unit {0}
NotIn p (q ∷ qs) = (p ≢ q) × NotIn p qs

-- The buffers of the list are different, lie inside the segment, and are in that state.
abbrev pub OnList : (Ptr → Buffer) → BufferState → List Ptr → Type 0
OnList cell s [] = Unit {0}
OnList cell s (q ∷ qs) =
    ((cell q).state ≡ s) × (0 < q) × (q + sizeof_buffer ≤ 65536) × NotIn q qs × OnList cell s qs

abbrev pub contains : Ptr → List Ptr → Bool
contains p [] = false
contains p (q ∷ qs) = (q == p) || contains p qs

abbrev pub erase : Ptr → List Ptr → List Ptr
erase p [] = []
erase p (q ∷ qs) = if q == p then qs else q ∷ erase p qs

module _ (cell : Ptr → Buffer) (s : BufferState) where
  -- A buffer in another state is not on the list.
  pub NotIn-of_state :
      (p : Ptr) (qs : List Ptr) → (cell p).state ≢ s → OnList cell s qs → NotIn p qs
  NotIn-of_state p [] ne all = tt
  NotIn-of_state p (q ∷ qs) ne all = (λ e. ne (ground arith), NotIn-of_state p qs ne all.4)

  pub state_of_contains :
      (p : Ptr) (qs : List Ptr)
      → OnList cell s qs
      → contains p qs ≡ true
      → ((cell p).state ≡ s) × (0 < p) × (p + sizeof_buffer ≤ 65536)
  state_of_contains p [] all h = cc
  state_of_contains p (q ∷ qs) all h = ground (arith, state_of_contains p qs)

  pub NotIn-erase : (p q : Ptr) (qs : List Ptr) → NotIn p qs → NotIn p (erase q qs)
  NotIn-erase p q [] out = tt
  NotIn-erase p q (r ∷ qs) out = ground (arith, NotIn-erase p q qs)

-- A write to a buffer that is not on a list leaves the list alone.
module _ (cell : Ptr → Buffer) (p : Ptr) (b : Buffer) where
  pub Chain-update :
      (h : Ptr) (qs : List Ptr) → NotIn p qs → Chain cell h qs → Chain (update cell p b) h qs
  Chain-update h [] out c = c
  Chain-update h (q ∷ qs) out c =
      let same : update cell p b q ≡ cell q = ground arith in
      (c.0, c.1, rw same (Chain-update (cell q).next qs out.1 c.2))

  pub OnList-update :
      (s : BufferState) (qs : List Ptr)
      → NotIn p qs
      → OnList cell s qs
      → OnList (update cell p b) s qs
  OnList-update s [] out all = tt
  OnList-update s (q ∷ qs) out all =
      (ground arith, all.1, all.2, all.3, OnList-update s qs out.1 all.4)

  -- A write that keeps the state keeps the list.
  pub OnList-same :
      (s : BufferState) (qs : List Ptr)
      → b.state ≡ s
      → OnList cell s qs
      → OnList (update cell p b) s qs
  OnList-same s [] e all = tt
  OnList-same s (q ∷ qs) e all = (ground arith, all.1, all.2, all.3, OnList-same s qs e all.4)

  pub Chain-same :
      (h : Ptr) (qs : List Ptr)
      → b.next ≡ (cell p).next
      → Chain cell h qs
      → Chain (update cell p b) h qs
  Chain-same h [] e c = c
  Chain-same h (q ∷ qs) e c =
      let same : (update cell p b q).next ≡ (cell q).next = ground arith in
      (c.0, c.1, rw same (Chain-same (cell q).next qs e c.2))

  -- A buffer taken off the list may be written.
  pub OnList-erase :
      (s : BufferState) (qs : List Ptr)
      → contains p qs ≡ true
      → OnList cell s qs
      → OnList (update cell p b) s (erase p qs)
  OnList-erase s [] h all = tt
  OnList-erase s (q ∷ qs) h all = elim (Bool-cases (q == p)) [
    | inl e ↦ rw e (OnList-update s qs (ground arith) all.4)
    | inr e ↦ rw e (
      ground arith,
      all.1,
      all.2,
      NotIn-erase cell s q p qs all.3,
      OnList-erase s qs (ground arith) all.4,
    )
  ]

pub length-erase :
    (p : Ptr) (qs : List Ptr) → contains p qs ≡ true → length (erase p qs) + 1 ≡ length qs
length-erase p [] h = cc
length-erase p (q ∷ qs) h = ground (arith, length-erase p qs)

pub state-head :
    (cell : Ptr → Buffer) (s : BufferState) (h : Ptr) (qs : List Ptr)
    → Chain cell h qs
    → OnList cell s qs
    → h ≢ null
    → (cell h).state ≡ s
state-head cell s h [] c on found = absurd (found c)
state-head cell s h (q ∷ qs) c on found = ground arith
