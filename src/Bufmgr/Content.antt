-- ===== src/Bufmgr/Content.antt =====
-- What a buffer of src/server/bufmgr.c holds on its way to the ready list, and when it is given back.
use rmtdos.Base.{
  Bool-cases, inl, inr, ℕ, ◌+◌, ◌≤◌, ◌<◌, ◌≡◌, refl, arith, ltb, ◌==◌, false, ◌||◌, List, [], ◌∷◌,
  ◌≢◌, ◌∙◌,
}
use rmtdos.Base.Memory.{Bytes}
use rmtdos.Bufmgr.{
  Ptr, null, Buffer, Bufmgr, buffer_get_ready, data_of, buffer_of, update, buffer_max_size,
  sizeof_buffer, buffer_acquire, buffer_mark_ready, buffer_release, driver_write,
}
use rmtdos.Bufmgr.Chain.{NotIn}

module _ (m : Bufmgr) (p : Ptr) (packet : Bytes) (bytes : ℕ) where
  abbrev pub received : Bufmgr
  received = buffer_mark_ready (driver_write (buffer_acquire m bytes).0 p packet) (data_of p)

  pub received_content :
      m.free_list ≡ p
      → 0 < p
      → p + sizeof_buffer ≤ 65536
      → bytes ≤ buffer_max_size
      → ((received.cell p).bytes ≡ bytes) × ((received.cell p).data_area ≡ packet)
  unfolding buffer_acquire buffer_mark_ready driver_write
  received_content head positive inside fits =
      let back : buffer_of (data_of p) ≡ p = omega arith in
      let found : (m.free_list == null || ltb buffer_max_size bytes) ≡ false = ground arith in
      rw (found, back, head) (ground arith, ground arith)

-- The length and the bytes of the packets in some buffers.
abbrev pub contents : (Ptr → Buffer) → List Ptr → List (ℕ × Bytes)
contents cell [] = []
contents cell (p ∷ ps) = ((cell p).bytes, (cell p).data_area) ∷ contents cell ps

contents-update :
    (cell : Ptr → Buffer) (p : Ptr) (b : Buffer) (qs : List Ptr)
    → NotIn p qs
    → contents (update cell p b) qs ≡ contents cell qs
contents-update cell p b [] out = refl
contents-update cell p b (q ∷ qs) out =
    let same : update cell p b q ≡ cell q = ground arith in
    rw (same, contents-update cell p b qs out.1)

-- Handing a buffer to the driver, and marking one as ready, touch no other packet that waits.
pub acquire_keeps :
    (m : Bufmgr) (bytes : ℕ) (qs : List Ptr)
    → NotIn m.free_list qs
    → contents (buffer_acquire m bytes).0.cell qs ≡ contents m.cell qs
unfolding buffer_acquire
acquire_keeps m bytes qs out =
    elim (Bool-cases (m.free_list == null || ltb buffer_max_size bytes)) [
      | inl refused ↦ rw refused refl
      | inr taken ↦ rw taken (contents-update m.cell m.free_list _ qs out)
    ]

pub marked_content :
    (m : Bufmgr) (p : Ptr) (packet : Bytes) (qs : List Ptr)
    → 0 < p
    → p + sizeof_buffer ≤ 65536
    → NotIn p qs
    → let m' = buffer_mark_ready (driver_write m p packet) (data_of p) in
      ((m'.cell p).data_area ≡ packet) × (contents m'.cell qs ≡ contents m.cell qs)
unfolding buffer_mark_ready driver_write
marked_content m p packet qs positive inside out =
    let back : buffer_of (data_of p) ≡ p = omega arith in
    rw back (ground arith, contents-update _ p _ qs out ∙ contents-update m.cell p _ qs out)

-- A packet's way into the ready list does not touch the packets that wait there.
pub received_keeps :
    (m : Bufmgr) (p : Ptr) (packet : Bytes) (bytes : ℕ) (qs : List Ptr)
    → m.free_list ≡ p
    → 0 < p
    → p + sizeof_buffer ≤ 65536
    → bytes ≤ buffer_max_size
    → NotIn p qs
    → contents (received m p packet bytes).cell qs ≡ contents m.cell qs
unfolding buffer_acquire buffer_mark_ready driver_write
received_keeps m p packet bytes qs head positive inside fits out =
    let back : buffer_of (data_of p) ≡ p = omega arith in
    let found : (m.free_list == null || ltb buffer_max_size bytes) ≡ false = ground arith in
    rw (found, back, head)
      (contents-update _ p _ qs out
        ∙ (contents-update _ p _ qs out ∙ contents-update m.cell p _ qs out))

module _ (m : Bufmgr) (found : m.ready_list ≢ null) where
  -- Handing out a ready buffer does not touch its packet.
  pub get_ready_content :
      (((buffer_get_ready m).0.cell m.ready_list).bytes ≡ (m.cell m.ready_list).bytes)
      × (((buffer_get_ready m).0.cell m.ready_list).data_area ≡ (m.cell m.ready_list).data_area)
  unfolding buffer_get_ready
  get_ready_content =
      let test : (m.ready_list == null) ≡ false = ground arith in
      rw test (ground arith, ground arith)

  -- Nor the packets that still wait.
  pub get_ready_keeps :
      (rs : List Ptr)
      → NotIn m.ready_list rs
      → contents (buffer_get_ready m).0.cell rs ≡ contents m.cell rs
  unfolding buffer_get_ready
  get_ready_keeps rs out =
      let test : (m.ready_list == null) ≡ false = ground arith in
      rw test (contents-update m.cell m.ready_list _ rs out)

  -- Nor does a round of the server's loop touch the packets that still wait.
  pub contents_after_round :
      (rs : List Ptr)
      → NotIn m.ready_list rs
      → contents (buffer_release (buffer_get_ready m).0 m.ready_list).cell rs ≡ contents m.cell rs
  unfolding buffer_get_ready buffer_release
  contents_after_round rs out =
      let test : (m.ready_list == null) ≡ false = ground arith in
      rw test
        (contents-update _ m.ready_list _ rs out ∙ contents-update m.cell m.ready_list _ rs out)

-- Giving a buffer back touches no packet that waits.
pub release_keeps :
    (m : Bufmgr) (p : Ptr) (rs : List Ptr)
    → NotIn p rs
    → contents (buffer_release m p).cell rs ≡ contents m.cell rs
unfolding buffer_release
release_keeps m p rs out = contents-update m.cell p _ rs out
