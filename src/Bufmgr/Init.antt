-- ===== src/Bufmgr/Init.antt =====
-- buffer_init of src/server/bufmgr.c: the table that malloc returned becomes one list of free buffers.
use rmtdos.Base.{
  ℕ, ◌+◌, ◌-◌, ◌*◌, ◌%◌, ◌≤◌, ◌<◌, ◌≡◌, refl, List, [], ◌∷◌, arith, ltb, ◌==◌, false, length,
  if◌then◌else◌, inl, inr, Bool-cases, none, some, zero, suc, ap, sym,
}
use rmtdos.Bufmgr.{
  Ptr, null, Bufmgr, Buffer, free, slot, cleared, sizeof_buffer, clear_slots, link_slots,
  buffer_init,
}
use rmtdos.Bufmgr.Chain.{Chain, NotIn, OnList}
use rmtdos.Bufmgr.Invariant.{Holds}

-- &g_buffers[i], and the `n` slots from there on.
abbrev pub slots : Ptr → ℕ → ℕ → List Ptr
slots base i zero = []
slots base i (suc n) = slot base i ∷ slots base (suc i) n

-- The table lies inside the segment.
abbrev pub FitsSegment : Ptr → ℕ → Type 0
FitsSegment base count = (0 < base) × (base + count * sizeof_buffer ≤ 65536)

module _ (base : Ptr) where
  clear_slots-at :
      (n j count : ℕ) (cell : Ptr → Buffer)
      → FitsSegment base count
      → n ≤ count
      → j < n
      → clear_slots n base cell (slot base j) ≡ cleared
  unfolding clear_slots
  clear_slots-at zero j count cell fits le lt = absurd (omega arith)
  clear_slots-at (suc n) j count cell fits le lt =
      ground (arith, clear_slots-at n j count cell fits)

  link_slots-at :
      (n j count : ℕ) (cell : Ptr → Buffer)
      → FitsSegment base count
      → n ≤ count
      → j < count
      → link_slots n base cell (slot base j) ≡ (
          if ltb j n
          then record (cell (slot base j)) { next = slot base (suc j) }
          else cell (slot base j))
  unfolding link_slots
  link_slots-at zero j count cell fits le lt = ground arith
  link_slots-at (suc n) j count cell fits le lt = elim (Bool-cases (j == n)) [
    | inl e ↦ let e' : j ≡ n = ground arith in ground (arith, link_slots-at n n count cell fits)
    | inr e ↦ ground (arith, link_slots-at n j count cell fits)
  ]

module _ (base : Ptr) (count : ℕ) (cell : Ptr → Buffer) (fits : FitsSegment base count)
    (positive : 0 < count) where
  abbrev table : Ptr → Buffer
  table = link_slots ((count + 65536 - 1) % 65536) base (clear_slots count base cell)

  table-at :
      (j : ℕ)
      → j < count
      → table (slot base j)
        ≡ record cleared { next = if ltb j (count - 1) then slot base (suc j) else null }
  table-at j lt =
      let rounds : (count + 65536 - 1) % 65536 ≡ count - 1 = omega arith in
      rw rounds (
        ground (
          arith,
          link_slots-at base (count - 1) j count (clear_slots count base cell) fits,
          clear_slots-at base count j count cell fits,
        ))

  NotIn-slots : (j i n : ℕ) → j < i → i + n ≤ count → NotIn (slot base j) (slots base i n)
  NotIn-slots j i zero lt le = tt
  NotIn-slots j i (suc n) lt le = (omega arith, NotIn-slots j (suc i) n (omega arith) (omega arith))

  OnList-slots : (i n : ℕ) → i + n ≤ count → OnList table free (slots base i n)
  OnList-slots i zero le = tt
  OnList-slots i (suc n) le = (
    rw (table-at i (omega arith)),
    omega arith,
    omega arith,
    NotIn-slots i (suc i) n (omega arith) (omega arith),
    OnList-slots (suc i) n (omega arith),
  )

  Chain-slots : (i n : ℕ) → i + suc n ≡ count → Chain table (slot base i) (slots base i (suc n))
  Chain-slots i zero e = (refl, omega arith, ground (arith, table-at i))
  Chain-slots i (suc n) e =
      let next : (table (slot base i)).next ≡ slot base (suc i) = ground (arith, table-at i) in
      (refl, omega arith, rw next (Chain-slots (suc i) n (omega arith)))

  length-slots : (i n : ℕ) → length (slots base i n) ≡ n
  length-slots i zero = refl
  length-slots i (suc n) = ap suc (length-slots (suc i) n)

  init-table :
      (n : ℕ)
      → suc n ≡ count
      → Holds
          (record {
            buffer_count = count;
            buffers = base;
            free_list = base;
            ready_list = null;
            cell = table;
          })
          (record { free = slots base 0 (suc n); pending = []; ready = []; user = [] })
  init-table n e =
      let first : slot base 0 ≡ base = omega arith in
      record {
        free_chain = (sym first, omega arith, (Chain-slots 0 n (omega arith)).2);
        ready_chain = refl;
        free_on = OnList-slots 0 (suc n) (omega arith);
        pending_on = tt;
        ready_on = tt;
        user_on = tt;
        counted = omega (arith, length-slots 0 (suc n));
      }

-- buffer_init with a table of at least one buffer that lies inside the segment sets up the pool in
-- which every buffer is free, lowest address first; without memory it exits.
pub buffer_init_lem :
    (cell : Ptr → Buffer) (base : Ptr) (count : ℕ)
    → FitsSegment base count
    → 0 < count
    → (m : Bufmgr) × (buffer_init cell base count ≡ some m)
      × Holds m (record { free = slots base 0 count; pending = []; ready = []; user = [] })
      × (buffer_init cell null count ≡ none)
unfolding buffer_init
buffer_init_lem cell base zero fits positive = absurd (omega arith)
buffer_init_lem cell base (suc n) fits positive =
    let found : (base == null) ≡ false = ground arith in
    (_, rw found, init-table base (suc n) cell fits positive n refl, refl)

pub buffer_init_count :
    (cell : Ptr → Buffer) (allocated : Ptr) (count : ℕ) (m : Bufmgr)
    → buffer_init cell allocated count ≡ some m
    → m.buffer_count ≡ count
unfolding buffer_init
buffer_init_count cell allocated count m h = elim (Bool-cases (allocated == null)) [
  | inl failed ↦ (let clash : none ≡ some m = rw failed at h in cc)
  | inr given ↦
      let made : some (record {
        buffer_count = count;
        buffers = allocated;
        free_list = allocated;
        ready_list = null;
        cell =
            link_slots ((count + 65536 - 1) % 65536) allocated (clear_slots count allocated cell);
      })
          ≡ some m =
        rw given at h in
      let same : record {
        buffer_count = count;
        buffers = allocated;
        free_list = allocated;
        ready_list = null;
        cell =
            link_slots ((count + 65536 - 1) % 65536) allocated (clear_slots count allocated cell);
      }
          ≡ m =
        cc made in
      ap (λ (x : Bufmgr). x.buffer_count) (sym same)
]
