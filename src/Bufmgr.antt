-- ===== src/Bufmgr.antt =====
-- src/server/bufmgr.c and bufmgr.h: the static table of receive buffers, with its list of free
-- buffers and its list of ready ones, both linked through `next`.
-- Pointers are 16-bit offsets in the one segment of the program, and 0 is NULL.
pub mod Chain
pub mod Pool
pub mod Invariant
pub mod Take
pub mod Refine
pub mod Init
pub mod Run
pub mod Content
use rmtdos.Base.{
  ℕ, zero, suc, ◌+◌, ◌-◌, ◌*◌, ◌%◌, ◌≤◌, ◌<◌, ◌≡◌, refl, Bool, true, false, ◌||◌, Option, none,
  some, ltb, leb, ◌==◌, if◌then◌else◌,
}
use rmtdos.Base.Memory.{Bytes, zeros, memset}

abbrev pub Ptr : Type 0
Ptr = ℕ

abbrev pub null : Ptr
null = 0

-- BUFFER_MAX_SIZE
abbrev pub buffer_max_size : ℕ
buffer_max_size = 1504

-- `enum BufferState`
pub data BufferState : Type 0 where
  free pending ready user : BufferState

-- `struct Buffer`
pub record Buffer : Type 0 where
  pub state : BufferState
  pub bytes : ℕ
  pub next : Ptr
  pub data_area : Bytes

-- offsetof(struct Buffer, data): the three fields before it take two bytes each.
abbrev pub offset_data : ℕ
offset_data = 6

-- sizeof(struct Buffer)
abbrev pub sizeof_buffer : ℕ
sizeof_buffer = 1510

-- The file's static variables, and the memory that its pointers lead to.
pub record Bufmgr : Type 0 where
  pub buffer_count : ℕ
  pub buffers : Ptr
  pub free_list : Ptr
  pub ready_list : Ptr
  pub cell : Ptr → Buffer

abbrev pub update : (Ptr → Buffer) → Ptr → Buffer → Ptr → Buffer
update cell p b q = if q == p then b else cell q

-- &g_buffers[i]
abbrev pub slot : Ptr → ℕ → Ptr
slot base i = (base + i * sizeof_buffer) % 65536

-- node->data, and the way back that buffer_mark_ready takes.
abbrev pub data_of : Ptr → Ptr
data_of node = (node + offset_data) % 65536

abbrev pub buffer_of : Ptr → Ptr
buffer_of at = (at + 65536 - offset_data) % 65536

abbrev pub cleared : Buffer
cleared = record { state = free; bytes = 0; next = null; data_area = zeros }

-- memset(g_buffers, 0, sizeof(struct Buffer) * count)
clear_slots : ℕ → Ptr → (Ptr → Buffer) → Ptr → Buffer
clear_slots zero base cell = cell
clear_slots (suc n) base cell = update (clear_slots n base cell) (slot base n) cleared

-- for (i = 0; i < rounds; i++) g_buffers[i].next = g_buffers + i + 1
link_slots : ℕ → Ptr → (Ptr → Buffer) → Ptr → Buffer
link_slots zero base cell = cell
link_slots (suc n) base cell =
    let linked = link_slots n base cell in
    update linked (slot base n) (record (linked (slot base n)) { next = slot base (suc n) })

-- `allocated` is what malloc returned; `none` is the exit. The bound `g_buffer_count - 1` of the
-- loop is a `size_t`.
unfoldable pub buffer_init : (Ptr → Buffer) → (allocated : Ptr) → ℕ → Option Bufmgr
unfolding clear_slots link_slots
buffer_init cell allocated count =
    if allocated == null
    then none
    else some (record {
      buffer_count = count;
      buffers = allocated;
      free_list = allocated;
      ready_list = null;
      cell = link_slots ((count + 65536 - 1) % 65536) allocated (clear_slots count allocated cell);
    })

unfoldable pub buffer_acquire : Bufmgr → ℕ → Bufmgr × Ptr
buffer_acquire m bytes = if m.free_list == null || ltb buffer_max_size bytes then (m, null) else (
  record m {
    free_list = (m.cell m.free_list).next;
    cell =
        update m.cell m.free_list
          (record (m.cell m.free_list) { bytes = bytes; state = pending; next = null });
  },
  data_of m.free_list,
)

-- Called with the pointer to the data, once the packet driver has filled it.
unfoldable pub buffer_mark_ready : Bufmgr → Ptr → Bufmgr
buffer_mark_ready m at =
    let buf = buffer_of at in
    record m {
      ready_list = buf;
      cell = update m.cell buf (record (m.cell buf) { state = ready; next = m.ready_list });
    }

unfoldable pub buffer_get_ready : Bufmgr → Bufmgr × Ptr
buffer_get_ready m = if m.ready_list == null then (m, null) else (
  record m {
    ready_list = (m.cell m.ready_list).next;
    cell = update m.cell m.ready_list (record (m.cell m.ready_list) { state = user; next = null });
  },
  m.ready_list,
)

pub buffer_release : Bufmgr → Ptr → Bufmgr
buffer_release m buffer = record m {
  free_list = buffer;
  cell = update m.cell buffer (record (m.cell buffer) {
    data_area = memset (m.cell buffer).data_area 0 0 buffer_max_size;
    state = free;
    bytes = 0;
    next = m.free_list;
  });
}

-- What the packet driver does with a buffer that it holds: it copies the packet into it.
unfoldable pub driver_write : Bufmgr → Ptr → Bytes → Bufmgr
driver_write m buffer packet = record m {
  cell = update m.cell buffer (record (m.cell buffer) { data_area = packet });
}
