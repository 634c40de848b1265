-- ===== src/Broadcast/Cover.antt =====
-- The chunks of session_mgr_update_all in src/server/session.c cover the screen.
use rmtdos.Base.{
  ℕ, zero, suc, ◌+◌, ◌-◌, ◌*◌, ◌<◌, ◌≤◌, ◌≡◌, List, [], ◌∷◌, ◌++◌, arith, ltb, if◌then◌else◌, ap,
  Bool-cases, inl, inr, ltb→lt,
}
use native.Mathlib.Nat.{le-div_iff_mul-le, div-mul-le_self, mul-le-mul_right, zero-add}
use rmtdos.Wire.{max_payload_length}
use rmtdos.Protocol.{VideoState}
use rmtdos.Broadcast.{chunk_at, payload_size, rows_per_frame, rows_from}

-- `text_rows` and `text_cols` are bytes, and the screen has columns.
pub record IsText (video : VideoState) : Type 0 where
  pub rows_byte : video.text_rows < 256
  pub cols_byte : video.text_cols < 256
  pub some_cols : 0 < video.text_cols

rows_fit : (c : ℕ) → 0 < c → c < 256 → (2 ≤ rows_per_frame c) × (rows_per_frame c * (c * 2) ≤ 1480)
rows_fit c positive small = (
  (le-div_iff_mul-le {k = c * 2} {x = 2} {y = 1480} (omega arith)).1 (omega arith),
  div-mul-le_self 1480 (c * 2),
)

rows-le : (video : VideoState) (row : ℕ) → rows_from video row ≤ rows_per_frame video.text_cols
rows-le video row = ground arith

-- On a screen with columns, and with fewer than 256 rows and columns, every chunk that begins on
-- the screen has at least one row, ends on the screen, and fits into one packet.
pub chunk_at_lem :
    (video : VideoState) (row : ℕ)
    → IsText video
    → row < video.text_rows
    → (0 < (chunk_at video row).rows)
      × (row + (chunk_at video row).rows ≤ video.text_rows)
      × (payload_size (chunk_at video row) ≤ max_payload_length)
unfolding chunk_at
chunk_at_lem video row t on_screen =
    let fit = rows_fit video.text_cols t.some_cols t.cols_byte in
    let le = rows-le video row in
    let words : rows_from video row * (video.text_cols * 2)
        ≤ rows_per_frame video.text_cols * (video.text_cols * 2) =
      mul-le-mul_right (video.text_cols * 2) le in
    (ground arith, ground arith, omega arith)

abbrev pub interval : ℕ → ℕ → List ℕ
interval i zero = []
interval i (suc n) = i ∷ interval (i + 1) n

interval-append : (i a b : ℕ) → interval i a ++ interval (i + a) b ≡ interval i (a + b)
interval-append i zero b = let e : i + 0 ≡ i = omega arith in rw (e, zero-add)
interval-append i (suc a) b =
    let e : i + suc a ≡ (i + 1) + a = omega arith in
    let e' : suc a + b ≡ suc (a + b) = omega arith in
    rw (e, e') (ap (λ r. i ∷ r) (interval-append (i + 1) a b))

-- The rows that the chunks from `row` on carry, one tick after the other, as long as the next row is on
-- the screen.
pub rows_sent : VideoState → ℕ → ℕ → List ℕ
rows_sent video zero row = []
rows_sent video (suc ticks) row =
    let c = chunk_at video row in
    let rest = rows_sent video ticks (row + c.rows) in
    if ltb row video.text_rows then interval row c.rows ++ rest else []

-- On a screen with columns, and with fewer than 256 rows and columns, in at least as many ticks as
-- rows are left the chunks from a row on carry each row down to the last exactly once, in order.
pub rows_sent_cover :
    (video : VideoState) (ticks row : ℕ)
    → IsText video
    → row ≤ video.text_rows
    → video.text_rows ≤ row + ticks
    → rows_sent video ticks row ≡ interval row (video.text_rows - row)
unfolding rows_sent
rows_sent_cover video zero row t le enough = let e : video.text_rows - row ≡ 0 = omega arith in rw e
rows_sent_cover video (suc ticks) row t le enough = elim (Bool-cases (ltb row video.text_rows)) [
  | inr done ↦ let e : video.text_rows - row ≡ 0 = ground arith in rw (done, e)
  | inl more ↦
      let c = chunk_at video row in
      let (some_row, inside, _) = chunk_at_lem video row t (ltb→lt _ _ more) in
      let e : video.text_rows - row ≡ c.rows + (video.text_rows - (row + c.rows)) = omega arith in
      rw (more, rows_sent_cover video ticks (row + c.rows) t inside (omega arith), e)
        (interval-append row c.rows (video.text_rows - (row + c.rows)))
]
