-- ===== src/Display/Rows.antt =====
-- update_session_window of src/client/curses.c for whole rows of a screen.
use rmtdos.Base.{
  ℕ, ◌+◌, ◌*◌, ◌<◌, ◌≤◌, ◌≡◌, refl, sym, ◌∙◌, some, arith, subst, List, [], ◌∷◌, ◌⊎◌, inl, inr,
  ◌==◌, ◌&&◌, true, false,
}
use native.Mathlib.Nat.{mul-le-mul_right, add-mul}
use rmtdos.Base.Memory.{Bytes}
use rmtdos.Hostlist.{RemoteHost}
use rmtdos.Display.Window.{
  Window, space, session_win_separator, color_cursor, update_session_window,
}
use rmtdos.Display.Cells.{character, Drawn, draw_from-Drawn}
use rmtdos.Display.Rest.{SameSize, Framed, rest-Framed}

-- A cell of some rows lies in their part of the buffer.
cell_inside :
    (cols row rows y x : ℕ)
    → x < cols
    → row ≤ y
    → y < row + rows
    → (row * cols ≤ y * cols + x) × (y * cols + x < row * cols + rows * cols)
cell_inside cols row rows y x lt low high =
    let from : row * cols ≤ y * cols = mul-le-mul_right cols low in
    let below : (y + 1) * cols ≤ (row + rows) * cols =
      mul-le-mul_right cols (omega (arith, high)) in
    (omega (arith, from), omega (arith, below, add-mul row rows cols, add-mul y 1 cols))

character_same :
    (table : ℕ → List ℕ) (colors : ℕ → ℕ) (rh : RemoteHost) (frame : Bytes) (m : ℕ)
    → rh.video_text_buffer (2 * m) ≡ frame (2 * m)
    → rh.video_text_buffer (2 * m + 1) ≡ frame (2 * m + 1)
    → character table colors rh m
      ≡ record { text = table (frame (2 * m)); pair = colors (frame (2 * m + 1)); reversed = false }
character_same table colors rh frame m ch attr = rw (ch, attr) refl

-- Rows that are not a packet's lie before or behind its characters.
row_away :
    (cols row rows y x : ℕ)
    → x < cols
    → (y < row) ⊎ (row + rows ≤ y)
    → (y * cols + x < row * cols) ⊎ (row * cols + rows * cols ≤ y * cols + x)
row_away cols row rows y x lt (inl above) =
    let le : (y + 1) * cols ≤ row * cols = mul-le-mul_right cols (omega (arith, above)) in
    inl (omega (arith, le, add-mul y 1 cols))
row_away cols row rows y x lt (inr below) =
    let le : (row + rows) * cols ≤ y * cols = mul-le-mul_right cols below in
    inr (omega (arith, le, add-mul row rows cols))

-- The window after a packet of the rows from `row` to `stop`, of a screen of that size and with its
-- cursor at that place. What lies under the cursor is not shown.
pub record Presented (table : ℕ → List ℕ) (colors : ℕ → ℕ) (frame : Bytes) (row stop : ℕ)
    (w w' : Window) (rows cols cursor_row cursor_col : ℕ) : Type 0 where
  pub size : SameSize w w'
  pub shown :
      (y x : ℕ)
      → y < w.lines
      → x < w.columns
      → x < cols
      → row ≤ y
      → y < stop
      → (y == cursor_row && x == cursor_col) ≡ false
      → w'.cell y x ≡ record {
        text = table (frame (2 * (y * cols + x)));
        pair = colors (frame (2 * (y * cols + x) + 1));
        reversed = false;
      }
  pub others :
      (y x : ℕ)
      → y < rows
      → x < cols
      → (y < row) ⊎ (stop ≤ y)
      → (y == cursor_row && x == cursor_col) ≡ false
      → w'.cell y x ≡ w.cell y x
  pub margin :
      (y x : ℕ)
      → y < rows
      → y < w.lines
      → cols ≤ x
      → x < w.columns
      → (y == cursor_row && x == cursor_col) ≡ false
      → w'.cell y x ≡ space 0
  pub below :
      (x : ℕ)
      → rows < w.lines
      → x < w.columns
      → x < cols
      → (rows == cursor_row && x == cursor_col) ≡ false
      → w'.cell rows x ≡ space (colors session_win_separator)
  pub cursor :
      cursor_row < w.lines
      → cursor_col < w.columns
      → w'.cell cursor_row cursor_col
        ≡ record { text = b' ' ∷ []; pair = color_cursor; reversed = true }

module _ (table : ℕ → List ℕ) (colors : ℕ → ℕ) (frame : Bytes) (rh : RemoteHost) where
  -- The loop over a packet's characters, and what follows it.
  Drawn-Presented :
      (row n : ℕ) (w w1 w' : Window)
      → row + n ≤ rh.text_rows
      → Drawn table colors rh w w1 (row * rh.text_cols) (row * rh.text_cols + n * rh.text_cols)
      → Framed colors rh w1 w'
      → ((at : ℕ)
          → 2 * (row * rh.text_cols) ≤ at
          → at < 2 * (row * rh.text_cols + n * rh.text_cols)
          → rh.video_text_buffer at ≡ frame at)
      → Presented table colors frame row
          (row + n)
          w
          w'
          rh.text_rows
          rh.text_cols
          rh.status.cursor_row
          rh.status.cursor_col
  Drawn-Presented row n w w1 w' inside d f bytes = record {
    size = (f.size.0 ∙ d.size.0, f.size.1 ∙ d.size.1);
    shown = λ y x here there lt low high other.
        let (above, behind) = cell_inside rh.text_cols row n y x lt low high in
        let m = y * rh.text_cols + x in
        f.screen y x (omega arith) lt other
        ∙ d.inside y x here there lt above behind
        ∙ character_same table colors rh frame m
            (bytes (2 * m) (omega (arith, above)) (omega (arith, behind)))
            (bytes (2 * m + 1) (omega (arith, above)) (omega (arith, behind)));
    others = λ y x on lt away other.
        f.screen y x on lt other ∙ d.outside y x lt (row_away rh.text_cols row n y x lt away);
    margin = λ y x on here right there other.
        f.margin y x on (subst (λ m. y < m) (sym d.size.0) here) right
          (subst (λ m. x < m) (sym d.size.1) there) other;
    below = λ x here there lt other.
        f.below x (subst (λ m. rh.text_rows < m) (sym d.size.0) here)
          (subst (λ m. x < m) (sym d.size.1) there) lt other;
    cursor = λ here there.
        f.cursor (subst (λ m. rh.status.cursor_row < m) (sym d.size.0) here)
          (subst (λ m. rh.status.cursor_col < m) (sym d.size.1) there);
  }

  -- update_session_window for `n` whole rows of a screen of that size and with its cursor at that
  -- place.
  abbrev pub Updates : (row n fuel : ℕ) → Window → (rows cols cursor_row cursor_col : ℕ) → Type 0
  Updates row n fuel w rows cols cursor_row cursor_col =
      0 < cols
      → n * cols < fuel
      → row + n ≤ rows
      → 2 * (row * cols + n * cols) ≤ 32768
      → ((at : ℕ)
          → 2 * (row * cols) ≤ at
          → at < 2 * (row * cols + n * cols)
          → rh.video_text_buffer at ≡ frame at)
      → (w' : Window) × (update_session_window table colors rh fuel (2 * (row * cols))
            (2 * (n * cols)) w
          ≡ some w')
        × Presented table colors frame row (row + n) w w' rows cols cursor_row cursor_col

  update-Presented :
      (row n fuel : ℕ) (w : Window)
      → Updates row n fuel w rh.text_rows rh.text_cols rh.status.cursor_row rh.status.cursor_col
  unfolding update_session_window
  update-Presented row n fuel w some_cols enough inside fits bytes =
      let (w1, drawn, d) =
        draw_from-Drawn table colors rh (n * rh.text_cols) fuel (row * rh.text_cols) w some_cols
          enough fits in
      let stop : 2 * (row * rh.text_cols) + 2 * (n * rh.text_cols)
          ≡ 2 * (row * rh.text_cols + n * rh.text_cols) =
        omega arith in
      (
        _,
        rw (stop, update_session_window, drawn) refl,
        Drawn-Presented row n w w1 _ inside d (rest-Framed colors rh w1) bytes,
      )

  pub update-Updates :
      (row n fuel : ℕ) (w : Window) (rows cols cursor_row cursor_col : ℕ)
      → rh.text_rows ≡ rows
      → rh.text_cols ≡ cols
      → rh.status.cursor_row ≡ cursor_row
      → rh.status.cursor_col ≡ cursor_col
      → Updates row n fuel w rows cols cursor_row cursor_col
  update-Updates row n fuel w rows cols cursor_row cursor_col tall wide at_row at_col =
      subst (λ a. Updates row n fuel w a cols cursor_row cursor_col) tall
        (subst (λ b. Updates row n fuel w rh.text_rows b cursor_row cursor_col) wide
          (subst (λ c. Updates row n fuel w rh.text_rows rh.text_cols c cursor_col) at_row
            (subst (λ d. Updates row n fuel w rh.text_rows rh.text_cols rh.status.cursor_row d)
              at_col (update-Presented row n fuel w))))
