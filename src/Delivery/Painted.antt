-- ===== src/Delivery/Painted.antt =====
-- The server's screen in the window of src/client/curses.c.
use rmtdos.Base.{
  ℕ, ◌+◌, ◌*◌, ◌<◌, ◌≤◌, ◌≡◌, sym, subst, ◌∙◌, List, [], ◌∷◌, Bool, true, false, arith, ◌==◌, ◌&&◌,
  ltb, inl, inr, Bool-cases,
}
use rmtdos.Base.Memory.{Bytes}
use rmtdos.Protocol.{Env}
use rmtdos.Display.Window.{Window, Shown, space, session_win_separator, color_cursor}
use rmtdos.Display.Rows.{Presented}

module _ (table : ℕ → List ℕ) (colors : ℕ → ℕ) (env : Env) (screen : Bytes)
    (lines columns : ℕ) where
  -- The cell of the server's cursor.
  abbrev pub under_cursor : ℕ → ℕ → Bool
  under_cursor y x = y == env.video.cursor_row && x == env.video.cursor_col

  -- A character of the server's screen.
  abbrev pub pictured : ℕ → ℕ → Shown
  pictured y x = record {
    text = table (screen (2 * (y * env.video.text_cols + x)));
    pair = colors (screen (2 * (y * env.video.text_cols + x) + 1));
    reversed = false;
  }

  -- The server's screen is in the window down to a row, as far as the window reaches, but for the
  -- character under the cursor. Behind it the rows are empty, below it is a separator, and the cursor is
  -- at its place.
  pub record IsPainted (w : Window) (row : ℕ) : Type 0 where
    pub size : (w.lines ≡ lines) × (w.columns ≡ columns)
    pub shown :
        (y x : ℕ)
        → y < row
        → y < lines
        → x < env.video.text_cols
        → x < columns
        → under_cursor y x ≡ false
        → w.cell y x ≡ pictured y x
    pub margin :
        0 < row
        → (y x : ℕ) → y < env.video.text_rows
        → y < lines
        → env.video.text_cols ≤ x
        → x < columns
        → under_cursor y x ≡ false
        → w.cell y x ≡ space 0
    pub below :
        0 < row
        → (x : ℕ) → env.video.text_rows < lines
        → x < env.video.text_cols
        → x < columns
        → under_cursor env.video.text_rows x ≡ false
        → w.cell env.video.text_rows x ≡ space (colors session_win_separator)
    pub cursor :
        0 < row
        → env.video.cursor_row < lines
        → env.video.cursor_col < columns
        → w.cell env.video.cursor_row env.video.cursor_col
          ≡ record { text = b' ' ∷ []; pair = color_cursor; reversed = true }

  -- A packet's rows behind those that are there.
  pub Presented-IsPainted :
      (w w' : Window) (row n : ℕ)
      → row < env.video.text_rows
      → 0 < n
      → IsPainted w row
      → Presented table colors screen row
          (row + n)
          w
          w'
          env.video.text_rows
          env.video.text_cols
          env.video.cursor_row
          env.video.cursor_col
      → IsPainted w' (row + n)
  Presented-IsPainted w w' row n lt some_rows h p =
      let (tall, wide) = h.size in
      record {
        size = (p.size.0 ∙ tall, p.size.1 ∙ wide);
        shown = λ y x under here left there other. elim (Bool-cases (ltb y row)) [
          | inl above ↦
              let before : y < row = ground arith in
              p.others y x (omega arith) left (inl before) other
              ∙ h.shown y x before here left there other
          | inr new ↦
              p.shown y x (subst (λ m. y < m) (sym tall) here) (subst (λ m. x < m) (sym wide) there)
                left (ground arith) under other
        ];
        margin = λ some y x on here right there other.
            p.margin y x on (subst (λ m. y < m) (sym tall) here) right
              (subst (λ m. x < m) (sym wide) there) other;
        below = λ some x here left there other.
            p.below x (subst (λ m. env.video.text_rows < m) (sym tall) here)
              (subst (λ m. x < m) (sym wide) there) left other;
        cursor = λ some here there.
            p.cursor (subst (λ m. env.video.cursor_row < m) (sym tall) here)
              (subst (λ m. env.video.cursor_col < m) (sym wide) there);
      }
