-- ===== src/Display/Rest.antt =====
-- update_session_window of src/client/curses.c: what it shows beside the bytes of the packet, which are
-- the margin, the line below the screen, and the cursor.
use rmtdos.Base.{
  ℕ, zero, suc, ◌+◌, ◌<◌, ◌≤◌, ◌≡◌, ◌⊎◌, inl, inr, refl, ◌∙◌, ◌==◌, ltb, ◌&&◌, ◌||◌, true, false,
  arith, Bool-cases, Bool, [], ◌∷◌,
}
use rmtdos.Hostlist.{RemoteHost}
use rmtdos.Display.Window.{
  Window, has_place, space, write_cell, print_spaces, session_win_separator, color_cursor,
  clear_rows, separate, show_cursor,
}

-- A window of the same size.
abbrev pub SameSize : Window → Window → Type 0
SameSize w w' = (w'.lines ≡ w.lines) × (w'.columns ≡ w.columns)

module _ (pair : ℕ) where
  print_spaces-size : (n y x : ℕ) (w : Window) → SameSize w (print_spaces n pair y x w)
  unfolding print_spaces
  print_spaces-size zero y x w = (refl, refl)
  print_spaces-size (suc n) y x w =
      let in_line = ltb (x + 1) w.columns in
      elim (Bool-cases (in_line || ltb (y + 1) w.lines)) [
        | inl more ↦ rw more (print_spaces-size n _ _ (write_cell w y x (space pair)))
        | inr full ↦ rw full (refl, refl)
      ]

  -- What stands before the place is kept.
  print_spaces-before :
      (n y x : ℕ) (w : Window) (y' x' : ℕ)
      → (y' < y) ⊎ ((y' ≡ y) × (x' < x))
      → (print_spaces n pair y x w).cell y' x' ≡ w.cell y' x'
  unfolding print_spaces
  print_spaces-before zero y x w y' x' before = refl
  print_spaces-before (suc n) y x w y' x' before =
      let w1 = write_cell w y x (space pair) in
      let same : w1.cell y' x' ≡ w.cell y' x' = ground arith in
      elim (Bool-cases (ltb (x + 1) w.columns)) [
        | inl in_line ↦ rw in_line (print_spaces-before n y (x + 1) w1 y' x' (ground arith) ∙ same)
        | inr full_line ↦ elim (Bool-cases (ltb (y + 1) w.lines)) [
          | inl next_line ↦
              rw (full_line, next_line)
                (print_spaces-before n (y + 1) 0 w1 y' x' (inl (ground arith)) ∙ same)
          | inr full ↦ rw (full_line, full) same
        ]
      ]

  print_spaces-line :
      (n y x : ℕ) (w : Window) (x' : ℕ)
      → y < w.lines
      → x' < w.columns
      → x ≤ x'
      → x' < x + n
      → (print_spaces n pair y x w).cell y x' ≡ space pair
  unfolding print_spaces
  print_spaces-line zero y x w x' here there low high = absurd (omega arith)
  print_spaces-line (suc n) y x w x' here there low high =
      let w1 = write_cell w y x (space pair) in
      elim (Bool-cases (x' == x)) [
        | inl first ↦
            (let at : w1.cell y x' ≡ space pair = ground arith in
              elim (Bool-cases (ltb (x + 1) w.columns)) [
                | inl in_line ↦
                    rw in_line (print_spaces-before n y (x + 1) w1 y x' (inr (ground arith)) ∙ at)
                | inr full_line ↦ elim (Bool-cases (ltb (y + 1) w.lines)) [
                  | inl next_line ↦
                      rw (full_line, next_line)
                        (print_spaces-before n (y + 1) 0 w1 y x' (inl (omega arith)) ∙ at)
                  | inr full ↦ rw (full_line, full) at
                ]
              ])
        | inr later ↦
            let in_line : ltb (x + 1) w.columns ≡ true = ground arith in
            rw in_line (print_spaces-line n y (x + 1) w1 x' here there (ground arith) (omega arith))
      ]

module _ (rh : RemoteHost) where
  clear_rows-size : (rows : ℕ) (w : Window) → SameSize w (clear_rows rh rows w)
  unfolding clear_rows
  clear_rows-size zero w = (refl, refl)
  clear_rows-size (suc rows) w = clear_rows-size rows w

  clear_rows-kept :
      (rows : ℕ) (w : Window) (y x : ℕ)
      → (rows ≤ y) ⊎ (x < rh.text_cols)
      → (clear_rows rh rows w).cell y x ≡ w.cell y x
  unfolding clear_rows
  clear_rows-kept zero w y x away = refl
  clear_rows-kept (suc rows) w y x (inl below) =
      ground (arith, clear_rows-kept rows w y x (inl (omega arith)))
  clear_rows-kept (suc rows) w y x (inr left) =
      ground (arith, clear_rows-kept rows w y x (inr left))

  clear_rows-margin :
      (rows : ℕ) (w : Window) (y x : ℕ)
      → y < rows
      → y < w.lines
      → rh.text_cols ≤ x
      → x < w.columns
      → (clear_rows rh rows w).cell y x ≡ space 0
  unfolding clear_rows
  clear_rows-margin zero w y x above here right there = absurd (omega arith)
  clear_rows-margin (suc rows) w y x above here right there =
      let (same_lines, same_columns) = clear_rows-size rows w in
      elim (Bool-cases (y == rows)) [
        | inl last ↦ ground (arith, same_lines, same_columns)
        | inr before ↦ ground (arith, clear_rows-margin rows w y x (ground arith) here right there)
      ]

  -- Whether the cursor is shown at that cell.
  abbrev pub cursor_at : ℕ → ℕ → Bool
  cursor_at y x = y == rh.status.cursor_row && x == rh.status.cursor_col

  module _ (colors : ℕ → ℕ) where
    separate-size : (w : Window) → SameSize w (separate colors rh w)
    unfolding separate
    separate-size w = elim (Bool-cases (has_place w rh.text_rows 0)) [
      | inl fits ↦ rw fits (print_spaces-size _ _ rh.text_rows 0 w)
      | inr none ↦ rw none (refl, refl)
    ]

    separate-above :
        (w : Window) (y x : ℕ) → y < rh.text_rows → (separate colors rh w).cell y x ≡ w.cell y x
    unfolding separate
    separate-above w y x above = elim (Bool-cases (has_place w rh.text_rows 0)) [
      | inl fits ↦ rw fits (print_spaces-before _ _ rh.text_rows 0 w y x (inl above))
      | inr none ↦ rw none refl
    ]

    separate-line :
        (w : Window) (x : ℕ)
        → rh.text_rows < w.lines
        → x < w.columns
        → x < rh.text_cols
        → (separate colors rh w).cell rh.text_rows x ≡ space (colors session_win_separator)
    unfolding separate
    separate-line w x here there left =
        let fits : has_place w rh.text_rows 0 ≡ true = ground arith in
        let wide : (rh.text_cols == 0) ≡ false = ground arith in
        rw (fits, wide)
          (print_spaces-line (colors session_win_separator) rh.text_cols rh.text_rows 0 w x here
            there (omega arith) (omega arith))

-- What update_session_window shows once the packet is drawn in `w`: the screen's cells as they are
-- there, an empty margin, a line of separators below the screen, and in place of what is under it the
-- cursor.
pub record Framed (colors : ℕ → ℕ) (rh : RemoteHost) (w w' : Window) : Type 0 where
  pub size : SameSize w w'
  pub screen :
      (y x : ℕ)
      → y < rh.text_rows
      → x < rh.text_cols
      → cursor_at rh y x ≡ false
      → w'.cell y x ≡ w.cell y x
  pub margin :
      (y x : ℕ)
      → y < rh.text_rows
      → y < w.lines
      → rh.text_cols ≤ x
      → x < w.columns
      → cursor_at rh y x ≡ false
      → w'.cell y x ≡ space 0
  pub below :
      (x : ℕ)
      → rh.text_rows < w.lines
      → x < w.columns
      → x < rh.text_cols
      → cursor_at rh rh.text_rows x ≡ false
      → w'.cell rh.text_rows x ≡ space (colors session_win_separator)
  pub cursor :
      rh.status.cursor_row < w.lines
      → rh.status.cursor_col < w.columns
      → w'.cell rh.status.cursor_row rh.status.cursor_col
        ≡ record { text = b' ' ∷ []; pair = color_cursor; reversed = true }

not_cursor :
    (rh : RemoteHost) (w : Window) (y x : ℕ)
    → cursor_at rh y x ≡ false
    → (show_cursor rh w).cell y x ≡ w.cell y x
not_cursor rh w y x other = rw other (ground arith)

pub rest-Framed :
    (colors : ℕ → ℕ) (rh : RemoteHost) (w : Window)
    → Framed colors rh w (show_cursor rh (separate colors rh (clear_rows rh rh.text_rows w)))
rest-Framed colors rh w =
    let w1 = clear_rows rh rh.text_rows w in
    let w2 = separate colors rh w1 in
    let (lines1, columns1) = clear_rows-size rh rh.text_rows w in
    let (lines2, columns2) = separate-size rh colors w1 in
    record {
      size = (lines2 ∙ lines1, columns2 ∙ columns1);
      screen = λ y x above left other.
          not_cursor rh w2 y x other
          ∙ separate-above rh colors w1 y x above
          ∙ clear_rows-kept rh rh.text_rows w y x (inr left);
      margin = λ y x above here right there other.
          not_cursor rh w2 y x other
          ∙ separate-above rh colors w1 y x above
          ∙ clear_rows-margin rh rh.text_rows w y x above here right there;
      below = λ x here there left other.
          not_cursor rh w2 rh.text_rows x other
          ∙ separate-line rh colors w1 x (omega (arith, lines1)) (omega (arith, columns1)) left;
      cursor = λ here there.
          let row : ltb rh.status.cursor_row w2.lines ≡ true = ground (arith, lines1, lines2) in
          let column : ltb rh.status.cursor_col w2.columns ≡ true =
            ground (arith, columns1, columns2) in
          rw (row, column) (ground arith);
    }
