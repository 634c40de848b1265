-- ===== src/Display/Window.antt =====
-- update_session_window of src/client/curses.c: what the session's window of ncurses holds. mvwaddstr,
-- wmove, wclrtoeol and mvwprintw refuse a place outside the window and change nothing; each character
-- takes one cell.
use rmtdos.Base.{
  ℕ, zero, suc, ◌+◌, ◌/◌, ◌%◌, Option, none, some, List, [], ◌∷◌, ◌==◌, ltb, leb, ◌||◌, ◌&&◌,
  if◌then◌else◌, Bool, true, false,
}
use rmtdos.Hostlist.{RemoteHost}

-- What a cell shows: the character in UTF-8, its pair of colours, and A_REVERSE.
pub record Shown : Type 0 where
  pub text : List ℕ
  pub pair : ℕ
  pub reversed : Bool

abbrev pub space : (pair : ℕ) → Shown
space pair = record { text = b' ' ∷ []; pair = pair; reversed = false }

pub record Window : Type 0 where
  pub lines : ℕ
  pub columns : ℕ
  pub cell : ℕ → ℕ → Shown

-- What wmove tests.
abbrev pub has_place : Window → ℕ → ℕ → Bool
has_place w y x = ltb y w.lines && ltb x w.columns

-- mvwaddstr of one character at (y, x)
abbrev pub write_cell : Window → ℕ → ℕ → Shown → Window
write_cell w y x shown = record w {
  cell = λ y' x'. if has_place w y x && (y' == y && x' == x) then shown else w.cell y' x';
}

-- wclrtoeol after wmove
abbrev pub clear_eol : Window → ℕ → ℕ → Window
clear_eol w y x = record w {
  cell = λ y' x'. if has_place w y x && (y' == y && leb x x') then space 0 else w.cell y' x';
}

-- mvwprintw of `n` spaces from (y, x) on. A full line goes on in the next one, and a full window stops
-- it.
unfoldable pub print_spaces : (n pair y x : ℕ) → Window → Window
print_spaces zero pair y x w = w
print_spaces (suc n) pair y x w =
    let w1 = write_cell w y x (space pair) in
    let in_line = ltb (x + 1) w.columns in
    let next =
      print_spaces n pair (if in_line then y else y + 1) (if in_line then x + 1 else 0) w1 in
    if in_line || ltb (y + 1) w.lines then next else w1

-- COLOR_CURSOR and SESSION_WIN_SEPARATOR
abbrev pub color_cursor : ℕ
color_cursor = 15

abbrev pub session_win_separator : ℕ
session_win_separator = 249

module _ (rh : RemoteHost) where
  -- The margin at the right of the first `rows` rows.
  unfoldable pub clear_rows : (rows : ℕ) → Window → Window
  clear_rows zero w = w
  clear_rows (suc rows) w = clear_eol (clear_rows rows w) rows rh.text_cols

  -- The cursor.
  abbrev pub show_cursor : Window → Window
  show_cursor w =
      write_cell w rh.status.cursor_row rh.status.cursor_col
        (record { text = b' ' ∷ []; pair = color_cursor; reversed = true })

module _ (g_ncurses_colors : ℕ → ℕ) (rh : RemoteHost) where
  -- "%*c" prints one space at least.
  unfoldable pub separate : Window → Window
  separate w =
      let n = if rh.text_cols == 0 then 1 else rh.text_cols in
      if has_place w rh.text_rows 0
      then print_spaces n (g_ncurses_colors session_win_separator) rh.text_rows 0 w
      else w

module _ (g_cp437_table : ℕ → List ℕ) (g_ncurses_colors : ℕ → ℕ) (rh : RemoteHost) where
  -- The character at that place of the buffer.
  abbrev pub shown_at : ℕ → Shown
  shown_at i = record {
    text = g_cp437_table (rh.video_text_buffer i);
    pair = g_ncurses_colors (rh.video_text_buffer (i + 1));
    reversed = false;
  }

  -- The loop over a `uint16_t`, on fuel; a division by zero columns is `none` as well.
  unfoldable pub draw_from : (fuel i stop : ℕ) → Window → Option Window
  draw_from zero i stop w = none
  draw_from (suc fuel) i stop w =
      let y = i / 2 / rh.text_cols in
      let x = i / 2 % rh.text_cols in
      let rest = draw_from fuel ((i + 2) % 65536) stop (write_cell w y x (shown_at i)) in
      if ltb i stop then if rh.text_cols == 0 then none else rest else some w

  unfoldable pub update_session_window : (fuel video_offset byte_count : ℕ) → Window → Option Window
  unfolding draw_from separate clear_rows
  update_session_window fuel video_offset byte_count w =
      elim (draw_from fuel video_offset (video_offset + byte_count) w) [
        | none ↦ none
        | some w1 ↦
            some (show_cursor rh (separate g_ncurses_colors rh (clear_rows rh rh.text_rows w1)))
      ]
