-- ===== src/Display.antt =====
-- src/client/curses.c: the cells and colours in which the client shows the screen of its server. What a
-- window holds is a function from its cells; ncurses, and the conversion of the characters by iconv,
-- are the system's.
pub mod Window
pub mod Cells
pub mod Rest
pub mod Rows
pub mod Packet
pub mod Colours
pub mod Characters
use rmtdos.Base.{
  ℕ, zero, suc, ◌+◌, ◌*◌, ◌/◌, ◌%◌, Option, none, some, List, [], ◌∷◌, ◌==◌, ltb, leb, ◌||◌, ◌&&◌,
  not, if◌then◌else◌, get_elem?, Bool,
}
use rmtdos.Hostlist.{RemoteHost}

-- color_bit_swap, with the numbers that ncurses gives to COLOR_BLACK, COLOR_BLUE, COLOR_GREEN,
-- COLOR_CYAN, COLOR_RED, COLOR_MAGENTA, COLOR_YELLOW and COLOR_WHITE.
abbrev pub color_bit_swap : List ℕ
color_bit_swap = 0 ∷ 4 ∷ 2 ∷ 6 ∷ 1 ∷ 5 ∷ 3 ∷ 7 ∷ []

-- An entry of that table of eight, at an index below eight.
abbrev pub swapped : ℕ → ℕ
swapped index = elim (get_elem? color_bit_swap index) [ none ↦ 0 | some color ↦ color ]

-- The pairs that init_pair made, by their foreground and background, and g_ncurses_colors.
pub record Colors : Type 0 where
  pub pairs : ℕ → Option (ℕ × ℕ)
  pub g_ncurses_colors : ℕ → ℕ

-- The 256 pairs, one for each attribute.
abbrev pub rich_colors : Colors
rich_colors = record {
  pairs = λ index. if ltb index 256 then some (index % 16, index / 16 % 16) else none;
  g_ncurses_colors = λ index. index;
}

-- The 64 pairs without intensity. The two parts of an index share no bit, so that | is a sum.
abbrev pub basic_table : Colors
basic_table = record {
  pairs = λ index. if ltb index 64 then some (index % 8, index / 8 % 8) else none;
  g_ncurses_colors = λ index. swapped (index % 8) + swapped (index / 16 % 8) * 8;
}

-- color_table_init, for what ncurses knows of the terminal; `none` is the exit.
unfoldable pub color_table_init :
    (has_colors : Bool) (colors color_pairs : ℕ) (basic_colors : Bool) → Option Colors
color_table_init has_colors colors color_pairs basic_colors =
    if not has_colors
    then none
    else if leb 256 colors && leb 65536 color_pairs && not basic_colors
    then some rich_colors
    else if (colors == 8 && leb 64 color_pairs) || basic_colors
    then some basic_table
    else none
