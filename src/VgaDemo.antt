-- ===== src/VgaDemo.antt =====
-- src/vga_demo/vga_demo.c: what the demonstration draws, and what its keys do. vga_write_str and the other
-- calls of the video library are assembly: they are kept in a list, in their order, and vga_read_state
-- is a parameter; vga_printf is kept with what it is given.
pub mod Pattern
pub mod Keys
use rmtdos.Base.{
  ℕ, zero, suc, ◌+◌, ◌-◌, ◌*◌, ◌/◌, ◌%◌, List, [], ◌∷◌, ◌++◌, ◌==◌, ltb, leb, ◌&&◌, if◌then◌else◌,
  Bool, true, false, set, get_elem?, replicate, Option, none, some, codes,
}
use rmtdos.Protocol.{VideoState}

-- VIDEO_MODES and KEY_EVENT_HIST_SIZE
abbrev pub video_modes : ℕ
video_modes = 3

abbrev pub key_event_hist_size : ℕ
key_event_hist_size = 6

-- HEADING_NORMAL and HEADING_HIGHLIGHT
abbrev pub heading_normal : ℕ
heading_normal = 0x0e

abbrev pub heading_highlight : ℕ
heading_highlight = 0xe0

abbrev pub hex_char : ℕ → ℕ
hex_char x = if ltb 9 x then x - 10 + b'a' else x + b'0'

-- vga_write_str(x, y, attr, str)
pub record Write : Type 0 where
  pub x : ℕ
  pub y : ℕ
  pub attr : ℕ
  pub str : List ℕ

-- The text of `str[0] = ch; str[1] = 0`.
abbrev pub text_of : ℕ → List ℕ
text_of ch = if ch == 0 then [] else ch ∷ []

-- for (i = 0; i < n; i++)
pub for_below {ℓ} : {A : Type ℓ} → ℕ → (ℕ → List A) → List A
for_below zero body = []
for_below (suc n) body = for_below n body ++ body n

-- Spacing and offsets of the two grids.
abbrev pub x_pitch : VideoState → ℕ
x_pitch vga = if leb 80 vga.text_cols then 2 else 1

abbrev pub y_pitch : VideoState → ℕ
y_pitch vga = if ltb 35 vga.text_rows then 2 else 1

abbrev pub x_offset : VideoState → ℕ
x_offset vga = if ltb 40 vga.text_cols then 40 else 20

abbrev pub y_offset : ℕ
y_offset = 3

-- `char_signed` tells whether the compiler's `char`, the type of active_char, has a sign. A byte of 128 or
-- more is then negative, and equals no `uint8_t`.
module _ (char_signed : Bool) (vga : VideoState) (active_char : ℕ) where
  abbrev pub is_active : ℕ → Bool
  is_active i = if char_signed && leb 128 active_char then false else i == active_char

  -- The headings of the two grids for a digit.
  abbrev pub headings : ℕ → List Write
  headings y =
      let top = if y == active_char % 16 then heading_highlight else heading_normal in
      let side =
        if y * 16 == active_char / 16 % 16 * 16 then heading_highlight else heading_normal in
      let digit = hex_char y ∷ [] in
      record { x = y * x_pitch vga + 2; y = y_offset; attr = top; str = digit }
      ∷ record { x = y * x_pitch vga + 2 + x_offset vga; y = y_offset; attr = top; str = digit }
      ∷ record { x = 0; y = y * y_pitch vga + y_offset + 2; attr = side; str = digit }
      ∷ record { x = x_offset vga; y = y * y_pitch vga + y_offset + 2; attr = side; str = digit }
      ∷ []

  -- The character of a code, and the block of its colour.
  abbrev pub by_character : (x y : ℕ) → Write
  by_character x y = record {
    x = x * x_pitch vga + 2;
    y = y * y_pitch vga + y_offset + 2;
    attr = if is_active (x + y * 16) then 0xf0 else 7;
    str = text_of (x + y * 16);
  }

  abbrev pub by_color : (x y yp xp : ℕ) → Write
  by_color x y yp xp = record {
    x = x * x_pitch vga + 2 + xp + x_offset vga;
    y = y * y_pitch vga + y_offset + 2 + yp;
    attr = x + y * 16;
    str = text_of active_char;
  }

  unfoldable pub draw_test_pattern : List Write
  draw_test_pattern = for_below 16 (λ y.
      headings y
      ++ for_below 16 (λ x.
        by_character x y
        ∷ for_below (y_pitch vga) (λ yp. for_below (x_pitch vga) (λ xp. by_color x y yp xp ∷ []))))

-- The calls of the video library.
pub data Call : Type 0 where
  set_mode : (rows : ℕ) → Call
  clear_rows : (y1 y2 : ℕ) → Call
  disable_blink : Call
  write : Write → Call
  print_mode : (video_mode text_cols text_rows : ℕ) → Call
  print_key : (x y attr i scan_code ascii shown : ℕ) → Call
  print_bios : (x y attr offset val : ℕ) → Call
  go_to : (x y : ℕ) → Call

-- The globals, and the calls that were made.
pub record Demo : Type 0 where
  pub running : Bool
  pub video_mode : ℕ
  pub active_char : ℕ
  pub key_events : List ℕ
  pub calls : List Call

abbrev pub start : Demo
start = record {
  running = true;
  video_mode = 0;
  active_char = 0xb0;
  key_events = replicate key_event_hist_size 0;
  calls = [];
}

abbrev writes : List Write → List Call
writes [] = []
writes (w ∷ ws) = write w ∷ writes ws

-- The history's lines from an index on.
unfoldable pub history_calls : (i : ℕ) → List ℕ → List Call
history_calls i [] = []
history_calls i (e ∷ es) =
    print_key 0 (i + 37) 0x1e i (e / 256) (e % 256) (if e % 256 == 0 then b' ' else e % 256)
    ∷ history_calls (suc i) es

-- bios_offsets
abbrev pub bios_offsets : List ℕ
bios_offsets = 0x17 ∷ 0x18 ∷ 0x96 ∷ 0x97 ∷ []

-- The lines for the bytes of the BIOS from an index on; `peek` is what stands in its segment.
unfoldable pub bios_calls : (peek : ℕ → ℕ) → (i : ℕ) → List ℕ → List Call
bios_calls peek i [] = []
bios_calls peek i (offset ∷ offsets) =
    print_bios 20 (i + 37) 0x1e offset (peek offset) ∷ bios_calls peek (suc i) offsets

unfoldable pub refresh_screen : (peek : ℕ → ℕ) → Demo → Demo
unfolding history_calls bios_calls
refresh_screen peek d = record d {
  calls = d.calls ++ (history_calls 0 d.key_events ++ bios_calls peek 0 bios_offsets);
}

-- The character that a cursor key or the space bar selects.
abbrev pub moved : (ax active_char : ℕ) → Option ℕ
moved ax active_char =
    if ax == 0x4800
    then some ((active_char + 256 - 16) % 256)
    else if ax == 0x5000
    then some ((active_char + 16) % 256)
    else if ax == 0x4b00
    then some (active_char / 16 * 16 + (active_char + 15) % 16)
    else if ax == 0x4d00
    then some (active_char / 16 * 16 + (active_char + 1) % 16)
    else if ax == 0x3920
    then some ((active_char + 1) % 256)
    else none

-- key_events[i - 1] = key_events[i], for i from 1 on, and the new event at the end.
unfoldable pub push_event : List ℕ → ℕ → List ℕ
push_event [] ax = []
push_event (e ∷ []) ax = ax ∷ []
push_event (e ∷ (e' ∷ es)) ax = e' ∷ push_event (e' ∷ es) ax

-- A round of main: the BIOS's bytes when it begins, and the key.
abbrev pub Press : Type 0
Press = (ℕ → ℕ) × ℕ

-- `screen` is what vga_read_state finds in each mode.
module _ (char_signed : Bool) (screen : ℕ → VideoState) where
  -- All that prep_screen calls.
  unfoldable pub screen_calls : (video_mode active_char : ℕ) → List Call
  unfolding draw_test_pattern
  screen_calls video_mode active_char =
      let vga = screen video_mode in
      clear_rows 0 50
      ∷ disable_blink
      ∷ write (record {
        x = 0;
        y = 0;
        attr = 15;
        str =
            codes "<ALT-X> Exit.  <"
            ++ (24
                ∷ (codes ", "
                    ++ (25 ∷ (codes ", " ++ (26 ∷ (codes ", " ++ (27 ∷ codes "> Move.")))))));
      })
      ∷ print_mode video_mode vga.text_cols vga.text_rows
      ∷ (writes (draw_test_pattern char_signed vga active_char)
          ++ (go_to 0 (vga.text_rows - 2) ∷ []))

  unfoldable pub prep_screen : Demo → Demo
  prep_screen d = record d { calls = d.calls ++ screen_calls d.video_mode d.active_char }

  unfoldable pub set_video_mode : Demo → Demo
  unfolding prep_screen
  set_video_mode d =
      let mode =
        if d.video_mode == 0
        then set_mode 25 ∷ []
        else if d.video_mode == 1
        then set_mode 43 ∷ []
        else if d.video_mode == 2
        then set_mode 50 ∷ []
        else [] in
      prep_screen (record d { calls = d.calls ++ mode })

  -- The switch, but for ALT-X.
  abbrev pub switched : Demo → ℕ → Demo
  switched d ax =
      if ax == 0x2f00
      then set_video_mode (record d { video_mode = (d.video_mode + 1) % video_modes })
      else elim (moved ax d.active_char) [
        | none ↦ d
        | some ch ↦ prep_screen (record d { active_char = ch })
      ]

  -- `ax` is what int 16h answers.
  unfoldable pub process_keyboard : Demo → (ax : ℕ) → Demo
  unfolding set_video_mode push_event
  process_keyboard d ax =
      if ax == 0x2d00
      then record d { running = false }
      else (let d' = switched d ax in record d' { key_events = push_event d'.key_events ax })

  -- The loop of main, for what the BIOS has and the key that is pressed in each round.
  unfoldable pub key_loop : Demo → List Press → Demo
  unfolding process_keyboard refresh_screen
  key_loop d [] = d
  key_loop d ((peek, ax) ∷ keys) =
      let rest = key_loop (process_keyboard (refresh_screen peek d) ax) keys in
      if d.running then rest else d

  pub main : List Press → Demo
  unfolding key_loop
  main keys = key_loop (prep_screen (set_video_mode start)) keys
