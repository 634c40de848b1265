-- ===== src/Config.antt =====
-- src/tools/keymap_config.c: the tool that edits the sequences of a keymap's file. ncurses is the
-- system's: LINES, the KEY_ codes and what getch returns are parameters, and what only draws is left
-- out. malloc and realloc succeed.
pub mod Capture
pub mod View
pub mod Loop
pub mod Kept
pub mod Effect
pub mod Safe
pub mod Start
pub mod Lossless
use rmtdos.Base.{
  ℕ, zero, suc, ◌-◌, Option, none, some, List, [], ◌∷◌, ltb, leb, if◌then◌else◌, Bool, true,
}
use rmtdos.Keymap.{KeyMapEntry}

-- `OriginalSeqData`; `len` is the length of its data.
pub record OriginalSeqData : Type 0 where
  pub data' : List ℕ
  pub is_modified : Bool

-- The globals of the tool, `g_keymap` of keymaplib.c, and the bytes of the file.
pub record Config : Type 0 where
  pub g_cur_itm_idx : ℕ
  pub g_top_itm_idx : ℕ
  pub g_map_entries : ℕ
  pub g_dirty_flag : Bool
  pub g_org_seq : List OriginalSeqData
  pub g_keymap : List KeyMapEntry
  pub file : List ℕ

-- The codes of ncurses that the tool reacts to.
pub record KeyCodes : Type 0 where
  pub key_up : ℕ
  pub key_down : ℕ
  pub key_home : ℕ
  pub key_end : ℕ
  pub key_ppage : ℕ
  pub key_npage : ℕ
  pub key_enter : ℕ

-- What getch returns, `none` for ERR, which is also all that it returns behind the list's end.
abbrev pub Input : Type 0
Input = List (Option ℕ)

abbrev pub getch : Input → Option ℕ × Input
getch [] = (none, [])
getch (ch ∷ input) = (ch, input)

unfoldable pub count_map_entries : List KeyMapEntry → ℕ
count_map_entries [] = 0
count_map_entries (e ∷ current) = suc (count_map_entries current)

-- The index is not negative.
unfoldable pub get_entry_at_index : List KeyMapEntry → ℕ → Option KeyMapEntry
get_entry_at_index [] index = none
get_entry_at_index (e ∷ current) zero = some e
get_entry_at_index (e ∷ current) (suc index) = get_entry_at_index current index

-- g_org_seq[index].is_modified = true
unfoldable pub mark : List OriginalSeqData → ℕ → List OriginalSeqData
mark [] index = []
mark (o ∷ org) zero = record o { is_modified = true } ∷ org
mark (o ∷ org) (suc index) = o ∷ mark org index

-- An `int` that may be negative: `negsuc n` is -(n + 1).
pub data ℤ : Type 0 where
  pos : ℕ → ℤ
  negsuc : ℕ → ℤ

abbrev pub sub_ℕ : ℕ → ℕ → ℤ
sub_ℕ a b = if leb b a then pos (a - b) else negsuc (b - a - 1)

-- `max` is never negative.
abbrev pub clamp : ℤ → ℕ → ℕ
clamp (negsuc n) max = 0
clamp (pos idx) max = if ltb max idx then max else idx
