-- ===== src/Keymap/Save.antt =====
-- keymap_save of src/client/keymaplib.c, on the bytes of the file, and the lines in which
-- keymap_load reads them back. What the system answers to fopen, to each fprintf of a mapping and to
-- fclose is a parameter; the three lines of the header are taken to be written.
pub mod Fields
pub mod Line
pub mod Entry
pub mod Reloaded
use rmtdos.Base.{
  ℕ, zero, suc, ◌+◌, ◌-◌, ◌/◌, ◌%◌, Option, none, some, List, [], ◌∷◌, ◌++◌, ◌==◌, ltb, leb, ◌||◌,
  if◌then◌else◌, length, take, replicate, Bool, true, false, codes,
}
use rmtdos.Keymap.{KeyMapEntry, Keymap, pipe, keymap_format_sequence_hex, reverse_onto}

abbrev pub newline : ℕ
newline = 10

-- "%-*s"
abbrev pub pad : ℕ → List ℕ → List ℕ
pad width s = s ++ replicate (width - length s) 32

abbrev pub upper_digit : ℕ → ℕ
upper_digit d = if ltb d 10 then b'0' + d else b'A' + (d - 10)

-- "0x%02X"
abbrev pub hex_field : ℕ → List ℕ
hex_field b = b'0' ∷ b'x' ∷ upper_digit (b / 16) ∷ upper_digit (b % 16) ∷ []

-- " | "
abbrev pub between : List ℕ → List ℕ
between rest = 32 ∷ pipe ∷ 32 ∷ rest

-- sizeof(seq_hex_buf)
abbrev pub seq_hex_len : ℕ
seq_hex_len = 512

-- "%-*s | %-25s | 0x%02X | 0x%02X | 0x%02X\n", up to the newline.
abbrev pub entry_text : ℕ → KeyMapEntry → List ℕ
entry_text width e =
    pad width e.description
    ++ between (
        pad 25 (keymap_format_sequence_hex e.sequence seq_hex_len)
        ++ between (
            hex_field e.keydos.bios_scan_code
            ++ between (hex_field e.keydos.ascii_value ++ between (hex_field e.keydos.flags_17))))

-- The three lines that are printed first.
abbrev pub header_lines : List (List ℕ)
header_lines =
    codes "// Key Map File"
    ∷ codes "// Format: Description | Sequence (Hex) | Scan (Hex) | ASCII (Hex) | Flags (Hex)"
    ∷ codes "//"
    ∷ []

-- The longest description, not below `width`.
max_desc_width : ℕ → List KeyMapEntry → ℕ
max_desc_width width [] = width
max_desc_width width (e ∷ list) =
    max_desc_width (if ltb width (length e.description) then length e.description else width) list

-- What fopen, the fprintf of each mapping, by its number, and fclose answer.
pub record Answers : Type 0 where
  pub opens : Bool
  pub writes : ℕ → Bool
  pub closes : Bool

-- Nothing fails.
abbrev pub all_well : Answers
all_well = record { opens = true; writes = λ i. true; closes = true }

-- The loop that prints the mappings: whether all are printed, and the lines that are.
module _ (answers : Answers) (width : ℕ) where
  unfoldable pub write_entries : ℕ → List KeyMapEntry → Bool × List (List ℕ)
  write_entries i [] = (true, [])
  write_entries i (e ∷ list) =
      let (all, lines) = write_entries (i + 1) list in
      if answers.writes i then (all, entry_text width e ∷ lines) else (false, [])

-- Each line with its newline.
unfoldable pub unlines : List (List ℕ) → List ℕ
unlines [] = []
unlines (line ∷ lines) = line ++ newline ∷ unlines lines

-- keymap_save, of a file name that is there: whether it returns 0, `g_keymap` afterwards, and the
-- file's bytes, `none` where it is not touched. A print that fails returns with the list reversed:
-- `g_keymap` is then the entry that was first and has become the last.
unfoldable pub keymap_save : Answers → List KeyMapEntry → Bool × List KeyMapEntry × Option (List ℕ)
unfolding max_desc_width write_entries unlines reverse_onto
keymap_save answers g_keymap =
    let reversed_list = reverse_onto g_keymap [] in
    let width = max_desc_width 10 g_keymap in
    let (all, lines) = write_entries answers width 0 reversed_list in
    let file = unlines (header_lines ++ lines) in
    if answers.opens
    then if all
      then (answers.closes, reverse_onto reversed_list [], some file)
      else (false, take 1 g_keymap, some file)
    else (false, g_keymap, none)

-- sizeof(line_buffer) - 1 of keymap_load
abbrev pub line_room : ℕ
line_room = 1023

-- A byte in front of the line that goes on.
abbrev pub onto_first : ℕ → List (List ℕ) → List (List ℕ)
onto_first c [] = (c ∷ []) ∷ []
onto_first c (line ∷ lines) = (c ∷ line) ∷ lines

-- The lines that fgets returns, of which the first may have `left` bytes more.
unfoldable pub fgets_from : ℕ → List ℕ → List (List ℕ)
fgets_from left [] = []
fgets_from left (c ∷ s) =
    let next = fgets_from line_room s in
    let same = fgets_from (left - 1) s in
    if c == newline || leb left 1 then (c ∷ []) ∷ next else onto_first c same

unfoldable pub fgets_lines : List ℕ → List (List ℕ)
unfolding fgets_from
fgets_lines file = fgets_from line_room file
