-- ===== src/Keymap.antt =====
-- src/client/keymaplib.c and keymaplib.h: the table that maps byte sequences of the terminal to DOS
-- keystrokes, its hash index, and its file. Allocation is taken to succeed.
pub mod Text
pub mod Index
pub mod Reload
pub mod Hex
pub mod Save
use rmtdos.Base.{
  ℕ, zero, suc, ◌+◌, ◌*◌, ◌%◌, ◌-◌, ◌/◌, Option, none, some, List, [], ◌∷◌, ◌++◌, ◌==◌, ltb, leb,
  ◌&&◌, ◌||◌, if◌then◌else◌, bytes_eq, length, take, Bool, true, false,
}
use rmtdos.Keymap.Text.{isspace, trim, strtok, cut_at, parse_byte, is_nil}

-- `KeyDos_t`
pub record KeyDos : Type 0 where
  pub bios_scan_code : ℕ
  pub ascii_value : ℕ
  pub flags_17 : ℕ

-- `KeyMapEntry_t`; the linked list through `next` is a list of entries.
pub record KeyMapEntry : Type 0 where
  pub description : List ℕ
  pub sequence : List ℕ
  pub keydos : KeyDos

-- KEYMAP_HASH_SIZE
abbrev pub keymap_hash_size : ℕ
keymap_hash_size = 256

-- The loop of _hash_sequence, on an `unsigned int`.
hash_loop : ℕ → List ℕ → ℕ
hash_loop hash [] = hash
hash_loop hash (b ∷ seq) =
    hash_loop (((hash * 32 % 4294967296 + hash) % 4294967296 + b) % 4294967296) seq

pub hash_sequence : List ℕ → ℕ
unfolding hash_loop
hash_sequence seq = hash_loop 5381 seq % keymap_hash_size

-- _keymap_hash: the chain of nodes of each bucket.
abbrev pub HashTable : Type 0
HashTable = ℕ → List KeyMapEntry

abbrev pub empty_table : HashTable
empty_table bucket = []

-- A new node in front of its bucket.
abbrev pub add_node : HashTable → KeyMapEntry → HashTable
add_node table e bucket =
    if bucket == hash_sequence e.sequence then e ∷ table bucket else table bucket

build_from : HashTable → List KeyMapEntry → HashTable
build_from table [] = table
build_from table (e ∷ list) = build_from (add_node table e) list

-- _keymap_build_hash: the buckets are cleared, and filled from `g_keymap`.
unfoldable pub keymap_build_hash : List KeyMapEntry → HashTable
unfolding build_from
keymap_build_hash list = build_from empty_table list

-- sequence_len == captured_len && memcmp(sequence, captured_seq, captured_len) == 0
abbrev pub maps : List ℕ → KeyMapEntry → Bool
maps seq e = bytes_eq e.sequence seq

-- _keymap_find, and the search along a bucket.
pub keymap_find_linear : List KeyMapEntry → List ℕ → Option KeyMapEntry
keymap_find_linear [] seq = none
keymap_find_linear (e ∷ list) seq = if maps seq e then some e else keymap_find_linear list seq

unfoldable pub keymap_find : HashTable → List ℕ → Option KeyMapEntry
unfolding keymap_find_linear hash_sequence
keymap_find table seq = keymap_find_linear (table (hash_sequence seq)) seq

-- _parse_hex_sequence: groups of \xAB; `none` is -1.
parse_hex_groups : List ℕ → Option (List ℕ)
parse_hex_groups [] = some []
parse_hex_groups (p0 ∷ p1 ∷ p2 ∷ p3 ∷ rest) =
    if p0 == 92 && p1 == b'x'
    then elim (parse_byte 16 (p2 ∷ p3 ∷ [])) [
      | none ↦ none
      | some val ↦ elim (parse_hex_groups rest) [ none ↦ none | some bytes ↦ some (val ∷ bytes) ]
    ]
    else none
parse_hex_groups other = none

pub parse_hex_sequence : List ℕ → Option (List ℕ)
unfolding parse_hex_groups
parse_hex_sequence hex_str = parse_hex_groups hex_str

-- A line of the file as keymap_load takes it apart; `none` is `continue`.
unfoldable pub fields_entry : List ℕ → List ℕ → List ℕ → List ℕ → List ℕ → Option KeyMapEntry
unfolding parse_hex_sequence
fields_entry desc seq_hex scan ascii flags = elim (parse_hex_sequence (trim seq_hex)) [
  | none ↦ none
  | some sequence ↦ elim (parse_byte 0 (trim scan)) [
    | none ↦ none
    | some scan_val ↦ elim (parse_byte 0 (trim ascii)) [
      | none ↦ none
      | some ascii_val ↦ elim (parse_byte 0 (trim flags)) [
        | none ↦ none
        | some flags_val ↦ some (record {
          description = trim desc;
          sequence = sequence;
          keydos = record {
            bios_scan_code = scan_val;
            ascii_value = ascii_val;
            flags_17 = flags_val;
          };
        })
      ]
    ]
  ]
]

-- The loop body of keymap_load: `none` where it goes on to the next line, else the new entry.
abbrev pub pipe : ℕ
pipe = b'|'

-- With the five tokens, of which the flags lose a comment.
unfoldable pub present :
    Option (List ℕ)
    → Option (List ℕ)
    → Option (List ℕ)
    → Option (List ℕ)
    → Option (List ℕ)
    → Option KeyMapEntry
unfolding fields_entry
present (some desc) (some seq_hex) (some scan) (some ascii) (some flags) =
    fields_entry desc seq_hex scan ascii (cut_at b'/' (cut_at b'#' flags))
present desc seq_hex scan ascii flags = none

unfoldable pub split_line : List ℕ → Option KeyMapEntry
unfolding present
split_line line =
    let (desc, line1) = strtok pipe line in
    let (seq_hex, line2) = strtok pipe line1 in
    let (scan, line3) = strtok pipe line2 in
    let (ascii, line4) = strtok pipe line3 in
    let (flags, line5) = strtok pipe line4 in present desc seq_hex scan ascii flags

abbrev pub is_comment : List ℕ → Bool
is_comment (c ∷ d ∷ s) = c == b'/' && d == b'/'
is_comment s = false

unfoldable pub parse_line : List ℕ → Option KeyMapEntry
unfolding split_line
parse_line line_buffer =
    let line = trim line_buffer in if is_comment line || is_nil line then none else split_line line

-- The loop of keymap_load: each entry goes to the head of `g_keymap`.
pub load_lines : List KeyMapEntry → List (List ℕ) → List KeyMapEntry
load_lines g_keymap [] = g_keymap
load_lines g_keymap (line ∷ lines) = elim (parse_line line) [
  | none ↦ load_lines g_keymap lines
  | some kme ↦ load_lines (kme ∷ g_keymap) lines
]

-- The two globals of keymaplib.c.
pub record Keymap : Type 0 where
  pub g_keymap : List KeyMapEntry
  pub hash : HashTable

abbrev pub no_keymap : Keymap
no_keymap = record { g_keymap = []; hash = empty_table }

-- keymap_load: the lines that fgets returns, or `none` where fopen fails; the result is 0 or -1.
unfoldable pub keymap_load : Keymap → Option (List (List ℕ)) → Bool × Keymap
unfolding load_lines keymap_build_hash
keymap_load k none = (false, k)
keymap_load k (some lines) =
    let list = load_lines k.g_keymap lines in
    (true, record { g_keymap = list; hash = keymap_build_hash list })

-- keymap_free leaves `g_keymap` as it was, which then points at freed entries.
abbrev pub keymap_free : Keymap → Keymap
keymap_free k = record { g_keymap = k.g_keymap; hash = empty_table }

-- "\\x%02x"
abbrev pub hex_digit : ℕ → ℕ
hex_digit d = if ltb d 10 then b'0' + d else b'a' + (d - 10)

abbrev pub hex_byte : ℕ → List ℕ
hex_byte b = 92 ∷ b'x' ∷ hex_digit (b / 16) ∷ hex_digit (b % 16) ∷ []

-- out_size - 5, on a size_t
abbrev pub room : ℕ → ℕ
room out_size = (out_size + 18446744073709551616 - 5) % 18446744073709551616

-- snprintf of a byte, which leaves the last of `size` bytes to the end of the string.
abbrev pub snprintf_hex : (size b : ℕ) → List ℕ
snprintf_hex size b = take (size - 1) (hex_byte b)

-- The rest of keymap_format_sequence_hex's output, `used` characters being there.
format_hex : (out_size used : ℕ) → List ℕ → List ℕ
format_hex out_size used [] = []
format_hex out_size used (b ∷ seq) =
    let written = snprintf_hex (out_size - used) b in
    let rest = format_hex out_size (used + length written) seq in
    if ltb used (room out_size) then written ++ rest else []

pub keymap_format_sequence_hex : List ℕ → (out_size : ℕ) → List ℕ
unfolding format_hex
keymap_format_sequence_hex seq out_size = format_hex out_size 0 seq

-- keymap_format_sequence: a printable byte stands for itself.
format_mixed : (out_size used : ℕ) → List ℕ → List ℕ
format_mixed out_size used [] = []
format_mixed out_size used (b ∷ seq) =
    let shown = if leb b' ' b && leb b b'~' then b ∷ [] else hex_byte b in
    let rest = format_mixed out_size (used + length shown) seq in
    if ltb used (room out_size) then shown ++ rest else []

abbrev keymap_format_sequence : List ℕ → (out_size : ℕ) → List ℕ
unfolding format_mixed
keymap_format_sequence seq out_size = format_mixed out_size 0 seq

-- The list reversal of keymap_save, with which it prints the list in its file's order, and undoes it.
pub reverse_onto : List KeyMapEntry → List KeyMapEntry → List KeyMapEntry
reverse_onto [] acc = acc
reverse_onto (e ∷ list) acc = reverse_onto list (e ∷ acc)
