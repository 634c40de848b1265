-- ===== src/Keymap/Save/Line.antt =====
-- One line of the file that keymap_save of src/client/keymaplib.c writes, read by keymap_load.
use mathlib.Core.Bool.{false≢true}
use rmtdos.Base.{
  ℕ, zero, suc, take, ◌+◌, ◌-◌, ◌≤◌, ◌<◌, ◌≡◌, none, some, List, [], ◌∷◌, ◌++◌, ◌==◌, ltb, ◌||◌,
  ◌&&◌, not, length, replicate, Bool, true, false, refl, ◌∙◌, ap, arith, Bool-cases, Option-cases,
  inl, inr, subst, all_below, all_below-holds,
}
use rmtdos.Keymap.{
  KeyMapEntry, pipe, hex_byte, snprintf_hex, format_hex, room, keymap_format_sequence_hex,
  parse_hex_sequence, split_line, present, fields_entry, is_comment,
}
use rmtdos.Keymap.Text.{isspace, trim, trim_start, trim_end, cut_at, parse_byte}
use rmtdos.Keymap.Hex.{AreBytes, parse-format_hex}
use rmtdos.Keymap.Save.{hex_field, seq_hex_len, newline}
use rmtdos.Keymap.Save.Fields.{
  lacks, cut_at-lacks, strtok_field, strtok_last, trim_end-append, trim_end-blanks, are_visible,
  trim_column,
}

abbrev field_reads_back : ℕ → Bool
field_reads_back b = elim (parse_byte 0 (hex_field b)) [ none ↦ false | some val ↦ val == b ]

all_fields_read_back : all_below field_reads_back 256 ≡ true
unfolding parse_byte
all_fields_read_back = refl

parse_byte-hex_field : (b : ℕ) → b < 256 → parse_byte 0 (hex_field b) ≡ some b
parse_byte-hex_field b lt =
    let read = all_below-holds field_reads_back 256 b all_fields_read_back lt in
    elim (Option-cases (parse_byte 0 (hex_field b))) [
      | inl e ↦ (let contradiction : false ≡ true = rw (e, field_reads_back) at read in cc)
      | inr (val, e) ↦
          (let same : (val == b) ≡ true = rw (e, field_reads_back) at read in
            let equal : val ≡ b = ground arith in cc (e, equal))
    ]

-- What stands in a column besides blanks: no delimiter, and no mark of a comment.
abbrev pub plain_char : ℕ → Bool
plain_char c = not (isspace c || c == pipe || c == b'#' || c == b'/')

abbrev pub plain : List ℕ → Bool
plain [] = true
plain (c ∷ s) = plain_char c && plain s

pub plain-append : (s t : List ℕ) → plain s ≡ true → plain t ≡ true → plain (s ++ t) ≡ true
plain-append [] t hs ht = ht
plain-append (c ∷ s) t hs ht = ground (arith, plain-append s t)

plain-take : (n : ℕ) (s : List ℕ) → plain s ≡ true → plain (take n s) ≡ true
plain-take zero s h = refl
plain-take (suc n) [] h = refl
plain-take (suc n) (c ∷ s) h = ground (arith, plain-take n s)

pub plain-visible : (s : List ℕ) → plain s ≡ true → are_visible s ≡ true
plain-visible [] h = refl
plain-visible (c ∷ s) h = ground (arith, plain-visible s)

pub plain-lacks :
    (mark : ℕ) (s : List ℕ) → plain_char mark ≡ false → plain s ≡ true → lacks mark s ≡ true
plain-lacks mark [] special h = refl
plain-lacks mark (c ∷ s) special h = elim (Bool-cases (c == mark)) [
  | inl same ↦
      let e : c ≡ mark = ground arith in
      let ordinary : plain_char c ≡ true = ground arith in
      let clash : plain_char mark ≡ true = subst (λ x. plain_char x ≡ true) e ordinary in cc
  | inr other ↦ rw (other, plain-lacks mark s special (ground arith)) refl
]

all_fields_plain : all_below (λ b. plain (hex_field b)) 256 ≡ true
all_fields_plain = refl

pub hex_field-plain : (b : ℕ) → b < 256 → plain (hex_field b) ≡ true
hex_field-plain b lt = all_below-holds (λ b. plain (hex_field b)) 256 b all_fields_plain lt

-- However much of a byte there is room for, it has no delimiter.
plain-snprintf_hex : (size b : ℕ) → plain (hex_byte b) ≡ true → plain (snprintf_hex size b) ≡ true
plain-snprintf_hex size b whole = plain-take (size - 1) (hex_byte b) whole

all_bytes_plain : all_below (λ b. plain (hex_byte b)) 256 ≡ true
all_bytes_plain = refl

format_hex-plain :
    (seq : List ℕ) (out_size used : ℕ) → AreBytes seq → plain (format_hex out_size used seq) ≡ true
unfolding format_hex
format_hex-plain [] out_size used bytes = refl
format_hex-plain (b ∷ seq) out_size used bytes = elim (Bool-cases (ltb used (room out_size))) [
  | inl more ↦
      let written = snprintf_hex (out_size - used) b in
      let byte = all_below-holds (λ b. plain (hex_byte b)) 256 b all_bytes_plain bytes.0 in
      let first = plain-snprintf_hex (out_size - used) b byte in
      let rest = format_hex-plain seq out_size (used + length written) bytes.1 in
      rw more (plain-append written (format_hex out_size (used + length written) seq) first rest)
  | inr full ↦ rw full refl
]

pub sequence_plain :
    (seq : List ℕ) → AreBytes seq → plain (keymap_format_sequence_hex seq seq_hex_len) ≡ true
unfolding keymap_format_sequence_hex
sequence_plain seq bytes = format_hex-plain seq seq_hex_len 0 bytes

-- A field behind a delimiter and before another one, or at the end.
trim-hex_field : (b n : ℕ) → b < 256 → trim (32 ∷ hex_field b ++ replicate n 32) ≡ hex_field b
trim-hex_field b n lt =
    trim_column (hex_field b) n (plain-visible (hex_field b) (hex_field-plain b lt))

abbrev pub starts_visible : List ℕ → Bool
starts_visible [] = false
starts_visible (c ∷ s) = not (isspace c)

-- A description that is read back: it starts with a visible character and not with a comment, ends
-- in no blank, and has neither a delimiter nor a newline.
pub record IsTitle (s : List ℕ) : Type 0 where
  pub visible : starts_visible s ≡ true
  pub no_comment : is_comment s ≡ false
  pub ends : trim_end s ≡ s
  pub one_field : lacks pipe s ≡ true
  pub one_line : lacks newline s ≡ true

-- A mapping that one line of the file can hold.
pub record IsPrintable (e : KeyMapEntry) : Type 0 where
  pub title : IsTitle e.description
  pub title_fits : length e.description ≤ 480
  pub bytes : AreBytes e.sequence
  pub sequence_fits : length e.sequence ≤ 127
  pub scan_byte : e.keydos.bios_scan_code < 256
  pub ascii_byte : e.keydos.ascii_value < 256
  pub flags_byte : e.keydos.flags_17 < 256

-- Fields between delimiters.
abbrev pub infront : List ℕ → List ℕ → List ℕ
infront field rest = field ++ pipe ∷ rest

-- Five fields that are not empty.
pub split-fields :
    (a b c d e : ℕ) (as' bs cs ds es : List ℕ)
    → lacks pipe (a ∷ as') ≡ true
    → lacks pipe (b ∷ bs) ≡ true
    → lacks pipe (c ∷ cs) ≡ true
    → lacks pipe (d ∷ ds) ≡ true
    → lacks pipe (e ∷ es) ≡ true
    → split_line
        (infront (a ∷ as') (infront (b ∷ bs) (infront (c ∷ cs) (infront (d ∷ ds) (e ∷ es)))))
      ≡ present (some (a ∷ as')) (some (b ∷ bs)) (some (c ∷ cs)) (some (d ∷ ds)) (some (e ∷ es))
unfolding split_line
split-fields a b c d e as' bs cs ds es ha hb hc hd he =
    let last = strtok_last pipe e es he in
    let fourth = strtok_field pipe d ds (e ∷ es) hd in
    let third = strtok_field pipe c cs (infront (d ∷ ds) (e ∷ es)) hc in
    let second = strtok_field pipe b bs (infront (c ∷ cs) (infront (d ∷ ds) (e ∷ es))) hb in
    let first =
      strtok_field pipe a as' (infront (b ∷ bs) (infront (c ∷ cs) (infront (d ∷ ds) (e ∷ es))))
        ha in
    rw (first, second, third, fourth, last, split_line) refl

-- The blanks of a column, and the one in front of the delimiter.
pub column_snoc :
    (s : List ℕ) (n : ℕ) (rest : List ℕ)
    → (s ++ replicate n 32) ++ (32 ∷ rest) ≡ (s ++ replicate (suc n) 32) ++ rest
column_snoc [] zero rest = refl
column_snoc [] (suc n) rest = ap (λ t. 32 ∷ t) (column_snoc [] n rest)
column_snoc (c ∷ s) n rest = ap (λ t. c ∷ t) (column_snoc s n rest)

trim-title : (desc : List ℕ) (n : ℕ) → IsTitle desc → trim (desc ++ replicate n 32) ≡ desc
unfolding trim trim_start
trim-title [] n t = absurd (false≢true t.visible)
trim-title (c ∷ s) n t =
    let other : isspace c ≡ false = ground (arith, t.visible) in
    rw other (trim_end-append (c ∷ s) (replicate n 32) (trim_end-blanks n) ∙ t.ends)

-- A number's column.
abbrev pub numeral : ℕ → List ℕ
numeral b = 32 ∷ hex_field b ++ replicate 1 32

-- The fields of a printed line.
module _ (e : KeyMapEntry) (printable : IsPrintable e) (n m : ℕ) where
  abbrev hex : List ℕ
  hex = keymap_format_sequence_hex e.sequence seq_hex_len

  pub present-fields :
      present
        (some (e.description ++ replicate n 32))
        (some (32 ∷ hex ++ replicate m 32))
        (some (numeral e.keydos.bios_scan_code))
        (some (numeral e.keydos.ascii_value))
        (some (32 ∷ hex_field e.keydos.flags_17))
      ≡ some e
  unfolding present fields_entry
  present-fields =
      let keys = e.keydos in
      let flags_plain = hex_field-plain keys.flags_17 printable.flags_byte in
      let no_hash =
        cut_at-lacks b'#' (32 ∷ hex_field keys.flags_17)
          (plain-lacks b'#' (hex_field keys.flags_17) refl flags_plain) in
      let no_slash =
        cut_at-lacks b'/' (32 ∷ hex_field keys.flags_17)
          (plain-lacks b'/' (hex_field keys.flags_17) refl flags_plain) in
      let column =
        trim_column hex m (plain-visible hex (sequence_plain e.sequence printable.bytes)) in
      let read =
        parse-format_hex e.sequence seq_hex_len printable.bytes
          (omega (arith, printable.sequence_fits)) (omega arith) in
      let scan = parse_byte-hex_field keys.bios_scan_code printable.scan_byte in
      let ascii = parse_byte-hex_field keys.ascii_value printable.ascii_byte in
      let flags = parse_byte-hex_field keys.flags_17 printable.flags_byte in
      let seq_read = ap parse_hex_sequence column ∙ read in
      let scan_read =
        ap (parse_byte 0) (trim-hex_field keys.bios_scan_code 1 printable.scan_byte) ∙ scan in
      let ascii_read =
        ap (parse_byte 0) (trim-hex_field keys.ascii_value 1 printable.ascii_byte) ∙ ascii in
      let flags_read =
        ap (λ s. parse_byte 0 (trim (cut_at b'/' s))) no_hash
        ∙ ap (λ s. parse_byte 0 (trim s)) no_slash
        ∙ ap (parse_byte 0) (trim-hex_field keys.flags_17 0 printable.flags_byte)
        ∙ flags in
      let title = trim-title e.description n printable.title in
      rw (seq_read, scan_read, ascii_read, flags_read, title, present, fields_entry) refl
