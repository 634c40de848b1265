-- ===== src/Keymap/Save/Entry.antt =====
-- A mapping printed by keymap_save of src/client/keymaplib.c and read back by keymap_load.
use mathlib.Core.Bool.{false≢true}
use rmtdos.Base.{
  ℕ, zero, suc, ◌+◌, ◌-◌, ◌*◌, ◌≤◌, ◌<◌, ◌≡◌, some, List, [], ◌∷◌, ◌++◌, ◌==◌, length, replicate,
  true, false, refl, ◌∙◌, sym, ap, arith, length-append, length-replicate, take, ltb, Bool-cases,
  inl, inr,
}
use rmtdos.Keymap.{
  KeyMapEntry, pipe, keymap_format_sequence_hex, parse_line, is_comment, split_line, present,
  format_hex, hex_byte, snprintf_hex, room,
}
use rmtdos.Keymap.Text.{isspace, is_nil, trim, trim_start, trim_end}
use rmtdos.Keymap.Save.{hex_field, seq_hex_len, entry_text, newline, pad, between}
use rmtdos.Keymap.Save.Fields.{
  lacks, lacks-append, lacks-replicate, trim_end-append, trim_end-keeps, trim_end-visible,
}
use rmtdos.Keymap.Save.Line.{
  plain-lacks, plain-visible, hex_field-plain, sequence_plain, infront, split-fields, column_snoc,
  present-fields, numeral, IsPrintable, starts_visible,
}

-- A text that ends in a visible character.
abbrev Ends : List ℕ → Type 0
Ends s = (is_nil s ≡ false) × (trim_end s ≡ s)

append-Ends : (s t : List ℕ) → Ends t → Ends (s ++ t)
append-Ends [] t h = h
append-Ends (c ∷ s) [] h = absurd (false≢true (sym h.0))
append-Ends (c ∷ s) (d ∷ t) h = (refl, trim_end-keeps (c ∷ s) d t h.1)

hex_field-Ends : (b : ℕ) → b < 256 → Ends (hex_field b)
hex_field-Ends b lt =
    (refl, trim_end-visible (hex_field b) (plain-visible (hex_field b) (hex_field-plain b lt)))

-- The text of a line is the five columns.
entry_text_columns :
    (e : KeyMapEntry) (width : ℕ)
    → (n m : ℕ) × (entry_text width e
        ≡ infront (e.description ++ replicate (suc n) 32) (
            infront
              (32 ∷ keymap_format_sequence_hex e.sequence seq_hex_len ++ replicate (suc m) 32)
              (infront
                (numeral e.keydos.bios_scan_code)
                (infront (numeral e.keydos.ascii_value) (32 ∷ hex_field e.keydos.flags_17)))))
entry_text_columns e width =
    let n = width - length e.description in
    let hex = keymap_format_sequence_hex e.sequence seq_hex_len in
    let m = 25 - length hex in
    let rest2 =
      infront (numeral e.keydos.bios_scan_code)
        (infront (numeral e.keydos.ascii_value) (32 ∷ hex_field e.keydos.flags_17)) in
    let rest1 = infront (32 ∷ hex ++ replicate (suc m) 32) rest2 in
    (
      n,
      m,
      ap (λ s. (e.description ++ replicate n 32) ++ (32 ∷ pipe ∷ 32 ∷ s))
            (column_snoc hex m (pipe ∷ rest2))
          ∙ column_snoc e.description n (pipe ∷ rest1),
    )

trim_line :
    (c : ℕ) (s : List ℕ) → isspace c ≡ false → Ends (c ∷ s) → trim ((c ∷ s) ++ newline ∷ []) ≡ c ∷ s
unfolding trim trim_start
trim_line c s visible ends = rw visible (trim_end-append (c ∷ s) (newline ∷ []) refl ∙ ends.1)

trim_titled :
    (desc : List ℕ) (n : ℕ) (rest : List ℕ)
    → starts_visible desc ≡ true
    → Ends rest
    → trim (((desc ++ replicate n 32) ++ rest) ++ newline ∷ []) ≡ (desc ++ replicate n 32) ++ rest
trim_titled [] n rest visible ends = absurd (false≢true visible)
trim_titled (c ∷ s) n rest visible ends =
    trim_line c ((s ++ replicate n 32) ++ rest) (ground arith)
      (append-Ends ((c ∷ s) ++ replicate n 32) rest ends)

no_comment_line :
    (desc : List ℕ) (n : ℕ) (rest : List ℕ)
    → starts_visible desc ≡ true
    → is_comment desc ≡ false
    → is_comment ((desc ++ replicate (suc n) 32) ++ rest) ≡ false
no_comment_line [] n rest visible h = absurd (false≢true visible)
no_comment_line (c ∷ []) n rest visible h = ground arith
no_comment_line (c ∷ d ∷ s) n rest visible h = h

is_nil_line :
    (desc : List ℕ) (n : ℕ) (rest : List ℕ)
    → starts_visible desc ≡ true
    → is_nil ((desc ++ replicate n 32) ++ rest) ≡ false
is_nil_line [] n rest visible = absurd (false≢true visible)
is_nil_line (c ∷ s) n rest visible = refl

column_lacks :
    (s : List ℕ) (n : ℕ) (rest : List ℕ) (mark : ℕ)
    → (32 == mark) ≡ false
    → lacks mark s ≡ true
    → lacks mark rest ≡ true
    → lacks mark ((s ++ replicate n 32) ++ rest) ≡ true
column_lacks s n rest mark other hs hr =
    lacks-append mark (s ++ replicate n 32) rest
      (lacks-append mark s (replicate n 32) hs (lacks-replicate mark 32 n other)) hr

length-take : (n : ℕ) (s : List ℕ) → length (take n s) ≤ length s
length-take zero s = omega arith
length-take (suc n) [] = omega arith
length-take (suc n) (c ∷ s) = omega (arith, length-take n s)

length-snprintf_hex : (n b : ℕ) → length (take n (hex_byte b)) ≤ 4
length-snprintf_hex n b = omega (arith, length-take n (hex_byte b))

length-format_hex :
    (seq : List ℕ) (out_size used : ℕ) → length (format_hex out_size used seq) ≤ 4 * length seq
unfolding format_hex
length-format_hex [] out_size used = omega arith
length-format_hex (b ∷ seq) out_size used =
    let written = snprintf_hex (out_size - used) b in
    let rest = length-format_hex seq out_size (used + length written) in
    let short : length written ≤ 4 = length-snprintf_hex (out_size - used - 1) b in
    elim (Bool-cases (ltb used (room out_size))) [
      | inr full ↦ rw full (omega arith)
      | inl more ↦ rw more (
          omega (
            arith,
            rest,
            short,
            length-append written (format_hex out_size (used + length written) seq),
          ))
    ]

length-pad :
    (width : ℕ) (s : List ℕ) (bound : ℕ)
    → width ≤ bound
    → length s ≤ bound
    → length (pad width s) ≤ bound
length-pad width s bound narrow short =
    let blank : ℕ = 32 in
    omega (
      arith,
      length-append s (replicate (width - length s) blank),
      length-replicate (width - length s) blank,
    )

-- The text of a mapping's line has no newline in it.
pub one_line :
    (e : KeyMapEntry) (width : ℕ) → IsPrintable e → lacks newline (entry_text width e) ≡ true
one_line e width printable =
    let hex = keymap_format_sequence_hex e.sequence seq_hex_len in
    let keys = e.keydos in
    let field =
      λ (b : ℕ) (lt : b < 256). plain-lacks newline (hex_field b) refl (hex_field-plain b lt) in
    let scan = field keys.bios_scan_code printable.scan_byte in
    let ascii = field keys.ascii_value printable.ascii_byte in
    let flags = field keys.flags_17 printable.flags_byte in
    let seq = plain-lacks newline hex refl (sequence_plain e.sequence printable.bytes) in
    let keys_lack =
      lacks-append newline (hex_field keys.bios_scan_code)
        (between (hex_field keys.ascii_value ++ between (hex_field keys.flags_17))) scan
        (lacks-append newline (hex_field keys.ascii_value) (between (hex_field keys.flags_17)) ascii
          flags) in
    column_lacks e.description (width - length e.description) _ newline refl
      printable.title.one_line (column_lacks hex (25 - length hex) _ newline refl seq keys_lack)

pub line_length :
    (e : KeyMapEntry) (width : ℕ) → IsPrintable e → width ≤ 480 → length (entry_text width e) < 1023
unfolding keymap_format_sequence_hex
line_length e width printable narrow =
    let hex = keymap_format_sequence_hex e.sequence seq_hex_len in
    let keys = e.keydos in
    let behind = between (
      hex_field keys.bios_scan_code
      ++ between (hex_field keys.ascii_value ++ between (hex_field keys.flags_17))) in
    let hex_short = length-format_hex e.sequence seq_hex_len 0 in
    let title = length-pad width e.description 480 narrow printable.title_fits in
    let column = length-pad 25 hex 508 (omega arith) (omega (arith, printable.sequence_fits)) in
    omega (
      arith,
      length-append (pad width e.description) (between (pad 25 hex ++ behind)),
      length-append (pad 25 hex) behind,
    )

split_titled :
    (desc : List ℕ) (n b c d e : ℕ) (bs cs ds es : List ℕ)
    → starts_visible desc ≡ true
    → lacks pipe desc ≡ true
    → lacks pipe (b ∷ bs) ≡ true
    → lacks pipe (c ∷ cs) ≡ true
    → lacks pipe (d ∷ ds) ≡ true
    → lacks pipe (e ∷ es) ≡ true
    → split_line (
        infront
          (desc ++ replicate n 32)
          (infront (b ∷ bs) (infront (c ∷ cs) (infront (d ∷ ds) (e ∷ es)))))
      ≡ present
          (some (desc ++ replicate n 32))
          (some (b ∷ bs))
          (some (c ∷ cs))
          (some (d ∷ ds))
          (some (e ∷ es))
split_titled [] n b c d e bs cs ds es visible ha hb hc hd he = absurd (false≢true visible)
split_titled (a ∷ s) n b c d e bs cs ds es visible ha hb hc hd he =
    let first = lacks-append pipe (a ∷ s) (replicate n 32) ha (lacks-replicate pipe 32 n refl) in
    split-fields a b c d e (s ++ replicate n 32) bs cs ds es first hb hc hd he

parse_line-text :
    (line text : List ℕ)
    → trim line ≡ text
    → is_comment text ≡ false
    → is_nil text ≡ false
    → parse_line line ≡ split_line text
unfolding parse_line
parse_line-text line text trimmed no_comment some_text =
    let no_comment' = ap is_comment trimmed ∙ no_comment in
    let some_text' = ap is_nil trimmed ∙ some_text in rw (no_comment', some_text', trimmed) refl

-- The line of a mapping, whatever the width of its first column, is read back as that mapping.
pub parse-entry_text :
    (e : KeyMapEntry) (width : ℕ)
    → IsPrintable e
    → parse_line (entry_text width e ++ newline ∷ []) ≡ some e
parse-entry_text e width printable =
    let (n, m, text) = entry_text_columns e width in
    let hex = keymap_format_sequence_hex e.sequence seq_hex_len in
    let keys = e.keydos in
    let t = printable.title in
    let flags = 32 ∷ hex_field keys.flags_17 in
    let rest =
      pipe
      ∷ infront (32 ∷ hex ++ replicate (suc m) 32)
          (infront (numeral keys.bios_scan_code) (infront (numeral keys.ascii_value) flags)) in
    let ends : Ends rest =
      let last =
        append-Ends (32 ∷ []) (hex_field keys.flags_17)
          (hex_field-Ends keys.flags_17 printable.flags_byte) in
      let numerals =
        append-Ends
          (pipe ∷ infront (numeral keys.bios_scan_code) (infront (numeral keys.ascii_value) []))
          flags last in
      append-Ends (pipe ∷ []) _ (append-Ends (32 ∷ hex ++ replicate (suc m) 32) _ numerals) in
    let trimmed =
      ap (λ s. trim (s ++ newline ∷ [])) text
      ∙ trim_titled e.description (suc n) rest t.visible ends in
    let no_comment = no_comment_line e.description n rest t.visible t.no_comment in
    let some_text = is_nil_line e.description (suc n) rest t.visible in
    let field =
      λ (b : ℕ) (lt : b < 256). plain-lacks pipe (hex_field b) refl (hex_field-plain b lt) in
    let lacks_numeral =
      λ (b : ℕ) (lt : b < 256). lacks-append pipe (hex_field b) (32 ∷ []) (field b lt) refl in
    let lacks_hex =
      lacks-append pipe hex (replicate (suc m) 32)
        (plain-lacks pipe hex refl (sequence_plain e.sequence printable.bytes))
        (lacks-replicate pipe 32 (suc m) refl) in
    parse_line-text (entry_text width e ++ newline ∷ []) _ trimmed no_comment some_text
    ∙ split_titled e.description (suc n) _ _ _ _ _ _ _ _ t.visible t.one_field lacks_hex
        (lacks_numeral keys.bios_scan_code printable.scan_byte)
        (lacks_numeral keys.ascii_value printable.ascii_byte)
        (field keys.flags_17 printable.flags_byte)
    ∙ present-fields e printable (suc n) (suc m)
