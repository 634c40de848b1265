-- ===== src/Keymap/Hex.antt =====
-- keymap_format_sequence_hex and _parse_hex_sequence of src/client/keymaplib.c: what is saved is what
-- is loaded.
use rmtdos.Base.{
  ℕ, zero, suc, take, ap, ◌+◌, ◌-◌, ◌*◌, ◌/◌, ◌%◌, ◌<◌, ◌≤◌, ◌≡◌, none, some, List, [], ◌∷◌, ◌==◌,
  Bool, true, false, inl, inr, ltb, lt→ltb, Option-cases, arith, all_below, all_below-holds, length,
  refl,
}
use rmtdos.Keymap.{
  hex_digit, hex_byte, snprintf_hex, format_hex, room, keymap_format_sequence_hex, parse_hex_groups,
  parse_hex_sequence,
}
use rmtdos.Keymap.Text.{parse_byte}

-- Every byte of a sequence is one.
abbrev pub AreBytes : List ℕ → Type 0
AreBytes [] = Unit {0}
AreBytes (b ∷ seq) = (b < 256) × AreBytes seq

abbrev reads_back : ℕ → Bool
reads_back b = elim (parse_byte 16 (hex_digit (b / 16) ∷ hex_digit (b % 16) ∷ [])) [
  | none ↦ false
  | some val ↦ val == b
]

all_read_back : all_below reads_back 256 ≡ true
unfolding parse_byte
all_read_back = refl

parse_byte-hex_digits :
    (b : ℕ) → b < 256 → parse_byte 16 (hex_digit (b / 16) ∷ hex_digit (b % 16) ∷ []) ≡ some b
parse_byte-hex_digits b lt =
    let read = all_below-holds reads_back 256 b all_read_back lt in
    elim (Option-cases (parse_byte 16 (hex_digit (b / 16) ∷ hex_digit (b % 16) ∷ []))) [
      | inl e ↦ (let contradiction : false ≡ true = rw (e, reads_back) at read in cc)
      | inr (val, e) ↦
          (let same : (val == b) ≡ true = rw (e, reads_back) at read in
            let equal : val ≡ b = ground arith in cc (e, equal))
    ]

take-all : (n : ℕ) (s : List ℕ) → length s ≤ n → take n s ≡ s
take-all zero [] enough = refl
take-all (suc n) [] enough = refl
take-all zero (c ∷ s) enough = absurd (omega (arith, enough))
take-all (suc n) (c ∷ s) enough = ap (λ l. c ∷ l) (take-all n s (omega (arith, enough)))

-- Five bytes are enough for one byte of a sequence.
whole_byte : (size b : ℕ) → 5 ≤ size → snprintf_hex size b ≡ hex_byte b
whole_byte size b enough = take-all (size - 1) (hex_byte b) (omega (arith, enough))

format_hex_lem :
    (seq : List ℕ) (out_size used : ℕ)
    → AreBytes seq
    → used + 4 * length seq + 2 ≤ out_size
    → out_size < 18446744073709551616
    → parse_hex_groups (format_hex out_size used seq) ≡ some seq
unfolding format_hex parse_hex_groups
format_hex_lem [] out_size used bytes fits small = refl
format_hex_lem (b ∷ seq) out_size used bytes fits small =
    let whole = whole_byte (out_size - used) b (omega (arith, fits)) in
    let fits_now : ltb used (room out_size) ≡ true = lt→ltb used (room out_size) (omega arith) in
    let digits = parse_byte-hex_digits b bytes.0 in
    let rest = format_hex_lem seq out_size (used + 4) bytes.1 (omega arith) small in
    rw (whole, fits_now, digits, rest) refl

-- What keymap_format_sequence_hex writes for a sequence of bytes is read back as that sequence,
-- where two bytes more than four for each byte of it fit the caller's buffer, whose size is a
-- size_t: for the 512 bytes of keymap_save these are sequences of up to 127 bytes.
pub parse-format_hex :
    (seq : List ℕ) (out_size : ℕ)
    → AreBytes seq
    → 4 * length seq + 2 ≤ out_size
    → out_size < 18446744073709551616
    → parse_hex_sequence (keymap_format_sequence_hex seq out_size) ≡ some seq
unfolding parse_hex_sequence keymap_format_sequence_hex
parse-format_hex seq out_size bytes fits small =
    format_hex_lem seq out_size 0 bytes (omega arith) small
