-- ===== src/Display/Characters.antt =====
-- cp437_table_init of src/client/curses.c: the string that each code of the DOS machine's characters is
-- shown as. iconv is the system's: it is a parameter that gives the string in UTF-8 for the string of one
-- character of code page 437, or `none` for its failure. A string is without the zero that ends it.
use rmtdos.Base.{
  ℕ, zero, suc, ◌+◌, ◌/◌, ◌%◌, ◌≤◌, ◌<◌, ◌≡◌, ◌≢◌, ◌⊎◌, inl, inr, refl, ap, ◌∙◌, sym, Option, none,
  some, List, [], ◌∷◌, ltb, ◌==◌, if◌then◌else◌, get_elem?, get_elem?-in_range, arith, Option-cases,
  Bool-cases,
}

-- The compiler's encoding of \u with four digits.
abbrev pub utf8 : ℕ → List ℕ
utf8 c =
    if ltb c 0x80
    then c ∷ []
    else if ltb c 0x800
    then (0xc0 + c / 64) ∷ (0x80 + c % 64) ∷ []
    else (0xe0 + c / 4096) ∷ (0x80 + c / 64 % 64) ∷ (0x80 + c % 64) ∷ []

-- control_chars
abbrev pub control_chars : List ℕ
control_chars =
    0x20 ∷ 0x263a ∷ 0x263b ∷ 0x2665 ∷ 0x2666 ∷ 0x2663 ∷ 0x2660 ∷ 0x2022 ∷ 0x25d8 ∷ 0x25cb ∷ 0x25d9
    ∷ 0x2642 ∷ 0x2640 ∷ 0x266a ∷ 0x266b ∷ 0x263c ∷ 0x25ba ∷ 0x25c4 ∷ 0x2195 ∷ 0x203c ∷ 0xb6 ∷ 0xa7
    ∷ 0x25ac ∷ 0x21a8 ∷ 0x2191 ∷ 0x2193 ∷ 0x2192 ∷ 0x2190 ∷ 0x221f ∷ 0x2194 ∷ 0x25b2 ∷ 0x25bc ∷ []

abbrev pub Table : Type 0
Table = ℕ → List ℕ

abbrev pub put_string : Table → ℕ → List ℕ → Table
put_string t i text c = if c == i then text else t c

-- The first loop; the table is of zeros before.
abbrev pub control_table : Table
control_table c = elim (get_elem? control_chars c) [ none ↦ [] | some code ↦ utf8 code ]

module _ (iconv : ℕ → Option (List ℕ)) where
  -- The second loop, of which `n` rounds are left from `i` on; `none` is the exit.
  unfoldable pub convert_from : (n i : ℕ) → Table → Option Table
  convert_from zero i t = some t
  convert_from (suc n) i t = elim (iconv i) [
    | none ↦ none
    | some text ↦ convert_from n (i + 1) (put_string t i text)
  ]

  unfoldable pub cp437_table_init : Option Table
  unfolding convert_from
  cp437_table_init = elim (convert_from 224 32 control_table) [
    | none ↦ none
    | some t ↦ some (put_string t 127 (utf8 0x2302))
  ]

  -- What the second loop leaves: the codes before `i` and from `i + n` on as they were, and each other
  -- one as iconv has it.
  record Converted (n i : ℕ) (t t' : Table) : Type 0 where
    kept : (c : ℕ) → (c < i) ⊎ (i + n ≤ c) → t' c ≡ t c
    made : (c : ℕ) → i ≤ c → c < i + n → iconv c ≡ some (t' c)

  convert_from-Converted :
      (n i : ℕ) (t : Table)
      → ((c : ℕ) × (i ≤ c) × (c < i + n) × (iconv c ≡ none) × (convert_from n i t ≡ none))
        ⊎ ((t' : Table) × (convert_from n i t ≡ some t') × Converted n i t t')
  unfolding convert_from
  convert_from-Converted zero i t =
      inr (t, refl, record { kept = λ c away. refl; made = λ c low high. absurd (omega arith) })
  convert_from-Converted (suc n) i t = elim (Option-cases (iconv i)) [
    | inl fails ↦ inl (i, omega arith, omega arith, fails, rw (convert_from, fails) refl)
    | inr (text, given) ↦ elim (convert_from-Converted n (i + 1) (put_string t i text)) [
      | inl (c, low, high, fails, exits) ↦
          inl (c, omega arith, omega arith, fails, rw (convert_from, given) exits)
      | inr (t', returns, d) ↦ inr (
        t',
        rw (convert_from, given) returns,
        record {
          kept = λ c away. elim away [
            | inl before ↦ d.kept c (inl (omega arith)) ∙ ground arith
            | inr behind ↦ d.kept c (inr (omega arith)) ∙ ground arith
          ];
          made = λ c low high. elim (Bool-cases (c == i)) [
            | inl first ↦
                let e : c ≡ i = ground arith in
                let put : put_string t i text c ≡ text = ground arith in
                ap iconv e ∙ given ∙ ap some (sym (d.kept c (inl (omega (arith, e))) ∙ put))
            | inr later ↦ d.made c (ground arith) (omega arith)
          ];
        },
      )
    ]
  ]

  -- What each code of the finished table is shown as.
  pub record Printable (t : Table) : Type 0 where
    pub control : (c code : ℕ) → get_elem? control_chars c ≡ some code → t c ≡ utf8 code
    pub house : t 127 ≡ utf8 0x2302
    pub character : (c : ℕ) → 32 ≤ c → c < 256 → c ≢ 127 → iconv c ≡ some (t c)

  control_below : (c code : ℕ) → get_elem? control_chars c ≡ some code → c < 32
  control_below c code h = get_elem?-in_range control_chars c h

  -- The client ends when iconv fails for one of the codes from 32 to 255, and else the table has a string
  -- for each code: its own ones for the control codes and for 127, and those of iconv.
  pub cp437_table_init_lem :
      ((c : ℕ) × (32 ≤ c) × (c < 256) × (iconv c ≡ none) × (cp437_table_init ≡ none))
      ⊎ ((t : Table) × (cp437_table_init ≡ some t) × Printable t)
  unfolding cp437_table_init
  cp437_table_init_lem = elim (convert_from-Converted 224 32 control_table) [
    | inl (c, low, high, fails, exits) ↦
        inl (c, low, omega arith, fails, rw (cp437_table_init, exits) refl)
    | inr (t, returns, d) ↦ inr (
      put_string t 127 (utf8 0x2302),
      rw (cp437_table_init, returns) refl,
      record {
        control = λ c code at.
            let below = control_below c code at in
            let put : put_string t 127 (utf8 0x2302) c ≡ t c = ground arith in
            put ∙ d.kept c (inl below) ∙ rw at refl;
        house = refl;
        character = λ c low high other.
            let put : put_string t 127 (utf8 0x2302) c ≡ t c = ground arith in
            d.made c low (omega arith) ∙ ap some (sym put);
      },
    )
  ]
