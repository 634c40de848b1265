-- ===== src/Keymap/Text.antt =====
-- The C library's string functions, as far as src/client/keymaplib.c uses them, and _trim.
use rmtdos.Base.{
  ℕ, ◌+◌, ◌*◌, ◌-◌, Option, none, some, List, [], ◌∷◌, ◌==◌, ltb, leb, ◌&&◌, ◌||◌, not,
  if◌then◌else◌, Bool, true, false,
}

abbrev pub is_nil : List ℕ → Bool
is_nil [] = true
is_nil (c ∷ s) = false

-- isspace in the C locale
abbrev pub isspace : ℕ → Bool
isspace c = c == 32 || (leb 9 c && leb c 13)

unfoldable pub trim_start : List ℕ → List ℕ
trim_start [] = []
trim_start (c ∷ s) = if isspace c then trim_start s else c ∷ s

unfoldable pub trim_end : List ℕ → List ℕ
trim_end [] = []
trim_end (c ∷ s) = let rest = trim_end s in if is_nil rest && isspace c then [] else c ∷ rest

unfoldable pub trim : List ℕ → List ℕ
unfolding trim_start trim_end
trim s = trim_end (trim_start s)

-- The part of a string before a character: a NUL is written over what strchr finds.
unfoldable pub cut_at : ℕ → List ℕ → List ℕ
cut_at mark [] = []
cut_at mark (c ∷ s) = if c == mark then [] else c ∷ cut_at mark s

-- What follows the first delimiter.
unfoldable pub after : ℕ → List ℕ → List ℕ
after mark [] = []
after mark (c ∷ s) = if c == mark then s else after mark s

unfoldable pub skip : ℕ → List ℕ → List ℕ
skip mark [] = []
skip mark (c ∷ s) = if c == mark then skip mark s else c ∷ s

-- strtok with one delimiter: the token, or `none` for NULL, and what the next call works on.
unfoldable pub strtok : ℕ → List ℕ → Option (List ℕ) × List ℕ
unfolding cut_at after skip
strtok mark s =
    let s' = skip mark s in if is_nil s' then (none, []) else (some (cut_at mark s'), after mark s')

-- A digit's value, in any base.
abbrev pub digit_value : ℕ → Option ℕ
digit_value c =
    if leb b'0' c && leb c b'9'
    then some (c - b'0')
    else if leb b'a' c && leb c b'z'
    then some (c - b'a' + 10)
    else if leb b'A' c && leb c b'Z'
    then some (c - b'A' + 10)
    else none

abbrev pub is_digit : ℕ → ℕ → Bool
is_digit base c = elim (digit_value c) [ none ↦ false | some v ↦ ltb v base ]

abbrev pub value_of : ℕ → ℕ
value_of c = elim (digit_value c) [ none ↦ 0 | some v ↦ v ]

-- What strtol reads: its magnitude, and the string that `endptr` is left at.
abbrev pub digits : ℕ → List ℕ → ℕ → ℕ × List ℕ
digits base [] acc = (acc, [])
digits base (c ∷ s) acc =
    if is_digit base c then digits base s (acc * base + value_of c) else (acc, c ∷ s)

-- The digits must be there, or nothing is read.
number : ℕ → (whole : List ℕ) → List ℕ → ℕ × List ℕ
number base whole [] = (0, whole)
number base whole (c ∷ s) = if is_digit base c then digits base (c ∷ s) 0 else (0, whole)

-- The prefix that selects base 16 or, for base 0, base 8.
prefixed : ℕ → (whole : List ℕ) → List ℕ → ℕ × List ℕ
unfolding number
prefixed base whole (z ∷ x ∷ h ∷ s) =
    if z == b'0' && (x == b'x' || x == b'X') && is_digit 16 h && (base == 0 || base == 16)
    then digits 16 (h ∷ s) 0
    else number (if base == 0 then (if z == b'0' then 8 else 10) else base) whole (z ∷ x ∷ h ∷ s)
prefixed base whole (z ∷ s) =
    number (if base == 0 then (if z == b'0' then 8 else 10) else base) whole (z ∷ s)
prefixed base whole [] = (0, whole)

-- Whether there is a minus sign, the magnitude, and the rest.
signed : ℕ → (whole : List ℕ) → List ℕ → Bool × ℕ × List ℕ
unfolding prefixed
signed base whole [] = (false, 0, whole)
signed base whole (c ∷ s) =
    if c == b'-'
    then (let (n, rest) = prefixed base whole s in (true, n, rest))
    else if c == b'+'
    then (let (n, rest) = prefixed base whole s in (false, n, rest))
    else (let (n, rest) = prefixed base whole (c ∷ s) in (false, n, rest))

-- strtol, for the bases 0 and 16. A value beyond `long` is far beyond the limit that is tested here.
unfoldable pub strtol : ℕ → List ℕ → Bool × ℕ × List ℕ
unfolding signed trim_start
strtol base s = signed base s (trim_start s)

-- strtol, with the test *endptr != '\0' || val < 0 || val > 0xFF that follows each call.
unfoldable pub parse_byte : ℕ → List ℕ → Option ℕ
unfolding strtol
parse_byte base s =
    let (negative, val, rest) = strtol base s in
    if not (is_nil rest) || (negative && ltb 0 val) || ltb 255 val then none else some val
