-- ===== src/Hex2int.antt =====
-- hex_to_uint16 of src/lib16/hex2int.c: the server's parser of an EtherType, on a `uint16_t`.
use rmtdos.Base.{
  ℕ, ◌+◌, ◌-◌, ◌*◌, ◌/◌, ◌%◌, ◌<◌, ◌≡◌, Option, none, some, List, [], ◌∷◌, ltb, leb, ◌&&◌,
  if◌then◌else◌, arith,
}

-- A digit's value; `none` is `break`.
pub hex_value : ℕ → Option ℕ
hex_value c =
    if leb b'0' c && leb c b'9'
    then some (c - b'0')
    else if leb b'A' c && leb c b'F'
    then some (c - b'A' + 10)
    else if leb b'a' c && leb c b'f'
    then some (c - b'a' + 10)
    else none

-- The loop. The four bits that r << 4 shifts in are zero, so that `|` of a digit adds it.
hex_loop : ℕ → List ℕ → ℕ
unfolding hex_value
hex_loop r [] = r
hex_loop r (c ∷ str) = elim (hex_value c) [ none ↦ r | some v ↦ hex_loop (r * 16 % 65536 + v) str ]

pub hex_to_uint16 : List ℕ → ℕ
unfolding hex_loop
hex_to_uint16 str = hex_loop 0 str

-- Four hexadecimal digits, of the upper or the lower case.
pub digit : ℕ → ℕ
digit d = if ltb d 10 then b'0' + d else b'a' + (d - 10)

hex_value-digit : (d : ℕ) → d < 16 → hex_value (digit d) ≡ some d
unfolding hex_value digit
hex_value-digit d lt = ground arith

-- The four hexadecimal digits of a number of 16 bits are read as the number.
pub hex_to_uint16-digits :
    (n : ℕ)
    → n < 65536
    → hex_to_uint16
        (digit (n / 4096) ∷ digit (n / 256 % 16) ∷ digit (n / 16 % 16) ∷ digit (n % 16) ∷ [])
      ≡ n
unfolding hex_to_uint16
hex_to_uint16-digits n lt =
    let d3 = hex_value-digit (n / 4096) (omega arith) in
    let d2 = hex_value-digit (n / 256 % 16) (omega arith) in
    let d1 = hex_value-digit (n / 16 % 16) (omega arith) in
    let d0 = hex_value-digit (n % 16) (omega arith) in rw (hex_loop, d3, d2, d1, d0) (omega arith)
