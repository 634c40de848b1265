-- ===== src/Base/Memory.antt =====
-- Byte memory as C code sees it: an object is read and written at offsets from its start, and
-- multi-byte fields travel in network byte order.
use Prim.Native.Nat.{ℕ, zero, suc, ◌+◌, ◌-◌, ◌*◌, ◌/◌, ◌%◌}
use mathlib.Core.List.{List, [], ◌∷◌}
use mathlib.Core.Bool.{◌&&◌}
use rmtdos.Base.Tests.{ltb, leb, if◌then◌else◌}

-- What stands behind the end of an object is whatever follows it in memory.
abbrev pub Bytes : Type 0
Bytes = ℕ → ℕ

abbrev pub zeros : Bytes
zeros i = 0

-- memcpy(dest + at, src + from, n)
abbrev pub memcpy : Bytes → ℕ → Bytes → ℕ → ℕ → Bytes
memcpy dest at src from n i = if leb at i && ltb i (at + n) then src (from + (i - at)) else dest i

-- memset(dest + at, v, n)
abbrev pub memset : Bytes → ℕ → ℕ → ℕ → Bytes
memset dest at v n i = if leb at i && ltb i (at + n) then v else dest i

abbrev pub store8 : Bytes → ℕ → ℕ → Bytes
store8 m at v = memset m at v 1

-- A 16-bit field written through htons, and read through ntohs.
abbrev pub store16 : Bytes → ℕ → ℕ → Bytes
store16 m at v = store8 (store8 m at (v / 256 % 256)) (at + 1) (v % 256)

abbrev pub load16 : Bytes → ℕ → ℕ
load16 m at = m at * 256 + m (at + 1)

-- A 32-bit field written through htonl, and read through ntohl.
abbrev pub store32 : Bytes → ℕ → ℕ → Bytes
store32 m at v = store16 (store16 m at (v / 65536 % 65536)) (at + 2) (v % 65536)

abbrev pub load32 : Bytes → ℕ → ℕ
load32 m at = load16 m at * 65536 + load16 m (at + 2)

-- The `n` bytes from `at` on.
abbrev pub slice : Bytes → ℕ → ℕ → List ℕ
slice m at zero = []
slice m at (suc n) = m at ∷ slice m (at + 1) n

-- A list of bytes as an object, with zeros behind it.
abbrev pub of_list : List ℕ → Bytes
of_list [] i = 0
of_list (x ∷ xs) zero = x
of_list (x ∷ xs) (suc i) = of_list xs i
