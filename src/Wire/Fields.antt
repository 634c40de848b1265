-- ===== src/Wire/Fields.antt =====
-- The bytes of a field of a frame make up what was written into it.
use rmtdos.Base.{ℕ, ◌+◌, ◌*◌, ◌/◌, ◌%◌, ◌<◌, ◌≡◌, refl, List, [], ◌∷◌, arith, length}
use rmtdos.Base.Memory.{slice, of_list}

-- The bytes of a 16-bit and of a 32-bit field make up its value.
pub join16 : (v : ℕ) → v < 65536 → v / 256 % 256 * 256 + v % 256 ≡ v
join16 v h = omega arith

pub join32 :
    (v : ℕ)
    → v < 4294967296
    → (v / 65536 % 65536 / 256 % 256 * 256 + v / 65536 % 65536 % 256) * 65536
        + (v % 65536 / 256 % 256 * 256 + v % 65536 % 256)
      ≡ v
join32 v h = omega arith

pub slice-of_list : (mac : List ℕ) → length mac ≡ 6 → slice (of_list mac) 0 6 ≡ mac
slice-of_list [] h = absurd (omega arith)
slice-of_list (a ∷ []) h = absurd (omega arith)
slice-of_list (a ∷ b ∷ []) h = absurd (omega arith)
slice-of_list (a ∷ b ∷ c ∷ []) h = absurd (omega arith)
slice-of_list (a ∷ b ∷ c ∷ d ∷ []) h = absurd (omega arith)
slice-of_list (a ∷ b ∷ c ∷ d ∷ e ∷ []) h = absurd (omega arith)
slice-of_list (a ∷ b ∷ c ∷ d ∷ e ∷ f ∷ []) h = refl
slice-of_list (a ∷ b ∷ c ∷ d ∷ e ∷ f ∷ g ∷ r) h = absurd (omega arith)
