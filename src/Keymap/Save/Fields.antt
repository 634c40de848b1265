-- ===== src/Keymap/Save/Fields.antt =====
-- The fields that keymap_save of src/client/keymaplib.c prints, as strtok, _trim and strtol of
-- keymap_load find them.
use rmtdos.Base.{
  ℕ, zero, suc, ◌≡◌, some, List, [], ◌∷◌, ◌++◌, ◌==◌, ◌&&◌, not, replicate, Bool, true, false, refl,
  ◌∙◌, ap, arith, Bool-cases, inl, inr,
}
use rmtdos.Keymap.Text.{isspace, is_nil, trim, trim_start, trim_end, cut_at, strtok, after, skip}

-- A character that a text does not have.
abbrev pub lacks : ℕ → List ℕ → Bool
lacks mark [] = true
lacks mark (c ∷ s) = not (c == mark) && lacks mark s

pub lacks-append :
    (mark : ℕ) (s t : List ℕ)
    → lacks mark s ≡ true
    → lacks mark t ≡ true
    → lacks mark (s ++ t) ≡ true
lacks-append mark [] t hs ht = ht
lacks-append mark (c ∷ s) t hs ht = ground (arith, lacks-append mark s t)

pub lacks-replicate : (mark c n : ℕ) → (c == mark) ≡ false → lacks mark (replicate n c) ≡ true
lacks-replicate mark c zero h = refl
lacks-replicate mark c (suc n) h = rw (h, lacks-replicate mark c n h) refl

pub cut_at-lacks : (mark : ℕ) (s : List ℕ) → lacks mark s ≡ true → cut_at mark s ≡ s
unfolding cut_at
cut_at-lacks mark [] h = refl
cut_at-lacks mark (c ∷ s) h =
    let other : (c == mark) ≡ false = ground arith in
    rw other (ap (λ t. c ∷ t) (cut_at-lacks mark s (ground arith)))

cut_at-field :
    (mark : ℕ) (s rest : List ℕ) → lacks mark s ≡ true → cut_at mark (s ++ mark ∷ rest) ≡ s
unfolding cut_at
cut_at-field mark [] rest h = let here : (mark == mark) ≡ true = ground arith in rw here refl
cut_at-field mark (c ∷ s) rest h =
    let other : (c == mark) ≡ false = ground arith in
    rw other (ap (λ t. c ∷ t) (cut_at-field mark s rest (ground arith)))

after-field :
    (mark : ℕ) (s rest : List ℕ) → lacks mark s ≡ true → after mark (s ++ mark ∷ rest) ≡ rest
unfolding after
after-field mark [] rest h = let here : (mark == mark) ≡ true = ground arith in rw here refl
after-field mark (c ∷ s) rest h =
    let other : (c == mark) ≡ false = ground arith in
    rw other (after-field mark s rest (ground arith))

after-lacks : (mark : ℕ) (s : List ℕ) → lacks mark s ≡ true → after mark s ≡ []
unfolding after
after-lacks mark [] h = refl
after-lacks mark (c ∷ s) h =
    let other : (c == mark) ≡ false = ground arith in rw other (after-lacks mark s (ground arith))

-- A field that is not empty is the next token, up to its delimiter.
pub strtok_field :
    (mark c : ℕ) (s rest : List ℕ)
    → lacks mark (c ∷ s) ≡ true
    → strtok mark ((c ∷ s) ++ mark ∷ rest) ≡ (some (c ∷ s), rest)
unfolding strtok skip
strtok_field mark c s rest h =
    let other : (c == mark) ≡ false = ground arith in
    let cut = cut_at-field mark (c ∷ s) rest h in
    let behind = after-field mark (c ∷ s) rest h in rw (other, cut, behind) refl

pub strtok_last :
    (mark c : ℕ) (s : List ℕ) → lacks mark (c ∷ s) ≡ true → strtok mark (c ∷ s) ≡ (some (c ∷ s), [])
unfolding strtok skip
strtok_last mark c s h =
    let other : (c == mark) ≡ false = ground arith in
    let cut = cut_at-lacks mark (c ∷ s) h in
    let behind = after-lacks mark (c ∷ s) h in rw (other, cut, behind) refl

-- Blanks behind a text are trimmed, and a text that ends in no blank is kept.
pub trim_end-append : (s t : List ℕ) → trim_end t ≡ [] → trim_end (s ++ t) ≡ trim_end s
unfolding trim_end
trim_end-append [] t h = h
trim_end-append (c ∷ s) t h = rw (trim_end-append s t h) refl

pub trim_end-keeps :
    (s : List ℕ) (c : ℕ) (t : List ℕ)
    → trim_end (c ∷ t) ≡ c ∷ t
    → trim_end (s ++ c ∷ t) ≡ s ++ c ∷ t
unfolding trim_end
trim_end-keeps [] c t h = h
trim_end-keeps (d ∷ []) c t h = rw (trim_end-keeps [] c t h) refl
trim_end-keeps (d ∷ e ∷ s) c t h = rw (trim_end-keeps (e ∷ s) c t h) refl

pub trim_end-blanks : (n : ℕ) → trim_end (replicate n 32) ≡ []
unfolding trim_end
trim_end-blanks zero = refl
trim_end-blanks (suc n) = rw (trim_end-blanks n) refl

trim_start-blanks : (n : ℕ) (s : List ℕ) → trim_start (replicate n 32 ++ s) ≡ trim_start s
unfolding trim_start
trim_start-blanks zero s = refl
trim_start-blanks (suc n) s = trim_start-blanks n s

pub trim-blanks : (n : ℕ) → trim (replicate n 32) ≡ []
unfolding trim trim_end trim_start
trim-blanks zero = refl
trim-blanks (suc n) = trim-blanks n

-- Neither blank nor delimiter.
abbrev pub are_visible : List ℕ → Bool
are_visible [] = true
are_visible (c ∷ s) = not (isspace c) && are_visible s

pub trim_end-visible : (s : List ℕ) → are_visible s ≡ true → trim_end s ≡ s
unfolding trim_end
trim_end-visible [] h = refl
trim_end-visible (c ∷ s) h =
    let other : isspace c ≡ false = ground arith in
    rw (trim_end-visible s (ground arith), other)
      (elim (Bool-cases (is_nil s)) [ inl e ↦ rw e refl | inr e ↦ rw e refl ])

-- The text that a padded column holds.
pub trim_column : (s : List ℕ) (n : ℕ) → are_visible s ≡ true → trim (32 ∷ s ++ replicate n 32) ≡ s
unfolding trim trim_start
trim_column [] n h = trim-blanks n
trim_column (c ∷ s) n h =
    let other : isspace c ≡ false = ground arith in
    rw other
      (trim_end-append (c ∷ s) (replicate n 32) (trim_end-blanks n) ∙ trim_end-visible (c ∷ s) h)
