-- ===== src/VgaDemo/Pattern.antt =====
-- Where draw_test_pattern of src/vga_demo/vga_demo.c writes.
use rmtdos.Base.{
  ℕ, zero, suc, ◌+◌, ◌*◌, ◌<◌, ◌≤◌, ◌≡◌, ◌≢◌, refl, ap, List, [], ◌∷◌, ◌++◌, ◌==◌, ltb, some, arith,
  length, get_elem?, Bool, Bool-cases, inl, inr, subst,
}
use rmtdos.Protocol.{VideoState}
use rmtdos.VgaDemo.{
  Write, for_below, x_pitch, y_pitch, x_offset, headings, by_character, by_color, draw_test_pattern,
  y_offset, text_of,
}

abbrev pub All {ℓ κ} : {A : Type ℓ} → (A → Type κ) → List A → Type κ
All P [] = Unit
All P (x ∷ xs) = P x × All P xs

pub All-append {ℓ κ} :
    {A : Type ℓ} (P : A → Type κ) (xs ys : List A) → All P xs → All P ys → All P (xs ++ ys)
All-append P [] ys h k = k
All-append P (x ∷ xs) ys h k = (h.0, All-append P xs ys h.1 k)

All-for_below {ℓ κ} :
    {A : Type ℓ} (P : A → Type κ) (n : ℕ) (body : ℕ → List A)
    → ((i : ℕ) → i < n → All P (body i))
    → All P (for_below n body)
unfolding for_below
All-for_below P zero body h = tt
All-for_below P (suc n) body h =
    All-append P (for_below n body) (body n) (All-for_below P n body (λ i lt. h i (omega arith)))
      (h n (omega arith))

-- The value stands somewhere in the list.
abbrev pub Occurs {ℓ} : {A : Type ℓ} → A → List A → Type ℓ
Occurs a xs = (i : ℕ) × (get_elem? xs i ≡ some a)

Occurs-left {ℓ} : {A : Type ℓ} (a : A) (xs ys : List A) → Occurs a xs → Occurs a (xs ++ ys)
Occurs-left a [] ys (i, at) = cc
Occurs-left a (x ∷ xs) ys (zero, at) = (0, at)
Occurs-left a (x ∷ xs) ys (suc i, at) = let (j, at') = Occurs-left a xs ys (i, at) in (suc j, at')

Occurs-right {ℓ} : {A : Type ℓ} (a : A) (xs ys : List A) → Occurs a ys → Occurs a (xs ++ ys)
Occurs-right a [] ys h = h
Occurs-right a (x ∷ xs) ys h = let (j, at) = Occurs-right a xs ys h in (suc j, at)

Occurs-for_below {ℓ} :
    {A : Type ℓ} (a : A) (n : ℕ) (body : ℕ → List A) (i : ℕ)
    → i < n
    → Occurs a (body i)
    → Occurs a (for_below n body)
unfolding for_below
Occurs-for_below a zero body i lt h = elim lt [ ]
Occurs-for_below a (suc n) body i lt h = elim (Bool-cases (i == n)) [
  | inl last ↦
      let e : i ≡ n = ground arith in
      Occurs-right a (for_below n body) (body n) (subst (λ k. Occurs a (body k)) e h)
  | inr before ↦
      Occurs-left a (for_below n body) (body n) (Occurs-for_below a n body i (ground arith) h)
]

-- A write of at most one character, on the screen.
abbrev pub OnScreen : VideoState → Write → Type 0
OnScreen vga w = (w.x < vga.text_cols) × (w.y < vga.text_rows) × (length w.str ≤ 1)

module _ (char_signed : Bool) (vga : VideoState) (active_char : ℕ) where
  -- The rows of the two grids, and what is below them.
  low_enough :
      (y yp : ℕ)
      → 21 ≤ vga.text_rows
      → vga.text_rows ≢ 36
      → y < 16
      → yp < y_pitch vga
      → y * y_pitch vga + y_offset + 2 + yp < vga.text_rows
  low_enough y yp high gap lt inside = elim (Bool-cases (ltb 35 vga.text_rows)) [
    | inl tall ↦
        let two : y_pitch vga ≡ 2 = rw tall refl in
        let rows : 36 < vga.text_rows = ground arith in omega (arith, ap (λ p. y * p) two, two)
    | inr short ↦
        let one : y_pitch vga ≡ 1 = rw short refl in omega (arith, ap (λ p. y * p) one, one)
  ]

  module _ (wide : 80 ≤ vga.text_cols) (high : 21 ≤ vga.text_rows) (gap : vga.text_rows ≢ 36) where
    two : x_pitch vga ≡ 2
    two = ground arith

    right : x_offset vga ≡ 40
    right = ground arith

    some_row : 0 < y_pitch vga
    some_row = ground arith

    headings-OnScreen :
        (y : ℕ) → y < 16 → All (OnScreen vga) (headings char_signed vga active_char y)
    headings-OnScreen y lt =
        let column = ap (λ p. y * p) two in
        let row = low_enough y 0 high gap lt some_row in
        (
          (omega (arith, column), omega arith, omega arith),
          (
            (omega (arith, column, right), omega arith, omega arith),
            (
              (omega arith, omega (arith, row), omega arith),
              ((omega (arith, right), omega (arith, row), omega arith), tt),
            ),
          ),
        )

    short_text : (ch : ℕ) → length (text_of ch) ≤ 1
    short_text ch = ground arith

    -- Everything that draw_test_pattern writes, at most one character with each call, lies on a screen of
    -- at least 80 columns and of 21 to 35, or of more than 36, rows, as the three that the demonstration
    -- sets.
    pub pattern-OnScreen : All (OnScreen vga) (draw_test_pattern char_signed vga active_char)
    unfolding draw_test_pattern
    pattern-OnScreen = All-for_below (OnScreen vga) 16 _ λ y y_lt.
        All-append (OnScreen vga) (headings char_signed vga active_char y) _
          (headings-OnScreen y y_lt)
          (All-for_below (OnScreen vga) 16 _ λ x x_lt. (
            (
              omega (arith, ap (λ p. x * p) two),
              omega (arith, low_enough y 0 high gap y_lt some_row),
              short_text (x + y * 16),
            ),
            All-for_below (OnScreen vga) (y_pitch vga) _ (λ yp yp_lt.
                All-for_below (OnScreen vga) (x_pitch vga) _ (λ xp xp_lt. (
                  (
                    omega (arith, ap (λ p. x * p) two, two, right, xp_lt),
                    low_enough y yp high gap y_lt yp_lt,
                    short_text active_char,
                  ),
                  tt,
                ))),
          ))

  -- What is drawn for a character.
  abbrev cell : ℕ → ℕ → List Write
  cell y x =
      by_character char_signed vga active_char x y
      ∷ for_below (y_pitch vga) (λ yp.
        for_below (x_pitch vga) (λ xp. by_color char_signed vga active_char x y yp xp ∷ []))

  in_grid :
      (w : Write) (x y : ℕ)
      → x < 16
      → y < 16
      → Occurs w (cell y x)
      → Occurs w (draw_test_pattern char_signed vga active_char)
  unfolding draw_test_pattern
  in_grid w x y x_lt y_lt h =
      Occurs-for_below w 16
        (λ y'. headings char_signed vga active_char y' ++ for_below 16 (cell y')) y y_lt
        (Occurs-right w (headings char_signed vga active_char y) (for_below 16 (cell y))
          (Occurs-for_below w 16 (cell y) x x_lt h))

  colour_block :
      (x y : ℕ)
      → Occurs (by_color char_signed vga active_char x y 0 0) (
          for_below (y_pitch vga) (λ yp.
            for_below (x_pitch vga) (λ xp. by_color char_signed vga active_char x y yp xp ∷ [])))
  colour_block x y =
      let color = by_color char_signed vga active_char x y in
      Occurs-for_below (color 0 0) (y_pitch vga)
        (λ yp. for_below (x_pitch vga) (λ xp. color yp xp ∷ [])) 0 (ground arith)
        (Occurs-for_below (color 0 0) (x_pitch vga) (λ xp. color 0 xp ∷ []) 0 (ground arith)
          (0, refl))

  -- Each of the 256 characters is drawn at its place in the left grid, and each of the 256 attributes at
  -- its place in the right one, with the active character.
  pub pattern_shows :
      (x y : ℕ)
      → x < 16
      → y < 16
      → Occurs
          (by_character char_signed vga active_char x y)
          (draw_test_pattern char_signed vga active_char)
        × Occurs
            (by_color char_signed vga active_char x y 0 0)
            (draw_test_pattern char_signed vga active_char)
  unfolding draw_test_pattern
  pattern_shows x y x_lt y_lt =
      let colored = by_color char_signed vga active_char in
      let block = colour_block x y in
      (
        in_grid (by_character char_signed vga active_char x y) x y x_lt y_lt (0, refl),
        in_grid (colored x y 0 0) x y x_lt y_lt (suc block.0, block.1),
      )
