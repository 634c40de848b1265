-- ===== src/Display/Cells.antt =====
-- update_session_window of src/client/curses.c: where a byte of the server's screen is shown.
use rmtdos.Base.{
  ℕ, zero, suc, ◌+◌, ◌*◌, ◌/◌, ◌%◌, ◌<◌, ◌≤◌, ◌≡◌, ◌⊎◌, inl, inr, refl, ap, sym, ◌∙◌, some, ◌==◌,
  ltb, ◌&&◌, true, false, arith, Bool-cases, List,
}
use native.Mathlib.Nat.{
  div-add-mod', mul-add-div_right, mul-add-mod_self_right, mod-eq_of_lt, div-eq_of_lt,
}
use rmtdos.Hostlist.{RemoteHost}
use rmtdos.Display.Window.{Shown, Window, write_cell, shown_at, draw_from}

-- The cell of a character, counted row by row.
place_here :
    (cols n y x : ℕ) → 0 < cols → x < cols → y * cols + x ≡ n → (n / cols ≡ y) × (n % cols ≡ x)
place_here cols n y x some_cols inside e =
    let quotient : x / cols ≡ 0 = div-eq_of_lt inside in
    (
      ap (λ m. m / cols) (sym e) ∙ mul-add-div_right some_cols y x ∙ omega (arith, quotient),
      ap (λ m. m % cols) (sym e) ∙ mul-add-mod_self_right y cols x ∙ mod-eq_of_lt inside,
    )

place :
    (cols n y x : ℕ) → 0 < cols → x < cols → (y == n / cols && x == n % cols) ≡ (y * cols + x == n)
place cols n y x some_cols inside = elim (Bool-cases (y * cols + x == n)) [
  | inl here ↦
      let e : y * cols + x ≡ n = ground arith in
      let (row, column) = place_here cols n y x some_cols inside e in
      rw (here, row, column) (ground arith)
  | inr elsewhere ↦ elim (Bool-cases (y == n / cols && x == n % cols)) [
    | inr apart ↦ rw (elsewhere, apart) refl
    | inl both ↦
        let row : y ≡ n / cols = ground arith in
        let column : x ≡ n % cols = ground arith in
        let e : y * cols + x ≡ n =
          ap (λ r. r * cols + x) row ∙ ap (λ c. n / cols * cols + c) column ∙ div-add-mod' n cols in
        ground arith
  ]
]

module _ (table : ℕ → List ℕ) (colors : ℕ → ℕ) (rh : RemoteHost) where
  -- What a character of the buffer is shown as.
  abbrev pub character : ℕ → Shown
  character n = shown_at table colors rh (2 * n)

  -- The characters from `start` to `end` are shown at their cells, and the other cells are as before.
  pub record Drawn (w w' : Window) (start end : ℕ) : Type 0 where
    pub size : (w'.lines ≡ w.lines) × (w'.columns ≡ w.columns)
    pub inside :
        (y x : ℕ)
        → y < w.lines
        → x < w.columns
        → x < rh.text_cols
        → start ≤ y * rh.text_cols + x
        → y * rh.text_cols + x < end
        → w'.cell y x ≡ character (y * rh.text_cols + x)
    pub outside :
        (y x : ℕ)
        → x < rh.text_cols
        → (y * rh.text_cols + x < start) ⊎ (end ≤ y * rh.text_cols + x)
        → w'.cell y x ≡ w.cell y x

  draw_step :
      (n fuel start : ℕ) (w : Window)
      → 0 < rh.text_cols
      → 2 * (start + suc n) ≤ 32768
      → draw_from table colors rh (suc fuel) (2 * start) (2 * (start + suc n)) w
        ≡ draw_from table colors rh fuel
            (2 * (start + 1))
            (2 * ((start + 1) + n))
            (write_cell w (start / rh.text_cols) (start % rh.text_cols) (character start))
  unfolding draw_from
  draw_step n fuel start w some_cols fits =
      let more : ltb (2 * start) (2 * (start + suc n)) ≡ true = ground arith in
      let wide : (rh.text_cols == 0) ≡ false = ground arith in
      let here : 2 * start / 2 ≡ start = omega arith in
      let next : (2 * start + 2) % 65536 ≡ 2 * (start + 1) = omega arith in
      let stop : 2 * (start + suc n) ≡ 2 * ((start + 1) + n) = omega arith in
      rw (more, wide, here, next, stop) refl

  drawn_here :
      (w : Window) (y x start : ℕ)
      → y < w.lines
      → x < w.columns
      → x < rh.text_cols
      → y * rh.text_cols + x ≡ start
      → (write_cell w (start / rh.text_cols) (start % rh.text_cols) (character start)).cell y x
        ≡ character (y * rh.text_cols + x)
  drawn_here w y x start here there lt e =
      let (row, column) = place_here rh.text_cols start y x (omega arith) lt e in
      let row_on : ltb y w.lines ≡ true = ground arith in
      let column_on : ltb x w.columns ≡ true = ground arith in
      rw (row, column, row_on, column_on) (ground (arith, ap character (sym e)))

  away_later :
      (m start n : ℕ)
      → (m < start) ⊎ (start + suc n ≤ m)
      → ((m == start) ≡ false) × ((m < start + 1) ⊎ ((start + 1) + n ≤ m))
  away_later m start n (inl before) = (ground arith, inl (omega arith))
  away_later m start n (inr behind) = (ground arith, inr (omega arith))

  pub draw_from-Drawn :
      (n fuel start : ℕ) (w : Window)
      → 0 < rh.text_cols
      → n < fuel
      → 2 * (start + n) ≤ 32768
      → (w' : Window) × (draw_from table colors rh fuel (2 * start) (2 * (start + n)) w ≡ some w')
        × Drawn w w' start (start + n)
  unfolding draw_from
  draw_from-Drawn n zero start w some_cols enough fits = elim enough [ ]
  draw_from-Drawn zero (suc fuel) start w some_cols enough fits =
      let stop : ltb (2 * start) (2 * (start + 0)) ≡ false = ground arith in
      (
        w,
        rw stop refl,
        record {
          size = (refl, refl);
          inside = λ y x here there lt low high. absurd (omega arith);
          outside = λ y x lt away. refl;
        },
      )
  draw_from-Drawn (suc n) (suc fuel) start w some_cols enough fits =
      let w1 = write_cell w (start / rh.text_cols) (start % rh.text_cols) (character start) in
      let (w', drawn, d) =
        draw_from-Drawn n fuel (start + 1) w1 some_cols (omega arith) (omega arith) in
      (
        w',
        draw_step n fuel start w some_cols fits ∙ drawn,
        record {
          size = d.size;
          inside = λ y x here there lt low high. elim (Bool-cases (y * rh.text_cols + x == start)) [
            | inl first ↦
                let e : y * rh.text_cols + x ≡ start = ground arith in
                d.outside y x lt (inl (omega (arith, e))) ∙ drawn_here w y x start here there lt e
            | inr later ↦ d.inside y x here there lt (ground arith) (omega (arith, high))
          ];
          outside = λ y x lt away.
              let (other, still) = away_later (y * rh.text_cols + x) start n away in
              d.outside y x lt still
              ∙ rw (place rh.text_cols start y x some_cols lt, other) (ground arith);
        },
      )
