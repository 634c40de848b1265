-- ===== src/Display/Colours.antt =====
-- color_table_init of src/client/curses.c: the colours of an attribute.
use rmtdos.Base.{
  ℕ, ◌/◌, ◌%◌, ◌<◌, ◌≡◌, ◌⊎◌, inl, inr, refl, ap, ◌∙◌, some, none, ◌==◌, leb, ◌&&◌, ◌||◌, not, Bool,
  true, false, arith, Bool-cases, Option-cases, all_below, all_below-holds, subst,
}
use rmtdos.Display.{Colors, rich_colors, basic_table, swapped, color_table_init}

-- Each attribute has its pair of colours.
abbrev has_pair : Colors → (ℕ → ℕ) → (ℕ → ℕ) → ℕ → Bool
has_pair c fg bg attr = elim (c.pairs (c.g_ncurses_colors attr)) [
  | none ↦ false
  | some pair ↦ pair.0 == fg attr && pair.1 == bg attr
]

abbrev pub rich_fg : ℕ → ℕ
rich_fg attr = attr % 16

abbrev pub rich_bg : ℕ → ℕ
rich_bg attr = attr / 16

abbrev pub basic_fg : ℕ → ℕ
basic_fg attr = swapped (attr % 8)

abbrev pub basic_bg : ℕ → ℕ
basic_bg attr = swapped (attr / 16 % 8)

has_pair-some :
    (c : Colors) (fg bg : ℕ → ℕ) (attr : ℕ)
    → has_pair c fg bg attr ≡ true
    → c.pairs (c.g_ncurses_colors attr) ≡ some (fg attr, bg attr)
has_pair-some c fg bg attr h = elim (Option-cases (c.pairs (c.g_ncurses_colors attr))) [
  | inl nothing ↦ (let clash : false ≡ true = rw (nothing, has_pair) at h in cc)
  | inr (pair, there) ↦
      (let both : (pair.0 == fg attr && pair.1 == bg attr) ≡ true = rw (there, has_pair) at h in
        let first : pair.0 ≡ fg attr = ground arith in
        let second : pair.1 ≡ bg attr = ground arith in
        there ∙ ap (λ f. some (f, pair.1)) first ∙ ap (λ b. some (fg attr, b)) second)
]

basic_pairs : all_below (has_pair basic_table basic_fg basic_bg) 256 ≡ true
basic_pairs = refl

rich_pairs : all_below (has_pair rich_colors rich_fg rich_bg) 256 ≡ true
rich_pairs = refl

-- Where the tables are made, the pair of each attribute is one that ncurses has, and its colours are
-- those of the attribute: all sixteen on a rich terminal, and on a basic one the eight without
-- intensity, in the order that ncurses gives them.
pub color_table_init_lem :
    (has_colors : Bool) (colors color_pairs : ℕ) (basic_colors : Bool) (c : Colors) (attr : ℕ)
    → color_table_init has_colors colors color_pairs basic_colors ≡ some c
    → attr < 256
    → (c.pairs (c.g_ncurses_colors attr) ≡ some (rich_fg attr, rich_bg attr))
      ⊎ (c.pairs (c.g_ncurses_colors attr) ≡ some (basic_fg attr, basic_bg attr))
unfolding color_table_init
color_table_init_lem has_colors colors color_pairs basic_colors c attr h lt =
    let rich =
      has_pair-some rich_colors rich_fg rich_bg attr
        (all_below-holds (has_pair rich_colors rich_fg rich_bg) 256 attr rich_pairs lt) in
    let basic =
      has_pair-some basic_table basic_fg basic_bg attr
        (all_below-holds (has_pair basic_table basic_fg basic_bg) 256 attr basic_pairs lt) in
    elim (Bool-cases has_colors) [
      | inr mono ↦ (let clash : none ≡ some c = rw mono at h in cc)
      | inl coloured ↦
          elim (Bool-cases (leb 256 colors && leb 65536 color_pairs && not basic_colors)) [
            | inl many ↦
                (let made : some rich_colors ≡ some c = rw (coloured, many) at h in
                  let same : rich_colors ≡ c = cc made in
                  inl (
                    subst
                      (λ (x : Colors).
                        x.pairs (x.g_ncurses_colors attr) ≡ some (rich_fg attr, rich_bg attr))
                      same rich))
            | inr few ↦ elim (Bool-cases ((colors == 8 && leb 64 color_pairs) || basic_colors)) [
              | inl eight ↦
                  (let made : some basic_table ≡ some c = rw (coloured, few, eight) at h in
                    let same : basic_table ≡ c = cc made in
                    inr (
                      subst
                        (λ (x : Colors).
                          x.pairs (x.g_ncurses_colors attr) ≡ some (basic_fg attr, basic_bg attr))
                        same basic))
              | inr others ↦ (let clash : none ≡ some c = rw (coloured, few, others) at h in cc)
            ]
          ]
    ]
