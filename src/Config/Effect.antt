-- ===== src/Config/Effect.antt =====
-- The kinds of keys of src/tools/keymap_config.c.
use rmtdos.Base.{
  ℕ, ◌+◌, ◌-◌, ◌<◌, ◌≡◌, ◌==◌, ltb, ◌||◌, if◌then◌else◌, Bool, true, false, refl, arith,
}
use rmtdos.Keymap.Save.{Answers}
use rmtdos.Config.{Config, KeyCodes, Input, clamp, pos, sub_ℕ}
use rmtdos.Config.View.{visible_count, select}
use rmtdos.Config.Loop.{Outcome, continues, edit, save, quit, pressed}

-- The key with which the tool is left.
abbrev pub quits : ℕ → Bool
quits ch = ch == b'q' || ch == b'Q'

module _ (lines : ℕ) (c : Config) (ch : ℕ) (answers : Answers) (input : Input) where
  -- What a key comes to: nothing, a move of the selection within the list, an edit, a save, or the
  -- questions of the end.
  pub data Effect : Outcome → Type 0 where
    nothing : Effect (continues c)
    moved : (idx : ℕ) → idx < c.g_map_entries → Effect (continues (select lines c idx))
    edited : Effect (edit c input)
    kept : Effect (save c answers)
    asked : quits ch ≡ true → Effect (quit c answers input)

  Effect-if :
      (test : Bool) (a b : Outcome)
      → (test ≡ true → Effect a)
      → (test ≡ false → Effect b)
      → Effect (if test then a else b)
  Effect-if true a b ha hb = ha refl
  Effect-if false a b ha hb = hb refl

  Effect-move :
      (test : Bool) (idx : ℕ)
      → (test ≡ true → idx < c.g_map_entries)
      → Effect (continues (if test then select lines c idx else c))
  Effect-move true idx inside = moved idx (inside refl)
  Effect-move false idx inside = nothing

  below_last :
      ltb c.g_cur_itm_idx (c.g_map_entries - 1) ≡ true → c.g_cur_itm_idx + 1 < c.g_map_entries
  below_last more = ground arith

  module _ (has_colors : Bool) (keys : KeyCodes) where
    pub pressed-Effect :
        c.g_cur_itm_idx < c.g_map_entries
        → Effect (pressed lines has_colors keys c ch answers input)
    unfolding pressed
    pressed-Effect lt =
        let vis = visible_count lines in
        let last = c.g_map_entries - 1 in
        Effect-if (ch == keys.key_up) _ _
          (λ _.
            Effect-move (ltb 0 c.g_cur_itm_idx) (c.g_cur_itm_idx - 1) (λ more. omega (arith, lt)))
          (λ _.
            Effect-if (ch == keys.key_down) _ _
              (λ _. Effect-move (ltb c.g_cur_itm_idx last) (c.g_cur_itm_idx + 1) below_last)
              (λ _.
                Effect-if (ch == keys.key_home) _ _ (λ _. moved 0 (omega arith))
                  (λ _.
                    Effect-if (ch == keys.key_end) _ _ (λ _. moved last (omega arith))
                      (λ _.
                        Effect-if (ch == keys.key_ppage) _ _
                          (λ _. moved (clamp (sub_ℕ c.g_cur_itm_idx vis) last) (ground arith))
                          (λ _.
                            Effect-if (ch == keys.key_npage) _ _
                              (λ _. moved (clamp (pos (c.g_cur_itm_idx + vis)) last) (ground arith))
                              (λ _.
                                Effect-if (ch == b'\n' || ch == keys.key_enter) _ _ (λ _. edited)
                                  (λ _.
                                    Effect-if (ch == b's' || ch == b'S') _ _ (λ _. kept)
                                      (λ _. Effect-if (quits ch) _ _ asked (λ _. nothing)))))))))
