-- ===== src/Config/Safe.antt =====
-- No key makes the tool of src/tools/keymap_config.c leave its tables or lose its selection.
use rmtdos.Base.{
  ℕ, zero, suc, ◌+◌, ◌<◌, ◌≡◌, Option, none, some, List, [], ◌∷◌, leb, length, get_elem?, Bool,
  true, false, refl, ◌∙◌, sym, subst, arith, Bool-cases, Option-cases, inl, inr, in_range-get_elem?,
}
use rmtdos.Keymap.Save.{Answers}
use rmtdos.Config.{Config, KeyCodes, Input, getch}
use rmtdos.Config.View.{
  display_map_list, display_from, shown_line, key_flags, Shown, HighlightStyle, highlight_normal,
  visible_count, ensure_visible, select, IsSelected, ensure_visible-IsSelected,
}
use rmtdos.Config.Loop.{
  Outcome, continues, exits, faults, update_entry, edit, save, quit, saved, answered, proceed,
  react, iteration, main_loop,
}
use rmtdos.Config.Effect.{Effect, nothing, moved, edited, kept, asked, pressed-Effect}
use rmtdos.Config.Kept.{
  IsTracked, IsConsistent, get_entry, update_entry-IsTracked, IsTracked-fewer, saved-IsTracked,
  edit-cases,
}

module _ (lines : ℕ) where
  -- An outcome without a fault.
  abbrev pub IsSafe : Outcome → Type 0
  IsSafe (continues c) = IsConsistent lines c
  IsSafe (exits c) = IsTracked c
  IsSafe faults = ⊥

  -- The same place in a list that has not changed its size.
  stays :
      (c c' : Config)
      → c'.g_cur_itm_idx ≡ c.g_cur_itm_idx
      → c'.g_top_itm_idx ≡ c.g_top_itm_idx
      → c'.g_map_entries ≡ c.g_map_entries
      → IsSelected lines c
      → IsTracked c'
      → IsConsistent lines c'
  stays c c' cur top entries s t = record {
    selected = record {
      in_list = rw (cur, entries) s.in_list;
      from_top = rw (cur, top) s.from_top;
      to_bottom = rw (cur, top) s.to_bottom;
      filled = rw (top, entries) s.filled;
    };
    tracked = t;
  }

  moves :
      (c : Config) (idx : ℕ)
      → IsTracked c
      → IsSelected lines (select lines c idx)
      → IsConsistent lines (select lines c idx)
  unfolding ensure_visible
  moves c idx t s = record {
    selected = s;
    tracked = IsTracked-fewer c (select lines c idx) refl refl (omega arith) (λ i e there. there) t;
  }

  edit-IsSafe : (c : Config) (input : Input) → IsConsistent lines c → IsSafe (edit c input)
  unfolding update_entry
  edit-IsSafe c input h = elim (edit-cases c input) [
    | inl same ↦ rw same h
    | inr (entry, seq, there, _, updated) ↦ rw updated (
        stays c (update_entry c entry seq) refl refl refl h.selected
          (update_entry-IsTracked c entry seq there h.tracked))
  ]

  save-IsSafe : (c : Config) (answers : Answers) → IsConsistent lines c → IsSafe (save c answers)
  unfolding save
  save-IsSafe c answers h =
      let t = saved-IsTracked c answers h.tracked in
      let clean = record (saved c answers).1 { g_dirty_flag = false } in
      elim (Bool-cases (saved c answers).0) [
        | inl ok ↦ rw ok (
            stays c clean refl refl refl h.selected (
              IsTracked-fewer (saved c answers).1 clean refl refl (omega arith) (λ i e there. there)
                t))
        | inr failed ↦ rw failed (stays c (saved c answers).1 refl refl refl h.selected t)
      ]

  answered-IsSafe :
      (dirty accepted leave declined : Bool) (c c' : Config)
      → IsConsistent lines c
      → IsConsistent lines c'
      → IsSafe (answered dirty accepted leave declined c c')
  answered-IsSafe false accepted leave declined c c' h h' = h.tracked
  answered-IsSafe true true true declined c c' h h' = h'.tracked
  answered-IsSafe true true false declined c c' h h' = h'
  answered-IsSafe true false leave true c c' h h' = h.tracked
  answered-IsSafe true false leave false c c' h h' = h

  quit-IsSafe :
      (c : Config) (answers : Answers) (input : Input)
      → IsConsistent lines c
      → IsSafe (quit c answers input)
  unfolding quit
  quit-IsSafe c answers input h =
      let t = saved-IsTracked c answers h.tracked in
      answered-IsSafe c.g_dirty_flag _ _ _ c (saved c answers).1 h
        (stays c (saved c answers).1 refl refl refl h.selected t)

  -- No line is shown that is not in the tables.
  display_from-some :
      (has_colors : Bool) (style : HighlightStyle) (c : Config) (left i : ℕ)
      → IsTracked c
      → (shown : List Shown) × (display_from lines has_colors style c left i ≡ some shown)
  unfolding display_from
  display_from-some has_colors style c zero i t = ([], refl)
  display_from-some has_colors style c (suc left) i t =
      let map_index = c.g_top_itm_idx + i in
      let (shown, rest) = display_from-some has_colors style c left (i + 1) t in
      elim (Bool-cases (leb c.g_map_entries map_index)) [
        | inl done ↦ ([], rw (done, display_from) refl)
        | inr more ↦ elim (Option-cases (get_elem? c.g_keymap map_index)) [
          | inl gone ↦ (shown, rw (more, display_from, get_entry c.g_keymap map_index ∙ gone) rest)
          | inr (entry, there) ↦
              let inside : map_index < length c.g_org_seq = ground (arith, t.parallel) in
              let (o, beside) = in_range-get_elem? c.g_org_seq map_index inside in
              let (name, named) =
                in_range-get_elem? key_flags entry.keydos.flags_17
                  (t.named map_index entry there) in
              (
                shown_line lines has_colors style c i entry o name ∷ shown,
                rw (more, display_from, get_entry c.g_keymap map_index ∙ there, beside, named, rest)
                    refl,
              )
        ]
      ]

  proceed-IsSafe :
      (o : Outcome) (next : Config → Outcome)
      → IsSafe o
      → ((c : Config) → IsConsistent lines c → IsSafe (next c))
      → IsSafe (proceed o next)
  proceed-IsSafe (continues c) next h step = step c h
  proceed-IsSafe (exits c) next h step = h
  proceed-IsSafe faults next h step = h

  Effect-IsSafe :
      (c : Config) (ch : ℕ) (answers : Answers) (input : Input) (o : Outcome)
      → Effect lines c ch answers input o
      → IsConsistent lines c
      → IsSafe o
  Effect-IsSafe c ch answers input _ nothing h = h
  Effect-IsSafe c ch answers input _ (moved idx lt) h =
      moves c idx h.tracked (ensure_visible-IsSelected lines _ lt)
  Effect-IsSafe c ch answers input _ edited h = edit-IsSafe c input h
  Effect-IsSafe c ch answers input _ kept h = save-IsSafe c answers h
  Effect-IsSafe c ch answers input _ (asked q) h = quit-IsSafe c answers input h

  module _ (has_colors : Bool) (keys : KeyCodes) where
    react-IsSafe :
        (c : Config) (ch : Option ℕ) (answers : Answers) (input : Input)
        → IsConsistent lines c
        → IsSafe (react lines has_colors keys c ch answers input)
    react-IsSafe c none answers input h = h
    react-IsSafe c (some ch) answers input h =
        Effect-IsSafe c ch answers input _
          (pressed-Effect lines c ch answers input has_colors keys h.selected.in_list) h

    -- What is shown is in the tables, so that the key is handled.
    pub iteration-react :
        (c : Config) (answers : Answers) (input : Input)
        → IsConsistent lines c
        → iteration lines has_colors keys c answers input
          ≡ react lines has_colors keys c (getch input).0 answers (getch input).1
    unfolding iteration display_map_list
    iteration-react c answers input h =
        let (shown, e) =
          display_from-some has_colors highlight_normal c (visible_count lines) 0 h.tracked in
        rw (e, iteration) refl

    -- One iteration of the main loop, whatever is pressed and whatever a save comes to.
    pub iteration-IsSafe :
        (c : Config) (answers : Answers) (input : Input)
        → IsConsistent lines c
        → IsSafe (iteration lines has_colors keys c answers input)
    iteration-IsSafe c answers input h =
        let (ch, input1) = getch input in
        subst IsSafe (sym (iteration-react c answers input h)) (react-IsSafe c ch answers input1 h)

    pub main_loop-IsSafe :
        (c : Config) (rounds : List (Answers × Input))
        → IsConsistent lines c
        → IsSafe (main_loop lines has_colors keys c rounds)
    unfolding main_loop
    main_loop-IsSafe c [] h = h
    main_loop-IsSafe c (round ∷ rounds) h =
        proceed-IsSafe (iteration lines has_colors keys c round.0 round.1) _
          (iteration-IsSafe c round.0 round.1 h) (λ c' h'. main_loop-IsSafe c' rounds h')
