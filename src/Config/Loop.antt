-- ===== src/Config/Loop.antt =====
-- The main loop of src/tools/keymap_config.c, its start and its end.
use rmtdos.Base.{
  ℕ, ◌-◌, ◌+◌, Option, none, some, List, [], ◌∷◌, ◌==◌, leb, ◌||◌, ◌&&◌, if◌then◌else◌, set, Bool,
  true, false,
}
use rmtdos.Keymap.{KeyMapEntry, no_keymap, keymap_load}
use rmtdos.Keymap.Save.{Answers, keymap_save, fgets_lines}
use rmtdos.Config.{
  Config, OriginalSeqData, KeyCodes, Input, getch, count_map_entries, get_entry_at_index, mark,
}
use rmtdos.Config.Capture.{capture_sequence, overrun, cancelled, sequence}
use rmtdos.Config.View.{
  highlight_normal, display_map_list, ensure_visible, select, move_up, move_down, page_up,
  page_down,
}

unfoldable pub tolower : ℕ → ℕ
tolower c = if leb b'A' c && leb c b'Z' then c + 32 else c

-- Whether the key is the letter, in either case.
abbrev pub is_letter : ℕ → Option ℕ → Bool
is_letter letter none = false
is_letter letter (some c) = tolower c == letter

-- What an iteration of the main loop comes to.
pub data Outcome : Type 0 where
  continues : Config → Outcome
  exits : Config → Outcome
  faults : Outcome

abbrev pub proceed : Outcome → (Config → Outcome) → Outcome
proceed (continues c) next = next c
proceed (exits c) next = exits c
proceed faults next = faults

-- The new sequence of the selected entry, which is marked.
unfoldable pub update_entry : Config → KeyMapEntry → List ℕ → Config
unfolding mark
update_entry c entry new_seq = record c {
  g_keymap = set c.g_keymap c.g_cur_itm_idx (record entry { sequence = new_seq });
  g_dirty_flag = true;
  g_org_seq = mark c.g_org_seq c.g_cur_itm_idx;
}

unfoldable pub edit : Config → Input → Outcome
unfolding capture_sequence get_entry_at_index update_entry
edit c input = elim (get_entry_at_index c.g_keymap c.g_cur_itm_idx) [
  | none ↦ continues c
  | some entry ↦ elim (capture_sequence input).0 [
    | overrun ↦ faults
    | cancelled ↦ continues c
    | sequence new_seq ↦ continues (update_entry c entry new_seq)
  ]
]

-- The bytes of a file that is written, or not.
abbrev pub overwrite : List ℕ → Option (List ℕ) → List ℕ
overwrite file none = file
overwrite file (some bytes) = bytes

-- keymap_save, and what it leaves of the list and the file.
abbrev pub saved : Config → Answers → Bool × Config
saved c answers =
    let (ok, list, written) = keymap_save answers c.g_keymap in
    (ok, record c { g_keymap = list; file = overwrite c.file written })

unfoldable pub save : Config → Answers → Outcome
save c answers =
    let (ok, c') = saved c answers in
    continues (if ok then record c' { g_dirty_flag = false } else c')

-- The answers to the two questions: to save the changes, and to leave when that fails.
abbrev pub answered : (dirty accepted leave declined : Bool) → Config → Config → Outcome
answered false accepted leave declined c c' = exits c
answered true true true declined c c' = exits c'
answered true true false declined c c' = continues c'
answered true false leave true c c' = exits c
answered true false leave false c c' = continues c

unfoldable pub quit : Config → Answers → Input → Outcome
unfolding tolower
quit c answers input =
    let (confirm_ch, input1) = getch input in
    let (again_ch, input2) = getch input1 in
    let (ok, c') = saved c answers in
    answered c.g_dirty_flag (is_letter b'y' confirm_ch) (ok || is_letter b'y' again_ch)
      (is_letter b'n' confirm_ch) c c'

module _ (lines : ℕ) (has_colors : Bool) (keys : KeyCodes) where
  -- The switch of the main loop.
  unfoldable pub pressed : Config → ℕ → Answers → Input → Outcome
  unfolding ensure_visible edit save quit
  pressed c ch answers input =
      if ch == keys.key_up
      then continues (move_up lines c)
      else if ch == keys.key_down
      then continues (move_down lines c)
      else if ch == keys.key_home
      then continues (select lines c 0)
      else if ch == keys.key_end
      then continues (select lines c (c.g_map_entries - 1))
      else if ch == keys.key_ppage
      then continues (page_up lines c)
      else if ch == keys.key_npage
      then continues (page_down lines c)
      else if ch == b'\n' || ch == keys.key_enter
      then edit c input
      else if ch == b's' || ch == b'S'
      then save c answers
      else if ch == b'q' || ch == b'Q'
      then quit c answers input
      else continues c

  abbrev pub react : Config → Option ℕ → Answers → Input → Outcome
  react c none answers input = continues c
  react c (some ch) answers input = pressed c ch answers input

  -- One iteration of the main loop, of which the input begins with the key. What it prints on a
  -- capture is the same list again.
  unfoldable pub iteration : Config → Answers → Input → Outcome
  unfolding display_map_list pressed
  iteration c answers input = elim (display_map_list lines has_colors highlight_normal c) [
    | none ↦ faults
    | some shown ↦ let (ch, input1) = getch input in react c ch answers input1
  ]

  -- The main loop, over the answers and the input of each iteration; it waits for more at the end.
  unfoldable pub main_loop : Config → List (Answers × Input) → Outcome
  unfolding iteration
  main_loop c [] = continues c
  main_loop c (round ∷ rounds) = proceed (iteration c round.0 round.1) (λ c'. main_loop c' rounds)

-- A copy of the sequence of each entry.
unfoldable pub original_sequences : List KeyMapEntry → List OriginalSeqData
original_sequences [] = []
original_sequences (e ∷ current) =
    record { data' = e.sequence; is_modified = false } ∷ original_sequences current

-- What main comes to before its loop.
pub data Started : Type 0 where
  load_failed : Started
  empty : Started
  ready : Config → Started

-- main up to the loop, for the bytes of the file, `none` where it cannot be opened.
unfoldable pub start : Option (List ℕ) → Started
unfolding count_map_entries original_sequences
start none = load_failed
start (some bytes) =
    let list = (keymap_load no_keymap (some (fgets_lines bytes))).1.g_keymap in
    if count_map_entries list == 0
    then empty
    else ready (record {
      g_cur_itm_idx = 0;
      g_top_itm_idx = 0;
      g_map_entries = count_map_entries list;
      g_dirty_flag = false;
      g_org_seq = original_sequences list;
      g_keymap = list;
      file = bytes;
    })
