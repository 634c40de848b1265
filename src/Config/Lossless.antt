-- ===== src/Config/Lossless.antt =====
-- What src/tools/keymap_config.c leaves in its file.
use rmtdos.Base.{
  ℕ, zero, suc, ◌<◌, ◌≤◌, ◌≡◌, none, some, List, [], ◌∷◌, length, get_elem?, set, Bool, true, false,
  refl, ◌∙◌, sym, ap, subst, arith, inl, inr,
}
use mathlib.Core.Bool.{false≢true}
use rmtdos.Keymap.{KeyMapEntry, no_keymap, keymap_load}
use rmtdos.Keymap.Save.{Answers, all_well, keymap_save, fgets_lines}
use rmtdos.Keymap.Save.Line.{IsPrintable}
use rmtdos.Keymap.Save.Reloaded.{ArePrintable, load-save}
use rmtdos.Config.{Config, KeyCodes, Input, getch}
use rmtdos.Config.Capture.{IsTaken}
use rmtdos.Config.View.{ensure_visible}
use rmtdos.Config.Loop.{
  Outcome, continues, exits, faults, update_entry, save, quit, saved, overwrite, answered,
  is_letter, proceed, react, iteration, main_loop, start, ready,
}
use rmtdos.Config.Kept.{IsConsistent, edit-cases}
use rmtdos.Config.Effect.{Effect, nothing, moved, edited, kept, asked, pressed-Effect, quits}
use rmtdos.Config.Safe.{IsSafe, iteration-react, iteration-IsSafe}
use rmtdos.Config.Start.{AreNamed, start-ready, start-IsConsistent}

-- The file is the list's.
abbrev pub IsSaved : Config → Type 0
IsSaved c = (keymap_load no_keymap (some (fgets_lines c.file))).1.g_keymap ≡ c.g_keymap

-- The file is the list's, unless the tool says that it is modified.
pub record IsHonest (c : Config) : Type 0 where
  pub printable : ArePrintable c.g_keymap
  pub clean : c.g_dirty_flag ≡ false → IsSaved c

-- A round in which saving works, the input is not longer than what a line of the file can hold, and
-- a quit is not answered with dropping the changes.
pub record IsCareful (round : Answers × Input) : Type 0 where
  pub works : round.0 ≡ all_well
  pub short : length (getch round.1).1 ≤ 127
  pub not_declined :
      (ch : ℕ)
      → (getch round.1).0 ≡ some ch
      → quits ch ≡ true
      → is_letter b'n' (getch (getch round.1).1).0 ≡ false

abbrev pub AreCareful : List (Answers × Input) → Type 0
AreCareful [] = Unit {0}
AreCareful (round ∷ rounds) = IsCareful round × AreCareful rounds

ArePrintable-set :
    (list : List KeyMapEntry) (i : ℕ) (e : KeyMapEntry)
    → ArePrintable list
    → IsPrintable e
    → ArePrintable (set list i e)
ArePrintable-set [] i e p q = tt
ArePrintable-set (d ∷ list) zero e p q = (q, p.1)
ArePrintable-set (d ∷ list) (suc i) e p q = (p.0, ArePrintable-set list i e p.1 q)

get_elem?-IsPrintable :
    (list : List KeyMapEntry) (i : ℕ) (e : KeyMapEntry)
    → ArePrintable list
    → get_elem? list i ≡ some e
    → IsPrintable e
get_elem?-IsPrintable [] i e p there = cc
get_elem?-IsPrintable (d ∷ list) zero e p there =
    (let same : d ≡ e = cc there in subst IsPrintable same p.0)
get_elem?-IsPrintable (d ∷ list) (suc i) e p there = get_elem?-IsPrintable list i e p.1 there

update_entry-IsHonest :
    (c : Config) (input : Input) (entry : KeyMapEntry) (seq : List ℕ)
    → IsHonest c
    → length input ≤ 127
    → get_elem? c.g_keymap c.g_cur_itm_idx ≡ some entry
    → IsTaken input seq
    → IsHonest (update_entry c entry seq)
unfolding update_entry
update_entry-IsHonest c input entry seq h short there capture =
    let p = get_elem?-IsPrintable c.g_keymap c.g_cur_itm_idx entry h.printable there in
    record {
      printable =
          ArePrintable-set c.g_keymap c.g_cur_itm_idx (record entry { sequence = seq }) h.printable
            (record {
              title = p.title;
              title_fits = p.title_fits;
              bytes = capture.bytes;
              sequence_fits = omega (arith, capture.short);
              scan_byte = p.scan_byte;
              ascii_byte = p.ascii_byte;
              flags_byte = p.flags_byte;
            });
      clean = λ same. absurd (false≢true (sym same));
    }

-- A save that works.
saved_well :
    (c : Config) (answers : Answers)
    → answers ≡ all_well
    → ArePrintable c.g_keymap
    → ((saved c answers).0 ≡ true)
      × ((saved c answers).1.g_keymap ≡ c.g_keymap)
      × IsSaved (saved c answers).1
saved_well c answers works p =
    let (file, written, read) = load-save c.g_keymap p in
    let result : keymap_save answers c.g_keymap ≡ (true, c.g_keymap, some file) =
      ap (λ a. keymap_save a c.g_keymap) works ∙ written in
    let bytes : (saved c answers).1.file ≡ file = ap (λ r. overwrite c.file r.2) result in
    let list : (saved c answers).1.g_keymap ≡ c.g_keymap = ap (λ r. r.1) result in
    (
      ap (λ r. r.0) result,
      list,
      ap (λ f. (keymap_load no_keymap (some (fgets_lines f))).1.g_keymap) bytes
          ∙ ap (λ r. r.1.g_keymap) read
          ∙ sym list,
    )

-- The tool goes on honestly, or it ends with all that it has in its file.
abbrev pub IsLossless : Outcome → Type 0
IsLossless (continues c) = IsHonest c
IsLossless (exits c) = IsSaved c
IsLossless faults = ⊥

answered-IsLossless :
    (dirty accepted leave declined : Bool) (c c' : Config)
    → declined ≡ false
    → (dirty ≡ false → IsSaved c)
    → IsHonest c
    → IsHonest c'
    → IsSaved c'
    → IsLossless (answered dirty accepted leave declined c c')
answered-IsLossless false accepted leave declined c c' not_declined clean h h' s = clean refl
answered-IsLossless true true true declined c c' not_declined clean h h' s = s
answered-IsLossless true true false declined c c' not_declined clean h h' s = h'
answered-IsLossless true false leave true c c' not_declined clean h h' s =
    absurd (false≢true (sym not_declined))
answered-IsLossless true false leave false c c' not_declined clean h h' s = h

quit-IsLossless :
    (c : Config) (answers : Answers) (input : Input)
    → answers ≡ all_well
    → is_letter b'n' (getch input).0 ≡ false
    → IsHonest c
    → IsLossless (quit c answers input)
unfolding quit
quit-IsLossless c answers input works not_declined h =
    let (ok, list, s) = saved_well c answers works h.printable in
    let still : IsHonest (saved c answers).1 = record {
      printable = subst ArePrintable (sym list) h.printable;
      clean = λ _. s;
    } in
    answered-IsLossless c.g_dirty_flag _ _ _ c (saved c answers).1 not_declined h.clean h still s

save-IsLossless :
    (c : Config) (answers : Answers) → answers ≡ all_well → IsHonest c → IsLossless (save c answers)
unfolding save
save-IsLossless c answers works h =
    let (ok, list, s) = saved_well c answers works h.printable in
    rw ok (record { printable = subst ArePrintable (sym list) h.printable; clean = λ _. s })

module _ (lines : ℕ) where
  Effect-IsLossless :
      (c : Config) (ch : ℕ) (answers : Answers) (input : Input) (o : Outcome)
      → Effect lines c ch answers input o
      → answers ≡ all_well
      → length input ≤ 127
      → (quits ch ≡ true → is_letter b'n' (getch input).0 ≡ false)
      → IsHonest c
      → IsLossless o
  unfolding ensure_visible
  Effect-IsLossless c ch answers input _ nothing works short not_declined h = h
  Effect-IsLossless c ch answers input _ (moved idx lt) works short not_declined h = record {
    printable = h.printable;
    clean = h.clean;
  }
  Effect-IsLossless c ch answers input _ edited works short not_declined h =
      elim (edit-cases c input) [
        | inl same ↦ rw same h
        | inr (entry, seq, there, capture, updated) ↦
            rw updated (update_entry-IsHonest c input entry seq h short there capture)
      ]
  Effect-IsLossless c ch answers input _ kept works short not_declined h =
      save-IsLossless c answers works h
  Effect-IsLossless c ch answers input _ (asked q) works short not_declined h =
      quit-IsLossless c answers input works (not_declined q) h

  module _ (has_colors : Bool) (keys : KeyCodes) where
    react-IsLossless :
        (c : Config) (answers : Answers) (input : Input)
        → IsCareful (answers, input)
        → c.g_cur_itm_idx < c.g_map_entries
        → IsHonest c
        → IsLossless (react lines has_colors keys c (getch input).0 answers (getch input).1)
    react-IsLossless c answers [] careful lt h = h
    react-IsLossless c answers (none ∷ input) careful lt h = h
    react-IsLossless c answers (some ch ∷ input) careful lt h =
        Effect-IsLossless c ch answers input _
          (pressed-Effect lines c ch answers input has_colors keys lt) careful.works careful.short
          (careful.not_declined ch refl) h

    proceed-IsLossless :
        (o : Outcome) (next : Config → Outcome)
        → IsSafe lines o
        → IsLossless o
        → ((c : Config) → IsConsistent lines c → IsHonest c → IsLossless (next c))
        → IsLossless (proceed o next)
    proceed-IsLossless (continues c) next safe h step = step c safe h
    proceed-IsLossless (exits c) next safe h step = h
    proceed-IsLossless faults next safe h step = h

    main_loop-IsLossless :
        (c : Config) (rounds : List (Answers × Input))
        → AreCareful rounds
        → IsConsistent lines c
        → IsHonest c
        → IsLossless (main_loop lines has_colors keys c rounds)
    unfolding main_loop
    main_loop-IsLossless c [] careful k h = h
    main_loop-IsLossless c (round ∷ rounds) careful k h =
        let reacts = iteration-react lines has_colors keys c round.0 round.1 k in
        let once = react-IsLossless c round.0 round.1 careful.0 k.selected.in_list h in
        proceed-IsLossless (iteration lines has_colors keys c round.0 round.1) _
          (iteration-IsSafe lines has_colors keys c round.0 round.1 k)
          (subst IsLossless (sym reacts) once)
          (λ c' k' h'. main_loop-IsLossless c' rounds careful.1 k' h')

-- In the tool, of a file of printable mappings with flags that it has a name for: as long as saving
-- works, the user does not answer n to the question of the end, and no key is followed by more than
-- 127 codes, the tool only ends with a file from which exactly its list is loaded, and whenever it does not call the list
-- modified, that is what the file holds.
pub run-IsLossless :
    (lines : ℕ) (has_colors : Bool) (keys : KeyCodes) (bytes : List ℕ) (c : Config)
    (rounds : List (Answers × Input))
    → start (some bytes) ≡ ready c
    → AreNamed c.g_keymap
    → ArePrintable c.g_keymap
    → AreCareful rounds
    → IsLossless (main_loop lines has_colors keys c rounds)
run-IsLossless lines has_colors keys bytes c rounds started named printable careful =
    let (some_entry, same) = start-ready bytes c started in
    main_loop-IsLossless lines has_colors keys c rounds careful
      (start-IsConsistent lines bytes c started named)
      (record { printable = printable; clean = λ _. subst IsSaved same refl })
