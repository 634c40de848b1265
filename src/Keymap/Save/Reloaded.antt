-- ===== src/Keymap/Save/Reloaded.antt =====
-- keymap_save and keymap_load of src/client/keymaplib.c, one after the other.
use rmtdos.Base.{
  ℕ, zero, suc, ◌+◌, ◌-◌, ◌≤◌, ◌<◌, ◌≡◌, ◌⊎◌, some, List, [], ◌∷◌, ◌++◌, ◌==◌, leb, ltb,
  if◌then◌else◌, length, take, map, true, false, refl, ◌∙◌, ap, arith, Bool-cases, inl, inr,
}
use mathlib.Core.List.{append-nil}
use rmtdos.Keymap.{
  KeyMapEntry, no_keymap, parse_line, load_lines, keymap_load, keymap_build_hash, reverse_onto,
}
use rmtdos.Keymap.Text.{trim}
use rmtdos.Keymap.Save.{
  Answers, all_well, newline, entry_text, header_lines, max_desc_width, write_entries, unlines,
  keymap_save, line_room, fgets_from, fgets_lines,
}
use rmtdos.Keymap.Save.Fields.{lacks}
use rmtdos.Keymap.Save.Line.{IsPrintable}
use rmtdos.Keymap.Save.Entry.{one_line, line_length, parse-entry_text}

-- Every mapping has its line.
abbrev pub ArePrintable : List KeyMapEntry → Type 0
ArePrintable [] = Unit {0}
ArePrintable (e ∷ list) = IsPrintable e × ArePrintable list

-- Lines that fgets returns whole.
abbrev AreLines : List (List ℕ) → Type 0
AreLines [] = Unit {0}
AreLines (line ∷ lines) = (lacks newline line ≡ true) × (length line < line_room) × AreLines lines

abbrev ended : List ℕ → List ℕ
ended line = line ++ newline ∷ []

fgets-line :
    (line rest : List ℕ) (left : ℕ)
    → lacks newline line ≡ true
    → length line < left
    → fgets_from left (line ++ newline ∷ rest) ≡ ended line ∷ fgets_from line_room rest
unfolding fgets_from
fgets-line [] rest left h lt = refl
fgets-line (c ∷ line) rest left h lt =
    let other : (c == newline) ≡ false = ground arith in
    let some_room : leb left 1 ≡ false = ground arith in
    let next : fgets_from (left - 1) (line ++ newline ∷ rest)
        ≡ ended line ∷ fgets_from line_room rest =
      fgets-line line rest (left - 1) (ground arith) (omega arith) in
    rw (other, some_room, next) refl

fgets-unlines :
    (lines : List (List ℕ)) → AreLines lines → fgets_lines (unlines lines) ≡ map ended lines
unfolding fgets_lines unlines fgets_from
fgets-unlines [] h = refl
fgets-unlines (line ∷ lines) h =
    fgets-line line (unlines lines) line_room h.0 h.1
    ∙ ap (λ ls. ended line ∷ ls) (fgets-unlines lines h.2)

write_all :
    (width i : ℕ) (list : List KeyMapEntry)
    → write_entries all_well width i list ≡ (true, map (entry_text width) list)
unfolding write_entries
write_all width i [] = refl
write_all width i (e ∷ list) = rw (write_all width (i + 1) list) refl

write_fails :
    (answers : Answers) (width i k : ℕ) (list : List KeyMapEntry)
    → k < length list
    → answers.writes (i + k) ≡ false
    → (write_entries answers width i list).0 ≡ false
unfolding write_entries
write_fails answers width i k [] lt h = elim lt [ ]
write_fails answers width i zero (e ∷ list) lt h =
    let here : answers.writes i ≡ false = ap answers.writes (omega arith) ∙ h in rw here refl
write_fails answers width i (suc k) (e ∷ list) lt h =
    let later =
      write_fails answers width (i + 1) k list (omega arith)
        (ap answers.writes (omega arith) ∙ h) in
    elim (Bool-cases (answers.writes i)) [ inl on ↦ rw on later | inr off ↦ rw off refl ]

max_desc_width_bound :
    (width : ℕ) (list : List KeyMapEntry)
    → width ≤ 480
    → ArePrintable list
    → max_desc_width width list ≤ 480
unfolding max_desc_width
max_desc_width_bound width [] h p = h
max_desc_width_bound width (e ∷ list) h p =
    max_desc_width_bound (if ltb width (length e.description) then length e.description else width)
      list (ground (arith, p.0.title_fits)) p.1

reverse_onto-ArePrintable :
    (list acc : List KeyMapEntry)
    → ArePrintable list
    → ArePrintable acc
    → ArePrintable (reverse_onto list acc)
unfolding reverse_onto
reverse_onto-ArePrintable [] acc h k = k
reverse_onto-ArePrintable (e ∷ list) acc h k = reverse_onto-ArePrintable list (e ∷ acc) h.1 (h.0, k)

length-reverse_onto :
    (list acc : List KeyMapEntry) → length (reverse_onto list acc) ≡ length list + length acc
unfolding reverse_onto
length-reverse_onto [] acc = omega arith
length-reverse_onto (e ∷ list) acc = omega (arith, length-reverse_onto list (e ∷ acc))

reverse_onto_twice :
    (list acc out : List KeyMapEntry)
    → reverse_onto (reverse_onto list acc) out ≡ reverse_onto acc (list ++ out)
unfolding reverse_onto
reverse_onto_twice [] acc out = refl
reverse_onto_twice (e ∷ list) acc out = reverse_onto_twice list (e ∷ acc) out

entry_lines-AreLines :
    (width : ℕ) (list : List KeyMapEntry)
    → width ≤ 480
    → ArePrintable list
    → AreLines (map (entry_text width) list)
entry_lines-AreLines width [] h p = tt
entry_lines-AreLines width (e ∷ list) h p = (
  one_line e width p.0,
  line_length e width p.0 (omega arith),
  entry_lines-AreLines width list h p.1,
)

load_entries :
    (width : ℕ) (list acc : List KeyMapEntry)
    → ArePrintable list
    → load_lines acc (map ended (map (entry_text width) list)) ≡ reverse_onto list acc
unfolding load_lines reverse_onto
load_entries width [] acc p = refl
load_entries width (e ∷ list) acc p =
    rw (parse-entry_text e width p.0, load_lines) (load_entries width list (e ∷ acc) p.1)

load_header :
    (lines : List (List ℕ)) (acc : List KeyMapEntry)
    → load_lines acc (map ended header_lines ++ lines) ≡ load_lines acc lines
unfolding load_lines parse_line trim
load_header lines acc = refl

-- A save leaves the list as it was, or only its first entry.
pub keymap_save-list :
    (answers : Answers) (list : List KeyMapEntry)
    → ((keymap_save answers list).1 ≡ list) ⊎ ((keymap_save answers list).1 ≡ take 1 list)
unfolding keymap_save reverse_onto
keymap_save-list answers list = elim (Bool-cases answers.opens) [
  | inr closed ↦ inl (rw closed refl)
  | inl opened ↦
      elim (Bool-cases
        (write_entries answers (max_desc_width 10 list) 0 (reverse_onto list [])).0) [
          | inl all ↦ inl (rw (opened, all) (reverse_onto_twice list [] [] ∙ append-nil list))
          | inr failed ↦ inr (rw (opened, failed) refl)
        ]
]

-- The file of a save in which nothing fails.
abbrev saved_lines : List KeyMapEntry → List (List ℕ)
saved_lines list = header_lines ++ map (entry_text (max_desc_width 10 list)) (reverse_onto list [])

save_all :
    (list : List KeyMapEntry)
    → keymap_save all_well list ≡ (true, list, some (unlines (saved_lines list)))
unfolding keymap_save reverse_onto
save_all list =
    let written = write_all (max_desc_width 10 list) 0 (reverse_onto list []) in
    let restored : reverse_onto (reverse_onto list []) [] ≡ list =
      reverse_onto_twice list [] [] ∙ append-nil list in
    rw (written, restored) refl

load-saved :
    (list : List KeyMapEntry)
    → ArePrintable list
    → keymap_load no_keymap (some (fgets_lines (unlines (saved_lines list))))
      ≡ (true, record { g_keymap = list; hash = keymap_build_hash list })
unfolding keymap_load reverse_onto
load-saved list p =
    let width = max_desc_width 10 list in
    let reversed = reverse_onto list [] in
    let narrow = max_desc_width_bound 10 list (omega arith) p in
    let printable = reverse_onto-ArePrintable list [] p tt in
    let whole : AreLines (saved_lines list) = (
      refl,
      omega arith,
      (
        refl,
        omega arith,
        (refl, omega arith, entry_lines-AreLines width reversed narrow printable),
      ),
    ) in
    let loaded : load_lines [] (fgets_lines (unlines (saved_lines list))) ≡ list =
      ap (load_lines []) (fgets-unlines (saved_lines list) whole)
      ∙ load_header (map ended (map (entry_text width) reversed)) []
      ∙ load_entries width reversed [] printable
      ∙ reverse_onto_twice list [] []
      ∙ append-nil list in
    ap (λ l. (true, record { g_keymap = l; hash = keymap_build_hash l })) loaded

-- A list of printable mappings that is saved without a failure is unchanged in memory, and a program
-- that loads the file first has the same list, in the same order, and its index.
pub load-save :
    (list : List KeyMapEntry)
    → ArePrintable list
    → (file : List ℕ) × (keymap_save all_well list ≡ (true, list, some file))
      × (keymap_load no_keymap (some (fgets_lines file))
          ≡ (true, record { g_keymap = list; hash = keymap_build_hash list }))
load-save list p = (unlines (saved_lines list), save_all list, load-saved list p)

-- When the print of one of the mappings fails, keymap_save leaves in memory only the mapping that was
-- first in the list. If that one is printable, the next save in which nothing fails answers success
-- and writes no other: a program that loads the file has lost all the rest.
pub failed_save_loses :
    (answers : Answers) (k : ℕ) (e : KeyMapEntry) (list : List KeyMapEntry)
    → answers.opens ≡ true
    → k < length (e ∷ list)
    → answers.writes k ≡ false
    → IsPrintable e
    → ((keymap_save answers (e ∷ list)).0 ≡ false)
      × ((keymap_save answers (e ∷ list)).1 ≡ e ∷ [])
      × ((file : List ℕ) × (keymap_save all_well (e ∷ []) ≡ (true, e ∷ [], some file))
          × ((keymap_load no_keymap (some (fgets_lines file))).1.g_keymap ≡ e ∷ []))
unfolding keymap_save
failed_save_loses answers k e list opens lt fails printable =
    let failed : (write_entries answers (max_desc_width 10 (e ∷ list)) 0
          (reverse_onto (e ∷ list) [])).0
        ≡ false =
      write_fails answers (max_desc_width 10 (e ∷ list)) 0 k (reverse_onto (e ∷ list) [])
        (omega (arith, length-reverse_onto (e ∷ list) []))
        (ap answers.writes (omega arith) ∙ fails) in
    (
      rw (opens, failed) refl,
      rw (opens, failed) refl,
      (
        unlines (saved_lines (e ∷ [])),
        save_all (e ∷ []),
        ap (λ r. r.1.g_keymap) (load-saved (e ∷ []) (printable, tt)),
      ),
    )
