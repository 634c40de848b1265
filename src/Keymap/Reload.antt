-- ===== src/Keymap/Reload.antt =====
-- keymap_load of src/client/keymaplib.c: what the client finds after it, the first time and again.
use rmtdos.Base.{
  ℕ, ◌≡◌, ap, Option, none, some, List, [], ◌∷◌, ◌++◌, refl, ◌∙◌, sym, Option-cases, inl, inr,
}
use mathlib.Core.List.{append_assoc, append-nil}
use rmtdos.Keymap.{
  KeyMapEntry, Keymap, no_keymap, parse_line, load_lines, keymap_load, keymap_build_hash,
  keymap_find_linear, keymap_find, reverse_onto,
}
use rmtdos.Keymap.Index.{find-build_hash, reverse_onto-append, find_linear-append}

-- The mappings that a file defines, in its order.
unfoldable pub entries : List (List ℕ) → List KeyMapEntry
entries [] = []
entries (line ∷ lines) = elim (parse_line line) [
  | none ↦ entries lines
  | some kme ↦ kme ∷ entries lines
]

reverse_onto-head :
    (list : List KeyMapEntry) (kme : KeyMapEntry)
    → reverse_onto (kme ∷ list) [] ≡ reverse_onto list [] ++ kme ∷ []
unfolding reverse_onto
reverse_onto-head list kme = reverse_onto-append list (kme ∷ [])

-- The order in which keymap_save writes the list, and in which the index finds its entries, is the one
-- of the files that were loaded, the earlier file first.
pub reverse-load_lines :
    (list : List KeyMapEntry) (lines : List (List ℕ))
    → reverse_onto (load_lines list lines) [] ≡ reverse_onto list [] ++ entries lines
unfolding load_lines entries
reverse-load_lines list [] = sym (append-nil (reverse_onto list []))
reverse-load_lines list (line ∷ lines) = elim (Option-cases (parse_line line)) [
  | inl skipped ↦ rw (skipped, load_lines, entries) (reverse-load_lines list lines)
  | inr (kme, read) ↦
      rw (read, load_lines, entries)
        (reverse-load_lines (kme ∷ list) lines
          ∙ ap (λ start. start ++ entries lines) (reverse_onto-head list kme)
          ∙ append_assoc (reverse_onto list []) (kme ∷ []) (entries lines))
]

-- After a load a lookup searches the mappings loaded before, and then those of the file, each in the
-- order of its file.
pub find-load :
    (k : Keymap) (lines : List (List ℕ)) (seq : List ℕ)
    → keymap_find (keymap_load k (some lines)).1.hash seq
      ≡ keymap_find_linear (reverse_onto k.g_keymap [] ++ entries lines) seq
unfolding keymap_load
find-load k lines seq =
    find-build_hash (load_lines k.g_keymap lines) seq
    ∙ ap (λ es. keymap_find_linear es seq) (reverse-load_lines k.g_keymap lines)

-- The index is the one of the list.
abbrev pub IsIndexed : Keymap → Type 0
IsIndexed k = k.hash ≡ keymap_build_hash k.g_keymap

-- Whatever file is loaded into a client, once or again, its index is the one of its list.
pub load-IsIndexed :
    (k : Keymap) (file : Option (List (List ℕ))) → IsIndexed k → IsIndexed (keymap_load k file).1
unfolding keymap_load
load-IsIndexed k none h = h
load-IsIndexed k (some lines) h = refl

-- A key of a freshly started client means what the first line of the file for its sequence says.
pub first_load :
    (lines : List (List ℕ)) (seq : List ℕ)
    → keymap_find (keymap_load no_keymap (some lines)).1.hash seq
      ≡ keymap_find_linear (entries lines) seq
unfolding reverse_onto
first_load lines seq = find-load no_keymap lines seq

-- In a keymap whose index is that of its list, a key that is mapped keeps its meaning, whatever
-- file is loaded on top: the entries of an edited file never replace the ones in memory.
pub reload_keeps :
    (k : Keymap) (lines : List (List ℕ)) (seq : List ℕ) (e : KeyMapEntry)
    → IsIndexed k
    → keymap_find k.hash seq ≡ some e
    → keymap_find (keymap_load k (some lines)).1.hash seq ≡ some e
reload_keeps k lines seq e indexed mapped =
    find-load k lines seq
    ∙ find_linear-append (reverse_onto k.g_keymap []) (entries lines) seq e (
        sym (find-build_hash k.g_keymap seq)
        ∙ ap (λ table. keymap_find table seq) (sym indexed)
        ∙ mapped)
