-- ===== src/Keymap/Index.antt =====
-- The hash index of src/client/keymaplib.c: what a lookup in it finds.
use rmtdos.Base.{
  ℕ, ◌≡◌, ap, some, List, [], ◌∷◌, ◌++◌, ◌==◌, ==_refl, Bool-cases, inl, inr, true, bytes_eq_sound,
  refl, ◌∙◌, sym,
}
use mathlib.Core.List.{append_assoc}
use rmtdos.Keymap.{
  KeyMapEntry, HashTable, hash_sequence, add_node, empty_table, build_from, keymap_build_hash, maps,
  keymap_find_linear, keymap_find, reverse_onto,
}

-- A node in front of a bucket is found first, and other sequences are as before.
find-add_node :
    (table : HashTable) (e : KeyMapEntry) (acc : List KeyMapEntry) (seq : List ℕ)
    → keymap_find_linear (table (hash_sequence seq)) seq ≡ keymap_find_linear acc seq
    → keymap_find_linear (add_node table e (hash_sequence seq)) seq
      ≡ keymap_find_linear (e ∷ acc) seq
unfolding keymap_find_linear
find-add_node table e acc seq h = elim (Bool-cases (maps seq e)) [
  | inl hit ↦
      let here : (hash_sequence seq == hash_sequence e.sequence) ≡ true =
        rw (bytes_eq_sound e.sequence seq hit) (==_refl (hash_sequence seq)) in
      rw (here, hit) refl
  | inr miss ↦ elim (Bool-cases (hash_sequence seq == hash_sequence e.sequence)) [
    | inl here ↦ rw (here, miss) h
    | inr elsewhere ↦ rw (elsewhere, miss) h
  ]
]

find-build_from :
    (es : List KeyMapEntry) (table : HashTable) (acc : List KeyMapEntry) (seq : List ℕ)
    → keymap_find_linear (table (hash_sequence seq)) seq ≡ keymap_find_linear acc seq
    → keymap_find_linear (build_from table es (hash_sequence seq)) seq
      ≡ keymap_find_linear (reverse_onto es acc) seq
unfolding build_from reverse_onto
find-build_from [] table acc seq h = h
find-build_from (e ∷ es) table acc seq h =
    find-build_from es (add_node table e) (e ∷ acc) seq (find-add_node table e acc seq h)

-- A lookup in the index that is built from a list finds what a search of the reversed list finds: of
-- two entries with one sequence the last in the list.
pub find-build_hash :
    (list : List KeyMapEntry) (seq : List ℕ)
    → keymap_find (keymap_build_hash list) seq ≡ keymap_find_linear (reverse_onto list []) seq
unfolding keymap_find keymap_build_hash
find-build_hash list seq = find-build_from list empty_table [] seq refl

pub reverse_onto-append :
    (list acc : List KeyMapEntry) → reverse_onto list acc ≡ reverse_onto list [] ++ acc
unfolding reverse_onto
reverse_onto-append [] acc = refl
reverse_onto-append (e ∷ list) acc =
    reverse_onto-append list (e ∷ acc)
    ∙ sym (append_assoc (reverse_onto list []) (e ∷ []) acc)
    ∙ ap (λ start. start ++ acc) (sym (reverse_onto-append list (e ∷ [])))

pub find_linear-append :
    (es fs : List KeyMapEntry) (seq : List ℕ) (e : KeyMapEntry)
    → keymap_find_linear es seq ≡ some e
    → keymap_find_linear (es ++ fs) seq ≡ some e
unfolding keymap_find_linear
find_linear-append [] fs seq e h = cc
find_linear-append (d ∷ es) fs seq e h = elim (Bool-cases (maps seq d)) [
  | inl hit ↦ rw hit (rw hit at h)
  | inr miss ↦ rw miss (find_linear-append es fs seq e (rw miss at h))
]
