-- ===== src/Config/Start.antt =====
-- The tool of src/tools/keymap_config.c from the loading of its file on.
use rmtdos.Base.{
  ℕ, zero, suc, ◌<◌, ◌≡◌, some, List, [], ◌∷◌, ◌==◌, length, get_elem?, Bool, false, refl, ◌∙◌, sym,
  ap, subst, arith, Bool-cases, inl, inr,
}
use rmtdos.Keymap.{KeyMapEntry, no_keymap, keymap_load}
use rmtdos.Keymap.Save.{Answers, fgets_lines}
use rmtdos.Config.{Config, OriginalSeqData, KeyCodes, Input, count_map_entries}
use rmtdos.Config.Loop.{main_loop, original_sequences, empty, ready, start}
use rmtdos.Config.Kept.{IsConsistent}
use rmtdos.Config.Safe.{IsSafe, main_loop-IsSafe}

start_entries : (list : List KeyMapEntry) → count_map_entries list ≡ length list
unfolding count_map_entries
start_entries [] = refl
start_entries (e ∷ list) = ap suc (start_entries list)

length-original : (list : List KeyMapEntry) → length (original_sequences list) ≡ length list
unfolding original_sequences
length-original [] = refl
length-original (e ∷ list) = ap suc (length-original list)

original_sequence :
    (list : List KeyMapEntry) (i : ℕ) (e : KeyMapEntry) (o : OriginalSeqData)
    → get_elem? list i ≡ some e
    → get_elem? (original_sequences list) i ≡ some o
    → e.sequence ≡ o.data'
unfolding original_sequences
original_sequence [] i e o there beside = cc
original_sequence (d ∷ list) zero e o there beside =
    let e_same : d ≡ e = cc there in
    let o_same : record { data' = d.sequence; is_modified = false } ≡ o = cc beside in
    ap (λ (x : KeyMapEntry). x.sequence) (sym e_same) ∙ ap (λ (x : OriginalSeqData). x.data') o_same
original_sequence (d ∷ list) (suc i) e o there beside = original_sequence list i e o there beside

-- Every entry has flags that the tool has a name for.
abbrev pub AreNamed : List KeyMapEntry → Type 0
AreNamed [] = Unit {0}
AreNamed (e ∷ list) = (e.keydos.flags_17 < 9) × AreNamed list

get_elem?-named :
    (list : List KeyMapEntry) (i : ℕ) (e : KeyMapEntry)
    → AreNamed list
    → get_elem? list i ≡ some e
    → e.keydos.flags_17 < 9
get_elem?-named [] i e n there = cc
get_elem?-named (d ∷ list) zero e n there =
    let same : d ≡ e = cc there in subst (λ (x : KeyMapEntry). x.keydos.flags_17 < 9) same n.0
get_elem?-named (d ∷ list) (suc i) e n there = get_elem?-named list i e n.1 there

abbrev loaded : List ℕ → List KeyMapEntry
loaded bytes = (keymap_load no_keymap (some (fgets_lines bytes))).1.g_keymap

abbrev first_config : List ℕ → Config
first_config bytes = record {
  g_cur_itm_idx = 0;
  g_top_itm_idx = 0;
  g_map_entries = count_map_entries (loaded bytes);
  g_dirty_flag = false;
  g_org_seq = original_sequences (loaded bytes);
  g_keymap = loaded bytes;
  file = bytes;
}

pub start-ready :
    (bytes : List ℕ) (c : Config)
    → start (some bytes) ≡ ready c
    → (0 < count_map_entries (loaded bytes)) × (first_config bytes ≡ c)
unfolding start
start-ready bytes c h = elim (Bool-cases (count_map_entries (loaded bytes) == 0)) [
  | inl nothing ↦ (let clash : empty ≡ ready c = rw nothing at h in cc)
  | inr more ↦
      let some_ready : ready (first_config bytes) ≡ ready c = rw more at h in
      (ground arith, cc some_ready)
]

pub start-IsConsistent :
    (lines : ℕ) (bytes : List ℕ) (c : Config)
    → start (some bytes) ≡ ready c
    → AreNamed c.g_keymap
    → IsConsistent lines c
start-IsConsistent lines bytes c h named =
    let (some_entry, same) = start-ready bytes c h in
    let entries = start_entries (loaded bytes) in
    subst (IsConsistent lines) same (record {
      selected = record {
        in_list = some_entry;
        from_top = omega arith;
        to_bottom = ground arith;
        filled = omega arith;
      };
      tracked = record {
        parallel = length-original (loaded bytes) ∙ sym entries;
        not_more = omega (arith, entries);
        originals =
            λ i e o there beside unmarked. original_sequence (loaded bytes) i e o there beside;
        named = λ i e there.
            get_elem?-named (loaded bytes) i e
              (subst (λ (x : Config). AreNamed x.g_keymap) (sym same) named) there;
      };
    })

-- Whatever keys are pressed in the tool, of a file whose mappings have flags that it has a name for,
-- whatever is typed for a sequence and whatever saving comes to, in a terminal of one size: the tool
-- never reads or writes out of bounds, the index of the selected entry stays below the number of entries
-- that the tool counted when it started, and within the lines that the screen has from the first index
-- shown, and every entry of the list that is not marked as modified has the sequence that is kept as
-- its original one.
pub run-IsSafe :
    (lines : ℕ) (has_colors : Bool) (keys : KeyCodes) (bytes : List ℕ) (c : Config)
    (rounds : List (Answers × Input))
    → start (some bytes) ≡ ready c
    → AreNamed c.g_keymap
    → IsSafe lines (main_loop lines has_colors keys c rounds)
run-IsSafe lines has_colors keys bytes c rounds started named =
    main_loop-IsSafe lines has_colors keys c rounds (start-IsConsistent lines bytes c started named)
