-- ===== src/Config/View.antt =====
-- What src/tools/keymap_config.c shows of its list, and how its keys move through it.
use rmtdos.Base.{
  ℕ, zero, suc, ◌+◌, ◌-◌, ◌<◌, ◌≤◌, Option, none, some, List, [], ◌∷◌, ◌==◌, ltb, leb,
  if◌then◌else◌, get_elem?, Bool, codes, arith,
}
use rmtdos.Keymap.{KeyMapEntry, keymap_format_sequence_hex}
use rmtdos.Config.{Config, OriginalSeqData, get_entry_at_index, clamp, pos, sub_ℕ}

-- `HighlightStyle`; nothing uses its third value.
pub data HighlightStyle : Type 0 where
  highlight_normal : HighlightStyle
  highlight_capture : HighlightStyle

-- `KeyFlags`, an array of nine names.
abbrev pub key_flags : List (List ℕ)
key_flags =
    []
    ∷ []
    ∷ []
    ∷ codes "KS_SHIFT"
    ∷ codes "KS_CONTROL"
    ∷ []
    ∷ []
    ∷ codes "KS_SHIFT + KS_CONTROL"
    ∷ codes "KS_ALT"
    ∷ []

-- The colours of a line.
pub data Colour : Type 0 where
  a_normal : Colour
  highlight_pair : Colour
  capture_pair : Colour
  modified_pair : Colour

-- What one line of the list shows: its row, its colours and its columns.
pub record Shown : Type 0 where
  pub row : ℕ
  pub colour : Colour
  pub entry : KeyMapEntry
  pub original : List ℕ
  pub current : List ℕ
  pub flags_name : List ℕ

-- LINES, which is not negative.
module _ (lines : ℕ) where
  abbrev pub visible_count : ℕ
  visible_count = if ltb 5 lines then lines - 5 else 1

  unfoldable pub ensure_visible : Config → Config
  ensure_visible c =
      let vis = visible_count in
      let top =
        if ltb c.g_cur_itm_idx c.g_top_itm_idx
        then c.g_cur_itm_idx
        else if leb (c.g_top_itm_idx + vis) c.g_cur_itm_idx
        then c.g_cur_itm_idx - vis + 1
        else c.g_top_itm_idx in
      record c { g_top_itm_idx = clamp (pos top) (c.g_map_entries - vis) }

  -- The selection is moved, and the list scrolled to it.
  abbrev pub select : Config → ℕ → Config
  select c idx = ensure_visible (record c { g_cur_itm_idx = idx })

  abbrev pub move_up : Config → Config
  move_up c = if ltb 0 c.g_cur_itm_idx then select c (c.g_cur_itm_idx - 1) else c

  abbrev pub move_down : Config → Config
  move_down c =
      if ltb c.g_cur_itm_idx (c.g_map_entries - 1) then select c (c.g_cur_itm_idx + 1) else c

  abbrev pub page_up : Config → Config
  page_up c = select c (clamp (sub_ℕ c.g_cur_itm_idx visible_count) (c.g_map_entries - 1))

  abbrev pub page_down : Config → Config
  page_down c = select c (clamp (pos (c.g_cur_itm_idx + visible_count)) (c.g_map_entries - 1))

  -- has_colors()
  module _ (has_colors : Bool) where
    abbrev colour_of : HighlightStyle → Config → OriginalSeqData → ℕ → Colour
    colour_of style c orig_info map_index =
        if map_index == c.g_cur_itm_idx
        then elim style [
          | highlight_normal ↦ highlight_pair
          | highlight_capture ↦ if has_colors then capture_pair else highlight_pair
        ]
        else if orig_info.is_modified
        then modified_pair
        else a_normal

    abbrev pub shown_line :
        HighlightStyle → Config → ℕ → KeyMapEntry → OriginalSeqData → List ℕ → Shown
    shown_line style c i entry orig_info name = record {
      row = 3 + i;
      colour = colour_of style c orig_info (c.g_top_itm_idx + i);
      entry = entry;
      original = keymap_format_sequence_hex orig_info.data' 128;
      current = keymap_format_sequence_hex entry.sequence 128;
      flags_name = name;
    }

    -- The loop of display_map_list, from its count `i` on; `none` is a read behind the end of
    -- `g_org_seq` or of `KeyFlags`.
    unfoldable pub display_from : HighlightStyle → Config → (left i : ℕ) → Option (List Shown)
    display_from style c zero i = some []
    display_from style c (suc left) i =
        let map_index = c.g_top_itm_idx + i in
        let rest = display_from style c left (i + 1) in
        if leb c.g_map_entries map_index
        then some []
        else elim (get_entry_at_index c.g_keymap map_index) [
          | none ↦ rest
          | some entry ↦ elim (get_elem? c.g_org_seq map_index) [
            | none ↦ none
            | some orig_info ↦ elim (get_elem? key_flags entry.keydos.flags_17) [
              | none ↦ none
              | some name ↦ elim rest [
                | none ↦ none
                | some shown ↦ some (shown_line style c i entry orig_info name ∷ shown)
              ]
            ]
          ]
        ]

    unfoldable pub display_map_list : HighlightStyle → Config → Option (List Shown)
    unfolding display_from
    display_map_list style c = display_from style c visible_count 0

-- The selected entry is one of the list, and its line is on the screen; no line is left empty while
-- there are entries above.
pub record IsSelected (lines : ℕ) (c : Config) : Type 0 where
  pub in_list : c.g_cur_itm_idx < c.g_map_entries
  pub from_top : c.g_top_itm_idx ≤ c.g_cur_itm_idx
  pub to_bottom : c.g_cur_itm_idx < c.g_top_itm_idx + visible_count lines
  pub filled : c.g_top_itm_idx ≤ c.g_map_entries - visible_count lines

module _ (lines : ℕ) where
  pub ensure_visible-IsSelected :
      (c : Config) → c.g_cur_itm_idx < c.g_map_entries → IsSelected lines (ensure_visible lines c)
  unfolding ensure_visible
  ensure_visible-IsSelected c lt = record {
    in_list = lt;
    from_top = ground arith;
    to_bottom = ground arith;
    filled = ground arith;
  }
