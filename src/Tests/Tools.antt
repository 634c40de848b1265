-- ===== src/Tests/Tools.antt =====
-- A file with two mappings in the tool that edits keymaps.
use rmtdos.Base.{ℕ, ◌≡◌, refl, List, [], ◌∷◌, ◌==◌, arith, some, none, true, false, codes}
use rmtdos.Keymap.{KeyMapEntry, no_keymap, keymap_load, keymap_build_hash, parse_line}
use rmtdos.Keymap.Text.{trim, strtok, cut_at, parse_byte}
use rmtdos.Keymap.Save.{Answers, all_well, keymap_save, fgets_lines}
use rmtdos.Keymap.Save.Line.{IsPrintable}
use rmtdos.Keymap.Save.Reloaded.{load-save, failed_save_loses}
use rmtdos.Config.{Config, KeyCodes, Input}
use rmtdos.Config.Capture.{capture_sequence, key_sequence, capture_sequence_lem}
use rmtdos.Config.Loop.{main_loop, start, ready, tolower}
use rmtdos.Config.Safe.{IsSafe}
use rmtdos.Config.Start.{run-IsSafe}
use rmtdos.Config.Lossless.{IsLossless, AreCareful, run-IsLossless}

abbrev key_up : KeyMapEntry
key_up = record {
  description = codes "Up";
  sequence = 27 ∷ 91 ∷ 65 ∷ [];
  keydos = record { bios_scan_code = 0x48; ascii_value = 0; flags_17 = 0 };
}

abbrev key_a : KeyMapEntry
key_a = record {
  description = codes "Alt A";
  sequence = 27 ∷ 97 ∷ [];
  keydos = record { bios_scan_code = 0x1e; ascii_value = 0; flags_17 = 8 };
}

abbrev both : List KeyMapEntry
both = key_a ∷ key_up ∷ []

key_up-IsPrintable : IsPrintable key_up
unfolding trim
key_up-IsPrintable = record {
  title = record {
    visible = refl;
    no_comment = refl;
    ends = refl;
    one_field = refl;
    one_line = refl;
  };
  title_fits = omega arith;
  bytes = (omega arith, (omega arith, (omega arith, tt)));
  sequence_fits = omega arith;
  scan_byte = omega arith;
  ascii_byte = omega arith;
  flags_byte = omega arith;
}

key_a-IsPrintable : IsPrintable key_a
unfolding trim
key_a-IsPrintable = record {
  title = record {
    visible = refl;
    no_comment = refl;
    ends = refl;
    one_field = refl;
    one_line = refl;
  };
  title_fits = omega arith;
  bytes = (omega arith, (omega arith, tt));
  sequence_fits = omega arith;
  scan_byte = omega arith;
  ascii_byte = omega arith;
  flags_byte = omega arith;
}

load-save_example :
    (file : List ℕ) × (keymap_save all_well both ≡ (true, both, some file))
    × (keymap_load no_keymap (some (fgets_lines file))
        ≡ (true, record { g_keymap = both; hash = keymap_build_hash both }))
load-save_example = load-save both (key_a-IsPrintable, (key_up-IsPrintable, tt))

-- The disk is full after the first line.
abbrev full : Answers
full = record { opens = true; writes = λ i. i == 0; closes = true }

failed_save_loses_example :
    ((keymap_save full both).0 ≡ false)
    × ((keymap_save full both).1 ≡ key_a ∷ [])
    × ((file : List ℕ) × (keymap_save all_well (key_a ∷ []) ≡ (true, key_a ∷ [], some file))
        × ((keymap_load no_keymap (some (fgets_lines file))).1.g_keymap ≡ key_a ∷ []))
failed_save_loses_example =
    failed_save_loses full 1 key_a (key_up ∷ []) refl (omega arith) refl key_a-IsPrintable

abbrev file : List ℕ
file = codes "Up | \\x1b\\x5b\\x41 | 0x48 | 0 | 0\nAlt A|\\x1b\\x61|0x1e|0x00|8 # both\n"

abbrev opened : Config
opened = record {
  g_cur_itm_idx = 0;
  g_top_itm_idx = 0;
  g_map_entries = 2;
  g_dirty_flag = false;
  g_org_seq =
      record { data' = 27 ∷ 97 ∷ []; is_modified = false }
      ∷ record { data' = 27 ∷ 91 ∷ 65 ∷ []; is_modified = false }
      ∷ [];
  g_keymap = both;
  file = file;
}

opened_ready : start (some file) ≡ ready opened
unfolding start fgets_lines keymap_load parse_line trim strtok cut_at parse_byte
opened_ready = refl

abbrev keys : KeyCodes
keys = record {
  key_up = 259;
  key_down = 258;
  key_home = 262;
  key_end = 360;
  key_ppage = 339;
  key_npage = 338;
  key_enter = 343;
}

-- Down, Enter with the cursor key down, s, and q.
abbrev rounds : List (Answers × Input)
rounds =
    (all_well, some 258 ∷ [])
    ∷ (all_well, some 10 ∷ some 27 ∷ some 91 ∷ some 66 ∷ none ∷ [])
    ∷ (all_well, some b's' ∷ [])
    ∷ (all_well, some b'q' ∷ [])
    ∷ []

capture_sequence_lem_example :
    (capture_sequence (some 27 ∷ some 259 ∷ some 300 ∷ some 66 ∷ none ∷ [])).0
    ≡ key_sequence (some 27 ∷ some 259 ∷ some 300 ∷ some 66 ∷ none ∷ [])
capture_sequence_lem_example =
    capture_sequence_lem (some 27 ∷ some 259 ∷ some 300 ∷ some 66 ∷ none ∷ [])

run-IsSafe_example : IsSafe 6 (main_loop 6 true keys opened rounds)
run-IsSafe_example =
    run-IsSafe 6 true keys file opened rounds opened_ready (omega arith, (omega arith, tt))

rounds-AreCareful : AreCareful rounds
unfolding tolower
rounds-AreCareful = (
  record { works = refl; short = omega arith; not_declined = λ ch e q. refl },
  (
    record { works = refl; short = omega arith; not_declined = λ ch e q. refl },
    (
      record { works = refl; short = omega arith; not_declined = λ ch e q. refl },
      (record { works = refl; short = omega arith; not_declined = λ ch e q. refl }, tt),
    ),
  ),
)

run-IsLossless_example : IsLossless (main_loop 6 true keys opened rounds)
run-IsLossless_example =
    run-IsLossless 6 true keys file opened rounds opened_ready (omega arith, (omega arith, tt))
      (key_a-IsPrintable, (key_up-IsPrintable, tt)) rounds-AreCareful
