-- ===== src/VgaDemo/Keys.antt =====
-- What the keys do to the state of src/vga_demo/vga_demo.c.
use rmtdos.Base.{
  ℕ, suc, ◌<◌, ◌≤◌, ◌≡◌, refl, ap, ◌∙◌, sym, List, [], ◌∷◌, ◌++◌, ◌==◌, if◌then◌else◌, true, false,
  some, arith, length, Bool, Bool-cases, inl, inr, Option-cases,
}
use mathlib.Core.List.{append_assoc, append-nil}
use rmtdos.Protocol.{VideoState}
use rmtdos.VgaDemo.Pattern.{All, All-append}
use rmtdos.VgaDemo.{
  Demo, start, Call, set_mode, clear_rows, disable_blink, write, print_mode, print_key, print_bios,
  go_to, Press, history_calls, bios_calls, bios_offsets, refresh_screen, screen_calls, prep_screen,
  set_video_mode, moved, switched, push_event, process_keyboard, key_loop, main, video_modes,
  key_event_hist_size,
}

-- A line of refresh_screen.
abbrev pub IsRefresh : Call → Type 0
IsRefresh (print_key x y attr i scan_code ascii shown) = 37 ≤ y
IsRefresh (print_bios x y attr offset val) = 37 ≤ y
IsRefresh (set_mode rows) = ⊥
IsRefresh (clear_rows y1 y2) = ⊥
IsRefresh disable_blink = ⊥
IsRefresh (write w) = ⊥
IsRefresh (print_mode video_mode text_cols text_rows) = ⊥
IsRefresh (go_to x y) = ⊥

-- The last screen that was drawn is that of the globals, and behind it there is refresh_screen only.
abbrev pub IsCurrent : Bool → (ℕ → VideoState) → Demo → Type 0
IsCurrent char_signed screen d =
    (before after : List Call) × (d.calls
      ≡ before ++ (screen_calls char_signed screen d.video_mode d.active_char ++ after))
    × All IsRefresh after

pub record IsValid (char_signed : Bool) (screen : ℕ → VideoState) (d : Demo) : Type 0 where
  pub byte : d.active_char < 256
  pub mode : d.video_mode < video_modes
  pub history : length d.key_events ≡ key_event_hist_size
  pub current : IsCurrent char_signed screen d

length-push_event : (es : List ℕ) (ax : ℕ) → length (push_event es ax) ≡ length es
unfolding push_event
length-push_event [] ax = refl
length-push_event (e ∷ []) ax = refl
length-push_event (e ∷ (e' ∷ es)) ax = ap suc (length-push_event (e' ∷ es) ax)

either {ℓ κ} :
    {A : Type ℓ} (P : A → Type κ) (b : Bool) {x y : A} → P x → P y → P (if b then x else y)
either P true px py = px
either P false px py = py

history-IsRefresh : (i : ℕ) (es : List ℕ) → All IsRefresh (history_calls i es)
unfolding history_calls
history-IsRefresh i [] = tt
history-IsRefresh i (e ∷ es) = (omega arith, history-IsRefresh (suc i) es)

bios-IsRefresh :
    (peek : ℕ → ℕ) (i : ℕ) (offsets : List ℕ) → All IsRefresh (bios_calls peek i offsets)
unfolding bios_calls
bios-IsRefresh peek i [] = tt
bios-IsRefresh peek i (offset ∷ offsets) = (omega arith, bios-IsRefresh peek (suc i) offsets)

module _ (char_signed : Bool) (screen : ℕ → VideoState) where
  prep-IsValid :
      (d : Demo)
      → d.active_char < 256
      → d.video_mode < video_modes
      → length d.key_events ≡ key_event_hist_size
      → IsValid char_signed screen (prep_screen char_signed screen d)
  unfolding prep_screen
  prep-IsValid d byte mode history = record {
    byte = byte;
    mode = mode;
    history = history;
    current = (d.calls, [], ap (λ l. d.calls ++ l) (sym (append-nil _)), tt);
  }

  moved-byte : (ax ch ch' : ℕ) → ch < 256 → moved ax ch ≡ some ch' → ch' < 256
  moved-byte ax ch ch' byte h = ground arith

  switched-IsValid :
      (d : Demo) (ax : ℕ)
      → IsValid char_signed screen d
      → IsValid char_signed screen (switched char_signed screen d ax)
  unfolding set_video_mode
  switched-IsValid d ax v = elim (Bool-cases (ax == 0x2f00)) [
    | inl next ↦ rw next (prep-IsValid _ v.byte (omega arith) v.history)
    | inr other ↦ elim (Option-cases (moved ax d.active_char)) [
      | inl stays ↦ rw (other, stays) v
      | inr (ch, moves) ↦
          rw (other, moves)
            (prep-IsValid (record d { active_char = ch })
              (moved-byte ax d.active_char ch v.byte moves) v.mode v.history)
    ]
  ]

  keyboard-IsValid :
      (d : Demo) (ax : ℕ)
      → IsValid char_signed screen d
      → IsValid char_signed screen (process_keyboard char_signed screen d ax)
  unfolding process_keyboard
  keyboard-IsValid d ax v = elim (Bool-cases (ax == 0x2d00)) [
    | inl leaves ↦
        rw leaves
          (record { byte = v.byte; mode = v.mode; history = v.history; current = v.current })
    | inr stays ↦
        let d' = switched char_signed screen d ax in
        let v' = switched-IsValid d ax v in
        rw stays (record {
          byte = v'.byte;
          mode = v'.mode;
          history = length-push_event d'.key_events ax ∙ v'.history;
          current = v'.current;
        })
  ]

  refresh-IsValid :
      (peek : ℕ → ℕ) (d : Demo)
      → IsValid char_signed screen d
      → IsValid char_signed screen (refresh_screen peek d)
  unfolding refresh_screen
  refresh-IsValid peek d v =
      let lines = history_calls 0 d.key_events ++ bios_calls peek 0 bios_offsets in
      let (before, after, drawn, refreshed) = v.current in
      let shown = screen_calls char_signed screen d.video_mode d.active_char in
      record {
        byte = v.byte;
        mode = v.mode;
        history = v.history;
        current = (
          before,
          after ++ lines,
          ap (λ l. l ++ lines) drawn
              ∙ (append_assoc before (shown ++ after) lines
                  ∙ ap (λ l. before ++ l) (append_assoc shown after lines)),
          All-append IsRefresh after lines refreshed (
              All-append IsRefresh (history_calls 0 d.key_events) (bios_calls peek 0 bios_offsets)
                (history-IsRefresh 0 d.key_events) (bios-IsRefresh peek 0 bios_offsets)),
        );
      }

  loop-IsValid :
      (keys : List Press) (d : Demo)
      → IsValid char_signed screen d
      → IsValid char_signed screen (key_loop char_signed screen d keys)
  unfolding key_loop
  loop-IsValid [] d v = v
  loop-IsValid ((peek, ax) ∷ keys) d v =
      let d1 = refresh_screen peek d in
      either (IsValid char_signed screen) d.running
        (loop-IsValid keys (process_keyboard char_signed screen d1 ax)
          (keyboard-IsValid d1 ax (refresh-IsValid peek d v)))
        v

  -- Whatever keys are pressed and whatever the BIOS has, the demonstration's character stays within a
  -- byte, its mode is one of the three, it remembers six keys, and the last that is drawn is the screen
  -- for its mode and its character, followed by lines of refresh_screen alone, in rows from 37 on.
  pub main-IsValid : (keys : List Press) → IsValid char_signed screen (main char_signed screen keys)
  unfolding main set_video_mode
  main-IsValid keys =
      loop-IsValid keys (prep_screen char_signed screen (set_video_mode char_signed screen start))
        (prep-IsValid (set_video_mode char_signed screen start) (omega arith) (omega arith) refl)
