-- ===== src/Client/Start/Leaves.antt =====
-- How the main loop of src/client/main.c is left.
use rmtdos.Base.{
  ℕ, ◌≡◌, refl, ap, ◌∙◌, Option, none, some, List, [], ◌∷◌, true, false, if◌then◌else◌, ◌⊎◌, inl,
  inr, get_elem?, Bool,
}
use rmtdos.Base.Memory.{Bytes}
use rmtdos.Network.{RawSocket}
use rmtdos.Hostlist.{RemoteHost}
use rmtdos.Keymap.{KeyMapEntry, keymap_find}
use rmtdos.Client.{Client, leaves, process_stdin_menu_mode}
use rmtdos.Client.Keyboard.{captured, k_exit}
use rmtdos.Client.Keyboard.Kept.{exit_key}
use rmtdos.Client.Events.{
  Event, on_stdin, handle_event, handle_events, handle_stdin, menu_keys, event_handled,
  session_event,
}
use rmtdos.Client.Start.{Round, interrupted, wait_failed, ready, Progress, left, main_loop}
use rmtdos.Client.Start.Rounds.{round_done}
use rmtdos.Client.Start.Hosts.{Selected}
use rmtdos.Client.Start.Faults.{timers-Safe}

skipped :
    (b : Bool) (next : Progress) (c : Client) → b ≡ false → (if b then next else left c) ≡ left c
skipped true next c off = cc
skipped false next c off = refl

module _ (key_f12 : ℕ) (rs : RawSocket) (heap : Bytes) (file : Option (List (List ℕ))) where
  not_running :
      (rounds : List Round) (c : Client)
      → c.running ≡ false
      → main_loop key_f12 rs heap file c rounds ≡ left c
  unfolding main_loop
  not_running [] c off = skipped c.running _ c off
  not_running (interrupted ∷ rounds) c off = skipped c.running _ c off
  not_running (wait_failed ∷ rounds) c off = skipped c.running _ c off
  not_running (ready now events ∷ rounds) c off = skipped c.running _ c off

  -- A round in which the handlers stop the client is the last one.
  last_round :
      (now : ℕ) (events : List Event) (c c1 : Client)
      → c.running ≡ true
      → handle_events key_f12 rs heap file now c events ≡ some c1
      → Selected c1
      → c1.running ≡ false
      → (c' : Client) × (c'.running ≡ false)
        × ((rounds : List Round)
            → main_loop key_f12 rs heap file c (ready now events ∷ rounds) ≡ left c')
  last_round now events c c1 on handled sel off =
      let (c2, timed, _, kept, _) = timers-Safe key_f12 rs heap file now c1 sel in
      (
        c2,
        kept ∙ off,
        λ rounds.
            round_done key_f12 rs heap file now events rounds c c1 c2 on handled timed
            ∙ not_running rounds c2 (kept ∙ off),
      )

  -- The loop is left in the round in which, with no server selected, ESC, F12 or the code 0x9b is
  -- typed, or, with a server selected, a key that the keymap has as Ctrl+F12: the client at which it
  -- is left is the same whatever the rounds are that would come later.
  pub exit_key_leaves :
      (now : ℕ) (ch : ℕ) (codes : List ℕ) (c : Client)
      → Selected c
      → c.running ≡ true
      → ((c.active_host ≡ none) × (leaves key_f12 ch ≡ true))
        ⊎ ((i : ℕ) × (rh : RemoteHost) × (key : KeyMapEntry) × (c.active_host ≡ some i)
            × (get_elem? c.hosts i ≡ some (some rh))
            × (keymap_find c.keymap.hash (captured ch codes) ≡ some key)
            × (key.description ≡ k_exit))
      → (c' : Client) × (c'.running ≡ false)
        × ((rounds : List Round)
            → main_loop key_f12 rs heap file c (ready now (on_stdin (ch ∷ codes) ∷ []) ∷ rounds)
              ≡ left c')
  unfolding handle_event handle_events handle_stdin menu_keys process_stdin_menu_mode
  exit_key_leaves now ch codes c sel on (inl (menu, leaving)) =
      let c1 : Client = record c { running = false } in
      let typed : handle_event key_f12 rs heap file now c (on_stdin (ch ∷ codes)) ≡ some c1 =
        ap (λ a. handle_stdin key_f12 rs heap file now c a (ch ∷ codes)) menu ∙ rw leaving refl in
      last_round now (on_stdin (ch ∷ codes) ∷ []) c c1 on
        (event_handled key_f12 rs heap file now c c1 (on_stdin (ch ∷ codes)) [] typed) sel refl
  exit_key_leaves now ch codes c sel on (inr (i, rh, key, active, slot, found, named)) =
      let c1 : Client = record c { running = false } in
      let typed =
        session_event key_f12 rs heap file now c c1 i rh (ch ∷ codes) active slot
          (exit_key rs heap rh.if_addr file c ch codes key found named) in
      last_round now (on_stdin (ch ∷ codes) ∷ []) c c1 on
        (event_handled key_f12 rs heap file now c c1 (on_stdin (ch ∷ codes)) [] typed) sel refl
