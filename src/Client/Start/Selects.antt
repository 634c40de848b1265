-- ===== src/Client/Start/Selects.antt =====
-- A server is selected in the menu of src/client/main.c, and then a key is typed for it.
use rmtdos.Base.{
  ℕ, ◌+◌, ◌<◌, ◌≡◌, refl, ap, sym, ◌∙◌, Option, some, none, List, [], ◌∷◌, ◌++◌, get_elem?, length,
  true, subst,
}
use mathlib.Core.List.{append_assoc}
use rmtdos.Base.Memory.{Bytes}
use rmtdos.Network.{RawSocket, Sent}
use rmtdos.Network.Frame.{IsValid}
use rmtdos.Keymap.{KeyMapEntry, keymap_find}
use rmtdos.Hostlist.{RemoteHost}
use rmtdos.Client.{Client, process_stdin_menu_mode, start_remote_control}
use rmtdos.Client.Menu.{digit_started, digit_selects}
use rmtdos.Client.Timers.{Addressed}
use rmtdos.Client.Keyboard.{captured}
use rmtdos.Client.Keyboard.Typed.{Typed, IsPlain, mapped_key_sent}
use rmtdos.Client.Events.{
  on_stdin, handle_event, handle_events, handle_stdin, menu_keys, event_handled, session_event,
}
use rmtdos.Client.Start.{ready, running, main_loop}
use rmtdos.Client.Start.Rounds.{entered, round_done}
use rmtdos.Client.Start.Upkeep.{AllUpkeep, timers-Kept, modify-Addressed}

started-Addressed :
    (c : Client) (d : ℕ) → Addressed c.hosts → Addressed (start_remote_control c d).hosts
unfolding start_remote_control
started-Addressed c d six =
    modify-Addressed c.hosts d (λ rh. record rh { window = true }) (λ rh. refl) six

-- In the menu the digit of a known server is typed, and in the next round of the main loop a key that
-- the keymap knows, with flags within a byte, and that is none of the client's own. Then exactly one
-- packet is sent to have a keystroke injected: to that server, which injects the keystroke of the
-- keymap on it. All that is sent before and after it are probes and starts of sessions. The socket's
-- fields must be in range, the servers' addresses must have 6 bytes, and KEY_F(12) is the code of no
-- character.
pub select_and_type :
    (key_f12 : ℕ) (rs : RawSocket) (heap : Bytes) (file : Option (List (List ℕ))) (now later : ℕ)
    (c : Client) (d : ℕ) (rh : RemoteHost) (ch : ℕ) (codes : List ℕ) (key : KeyMapEntry)
    → 255 < key_f12
    → IsValid rs
    → c.running ≡ true
    → c.active_host ≡ none
    → d < 10
    → get_elem? c.hosts d ≡ some (some rh)
    → length rh.if_addr ≡ 6
    → Addressed c.hosts
    → key.keydos.flags_17 < 256
    → IsPlain key
    → keymap_find c.keymap.hash (captured ch codes) ≡ some key
    → (c' : Client) × (s : Sent) × (before after : List Sent) × (main_loop key_f12 rs heap file c (
          ready now (on_stdin ((b'0' + d) ∷ []) ∷ [])
          ∷ ready later (on_stdin (ch ∷ codes) ∷ [])
          ∷ [])
        ≡ running c')
      × (c'.sent ≡ c.sent ++ (before ++ (s ∷ after)))
      × AllUpkeep rs before
      × Typed rs rh.if_addr key s
      × AllUpkeep rs after
unfolding main_loop handle_events handle_event handle_stdin menu_keys
select_and_type key_f12 rs heap file now later c d rh ch codes key code valid on menu digit at fits
      known flags plain found =
    let c1 = process_stdin_menu_mode key_f12 c (b'0' + d) in
    let (active, slot, on1, keymap, sent) = digit_selects key_f12 c d rh code digit at in
    let started = digit_started key_f12 c d rh code digit at in
    let six1 : Addressed c1.hosts =
      subst (λ (x : Client). Addressed x.hosts) (sym started) (started-Addressed c d known) in
    let (c2, before, timed, k) = timers-Kept rs heap now c1 valid six1 in
    let (rh', slot2, same) = k.slots d (record rh { window = true }) slot in
    let mapped2 : keymap_find c2.keymap.hash (captured ch codes) ≡ some key =
      ap (λ m. keymap_find m.hash (captured ch codes)) (k.keymap ∙ keymap) ∙ found in
    let (s, result, typed) =
      mapped_key_sent rs heap rh'.if_addr file c2 ch codes key valid (ap length same ∙ fits) flags
        plain mapped2 in
    let c3 : Client = record c2 { sent = c2.sent ++ (s ∷ []) } in
    let (c4, after, timed2, k2) = timers-Kept rs heap later c3 valid k.addressed in
    let selected : handle_event key_f12 rs heap file now c (on_stdin ((b'0' + d) ∷ [])) ≡ some c1 =
      ap (λ a. handle_stdin key_f12 rs heap file now c a ((b'0' + d) ∷ [])) menu in
    let typing =
      session_event key_f12 rs heap file later c2 c3 d rh' (ch ∷ codes) (k.active ∙ active) slot2
        result in
    let on2 = k.on ∙ (on1 ∙ on) in
    (
      c4,
      s,
      before,
      after,
      round_done key_f12 rs heap file now (on_stdin ((b'0' + d) ∷ []) ∷ [])
            (ready later (on_stdin (ch ∷ codes) ∷ []) ∷ []) c c1 c2 on
            (event_handled key_f12 rs heap file now c c1 (on_stdin ((b'0' + d) ∷ [])) [] selected)
            timed
          ∙ (round_done key_f12 rs heap file later (on_stdin (ch ∷ codes) ∷ []) [] c2 c3 c4 on2
                (event_handled key_f12 rs heap file later c2 c3 (on_stdin (ch ∷ codes)) [] typing)
                timed2
              ∙ entered c4.running (running c4) c4 (k2.on ∙ on2)),
      k2.sends
          ∙ (ap (λ l. (l ++ (s ∷ [])) ++ after) (k.sends ∙ ap (λ l. l ++ before) sent)
              ∙ (append_assoc (c.sent ++ before) (s ∷ []) after
                  ∙ append_assoc c.sent before (s ∷ after))),
      k.upkeep,
      subst (λ mac. Typed rs mac key s) same typed,
      k2.upkeep,
    )
