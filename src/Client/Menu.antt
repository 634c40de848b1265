-- ===== src/Client/Menu.antt =====
-- process_stdin_menu_mode of src/client/main.c: which server a digit selects.
use rmtdos.Base.{
  ℕ, ◌+◌, ◌-◌, ◌<◌, ◌≡◌, some, ltb, leb, ◌&&◌, true, false, arith, get_elem?, get_elem?-in_range,
  ap, ◌∙◌, get_elem?-set_self,
}
use rmtdos.Hostlist.{RemoteHost, modify}
use rmtdos.Hostlist.Slots.{modify_used}
use rmtdos.Client.{Client, leaves, process_stdin_menu_mode, start_remote_control}

pub digit_started :
    (key_f12 : ℕ) (c : Client) (d : ℕ) (rh : RemoteHost)
    → 255 < key_f12
    → d < 10
    → get_elem? c.hosts d ≡ some (some rh)
    → process_stdin_menu_mode key_f12 c (b'0' + d) ≡ start_remote_control c d
unfolding process_stdin_menu_mode start_remote_control
digit_started key_f12 c d rh code digit at =
    let stays : leaves key_f12 (b'0' + d) ≡ false = ground arith in
    let is_digit : (leb b'0' (b'0' + d) && leb (b'0' + d) b'9') ≡ true = ground arith in
    let number : b'0' + d - b'0' ≡ d = omega arith in
    let in_range : ltb d 16 ≡ true = ground arith in
    rw (process_stdin_menu_mode, stays, is_digit, number, in_range, at)
      (ap (start_remote_control c) number)

-- A digit that is the number of a known server makes it the active one, and its slot, but for the
-- window, is as before, as are the keymap and what was sent. KEY_F(12) is the code of no character.
pub digit_selects :
    (key_f12 : ℕ) (c : Client) (d : ℕ) (rh : RemoteHost)
    → 255 < key_f12
    → d < 10
    → get_elem? c.hosts d ≡ some (some rh)
    → let c' = process_stdin_menu_mode key_f12 c (b'0' + d) in
      (c'.active_host ≡ some d)
      × (get_elem? c'.hosts d ≡ some (some (record rh { window = true })))
      × (c'.running ≡ c.running)
      × (c'.keymap ≡ c.keymap)
      × (c'.sent ≡ c.sent)
unfolding start_remote_control
digit_selects key_f12 c d rh code digit at =
    let window = λ (h : RemoteHost). record h { window = true } in
    let opened : get_elem? (modify c.hosts d window) d ≡ some (some (window rh)) =
      ap (λ hs. get_elem? hs d) (modify_used c.hosts d window at)
      ∙ get_elem?-set_self c.hosts d (some (window rh)) (get_elem?-in_range c.hosts d at) in
    let selected = digit_started key_f12 c d rh code digit at in
    (
      ap (λ r. r.active_host) selected,
      ap (λ r. get_elem? r.hosts d) selected ∙ opened,
      ap (λ r. r.running) selected,
      ap (λ r. r.keymap) selected,
      ap (λ r. r.sent) selected,
    )
