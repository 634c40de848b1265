-- ===== src/Client/Probing.antt =====
-- update_probing_window of src/client/main.c, with fmt_mac_addr of src/client/util.c and hostlist_iter
-- of src/client/hostlist.c: the menu of servers. A line is what its format is printed with; ncurses,
-- which prints nothing below the last line of a window, is the system's.
use rmtdos.Base.{
  ℕ, zero, suc, ◌+◌, ◌-◌, ◌/◌, ◌%◌, ◌≤◌, ◌<◌, ◌≡◌, refl, ap, ◌∙◌, arith, Option, none, some, List,
  [], ◌∷◌, ◌++◌, Bool, true, not, ltb, leb, ◌==◌, if◌then◌else◌, get_elem?, Bool-cases, inl, inr,
  subst, sym,
}
use rmtdos.Keymap.{hex_digit}
use rmtdos.Client.{Client, process_stdin_menu_mode}
use rmtdos.Client.Menu.{digit_selects}
use rmtdos.Hostlist.Names.{names, get_elem?-names}
use rmtdos.Hostlist.Listed.{IsListed}
use rmtdos.Hostlist.{RemoteHost, Hosts}

-- "%02x" of a byte
abbrev pub hex_pair : ℕ → List ℕ
hex_pair b = hex_digit (b / 16) ∷ hex_digit (b % 16) ∷ []

pub fmt_mac_addr : List ℕ → List ℕ
fmt_mac_addr [] = []
fmt_mac_addr (b ∷ []) = hex_pair b
fmt_mac_addr (b ∷ (b' ∷ mac)) = hex_pair b ++ (b':' ∷ fmt_mac_addr (b' ∷ mac))

-- A line of the menu. The time since the last response is in microseconds, and `none` where the clock
-- was set back.
pub record HostLine : Type 0 where
  pub id : ℕ
  pub source : List ℕ
  pub video_mode : ℕ
  pub text_cols : ℕ
  pub text_rows : ℕ
  pub last_ping : Option ℕ

pub host_line : (tv_now : ℕ) → RemoteHost → HostLine
unfolding fmt_mac_addr
host_line tv_now r = record {
  id = r.index;
  source = fmt_mac_addr r.if_addr;
  video_mode = r.status.video_mode;
  text_cols = r.status.text_cols;
  text_rows = r.status.text_rows;
  last_ping = if leb r.tv_last_resp tv_now then some (tv_now - r.tv_last_resp) else none;
}

-- The lines of g_probe_window below its heading.
abbrev pub Lines : Type 0
Lines = ℕ → Option HostLine

-- newwin(18, 70, 2, 5)
abbrev pub probe_window_lines : ℕ
probe_window_lines = 18

-- mvwprintw at a line of the window
abbrev pub print_line : Lines → ℕ → HostLine → Lines
print_line w y line =
    if ltb y probe_window_lines then (λ y'. if y' == y then some line else w y') else w

-- timerisset
abbrev pub has_responded : RemoteHost → Bool
has_responded r = not (r.tv_last_resp == 0)

-- The loop over hostlist_iter, from the line `y` on.
unfoldable pub list_hosts : (tv_now : ℕ) → Hosts → ℕ → Lines → Lines
list_hosts tv_now [] y w = w
list_hosts tv_now (none ∷ hosts) y w = list_hosts tv_now hosts y w
list_hosts tv_now (some r ∷ hosts) y w =
    let next = list_hosts tv_now hosts (y + 1) (print_line w y (host_line tv_now r)) in
    let rest = list_hosts tv_now hosts y w in if has_responded r then next else rest

-- The window is cleared first; the list starts at its sixth line.
pub update_probing_window : (tv_now : ℕ) → Hosts → Lines
unfolding list_hosts
update_probing_window tv_now hosts = list_hosts tv_now hosts 5 (λ y. none)

-- How many hosts of the first `i` slots have responded.
abbrev pub responded : Hosts → ℕ → ℕ
responded hosts zero = 0
responded [] (suc i) = 0
responded (none ∷ hosts) (suc i) = responded hosts i
responded (some r ∷ hosts) (suc i) =
    if has_responded r then responded hosts i + 1 else responded hosts i

above :
    (tv_now : ℕ) (hosts : Hosts) (y : ℕ) (w : Lines) (y' : ℕ)
    → y' < y
    → list_hosts tv_now hosts y w y' ≡ w y'
unfolding list_hosts
above tv_now [] y w y' less = refl
above tv_now (none ∷ hosts) y w y' less = above tv_now hosts y w y' less
above tv_now (some r ∷ hosts) y w y' less = elim (Bool-cases (has_responded r)) [
  | inr silent ↦ rw silent (above tv_now hosts y w y' less)
  | inl heard ↦ rw heard (
      above tv_now hosts (y + 1) (print_line w y (host_line tv_now r)) y' (omega arith)
      ∙ ground arith)
]

listed :
    (tv_now : ℕ) (hosts : Hosts) (y : ℕ) (w : Lines) (i : ℕ) (rh : RemoteHost)
    → get_elem? hosts i ≡ some (some rh)
    → has_responded rh ≡ true
    → y + responded hosts i < probe_window_lines
    → list_hosts tv_now hosts y w (y + responded hosts i) ≡ some (host_line tv_now rh)
unfolding list_hosts
listed tv_now [] y w i rh at heard room = cc
listed tv_now (none ∷ hosts) y w zero rh at heard room = cc
listed tv_now (none ∷ hosts) y w (suc i) rh at heard room =
    listed tv_now hosts y w i rh at heard room
listed tv_now (some r ∷ hosts) y w zero rh at heard room =
    let same : r ≡ rh = cc at in
    let on : has_responded r ≡ true = ap has_responded same ∙ heard in
    let inside : ltb (y + 0) probe_window_lines ≡ true = ground arith in
    let level : y + 0 ≡ y = omega arith in
    let printed : print_line w y (host_line tv_now r) y ≡ some (host_line tv_now r) =
      ground arith in
    rw (on, level)
      (above tv_now hosts (y + 1) (print_line w y (host_line tv_now r)) y (omega arith)
        ∙ (printed ∙ ap (λ q. some (host_line tv_now q)) same))
listed tv_now (some r ∷ hosts) y w (suc i) rh at heard room = elim (Bool-cases (has_responded r)) [
  | inr silent ↦
      let room' = rw silent at room in rw silent (listed tv_now hosts y w i rh at heard room')
  | inl heard_too ↦
      let room' = rw heard_too at room in
      let level : y + (responded hosts i + 1) ≡ y + 1 + responded hosts i = omega arith in
      rw (heard_too, level)
        (listed tv_now hosts (y + 1) (print_line w y (host_line tv_now r)) i rh at heard
          (omega (arith, room')))
]

responded_le : (hosts : Hosts) (i : ℕ) → responded hosts i ≤ i
responded_le hosts zero = omega arith
responded_le [] (suc i) = omega arith
responded_le (none ∷ hosts) (suc i) = omega (arith, responded_le hosts i)
responded_le (some r ∷ hosts) (suc i) = ground (arith, responded_le hosts i)

-- In a list that has each server in the slot of its number, a server in one of the first ten slots has
-- responded. Then the menu has a line for it, within the window, with its address and the mode and size of its screen, and the key of
-- the digit that this line has for its id selects that server. KEY_F(12) is the code of no character.
pub menu_choice :
    (key_f12 tv_now : ℕ) (c : Client) (d : ℕ) (rh : RemoteHost)
    → 255 < key_f12
    → d < 10
    → get_elem? c.hosts d ≡ some (some rh)
    → has_responded rh ≡ true
    → IsListed (names c.hosts)
    → (y : ℕ) × (line : HostLine) × (y < probe_window_lines)
      × (update_probing_window tv_now c.hosts y ≡ some line)
      × (line.source ≡ fmt_mac_addr rh.if_addr)
      × (line.video_mode ≡ rh.status.video_mode)
      × (line.text_cols ≡ rh.status.text_cols)
      × (line.text_rows ≡ rh.status.text_rows)
      × (let c' = process_stdin_menu_mode key_f12 c (b'0' + line.id) in
          (c'.active_host ≡ some d)
          × (get_elem? c'.hosts d ≡ some (some (record rh { window = true }))))
unfolding update_probing_window host_line
menu_choice key_f12 tv_now c d rh code digit at heard listing =
    let indexed = listing.indexed d rh.index rh.if_addr (get_elem?-names c.hosts d at) in
    let room : 5 + responded c.hosts d < probe_window_lines =
      omega (arith, responded_le c.hosts d) in
    let (active, opened, _, _, _) = digit_selects key_f12 c d rh code digit at in
    let pressed = λ (P : ℕ → Type 0) (p : P d). subst P (sym indexed) p in
    (
      5 + responded c.hosts d,
      host_line tv_now rh,
      room,
      listed tv_now c.hosts 5 (λ y. none) d rh at heard room,
      refl,
      refl,
      refl,
      refl,
      (
        pressed (λ id. (process_stdin_menu_mode key_f12 c (b'0' + id)).active_host ≡ some d) active,
        pressed
            (λ id.
              get_elem? (process_stdin_menu_mode key_f12 c (b'0' + id)).hosts d
              ≡ some (some (record rh { window = true })))
            opened,
      ),
    )
