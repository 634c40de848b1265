-- ===== src/Delivery/Typing.antt =====
-- Keys typed in the client between two timer ticks of the server, from src/client/keyboard.c to the
-- keystrokes that src/server/protocol.c injects.
use rmtdos.Base.{
  ℕ, suc, ◌-◌, true, ◌<◌, ◌≤◌, ◌≡◌, refl, Option, some, List, [], ◌∷◌, ◌++◌, arith, ap, ◌∙◌, sym,
  length, map, reverse, get_elem?,
}
use mathlib.Core.List.{append_assoc, append-nil}
use rmtdos.Base.Memory.{Bytes}
use rmtdos.Bufmgr.{Ptr}
use rmtdos.Bufmgr.Invariant.{Holds, pool}
use rmtdos.X86.{CpuRegs}
use rmtdos.Network.{RawSocket, Sent}
use rmtdos.Network.Frame.{IsValid}
use rmtdos.Hostlist.{RemoteHost, Hosts}
use rmtdos.Keymap.{KeyMapEntry, Keymap, keymap_find}
use rmtdos.Client.{Client, broadcast_probe_interval}
use rmtdos.Client.Keyboard.{captured, keystroke}
use rmtdos.Client.Keyboard.Typed.{Typed, IsPlain, mapped_key_sent}
use rmtdos.Client.Events.{on_stdin, handle_events, event_handled, session_event}
use rmtdos.Client.Start.{Round, ready, Progress, running, main_loop}
use rmtdos.Client.Start.Rounds.{AllRecent, entered, round_done, quiet_timers}
use rmtdos.Protocol.{Env, Keystroke}
use rmtdos.Protocol.Keys.{handle-inject_keystroke}
use rmtdos.Protocol.Process.{handle_all}
use rmtdos.Pktdrv.{Pktdrv}
use rmtdos.Tick.{Server, int08_handler, int08_handler_lem}
use rmtdos.Delivery.Arrivals.{
  Packet, deliver_all, Fit, deliver_all_ready, Injects, AllInject, reversed_keys,
}

-- A key as the codes that the terminal gives for it: the first, and those before the next ERR.
abbrev pub Key : Type 0
Key = ℕ × List ℕ

-- A key, and the time at which it is read.
abbrev pub TimedKey : Type 0
TimedKey = ℕ × Key

-- The round of the main loop for it.
abbrev pub typed : TimedKey → Round
typed (now, (ch, codes)) = ready now (on_stdin (ch ∷ codes) ∷ [])

-- The keymap knows the key, with flags within a byte, and as none of the client's own.
pub record IsMapped (keymap : Keymap) (key : Key) (entry : KeyMapEntry) : Type 0 where
  pub found : keymap_find keymap.hash (captured key.0 key.1) ≡ some entry
  pub plain : IsPlain entry
  pub flags : entry.keydos.flags_17 < 256

abbrev pub AllMapped : Keymap → List TimedKey → List KeyMapEntry → Type 0
AllMapped keymap [] [] = Unit {0}
AllMapped keymap [] (e ∷ es) = ⊥
AllMapped keymap (k ∷ ks) [] = ⊥
AllMapped keymap (k ∷ ks) (e ∷ es) = IsMapped keymap k.1 e × AllMapped keymap ks es

-- At the times of the keys neither a probe nor a session is due.
abbrev pub AllQuiet : (last_probe : ℕ) → Hosts → List TimedKey → Type 0
AllQuiet last_probe hosts [] = Unit {0}
AllQuiet last_probe hosts (k ∷ ks) =
    (k.0 - last_probe ≤ broadcast_probe_interval)
    × AllRecent k.0 hosts
    × AllQuiet last_probe hosts ks

-- What a packet is on the wire.
abbrev pub on_wire : Sent → Packet
on_wire s = (s.len, s.frame)

abbrev pub AllTo : List ℕ → List Sent → Type 0
AllTo mac [] = Unit {0}
AllTo mac (s ∷ ss) = (s.to ≡ mac) × AllTo mac ss

abbrev pub strokes : List KeyMapEntry → List Keystroke
strokes entries = map (λ (e : KeyMapEntry). keystroke e.keydos) entries

Typed-Injects :
    (rs : RawSocket) (mac : List ℕ) (e : KeyMapEntry) (s : Sent)
    → Typed rs mac e s
    → Injects (on_wire s) (keystroke e.keydos)
Typed-Injects rs mac e s t env h =
    ap (λ r. r.keys) (handle-inject_keystroke env h s.len s.frame t.signed t.kind) ∙ t.injects env h

-- What the client sends for the keys.
record SentFor (rs : RawSocket) (mac : List ℕ) (c : Client) (entries : List KeyMapEntry)
    (run : Progress) : Type 0 where
  ss : List Sent
  returns : run ≡ running (record c { sent = c.sent ++ ss })
  to : AllTo mac ss
  fit : Fit (map on_wire ss)
  count : length (map on_wire ss) ≡ length entries
  inject : AllInject (map on_wire ss) (strokes entries)

module _ (key_f12 : ℕ) (rs : RawSocket) (heap : Bytes) (file : Option (List (List ℕ))) (i : ℕ)
    (rh : RemoteHost) (valid : IsValid rs) (six : length rh.if_addr ≡ 6) where
  keys_sent :
      (ks : List TimedKey) (es : List KeyMapEntry) (c : Client)
      → c.running ≡ true
      → c.active_host ≡ some i
      → get_elem? c.hosts i ≡ some (some rh)
      → AllQuiet c.last_probe c.hosts ks
      → AllMapped c.keymap ks es
      → SentFor rs rh.if_addr c es (main_loop key_f12 rs heap file c (map typed ks))
  unfolding main_loop handle_events
  keys_sent [] [] c on active slot quiet all = record {
    ss = [];
    returns =
        entered c.running (running c) c on
        ∙ ap (λ l. running (record c { sent = l })) (sym (append-nil c.sent));
    to = tt;
    fit = tt;
    count = refl;
    inject = tt;
  }
  keys_sent [] (e ∷ es) c on active slot quiet all = absurd all
  keys_sent (k ∷ ks) [] c on active slot quiet all = absurd all
  keys_sent ((now, (ch, codes)) ∷ ks) (e ∷ es) c on active slot quiet all =
      let (s, result, t) =
        mapped_key_sent rs heap rh.if_addr file c ch codes e valid six all.0.flags all.0.plain
          all.0.found in
      let c1 : Client = record c { sent = c.sent ++ (s ∷ []) } in
      let rest = keys_sent ks es c1 on active slot quiet.2 all.1 in
      let first =
        session_event key_f12 rs heap file now c c1 i rh (ch ∷ codes) active slot result in
      record {
        ss = s ∷ rest.ss;
        returns =
            round_done key_f12 rs heap file now (on_stdin (ch ∷ codes) ∷ []) (map typed ks) c c1 c1
              on (event_handled key_f12 rs heap file now c c1 (on_stdin (ch ∷ codes)) [] first)
              (quiet_timers rs heap now c1 quiet.0 quiet.1)
            ∙ (rest.returns
                ∙ ap (λ l. running (record c { sent = l })) (append_assoc c.sent (s ∷ []) rest.ss));
        to = (t.to, rest.to);
        fit = (omega (arith, t.size), rest.fit);
        count = ap suc rest.count;
        inject = (Typed-Injects rs rh.if_addr e s t, rest.inject);
      }

-- A server has been selected, and keys are typed that the keymap knows, with flags within a byte,
-- and that are none of the client's own, each in a round of the main loop of its own, at a time when
-- neither a probe nor a session is due. The client sends one packet for each, to that server, and
-- nothing else. Where these arrive between two timer ticks, each finds a free buffer, and none was
-- ready before, the next tick injects the keystroke of every one of them, from the last that was
-- typed to the first. The socket's fields must be in range, the server's address must have 6 bytes,
-- its table of buffers must stand for a pool and its screen must have columns; the fuel is for one
-- round more than there are keys.
pub typed_keys_reversed :
    (key_f12 : ℕ) (rs : RawSocket) (heap : Bytes) (file : Option (List (List ℕ))) (i : ℕ)
    (rh : RemoteHost) (ks : List TimedKey) (es : List KeyMapEntry) (c : Client) (env : Env)
    (frame : Bytes) (fuel ds : ℕ) (regs : CpuRegs) (d : Pktdrv) (server : Server)
    (fs ps us : List Ptr)
    → IsValid rs
    → length rh.if_addr ≡ 6
    → c.running ≡ true
    → c.active_host ≡ some i
    → get_elem? c.hosts i ≡ some (some rh)
    → AllQuiet c.last_probe c.hosts ks
    → AllMapped c.keymap ks es
    → Holds server.buffers (pool fs ps [] us)
    → length es ≤ length fs
    → length es < fuel
    → 0 < env.video.text_cols
    → (ss : List Sent) × (server' : Server) × (main_loop key_f12 rs heap file c (map typed ks)
        ≡ running (record c { sent = c.sent ++ ss }))
      × AllTo rh.if_addr ss
      × (int08_handler env frame fuel
            (record server { buffers = (deliver_all ds regs d server.buffers (map on_wire ss)).1 })
          ≡ some server')
      × (server'.screen.host.keys ≡ server.screen.host.keys ++ reverse (strokes es))
typed_keys_reversed key_f12 rs heap file i rh ks es c env frame fuel ds regs d server fs ps us valid
      six on active slot quiet mapped holds enough fuelled wide =
    let sent = keys_sent key_f12 rs heap file i rh valid six ks es c on active slot quiet mapped in
    let packets = map on_wire sent.ss in
    let (fs', rs', holds', all, count) =
      deliver_all_ready ds regs packets d server.buffers fs ps [] us holds
        (omega (arith, sent.count)) sent.fit in
    let filled : Server = record server {
      buffers = (deliver_all ds regs d server.buffers packets).1;
    } in
    let (server', ticked, _, keys, _, _, _) =
      int08_handler_lem env frame fuel filled fs' ps rs' us holds'
        (omega (arith, count, sent.count)) wide in
    let order = all ∙ append-nil (reverse packets) in
    (
      sent.ss,
      server',
      sent.returns,
      sent.to,
      ticked,
      keys
          ∙ (ap (λ l. (handle_all env server.screen.host l).keys) order
              ∙ reversed_keys env server.screen.host packets (strokes es) sent.inject),
    )
