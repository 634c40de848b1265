-- ===== src/Client/Start/Runs.antt =====
-- The main loop of src/client/main.c: what it keeps, whatever the events and the packets are.
use rmtdos.Base.{
  ℕ, ◌≡◌, ◌⊎◌, inl, inr, subst, Option, List, [], ◌∷◌, Bool, true, false, if◌then◌else◌,
}
use rmtdos.Base.Memory.{Bytes}
use rmtdos.Network.{RawSocket, Sent}
use rmtdos.Hostlist.Names.{names}
use rmtdos.Hostlist.Listed.{IsListed, create-IsListed}
use rmtdos.Client.{Client}
use rmtdos.Client.Start.{
  Round, interrupted, wait_failed, ready, Progress, running, left, fault, client_round, main_loop,
}
use rmtdos.Client.Start.Hosts.{Selected}
use rmtdos.Client.Start.{initial}
use rmtdos.Keymap.{Keymap}
use rmtdos.Client.Start.Faults.{SomeColumnless, events-Safe, timers-Safe}

-- A packet of some round has the text of a screen without columns.
abbrev pub SomeRound : List Round → Type 0
SomeRound [] = ⊥
SomeRound (interrupted ∷ rounds) = SomeRound rounds
SomeRound (wait_failed ∷ rounds) = SomeRound rounds
SomeRound (ready now events ∷ rounds) = SomeColumnless events ⊎ SomeRound rounds

-- Unless the loop has crashed, for which there is a reason, its active host is in the list, and the
-- list has each server in the slot of its number and no address twice.
abbrev pub InOrder : (reason : Type 0) → Progress → Type 0
InOrder reason (running c) = Selected c × IsListed (names c.hosts)
InOrder reason (left c) = Selected c × IsListed (names c.hosts)
InOrder reason fault = reason

other-InOrder : (P Q : Type 0) (p : Progress) → (P → Q) → InOrder P p → InOrder Q p
other-InOrder P Q (running c) f h = h
other-InOrder P Q (left c) f h = h
other-InOrder P Q fault f h = f h

entered :
    (reason : Type 0) (on : Bool) (next : Progress) (c : Client)
    → InOrder reason next
    → Selected c × IsListed (names c.hosts)
    → InOrder reason (if on then next else left c)
entered reason true next c good here = good
entered reason false next c good here = here

module _ (key_f12 : ℕ) (rs : RawSocket) (heap : Bytes) (file : Option (List (List ℕ))) where
  -- From a client in order on.
  main_loop-InOrder :
      (rounds : List Round) (c : Client)
      → Selected c
      → IsListed (names c.hosts)
      → InOrder (SomeRound rounds) (main_loop key_f12 rs heap file c rounds)
  unfolding main_loop client_round
  main_loop-InOrder [] c sel l = entered ⊥ c.running (running c) c (sel, l) (sel, l)
  main_loop-InOrder (wait_failed ∷ rounds) c sel l =
      entered (SomeRound rounds) c.running (left (record c { running = false })) c (sel, l) (sel, l)
  main_loop-InOrder (interrupted ∷ rounds) c sel l =
      entered (SomeRound rounds) c.running _ c (main_loop-InOrder rounds c sel l) (sel, l)
  main_loop-InOrder (ready now events ∷ rounds) c sel l =
      elim (events-Safe key_f12 rs heap file now events c sel) [
        | inr (crashed, columnless) ↦
            entered (SomeColumnless events ⊎ SomeRound rounds) c.running _ c
              (rw crashed (inl columnless)) (sel, l)
        | inl (c1, done, sel1, lists1) ↦
            let (c2, timed, sel2, _, lists2) = timers-Safe key_f12 rs heap file now c1 sel1 in
            entered (SomeColumnless events ⊎ SomeRound rounds) c.running _ c
              (rw (done, timed)
                (other-InOrder (SomeRound rounds) (SomeColumnless events ⊎ SomeRound rounds)
                  (main_loop key_f12 rs heap file c2 rounds) (λ later. inr later)
                  (main_loop-InOrder rounds c2 sel2 (lists2 (lists1 l)))))
              (sel, l)
      ]

  pub client-InOrder :
      (keymap : Keymap) (probe : Sent) (rounds : List Round)
      → InOrder (SomeRound rounds) (main_loop key_f12 rs heap file (initial keymap probe) rounds)
  client-InOrder keymap probe rounds =
      main_loop-InOrder rounds (initial keymap probe) (λ i active. cc) create-IsListed

  pub client_crash :
      (keymap : Keymap) (probe : Sent) (rounds : List Round)
      → main_loop key_f12 rs heap file (initial keymap probe) rounds ≡ fault
      → SomeRound rounds
  client_crash keymap probe rounds crashed =
      subst (InOrder (SomeRound rounds)) crashed (client-InOrder keymap probe rounds)
