-- ===== src/Client/Start/Upkeep.antt =====
-- What process_timers of src/client/main.c sends, and what it leaves as it is.
use rmtdos.Base.{
  ℕ, zero, suc, ◌≡◌, refl, ap, ◌∙◌, none, some, List, [], ◌∷◌, ◌++◌, ◌⊎◌, inl, inr, if◌then◌else◌,
  get_elem?, length, Option-cases,
}
use rmtdos.Base.Memory.{Bytes}
use rmtdos.Wire.{v1_session_start, v1_status_req}
use rmtdos.Network.{RawSocket, Sent, broadcast_addr, send_status_req}
use rmtdos.Network.Frame.{IsValid, Headers}
use rmtdos.Hostlist.{RemoteHost, Hosts, modify}
use rmtdos.Client.{Client, expired, broadcast_probe_interval, refresh_sessions, process_timers}
use rmtdos.Client.Timers.{Refreshed, all_seen, free, kept, renewed, Addressed, process_timers_lem}

-- A probe, or the start of a session.
abbrev pub IsUpkeep : RawSocket → Sent → Type 0
IsUpkeep rs s =
    (mac : List ℕ) × (Headers s.frame rs mac v1_status_req 0
      ⊎ Headers s.frame rs mac v1_session_start 0)

abbrev pub AllUpkeep : RawSocket → List Sent → Type 0
AllUpkeep rs [] = Unit {0}
AllUpkeep rs (s ∷ ss) = IsUpkeep rs s × AllUpkeep rs ss

Refreshed-Upkeep :
    {rs : RawSocket} {now : ℕ} {hs hs' : Hosts} {fs : List Sent}
    → Refreshed rs now hs fs hs'
    → AllUpkeep rs fs
Refreshed-Upkeep all_seen = tt
Refreshed-Upkeep (free r) = Refreshed-Upkeep r
Refreshed-Upkeep (kept same r) = Refreshed-Upkeep r
Refreshed-Upkeep (renewed {rh} on old to headers r) =
    ((rh.if_addr, inr headers), Refreshed-Upkeep r)

Refreshed-Addressed :
    {rs : RawSocket} {now : ℕ} {hs hs' : Hosts} {fs : List Sent}
    → Refreshed rs now hs fs hs'
    → Addressed hs
    → Addressed hs'
Refreshed-Addressed all_seen six = six
Refreshed-Addressed (free r) six = Refreshed-Addressed r six
Refreshed-Addressed (kept same r) six = (six.0, Refreshed-Addressed r six.1)
Refreshed-Addressed (renewed on old to headers r) six = (six.0, Refreshed-Addressed r six.1)

-- A server keeps its slot and its address.
Refreshed-slot :
    {rs : RawSocket} {now : ℕ} {hs hs' : Hosts} {fs : List Sent} (d : ℕ) (rh : RemoteHost)
    → Refreshed rs now hs fs hs'
    → get_elem? hs d ≡ some (some rh)
    → (rh' : RemoteHost) × (get_elem? hs' d ≡ some (some rh')) × (rh'.if_addr ≡ rh.if_addr)
Refreshed-slot d rh all_seen at = cc
Refreshed-slot zero rh (free r) at = cc
Refreshed-slot (suc d) rh (free r) at = Refreshed-slot d rh r at
Refreshed-slot zero rh (kept same r) at = (rh, at, refl)
Refreshed-slot (suc d) rh (kept same r) at = Refreshed-slot d rh r at
Refreshed-slot zero known (renewed {rh} on old to headers r) at =
    let here : rh ≡ known = cc in (_, refl, ap (λ (h : RemoteHost). h.if_addr) here)
Refreshed-slot (suc d) rh (renewed on old to headers r) at = Refreshed-slot d rh r at

pub modify-Addressed :
    (hs : Hosts) (i : ℕ) (f : RemoteHost → RemoteHost)
    → ((rh : RemoteHost) → (f rh).if_addr ≡ rh.if_addr)
    → Addressed hs
    → Addressed (modify hs i f)
unfolding modify
modify-Addressed [] i f same six = six
modify-Addressed (none ∷ hs) zero f same six = six
modify-Addressed (none ∷ hs) (suc i) f same six = modify-Addressed hs i f same six
modify-Addressed (some rh ∷ hs) zero f same six = (ap length (same rh) ∙ six.0, six.1)
modify-Addressed (some rh ∷ hs) (suc i) f same six = (six.0, modify-Addressed hs i f same six.1)

-- What holds of the client once the timers have run.
pub record Kept (rs : RawSocket) (c c' : Client) (fs : List Sent) : Type 0 where
  pub active : c'.active_host ≡ c.active_host
  pub on : c'.running ≡ c.running
  pub keymap : c'.keymap ≡ c.keymap
  pub sends : c'.sent ≡ c.sent ++ fs
  pub upkeep : AllUpkeep rs fs
  pub addressed : Addressed c'.hosts
  pub slots :
      (d : ℕ) (rh : RemoteHost)
      → get_elem? c.hosts d ≡ some (some rh)
      → (rh' : RemoteHost) × (get_elem? c'.hosts d ≡ some (some rh')) × (rh'.if_addr ≡ rh.if_addr)

module _ (rs : RawSocket) (heap : Bytes) (now : ℕ) where
  timers_frame :
      (c c' : Client)
      → process_timers rs heap now c ≡ some c'
      → (c'.active_host ≡ c.active_host) × (c'.running ≡ c.running) × (c'.keymap ≡ c.keymap)
  unfolding process_timers
  timers_frame c c' done = elim (Option-cases (send_status_req rs heap none)) [
    | inl e ↦ (let bad : none ≡ some c' = rw (e, process_timers) at done in cc)
    | inr (s, e) ↦
        let probing = expired rs heap now c.last_probe broadcast_probe_interval in
        let before = if probing then c.sent ++ (s ∷ []) else c.sent in
        elim (Option-cases (refresh_sessions rs heap now c.hosts before)) [
          | inl e2 ↦ (let bad : none ≡ some c' = rw (e, e2, process_timers) at done in cc)
          | inr ((hs, sent), e2) ↦
              let c1 : Client = record c {
                hosts = hs;
                sent = sent;
                last_probe = if probing then now else c.last_probe;
              } in
              let ended : some c1 ≡ some c' = rw (e, e2, process_timers) at done in
              let same : c' ≡ c1 = cc in
              (
                ap (λ (x : Client). x.active_host) same,
                ap (λ (x : Client). x.running) same,
                ap (λ (x : Client). x.keymap) same,
              )
        ]
  ]

  pub timers-Kept :
      (c : Client)
      → IsValid rs
      → Addressed c.hosts
      → (c' : Client) × (fs : List Sent) × (process_timers rs heap now c ≡ some c')
        × Kept rs c c' fs
  timers-Kept c v six =
      let (c', probe, fs, done, sent, probed, r) = process_timers_lem rs heap now c v six in
      let (active, on, keymap) = timers_frame c c' done in
      let rest = Refreshed-Upkeep r in
      (
        c',
        probe ++ fs,
        done,
        record {
          active = active;
          on = on;
          keymap = keymap;
          sends = sent;
          upkeep = elim probed [
            | inl (_, empty, _) ↦ rw empty rest
            | inr (s, _, one, _, headers, _) ↦ rw one ((broadcast_addr, inl headers), rest)
          ];
          addressed = Refreshed-Addressed r six;
          slots = λ d rh at. Refreshed-slot d rh r at;
        },
      )
