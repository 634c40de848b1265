-- ===== src/Hostlist/Register.antt =====
-- hostlist_register of src/client/hostlist.c: what the list holds of a server after its packet.
use rmtdos.Base.{
  ℕ, ◌≡◌, ◌≢◌, refl, ap, sym, ◌∙◌, true, false, Option, none, some, List, arith, ◌==◌, bytes_eq,
  bytes_eq_iff, bytes_eq_sound, get_elem?, set, subst, get_elem?-set_self, get_elem?-in_range,
  get_elem?-set_ne, inl, inr, ◌⊎◌, Bool-cases, Option-cases,
}
use rmtdos.Base.Memory.{Bytes}
use rmtdos.Wire.{src_mac_addr, pkt_type, v1_status_resp}
use rmtdos.Hostlist.{
  RemoteHost, Hosts, has_mac, hostlist_find_by_mac, free_slot, hostlist_allocate, host_create,
  hostlist_register, heard, status_at,
}
use rmtdos.Hostlist.Slots.{
  find-some, modify-set, modify_used, find-set_same, find-set_new, free_slot-some,
}

-- What a packet from an address leaves in the slot of that address.
pub record Known (now : ℕ) (packet : Bytes) (rh : RemoteHost) : Type 0 where
  pub addressed : rh.if_addr ≡ src_mac_addr packet
  pub recent : rh.tv_last_resp ≡ now
  pub answered : pkt_type packet ≡ v1_status_resp → rh.status ≡ status_at packet

heard-Known :
    (now : ℕ) (packet : Bytes) (rh : RemoteHost)
    → rh.if_addr ≡ src_mac_addr packet
    → Known now packet (heard now packet rh)
heard-Known now packet rh e = elim (Bool-cases (pkt_type packet == v1_status_resp)) [
  | inl status ↦ record {
    addressed = rw status e;
    recent = rw status refl;
    answered = λ same. rw status refl;
  }
  | inr other ↦ record {
    addressed = rw other e;
    recent = rw other refl;
    answered = λ same. ground arith;
  }
]

-- The one slot that is written, which was free or the address's own.
record Written (now : ℕ) (hosts : Hosts) (packet : Bytes) : Type 0 where
  slot : ℕ
  old : Option RemoteHost
  host : RemoteHost
  at : get_elem? hosts slot ≡ some old
  result : hostlist_register now hosts packet ≡ set hosts slot (some host)
  known : Known now packet host
  found :
      hostlist_find_by_mac (hostlist_register now hosts packet) (src_mac_addr packet) ≡ some slot
  own : (mac : List ℕ) → mac ≢ src_mac_addr packet → has_mac mac old ≡ false

has_mac_other : (mac : List ℕ) (rh : RemoteHost) → mac ≢ rh.if_addr → has_mac mac (some rh) ≡ false
has_mac_other mac rh differ = elim (Bool-cases (bytes_eq rh.if_addr mac)) [
  | inl hit ↦ absurd (differ (sym (bytes_eq_sound rh.if_addr mac hit)))
  | inr miss ↦ miss
]

register-Written :
    (now : ℕ) (hosts : Hosts) (packet : Bytes)
    → ((hostlist_find_by_mac hosts (src_mac_addr packet) ≡ none)
        × (free_slot hosts ≡ none)
        × (hostlist_register now hosts packet ≡ hosts))
      ⊎ Written now hosts packet
unfolding hostlist_register hostlist_allocate
register-Written now hosts packet =
    let mac = src_mac_addr packet in
    elim (Option-cases (hostlist_find_by_mac hosts mac)) [
      | inr (i, present) ↦
          (let (rh, at, e) = find-some hosts mac i present in
            let hit : has_mac mac (some rh) ≡ true = (bytes_eq_iff rh.if_addr mac).1 e in
            let known = heard-Known now packet rh e in
            let new : has_mac mac (some (heard now packet rh)) ≡ true =
              (bytes_eq_iff (heard now packet rh).if_addr mac).1 known.addressed in
            let result : hostlist_register now hosts packet
                ≡ set hosts i (some (heard now packet rh)) =
              rw (present, hostlist_register) (modify_used hosts i (heard now packet) at) in
            inr (record {
              slot = i;
              old = some rh;
              host = heard now packet rh;
              at = at;
              result = result;
              known = known;
              found =
                  ap (λ hs. hostlist_find_by_mac hs mac) result
                  ∙ find-set_same hosts i mac (heard now packet rh) at (new ∙ sym hit)
                  ∙ present;
              own = λ other differ. has_mac_other other rh (λ same. differ (same ∙ e));
            }))
      | inl absent ↦ elim (Option-cases (free_slot hosts)) [
        | inl full ↦
            inl (absent, full, rw (absent, full, hostlist_register, hostlist_allocate) refl)
        | inr (i, free) ↦
            (let at = free_slot-some hosts i free in
              let rh = record (host_create i) { if_addr = mac } in
              let known = heard-Known now packet rh refl in
              let result : hostlist_register now hosts packet
                  ≡ set hosts i (some (heard now packet rh)) =
                rw
                  (
                    absent,
                    free,
                    modify-set hosts i (host_create i) (λ h. record h { if_addr = mac }),
                    modify-set hosts i rh (heard now packet),
                    hostlist_register,
                    hostlist_allocate,
                  )
                  refl in
              inr (record {
                slot = i;
                old = none;
                host = heard now packet rh;
                at = at;
                result = result;
                known = known;
                found =
                    ap (λ hs. hostlist_find_by_mac hs mac) result
                    ∙ find-set_new hosts i mac (heard now packet rh) absent
                        (get_elem?-in_range hosts i at) known.addressed;
                own = λ other differ. refl;
              }))
      ]
    ]

-- A packet's server is known afterwards, with the time and, after a status response, with its status.
-- The one exception is a new server when no slot is free, and then nothing changes.
pub register_lem :
    (now : ℕ) (hosts : Hosts) (packet : Bytes)
    → ((hostlist_find_by_mac hosts (src_mac_addr packet) ≡ none)
        × (free_slot hosts ≡ none)
        × (hostlist_register now hosts packet ≡ hosts))
      ⊎ ((i : ℕ) × (rh : RemoteHost) × (hostlist_find_by_mac
              (hostlist_register now hosts packet)
              (src_mac_addr packet)
            ≡ some i)
          × (get_elem? (hostlist_register now hosts packet) i ≡ some (some rh))
          × Known now packet rh)
register_lem now hosts packet = elim (register-Written now hosts packet) [
  | inl full ↦ inl full
  | inr w ↦ inr (
    w.slot,
    w.host,
    w.found,
    ap (λ hs. get_elem? hs w.slot) w.result
        ∙ get_elem?-set_self hosts w.slot (some w.host) (get_elem?-in_range hosts w.slot w.at),
    w.known,
  )
]

-- A packet of one server leaves every other server where it is found, as it is.
pub register_others :
    (now : ℕ) (hosts : Hosts) (packet : Bytes) (mac : List ℕ) (j : ℕ)
    → mac ≢ src_mac_addr packet
    → hostlist_find_by_mac hosts mac ≡ some j
    → (hostlist_find_by_mac (hostlist_register now hosts packet) mac ≡ some j)
      × (get_elem? (hostlist_register now hosts packet) j ≡ get_elem? hosts j)
register_others now hosts packet mac j differ known = elim (register-Written now hosts packet) [
  | inl (_, _, same) ↦
      (ap (λ hs. hostlist_find_by_mac hs mac) same ∙ known, ap (λ hs. get_elem? hs j) same)
  | inr w ↦
      (let (rh, at, e) = find-some hosts mac j known in
        let theirs : has_mac mac (some w.host) ≡ false =
          has_mac_other mac w.host (λ same. differ (same ∙ w.known.addressed)) in
        let apart : w.slot ≢ j = λ same.
          let clash : some w.old ≡ some (some rh) = sym w.at ∙ ap (get_elem? hosts) same ∙ at in
          let same_slot : w.old ≡ some rh = cc clash in
          let not_own : has_mac mac (some rh) ≡ false =
            subst (λ (o : Option RemoteHost). has_mac mac o ≡ false) same_slot (w.own mac differ) in
          let own : has_mac mac (some rh) ≡ true = (bytes_eq_iff rh.if_addr mac).1 e in
          cc (own, not_own) in
        (
          ap (λ hs. hostlist_find_by_mac hs mac) w.result
              ∙ find-set_same hosts w.slot mac w.host w.at (theirs ∙ sym (w.own mac differ))
              ∙ known,
          ap (λ hs. get_elem? hs j) w.result ∙ get_elem?-set_ne hosts w.slot j (some w.host) apart,
        ))
]
