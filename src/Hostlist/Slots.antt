-- ===== src/Hostlist/Slots.antt =====
-- Slots of the list of src/client/hostlist.c: lookups, and writes through a pointer.
use rmtdos.Base.{
  ℕ, zero, suc, ◌<◌, ◌≡◌, refl, ap, sym, ◌∙◌, true, Option, none, some, List, [], ◌∷◌, arith,
  bytes_eq, bytes_eq_iff, bytes_eq_sound, length, get_elem?, set, inl, inr, Bool-cases,
}
use rmtdos.Hostlist.{RemoteHost, Hosts, has_mac, hostlist_find_by_mac, free_slot, modify}

-- A lookup finds a slot in use, of that address.
pub find-some :
    (hosts : Hosts) (mac : List ℕ) (i : ℕ)
    → hostlist_find_by_mac hosts mac ≡ some i
    → (rh : RemoteHost) × (get_elem? hosts i ≡ some (some rh)) × (rh.if_addr ≡ mac)
unfolding hostlist_find_by_mac
find-some [] mac i h = cc
find-some (none ∷ hosts) mac zero h = ground arith
find-some (some rh ∷ hosts) mac zero h = (rh, refl, bytes_eq_sound rh.if_addr mac (ground arith))
find-some (none ∷ hosts) mac (suc i) h = find-some hosts mac i (ground arith)
find-some (some rh ∷ hosts) mac (suc i) h = find-some hosts mac i (ground arith)

pub modify-set :
    (hosts : Hosts) (i : ℕ) (rh : RemoteHost) (f : RemoteHost → RemoteHost)
    → modify (set hosts i (some rh)) i f ≡ set hosts i (some (f rh))
unfolding modify
modify-set [] i rh f = refl
modify-set (slot ∷ hosts) zero rh f = refl
modify-set (none ∷ hosts) (suc i) rh f = ap (λ hs. none ∷ hs) (modify-set hosts i rh f)
modify-set (some h ∷ hosts) (suc i) rh f = ap (λ hs. some h ∷ hs) (modify-set hosts i rh f)

pub modify_used :
    (hosts : Hosts) (i : ℕ) (f : RemoteHost → RemoteHost) {rh : RemoteHost}
    → get_elem? hosts i ≡ some (some rh)
    → modify hosts i f ≡ set hosts i (some (f rh))
unfolding modify
modify_used [] i f h = cc
modify_used (none ∷ hosts) zero f h = cc
modify_used (some r ∷ hosts) zero f {rh} h =
    let same : r ≡ rh = cc h in ap (λ q. some (f q) ∷ hosts) same
modify_used (none ∷ hosts) (suc i) f h = ap (λ hs. none ∷ hs) (modify_used hosts i f h)
modify_used (some r ∷ hosts) (suc i) f h = ap (λ hs. some r ∷ hs) (modify_used hosts i f h)

-- A write that keeps whether the slot has the address keeps what is found.
pub find-set_same :
    (hosts : Hosts) (i : ℕ) (mac : List ℕ) (rh : RemoteHost) {slot : Option RemoteHost}
    → get_elem? hosts i ≡ some slot
    → has_mac mac (some rh) ≡ has_mac mac slot
    → hostlist_find_by_mac (set hosts i (some rh)) mac ≡ hostlist_find_by_mac hosts mac
unfolding hostlist_find_by_mac
find-set_same [] i mac rh at same = cc
find-set_same (s ∷ hosts) zero mac rh {slot} at same =
    let e : s ≡ slot = cc at in
    let hit : has_mac mac (some rh) ≡ has_mac mac s = same ∙ ap (has_mac mac) (sym e) in rw hit refl
find-set_same (s ∷ hosts) (suc i) mac rh at same = rw (find-set_same hosts i mac rh at same) refl

pub find-set_new :
    (hosts : Hosts) (i : ℕ) (mac : List ℕ) (rh : RemoteHost)
    → hostlist_find_by_mac hosts mac ≡ none
    → i < length hosts
    → rh.if_addr ≡ mac
    → hostlist_find_by_mac (set hosts i (some rh)) mac ≡ some i
unfolding hostlist_find_by_mac
find-set_new [] i mac rh absent lt e = elim lt [ ]
find-set_new (s ∷ hosts) zero mac rh absent lt e =
    let hit : bytes_eq rh.if_addr mac ≡ true = (bytes_eq_iff rh.if_addr mac).1 e in rw hit refl
find-set_new (s ∷ hosts) (suc i) mac rh absent lt e = elim (Bool-cases (has_mac mac s)) [
  | inl hit ↦ ground (arith, hit, absent)
  | inr miss ↦
      (let rest : hostlist_find_by_mac hosts mac ≡ none = ground arith in
        rw (miss, find-set_new hosts i mac rh rest (omega arith) e) refl)
]

pub free_slot-some :
    (hosts : Hosts) (i : ℕ) → free_slot hosts ≡ some i → get_elem? hosts i ≡ some none
unfolding free_slot
free_slot-some [] i h = cc
free_slot-some (none ∷ hosts) zero h = refl
free_slot-some (none ∷ hosts) (suc i) h = cc
free_slot-some (some rh ∷ hosts) zero h = ground arith
free_slot-some (some rh ∷ hosts) (suc i) h = free_slot-some hosts i (ground arith)
