-- ===== src/Hostlist/Names.antt =====
-- The list of src/client/hostlist.c as its servers' numbers and addresses.
use rmtdos.Base.{
  ℕ, zero, suc, ◌≡◌, ◌≢◌, refl, ap, ◌∙◌, sym, Option, none, some, List, [], ◌∷◌, true, arith,
  get_elem?, set, bytes_eq, bytes_eq_refl,
}
use rmtdos.Hostlist.{RemoteHost, Hosts, modify, hostlist_find_by_mac}

abbrev pub Names : Type 0
Names = List (Option (ℕ × List ℕ))

abbrev pub names : Hosts → Names
names [] = []
names (none ∷ hs) = none ∷ names hs
names (some rh ∷ hs) = some (rh.index, rh.if_addr) ∷ names hs

-- A write through a pointer that keeps a server's number and address.
abbrev pub KeepsName : (RemoteHost → RemoteHost) → Type 0
KeepsName f = (rh : RemoteHost) → ((f rh).index ≡ rh.index) × ((f rh).if_addr ≡ rh.if_addr)

pub names-modify :
    (hs : Hosts) (i : ℕ) (f : RemoteHost → RemoteHost)
    → KeepsName f
    → names (modify hs i f) ≡ names hs
unfolding modify
names-modify [] i f keeps = refl
names-modify (none ∷ hs) zero f keeps = refl
names-modify (some rh ∷ hs) zero f keeps =
    let (number, address) = keeps rh in
    ap (λ n. some (n, (f rh).if_addr) ∷ names hs) number
    ∙ ap (λ a. some (rh.index, a) ∷ names hs) address
names-modify (none ∷ hs) (suc i) f keeps = ap (λ v. none ∷ v) (names-modify hs i f keeps)
names-modify (some rh ∷ hs) (suc i) f keeps =
    ap (λ v. some (rh.index, rh.if_addr) ∷ v) (names-modify hs i f keeps)

pub names-set :
    (hs : Hosts) (i : ℕ) (rh : RemoteHost)
    → names (set hs i (some rh)) ≡ set (names hs) i (some (rh.index, rh.if_addr))
names-set [] i rh = refl
names-set (none ∷ hs) zero rh = refl
names-set (some h ∷ hs) zero rh = refl
names-set (none ∷ hs) (suc i) rh = ap (λ v. none ∷ v) (names-set hs i rh)
names-set (some h ∷ hs) (suc i) rh = ap (λ v. some (h.index, h.if_addr) ∷ v) (names-set hs i rh)

pub get_elem?-names :
    (hs : Hosts) (i : ℕ) {rh : RemoteHost}
    → get_elem? hs i ≡ some (some rh)
    → get_elem? (names hs) i ≡ some (some (rh.index, rh.if_addr))
get_elem?-names [] i h = cc
get_elem?-names (none ∷ hs) zero h = cc
get_elem?-names (some r ∷ hs) zero {rh} h =
    let same : r ≡ rh = cc h in ap (λ (q : RemoteHost). some (some (q.index, q.if_addr))) same
get_elem?-names (none ∷ hs) (suc i) h = get_elem?-names hs i h
get_elem?-names (some r ∷ hs) (suc i) h = get_elem?-names hs i h

pub get_elem?-names_free :
    (hs : Hosts) (i : ℕ) → get_elem? hs i ≡ some none → get_elem? (names hs) i ≡ some none
get_elem?-names_free [] i h = cc
get_elem?-names_free (none ∷ hs) zero h = refl
get_elem?-names_free (some r ∷ hs) zero h = cc
get_elem?-names_free (none ∷ hs) (suc i) h = get_elem?-names_free hs i h
get_elem?-names_free (some r ∷ hs) (suc i) h = get_elem?-names_free hs i h

pub same_name :
    (n m : ℕ) (mac mac' : List ℕ)
    → ◌≡◌ {A = Option (Option (ℕ × List ℕ))} (some (some (n, mac))) (some (some (m, mac')))
    → (n ≡ m) × (mac ≡ mac')
same_name n m mac mac' e = (cc, cc)

-- An address that the search does not find is in no slot.
pub absent-names :
    (hs : Hosts) (mac : List ℕ) (i n : ℕ)
    → hostlist_find_by_mac hs mac ≡ none
    → get_elem? (names hs) i ≢ some (some (n, mac))
unfolding hostlist_find_by_mac
absent-names [] mac i n absent at = cc
absent-names (none ∷ hs) mac zero n absent at = cc
absent-names (none ∷ hs) mac (suc i) n absent at = absent-names hs mac i n (ground arith) at
absent-names (some rh ∷ hs) mac zero n absent at =
    let same : rh.if_addr ≡ mac = (same_name rh.index n rh.if_addr mac at).1 in
    let hit : bytes_eq rh.if_addr mac ≡ true =
      ap (bytes_eq rh.if_addr) (sym same) ∙ bytes_eq_refl rh.if_addr in
    ground arith
absent-names (some rh ∷ hs) mac (suc i) n absent at = absent-names hs mac i n (ground arith) at
