-- ===== src/Hostlist/Listed.antt =====
-- hostlist_register of src/client/hostlist.c gives every server the number of its slot, and no address two
-- slots.
use rmtdos.Base.{
  ℕ, zero, suc, ◌≡◌, ◌≢◌, refl, ap, ◌∙◌, sym, subst, none, some, List, arith, get_elem?,
  get_elem?-set_self, get_elem?-set_ne, get_elem?-in_range, set, replicate, Bool-cases,
  Option-cases, inl, inr, ◌==◌,
}
use rmtdos.Base.Memory.{Bytes}
use rmtdos.Wire.{src_mac_addr, pkt_type, v1_status_resp}
use rmtdos.Hostlist.{
  RemoteHost, Hosts, modify, hostlist_find_by_mac, free_slot, hostlist_create, hostlist_register,
  hostlist_allocate, heard, host_create,
}
use rmtdos.Hostlist.Slots.{free_slot-some, modify-set}
use rmtdos.Hostlist.Names.{
  same_name, Names, names, KeepsName, names-modify, names-set, get_elem?-names_free, absent-names,
}

-- Every server has the number of its slot, and no address is in two slots.
pub record IsListed (v : Names) : Type 0 where
  pub indexed : (i n : ℕ) (mac : List ℕ) → get_elem? v i ≡ some (some (n, mac)) → n ≡ i
  pub unique :
      (i j n m : ℕ) (mac : List ℕ)
      → get_elem? v i ≡ some (some (n, mac))
      → get_elem? v j ≡ some (some (m, mac))
      → i ≡ j

empty-names :
    (slots i n : ℕ) (mac : List ℕ)
    → get_elem? (names (replicate slots none)) i ≢ some (some (n, mac))
empty-names zero i n mac at = cc
empty-names (suc slots) zero n mac at = cc
empty-names (suc slots) (suc i) n mac at = empty-names slots i n mac at

pub create-IsListed : IsListed (names hostlist_create)
create-IsListed = record {
  indexed = λ i n mac at. absurd (empty-names 16 i n mac at);
  unique = λ i j n m mac at at'. absurd (empty-names 16 i n mac at);
}

-- A new server in a free slot, with an address that is in no other.
module _ (v : Names) (i : ℕ) (mac : List ℕ) (l : IsListed v) (free : get_elem? v i ≡ some none)
    (absent : (j n : ℕ) → get_elem? v j ≢ some (some (n, mac))) where
  abbrev v' : Names
  v' = set v i (some (i, mac))

  at_new :
      (j n : ℕ) (mac' : List ℕ)
      → i ≡ j
      → get_elem? v' j ≡ some (some (n, mac'))
      → (i ≡ n) × (mac ≡ mac')
  at_new j n mac' same at = same_name i n mac mac' (
      sym (get_elem?-set_self v i (some (i, mac)) (get_elem?-in_range v i free))
      ∙ ap (get_elem? v') same
      ∙ at)

  at_old :
      (j n : ℕ) (mac' : List ℕ)
      → i ≢ j
      → get_elem? v' j ≡ some (some (n, mac'))
      → get_elem? v j ≡ some (some (n, mac'))
  at_old j n mac' other at = sym (get_elem?-set_ne v i j (some (i, mac)) other) ∙ at

  -- The new server's address is in no old slot.
  no_clash :
      (j k n m : ℕ) (mac' : List ℕ)
      → i ≡ j
      → i ≢ k
      → get_elem? v' j ≡ some (some (n, mac'))
      → get_elem? v' k ≡ some (some (m, mac'))
      → ⊥
  no_clash j k n m mac' same other at at' =
      let address : mac' ≡ mac = sym (at_new j n mac' same at).1 in
      absent k m (at_old k m mac' other at' ∙ ap (λ a. some (some (m, a))) address)

  set-IsListed : IsListed v'
  set-IsListed = record {
    indexed = λ j n mac' at. elim (Bool-cases (i == j)) [
      | inl same ↦ let e : i ≡ j = ground arith in sym (at_new j n mac' e at).0 ∙ e
      | inr other ↦ let ne : i ≢ j = ground arith in l.indexed j n mac' (at_old j n mac' ne at)
    ];
    unique = λ j k n m mac' at at'. elim (Bool-cases (i == j)) [
      | inl same ↦ elim (Bool-cases (i == k)) [
        | inl same' ↦ ground arith
        | inr other ↦ absurd (no_clash j k n m mac' (ground arith) (ground arith) at at')
      ]
      | inr other ↦ elim (Bool-cases (i == k)) [
        | inl same ↦ absurd (no_clash k j m n mac' (ground arith) (ground arith) at' at)
        | inr other' ↦
            l.unique j k n m mac' (at_old j n mac' (ground arith) at)
              (at_old k m mac' (ground arith) at')
      ]
    ];
  }

heard-KeepsName : (now : ℕ) (packet : Bytes) → KeepsName (heard now packet)
heard-KeepsName now packet rh = elim (Bool-cases (pkt_type packet == v1_status_resp)) [
  | inl status ↦ rw status (refl, refl)
  | inr other ↦ rw other (refl, refl)
]

pub register-IsListed :
    (now : ℕ) (hs : Hosts) (packet : Bytes)
    → IsListed (names hs)
    → IsListed (names (hostlist_register now hs packet))
unfolding hostlist_register hostlist_allocate
register-IsListed now hs packet l =
    let mac = src_mac_addr packet in
    elim (Option-cases (hostlist_find_by_mac hs mac)) [
      | inr (i, found) ↦
          rw (hostlist_register, found)
            (subst IsListed
              (sym (names-modify hs i (heard now packet) (heard-KeepsName now packet))) l)
      | inl absent ↦ elim (Option-cases (free_slot hs)) [
        | inl full ↦ rw (hostlist_register, absent, hostlist_allocate, full) l
        | inr (i, free) ↦
            let hs1 = set hs i (some (host_create i)) in
            let named = λ (h : RemoteHost). record h { if_addr = mac } in
            let new = record (host_create i) { if_addr = mac } in
            let written : names (modify (modify hs1 i named) i (heard now packet))
                ≡ set (names hs) i (some (i, mac)) =
              names-modify (modify hs1 i named) i (heard now packet) (heard-KeepsName now packet)
              ∙ ap names (modify-set hs i (host_create i) named)
              ∙ names-set hs i new in
            rw (hostlist_register, absent, hostlist_allocate, free)
              (subst IsListed (sym written) (
                set-IsListed (names hs) i mac l
                  (get_elem?-names_free hs i (free_slot-some hs i free))
                  (λ j n. absent-names hs mac j n absent)))
      ]
    ]
