-- ===== src/Session/Lookup.antt =====
-- What session_mgr_find of src/server/session.c finds, before and after a slot is written.
use rmtdos.Base.{
  ℕ, zero, suc, ◌≡◌, ◌≢◌, refl, true, none, some, List, [], ◌∷◌, arith, get_elem?, ap,
}
use rmtdos.Session.{Session, Mac, matches, session_mgr_find, modify}

-- The slot that is found is one that matches.
pub find-some :
    (ss : List Session) (mac : Mac) (id i : ℕ)
    → session_mgr_find ss mac id ≡ some i
    → (s : Session) × (get_elem? ss i ≡ some s) × (matches mac id s ≡ true)
unfolding session_mgr_find
find-some [] mac id i h = cc
find-some (s ∷ ss) mac id zero h = (s, refl, ground arith)
find-some (s ∷ ss) mac id (suc i) h =
    let (t, at, hit) = find-some ss mac id i (ground arith) in (t, at, hit)

module _ (f : Session → Session) where
  pub get_elem?-modify_self :
      (ss : List Session) (i : ℕ) {s : Session}
      → get_elem? ss i ≡ some s
      → get_elem? (modify ss i f) i ≡ some (f s)
  get_elem?-modify_self [] i h = cc
  get_elem?-modify_self (t ∷ ss) zero h = ground arith
  get_elem?-modify_self (t ∷ ss) (suc i) h = get_elem?-modify_self ss i h

  pub get_elem?-modify_ne :
      (ss : List Session) (i j : ℕ) → i ≢ j → get_elem? (modify ss i f) j ≡ get_elem? ss j
  get_elem?-modify_ne [] i j h = refl
  get_elem?-modify_ne (t ∷ ss) zero zero h = absurd (h refl)
  get_elem?-modify_ne (t ∷ ss) zero (suc j) h = refl
  get_elem?-modify_ne (t ∷ ss) (suc i) zero h = refl
  get_elem?-modify_ne (t ∷ ss) (suc i) (suc j) h = get_elem?-modify_ne ss i j (λ e. h (ap suc e))

  -- A write that turns a slot that does not match into another that does not is not noticed.
  pub find-modify_miss :
      (ss : List Session) (i : ℕ) (mac : Mac) (id : ℕ) {s : Session}
      → get_elem? ss i ≡ some s
      → matches mac id (f s) ≡ matches mac id s
      → session_mgr_find (modify ss i f) mac id ≡ session_mgr_find ss mac id
  unfolding session_mgr_find
  find-modify_miss [] i mac id at same = cc
  find-modify_miss (t ∷ ss) zero mac id at same = ground arith
  find-modify_miss (t ∷ ss) (suc i) mac id at same = ground (arith, find-modify_miss ss i mac id at)

  -- Where nothing matched, the slot that is made to match is found.
  pub find-modify_hit :
      (ss : List Session) (i : ℕ) (mac : Mac) (id : ℕ) {s : Session}
      → session_mgr_find ss mac id ≡ none
      → get_elem? ss i ≡ some s
      → matches mac id (f s) ≡ true
      → session_mgr_find (modify ss i f) mac id ≡ some i
  unfolding session_mgr_find
  find-modify_hit [] i mac id none_yet at hit = cc
  find-modify_hit (t ∷ ss) zero mac id none_yet at hit = ground arith
  find-modify_hit (t ∷ ss) (suc i) mac id none_yet at hit =
      let rest : session_mgr_find ss mac id ≡ none = ground arith in
      ground (arith, find-modify_hit ss i mac id rest at hit)
