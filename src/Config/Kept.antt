-- ===== src/Config/Kept.antt =====
-- What the main loop of src/tools/keymap_config.c keeps.
use rmtdos.Base.{
  ℕ, zero, suc, ◌<◌, ◌≤◌, ◌≡◌, ◌≢◌, ◌⊎◌, some, List, [], ◌∷◌, ◌==◌, length, get_elem?, set, true,
  false, refl, ◌∙◌, sym, ap, subst, arith, Bool-cases, Option-cases, inl, inr, length-set,
  get_elem?-take_one, length-take_one, get_elem?-in_range, get_elem?-set_self, get_elem?-set_ne,
}
use mathlib.Core.Bool.{false≢true}
use rmtdos.Keymap.{KeyMapEntry}
use rmtdos.Keymap.Save.{Answers}
use rmtdos.Keymap.Save.Reloaded.{keymap_save-list}
use rmtdos.Config.{Config, OriginalSeqData, Input, get_entry_at_index, mark}
use rmtdos.Config.Capture.{IsTaken, capture-cases}
use rmtdos.Config.View.{IsSelected}
use rmtdos.Config.Loop.{continues, update_entry, edit, saved}

-- The entries and the table beside them.
pub record IsTracked (c : Config) : Type 0 where
  pub parallel : length c.g_org_seq ≡ c.g_map_entries
  pub not_more : length c.g_keymap ≤ c.g_map_entries
  pub originals :
      (i : ℕ) (e : KeyMapEntry) (o : OriginalSeqData)
      → get_elem? c.g_keymap i ≡ some e
      → get_elem? c.g_org_seq i ≡ some o
      → o.is_modified ≡ false
      → e.sequence ≡ o.data'
  pub named : (i : ℕ) (e : KeyMapEntry) → get_elem? c.g_keymap i ≡ some e → e.keydos.flags_17 < 9

pub record IsConsistent (lines : ℕ) (c : Config) : Type 0 where
  pub selected : IsSelected lines c
  pub tracked : IsTracked c

pub get_entry : (list : List KeyMapEntry) (i : ℕ) → get_entry_at_index list i ≡ get_elem? list i
unfolding get_entry_at_index
get_entry [] i = refl
get_entry (e ∷ list) zero = refl
get_entry (e ∷ list) (suc i) = get_entry list i

length-mark : (org : List OriginalSeqData) (i : ℕ) → length (mark org i) ≡ length org
unfolding mark
length-mark [] i = refl
length-mark (o ∷ org) zero = refl
length-mark (o ∷ org) (suc i) = ap suc (length-mark org i)

mark_other :
    (org : List OriginalSeqData) (i j : ℕ) → i ≢ j → get_elem? (mark org i) j ≡ get_elem? org j
unfolding mark
mark_other [] i j h = refl
mark_other (o ∷ org) zero zero h = absurd (h refl)
mark_other (o ∷ org) zero (suc j) h = refl
mark_other (o ∷ org) (suc i) zero h = refl
mark_other (o ∷ org) (suc i) (suc j) h = mark_other org i j (λ e. h (ap suc e))

mark_self :
    (org : List OriginalSeqData) (i : ℕ) (o : OriginalSeqData)
    → get_elem? (mark org i) i ≡ some o
    → o.is_modified ≡ true
unfolding mark
mark_self [] i o h = cc
mark_self (p ∷ org) zero o h =
    let same : record p { is_modified = true } ≡ o = cc h in ap (λ q. q.is_modified) (sym same)
mark_self (p ∷ org) (suc i) o h = mark_self org i o h

-- The new sequence of an entry, which is marked.
pub update_entry-IsTracked :
    (c : Config) (entry : KeyMapEntry) (seq : List ℕ)
    → get_elem? c.g_keymap c.g_cur_itm_idx ≡ some entry
    → IsTracked c
    → IsTracked (update_entry c entry seq)
unfolding update_entry
update_entry-IsTracked c entry seq at t = record {
  parallel = length-mark c.g_org_seq c.g_cur_itm_idx ∙ t.parallel;
  not_more =
      rw (length-set c.g_keymap c.g_cur_itm_idx (record entry { sequence = seq })) t.not_more;
  originals = λ i e o there beside unmarked. elim (Bool-cases (i == c.g_cur_itm_idx)) [
    | inl same ↦
        let here : i ≡ c.g_cur_itm_idx = ground arith in
        let marked =
          mark_self c.g_org_seq c.g_cur_itm_idx o
            (ap (get_elem? (mark c.g_org_seq c.g_cur_itm_idx)) (sym here) ∙ beside) in
        absurd (false≢true (sym unmarked ∙ marked))
    | inr other ↦
        let apart : c.g_cur_itm_idx ≢ i = ground arith in
        t.originals i e o (sym (get_elem?-set_ne c.g_keymap c.g_cur_itm_idx i _ apart) ∙ there)
          (sym (mark_other c.g_org_seq c.g_cur_itm_idx i apart) ∙ beside) unmarked
  ];
  named = λ i e there. elim (Bool-cases (i == c.g_cur_itm_idx)) [
    | inl same ↦
        let here : i ≡ c.g_cur_itm_idx = ground arith in
        let new = record entry { sequence = seq } in
        let written : some new ≡ some e =
          sym (
            get_elem?-set_self c.g_keymap c.g_cur_itm_idx new
              (get_elem?-in_range c.g_keymap c.g_cur_itm_idx at))
          ∙ ap (get_elem? (set c.g_keymap c.g_cur_itm_idx new)) (sym here)
          ∙ there in
        let e_new : new ≡ e = cc written in
        subst (λ (x : KeyMapEntry). x.keydos.flags_17 < 9) e_new (t.named c.g_cur_itm_idx entry at)
    | inr other ↦
        let apart : c.g_cur_itm_idx ≢ i = ground arith in
        t.named i e (sym (get_elem?-set_ne c.g_keymap c.g_cur_itm_idx i _ apart) ∙ there)
  ];
}

-- What IsTracked says of a state it also says of one with the same table and no other entries.
pub IsTracked-fewer :
    (c c' : Config)
    → c'.g_org_seq ≡ c.g_org_seq
    → c'.g_map_entries ≡ c.g_map_entries
    → length c'.g_keymap ≤ length c.g_keymap
    → ((i : ℕ) (e : KeyMapEntry)
        → get_elem? c'.g_keymap i ≡ some e
        → get_elem? c.g_keymap i ≡ some e)
    → IsTracked c
    → IsTracked c'
IsTracked-fewer c c' org entries fewer kept t = record {
  parallel = ap length org ∙ t.parallel ∙ sym entries;
  not_more = omega (arith, t.not_more, entries);
  originals = λ i e o there beside unmarked.
      t.originals i e o (kept i e there) (ap (λ l. get_elem? l i) (sym org) ∙ beside) unmarked;
  named = λ i e there. t.named i e (kept i e there);
}

pub saved-IsTracked : (c : Config) (answers : Answers) → IsTracked c → IsTracked (saved c answers).1
saved-IsTracked c answers t = elim (keymap_save-list answers c.g_keymap) [
  | inl same ↦
      IsTracked-fewer c (saved c answers).1 refl refl (rw same (omega arith))
        (λ i e there. ap (λ l. get_elem? l i) (sym same) ∙ there) t
  | inr first ↦
      IsTracked-fewer c (saved c answers).1 refl refl (rw first (length-take_one c.g_keymap))
        (λ i e there.
          get_elem?-take_one c.g_keymap i e (ap (λ l. get_elem? l i) (sym first) ∙ there))
        t
]

-- An edit leaves the state, or it gives the selected entry a sequence that was captured.
pub edit-cases :
    (c : Config) (input : Input)
    → (edit c input ≡ continues c)
      ⊎ ((entry : KeyMapEntry) × (seq : List ℕ) × (get_elem? c.g_keymap c.g_cur_itm_idx
            ≡ some entry)
          × IsTaken input seq
          × (edit c input ≡ continues (update_entry c entry seq)))
unfolding edit
edit-cases c input =
    let found = get_entry c.g_keymap c.g_cur_itm_idx in
    elim (Option-cases (get_elem? c.g_keymap c.g_cur_itm_idx)) [
      | inl gone ↦ inl (rw (found ∙ gone, edit) refl)
      | inr (entry, there) ↦ elim (capture-cases input) [
        | inl nothing ↦ inl (rw (found ∙ there, edit, nothing) refl)
        | inr (seq, taken, capture) ↦
            inr (entry, seq, there, capture, rw (found ∙ there, edit, taken) refl)
      ]
    ]
