-- ===== src/Delivery/Arrivals.antt =====
-- Packets that arrive at the server between two timer ticks, from pktdrv_receive_func of
-- src/server/pktdrv.c to int08_handler of src/server/resident.c.
use rmtdos.Base.{ℕ, ◌+◌, ◌≤◌, ◌≡◌, refl, List, [], ◌∷◌, ◌++◌, arith, ap, ◌∙◌, sym, length, reverse}
use mathlib.Core.List.{append_assoc, append-nil, reverse-append}
use rmtdos.Base.Memory.{Bytes}
use rmtdos.Bufmgr.{Ptr, Bufmgr, buffer_max_size}
use rmtdos.Bufmgr.Content.{contents}
use rmtdos.Bufmgr.Invariant.{Holds, pool}
use rmtdos.X86.{CpuRegs}
use rmtdos.Protocol.{Env, Host, Keystroke, handle}
use rmtdos.Protocol.Process.{handle_all}
use rmtdos.Pktdrv.{Pktdrv}
use rmtdos.Pktdrv.Receive.{deliver, deliver_ready}

abbrev pub Packet : Type 0
Packet = ℕ × Bytes

reverse-cons {ℓ} : {A : Type ℓ} (x : A) (xs : List A) → reverse (x ∷ xs) ≡ reverse xs ++ (x ∷ [])
reverse-cons x xs = reverse-append (x ∷ []) xs

-- Every packet fits into a buffer.
abbrev pub Fit : List Packet → Type 0
Fit [] = Unit {0}
Fit ((bytes, f) ∷ fs) = (bytes ≤ buffer_max_size) × Fit fs

module _ (ds : ℕ) (regs : CpuRegs) where
  -- The driver's calls for each packet, in the order in which they arrive.
  pub deliver_all : Pktdrv → Bufmgr → List Packet → Pktdrv × Bufmgr
  deliver_all d m [] = (d, m)
  deliver_all d m ((bytes, f) ∷ fs) =
      let (d', m') = deliver ds d m (record regs { ax = 0; cx = bytes }) f in deliver_all d' m' fs

  -- As long as there are free buffers the packets lie on the ready stack, the last one on top.
  pub deliver_all_ready :
      (packets : List Packet) (d : Pktdrv) (m : Bufmgr) (fs ps rs us : List Ptr)
      → Holds m (pool fs ps rs us)
      → length packets ≤ length fs
      → Fit packets
      → (fs' rs' : List Ptr) × Holds (deliver_all d m packets).1 (pool fs' ps rs' us)
        × (contents (deliver_all d m packets).1.cell rs' ≡ reverse packets ++ contents m.cell rs)
        × (length rs' ≡ length packets + length rs)
  unfolding deliver_all
  deliver_all_ready [] d m fs ps rs us h enough fit = (fs, rs, h, refl, omega arith)
  deliver_all_ready (packet ∷ packets) d m [] ps rs us h enough fit = absurd (omega arith)
  deliver_all_ready ((bytes, f) ∷ packets) d m (p ∷ fs) ps rs us h enough fit =
      let first = record regs { ax = 0; cx = bytes } in
      let (h', _, len, content, kept) = deliver_ready d m ds first f refl p fs ps rs us h fit.0 in
      let after = deliver ds d m first f in
      let (fs', rs', holds, all, count) =
        deliver_all_ready packets after.0 after.1 fs ps (p ∷ rs) us h' (omega arith) fit.1 in
      let top : contents after.1.cell (p ∷ rs) ≡ (bytes, f) ∷ contents m.cell rs =
        rw (len, content, kept) refl in
      (
        fs',
        rs',
        holds,
        all
            ∙ (ap (λ l. reverse packets ++ l) top
                ∙ (sym (append_assoc (reverse packets) ((bytes, f) ∷ []) (contents m.cell rs))
                    ∙ ap (λ l. l ++ contents m.cell rs) (sym (reverse-cons (bytes, f) packets)))),
        omega arith,
      )

-- On the packet every server injects that keystroke.
abbrev pub Injects : Packet → Keystroke → Type 0
Injects (bytes, f) k = (env : Env) (h : Host) → (handle env h bytes f).keys ≡ h.keys ++ (k ∷ [])

abbrev pub AllInject : List Packet → List Keystroke → Type 0
AllInject [] [] = Unit {0}
AllInject [] (k ∷ ks) = ⊥
AllInject (p ∷ ps) [] = ⊥
AllInject (p ∷ ps) (k ∷ ks) = Injects p k × AllInject ps ks

handle_all-append :
    (env : Env) (h : Host) (ps qs : List Packet)
    → handle_all env h (ps ++ qs) ≡ handle_all env (handle_all env h ps) qs
handle_all-append env h [] qs = refl
handle_all-append env h ((bytes, f) ∷ ps) qs = handle_all-append env (handle env h bytes f) ps qs

-- Handled from the last to the first, they inject the last keystroke first.
pub reversed_keys :
    (env : Env) (h : Host) (ps : List Packet) (ks : List Keystroke)
    → AllInject ps ks
    → (handle_all env h (reverse ps)).keys ≡ h.keys ++ reverse ks
reversed_keys env h [] [] all = sym (append-nil h.keys)
reversed_keys env h [] (k ∷ ks) all = absurd all
reversed_keys env h (p ∷ ps) [] all = absurd all
reversed_keys env h ((bytes, f) ∷ ps) (k ∷ ks) all =
    ap (λ l. (handle_all env h l).keys) (reverse-cons (bytes, f) ps)
    ∙ (ap (λ r. r.keys) (handle_all-append env h (reverse ps) ((bytes, f) ∷ []))
        ∙ (all.0 env (handle_all env h (reverse ps))
            ∙ (ap (λ l. l ++ (k ∷ [])) (reversed_keys env h ps ks all.1)
                ∙ (append_assoc h.keys (reverse ks) (k ∷ [])
                    ∙ ap (λ l. h.keys ++ l) (sym (reverse-cons k ks))))))
