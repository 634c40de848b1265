-- ===== src/Protocol/Keys.antt =====
-- Keystrokes from send_keystrokes of src/client/network.c to the calls of x86_inject_keystroke that
-- handle_inject_keystroke of src/server/protocol.c makes.
use rmtdos.Base.{
  ℕ, suc, ◌+◌, ◌*◌, ◌/◌, ◌%◌, ◌<◌, ◌≤◌, ◌≡◌, refl, some, List, [], ◌∷◌, ◌++◌, arith, length, ap,
  ◌∙◌, inl, inr,
}
use rmtdos.Base.Memory.{Bytes, of_list}
use rmtdos.Wire.{
  payload, payload_len, keystroke_len, v1_inject_keystroke, signature, pkt_type, packet_signature,
}
use rmtdos.Network.{RawSocket, Sent, send_keystrokes}
use rmtdos.Network.Frame.{IsValid, sent-Headers, send_payload, send_packet_lem}
use rmtdos.Bufmgr.{buffer_max_size}
use rmtdos.Protocol.{
  Env, Host, Keystroke, keystroke_at, passed, inject, handle_inject_keystroke, dispatch, handle,
}

-- An array of `struct Keystroke` in the memory of the client.
abbrev pub key_bytes : List Keystroke → List ℕ
key_bytes [] = []
key_bytes (k ∷ ks) =
    k.bios_scan_code ∷ k.ascii_value ∷ (k.flags_17 % 256) ∷ (k.flags_17 / 256) ∷ key_bytes ks

-- The flags are those that fit into the byte that the BIOS call takes.
abbrev pub FlagsFit : List Keystroke → Type 0
FlagsFit [] = Unit {0}
FlagsFit (k ∷ ks) = (k.flags_17 < 256) × FlagsFit ks

module _ (env : Env) where
  inject-key_bytes :
      (ks : List Keystroke) (m : Bytes) (at : ℕ)
      → FlagsFit ks
      → ((i : ℕ) → i < length ks * 4 → m (at + i) ≡ of_list (key_bytes ks) i)
      → inject env (length ks) m at ≡ ks
  unfolding inject
  inject-key_bytes [] m at fit same = refl
  inject-key_bytes (k ∷ ks) m at fit same =
      let start : at + 0 ≡ at = omega arith in
      let b0 : m at ≡ k.bios_scan_code = ap m (omega arith) ∙ same 0 (omega arith) in
      let b1 : m (at + 1) ≡ k.ascii_value = same 1 (omega arith) in
      let b2 : m (at + 2) ≡ k.flags_17 % 256 = same 2 (omega arith) in
      let b3 : m (at + 3) ≡ k.flags_17 / 256 = same 3 (omega arith) in
      let first : passed env (keystroke_at env m at) ≡ k = ground arith in
      rw (
        first,
        inject-key_bytes ks m (at + 4) fit.1
            (λ i lt. ap m (omega arith) ∙ same (suc (suc (suc (suc i)))) (omega arith)),
      )

  pub injected :
      (sock : RawSocket) (buffer : Bytes) (dest : List ℕ) (ks : List Keystroke) (h : Host)
      {s : Sent}
      → IsValid sock
      → length dest ≡ 6
      → FlagsFit ks
      → send_keystrokes sock buffer (some dest) (length ks) (of_list (key_bytes ks)) ≡ some s
      → (handle_inject_keystroke env h s.frame).keys ≡ h.keys ++ ks
  unfolding send_keystrokes handle_inject_keystroke
  injected sock buffer dest ks h {s} v six fit sent =
      let n : ℕ = length ks * 4 in
      let headers =
        sent-Headers sock buffer dest v1_inject_keystroke (some (of_list (key_bytes ks))) n v six
          (omega arith) sent in
      let count : payload_len s.frame / keystroke_len ≡ length ks =
        omega (arith, headers.declared) in
      rw count (
        ap (λ xs. h.keys ++ xs)
          (inject-key_bytes ks s.frame payload fit (
            send_payload sock buffer (some dest) v1_inject_keystroke (of_list (key_bytes ks)) n
              sent)))

-- The loop's switch hands a signed packet of that type to handle_inject_keystroke.
pub handle-inject_keystroke :
    (env : Env) (h : Host) (bytes : ℕ) (f : Bytes)
    → signature f ≡ packet_signature
    → pkt_type f ≡ v1_inject_keystroke
    → handle env h bytes f ≡ handle_inject_keystroke env h f
unfolding handle dispatch
handle-inject_keystroke env h bytes f signed kind = rw (signed, kind) refl

-- Up to 369 keystrokes, their flags within a byte, are sent by send_keystrokes in one packet. It fits
-- into a buffer of the server, and when the server handles it, it injects these keystrokes, all of them
-- and in order. The socket's fields and the address have their sizes.
pub keys_arrive :
    (env : Env) (sock : RawSocket) (buffer : Bytes) (dest : List ℕ) (ks : List Keystroke) (h : Host)
    → IsValid sock
    → length dest ≡ 6
    → FlagsFit ks
    → length ks ≤ 369
    → (s : Sent) × (send_keystrokes sock buffer (some dest) (length ks) (of_list (key_bytes ks))
        ≡ some s)
      × (s.to ≡ dest)
      × (s.len ≤ buffer_max_size)
      × ((handle env h s.len s.frame).keys ≡ h.keys ++ ks)
unfolding send_keystrokes
keys_arrive env sock buffer dest ks h v six fit few =
    let n : ℕ = length ks * 4 in
    elim (send_packet_lem sock buffer dest v1_inject_keystroke (some (of_list (key_bytes ks))) n v
      six (omega arith)) [
        | inl (long, refused) ↦ absurd (omega (arith, long, few))
        | inr (s, sent, headers, to, len, _) ↦ (
          s,
          sent,
          to,
          omega (arith, len, few),
          ap (λ r. r.keys) (handle-inject_keystroke env h s.len s.frame headers.signed headers.kind)
              ∙ injected env sock buffer dest ks h v six fit sent,
        )
      ]
