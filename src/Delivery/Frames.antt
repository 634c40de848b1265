-- ===== src/Delivery/Frames.antt =====
-- The client on all that a tick of the server sends, to whomever.
use rmtdos.Base.{
  ℕ, zero, suc, ◌+◌, ◌<◌, ◌≤◌, ◌≡◌, refl, true, false, some, List, [], ◌∷◌, ◌++◌, arith, ap,
  get_elem?, Bool-cases, inl, inr, ◌∙◌, sym, bytes_eq_iff, subst,
}
use rmtdos.Base.Memory.{Bytes}
use rmtdos.Wire.{dest_mac_addr, session_id}
use rmtdos.Network.{RawSocket}
use rmtdos.Session.{Session, in_use}
use rmtdos.Protocol.{Env}
use rmtdos.Broadcast.{chunk_at}
use rmtdos.Broadcast.Cover.{IsText}
use rmtdos.Broadcast.Frames.{Shows, Delivered, none_left, idle, sent}
use rmtdos.Client.{accepts, video_text_buffer_len}
use rmtdos.Client.Mirror.{bytes_to}
use rmtdos.Delivery.{arrive}
use rmtdos.Delivery.Terminal.{Terminal, receive, receive_all}
use rmtdos.Delivery.Packets.{Painted, packet-Painted, Painted-weaken, not_received}

pub receive_all-append :
    (rs : RawSocket) (table : ℕ → List ℕ) (colors : ℕ → ℕ) (t : Terminal) (time : ℕ)
    (fs gs : List (Bytes × ℕ))
    → receive_all rs table colors t (arrive time (fs ++ gs))
      ≡ receive_all rs table colors
          (receive_all rs table colors t (arrive time fs))
          (arrive time gs)
unfolding receive_all arrive
receive_all-append rs table colors t time [] gs = refl
receive_all-append rs table colors t time ((f, len) ∷ fs) gs =
    receive_all-append rs table colors
      (receive rs table colors t (record { frame = f; received = len; now = time })) time fs gs

taken :
    (rs : RawSocket) (f : Bytes)
    → accepts rs f ≡ true
    → (dest_mac_addr f ≡ rs.if_addr) × (session_id f ≡ rs.session_id)
taken rs f h = ground (arith, bytes_eq_iff (dest_mac_addr f) rs.if_addr)

module _ (rs : RawSocket) (table : ℕ → List ℕ) (colors : ℕ → ℕ) (env : Env) (screen : Bytes)
    (time i lines columns : ℕ) (text : IsText env.video)
    (fits : bytes_to env.video env.video.text_rows ≤ video_text_buffer_len) (row : ℕ)
    (lt : row < env.video.text_rows) where
  abbrev Here : Terminal → ℕ → Type 0
  Here t m = Painted rs table colors env screen i lines columns t m

  abbrev got : Terminal → Bytes → ℕ → Terminal
  got t f len = receive rs table colors t (record { frame = f; received = len; now = time })

  -- Any packet of the tick leaves what the client has.
  frame_keeps :
      (t : Terminal) (f : Bytes) (len m : ℕ)
      → Shows env screen (chunk_at env.video row) f
      → 0 < len
      → row ≤ m
      → m ≤ row + (chunk_at env.video row).rows
      → Here t m
      → Here (got t f len) m
  frame_keeps t f len m shows some_bytes low high h = elim (Bool-cases (accepts rs f)) [
    | inr other ↦
        subst (λ t'. Here t' m)
          (sym (not_received rs table colors env screen i lines columns t _ other)) h
    | inl mine ↦
        let (to, in_session) = taken rs f mine in
        let h' =
          packet-Painted rs table colors env screen i lines columns row t _ text fits lt shows
            some_bytes to in_session
            (Painted-weaken rs table colors env screen i lines columns row m low h) in
        Painted-weaken rs table colors env screen i lines columns m
          (row + (chunk_at env.video row).rows) high h'
  ]

  pub tick_keeps :
      (len m : ℕ)
      → 0 < len
      → row ≤ m
      → m ≤ row + (chunk_at env.video row).rows
      → (t : Terminal) (ss : List Session) (fs : List (Bytes × ℕ))
      → Delivered env screen (chunk_at env.video row) len ss fs
      → Here t m
      → Here (receive_all rs table colors t (arrive time fs)) m
  unfolding receive_all arrive
  tick_keeps len m some_bytes low high t ss fs none_left h = h
  tick_keeps len m some_bytes low high t (s ∷ ss) fs (idle off d) h =
      tick_keeps len m some_bytes low high t ss fs d h
  tick_keeps len m some_bytes low high t (s ∷ ss) ((f, _) ∷ fs) (sent on to in_session shows d) h =
      tick_keeps len m some_bytes low high (got t f len) ss fs d
        (frame_keeps t f len m shows some_bytes low high h)

  -- A tick that has the client's session in its table brings the chunk's rows.
  pub tick-Painted :
      (len : ℕ) (s : Session)
      → 0 < len
      → in_use s ≡ true
      → s.mac_addr ≡ rs.if_addr
      → s.session_id ≡ rs.session_id
      → (j : ℕ) (t : Terminal) (ss : List Session) (fs : List (Bytes × ℕ)) → get_elem? ss j ≡ some s
      → Delivered env screen (chunk_at env.video row) len ss fs
      → Here t row
      → Here (receive_all rs table colors t (arrive time fs)) (row + (chunk_at env.video row).rows)
  unfolding receive_all arrive
  tick-Painted len s some_bytes on mac id j t [] fs at none_left h = cc
  tick-Painted len s some_bytes on mac id zero t (r ∷ ss) fs at (idle off d) h =
      let r_is_s : r ≡ s = cc in
      let same : in_use r ≡ in_use s = ap in_use r_is_s in
      let bad : false ≡ true = sym off ∙ (same ∙ on) in cc
  tick-Painted len s some_bytes on mac id (suc j) t (r ∷ ss) fs at (idle off d) h =
      tick-Painted len s some_bytes on mac id j t ss fs at d h
  tick-Painted len s some_bytes on mac id zero t (r ∷ ss) ((f, _) ∷ fs) at
        (sent used to in_session shows d) h =
      let e : r ≡ s = cc in
      let h' =
        packet-Painted rs table colors env screen i lines columns row t _ text fits lt shows
          some_bytes (to ∙ (ap (λ (s : Session). s.mac_addr) e ∙ mac))
          (in_session ∙ (ap (λ (s : Session). s.session_id) e ∙ id)) h in
      tick_keeps len (row + (chunk_at env.video row).rows) some_bytes (omega arith) (omega arith)
        (got t f len) ss fs d h'
  tick-Painted len s some_bytes on mac id (suc j) t (r ∷ ss) ((f, _) ∷ fs) at
        (sent used to in_session shows d) h =
      tick-Painted len s some_bytes on mac id j (got t f len) ss fs at d
        (frame_keeps t f len row shows some_bytes (omega arith) (omega arith) h)
