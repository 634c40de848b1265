-- ===== src/Network/Frame.antt =====
-- The frames that send_packet of src/client/network.c builds.
use rmtdos.Base.{
  ℕ, ◌+◌, ◌<◌, ◌≤◌, ◌≡◌, refl, Option, none, some, List, arith, leb, length, ◌⊎◌, inl, inr,
  Bool-cases, subst,
}
use rmtdos.Base.Memory.{Bytes}
use rmtdos.Wire.{
  dest_mac_addr, src_mac_addr, ethertype, signature, session_id, payload_len, pkt_type, payload,
  packet_signature, eth_frame_len, max_payload_length, combined_header_len,
}
use rmtdos.Wire.Fields.{slice-of_list, join16, join32}
use rmtdos.Network.{RawSocket, Sent, broadcast_addr, send_packet, header, copy_payload}

pub record IsValid (sock : RawSocket) : Type 0 where
  pub address : length sock.if_addr ≡ 6
  pub type_fits : sock.ethertype < 65536
  pub session_fits : sock.session_id < 4294967296

-- The header fields of a frame.
pub record Headers (f : Bytes) (sock : RawSocket) (dest : List ℕ) (type n : ℕ) : Type 0 where
  pub to : dest_mac_addr f ≡ dest
  pub from : src_mac_addr f ≡ sock.if_addr
  pub of_type : ethertype f ≡ sock.ethertype
  pub signed : signature f ≡ packet_signature
  pub in_session : session_id f ≡ sock.session_id
  pub declared : payload_len f ≡ n
  pub kind : pkt_type f ≡ type

frame-Headers :
    (sock : RawSocket) (buffer : Bytes) (dest : List ℕ) (type : ℕ) (p : Option Bytes) (n : ℕ)
    → IsValid sock
    → length dest ≡ 6
    → type < 65536
    → n < 65536
    → Headers (copy_payload (header sock buffer dest type n) p n) sock dest type n
unfolding header
frame-Headers sock buffer dest type none n v six small fits = record {
  to = slice-of_list dest six;
  from = slice-of_list sock.if_addr v.address;
  of_type = join16 sock.ethertype v.type_fits;
  signed = refl;
  in_session = join32 sock.session_id v.session_fits;
  declared = join16 n fits;
  kind = join16 type small;
}
frame-Headers sock buffer dest type (some p) n v six small fits = record {
  to = slice-of_list dest six;
  from = slice-of_list sock.if_addr v.address;
  of_type = join16 sock.ethertype v.type_fits;
  signed = refl;
  in_session = join32 sock.session_id v.session_fits;
  declared = join16 n fits;
  kind = join16 type small;
}

-- With a socket, an address and a type that have their sizes, send_packet refuses a payload that
-- is too long. Any other it sends, with a header whose every field reads back as it was given, at
-- the exact length of header and payload, to the link-layer address of the header.
pub send_packet_lem :
    (sock : RawSocket) (buffer : Bytes) (dest : List ℕ) (type : ℕ) (p : Option Bytes) (n : ℕ)
    → IsValid sock
    → length dest ≡ 6
    → type < 65536
    → ((max_payload_length < n) × (send_packet sock buffer (some dest) type p n ≡ none))
      ⊎ ((s : Sent) × (send_packet sock buffer (some dest) type p n ≡ some s)
          × Headers s.frame sock dest type n
          × (s.to ≡ dest)
          × (s.len ≡ combined_header_len + n)
          × (s.len ≤ eth_frame_len))
unfolding send_packet
send_packet_lem sock buffer dest type p n v six small =
    elim (Bool-cases (leb n max_payload_length)) [
      | inr long ↦ inl (ground arith, rw long)
      | inl short ↦ inr (
        _,
        rw short,
        frame-Headers sock buffer dest type p n v six small (ground arith),
        refl,
        refl,
        ground arith,
      )
    ]

-- The headers of any frame that is sent.
pub sent-Headers :
    (sock : RawSocket) (buffer : Bytes) (dest : List ℕ) (type : ℕ) (p : Option Bytes) (n : ℕ)
    {s : Sent}
    → IsValid sock
    → length dest ≡ 6
    → type < 65536
    → send_packet sock buffer (some dest) type p n ≡ some s
    → Headers s.frame sock dest type n
sent-Headers sock buffer dest type p n {s} v six small sent =
    elim (send_packet_lem sock buffer dest type p n v six small) [
      | inl (long, refused) ↦ cc
      | inr (s', sent', headers, _, _, _) ↦
          let same : s' ≡ s = cc (sent, sent') in
          subst (λ (t : Sent). Headers t.frame sock dest type n) same headers
    ]

-- The payload that send_packet is given stands behind the headers.
pub send_payload :
    (sock : RawSocket) (buffer : Bytes) (dest : Option (List ℕ)) (type : ℕ) (p : Bytes) (n : ℕ)
    {s : Sent}
    → send_packet sock buffer dest type (some p) n ≡ some s
    → (i : ℕ) → i < n
    → s.frame (payload + i) ≡ p i
unfolding send_packet
send_payload sock buffer dest type p n h i lt = ground arith

-- A NULL address is the broadcast address.
pub send_packet_broadcast :
    (sock : RawSocket) (buffer : Bytes) (type : ℕ) (p : Option Bytes) (n : ℕ)
    → send_packet sock buffer none type p n ≡ send_packet sock buffer (some broadcast_addr) type p n
unfolding send_packet
send_packet_broadcast sock buffer type p n = refl
