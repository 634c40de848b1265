-- ===== src/Protocol/Replies.antt =====
-- The replies of src/server/protocol.c, field by field.
use rmtdos.Base.{ℕ, ◌+◌, ◌<◌, ◌≡◌, refl, [], ◌∷◌, ◌++◌, arith, length}
use rmtdos.Base.Memory.{Bytes, slice}
use rmtdos.Wire.{
  dest_mac_addr, src_mac_addr, ethertype, signature, session_id, payload_len, pkt_type, payload,
  packet_signature, combined_header_len, v1_pong, v1_status_resp, status_response_len,
}
use rmtdos.Wire.Fields.{slice-of_list, join16}
use rmtdos.Protocol.{Env, Host, handle_ping, handle_status_req, echoed_len}

-- A reply goes from the server to the sender of the packet, in the session of the packet.
pub record IsReply (env : Env) (packet f : Bytes) (type n : ℕ) : Type 0 where
  pub to : dest_mac_addr f ≡ src_mac_addr packet
  pub from : src_mac_addr f ≡ env.mac_addr
  pub of_type : ethertype f ≡ env.ethertype
  pub signed : signature f ≡ packet_signature
  pub in_session : session_id f ≡ session_id packet
  pub declared : payload_len f ≡ n
  pub kind : pkt_type f ≡ type

module _ (env : Env) (h : Host) (packet : Bytes) (address : length env.mac_addr ≡ 6)
    (type_fits : env.ethertype < 65536) where
  echoed_small : echoed_len env packet < 65536
  echoed_small = ground arith

  -- With an address of six bytes and an EtherType of two, a ping is answered by one call of
  -- pktdrv_send with the ping's length, for a pong that echoes the payload as far as the ping declares
  -- one, and at most what a frame can hold. The sessions and keys stay as they are.
  pub handle_ping_lem :
      (bytes : ℕ)
      → (f : Bytes) × ((handle_ping env h bytes packet).sent ≡ h.sent ++ ((f, bytes) ∷ []))
        × IsReply env packet f v1_pong (echoed_len env packet)
        × ((i : ℕ) → i < echoed_len env packet → f (payload + i) ≡ packet (payload + i))
        × ((handle_ping env h bytes packet).sessions ≡ h.sessions)
        × ((handle_ping env h bytes packet).keys ≡ h.keys)
  unfolding handle_ping
  handle_ping_lem bytes = (
    _,
    refl,
    record {
      to = refl;
      from = slice-of_list env.mac_addr address;
      of_type = join16 env.ethertype type_fits;
      signed = refl;
      in_session = refl;
      declared = join16 _ echoed_small;
      kind = refl;
    },
    λ i lt. ground arith,
    refl,
    refl,
  )

  -- With an address of six bytes and an EtherType of two, a status request is answered by one call
  -- of pktdrv_send, for a packet that holds the six bytes of the video state. The sessions and keys
  -- stay as they are.
  handle_status_req_lem :
      (f : Bytes) × ((handle_status_req env h packet).sent
        ≡ h.sent ++ ((f, combined_header_len + status_response_len) ∷ []))
      × IsReply env packet f v1_status_resp status_response_len
      × (slice f payload status_response_len
          ≡ env.video.video_mode ∷ env.video.active_page ∷ env.video.text_rows ∷ env.video.text_cols
            ∷ env.video.cursor_row ∷ env.video.cursor_col ∷ [])
      × ((handle_status_req env h packet).sessions ≡ h.sessions)
      × ((handle_status_req env h packet).keys ≡ h.keys)
  unfolding handle_status_req
  handle_status_req_lem = (
    _,
    refl,
    record {
      to = refl;
      from = slice-of_list env.mac_addr address;
      of_type = join16 env.ethertype type_fits;
      signed = refl;
      in_session = refl;
      declared = refl;
      kind = refl;
    },
    refl,
    refl,
    refl,
  )
