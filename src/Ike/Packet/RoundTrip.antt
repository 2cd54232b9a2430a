-- ===== src/Ike/Packet/RoundTrip.antt =====
-- An unencrypted `Message` of message/mod.rs, encoded and parsed.
use openfortivpn_rs.Ike.Bytes.Laws.{take_of_length, u16_put, skip_one, u8_put}
use openfortivpn_rs.Ike.Payload.{encode_chain, RawPayload, first_kind}
use openfortivpn_rs.Ike.Result.{ok}
use openfortivpn_rs.Prelude.{
  ap, length, arith, append_assoc, ◌∷◌, Bytes, List, ◌++◌, append-nil, drop-append, ◌≤◌, ℕ,
  length-append, ◌≡◌, none, suc, lt→ltb, ◌^◌, All, ◌∙◌, sym, ◌-◌, be16, refl, ◌+◌, zero, [], ◌≢◌,
  ◌<◌, none, refl, suc, zero, ◌∷◌, [],
}
use openfortivpn_rs.Ike.Payload.RoundTrip.{
  IsPayload, chain_bytes, chain_onto-append, length-chain_bytes,
}
use openfortivpn_rs.Ike.Header.RoundTrip.{
  length-encode_header, IsHeader, decode_header-encode_header,
}
use openfortivpn_rs.Ike.Header.{encode_header, header_len}
use openfortivpn_rs.Ike.Packet.{
  Message, packet_loop, parse_packet, header, header_with, encode_plain, sk_kind, skf_kind,
  read_payload,
}

-- A payload in the clear: one that a chain can carry, and not an Encrypted one.
pub record IsClear (p : RawPayload) : Type 0 where
  pub payload : IsPayload p
  pub not_sk : p.kind ≢ sk_kind
  pub not_skf : p.kind ≢ skf_kind

abbrev payload_bytes : ℕ → RawPayload → Bytes
payload_bytes next p = next ∷ 0 ∷ (be16 (length p.body + 4) ++ p.body)

read_payload-payload_bytes :
    (next : ℕ) (p : RawPayload) (r : Bytes)
    → length p.body + 4 < 2 ^ 16
    → read_payload (payload_bytes next p ++ r) ≡ ok ((next, length p.body + 4, p.body), r)
unfolding read_payload
read_payload-payload_bytes next p r h = ground (
  arith,
  u8_put next (0 ∷ (be16 (length p.body + 4) ++ (p.body ++ r))),
  skip_one 0 (be16 (length p.body + 4) ++ (p.body ++ r)),
  u16_put (length p.body + 4) (p.body ++ r),
  take_of_length (length p.body + 4 - 4) p.body r,
)

packet_step :
    (fuel next : ℕ) (p : RawPayload) (found : List RawPayload) (front r : Bytes)
    → IsClear p
    → packet_loop (suc fuel) p.kind (length front) found (front ++ (payload_bytes next p ++ r))
      ≡ packet_loop fuel next
          (length front + (length p.body + 4))
          (found ++ p ∷ [])
          (front ++ (payload_bytes next p ++ r))
unfolding packet_loop
packet_step fuel next p found front r c = ground (
  arith,
  drop-append front (payload_bytes next p ++ r),
  length-append front (payload_bytes next p ++ r),
  read_payload-payload_bytes next p r c.payload.body_fits,
  c.payload.not_none,
  c.not_sk,
  c.not_skf,
)

packet_loop-chain_bytes :
    (fuel : ℕ) (found ps : List RawPayload) (front : Bytes)
    → All IsClear ps
    → length ps ≤ fuel
    → packet_loop fuel (first_kind ps) (length front) found (front ++ chain_bytes ps)
      ≡ ok (found ++ ps, none)
unfolding first_kind
packet_loop-chain_bytes zero found [] front h f = unfold packet_loop in rw append-nil
packet_loop-chain_bytes (suc fuel) found [] front h f = unfold packet_loop in rw append-nil
packet_loop-chain_bytes zero found (p ∷ ps) front h f = absurd (omega arith)
packet_loop-chain_bytes (suc fuel) found (p ∷ ps) front h f =
    let first = payload_bytes (first_kind ps) p in
    let moved : length (front ++ first) ≡ length front + (length p.body + 4) =
      omega (arith, length-append front first) in
    packet_step fuel (first_kind ps) p found front (chain_bytes ps) h.0
    ∙ rw (sym moved, sym (append_assoc front first (chain_bytes ps)))
        (packet_loop-chain_bytes fuel (found ++ p ∷ []) ps (front ++ first) h.1 (omega arith)
          ∙ rw append_assoc)

All-IsClear-IsPayload : (ps : List RawPayload) → All IsClear ps → All IsPayload ps
All-IsClear-IsPayload [] h = tt
All-IsClear-IsPayload (p ∷ ps) h = (h.0.payload, All-IsClear-IsPayload ps h.1)

-- A message that fits a datagram's header.
pub record IsMessage (m : Message) : Type 0 where
  pub clear : All IsClear m.payloads
  pub initiator_fits : m.initiator_spi < 2 ^ 64
  pub responder_fits : m.responder_spi < 2 ^ 64
  pub id_fits : m.id < 2 ^ 32
  pub length_fits : header_len + length (chain_bytes m.payloads) < 2 ^ 32

-- A message of payloads in the clear, of less than 2 ^ 16 - 4 bytes each and less than 2 ^ 32 with the
-- header together, none of an encrypted type or the type that ends a chain, and with numbers in the
-- header that fit it, is encoded with no error, and the datagram is parsed to a
-- packet with the header of the message, its payloads in order, and no Encrypted payload.
pub parse_packet-encode_plain :
    (m : Message)
    → IsMessage m
    → (bytes : Bytes) × (encode_plain m ≡ ok bytes)
      × (parse_packet bytes
          ≡ ok (record {
            header = header_with m (first_kind m.payloads) (length bytes);
            payloads = m.payloads;
            raw = bytes;
            encrypted_at = none;
          }))
unfolding encode_plain header parse_packet encode_chain
parse_packet-encode_plain m h =
    let chain = chain_bytes m.payloads in
    let head = header_with m (first_kind m.payloads) (header_len + length chain) in
    let front = encode_header head [] in
    let is_head : IsHeader head = record {
      initiator_fits = h.initiator_fits;
      responder_fits = h.responder_fits;
      message_id_fits = h.id_fits;
      length_fits = h.length_fits;
    } in
    let size : length front ≡ header_len = length-encode_header head in
    let whole : length (front ++ chain) ≡ header_len + length chain =
      omega (arith, length-append front chain) in
    let fuel = header_len + length chain + 1 in
    let parsed : packet_loop fuel (first_kind m.payloads) header_len [] (front ++ chain)
        ≡ ok (m.payloads, none) =
      ap (λ o. packet_loop fuel (first_kind m.payloads) o [] (front ++ chain)) (sym size)
      ∙ packet_loop-chain_bytes fuel [] m.payloads front h.clear
          (omega (arith, length-chain_bytes m.payloads)) in
    (
      front ++ chain,
      rw
          (
            chain_onto-append m.payloads [] (All-IsClear-IsPayload m.payloads h.clear),
            lt→ltb (header_len + length chain) (2 ^ 32) h.length_fits,
          )
          refl,
      rw (decode_header-encode_header head chain is_head, whole, parsed) (ground arith),
    )
