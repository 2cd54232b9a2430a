-- ===== src/Ike/Session/Tests.antt =====
-- The requests of the gateway of session.rs, at a dead peer detection that comes twice.
use openfortivpn_rs.Ike.Session.Order.{taken_ids-AreCounted, AreCounted}
use openfortivpn_rs.Ike.Session.Untouched.{framed}
use openfortivpn_rs.Ike.Session.Again.{handle_packet_again, answered}
use openfortivpn_rs.Ike.Session.Forged.{handle_packet_forged}
use openfortivpn_rs.Ike.Session.Handlers.{taken_ids}
use openfortivpn_rs.Ike.Encrypted.Fragments.{opened}
use openfortivpn_rs.Ike.Session.Closing.{on_informational_closes, IsOver, deletion}
use openfortivpn_rs.Ike.Encrypted.Datagram.{HasIds}
use openfortivpn_rs.Ike.Bytes.{u16, skip, u32, u8, u64}
use openfortivpn_rs.Ike.Payload.{decode_delete, encode_chain, chain_loop, parse_chain}
use openfortivpn_rs.Ike.Session.Informational.{on_informational, respond}
use openfortivpn_rs.Ike.Choice.{prf_sha256}
use openfortivpn_rs.Ike.Reassembler.{payloads, Decrypted, default}
use openfortivpn_rs.Ike.Cipher.{encrypt, decrypt, no_integrity, aes_gcm16}
use openfortivpn_rs.Ike.Cipher.Plain.{plain-laws, plain}
use openfortivpn_rs.Ike.Header.{decode_header, informational, encode_header, Header}
use openfortivpn_rs.Ike.Session.Requests.{nothing, handle_packet}
use openfortivpn_rs.Ike.KeySchedule.{IkeKeys}
use openfortivpn_rs.Ike.Encrypted.{decrypt_packet, encode_encrypted, Keys}
use openfortivpn_rs.Ike.Session.{encode_message, new_response, open_request, established, Session}
use openfortivpn_rs.Ike.Packet.{Message, parse_packet, Packet}
use openfortivpn_rs.Ike.Result.{fail, encrypted_too_short, is_ok, malformed, ok}
use openfortivpn_rs.Prelude.{
  if◌then◌else◌, inr, inr, arith, [], ◌≡◌, zeros, true, List, ℕ, false, Bytes, none, ◌++◌, inl, ◌∷◌,
  refl, some, false, true, some, none, inl, refl, ◌∷◌, [],
}

abbrev direction : Keys
direction = record {
  cipher = aes_gcm16 128;
  integrity = no_integrity;
  encryption = zeros 20;
  integrity_key = [];
}

abbrev session_keys : IkeKeys
session_keys = record {
  algorithms = record {
    cipher = aes_gcm16 128;
    prf_with = prf_sha256;
    integrity_with = no_integrity;
    group = 19;
  };
  sk_d = zeros 32;
  outbound = direction;
  inbound = direction;
  sk_pi = zeros 32;
  sk_pr = zeros 32;
}

-- Established, on SPIs 5 and 6, and about to receive the request 4294967295.
abbrev session : Session
session = record {
  nat_port = false;
  stage = established;
  initiator = true;
  spi_i = 5;
  spi_r = 6;
  keys = some session_keys;
  message_id = 2;
  peer_message_id = 4294967295;
  last_response = none;
  peer_fragments = false;
  reassembler = default;
  children = [];
  up = true;
  down = none;
  next_ike = none;
  sent = [];
}

abbrev probe_header : ℕ → Header
probe_header id = record {
  initiator_spi = 5;
  responder_spi = 6;
  next_payload = 46;
  exchange = informational;
  from_initiator = false;
  is_response = false;
  message_id = id;
  length = 57;
}

-- An Encrypted payload with no payload inside.
abbrev probe_bytes : ℕ → Bytes
probe_bytes id = encode_header (probe_header id) [] ++ 0 ∷ 0 ∷ 0 ∷ 29 ∷ zeros 25

abbrev probe : ℕ → Packet
probe id = record {
  header = probe_header id;
  payloads = record { kind = 46; body = zeros 25 } ∷ [];
  raw = probe_bytes id;
  encrypted_at = some 28;
}

abbrev probes : List Packet
probes = probe 3 ∷ probe 4294967295 ∷ probe 4294967295 ∷ probe 1 ∷ probe 0 ∷ []

probe_parsed : parse_packet (probe_bytes 4294967295) ≡ ok (probe 4294967295)
unfolding parse_packet encode_header decode_header u64 u8 u32 skip u16
probe_parsed = refl

probes_taken : taken_ids plain (λ _ _. zeros 16) session probes ≡ 4294967295 ∷ 0 ∷ []
unfolding handle_packet encode_header decrypt parse_chain chain_loop on_informational encode_chain
    encrypt
probes_taken = refl

taken_ids-AreCounted_example :
    AreCounted 4294967295 false (taken_ids plain (λ _ _. zeros 16) session probes)
taken_ids-AreCounted_example = taken_ids-AreCounted plain (λ _ _. zeros 16) probes session

-- A request whose Encrypted payload has no room for the IV and the tag.
abbrev short_bytes : Bytes
short_bytes =
    encode_header (record (probe_header 4294967295) { length = 34 }) [] ++ 0 ∷ 0 ∷ 0 ∷ 6 ∷ zeros 2

abbrev short : Packet
short = record {
  header = record (probe_header 4294967295) { length = 34 };
  payloads = record { kind = 46; body = zeros 2 } ∷ [];
  raw = short_bytes;
  encrypted_at = some 28;
}

short_parsed : parse_packet short_bytes ≡ ok short
unfolding parse_packet encode_header decode_header u64 u8 u32 skip u16
short_parsed = refl

short_fails : decrypt_packet plain direction short ≡ fail encrypted_too_short
unfolding decrypt_packet encode_header
short_fails = refl

handle_packet_forged_example : handle_packet plain session short ≡ (session, nothing)
handle_packet_forged_example =
    handle_packet_forged plain session short_bytes short short_parsed (inl refl)
      (inr (malformed encrypted_too_short, short_fails))

-- The session when the request was taken, and our response.
abbrev expecting : Session
expecting = record session { peer_message_id = 0 }

abbrev alive : Message
alive = record {
  exchange = informational;
  is_response = true;
  from_initiator = true;
  id = 4294967295;
  initiator_spi = 5;
  responder_spi = 6;
  payloads = [];
}

abbrev alive_header : Header
alive_header = record {
  initiator_spi = 5;
  responder_spi = 6;
  next_payload = 46;
  exchange = informational;
  from_initiator = true;
  is_response = true;
  message_id = 4294967295;
  length = 57;
}

abbrev alive_bytes : Bytes
alive_bytes =
    encode_header alive_header []
    ++ 0 ∷ 0 ∷ 0 ∷ 29 ∷ 255 ∷ 255 ∷ 255 ∷ 255 ∷ 0 ∷ 0 ∷ 0 ∷ 1 ∷ zeros 17

alive_is_response : new_response expecting informational 4294967295 ≡ alive
unfolding new_response
alive_is_response = refl

alive_encoded : encode_message plain (λ _. []) expecting alive ≡ ok (alive_bytes ∷ [])
unfolding encode_message encode_header encrypt encode_encrypted encode_chain
alive_encoded = refl

handle_packet_again_example :
    let after = answered expecting alive (alive_bytes ∷ []) in
    let opened = open_request plain after (probe 4294967295) in
    (respond plain (λ _. []) expecting alive ≡ ok after)
    × (handle_packet plain after (probe 4294967295) ≡ (
      record after {
        reassembler = opened.0.reassembler;
        sent =
            if is_ok opened.1
            then after.sent ++ framed expecting (alive_bytes ∷ [])
            else after.sent;
      },
      nothing,
    ))
handle_packet_again_example =
    handle_packet_again plain (λ _. []) expecting alive (alive_bytes ∷ []) (probe 4294967295)
      alive_encoded refl refl refl refl

-- A rekeyed IKE SA waits, and the gateway deletes the one it took the place of.
abbrev rekeyed : Session
rekeyed = record expecting {
  next_ike = some (record { spi_i = 7; spi_r = 8; keys = session_keys });
}

abbrev closing_body : Bytes
closing_body = 1 ∷ 0 ∷ 0 ∷ 0 ∷ []

closing_read : decode_delete closing_body ≡ ok (record { protocol = 1; spis = [] })
unfolding decode_delete u8 u16
closing_read = refl

alive-HasIds : HasIds (new_response rekeyed informational 9)
unfolding new_response
alive-HasIds = record {
  initiator_fits = omega arith;
  responder_fits = omega arith;
  id_fits = omega arith;
}

on_informational_closes_example :
    (after : Session) × (on_informational plain (λ _. zeros 16) rekeyed 9 (deletion closing_body)
      ≡ ok after)
    × IsOver rekeyed.next_ike after
    × ((bytes : Bytes) × (after.sent ≡ framed rekeyed (bytes ∷ []))
        × ((found : Decrypted) × (opened plain direction bytes ≡ ok (9, found))
            × (payloads found ≡ ok [])))
on_informational_closes_example =
    on_informational_closes plain (λ _. zeros 16) rekeyed session_keys 9 closing_body
      (record { protocol = 1; spis = [] }) plain-laws refl
      (record { cipher_known = inl refl; key_fits = refl; alone = λ _. refl }) alive-HasIds refl
      closing_read refl
