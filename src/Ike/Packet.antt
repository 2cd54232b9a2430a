-- ===== src/Ike/Packet.antt =====
-- crates/ikev2/src/message/mod.rs: `Packet::parse`, and the unencrypted form of a `Message`.
pub mod RoundTrip
pub mod Total
mod Tests
use openfortivpn_rs.Ike.Result.{
  encrypted_not_last, header_length, payload_shorter_than_header, out_of_fuel, reject, ◌and_then◌,
  expect, Result, err, ok,
}
use openfortivpn_rs.Prelude.{
  length, if◌then◌else◌, ◌++◌, ℕ, zero, Bytes, true, ◌^◌, suc, List, ◌==◌, Option, some, ◌||◌, Bool,
  ◌-◌, ◌+◌, false, ltb, not, leb, [], none, drop, ◌∷◌, false, true, some, none, suc, zero, ◌∷◌, [],
}
use openfortivpn_rs.Ike.Payload.{RawPayload, none_kind, encode_chain}
use openfortivpn_rs.Ike.Header.{Exchange, Header, header_len, encode_header, decode_header}
use openfortivpn_rs.Ike.Bytes.{u16, skip, u8, Parse, resume, ◌>>=◌, ◌>>◌, pure, lift, take}

-- `types::SK` and `types::SKF`
abbrev pub sk_kind : ℕ
sk_kind = 46

abbrev pub skf_kind : ℕ
skf_kind = 53

pub record Packet : Type 0 where
  pub header : Header
  pub payloads : List RawPayload
  pub raw : Bytes
  pub encrypted_at : Option ℕ

-- `&bytes[offset..]`
abbrev pub bytes_from : ℕ → Bytes → Result Bytes
bytes_from offset bytes = expect (leb offset (length bytes)) (drop offset bytes)

-- The branch of the Encrypted payload, which ends the message and the loop.
unfoldable pub encrypted_part :
    ℕ → ℕ → List RawPayload → Bytes → Result (List RawPayload × Option ℕ)
encrypted_part kind offset found bytes = bytes_from offset bytes and_then λ r.
    resume
      (λ payload_len r'.
        reject (ltb payload_len 4 || not (offset + payload_len == length bytes)) encrypted_not_last
        and_then λ _. bytes_from (offset + 4) bytes and_then λ body.
            ok (found ++ record { kind = kind; body = body } ∷ [], some offset))
      ((do skip 2; u16) r)

-- The type of the next payload, the length of this one, and its data.
unfoldable pub read_payload : Parse (ℕ × ℕ × Bytes)
read_payload = do
  next ← u8
  skip 1
  payload_len ← u16
  lift (reject (ltb payload_len 4) payload_shorter_than_header)
  body ← take (payload_len - 4)
  pure (next, payload_len, body)

-- `while kind != types::NONE`; the fuel is one more than the number of bytes.
unfoldable pub packet_loop :
    ℕ → ℕ → ℕ → List RawPayload → Bytes → Result (List RawPayload × Option ℕ)
unfolding encrypted_part read_payload
packet_loop zero kind offset found bytes =
    if kind == none_kind then ok (found, none) else err out_of_fuel
packet_loop (suc fuel) kind offset found bytes =
    let again = λ (next offset' : ℕ) (body : Bytes).
      packet_loop fuel next offset' (found ++ record { kind = kind; body = body } ∷ []) bytes in
    if kind == none_kind
    then ok (found, none)
    else if kind == sk_kind || kind == skf_kind
    then encrypted_part kind offset found bytes
    else (bytes_from offset bytes and_then λ r.
        resume (λ (next, payload_len, body) r'. again next (offset + payload_len) body)
          (read_payload r))

-- `Packet::parse`
unfoldable pub parse_packet : Bytes → Result Packet
unfolding packet_loop
parse_packet bytes = decode_header bytes and_then λ header.
    reject (not (header.length == length bytes)) (header_length header.length (length bytes))
    and_then λ _.
        packet_loop (length bytes + 1) header.next_payload header_len [] bytes and_then λ found.
        ok (record { header = header; payloads = found.0; raw = bytes; encrypted_at = found.1 })

-- `Packet::is_encrypted`
abbrev pub is_encrypted : Packet → Bool
is_encrypted p = elim p.encrypted_at [ none ↦ false | some offset ↦ true ]

pub record Message : Type 0 where
  pub exchange : Exchange
  pub is_response : Bool
  pub from_initiator : Bool
  pub id : ℕ
  pub initiator_spi : ℕ
  pub responder_spi : ℕ
  pub payloads : List RawPayload

unfoldable pub request : Exchange → ℕ → ℕ → ℕ → Message
request exchange id initiator_spi responder_spi = record {
  exchange = exchange;
  is_response = false;
  from_initiator = true;
  id = id;
  initiator_spi = initiator_spi;
  responder_spi = responder_spi;
  payloads = [];
}

unfoldable pub response : Exchange → ℕ → ℕ → ℕ → Message
unfolding request
response exchange id initiator_spi responder_spi =
    record (request exchange id initiator_spi responder_spi) { is_response = true }

unfoldable pub push : Message → ℕ → Bytes → Message
push m kind body = record m { payloads = m.payloads ++ record { kind = kind; body = body } ∷ [] }

abbrev pub header_with : Message → ℕ → ℕ → Header
header_with m next_payload length = record {
  initiator_spi = m.initiator_spi;
  responder_spi = m.responder_spi;
  next_payload = next_payload;
  exchange = m.exchange;
  from_initiator = m.from_initiator;
  is_response = m.is_response;
  message_id = m.id;
  length = length;
}

-- `Message::header`
unfoldable pub header : Message → ℕ → ℕ → Result Header
header m next_payload length =
    expect (ltb length (2 ^ 32)) length and_then λ len. ok (header_with m next_payload len)

unfoldable pub encode_plain : Message → Result Bytes
unfolding header
encode_plain m = encode_chain m.payloads [] and_then λ chain.
    header m chain.1 (header_len + length chain.0) and_then λ h. ok (encode_header h [] ++ chain.0)
