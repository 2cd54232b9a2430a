-- ===== src/Ike/Packet/Tests.antt =====
-- The header and the packets of message/mod.rs at a concrete request.
use openfortivpn_rs.Ike.Payload.{first_kind, RawPayload}
use openfortivpn_rs.Ike.Result.{ok}
use openfortivpn_rs.Prelude.{
  length, none, arith, true, ◌≡◌, [], false, Bytes, ◌∷◌, false, true, none, ◌∷◌, [],
}
use openfortivpn_rs.Ike.Header.{Header, ike_sa_init}
use openfortivpn_rs.Ike.Packet.{Message, header_with, encode_plain, parse_packet}
use openfortivpn_rs.Ike.Packet.RoundTrip.{IsClear, parse_packet-encode_plain}
use openfortivpn_rs.Ike.Packet.Total.{parse_packet-IsOrderly}
use openfortivpn_rs.Ike.Bytes.Orderly.{IsOrderly}

abbrev nonce_payload : RawPayload
nonce_payload = record { kind = 40; body = 1 ∷ 2 ∷ 3 ∷ [] }

-- IKE_SA_INIT with a nonce alone.
abbrev init_request : Message
init_request = record {
  exchange = ike_sa_init;
  is_response = false;
  from_initiator = true;
  id = 0;
  initiator_spi = 0x1122334455667788;
  responder_spi = 0;
  payloads = nonce_payload ∷ [];
}

nonce_payload-IsClear : IsClear nonce_payload
nonce_payload-IsClear = record {
  payload = record { not_none = λ e. cc e; body_fits = omega arith };
  not_sk = λ e. cc e;
  not_skf = λ e. cc e;
}

parse_packet-encode_plain_example :
    (bytes : Bytes) × (encode_plain init_request ≡ ok bytes)
    × (parse_packet bytes
        ≡ ok (record {
          header = header_with init_request 40 (length bytes);
          payloads = nonce_payload ∷ [];
          raw = bytes;
          encrypted_at = none;
        }))
unfolding first_kind
parse_packet-encode_plain_example = parse_packet-encode_plain init_request (record {
  clear = (nonce_payload-IsClear, tt);
  initiator_fits = omega arith;
  responder_fits = omega arith;
  id_fits = omega arith;
  length_fits = omega arith;
})

abbrev init_header : Header
init_header = header_with init_request 40 35

parse_packet-IsOrderly_example : IsOrderly (parse_packet (1 ∷ 2 ∷ 3 ∷ []))
parse_packet-IsOrderly_example = parse_packet-IsOrderly (1 ∷ 2 ∷ 3 ∷ [])
