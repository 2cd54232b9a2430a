-- ===== src/Ike/Header/RoundTrip.antt =====
-- The header of message/mod.rs, encoded and decoded.
use openfortivpn_rs.Ike.Bytes.Laws.{u32_put, u8_put, u64_put}
use openfortivpn_rs.Ike.Result.{ok}
use openfortivpn_rs.Prelude.{
  length, true, Bool, refl, some, ◌^◌, append_assoc, be32, false, Bytes, ◌∷◌, be64, [], ◌<◌, ◌≡◌,
  ◌++◌, false, true, some, refl, ◌∷◌, [],
}
use openfortivpn_rs.Ike.Header.{
  header_len, ike_sa_init, ike_auth, create_child_sa, informational, has_bit, create_child_sa,
  ike_auth, ike_sa_init, Exchange, Header, exchange_id, exchange_from_id, encode_header,
  read_header, decode_header, version_byte, flags_of,
}

-- The fields of a header fit their machine types.
pub record IsHeader (h : Header) : Type 0 where
  pub initiator_fits : h.initiator_spi < 2 ^ 64
  pub responder_fits : h.responder_spi < 2 ^ 64
  pub message_id_fits : h.message_id < 2 ^ 32
  pub length_fits : h.length < 2 ^ 32

exchange_from_id-exchange_id : (e : Exchange) → exchange_from_id (exchange_id e) ≡ some e
unfolding exchange_from_id exchange_id
exchange_from_id-exchange_id ike_sa_init = refl
exchange_from_id-exchange_id ike_auth = refl
exchange_from_id-exchange_id create_child_sa = refl
exchange_from_id-exchange_id informational = refl

from_initiator_bit : (a b : Bool) → has_bit (flags_of a b) 3 ≡ a
from_initiator_bit true true = refl
from_initiator_bit true false = refl
from_initiator_bit false true = refl
from_initiator_bit false false = refl

is_response_bit : (a b : Bool) → has_bit (flags_of a b) 5 ≡ b
is_response_bit true true = refl
is_response_bit true false = refl
is_response_bit false true = refl
is_response_bit false false = refl

-- The bytes from the type of the first payload on.
abbrev tail_bytes : Header → Bytes → Bytes
tail_bytes h r =
    h.next_payload
    ∷ version_byte
    ∷ exchange_id h.exchange
    ∷ flags_of h.from_initiator h.is_response
    ∷ (be32 h.message_id ++ (be32 h.length ++ r))

abbrev pub header_bytes : Header → Bytes → Bytes
header_bytes h r = be64 h.initiator_spi ++ (be64 h.responder_spi ++ tail_bytes h r)

pub encode_header-append :
    (h : Header) (out r : Bytes) → encode_header h out ++ r ≡ out ++ header_bytes h r
unfolding encode_header
encode_header-append h out r = simp append_assoc

read_header-header_bytes :
    (h : Header) (r : Bytes) → IsHeader h → read_header (header_bytes h r) ≡ ok (h, r)
unfolding read_header
read_header-header_bytes h r i =
    rw
      (
        u64_put h.initiator_spi (be64 h.responder_spi ++ tail_bytes h r) i.initiator_fits,
        u64_put h.responder_spi (tail_bytes h r) i.responder_fits,
        u8_put h.next_payload (
            version_byte
            ∷ exchange_id h.exchange
            ∷ flags_of h.from_initiator h.is_response
            ∷ (be32 h.message_id ++ (be32 h.length ++ r))),
        u8_put version_byte (
            exchange_id h.exchange
            ∷ flags_of h.from_initiator h.is_response
            ∷ (be32 h.message_id ++ (be32 h.length ++ r))),
        u8_put (exchange_id h.exchange)
            (flags_of h.from_initiator h.is_response ∷ (be32 h.message_id ++ (be32 h.length ++ r))),
        u8_put (flags_of h.from_initiator h.is_response)
            (be32 h.message_id ++ (be32 h.length ++ r)),
        u32_put h.message_id (be32 h.length ++ r) i.message_id_fits,
        u32_put h.length r i.length_fits,
        exchange_from_id-exchange_id h.exchange,
        from_initiator_bit h.from_initiator h.is_response,
        is_response_bit h.from_initiator h.is_response,
      )
      refl

-- A header is decoded to itself, whatever bytes follow it.
pub decode_header-encode_header :
    (h : Header) (r : Bytes) → IsHeader h → decode_header (encode_header h [] ++ r) ≡ ok h
unfolding decode_header
decode_header-encode_header h r i = rw (encode_header-append h [] r, read_header-header_bytes h r i)

pub length-encode_header : (h : Header) → length (encode_header h []) ≡ header_len
unfolding encode_header
length-encode_header h = refl
