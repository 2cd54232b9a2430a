-- ===== src/Ike/Header.antt =====
-- crates/ikev2/src/message/mod.rs: the IKE header and its exchange types.
pub mod RoundTrip
use openfortivpn_rs.Ike.Result.{major_version, unknown_exchange, reject, fail, Result, ok}
use openfortivpn_rs.Prelude.{
  if◌then◌else◌, not, ◌+◌, some, Option, Bool, none, ◌^◌, ◌%◌, ◌/◌, ℕ, Bytes, ◌==◌, some, none,
}
use openfortivpn_rs.Ike.Bytes.{
  u32, put_u64, put_u8, u8, put_u32, u64, Parse, resume, ◌>>=◌, ◌>>◌, pure, lift, value_of,
}

abbrev pub header_len : ℕ
header_len = 28

abbrev pub version_byte : ℕ
version_byte = 0x20

pub data Exchange : Type 0 where
  ike_sa_init ike_auth create_child_sa informational : Exchange

unfoldable pub exchange_id : Exchange → ℕ
exchange_id ike_sa_init = 34
exchange_id ike_auth = 35
exchange_id create_child_sa = 36
exchange_id informational = 37

unfoldable pub exchange_from_id : ℕ → Option Exchange
exchange_from_id id =
    if id == 34
    then some ike_sa_init
    else if id == 35
    then some ike_auth
    else if id == 36
    then some create_child_sa
    else if id == 37
    then some informational
    else none

pub record Header : Type 0 where
  pub initiator_spi : ℕ
  pub responder_spi : ℕ
  pub next_payload : ℕ
  pub exchange : Exchange
  pub from_initiator : Bool
  pub is_response : Bool
  pub message_id : ℕ
  pub length : ℕ

-- The flag byte: `FLAG_INITIATOR` is bit 3, and `FLAG_RESPONSE` is bit 5.
abbrev pub flags_of : Bool → Bool → ℕ
flags_of from_initiator is_response =
    (if from_initiator then 8 else 0) + (if is_response then 32 else 0)

abbrev pub has_bit : ℕ → ℕ → Bool
has_bit flags bit = not (flags / 2 ^ bit % 2 == 0)

-- `Header::encode`
unfoldable pub encode_header : Header → Bytes → Bytes
unfolding exchange_id
encode_header h out = put_u32 h.length (
    put_u32 h.message_id (
      put_u8 (flags_of h.from_initiator h.is_response) (
        put_u8 (exchange_id h.exchange) (
          put_u8 version_byte
            (put_u8 h.next_payload (put_u64 h.responder_spi (put_u64 h.initiator_spi out)))))))

abbrev pub known_exchange : ℕ → Option Exchange → Result Exchange
known_exchange id none = fail (unknown_exchange id)
known_exchange id (some exchange) = ok exchange

unfoldable pub read_header : Parse Header
unfolding exchange_from_id
read_header = do
  initiator_spi ← u64
  responder_spi ← u64
  next_payload ← u8
  version ← u8
  lift (reject (not (version / 2 ^ 4 == 2)) (major_version (version / 2 ^ 4)))
  exchange ← u8
  flags ← u8
  message_id ← u32
  length ← u32
  known ← lift (known_exchange exchange (exchange_from_id exchange))
  pure (record {
    initiator_spi = initiator_spi;
    responder_spi = responder_spi;
    next_payload = next_payload;
    exchange = known;
    from_initiator = has_bit flags 3;
    is_response = has_bit flags 5;
    message_id = message_id;
    length = length;
  })

-- `Header::decode`
unfoldable pub decode_header : Bytes → Result Header
unfolding read_header
decode_header bytes = value_of (read_header bytes)
