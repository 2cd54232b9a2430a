-- ===== src/Vici/Packet.antt =====
-- crates/vici/src/packet.rs: the packets, and their framing.
pub mod RoundTrip
use openfortivpn_rs.Vici.Message.{Section}
use openfortivpn_rs.Vici.Result.{message_size, unknown_packet, truncated, Result}
use openfortivpn_rs.Vici.Codec.{
  message_size_max, decode_section, read_name, encode_section, put_name,
}
use openfortivpn_rs.Prelude.{
  length, if◌then◌else◌, ◌==◌, ◌∷◌, ltb, done, ◌++◌, failed, be32, Bytes, ℕ, ◌followed_by◌, [], ◌∷◌,
  [],
}

pub data Packet : Type 0 where
  cmd_request : Bytes → Section → Packet
  cmd_response : Section → Packet
  cmd_unknown : Packet
  event_register event_unregister : Bytes → Packet
  event_confirm event_unknown : Packet
  event : Bytes → Section → Packet

-- The body with its kind: a name, a message, or both.
unfoldable pub with_name : ℕ → Bytes → Result Bytes
unfolding put_name
with_name kind name = put_name (kind ∷ []) name

unfoldable pub with_message : Bytes → Section → Result Bytes
unfolding encode_section
with_message out message = encode_section message followed_by λ bytes. done (out ++ bytes)

unfoldable pub body_of : Packet → Result Bytes
unfolding with_name with_message
body_of (cmd_request name message) = with_name 0 name followed_by λ out. with_message out message
body_of (cmd_response message) = with_message (1 ∷ []) message
body_of cmd_unknown = done (2 ∷ [])
body_of (event_register name) = with_name 3 name
body_of (event_unregister name) = with_name 4 name
body_of event_confirm = done (5 ∷ [])
body_of event_unknown = done (6 ∷ [])
body_of (event name message) = with_name 7 name followed_by λ out. with_message out message

-- `Packet::encode`; a size within the limit fits the 32 bits of the prefix.
unfoldable pub encode_packet : Packet → Result Bytes
unfolding body_of
encode_packet self = body_of self followed_by λ body.
    if ltb message_size_max (length body)
    then failed (message_size (length body))
    else done (be32 (length body) ++ body)

unfoldable pub named_message : (Bytes → Section → Packet) → Bytes → Result Packet
unfolding read_name decode_section
named_message packet r = read_name r followed_by λ name.
    decode_section name.1 followed_by λ message. done (packet name.0 message)

unfoldable pub named : (Bytes → Packet) → Bytes → Result Packet
unfolding read_name
named packet r = read_name r followed_by λ name. done (packet name.0)

-- `Packet::decode`; the bytes behind a packet without a message are not looked at.
unfoldable pub decode_packet : Bytes → Result Packet
unfolding named_message named
decode_packet [] = failed truncated
decode_packet (kind ∷ r) =
    if kind == 0
    then named_message cmd_request r
    else if kind == 1
    then (decode_section r followed_by λ message. done (cmd_response message))
    else if kind == 2
    then done cmd_unknown
    else if kind == 3
    then named event_register r
    else if kind == 4
    then named event_unregister r
    else if kind == 5
    then done event_confirm
    else if kind == 6
    then done event_unknown
    else if kind == 7
    then named_message event r
    else failed (unknown_packet kind)
