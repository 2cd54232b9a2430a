-- ===== src/Ike/Session.antt =====
-- crates/ikev2/src/session.rs: what an IKE SA makes of the datagrams it receives, up to the handlers of
-- rekeying. The sockets are the list of what was sent; a send that fails is left out.
pub mod Informational
pub mod Requests
pub mod Handlers
pub mod Forged
pub mod Order
pub mod Again
pub mod Untouched
pub mod Kept
pub mod Closing
mod Tests
use openfortivpn_rs.Ike.Encrypted.{encode_encrypted, decrypt_packet}
use openfortivpn_rs.Ike.Esp.{ChildSa}
use openfortivpn_rs.Ike.Header.{Exchange}
use openfortivpn_rs.Ike.Payload.{RawPayload}
use openfortivpn_rs.Ike.Packet.{
  response, Message, response, encode_plain, Packet, request, parse_packet,
}
use openfortivpn_rs.Ike.Cipher.{Primitives}
use openfortivpn_rs.Ike.KeySchedule.{IkeKeys}
use openfortivpn_rs.Ike.Reassembler.{payloads, add, Reassembler, Decrypted}
use openfortivpn_rs.Ike.Result.{
  unencrypted_request, other_sa, before_keys, wrong_protection, fail, ◌and_then◌, Result, err, ok,
}
use openfortivpn_rs.Prelude.{
  length, if◌then◌else◌, ◌&&◌, not, Bytes, is_some, ◌∷◌, [], ◌||◌, some, ◌==◌, Option, false, List,
  ◌++◌, none, Bool, ℕ, true, false, true, some, none, ◌∷◌, [],
}

pub data Stage : Type 0 where
  at_init at_auth established : Stage

-- The texts of `down`.
pub data Down : Type 0 where
  tunnel_closed child_deleted : Down

pub record NextIke : Type 0 where
  pub spi_i : ℕ
  pub spi_r : ℕ
  pub keys : IkeKeys

-- `nat_port` is `self.config.port == NAT_PORT`; `up` is `self.host.is_some()`.
pub record Session : Type 0 where
  pub nat_port : Bool
  pub stage : Stage
  pub initiator : Bool
  pub spi_i : ℕ
  pub spi_r : ℕ
  pub keys : Option IkeKeys
  pub message_id : ℕ
  pub peer_message_id : ℕ
  pub last_response : Option (ℕ × List Bytes)
  pub peer_fragments : Bool
  pub reassembler : Reassembler
  pub children : List ChildSa
  pub up : Bool
  pub down : Option Down
  pub next_ike : Option NextIke
  pub sent : List Bytes

abbrev pub is_init : Stage → Bool
is_init at_init = true
is_init _ = false

unfoldable pub nat : Session → Bool
nat self = not (is_init self.stage) || self.nat_port

-- `NON_ESP_MARKER`
abbrev pub non_esp_marker : Bytes
non_esp_marker = 0 ∷ 0 ∷ 0 ∷ 0 ∷ []

unfoldable pub send_datagram : Session → Bytes → Session
unfolding nat
send_datagram self bytes = record self {
  sent = self.sent ++ (if nat self then non_esp_marker ++ bytes else bytes) ∷ [];
}

-- `for datagram in &datagrams { self.send_datagram(datagram) }`
abbrev pub send_all : Session → List Bytes → Session
send_all self [] = self
send_all self (bytes ∷ others) = send_all (send_datagram self bytes) others

pub data Inbound : Type 0 where
  of_ike : Packet → Inbound
  of_esp : Bytes → Inbound

-- `datagram.strip_prefix(&NON_ESP_MARKER)`
abbrev pub strip_marker : Bytes → Option Bytes
strip_marker (a ∷ b ∷ c ∷ d ∷ ike_bytes) =
    if a == 0 && (b == 0 && (c == 0 && d == 0)) then some ike_bytes else none
strip_marker _ = none

abbrev pub marked : Bytes → Option Bytes → Result (Option Inbound)
marked datagram none = ok (some (of_esp datagram))
marked datagram (some ike_bytes) =
    parse_packet ike_bytes and_then λ packet. ok (some (of_ike packet))

unfoldable pub inbound : Session → Bytes → Result (Option Inbound)
unfolding nat parse_packet
inbound self datagram =
    if not (nat self)
    then (parse_packet datagram and_then λ packet. ok (some (of_ike packet)))
    else if length datagram == 1
    then ok none
    else marked datagram (strip_marker datagram)

-- `FRAGMENT_LEN`
abbrev pub fragment_len : ℕ
fragment_len = 1280

module _ (lib : Primitives) (randoms : ℕ → Bytes) where
  abbrev pub encode_under : Session → Message → Option IkeKeys → Result (List Bytes)
  encode_under self message none = encode_plain message and_then λ bytes. ok (bytes ∷ [])
  encode_under self message (some keys) =
      encode_encrypted lib randoms message keys.outbound
        (if self.peer_fragments then some fragment_len else none)

  -- `Session::encode`
  unfoldable pub encode_message : Session → Message → Result (List Bytes)
  unfolding encode_plain encode_encrypted
  encode_message self message = encode_under self message self.keys

unfoldable pub new_request : Session → Exchange → Message
unfolding request
new_request self exchange = record (request exchange self.message_id self.spi_i self.spi_r) {
  from_initiator = self.initiator;
}

unfoldable pub new_response : Session → Exchange → ℕ → Message
unfolding response
new_response self exchange id = record (response exchange id self.spi_i self.spi_r) {
  from_initiator = self.initiator;
}

-- What the reassembler makes of a fragment, and its payloads.
abbrev pub of_whole : Option Decrypted → Result (Option (List RawPayload))
of_whole none = ok none
of_whole (some whole) = payloads whole and_then λ found. ok (some found)

abbrev pub of_answer :
    Session → Reassembler × Result (Option Decrypted) → Session × Result (Option (List RawPayload))
of_answer self (after, answer) = (record self { reassembler = after }, answer and_then of_whole)

-- Behind decryption, which both `open_response` and `open_request` do.
abbrev pub gathered : Session → ℕ → Result Decrypted → Session × Result (Option (List RawPayload))
gathered self id (err why) = (self, err why)
gathered self id (ok decrypted) =
    if is_some decrypted.fragment
    then of_answer self (add self.reassembler id decrypted)
    else (self, of_whole (some decrypted))

module _ (lib : Primitives) where
  abbrev pub response_under :
      Session → Packet → Option IkeKeys → Session × Result (Option (List RawPayload))
  response_under self packet none =
      if is_some packet.encrypted_at
      then (self, fail wrong_protection)
      else (self, ok (some packet.payloads))
  response_under self packet (some keys) =
      if is_some packet.encrypted_at
      then gathered self packet.header.message_id (decrypt_packet lib keys.inbound packet)
      else (self, fail wrong_protection)

  -- `Session::open_response`
  unfoldable pub open_response : Session → Packet → Session × Result (Option (List RawPayload))
  unfolding add decrypt_packet payloads
  open_response self packet =
      if not (packet.header.initiator_spi == self.spi_i)
        || (not (self.spi_r == 0) && not (packet.header.responder_spi == self.spi_r))
      then (self, fail other_sa)
      else response_under self packet self.keys

  abbrev pub request_under :
      Session → Packet → Option IkeKeys → Session × Result (Option (List RawPayload))
  request_under self packet none = (self, fail before_keys)
  request_under self packet (some keys) =
      if is_some packet.encrypted_at
      then gathered self packet.header.message_id (decrypt_packet lib keys.inbound packet)
      else (self, fail unencrypted_request)

  -- `Session::open_request`; its header is that of the packet.
  unfoldable pub open_request : Session → Packet → Session × Result (Option (List RawPayload))
  unfolding add decrypt_packet payloads
  open_request self packet = request_under self packet self.keys
