-- ===== src/Ike/Session/Requests.antt =====
-- crates/ikev2/src/session.rs: `handle_packet`, up to the handlers of the requests.
use openfortivpn_rs.Ike.Packet.{Packet}
use openfortivpn_rs.Ike.Session.{send_all, send_datagram, open_request, Session}
use openfortivpn_rs.Ike.Payload.{RawPayload}
use openfortivpn_rs.Ike.Cipher.{Primitives}
use openfortivpn_rs.Ike.Header.{Header}
use openfortivpn_rs.Ike.Result.{crypto, Result, malformed, Error, err, ok}
use openfortivpn_rs.Prelude.{
  if◌then◌else◌, ◌&&◌, List, ◌==◌, ◌^◌, not, none, some, ℕ, Bytes, Bool, Option, ◌+◌, ◌-◌, ◌%◌,
  some, none,
}

-- What `handle_packet` comes to: nothing more, the request to be handled, or an error that ends the
-- session.
pub data Taken : Type 0 where
  nothing : Taken
  request_of : Header → List RawPayload → Taken
  fatal : Error → Taken

-- `drop_or_fail`
abbrev pub drop_or_fail : Error → Taken
drop_or_fail (malformed why) = nothing
drop_or_fail (crypto n) = nothing
drop_or_fail e = fatal e

-- `u32::wrapping_add(1)` and `u32::wrapping_sub(1)`
abbrev pub wrapping_next : ℕ → ℕ
wrapping_next n = (n + 1) % 2 ^ 32

abbrev pub wrapping_last : ℕ → ℕ
wrapping_last n = (n + (2 ^ 32 - 1)) % 2 ^ 32

-- `self.last_response.filter(|(last_id, _)| *last_id == id)`
abbrev pub response_to : ℕ → Option (ℕ × List Bytes) → Option (List Bytes)
response_to id none = none
response_to id (some (last, datagrams)) = if last == id then some datagrams else none

abbrev pub resend_to : Session × Result (Option (List RawPayload)) → List Bytes → Session
resend_to (after, err why) datagrams = after
resend_to (after, ok found) datagrams = send_all after datagrams

abbrev pub take_request : Header → Session × Result (Option (List RawPayload)) → Session × Taken
take_request header (after, err why) = (after, drop_or_fail why)
take_request header (after, ok none) = (after, nothing)
take_request header (after, ok (some found)) = (
  record after { peer_message_id = wrapping_next after.peer_message_id },
  request_of header found,
)

abbrev pub is_ours : Session → Header → Bool
is_ours self header = header.initiator_spi == self.spi_i && header.responder_spi == self.spi_r

module _ (lib : Primitives) where
  unfoldable pub resend : Session → Packet → Option (List Bytes) → Session
  unfolding open_request send_datagram
  resend self packet none = self
  resend self packet (some datagrams) = resend_to (open_request lib self packet) datagrams

  -- `handle_packet`, before the match on the exchange
  unfoldable pub handle_packet : Session → Packet → Session × Taken
  unfolding resend open_request
  handle_packet self packet =
      let id = packet.header.message_id in
      if packet.header.is_response
      then (self, nothing)
      else if not (is_ours self packet.header)
      then (self, nothing)
      else if id == wrapping_last self.peer_message_id
      then (resend self packet (response_to id self.last_response), nothing)
      else if not (id == self.peer_message_id)
      then (self, nothing)
      else take_request packet.header (open_request lib self packet)
