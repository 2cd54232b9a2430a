-- ===== src/Ike/Session/Again.antt =====
-- A request that comes again after `respond` of crates/ikev2/src/session.rs answered it.
use openfortivpn_rs.Ike.Reassembler.{Reassembler}
use openfortivpn_rs.Ike.Cipher.{Primitives}
use openfortivpn_rs.Ike.Payload.{RawPayload}
use openfortivpn_rs.Ike.Session.Informational.{respond}
use openfortivpn_rs.Ike.Session.Untouched.{
  with_sent, open_request-Rests, send_all-framed, with_reassembler, framed,
}
use openfortivpn_rs.Ike.Session.Requests.{
  response_to, nothing, wrapping_last, is_ours, resend_to, resend, handle_packet,
}
use openfortivpn_rs.Ike.Session.{non_esp_marker, open_request, encode_message, nat, Session}
use openfortivpn_rs.Ike.Packet.{Packet, Message}
use openfortivpn_rs.Ike.Result.{is_ok, Result, err, ok}
use openfortivpn_rs.Prelude.{
  ◌∷◌, ◌∷◌, refl, [], refl, ◌∷◌, [], if◌then◌else◌, List, ◌==◌, Option, Bytes, some, false, ap,
  true, ◌++◌, ◌≡◌, ℕ, ◌∙◌, arith, false, true, some,
}

-- The session after the response, which was encoded as these datagrams.
abbrev pub answered : Session → Message → List Bytes → Session
answered self message datagrams = record self {
  sent = self.sent ++ framed self datagrams;
  last_response = some (message.id, datagrams);
}

abbrev pub with_response : Message → List Bytes → Session → Session
with_response message datagrams self = record self { last_response = some (message.id, datagrams) }

framed-with_reassembler :
    (self : Session) (r : Reassembler) (datagrams : List Bytes)
    → framed (with_reassembler self r) datagrams ≡ framed self datagrams
unfolding nat
framed-with_reassembler self r [] = refl
framed-with_reassembler self r (bytes ∷ others) =
    ap (◌∷◌ (if nat self then non_esp_marker ++ bytes else bytes))
      (framed-with_reassembler self r others)

-- Sending again, when the packet opened.
resend_to-framed :
    (self : Session) (opened : Session × Result (Option (List RawPayload))) (datagrams : List Bytes)
    → opened.0 ≡ with_reassembler self opened.0.reassembler
    → resend_to opened datagrams ≡ record self {
      reassembler = opened.0.reassembler;
      sent = if is_ok opened.1 then self.sent ++ framed self datagrams else self.sent;
    }
unfolding nat
resend_to-framed self (after, err why) datagrams h = h
resend_to-framed self (after, ok found) datagrams h = rw h (
    send_all-framed (with_reassembler self after.reassembler) datagrams
    ∙ ap (λ sent. with_sent (with_reassembler self after.reassembler) (self.sent ++ sent))
        (framed-with_reassembler self after.reassembler datagrams))

-- When a packet comes with the number of the request that was answered last, of this IKE SA, the
-- datagrams of the response go out again, each the same, exactly if the packet, or the fragment, opens
-- under the keys of the session. It is never handled a second time, and of the session nothing else
-- changes but what the reassembler keeps of a fragment.
pub handle_packet_again :
    (lib : Primitives) (randoms : ℕ → Bytes) (self : Session) (message : Message)
    (datagrams : List Bytes) (packet : Packet)
    → encode_message lib randoms self message ≡ ok datagrams
    → packet.header.is_response ≡ false
    → is_ours self packet.header ≡ true
    → packet.header.message_id ≡ message.id
    → message.id ≡ wrapping_last self.peer_message_id
    → let after = answered self message datagrams in
      let opened = open_request lib after packet in
      (respond lib randoms self message ≡ ok after)
      × (handle_packet lib after packet ≡ (
        record after {
          reassembler = opened.0.reassembler;
          sent = if is_ok opened.1 then after.sent ++ framed self datagrams else after.sent;
        },
        nothing,
      ))
unfolding handle_packet respond resend
handle_packet_again lib randoms self message datagrams packet coded fresh ours same last =
    let n = self.peer_message_id in
    let after = answered self message datagrams in
    let opened = open_request lib after packet in
    let id = packet.header.message_id in
    let kept : response_to id after.last_response ≡ some datagrams = ground (arith, same) in
    let retried : (id == wrapping_last n) ≡ true = ground (arith, same, last) in
    (
      rw coded (ap ok (ap (with_response message datagrams) (send_all-framed self datagrams))),
      rw (fresh, ours, retried, kept)
          (ap (λ s. (s, nothing))
            (resend_to-framed after opened datagrams (open_request-Rests lib after packet))),
    )
