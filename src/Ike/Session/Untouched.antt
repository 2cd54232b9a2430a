-- ===== src/Ike/Session/Untouched.antt =====
-- What sending datagrams and opening a packet leave as it is, of the session of
-- crates/ikev2/src/session.rs.
use openfortivpn_rs.Ike.Encrypted.{decrypt_packet}
use openfortivpn_rs.Ike.KeySchedule.{IkeKeys}
use openfortivpn_rs.Ike.Payload.{RawPayload}
use openfortivpn_rs.Ike.Packet.{Packet}
use openfortivpn_rs.Ike.Reassembler.{add, Decrypted, Reassembler}
use openfortivpn_rs.Ike.Cipher.{Primitives}
use openfortivpn_rs.Ike.Session.{
  gathered, request_under, of_answer, send_all, non_esp_marker, nat, Session, open_request,
  send_datagram,
}
use openfortivpn_rs.Ike.Result.{Result, err, ok}
use openfortivpn_rs.Prelude.{
  if◌then◌else◌, some, ◌∙◌, Bytes, ◌++◌, [], List, append-nil, if_elim, refl, Option, is_some, sym,
  ◌∷◌, none, ℕ, ap, append_assoc, ◌≡◌, some, none, refl, ◌∷◌, [],
}

abbrev pub framed : Session → List Bytes → List Bytes
framed self [] = []
framed self (bytes ∷ others) =
    (if nat self then non_esp_marker ++ bytes else bytes) ∷ framed self others

-- What is sent again says nothing else of the session.
abbrev pub with_sent : Session → List Bytes → Session
with_sent self sent = record self { sent = sent }

pub send_all-framed :
    (self : Session) (datagrams : List Bytes)
    → send_all self datagrams ≡ with_sent self (self.sent ++ framed self datagrams)
unfolding send_datagram nat
send_all-framed self [] = ap (with_sent self) (sym (append-nil self.sent))
send_all-framed self (bytes ∷ others) =
    send_all-framed (send_datagram self bytes) others
    ∙ ap (with_sent self) (append_assoc self.sent _ (framed self others))

-- Opening a packet touches the reassembler alone.
abbrev pub with_reassembler : Session → Reassembler → Session
with_reassembler self r = record self { reassembler = r }

abbrev Rests : Session → Session × Result (Option (List RawPayload)) → Type 0
Rests self opened = opened.0 ≡ with_reassembler self opened.0.reassembler

of_answer-Rests :
    (self : Session) (answer : Reassembler × Result (Option Decrypted))
    → Rests self (of_answer self answer)
of_answer-Rests self (after, answer) = refl

gathered-Rests :
    (self : Session) (id : ℕ) (opened : Result Decrypted) → Rests self (gathered self id opened)
gathered-Rests self id (err why) = refl
gathered-Rests self id (ok decrypted) =
    if_elim {A = Session × Result (Option (List RawPayload))} (Rests self)
      (is_some decrypted.fragment) _ _
      (λ _. of_answer-Rests self (add self.reassembler id decrypted)) (λ _. refl)

request_under-Rests :
    (lib : Primitives) (self : Session) (packet : Packet) (keys : Option IkeKeys)
    → Rests self (request_under lib self packet keys)
request_under-Rests lib self packet none = refl
request_under-Rests lib self packet (some keys) =
    if_elim {A = Session × Result (Option (List RawPayload))} (Rests self)
      (is_some packet.encrypted_at) _ _
      (λ _. gathered-Rests self packet.header.message_id (decrypt_packet lib keys.inbound packet))
      (λ _. refl)

pub open_request-Rests :
    (lib : Primitives) (self : Session) (packet : Packet)
    → (open_request lib self packet).0
      ≡ with_reassembler self (open_request lib self packet).0.reassembler
unfolding open_request
open_request-Rests lib self packet = request_under-Rests lib self packet self.keys
