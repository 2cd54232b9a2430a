-- ===== src/Ike/Session/Forged.antt =====
-- What `handle_packet` of crates/ikev2/src/session.rs does with a packet that nobody vouches for.
use openfortivpn_rs.Ike.Bytes.Orderly.{IsOrderly, IsReturned}
use openfortivpn_rs.Ike.Cipher.Laws.{IsCipher}
use openfortivpn_rs.Ike.Encrypted.{decrypt_packet}
use openfortivpn_rs.Ike.Encrypted.Total.{decrypt_packet-IsOrderly, parse_packet-IsParsed, IsParsed}
use openfortivpn_rs.Ike.KeySchedule.{IkeKeys}
use openfortivpn_rs.Ike.Payload.{RawPayload}
use openfortivpn_rs.Ike.Packet.{parse_packet, Packet}
use openfortivpn_rs.Ike.Session.Requests.{
  take_request, response_to, wrapping_last, is_ours, Taken, nothing, drop_or_fail, resend,
  handle_packet,
}
use openfortivpn_rs.Ike.Session.{request_under, open_request, Session}
use openfortivpn_rs.Ike.Cipher.{Primitives}
use openfortivpn_rs.Ike.Result.{
  unencrypted_request, panicked, before_keys, crypto, malformed, out_of_fuel, Error, Result, err,
  ok,
}
use openfortivpn_rs.Prelude.{
  some, refl, ◌≡◌, subst, Option, is_some, Bytes, not, inl, ◌∙◌, inr, ◌⊎◌, ap, if_elim, List, none,
  ◌==◌, some, none, inr, inl, refl,
}

-- No keys of the session open the packet: it has none, or the packet is in the clear, or decryption
-- fails.
abbrev pub IsForged : Primitives → Packet → Option IkeKeys → Type 0
IsForged lib packet none = Unit
IsForged lib packet (some keys) =
    (packet.encrypted_at ≡ none)
    ⊎ ((found : Error) × (decrypt_packet lib keys.inbound packet ≡ err found))

-- The keys are of a cipher that decrypts.
abbrev pub AreUsed : Option IkeKeys → Type 0
AreUsed none = Unit
AreUsed (some keys) = IsCipher keys.inbound.cipher

drop_or_fail-nothing : (e : Error) → IsReturned e → drop_or_fail e ≡ nothing
drop_or_fail-nothing (malformed why) h = refl
drop_or_fail-nothing (crypto n) h = refl
drop_or_fail-nothing panicked h = absurd h
drop_or_fail-nothing out_of_fuel h = absurd h

abbrev IsRefused : Session → Session × Result (Option (List RawPayload)) → Type 0
IsRefused self opened =
    (found : Error) × (opened ≡ (self, err found)) × (drop_or_fail found ≡ nothing)

request_under-IsRefused :
    (lib : Primitives) (self : Session) (packet : Packet) (keys : Option IkeKeys)
    → IsParsed packet
    → AreUsed keys
    → IsForged lib packet keys
    → IsRefused self (request_under lib self packet keys)
request_under-IsRefused lib self packet none parsed used h = (malformed before_keys, refl, refl)
request_under-IsRefused lib self packet (some keys) parsed used (inl clear) =
    (malformed unencrypted_request, rw clear refl, refl)
request_under-IsRefused lib self packet (some keys) parsed used (inr bad) =
    let returned : IsReturned bad.0 =
      subst IsOrderly bad.1 (decrypt_packet-IsOrderly lib keys.inbound packet used parsed) in
    if_elim (IsRefused self) (is_some packet.encrypted_at) _ _
      (λ _. (bad.0, rw bad.1 refl, drop_or_fail-nothing bad.0 returned))
      (λ _. (malformed unencrypted_request, refl, refl))

resend-IsRefused :
    (lib : Primitives) (self : Session) (packet : Packet) (datagrams : Option (List Bytes))
    → IsRefused self (open_request lib self packet)
    → resend lib self packet datagrams ≡ self
unfolding resend
resend-IsRefused lib self packet none h = refl
resend-IsRefused lib self packet (some datagrams) h = rw h.1 refl

-- A datagram that is parsed, but that the keys of the session do not open, since the session has none,
-- the packet is in the clear, or decryption fails, leaves the session as it is, whatever its header
-- says: no request is let through, nothing is sent, no number is used up, and the session goes on,
-- whatever the error is. The cipher of the keys is one that the configuration knows.
pub handle_packet_forged :
    (lib : Primitives) (self : Session) (bytes : Bytes) (packet : Packet)
    → parse_packet bytes ≡ ok packet
    → AreUsed self.keys
    → IsForged lib packet self.keys
    → handle_packet lib self packet ≡ (self, nothing)
unfolding handle_packet open_request
handle_packet_forged lib self bytes packet parsed used forged =
    let n = self.peer_message_id in
    let id = packet.header.message_id in
    let refused =
      request_under-IsRefused lib self packet self.keys (parse_packet-IsParsed bytes packet parsed)
        used forged in
    let Same = λ (outcome : Session × Taken). outcome ≡ (self, nothing) in
    if_elim Same packet.header.is_response _ _ (λ _. refl)
      (λ _.
        if_elim Same (not (is_ours self packet.header)) _ _ (λ _. refl)
          (λ _.
            if_elim Same (id == wrapping_last n) _ _
              (λ _.
                ap (λ s. (s, nothing))
                  (resend-IsRefused lib self packet (response_to id self.last_response) refused))
              (λ _.
                if_elim Same (not (id == n)) _ _ (λ _. refl)
                  (λ _.
                    ap (take_request packet.header) refused.1
                    ∙ ap (λ taken. (self, taken)) refused.2))))
