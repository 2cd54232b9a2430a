-- ===== src/Ike/Session/Closing.antt =====
-- What `on_informational` of crates/ikev2/src/session.rs does when the gateway deletes the IKE SA.
use openfortivpn_rs.Ike.Session.Untouched.{send_all-framed, framed}
use openfortivpn_rs.Ike.Session.Again.{with_response, answered}
use openfortivpn_rs.Ike.Encrypted.{whole_len, chunk_len, Keys}
use openfortivpn_rs.Ike.Encrypted.Fragments.{payloads-encode_encrypted, opened}
use openfortivpn_rs.Ike.Reassembler.{payloads, Decrypted}
use openfortivpn_rs.Ike.Header.{informational}
use openfortivpn_rs.Ike.Encrypted.Datagram.{HasIds, AreKeys}
use openfortivpn_rs.Ike.Cipher.Laws.{CipherLaws}
use openfortivpn_rs.Ike.KeySchedule.{IkeKeys}
use openfortivpn_rs.Ike.Packet.{request, response, Message}
use openfortivpn_rs.Ike.Cipher.{
  chacha20_poly1305, hmac_sha512_256, hmac_sha384_192, hmac_sha256_128, aes_gcm16, hmac_sha1_96,
  aes_cbc, hmac_md5_96, no_integrity, Cipher, mac_len, Integrity, Primitives,
}
use openfortivpn_rs.Ike.Payload.{decode_delete, Delete, RawPayload}
use openfortivpn_rs.Ike.Session.{
  fragment_len, tunnel_closed, new_response, Down, encode_message, Session, NextIke,
}
use openfortivpn_rs.Ike.Session.Informational.{
  switch_ike, delete_kind, on_informational, each_payload, end_or_switch, respond,
}
use openfortivpn_rs.Ike.Result.{ok}
use openfortivpn_rs.Prelude.{
  if◌then◌else◌, Bool, true, ◌≤◌, ltb, true, length, ◌≡◌, Bytes, List, ℕ, Option, false, [], arith,
  ap, none, ◌∷◌, ◌++◌, refl, some, false, some, none, refl, ◌∷◌, [],
}

-- The session is down; or the IKE SA that waited is the current one, its numbers at their start.
abbrev pub IsOver : Option NextIke → Session → Type 0
IsOver none after = after.down ≡ some tunnel_closed
IsOver (some next) after =
    (after.keys ≡ some next.keys)
    × (after.spi_i ≡ next.spi_i)
    × (after.spi_r ≡ next.spi_r)
    × (after.initiator ≡ false)
    × (after.message_id ≡ 0)
    × (after.peer_message_id ≡ 0)
    × (after.last_response ≡ none)
    × (after.next_ike ≡ none)

end_or_switch-IsOver :
    (self : Session) (next : Option NextIke)
    → IsOver next (end_or_switch self (some tunnel_closed) next)
unfolding end_or_switch switch_ike
end_or_switch-IsOver self none = refl
end_or_switch-IsOver self (some next) = (refl, refl, refl, refl, refl, refl, refl, refl)

end_or_switch-sent :
    (self : Session) (why : Option Down) (next : Option NextIke)
    → (end_or_switch self why next).sent ≡ self.sent
unfolding end_or_switch switch_ike
end_or_switch-sent self none next = refl
end_or_switch-sent self (some why) none = refl
end_or_switch-sent self (some why) (some next) = refl

abbrev pub deletion : Bytes → List RawPayload
deletion body = record { kind = delete_kind; body = body } ∷ []

respond-answered :
    (lib : Primitives) (randoms : ℕ → Bytes) (self : Session) (message : Message)
    (datagrams : List Bytes)
    → encode_message lib randoms self message ≡ ok datagrams
    → respond lib randoms self message ≡ ok (answered self message datagrams)
unfolding respond
respond-answered lib randoms self message datagrams coded =
    rw coded (ap ok (ap (with_response message datagrams) (send_all-framed self datagrams)))

each_payload-deletion :
    (body : Bytes) (delete : Delete) (self : Session) (answer : Message)
    → decode_delete body ≡ ok delete
    → delete.protocol ≡ 1
    → each_payload (deletion body) (self, answer, none) ≡ ok (self, answer, some tunnel_closed)
unfolding each_payload
each_payload-deletion body delete self answer read closing = rw (read, closing) refl

mac_len_bound : (i : Integrity) → mac_len i ≤ 32
mac_len_bound no_integrity = omega arith
mac_len_bound hmac_md5_96 = omega arith
mac_len_bound hmac_sha1_96 = omega arith
mac_len_bound hmac_sha256_128 = omega arith
mac_len_bound hmac_sha384_192 = omega arith
mac_len_bound hmac_sha512_256 = omega arith

whole_len_small : (keys : Keys) (c : Cipher) → keys.cipher ≡ c → whole_len keys 0 ≤ fragment_len
whole_len_small keys (aes_cbc bits) e = rw e (omega (arith, mac_len_bound keys.integrity))
whole_len_small keys (aes_gcm16 bits) e = rw e (omega (arith, mac_len_bound keys.integrity))
whole_len_small keys chacha20_poly1305 e = rw e (omega (arith, mac_len_bound keys.integrity))

-- An answer with no payloads never comes in fragments.
stays_whole :
    (keys : Keys) (fragments : Bool)
    → chunk_len keys (if fragments then some fragment_len else none) 0 ≡ none
stays_whole keys false = refl
stays_whole keys true =
    let small : ltb fragment_len (whole_len keys 0) ≡ false =
      ground (arith, whole_len_small keys keys.cipher refl) in
    rw small

-- A request whose one payload is a DELETE of the IKE SA, with ciphers that behave as documented and
-- keys of the right size for what we send: it is answered under the keys that the session has, in
-- one datagram that opens there to no payloads, and then the session is down, or the IKE SA that
-- waits takes over with its numbers at their start. It does not matter whether the gateway takes
-- fragments.
pub on_informational_closes :
    (lib : Primitives) (randoms : ℕ → Bytes) (self : Session) (keys : IkeKeys) (id : ℕ)
    (body : Bytes) (delete : Delete)
    → CipherLaws lib
    → self.keys ≡ some keys
    → AreKeys keys.outbound
    → HasIds (new_response self informational id)
    → length (randoms 0) ≡ 16
    → decode_delete body ≡ ok delete
    → delete.protocol ≡ 1
    → (after : Session) × (on_informational lib randoms self id (deletion body) ≡ ok after)
      × IsOver self.next_ike after
      × ((bytes : Bytes) × (after.sent ≡ self.sent ++ framed self (bytes ∷ []))
          × ((found : Decrypted) × (opened lib keys.outbound bytes ≡ ok (id, found))
              × (payloads found ≡ ok [])))
unfolding on_informational encode_message new_response response request
on_informational_closes lib randoms self keys id body delete laws keyed k ids r read closing =
    let answer = new_response self informational id in
    let one =
      payloads-encode_encrypted lib randoms answer keys.outbound
        (if self.peer_fragments then some fragment_len else none) laws k ids r tt (omega arith)
        (stays_whole keys.outbound self.peer_fragments) in
    let coded : encode_message lib randoms self answer ≡ ok (one.0 ∷ []) = rw keyed one.1 in
    let state = answered self answer (one.0 ∷ []) in
    (
      end_or_switch state (some tunnel_closed) self.next_ike,
      rw
          (
            each_payload-deletion body delete self answer read closing,
            respond-answered lib randoms self answer (one.0 ∷ []) coded,
          )
          refl,
      end_or_switch-IsOver state self.next_ike,
      (one.0, end_or_switch-sent state (some tunnel_closed) self.next_ike, one.2),
    )
