-- ===== src/Ike/Encrypted/Tests.antt =====
-- Encrypted messages of message/mod.rs with ciphers that are simple enough to compute.
use openfortivpn_rs.Ike.Reassembler.Order.{waits}
use openfortivpn_rs.Ike.Encrypted.Fragments.{
  arrive-encode_encrypted, payloads-encode_encrypted, arrive, opened,
}
use openfortivpn_rs.Ike.Reassembler.{default, payloads, Decrypted}
use openfortivpn_rs.Ike.Cipher.{no_integrity, aes_gcm16}
use openfortivpn_rs.Ike.Cipher.Plain.{plain-laws, plain}
use openfortivpn_rs.Ike.Header.{informational}
use openfortivpn_rs.Ike.Payload.RoundTrip.{IsPayload}
use openfortivpn_rs.Ike.Packet.{Message}
use openfortivpn_rs.Ike.Encrypted.Datagram.{AreKeys, HasIds}
use openfortivpn_rs.Ike.Encrypted.{Keys, encode_encrypted}
use openfortivpn_rs.Ike.Result.{ok}
use openfortivpn_rs.Prelude.{
  zeros, length, inl, some, ◌++◌, All, List, false, [], ◌∷◌, ◌≡◌, true, refl, arith, Bytes, false,
  true, some, inl, refl, ◌∷◌, [],
}

abbrev keys : Keys
keys = record {
  cipher = aes_gcm16 128;
  integrity = no_integrity;
  encryption =
      1 ∷ 2 ∷ 3 ∷ 4 ∷ 5 ∷ 6 ∷ 7 ∷ 8 ∷ 9 ∷ 10 ∷ 11 ∷ 12 ∷ 13 ∷ 14 ∷ 15 ∷ 16 ∷ 17 ∷ 18 ∷ 19 ∷ 20 ∷ [];
  integrity_key = [];
}

-- INFORMATIONAL with one payload of twenty bytes.
abbrev notice : Message
notice = record {
  exchange = informational;
  is_response = false;
  from_initiator = true;
  id = 5;
  initiator_spi = 17;
  responder_spi = 18;
  payloads =
      record {
        kind = 41;
        body =
            1 ∷ 2 ∷ 3 ∷ 4 ∷ 5 ∷ 6 ∷ 7 ∷ 8 ∷ 9 ∷ 10 ∷ 11 ∷ 12 ∷ 13 ∷ 14 ∷ 15 ∷ 16 ∷ 17 ∷ 18 ∷ 19 ∷ 20
            ∷ [];
      }
      ∷ [];
}

keys-AreKeys : AreKeys keys
keys-AreKeys = record { cipher_known = inl refl; key_fits = refl; alone = λ _. refl }

notice-HasIds : HasIds notice
notice-HasIds = record {
  initiator_fits = omega arith;
  responder_fits = omega arith;
  id_fits = omega arith;
}

notice-IsPayload : All IsPayload notice.payloads
notice-IsPayload = (record { not_none = λ e. cc e; body_fits = omega arith }, tt)

payloads-encode_encrypted_example :
    (bytes : Bytes) × (encode_encrypted plain (λ _. zeros 16) notice keys (some 1280)
      ≡ ok (bytes ∷ []))
    × ((found : Decrypted) × (opened plain keys bytes ≡ ok (5, found))
        × (payloads found ≡ ok notice.payloads))
payloads-encode_encrypted_example =
    payloads-encode_encrypted plain (λ _. zeros 16) notice keys (some 1280) plain-laws keys-AreKeys
      notice-HasIds refl notice-IsPayload (omega arith) refl

-- In chunks of eight bytes, of which the second arrives first.
arrive-encode_encrypted_example :
    (datagrams : List Bytes) × (encode_encrypted plain (λ _. zeros 16) notice keys (some 70)
      ≡ ok datagrams)
    × (length datagrams ≡ 3)
    × ((found : Decrypted) × (payloads found ≡ ok notice.payloads)
        × (arrive plain keys datagrams default (2 ∷ 3 ∷ 1 ∷ [])
            ≡ (default, waits 2 ++ ok (some found) ∷ [])))
arrive-encode_encrypted_example =
    arrive-encode_encrypted plain (λ _. zeros 16) notice keys 70 8 default (2 ∷ 3 ∷ 1 ∷ [])
      plain-laws keys-AreKeys notice-HasIds (λ _. refl) notice-IsPayload (omega arith) refl
      (omega arith) (λ e. cc e) (omega arith) (omega arith) refl
