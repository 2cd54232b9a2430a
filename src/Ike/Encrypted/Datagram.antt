-- ===== src/Ike/Encrypted/Datagram.antt =====
-- `Message::seal` of message/mod.rs: the datagram is parsed and decrypted by the peer.
use openfortivpn_rs.Ike.Header.RoundTrip.{IsHeader, length-encode_header}
use openfortivpn_rs.Ike.Bytes.{len16, len8}
use openfortivpn_rs.Ike.Header.{encode_header, header_len}
use openfortivpn_rs.Ike.Cipher.Sealing.{seal-Opens, seal_behind}
use openfortivpn_rs.Ike.Encrypted.RoundTrip.{
  decrypt_packet-sealed, packet_of, parse_packet-encrypted, padded_more, length-plaintext_of,
  decrypted, AreNumbers,
}
use openfortivpn_rs.Ike.Cipher.Laws.{IsCipher, CipherLaws}
use openfortivpn_rs.Ike.Packet.{
  header, header_with, parse_packet, skf_kind, Packet, sk_kind, Message,
}
use openfortivpn_rs.Ike.Encrypted.{
  tag_len, seal_with, padded_len, head_of, decrypt_packet, payload_len_of, plaintext_of, counted_iv,
  seal_message, fragment_bytes, sealed_kind, Keys,
}
use openfortivpn_rs.Ike.Cipher.{
  block_len, chacha20_poly1305, hmac_sha512_256, hmac_sha384_192, hmac_sha256_128, aes_gcm16,
  hmac_sha1_96, aes_cbc, hmac_md5_96, key_len, is_aead, icv_len, no_integrity, mac_len, iv_len,
  Primitives, Integrity, Cipher,
}
use openfortivpn_rs.Ike.Result.{ok}
use openfortivpn_rs.Prelude.{
  append_assoc, sym, if_elim, ap, ◌∙◌, ◌∷◌, length-append, be16, ◌%◌, ◌∷◌, lt→ltb, if◌then◌else◌,
  length, refl, ◌^◌, false, ◌-◌, ℕ, true, ◌≡◌, arith, ◌<◌, ◌||◌, none, Bool, ◌++◌, ◌≤◌, Option,
  some, Bytes, [], ◌==◌, ◌+◌, false, true, some, none, refl, [],
}

-- The keys of a direction that a cipher takes, with no integrity algorithm beside an AEAD.
pub record AreKeys (keys : Keys) : Type 0 where
  pub cipher_known : IsCipher keys.cipher
  pub key_fits : length keys.encryption ≡ key_len keys.cipher
  pub alone : is_aead keys.cipher ≡ true → keys.integrity ≡ no_integrity

-- What the header holds of a message fits it.
pub record HasIds (m : Message) : Type 0 where
  pub initiator_fits : m.initiator_spi < 2 ^ 64
  pub responder_fits : m.responder_spi < 2 ^ 64
  pub id_fits : m.id < 2 ^ 32

-- A datagram is sealed, and parsed and decrypted to what it carries.
abbrev pub Carries :
    Primitives → Bytes → Message → Keys → ℕ → Bytes → Option (ℕ × ℕ) → Bytes → Type 0
Carries lib random self keys next plain fragment bytes =
    (seal_message lib random self keys next plain fragment ≡ ok bytes)
    × ((packet : Packet) × (parse_packet bytes ≡ ok packet)
        × (packet.header.message_id ≡ self.id)
        × (decrypt_packet lib keys packet ≡ ok (decrypted next plain fragment)))

mac_len_small : (integrity : Integrity) → mac_len integrity ≤ 32
mac_len_small no_integrity = omega arith
mac_len_small hmac_md5_96 = omega arith
mac_len_small hmac_sha1_96 = omega arith
mac_len_small hmac_sha256_128 = omega arith
mac_len_small hmac_sha384_192 = omega arith
mac_len_small hmac_sha512_256 = omega arith

iv_size :
    (aead : Bool) (counted random : Bytes)
    → length counted ≡ 8
    → length random ≡ 16
    → length (if aead then counted else random) ≡ (if aead then 8 else 16)
iv_size true counted random c r = c
iv_size false counted random c r = r

length-counted_iv :
    (self : Message) (fragment : Option (ℕ × ℕ)) → length (counted_iv self fragment) ≡ 8
length-counted_iv self fragment = refl

length-fragment_bytes : (fragment : Option (ℕ × ℕ)) → length (fragment_bytes fragment) ≤ 4
length-fragment_bytes none = omega arith
length-fragment_bytes (some (number, total)) = omega arith

sealed_kind_encrypted :
    (fragment : Option (ℕ × ℕ))
    → (sealed_kind fragment == sk_kind) || (sealed_kind fragment == skf_kind) ≡ true
sealed_kind_encrypted none = refl
sealed_kind_encrypted (some (number, total)) = refl

tag_len-mac_len :
    (keys : Keys) → is_aead keys.cipher ≡ false → tag_len keys ≡ mac_len keys.integrity
tag_len-mac_len keys cbc = ground (arith, cbc)

tag_len_small : (keys : Keys) → tag_len keys ≤ icv_len keys.cipher + mac_len keys.integrity
tag_len_small keys =
    if_elim {A = ℕ} (λ n. n ≤ icv_len keys.cipher + mac_len keys.integrity) (is_aead keys.cipher) _
      _ (λ _. omega arith) (λ _. omega arith)

sizes_small : (cipher : Cipher) → (iv_len cipher ≤ 16) × (icv_len cipher ≤ 16)
sizes_small (aes_cbc bits) = omega arith
sizes_small (aes_gcm16 bits) = omega arith
sizes_small chacha20_poly1305 = omega arith

module _ (lib : Primitives) (laws : CipherLaws lib) (self : Message) (keys : Keys)
    (random : Bytes) where
  -- The tests of `seal` on lengths, and then the sealing.
  seal_with_sealed :
      (next : ℕ) (plain : Bytes) (fragment : Option (ℕ × ℕ)) (iv bytes : Bytes)
      (pad_len payload_len : ℕ)
      → pad_len < 2 ^ 8
      → payload_len < 2 ^ 16
      → seal_behind lib keys.cipher keys.integrity keys.encryption keys.integrity_key
          (head_of self next fragment payload_len)
          iv
          (plaintext_of keys.cipher plain)
        ≡ ok bytes
      → seal_with lib self keys next plain fragment iv pad_len payload_len ≡ ok bytes
  unfolding seal_with header len8 len16
  seal_with_sealed next plain fragment iv bytes pad_len payload_len p l s =
      rw
        (
          lt→ltb pad_len (2 ^ 8) p,
          lt→ltb (header_len + payload_len) (2 ^ 32) (omega (arith, l)),
          lt→ltb payload_len (2 ^ 16) l,
        )
        s

  pub seal_message-Carries :
      (next : ℕ) (plain : Bytes) (fragment : Option (ℕ × ℕ))
      → AreKeys keys
      → HasIds self
      → length random ≡ 16
      → AreNumbers fragment
      → length plain + 100 < 2 ^ 16
      → (bytes : Bytes) × Carries lib random self keys next plain fragment bytes
  seal_message-Carries next plain fragment k ids r n small =
      let c = keys.cipher in
      let iv = if is_aead c then counted_iv self fragment else random in
      let m = plaintext_of c plain in
      let fb = fragment_bytes fragment in
      let payload_len = payload_len_of keys fragment iv plain in
      let head = head_of self next fragment payload_len in
      let h = header_with self (sealed_kind fragment) (header_len + payload_len) in
      let front = encode_header h [] in
      let iv_fits : length iv ≡ iv_len c =
        iv_size (is_aead c) (counted_iv self fragment) random refl r in
      let m_size = length-plaintext_of c plain in
      let pads = padded_more c (length plain) in
      let sizes = sizes_small c in
      let tag = mac_len_small keys.integrity in
      let numbered = length-fragment_bytes fragment in
      let fits : payload_len < 2 ^ 16 =
        omega (arith, iv_fits, m_size, pads.1, sizes.0, sizes.1, tag, numbered, small) in
      let o =
        seal-Opens lib laws c keys.integrity keys.encryption keys.integrity_key head iv m
          (tag_len keys) k.cipher_known k.key_fits k.alone (tag_len-mac_len keys) iv_fits
          (ap (λ n. n % block_len c) m_size ∙ pads.2) (omega (arith, m_size, pads.1, small)) in
      let body = o.0 in
      let part = next ∷ 0 ∷ (be16 payload_len ++ fb) in
      let front_size : length front ≡ header_len = length-encode_header h in
      let head_size : length head ≡ 32 + length fb =
        omega (arith, length-append front part, front_size) in
      let whole = o.3 in
      let rest_size : payload_len ≡ 4 + length (fb ++ body) =
        omega (arith, whole, length-append fb body, length-append head body, head_size, iv_fits) in
      let good : IsHeader h = record {
        initiator_fits = ids.initiator_fits;
        responder_fits = ids.responder_fits;
        message_id_fits = ids.id_fits;
        length_fits = omega (arith, fits);
      } in
      let shape : head ++ body
          ≡ front ++ (next ∷ 0 ∷ (be16 (4 + length (fb ++ body)) ++ (fb ++ body))) =
        append_assoc front part body
        ∙ ap (λ l. front ++ (next ∷ 0 ∷ (be16 l ++ (fb ++ body)))) rest_size in
      let parsed =
        parse_packet-encrypted h next (fb ++ body) good (sealed_kind_encrypted fragment)
          (ap (λ l. header_len + l) rest_size) (omega (arith, rest_size, fits)) in
      let packet = packet_of h (sealed_kind fragment) (fb ++ body) in
      (
        head ++ body,
        (
          unfold seal_message in
              seal_with_sealed next plain fragment iv (head ++ body)
                (padded_len (length plain) c - length plain - 1) payload_len (omega (arith, pads.1))
                fits o.1,
          (
            packet (head ++ body),
            ap parse_packet shape ∙ parsed ∙ ap (λ raw. ok (packet raw)) (sym shape),
            refl,
            decrypt_packet-sealed lib keys h front next payload_len (fb ++ body) fragment body plain
                front_size n o.2 (omega (arith, whole, tag_len_small keys)),
          ),
        ),
      )
