-- ===== src/Ike/Encrypted/RoundTrip.antt =====
-- A datagram of message/mod.rs that carries a plaintext, sealed, parsed and decrypted.
use openfortivpn_rs.Ike.Payload.{RawPayload}
use openfortivpn_rs.Ike.Reassembler.{Decrypted}
use openfortivpn_rs.Ike.Bytes.Laws.{u16_put}
use openfortivpn_rs.Ike.Cipher.Sealing.{open_behind, front_split}
use openfortivpn_rs.Ike.Bytes.{skip}
use openfortivpn_rs.Ike.Esp.Padding.{split_last-append}
use openfortivpn_rs.Ike.Header.RoundTrip.{
  decode_header-encode_header, length-encode_header, IsHeader,
}
use openfortivpn_rs.Ike.Header.{encode_header, header_len, Header}
use openfortivpn_rs.Ike.Esp.{split_last}
use openfortivpn_rs.Ike.Packet.{
  Packet, packet_loop, encrypted_part, skf_kind, sk_kind, parse_packet,
}
use openfortivpn_rs.Ike.Encrypted.{
  fragment_bytes, read_numbers, decrypt_at, tag_len, sealed_kind, decrypt_packet, Keys,
  plaintext_of, padded_len, unpad_message,
}
use openfortivpn_rs.Ike.Cipher.{
  iv_len, Primitives, chacha20_poly1305, aes_gcm16, aes_cbc, block_len, Cipher,
}
use openfortivpn_rs.Ike.Result.{ok}
use openfortivpn_rs.Prelude.{
  zeros, length-zeros, get_or-append, leb, drop, subst, ltb, get_or, false, sym, false, ◌∙◌, List,
  none, none, length, refl, take-append, arith, ℕ, true, append_assoc, ◌≡◌, be16, ◌<◌, ◌∷◌, ◌++◌,
  ◌%◌, ◌||◌, ◌+◌, Option, length-append, [], ap, ◌^◌, suc, Bytes, ◌-◌, some, ◌≤◌, ◌==◌, true, some,
  refl, suc, ◌∷◌, [],
}

-- A block of padding at most.
pub padded_more :
    (cipher : Cipher) (len : ℕ)
    → (len + 1 ≤ padded_len len cipher)
      × (padded_len len cipher ≤ len + 16)
      × (padded_len len cipher % block_len cipher ≡ 0)
padded_more (aes_cbc bits) len = omega arith
padded_more (aes_gcm16 bits) len = omega arith
padded_more chacha20_poly1305 len = omega arith

pub length-plaintext_of :
    (cipher : Cipher) (plain : Bytes)
    → length (plaintext_of cipher plain) ≡ padded_len (length plain) cipher
length-plaintext_of cipher plain =
    let n = padded_len (length plain) cipher - length plain - 1 in
    omega (
      arith,
      length-append plain (zeros n ++ n ∷ []),
      length-append (zeros n) (n ∷ []),
      length-zeros n,
      padded_more cipher (length plain),
    )

unpad_message-plaintext_of :
    (cipher : Cipher) (plain : Bytes) (next : ℕ) (fragment : Option (ℕ × ℕ))
    → unpad_message next fragment (split_last (plaintext_of cipher plain))
      ≡ ok (record { next_payload = next; inner = plain; fragment = fragment })
unfolding unpad_message
unpad_message-plaintext_of cipher plain next fragment =
    let n = padded_len (length plain) cipher - length plain - 1 in
    let body = plain ++ zeros n in
    let size = length-append plain (zeros n) in
    let pads = length-zeros n in
    let shape : plain ++ (zeros n ++ n ∷ []) ≡ body ++ n ∷ [] = simp append_assoc in
    let left : length body - n ≡ length plain = omega arith in
    rw (shape, split_last-append body n) (rw (left, take-append plain (zeros n)) (ground arith))

skip_two : (a b : ℕ) (r : Bytes) → skip 2 (a ∷ b ∷ r) ≡ ok (tt, r)
unfolding skip
skip_two a b r = ground arith

encrypted_part-rest :
    (kind next : ℕ) (front rest : Bytes)
    → length front ≡ header_len
    → 4 + length rest < 2 ^ 16
    → encrypted_part kind header_len [] (front ++ (next ∷ 0 ∷ (be16 (4 + length rest) ++ rest)))
      ≡ ok (record { kind = kind; body = rest } ∷ [], some header_len)
unfolding encrypted_part
encrypted_part-rest kind next front rest size small =
    let tail = next ∷ 0 ∷ (be16 (4 + length rest) ++ rest) in
    let bytes = front ++ tail in
    let long = length-append front tail in
    ground (
      arith,
      size,
      long,
      (front_split header_len front tail size).1,
      (front_split 32 (front ++ (next ∷ 0 ∷ be16 (4 + length rest))) rest
          (omega (arith, size, length-append front (next ∷ 0 ∷ be16 (4 + length rest))))).1,
      append_assoc front (next ∷ 0 ∷ be16 (4 + length rest)) rest,
      skip_two next 0 (be16 (4 + length rest) ++ rest),
      u16_put (4 + length rest) rest,
    )

packet_loop-encrypted :
    (fuel kind : ℕ) (bytes : Bytes) (found : List RawPayload × Option ℕ)
    → (kind == sk_kind) || (kind == skf_kind) ≡ true
    → encrypted_part kind header_len [] bytes ≡ ok found
    → packet_loop (suc fuel) kind header_len [] bytes ≡ ok found
unfolding packet_loop
packet_loop-encrypted fuel kind bytes found k e = ground (arith, e)

-- A packet whose only payload is an Encrypted one.
pub parse_packet-encrypted :
    (h : Header) (next : ℕ) (rest : Bytes)
    → IsHeader h
    → (h.next_payload == sk_kind) || (h.next_payload == skf_kind) ≡ true
    → h.length ≡ header_len + (4 + length rest)
    → 4 + length rest < 2 ^ 16
    → let bytes = encode_header h [] ++ (next ∷ 0 ∷ (be16 (4 + length rest) ++ rest)) in
      parse_packet bytes
      ≡ ok (record {
        header = h;
        payloads = record { kind = h.next_payload; body = rest } ∷ [];
        raw = bytes;
        encrypted_at = some header_len;
      })
unfolding parse_packet
parse_packet-encrypted h next rest good kind size small =
    let front = encode_header h [] in
    let tail = next ∷ 0 ∷ (be16 (4 + length rest) ++ rest) in
    let bytes = front ++ tail in
    let front_size : length front ≡ header_len = length-encode_header h in
    let whole : length bytes ≡ h.length =
      omega (arith, length-append front tail, front_size, size) in
    let fuel : length bytes + 1 ≡ suc (length bytes) = omega arith in
    let loop : packet_loop (length bytes + 1) h.next_payload header_len [] bytes
        ≡ ok (record { kind = h.next_payload; body = rest } ∷ [], some header_len) =
      ap (λ n. packet_loop n h.next_payload header_len [] bytes) fuel
      ∙ packet_loop-encrypted (length bytes) h.next_payload bytes _ kind
          (encrypted_part-rest h.next_payload next front rest front_size small) in
    rw (decode_header-encode_header h tail good, loop, whole) (ground arith)

abbrev pub AreNumbers : Option (ℕ × ℕ) → Type 0
AreNumbers none = Unit
AreNumbers (some (number, total)) = (number < 2 ^ 16) × (total < 2 ^ 16)

abbrev pub decrypted : ℕ → Bytes → Option (ℕ × ℕ) → Decrypted
decrypted next plain fragment = record { next_payload = next; inner = plain; fragment = fragment }

read_numbers-fragment_bytes :
    (number total : ℕ) (r : Bytes)
    → number < 2 ^ 16
    → total < 2 ^ 16
    → read_numbers (be16 number ++ (be16 total ++ r)) ≡ ok (number, total)
unfolding read_numbers
read_numbers-fragment_bytes number total r n t =
    rw (u16_put number (be16 total ++ r) n, u16_put total r t) refl

-- The packet of a datagram: a header, then the head of the Encrypted payload, then its body.
abbrev pub packet_of : Header → ℕ → Bytes → Bytes → Packet
packet_of h kind rest raw = record {
  header = h;
  payloads = record { kind = kind; body = rest } ∷ [];
  raw = raw;
  encrypted_at = some header_len;
}

module _ (lib : Primitives) (keys : Keys) where
  decrypt_at-plaintext_of :
      (raw : Bytes) (next : ℕ) (fragment : Option (ℕ × ℕ)) (iv_at : ℕ) (plain : Bytes)
      → open_behind lib keys.cipher keys.integrity keys.encryption keys.integrity_key iv_at
          (tag_len keys)
          raw
        ≡ ok (plaintext_of keys.cipher plain)
      → iv_at + iv_len keys.cipher + tag_len keys ≤ length raw
      → decrypt_at lib keys raw next fragment iv_at ≡ ok (decrypted next plain fragment)
  unfolding decrypt_at
  decrypt_at-plaintext_of raw next fragment iv_at plain o long =
      let enough : ltb (length raw) (iv_at + iv_len keys.cipher + tag_len keys) ≡ false =
        ground (arith, long) in
      rw (enough, o) (unpad_message-plaintext_of keys.cipher plain next fragment)

  pub decrypt_packet-sealed :
      (h : Header) (front : Bytes) (next payload_len : ℕ) (rest : Bytes) (fragment : Option (ℕ × ℕ))
      (body plain : Bytes)
      → length front ≡ header_len
      → AreNumbers fragment
      → let head = front ++ (next ∷ 0 ∷ (be16 payload_len ++ fragment_bytes fragment)) in
        let raw = head ++ body in
        open_behind lib keys.cipher keys.integrity keys.encryption keys.integrity_key
            (length head)
            (tag_len keys)
            raw
          ≡ ok (plaintext_of keys.cipher plain)
        → length head + iv_len keys.cipher + tag_len keys ≤ length raw
        → decrypt_packet lib keys (packet_of h (sealed_kind fragment) rest raw)
          ≡ ok (decrypted next plain fragment)
  unfolding decrypt_packet
  decrypt_packet-sealed h front next payload_len rest none body plain size n o long =
      let head = front ++ (next ∷ 0 ∷ (be16 payload_len ++ [])) in
      let raw = head ++ body in
      let at : length head ≡ 32 =
        omega (arith, size, length-append front (next ∷ 0 ∷ (be16 payload_len ++ []))) in
      let first : get_or raw 28 0 ≡ next =
        ap (λ i. get_or raw i 0) (sym size)
        ∙ ap (λ bytes. get_or bytes (length front) 0)
            (append_assoc front (next ∷ 0 ∷ (be16 payload_len ++ [])) body)
        ∙ get_or-append front next (0 ∷ (be16 payload_len ++ body)) 0 in
      let long_raw : ltb 28 (length raw) ≡ true = ground (arith, at, long) in
      let opened =
        subst
          (λ iv_at.
            open_behind lib keys.cipher keys.integrity keys.encryption keys.integrity_key iv_at
              (tag_len keys) raw
            ≡ ok (plaintext_of keys.cipher plain))
          at o in
      rw (long_raw, first)
        (decrypt_at-plaintext_of raw next none 32 plain opened (omega (arith, at, long)))
  decrypt_packet-sealed h front next payload_len rest (some (number, total)) body plain size n o
        long =
      let numbers = be16 number ++ be16 total in
      let part = next ∷ 0 ∷ (be16 payload_len ++ numbers) in
      let head = front ++ part in
      let raw = head ++ body in
      let at : length head ≡ 36 = omega (arith, size, length-append front part) in
      let first : get_or raw 28 0 ≡ next =
        ap (λ i. get_or raw i 0) (sym size)
        ∙ ap (λ bytes. get_or bytes (length front) 0) (append_assoc front part body)
        ∙ get_or-append front next (0 ∷ (be16 payload_len ++ (numbers ++ body))) 0 in
      let long_raw : ltb 28 (length raw) ≡ true = ground (arith, at, long) in
      let later : leb 32 (length raw) ≡ true = ground (arith, at, long) in
      let before = front ++ (next ∷ 0 ∷ be16 payload_len) in
      let shape : raw ≡ before ++ (numbers ++ body) = simp append_assoc in
      let left : drop 32 raw ≡ be16 number ++ (be16 total ++ body) =
        ap (drop 32) shape
        ∙ (front_split 32 before (numbers ++ body)
            (omega (arith, size, length-append front (next ∷ 0 ∷ be16 payload_len)))).1 in
      let read : read_numbers (drop 32 raw) ≡ ok (number, total) =
        ap read_numbers left ∙ read_numbers-fragment_bytes number total body n.0 n.1 in
      let opened =
        subst
          (λ iv_at.
            open_behind lib keys.cipher keys.integrity keys.encryption keys.integrity_key iv_at
              (tag_len keys) raw
            ≡ ok (plaintext_of keys.cipher plain))
          at o in
      rw (long_raw, first, later, read)
        (decrypt_at-plaintext_of raw next (some (number, total)) 36 plain opened
          (omega (arith, at, long)))
