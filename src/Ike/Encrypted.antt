-- ===== src/Ike/Encrypted.antt =====
-- crates/ikev2/src/message/mod.rs: `Packet::decrypt`, and the encrypted form of a `Message`, whole or
-- in fragments.
pub mod RoundTrip
pub mod Total
mod Tests
pub mod Fragments
pub mod Chunks
pub mod Datagram
use openfortivpn_rs.Ike.Esp.{split_last}
use openfortivpn_rs.Ike.Reassembler.{Decrypted}
use openfortivpn_rs.Ike.Packet.{bytes_from, header, header_with, skf_kind, Packet, Message, sk_kind}
use openfortivpn_rs.Ike.Header.{encode_header, header_len}
use openfortivpn_rs.Ike.Bytes.{pure, len16, ◌>>=◌, len8, value_of, u16}
use openfortivpn_rs.Ike.Cipher.Sealing.{seal_behind, open_behind}
use openfortivpn_rs.Ike.Cipher.{
  mac_len, icv_len, is_aead, block_len, iv_len, Integrity, Primitives, Cipher,
}
use openfortivpn_rs.Ike.Payload.{none_kind, encode_chain, RawPayload}
use openfortivpn_rs.Ike.Result.{
  expect, bad_padding, too_many_fragments, encrypted_too_short, no_encrypted, empty_encrypted, fail,
  reject, ◌and_then◌, Result, ok,
}
use openfortivpn_rs.Prelude.{
  zeros, take, length, if◌then◌else◌, ltb, false, ◌/◌, drop, Option, not, Bytes, ◌-◌, zero, ◌*◌, [],
  ◌&&◌, ◌++◌, suc, ℕ, ◌+◌, ◌∷◌, be16, Bool, ◌^◌, get_or, List, some, none, ◌==◌, be32, false, some,
  none, suc, zero, ◌∷◌, [],
}

pub record Keys : Type 0 where
  pub cipher : Cipher
  pub integrity : Integrity
  pub encryption : Bytes
  pub integrity_key : Bytes

-- `(len + 1).div_ceil(block) * block`
abbrev pub padded_len : ℕ → Cipher → ℕ
padded_len len cipher = (len + 1 + (block_len cipher - 1)) / block_len cipher * block_len cipher

abbrev pub number_of : Option (ℕ × ℕ) → ℕ
number_of none = 0
number_of (some (number, total)) = number

-- The IV of an AEAD: the message's id, the fragment's number, zero, and the direction.
abbrev pub counted_iv : Message → Option (ℕ × ℕ) → Bytes
counted_iv self fragment =
    be32 self.id ++ (be16 (number_of fragment) ++ 0 ∷ (if self.is_response then 1 else 0) ∷ [])

abbrev pub fragment_bytes : Option (ℕ × ℕ) → Bytes
fragment_bytes none = []
fragment_bytes (some (number, total)) = be16 number ++ be16 total

abbrev pub sealed_kind : Option (ℕ × ℕ) → ℕ
sealed_kind none = sk_kind
sealed_kind (some (number, total)) = skf_kind

abbrev pub plaintext_of : Cipher → Bytes → Bytes
plaintext_of cipher plain =
    let pad_len = padded_len (length plain) cipher - length plain - 1 in
    plain ++ (zeros pad_len ++ pad_len ∷ [])

abbrev pub payload_len_of : Keys → Option (ℕ × ℕ) → Bytes → Bytes → ℕ
payload_len_of keys fragment iv plain =
    4
    + length (fragment_bytes fragment)
    + length iv
    + length (plaintext_of keys.cipher plain)
    + icv_len keys.cipher
    + mac_len keys.integrity

-- What is written before the IV, which an AEAD authenticates.
abbrev pub head_of : Message → ℕ → Option (ℕ × ℕ) → ℕ → Bytes
head_of self next fragment payload_len =
    encode_header (header_with self (sealed_kind fragment) (header_len + payload_len)) []
    ++ (next ∷ 0 ∷ (be16 payload_len ++ fragment_bytes fragment))

-- The checks of `seal` on the lengths, and the sealing behind the head.
unfoldable pub seal_with :
    Primitives → Message → Keys → ℕ → Bytes → Option (ℕ × ℕ) → Bytes → ℕ → ℕ → Result Bytes
unfolding seal_behind len8 len16 header
seal_with lib self keys next plain fragment iv pad_len payload_len = len8 pad_len and_then λ _.
    header self (sealed_kind fragment) (header_len + payload_len) and_then λ _.
    len16 payload_len and_then λ _.
    seal_behind lib keys.cipher keys.integrity keys.encryption keys.integrity_key
      (head_of self next fragment payload_len) iv (plaintext_of keys.cipher plain)

-- `Message::seal`; `random` is the IV that `OsRng` fills for AES-CBC.
unfoldable pub seal_message :
    Primitives → Bytes → Message → Keys → ℕ → Bytes → Option (ℕ × ℕ) → Result Bytes
unfolding seal_with
seal_message lib random self keys next plain fragment =
    let iv = if is_aead keys.cipher then counted_iv self fragment else random in
    seal_with lib self keys next plain fragment iv
      (padded_len (length plain) keys.cipher - length plain - 1)
      (payload_len_of keys fragment iv plain)

-- `chain.chunks(len)`, for a length that is not zero; the size of the chain is enough fuel.
abbrev pub chunks_from : ℕ → ℕ → Bytes → List Bytes
chunks_from zero len chain = []
chunks_from (suc fuel) len [] = []
chunks_from (suc fuel) len (b ∷ chain) =
    take len (b ∷ chain) ∷ chunks_from fuel len (drop len (b ∷ chain))

abbrev pub chunks : ℕ → Bytes → List Bytes
chunks len chain = chunks_from (length chain) len chain

-- The fragments from a number on; `randoms` are the IVs that `OsRng` fills, by number.
unfoldable pub seal_fragments :
    Primitives → (ℕ → Bytes) → Message → Keys → ℕ → ℕ → ℕ → List Bytes → Result (List Bytes)
unfolding seal_message
seal_fragments lib randoms self keys first number total [] = ok []
seal_fragments lib randoms self keys first number total (chunk ∷ others) =
    seal_message lib (randoms number) self keys (if number == 1 then first else none_kind) chunk
      (some (number, total))
    and_then λ datagram.
        seal_fragments lib randoms self keys first (number + 1) total others and_then λ datagrams.
        ok (datagram ∷ datagrams)

abbrev pub overhead : Keys → ℕ
overhead keys =
    header_len
    + 8
    + iv_len keys.cipher
    + block_len keys.cipher
    + 1
    + icv_len keys.cipher
    + mac_len keys.integrity

abbrev pub whole_len : Keys → ℕ → ℕ
whole_len keys len =
    header_len
    + 4
    + iv_len keys.cipher
    + padded_len len keys.cipher
    + icv_len keys.cipher
    + mac_len keys.integrity

-- The length of the chunks, when the message is to come in fragments.
abbrev pub chunk_len : Keys → Option ℕ → ℕ → Option ℕ
chunk_len keys none len = none
chunk_len keys (some limit) len =
    if ltb limit (whole_len keys len) && ltb (overhead keys) limit
    then some (limit - overhead keys)
    else none

unfoldable pub seal_chain :
    Primitives → (ℕ → Bytes) → Message → Keys → ℕ → Bytes → Option ℕ → Result (List Bytes)
unfolding seal_fragments
seal_chain lib randoms self keys first chain none =
    seal_message lib (randoms 0) self keys first chain none and_then λ datagram. ok (datagram ∷ [])
seal_chain lib randoms self keys first chain (some len) =
    let pieces = chunks len chain in
    reject (not (ltb (length pieces) (2 ^ 16))) too_many_fragments and_then λ _.
    seal_fragments lib randoms self keys first 1 (length pieces) pieces

-- `Message::encode_encrypted`
unfoldable pub encode_encrypted :
    Primitives → (ℕ → Bytes) → Message → Keys → Option ℕ → Result (List Bytes)
unfolding seal_chain
encode_encrypted lib randoms self keys max_len = encode_chain self.payloads [] and_then λ chain.
    seal_chain lib randoms self keys chain.1 chain.0 (chunk_len keys max_len (length chain.0))

-- Behind decryption: the padding, then its length.
unfoldable pub unpad_message : ℕ → Option (ℕ × ℕ) → Option (ℕ × Bytes) → Result Decrypted
unpad_message next fragment none = fail empty_encrypted
unpad_message next fragment (some (count, rest)) =
    if ltb (length rest) count
    then fail bad_padding
    else ok (record {
      next_payload = next;
      inner = take (length rest - count) rest;
      fragment = fragment;
    })

abbrev pub tag_len : Keys → ℕ
tag_len keys = if is_aead keys.cipher then icv_len keys.cipher else mac_len keys.integrity

unfoldable pub decrypt_at : Primitives → Keys → Bytes → ℕ → Option (ℕ × ℕ) → ℕ → Result Decrypted
unfolding open_behind unpad_message
decrypt_at lib keys raw next fragment iv_at =
    reject (ltb (length raw) (iv_at + iv_len keys.cipher + tag_len keys)) encrypted_too_short
    and_then λ _.
        open_behind lib keys.cipher keys.integrity keys.encryption keys.integrity_key iv_at
          (tag_len keys) raw
        and_then λ plaintext. unpad_message next fragment (split_last plaintext)

-- `payloads.last().is_some_and(|payload| payload.kind == types::SKF)`
abbrev pub is_fragment : List RawPayload → Bool
is_fragment [] = false
is_fragment (p ∷ []) = p.kind == skf_kind
is_fragment (p ∷ q ∷ ps) = is_fragment (q ∷ ps)

unfoldable pub read_numbers : Bytes → Result (ℕ × ℕ)
unfolding u16
read_numbers r = value_of ((do number ← u16; total ← u16; pure (number, total)) r)

abbrev pub decrypt_from : Primitives → Keys → Packet → Option ℕ → Result Decrypted
decrypt_from lib keys self none = fail no_encrypted
decrypt_from lib keys self (some offset) =
    expect (ltb offset (length self.raw)) (get_or self.raw offset 0) and_then λ next.
    if is_fragment self.payloads
    then (bytes_from (offset + 4) self.raw and_then λ r. read_numbers r and_then λ numbers.
        decrypt_at lib keys self.raw next (some numbers) (offset + 8))
    else decrypt_at lib keys self.raw next none (offset + 4)

-- `Packet::decrypt`
unfoldable pub decrypt_packet : Primitives → Keys → Packet → Result Decrypted
unfolding decrypt_at read_numbers
decrypt_packet lib keys self = decrypt_from lib keys self self.encrypted_at
