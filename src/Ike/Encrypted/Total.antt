-- ===== src/Ike/Encrypted/Total.antt =====
-- `Packet::decrypt` of message/mod.rs on a packet that was parsed from any bytes.
use openfortivpn_rs.Ike.Esp.{split_last}
use openfortivpn_rs.Ike.Reassembler.{Decrypted}
use openfortivpn_rs.Ike.Cipher.Laws.{IsCipher}
use openfortivpn_rs.Ike.Bytes.{skip, ◌>>◌, u16, resume}
use openfortivpn_rs.Ike.Cipher.Sealing.{open_behind}
use openfortivpn_rs.Ike.Encrypted.{
  tag_len, is_fragment, decrypt_from, read_numbers, Keys, unpad_message, decrypt_at, decrypt_packet,
}
use openfortivpn_rs.Ike.Payload.{none_kind, RawPayload}
use openfortivpn_rs.Ike.Header.{header_len, decode_header}
use openfortivpn_rs.Ike.Cipher.{
  chacha20_poly1305, aead_key, aes_gcm16, cbc_key, aes_cbc, iv_len, decrypt_with, check, verify,
  is_aead, key_len, Integrity, Cipher, decrypt, or_failed, ensure, Primitives,
}
use openfortivpn_rs.Ike.Bytes.Orderly.{reject-IsOrderly, and_then-IsOrderly, IsOrderly}
use openfortivpn_rs.Ike.Packet.{
  read_payload, skf_kind, sk_kind, bytes_from, packet_loop, Packet, encrypted_part, parse_packet,
}
use openfortivpn_rs.Ike.Result.{
  header_length, encrypted_not_last, reject, encrypted_too_short, crypto, ◌and_then◌, Result, err,
  ok,
}
use openfortivpn_rs.Prelude.{
  ltb, length, ◌%◌, Bytes, subst, List, true, refl, zero, some, ◌++◌, not, suc, Option, ℕ, if_elim,
  false, ◌∷◌, Bool, ◌≤◌, ◌||◌, [], none, ◌+◌, arith, ◌==◌, ◌≡◌, false, true, some, none, refl, suc,
  zero, ◌∷◌, [],
}

-- Where an Encrypted payload was found, its header is in bounds.
abbrev IsPlaced : ℕ → Option ℕ → Type 0
IsPlaced size none = Unit
IsPlaced size (some offset) = offset + 4 ≤ size

abbrev IsPlacedIn : ℕ → Result (List RawPayload × Option ℕ) → Type 0
IsPlacedIn size (err e) = Unit
IsPlacedIn size (ok (found, place)) = IsPlaced size place

and_then-IsPlacedIn :
    {A : Type 0} (size : ℕ) (m : Result A) (f : A → Result (List RawPayload × Option ℕ))
    → ((a : A) → IsPlacedIn size (f a))
    → IsPlacedIn size (m and_then f)
and_then-IsPlacedIn size (err e) f h = tt
and_then-IsPlacedIn size (ok a) f h = h a

resume-IsPlacedIn :
    {A : Type 0} (size : ℕ) (m : Result (A × Bytes))
    (f : A → Bytes → Result (List RawPayload × Option ℕ))
    → ((a : A) (r : Bytes) → IsPlacedIn size (f a r))
    → IsPlacedIn size (resume f m)
resume-IsPlacedIn size (err e) f h = tt
resume-IsPlacedIn size (ok (a, r)) f h = h a r

abbrev part_of : ℕ → ℕ → List RawPayload → Bytes → ℕ → Result (List RawPayload × Option ℕ)
part_of kind offset found bytes payload_len =
    reject (ltb payload_len 4 || not (offset + payload_len == length bytes)) encrypted_not_last
    and_then λ _. bytes_from (offset + 4) bytes and_then λ body.
        ok (found ++ record { kind = kind; body = body } ∷ [], some offset)

part_of-IsPlacedIn :
    (kind offset : ℕ) (found : List RawPayload) (bytes : Bytes) (payload_len : ℕ)
    → IsPlacedIn (length bytes) (part_of kind offset found bytes payload_len)
part_of-IsPlacedIn kind offset found bytes payload_len = ground arith

encrypted_part-IsPlacedIn :
    (kind offset : ℕ) (found : List RawPayload) (bytes : Bytes)
    → IsPlacedIn (length bytes) (encrypted_part kind offset found bytes)
unfolding encrypted_part
encrypted_part-IsPlacedIn kind offset found bytes =
    and_then-IsPlacedIn (length bytes) (bytes_from offset bytes) _ λ r.
      resume-IsPlacedIn (length bytes) ((do skip 2; u16) r)
        (λ payload_len r'. part_of kind offset found bytes payload_len)
        (λ payload_len r'. part_of-IsPlacedIn kind offset found bytes payload_len)

packet_loop-IsPlacedIn :
    (fuel kind offset : ℕ) (found : List RawPayload) (bytes : Bytes)
    → IsPlacedIn (length bytes) (packet_loop fuel kind offset found bytes)
unfolding packet_loop
packet_loop-IsPlacedIn zero kind offset found bytes = ground arith
packet_loop-IsPlacedIn (suc fuel) kind offset found bytes =
    let Placed = λ (m : Result (List RawPayload × Option ℕ)). IsPlacedIn (length bytes) m in
    if_elim Placed (kind == none_kind) _ _ (λ _. tt)
      λ _.
        if_elim Placed (kind == sk_kind || kind == skf_kind) _ _
          (λ _. encrypted_part-IsPlacedIn kind offset found bytes)
          λ _. and_then-IsPlacedIn (length bytes) (bytes_from offset bytes) _ λ r.
            resume-IsPlacedIn (length bytes) (read_payload r) _ λ (next, len, body) r'.
              packet_loop-IsPlacedIn fuel next (offset + len)
                (found ++ record { kind = kind; body = body } ∷ []) bytes

-- A packet of `parse_packet`.
abbrev pub IsParsed : Packet → Type 0
IsParsed packet = IsPlaced (length packet.raw) packet.encrypted_at

abbrev AllParsed : Result Packet → Type 0
AllParsed (err e) = Unit
AllParsed (ok packet) = IsParsed packet

and_then-AllParsed :
    {A : Type 0} (m : Result A) (f : A → Result Packet)
    → ((a : A) → m ≡ ok a → AllParsed (f a))
    → AllParsed (m and_then f)
and_then-AllParsed (err e) f h = tt
and_then-AllParsed (ok a) f h = h a refl

parse_packet-AllParsed : (bytes : Bytes) → AllParsed (parse_packet bytes)
unfolding parse_packet
parse_packet-AllParsed bytes = and_then-AllParsed (decode_header bytes) _ λ header _.
    and_then-AllParsed
      (reject (not (header.length == length bytes)) (header_length header.length (length bytes))) _
      λ _ _.
        and_then-AllParsed (packet_loop (length bytes + 1) header.next_payload header_len [] bytes)
          (λ found.
            ok
              (record { header = header; payloads = found.0; raw = bytes; encrypted_at = found.1 }))
          λ found e.
            subst (IsPlacedIn (length bytes)) e
              (packet_loop-IsPlacedIn (length bytes + 1) header.next_payload header_len [] bytes)

pub parse_packet-IsParsed :
    (bytes : Bytes) (packet : Packet) → parse_packet bytes ≡ ok packet → IsParsed packet
parse_packet-IsParsed bytes packet e = subst AllParsed e (parse_packet-AllParsed bytes)

ensure-IsOrderly : (b : Bool) (n : ℕ) → IsOrderly (ensure b (crypto n))
ensure-IsOrderly true n = tt
ensure-IsOrderly false n = tt

or_failed-IsOrderly : (o : Option Bytes) → IsOrderly (or_failed o)
or_failed-IsOrderly none = tt
or_failed-IsOrderly (some bytes) = tt

-- A key that passed the check of its size is one that the cipher takes.
module _ (lib : Primitives) where
  decrypt_with-IsOrderly :
      (cipher : Cipher) (key iv aad c : Bytes)
      → IsCipher cipher
      → length key ≡ key_len cipher
      → IsOrderly (decrypt_with lib cipher key iv aad c)
  decrypt_with-IsOrderly (aes_cbc bits) key iv aad c known size =
      and_then-IsOrderly _ _ (ensure-IsOrderly (length c % 16 == 0) 2) λ _ _.
        and_then-IsOrderly (cbc_key key) _ (ground (arith, known, size))
          λ k _. or_failed-IsOrderly (lib.cbc_decrypt k iv c)
  decrypt_with-IsOrderly (aes_gcm16 bits) key iv aad c known size =
      and_then-IsOrderly (aead_key (aes_gcm16 bits) key) _ (ground (arith, known, size))
        λ k _. or_failed-IsOrderly _
  decrypt_with-IsOrderly chacha20_poly1305 key iv aad c known size =
      and_then-IsOrderly (aead_key chacha20_poly1305 key) _ (ground (arith, size))
        λ k _. or_failed-IsOrderly _

  decrypt-IsOrderly :
      (cipher : Cipher) (key iv aad c : Bytes)
      → IsCipher cipher
      → IsOrderly (decrypt lib cipher key iv aad c)
  unfolding decrypt
  decrypt-IsOrderly cipher key iv aad c known =
      and_then-IsOrderly (check cipher key iv) _
        (and_then-IsOrderly _ _ (ensure-IsOrderly (length key == key_len cipher) 0)
          λ _ _. ensure-IsOrderly (length iv == iv_len cipher) 1)
        λ _ checked. decrypt_with-IsOrderly cipher key iv aad c known (ground (arith, checked))

  open_behind-IsOrderly :
      (cipher : Cipher) (i : Integrity) (key mac_key : Bytes) (iv_at tag : ℕ) (raw : Bytes)
      → IsCipher cipher
      → IsOrderly (open_behind lib cipher i key mac_key iv_at tag raw)
  unfolding open_behind
  open_behind-IsOrderly cipher i key mac_key iv_at tag raw known =
      if_elim {A = Result Bytes} (λ m. IsOrderly m) (is_aead cipher) _ _
        (λ _. decrypt-IsOrderly cipher key _ _ _ known)
        λ _.
          if_elim {A = Result Bytes} (λ m. IsOrderly m) (not (verify lib i mac_key _ _)) _ _
            (λ _. tt) (λ _. decrypt-IsOrderly cipher key _ _ _ known)

  unpad_message-IsOrderly :
      (next : ℕ) (fragment : Option (ℕ × ℕ)) (o : Option (ℕ × Bytes))
      → IsOrderly (unpad_message next fragment o)
  unfolding unpad_message
  unpad_message-IsOrderly next fragment none = tt
  unpad_message-IsOrderly next fragment (some (count, rest)) = ground arith

  decrypt_at-IsOrderly :
      (keys : Keys) (raw : Bytes) (next : ℕ) (fragment : Option (ℕ × ℕ)) (iv_at : ℕ)
      → IsCipher keys.cipher
      → IsOrderly (decrypt_at lib keys raw next fragment iv_at)
  unfolding decrypt_at
  decrypt_at-IsOrderly keys raw next fragment iv_at known =
      and_then-IsOrderly _ _ (reject-IsOrderly _ encrypted_too_short) λ _ _.
        and_then-IsOrderly _ _
          (open_behind-IsOrderly keys.cipher keys.integrity keys.encryption keys.integrity_key iv_at
            (tag_len keys) raw known)
          λ plaintext _. unpad_message-IsOrderly next fragment (split_last plaintext)

  read_numbers-IsOrderly : (r : Bytes) → IsOrderly (read_numbers r)
  unfolding read_numbers u16
  read_numbers-IsOrderly r = ground arith

  decrypt_from-IsOrderly :
      (keys : Keys) (packet : Packet) (place : Option ℕ)
      → IsCipher keys.cipher
      → IsPlaced (length packet.raw) place
      → IsOrderly (decrypt_from lib keys packet place)
  decrypt_from-IsOrderly keys packet none known h = tt
  decrypt_from-IsOrderly keys packet (some offset) known h =
      and_then-IsOrderly _ _ (ground (arith, h)) λ next _.
        if_elim {A = Result Decrypted} (λ m. IsOrderly m) (is_fragment packet.payloads) _ _
          (λ _. and_then-IsOrderly (bytes_from (offset + 4) packet.raw) _ (ground (arith, h)) λ r _.
            and_then-IsOrderly (read_numbers r) _ (read_numbers-IsOrderly r) λ numbers _.
              decrypt_at-IsOrderly keys packet.raw next (some numbers) (offset + 8) known)
          (λ _. decrypt_at-IsOrderly keys packet.raw next none (offset + 4) known)

  -- Decryption of a parsed packet ends with what it carries or an error that the source returns.
  pub decrypt_packet-IsOrderly :
      (keys : Keys) (packet : Packet)
      → IsCipher keys.cipher
      → IsParsed packet
      → IsOrderly (decrypt_packet lib keys packet)
  unfolding decrypt_packet
  decrypt_packet-IsOrderly keys packet known h =
      decrypt_from-IsOrderly keys packet packet.encrypted_at known h
