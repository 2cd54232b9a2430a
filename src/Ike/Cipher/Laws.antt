-- ===== src/Ike/Cipher/Laws.antt =====
-- What the users of crypto/encr.rs and crypto/prf.rs rely on.
use openfortivpn_rs.Ike.Result.{ok}
use openfortivpn_rs.Prelude.{
  ◌-◌, take, length, arith, some, refl, ◌<◌, true, ◌+◌, ◌%◌, ◌⊎◌, ◌^◌, length-take, ◌∷◌, [], Bytes,
  ◌≡◌, true, some, refl, ◌∷◌, [],
}
use openfortivpn_rs.Ike.Cipher.{
  output_len, aead_of, nonce, Cipher, aes_cbc, aes_gcm16, chacha20_poly1305, Integrity, Aead, Hash,
  Primitives, key_len, iv_len, block_len, icv_len, encrypt, decrypt, mac_len, mac, same_bytes,
  verify, no_integrity, hmac_md5_96, hmac_sha1_96, hmac_sha256_128, hmac_sha384_192,
  hmac_sha512_256, md5, sha1, sha256, sha384, sha512,
}

-- What the other crates document: decryption undoes encryption, CBC keeps the size of whole blocks,
-- an AEAD encrypts a message of less than 2 ^ 32 bytes and adds a tag of 16, an HMAC has the size of
-- its hash.
pub record CipherLaws (lib : Primitives) : Type 0 where
  pub cbc_undone :
      (key iv m : Bytes)
      → length m % 16 ≡ 0
      → lib.cbc_decrypt key iv (lib.cbc_encrypt key iv m) ≡ some m
  pub cbc_size :
      (key iv m : Bytes) → length m % 16 ≡ 0 → length (lib.cbc_encrypt key iv m) ≡ length m
  pub aead_undone :
      (a : Aead) (key nonce aad m : Bytes)
      → length m < 2 ^ 32
      → (c : Bytes) × (lib.aead_encrypt a key nonce aad m ≡ some c)
        × (length c ≡ length m + 16)
        × (lib.aead_decrypt a key nonce aad c ≡ some m)
  pub hmac_size : (h : Hash) (key m : Bytes) → length (lib.hmac h key m) ≡ output_len h

-- The ciphers that there are: AES has keys of 128, 192 and 256 bits.
abbrev pub IsCipher : Cipher → Type 0
IsCipher (aes_cbc bits) = (bits ≡ 128) ⊎ (bits ≡ 192) ⊎ (bits ≡ 256)
IsCipher (aes_gcm16 bits) = (bits ≡ 128) ⊎ (bits ≡ 192) ⊎ (bits ≡ 256)
IsCipher chacha20_poly1305 = Unit

-- A message is sealed, which adds the tag, and opened again.
abbrev pub Sealed : (lib : Primitives) → Cipher → Bytes → Bytes → Bytes → Bytes → Type 0
Sealed lib cipher key iv aad m =
    (c : Bytes) × (encrypt lib cipher key iv aad m ≡ ok c)
    × (length c ≡ length m + icv_len cipher)
    × (decrypt lib cipher key iv aad c ≡ ok m)

module _ (lib : Primitives) (laws : CipherLaws lib) where
  pub encrypt-Sealed :
      (cipher : Cipher) (key iv aad m : Bytes)
      → IsCipher cipher
      → length key ≡ key_len cipher
      → length iv ≡ iv_len cipher
      → length m % block_len cipher ≡ 0
      → length m < 2 ^ 32
      → Sealed lib cipher key iv aad m
  unfolding encrypt decrypt
  encrypt-Sealed (aes_cbc bits) key iv aad m i k v b f = (
    lib.cbc_encrypt key iv m,
    ground arith,
    ground (arith, laws.cbc_size key iv m b),
    ground (arith, laws.cbc_size key iv m b, laws.cbc_undone key iv m b),
  )
  encrypt-Sealed (aes_gcm16 bits) key iv aad m i k v b f =
      let a = (aead_of (aes_gcm16 bits)).0 in
      let sealed = laws.aead_undone a (take (length key - 4) key) (nonce key iv) aad m f in
      (sealed.0, ground (arith, sealed.1), sealed.2, ground (arith, sealed.3))
  encrypt-Sealed chacha20_poly1305 key iv aad m i k v b f =
      let a = (aead_of chacha20_poly1305).0 in
      let sealed = laws.aead_undone a (take (length key - 4) key) (nonce key iv) aad m f in
      (sealed.0, ground (arith, sealed.1), sealed.2, ground (arith, sealed.3))

  pub length-mac : (i : Integrity) (key m : Bytes) → length (mac lib i key m) ≡ mac_len i
  unfolding mac
  length-mac no_integrity key m = refl
  length-mac hmac_md5_96 key m =
      omega (arith, length-take 12 (lib.hmac md5 key m), laws.hmac_size md5 key m)
  length-mac hmac_sha1_96 key m =
      omega (arith, length-take 12 (lib.hmac sha1 key m), laws.hmac_size sha1 key m)
  length-mac hmac_sha256_128 key m =
      omega (arith, length-take 16 (lib.hmac sha256 key m), laws.hmac_size sha256 key m)
  length-mac hmac_sha384_192 key m =
      omega (arith, length-take 24 (lib.hmac sha384 key m), laws.hmac_size sha384 key m)
  length-mac hmac_sha512_256 key m =
      omega (arith, length-take 32 (lib.hmac sha512 key m), laws.hmac_size sha512 key m)

same_bytes_refl : (bytes : Bytes) → same_bytes bytes bytes ≡ true
same_bytes_refl [] = refl
same_bytes_refl (b ∷ bytes) = ground (arith, same_bytes_refl bytes)

pub verify-mac :
    (lib : Primitives) (i : Integrity) (key m : Bytes) → verify lib i key m (mac lib i key m) ≡ true
unfolding verify
verify-mac lib i key m = ground (arith, same_bytes_refl (mac lib i key m))
