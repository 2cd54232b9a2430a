-- ===== src/Ike/Cipher.antt =====
-- crates/ikev2/src/crypto/encr.rs: `Cipher`, and crates/ikev2/src/crypto/prf.rs: `Integrity`. The
-- block ciphers, the AEADs and the HMACs are code of other crates: a record of functions.
pub mod Laws
pub mod Plain
pub mod Sealing
use openfortivpn_rs.Ike.Result.{crypto, ◌and_then◌, expect, Error, Result, err, ok}
use openfortivpn_rs.Prelude.{
  take, length, if◌then◌else◌, Option, ◌&&◌, ℕ, ◌==◌, true, ◌-◌, ◌%◌, [], Bool, some, ◌+◌, drop,
  ◌∷◌, false, ◌++◌, ◌/◌, ◌||◌, Bytes, none, false, true, some, none, ◌∷◌, [],
}

pub data Cipher : Type 0 where
  aes_cbc : ℕ → Cipher
  aes_gcm16 : ℕ → Cipher
  chacha20_poly1305 : Cipher

pub data Integrity : Type 0 where
  no_integrity hmac_md5_96 hmac_sha1_96 hmac_sha256_128 hmac_sha384_192 hmac_sha512_256 : Integrity

-- The AEADs of the crates aes-gcm and chacha20poly1305.
pub data Aead : Type 0 where
  aes128_gcm aes192_gcm aes256_gcm chacha : Aead

pub data Hash : Type 0 where
  md5 sha1 sha256 sha384 sha512 : Hash

-- Each takes a key; then an IV or a nonce, the data it authenticates, and the message. The key of
-- AES-CBC, by its length, says which AES it is.
pub record Primitives : Type 0 where
  pub cbc_encrypt : Bytes → Bytes → Bytes → Bytes
  pub cbc_decrypt : Bytes → Bytes → Bytes → Option Bytes
  pub aead_encrypt : Aead → Bytes → Bytes → Bytes → Bytes → Option Bytes
  pub aead_decrypt : Aead → Bytes → Bytes → Bytes → Bytes → Option Bytes
  pub hmac : Hash → Bytes → Bytes → Bytes

abbrev pub is_aead : Cipher → Bool
is_aead (aes_cbc bits) = false
is_aead _ = true

abbrev pub key_len : Cipher → ℕ
key_len (aes_cbc bits) = bits / 8
key_len (aes_gcm16 bits) = bits / 8 + 4
key_len chacha20_poly1305 = 32 + 4

abbrev pub iv_len : Cipher → ℕ
iv_len cipher = if is_aead cipher then 8 else 16

abbrev pub block_len : Cipher → ℕ
block_len cipher = if is_aead cipher then 1 else 16

abbrev pub icv_len : Cipher → ℕ
icv_len cipher = if is_aead cipher then 16 else 0

-- The errors of crypto, each a number: a key or an IV of the wrong size, data that is not a number
-- of blocks, and a failure of the cipher.
abbrev pub wrong_key : Error
wrong_key = crypto 0

abbrev pub wrong_iv : Error
wrong_iv = crypto 1

abbrev pub not_aligned : Error
not_aligned = crypto 2

abbrev pub cipher_failed : Error
cipher_failed = crypto 3

abbrev pub ensure : Bool → Error → Result (Unit {0})
ensure true e = ok tt
ensure false e = err e

-- `Cipher::check`
abbrev pub check : Cipher → Bytes → Bytes → Result (Unit {0})
check cipher key iv = ensure (length key == key_len cipher) wrong_key and_then λ _.
    ensure (length iv == iv_len cipher) wrong_iv

-- The AEAD of a cipher, and the size of its key.
abbrev pub aead_of : Cipher → Aead × ℕ
aead_of (aes_gcm16 bits) =
    if bits == 128
    then (aes128_gcm, 16)
    else if bits == 192
    then (aes192_gcm, 24)
    else (aes256_gcm, 32)
aead_of _ = (chacha, 32)

-- `Cipher::nonce`: the salt at the end of the key, then the IV.
abbrev pub nonce : Bytes → Bytes → Bytes
nonce key iv = drop (length key - 4) key ++ iv

-- `map_err`
abbrev pub or_failed : Option Bytes → Result Bytes
or_failed none = err cipher_failed
or_failed (some bytes) = ok bytes

-- A key of a size that the cipher does not take panics.
abbrev pub cbc_key : Bytes → Result Bytes
cbc_key key = expect (length key == 16 || length key == 24 || length key == 32) key

abbrev pub aead_key : Cipher → Bytes → Result Bytes
aead_key cipher key = expect (length key - 4 == (aead_of cipher).1) (take (length key - 4) key)

abbrev pub hash_of : Integrity → Option Hash
hash_of no_integrity = none
hash_of hmac_md5_96 = some md5
hash_of hmac_sha1_96 = some sha1
hash_of hmac_sha256_128 = some sha256
hash_of hmac_sha384_192 = some sha384
hash_of hmac_sha512_256 = some sha512

abbrev pub mac_len : Integrity → ℕ
mac_len no_integrity = 0
mac_len hmac_md5_96 = 12
mac_len hmac_sha1_96 = 12
mac_len hmac_sha256_128 = 16
mac_len hmac_sha384_192 = 24
mac_len hmac_sha512_256 = 32

-- `ct_eq`
abbrev pub same_bytes : Bytes → Bytes → Bool
same_bytes [] [] = true
same_bytes (a ∷ as_) (b ∷ bs) = a == b && same_bytes as_ bs
same_bytes _ _ = false

-- `Hash::output_len`
abbrev pub output_len : Hash → ℕ
output_len md5 = 16
output_len sha1 = 20
output_len sha256 = 32
output_len sha384 = 48
output_len sha512 = 64

-- `self.hash().map_or(0, Hash::output_len)`
abbrev pub len_by : Option Hash → ℕ
len_by none = 0
len_by (some hash) = output_len hash

-- `Integrity::key_len`
abbrev pub integrity_key_len : Integrity → ℕ
integrity_key_len integrity = len_by (hash_of integrity)

module _ (lib : Primitives) where
  -- The match of `Cipher::encrypt`, and of `Cipher::decrypt`, behind the check.
  abbrev pub encrypt_with : Cipher → Bytes → Bytes → Bytes → Bytes → Result Bytes
  encrypt_with (aes_cbc bits) key iv aad plaintext =
      ensure (length plaintext % 16 == 0) not_aligned and_then λ _.
      cbc_key key and_then λ k. ok (lib.cbc_encrypt k iv plaintext)
  encrypt_with cipher key iv aad plaintext = aead_key cipher key and_then λ k.
      or_failed (lib.aead_encrypt (aead_of cipher).0 k (nonce key iv) aad plaintext)

  abbrev pub decrypt_with : Cipher → Bytes → Bytes → Bytes → Bytes → Result Bytes
  decrypt_with (aes_cbc bits) key iv aad ciphertext =
      ensure (length ciphertext % 16 == 0) not_aligned and_then λ _.
      cbc_key key and_then λ k. or_failed (lib.cbc_decrypt k iv ciphertext)
  decrypt_with cipher key iv aad ciphertext = aead_key cipher key and_then λ k.
      or_failed (lib.aead_decrypt (aead_of cipher).0 k (nonce key iv) aad ciphertext)

  unfoldable pub encrypt : Cipher → Bytes → Bytes → Bytes → Bytes → Result Bytes
  encrypt cipher key iv aad plaintext =
      check cipher key iv and_then λ _. encrypt_with cipher key iv aad plaintext

  unfoldable pub decrypt : Cipher → Bytes → Bytes → Bytes → Bytes → Result Bytes
  decrypt cipher key iv aad ciphertext =
      check cipher key iv and_then λ _. decrypt_with cipher key iv aad ciphertext

  -- `Integrity::mac`
  abbrev mac_by : Option Hash → ℕ → Bytes → Bytes → Bytes
  mac_by none len key bytes = []
  mac_by (some hash) len key bytes = take len (lib.hmac hash key bytes)

  unfoldable pub mac : Integrity → Bytes → Bytes → Bytes
  mac integrity key bytes = mac_by (hash_of integrity) (mac_len integrity) key bytes

  -- `Integrity::verify`
  unfoldable pub verify : Integrity → Bytes → Bytes → Bytes → Bool
  unfolding mac
  verify integrity key bytes icv =
      let expected = mac integrity key bytes in
      length expected == length icv && same_bytes expected icv
