-- ===== src/Ike/Cipher/Plain.antt =====
-- Ciphers that are simple enough to compute, for the tests of crates/ikev2/src/child.rs and
-- crates/ikev2/src/message/mod.rs.
use openfortivpn_rs.Ike.Cipher.{output_len, Primitives}
use openfortivpn_rs.Ike.Cipher.Laws.{CipherLaws}
use openfortivpn_rs.Prelude.{
  take, zeros, length-zeros, length, ap, some, length-append, take-append, ◌-◌, refl, arith, ◌≡◌,
  Bytes, ◌++◌, some, refl,
}

-- Ciphers that leave the message as it is, and a tag of zeros.
abbrev pub plain : Primitives
plain = record {
  cbc_encrypt = λ key iv m. m;
  cbc_decrypt = λ key iv c. some c;
  aead_encrypt = λ a key nonce aad m. some (m ++ zeros 16);
  aead_decrypt = λ a key nonce aad c. some (take (length c - 16) c);
  hmac = λ h key m. zeros (output_len h);
}

tag_off : (m : Bytes) → take (length (m ++ zeros 16) - 16) (m ++ zeros 16) ≡ m
tag_off m =
    let size : length (m ++ zeros 16) - 16 ≡ length m = omega (arith, length-append m (zeros 16)) in
    rw size (take-append m (zeros 16))

pub plain-laws : CipherLaws plain
plain-laws = record {
  cbc_undone = λ key iv m h. refl;
  cbc_size = λ key iv m h. refl;
  aead_undone = λ a key nonce aad m h.
      (m ++ zeros 16, refl, omega (arith, length-append m (zeros 16)), ap some (tag_off m));
  hmac_size = λ h key m. length-zeros (output_len h);
}
