-- ===== src/Ike/Esp/RoundTrip.antt =====
-- A packet of child.rs, encapsulated by one end and decapsulated by the other.
use openfortivpn_rs.Ike.Cipher.Sealing.{seal-Opens, Opens}
use openfortivpn_rs.Ike.Result.{ok}
use openfortivpn_rs.Prelude.{
  ltb, if◌then◌else◌, Bool, ◌==◌, from_be32-be32, be32, ◌^◌, be64, false, false, ◌<◌, true, true,
  length, ◌-◌, some, ◌+◌, ◌++◌, Bytes, refl, arith, ◌≡◌, ℕ, some, refl,
}
use openfortivpn_rs.Ike.Cipher.{
  Cipher, Primitives, no_integrity, is_aead, key_len, iv_len, icv_len, mac_len,
}
use openfortivpn_rs.Ike.Cipher.Laws.{CipherLaws, IsCipher}
use openfortivpn_rs.Ike.Esp.{
  opened_with, decapsulate, encapsulate, accept, EspAlgorithms, EspKeys, ChildSa, padded,
}
use openfortivpn_rs.Ike.Esp.Padding.{unpad-padded, length-padded, padded_aligned, pad_len_small}

-- Keys of the size that the algorithms take, and no integrity algorithm beside an AEAD.
pub record IsKeyed (algorithms : EspAlgorithms) (keys : EspKeys) : Type 0 where
  pub cipher_known : IsCipher algorithms.cipher
  pub key_fits : length keys.encryption ≡ key_len algorithms.cipher
  pub alone : is_aead algorithms.cipher ≡ true → algorithms.integrity ≡ no_integrity

no_icv : (cipher : Cipher) (n : ℕ) → is_aead cipher ≡ false → icv_len cipher + n ≡ n
no_icv cipher n h = ground (arith, h)

-- What `a` sends is what `b` receives.
pub record Paired (a b : ChildSa) : Type 0 where
  pub same_algorithms : b.algorithms ≡ a.algorithms
  pub same_keys : b.inbound ≡ a.outbound
  pub same_spi : b.spi_in ≡ a.spi_out

iv_size :
    (aead : Bool) (seq : ℕ) (random : Bytes)
    → length random ≡ 16
    → length (if aead then be64 seq else random) ≡ (if aead then 8 else 16)
iv_size true seq random h = refl
iv_size false seq random h = h

module _ (lib : Primitives) (laws : CipherLaws lib) where
  padded-Opens :
      (algorithms : EspAlgorithms) (keys : EspKeys) (head iv packet : Bytes)
      → IsKeyed algorithms keys
      → length iv ≡ iv_len algorithms.cipher
      → length packet < 2 ^ 31
      → Opens lib algorithms.cipher algorithms.integrity keys.encryption keys.integrity head iv
          (padded algorithms.cipher packet)
          (icv_len algorithms.cipher + mac_len algorithms.integrity)
  padded-Opens algorithms keys head iv packet k v f =
      let c = algorithms.cipher in
      let m = padded c packet in
      let short : length m < 2 ^ 32 =
        omega (arith, length-padded c packet, pad_len_small c packet) in
      seal-Opens lib laws c algorithms.integrity keys.encryption keys.integrity head iv m
        (icv_len c + mac_len algorithms.integrity) k.cipher_known k.key_fits k.alone
        (λ cbc. no_icv c (mac_len algorithms.integrity) cbc) v (padded_aligned c packet) short

  opened-padded :
      (b : ChildSa) (cipher : Cipher) (seq : ℕ) (packet : Bytes)
      → (accept b.replay seq).1 ≡ true
      → (opened_with b seq (ok (padded cipher packet))).1 ≡ ok (some packet)
  opened-padded b cipher seq packet e =
      rw e (unpad-padded (record b { replay = (accept b.replay seq).0 }) cipher packet)

  -- With ciphers that behave as documented, keys of the right size and an IV of 16 bytes, a packet of
  -- less than 2 ^ 31 bytes is encapsulated with no error while sequence numbers are left, and the
  -- other end, which has the keys and the SPI of this direction and whose window takes the sequence
  -- number, gets that very packet back, with every cipher and integrity algorithm.
  pub decapsulate-encapsulate :
      (random : Bytes) (a b : ChildSa) (packet : Bytes)
      → Paired a b
      → IsKeyed a.algorithms a.outbound
      → length random ≡ 16
      → a.spi_out < 2 ^ 32
      → a.seq_out + 1 < 2 ^ 32
      → length packet < 2 ^ 31
      → (accept b.replay (a.seq_out + 1)).1 ≡ true
      → (esp : Bytes) × ((encapsulate lib random a packet).1 ≡ ok esp)
        × ((decapsulate lib b esp).1 ≡ ok (some packet))
  unfolding encapsulate decapsulate
  decapsulate-encapsulate random a b packet p k r s n f e =
      let c = a.algorithms.cipher in
      let seq = a.seq_out + 1 in
      let head = be32 a.spi_out ++ be32 seq in
      let iv = if is_aead c then be64 seq else random in
      let size : length iv ≡ iv_len c = iv_size (is_aead c) seq random r in
      let o = padded-Opens a.algorithms a.outbound head iv packet k size f in
      let left : (a.seq_out == 2 ^ 32 - 1) ≡ false = ground arith in
      let long : ltb (length (head ++ o.0))
            (8 + iv_len c + (icv_len c + mac_len a.algorithms.integrity))
          ≡ false =
        ground (arith, o.3) in
      let itself : (a.spi_out == a.spi_out) ≡ true = ground arith in
      (
        head ++ o.0,
        rw (left, o.1) refl,
        rw
            (
              p.same_algorithms,
              p.same_keys,
              p.same_spi,
              from_be32-be32 a.spi_out s,
              from_be32-be32 seq n,
              o.2,
              long,
              itself,
            )
            (opened-padded _ c seq packet e),
      )
