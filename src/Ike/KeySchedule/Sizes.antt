-- ===== src/Ike/KeySchedule/Sizes.antt =====
-- The keys that `IkeKeys::derive` of crates/ikev2/src/sa.rs cuts from the key stream, and the ends of
-- a CHILD SA that are made of `IkeKeys::child_keymat`.
use openfortivpn_rs.Ike.Esp.Keying.{
  keys_in_order, length-piece, pieces_whole, new_child-Paired, HasSizes,
}
use openfortivpn_rs.Ike.Esp.RoundTrip.{Paired}
use openfortivpn_rs.Ike.Selector.{TrafficSelector}
use openfortivpn_rs.Ike.KeySchedule.Stream.{length-stream, prf_plus-key_stream, key_stream}
use openfortivpn_rs.Ike.Result.{ok}
use openfortivpn_rs.Ike.Encrypted.Datagram.{AreKeys}
use openfortivpn_rs.Ike.Cipher.Laws.{CipherLaws, IsCipher}
use openfortivpn_rs.Ike.Choice.{
  prf_sha512, prf_sha384, prf_sha256, prf_sha1, prf_md5, Prf, IkeAlgorithms,
}
use openfortivpn_rs.Ike.Esp.{new_child, ChildSa, EspAlgorithms, keymat_len, piece}
use openfortivpn_rs.Ike.Cipher.{
  chacha20_poly1305, hmac_sha512_256, Primitives, hmac_sha384_192, hmac_sha256_128, aes_gcm16,
  hmac_sha1_96, aes_cbc, hmac_md5_96, is_aead, key_len, no_integrity, integrity_key_len, Integrity,
  Cipher,
}
use openfortivpn_rs.Ike.KeySchedule.{
  or_empty, seed_of, skeyseed, prf_plus, child_keymat, derive, IkeKeys, prf_hash, material_len,
  prf_key_len, cut,
}
use openfortivpn_rs.Prelude.{
  leb, Option, inl, inr, subst, false, ◌⊎◌, ◌*◌, false, inr, inl, take, length, ◌++◌, arith, ◌∷◌,
  ◌∙◌, ◌≡◌, List, ◌≤◌, ap, take-append-drop, ℕ, ◌++◌, length-take, true, ◌+◌, Bytes, [], ◌∷◌, refl,
  true, refl, ◌∷◌, [],
}

-- The seven keys as they were cut, with their sizes.
pub record AreCut (set : IkeAlgorithms) (material : Bytes) (keys : IkeKeys) : Type 0 where
  pub whole :
      keys.sk_d
        ++ (keys.outbound.integrity_key
            ++ (keys.inbound.integrity_key
                ++ (keys.outbound.encryption
                    ++ (keys.inbound.encryption ++ (keys.sk_pi ++ keys.sk_pr)))))
      ≡ material
  pub outbound_right : AreKeys keys.outbound
  pub inbound_right : AreKeys keys.inbound
  pub sk_d_size : length keys.sk_d ≡ prf_key_len set.prf_with
  pub outbound_size : length keys.outbound.integrity_key ≡ integrity_key_len set.integrity_with
  pub inbound_size : length keys.inbound.integrity_key ≡ integrity_key_len set.integrity_with
  pub sk_pi_size : length keys.sk_pi ≡ prf_key_len set.prf_with
  pub sk_pr_size : length keys.sk_pr ≡ prf_key_len set.prf_with

-- The sets that the configuration admits: a cipher of a key size it has, and no integrity algorithm
-- beside an AEAD.
pub record AreUsable (set : IkeAlgorithms) : Type 0 where
  pub cipher_known : IsCipher set.cipher
  pub alone : is_aead set.cipher ≡ true → set.integrity_with ≡ no_integrity

key_bits_bound : (bits : ℕ) → (bits ≡ 128) ⊎ (bits ≡ 192) ⊎ (bits ≡ 256) → bits ≤ 256
key_bits_bound bits (inl h) = omega (arith, h)
key_bits_bound bits (inr (inl h)) = omega (arith, h)
key_bits_bound bits (inr (inr h)) = omega (arith, h)

key_len_bound : (cipher : Cipher) → IsCipher cipher → key_len cipher ≤ 36
key_len_bound (aes_cbc bits) h = omega (arith, key_bits_bound bits h)
key_len_bound (aes_gcm16 bits) h = omega (arith, key_bits_bound bits h)
key_len_bound chacha20_poly1305 h = omega arith

integrity_key_len_bound : (i : Integrity) → integrity_key_len i ≤ 64
integrity_key_len_bound no_integrity = omega arith
integrity_key_len_bound hmac_md5_96 = omega arith
integrity_key_len_bound hmac_sha1_96 = omega arith
integrity_key_len_bound hmac_sha256_128 = omega arith
integrity_key_len_bound hmac_sha384_192 = omega arith
integrity_key_len_bound hmac_sha512_256 = omega arith

prf_key_len_bound : (p : Prf) → 16 ≤ prf_key_len p
unfolding prf_key_len prf_hash
prf_key_len_bound prf_md5 = omega arith
prf_key_len_bound prf_sha1 = omega arith
prf_key_len_bound prf_sha256 = omega arith
prf_key_len_bound prf_sha384 = omega arith
prf_key_len_bound prf_sha512 = omega arith

cut-AreCut :
    (set : IkeAlgorithms) (material : Bytes)
    → AreUsable set
    → length material ≡ material_len set
    → AreCut set material (cut set material)
unfolding cut material_len
cut-AreCut set material fit h =
    let d = prf_key_len set.prf_with in
    let a = integrity_key_len set.integrity_with in
    let e = key_len set.cipher in
    record {
      whole =
          ap (◌++◌ (piece material 0 d))
            (pieces_whole material d (a ∷ a ∷ e ∷ e ∷ d ∷ []) d (omega (arith, h)))
          ∙ take-append-drop d material;
      outbound_right = record {
        cipher_known = fit.cipher_known;
        key_fits = length-piece material (d + a + a) e (omega (arith, h));
        alone = fit.alone;
      };
      inbound_right = record {
        cipher_known = fit.cipher_known;
        key_fits = length-piece material (d + a + a + e) e (omega (arith, h));
        alone = fit.alone;
      };
      sk_d_size = length-piece material 0 d (omega (arith, h));
      outbound_size = length-piece material d a (omega (arith, h));
      inbound_size = length-piece material (d + a) a (omega (arith, h));
      sk_pi_size = length-piece material (d + a + a + e + e) d (omega (arith, h));
      sk_pr_size = length-piece material (d + a + a + e + e + d) d (omega (arith, h));
    }

module _ (lib : Primitives) (laws : CipherLaws lib) where
  -- The laws give the material its length, when it is short enough.
  material :
      (p : Prf) (key seed : Bytes) (len : ℕ)
      → len ≤ 254 * prf_key_len p
      → (m : Bytes) × (prf_plus lib p key seed len ≡ ok m)
        × (length m ≡ len)
        × (m ≡ take len (key_stream lib p key seed 254))
  material p key seed len h =
      let fits : leb len (254 * prf_key_len p) ≡ true = ground (arith, h) in
      (
        take len (key_stream lib p key seed 254),
        prf_plus-key_stream lib laws p key seed len ∙ rw fits refl,
        omega (
          arith,
          length-take len (key_stream lib p key seed 254),
          length-stream lib laws p key seed 254,
        ),
        refl,
      )

  -- For algorithms whose key sizes are known and with no integrity algorithm beside an AEAD, the keys
  -- of an IKE SA are derived with no panic, whatever the exponents and nonces are: end to end they
  -- are the start of the key stream under SKEYSEED, which takes the old SK_d if there is one, and
  -- each has the size that its algorithm takes.
  pub derive-AreCut :
      (set : IkeAlgorithms) (x y : ℕ) (ni nr shared : Bytes) (old : Option Bytes)
      → AreUsable set
      → (keys : IkeKeys) × (derive lib set x y ni nr shared old ≡ ok keys)
        × AreCut set
            (take (material_len set) (
              key_stream lib set.prf_with
                (skeyseed lib set.prf_with (ni ++ nr) shared old)
                (seed_of lib (ni ++ nr) x y)
                254))
            keys
  unfolding derive material_len
  derive-AreCut set x y ni nr shared old fit =
      let made =
        material set.prf_with (skeyseed lib set.prf_with (ni ++ nr) shared old)
          (seed_of lib (ni ++ nr) x y) (material_len set)
          (omega (
            arith,
            key_len_bound set.cipher fit.cipher_known,
            integrity_key_len_bound set.integrity_with,
            prf_key_len_bound set.prf_with,
          )) in
      (
        cut set made.0,
        rw made.1 refl,
        subst (λ m. AreCut set m (cut set made.0)) made.3 (cut-AreCut set made.0 fit made.2),
      )

  -- From the keys of any IKE SA, for a cipher whose key size is known and an HMAC that has the sizes
  -- of its hash, the keying material is derived with no panic: it is the start of the key stream
  -- under SK_d of the secret, if there is one, and the nonces. Both ends are made of it with no
  -- error; what each sends the other receives, under keys of the right sizes, and end to end the
  -- initiator's keys, those it sends with first, are the whole material.
  pub child_keymat-Paired :
      (self : IkeKeys) (set : EspAlgorithms) (shared : Option Bytes) (ni nr : Bytes) (x y : ℕ)
      (ts ts' : List TrafficSelector × List TrafficSelector) (now now' : ℕ)
      → IsCipher set.cipher
      → (keymat : Bytes) × (child_keymat lib self shared ni nr (keymat_len set) ≡ ok keymat)
        × (keymat
            ≡ take (keymat_len set) (
                key_stream lib self.algorithms.prf_with self.sk_d
                  ((or_empty lib shared ++ ni) ++ nr)
                  254))
        × ((i r : ChildSa) × (new_child set (x, y) keymat true ts now ≡ ok i)
            × (new_child set (y, x) keymat false ts' now' ≡ ok r)
            × Paired i r
            × Paired r i
            × HasSizes set i.outbound
            × HasSizes set r.outbound
            × (i.seq_out ≡ 0)
            × (r.seq_out ≡ 0)
            × (keys_in_order i ≡ keymat))
  unfolding child_keymat keymat_len
  child_keymat-Paired self set shared ni nr x y ts ts' now now' known =
      let made =
        material self.algorithms.prf_with self.sk_d ((or_empty lib shared ++ ni) ++ nr)
          (keymat_len set)
          (omega (
            arith,
            key_len_bound set.cipher known,
            integrity_key_len_bound set.integrity,
            prf_key_len_bound self.algorithms.prf_with,
          )) in
      (made.0, made.1, made.3, new_child-Paired set x y made.0 ts ts' now now' made.2)
