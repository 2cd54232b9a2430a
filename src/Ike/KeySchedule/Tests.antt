-- ===== src/Ike/KeySchedule/Tests.antt =====
-- The keys of sa.rs at an HMAC of zeros.
use openfortivpn_rs.Ike.Esp.Keying.{keys_in_order, HasSizes}
use openfortivpn_rs.Ike.KeySchedule.Stream.{prf_plus-key_stream, key_stream}
use openfortivpn_rs.Ike.Esp.RoundTrip.{Paired}
use openfortivpn_rs.Ike.Cipher.Plain.{plain-laws, plain}
use openfortivpn_rs.Ike.Cipher.{hmac_sha256_128, no_integrity, aes_gcm16, aes_cbc}
use openfortivpn_rs.Ike.Choice.{prf_sha256, IkeAlgorithms}
use openfortivpn_rs.Ike.KeySchedule.Sizes.{derive-AreCut, child_keymat-Paired, AreCut, AreUsable}
use openfortivpn_rs.Ike.Esp.{new_child, ChildSa, keymat_len, EspAlgorithms}
use openfortivpn_rs.Ike.KeySchedule.{
  seed_of, skeyseed, material_len, prf_key_len, prf_hash, derive, prf_of, shared_secret_auth,
  IkeKeys, prf_plus, child_keymat,
}
use openfortivpn_rs.Ike.Result.{panicked, err, ok}
use openfortivpn_rs.Prelude.{
  take, if◌then◌else◌, length, inl, true, none, leb, [], zeros, Bytes, ◌∷◌, ◌≡◌, ◌*◌, inr, false,
  refl, some, false, true, some, none, inr, inl, refl, ◌∷◌, [],
}

abbrev set : IkeAlgorithms
set = record {
  cipher = aes_cbc 256;
  prf_with = prf_sha256;
  integrity_with = hmac_sha256_128;
  group = 14;
}

set-AreUsable : AreUsable set
set-AreUsable = record { cipher_known = inr (inr refl); alone = λ e. cc e }

-- 70 bytes take three blocks of 32.
prf_plus-key_stream_example : prf_plus plain prf_sha256 (1 ∷ []) (2 ∷ []) 70 ≡ (
    if leb 70 (254 * prf_key_len prf_sha256)
    then ok (take 70 (key_stream plain prf_sha256 (1 ∷ []) (2 ∷ []) 254))
    else err panicked)
prf_plus-key_stream_example = prf_plus-key_stream plain plain-laws prf_sha256 (1 ∷ []) (2 ∷ []) 70

derive-AreCut_example :
    (keys : IkeKeys) × (derive plain set 7 8 (1 ∷ []) (2 ∷ []) (3 ∷ []) (some (4 ∷ [])) ≡ ok keys)
    × AreCut set
        (take (material_len set) (
          key_stream plain prf_sha256
            (skeyseed plain prf_sha256 (1 ∷ 2 ∷ []) (3 ∷ []) (some (4 ∷ [])))
            (seed_of plain (1 ∷ 2 ∷ []) 7 8)
            254))
        keys
derive-AreCut_example =
    derive-AreCut plain plain-laws set 7 8 (1 ∷ []) (2 ∷ []) (3 ∷ []) (some (4 ∷ [])) set-AreUsable

abbrev old_keys : IkeKeys
old_keys = record {
  algorithms = set;
  sk_d = zeros 32;
  outbound = record {
    cipher = aes_cbc 256;
    integrity = hmac_sha256_128;
    encryption = zeros 32;
    integrity_key = zeros 32;
  };
  inbound = record {
    cipher = aes_cbc 256;
    integrity = hmac_sha256_128;
    encryption = zeros 32;
    integrity_key = zeros 32;
  };
  sk_pi = zeros 32;
  sk_pr = zeros 32;
}

abbrev esp_set : EspAlgorithms
esp_set = record { cipher = aes_gcm16 128; integrity = no_integrity; group = none }

child_keymat-Paired_example :
    (keymat : Bytes) × (child_keymat plain old_keys none (1 ∷ []) (2 ∷ []) (keymat_len esp_set)
      ≡ ok keymat)
    × (keymat ≡ take (keymat_len esp_set) (key_stream plain prf_sha256 (zeros 32) (1 ∷ 2 ∷ []) 254))
    × ((i r : ChildSa) × (new_child esp_set (5, 6) keymat true ([], []) 0 ≡ ok i)
        × (new_child esp_set (6, 5) keymat false ([], []) 1 ≡ ok r)
        × Paired i r
        × Paired r i
        × HasSizes esp_set i.outbound
        × HasSizes esp_set r.outbound
        × (i.seq_out ≡ 0)
        × (r.seq_out ≡ 0)
        × (keys_in_order i ≡ keymat))
child_keymat-Paired_example =
    child_keymat-Paired plain plain-laws old_keys esp_set none (1 ∷ []) (2 ∷ []) 5 6 ([], [])
      ([], []) 0 1 (inl refl)

-- The AUTH data of a pre-shared key has the size of the hash.
psk_auth_size : length (shared_secret_auth plain old_keys (112 ∷ []) (1 ∷ 2 ∷ [])) ≡ 32
unfolding shared_secret_auth prf_of prf_hash
psk_auth_size = refl
