-- ===== src/Ike/Choice/Tests.antt =====
-- The choice of proposals.rs at two sets.
use openfortivpn_rs.Ike.Choice.Agreement.{select_ike-ike_proposals, AreUnderstood}
use openfortivpn_rs.Ike.Cipher.{no_integrity, aes_gcm16, hmac_sha256_128, aes_cbc}
use openfortivpn_rs.Ike.Proposal.{esn, encryption, esp, Proposal}
use openfortivpn_rs.Ike.Choice.{prf_sha256, ike_proposals, IkeAlgorithms, select_esp}
use openfortivpn_rs.Ike.Result.{ok}
use openfortivpn_rs.Prelude.{
  some, ◌≡◌, List, arith, refl, false, [], ◌∷◌, none, false, some, none, refl, ◌∷◌, [],
}

abbrev two_sets : List IkeAlgorithms
two_sets =
    record {
      cipher = aes_cbc 256;
      prf_with = prf_sha256;
      integrity_with = hmac_sha256_128;
      group = 14;
    }
    ∷ record {
      cipher = aes_gcm16 128;
      prf_with = prf_sha256;
      integrity_with = no_integrity;
      group = 19;
    }
    ∷ []

select_ike-ike_proposals_example :
    (ps : List Proposal) × (ike_proposals 1 two_sets ≡ ok ps) × AreUnderstood two_sets ps two_sets
select_ike-ike_proposals_example = select_ike-ike_proposals two_sets (omega arith)

-- A proposal of ESP without a group matches a set with one.
without_group :
    select_esp
      (record {
        number = 1;
        protocol = esp;
        spi = 0 ∷ 0 ∷ 1 ∷ 2 ∷ [];
        transforms =
            record { kind = encryption; id = 20; key_bits = some 256 }
            ∷ record { kind = esn; id = 0; key_bits = none }
            ∷ [];
        foreign = false;
      })
      (record { cipher = aes_gcm16 256; integrity = no_integrity; group = some 14 } ∷ [])
      none
    ≡ ok (record { cipher = aes_gcm16 256; integrity = no_integrity; group = none }, 258)
unfolding select_esp
without_group = refl
