-- ===== src/Ike/Proposal/Tests.antt =====
-- The codec of message/proposal.rs at the proposals of its own test.
use openfortivpn_rs.Ike.Result.{ok}
use openfortivpn_rs.Prelude.{
  false, Bytes, ◌≡◌, none, ℕ, List, Option, arith, some, [], ◌∷◌, false, some, none, ◌∷◌, [],
}
use openfortivpn_rs.Ike.Proposal.RoundTrip.{decode-encode}
use openfortivpn_rs.Ike.Proposal.{
  TransformType, Proposal, Transform, encode, decode, ike, esp, encryption, prf, integrity,
  diffie_hellman, esn,
}

abbrev transform : TransformType → ℕ → Option ℕ → Transform
transform kind id key_bits = record { kind = kind; id = id; key_bits = key_bits }

abbrev ike_proposal : Proposal
ike_proposal = record {
  number = 1;
  protocol = ike;
  spi = [];
  transforms =
      transform encryption 12 (some 256)
      ∷ transform prf 5 none
      ∷ transform integrity 12 none
      ∷ transform diffie_hellman 14 none
      ∷ [];
  foreign = false;
}

abbrev esp_proposal : Proposal
esp_proposal = record {
  number = 2;
  protocol = esp;
  spi = 1 ∷ 2 ∷ 3 ∷ 4 ∷ [];
  transforms = transform encryption 20 (some 128) ∷ transform esn 0 none ∷ [];
  foreign = false;
}

abbrev proposals : List Proposal
proposals = ike_proposal ∷ esp_proposal ∷ []

decode-encode_example :
    (bytes : Bytes) × (encode proposals ≡ ok bytes) × (decode bytes ≡ ok proposals)
decode-encode_example = decode-encode proposals (ground arith)
