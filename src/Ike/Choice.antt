-- ===== src/Ike/Choice.antt =====
-- crates/ikev2/src/proposals.rs: what is proposed for sets of algorithms, and the set that is chosen. A
-- group is its number in the protocol.
pub mod Agreement
mod Tests
use openfortivpn_rs.Ike.Esp.{EspAlgorithms}
use openfortivpn_rs.Ike.Cipher.{
  chacha20_poly1305, hmac_sha512_256, hmac_sha384_192, hmac_sha256_128, hmac_sha1_96, is_aead,
  aes_gcm16, hmac_md5_96, aes_cbc, no_integrity, Integrity, Cipher,
}
use openfortivpn_rs.Ike.Proposal.{
  integrity, diffie_hellman, esp, ike, esn, encryption, prf, Transform, protocol_id, type_id,
  Proposal, TransformType,
}
use openfortivpn_rs.Ike.Result.{
  extended_sequence_numbers, no_esp_algorithm, not_for_esp, no_esp_spi, not_for_ike,
  no_ike_algorithm, expect, ◌and_then◌, fail, reject, Result, ok,
}
use openfortivpn_rs.Prelude.{
  from_be32, Bytes, if◌then◌else◌, is_some, Option, false, ◌^◌, ℕ, ◌==◌, ◌+◌, true, ◌++◌, [], not,
  ◌||◌, some, ltb, Bool, ◌&&◌, List, none, be32, ◌∷◌, false, true, some, none, ◌∷◌, [],
}

-- crates/ikev2/src/crypto/prf.rs: `Prf`
pub data Prf : Type 0 where
  prf_md5 prf_sha1 prf_sha256 prf_sha384 prf_sha512 : Prf

unfoldable pub prf_id : Prf → ℕ
prf_id prf_md5 = 1
prf_id prf_sha1 = 2
prf_id prf_sha256 = 5
prf_id prf_sha384 = 6
prf_id prf_sha512 = 7

unfoldable pub integrity_id : Integrity → ℕ
integrity_id no_integrity = 0
integrity_id hmac_md5_96 = 1
integrity_id hmac_sha1_96 = 2
integrity_id hmac_sha256_128 = 12
integrity_id hmac_sha384_192 = 13
integrity_id hmac_sha512_256 = 14

-- `Cipher::id` and `Cipher::key_bits`
unfoldable pub cipher_id : Cipher → ℕ
cipher_id (aes_cbc bits) = 12
cipher_id (aes_gcm16 bits) = 20
cipher_id chacha20_poly1305 = 28

unfoldable pub cipher_bits : Cipher → Option ℕ
cipher_bits (aes_cbc bits) = some bits
cipher_bits (aes_gcm16 bits) = some bits
cipher_bits chacha20_poly1305 = none

pub record IkeAlgorithms : Type 0 where
  pub cipher : Cipher
  pub prf_with : Prf
  pub integrity_with : Integrity
  pub group : ℕ

-- `Transform::new`, and `cipher_transform`
abbrev pub transform : TransformType → ℕ → Transform
transform kind id = record { kind = kind; id = id; key_bits = none }

unfoldable pub cipher_transform : Cipher → Transform
unfolding cipher_id cipher_bits
cipher_transform cipher = record {
  kind = encryption;
  id = cipher_id cipher;
  key_bits = cipher_bits cipher;
}

-- The transform of the integrity algorithm, unless the cipher is an AEAD.
abbrev integrity_transforms : Cipher → Integrity → List Transform
integrity_transforms cipher checksum =
    if is_aead cipher then [] else transform integrity (integrity_id checksum) ∷ []

unfoldable pub ike_transforms : IkeAlgorithms → List Transform
unfolding cipher_transform prf_id integrity_id
ike_transforms set =
    cipher_transform set.cipher
    ∷ transform prf (prf_id set.prf_with)
    ∷ (integrity_transforms set.cipher set.integrity_with
        ++ transform diffie_hellman set.group ∷ [])

-- One proposal; a number that does not fit a byte panics.
unfoldable pub ike_proposal : ℕ → IkeAlgorithms → Result Proposal
unfolding ike_transforms
ike_proposal number set = expect (ltb number (2 ^ 8)) number and_then λ n. ok (record {
  number = n;
  protocol = ike;
  spi = [];
  transforms = ike_transforms set;
  foreign = false;
})

-- `ike_proposals`, from a number on
unfoldable pub ike_proposals : ℕ → List IkeAlgorithms → Result (List Proposal)
unfolding ike_proposal
ike_proposals number [] = ok []
ike_proposals number (set ∷ sets) =
    ike_proposal number set and_then λ p. ike_proposals (number + 1) sets and_then λ ps. ok (p ∷ ps)

abbrev group_transforms : Option ℕ → Bool → List Transform
group_transforms none with_groups = []
group_transforms (some group) with_groups =
    if with_groups then transform diffie_hellman group ∷ [] else []

unfoldable pub esp_transforms : EspAlgorithms → Bool → List Transform
unfolding cipher_transform integrity_id
esp_transforms set with_groups =
    cipher_transform set.cipher
    ∷ (integrity_transforms set.cipher set.integrity
        ++ (group_transforms set.group with_groups ++ transform esn 0 ∷ []))

unfoldable pub esp_proposal : ℕ → ℕ → Bool → EspAlgorithms → Result Proposal
unfolding esp_transforms
esp_proposal number spi with_groups set = expect (ltb number (2 ^ 8)) number and_then λ n.
    ok (record {
      number = n;
      protocol = esp;
      spi = be32 spi;
      transforms = esp_transforms set with_groups;
      foreign = false;
    })

-- `esp_proposals`, from a number on
unfoldable pub esp_proposals : ℕ → ℕ → Bool → List EspAlgorithms → Result (List Proposal)
unfolding esp_proposal
esp_proposals number spi with_groups [] = ok []
esp_proposals number spi with_groups (set ∷ sets) =
    esp_proposal number spi with_groups set and_then λ p.
    esp_proposals (number + 1) spi with_groups sets and_then λ ps. ok (p ∷ ps)

abbrev is_type : TransformType → TransformType → Bool
is_type a b = type_id a == type_id b

abbrev same_bits : Option ℕ → Option ℕ → Bool
same_bits none none = true
same_bits none (some bits) = false
same_bits (some bits) none = false
same_bits (some bits) (some more) = bits == more

-- `offers`: one of the transforms is of this type and has this number, and the key size if one is asked.
abbrev pub is_offer : TransformType → ℕ → Option ℕ → Transform → Bool
is_offer kind id key_bits t =
    is_type t.kind kind
    && ((t.id == id) && (not (is_some key_bits) || same_bits t.key_bits key_bits))

abbrev pub offers_in : List Transform → TransformType → ℕ → Option ℕ → Bool
offers_in [] kind id key_bits = false
offers_in (t ∷ ts) kind id key_bits = is_offer kind id key_bits t || offers_in ts kind id key_bits

unfoldable pub offers : Proposal → TransformType → ℕ → Option ℕ → Bool
unfolding type_id
offers proposal kind id key_bits = offers_in proposal.transforms kind id key_bits

unfoldable pub offers_cipher : Proposal → Cipher → Integrity → Bool
unfolding offers cipher_id cipher_bits integrity_id
offers_cipher proposal cipher checksum =
    offers proposal encryption (cipher_id cipher) (cipher_bits cipher)
    && (is_aead cipher || offers proposal integrity (integrity_id checksum) none)

-- `group.is_none_or(..)`
abbrev pub is_group : Option ℕ → ℕ → Bool
is_group none group = true
is_group (some wanted) group = group == wanted

unfoldable pub fits_ike : Proposal → Option ℕ → IkeAlgorithms → Bool
unfolding offers_cipher offers prf_id
fits_ike proposal group set =
    is_group group set.group
    && (offers_cipher proposal set.cipher set.integrity_with
        && (offers proposal prf (prf_id set.prf_with) none
            && offers proposal diffie_hellman set.group none))

-- The first set that fits.
abbrev pub first_ike : Proposal → Option ℕ → List IkeAlgorithms → Result IkeAlgorithms
first_ike proposal group [] = fail no_ike_algorithm
first_ike proposal group (set ∷ sets) =
    let later = first_ike proposal group sets in
    if fits_ike proposal group set then ok set else later

unfoldable pub select_ike : Proposal → List IkeAlgorithms → Option ℕ → Result IkeAlgorithms
unfolding fits_ike protocol_id
select_ike proposal offered group =
    reject (not (protocol_id proposal.protocol == protocol_id ike) || proposal.foreign) not_for_ike
    and_then λ _. first_ike proposal group offered

-- `transforms_of(kind).next().is_some()`
abbrev has_type_in : List Transform → TransformType → Bool
has_type_in [] kind = false
has_type_in (t ∷ ts) kind = is_type t.kind kind || has_type_in ts kind

unfoldable pub has_type : Proposal → TransformType → Bool
unfolding type_id
has_type proposal kind = has_type_in proposal.transforms kind

-- The group that a proposal with a group and a set agree on.
abbrev candidate : Proposal → Option ℕ → Option ℕ → Option ℕ
candidate proposal group none = none
candidate proposal group (some ours) =
    if is_group group ours && offers proposal diffie_hellman ours none then some ours else none

-- What a set comes to with a proposal, if it fits.
abbrev with_group : EspAlgorithms → Option ℕ → EspAlgorithms
with_group set group = record { cipher = set.cipher; integrity = set.integrity; group = group }

abbrev agreed : EspAlgorithms → Option ℕ → Option EspAlgorithms
agreed set none = none
agreed set (some group) = some (with_group set (some group))

unfoldable pub fits_esp : Proposal → Option ℕ → EspAlgorithms → Option EspAlgorithms
unfolding offers_cipher offers has_type
fits_esp proposal group set =
    if not (offers_cipher proposal set.cipher set.integrity)
    then none
    else if has_type proposal diffie_hellman
    then agreed set (candidate proposal group set.group)
    else some (with_group set none)

abbrev or_else : Option EspAlgorithms → Result EspAlgorithms → Result EspAlgorithms
or_else (some found) later = ok found
or_else none later = later

abbrev pub first_esp : Proposal → Option ℕ → List EspAlgorithms → Result EspAlgorithms
first_esp proposal group [] = fail no_esp_algorithm
first_esp proposal group (set ∷ sets) =
    let later = first_esp proposal group sets in or_else (fits_esp proposal group set) later

-- `<[u8; 4]>::try_from`
abbrev spi_of : Bytes → Result ℕ
spi_of (a ∷ b ∷ c ∷ d ∷ []) = ok (from_be32 a b c d)
spi_of _ = fail no_esp_spi

unfoldable pub select_esp : Proposal → List EspAlgorithms → Option ℕ → Result (EspAlgorithms × ℕ)
unfolding fits_esp protocol_id offers has_type
select_esp proposal offered group =
    reject (not (protocol_id proposal.protocol == protocol_id esp) || proposal.foreign) not_for_esp
    and_then λ _. spi_of proposal.spi and_then λ spi.
        reject (has_type proposal esn && not (offers proposal esn 0 none)) extended_sequence_numbers
        and_then λ _. first_esp proposal group offered and_then λ set. ok (set, spi)
