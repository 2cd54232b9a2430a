-- ===== src/Ike/Choice/Agreement.antt =====
-- The set that an initiator finds for the responder's choice among its proposals of proposals.rs.
use openfortivpn_rs.Ike.Result.{ok}
use openfortivpn_rs.Ike.Proposal.{protocol_id, type_id, ike, Proposal}
use openfortivpn_rs.Ike.Cipher.{
  aes_cbc, aes_gcm16, chacha20_poly1305, Cipher, hmac_sha512_256, hmac_sha384_192, hmac_sha384_192,
  hmac_sha256_128, hmac_sha256_128, hmac_sha1_96, hmac_sha1_96, hmac_md5_96, hmac_md5_96, is_aead,
  no_integrity, Integrity,
}
use openfortivpn_rs.Ike.Choice.{
  ike_proposal, ike_proposals, select_ike, first_ike, cipher_bits, cipher_id, cipher_transform,
  offers_cipher, prf_sha512, prf_sha384, prf_sha384, prf_sha256, prf_sha256, prf_sha1,
  ike_transforms, prf_sha1, offers, prf_md5, IkeAlgorithms, Prf, fits_ike, prf_id, integrity_id,
}
use openfortivpn_rs.Prelude.{
  length, ◌≤◌, ◌++◌, inl, subst, inr, ◌^◌, List, Bool-cases, ◌+◌, length-append, append_assoc, ltb,
  ◌∙◌, ap, sym, ◌∷◌, inr, inl, ◌∷◌, arith, if◌then◌else◌, none, true, Option, ◌≡◌, [], ℕ, false,
  refl, ◌==◌, false, true, none, refl, [],
}

abbrev prf_from : ℕ → Prf
prf_from id =
    if id == 1
    then prf_md5
    else if id == 2
    then prf_sha1
    else if id == 5
    then prf_sha256
    else if id == 6
    then prf_sha384
    else prf_sha512

prf_from-prf_id : (p : Prf) → prf_from (prf_id p) ≡ p
unfolding prf_id
prf_from-prf_id prf_md5 = refl
prf_from-prf_id prf_sha1 = refl
prf_from-prf_id prf_sha256 = refl
prf_from-prf_id prf_sha384 = refl
prf_from-prf_id prf_sha512 = refl

abbrev integrity_from : ℕ → Integrity
integrity_from id =
    if id == 1
    then hmac_md5_96
    else if id == 2
    then hmac_sha1_96
    else if id == 12
    then hmac_sha256_128
    else if id == 13
    then hmac_sha384_192
    else if id == 14
    then hmac_sha512_256
    else no_integrity

integrity_from-integrity_id : (i : Integrity) → integrity_from (integrity_id i) ≡ i
unfolding integrity_id
integrity_from-integrity_id no_integrity = refl
integrity_from-integrity_id hmac_md5_96 = refl
integrity_from-integrity_id hmac_sha1_96 = refl
integrity_from-integrity_id hmac_sha256_128 = refl
integrity_from-integrity_id hmac_sha384_192 = refl
integrity_from-integrity_id hmac_sha512_256 = refl

-- The same cipher, PRF and group, and the same integrity algorithm unless the cipher is an AEAD.
pub record Agree (a b : IkeAlgorithms) : Type 0 where
  pub same_cipher : a.cipher ≡ b.cipher
  pub same_prf : a.prf_with ≡ b.prf_with
  pub same_group : a.group ≡ b.group
  pub same_integrity : is_aead a.cipher ≡ false → a.integrity_with ≡ b.integrity_with

abbrev pub proposal_of : ℕ → IkeAlgorithms → Proposal
proposal_of number set = record {
  number = number;
  protocol = ike;
  spi = [];
  transforms = ike_transforms set;
  foreign = false;
}

abbrev set_of : Cipher → Prf → Integrity → ℕ → IkeAlgorithms
set_of c p i g = record { cipher = c; prf_with = p; integrity_with = i; group = g }

-- What agrees between two sets, by their numbers.
abbrev AgreeIds : Cipher → Prf → Integrity → ℕ → Cipher → Prf → Integrity → ℕ → Type 0
AgreeIds c p i g c' p' i' g' =
    (c' ≡ c)
    × (prf_id p' ≡ prf_id p)
    × (g' ≡ g)
    × (is_aead c' ≡ false → integrity_id i' ≡ integrity_id i)

-- What a proposal of one set says to another.
fits_ike-AgreeIds :
    (c c' : Cipher) (p p' : Prf) (i i' : Integrity) (g g' number : ℕ) (group : Option ℕ)
    → fits_ike (proposal_of number (set_of c p i g)) group (set_of c' p' i' g') ≡ true
    → AgreeIds c p i g c' p' i' g'
unfolding fits_ike offers offers_cipher ike_transforms cipher_transform cipher_id cipher_bits
    type_id
fits_ike-AgreeIds (aes_cbc b) (aes_cbc b') p p' i i' g g' number group h = ground (arith, h)
fits_ike-AgreeIds (aes_cbc b) (aes_gcm16 b') p p' i i' g g' number group h = ground (arith, h)
fits_ike-AgreeIds (aes_cbc b) chacha20_poly1305 p p' i i' g g' number group h = ground (arith, h)
fits_ike-AgreeIds (aes_gcm16 b) (aes_cbc b') p p' i i' g g' number group h = ground (arith, h)
fits_ike-AgreeIds (aes_gcm16 b) (aes_gcm16 b') p p' i i' g g' number group h = ground (arith, h)
fits_ike-AgreeIds (aes_gcm16 b) chacha20_poly1305 p p' i i' g g' number group h = ground (arith, h)
fits_ike-AgreeIds chacha20_poly1305 (aes_cbc b') p p' i i' g g' number group h = ground (arith, h)
fits_ike-AgreeIds chacha20_poly1305 (aes_gcm16 b') p p' i i' g g' number group h = ground (arith, h)
fits_ike-AgreeIds chacha20_poly1305 chacha20_poly1305 p p' i i' g g' number group h =
    ground (arith, h)

fits_ike_itself :
    (c : Cipher) (p : Prf) (i : Integrity) (g number : ℕ)
    → fits_ike (proposal_of number (set_of c p i g)) none (set_of c p i g) ≡ true
unfolding fits_ike offers offers_cipher ike_transforms cipher_transform cipher_id cipher_bits
    type_id
fits_ike_itself (aes_cbc b) p i g number = ground arith
fits_ike_itself (aes_gcm16 b) p i g number = ground arith
fits_ike_itself chacha20_poly1305 p i g number = ground arith

fits_ike-Agree :
    (number : ℕ) (group : Option ℕ) (set other : IkeAlgorithms)
    → fits_ike (proposal_of number set) group other ≡ true
    → Agree other set
fits_ike-Agree number group set other h =
    let a =
      fits_ike-AgreeIds set.cipher other.cipher set.prf_with other.prf_with set.integrity_with
        other.integrity_with set.group other.group number group h in
    record {
      same_cipher = a.0;
      same_prf =
          sym (prf_from-prf_id other.prf_with) ∙ ap prf_from a.1 ∙ prf_from-prf_id set.prf_with;
      same_group = a.2;
      same_integrity = λ cbc.
          sym (integrity_from-integrity_id other.integrity_with)
          ∙ ap integrity_from (a.3 cbc)
          ∙ integrity_from-integrity_id set.integrity_with;
    }

-- The first set that fits is found when one does.
first_ike-fits :
    (proposal : Proposal) (group : Option ℕ) (before : List IkeAlgorithms) (set : IkeAlgorithms)
    (after : List IkeAlgorithms)
    → fits_ike proposal group set ≡ true
    → (chosen : IkeAlgorithms) × (first_ike proposal group (before ++ set ∷ after) ≡ ok chosen)
      × (fits_ike proposal group chosen ≡ true)
first_ike-fits proposal group [] set after h = (set, rw h refl, h)
first_ike-fits proposal group (one ∷ before) set after h =
    let later = first_ike-fits proposal group before set after h in
    elim (Bool-cases (fits_ike proposal group one)) [
      | inl now ↦ (one, rw now refl, now)
      | inr otherwise ↦ (later.0, rw otherwise later.1, later.2)
    ]

-- Each proposal, when the responder answers with it, is understood as the set it was made of.
abbrev pub AreUnderstood : List IkeAlgorithms → List Proposal → List IkeAlgorithms → Type 0
AreUnderstood offered [] [] = Unit
AreUnderstood offered [] (set ∷ sets) = ⊥
AreUnderstood offered (p ∷ ps) [] = ⊥
AreUnderstood offered (p ∷ ps) (set ∷ sets) =
    ((chosen : IkeAlgorithms) × (select_ike p offered none ≡ ok chosen) × Agree chosen set)
    × AreUnderstood offered ps sets

select_ike-first_ike :
    (number : ℕ) (set : IkeAlgorithms) (offered : List IkeAlgorithms) (group : Option ℕ)
    → select_ike (proposal_of number set) offered group
      ≡ first_ike (proposal_of number set) group offered
unfolding select_ike protocol_id
select_ike-first_ike number set offered group = refl

ike_proposals-from :
    (before sets : List IkeAlgorithms) (number : ℕ)
    → number ≡ length before + 1
    → length before + length sets ≤ 255
    → (ps : List Proposal) × (ike_proposals number sets ≡ ok ps)
      × AreUnderstood (before ++ sets) ps sets
unfolding ike_proposals ike_proposal
ike_proposals-from before [] number n few = ([], refl, tt)
ike_proposals-from before (set ∷ sets) number n few =
    let fits = fits_ike_itself set.cipher set.prf_with set.integrity_with set.group number in
    let found = first_ike-fits (proposal_of number set) none before set sets fits in
    let rest =
      ike_proposals-from (before ++ set ∷ []) sets (number + 1)
        (omega (arith, n, length-append before (set ∷ [])))
        (omega (arith, few, length-append before (set ∷ []))) in
    let small : ltb number (2 ^ 8) ≡ true = ground (arith, n, few) in
    (
      proposal_of number set ∷ rest.0,
      rw (small, rest.1) refl,
      (
        (
          found.0,
          select_ike-first_ike number set (before ++ set ∷ sets) none ∙ found.1,
          fits_ike-Agree number none set found.0 found.2,
        ),
        subst (λ all. AreUnderstood all rest.0 sets) (append_assoc before (set ∷ []) sets) rest.2,
      ),
    )

-- Up to 255 sets of algorithms are proposed with no panic, and whichever of the proposals the responder
-- answers with, the initiator finds a set of its own with the cipher, the PRF and the group that were
-- proposed, and with the integrity algorithm unless the cipher is an AEAD.
pub select_ike-ike_proposals :
    (sets : List IkeAlgorithms)
    → length sets ≤ 255
    → (ps : List Proposal) × (ike_proposals 1 sets ≡ ok ps) × AreUnderstood sets ps sets
select_ike-ike_proposals sets few = ike_proposals-from [] sets 1 (omega arith) (omega (arith, few))
