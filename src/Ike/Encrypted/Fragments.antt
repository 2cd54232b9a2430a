-- ===== src/Ike/Encrypted/Fragments.antt =====
-- A message of message/mod.rs sent encrypted, whole or in fragments, as the peer receives it.
use openfortivpn_rs.Ike.Payload.RoundTrip.{
  parse_chain-chain_bytes, chain_onto-append, chain_bytes, IsPayload,
}
use openfortivpn_rs.Ike.Cipher.Laws.{CipherLaws}
use openfortivpn_rs.Ike.Reassembler.Order.{feed, fragment, waits, whole, feed_any_order, Distinct}
use openfortivpn_rs.Ike.Encrypted.RoundTrip.{decrypted}
use openfortivpn_rs.Ike.Encrypted.Chunks.{
  joined-concat, seal_fragments-AreCarried, concat-chunks_from, CarriesPiece, carried_at, next_of,
  piece_at, AreCarried,
}
use openfortivpn_rs.Ike.Encrypted.Datagram.{seal_message-Carries, Carries, HasIds, AreKeys}
use openfortivpn_rs.Ike.Payload.{parse_chain, first_kind, encode_chain}
use openfortivpn_rs.Ike.Packet.{parse_packet, Message}
use openfortivpn_rs.Ike.Encrypted.{
  chunks, chunk_len, decrypt_packet, seal_chain, Keys, encode_encrypted,
}
use openfortivpn_rs.Ike.Cipher.{
  aes_cbc, aes_gcm16, chacha20_poly1305, Cipher, Integrity, Primitives,
}
use openfortivpn_rs.Ike.Reassembler.{add, payloads, Decrypted, Reassembler, default, max_fragments}
use openfortivpn_rs.Ike.Result.{◌and_then◌, Result, err, ok}
use openfortivpn_rs.Prelude.{
  true, ◌∙◌, sym, ltb, true, ◌≢◌, ◌++◌, length, ◌^◌, subst, ◌≡◌, All, ap, none, Option, ◌-◌, ℕ,
  arith, ◌∷◌, [], ◌<◌, ◌+◌, Bytes, some, List, ◌≤◌, refl, some, none, refl, ◌∷◌, [],
}

-- A datagram as session.rs takes a fragment: it is parsed, decrypted, and added.
abbrev pub opened : Primitives → Keys → Bytes → Result (ℕ × Decrypted)
opened lib keys bytes = parse_packet bytes and_then λ packet.
    decrypt_packet lib keys packet and_then λ found. ok (packet.header.message_id, found)

abbrev pub add_opened :
    Reassembler → Result (ℕ × Decrypted) → Reassembler × Result (Option Decrypted)
add_opened r (err e) = (r, err e)
add_opened r (ok found) = add r found.0 found.1

-- The datagrams of the given numbers, one after the other, and the answers to them.
abbrev pub arrive :
    Primitives
    → Keys
    → List Bytes
    → Reassembler
    → List ℕ
    → Reassembler × List (Result (Option Decrypted))
arrive lib keys datagrams r [] = (r, [])
arrive lib keys datagrams r (n ∷ ns) =
    let (r', answer) = add_opened r (opened lib keys (piece_at datagrams n)) in
    let (r'', answers) = arrive lib keys datagrams r' ns in (r'', answer ∷ answers)

opened-Carries :
    (lib : Primitives) (random : Bytes) (self : Message) (keys : Keys) (next : ℕ) (plain : Bytes)
    (fragment : Option (ℕ × ℕ)) (bytes : Bytes)
    → Carries lib random self keys next plain fragment bytes
    → opened lib keys bytes ≡ ok (self.id, decrypted next plain fragment)
opened-Carries lib random self keys next plain fragment bytes c =
    rw (c.1.1, c.1.3) (ap (λ id. ok (id, decrypted next plain fragment)) c.1.2)

-- With ciphers that behave as documented, keys of the right size, an IV of 16 bytes, payloads of less
-- than 2 ^ 16 - 4 bytes each and none of the type that ends a chain, less than 2 ^ 16 - 100 bytes of
-- them together, and numbers in the header that fit it: a message that is not in fragments is sealed
-- into one datagram, which is parsed and decrypted to the message's payloads.
pub payloads-encode_encrypted :
    (lib : Primitives) (randoms : ℕ → Bytes) (self : Message) (keys : Keys) (max_len : Option ℕ)
    → CipherLaws lib
    → AreKeys keys
    → HasIds self
    → length (randoms 0) ≡ 16
    → All IsPayload self.payloads
    → length (chain_bytes self.payloads) + 100 < 2 ^ 16
    → chunk_len keys max_len (length (chain_bytes self.payloads)) ≡ none
    → (bytes : Bytes) × (encode_encrypted lib randoms self keys max_len ≡ ok (bytes ∷ []))
      × ((found : Decrypted) × (opened lib keys bytes ≡ ok (self.id, found))
          × (payloads found ≡ ok self.payloads))
unfolding encode_encrypted seal_chain encode_chain payloads
payloads-encode_encrypted lib randoms self keys max_len laws k ids r p small whole =
    let chain = chain_bytes self.payloads in
    let first = first_kind self.payloads in
    let one =
      seal_message-Carries lib laws self keys (randoms 0) first chain none k ids r tt small in
    (
      one.0,
      rw (chain_onto-append self.payloads [] p, whole, one.1.0) refl,
      (
        decrypted first chain none,
        opened-Carries lib (randoms 0) self keys first chain none one.0 one.1,
        parse_chain-chain_bytes self.payloads p,
      ),
    )

module _ (lib : Primitives) (randoms : ℕ → Bytes) (self : Message) (keys : Keys) (first : ℕ)
    (pieces datagrams : List Bytes)
    (carried : AreCarried lib randoms self keys first (length pieces) 1 pieces datagrams) where
  add_opened-fragment :
      (r : Reassembler) (n : ℕ)
      → (1 ≤ n) × (n ≤ length pieces)
      → add_opened r (opened lib keys (piece_at datagrams n))
        ≡ add r self.id (fragment self.id (length pieces) (next_of first) (piece_at pieces) n)
  add_opened-fragment r n i =
      let total = length pieces in
      let at : 1 + (n - 1) ≡ n = omega (arith, i.0) in
      let c =
        carried_at lib randoms self keys first total 1 (n - 1) pieces datagrams carried
          (omega (arith, i.0, i.1)) in
      ap (add_opened r) (
        opened-Carries lib (randoms n) self keys (next_of first n) (piece_at pieces n)
          (some (n, total)) (piece_at datagrams n)
          (subst
            (λ m.
              CarriesPiece lib randoms self keys first total m (piece_at pieces n)
                (piece_at datagrams n))
            at c))

  arrive-feed :
      (r : Reassembler) (order : List ℕ)
      → All (λ n. (1 ≤ n) × (n ≤ length pieces)) order
      → arrive lib keys datagrams r order
        ≡ feed self.id (length pieces) (next_of first) (piece_at pieces) r order
  arrive-feed r [] i = refl
  arrive-feed r (n ∷ ns) i =
      let total = length pieces in
      let added = add r self.id (fragment self.id total (next_of first) (piece_at pieces) n) in
      rw (add_opened-fragment r n i.0, arrive-feed added.0 ns i.1) refl

-- When a message comes in fragments, its chain and the chunks of it are not empty, and the chunks leave
-- room for the rest of a datagram.
chunk_len-room :
    (cipher : Cipher) (checksum : Integrity) (encryption integrity_key : Bytes) (limit n len : ℕ)
    → chunk_len
        (record {
          cipher = cipher;
          integrity = checksum;
          encryption = encryption;
          integrity_key = integrity_key;
        })
        (some limit)
        n
      ≡ some len
    → (0 < n) × (0 < len) × (len + 36 ≤ limit)
chunk_len-room (aes_cbc bits) checksum encryption integrity_key limit n len e = ground (arith, e)
chunk_len-room (aes_gcm16 bits) checksum encryption integrity_key limit n len e = ground (arith, e)
chunk_len-room chacha20_poly1305 checksum encryption integrity_key limit n len e = ground (arith, e)

chunks_nonempty : (len : ℕ) (chain : Bytes) → 0 < length chain → 0 < length (chunks len chain)
chunks_nonempty len [] h = absurd (omega (arith, h))
chunks_nonempty len (b ∷ chain) h = omega arith

-- With ciphers that behave as documented, keys of the right size, IVs of 16 bytes, payloads of less
-- than 2 ^ 16 - 4 bytes each and none of the type that ends a chain, numbers in the header that fit
-- it, and datagrams of at most 65000 bytes: a message that is sent in fragments, at most 64 of them,
-- is sealed with no error, into a datagram for each chunk of its chain; a peer that is not at that message takes them in any order, each once, and
-- answers all but the last with nothing and the last with a whole that has the message's payloads.
pub arrive-encode_encrypted :
    (lib : Primitives) (randoms : ℕ → Bytes) (self : Message) (keys : Keys) (limit len : ℕ)
    (r : Reassembler) (order : List ℕ)
    → CipherLaws lib
    → AreKeys keys
    → HasIds self
    → ((number : ℕ) → length (randoms number) ≡ 16)
    → All IsPayload self.payloads
    → limit ≤ 65000
    → chunk_len keys (some limit) (length (chain_bytes self.payloads)) ≡ some len
    → length (chunks len (chain_bytes self.payloads)) ≤ max_fragments
    → r.message_id ≢ some self.id
    → Distinct order
    → All (λ n. (1 ≤ n) × (n ≤ length (chunks len (chain_bytes self.payloads)))) order
    → length order ≡ length (chunks len (chain_bytes self.payloads))
    → (datagrams : List Bytes) × (encode_encrypted lib randoms self keys (some limit)
        ≡ ok datagrams)
      × (length datagrams ≡ length order)
      × ((found : Decrypted) × (payloads found ≡ ok self.payloads)
          × (arrive lib keys datagrams r order
              ≡ (default, waits (length order - 1) ++ ok (some found) ∷ [])))
unfolding encode_encrypted seal_chain encode_chain payloads
arrive-encode_encrypted lib randoms self keys limit len r order laws k ids randomness p small cut
      few new d i e =
    let chain = chain_bytes self.payloads in
    let first = first_kind self.payloads in
    let pieces = chunks len chain in
    let total = length pieces in
    let room =
      chunk_len-room keys.cipher keys.integrity keys.encryption keys.integrity_key limit
        (length chain) len cut in
    let cuts = concat-chunks_from (length chain) len chain room.1 (omega arith) in
    let s =
      seal_fragments-AreCarried lib randoms self keys first total laws k ids randomness
        (omega (arith, few)) len 1 pieces (omega (arith, room.2, small)) (omega arith) cuts.1 in
    let found = whole self.id total (next_of first) (piece_at pieces) in
    let inner : found.inner ≡ chain = joined-concat pieces ∙ cuts.0 in
    let fits : ltb total (2 ^ 16) ≡ true = ground (arith, few) in
    (
      s.0,
      rw (chain_onto-append self.payloads [] p, cut, fits) s.1,
      s.3 ∙ sym e,
      (
        found,
        ap (parse_chain first) inner ∙ parse_chain-chain_bytes self.payloads p,
        arrive-feed lib randoms self keys first pieces s.0 s.2 r order i
            ∙ feed_any_order self.id total (next_of first) (piece_at pieces) few r order new d i e
                (chunks_nonempty len chain room.0)
            ∙ ap (λ n. (default, waits (n - 1) ++ ok (some found) ∷ [])) (sym e),
      ),
    )
