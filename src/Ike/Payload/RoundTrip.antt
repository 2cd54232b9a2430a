-- ===== src/Ike/Payload/RoundTrip.antt =====
-- The payloads of message/payload.rs, encoded and decoded.
use openfortivpn_rs.Ike.Result.{ok}
use openfortivpn_rs.Prelude.{
  ◌∷◌, ◌∙◌, length-append, ◌≢◌, ◌+◌, ◌^◌, sym, ◌≡◌, ◌≤◌, be16, ◌<◌, ◌++◌, ◌-◌, All, lt→ltb, Bytes,
  length, append-nil, ℕ, append_assoc, List, [], suc, zero, ap, arith, suc, zero, ◌∷◌, [],
}
use openfortivpn_rs.Ike.Bytes.Laws.{
  skip_one, take_exact, take_of_length, u8_put, u16_put, len16_fits, len8_fits,
}
use openfortivpn_rs.Ike.Bytes.{u8, skip}
use openfortivpn_rs.Ike.Payload.{
  Notify, Identity, encode_identity, encode_notify, first_len, encode_delete, none_kind, put_spis,
  decode_identity, decode_notify, take_spis, decode_delete, Delete, RawPayload, chain_loop,
  parse_chain, chain_onto, encode_chain, first_kind,
}

-- A payload that a chain can carry: not of the type that ends it, and short enough.
pub record IsPayload (p : RawPayload) : Type 0 where
  pub not_none : p.kind ≢ none_kind
  pub body_fits : length p.body + 4 < 2 ^ 16

abbrev pub chain_bytes : List RawPayload → Bytes
chain_bytes [] = []
chain_bytes (p ∷ ps) = first_kind ps ∷ 0 ∷ (be16 (length p.body + 4) ++ (p.body ++ chain_bytes ps))

pub chain_onto-append :
    (ps : List RawPayload) (out : Bytes)
    → All IsPayload ps
    → chain_onto ps out ≡ ok (out ++ chain_bytes ps)
unfolding chain_onto
chain_onto-append [] out h = ap ok (sym (append-nil out))
chain_onto-append (p ∷ ps) out h =
    rw (len16_fits (length p.body + 4) h.0.body_fits)
      (chain_onto-append ps _ h.1 ∙ ap ok (simp append_assoc))

chain_step :
    (fuel next kind : ℕ) (found : List RawPayload) (body r : Bytes)
    → kind ≢ none_kind
    → length body + 4 < 2 ^ 16
    → chain_loop (suc fuel) kind found (next ∷ 0 ∷ (be16 (length body + 4) ++ (body ++ r)))
      ≡ chain_loop fuel next (found ++ record { kind = kind; body = body } ∷ []) r
unfolding chain_loop
chain_step fuel next kind found body r n f = ground (
  arith,
  u8_put next (0 ∷ (be16 (length body + 4) ++ (body ++ r))),
  skip_one 0 (be16 (length body + 4) ++ (body ++ r)),
  u16_put (length body + 4) (body ++ r),
  take_of_length (length body + 4 - 4) body r,
)

chain_loop-chain_bytes :
    (fuel : ℕ) (found ps : List RawPayload)
    → All IsPayload ps
    → length ps ≤ fuel
    → chain_loop fuel (first_kind ps) found (chain_bytes ps) ≡ ok (found ++ ps, [])
unfolding first_kind
chain_loop-chain_bytes zero found [] h f = unfold chain_loop in rw append-nil
chain_loop-chain_bytes (suc fuel) found [] h f = unfold chain_loop in rw append-nil
chain_loop-chain_bytes zero found (p ∷ ps) h f = absurd (omega arith)
chain_loop-chain_bytes (suc fuel) found (p ∷ ps) h f =
    chain_step fuel (first_kind ps) p.kind found p.body (chain_bytes ps) h.0.not_none h.0.body_fits
    ∙ chain_loop-chain_bytes fuel (found ++ p ∷ []) ps h.1 (omega arith)
    ∙ ap (λ x. ok (x, [])) (append_assoc found (p ∷ []) ps)

pub length-chain_bytes : (ps : List RawPayload) → length ps ≤ length (chain_bytes ps)
length-chain_bytes [] = omega arith
length-chain_bytes (p ∷ ps) =
    omega (arith, length-chain_bytes ps, length-append p.body (chain_bytes ps))

pub parse_chain-chain_bytes :
    (ps : List RawPayload) → All IsPayload ps → parse_chain (first_kind ps) (chain_bytes ps) ≡ ok ps
unfolding parse_chain
parse_chain-chain_bytes ps h = rw (
    chain_loop-chain_bytes (length (chain_bytes ps) + 1) [] ps h
      (omega (arith, length-chain_bytes ps)))

-- A chain of payloads of less than 2 ^ 16 - 4 bytes each, none of the type that ends a chain, is
-- encoded with no error, behind what the buffer holds, and parsing it from
-- the type of its first payload gives the same payloads back, in order.
pub parse_chain-encode_chain :
    (ps : List RawPayload) (out : Bytes)
    → All IsPayload ps
    → (chain : Bytes) × (encode_chain ps out ≡ ok (out ++ chain, first_kind ps))
      × (parse_chain (first_kind ps) chain ≡ ok ps)
unfolding encode_chain
parse_chain-encode_chain ps out h =
    (chain_bytes ps, rw (chain_onto-append ps out h), parse_chain-chain_bytes ps h)

pub decode_identity-encode_identity : (i : Identity) → decode_identity (encode_identity i) ≡ ok i
unfolding decode_identity encode_identity u8 skip
decode_identity-encode_identity i = ground arith

-- A notification with a short SPI is encoded with no panic and decoded to itself.
pub decode_notify-encode_notify :
    (n : Notify)
    → length n.spi < 2 ^ 8
    → n.kind < 2 ^ 16
    → (bytes : Bytes) × (encode_notify n ≡ ok bytes) × (decode_notify bytes ≡ ok n)
unfolding decode_notify encode_notify
decode_notify-encode_notify n s k =
    let bytes = n.protocol ∷ length n.spi ∷ (be16 n.kind ++ (n.spi ++ n.body)) in
    (
      bytes,
      rw (len8_fits (length n.spi) s) (ap ok (simp append_assoc)),
      ground (
        arith,
        u8_put n.protocol (length n.spi ∷ (be16 n.kind ++ (n.spi ++ n.body))),
        u8_put (length n.spi) (be16 n.kind ++ (n.spi ++ n.body)),
        u16_put n.kind (n.spi ++ n.body) k,
        take_exact n.spi n.body,
      ),
    )

abbrev flat : List Bytes → Bytes
flat [] = []
flat (spi ∷ spis) = spi ++ flat spis

put_spis-append : (spis : List Bytes) (out : Bytes) → put_spis spis out ≡ out ++ flat spis
unfolding put_spis
put_spis-append [] out = sym (append-nil out)
put_spis-append (spi ∷ spis) out =
    put_spis-append spis (out ++ spi) ∙ append_assoc out spi (flat spis)

take_spis-flat :
    (n : ℕ) (spis found : List Bytes)
    → All (λ spi. length spi ≡ n) spis
    → take_spis (length spis) n found (flat spis) ≡ ok (found ++ spis, [])
unfolding take_spis
take_spis-flat n [] found h = rw append-nil
take_spis-flat n (spi ∷ spis) found h =
    rw (take_of_length n spi (flat spis) (sym h.0))
      (take_spis-flat n spis (found ++ spi ∷ []) h.1 ∙ rw append_assoc)

-- The SPIs of a Delete payload have one length, which its header carries.
pub record IsDelete (d : Delete) : Type 0 where
  pub same_length : All (λ spi. length spi ≡ first_len d.spis) d.spis
  pub length_fits : first_len d.spis < 2 ^ 8
  pub count_fits : length d.spis < 2 ^ 16

-- A Delete payload is encoded with no panic and decoded to itself.
pub decode_delete-encode_delete :
    (d : Delete)
    → IsDelete d
    → (bytes : Bytes) × (encode_delete d ≡ ok bytes) × (decode_delete bytes ≡ ok d)
unfolding decode_delete encode_delete
decode_delete-encode_delete d h =
    let len = first_len d.spis in
    let bytes = d.protocol ∷ len ∷ (be16 (length d.spis) ++ flat d.spis) in
    (
      bytes,
      rw (len8_fits len h.length_fits) (
          rw (lt→ltb (length d.spis) (2 ^ 16) h.count_fits)
            (ap ok (put_spis-append d.spis (d.protocol ∷ len ∷ be16 (length d.spis))))),
      ground (
        arith,
        u8_put d.protocol (len ∷ (be16 (length d.spis) ++ flat d.spis)),
        u8_put len (be16 (length d.spis) ++ flat d.spis),
        u16_put (length d.spis) (flat d.spis) h.count_fits,
        take_spis-flat len d.spis [] h.same_length,
      ),
    )
