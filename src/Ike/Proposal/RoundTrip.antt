-- ===== src/Ike/Proposal/RoundTrip.antt =====
-- The SA payload of message/proposal.rs, encoded and decoded.
use openfortivpn_rs.Ike.Bytes.Laws.{
  take_of_length, u16_put, len16_fits, take_exact, u8_put, len8_fits,
}
use openfortivpn_rs.Prelude.{
  ◌∙◌, zero, ap, ◌-◌, length-append, ◌*◌, ◌≤◌, ◌+◌, false, true, length, append-nil, suc, is_empty,
  All, sym, List, ℕ, ◌^◌, ◌<◌, ◌≡◌, Bool, Option, none, some, [], ◌∷◌, ◌++◌, append_assoc, Bytes,
  be16, if◌then◌else◌, arith,
}
use openfortivpn_rs.Ike.Result.{ok}
use openfortivpn_rs.Ike.Bytes.{take, u8, u16, skip}
use openfortivpn_rs.Ike.Proposal.{
  decode, encode_onto, encode, decode_loop, Protocol, protocol_from_id, protocol_id, decode_body,
  encode_proposal, Proposal, decode_proposal, decode_transforms, encode_transforms, Decoding,
  TransformType, type_id, Transform, encode_transform, read_attribute, read_attributes,
  decode_transform,
}

abbrev Fits16 : Option ℕ → Type 0
Fits16 none = Unit
Fits16 (some bits) = bits < 2 ^ 16

-- A transform whose numbers fit their fields.
pub record IsTransform (t : Transform) : Type 0 where
  pub id_fits : t.id < 2 ^ 16
  pub bits_fit : Fits16 t.key_bits

abbrev key_bytes : Option ℕ → Bytes
key_bytes none = []
key_bytes (some bits) = 0x80 ∷ 14 ∷ be16 bits

-- The wire form of a transform, `total` its length.
abbrev transform_bytes : ℕ → Transform → Bool → Bytes
transform_bytes total t last =
    (if last then 0 else 3)
    ∷ 0
    ∷ (be16 total ++ (type_id t.kind ∷ 0 ∷ (be16 t.id ++ key_bytes t.key_bits)))

abbrev total_len : Option ℕ → ℕ
total_len none = 8
total_len (some bits) = 12

pub encode_transform-append :
    (t : Transform) (last : Bool) (out : Bytes)
    → encode_transform t last out ≡ out ++ transform_bytes (total_len t.key_bits) t last
unfolding encode_transform
encode_transform-append t last out = go t.key_bits
  where
    go :
        (k : Option ℕ)
        → encode_transform (record t { key_bits = k }) last out
          ≡ out ++ transform_bytes (total_len k) (record t { key_bits = k }) last
    go none = simp append_assoc
    go (some bits) = simp append_assoc

decode-transform_bytes :
    (k : TransformType) (id : ℕ) (key : Option ℕ) (last : Bool) (r : Bytes)
    → id < 2 ^ 16
    → Fits16 key
    → let t : Transform = record { kind = k; id = id; key_bits = key } in
      decode_transform (transform_bytes (total_len key) t last ++ r) ≡ ok ((some t, last), r)
unfolding decode_transform u8 u16 skip take read_attributes read_attribute type_id
decode-transform_bytes k id none last r h f = ground arith
decode-transform_bytes k id (some bits) last r h f = ground arith

abbrev transforms_bytes : List Transform → Bytes
transforms_bytes [] = []
transforms_bytes (t ∷ ts) =
    transform_bytes (total_len t.key_bits) t (is_empty ts) ++ transforms_bytes ts

encode_transforms-append :
    (ts : List Transform) (out : Bytes) → encode_transforms ts out ≡ out ++ transforms_bytes ts
unfolding encode_transforms
encode_transforms-append [] out = sym (append-nil out)
encode_transforms-append (t ∷ ts) out =
    simp (encode_transforms-append ts, encode_transform-append, append_assoc)

abbrev extend : Decoding → List Transform → Decoding
extend d ts = record d { transforms = d.transforms ++ ts; decoded = d.decoded + length ts }

decode-transforms_bytes :
    (t : Transform) (ts : List Transform) (d : Decoding) (r : Bytes)
    → IsTransform t
    → All IsTransform ts
    → decode_transforms (suc (length ts)) d (transforms_bytes (t ∷ ts) ++ r)
      ≡ ok (extend d (t ∷ ts), r)
unfolding decode_transforms
decode-transforms_bytes t [] d r h hs = ground (
  arith,
  append_assoc (transform_bytes (total_len t.key_bits) t true) [] r,
  decode-transform_bytes t.kind t.id t.key_bits true r h.id_fits h.bits_fit,
)
decode-transforms_bytes t (t' ∷ ts) d r h hs =
    let first = extend d (t ∷ []) in
    ground (
      arith,
      append_assoc (transform_bytes (total_len t.key_bits) t false) (transforms_bytes (t' ∷ ts)) r,
      decode-transform_bytes t.kind t.id t.key_bits false (transforms_bytes (t' ∷ ts) ++ r)
          h.id_fits h.bits_fit,
      decode-transforms_bytes t' ts first r hs.0 hs.1,
      append_assoc d.transforms (t ∷ []) (t' ∷ ts),
    )

decode-All_transforms :
    (ts : List Transform) (d : Decoding) (r : Bytes)
    → All IsTransform ts
    → decode_transforms (length ts) d (transforms_bytes ts ++ r) ≡ ok (extend d ts, r)
decode-All_transforms [] d r hs =
    unfold decode_transforms in ground (arith, append-nil d.transforms)
decode-All_transforms (t ∷ ts) d r hs = decode-transforms_bytes t ts d r hs.0 hs.1

length-key_bytes : (k : Option ℕ) → length (key_bytes k) ≤ 4
length-key_bytes none = omega arith
length-key_bytes (some bits) = omega arith

length-transforms_bytes : (ts : List Transform) → length (transforms_bytes ts) ≤ 12 * length ts
length-transforms_bytes [] = omega arith
length-transforms_bytes (t ∷ ts) = omega (
  arith,
  length-append (transform_bytes (total_len t.key_bits) t (is_empty ts)) (transforms_bytes ts),
  length-key_bytes t.key_bits,
  length-transforms_bytes ts,
)

-- A proposal that the encoder does not panic on and that names every transform of its wire form.
pub record IsProposal (p : Proposal) : Type 0 where
  pub spi_fits : length p.spi < 2 ^ 8
  pub count_fits : length p.transforms < 2 ^ 8
  pub transforms_fit : All IsTransform p.transforms
  pub not_foreign : p.foreign ≡ false

abbrev body_bytes : Proposal → Bytes
body_bytes p =
    p.number
    ∷ protocol_id p.protocol
    ∷ length p.spi
    ∷ length p.transforms
    ∷ (p.spi ++ transforms_bytes p.transforms)

abbrev proposal_bytes : Proposal → Bool → Bytes
proposal_bytes p last =
    (if last then 0 else 2) ∷ 0 ∷ (be16 (length (body_bytes p) + 4) ++ body_bytes p)

length-body_bytes : (p : Proposal) → IsProposal p → length (body_bytes p) + 4 < 2 ^ 16
length-body_bytes p h = omega (
  arith,
  length-append p.spi (transforms_bytes p.transforms),
  length-transforms_bytes p.transforms,
)

encode_proposal-append :
    (p : Proposal) (last : Bool) (out : Bytes)
    → IsProposal p
    → encode_proposal p last out ≡ ok (out ++ proposal_bytes p last)
unfolding encode_proposal
encode_proposal-append p last out h = simp (
  len8_fits (length p.spi) h.spi_fits,
  len8_fits (length p.transforms) h.count_fits,
  encode_transforms-append,
  append_assoc,
  len16_fits (length (body_bytes p) + 4) (length-body_bytes p h),
)

pub protocol_from_id-protocol_id : (p : Protocol) → protocol_from_id (protocol_id p) ≡ some p
unfolding protocol_from_id protocol_id
protocol_from_id-protocol_id p = ground arith

decode-body_bytes : (p : Proposal) → IsProposal p → decode_body (body_bytes p) ≡ ok (p, [])
unfolding decode_body
decode-body_bytes p h =
    let start : Decoding = record { transforms = []; foreign = false; decoded = 0 } in
    let read = decode-All_transforms p.transforms start [] h.transforms_fit in
    ground (
      arith,
      u8_put p.number (
          protocol_id p.protocol
          ∷ length p.spi
          ∷ length p.transforms
          ∷ (p.spi ++ transforms_bytes p.transforms)),
      u8_put (protocol_id p.protocol)
          (length p.spi ∷ length p.transforms ∷ (p.spi ++ transforms_bytes p.transforms)),
      u8_put (length p.spi) (length p.transforms ∷ (p.spi ++ transforms_bytes p.transforms)),
      u8_put (length p.transforms) (p.spi ++ transforms_bytes p.transforms),
      take_exact p.spi (transforms_bytes p.transforms),
      append-nil (transforms_bytes p.transforms),
      read,
      protocol_from_id-protocol_id p.protocol,
    )

decode-proposal_bytes :
    (p : Proposal) (last : Bool) (r : Bytes)
    → IsProposal p
    → decode_proposal (proposal_bytes p last ++ r) ≡ ok ((p, last), r)
unfolding decode_proposal u8 skip take u16
decode-proposal_bytes p last r h = ground (
  arith,
  u16_put (length (body_bytes p) + 4) (body_bytes p ++ r) (length-body_bytes p h),
  take_of_length (length (body_bytes p) + 4 - 4) (body_bytes p) r,
  decode-body_bytes p h,
)

abbrev proposals_bytes : List Proposal → Bytes
proposals_bytes [] = []
proposals_bytes (p ∷ ps) = proposal_bytes p (is_empty ps) ++ proposals_bytes ps

encode_onto-append :
    (ps : List Proposal) (out : Bytes)
    → All IsProposal ps
    → encode_onto ps out ≡ ok (out ++ proposals_bytes ps)
unfolding encode_onto
encode_onto-append [] out h = ap ok (sym (append-nil out))
encode_onto-append (p ∷ ps) out h =
    rw (encode_proposal-append p (is_empty ps) out h.0)
      (encode_onto-append ps _ h.1 ∙ ap ok (append_assoc out _ _))

length-proposals_bytes : (ps : List Proposal) → length ps ≤ length (proposals_bytes ps)
length-proposals_bytes [] = omega arith
length-proposals_bytes (p ∷ ps) = omega (
  arith,
  length-append (proposal_bytes p (is_empty ps)) (proposals_bytes ps),
  length-proposals_bytes ps,
)

decode_loop-proposals_bytes :
    (fuel : ℕ) (found ps : List Proposal)
    → All IsProposal ps
    → length ps ≤ fuel
    → decode_loop fuel found (proposals_bytes ps) ≡ ok (found ++ ps, [])
unfolding decode_loop
decode_loop-proposals_bytes fuel found [] h f = ground (arith, append-nil found)
decode_loop-proposals_bytes zero found (p ∷ ps) h f = absurd (omega arith)
decode_loop-proposals_bytes (suc fuel) found (p ∷ []) h f = rw (decode-proposal_bytes p true [] h.0)
decode_loop-proposals_bytes (suc fuel) found (p ∷ q ∷ ps) h f =
    rw (decode-proposal_bytes p false (proposals_bytes (q ∷ ps)) h.0) (
      rw (decode_loop-proposals_bytes fuel (found ++ p ∷ []) (q ∷ ps) h.1 (omega arith))
        (rw append_assoc))

-- The SA payload of valid proposals is encoded with no error and no panic, and decoding it gives
-- the same proposals back, in order, with every transform and key length.
pub decode-encode :
    (ps : List Proposal)
    → All IsProposal ps
    → (bytes : Bytes) × (encode ps ≡ ok bytes) × (decode bytes ≡ ok ps)
unfolding encode decode
decode-encode ps h = (
  proposals_bytes ps,
  encode_onto-append ps [] h,
  rw (
      decode_loop-proposals_bytes (length (proposals_bytes ps)) [] ps h
        (length-proposals_bytes ps)),
)
