-- ===== src/Ike/Proposal.antt =====
-- crates/ikev2/src/message/proposal.rs: the proposals and transforms of the SA payload.
-- A bit test on a 16-bit field is written by `/` and `%`.
pub mod RoundTrip
pub mod Total
mod Tests
use Prim.Native.Nat.{bit_or}
use openfortivpn_rs.Prelude.{
  ℕ, zero, suc, ◌+◌, ◌-◌, ◌/◌, ◌%◌, ◌^◌, Bool, true, false, not, Option, none, some, List, [], ◌∷◌,
  ◌++◌, Bytes, length, is_empty, ltb, ◌==◌, if◌then◌else◌,
}
use openfortivpn_rs.Ike.Result.{
  Result, ok, err, fail, reject, expect, out_of_fuel, transform_too_short, proposal_too_short,
  transform_count_mismatch, unknown_protocol, trailing_data_after_proposals, ◌and_then◌,
}
use openfortivpn_rs.Ike.Bytes.{
  value_of, len8, Parse, resume, ◌>>=◌, ◌>>◌, pure, lift, take, u8, u16, skip, put_u8, put_u16,
  len16,
}

pub data Protocol : Type 0 where
  ike ah esp : Protocol

unfoldable pub protocol_id : Protocol → ℕ
protocol_id ike = 1
protocol_id ah = 2
protocol_id esp = 3

unfoldable pub protocol_from_id : ℕ → Option Protocol
protocol_from_id id =
    if id == 1 then some ike else if id == 2 then some ah else if id == 3 then some esp else none

pub data TransformType : Type 0 where
  encryption prf integrity diffie_hellman esn : TransformType

unfoldable pub type_id : TransformType → ℕ
type_id encryption = 1
type_id prf = 2
type_id integrity = 3
type_id diffie_hellman = 4
type_id esn = 5

unfoldable pub type_from_id : ℕ → Option TransformType
type_from_id id =
    if id == 1
    then some encryption
    else if id == 2
    then some prf
    else if id == 3
    then some integrity
    else if id == 4
    then some diffie_hellman
    else if id == 5
    then some esn
    else none

abbrev pub key_length : ℕ
key_length = 14

pub record Transform : Type 0 where
  pub kind : TransformType
  pub id : ℕ
  pub key_bits : Option ℕ

put_key_bits : Option ℕ → Bytes → Bytes
put_key_bits none out = out
put_key_bits (some bits) out = put_u16 bits (put_u16 (bit_or 0x8000 key_length) out)

abbrev transform_len : Option ℕ → ℕ
transform_len none = 8
transform_len (some bits) = 12

-- `Transform::encode`
pub encode_transform : Transform → Bool → Bytes → Bytes
unfolding put_key_bits type_id
encode_transform t last out = put_key_bits t.key_bits (
    put_u16 t.id (
      put_u8 0 (
        put_u8 (type_id t.kind)
          (put_u16 (transform_len t.key_bits) (put_u8 0 (put_u8 (if last then 0 else 3) out))))))

-- One turn of the loop over the attributes: the key length known after it.
pub read_attribute : Option ℕ → Parse (Option ℕ)
read_attribute key_bits = do
  type_and_format ← u16
  let attribute_type = type_and_format % 2 ^ 15
  if not (type_and_format / 2 ^ 15 % 2 == 0)
      then (do value ← u16; pure (if attribute_type == key_length then some value else key_bits))
      else (do value_len ← u16; skip value_len; pure key_bits)

-- `while !attributes.is_empty()`; the fuel is the number of bytes.
pub read_attributes : ℕ → Option ℕ → Bytes → Result (Option ℕ)
read_attributes fuel key_bits [] = ok key_bits
read_attributes zero key_bits (b ∷ r) = err out_of_fuel
read_attributes (suc fuel) key_bits (b ∷ r) =
    resume (λ key_bits' r'. read_attributes fuel key_bits' r') (read_attribute key_bits (b ∷ r))

of_type : ℕ → Option ℕ → Option TransformType → Option Transform
of_type id key_bits none = none
of_type id key_bits (some kind) = some (record { kind = kind; id = id; key_bits = key_bits })

-- `Transform::decode`
pub decode_transform : Parse (Option Transform × Bool)
unfolding of_type type_from_id
decode_transform = do
  more ← u8
  skip 1
  length ← u16
  lift (reject (ltb length 8) transform_too_short)
  kind ← u8
  skip 1
  id ← u16
  attributes ← take (length - 8)
  key_bits ← lift (read_attributes (openfortivpn_rs.Prelude.length attributes) none attributes)
  pure (of_type id key_bits (type_from_id kind), more == 0)

pub record Proposal : Type 0 where
  pub number : ℕ
  pub protocol : Protocol
  pub spi : Bytes
  pub transforms : List Transform
  pub foreign : Bool

-- The loop over the transforms; `index + 1 == count` where no transform follows.
pub encode_transforms : List Transform → Bytes → Bytes
encode_transforms [] out = out
encode_transforms (t ∷ ts) out = encode_transforms ts (encode_transform t (is_empty ts) out)

-- `Proposal::encode`
pub encode_proposal : Proposal → Bool → Bytes → Result Bytes
unfolding protocol_id encode_transforms
encode_proposal p last out = len8 (length p.spi) and_then λ spi_len.
    len8 (length p.transforms) and_then λ count.
    let head =
      put_u8 count (put_u8 spi_len (put_u8 (protocol_id p.protocol) (put_u8 p.number []))) in
    let body = encode_transforms p.transforms (head ++ p.spi) in
    len16 (length body + 4) and_then λ len.
    ok (put_u16 len (put_u8 0 (put_u8 (if last then 0 else 2) out)) ++ body)

-- The transforms, the foreign flag and the number decoded so far.
pub record Decoding : Type 0 where
  pub transforms : List Transform
  pub foreign : Bool
  pub decoded : ℕ

abbrev note : Option Transform → Decoding → Decoding
note none d = record d { foreign = true; decoded = d.decoded + 1 }
note (some t) d = record d { transforms = d.transforms ++ t ∷ []; decoded = d.decoded + 1 }

-- `for _ in 0..count`, which the last transform breaks.
pub decode_transforms : ℕ → Decoding → Parse Decoding
decode_transforms zero d = pure d
decode_transforms (suc n) d = decode_transform >>= λ found.
    let d' = note found.0 d in
    let more = decode_transforms n d' in if found.1 then pure d' else more

pub known_protocol : ℕ → Option Protocol → Result Protocol
known_protocol id none = fail (unknown_protocol id)
known_protocol id (some protocol) = ok protocol

-- The part of `Proposal::decode` behind the length, on the body's own reader.
pub decode_body : Parse Proposal
unfolding decode_transforms known_protocol protocol_from_id
decode_body = do
  number ← u8
  protocol ← u8
  spi_len ← u8
  count ← u8
  spi ← take spi_len
  d ← decode_transforms count (record { transforms = []; foreign = false; decoded = 0 })
  lift (reject (not (d.decoded == count)) transform_count_mismatch)
  known ← lift (known_protocol protocol (protocol_from_id protocol))
  pure (record {
    number = number;
    protocol = known;
    spi = spi;
    transforms = d.transforms;
    foreign = d.foreign;
  })

-- `Proposal::decode`
pub decode_proposal : Parse (Proposal × Bool)
decode_proposal = do
  more ← u8
  skip 1
  length ← u16
  lift (reject (ltb length 8) proposal_too_short)
  body ← take (length - 4)
  p ← lift (value_of (decode_body body))
  pure (p, more == 0)

encode_onto : List Proposal → Bytes → Result Bytes
encode_onto [] out = ok out
encode_onto (p ∷ ps) out = encode_proposal p (is_empty ps) out and_then λ out'. encode_onto ps out'

pub encode : List Proposal → Result Bytes
unfolding encode_onto
encode proposals = encode_onto proposals []

-- `while !reader.is_empty()`, which the last proposal breaks; the fuel is the number of bytes.
pub decode_loop : ℕ → List Proposal → Parse (List Proposal)
decode_loop fuel found [] = ok (found, [])
decode_loop zero found (b ∷ r) = err out_of_fuel
decode_loop (suc fuel) found (b ∷ r) =
    resume
      (λ next r'.
        let found' = found ++ next.0 ∷ [] in
        let more = decode_loop fuel found' r' in if next.1 then ok (found', r') else more)
      (decode_proposal (b ∷ r))

pub decode : Bytes → Result (List Proposal)
unfolding decode_loop
decode data_ =
    resume
      (λ proposals r.
        reject (not (is_empty r)) trailing_data_after_proposals and_then λ _. ok proposals)
      (decode_loop (length data_) [] data_)
