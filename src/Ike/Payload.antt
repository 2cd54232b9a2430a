-- ===== src/Ike/Payload.antt =====
-- crates/ikev2/src/message/payload.rs: the payload chain, and the payloads but the SA and TS ones.
-- A field `data` of the source is `body` here.
pub mod RoundTrip
pub mod Attributes
pub mod Total
mod Tests
use openfortivpn_rs.Prelude.{
  if◌then◌else◌, ◌-◌, List, suc, ◌+◌, ◌%◌, zero, [], ◌++◌, ℕ, some, none, ltb, Option, not, ◌==◌,
  ◌^◌, from_be32, is_empty, length, ◌∷◌, Bytes, some, none, suc, zero, ◌∷◌, [],
}
use openfortivpn_rs.Ike.Result.{
  payload_shorter_than_header, expect, trailing_data_after_payload, out_of_fuel, reject, Result, ok,
  err, ◌and_then◌,
}
use openfortivpn_rs.Ike.Bytes.{
  u16, len8, len16, put_u16, u8, put_u8, value_of, Parse, resume, ◌>>=◌, ◌>>◌, pure, lift, rest,
  take, skip,
}

abbrev pub none_kind : ℕ
none_kind = 0

pub record RawPayload : Type 0 where
  pub kind : ℕ
  pub body : Bytes

-- `payloads.iter().find(|payload| payload.kind == kind)`
unfoldable pub find : List RawPayload → ℕ → Option RawPayload
find [] kind = none
find (p ∷ ps) kind = if p.kind == kind then some p else find ps kind

-- `while kind != types::NONE`; the fuel is one more than the number of bytes.
unfoldable pub chain_loop : ℕ → ℕ → List RawPayload → Parse (List RawPayload)
chain_loop zero kind found r = if kind == none_kind then ok (found, r) else err out_of_fuel
chain_loop (suc fuel) kind found r =
    let read = λ (next : ℕ) (body : Bytes) (r' : Bytes).
      chain_loop fuel next (found ++ record { kind = kind; body = body } ∷ []) r' in
    if kind == none_kind
    then ok (found, r)
    else (do
      next ← u8
      skip 1
      length ← u16
      lift (reject (ltb length 4) payload_shorter_than_header)
      body ← take (length - 4)
      read next body)
        r

unfoldable pub parse_chain : ℕ → Bytes → Result (List RawPayload)
parse_chain first bytes =
    resume
      (λ payloads r.
        reject (not (is_empty r)) trailing_data_after_payload and_then λ _. ok payloads)
      (chain_loop (length bytes + 1) first [] bytes)

-- The kind of the first payload of a list.
unfoldable pub first_kind : List RawPayload → ℕ
first_kind [] = none_kind
first_kind (p ∷ ps) = p.kind

pub chain_onto : List RawPayload → Bytes → Result Bytes
unfolding first_kind
chain_onto [] out = ok out
chain_onto (p ∷ ps) out = len16 (length p.body + 4) and_then λ len.
    chain_onto ps (put_u16 len (put_u8 0 (put_u8 (first_kind ps) out)) ++ p.body)

-- The buffer with the chain, and the type of the first payload.
unfoldable pub encode_chain : List RawPayload → Bytes → Result (Bytes × ℕ)
unfolding chain_onto first_kind
encode_chain payloads out = chain_onto payloads out and_then λ out'. ok (out', first_kind payloads)

pub record Identity : Type 0 where
  pub kind : ℕ
  pub body : Bytes

unfoldable pub encode_identity : Identity → Bytes
encode_identity i = (put_u8 i.kind [] ++ 0 ∷ 0 ∷ 0 ∷ []) ++ i.body

unfoldable pub decode_identity : Bytes → Result Identity
decode_identity bytes =
    value_of ((do kind ← u8; skip 3; body ← rest; pure (record { kind = kind; body = body })) bytes)

pub record Notify : Type 0 where
  pub protocol : ℕ
  pub spi : Bytes
  pub kind : ℕ
  pub body : Bytes

unfoldable pub encode_notify : Notify → Result Bytes
encode_notify n = len8 (length n.spi) and_then λ spi_len.
    ok ((put_u16 n.kind (put_u8 spi_len (put_u8 n.protocol [])) ++ n.spi) ++ n.body)

unfoldable pub decode_notify : Bytes → Result Notify
decode_notify bytes = value_of (
    (do
      protocol ← u8
      spi_len ← u8
      kind ← u16
      spi ← take spi_len
      body ← rest
      pure (record { protocol = protocol; spi = spi; kind = kind; body = body }))
      bytes)

pub record Delete : Type 0 where
  pub protocol : ℕ
  pub spis : List Bytes

abbrev pub first_len : List Bytes → ℕ
first_len [] = 0
first_len (spi ∷ spis) = length spi

-- `for spi in &self.spis`
pub put_spis : List Bytes → Bytes → Bytes
put_spis [] out = out
put_spis (spi ∷ spis) out = put_spis spis (out ++ spi)

-- The count is `u16::try_from(..).expect(..)`.
unfoldable pub encode_delete : Delete → Result Bytes
unfolding put_spis
encode_delete d = len8 (first_len d.spis) and_then λ spi_len.
    expect (ltb (length d.spis) (2 ^ 16)) (length d.spis) and_then λ count.
    ok (put_spis d.spis (put_u16 count (put_u8 spi_len (put_u8 d.protocol []))))

-- `for _ in 0..count`
pub take_spis : ℕ → ℕ → List Bytes → Parse (List Bytes)
take_spis zero spi_len spis = pure spis
take_spis (suc n) spi_len spis = do spi ← take spi_len; take_spis n spi_len (spis ++ spi ∷ [])

unfoldable pub decode_delete : Bytes → Result Delete
unfolding take_spis
decode_delete bytes = value_of (
    (do
      protocol ← u8
      spi_len ← u8
      count ← u16
      spis ← take_spis count spi_len []
      pure (record { protocol = protocol; spis = spis }))
      bytes)

pub record ConfigAttribute : Type 0 where
  pub kind : ℕ
  pub value : Bytes

-- `ConfigAttribute::address`
unfoldable pub attribute_address : Bytes → Option ℕ
attribute_address (a ∷ b ∷ c ∷ d ∷ []) = some (from_be32 a b c d)
attribute_address _ = none

pub record Config : Type 0 where
  pub kind : ℕ
  pub attributes : List ConfigAttribute

put_attributes : List ConfigAttribute → Bytes → Result Bytes
put_attributes [] out = ok out
put_attributes (a ∷ as_) out = len16 (length a.value) and_then λ len.
    put_attributes as_ (put_u16 len (put_u16 (a.kind % 2 ^ 15) out) ++ a.value)

unfoldable pub encode_config : Config → Result Bytes
unfolding put_attributes
encode_config c = put_attributes c.attributes (put_u8 c.kind [] ++ 0 ∷ 0 ∷ 0 ∷ [])

-- `while !reader.is_empty()`; the fuel is the number of bytes.
pub attributes_loop : ℕ → List ConfigAttribute → Bytes → Result (List ConfigAttribute)
attributes_loop fuel found [] = ok found
attributes_loop zero found (b ∷ r) = err out_of_fuel
attributes_loop (suc fuel) found (b ∷ r) =
    resume (λ attribute r'. attributes_loop fuel (found ++ attribute ∷ []) r')
      ((do
        kind ← u16
        length ← u16
        value ← take length
        pure (record { kind = kind % 2 ^ 15; value = value }))
        (b ∷ r))

unfoldable pub decode_config : Bytes → Result Config
unfolding attributes_loop
decode_config bytes =
    resume
      (λ kind r. attributes_loop (length r) [] r and_then λ attributes.
        ok (record { kind = kind; attributes = attributes }))
      ((do kind ← u8; skip 3; pure kind) bytes)

unfoldable pub encode_ke : ℕ → Bytes → Bytes
encode_ke group public = put_u16 0 (put_u16 group []) ++ public

unfoldable pub decode_ke : Bytes → Result (ℕ × Bytes)
decode_ke bytes = value_of ((do group ← u16; skip 2; public ← rest; pure (group, public)) bytes)

unfoldable pub encode_auth : ℕ → Bytes → Bytes
encode_auth method body = (put_u8 method [] ++ 0 ∷ 0 ∷ 0 ∷ []) ++ body

unfoldable pub decode_auth : Bytes → Result (ℕ × Bytes)
decode_auth bytes = value_of ((do method ← u8; skip 3; body ← rest; pure (method, body)) bytes)

unfoldable pub encode_cert : ℕ → Bytes → Bytes
encode_cert encoding body = put_u8 encoding [] ++ body

unfoldable pub decode_cert : Bytes → Result (ℕ × Bytes)
decode_cert bytes = value_of ((do encoding ← u8; body ← rest; pure (encoding, body)) bytes)
