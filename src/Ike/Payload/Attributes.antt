-- ===== src/Ike/Payload/Attributes.antt =====
-- The configuration payload of message/payload.rs, encoded and decoded.
use openfortivpn_rs.Ike.Bytes.Laws.{skip_three, take_exact, u8_put, len16_fits, u16_put}
use openfortivpn_rs.Ike.Result.{ok}
use openfortivpn_rs.Prelude.{
  append_assoc, ap, [], ◌∷◌, ◌^◌, append-nil, All, length, arith, ◌≤◌, ℕ, Bytes, sym, ◌++◌, ◌<◌,
  ◌∙◌, ◌%◌, zero, suc, be16, List, length-append, ◌≡◌, suc, zero, ◌∷◌, [],
}
use openfortivpn_rs.Ike.Payload.{
  ConfigAttribute, Config, put_attributes, encode_config, attributes_loop, decode_config,
}

-- An attribute a configuration payload can carry: its type has no flag bit.
pub record IsAttribute (a : ConfigAttribute) : Type 0 where
  pub kind_fits : a.kind < 2 ^ 15
  pub value_fits : length a.value < 2 ^ 16

abbrev attribute_bytes : List ConfigAttribute → Bytes
attribute_bytes [] = []
attribute_bytes (a ∷ as_) =
    be16 a.kind ++ (be16 (length a.value) ++ (a.value ++ attribute_bytes as_))

put_attributes-append :
    (as_ : List ConfigAttribute) (out : Bytes)
    → All IsAttribute as_
    → put_attributes as_ out ≡ ok (out ++ attribute_bytes as_)
unfolding put_attributes
put_attributes-append [] out h = ap ok (sym (append-nil out))
put_attributes-append (a ∷ as_) out h =
    let small : a.kind % 2 ^ 15 ≡ a.kind = omega (arith, h.0.kind_fits) in
    rw (len16_fits (length a.value) h.0.value_fits, small)
      (put_attributes-append as_ _ h.1 ∙ ap ok (simp append_assoc))

attributes_step :
    (fuel : ℕ) (found : List ConfigAttribute) (a : ConfigAttribute) (r : Bytes)
    → IsAttribute a
    → attributes_loop (suc fuel) found (be16 a.kind ++ (be16 (length a.value) ++ (a.value ++ r)))
      ≡ attributes_loop fuel (found ++ a ∷ []) r
unfolding attributes_loop
attributes_step fuel found a r h = ground (
  arith,
  h.kind_fits,
  u16_put a.kind (be16 (length a.value) ++ (a.value ++ r)),
  u16_put (length a.value) (a.value ++ r) h.value_fits,
  take_exact a.value r,
)

attributes_loop-attribute_bytes :
    (fuel : ℕ) (found as_ : List ConfigAttribute)
    → All IsAttribute as_
    → length as_ ≤ fuel
    → attributes_loop fuel found (attribute_bytes as_) ≡ ok (found ++ as_)
attributes_loop-attribute_bytes fuel found [] h f = unfold attributes_loop in rw append-nil
attributes_loop-attribute_bytes zero found (a ∷ as_) h f = absurd (omega arith)
attributes_loop-attribute_bytes (suc fuel) found (a ∷ as_) h f =
    attributes_step fuel found a (attribute_bytes as_) h.0
    ∙ attributes_loop-attribute_bytes fuel (found ++ a ∷ []) as_ h.1 (omega arith)
    ∙ ap ok (append_assoc found (a ∷ []) as_)

length-attribute_bytes : (as_ : List ConfigAttribute) → length as_ ≤ length (attribute_bytes as_)
length-attribute_bytes [] = omega arith
length-attribute_bytes (a ∷ as_) =
    omega (arith, length-attribute_bytes as_, length-append a.value (attribute_bytes as_))

-- A configuration payload whose attribute types have no flag bit is encoded with no error and
-- decoded to itself.
pub decode_config-encode_config :
    (c : Config)
    → All IsAttribute c.attributes
    → (bytes : Bytes) × (encode_config c ≡ ok bytes) × (decode_config bytes ≡ ok c)
unfolding encode_config decode_config
decode_config-encode_config c h =
    let r = attribute_bytes c.attributes in
    (
      c.kind ∷ 0 ∷ 0 ∷ 0 ∷ r,
      put_attributes-append c.attributes (c.kind ∷ 0 ∷ 0 ∷ 0 ∷ []) h,
      rw (
        u8_put c.kind (0 ∷ 0 ∷ 0 ∷ r),
        skip_three 0 0 0 r,
        attributes_loop-attribute_bytes (length r) [] c.attributes h
            (length-attribute_bytes c.attributes),
      ),
    )
