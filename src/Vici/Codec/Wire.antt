-- ===== src/Vici/Codec/Wire.antt =====
-- The format of a section as vici's README describes it, and what `Section::encode` makes of it.
use openfortivpn_rs.Vici.Result.{message_size, Result}
use openfortivpn_rs.Vici.Message.{
  nothing, item_then, Section, list_item, key_value, section_item, Item,
}
use openfortivpn_rs.Vici.Codec.{
  message_size_max, encode_item, encode_section, encode_into, put_name, put_items, put_value,
}
use openfortivpn_rs.Prelude.{
  ap, ◌↔◌, if◌then◌else◌, ltb, sym, append-nil, append_assoc, length, done, ◌≤◌, refl, All, be16,
  ◌^◌, List, ◌∙◌, ◌<◌, ◌followed_by◌, failed, ◌++◌, ◌≡◌, Bytes, arith, [], ◌∷◌, refl, ◌∷◌, [],
}

abbrev pub wire_name : Bytes → Bytes
wire_name name = length name ∷ name

abbrev pub wire_value : Bytes → Bytes
wire_value value = be16 (length value) ++ value

abbrev pub wire_values : List Bytes → Bytes
wire_values [] = []
wire_values (value ∷ values) = 5 ∷ (wire_value value ++ wire_values values)

abbrev mutual
  pub wire_item : Item → Bytes
  wire_item (section_item name body) = 1 ∷ (wire_name name ++ (wire body ++ 2 ∷ []))
  wire_item (key_value key value) = 3 ∷ (wire_name key ++ wire_value value)
  wire_item (list_item name items) = 4 ∷ (wire_name name ++ (wire_values items ++ 6 ∷ []))

  pub wire : Section → Bytes
  wire nothing = []
  wire (item_then item others) = wire_item item ++ wire others

-- Names of 1 to 255 bytes and values of less than 2 ^ 16.
abbrev pub IsName : Bytes → Type 0
IsName name = (1 ≤ length name) × (length name ≤ 255)

abbrev pub IsValue : Bytes → Type 0
IsValue value = length value < 2 ^ 16

abbrev mutual
  pub IsSizedItem : Item → Type 0
  IsSizedItem (section_item name body) = IsName name × IsSized body
  IsSizedItem (key_value key value) = IsName key × IsValue value
  IsSizedItem (list_item name items) = IsName name × All IsValue items

  pub IsSized : Section → Type 0
  IsSized nothing = Unit
  IsSized (item_then item others) = IsSizedItem item × IsSized others

-- A result that is there comes from two steps that both gave one.
pub followed :
    {A B : Type 0} (r : Result A) (f : A → Result B) (b : B)
    → r followed_by f ≡ done b
    → (a : A) × (r ≡ done a) × (f a ≡ done b)
followed (failed why) f b h = ground arith
followed (done a) f b h = (a, refl, h)

pub put_name-IsName :
    (out name o : Bytes) → put_name out name ≡ done o → IsName name × (o ≡ out ++ wire_name name)
unfolding put_name
put_name-IsName out name o h = ground arith

put_value-IsValue :
    (out value o : Bytes)
    → put_value out value ≡ done o
    → IsValue value × (o ≡ out ++ wire_value value)
unfolding put_value
put_value-IsValue out value o h = ground arith

put_items-IsValue :
    (out : Bytes) (items : List Bytes) (o : Bytes)
    → put_items out items ≡ done o
    → All IsValue items × (o ≡ out ++ wire_values items)
unfolding put_items
put_items-IsValue out [] o h = (tt, ground (arith, append-nil out))
put_items-IsValue out (value ∷ items) o h =
    let s = followed (put_value (out ++ 5 ∷ []) value) (λ next. put_items next items) o h in
    let v = put_value-IsValue (out ++ 5 ∷ []) value s.0 s.1 in
    let rest = put_items-IsValue s.0 items o s.2 in
    ((v.0, rest.0), rest.1 ∙ rw v.1 (simp append_assoc))

pub done_injective : {A : Type 0} (a b : A) → Path (Result A) (done a) (done b) → a ≡ b
done_injective a b h = ground arith

mutual
  unfolding encode_into

  encode_item-IsSizedItem :
      (out : Bytes) (item : Item) (o : Bytes)
      → encode_item out item ≡ done o
      → IsSizedItem item × (o ≡ out ++ wire_item item)
  encode_item-IsSizedItem out (section_item name body) o h =
      let s =
        followed (put_name (out ++ 1 ∷ []) name)
          (λ next. encode_into next body followed_by λ last. done (last ++ 2 ∷ [])) o h in
      let n = put_name-IsName (out ++ 1 ∷ []) name s.0 s.1 in
      let i = followed (encode_into s.0 body) (λ last. done (last ++ 2 ∷ [])) o s.2 in
      let b = encode_into-IsSized s.0 body i.0 i.1 in
      ((n.0, b.0), sym (done_injective _ _ i.2) ∙ rw (b.1, n.1) (simp append_assoc))
  encode_item-IsSizedItem out (key_value key value) o h =
      let s = followed (put_name (out ++ 3 ∷ []) key) (λ next. put_value next value) o h in
      let n = put_name-IsName (out ++ 3 ∷ []) key s.0 s.1 in
      let v = put_value-IsValue s.0 value o s.2 in ((n.0, v.0), v.1 ∙ rw n.1 (simp append_assoc))
  encode_item-IsSizedItem out (list_item name items) o h =
      let s =
        followed (put_name (out ++ 4 ∷ []) name)
          (λ next. put_items next items followed_by λ last. done (last ++ 6 ∷ [])) o h in
      let n = put_name-IsName (out ++ 4 ∷ []) name s.0 s.1 in
      let i = followed (put_items s.0 items) (λ last. done (last ++ 6 ∷ [])) o s.2 in
      let b = put_items-IsValue s.0 items i.0 i.1 in
      ((n.0, b.0), sym (done_injective _ _ i.2) ∙ rw (b.1, n.1) (simp append_assoc))

  encode_into-IsSized :
      (out : Bytes) (self : Section) (o : Bytes)
      → encode_into out self ≡ done o
      → IsSized self × (o ≡ out ++ wire self)
  encode_into-IsSized out nothing o h = (tt, ground (arith, append-nil out))
  encode_into-IsSized out (item_then item others) o h =
      let s = followed (encode_item out item) (λ next. encode_into next others) o h in
      let i = encode_item-IsSizedItem out item s.0 s.1 in
      let rest = encode_into-IsSized s.0 others o s.2 in
      ((i.0, rest.0), rest.1 ∙ rw i.1 (simp append_assoc))

-- What is encoded has its names and values in range, and is the section in the format, no larger than
-- the limit.
pub encode_section-IsSized :
    (self : Section) (bytes : Bytes)
    → encode_section self ≡ done bytes
    → IsSized self × (bytes ≡ wire self) × (length bytes ≤ message_size_max)
unfolding encode_section encode_into
encode_section-IsSized self bytes h =
    let limit = λ (out : Bytes).
      if ltb message_size_max (length out) then failed (message_size (length out)) else done out in
    let s = followed (encode_into [] self) limit bytes h in
    let e = encode_into-IsSized [] self s.0 s.1 in
    let same : s.0 ≡ bytes = ground (arith, s.2) in (e.0, sym same ∙ e.1, ground (arith, s.2))

put_name-wire : (out name : Bytes) → IsName name → put_name out name ≡ done (out ++ wire_name name)
unfolding put_name
put_name-wire out name h = ground (arith, h.0, h.1)

put_value-wire :
    (out value : Bytes) → IsValue value → put_value out value ≡ done (out ++ wire_value value)
unfolding put_value
put_value-wire out value h = ground (arith, h)

put_items-wire :
    (out : Bytes) (items : List Bytes)
    → All IsValue items
    → put_items out items ≡ done (out ++ wire_values items)
unfolding put_items
put_items-wire out [] h = rw (append-nil out) refl
put_items-wire out (value ∷ items) h =
    rw (put_value-wire (out ++ 5 ∷ []) value h.0)
      (put_items-wire ((out ++ 5 ∷ []) ++ wire_value value) items h.1 ∙ ap done (simp append_assoc))

mutual
  unfolding encode_into

  encode_item-wire :
      (out : Bytes) (item : Item)
      → IsSizedItem item
      → encode_item out item ≡ done (out ++ wire_item item)
  encode_item-wire out (section_item name body) h =
      rw
        (
          put_name-wire (out ++ 1 ∷ []) name h.0,
          encode_into-wire ((out ++ 1 ∷ []) ++ wire_name name) body h.1,
        )
        (ap done (simp append_assoc))
  encode_item-wire out (key_value key value) h =
      rw (put_name-wire (out ++ 3 ∷ []) key h.0)
        (put_value-wire _ value h.1 ∙ ap done (simp append_assoc))
  encode_item-wire out (list_item name items) h =
      rw
        (
          put_name-wire (out ++ 4 ∷ []) name h.0,
          put_items-wire ((out ++ 4 ∷ []) ++ wire_name name) items h.1,
        )
        (ap done (simp append_assoc))

  encode_into-wire :
      (out : Bytes) (self : Section) → IsSized self → encode_into out self ≡ done (out ++ wire self)
  encode_into-wire out nothing h = rw (append-nil out) refl
  encode_into-wire out (item_then item others) h = rw (encode_item-wire out item h.0) (
      encode_into-wire (out ++ wire_item item) others h.1
      ∙ ap done (append_assoc out (wire_item item) (wire others)))

encode_section-wire :
    (self : Section)
    → IsSized self
    → length (wire self) ≤ message_size_max
    → encode_section self ≡ done (wire self)
unfolding encode_section encode_into
encode_section-wire self s l = rw (encode_into-wire [] self s) (ground (arith, l))

-- A section is encoded exactly if its names have 1 to 255 bytes, its values less than 2 ^ 16, and
-- its format no more bytes than a message may have, and then to its format.
pub encode_section_iff :
    (self : Section) (bytes : Bytes)
    → (encode_section self ≡ done bytes)
      ↔ (IsSized self × (bytes ≡ wire self) × (length bytes ≤ message_size_max))
encode_section_iff self bytes = (
  encode_section-IsSized self bytes,
  λ h. encode_section-wire self h.0 (rw (sym h.1) h.2) ∙ ap done (sym h.1),
)
