-- ===== src/Vici/Codec/RoundTrip.antt =====
-- `Section::decode` on the format of a section.
use openfortivpn_rs.Vici.Codec.{
  root, message_size_max, encode_section, decode_section, finish, elements,
}
use openfortivpn_rs.Vici.Codec.Wire.{
  encode_section_iff, IsSized, wire, wire_name, wire_value, wire_values, wire_item, IsSizedItem,
}
use openfortivpn_rs.Vici.Codec.Elements.{
  height, IsTextSection, list_end_read, values_read, element_list, inside, element_key,
  section_end_read, element_section, elements_step, turns, at, height_item, IsTextItem, turns_item,
  count_values,
}
use openfortivpn_rs.Vici.Message.{
  list_item, key_value, section_item, nothing, item_then, push_back, Item, Section,
}
use openfortivpn_rs.Prelude.{
  done, ◌-◌, sym, append-nil, length, Bytes, ℕ, append_assoc, ◌≤◌, ◌+◌, ◌∷◌, suc, List,
  length-append, ◌∙◌, ◌++◌, ap, [], arith, ◌≡◌, refl, refl, suc, ◌∷◌, [],
}

-- Appending the items of the second section to the first, one by one.
abbrev push_all : Section → Section → Section
push_all current nothing = current
push_all current (item_then item others) = push_all (push_back current item) others

abbrev join : Section → Section → Section
join nothing second = second
join (item_then item others) second = item_then item (join others second)

join-push_back :
    (first : Section) (item : Item) (second : Section)
    → join (push_back first item) second ≡ join first (item_then item second)
unfolding push_back
join-push_back nothing item second = refl
join-push_back (item_then one others) item second =
    ap (λ rest. item_then one rest) (join-push_back others item second)

join-nothing : (first : Section) → first ≡ join first nothing
join-nothing nothing = refl
join-nothing (item_then item others) = ap (λ rest. item_then item rest) (join-nothing others)

push_all-join : (first second : Section) → push_all first second ≡ join first second
push_all-join first nothing = join-nothing first
push_all-join first (item_then item others) =
    push_all-join (push_back first item) others ∙ join-push_back first item others

mutual
  elements-wire_item :
      (item : Item) (r : Bytes) (fuel : ℕ) (name : Bytes) (current : Section)
      (around : List (Bytes × Section))
      → IsSizedItem item
      → IsTextItem item
      → length around + height_item item ≤ 64
      → elements (wire_item item ++ r) (turns_item item fuel) (at name current around)
        ≡ elements r fuel (at name (push_back current item) around)
  elements-wire_item (section_item of body) r fuel name current around s t d =
      let after = wire body ++ (2 ∷ r) in
      let begin_at = at of nothing ((name, current) ∷ around) in
      ap (λ bytes. elements (1 ∷ bytes) (suc (turns body (suc fuel))) (at name current around))
        (append_assoc (wire_name of) (wire body ++ 2 ∷ []) r
          ∙ ap (λ rest. wire_name of ++ rest) (append_assoc (wire body) (2 ∷ []) r))
      ∙ elements_step 1 (wire_name of ++ after) (at name current around) after begin_at
          (turns body (suc fuel))
          (element_section name current around of after t.0 (omega (arith, d)))
      ∙ elements-wire body (2 ∷ r) (suc fuel) of nothing ((name, current) ∷ around) s.1 t.1
          (omega (arith, d))
      ∙ ap (λ filled. elements (2 ∷ r) (suc fuel) (at of filled ((name, current) ∷ around)))
          (push_all-join nothing body)
      ∙ section_end_read of name body current around r fuel
  elements-wire_item (key_value key value) r fuel name current around s t d =
      ap (λ bytes. elements (3 ∷ bytes) (suc fuel) (at name current around))
        (append_assoc (wire_name key) (wire_value value) r)
      ∙ elements_step 3 (wire_name key ++ (wire_value value ++ r)) (at name current around) r
          (at name (push_back current (key_value key value)) around) fuel
          (element_key name current around key value r t s.1)
  elements-wire_item (list_item of items) r fuel name current around s t d =
      let after = wire_values items ++ (6 ∷ r) in
      ap
        (λ bytes.
          elements (4 ∷ bytes) (suc (count_values items (suc fuel))) (at name current around))
        (append_assoc (wire_name of) (wire_values items ++ 6 ∷ []) r
          ∙ ap (λ rest. wire_name of ++ rest) (append_assoc (wire_values items) (6 ∷ []) r))
      ∙ elements_step 4 (wire_name of ++ after) (at name current around) after
          (inside of [] (at name current around)) (count_values items (suc fuel))
          (element_list name current around of after t)
      ∙ values_read items of [] (at name current around) (6 ∷ r) (suc fuel) s.1
      ∙ list_end_read of name items current around r fuel

  elements-wire :
      (self : Section) (r : Bytes) (fuel : ℕ) (name : Bytes) (current : Section)
      (around : List (Bytes × Section))
      → IsSized self
      → IsTextSection self
      → length around + height self ≤ 64
      → elements (wire self ++ r) (turns self fuel) (at name current around)
        ≡ elements r fuel (at name (push_all current self) around)
  elements-wire nothing r fuel name current around s t d = refl
  elements-wire (item_then item others) r fuel name current around s t d =
      ap (λ bytes. elements bytes (turns_item item (turns others fuel)) (at name current around))
        (append_assoc (wire_item item) (wire others) r)
      ∙ elements-wire_item item (wire others ++ r) (turns others fuel) name current around s.0 t.0
          (omega arith)
      ∙ elements-wire others r fuel name (push_back current item) around s.1 t.1 (omega arith)

-- The fuel that the elements take is no more than the bytes of the format.
count_values_small :
    (items : List Bytes) (fuel : ℕ) → count_values items fuel ≤ length (wire_values items) + fuel
count_values_small [] fuel = omega arith
count_values_small (value ∷ items) fuel =
    omega
      (arith, count_values_small items fuel, length-append (wire_value value) (wire_values items))

mutual
  turns_item_small :
      (item : Item) (fuel : ℕ) → turns_item item fuel ≤ length (wire_item item) + fuel
  turns_item_small (section_item of body) fuel = omega (
    arith,
    turns_small body (suc fuel),
    length-append (wire_name of) (wire body ++ 2 ∷ []),
    length-append (wire body) (2 ∷ []),
  )
  turns_item_small (key_value key value) fuel = omega arith
  turns_item_small (list_item of items) fuel = omega (
    arith,
    count_values_small items (suc fuel),
    length-append (wire_name of) (wire_values items ++ 6 ∷ []),
    length-append (wire_values items) (6 ∷ []),
  )

  turns_small : (self : Section) (fuel : ℕ) → turns self fuel ≤ length (wire self) + fuel
  turns_small nothing fuel = omega arith
  turns_small (item_then item others) fuel = omega (
    arith,
    turns_item_small item (turns others fuel),
    turns_small others fuel,
    length-append (wire_item item) (wire others),
  )

count_values_plus :
    (items : List Bytes) (fuel : ℕ) → count_values items fuel ≡ count_values items 0 + fuel
count_values_plus [] fuel = omega arith
count_values_plus (value ∷ items) fuel = omega (arith, count_values_plus items fuel)

mutual
  turns_item_plus : (item : Item) (fuel : ℕ) → turns_item item fuel ≡ turns_item item 0 + fuel
  turns_item_plus (section_item of body) fuel =
      omega (arith, turns_plus body (suc fuel), turns_plus body 1)
  turns_item_plus (key_value key value) fuel = omega arith
  turns_item_plus (list_item of items) fuel =
      omega (arith, count_values_plus items (suc fuel), count_values_plus items 1)

  turns_plus : (self : Section) (fuel : ℕ) → turns self fuel ≡ turns self 0 + fuel
  turns_plus nothing fuel = omega arith
  turns_plus (item_then item others) fuel = omega (
    arith,
    turns_item_plus item (turns others fuel),
    turns_item_plus item (turns others 0),
    turns_plus others fuel,
  )

finish_root : (self : Section) (fuel : ℕ) → elements [] fuel (at [] self []) ≡ done self
unfolding elements finish
finish_root self fuel = refl

decode_small :
    (bytes : Bytes)
    → length bytes ≤ message_size_max
    → decode_section bytes ≡ elements bytes (length bytes) root
unfolding decode_section
decode_small bytes l = ground (arith, l)

pub decode_section-wire :
    (self : Section)
    → IsSized self
    → IsTextSection self
    → height self ≤ 64
    → length (wire self) ≤ message_size_max
    → decode_section (wire self) ≡ done self
decode_section-wire self s t d l =
    let left = length (wire self) - turns self 0 in
    let enough : length (wire self) ≡ turns self left =
      omega (arith, turns_small self 0, turns_plus self left) in
    decode_small (wire self) l
    ∙ ap (λ fuel. elements (wire self) fuel root) enough
    ∙ ap (λ bytes. elements bytes (turns self left) root) (sym (append-nil (wire self)))
    ∙ elements-wire self [] left [] nothing [] s t (omega (arith, d))
    ∙ ap (λ all. elements [] left (at [] all [])) (push_all-join nothing self)
    ∙ finish_root self left

-- A section whose names are UTF-8 and whose sections are nested 64 deep at most is decoded to itself
-- from whatever bytes it is encoded to.
pub decode_section-encode_section :
    (self : Section) (bytes : Bytes)
    → IsTextSection self
    → height self ≤ 64
    → encode_section self ≡ done bytes
    → decode_section bytes ≡ done self
decode_section-encode_section self bytes t d e =
    let w = (encode_section_iff self bytes).0 e in
    ap decode_section w.1 ∙ decode_section-wire self w.0 t d (rw (sym w.1) w.2)
