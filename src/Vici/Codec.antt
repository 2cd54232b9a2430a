-- ===== src/Vici/Codec.antt =====
-- crates/vici/src/message.rs: `Section::encode`, `Section::decode` and the cursor `Reader`, which is
-- the bytes that are left.
pub mod Wire
pub mod Total
pub mod Bounds
pub mod Elements
pub mod RoundTrip
use openfortivpn_rs.Text.{from_utf8_lossy}
use openfortivpn_rs.Vici.Result.{
  unknown_element, list_end_without_list, list_item_outside, nested_list, key_value_inside_list,
  name_length, nesting_too_deep, message_size, value_length, unterminated_section,
  unterminated_list, unbalanced_section_end, section_inside_list, malformed, truncated, out_of_fuel,
  Result,
}
use openfortivpn_rs.Vici.Message.{
  item_then, list_item, key_value, section_item, push_back, nothing, Item, Section,
}
use openfortivpn_rs.Prelude.{
  is_some, take, length, if◌then◌else◌, ◌++◌, List, zero, [], some, none, from_be16, ◌||◌,
  ◌followed_by◌, get_or, ◌∷◌, Bool, ltb, Bytes, be16, suc, ◌==◌, ◌+◌, ◌^◌, failed, done, ℕ, Option,
  drop, some, none, suc, zero, ◌∷◌, [],
}

abbrev pub message_size_max : ℕ
message_size_max = 524288

abbrev pub max_depth : ℕ
max_depth = 64

unfoldable pub put_name : Bytes → Bytes → Result Bytes
put_name out name =
    if (length name == 0) || ltb 255 (length name)
    then failed (name_length (length name))
    else done (out ++ length name ∷ name)

unfoldable pub put_value : Bytes → Bytes → Result Bytes
put_value out value =
    if ltb (length value) (2 ^ 16)
    then done (out ++ (be16 (length value) ++ value))
    else failed (value_length (length value))

-- The items of a list, one after another.
unfoldable pub put_items : Bytes → List Bytes → Result Bytes
unfolding put_value
put_items out [] = done out
put_items out (value ∷ items) =
    put_value (out ++ 5 ∷ []) value followed_by λ out. put_items out items

-- `Section::encode_into`
unfoldable mutual
  unfolding put_name put_items

  pub encode_item : Bytes → Item → Result Bytes
  encode_item out (section_item name body) = put_name (out ++ 1 ∷ []) name followed_by λ out.
      encode_into out body followed_by λ out. done (out ++ 2 ∷ [])
  encode_item out (key_value key value) =
      put_name (out ++ 3 ∷ []) key followed_by λ out. put_value out value
  encode_item out (list_item name items) = put_name (out ++ 4 ∷ []) name followed_by λ out.
      put_items out items followed_by λ out. done (out ++ 6 ∷ [])

  pub encode_into : Bytes → Section → Result Bytes
  encode_into out nothing = done out
  encode_into out (item_then item others) =
      encode_item out item followed_by λ out. encode_into out others

unfoldable pub encode_section : Section → Result Bytes
unfolding encode_into
encode_section self = encode_into [] self followed_by λ out.
    if ltb message_size_max (length out) then failed (message_size (length out)) else done out

-- `Reader::take`; the end of a slice is in range, since a reader is no longer than its data.
unfoldable pub take_bytes : ℕ → Bytes → Result (Bytes × Bytes)
take_bytes len r = if ltb (length r) len then failed truncated else done (take len r, drop len r)

-- `Reader::name`
unfoldable pub read_name : Bytes → Result (Bytes × Bytes)
unfolding take_bytes
read_name [] = failed truncated
read_name (len ∷ r) = take_bytes len r followed_by λ t. done (from_utf8_lossy t.0, t.1)

-- `Reader::value`
unfoldable pub read_value : Bytes → Result (Bytes × Bytes)
unfolding take_bytes
read_value r = take_bytes 2 r followed_by λ len.
    take_bytes (from_be16 (get_or len.0 0 0) (get_or len.0 1 0)) len.1

-- What `Section::decode` keeps: the section being filled with its name, those around it, innermost
-- first, and the list that is open.
pub record Progress : Type 0 where
  pub name : Bytes
  pub current : Section
  pub around : List (Bytes × Section)
  pub open_list : Option (Bytes × List Bytes)

-- `push_item`, on the innermost section.
abbrev pub push_item : Progress → Item → Progress
push_item self item = record self { current = push_back self.current item }

abbrev is_open : Progress → Bool
is_open self = is_some self.open_list

-- `stack.pop()` and `push_item` on what is left, when there are two sections at least.
unfoldable pub end_section : Progress → Result Progress
end_section self = elim self.around [
  | [] ↦ failed (malformed unbalanced_section_end)
  | outer ∷ others ↦ done (record {
    name = outer.0;
    current = push_back outer.1 (section_item self.name self.current);
    around = others;
    open_list = none;
  })
]

-- The arms of the loop's `match`, on what follows the kind of an element.
unfoldable pub section_start : Bytes → Progress → Result (Bytes × Progress)
unfolding read_name
section_start r self =
    if is_open self
    then failed (malformed section_inside_list)
    else if ltb max_depth (length self.around + 1)
    then failed (malformed nesting_too_deep)
    else (read_name r followed_by λ t. done (
      t.1,
      record {
        name = t.0;
        current = nothing;
        around = (self.name, self.current) ∷ self.around;
        open_list = none;
      },
    ))

unfoldable pub section_end : Bytes → Progress → Result (Bytes × Progress)
unfolding end_section
section_end r self =
    if is_open self
    then failed (malformed unterminated_list)
    else (end_section self followed_by λ outer. done (r, outer))

unfoldable pub key_value_read : Bytes → Progress → Result (Bytes × Progress)
unfolding read_name read_value
key_value_read r self =
    if is_open self
    then failed (malformed key_value_inside_list)
    else (read_name r followed_by λ key. read_value key.1 followed_by λ value.
        done (value.1, push_item self (key_value key.0 value.0)))

unfoldable pub list_start : Bytes → Progress → Result (Bytes × Progress)
unfolding read_name
list_start r self =
    if is_open self
    then failed (malformed nested_list)
    else (read_name r followed_by λ t. done (t.1, record self { open_list = some (t.0, []) }))

-- `match list.as_mut()`, and `match list.take()`
abbrev pub add_value :
    Bytes × Bytes → Progress → Option (Bytes × List Bytes) → Result (Bytes × Progress)
add_value value self none = failed (malformed list_item_outside)
add_value value self (some opened) =
    done (value.1, record self { open_list = some (opened.0, opened.1 ++ value.0 ∷ []) })

abbrev pub close_list : Bytes → Progress → Option (Bytes × List Bytes) → Result (Bytes × Progress)
close_list r self none = failed (malformed list_end_without_list)
close_list r self (some opened) =
    done (r, push_item (record self { open_list = none }) (list_item opened.0 opened.1))

unfoldable pub list_value_read : Bytes → Progress → Result (Bytes × Progress)
unfolding read_value
list_value_read r self = read_value r followed_by λ value. add_value value self self.open_list

unfoldable pub list_end : Bytes → Progress → Result (Bytes × Progress)
list_end r self = close_list r self self.open_list

-- One element: its kind has been read.
unfoldable pub element : ℕ → Bytes → Progress → Result (Bytes × Progress)
unfolding section_start section_end key_value_read list_start list_value_read list_end
element kind r self =
    if kind == 1
    then section_start r self
    else if kind == 2
    then section_end r self
    else if kind == 3
    then key_value_read r self
    else if kind == 4
    then list_start r self
    else if kind == 5
    then list_value_read r self
    else if kind == 6
    then list_end r self
    else failed (unknown_element kind)

-- Behind the last byte.
abbrev pub only_root : Section → List (Bytes × Section) → Result Section
only_root current [] = done current
only_root current (outer ∷ others) = failed (malformed unterminated_section)

unfoldable pub finish : Progress → Result Section
finish self =
    if is_open self
    then failed (malformed unterminated_list)
    else only_root self.current self.around

-- The loop; an element takes one byte at least, so the length of the data is enough fuel.
unfoldable pub elements : Bytes → ℕ → Progress → Result Section
unfolding element finish
elements [] fuel self = finish self
elements (kind ∷ r) zero self = failed out_of_fuel
elements (kind ∷ r) (suc fuel) self =
    element kind r self followed_by λ next. elements next.0 fuel next.1

abbrev pub root : Progress
root = record { name = []; current = nothing; around = []; open_list = none }

-- `Section::decode`
unfoldable pub decode_section : Bytes → Result Section
unfolding elements
decode_section bytes =
    if ltb message_size_max (length bytes)
    then failed (message_size (length bytes))
    else elements bytes (length bytes) root
