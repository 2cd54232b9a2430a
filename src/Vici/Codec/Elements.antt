-- ===== src/Vici/Codec/Elements.antt =====
-- The elements that `Section::decode` reads from the format of a section, one by one.
use openfortivpn_rs.Vici.Codec.Wire.{wire_values, wire_value, wire_name, IsValue}
use openfortivpn_rs.Text.{from_utf8_lossy-is_utf8, is_utf8}
use openfortivpn_rs.Vici.Codec.{
  section_end, list_value_read, key_value_read, section_start, list_start, list_end, end_section,
  elements, take_bytes, read_name, element, read_value, Progress,
}
use openfortivpn_rs.Vici.Message.{
  item_then, push_back, list_item, key_value, nothing, section_item, Section, Item,
}
use openfortivpn_rs.Prelude.{
  append_assoc, append-nil, All, ◌∙◌, ap, length, drop-append, ◌+◌, none, true, [], length-append,
  done, refl, max, some, ◌++◌, take-append, from_be16-be16, Bytes, ◌≡◌, suc, ℕ, List, ◌∷◌, ◌≤◌,
  arith, true, some, none, refl, suc, ◌∷◌, [],
}

-- A section being filled while no list is open.
abbrev pub at : Bytes → Section → List (Bytes × Section) → Progress
at name current around = record {
  name = name;
  current = current;
  around = around;
  open_list = none;
}

abbrev pub inside : Bytes → List Bytes → Progress → Progress
inside name items self = record self { open_list = some (name, items) }

-- Names are UTF-8, as a `String` is.
abbrev pub IsText : Bytes → Type 0
IsText name = is_utf8 name ≡ true

abbrev mutual
  pub IsTextItem : Item → Type 0
  IsTextItem (section_item name body) = IsText name × IsTextSection body
  IsTextItem (key_value key value) = IsText key
  IsTextItem (list_item name items) = IsText name

  pub IsTextSection : Section → Type 0
  IsTextSection nothing = Unit
  IsTextSection (item_then item others) = IsTextItem item × IsTextSection others

-- How deep the sections of a section are nested.
abbrev mutual
  pub height_item : Item → ℕ
  height_item (section_item name body) = suc (height body)
  height_item (key_value key value) = 0
  height_item (list_item name items) = 0

  pub height : Section → ℕ
  height nothing = 0
  height (item_then item others) = max (height_item item) (height others)

-- The fuel for the elements of a section, and then some.
abbrev pub count_values : List Bytes → ℕ → ℕ
count_values [] fuel = fuel
count_values (value ∷ items) fuel = suc (count_values items fuel)

abbrev mutual
  pub turns_item : Item → ℕ → ℕ
  turns_item (section_item name body) fuel = suc (turns body (suc fuel))
  turns_item (key_value key value) fuel = suc fuel
  turns_item (list_item name items) fuel = suc (count_values items (suc fuel))

  pub turns : Section → ℕ → ℕ
  turns nothing fuel = fuel
  turns (item_then item others) fuel = turns_item item (turns others fuel)

take_bytes-append : (a r : Bytes) → take_bytes (length a) (a ++ r) ≡ done (a, r)
unfolding take_bytes
take_bytes-append a r = ground (arith, length-append a r, take-append a r, drop-append a r)

pub read_name-wire_name :
    (name r : Bytes) → IsText name → read_name (wire_name name ++ r) ≡ done (name, r)
unfolding read_name
read_name-wire_name name r t = rw (take_bytes-append name r, from_utf8_lossy-is_utf8 name t) refl

read_value-wire_value :
    (value r : Bytes) → IsValue value → read_value (wire_value value ++ r) ≡ done (value, r)
unfolding read_value take_bytes
read_value-wire_value value r v =
    let e =
      ap (λ n. take_bytes n (value ++ r)) (from_be16-be16 (length value) v)
      ∙ take_bytes-append value r in
    ground (arith, e)

-- The elements.
element_value :
    (name : Bytes) (items : List Bytes) (self : Progress) (value r : Bytes)
    → IsValue value
    → element 5 (wire_value value ++ r) (inside name items self)
      ≡ done (r, inside name (items ++ value ∷ []) self)
unfolding element list_value_read
element_value name items self value r v = rw (read_value-wire_value value r v) refl

pub element_key :
    (name : Bytes) (current : Section) (around : List (Bytes × Section)) (key value r : Bytes)
    → IsText key
    → IsValue value
    → element 3 (wire_name key ++ (wire_value value ++ r)) (at name current around)
      ≡ done (r, at name (push_back current (key_value key value)) around)
unfolding element key_value_read
element_key name current around key value r t v =
    rw (read_name-wire_name key (wire_value value ++ r) t, read_value-wire_value value r v) refl

pub element_list :
    (name : Bytes) (current : Section) (around : List (Bytes × Section)) (of r : Bytes)
    → IsText of
    → element 4 (wire_name of ++ r) (at name current around)
      ≡ done (r, inside of [] (at name current around))
unfolding element list_start
element_list name current around of r t = rw (read_name-wire_name of r t) refl

pub element_section :
    (name : Bytes) (current : Section) (around : List (Bytes × Section)) (of r : Bytes)
    → IsText of
    → length around + 1 ≤ 64
    → element 1 (wire_name of ++ r) (at name current around)
      ≡ done (r, at of nothing ((name, current) ∷ around))
unfolding element section_start
element_section name current around of r t d = rw (read_name-wire_name of r t) (ground arith)

-- An element that is read.
pub elements_step :
    (kind : ℕ) (r : Bytes) (self : Progress) (next : Bytes) (then_self : Progress) (fuel : ℕ)
    → element kind r self ≡ done (next, then_self)
    → elements (kind ∷ r) (suc fuel) self ≡ elements next fuel then_self
unfolding elements
elements_step kind r self next then_self fuel e = rw (elements, e) refl

pub values_read :
    (items : List Bytes) (name : Bytes) (before : List Bytes) (self : Progress) (r : Bytes)
    (fuel : ℕ)
    → All IsValue items
    → elements (wire_values items ++ r) (count_values items fuel) (inside name before self)
      ≡ elements r fuel (inside name (before ++ items) self)
unfolding elements
values_read [] name before self r fuel h = rw (append-nil before) refl
values_read (value ∷ items) name before self r fuel h =
    ap (λ bytes. elements (5 ∷ bytes) (suc (count_values items fuel)) (inside name before self))
      (append_assoc (wire_value value) (wire_values items) r)
    ∙ elements_step 5 (wire_value value ++ (wire_values items ++ r)) (inside name before self)
        (wire_values items ++ r) (inside name (before ++ value ∷ []) self) (count_values items fuel)
        (element_value name before self value (wire_values items ++ r) h.0)
    ∙ values_read items name (before ++ value ∷ []) self r fuel h.1
    ∙ ap (λ all. elements r fuel (inside name all self)) (append_assoc before (value ∷ []) items)

pub section_end_read :
    (of name : Bytes) (body current : Section) (around : List (Bytes × Section)) (r : Bytes)
    (fuel : ℕ)
    → elements (2 ∷ r) (suc fuel) (at of body ((name, current) ∷ around))
      ≡ elements r fuel (at name (push_back current (section_item of body)) around)
unfolding element section_end end_section
section_end_read of name body current around r fuel =
    elements_step 2 r (at of body ((name, current) ∷ around)) r
      (at name (push_back current (section_item of body)) around) fuel refl

pub list_end_read :
    (of name : Bytes) (items : List Bytes) (current : Section) (around : List (Bytes × Section))
    (r : Bytes) (fuel : ℕ)
    → elements (6 ∷ r) (suc fuel) (inside of items (at name current around))
      ≡ elements r fuel (at name (push_back current (list_item of items)) around)
unfolding element list_end
list_end_read of name items current around r fuel =
    elements_step 6 r (inside of items (at name current around)) r
      (at name (push_back current (list_item of items)) around) fuel refl
