-- ===== src/Vici/Message.antt =====
-- crates/vici/src/message.rs: the tree of a message, its lookups, and its wire format.
use openfortivpn_rs.Text.{same_text, is_utf8}
use openfortivpn_rs.Prelude.{
  if◌then◌else◌, Option, none, Bool, true, some, Bytes, List, false, ◌∷◌, [], false, true, some,
  none, ◌∷◌, [],
}

mutual
  -- `Vec<Vec<u8>>` is a list of values; `Vec<Item>` is the section itself.
  pub data Item : Type 0 where
    section_item : Bytes → Section → Item
    key_value : Bytes → Bytes → Item
    list_item : Bytes → List Bytes → Item

  pub data Section : Type 0 where
    nothing : Section
    item_then : Item → Section → Section

-- `Item::name`
unfoldable pub name_of : Item → Bytes
name_of (section_item name body) = name
name_of (key_value key value) = key
name_of (list_item name items) = name

unfoldable pub is_container : Item → Bool
is_container (section_item name body) = true
is_container (key_value key value) = false
is_container (list_item name items) = true

-- `items.push(item)`
unfoldable pub push_back : Section → Item → Section
push_back nothing item = item_then item nothing
push_back (item_then first others) item = item_then first (push_back others item)

-- The builders of a section: `Section::kv`, `Section::list`, `Section::section`.
unfoldable pub kv : Section → Bytes → Bytes → Section
unfolding push_back
kv self key value = push_back self (key_value key value)

unfoldable pub list : Section → Bytes → List Bytes → Section
unfolding push_back
list self name items = push_back self (list_item name items)

unfoldable pub section : Section → Bytes → Section → Section
unfolding push_back
section self name body = push_back self (section_item name body)

-- "*"
abbrev pub any_name : Bytes
any_name = 42 ∷ []

unfoldable pub matches : Bytes → Item → Bool
unfolding is_container name_of
matches first item =
    if same_text first any_name then is_container item else same_text (name_of item) first

-- `self.items.iter().find(..)`
unfoldable pub find : Bytes → Section → Option Item
unfolding matches
find first nothing = none
find first (item_then item others) =
    let later = find first others in if matches first item then some item else later

-- `Section::get`, by recursion on the path, once the first name has been looked up.
unfoldable pub get_in : Option Item → List Bytes → Option Item
unfolding find
get_in none rest = none
get_in (some item) [] = some item
get_in (some (section_item name body)) (next ∷ rest) = get_in (find next body) rest
get_in (some (key_value key value)) (next ∷ rest) = none
get_in (some (list_item name items)) (next ∷ rest) = none

unfoldable pub get : Section → List Bytes → Option Item
unfolding find get_in
get self [] = none
get self (first ∷ rest) = get_in (find first self) rest

abbrev as_str : Option Item → Option Bytes
as_str (some (key_value key value)) = if is_utf8 value then some value else none
as_str (some (section_item name body)) = none
as_str (some (list_item name items)) = none
as_str none = none

unfoldable pub get_str : Section → List Bytes → Option Bytes
unfolding get
get_str self path = as_str (get self path)

abbrev as_section : Option Item → Option Section
as_section (some (section_item name body)) = some body
as_section (some (key_value key value)) = none
as_section (some (list_item name items)) = none
as_section none = none

unfoldable pub get_section : Section → List Bytes → Option Section
unfolding get
get_section self path = as_section (get self path)

abbrev as_list : Option Item → Option (List Bytes)
as_list (some (list_item name items)) = some items
as_list (some (section_item name body)) = none
as_list (some (key_value key value)) = none
as_list none = none

unfoldable pub get_list : Section → List Bytes → Option (List Bytes)
unfolding get
get_list self path = as_list (get self path)

-- `Section::sections`
unfoldable pub sections : Section → List (Bytes × Section)
sections nothing = []
sections (item_then (section_item name body) others) = (name, body) ∷ sections others
sections (item_then (key_value key value) others) = sections others
sections (item_then (list_item name items) others) = sections others
