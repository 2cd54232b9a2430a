-- ===== src/Ike/Reassembler.antt =====
-- crates/ikev2/src/message/mod.rs: `Decrypted`, and the `Reassembler` of fragments. The map from
-- fragment numbers to their bytes, a `BTreeMap`, is a list in the order of the numbers.
pub mod Order
pub mod Numbering
pub mod Bounds
mod Tests
use openfortivpn_rs.Ike.Result.{bad_fragment_numbering, not_a_fragment, fail, Result, ok}
use openfortivpn_rs.Prelude.{
  if◌then◌else◌, ℕ, length, none, List, not, Bool, some, false, ltb, ◌∷◌, [], ◌||◌, ◌++◌, Bytes,
  ◌==◌, Option, false, some, none, ◌∷◌, [],
}
use openfortivpn_rs.Ike.Payload.{RawPayload, parse_chain}

pub record Decrypted : Type 0 where
  pub next_payload : ℕ
  pub inner : Bytes
  pub fragment : Option (ℕ × ℕ)

-- `Decrypted::payloads`
unfoldable pub payloads : Decrypted → Result (List RawPayload)
payloads d = parse_chain d.next_payload d.inner

abbrev pub max_fragments : ℕ
max_fragments = 64

pub record Reassembler : Type 0 where
  pub message_id : Option ℕ
  pub total : ℕ
  pub next_payload : ℕ
  pub fragments : List (ℕ × Bytes)

-- `Self::default()`
abbrev pub default : Reassembler
default = record { message_id = none; total = 0; next_payload = 0; fragments = [] }

-- `BTreeMap::insert`
unfoldable pub insert : ℕ → Bytes → List (ℕ × Bytes) → List (ℕ × Bytes)
insert n v [] = (n, v) ∷ []
insert n v (f ∷ fs) =
    let rest = insert n v fs in
    if ltb n f.0 then (n, v) ∷ f ∷ fs else if n == f.0 then (n, v) ∷ fs else f ∷ rest

-- `self.fragments.values().flatten()`
pub values : List (ℕ × Bytes) → Bytes
values [] = []
values (f ∷ fs) = f.1 ++ values fs

abbrev pub is_message : Option ℕ → ℕ → Bool
is_message none id = false
is_message (some id') id = id' == id

-- A fragment of another message, or of another number of fragments, starts over.
unfoldable pub restart : Reassembler → ℕ → ℕ → Reassembler
restart self id total =
    if not (is_message self.message_id id) || not (self.total == total)
    then record self { message_id = some id; total = total; fragments = [] }
    else self

unfoldable pub store : Reassembler → ℕ → Decrypted → Reassembler
unfolding insert
store self number decrypted = record self {
  next_payload = if number == 1 then decrypted.next_payload else self.next_payload;
  fragments = insert number decrypted.inner self.fragments;
}

unfoldable pub complete : Reassembler → ℕ → Reassembler × Result (Option Decrypted)
unfolding values
complete self total = if ltb (length self.fragments) total then (self, ok none) else (
  default,
  ok (
      some (record {
        next_payload = self.next_payload;
        inner = values self.fragments;
        fragment = none;
      })),
)

-- The numbers that are no numbering of a message's fragments.
abbrev pub is_bad : ℕ → ℕ → Bool
is_bad number total = number == 0 || total == 0 || ltb total number || ltb max_fragments total

unfoldable pub add_fragment :
    Reassembler → ℕ → Decrypted → Option (ℕ × ℕ) → Reassembler × Result (Option Decrypted)
unfolding restart store complete
add_fragment self id decrypted none = (self, fail not_a_fragment)
add_fragment self id decrypted (some (number, total)) =
    if is_bad number total
    then (self, fail bad_fragment_numbering)
    else complete (store (restart self id total) number decrypted) total

-- `Reassembler::add`
unfoldable pub add : Reassembler → ℕ → Decrypted → Reassembler × Result (Option Decrypted)
unfolding add_fragment
add self id decrypted = add_fragment self id decrypted decrypted.fragment
