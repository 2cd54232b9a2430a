-- ===== src/Vici/Result.antt =====
-- crates/vici/src/error.rs: the errors of the codec and of the client.
use openfortivpn_rs.Prelude.{ℕ, Bytes, Outcome}

-- The texts of `Error::Malformed`.
pub data Problem : Type 0 where
  section_inside_list nesting_too_deep unterminated_list : Problem
  unbalanced_section_end key_value_inside_list nested_list : Problem
  list_item_outside list_end_without_list unterminated_section : Problem

-- `out_of_fuel` is no error of the source: a loop of the model gives it when its fuel is spent.
pub data Error : Type 0 where
  name_length value_length message_size : ℕ → Error
  truncated : Error
  malformed : Problem → Error
  unknown_element unknown_packet : ℕ → Error
  unknown_command unknown_event : Bytes → Error
  unexpected_packet poisoned closed io out_of_fuel : Error

abbrev pub Result {ℓ} : Type ℓ → Type ℓ
Result T = Outcome Error T
