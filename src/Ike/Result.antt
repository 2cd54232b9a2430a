-- ===== src/Ike/Result.antt =====
-- The results of crates/ikev2: `Result<T>` with the errors of error.rs that the message codec and
-- the ESP code raise. An error's text is a `Reason`, one for each message of the source.
use openfortivpn_rs.Prelude.{ℕ, Bool, true, false}

pub data Reason : Type 0 where
  bytes_expected : ℕ → ℕ → Reason
  does_not_fit : ℕ → Reason
  transform_too_short proposal_too_short : Reason
  transform_count_mismatch : Reason
  unknown_protocol : ℕ → Reason
  trailing_data_after_proposals : Reason
  payload_shorter_than_header trailing_data_after_payload : Reason
  selector_too_short no_selectors : Reason
  major_version : ℕ → Reason
  unknown_exchange : ℕ → Reason
  header_length : ℕ → ℕ → Reason
  encrypted_not_last no_encrypted encrypted_too_short empty_encrypted bad_padding : Reason
  not_a_fragment bad_fragment_numbering too_many_fragments : Reason
  esp_too_short : Reason
  unknown_spi replayed : ℕ → Reason
  empty_esp bad_esp_padding : Reason
  not_for_ike no_ike_algorithm not_for_esp no_esp_spi : Reason
  extended_sequence_numbers no_esp_algorithm : Reason
  other_sa wrong_protection before_keys unencrypted_request : Reason

-- `panicked` is an `expect` that fails, or an index out of bounds. `out_of_fuel` is no error of the
-- source: a loop of the model gives it when its fuel is spent.
pub data Error : Type 0 where
  malformed : Reason → Error
  crypto : ℕ → Error
  panicked out_of_fuel : Error

-- `Result<T>`
pub data Result {ℓ} (T : Type ℓ) : Type ℓ where
  err : Error → Result T
  ok : T → Result T

infixl 5 ◌and_then◌
-- `Result::and_then`, and the `?` operator.
abbrev pub ◌and_then◌ {κ ℓ} : {T : Type κ} {U : Type ℓ} → Result T → (T → Result U) → Result U
(err why) and_then next = err why
(ok value) and_then next = next value

abbrev pub fail {ℓ} : {A : Type ℓ} → Reason → Result A
fail r = err (malformed r)

-- `if test { return Err(..) }`
abbrev pub reject : Bool → Reason → Result (Unit {0})
reject true r = fail r
reject false r = ok tt

-- An index that is in bounds, or an `expect` that holds.
abbrev pub expect {ℓ} : {A : Type ℓ} → Bool → A → Result A
expect true a = ok a
expect false a = err panicked

abbrev pub is_ok {ℓ} : {A : Type ℓ} → Result A → Bool
is_ok (err e) = false
is_ok (ok a) = true
