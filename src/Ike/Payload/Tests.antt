-- ===== src/Ike/Payload/Tests.antt =====
-- The payload codecs of message/payload.rs at concrete payloads.
use openfortivpn_rs.Ike.Result.{ok}
use openfortivpn_rs.Prelude.{◌≡◌, arith, ◌∷◌, [], Bytes, ℕ, List, ◌++◌, ◌∷◌, []}
use openfortivpn_rs.Ike.Payload.{
  first_kind, RawPayload, Notify, Delete, Config, parse_chain, encode_chain,
}
use openfortivpn_rs.Ike.Payload.RoundTrip.{parse_chain-encode_chain}

abbrev nonce_kind : ℕ
nonce_kind = 40

abbrev notify_kind : ℕ
notify_kind = 41

abbrev chain_of_two : List RawPayload
chain_of_two =
    record { kind = nonce_kind; body = 1 ∷ 2 ∷ 3 ∷ [] }
    ∷ record { kind = notify_kind; body = 0 ∷ 0 ∷ [] }
    ∷ []

parse_chain-encode_chain_example :
    (chain : Bytes) × (encode_chain chain_of_two [] ≡ ok ([] ++ chain, nonce_kind))
    × (parse_chain nonce_kind chain ≡ ok chain_of_two)
unfolding first_kind
parse_chain-encode_chain_example = parse_chain-encode_chain chain_of_two [] (
  record { not_none = λ e. cc e; body_fits = omega arith },
  (record { not_none = λ e. cc e; body_fits = omega arith }, tt),
)

abbrev cookie : Notify
cookie = record { protocol = 0; spi = []; kind = 16390; body = 9 ∷ [] }

abbrev deleted : Delete
deleted = record { protocol = 3; spis = (1 ∷ 2 ∷ 3 ∷ 4 ∷ []) ∷ (5 ∷ 6 ∷ 7 ∷ 8 ∷ []) ∷ [] }

abbrev asked : Config
asked = record {
  kind = 1;
  attributes =
      record { kind = 1; value = [] } ∷ record { kind = 3; value = 10 ∷ 0 ∷ 0 ∷ 53 ∷ [] } ∷ [];
}
