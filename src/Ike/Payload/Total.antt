-- ===== src/Ike/Payload/Total.antt =====
-- The loops of message/payload.rs on any bytes.
use openfortivpn_rs.Ike.Result.{◌and_then◌}
use openfortivpn_rs.Ike.Bytes.{resume, take, skip, u16, u8}
use openfortivpn_rs.Ike.Bytes.Progress.{
  Consumes-with_rest, Consumes-take, Consumes-skip, Consumes-resume_any, Consumes-u16, Consumes-u8,
  reject-ne-out_of_fuel, Consumes-resume, resume-ne-out_of_fuel,
}
use openfortivpn_rs.Ike.Result.{
  reject, payload_shorter_than_header, Result, ok, trailing_data_after_payload, out_of_fuel, err,
}
use openfortivpn_rs.Prelude.{
  ltb, ◌-◌, zero, ◌++◌, ℕ, ◌+◌, ◌∷◌, ◌≤◌, arith, length, Bytes, ◌≢◌, [], suc, ◌==◌, if_elim,
  is_empty, ◌<◌, not, List, suc, zero, ◌∷◌, [],
}
use openfortivpn_rs.Ike.Payload.{
  RawPayload, ConfigAttribute, none_kind, chain_loop, parse_chain, attributes_loop, decode_config,
}

chain_loop-fuel :
    (fuel kind : ℕ) (found : List RawPayload) (r : Bytes)
    → length r < fuel
    → chain_loop fuel kind found r ≢ err out_of_fuel
unfolding chain_loop
chain_loop-fuel zero kind found r h = absurd (omega arith)
chain_loop-fuel (suc fuel) kind found r h =
    if_elim (λ m. m ≢ err out_of_fuel) (kind == none_kind) _ _ (λ _ p. cc p)
      λ _. resume-ne-out_of_fuel 1 r (u8 r) _ (Consumes-u8 r) λ next r₁ c₁.
        resume-ne-out_of_fuel 1 r₁ (skip 1 r₁) _ (Consumes-skip 1 r₁) λ _ r₂ c₂.
          resume-ne-out_of_fuel 2 r₂ (u16 r₂) _ (Consumes-u16 r₂) λ len r₃ c₃.
            resume-ne-out_of_fuel 0 r₃ _ _
              (Consumes-with_rest _ r₃
                (reject-ne-out_of_fuel (ltb len 4) payload_shorter_than_header))
              λ _ r₄ c₄.
                resume-ne-out_of_fuel (len - 4) r₄ (take (len - 4) r₄) _
                  (Consumes-take (len - 4) r₄)
                  λ body r₅ c₅.
                    chain_loop-fuel fuel next (found ++ record { kind = kind; body = body } ∷ []) r₅
                      (omega arith)

after_chain :
    (m : Result (List RawPayload × Bytes))
    → m ≢ err out_of_fuel
    → resume
        (λ payloads r.
          reject (not (is_empty r)) trailing_data_after_payload and_then λ _. ok payloads)
        m
      ≢ err out_of_fuel
after_chain (ok (payloads, r)) h = ground arith
after_chain (err e) h = λ p. h (cc p)

-- Whatever the bytes behind a header are, parsing the chain of payloads ends: the fuel of the model
-- is never spent.
pub parse_chain-ne-out_of_fuel :
    (first : ℕ) (bytes : Bytes) → parse_chain first bytes ≢ err out_of_fuel
unfolding parse_chain
parse_chain-ne-out_of_fuel first bytes =
    after_chain (chain_loop (length bytes + 1) first [] bytes)
      (chain_loop-fuel (length bytes + 1) first [] bytes (omega arith))

attributes_loop-fuel :
    (fuel : ℕ) (found : List ConfigAttribute) (r : Bytes)
    → length r ≤ fuel
    → attributes_loop fuel found r ≢ err out_of_fuel
unfolding attributes_loop
attributes_loop-fuel fuel found [] h = λ p. cc p
attributes_loop-fuel zero found (b ∷ r) h = absurd (omega arith)
attributes_loop-fuel (suc fuel) found (b ∷ r) h =
    resume-ne-out_of_fuel 4 (b ∷ r) _ _
      (Consumes-resume 2 2 (b ∷ r) (u16 (b ∷ r)) _ (Consumes-u16 (b ∷ r)) λ kind r₁.
        Consumes-resume 2 0 r₁ (u16 r₁) _ (Consumes-u16 r₁) λ len r₂.
          Consumes-resume_any len 0 r₂ (take len r₂) _ (Consumes-take len r₂)
            λ value r₃. omega arith)
      (λ a r' c. attributes_loop-fuel fuel (found ++ a ∷ []) r' (omega arith))

-- Whatever the bytes of a configuration payload are, decoding it ends: the fuel of the model is never
-- spent.
pub decode_config-ne-out_of_fuel : (bytes : Bytes) → decode_config bytes ≢ err out_of_fuel
unfolding decode_config
decode_config-ne-out_of_fuel bytes =
    resume-ne-out_of_fuel 4 bytes _ _
      (Consumes-resume 1 3 bytes (u8 bytes) _ (Consumes-u8 bytes)
        λ kind r₁. Consumes-resume 3 0 r₁ (skip 3 r₁) _ (Consumes-skip 3 r₁) λ _ r₂. omega arith)
      (λ kind r c. ground (arith, attributes_loop-fuel (length r) [] r))
