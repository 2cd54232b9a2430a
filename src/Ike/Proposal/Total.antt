-- ===== src/Ike/Proposal/Total.antt =====
-- The loops of message/proposal.rs on any bytes.
use openfortivpn_rs.Ike.Result.{Result, ok, out_of_fuel, err}
use openfortivpn_rs.Prelude.{
  ◌==◌, ◌++◌, ◌%◌, ◌-◌, ◌^◌, ltb, [], List, arith, ◌∷◌, ◌/◌, none, not, ◌≢◌, ◌≤◌, length, Bytes, ℕ,
  Option, suc, zero,
}
use openfortivpn_rs.Ike.Bytes.{take, u16, u8, skip}
use openfortivpn_rs.Ike.Proposal.{
  protocol_from_id, note, value_of, Proposal, Protocol, Decoding, decode_transforms,
  decode_proposal, decode_loop, known_protocol, decode_body, decode_transform, read_attributes,
  read_attribute, decode,
}
use openfortivpn_rs.Ike.Bytes.Progress.{
  Consumes-resume_any, Consumes-with_rest, Consumes-take, Consumes-pure, resume-ne-out_of_fuel,
  Consumes-reject, Consumes-skip, Consumes-if, Consumes-u16, Consumes-u8, Consumes-resume, Consumes,
}

read_attribute-Consumes : (k : Option ℕ) (r : Bytes) → Consumes 4 r (read_attribute k r)
unfolding read_attribute
read_attribute-Consumes k r = Consumes-resume 2 2 r (u16 r) _ (Consumes-u16 r) λ t s.
    Consumes-if 2 s (not (t / 2 ^ 15 % 2 == 0)) _ _
      (Consumes-resume 2 0 s (u16 s) _ (Consumes-u16 s) (λ v s'. omega arith))
      (Consumes-resume 2 0 s (u16 s) _ (Consumes-u16 s) (λ n s'.
        Consumes-resume_any n 0 s' (skip n s') _ (Consumes-skip n s') (λ _ s''. omega arith)))

read_attributes-fuel :
    (fuel : ℕ) (k : Option ℕ) (r : Bytes)
    → length r ≤ fuel
    → read_attributes fuel k r ≢ err out_of_fuel
unfolding read_attributes
read_attributes-fuel fuel k [] h = λ p. cc p
read_attributes-fuel zero k (b ∷ r) h = absurd (omega arith)
read_attributes-fuel (suc fuel) k (b ∷ r) h =
    resume-ne-out_of_fuel 4 (b ∷ r) (read_attribute k (b ∷ r)) _ (read_attribute-Consumes k (b ∷ r))
      λ k' r' c. read_attributes-fuel fuel k' r' (omega arith)

decode_transform-Consumes : (r : Bytes) → Consumes 8 r (decode_transform r)
unfolding decode_transform
decode_transform-Consumes r = Consumes-resume 1 7 r (u8 r) _ (Consumes-u8 r) λ more r₁.
    Consumes-resume 1 6 r₁ (skip 1 r₁) _ (Consumes-skip 1 r₁) λ _ r₂.
      Consumes-resume 2 4 r₂ (u16 r₂) _ (Consumes-u16 r₂) λ len r₃.
        Consumes-reject 4 r₃ (ltb len 8) _ _ (
          Consumes-resume 1 3 r₃ (u8 r₃) _ (Consumes-u8 r₃) λ kind r₄.
            Consumes-resume 1 2 r₄ (skip 1 r₄) _ (Consumes-skip 1 r₄) λ _ r₅.
              Consumes-resume 2 0 r₅ (u16 r₅) _ (Consumes-u16 r₅) λ id r₆.
                (Consumes-resume_any (len - 8) 0 r₆ (take (len - 8) r₆) _
                  (Consumes-take (len - 8) r₆)
                  λ attributes r₇.
                    Consumes-resume 0 0 r₇ _ _
                      (Consumes-with_rest (read_attributes (length attributes) none attributes) r₇
                        (read_attributes-fuel (length attributes) none attributes (omega arith)))
                      λ key r₈. omega arith))

decode_transforms-Consumes :
    (n : ℕ) (d : Decoding) (r : Bytes) → Consumes 0 r (decode_transforms n d r)
unfolding decode_transforms
decode_transforms-Consumes zero d r = Consumes-pure d r
decode_transforms-Consumes (suc n) d r =
    (Consumes-resume_any 8 0 r (decode_transform r) _ (decode_transform-Consumes r) λ found r'.
      Consumes-if 0 r' found.1 _ _ (Consumes-pure (note found.0 d) r')
        (decode_transforms-Consumes n (note found.0 d) r'))

known-ne-fuel : (id : ℕ) (p : Option Protocol) → known_protocol id p ≢ err out_of_fuel
unfolding known_protocol
known-ne-fuel id p = ground arith

decode_body-Consumes : (r : Bytes) → Consumes 4 r (decode_body r)
unfolding decode_body
decode_body-Consumes r = Consumes-resume 1 3 r (u8 r) _ (Consumes-u8 r) λ number r₁.
    Consumes-resume 1 2 r₁ (u8 r₁) _ (Consumes-u8 r₁) λ protocol r₂.
      Consumes-resume 1 1 r₂ (u8 r₂) _ (Consumes-u8 r₂) λ spi_len r₃.
        Consumes-resume 1 0 r₃ (u8 r₃) _ (Consumes-u8 r₃) λ count r₄.
          (Consumes-resume_any spi_len 0 r₄ (take spi_len r₄) _ (Consumes-take spi_len r₄) λ spi r₅.
            Consumes-resume 0 0 r₅ _ _ (decode_transforms-Consumes count _ r₅) λ d r₆.
              Consumes-reject 0 r₆ (not (d.decoded == count)) _ _ (
                Consumes-resume 0 0 r₆ _ _
                  (Consumes-with_rest _ r₆ (known-ne-fuel protocol (protocol_from_id protocol)))
                  λ known r₇. omega arith))

value_of-ne-fuel :
    (r : Bytes) (m : Result (Proposal × Bytes)) → Consumes 4 r m → value_of m ≢ err out_of_fuel
value_of-ne-fuel r (ok (p, s)) h = λ e. cc e
value_of-ne-fuel r (err e) h = λ p. h (cc p)

decode_proposal-Consumes : (r : Bytes) → Consumes 4 r (decode_proposal r)
unfolding decode_proposal
decode_proposal-Consumes r = Consumes-resume 1 3 r (u8 r) _ (Consumes-u8 r) λ more r₁.
    Consumes-resume 1 2 r₁ (skip 1 r₁) _ (Consumes-skip 1 r₁) λ _ r₂.
      Consumes-resume 2 0 r₂ (u16 r₂) _ (Consumes-u16 r₂) λ len r₃.
        Consumes-reject 0 r₃ (ltb len 8) _ _ (
          (Consumes-resume_any (len - 4) 0 r₃ (take (len - 4) r₃) _ (Consumes-take (len - 4) r₃)
            λ body r₄.
              Consumes-resume 0 0 r₄ _ _
                (Consumes-with_rest _ r₄
                  (value_of-ne-fuel body (decode_body body) (decode_body-Consumes body)))
                λ p r₅. omega arith))

decode_loop-fuel :
    (fuel : ℕ) (found : List Proposal) (r : Bytes)
    → length r ≤ fuel
    → decode_loop fuel found r ≢ err out_of_fuel
unfolding decode_loop
decode_loop-fuel fuel found [] h = λ p. cc p
decode_loop-fuel zero found (b ∷ r) h = absurd (omega arith)
decode_loop-fuel (suc fuel) found (b ∷ r) h =
    resume-ne-out_of_fuel 4 (b ∷ r) (decode_proposal (b ∷ r)) _ (decode_proposal-Consumes (b ∷ r))
      λ next r' c. ground (arith, decode_loop-fuel fuel (found ++ next.0 ∷ []) r')

-- Whatever bytes an SA payload holds, the loops of its decoder end: decoding gives proposals or an
-- error of the source, and the fuel of the model is never spent.
pub decode-ne-out_of_fuel : (bytes : Bytes) → decode bytes ≢ err out_of_fuel
unfolding decode
decode-ne-out_of_fuel bytes = ground (arith, decode_loop-fuel (length bytes) [] bytes)
