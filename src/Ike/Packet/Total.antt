-- ===== src/Ike/Packet/Total.antt =====
-- `Packet::parse` of message/mod.rs on any bytes.
use openfortivpn_rs.Ike.Bytes.{
  resume, u16, pure, take, ◌>>=◌, lift, ◌>>◌, u32, u8, u64, skip, value_of,
}
use openfortivpn_rs.Ike.Payload.{none_kind, RawPayload}
use openfortivpn_rs.Ike.Result.{
  header_length, payload_shorter_than_header, reject, major_version, Result, err, ok,
}
use openfortivpn_rs.Prelude.{
  ◌++◌, ◌∷◌, ◌<◌, inl, [], Bool-cases, zero, suc, length-drop, if_elim, ◌||◌, inr, inr, inl, suc,
  zero, ◌∷◌, [], ◌+◌, ltb, ◌-◌, le→leb, length, ◌≡◌, List, not, ◌/◌, ◌==◌, arith, drop, ◌≤◌, ◌^◌,
  some, Option, none, ℕ, Bytes, some, none,
}
use openfortivpn_rs.Ike.Header.{
  Exchange, Header, read_header, decode_header, known_exchange, exchange_from_id, header_len,
}
use openfortivpn_rs.Ike.Packet.{
  bytes_from, encrypted_part, read_payload, packet_loop, parse_packet, sk_kind, skf_kind,
}
use openfortivpn_rs.Ike.Bytes.Orderly.{
  and_then-IsOrderly, Reads-take, resume_elim, Reads-u16, Reads-u32, reject-IsOrderly,
  Reads-with_rest, Reads-u8, Reads-u64, Reads-skip, Reads-resume, resume-IsOrderly, IsReturned,
  Reads, IsOrderly,
}

known_exchange-IsOrderly : (id : ℕ) (e : Option Exchange) → IsOrderly (known_exchange id e)
known_exchange-IsOrderly id none = tt
known_exchange-IsOrderly id (some e) = tt

-- A header takes 28 bytes, and reading one fails with an error of the source.
Reads-read_header : (r : Bytes) → Reads header_len r (read_header r)
unfolding read_header
Reads-read_header r = Reads-resume 8 20 r (u64 r) _ (Reads-u64 r) λ initiator_spi r₁ _.
    Reads-resume 8 12 r₁ (u64 r₁) _ (Reads-u64 r₁) λ responder_spi r₂ _.
      Reads-resume 1 11 r₂ (u8 r₂) _ (Reads-u8 r₂) λ next_payload r₃ _.
        Reads-resume 1 10 r₃ (u8 r₃) _ (Reads-u8 r₃) λ version r₄ _.
          Reads-resume 0 10 r₄ _ _
            (Reads-with_rest _ r₄
              (reject-IsOrderly (not (version / 2 ^ 4 == 2)) (major_version (version / 2 ^ 4))))
            λ _ r₅ _. Reads-resume 1 9 r₅ (u8 r₅) _ (Reads-u8 r₅) λ exchange r₆ _.
              Reads-resume 1 8 r₆ (u8 r₆) _ (Reads-u8 r₆) λ flags r₇ _.
                Reads-resume 4 4 r₇ (u32 r₇) _ (Reads-u32 r₇) λ message_id r₈ _.
                  Reads-resume 4 0 r₈ (u32 r₈) _ (Reads-u32 r₈) λ length r₉ _.
                    Reads-resume 0 0 r₉ _ _
                      (Reads-with_rest _ r₉
                        (known_exchange-IsOrderly exchange (exchange_from_id exchange)))
                      λ known r₁₀ _. omega arith

value_of-header :
    (r : Bytes) (m : Result (Header × Bytes))
    → Reads header_len r m
    → IsOrderly (value_of m) × ((h : Header) → value_of m ≡ ok h → header_len ≤ length r)
value_of-header r (ok (h, s)) c = (tt, λ _ _. omega arith)
value_of-header r (err e) c = (c, λ h p. cc p)

-- The payload read is inside the bytes.
abbrev IsInside : ℕ → Result ((ℕ × ℕ × Bytes) × Bytes) → Type 0
IsInside count (ok (payload, r')) = (4 ≤ payload.1) × (payload.1 ≤ count)
IsInside count (err e) = IsReturned e

checked_take-IsInside :
    (count len next : ℕ) (r : Bytes)
    → length r + 4 ≤ count
    → IsInside count (
        (do
          lift (reject (ltb len 4) payload_shorter_than_header)
          body ← take (len - 4)
          pure (next, len, body))
          r)
checked_take-IsInside count len next r c = elim (Bool-cases (ltb len 4)) [
  | inl short ↦ rw short tt
  | inr long ↦ rw long (
      resume_elim (IsInside count) (len - 4) r (take (len - 4) r) _ (λ e h. h)
        (Reads-take (len - 4) r) λ body r' fewer. (ground arith, ground arith))
]

read_payload-IsInside : (r : Bytes) → IsInside (length r) (read_payload r)
unfolding read_payload
read_payload-IsInside r =
    resume_elim (IsInside (length r)) 1 r (u8 r) _ (λ e h. h) (Reads-u8 r)
      λ next r₁ c₁.
        resume_elim (IsInside (length r)) 1 r₁ (skip 1 r₁) _ (λ e h. h) (Reads-skip 1 r₁)
          λ _ r₂ c₂.
            resume_elim (IsInside (length r)) 2 r₂ (u16 r₂) _ (λ e h. h) (Reads-u16 r₂)
              λ len r₃ c₃. checked_take-IsInside (length r) len next r₃ (omega arith)

encrypted_part-IsOrderly :
    (kind offset : ℕ) (found : List RawPayload) (bytes : Bytes)
    → offset ≤ length bytes
    → IsOrderly (encrypted_part kind offset found bytes)
unfolding encrypted_part
encrypted_part-IsOrderly kind offset found bytes h =
    let r = drop offset bytes in
    rw (le→leb offset (length bytes) h) (
      resume-IsOrderly 4 r _ _
        (Reads-resume 2 2 r (skip 2 r) _ (Reads-skip 2 r) (λ _ r' _. Reads-u16 r'))
        λ payload_len r' _. ground arith)

abbrev Parsed : Type 0
Parsed = Result (List RawPayload × Option ℕ)

after_payload-IsOrderly :
    (count : ℕ) (m : Result ((ℕ × ℕ × Bytes) × Bytes))
    (again : ℕ → ℕ → Bytes → Result (List RawPayload × Option ℕ))
    → IsInside count m
    → ((next len : ℕ) (body : Bytes) → 4 ≤ len → len ≤ count → IsOrderly (again next len body))
    → IsOrderly (resume (λ (next, len, body) r'. again next len body) m)
after_payload-IsOrderly count (ok ((next, len, body), r')) again i h = h next len body i.0 i.1
after_payload-IsOrderly count (err e) again i h = i

length-bytes_from :
    (offset : ℕ) (bytes : Bytes) {r : Bytes}
    → bytes_from offset bytes ≡ ok r
    → length r + offset ≤ length bytes
length-bytes_from offset bytes e = ground (arith, length-drop offset bytes)

packet_loop-IsOrderly :
    (fuel kind offset : ℕ) (found : List RawPayload) (bytes : Bytes)
    → offset ≤ length bytes
    → length bytes - offset < fuel
    → IsOrderly (packet_loop fuel kind offset found bytes)
unfolding packet_loop
packet_loop-IsOrderly zero kind offset found bytes h f = absurd (omega arith)
packet_loop-IsOrderly (suc fuel) kind offset found bytes h f =
    if_elim {A = Parsed} (λ m. IsOrderly m) (kind == none_kind) _ _ (λ _. tt)
      λ _.
        if_elim {A = Parsed} (λ m. IsOrderly m) (kind == sk_kind || kind == skf_kind) _ _
          (λ _. encrypted_part-IsOrderly kind offset found bytes h)
          (λ _.
            and_then-IsOrderly (bytes_from offset bytes) _ (rw (le→leb offset (length bytes) h) tt)
              λ r e.
                let inside : length r + offset ≤ length bytes = length-bytes_from offset bytes e in
                after_payload-IsOrderly (length r) (read_payload r) _ (read_payload-IsInside r)
                  λ next len body four fits.
                    packet_loop-IsOrderly fuel next (offset + len)
                      (found ++ record { kind = kind; body = body } ∷ []) bytes (omega arith)
                      (omega arith))

-- Whatever the bytes of a datagram are, parsing it ends, with a packet or with an error that the
-- source returns: no index is out of bounds, no `expect` fails, and the fuel of the model is not spent.
pub parse_packet-IsOrderly : (bytes : Bytes) → IsOrderly (parse_packet bytes)
unfolding parse_packet decode_header
parse_packet-IsOrderly bytes =
    let header = value_of-header bytes (read_header bytes) (Reads-read_header bytes) in
    and_then-IsOrderly (value_of (read_header bytes)) _ header.0 λ h e.
      and_then-IsOrderly _ _
        (reject-IsOrderly (not (h.length == length bytes)) (header_length h.length (length bytes)))
        λ _ _.
          and_then-IsOrderly _ _
            (packet_loop-IsOrderly (length bytes + 1) h.next_payload header_len [] bytes
              (header.1 h e) (omega arith))
            λ _ _. tt
