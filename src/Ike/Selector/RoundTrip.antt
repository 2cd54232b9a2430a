-- ===== src/Ike/Selector/RoundTrip.antt =====
-- The TS payloads of message/payload.rs, encoded and decoded.
use openfortivpn_rs.Ike.Bytes.Laws.{take_exact, u32_put, skip_three, len8_fits, u8_put, u16_put}
use openfortivpn_rs.Ike.Result.{ok}
use openfortivpn_rs.Prelude.{
  ◌^◌, List, sym, ◌≡◌, All, some, append_assoc, length, ◌<◌, ◌∙◌, ap, be16, ◌++◌, be32, ◌∷◌, [],
  arith, append-nil, Bytes, some, ◌∷◌, [],
}
use openfortivpn_rs.Ike.Selector.{
  TrafficSelector, decode_range, range_of, decode_selector, push_some, put_selectors,
  encode_selectors, selectors_loop, decode_selectors,
}

-- The fields of a selector fit their machine types.
pub record IsSelector (s : TrafficSelector) : Type 0 where
  pub start_port_fits : s.start_port < 2 ^ 16
  pub end_port_fits : s.end_port < 2 ^ 16
  pub start_fits : s.start < 2 ^ 32
  pub end_fits : s.end < 2 ^ 32

abbrev range_bytes : TrafficSelector → Bytes
range_bytes s = be16 s.start_port ++ (be16 s.end_port ++ (be32 s.start ++ be32 s.end))

abbrev bytes_of : List TrafficSelector → Bytes
bytes_of [] = []
bytes_of (s ∷ ss) = 7 ∷ s.protocol ∷ (be16 16 ++ (range_bytes s ++ bytes_of ss))

put_selectors-append :
    (ss : List TrafficSelector) (out : Bytes) → put_selectors ss out ≡ out ++ bytes_of ss
unfolding put_selectors
put_selectors-append [] out = sym (append-nil out)
put_selectors-append (s ∷ ss) out = put_selectors-append ss _ ∙ simp append_assoc

decode_range-range_bytes :
    (s : TrafficSelector) → IsSelector s → decode_range s.protocol (range_bytes s) ≡ ok (s, [])
unfolding decode_range
decode_range-range_bytes s h = ground (
  arith,
  u16_put s.start_port (be16 s.end_port ++ (be32 s.start ++ be32 s.end)) h.start_port_fits,
  u16_put s.end_port (be32 s.start ++ be32 s.end) h.end_port_fits,
  u32_put s.start (be32 s.end) h.start_fits,
  u32_put s.end [] h.end_fits,
)

decode_selector_step :
    (s : TrafficSelector) (r : Bytes)
    → IsSelector s
    → decode_selector (7 ∷ s.protocol ∷ (be16 16 ++ (range_bytes s ++ r))) ≡ ok (some s, r)
unfolding decode_selector range_of
decode_selector_step s r h = ground (
  arith,
  u8_put 7 (s.protocol ∷ (be16 16 ++ (range_bytes s ++ r))),
  u8_put s.protocol (be16 16 ++ (range_bytes s ++ r)),
  u16_put 16 (range_bytes s ++ r),
  take_exact (range_bytes s) r,
  decode_range-range_bytes s h,
)

selectors_loop-bytes_of :
    (ss found : List TrafficSelector)
    → All IsSelector ss
    → selectors_loop (length ss) found (bytes_of ss) ≡ ok (found ++ ss, [])
unfolding selectors_loop
selectors_loop-bytes_of [] found h = rw append-nil
selectors_loop-bytes_of (s ∷ ss) found h =
    rw (decode_selector_step s (bytes_of ss) h.0)
      (unfold push_some in (selectors_loop-bytes_of ss (found ++ s ∷ []) h.1 ∙ rw append_assoc))

-- Up to 255 selectors are encoded with no panic, and decoding gives them back in order.
pub decode_selectors-encode_selectors :
    (ss : List TrafficSelector)
    → All IsSelector ss
    → length ss < 2 ^ 8
    → (bytes : Bytes) × (encode_selectors ss ≡ ok bytes) × (decode_selectors bytes ≡ ok ss)
unfolding encode_selectors decode_selectors
decode_selectors-encode_selectors ss h n =
    let r = bytes_of ss in
    (
      length ss ∷ 0 ∷ 0 ∷ 0 ∷ r,
      rw (len8_fits (length ss) n) (ap ok (put_selectors-append ss (length ss ∷ 0 ∷ 0 ∷ 0 ∷ []))),
      rw (u8_put (length ss) (0 ∷ 0 ∷ 0 ∷ r), skip_three 0 0 0 r, selectors_loop-bytes_of ss [] h),
    )
