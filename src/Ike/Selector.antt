-- ===== src/Ike/Selector.antt =====
-- crates/ikev2/src/message/payload.rs: `TrafficSelector` and the TSi and TSr payloads.
-- An IPv4 address is its 32-bit number, most significant octet first, as `u32::from` gives it.
pub mod Networks
pub mod Covers
pub mod RoundTrip
mod Tests
use openfortivpn_rs.Prelude.{
  if◌then◌else◌, none, ltb, ◌/◌, ◌||◌, ◌%◌, ◌-◌, be32, ◌+◌, ◌*◌, ◌==◌, ◌&&◌, is_empty, ◌∷◌, zero,
  Option, leb, min, ◌++◌, length, ℕ, ◌^◌, Bool, Bytes, suc, List, not, some, [], some, none, suc,
  zero, ◌∷◌, [],
}
use openfortivpn_rs.Ike.Payload.{RawPayload, find}
use openfortivpn_rs.Ike.Result.{
  expect, no_selectors, selector_too_short, out_of_fuel, reject, fail, Result, err, ok, ◌and_then◌,
}
use openfortivpn_rs.Ike.Bytes.{
  len8, u32, skip, put_u8, u8, u16, put_u16, Parse, resume, ◌>>=◌, ◌>>◌, pure, lift, take, value_of,
}

pub record TrafficSelector : Type 0 where
  pub protocol : ℕ
  pub start_port : ℕ
  pub end_port : ℕ
  pub start : ℕ
  pub end : ℕ

abbrev pub type_ipv4_range : ℕ
type_ipv4_range = 7

-- `TrafficSelector::ANY`
abbrev pub any : TrafficSelector
any = record { protocol = 0; start_port = 0; end_port = 65535; start = 0; end = 2 ^ 32 - 1 }

unfoldable pub host : ℕ → TrafficSelector
host address = record {
  protocol = 0;
  start_port = 0;
  end_port = 65535;
  start = address;
  end = address;
}

-- The bits behind the prefix: `mask` has the low `host_bits prefix` bits clear.
unfoldable pub host_bits : ℕ → ℕ
host_bits prefix = if prefix == 0 then 32 else 32 - min prefix 32

-- `bits & mask` clears the low bits, and `bits | !mask` sets them.
unfoldable pub network : ℕ → ℕ → TrafficSelector
unfolding host_bits
network address prefix =
    let size = 2 ^ host_bits prefix in
    record {
      protocol = 0;
      start_port = 0;
      end_port = 65535;
      start = address / size * size;
      end = address / size * size + (size - 1);
    }

unfoldable pub covers : TrafficSelector → TrafficSelector → Bool
covers self other =
    (self.protocol == 0 || self.protocol == other.protocol)
    && leb self.start_port other.start_port
    && leb other.end_port self.end_port
    && leb self.start other.start
    && leb other.end self.end

-- `while prefix > 0`, down from the prefix given.
unfoldable pub block_prefix : ℕ → ℕ → ℕ → ℕ
block_prefix start end zero = 0
block_prefix start end (suc p) =
    let size = 2 ^ (33 - suc p) in
    let rest = block_prefix start end p in
    if not (start % size == 0) || ltb end (start + size - 1) then suc p else rest

-- `while start <= end`; the fuel is the number of addresses from `start` to `end`.
pub blocks_loop : ℕ → ℕ → ℕ → List (ℕ × ℕ) → Result (List (ℕ × ℕ))
unfolding block_prefix
blocks_loop zero start end blocks = if leb start end then err out_of_fuel else ok blocks
blocks_loop (suc fuel) start end blocks =
    let prefix = block_prefix start end 32 in
    let next = blocks_loop fuel (start + 2 ^ (32 - prefix)) end in
    if leb start end
    then (expect (ltb start (2 ^ 32)) start and_then λ address.
        next (blocks ++ (address, prefix) ∷ []))
    else ok blocks

unfoldable pub networks : TrafficSelector → Result (List (ℕ × ℕ))
unfolding blocks_loop
networks self = blocks_loop (self.end + 1 - self.start) self.start self.end []

unfoldable pub encode_selector : TrafficSelector → Bytes → Bytes
encode_selector self out =
    put_u16 self.end_port
      (put_u16 self.start_port (put_u16 16 (put_u8 self.protocol (put_u8 type_ipv4_range out))))
    ++ (be32 self.start ++ be32 self.end)

-- The body of a selector, read with a cursor of its own.
unfoldable pub decode_range : ℕ → Parse TrafficSelector
decode_range protocol = do
  start_port ← u16
  end_port ← u16
  start ← u32
  end ← u32
  pure (record {
    protocol = protocol;
    start_port = start_port;
    end_port = end_port;
    start = start;
    end = end;
  })

-- A body of another type is skipped.
unfoldable pub range_of : ℕ → ℕ → Bytes → Parse (Option TrafficSelector)
unfolding decode_range
range_of kind protocol body =
    if kind == type_ipv4_range
    then lift (value_of (decode_range protocol body) and_then λ s. ok (some s))
    else pure none

unfoldable pub decode_selector : Parse (Option TrafficSelector)
unfolding range_of
decode_selector = do
  kind ← u8
  protocol ← u8
  length ← u16
  lift (reject (ltb length 4) selector_too_short)
  body ← take (length - 4)
  range_of kind protocol body

pub put_selectors : List TrafficSelector → Bytes → Bytes
unfolding encode_selector
put_selectors [] out = out
put_selectors (s ∷ ss) out = put_selectors ss (encode_selector s out)

unfoldable pub encode_selectors : List TrafficSelector → Result Bytes
unfolding put_selectors
encode_selectors selectors = len8 (length selectors) and_then λ count.
    ok (put_selectors selectors (put_u8 count [] ++ 0 ∷ 0 ∷ 0 ∷ []))

-- `if let Some(selector) = ... { selectors.push(selector) }`
unfoldable pub push_some : List TrafficSelector → Option TrafficSelector → List TrafficSelector
push_some selectors none = selectors
push_some selectors (some s) = selectors ++ s ∷ []

-- `for _ in 0..count`
pub selectors_loop : ℕ → List TrafficSelector → Parse (List TrafficSelector)
unfolding decode_selector push_some
selectors_loop zero selectors = pure selectors
selectors_loop (suc n) selectors = do
  found ← decode_selector
  selectors_loop n (push_some selectors found)

unfoldable pub decode_selectors : Bytes → Result (List TrafficSelector)
unfolding selectors_loop
decode_selectors bytes = value_of ((do count ← u8; skip 3; selectors_loop count []) bytes)

-- `.filter(|selectors| !selectors.is_empty()).ok_or_else(..)` on the selectors of a payload.
unfoldable pub some_selectors : Option RawPayload → Result (List TrafficSelector)
unfolding decode_selectors
some_selectors none = fail no_selectors
some_selectors (some payload) = decode_selectors payload.body and_then λ found.
    reject (is_empty found) no_selectors and_then λ _. ok found

abbrev pub tsi_kind : ℕ
tsi_kind = 44

abbrev pub tsr_kind : ℕ
tsr_kind = 45

unfoldable pub selectors : List RawPayload → Result (List TrafficSelector × List TrafficSelector)
unfolding some_selectors find
selectors payloads = some_selectors (find payloads tsi_kind) and_then λ ours.
    some_selectors (find payloads tsr_kind) and_then λ theirs. ok (ours, theirs)
