-- ===== src/Ppp/Types.antt =====
-- crates/sslvpn/src/ppp.rs: the constants, the actions, the options with their codec, and the
-- interface of a layer. The texts of `Down` are a `Reason`, one for each message of the source.
-- The time is a count of nanoseconds.
pub mod Codec
use openfortivpn_rs.Prelude.{
  ◌&&◌, false, true, ◌||◌, ◌++◌, drop, ◌-◌, ◌+◌, ltb, from_be32, from_be16, ◌^◌, ◌==◌, take, length,
  Bool, ◌∷◌, if◌then◌else◌, ◌*◌, suc, ℕ, zero, Option, none, some, List, [], Bytes,
}

abbrev pub protocol_ip : ℕ
protocol_ip = 0x0021

abbrev pub protocol_ipcp : ℕ
protocol_ipcp = 0x8021

abbrev pub protocol_lcp : ℕ
protocol_lcp = 0xc021

abbrev pub conf_req : ℕ
conf_req = 1

abbrev pub conf_ack : ℕ
conf_ack = 2

abbrev pub conf_nak : ℕ
conf_nak = 3

abbrev pub conf_rej : ℕ
conf_rej = 4

abbrev pub term_req : ℕ
term_req = 5

abbrev pub term_ack : ℕ
term_ack = 6

abbrev pub code_rej : ℕ
code_rej = 7

abbrev pub proto_rej : ℕ
proto_rej = 8

abbrev pub echo_req : ℕ
echo_req = 9

abbrev pub echo_reply : ℕ
echo_reply = 10

abbrev pub discard_req : ℕ
discard_req = 11

abbrev pub lcp_mru : ℕ
lcp_mru = 1

abbrev pub lcp_accm : ℕ
lcp_accm = 2

abbrev pub lcp_magic : ℕ
lcp_magic = 5

abbrev pub ipcp_address : ℕ
ipcp_address = 3

abbrev pub ipcp_dns1 : ℕ
ipcp_dns1 = 129

abbrev pub ipcp_dns2 : ℕ
ipcp_dns2 = 131

abbrev pub restart_timer : ℕ
restart_timer = 3 * 10 ^ 9

abbrev pub max_terminate : ℕ
max_terminate = 2

abbrev pub lcp_max_configure : ℕ
lcp_max_configure = 40

abbrev pub ipcp_max_configure : ℕ
ipcp_max_configure = 10

abbrev pub max_nak_loops : ℕ
max_nak_loops = 5

abbrev pub default_mru : ℕ
default_mru = 1500

abbrev pub last_essential_code : ℕ
last_essential_code = 7

-- 10.64.64.64
abbrev pub default_peer : ℕ
default_peer = 10 * 2 ^ 24 + 64 * 2 ^ 16 + 64 * 2 ^ 8 + 64

-- `Ipv4Addr::UNSPECIFIED`: an address is its 32 bits.
abbrev pub unspecified : ℕ
unspecified = 0

abbrev pub is_unspecified : ℕ → Bool
is_unspecified address = address == unspecified

pub data LayerName : Type 0 where
  lcp_layer ipcp_layer : LayerName

pub data Reason : Type 0 where
  no_terminate_ack no_answer terminated finished : LayerName → Reason
  unexpected_terminate_ack restarted keeps_refusing : LayerName → Reason
  rejected_code : LayerName → ℕ → Reason
  link_closed ipcp_rejected no_address : Reason

pub record Addresses : Type 0 where
  pub local : ℕ
  pub peer : ℕ
  pub dns : List ℕ
  pub mtu : ℕ

-- `panicked` is no action of the source: it marks an `expect` that failed.
pub data Action : Type 0 where
  send deliver : Bytes → Action
  up : Addresses → Action
  down : Reason → Action
  panicked : Action

-- A configuration option: type, then data.
pub record Opt : Type 0 where
  pub kind : ℕ
  pub value : Bytes

-- `Opt::u16`, `Opt::u32` and `Opt::address`
unfoldable pub opt_u16 : Bytes → Option ℕ
opt_u16 (a ∷ b ∷ []) = some (from_be16 a b)
opt_u16 _ = none

unfoldable pub opt_u32 : Bytes → Option ℕ
opt_u32 (a ∷ b ∷ c ∷ d ∷ []) = some (from_be32 a b c d)
opt_u32 _ = none

abbrev pub address : Opt → Option ℕ
address o = opt_u32 o.value

abbrev prepend : Opt → Option (List Opt) → Option (List Opt)
prepend o none = none
prepend o (some os) = some (o ∷ os)

-- `Opt::parse_all`: `while !data.is_empty()`; the fuel is the number of bytes. The early returns of
-- `None` are a missing length byte and a length out of range.
pub parse_loop : ℕ → Bytes → Option (List Opt)
parse_loop fuel [] = some []
parse_loop fuel (kind ∷ []) = none
parse_loop zero (kind ∷ len ∷ r) = none
parse_loop (suc fuel) (kind ∷ len ∷ r) =
    let rest =
      prepend (record { kind = kind; value = take (len - 2) r })
        (parse_loop fuel (drop (len - 2) r)) in
    if ltb len 2 || ltb (length r + 2) len then none else rest

unfoldable pub parse_all : Bytes → Option (List Opt)
unfolding parse_loop
parse_all bytes = parse_loop (length bytes) bytes

abbrev put_opt : Opt → Option Bytes → Option Bytes
put_opt o none = none
put_opt o (some rest) =
    if ltb (length o.value + 2) (2 ^ 8)
    then some (o.kind ∷ (length o.value + 2) ∷ (o.value ++ rest))
    else none

-- `Opt::encode_all`; `none` is its panic on an option that is too long.
unfoldable pub encode_all : List Opt → Option Bytes
encode_all [] = some []
encode_all (o ∷ os) = put_opt o (encode_all os)

pub data Verdict : Type 0 where
  ack : Verdict
  nak : Opt → Verdict
  rej : Verdict

-- The trait `Layer`. `review` is given the number that `rand::random` returns if it is called.
pub record Layer (L : Type 0) : Type 0 where
  pub protocol : ℕ
  pub name : LayerName
  pub max_configure : ℕ
  pub request : L → List Opt
  pub accept_nak : Opt → L → L
  pub accept_rej : Opt → L → L
  pub review : ℕ → L → Opt → Verdict
  pub peer_configured : List Opt → L → L
  pub peer_mru : L → ℕ

pub data State : Type 0 where
  initial req_sent ack_rcvd ack_sent opened closing closed : State

pub data Outcome : Type 0 where
  up : Outcome
  down : Reason → Outcome

equal_bytes : Bytes → Bytes → Bool
equal_bytes [] [] = true
equal_bytes (x ∷ xs) (y ∷ ys) = x == y && equal_bytes xs ys
equal_bytes _ _ = false

-- The derived `==` on options.
unfoldable pub equal_opts : List Opt → List Opt → Bool
unfolding equal_bytes
equal_opts [] [] = true
equal_opts (x ∷ xs) (y ∷ ys) = x.kind == y.kind && equal_bytes x.value y.value && equal_opts xs ys
equal_opts _ _ = false
