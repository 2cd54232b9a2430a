-- ===== src/Ppp/Layers.antt =====
-- crates/sslvpn/src/ppp.rs: the two layers, LCP with its MRU and magic number, and IPCP with the
-- addresses. `to_be_bytes` and `octets` are the big-endian bytes of a number.
pub mod Laws
use openfortivpn_rs.Prelude.{
  is_some, ◌||◌, ◌++◌, ◌&&◌, be32, be16, ◌==◌, not, Bytes, leb, Option, List, if◌then◌else◌, ℕ,
  Bool, false, true, some, none, ◌∷◌, [],
}
use openfortivpn_rs.Ppp.Types.{
  unspecified, lcp_accm, ipcp_dns2, opt_u32, default_mru, ipcp_max_configure, lcp_magic,
  lcp_max_configure, ipcp_dns1, opt_u16, lcp_mru, ipcp_address, ipcp_layer, is_unspecified, Verdict,
  lcp_layer, protocol_lcp, protocol_ipcp, address, Opt, Layer, ack, nak, rej,
}

pub record Lcp : Type 0 where
  pub mru : ℕ
  pub magic : ℕ
  pub ask_mru : Bool
  pub ask_magic : Bool
  pub peer_mru : ℕ

abbrev pub opt : ℕ → Bytes → Opt
opt kind value = record { kind = kind; value = value }

abbrev pub when : Bool → List Opt → List Opt
when true options = options
when false options = []

unfoldable pub lcp_request : Lcp → List Opt
lcp_request l =
    when l.ask_mru (opt lcp_mru (be16 l.mru) ∷ [])
    ++ when l.ask_magic (opt lcp_magic (be32 l.magic) ∷ [])

take_mru : Option ℕ → Lcp → Lcp
take_mru none l = l
take_mru (some mru) l = if leb mru default_mru then record l { mru = mru } else l

take_magic : Option ℕ → Lcp → Lcp
take_magic none l = l
take_magic (some magic) l = record l { magic = magic }

-- An MRU option has two bytes and a magic number four, so at most one arm fits.
unfoldable pub lcp_accept_nak : Opt → Lcp → Lcp
unfolding take_mru take_magic
lcp_accept_nak o l =
    if o.kind == lcp_mru
    then take_mru (opt_u16 o.value) l
    else if o.kind == lcp_magic
    then take_magic (opt_u32 o.value) l
    else l

unfoldable pub lcp_accept_rej : Opt → Lcp → Lcp
lcp_accept_rej o l =
    if o.kind == lcp_mru
    then record l { ask_mru = false }
    else if o.kind == lcp_magic
    then record l { ask_magic = false }
    else l

abbrev pub is_number : Option ℕ → ℕ → Bool
is_number none n = false
is_number (some m) n = m == n

-- `rand` is what `rand::random` gives where the peer's magic number is ours.
unfoldable pub lcp_review : ℕ → Lcp → Opt → Verdict
lcp_review rand l o =
    if o.kind == lcp_mru && is_some (opt_u16 o.value)
    then ack
    else if o.kind == lcp_magic && is_number (opt_u32 o.value) l.magic
    then nak (opt lcp_magic (be32 rand))
    else if (o.kind == lcp_accm || o.kind == lcp_magic) && is_some (opt_u32 o.value)
    then ack
    else rej

-- `options.iter().find(|option| option.kind == kind)`
unfoldable pub find_kind : ℕ → List Opt → Option Opt
find_kind kind [] = none
find_kind kind (o ∷ os) = if o.kind == kind then some o else find_kind kind os

abbrev pub or_else : Option ℕ → ℕ → ℕ
or_else none d = d
or_else (some n) d = n

abbrev pub option_and_then {ℓ} : {A : Type ℓ} → Option A → (A → Option ℕ) → Option ℕ
option_and_then none f = none
option_and_then (some a) f = f a

unfoldable pub lcp_peer_configured : List Opt → Lcp → Lcp
lcp_peer_configured options l = record l {
  peer_mru =
      or_else (option_and_then (find_kind lcp_mru options) (λ o. opt_u16 o.value)) default_mru;
}

abbrev pub lcp_impl : Layer Lcp
lcp_impl = record {
  protocol = protocol_lcp;
  name = lcp_layer;
  max_configure = lcp_max_configure;
  request = lcp_request;
  accept_nak = lcp_accept_nak;
  accept_rej = lcp_accept_rej;
  review = lcp_review;
  peer_configured = lcp_peer_configured;
  peer_mru = λ l. l.peer_mru;
}

-- `dns` and `ask_dns` are arrays of two, here with a field for each index.
pub record Ipcp : Type 0 where
  pub local : ℕ
  pub peer : Option ℕ
  pub dns1 : Option ℕ
  pub dns2 : Option ℕ
  pub ask_address : Bool
  pub ask_dns1 : Bool
  pub ask_dns2 : Bool
  pub peer_mru : ℕ

unfoldable pub ipcp_request : Ipcp → List Opt
ipcp_request l =
    when l.ask_address (opt ipcp_address (be32 l.local) ∷ [])
    ++ (when l.ask_dns1 (opt ipcp_dns1 (be32 (or_else l.dns1 unspecified)) ∷ [])
        ++ when l.ask_dns2 (opt ipcp_dns2 (be32 (or_else l.dns2 unspecified)) ∷ []))

-- A nak that carries an address, which is not the unspecified one.
suggest : ℕ → ℕ → Ipcp → Ipcp
suggest kind addr l =
    if kind == ipcp_address
    then record l { local = addr }
    else if kind == ipcp_dns1
    then record l { dns1 = some addr }
    else if kind == ipcp_dns2
    then record l { dns2 = some addr }
    else l

suggested : Option ℕ → ℕ → Ipcp → Ipcp
suggested none kind l = l
suggested (some addr) kind l = if is_unspecified addr then l else suggest kind addr l

unfoldable pub ipcp_accept_nak : Opt → Ipcp → Ipcp
unfolding suggested suggest
ipcp_accept_nak o l = suggested (address o) o.kind l

unfoldable pub ipcp_accept_rej : Opt → Ipcp → Ipcp
ipcp_accept_rej o l =
    if o.kind == ipcp_address
    then record l { ask_address = false }
    else if o.kind == ipcp_dns1
    then record l { ask_dns1 = false }
    else if o.kind == ipcp_dns2
    then record l { ask_dns2 = false }
    else l

abbrev is_specified : Option ℕ → Bool
is_specified none = false
is_specified (some addr) = not (is_unspecified addr)

unfoldable pub ipcp_review : ℕ → Ipcp → Opt → Verdict
ipcp_review rand l o = if o.kind == ipcp_address && is_specified (address o) then ack else rej

unfoldable pub ipcp_peer_configured : List Opt → Ipcp → Ipcp
ipcp_peer_configured options l = record l {
  peer = option_and_then (find_kind ipcp_address options) (λ o. address o);
}

abbrev pub ipcp_impl : Layer Ipcp
ipcp_impl = record {
  protocol = protocol_ipcp;
  name = ipcp_layer;
  max_configure = ipcp_max_configure;
  request = ipcp_request;
  accept_nak = ipcp_accept_nak;
  accept_rej = ipcp_accept_rej;
  review = ipcp_review;
  peer_configured = ipcp_peer_configured;
  peer_mru = λ l. l.peer_mru;
}
