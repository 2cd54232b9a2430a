-- ===== src/Ppp/Link.antt =====
-- crates/sslvpn/src/ppp.rs, `Ppp`: LCP, then IPCP, then IP. A method returns the link with the
-- actions that it pushed. `new` is given the magic number that `rand::random` returns.
pub mod Safety
pub mod Downs
pub mod Traffic
use openfortivpn_rs.Prelude.{
  ◌-◌, drop, ◌+◌, take, be32, length, ◌&&◌, ◌||◌, ltb, ◌==◌, from_be16, ◌++◌, be16, min,
  if◌then◌else◌, List, Bool, ℕ, Option, Bytes, false, true, some, none, ◌∷◌, [],
}
use openfortivpn_rs.Ppp.Types.{
  ipcp_rejected, protocol_ipcp, discard_req, echo_reply, proto_rej, deliver, echo_req, unspecified,
  protocol_lcp, no_address, is_unspecified, default_mru, default_peer, link_closed, protocol_ip,
  closed, Addresses, Outcome, Reason, Action, down,
}
use openfortivpn_rs.Ppp.Fsm.{
  new, reject_limit, send_packet, timeout, close, start, input, turn, next_id, is_opened, Turn, Fsm,
}
use openfortivpn_rs.Ppp.Layers.{is_number, or_else, Lcp, Ipcp, lcp_impl, ipcp_impl}

pub record Ppp : Type 0 where
  pub lcp : Fsm Lcp
  pub ipcp : Fsm Ipcp
  -- a Down was already reported
  pub is_down : Bool

abbrev pub Step : Type 0
Step = Ppp × List Action

unfoldable pub new_link : ℕ → Bool → ℕ → Ppp
unfolding new
new_link mru ask_dns magic = record {
  lcp = new lcp_impl (record {
    mru = mru;
    magic = magic;
    ask_mru = true;
    ask_magic = true;
    peer_mru = default_mru;
  });
  ipcp = new ipcp_impl (record {
    local = unspecified;
    peer = none;
    dns1 = none;
    dns2 = none;
    ask_address = true;
    ask_dns1 = ask_dns;
    ask_dns2 = ask_dns;
    peer_mru = default_mru;
  });
  is_down = false;
}

abbrev pub is_up : Ppp → Bool
is_up p = is_opened p.ipcp.state

unfoldable pub open_link : Ppp → ℕ → Step
open_link p now = let (f, actions) = start lcp_impl p.lcp now in (record p { lcp = f }, actions)

unfoldable pub report_down : Reason → Ppp → Step
report_down reason p =
    if p.is_down then (p, []) else (record p { is_down = true }, down reason ∷ [])

-- Actions pushed before those of a later call.
abbrev pub after : List Action → Step → Step
after actions (p, more) = (p, actions ++ more)

-- `Ppp::close`
unfoldable pub close_link : Ppp → ℕ → Step
unfolding report_down
close_link p now =
    let p' = record p { ipcp = record p.ipcp { state = closed; timer = none } } in
    let (f, actions, waits) = close lcp_impl p.lcp now in
    if waits
    then (record p' { lcp = f }, actions)
    else after actions (report_down link_closed (record p' { lcp = f }))

-- `Ppp::next_timeout`: the earlier of the two deadlines.
unfoldable pub earlier : Option ℕ → Option ℕ → Option ℕ
earlier (some a) (some b) = some (min a b)
earlier (some a) none = some a
earlier none b = b

unfoldable pub next_timeout : Ppp → Option ℕ
unfolding earlier
next_timeout p = earlier p.lcp.timer p.ipcp.timer

unfoldable pub on_lcp : Outcome → Ppp → ℕ → Step
unfolding report_down
on_lcp Outcome.up p now =
    let told = record p.ipcp { layer = record p.ipcp.layer { peer_mru = p.lcp.layer.peer_mru } } in
    let (f, actions) = start ipcp_impl told now in (record p { ipcp = f }, actions)
on_lcp (Outcome.down reason) p now = report_down reason p

-- `self.lcp.close(now, actions)`, its result dropped
abbrev close_lcp : Ppp → ℕ → Step
close_lcp p now =
    let (f, actions, waits) = close lcp_impl p.lcp now in (record p { lcp = f }, actions)

-- `.flatten()` and the filter on nameservers
abbrev pub server : Option ℕ → List ℕ
server none = []
server (some addr) = if is_unspecified addr then [] else addr ∷ []

abbrev pub addresses_of : Ipcp → Lcp → Addresses
addresses_of i l = record {
  local = i.local;
  peer = or_else i.peer default_peer;
  dns = server i.dns1 ++ server i.dns2;
  mtu = min l.peer_mru l.mru;
}

unfoldable pub on_ipcp : Outcome → Ppp → ℕ → Step
unfolding report_down
on_ipcp Outcome.up p now =
    if is_unspecified p.ipcp.layer.local
    then (let (p', actions) =
          close_lcp (record p { ipcp = record p.ipcp { state = closed } }) now in
        after actions (report_down no_address p'))
    else (p, Action.up (addresses_of p.ipcp.layer p.lcp.layer) ∷ [])
on_ipcp (Outcome.down reason) p now =
    if is_opened p.lcp.state
    then (let (p', actions) = close_lcp p now in after actions (report_down reason p'))
    else report_down reason p

-- What a turn of LCP or of IPCP means for the link.
lcp_outcome : Option Outcome → Ppp → ℕ → Step
lcp_outcome none p now = (p, [])
lcp_outcome (some o) p now = on_lcp o p now

ipcp_outcome : Option Outcome → Ppp → ℕ → Step
ipcp_outcome none p now = (p, [])
ipcp_outcome (some o) p now = on_ipcp o p now

unfoldable pub lcp_turn : Turn Lcp → Ppp → ℕ → Step
unfolding lcp_outcome
lcp_turn t p now = after t.actions (lcp_outcome t.outcome (record p { lcp = t.fsm }) now)

unfoldable pub ipcp_turn : Turn Ipcp → Ppp → ℕ → Step
unfolding ipcp_outcome
ipcp_turn t p now = after t.actions (ipcp_outcome t.outcome (record p { ipcp = t.fsm }) now)

-- `Ppp::timeout`
unfoldable pub timeout_link : Ppp → ℕ → Step
timeout_link p now =
    let (p', actions) = lcp_turn (timeout lcp_impl p.lcp now) p now in
    after actions (ipcp_turn (timeout ipcp_impl p'.ipcp now) p' now)

unfoldable pub encode_ip : Bytes → Bytes
encode_ip packet_ = be16 protocol_ip ++ packet_

echo_reply_to : Fsm Lcp → ℕ → Bytes → Turn Lcp
echo_reply_to f id bytes =
    turn lcp_impl f
      (if is_opened f.state
        then send_packet protocol_lcp echo_reply id (be32 f.layer.magic ++ drop 4 bytes) ∷ []
        else [])
      none

-- The protocol that a Protocol-Reject names.
abbrev rejected_protocol : Bytes → Option ℕ
rejected_protocol (a ∷ b ∷ r) = some (from_be16 a b)
rejected_protocol _ = none

-- `Ppp::lcp_input`: LCP has a few more codes than the automaton.
unfoldable pub lcp_input : (ℕ → ℕ) → Fsm Lcp → ℕ → ℕ → Bytes → ℕ → Turn Lcp
unfolding echo_reply_to
lcp_input rand f code id bytes now =
    if code == echo_req
    then echo_reply_to f id bytes
    else if code == echo_reply || code == discard_req || code == 12 || code == 13
    then turn lcp_impl f [] none
    else if code == proto_rej
    then turn lcp_impl f [] (
        if is_number (rejected_protocol bytes) protocol_ipcp
        then some (Outcome.down ipcp_rejected)
        else none)
    else input lcp_impl rand f code id bytes now

pub data Which : Type 0 where
  lcp_packet ipcp_packet : Which

dispatch : Which → (ℕ → ℕ) → Ppp → ℕ → ℕ → Bytes → ℕ → Step
dispatch lcp_packet rand p code id bytes now =
    lcp_turn (lcp_input rand p.lcp code id bytes now) p now
dispatch ipcp_packet rand p code id bytes now =
    ipcp_turn (input ipcp_impl rand p.ipcp code id bytes now) p now

-- `Ppp::control`: a header of four bytes, and a length that the payload holds.
unfoldable pub control : Which → (ℕ → ℕ) → Ppp → Bytes → ℕ → Step
unfolding dispatch
control which rand p (code ∷ id ∷ a ∷ b ∷ rest) now =
    let len = from_be16 a b in
    if ltb len 4 || ltb (length rest + 4) len
    then (p, [])
    else dispatch which rand p code id (take (len - 4) rest) now
control which rand p _ now = (p, [])

reject_protocol : Ppp → Bytes → Step
reject_protocol p packet_ =
    let f = record p.lcp { id = next_id p.lcp.id } in
    (
      record p { lcp = f },
      send_packet protocol_lcp proto_rej f.id (take (reject_limit lcp_impl f) packet_) ∷ [],
    )

-- `Ppp::input`
unfoldable pub input_link : (ℕ → ℕ) → Ppp → Bytes → ℕ → Step
unfolding control reject_protocol
input_link rand p (a ∷ b ∷ payload) now =
    let protocol = from_be16 a b in
    if protocol == protocol_ip && is_up p
    then (p, deliver payload ∷ [])
    else if protocol == protocol_lcp
    then control lcp_packet rand p payload now
    else if protocol == protocol_ipcp && is_opened p.lcp.state
    then control ipcp_packet rand p payload now
    else if protocol == protocol_ip || protocol == protocol_ipcp
    then (p, [])
    else if is_opened p.lcp.state
    then reject_protocol p (a ∷ b ∷ payload)
    else (p, [])
input_link rand p _ now = (p, [])

-- What the tunnel asks of the link, in any order.
pub data Event : Type 0 where
  opens closes expires : ℕ → Event
  receives : (ℕ → ℕ) → Bytes → ℕ → Event

unfoldable pub step : Event → Ppp → Step
step (opens now) p = open_link p now
step (closes now) p = close_link p now
step (expires now) p = timeout_link p now
step (receives rand packet_ now) p = input_link rand p packet_ now

-- A sequence of events, with all the actions in order.
unfoldable pub run : List Event → Ppp → Step
unfolding step
run [] p = (p, [])
run (e ∷ es) p = let (p', actions) = step e p in after actions (run es p')
