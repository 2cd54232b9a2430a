-- ===== src/Ike/Selector/Covers.antt =====
-- The test `TrafficSelector::covers` of message/payload.rs.
use openfortivpn_rs.Prelude.{if◌then◌else◌, ◌+◌, ◌==◌, ◌⊎◌, ℕ, true, ◌≤◌, ◌≡◌, arith, ◌↔◌, true}
use openfortivpn_rs.Ike.Selector.{TrafficSelector, covers}

-- The traffic a selector stands for: protocol 0 is any protocol.
pub record Matches (s : TrafficSelector) (protocol port address : ℕ) : Type 0 where
  pub protocol_agrees : (s.protocol ≡ 0) ⊎ (s.protocol ≡ protocol)
  pub port_above : s.start_port ≤ port
  pub port_below : port ≤ s.end_port
  pub address_above : s.start ≤ address
  pub address_below : address ≤ s.end

-- A selector covers another, one with a range of ports and of addresses that is not empty, exactly
-- if every protocol, port and address that the other one matches is matched by it.
pub covers_iff :
    (self other : TrafficSelector)
    → other.start_port ≤ other.end_port
    → other.start ≤ other.end
    → (covers self other ≡ true) ↔ (
        (protocol port address : ℕ)
        → Matches other protocol port address
        → Matches self protocol port address)
unfolding covers
covers_iff self other ports addresses = (
  λ c protocol port address m.
      ground
        (arith, m.protocol_agrees, m.port_above, m.port_below, m.address_above, m.address_below),
  λ inside.
      let p = if other.protocol == 0 then self.protocol + 1 else other.protocol in
      let low = inside p other.start_port other.start (ground arith) in
      let high = inside p other.end_port other.end (ground arith) in ground arith,
)
