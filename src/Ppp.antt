-- ===== src/Ppp.antt =====
-- The PPP link of the SSL VPN (crates/sslvpn/src/ppp.rs): LCP, IPCP and the packets between the
-- gateway and the TUN device, as a state machine that does no input or output.
pub mod Types
pub mod Fsm
pub mod Layers
pub mod Link
mod Tests
