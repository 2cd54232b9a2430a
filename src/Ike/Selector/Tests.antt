-- ===== src/Ike/Selector/Tests.antt =====
-- Traffic selectors at the addresses of the test of message/payload.rs.
use openfortivpn_rs.Ike.Result.{ok}
use openfortivpn_rs.Prelude.{
  [], ℕ, ◌≤◌, arith, List, true, refl, Bytes, ◌≡◌, ◌↔◌, ◌∷◌, true, refl, ◌∷◌, [],
}
use openfortivpn_rs.Ike.Selector.{
  block_prefix, blocks_loop, host_bits, TrafficSelector, any, network, covers, networks,
  encode_selectors, decode_selectors,
}
use openfortivpn_rs.Ike.Selector.Networks.{Tiles, InSome, networks-Tiles, networks-InSome}
use openfortivpn_rs.Ike.Selector.Covers.{Matches, covers_iff}
use openfortivpn_rs.Ike.Selector.RoundTrip.{decode_selectors-encode_selectors}

-- 10.0.0.1 to 10.0.0.6.
abbrev six_hosts : TrafficSelector
six_hosts = record {
  protocol = 0;
  start_port = 0;
  end_port = 65535;
  start = 0x0a000001;
  end = 0x0a000006;
}

networks-six_hosts :
    networks six_hosts
    ≡ ok ((0x0a000001, 32) ∷ (0x0a000002, 31) ∷ (0x0a000004, 31) ∷ (0x0a000006, 32) ∷ [])
unfolding networks blocks_loop block_prefix
networks-six_hosts = refl

networks-any : networks any ≡ ok ((0, 0) ∷ [])
unfolding networks blocks_loop block_prefix
networks-any = refl

-- 10.1.2.3/24
network_24 : network 0x0a010203 24 ≡ record any { start = 0x0a010200; end = 0x0a0102ff }
unfolding network host_bits
network_24 = refl

networks-Tiles_example :
    (blocks : List (ℕ × ℕ)) × (networks six_hosts ≡ ok blocks) × Tiles 0x0a000001 blocks 0x0a000006
networks-Tiles_example = networks-Tiles six_hosts (omega arith) (omega arith)

networks-InSome_example :
    (blocks : List (ℕ × ℕ)) × (networks six_hosts ≡ ok blocks)
    × ((address : ℕ) → InSome blocks address ↔ ((0x0a000001 ≤ address) × (address ≤ 0x0a000006)))
networks-InSome_example = networks-InSome six_hosts (omega arith) (omega arith)

covers_iff_example : (covers any six_hosts ≡ true) ↔ (
    (protocol port address : ℕ)
    → Matches six_hosts protocol port address
    → Matches any protocol port address)
covers_iff_example = covers_iff any six_hosts (omega arith) (omega arith)

decode_selectors-encode_selectors_example :
    (bytes : Bytes) × (encode_selectors (six_hosts ∷ []) ≡ ok bytes)
    × (decode_selectors bytes ≡ ok (six_hosts ∷ []))
decode_selectors-encode_selectors_example =
    decode_selectors-encode_selectors (six_hosts ∷ [])
      (
        record {
          start_port_fits = omega arith;
          end_port_fits = omega arith;
          start_fits = omega arith;
          end_fits = omega arith;
        },
        tt,
      )
      (omega arith)
