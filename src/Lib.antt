-- ===== src/Lib.antt =====
-- openfortivpn-rs is a VPN client for FortiGate gateways. It has two protocols of its own: IPsec with
-- IKEv2 (crates/ikev2), and SSL VPN, which is PPP over TLS (crates/sslvpn). The rest of it drives
-- strongSwan (crates/charon, crates/vici), speaks HTTP (crates/https), reads certificates (crates/pki),
-- sets routes and name servers (crates/net), and is the command line (crates/cli).
--
-- What is modelled, and where:
--
--   Ike.Result     the results and errors of crates/ikev2/src/error.rs that the codec raises
--   Ike.Bytes      crates/ikev2/src/message/bytes.rs: `Reader` is a state-passing reader on the bytes
--                  that are left, `Parse`, and `Writer` appends to a list of bytes
--   Ike.Proposal   crates/ikev2/src/message/proposal.rs: the SA payload
--   Ike.Payload    crates/ikev2/src/message/payload.rs: the chain of payloads, and the codecs of
--                  identities, notifications, deletions, configuration, KE, AUTH and CERT
--   Ike.Selector   crates/ikev2/src/message/payload.rs: traffic selectors, with `networks`
--   Ike.Header     crates/ikev2/src/message/mod.rs: `Header` and `Exchange`
--   Ike.Packet     crates/ikev2/src/message/mod.rs: `Packet::parse`, and `Message` without encryption
--   Ike.Reassembler  crates/ikev2/src/message/mod.rs: `Reassembler`, with its map as a list in the
--                  order of the numbers
--   Ike.Replay     crates/ikev2/src/child.rs: `Replay`, with its u64 as the list of its 64 bits
--   Ike.Cipher     crates/ikev2/src/crypto/encr.rs: `Cipher`, and crates/ikev2/src/crypto/prf.rs:
--                  `Integrity`; the ciphers of other crates are the record `Primitives`, and what they
--                  document is `CipherLaws`
--   Ike.Esp        crates/ikev2/src/child.rs: `ChildSa`; a method that takes `&mut self` gives the SA
--                  after it and its result
--   Ike.Cipher.Sealing  what `ChildSa` and `Message::seal` do alike, over `Primitives`
--   Ike.Encrypted  crates/ikev2/src/message/mod.rs: `Packet::decrypt`, `Message::seal` and
--                  `Message::encode_encrypted`; `opened` of its Fragments is what
--                  crates/ikev2/src/session.rs does with a datagram before it adds a fragment
--   Ike.Eap        crates/ikev2/src/eap.rs: `Peer`; MD5 and crates/ikev2/src/crypto/mschapv2.rs are the
--                  record `Digests`
--   Ike.Choice     crates/ikev2/src/proposals.rs: `ike_proposals`, `esp_proposals`, `select_ike` and
--                  `select_esp`
--   Ike.KeySchedule  crates/ikev2/src/sa.rs, and `Prf::prf_plus` of crates/ikev2/src/crypto/prf.rs
--   Ike.Session    crates/ikev2/src/session.rs: opening and ordering of the gateway's requests, and the
--                  INFORMATIONAL exchange; its sockets are the list of what was sent
--   Ppp.Types      crates/sslvpn/src/ppp.rs: options, states, outcomes and actions
--   Ppp.Fsm        crates/sslvpn/src/ppp.rs: `Fsm<L>`, the option automaton over a `Layer`; a method
--                  that takes `&mut self` and a list of actions is a function from an automaton to a
--                  turn, the automaton after it with the actions and the outcome it gives
--   Ppp.Layers     crates/sslvpn/src/ppp.rs: the layers `Lcp` and `Ipcp`
--   Ppp.Link       crates/sslvpn/src/ppp.rs: `Ppp`, whose methods are functions from a link to a link
--                  and actions; `Event`, `step` and `run` are the calls that a tunnel makes on it
--
--   Text           `from_utf8` and `from_utf8_lossy` of the standard library, on text as its bytes
--   Vici.Message   crates/vici/src/message.rs: `Item` and `Section`, with the builders and lookups
--   Vici.Codec     crates/vici/src/message.rs: `Section::encode` and `Section::decode`; the stack of the
--                  decoder is its innermost section with the list of those around it
--   Vici.Packet    crates/vici/src/packet.rs: `Packet`
--   Vici.Client    crates/vici/src/client.rs: `Client`; the socket is the list of the reads to come, and
--                  the two loops that await an answer are one, `await_answer`
--
-- A byte is a natural number, and so are the integers of the source; where a value is cut to its
-- width the model writes the remainder, and a lemma that needs a value to be in range says so. An
-- `expect` or an index that would panic is the error `panicked` of `Ike.Result`, and in Ppp the action `panicked`.
-- Instants are numbers of nanoseconds, and random numbers are a function the caller hands over.
--
-- A loop that reads until nothing is left recurses on fuel, which is the number of bytes it starts
-- with, or one more where the loop looks once more before it ends; each turn takes a byte at least.
-- The loop of `networks` has one unit for each address of the range. The error `out_of_fuel` is of the
-- model alone.
--
-- The loop of `Prf::prf_plus` has 2 ^ 8 units, and its counter of a byte ends it before.
-- Chunks of a chain have the length of the chain as fuel, and so has the decoder of crates/vici for its
-- elements; the loops of its client have one unit more than the bytes that are to come.
--
-- Not modelled: sockets, TLS and HTTP, files, processes, and the tun device; the texts of log messages
-- and of errors; the ciphers, hashes and curves, which are code of other crates, and the digests of
-- crates/ikev2/src/crypto/mschapv2.rs; a future that is dropped half-way; in
-- crates/ikev2/src/session.rs our own requests, the handlers of CREATE_CHILD_SA, the packets of the
-- tunnel and a send that fails; crates/ikev2/src/setup.rs, rekey.rs, auth.rs and config.rs; crates/charon,
-- crates/net, crates/pki, crates/https and crates/cli.
mod Prelude
pub mod Text
pub mod Ike
pub mod Ppp
pub mod Vici
