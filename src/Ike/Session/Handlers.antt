-- ===== src/Ike/Session/Handlers.antt =====
-- crates/ikev2/src/session.rs: the match of `handle_packet` on the exchange of a request that was let
-- through, and the packets that come one after the other.
use openfortivpn_rs.Ike.Session.Informational.{refuse, on_informational}
use openfortivpn_rs.Ike.Payload.{RawPayload}
use openfortivpn_rs.Ike.Session.Requests.{nothing, request_of, handle_packet, fatal, Taken}
use openfortivpn_rs.Ike.Packet.{Packet}
use openfortivpn_rs.Ike.Session.{Session}
use openfortivpn_rs.Ike.Header.{create_child_sa, informational, Exchange}
use openfortivpn_rs.Ike.Cipher.{Primitives}
use openfortivpn_rs.Ike.Result.{Result, err, ok}
use openfortivpn_rs.Prelude.{
  length, if◌then◌else◌, ◌∷◌, Option, [], ℕ, none, Bytes, List, some, is_some, some, none, ◌∷◌, [],
}

-- `notify::INVALID_SYNTAX`
abbrev pub invalid_syntax : ℕ
invalid_syntax = 7

-- The session goes on unless a handler failed or set `down`.
abbrev pub behind_handler : Option (Result Session) → (Session → List ℕ) → List ℕ
behind_handler none again = []
behind_handler (some (err why)) again = []
behind_handler (some (ok after)) again = if is_some after.down then [] else again after

module _ (lib : Primitives) where
  -- The handler of an exchange; that of CREATE_CHILD_SA is left out.
  abbrev pub handle_exchange :
      Exchange → (ℕ → Bytes) → Session → ℕ → List RawPayload → Option (Result Session)
  handle_exchange informational randoms self id found =
      some (on_informational lib randoms self id found)
  handle_exchange create_child_sa randoms self id found = none
  handle_exchange other randoms self id found =
      some (refuse lib randoms self other id invalid_syntax)

  abbrev pub behind_packet : (ℕ → Bytes) → Session × Taken → (Session → List ℕ) → List ℕ
  behind_packet randoms (after, nothing) again = again after
  behind_packet randoms (after, fatal why) again = []
  behind_packet randoms (after, request_of header found) again =
      header.message_id
      ∷ behind_handler (handle_exchange header.exchange randoms after header.message_id found) again

  -- The numbers of the requests that are let through, and handled, of all that come: until the
  -- session ends or a CREATE_CHILD_SA request is let through. `randoms` gives the IVs of each answer.
  abbrev pub taken_ids : (ℕ → ℕ → Bytes) → Session → List Packet → List ℕ
  taken_ids randoms self [] = []
  taken_ids randoms self (packet ∷ packets) =
      behind_packet (randoms (length packets)) (handle_packet lib self packet)
        (λ after. taken_ids randoms after packets)
