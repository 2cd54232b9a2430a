-- ===== src/Ike/Session/Order.antt =====
-- The order in which `handle_packet` of crates/ikev2/src/session.rs lets the gateway's requests
-- through, its handlers included.
use openfortivpn_rs.Ike.Payload.{RawPayload}
use openfortivpn_rs.Ike.Session.Handlers.{
  invalid_syntax, behind_packet, handle_exchange, taken_ids, behind_handler,
}
use openfortivpn_rs.Ike.Header.{informational, create_child_sa, ike_auth, ike_sa_init, Exchange}
use openfortivpn_rs.Ike.Packet.{Packet}
use openfortivpn_rs.Ike.Session.Kept.{
  on_informational-Given, handle_packet-Steps, refuse-Given, Steps, Given, Follows, IsAt,
}
use openfortivpn_rs.Ike.Session.{Session, NextIke}
use openfortivpn_rs.Ike.Cipher.{Primitives}
use openfortivpn_rs.Ike.Session.Requests.{
  nothing, request_of, fatal, handle_packet, Taken, wrapping_next,
}
use openfortivpn_rs.Ike.Result.{Result, err, ok}
use openfortivpn_rs.Prelude.{
  length, inl, Bool, List, inr, some, ◌⊎◌, [], false, if_elim, true, ◌∷◌, Bytes, ◌≡◌, Option,
  is_some, subst, ℕ, none, false, true, some, none, inr, inl, ◌∷◌, [],
}

-- Numbers that count up from one, in 32 bits; if an IKE SA waits, they may once start over from 0.
abbrev pub AreCounted : ℕ → Bool → List ℕ → Type 0
AreCounted n waits [] = Unit
AreCounted n waits (id ∷ ids) =
    (id ≡ n) × (AreCounted (wrapping_next n) waits ids ⊎ ((waits ≡ true) × AreCounted 0 false ids))

-- What a handler gives, when there is one.
abbrev Handles : ℕ → Option NextIke → Option (Result Session) → Type 0
Handles n waiting none = Unit
Handles n waiting (some m) = Given (Follows n waiting) m

handle_exchange-Handles :
    (lib : Primitives) (exchange : Exchange) (randoms : ℕ → Bytes) (n : ℕ)
    (waiting : Option NextIke) (self : Session) (id : ℕ) (found : List RawPayload)
    → IsAt n waiting self
    → Handles n waiting (handle_exchange lib exchange randoms self id found)
handle_exchange-Handles lib ike_sa_init randoms n waiting self id found h =
    refuse-Given lib randoms n waiting self ike_sa_init id invalid_syntax h
handle_exchange-Handles lib ike_auth randoms n waiting self id found h =
    refuse-Given lib randoms n waiting self ike_auth id invalid_syntax h
handle_exchange-Handles lib create_child_sa randoms n waiting self id found h = tt
handle_exchange-Handles lib informational randoms n waiting self id found h =
    on_informational-Given lib randoms n waiting self id found h

abbrev Later : ℕ → Option NextIke → List ℕ → Type 0
Later n waiting ids =
    AreCounted n (is_some waiting) ids ⊎ ((is_some waiting ≡ true) × AreCounted 0 false ids)

-- The run behind a session that is at its number is counted.
abbrev Counts : (Session → List ℕ) → Type 0
Counts again =
    (after : Session) → AreCounted after.peer_message_id (is_some after.next_ike) (again after)

counted_at :
    (n : ℕ) (waiting : Option NextIke) (after : Session) (again : Session → List ℕ)
    → Counts again
    → IsAt n waiting after
    → AreCounted n (is_some waiting) (again after)
counted_at n waiting after again counts h =
    subst (λ w. AreCounted n (is_some w) (again after)) h.1
      (subst (λ k. AreCounted k (is_some after.next_ike) (again after)) h.0 (counts after))

continued_at :
    (n : ℕ) (waiting : Option NextIke) (after : Session) (again : Session → List ℕ)
    → Counts again
    → Follows n waiting after
    → Later n waiting (again after)
continued_at n waiting after again counts (inl h) = inl (counted_at n waiting after again counts h)
continued_at n waiting after again counts (inr h) =
    inr (h.0, counted_at 0 none after again counts h.1)

behind_handler-Later :
    (n : ℕ) (waiting : Option NextIke) (m : Option (Result Session)) (again : Session → List ℕ)
    → Counts again
    → Handles n waiting m
    → Later n waiting (behind_handler m again)
behind_handler-Later n waiting none again counts h = inl tt
behind_handler-Later n waiting (some (err why)) again counts h = inl tt
behind_handler-Later n waiting (some (ok after)) again counts h =
    if_elim {A = List ℕ} (Later n waiting) (is_some after.down) _ _ (λ _. inl tt)
      (λ _. continued_at n waiting after again counts h)

behind_packet-AreCounted :
    (lib : Primitives) (randoms : ℕ → Bytes) (n : ℕ) (waiting : Option NextIke)
    (outcome : Session × Taken) (again : Session → List ℕ)
    → Counts again
    → Steps n waiting outcome
    → AreCounted n (is_some waiting) (behind_packet lib randoms outcome again)
behind_packet-AreCounted lib randoms n waiting (after, nothing) again counts h =
    counted_at n waiting after again counts h
behind_packet-AreCounted lib randoms n waiting (after, fatal why) again counts h = tt
behind_packet-AreCounted lib randoms n waiting (after, request_of header found) again counts h = (
  h.0,
  behind_handler-Later (wrapping_next n) waiting _ again counts (
      handle_exchange-Handles lib header.exchange randoms (wrapping_next n) waiting after
        header.message_id found h.1),
)

-- Whatever packets come, and however often each comes again, the requests of the gateway that are let
-- through and handled, up to one of CREATE_CHILD_SA or the end of the session, have numbers that
-- count up one by one in 32 bits, from the number that was expected; only if a rekeyed IKE SA waits
-- to take over, they start over from 0 once.
pub taken_ids-AreCounted :
    (lib : Primitives) (randoms : ℕ → ℕ → Bytes) (packets : List Packet) (self : Session)
    → AreCounted self.peer_message_id (is_some self.next_ike) (taken_ids lib randoms self packets)
taken_ids-AreCounted lib randoms [] self = tt
taken_ids-AreCounted lib randoms (packet ∷ packets) self =
    behind_packet-AreCounted lib (randoms (length packets)) self.peer_message_id self.next_ike
      (handle_packet lib self packet) _ (taken_ids-AreCounted lib randoms packets)
      (handle_packet-Steps lib self packet)
