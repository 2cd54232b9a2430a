-- ===== src/Ppp/Link/Safety.antt =====
-- The events of the PPP link of ppp.rs, and its `expect`s.
use openfortivpn_rs.Ppp.Layers.{ipcp_impl, Lcp, Ipcp, lcp_impl}
use openfortivpn_rs.Ppp.Fsm.{reject_limit, next_id, new, close, is_opened, Fsm, timeout, Turn}
use openfortivpn_rs.Ppp.Types.{
  discard_req, protocol_ipcp, echo_reply, proto_rej, protocol_lcp, link_closed, protocol_ip,
  echo_req, closed, no_address, is_unspecified, Outcome, Reason, Action,
}
use openfortivpn_rs.Prelude.{
  take, ◌-◌, All, be32, IsByte, ◌||◌, [], All-take, from_be16, ◌==◌, ◌++◌, ◌&&◌, ltb, ◌∷◌,
  length-take, drop, Bool, length-drop, ◌∷◌, [], ◌+◌, none, ℕ, ◌<◌, arith, some, All-append, length,
  if_elim, IsBytes, ◌^◌, List, Bytes, Option, some, none,
}
use openfortivpn_rs.Ppp.Fsm.Safety.{
  IsSafe, AllSafe, IsSafeTurn, start-IsSafe, close-IsSafe, timeout-IsSafe, input-IsSafe,
  send_packet-IsSafe,
}
use openfortivpn_rs.Ppp.Layers.Laws.{lcp_laws, ipcp_laws}
use openfortivpn_rs.Ppp.Link.{
  ipcp_packet, expires, is_up, closes, lcp_packet, opens, Which, dispatch, reject_protocol, step,
  control, new_link, receives, input_link, lcp_outcome, ipcp_outcome, after, close_lcp,
  timeout_link, report_down, ipcp_turn, on_lcp, on_ipcp, close_link, lcp_input, lcp_turn, open_link,
  Ppp, Step, Event, run,
}

-- The MRUs that the link keeps of the peer are 16-bit numbers.
pub record FitsMrus (p : Ppp) : Type 0 where
  pub lcp_fits : p.lcp.layer.peer_mru < 2 ^ 16
  pub ipcp_fits : p.ipcp.layer.peer_mru < 2 ^ 16

abbrev pub IsSafeStep : Step → Type 0
IsSafeStep s = AllSafe s.1 × FitsMrus s.0

after-IsSafe :
    (actions : List Action) (s : Step)
    → AllSafe actions
    → IsSafeStep s
    → IsSafeStep (after actions s)
after-IsSafe actions s h k = (All-append IsSafe actions s.1 h k.0, k.1)

open_link-IsSafe : (p : Ppp) (now : ℕ) → FitsMrus p → IsSafeStep (open_link p now)
unfolding open_link
open_link-IsSafe p now h =
    let s = start-IsSafe lcp_impl lcp_laws p.lcp now h.lcp_fits in
    (s.0, record { lcp_fits = s.1; ipcp_fits = h.ipcp_fits })

report_down-IsSafe : (why : Reason) (p : Ppp) → FitsMrus p → IsSafeStep (report_down why p)
unfolding report_down
report_down-IsSafe why p h = ground arith

on_lcp-IsSafe : (o : Outcome) (p : Ppp) (now : ℕ) → FitsMrus p → IsSafeStep (on_lcp o p now)
unfolding on_lcp
on_lcp-IsSafe Outcome.up p now h =
    let told = record p.ipcp { layer = record p.ipcp.layer { peer_mru = p.lcp.layer.peer_mru } } in
    let s = start-IsSafe ipcp_impl ipcp_laws told now h.lcp_fits in
    (s.0, record { lcp_fits = h.lcp_fits; ipcp_fits = s.1 })
on_lcp-IsSafe (Outcome.down why) p now h = report_down-IsSafe why p h

close_lcp-IsSafe : (p : Ppp) (now : ℕ) → FitsMrus p → IsSafeStep (close_lcp p now)
close_lcp-IsSafe p now h =
    let s = close-IsSafe lcp_impl lcp_laws p.lcp now h.lcp_fits in
    (s.0, record { lcp_fits = s.1; ipcp_fits = h.ipcp_fits })

down_after_close-IsSafe :
    (why : Reason) (p : Ppp) (now : ℕ)
    → FitsMrus p
    → (let (p', actions) = close_lcp p now in IsSafeStep (after actions (report_down why p')))
down_after_close-IsSafe why p now h =
    let s = close_lcp-IsSafe p now h in
    after-IsSafe (close_lcp p now).1 _ s.0 (report_down-IsSafe why (close_lcp p now).0 s.1)

on_ipcp-IsSafe : (o : Outcome) (p : Ppp) (now : ℕ) → FitsMrus p → IsSafeStep (on_ipcp o p now)
unfolding on_ipcp
on_ipcp-IsSafe Outcome.up p now h =
    if_elim IsSafeStep (is_unspecified p.ipcp.layer.local) _ _
      (λ _.
        down_after_close-IsSafe no_address (record p { ipcp = record p.ipcp { state = closed } })
          now (record { lcp_fits = h.lcp_fits; ipcp_fits = h.ipcp_fits }))
      (λ _. ((tt, tt), h))
on_ipcp-IsSafe (Outcome.down why) p now h =
    if_elim IsSafeStep (is_opened p.lcp.state) _ _ (λ _. down_after_close-IsSafe why p now h)
      (λ _. report_down-IsSafe why p h)

lcp_turn-IsSafe :
    (t : Turn Lcp) (p : Ppp) (now : ℕ)
    → FitsMrus p
    → IsSafeTurn lcp_impl lcp_laws t
    → IsSafeStep (lcp_turn t p now)
unfolding lcp_turn
lcp_turn-IsSafe t p now h s =
    let p' = record p { lcp = t.fsm } in
    let h' : FitsMrus p' = record { lcp_fits = s.1; ipcp_fits = h.ipcp_fits } in
    after-IsSafe t.actions _ s.0 (go t.outcome p' h')
  where
    go : (o : Option Outcome) (q : Ppp) → FitsMrus q → IsSafeStep (lcp_outcome o q now)
    go none q k = (tt, k)
    go (some o) q k = on_lcp-IsSafe o q now k

ipcp_turn-IsSafe :
    (t : Turn Ipcp) (p : Ppp) (now : ℕ)
    → FitsMrus p
    → IsSafeTurn ipcp_impl ipcp_laws t
    → IsSafeStep (ipcp_turn t p now)
unfolding ipcp_turn
ipcp_turn-IsSafe t p now h s =
    let p' = record p { ipcp = t.fsm } in
    let h' : FitsMrus p' = record { lcp_fits = h.lcp_fits; ipcp_fits = s.1 } in
    after-IsSafe t.actions _ s.0 (go t.outcome p' h')
  where
    go : (o : Option Outcome) (q : Ppp) → FitsMrus q → IsSafeStep (ipcp_outcome o q now)
    go none q k = (tt, k)
    go (some o) q k = on_ipcp-IsSafe o q now k

close_link-IsSafe : (p : Ppp) (now : ℕ) → FitsMrus p → IsSafeStep (close_link p now)
unfolding close_link
close_link-IsSafe p now h =
    let (f, actions, waits) = close lcp_impl p.lcp now in
    let p' : Ppp = record p {
      ipcp = record p.ipcp { state = closed; timer = none };
      lcp = (close lcp_impl p.lcp now).0;
    } in
    let s = close-IsSafe lcp_impl lcp_laws p.lcp now h.lcp_fits in
    let h' : FitsMrus p' = record { lcp_fits = s.1; ipcp_fits = h.ipcp_fits } in
    if_elim IsSafeStep waits _ _ (λ _. (s.0, h'))
      (λ _. after-IsSafe actions _ s.0 (report_down-IsSafe link_closed p' h'))

timeout_link-IsSafe : (p : Ppp) (now : ℕ) → FitsMrus p → IsSafeStep (timeout_link p now)
unfolding timeout_link
timeout_link-IsSafe p now h =
    let s =
      lcp_turn-IsSafe (timeout lcp_impl p.lcp now) p now h
        (timeout-IsSafe lcp_impl lcp_laws p.lcp now h.lcp_fits) in
    let p' = (lcp_turn (timeout lcp_impl p.lcp now) p now).0 in
    after-IsSafe (lcp_turn (timeout lcp_impl p.lcp now) p now).1 _ s.0 (
      ipcp_turn-IsSafe (timeout ipcp_impl p'.ipcp now) p' now s.1
        (timeout-IsSafe ipcp_impl ipcp_laws p'.ipcp now s.1.ipcp_fits))

lcp_input-IsSafe :
    (rand : ℕ → ℕ) (f : Fsm Lcp) (code id : ℕ) (bytes : Bytes) (now : ℕ)
    → f.layer.peer_mru < 2 ^ 16
    → IsBytes bytes
    → length bytes + 4 < 2 ^ 16
    → IsSafeTurn lcp_impl lcp_laws (lcp_input rand f code id bytes now)
unfolding lcp_input
lcp_input-IsSafe rand f code id bytes now m b n =
    let echo : Bytes = be32 f.layer.magic ++ drop 4 bytes in
    if_elim P (code == echo_req) _ _
      (λ _. (
        if_elim AllSafe (is_opened f.state) _ _
            (λ _. (
              send_packet-IsSafe protocol_lcp echo_reply id echo
                  (omega (arith, length-drop 4 bytes)),
              tt,
            ))
            (λ _. tt),
        m,
      ))
      λ _.
        if_elim P (code == echo_reply || code == discard_req || code == 12 || code == 13) _ _
          (λ _. (tt, m))
          λ _.
            if_elim P (code == proto_rej) _ _ (λ _. (tt, m))
              (λ _. input-IsSafe lcp_impl lcp_laws rand f code id bytes now m b n)
  where
    P : Turn Lcp → Type 0
    P = IsSafeTurn lcp_impl lcp_laws

dispatch-IsSafe :
    (which : Which) (rand : ℕ → ℕ) (p : Ppp) (code id : ℕ) (bytes : Bytes) (now : ℕ)
    → FitsMrus p
    → IsBytes bytes
    → length bytes + 4 < 2 ^ 16
    → IsSafeStep (dispatch which rand p code id bytes now)
unfolding dispatch
dispatch-IsSafe lcp_packet rand p code id bytes now h b n =
    lcp_turn-IsSafe _ p now h (lcp_input-IsSafe rand p.lcp code id bytes now h.lcp_fits b n)
dispatch-IsSafe ipcp_packet rand p code id bytes now h b n =
    ipcp_turn-IsSafe _ p now h
      (input-IsSafe ipcp_impl ipcp_laws rand p.ipcp code id bytes now h.ipcp_fits b n)

control-IsSafe :
    (which : Which) (rand : ℕ → ℕ) (p : Ppp) (payload : Bytes) (now : ℕ)
    → FitsMrus p
    → IsBytes payload
    → IsSafeStep (control which rand p payload now)
unfolding control
control-IsSafe which rand p (code ∷ id ∷ x ∷ y ∷ rest) now h b =
    if_elim IsSafeStep (ltb (from_be16 x y) 4 || ltb (length rest + 4) (from_be16 x y)) _ _
      (λ _. (tt, h))
      (λ e.
        dispatch-IsSafe which rand p code id (take (from_be16 x y - 4) rest) now h
          (All-take IsByte (from_be16 x y - 4) rest b.1.1.1.1)
          (ground (arith, length-take (from_be16 x y - 4) rest)))
control-IsSafe which rand p _ now h b = (tt, h)

reject_protocol-IsSafe :
    (p : Ppp) (bytes : Bytes) → FitsMrus p → IsSafeStep (reject_protocol p bytes)
unfolding reject_protocol
reject_protocol-IsSafe p bytes h = (
  (
    send_packet-IsSafe protocol_lcp proto_rej (next_id p.lcp.id) _
        (omega (arith, length-take (reject_limit lcp_impl p.lcp) bytes, h.lcp_fits)),
    tt,
  ),
  record { lcp_fits = h.lcp_fits; ipcp_fits = h.ipcp_fits },
)

input_link-IsSafe :
    (rand : ℕ → ℕ) (p : Ppp) (bytes : Bytes) (now : ℕ)
    → FitsMrus p
    → IsBytes bytes
    → IsSafeStep (input_link rand p bytes now)
unfolding input_link
input_link-IsSafe rand p (x ∷ y ∷ payload) now h b =
    let protocol = from_be16 x y in
    if_elim IsSafeStep (protocol == protocol_ip && is_up p) _ _ (λ _. ((tt, tt), h))
      λ _.
        if_elim IsSafeStep (protocol == protocol_lcp) _ _
          (λ _. control-IsSafe lcp_packet rand p payload now h b.1.1)
          λ _.
            if_elim IsSafeStep (protocol == protocol_ipcp && is_opened p.lcp.state) _ _
              (λ _. control-IsSafe ipcp_packet rand p payload now h b.1.1)
              λ _.
                if_elim IsSafeStep (protocol == protocol_ip || protocol == protocol_ipcp) _ _
                  (λ _. (tt, h))
                  λ _.
                    if_elim IsSafeStep (is_opened p.lcp.state) _ _
                      (λ _. reject_protocol-IsSafe p (x ∷ y ∷ payload) h) (λ _. (tt, h))
input_link-IsSafe rand p _ now h b = (tt, h)

-- What the gateway sends is bytes.
abbrev pub IsEvent : Event → Type 0
IsEvent (receives rand bytes now) = IsBytes bytes
IsEvent _ = Unit

step-IsSafe : (e : Event) (p : Ppp) → IsEvent e → FitsMrus p → IsSafeStep (step e p)
unfolding step
step-IsSafe (opens now) p i h = open_link-IsSafe p now h
step-IsSafe (closes now) p i h = close_link-IsSafe p now h
step-IsSafe (expires now) p i h = timeout_link-IsSafe p now h
step-IsSafe (receives rand bytes now) p i h = input_link-IsSafe rand p bytes now h i

-- From a link whose MRUs fit, no sequence of openings, closings, timeouts and packets of any bytes
-- makes an `expect` fail: every option and packet built on the way fits its length field.
pub run-IsSafe : (es : List Event) (p : Ppp) → All IsEvent es → FitsMrus p → IsSafeStep (run es p)
unfolding run
run-IsSafe [] p i h = (tt, h)
run-IsSafe (e ∷ es) p i h =
    let s = step-IsSafe e p i.0 h in
    after-IsSafe (step e p).1 _ s.0 (run-IsSafe es (step e p).0 i.1 s.1)

pub new_link-FitsMrus :
    (mru : ℕ) (ask_dns : Bool) (magic : ℕ) → FitsMrus (new_link mru ask_dns magic)
unfolding new_link new
new_link-FitsMrus mru ask_dns magic = record { lcp_fits = omega arith; ipcp_fits = omega arith }
