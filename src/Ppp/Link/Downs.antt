-- ===== src/Ppp/Link/Downs.antt =====
-- The reports of Down by the PPP link of ppp.rs.
use openfortivpn_rs.Ppp.Layers.{Lcp, Ipcp, ipcp_impl, lcp_impl}
use openfortivpn_rs.Ppp.Fsm.{
  input, reject_limit, next_id, start, is_opened, Fsm, close, timeout, Turn,
}
use openfortivpn_rs.Ppp.Types.{
  proto_rej, discard_req, echo_reply, protocol_ipcp, link_closed, no_address, echo_req,
  protocol_lcp, panicked, is_unspecified, deliver, closed, send, down, Outcome, protocol_ip, Action,
}
use openfortivpn_rs.Prelude.{
  be32, drop, take, ◌∷◌, ◌||◌, Bytes, arith, ◌-◌, false, some, ◌++◌, ◌&&◌, length, if_elim,
  from_be16, ◌==◌, ◌+◌, ℕ, ◌≡◌, suc, Bool, true, [], refl, Option, none, List, ltb, false, true,
  some, none, refl, suc, ◌∷◌, [],
}
use openfortivpn_rs.Ppp.Fsm.Quiet.{
  AllSends, start-AllSends, close-AllSends, timeout-AllSends, input-AllSends, send_packet-IsSend,
}
use openfortivpn_rs.Ppp.Link.{
  reject_protocol, ipcp_packet, lcp_packet, lcp_packet, lcp_outcome, receives, ipcp_outcome,
  expires, dispatch, is_up, closes, Which, input_link, ipcp_turn, control, Reason, close_lcp, opens,
  lcp_input, lcp_turn, close_link, report_down, timeout_link, on_ipcp, on_lcp, open_link, Ppp, Step,
  Event, run, step, after,
}

-- The number of Down actions.
abbrev pub downs : List Action → ℕ
downs [] = 0
downs (down why ∷ actions) = suc (downs actions)
downs (_ ∷ actions) = downs actions

abbrev pub flag : Bool → ℕ
flag false = 0
flag true = 1

downs-append : (xs ys : List Action) → downs (xs ++ ys) ≡ downs xs + downs ys
downs-append [] ys = omega arith
downs-append (down why ∷ xs) ys = omega (arith, downs-append xs ys)
downs-append (send bytes ∷ xs) ys = downs-append xs ys
downs-append (deliver bytes ∷ xs) ys = downs-append xs ys
downs-append (Action.up a ∷ xs) ys = downs-append xs ys
downs-append (panicked ∷ xs) ys = downs-append xs ys

downs-sends : (xs : List Action) → AllSends xs → downs xs ≡ 0
downs-sends [] h = refl
downs-sends (send bytes ∷ xs) h = downs-sends xs h.1
downs-sends (panicked ∷ xs) h = downs-sends xs h.1
downs-sends (down why ∷ xs) h = absurd h.0
downs-sends (deliver bytes ∷ xs) h = absurd h.0
downs-sends (Action.up a ∷ xs) h = absurd h.0

-- The Downs of a step are what it adds to the flag.
abbrev pub Counts : Ppp → Step → Type 0
Counts p s = downs s.1 + flag p.is_down ≡ flag s.0.is_down

after-Counts :
    (p q : Ppp) (actions : List Action) (s : Step)
    → Counts p (q, actions)
    → Counts q s
    → Counts p (after actions s)
after-Counts p q actions s h k = omega (arith, downs-append actions s.1)

-- A step that only sends and leaves the flag.
quiet-Counts : (actions : List Action) (n : ℕ) → AllSends actions → downs actions + n ≡ n
quiet-Counts actions n h = omega (arith, downs-sends actions h)

report_down-Counts : (why : Reason) (p : Ppp) → Counts p (report_down why p)
unfolding report_down
report_down-Counts why p = ground arith

on_lcp-Counts : (o : Outcome) (p : Ppp) (now : ℕ) → Counts p (on_lcp o p now)
unfolding on_lcp
on_lcp-Counts Outcome.up p now =
    let told = record p.ipcp { layer = record p.ipcp.layer { peer_mru = p.lcp.layer.peer_mru } } in
    quiet-Counts (start ipcp_impl told now).1 (flag p.is_down) (start-AllSends ipcp_impl told now)
on_lcp-Counts (Outcome.down why) p now = report_down-Counts why p

close_lcp-Counts : (p : Ppp) (now : ℕ) → Counts p (close_lcp p now)
close_lcp-Counts p now =
    quiet-Counts (close lcp_impl p.lcp now).1 (flag p.is_down) (close-AllSends lcp_impl p.lcp now)

down_after_close-Counts :
    (why : Reason) (p : Ppp) (now : ℕ)
    → (let (p', actions) = close_lcp p now in Counts p (after actions (report_down why p')))
down_after_close-Counts why p now =
    let (q, actions) = close_lcp p now in
    after-Counts p q actions (report_down why q) (close_lcp-Counts p now) (report_down-Counts why q)

on_ipcp-Counts : (o : Outcome) (p : Ppp) (now : ℕ) → Counts p (on_ipcp o p now)
unfolding on_ipcp
on_ipcp-Counts Outcome.up p now =
    if_elim (Counts p) (is_unspecified p.ipcp.layer.local) _ _
      (λ _.
        down_after_close-Counts no_address (record p { ipcp = record p.ipcp { state = closed } })
          now)
      (λ _. omega arith)
on_ipcp-Counts (Outcome.down why) p now =
    if_elim (Counts p) (is_opened p.lcp.state) _ _ (λ _. down_after_close-Counts why p now)
      (λ _. report_down-Counts why p)

lcp_turn-Counts :
    (t : Turn Lcp) (p : Ppp) (now : ℕ) → AllSends t.actions → Counts p (lcp_turn t p now)
unfolding lcp_turn
lcp_turn-Counts t p now h =
    let q : Ppp = record p { lcp = t.fsm } in
    after-Counts p q t.actions (lcp_outcome t.outcome q now)
      (quiet-Counts t.actions (flag p.is_down) h) (go t.outcome q)
  where
    go : (o : Option Outcome) (q : Ppp) → Counts q (lcp_outcome o q now)
    go none q = omega arith
    go (some o) q = on_lcp-Counts o q now

ipcp_turn-Counts :
    (t : Turn Ipcp) (p : Ppp) (now : ℕ) → AllSends t.actions → Counts p (ipcp_turn t p now)
unfolding ipcp_turn
ipcp_turn-Counts t p now h =
    let q : Ppp = record p { ipcp = t.fsm } in
    after-Counts p q t.actions (ipcp_outcome t.outcome q now)
      (quiet-Counts t.actions (flag p.is_down) h) (go t.outcome q)
  where
    go : (o : Option Outcome) (q : Ppp) → Counts q (ipcp_outcome o q now)
    go none q = omega arith
    go (some o) q = on_ipcp-Counts o q now

open_link-Counts : (p : Ppp) (now : ℕ) → Counts p (open_link p now)
unfolding open_link
open_link-Counts p now =
    quiet-Counts (start lcp_impl p.lcp now).1 (flag p.is_down) (start-AllSends lcp_impl p.lcp now)

close_link-Counts : (p : Ppp) (now : ℕ) → Counts p (close_link p now)
unfolding close_link
close_link-Counts p now =
    let (f, actions, waits) = close lcp_impl p.lcp now in
    let q : Ppp = record p { ipcp = record p.ipcp { state = closed; timer = none }; lcp = f } in
    let quiet = quiet-Counts actions (flag p.is_down) (close-AllSends lcp_impl p.lcp now) in
    if_elim (Counts p) waits _ _ (λ _. quiet)
      (λ _.
        after-Counts p q actions (report_down link_closed q) quiet
          (report_down-Counts link_closed q))

timeout_link-Counts : (p : Ppp) (now : ℕ) → Counts p (timeout_link p now)
unfolding timeout_link
timeout_link-Counts p now =
    let (q, actions) = lcp_turn (timeout lcp_impl p.lcp now) p now in
    after-Counts p q actions (ipcp_turn (timeout ipcp_impl q.ipcp now) q now)
      (lcp_turn-Counts (timeout lcp_impl p.lcp now) p now (timeout-AllSends lcp_impl p.lcp now))
      (ipcp_turn-Counts (timeout ipcp_impl q.ipcp now) q now
        (timeout-AllSends ipcp_impl q.ipcp now))

pub lcp_input-AllSends :
    (rand : ℕ → ℕ) (f : Fsm Lcp) (code id : ℕ) (bytes : Bytes) (now : ℕ)
    → AllSends (lcp_input rand f code id bytes now).actions
unfolding lcp_input
lcp_input-AllSends rand f code id bytes now =
    if_elim P (code == echo_req) _ _
      (λ _.
        if_elim AllSends (is_opened f.state) _ _
          (λ _. (
            send_packet-IsSend protocol_lcp echo_reply id (be32 f.layer.magic ++ drop 4 bytes),
            tt,
          ))
          (λ _. tt))
      λ _.
        if_elim P (code == echo_reply || code == discard_req || code == 12 || code == 13) _ _
          (λ _. tt)
          λ _.
            if_elim P (code == proto_rej) _ _ (λ _. tt)
              (λ _. input-AllSends lcp_impl rand f code id bytes now)
  where
    P : Turn Lcp → Type 0
    P t = AllSends t.actions

control-Counts :
    (which : Which) (rand : ℕ → ℕ) (p : Ppp) (payload : Bytes) (now : ℕ)
    → Counts p (control which rand p payload now)
unfolding control
control-Counts which rand p (code ∷ id ∷ x ∷ y ∷ rest) now =
    if_elim (Counts p) (ltb (from_be16 x y) 4 || ltb (length rest + 4) (from_be16 x y)) _ _
      (λ _. omega arith) (λ _. go which (take (from_be16 x y - 4) rest))
  where
    go : (w : Which) (bytes : Bytes) → Counts p (dispatch w rand p code id bytes now)
    go lcp_packet bytes =
        lcp_turn-Counts (lcp_input rand p.lcp code id bytes now) p now
          (lcp_input-AllSends rand p.lcp code id bytes now)
    go ipcp_packet bytes =
        ipcp_turn-Counts (input ipcp_impl rand p.ipcp code id bytes now) p now
          (input-AllSends ipcp_impl rand p.ipcp code id bytes now)
control-Counts which rand p _ now = omega arith

input_link-Counts :
    (rand : ℕ → ℕ) (p : Ppp) (bytes : Bytes) (now : ℕ) → Counts p (input_link rand p bytes now)
unfolding input_link
input_link-Counts rand p (x ∷ y ∷ payload) now =
    let protocol = from_be16 x y in
    if_elim (Counts p) (protocol == protocol_ip && is_up p) _ _ (λ _. omega arith)
      λ _.
        if_elim (Counts p) (protocol == protocol_lcp) _ _
          (λ _. control-Counts lcp_packet rand p payload now)
          λ _.
            if_elim (Counts p) (protocol == protocol_ipcp && is_opened p.lcp.state) _ _
              (λ _. control-Counts ipcp_packet rand p payload now)
              λ _.
                if_elim (Counts p) (protocol == protocol_ip || protocol == protocol_ipcp) _ _
                  (λ _. omega arith)
                  λ _.
                    if_elim (Counts p) (is_opened p.lcp.state) _ _
                      (λ _. quiet-Counts (reject_protocol p (x ∷ y ∷ payload)).1 (flag p.is_down) (
                        unfold reject_protocol in
                        (
                          send_packet-IsSend protocol_lcp proto_rej (next_id p.lcp.id)
                              (take (reject_limit lcp_impl p.lcp) (x ∷ y ∷ payload)),
                          tt,
                        )))
                      (λ _. omega arith)
input_link-Counts rand p _ now = omega arith

step-Counts : (e : Event) (p : Ppp) → Counts p (step e p)
unfolding step
step-Counts (opens now) p = open_link-Counts p now
step-Counts (closes now) p = close_link-Counts p now
step-Counts (expires now) p = timeout_link-Counts p now
step-Counts (receives rand bytes now) p = input_link-Counts rand p bytes now

-- Over any sequence of events the link reports Down exactly as often as it sets its flag: once at
-- most, and never again after it did.
pub run-Counts : (es : List Event) (p : Ppp) → Counts p (run es p)
unfolding run
run-Counts [] p = omega arith
run-Counts (e ∷ es) p =
    let (q, actions) = step e p in
    after-Counts p q actions (run es q) (step-Counts e p) (run-Counts es q)
