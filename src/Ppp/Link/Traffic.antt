-- ===== src/Ppp/Link/Traffic.antt =====
-- IP packets through the PPP link of ppp.rs.
use openfortivpn_rs.Ppp.Layers.{ipcp_impl, Ipcp, lcp_impl, Lcp}
use openfortivpn_rs.Ppp.Fsm.{reject_limit, next_id, is_opened, input, start, Turn}
use openfortivpn_rs.Ppp.Types.{
  proto_rej, protocol_lcp, closed, no_address, panicked, down, is_unspecified, deliver, protocol_ip,
  send, Outcome, Reason, Action,
}
use openfortivpn_rs.Prelude.{
  take, if◌then◌else◌, ◌≡◌, List, none, if_elim, ℕ, from_be16, ◌∷◌, ◌==◌, ltb, ◌||◌, ◌-◌, ◌+◌,
  arith, All, some, All-append, Option, true, refl, length, [], Bytes, true, some, none, refl, ◌∷◌,
  [],
}
use openfortivpn_rs.Ppp.Fsm.Quiet.{
  AllSends, start-AllSends, close-AllSends, input-AllSends, send_packet-IsSend,
}
use openfortivpn_rs.Ppp.Link.Downs.{lcp_input-AllSends}
use openfortivpn_rs.Ppp.Link.{
  reject_protocol, ipcp_packet, lcp_packet, lcp_packet, lcp_input, lcp_outcome, ipcp_outcome,
  dispatch, close_lcp, Which, report_down, on_ipcp, control, is_up, ipcp_turn, on_lcp, lcp_turn,
  Ppp, Step, after, input_link, encode_ip,
}

-- The IP packets that a list of actions hands to the TUN device.
abbrev pub delivered : List Action → List Bytes
delivered [] = []
delivered (deliver packet_ ∷ actions) = packet_ ∷ delivered actions
delivered (_ ∷ actions) = delivered actions

abbrev IsControl : Action → Type 0
IsControl (deliver packet_) = ⊥
IsControl _ = Unit

delivered-control : (xs : List Action) → All IsControl xs → delivered xs ≡ []
delivered-control [] h = refl
delivered-control (send bytes ∷ xs) h = delivered-control xs h.1
delivered-control (panicked ∷ xs) h = delivered-control xs h.1
delivered-control (down why ∷ xs) h = delivered-control xs h.1
delivered-control (Action.up a ∷ xs) h = delivered-control xs h.1
delivered-control (deliver bytes ∷ xs) h = absurd h.0

sends-IsControl : (xs : List Action) → AllSends xs → All IsControl xs
sends-IsControl [] h = tt
sends-IsControl (send bytes ∷ xs) h = (tt, sends-IsControl xs h.1)
sends-IsControl (panicked ∷ xs) h = (tt, sends-IsControl xs h.1)
sends-IsControl (down why ∷ xs) h = absurd h.0
sends-IsControl (Action.up a ∷ xs) h = absurd h.0
sends-IsControl (deliver bytes ∷ xs) h = absurd h.0

report_down-IsControl : (why : Reason) (p : Ppp) → All IsControl (report_down why p).1
unfolding report_down
report_down-IsControl why p = ground arith

on_lcp-IsControl : (o : Outcome) (p : Ppp) (now : ℕ) → All IsControl (on_lcp o p now).1
unfolding on_lcp
on_lcp-IsControl Outcome.up p now =
    let told = record p.ipcp { layer = record p.ipcp.layer { peer_mru = p.lcp.layer.peer_mru } } in
    sends-IsControl (start ipcp_impl told now).1 (start-AllSends ipcp_impl told now)
on_lcp-IsControl (Outcome.down why) p now = report_down-IsControl why p

closing-IsControl :
    (why : Reason) (p : Ppp) (now : ℕ)
    → (let (q, actions) = close_lcp p now in All IsControl (after actions (report_down why q)).1)
closing-IsControl why p now =
    let (q, actions) = close_lcp p now in
    All-append IsControl actions (report_down why q).1
      (sends-IsControl actions (close-AllSends lcp_impl p.lcp now)) (report_down-IsControl why q)

on_ipcp-IsControl : (o : Outcome) (p : Ppp) (now : ℕ) → All IsControl (on_ipcp o p now).1
unfolding on_ipcp
on_ipcp-IsControl Outcome.up p now =
    if_elim {A = Step} (λ s. All IsControl s.1) (is_unspecified p.ipcp.layer.local) _ _
      (λ _. closing-IsControl no_address (record p { ipcp = record p.ipcp { state = closed } }) now)
      (λ _. (tt, tt))
on_ipcp-IsControl (Outcome.down why) p now =
    if_elim {A = Step} (λ s. All IsControl s.1) (is_opened p.lcp.state) _ _
      (λ _. closing-IsControl why p now) (λ _. report_down-IsControl why p)

lcp_turn-IsControl :
    (t : Turn Lcp) (p : Ppp) (now : ℕ) → AllSends t.actions → All IsControl (lcp_turn t p now).1
unfolding lcp_turn
lcp_turn-IsControl t p now h =
    let q : Ppp = record p { lcp = t.fsm } in
    All-append IsControl t.actions (lcp_outcome t.outcome q now).1 (sends-IsControl t.actions h)
      (go t.outcome q)
  where
    go : (o : Option Outcome) (q : Ppp) → All IsControl (lcp_outcome o q now).1
    go none q = tt
    go (some o) q = on_lcp-IsControl o q now

ipcp_turn-IsControl :
    (t : Turn Ipcp) (p : Ppp) (now : ℕ) → AllSends t.actions → All IsControl (ipcp_turn t p now).1
unfolding ipcp_turn
ipcp_turn-IsControl t p now h =
    let q : Ppp = record p { ipcp = t.fsm } in
    All-append IsControl t.actions (ipcp_outcome t.outcome q now).1 (sends-IsControl t.actions h)
      (go t.outcome q)
  where
    go : (o : Option Outcome) (q : Ppp) → All IsControl (ipcp_outcome o q now).1
    go none q = tt
    go (some o) q = on_ipcp-IsControl o q now

control-control :
    (which : Which) (rand : ℕ → ℕ) (p : Ppp) (payload : Bytes) (now : ℕ)
    → All IsControl (control which rand p payload now).1
unfolding control
control-control which rand p (code ∷ id ∷ x ∷ y ∷ rest) now =
    if_elim {A = Step} (λ s. All IsControl s.1)
      (ltb (from_be16 x y) 4 || ltb (length rest + 4) (from_be16 x y)) _ _ (λ _. tt)
      (λ _. go which (take (from_be16 x y - 4) rest))
  where
    go : (w : Which) (bytes : Bytes) → All IsControl (dispatch w rand p code id bytes now).1
    go lcp_packet bytes =
        lcp_turn-IsControl (lcp_input rand p.lcp code id bytes now) p now
          (lcp_input-AllSends rand p.lcp code id bytes now)
    go ipcp_packet bytes =
        ipcp_turn-IsControl (input ipcp_impl rand p.ipcp code id bytes now) p now
          (input-AllSends ipcp_impl rand p.ipcp code id bytes now)
control-control which rand p _ now = tt

delivered-reject_protocol : (p : Ppp) (bytes : Bytes) → delivered (reject_protocol p bytes).1 ≡ []
unfolding reject_protocol
delivered-reject_protocol p bytes = delivered-control (reject_protocol p bytes).1 (
    sends-IsControl (reject_protocol p bytes).1 (
      send_packet-IsSend protocol_lcp proto_rej (next_id p.lcp.id)
          (take (reject_limit lcp_impl p.lcp) bytes),
      tt,
    ))

-- The payload of a PPP packet of the IP protocol.
abbrev pub ip_payload : Bytes → List Bytes
ip_payload (x ∷ y ∷ payload) = if from_be16 x y == protocol_ip then payload ∷ [] else []
ip_payload _ = []

-- A packet from the gateway hands something to the TUN device exactly if the link is up and it is
-- an IP packet, and then its payload alone.
pub delivered-input_link :
    (rand : ℕ → ℕ) (p : Ppp) (bytes : Bytes) (now : ℕ)
    → delivered (input_link rand p bytes now).1 ≡ (if is_up p then ip_payload bytes else [])
unfolding input_link
delivered-input_link rand p (x ∷ y ∷ payload) now =
    let lcp_step = control lcp_packet rand p payload now in
    let ipcp_step = control ipcp_packet rand p payload now in
    ground (
      arith,
      delivered-control lcp_step.1 (control-control lcp_packet rand p payload now),
      delivered-control ipcp_step.1 (control-control ipcp_packet rand p payload now),
      delivered-reject_protocol p (x ∷ y ∷ payload),
    )
delivered-input_link rand p (x ∷ []) now = ground arith
delivered-input_link rand p [] now = ground arith

-- What one end wraps, the other delivers unchanged while its link is up, and its state stays.
pub input_link-encode_ip :
    (rand : ℕ → ℕ) (p : Ppp) (packet_ : Bytes) (now : ℕ)
    → is_up p ≡ true
    → input_link rand p (encode_ip packet_) now ≡ (p, deliver packet_ ∷ [])
unfolding input_link encode_ip
input_link-encode_ip rand p packet_ now h = rw h
