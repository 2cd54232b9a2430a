-- ===== src/Ppp/Fsm.antt =====
-- crates/sslvpn/src/ppp.rs, `Fsm<L>`: the option negotiation automaton of one layer, over any
-- `Layer`. A method returns the automaton with the actions that it pushed, and its outcome.
-- `now` is the time and `rand` the numbers that `rand::random` gives, one for each option reviewed.
pub mod Handlers
pub mod Timers
pub mod Opening
pub mod Refusing
pub mod Safety
pub mod Quiet
use openfortivpn_rs.Prelude.{
  ◌||◌, ◌^◌, ◌++◌, ◌*◌, leb, length, ◌==◌, ◌%◌, ◌&&◌, not, be16, take, get_or, ◌+◌, ◌-◌,
  if◌then◌else◌, ltb, List, Bool, Option, ℕ, Bytes, false, true, some, none, ◌∷◌, [],
}
use openfortivpn_rs.Ppp.Types.{
  rej, ack, terminated, rejected_code, code_rej, keeps_refusing, restarted, last_essential_code,
  conf_nak, term_req, max_nak_loops, ack_sent, conf_req, conf_ack, term_ack, down, equal_opts,
  no_answer, max_terminate, encode_all, send, restart_timer, up, parse_all, closing,
  unexpected_terminate_ack, no_terminate_ack, Outcome, conf_rej, panicked, nak, opened, closed,
  Verdict, req_sent, Reason, initial, finished, ack_rcvd, Layer, Opt, State, Action,
}

pub record Fsm (L : Type 0) : Type 0 where
  pub layer : L
  pub state : State
  pub id : ℕ
  pub retransmits : ℕ
  pub nak_loops : ℕ
  pub timer : Option ℕ
  pub peer_options : List Opt

-- What a method that may end the layer leaves.
pub record Turn (L : Type 0) : Type 0 where
  pub fsm : Fsm L
  pub actions : List Action
  pub outcome : Option Outcome

-- The tests `self.state == ..`
abbrev pub is_ack_rcvd : State → Bool
is_ack_rcvd ack_rcvd = true
is_ack_rcvd _ = false

abbrev pub is_ack_sent : State → Bool
is_ack_sent ack_sent = true
is_ack_sent _ = false

abbrev pub is_opened : State → Bool
is_opened opened = true
is_opened _ = false

abbrev pub is_closing : State → Bool
is_closing closing = true
is_closing _ = false

-- `wrapping_add(1)` on a u8
abbrev pub next_id : ℕ → ℕ
next_id id = (id + 1) % 2 ^ 8

-- A packet whose length does not fit 16 bits panics.
unfoldable pub packet : ℕ → ℕ → ℕ → Bytes → Option Bytes
packet protocol code id payload =
    if ltb (length payload + 4) (2 ^ 16)
    then some (be16 protocol ++ (code ∷ id ∷ (be16 (length payload + 4) ++ payload)))
    else none

abbrev pub send_or_panic : Option Bytes → Action
send_or_panic none = panicked
send_or_panic (some bytes) = send bytes

-- `Action::Send(Self::packet(..))`
unfoldable pub send_packet : ℕ → ℕ → ℕ → Bytes → Action
unfolding packet
send_packet protocol code id payload = send_or_panic (packet protocol code id payload)

-- The same on options that are encoded first.
unfoldable pub send_options : ℕ → ℕ → ℕ → Option Bytes → Action
unfolding send_packet
send_options protocol code id none = panicked
send_options protocol code id (some bytes) = send_packet protocol code id bytes

-- The answer to a Configure-Request.
pub record Review : Type 0 where
  pub naks : List Opt
  pub rejs : List Opt

abbrev add_verdict : Verdict → Opt → Review → Review
add_verdict ack option r = r
add_verdict (nak better) option r = record r { naks = better ∷ r.naks }
add_verdict rej option r = record r { rejs = option ∷ r.rejs }

pub data Answer : Type 0 where
  reject_with nak_with : List Opt → Answer
  accept : Answer

-- `if !rejs.is_empty() .. else if !naks.is_empty() .. else ..`
abbrev pub choose : List Opt → List Opt → Answer
choose (o ∷ rejs) naks = reject_with (o ∷ rejs)
choose [] (o ∷ naks) = nak_with (o ∷ naks)
choose [] [] = accept

-- `deadline > now`, or no deadline
abbrev pub is_pending : Option ℕ → ℕ → Bool
is_pending none now = true
is_pending (some deadline) now = ltb now deadline

abbrev back_to_req_sent : State → State
back_to_req_sent ack_rcvd = req_sent
back_to_req_sent s = s

module _ {L : Type 0} (layer : Layer L) where
  abbrev pub turn : Fsm L → List Action → Option Outcome → Turn L
  turn f actions outcome = record { fsm = f; actions = actions; outcome = outcome }

  unfoldable pub new : L → Fsm L
  new l = record {
    layer = l;
    state = initial;
    id = 0;
    retransmits = 0;
    nak_loops = 0;
    timer = none;
    peer_options = [];
  }

  unfoldable pub send_request : Fsm L → ℕ → Fsm L × List Action
  unfolding send_options
  send_request f now = (
    record f { timer = some (now + restart_timer) },
    send_options layer.protocol conf_req f.id (encode_all (layer.request f.layer)) ∷ [],
  )

  -- `Fsm::open`
  unfoldable pub start : Fsm L → ℕ → Fsm L × List Action
  unfolding send_request
  start f now =
      send_request
        (record f {
          state = req_sent;
          retransmits = layer.max_configure;
          nak_loops = 0;
          id = next_id f.id;
        })
        now

  unfoldable pub send_terminate : Fsm L → ℕ → Fsm L × List Action
  unfolding send_packet
  send_terminate f now = (
    record f { id = next_id f.id; timer = some (now + restart_timer) },
    send_packet layer.protocol term_req (next_id f.id) [] ∷ [],
  )

  close_from : State → Fsm L → ℕ → Fsm L × List Action × Bool
  close_from initial f now = (f, [], false)
  close_from closed f now = (f, [], false)
  close_from closing f now = (f, [], true)
  close_from _ f now =
      let (f', actions) =
        send_terminate (record f { state = closing; retransmits = max_terminate }) now in
      (f', actions, true)

  -- `Fsm::close`: whether a Terminate-Ack is to be waited for.
  unfoldable pub close : Fsm L → ℕ → Fsm L × List Action × Bool
  unfolding close_from send_terminate
  close f now = close_from f.state f now

  abbrev pub finish : Fsm L → List Action → Reason → Turn L
  finish f actions reason =
      turn (record f { state = closed; timer = none }) actions (some (down reason))

  abbrev no_answer_in : State → Reason
  no_answer_in closing = no_terminate_ack layer.name
  no_answer_in _ = no_answer layer.name

  abbrev unanswered : Fsm L × List Action → Turn L
  unanswered (f, actions) = turn f actions none

  retry : State → Fsm L → ℕ → Turn L
  retry closing f now = unanswered (send_terminate f now)
  retry req_sent f now = unanswered (send_request f now)
  retry ack_sent f now = unanswered (send_request f now)
  retry ack_rcvd f now =
      let (f', actions) = send_request f now in turn (record f' { state = req_sent }) actions none
  retry _ f now = turn (record f { timer = none }) [] none

  -- `Fsm::timeout`
  unfoldable pub timeout : Fsm L → ℕ → Turn L
  unfolding retry send_terminate send_request
  timeout f now =
      if is_pending f.timer now
      then turn f [] none
      else if f.retransmits == 0
      then finish f [] (no_answer_in f.state)
      else retry f.state (record f { retransmits = f.retransmits - 1 }) now

  -- How much of a rejected packet fits in a reject.
  abbrev pub reject_limit : Fsm L → ℕ
  reject_limit f = layer.peer_mru f.layer - 6

  unfoldable pub on_code_reject : Fsm L → Bytes → Turn L
  on_code_reject f bytes =
      let rejected = get_or bytes 0 0 in
      if leb conf_req rejected && leb rejected last_essential_code
      then finish f [] (rejected_code layer.name rejected)
      else turn (record f { state = back_to_req_sent f.state }) [] none

  -- The loop over the options of a Configure-Request.
  unfoldable pub review_all : (ℕ → ℕ) → L → List Opt → Review
  review_all rand l [] = record { naks = []; rejs = [] }
  review_all rand l (o ∷ os) =
      add_verdict (layer.review (rand 0) l o) o (review_all (λ n. rand (n + 1)) l os)

  -- After a Configure-Ack of ours.
  acknowledged : State → Fsm L → List Action → Turn L
  acknowledged ack_rcvd f actions =
      turn (record f { state = opened; timer = none }) actions (some up)
  acknowledged _ f actions = turn (record f { state = ack_sent }) actions none

  abbrev refused : Fsm L → List Action → Turn L
  refused f actions =
      turn (if is_ack_sent f.state then record f { state = req_sent } else f) actions none

  answer : Answer → Fsm L → ℕ → List Opt → Turn L
  unfolding acknowledged send_options
  answer (reject_with rejs) f id options =
      refused f (send_options layer.protocol conf_rej id (encode_all rejs) ∷ [])
  answer (nak_with naks) f id options =
      refused f (send_options layer.protocol conf_nak id (encode_all naks) ∷ [])
  answer accept f id options =
      acknowledged f.state
        (record f { layer = layer.peer_configured options f.layer; peer_options = options })
        (send_options layer.protocol conf_ack id (encode_all options) ∷ [])

  -- A Configure-Request in each state.
  pub request_in : State → (ℕ → ℕ) → Fsm L → ℕ → Bytes → List Opt → Turn L
  unfolding answer
  request_in opened rand f id bytes options =
      if equal_opts options f.peer_options
      then turn f (send_packet layer.protocol conf_ack id bytes ∷ []) none
      else finish f [] (restarted layer.name)
  request_in initial rand f id bytes options = turn f [] none
  request_in closed rand f id bytes options = turn f [] none
  request_in _ rand f id bytes options =
      let r = review_all rand f.layer options in answer (choose r.rejs r.naks) f id options

  parsed_request : Option (List Opt) → (ℕ → ℕ) → Fsm L → ℕ → Bytes → Turn L
  unfolding request_in
  parsed_request none rand f id bytes = turn f [] none
  parsed_request (some options) rand f id bytes = request_in f.state rand f id bytes options

  unfoldable pub on_request : (ℕ → ℕ) → Fsm L → ℕ → Bytes → Turn L
  unfolding parsed_request
  on_request rand f id bytes = parsed_request (parse_all bytes) rand f id bytes

  ack_in : State → Fsm L → Turn L
  ack_in req_sent f = turn (record f { state = ack_rcvd }) [] none
  ack_in ack_sent f = turn (record f { state = opened; timer = none }) [] (some up)
  ack_in _ f = turn f [] none

  unfoldable pub on_ack : Fsm L → ℕ → Turn L
  unfolding ack_in
  on_ack f id = if not (id == f.id) then turn f [] none else ack_in f.state f

  -- The loop over the options of a Configure-Nak or a Configure-Reject.
  pub accept_all : Bool → List Opt → L → L
  accept_all as_reject [] l = l
  accept_all as_reject (o ∷ os) l =
      accept_all as_reject os (if as_reject then layer.accept_rej o l else layer.accept_nak o l)

  renegotiate : Fsm L → ℕ → List Opt → ℕ → Turn L
  unfolding send_request
  renegotiate f code options now =
      let loops = f.nak_loops + 1 in
      if ltb (2 * max_nak_loops) loops
      then finish (record f { nak_loops = loops }) [] (keeps_refusing layer.name)
      else let as_reject = code == conf_rej || ltb max_nak_loops loops in
        unanswered (
          send_request
            (record f {
              layer = accept_all as_reject options f.layer;
              state = back_to_req_sent f.state;
              id = next_id f.id;
              nak_loops = loops;
            })
            now)

  parsed_refusal : Option (List Opt) → Fsm L → ℕ → ℕ → Turn L
  unfolding renegotiate
  parsed_refusal none f code now = turn f [] none
  parsed_refusal (some options) f code now =
      if is_opened f.state then turn f [] none else renegotiate f code options now

  unfoldable pub on_nak_or_rej : Fsm L → ℕ → ℕ → Bytes → ℕ → Turn L
  unfolding parsed_refusal
  on_nak_or_rej f code id bytes now =
      if not (id == f.id) then turn f [] none else parsed_refusal (parse_all bytes) f code now

  unfoldable pub term_ack_in : State → Fsm L → Turn L
  term_ack_in closing f = finish f [] (finished layer.name)
  term_ack_in opened f = finish f [] (unexpected_terminate_ack layer.name)
  term_ack_in _ f = turn f [] none

  -- `u16::try_from(data.len() + 4).unwrap_or(4)`
  abbrev rejected_len : Bytes → ℕ
  rejected_len bytes = if ltb (length bytes + 4) (2 ^ 16) then length bytes + 4 else 4

  unfoldable pub on_unknown : Fsm L → ℕ → ℕ → Bytes → Turn L
  unfolding send_packet
  on_unknown f code id bytes =
      let rejected = take (reject_limit f) (code ∷ id ∷ (be16 (rejected_len bytes) ++ bytes)) in
      turn (record f { id = next_id f.id })
        (send_packet layer.protocol code_rej (next_id f.id) rejected ∷ []) none

  -- `Fsm::input`: one packet of this layer's protocol.
  unfoldable pub input : (ℕ → ℕ) → Fsm L → ℕ → ℕ → Bytes → ℕ → Turn L
  input rand f code id bytes now =
      if is_closing f.state && not (code == term_ack) && not (code == term_req)
      then turn f [] none
      else if code == conf_req
      then on_request rand f id bytes
      else if code == conf_ack
      then on_ack f id
      else if code == conf_nak || code == conf_rej
      then on_nak_or_rej f code id bytes now
      else if code == term_req
      then finish f (send_packet layer.protocol term_ack id [] ∷ []) (terminated layer.name)
      else if code == term_ack
      then term_ack_in f.state f
      else if code == code_rej
      then on_code_reject f bytes
      else on_unknown f code id bytes
