-- ===== src/Ppp/Fsm/Quiet.antt =====
-- The kinds of actions that the automaton of ppp.rs pushes.
use openfortivpn_rs.Ppp.Fsm.Handlers.{input-cases}
use openfortivpn_rs.Ppp.Types.{
  max_nak_loops, conf_ack, code_rej, closed, conf_nak, initial, opened, term_ack, parse_all,
  conf_rej, Opt, State, encode_all, panicked, send, conf_req, Action, Layer,
}
use openfortivpn_rs.Prelude.{
  ◌||◌, ◌+◌, ◌*◌, ◌==◌, not, if_elim, ltb, [], none, ℕ, Bytes, All, some, arith, Option, List, some,
  none, [],
}
use openfortivpn_rs.Ppp.Fsm.{
  accept_all, is_opened, parsed_refusal, renegotiate, on_unknown, accept, on_code_reject, nak_with,
  term_ack_in, choose, on_nak_or_rej, parsed_request, reject_with, review_all, on_ack, next_id,
  Answer, request_in, on_request, answer, send_request, send_options, send_packet, Fsm, Turn, input,
  timeout, start, close,
}

abbrev pub IsSend : Action → Type 0
IsSend (send bytes) = Unit
IsSend panicked = Unit
IsSend _ = ⊥

abbrev pub AllSends : List Action → Type 0
AllSends = All IsSend

pub send_packet-IsSend :
    (protocol code id : ℕ) (payload : Bytes) → IsSend (send_packet protocol code id payload)
unfolding send_packet
send_packet-IsSend protocol code id payload = ground arith

pub send_options-IsSend :
    (protocol code id : ℕ) (o : Option Bytes) → IsSend (send_options protocol code id o)
unfolding send_options
send_options-IsSend protocol code id none = tt
send_options-IsSend protocol code id (some bytes) = send_packet-IsSend protocol code id bytes

module _ {L : Type 0} (layer : Layer L) where
  send_request-AllSends : (f : Fsm L) (now : ℕ) → AllSends (send_request layer f now).1
  unfolding send_request
  send_request-AllSends f now =
      (send_options-IsSend layer.protocol conf_req f.id (encode_all (layer.request f.layer)), tt)

  pub start-AllSends : (f : Fsm L) (now : ℕ) → AllSends (start layer f now).1
  unfolding start
  start-AllSends f now = (
    send_options-IsSend layer.protocol conf_req (next_id f.id) (encode_all (layer.request f.layer)),
    tt,
  )

  pub close-AllSends : (f : Fsm L) (now : ℕ) → AllSends (close layer f now).1
  unfolding close
  close-AllSends f now = ground arith

  pub timeout-AllSends : (f : Fsm L) (now : ℕ) → AllSends (timeout layer f now).actions
  unfolding timeout
  timeout-AllSends f now =
      ground (
        arith,
        send_options-IsSend layer.protocol conf_req f.id (encode_all (layer.request f.layer)),
      )

  answer-AllSends :
      (a : Answer) (f : Fsm L) (id : ℕ) (os : List Opt) → AllSends (answer layer a f id os).actions
  unfolding answer
  answer-AllSends (reject_with rejs) f id os =
      (send_options-IsSend layer.protocol conf_rej id (encode_all rejs), tt)
  answer-AllSends (nak_with naks) f id os =
      (send_options-IsSend layer.protocol conf_nak id (encode_all naks), tt)
  answer-AllSends accept f id os =
      ground (arith, send_options-IsSend layer.protocol conf_ack id (encode_all os))

  request_in-AllSends :
      (s : State) (rand : ℕ → ℕ) (f : Fsm L) (id : ℕ) (bytes : Bytes) (os : List Opt)
      → AllSends (request_in layer s rand f id bytes os).actions
  unfolding request_in
  request_in-AllSends opened rand f id bytes os = ground arith
  request_in-AllSends initial rand f id bytes os = tt
  request_in-AllSends closed rand f id bytes os = tt
  request_in-AllSends _ rand f id bytes os =
      let r = review_all layer rand f.layer os in answer-AllSends (choose r.rejs r.naks) f id os

  on_request-AllSends :
      (rand : ℕ → ℕ) (f : Fsm L) (id : ℕ) (bytes : Bytes)
      → AllSends (on_request layer rand f id bytes).actions
  unfolding on_request
  on_request-AllSends rand f id bytes = go (parse_all bytes)
    where
      go : (o : Option (List Opt)) → AllSends (parsed_request layer o rand f id bytes).actions
      go none = tt
      go (some os) = request_in-AllSends f.state rand f id bytes os

  renegotiate-AllSends :
      (f : Fsm L) (code : ℕ) (os : List Opt) (now : ℕ)
      → AllSends (renegotiate layer f code os now).actions
  unfolding renegotiate
  renegotiate-AllSends f code os now =
      if_elim {A = Turn L} (λ t. AllSends t.actions) (ltb (2 * max_nak_loops) (f.nak_loops + 1)) _ _
        (λ _. tt)
        (λ _.
          let as_reject = code == conf_rej || ltb max_nak_loops (f.nak_loops + 1) in
          let l = accept_all layer as_reject os f.layer in
          (
            send_options-IsSend layer.protocol conf_req (next_id f.id)
                (encode_all (layer.request l)),
            tt,
          ))

  on_nak_or_rej-AllSends :
      (f : Fsm L) (code id : ℕ) (bytes : Bytes) (now : ℕ)
      → AllSends (on_nak_or_rej layer f code id bytes now).actions
  unfolding on_nak_or_rej
  on_nak_or_rej-AllSends f code id bytes now =
      if_elim {A = Turn L} (λ t. AllSends t.actions) (not (id == f.id)) _ _ (λ _. tt)
        (λ _. go (parse_all bytes))
    where
      go : (o : Option (List Opt)) → AllSends (parsed_refusal layer o f code now).actions
      go none = tt
      go (some os) =
          if_elim {A = Turn L} (λ t. AllSends t.actions) (is_opened f.state) _ _ (λ _. tt)
            (λ _. renegotiate-AllSends f code os now)

  pub input-AllSends :
      (rand : ℕ → ℕ) (f : Fsm L) (code id : ℕ) (bytes : Bytes) (now : ℕ)
      → AllSends (input layer rand f code id bytes now).actions
  input-AllSends rand f code id bytes now =
      input-cases layer (λ t. AllSends t.actions) rand f code id bytes now tt
        (λ _ _. on_request-AllSends rand f id bytes) (λ _ _. unfold on_ack in ground arith)
        (λ _ _. on_nak_or_rej-AllSends f code id bytes now)
        (send_packet-IsSend layer.protocol term_ack id [], tt) (unfold term_ack_in in ground arith)
        (unfold on_code_reject in ground arith)
        (unfold on_unknown in (send_packet-IsSend layer.protocol code_rej (next_id f.id) _, tt))
