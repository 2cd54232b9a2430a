-- ===== src/Ppp/Tests.antt =====
-- Runs of the PPP link of ppp.rs, and the theorems about it at concrete inputs.
use openfortivpn_rs.Ppp.Fsm.Opening.{
  input-OpensRightly, acceptable_acknowledged, Completes, IsAcceptable, input_opens,
}
use openfortivpn_rs.Ppp.Layers.{lcp_request, lcp_peer_configured, lcp_review, opt, lcp_impl, Lcp}
use openfortivpn_rs.Ppp.Fsm.{
  term_ack_in, on_nak_or_rej, on_ack, timeout, close, send_packet, new, Fsm, on_request, review_all,
  start, input,
}
use openfortivpn_rs.Ppp.Link.{
  ipcp_turn, on_lcp, control, lcp_turn, lcp_input, report_down, timeout_link, closes, close_link,
  expires, open_link, receives, run, opens, input_link, new_link, Ppp, Event,
}
use openfortivpn_rs.Prelude.{
  true, ◌≡◌, arith, [], refl, inl, List, ◌∷◌, Bytes, none, ◌+◌, ℕ, some, true, some, none, inl,
  refl, ◌∷◌, [],
}
use openfortivpn_rs.Ppp.Types.{
  opt_u16, opt_u32, conf_ack, protocol_lcp, Outcome, conf_req, restart_timer, State, Opt, parse_all,
  encode_all, ack_rcvd, req_sent, opened,
}
use openfortivpn_rs.Ppp.Types.Codec.{parse_all-encode_all}
use openfortivpn_rs.Ppp.Fsm.Timers.{silence, IsGivenUp, silence_ends}
use openfortivpn_rs.Ppp.Link.Safety.{IsSafeStep, run-IsSafe, new_link-FitsMrus}
use openfortivpn_rs.Ppp.Link.Downs.{flag, downs, run-Counts}
use openfortivpn_rs.Ppp.Link.Traffic.{delivered, delivered-input_link}

-- An MRU of 1400, and a magic number of 7.
abbrev request_bytes : Bytes
request_bytes = 1 ∷ 4 ∷ 5 ∷ 120 ∷ 5 ∷ 6 ∷ 0 ∷ 0 ∷ 0 ∷ 7 ∷ []

abbrev request_opts : List Opt
request_opts = opt 1 (5 ∷ 120 ∷ []) ∷ opt 5 (0 ∷ 0 ∷ 0 ∷ 7 ∷ []) ∷ []

request_opts-parsed : parse_all request_bytes ≡ some request_opts
unfolding parse_all
request_opts-parsed = refl

parse_all-encode_all_example :
    (bytes : Bytes) × (encode_all request_opts ≡ some bytes) × (parse_all bytes ≡ some request_opts)
parse_all-encode_all_example = parse_all-encode_all request_opts (omega arith)

abbrev our_lcp : Lcp
our_lcp = record { mru = 1354; magic = 42; ask_mru = true; ask_magic = true; peer_mru = 1500 }

-- LCP after its first request was sent at time 0, in the given state.
abbrev negotiating : State → Fsm Lcp
negotiating s = record {
  layer = our_lcp;
  state = s;
  id = 1;
  retransmits = 40;
  nak_loops = 0;
  timer = some restart_timer;
  peer_options = [];
}

negotiating-start : (start lcp_impl (new lcp_impl our_lcp) 0).0 ≡ negotiating req_sent
unfolding start new
negotiating-start = refl

silence_ends_example :
    IsGivenUp lcp_impl (negotiating req_sent) (silence lcp_impl 41 (negotiating req_sent))
silence_ends_example = silence_ends lcp_impl (negotiating req_sent) (ground arith) refl

-- No option of the request is refused, but a magic number that is ours is.
abbrev no_rand : ℕ → ℕ
no_rand n = 0

input-OpensRightly_example :
    let t = input lcp_impl no_rand (negotiating ack_rcvd) conf_req 9 request_bytes 5 in
    (t.fsm.state ≡ opened)
    × (t.fsm.timer ≡ none)
    × Completes lcp_impl no_rand (negotiating ack_rcvd) conf_req 9 request_bytes
unfolding input on_request parse_all review_all lcp_review opt_u16 opt_u32 lcp_peer_configured
input-OpensRightly_example =
    input-OpensRightly lcp_impl no_rand (negotiating ack_rcvd) conf_req 9 request_bytes 5 refl

request-IsAcceptable : IsAcceptable lcp_impl no_rand our_lcp request_opts
unfolding review_all lcp_review opt_u16 opt_u32
request-IsAcceptable = (refl, refl)

input_opens_example :
    let t = input lcp_impl no_rand (negotiating ack_rcvd) conf_req 9 request_bytes 5 in
    (t.outcome ≡ some Outcome.up) × (t.fsm.state ≡ opened) × (t.fsm.timer ≡ none)
input_opens_example =
    input_opens lcp_impl no_rand (negotiating ack_rcvd) conf_req 9 request_bytes 5
      (inl (refl, refl, (request_opts, request_opts-parsed, request-IsAcceptable)))

acceptable_acknowledged_example :
    let t = input lcp_impl no_rand (negotiating ack_rcvd) conf_req 9 request_bytes 5 in
    (t.actions ≡ send_packet protocol_lcp conf_ack 9 request_bytes ∷ [])
    × (t.fsm.peer_options ≡ request_opts)
    × (t.fsm.layer ≡ lcp_impl.peer_configured request_opts our_lcp)
    × (t.fsm.state ≡ opened)
acceptable_acknowledged_example =
    acceptable_acknowledged lcp_impl no_rand (negotiating ack_rcvd) 9 request_bytes 5 request_opts
      refl (omega arith) request_opts-parsed request-IsAcceptable

-- An MRU, and an option that LCP does not know.
abbrev strange_bytes : Bytes
strange_bytes = 1 ∷ 4 ∷ 5 ∷ 120 ∷ 99 ∷ 3 ∷ 7 ∷ []

abbrev strange_opts : List Opt
strange_opts = opt 1 (5 ∷ 120 ∷ []) ∷ opt 99 (7 ∷ []) ∷ []

abbrev fresh : Ppp
fresh = new_link 1354 true 42

abbrev events : List Event
events =
    opens 0
    ∷ receives no_rand (0xc0 ∷ 0x21 ∷ 1 ∷ 9 ∷ 0 ∷ 14 ∷ request_bytes) 1
    ∷ expires 3000000000
    ∷ closes 3000000001
    ∷ closes 3000000002
    ∷ receives no_rand (0xc0 ∷ 0x21 ∷ 6 ∷ 3 ∷ 0 ∷ 4 ∷ []) 3000000003
    ∷ closes 3000000004
    ∷ []

run-IsSafe_example : IsSafeStep (run events fresh)
run-IsSafe_example = run-IsSafe events fresh (omega arith) (new_link-FitsMrus 1354 true 42)

run-Counts_example : downs (run events fresh).1 + 0 ≡ flag (run events fresh).0.is_down
unfolding new_link
run-Counts_example = run-Counts events fresh

events_report_once : downs (run events fresh).1 ≡ 1
unfolding new_link run open_link input_link close_link timeout_link report_down start close timeout
    input on_request on_ack on_nak_or_rej lcp_input lcp_turn control parse_all review_all lcp_review
    opt_u16 opt_u32 lcp_peer_configured lcp_request encode_all on_lcp send_packet ipcp_turn
    term_ack_in
events_report_once = refl

-- A link that is up.
abbrev open_one : Ppp
open_one = record fresh {
  lcp = record fresh.lcp { state = opened };
  ipcp = record fresh.ipcp { state = opened };
}

delivered-input_link_example :
    delivered (input_link no_rand open_one (0x00 ∷ 0x21 ∷ 69 ∷ 0 ∷ []) 7).1 ≡ (69 ∷ 0 ∷ []) ∷ []
delivered-input_link_example = delivered-input_link no_rand open_one (0x00 ∷ 0x21 ∷ 69 ∷ 0 ∷ []) 7
