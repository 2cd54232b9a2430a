-- ===== src/Ppp/Fsm/Safety.antt =====
-- The sizes of the options and packets that the automaton of ppp.rs builds, and its `expect`s.
use openfortivpn_rs.Ppp.Fsm.Handlers.{input-cases}
use openfortivpn_rs.Ppp.Types.{
  max_nak_loops, closed, initial, term_ack, opened, conf_ack, parse_all, code_rej, State, conf_nak,
  req_sent, conf_rej, term_req, conf_req, rej, ack, Verdict, encode_all, nak, panicked, Layer, Opt,
  Action,
}
use openfortivpn_rs.Prelude.{
  not, ◌==◌, ltb, ◌||◌, ◌*◌, if_elim, Option-cases, ◌-◌, ◌++◌, inr, be16, length-take, IsBytes, inl,
  inr, inl, false, Bool, true, ◌∙◌, false, true, length-append, refl, refl, ◌<◌, ◌≤◌, Bytes, ◌≡◌,
  ◌+◌, List, ◌^◌, All, ℕ, ◌∷◌, arith, [], length, ◌∷◌, [],
}
use openfortivpn_rs.Ppp.Fsm.{
  back_to_req_sent, is_opened, parsed_refusal, on_code_reject, term_ack_in, rejected_len, on_ack,
  parsed_request, reject_limit, on_nak_or_rej, request_in, input, on_unknown, renegotiate,
  on_request, next_id, choose, answer, Turn, timeout, accept_all, close, start, Fsm, send_request,
  add_verdict, Review, send_options, send_packet, review_all,
}
use openfortivpn_rs.Ppp.Types.Codec.{
  opts_bytes-parse_all, parse_all-IsOpt, IsOpt-IsShort, IsOpt, IsShort, opts_bytes,
  encode_all-opts_bytes,
}

-- The action is no panic.
abbrev pub IsSafe : Action → Type 0
IsSafe panicked = ⊥
IsSafe _ = Unit

abbrev pub AllSafe : List Action → Type 0
AllSafe = All IsSafe

-- What the automaton relies on in a layer.
pub record LayerLaws {L : Type 0} (layer : Layer L) : Type 0 where
  pub request_short : (l : L) → All IsShort (layer.request l)
  pub request_fits : (l : L) → length (opts_bytes (layer.request l)) + 4 < 2 ^ 16
  pub nak_fits :
      (rand : ℕ) (l : L) (o better : Opt)
      → layer.review rand l o ≡ nak better
      → length better.value ≤ length o.value
  pub configured_fits :
      (os : List Opt) (l : L)
      → All IsOpt os
      → layer.peer_mru l < 2 ^ 16
      → layer.peer_mru (layer.peer_configured os l) < 2 ^ 16
  pub nak_keeps : (o : Opt) (l : L) → layer.peer_mru (layer.accept_nak o l) ≡ layer.peer_mru l
  pub rej_keeps : (o : Opt) (l : L) → layer.peer_mru (layer.accept_rej o l) ≡ layer.peer_mru l

pub send_packet-IsSafe :
    (protocol code id : ℕ) (payload : Bytes)
    → length payload + 4 < 2 ^ 16
    → IsSafe (send_packet protocol code id payload)
unfolding send_packet
send_packet-IsSafe protocol code id payload h = ground arith

pub send_options-IsSafe :
    (protocol code id : ℕ) (os : List Opt)
    → All IsShort os
    → length (opts_bytes os) + 4 < 2 ^ 16
    → IsSafe (send_options protocol code id (encode_all os))
unfolding send_options
send_options-IsSafe protocol code id os short fits =
    rw (encode_all-opts_bytes os short) (send_packet-IsSafe protocol code id (opts_bytes os) fits)

abbrev FitsIn : Review → ℕ → Type 0
FitsIn r n =
    All IsShort r.rejs
    × All IsShort r.naks
    × (length (opts_bytes r.rejs) + length (opts_bytes r.naks) ≤ n)

add_fits :
    (v : Verdict) (o : Opt) (os : List Opt) (r : Review)
    → IsOpt o
    → ((better : Opt) → v ≡ nak better → length better.value ≤ length o.value)
    → FitsIn r (length (opts_bytes os))
    → FitsIn (add_verdict v o r) (length (opts_bytes (o ∷ os)))
add_fits ack o os r h n (a, b, c) = (a, b, omega (arith, length-append o.value (opts_bytes os)))
add_fits rej o os r h n (a, b, c) = (
  (h.short, a),
  b,
  omega (arith, length-append o.value (opts_bytes os), length-append o.value (opts_bytes r.rejs)),
)
add_fits (nak better) o os r h n (a, b, c) =
    let shorter = n better refl in
    (
      a,
      (omega (arith, h.short), b),
      omega (
        arith,
        length-append o.value (opts_bytes os),
        length-append better.value (opts_bytes r.naks),
      ),
    )

-- What a review may answer with: short options, together no longer than the request.
review_all-fits :
    {L : Type 0} (layer : Layer L) (laws : LayerLaws layer) (rand : ℕ → ℕ) (l : L) (os : List Opt)
    → All IsOpt os
    → let r = review_all layer rand l os in
      All IsShort r.rejs
      × All IsShort r.naks
      × (length (opts_bytes r.rejs) + length (opts_bytes r.naks) ≤ length (opts_bytes os))
unfolding review_all
review_all-fits layer laws rand l [] h = (tt, tt, omega arith)
review_all-fits layer laws rand l (o ∷ os) h =
    let later = review_all-fits layer laws (λ n. rand (n + 1)) l os h.1 in
    add_fits (layer.review (rand 0) l o) o os (review_all layer (λ n. rand (n + 1)) l os) h.0
      (laws.nak_fits (rand 0) l o) later

module _ {L : Type 0} (layer : Layer L) (laws : LayerLaws layer) where
  -- The peer's MRU is a 16-bit number.
  abbrev pub FitsMru : Fsm L → Type 0
  FitsMru f = layer.peer_mru f.layer < 2 ^ 16

  -- No panic, and the peer's MRU still fits.
  abbrev pub IsSafeTurn : Turn L → Type 0
  IsSafeTurn t = AllSafe t.actions × FitsMru t.fsm

  send_request-IsSafe : (f : Fsm L) (now : ℕ) → AllSafe (send_request layer f now).1
  unfolding send_request
  send_request-IsSafe f now = (
    send_options-IsSafe layer.protocol conf_req f.id (layer.request f.layer)
        (laws.request_short f.layer) (laws.request_fits f.layer),
    tt,
  )

  pub start-IsSafe :
      (f : Fsm L) (now : ℕ)
      → FitsMru f
      → AllSafe (start layer f now).1 × FitsMru (start layer f now).0
  unfolding start
  start-IsSafe f now m = (
    send_request-IsSafe
        (record f {
          state = req_sent;
          retransmits = layer.max_configure;
          nak_loops = 0;
          id = next_id f.id;
        })
        now,
    m,
  )

  pub close-IsSafe :
      (f : Fsm L) (now : ℕ)
      → FitsMru f
      → AllSafe (close layer f now).1 × FitsMru (close layer f now).0
  unfolding close
  close-IsSafe f now m =
      ground (arith, send_packet-IsSafe layer.protocol term_req (next_id f.id) [])

  pub timeout-IsSafe : (f : Fsm L) (now : ℕ) → FitsMru f → IsSafeTurn (timeout layer f now)
  unfolding timeout
  timeout-IsSafe f now m =
      let again = record f { retransmits = f.retransmits - 1 } in
      ground (
        arith,
        send_request-IsSafe again now,
        send_packet-IsSafe layer.protocol term_req (next_id f.id) [],
      )

  accept_all_keeps :
      (as_reject : Bool) (os : List Opt) (l : L)
      → layer.peer_mru (accept_all layer as_reject os l) ≡ layer.peer_mru l
  unfolding accept_all
  accept_all_keeps as_reject [] l = refl
  accept_all_keeps true (o ∷ os) l =
      accept_all_keeps true os (layer.accept_rej o l) ∙ laws.rej_keeps o l
  accept_all_keeps false (o ∷ os) l =
      accept_all_keeps false os (layer.accept_nak o l) ∙ laws.nak_keeps o l

  answer-IsSafe :
      (f : Fsm L) (id : ℕ) (rejs naks os : List Opt)
      → FitsMru f
      → All IsOpt os
      → length (opts_bytes os) + 4 < 2 ^ 16
      → FitsIn (record { naks = naks; rejs = rejs }) (length (opts_bytes os))
      → IsSafeTurn (answer layer (choose rejs naks) f id os)
  unfolding answer
  answer-IsSafe f id (o ∷ rejs) naks os m h n fits =
      let safe = send_options-IsSafe layer.protocol conf_rej id (o ∷ rejs) fits.0 (omega arith) in
      ground (arith, safe)
  answer-IsSafe f id [] (o ∷ naks) os m h n fits =
      let safe = send_options-IsSafe layer.protocol conf_nak id (o ∷ naks) fits.1 (omega arith) in
      ground (arith, safe)
  answer-IsSafe f id [] [] os m h n fits =
      let safe = send_options-IsSafe layer.protocol conf_ack id os (IsOpt-IsShort os h) n in
      ground (arith, safe, laws.configured_fits os f.layer h m)

  request_in-IsSafe :
      (s : State) (rand : ℕ → ℕ) (f : Fsm L) (id : ℕ) (bytes : Bytes) (os : List Opt)
      → FitsMru f
      → All IsOpt os
      → length (opts_bytes os) + 4 < 2 ^ 16
      → length bytes + 4 < 2 ^ 16
      → IsSafeTurn (request_in layer s rand f id bytes os)
  unfolding request_in
  request_in-IsSafe opened rand f id bytes os m h n b =
      ground (arith, send_packet-IsSafe layer.protocol conf_ack id bytes b)
  request_in-IsSafe initial rand f id bytes os m h n b = (tt, m)
  request_in-IsSafe closed rand f id bytes os m h n b = (tt, m)
  request_in-IsSafe _ rand f id bytes os m h n b =
      let r = review_all layer rand f.layer os in
      answer-IsSafe f id r.rejs r.naks os m h n (review_all-fits layer laws rand f.layer os h)

  on_request-IsSafe :
      (rand : ℕ → ℕ) (f : Fsm L) (id : ℕ) (bytes : Bytes)
      → FitsMru f
      → IsBytes bytes
      → length bytes + 4 < 2 ^ 16
      → IsSafeTurn (on_request layer rand f id bytes)
  unfolding on_request
  on_request-IsSafe rand f id bytes m b n = elim (Option-cases (parse_all bytes)) [
    | inl e ↦ rw (e, parsed_request) (tt, m)
    | inr (os, e) ↦
        rw (e, parsed_request)
          (request_in-IsSafe f.state rand f id bytes os m (parse_all-IsOpt bytes b e)
            (rw (opts_bytes-parse_all bytes b e) n) n)
  ]

  renegotiate-IsSafe :
      (f : Fsm L) (code : ℕ) (os : List Opt) (now : ℕ)
      → FitsMru f
      → IsSafeTurn (renegotiate layer f code os now)
  unfolding renegotiate
  renegotiate-IsSafe f code os now m =
      let as_reject = code == conf_rej || ltb max_nak_loops (f.nak_loops + 1) in
      let again : Fsm L = record f {
        layer = accept_all layer as_reject os f.layer;
        state = back_to_req_sent f.state;
        id = next_id f.id;
        nak_loops = f.nak_loops + 1;
      } in
      if_elim IsSafeTurn (ltb (2 * max_nak_loops) (f.nak_loops + 1)) _ _ (λ _. (tt, m))
        (λ _. (send_request-IsSafe again now, rw (accept_all_keeps as_reject os f.layer) m))

  on_nak_or_rej-IsSafe :
      (f : Fsm L) (code id : ℕ) (bytes : Bytes) (now : ℕ)
      → FitsMru f
      → IsSafeTurn (on_nak_or_rej layer f code id bytes now)
  unfolding on_nak_or_rej
  on_nak_or_rej-IsSafe f code id bytes now m = elim (Option-cases (parse_all bytes)) [
    | inl e ↦ rw (e, parsed_refusal) (ground arith)
    | inr (os, e) ↦
        rw (e, parsed_refusal)
          (if_elim IsSafeTurn (not (id == f.id)) _ _ (λ _. (tt, m))
            (λ _.
              if_elim IsSafeTurn (is_opened f.state) _ _ (λ _. (tt, m))
                (λ _. renegotiate-IsSafe f code os now m)))
  ]

  on_unknown-IsSafe :
      (f : Fsm L) (code id : ℕ) (bytes : Bytes)
      → FitsMru f
      → IsSafeTurn (on_unknown layer f code id bytes)
  unfolding on_unknown
  on_unknown-IsSafe f code id bytes m = (
    (
      send_packet-IsSafe layer.protocol code_rej (next_id f.id) _ (
          omega (
            arith,
            length-take (reject_limit layer f)
                (code ∷ id ∷ (be16 (rejected_len layer bytes) ++ bytes)),
          )),
      tt,
    ),
    m,
  )

  -- Whatever packet of its protocol comes, the automaton does not panic, and its peer's MRU goes on
  -- to fit 16 bits.
  pub input-IsSafe :
      (rand : ℕ → ℕ) (f : Fsm L) (code id : ℕ) (bytes : Bytes) (now : ℕ)
      → FitsMru f
      → IsBytes bytes
      → length bytes + 4 < 2 ^ 16
      → IsSafeTurn (input layer rand f code id bytes now)
  input-IsSafe rand f code id bytes now m b n =
      input-cases layer IsSafeTurn rand f code id bytes now (tt, m)
        (λ _ _. on_request-IsSafe rand f id bytes m b n) (λ _ _. unfold on_ack in ground arith)
        (λ _ _. on_nak_or_rej-IsSafe f code id bytes now m)
        ((send_packet-IsSafe layer.protocol term_ack id [] (omega arith), tt), m)
        (unfold term_ack_in in ground arith) (unfold on_code_reject in ground arith)
        (on_unknown-IsSafe f code id bytes m)
