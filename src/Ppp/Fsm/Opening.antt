-- ===== src/Ppp/Fsm/Opening.antt =====
-- When a layer of ppp.rs opens, and what it answers to a Configure-Request.
use openfortivpn_rs.Ppp.Types.Codec.{encode_all-parse_all}
use openfortivpn_rs.Ppp.Fsm.Handlers.{input-cases}
use openfortivpn_rs.Ppp.Types.{
  encode_all, req_sent, State, Outcome, ack_sent, conf_ack, parse_all, opened, ack_rcvd, Opt, up,
  conf_req, Layer,
}
use openfortivpn_rs.Prelude.{
  if◌then◌else◌, false, ◌∷◌, true, IsBytes, Bool, false, true, ◌∷◌, inr, refl, Option-cases, inl,
  arith, inr, inl, refl, List, some, ℕ, [], none, Bytes, ◌≡◌, ◌⊎◌, some, none, [],
}
use openfortivpn_rs.Ppp.Fsm.{
  is_ack_rcvd, send_packet, send_options, is_closing, on_unknown, on_code_reject, term_ack_in,
  on_nak_or_rej, parsed_request, request_in, on_ack, Fsm, Turn, input, on_request, review_all,
}

-- The request is acceptable: no option of it is answered by a nak or a reject.
abbrev pub IsAcceptable : {L : Type 0} → Layer L → (ℕ → ℕ) → L → List Opt → Type 0
IsAcceptable layer rand l os =
    ((review_all layer rand l os).rejs ≡ []) × ((review_all layer rand l os).naks ≡ [])

-- The second of the two acknowledgements comes: ours to the gateway's request, or the gateway's to
-- our last request.
abbrev pub Completes : {L : Type 0} → Layer L → (ℕ → ℕ) → Fsm L → ℕ → ℕ → Bytes → Type 0
Completes layer rand f code id bytes =
    (code ≡ conf_req)
      × (f.state ≡ ack_rcvd)
      × ((os : List Opt) × (parse_all bytes ≡ some os) × IsAcceptable layer rand f.layer os)
    ⊎ (code ≡ conf_ack) × (f.state ≡ ack_sent) × (id ≡ f.id)

module _ {L : Type 0} (layer : Layer L) where
  -- A layer reports Up only as it enters the Opened state, with its timer off.
  abbrev pub OpensRightly : (ℕ → ℕ) → Fsm L → ℕ → ℕ → Bytes → Turn L → Type 0
  OpensRightly rand f code id bytes t =
      t.outcome ≡ some up
      → (t.fsm.state ≡ opened) × (t.fsm.timer ≡ none) × Completes layer rand f code id bytes

  request_in-opens :
      (rand : ℕ → ℕ) (f : Fsm L) (id : ℕ) (bytes : Bytes) (os : List Opt)
      → let t = request_in layer f.state rand f id bytes os in
        t.outcome ≡ some Outcome.up
        → (t.fsm.state ≡ opened)
          × (t.fsm.timer ≡ none)
          × (f.state ≡ ack_rcvd)
          × ((review_all layer rand f.layer os).rejs ≡ [])
          × ((review_all layer rand f.layer os).naks ≡ [])
  unfolding request_in
  request_in-opens rand f id bytes os h = ground arith

  on_request-OpensRightly :
      (rand : ℕ → ℕ) (f : Fsm L) (id : ℕ) (bytes : Bytes)
      → OpensRightly rand f conf_req id bytes (on_request layer rand f id bytes)
  unfolding on_request
  on_request-OpensRightly rand f id bytes h = elim (Option-cases (parse_all bytes)) [
    | inl e ↦ absurd (ground arith)
    | inr (os, e) ↦
        let same : on_request layer rand f id bytes ≡ request_in layer f.state rand f id bytes os =
          rw (e, parsed_request) in
        let opens = request_in-opens rand f id bytes os (rw same at h) in
        rw same (opens.0, opens.1, inl (refl, opens.2, (os, e, (opens.3, opens.4))))
  ]

  on_ack-OpensRightly :
      (rand : ℕ → ℕ) (f : Fsm L) (id : ℕ) (bytes : Bytes)
      → OpensRightly rand f conf_ack id bytes (on_ack layer f id)
  unfolding on_ack
  on_ack-OpensRightly rand f id bytes h =
      (ground arith, ground arith, inr (refl, ground arith, ground arith))

  -- Whatever packet comes, a layer reports Up only as it enters the Opened state with its timer off,
  -- and only when that packet is the second of the two acknowledgements: an acceptable
  -- Configure-Request while ours is acknowledged, or a Configure-Ack of our last request while
  -- theirs is.
  pub input-OpensRightly :
      (rand : ℕ → ℕ) (f : Fsm L) (code id : ℕ) (bytes : Bytes) (now : ℕ)
      → OpensRightly rand f code id bytes (input layer rand f code id bytes now)
  input-OpensRightly rand f code id bytes now =
      input-cases layer (OpensRightly rand f code id bytes) rand f code id bytes now (λ h. cc h)
        (λ _ e. rw e (on_request-OpensRightly rand f id bytes))
        (λ _ e. rw e (on_ack-OpensRightly rand f id bytes))
        (λ _ _ h. absurd (unfold on_nak_or_rej in ground arith)) (λ h. cc h)
        (λ h. absurd (unfold term_ack_in in ground arith))
        (λ h. absurd (unfold on_code_reject in ground arith))
        (λ h. absurd (unfold on_unknown in ground arith))

  request_in_completes :
      (rand : ℕ → ℕ) (f : Fsm L) (id : ℕ) (bytes : Bytes) (os : List Opt)
      → f.state ≡ ack_rcvd
      → IsAcceptable layer rand f.layer os
      → (request_in layer f.state rand f id bytes os).outcome ≡ some Outcome.up
  unfolding request_in
  request_in_completes rand f id bytes os s a = ground arith

  pub input-conf_req :
      (rand : ℕ → ℕ) (f : Fsm L) (id : ℕ) (bytes : Bytes) (now : ℕ) (os : List Opt)
      → is_closing f.state ≡ false
      → parse_all bytes ≡ some os
      → input layer rand f conf_req id bytes now ≡ request_in layer f.state rand f id bytes os
  unfolding input on_request
  input-conf_req rand f id bytes now os c e = rw (c, e, parsed_request)

  input_reports_up :
      (rand : ℕ → ℕ) (f : Fsm L) (code id : ℕ) (bytes : Bytes) (now : ℕ)
      → Completes layer rand f code id bytes
      → (input layer rand f code id bytes now).outcome ≡ some Outcome.up
  input_reports_up rand f code id bytes now (inl (c, s, (os, e, a))) =
      rw (c, input-conf_req rand f id bytes now os (rw s) e)
        (request_in_completes rand f id bytes os s a)
  input_reports_up rand f code id bytes now (inr (c, s, e)) = unfold input on_ack in ground arith

  -- The second of the two acknowledgements opens the layer: it reports Up, its state is Opened, and
  -- its timer is off.
  pub input_opens :
      (rand : ℕ → ℕ) (f : Fsm L) (code id : ℕ) (bytes : Bytes) (now : ℕ)
      → Completes layer rand f code id bytes
      → let t = input layer rand f code id bytes now in
        (t.outcome ≡ some Outcome.up) × (t.fsm.state ≡ opened) × (t.fsm.timer ≡ none)
  input_opens rand f code id bytes now c =
      let reported = input_reports_up rand f code id bytes now c in
      let opens = input-OpensRightly rand f code id bytes now reported in
      (reported, opens.0, opens.1)

  -- The layer negotiates: a Configure-Request is reviewed.
  abbrev pub negotiates : State → Bool
  negotiates req_sent = true
  negotiates ack_rcvd = true
  negotiates ack_sent = true
  negotiates _ = false

  request_in-acknowledges :
      (rand : ℕ → ℕ) (f : Fsm L) (id : ℕ) (bytes : Bytes) (os : List Opt)
      → negotiates f.state ≡ true
      → encode_all os ≡ some bytes
      → IsAcceptable layer rand f.layer os
      → let t = request_in layer f.state rand f id bytes os in
        (t.actions ≡ send_packet layer.protocol conf_ack id bytes ∷ [])
        × (t.fsm.peer_options ≡ os)
        × (t.fsm.layer ≡ layer.peer_configured os f.layer)
        × (t.fsm.state ≡ (if is_ack_rcvd f.state then opened else ack_sent))
  unfolding request_in send_options
  request_in-acknowledges rand f id bytes os n e a = ground arith

  -- In a negotiating state, an acceptable Configure-Request is answered by one Configure-Ack that
  -- carries its identifier and the very bytes of its options; their values are remembered, and the
  -- layer opens if ours was acknowledged.
  pub acceptable_acknowledged :
      (rand : ℕ → ℕ) (f : Fsm L) (id : ℕ) (bytes : Bytes) (now : ℕ) (os : List Opt)
      → negotiates f.state ≡ true
      → IsBytes bytes
      → parse_all bytes ≡ some os
      → IsAcceptable layer rand f.layer os
      → let t = input layer rand f conf_req id bytes now in
        (t.actions ≡ send_packet layer.protocol conf_ack id bytes ∷ [])
        × (t.fsm.peer_options ≡ os)
        × (t.fsm.layer ≡ layer.peer_configured os f.layer)
        × (t.fsm.state ≡ (if is_ack_rcvd f.state then opened else ack_sent))
  acceptable_acknowledged rand f id bytes now os n b e a =
      rw (input-conf_req rand f id bytes now os (ground arith) e)
        (request_in-acknowledges rand f id bytes os n (encode_all-parse_all bytes b e) a)
