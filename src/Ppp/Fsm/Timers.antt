-- ===== src/Ppp/Fsm/Timers.antt =====
-- The restart timer of the automaton of ppp.rs.
use openfortivpn_rs.Ppp.Fsm.Handlers.{input-cases}
use openfortivpn_rs.Ppp.Types.{
  encode_all, conf_req, term_req, Action, down, closed, initial, max_terminate, max_nak_loops,
  closing, ack_sent, ack_rcvd, req_sent, State, Layer,
}
use native.Mathlib.Numerals.{add-one}
use openfortivpn_rs.Prelude.{
  List, ◌∷◌, sym, ◌∷◌, refl, ◌∙◌, ap, refl, ◌+◌, ◌++◌, [], zero, suc, suc, zero, [], max, ◌*◌, ◌≤◌,
  ◌^◌, Bytes, ◌<◌, arith, Bool, ◌≡◌, ℕ, Option, false, true, some, none,
}
use openfortivpn_rs.Ppp.Fsm.{
  send_options, next_id, is_closing, send_packet, no_answer_in, turn, Turn, finish, on_unknown,
  is_opened, on_code_reject, term_ack_in, on_request, on_ack, on_nak_or_rej, new, Fsm, timeout,
  input, start, close,
}

-- An answer of the gateway is awaited.
abbrev pub awaits : State → Bool
awaits req_sent = true
awaits ack_rcvd = true
awaits ack_sent = true
awaits closing = true
awaits _ = false

abbrev is_set : Option ℕ → Bool
is_set none = false
is_set (some deadline) = true

-- The layer was started and did not end.
abbrev pub is_live : State → Bool
is_live initial = false
is_live closed = false
is_live _ = true

-- The timer is set while an answer is awaited and is not while the layer is open; identifiers are
-- bytes, a layer that lives was refused at most ten times, and the tries left are within the limits.
pub record IsArmed {L : Type 0} (layer : Layer L) (f : Fsm L) : Type 0 where
  pub timer_set : awaits f.state ≡ true → is_set f.timer ≡ true
  pub open_quiet : is_opened f.state ≡ true → is_set f.timer ≡ false
  pub id_fits : f.id < 2 ^ 8
  pub loops_fit : is_live f.state ≡ true → f.nak_loops ≤ 2 * max_nak_loops
  pub tries_fit : f.retransmits ≤ max layer.max_configure max_terminate

module _ {L : Type 0} (layer : Layer L) where
  pub new-IsArmed : (l : L) → IsArmed layer (new layer l)
  unfolding new
  new-IsArmed l = ground arith

  pub start-IsArmed : (f : Fsm L) (now : ℕ) → IsArmed layer (start layer f now).0
  unfolding start
  start-IsArmed f now = ground arith

  pub close-IsArmed : (f : Fsm L) (now : ℕ) → IsArmed layer f → IsArmed layer (close layer f now).0
  unfolding close
  close-IsArmed f now h = ground arith

  pub timeout-IsArmed :
      (f : Fsm L) (now : ℕ) → IsArmed layer f → IsArmed layer (timeout layer f now).fsm
  unfolding timeout
  timeout-IsArmed f now h = ground arith

  on_request-IsArmed :
      (rand : ℕ → ℕ) (f : Fsm L) (id : ℕ) (bytes : Bytes)
      → IsArmed layer f
      → IsArmed layer (on_request layer rand f id bytes).fsm
  unfolding on_request
  on_request-IsArmed rand f id bytes h = ground arith

  on_nak_or_rej-IsArmed :
      (f : Fsm L) (code id : ℕ) (bytes : Bytes) (now : ℕ)
      → IsArmed layer f
      → IsArmed layer (on_nak_or_rej layer f code id bytes now).fsm
  unfolding on_nak_or_rej
  on_nak_or_rej-IsArmed f code id bytes now h = ground arith

  on_ack-IsArmed : (f : Fsm L) (id : ℕ) → IsArmed layer f → IsArmed layer (on_ack layer f id).fsm
  unfolding on_ack
  on_ack-IsArmed f id h = ground arith

  term_ack_in-IsArmed :
      (f : Fsm L) → IsArmed layer f → IsArmed layer (term_ack_in layer f.state f).fsm
  unfolding term_ack_in
  term_ack_in-IsArmed f h = ground arith

  on_code_reject-IsArmed :
      (f : Fsm L) (bytes : Bytes)
      → IsArmed layer f
      → IsArmed layer (on_code_reject layer f bytes).fsm
  unfolding on_code_reject
  on_code_reject-IsArmed f bytes h = ground arith

  pub input-IsArmed :
      (rand : ℕ → ℕ) (f : Fsm L) (code id : ℕ) (bytes : Bytes) (now : ℕ)
      → IsArmed layer f
      → IsArmed layer (input layer rand f code id bytes now).fsm
  input-IsArmed rand f code id bytes now h =
      input-cases layer (λ t. IsArmed layer t.fsm) rand f code id bytes now h
        (λ _ _. on_request-IsArmed rand f id bytes h) (λ _ _. on_ack-IsArmed f id h)
        (λ _ _. on_nak_or_rej-IsArmed f code id bytes now h) (ground arith)
        (term_ack_in-IsArmed f h) (on_code_reject-IsArmed f bytes h)
        (unfold on_unknown in ground arith)

-- The deadline of a timer, or 0.
abbrev deadline : Option ℕ → ℕ
deadline none = 0
deadline (some d) = d

-- What follows a turn in which the layer goes on.
abbrev follow : {L : Type 0} → Turn L → Turn L → Turn L
follow t later = record later { actions = t.actions ++ later.actions }

module _ {L : Type 0} (layer : Layer L) where
  -- The gateway sends nothing: the timer fires at its deadline, `n` times at most, until the layer
  -- ends.
  pub silence : ℕ → Fsm L → Turn L
  silence zero f = turn layer f [] none
  silence (suc n) f =
      let t = timeout layer f (deadline f.timer) in
      elim t.outcome [ some o ↦ t | none ↦ follow t (silence n t.fsm) ]

  -- The packet that is sent again: a Terminate-Request with the next identifier if the layer is
  -- closing, and else the Configure-Request as it was.
  abbrev pub sent_again : Bool → ℕ → L → Action
  sent_again true id l = send_packet layer.protocol term_req (next_id id) []
  sent_again false id l = send_options layer.protocol conf_req id (encode_all (layer.request l))

  abbrev pub id_behind : Bool → ℕ → ℕ
  id_behind true id = next_id id
  id_behind false id = id

  abbrev pub all_sent_again : ℕ → Bool → ℕ → L → List Action
  all_sent_again zero closes id l = []
  all_sent_again (suc tries) closes id l =
      sent_again closes id l ∷ all_sent_again tries closes (id_behind closes id) l

  -- One firing with tries left sends one packet again and keeps awaiting.
  record Resends (f : Fsm L) (t : Turn L) : Type 0 where
    goes_on : t.outcome ≡ none
    one_packet : t.actions ≡ sent_again (is_closing f.state) f.id f.layer ∷ []
    same_phase : is_closing t.fsm.state ≡ is_closing f.state
    id_follows : t.fsm.id ≡ id_behind (is_closing f.state) f.id
    same_layer : t.fsm.layer ≡ f.layer
    still : awaits t.fsm.state ≡ true
    set_again : is_set t.fsm.timer ≡ true
    one_less : t.fsm.retransmits + 1 ≡ f.retransmits
    same_reason : no_answer_in layer t.fsm.state ≡ no_answer_in layer f.state

  timeout-Resends :
      (f : Fsm L)
      → awaits f.state ≡ true
      → is_set f.timer ≡ true
      → 0 < f.retransmits
      → Resends f (timeout layer f (deadline f.timer))
  unfolding timeout send_packet send_options
  timeout-Resends f a s h = ground arith

  timeout_last :
      (f : Fsm L)
      → is_set f.timer ≡ true
      → f.retransmits ≡ 0
      → timeout layer f (deadline f.timer) ≡ finish layer f [] (no_answer_in layer f.state)
  unfolding timeout
  timeout_last f s h = ground arith

  -- What the gateway's silence leads to.
  pub record IsGivenUp (f : Fsm L) (t : Turn L) : Type 0 where
    pub reported : t.outcome ≡ some (down (no_answer_in layer f.state))
    pub resent : t.actions ≡ all_sent_again f.retransmits (is_closing f.state) f.id f.layer
    pub ended : t.fsm.state ≡ closed
    pub unarmed : t.fsm.timer ≡ none

  silence_step :
      (n : ℕ) (f : Fsm L)
      → (timeout layer f (deadline f.timer)).outcome ≡ none
      → let t = timeout layer f (deadline f.timer) in silence (suc n) f ≡ follow t (silence n t.fsm)
  unfolding silence
  silence_step n f e = rw (e, silence)

  IsGivenUp-follow :
      (f : Fsm L) (t later : Turn L)
      → Resends f t
      → IsGivenUp t.fsm later
      → IsGivenUp f (follow t later)
  IsGivenUp-follow f t later r g = record {
    reported = g.reported ∙ ap (λ x. some (down x)) r.same_reason;
    resent =
        rw (sym r.one_less)
          (rw (add-one, r.one_packet, g.resent, r.same_phase, r.id_follows, r.same_layer) refl);
    ended = g.ended;
    unarmed = g.unarmed;
  }

  silence-IsGivenUp :
      (k : ℕ) (f : Fsm L)
      → f.retransmits ≡ k
      → awaits f.state ≡ true
      → is_set f.timer ≡ true
      → IsGivenUp f (silence (suc k) f)
  silence-IsGivenUp zero f e a s = unfold silence in ground (arith, timeout_last f s e)
  silence-IsGivenUp (suc k) f e a s =
      let t = timeout layer f (deadline f.timer) in
      let r = timeout-Resends f a s (omega arith) in
      rw (silence_step (suc k) f r.goes_on) (
        IsGivenUp-follow f t _ r
          (silence-IsGivenUp k t.fsm (omega (arith, r.one_less)) r.still r.set_again))

  -- A layer that awaits an answer with its timer set, and gets none, sends its Configure-Request
  -- again, the same, as often as it has tries left, or if it is closing so many Terminate-Requests,
  -- each with the next identifier; and then it ends, closed, with its timer off and the reason of
  -- its state: it neither hangs nor gives up early.
  pub silence_ends :
      (f : Fsm L)
      → IsArmed layer f
      → awaits f.state ≡ true
      → IsGivenUp f (silence (f.retransmits + 1) f)
  silence_ends f h a = rw add-one (silence-IsGivenUp f.retransmits f refl a (h.timer_set a))
