-- ===== src/Vici/Client/Exchange.antt =====
-- A command and its answer, with the events that arrive before it.
use openfortivpn_rs.Vici.Message.{Section}
use openfortivpn_rs.Vici.Result.{Result}
use openfortivpn_rs.Vici.Client.Framing.{read_packet-frame, IsChunk, frame, IsBody}
use openfortivpn_rs.Vici.Packet.{cmd_response, cmd_request, encode_packet, event, Packet}
use openfortivpn_rs.Vici.Client.{
  go_on, write, resumed, enough, response_to, answered, expected, event_in, read_packet, check,
  Left, await_answer, send_packet, Client, exchange, Event,
}
use openfortivpn_rs.Prelude.{
  subst, if◌then◌else◌, length, refl, sym, ap, arith, false, true, ◌≡◌, ◌∙◌, none, ◌<◌, List, done,
  Bytes, append-nil, ◌∷◌, zero, append_assoc, [], suc, ◌++◌, length-append, ◌≤◌, All, Bool, ℕ,
  false, true, none, refl, suc, zero, ◌∷◌, [],
}

-- The events that arrive, each with the body of its packet.
abbrev pub AreEvents : List (Bytes × Event) → Type 0
AreEvents [] = Unit
AreEvents (one ∷ others) = IsBody one.0 (event one.1.name one.1.message) × AreEvents others

abbrev pub frames : List (Bytes × Event) → Bytes
frames [] = []
frames (one ∷ others) = frame one.0 ++ frames others

abbrev pub events_of : List (Bytes × Event) → List Event
events_of [] = []
events_of (one ∷ others) = one.1 ∷ events_of others

below_zero : (n : ℕ) → n < 0 → ⊥
below_zero n h = omega (arith, h)

module _ {A : Type 0} (ends : Packet → Result A) where
  await_event :
      (fuel : ℕ) (before : List Event) (left after : Left) (one : Event)
      → read_packet left.1 left.0 ≡ (after, done (event one.name one.message))
      → await_answer ends (suc fuel) before left ≡ await_answer ends fuel (before ++ one ∷ []) after
  unfolding await_answer
  await_event fuel before left after one e =
      ap (λ t. go_on ends before t (λ more then_left. await_answer ends fuel more then_left)) e

  await_end :
      (fuel : ℕ) (before : List Event) (left after : Left) (packet : Packet)
      → event_in packet ≡ none
      → read_packet left.1 left.0 ≡ (after, done packet)
      → await_answer ends (suc fuel) before left ≡ answered before after (ends packet)
  unfolding await_answer
  await_end fuel before left after packet n e =
      ap (λ t. go_on ends before t (λ more then_left. await_answer ends fuel more then_left)) e
      ∙ rw (go_on, n) refl

  await_answer-frames :
      (arriving : List (Bytes × Event)) (fuel : ℕ) (before : List Event) (left : Left)
      (body tail : Bytes) (packet : Packet)
      → All IsChunk left.1
      → AreEvents arriving
      → IsBody body packet
      → event_in packet ≡ none
      → length arriving < fuel
      → left.0 ++ expected left.1 ≡ frames arriving ++ (frame body ++ tail)
      → (after : Left) × (await_answer ends fuel before left
          ≡ answered (before ++ events_of arriving) after (ends packet))
        × (after.0 ++ expected after.1 ≡ tail)
        × All IsChunk after.1
  await_answer-frames arriving zero before left body tail packet c a good n f e =
      elim (below_zero (length arriving) f) [ ]
  await_answer-frames [] (suc fuel) before left body tail packet c a good n f e =
      let r = read_packet-frame left.1 left.0 body tail packet c good e in
      (
        r.0,
        await_end fuel before left r.0 packet n r.1
            ∙ ap (λ all. answered all r.0 (ends packet)) (sym (append-nil before)),
        r.2,
        r.3,
      )
  await_answer-frames (one ∷ others) (suc fuel) before left body tail packet c a good n f e =
      let rest = frames others ++ (frame body ++ tail) in
      let r =
        read_packet-frame left.1 left.0 one.0 rest (event one.1.name one.1.message) c a.0
          (e ∙ append_assoc (frame one.0) (frames others) (frame body ++ tail)) in
      let later =
        await_answer-frames others fuel (before ++ one.1 ∷ []) r.0 body tail packet r.3 a.1 good n
          (omega (arith, f)) r.2 in
      (
        later.0,
        await_event fuel before left r.0 one.1 r.1
            ∙ later.1
            ∙ ap (λ all. answered all later.0 (ends packet))
                (append_assoc before (one.1 ∷ []) (events_of others)),
        later.2,
        later.3,
      )

frames_long : (arriving : List (Bytes × Event)) → length arriving ≤ length (frames arriving)
frames_long [] = omega arith
frames_long (one ∷ others) =
    omega (arith, frames_long others, length-append (frame one.0) (frames others))

-- What a command comes to when its answer arrives.
pub record Answered (callback : Bool) (self after : Client) (bytes tail : Bytes)
    (events seen : List Event) (response : Section) (result : Result Section) : Type 0 where
  pub given : result ≡ done response
  pub handed : seen ≡ (if callback then events else [])
  pub kept : after.pending ≡ (if callback then self.pending else self.pending ++ events)
  pub usable : after.poisoned ≡ false
  pub sent : after.stream.written ≡ self.stream.written ++ bytes
  pub behind : after.buf ++ expected after.stream.incoming ≡ tail

-- A usable client whose command is encoded and written, and whose stream brings, in pieces of any
-- sizes, the packets of any events, the response, and anything after it, gives that response, hands
-- the events in order to the callback if there is one and keeps them in order otherwise, is usable
-- again, and leaves what came after the response for the next call.
pub exchange-frames :
    (callback : Bool) (self : Client) (command : Bytes) (message : Section) (bytes : Bytes)
    (arriving : List (Bytes × Event)) (body tail : Bytes) (response : Section)
    → self.poisoned ≡ false
    → self.stream.writable ≡ true
    → encode_packet (cmd_request command message) ≡ done bytes
    → All IsChunk self.stream.incoming
    → AreEvents arriving
    → IsBody body (cmd_response response)
    → self.buf ++ expected self.stream.incoming ≡ frames arriving ++ (frame body ++ tail)
    → let turn = exchange callback self command message in
      Answered callback self turn.0 bytes tail (events_of arriving) turn.1.0 response turn.1.1
unfolding exchange send_packet check
exchange-frames callback self command message bytes arriving body tail response p w b c a good e =
    let sizes = ap length e in
    let r =
      await_answer-frames (response_to command) arriving (enough self) []
        (self.buf, self.stream.incoming) body tail (cmd_response response) c a good refl
        (omega (
          arith,
          sizes,
          length-append self.buf (expected self.stream.incoming),
          length-append (frames arriving) (frame body ++ tail),
          frames_long arriving,
        ))
        e in
    let turn : exchange callback self command message
        ≡ resumed callback (write self bytes) (answered (events_of arriving) r.0 (done response)) =
      rw (p, b, w, r.1) refl in
    subst (λ t. Answered callback self t.0 bytes tail (events_of arriving) t.1.0 response t.1.1)
      (sym turn)
      (record {
        given = refl;
        handed = refl;
        kept = refl;
        usable = refl;
        sent = refl;
        behind = r.2;
      })
