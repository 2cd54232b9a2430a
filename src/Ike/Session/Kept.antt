-- ===== src/Ike/Session/Kept.antt =====
-- The number that crates/ikev2/src/session.rs expects next, behind a packet and behind a handler.
use openfortivpn_rs.Ike.Session.Untouched.{open_request-Rests, send_all-framed}
use openfortivpn_rs.Ike.Payload.{encode_delete, decode_delete, Delete, RawPayload}
use openfortivpn_rs.Ike.Packet.{push, Message, Packet}
use openfortivpn_rs.Ike.Cipher.{Primitives}
use openfortivpn_rs.Ike.Session.Requests.{
  response_to, wrapping_last, request_of, wrapping_next, is_ours, drop_or_fail, take_request, fatal,
  resend_to, nothing, Taken, handle_packet, resend,
}
use openfortivpn_rs.Ike.Session.{
  open_request, new_response, encode_message, Down, send_all, NextIke, Session,
}
use openfortivpn_rs.Ike.Header.{informational, Exchange, Header}
use openfortivpn_rs.Ike.Session.Informational.{
  notify_kind, delete_children, confirm, delete_kind, on_delete, notify_body, Answering,
  each_payload, switch_ike, end_or_switch, on_informational, respond, refuse,
}
use openfortivpn_rs.Ike.Result.{
  out_of_fuel, panicked, crypto, malformed, ◌and_then◌, Error, Result, err, ok,
}
use openfortivpn_rs.Prelude.{
  if◌then◌else◌, some, arith, ◌==◌, true, ◌⊎◌, inr, [], is_some, sym, Bytes, ◌∷◌, ◌∙◌, ◌≡◌, refl,
  List, Option, none, is_empty, ap, if_elim, subst, ℕ, inl, not, true, some, none, inr, inl, refl,
  ◌∷◌, [],
}

-- The number that is expected next, and the IKE SA that waits to take over.
abbrev pub IsAt : ℕ → Option NextIke → Session → Type 0
IsAt n waiting self = (self.peer_message_id ≡ n) × (self.next_ike ≡ waiting)

abbrev IsAtStill : Session → Session → Type 0
IsAtStill before after = IsAt before.peer_message_id before.next_ike after

send_all-IsAtStill :
    (self : Session) (datagrams : List Bytes) → IsAtStill self (send_all self datagrams)
send_all-IsAtStill self datagrams =
    subst (IsAtStill self) (sym (send_all-framed self datagrams)) (refl, refl)

open_request-IsAtStill :
    (lib : Primitives) (self : Session) (packet : Packet)
    → IsAtStill self (open_request lib self packet).0
open_request-IsAtStill lib self packet =
    subst (IsAtStill self) (sym (open_request-Rests lib self packet)) (refl, refl)

resend_to-IsAt :
    (n : ℕ) (waiting : Option NextIke) (opened : Session × Result (Option (List RawPayload)))
    (datagrams : List Bytes)
    → IsAt n waiting opened.0
    → IsAt n waiting (resend_to opened datagrams)
resend_to-IsAt n waiting (after, err why) datagrams h = h
resend_to-IsAt n waiting (after, ok found) datagrams h =
    let same = send_all-IsAtStill after datagrams in (same.0 ∙ h.0, same.1 ∙ h.1)

resend-IsAtStill :
    (lib : Primitives) (self : Session) (packet : Packet) (datagrams : Option (List Bytes))
    → IsAtStill self (resend lib self packet datagrams)
unfolding resend
resend-IsAtStill lib self packet none = (refl, refl)
resend-IsAtStill lib self packet (some datagrams) =
    resend_to-IsAt self.peer_message_id self.next_ike (open_request lib self packet) datagrams
      (open_request-IsAtStill lib self packet)

-- A packet lets through the number that is expected, and the next one is from then on; or nothing.
abbrev pub Steps : ℕ → Option NextIke → Session × Taken → Type 0
Steps n waiting (after, nothing) = IsAt n waiting after
Steps n waiting (after, fatal why) = Unit
Steps n waiting (after, request_of header found) =
    (header.message_id ≡ n) × IsAt (wrapping_next n) waiting after

drop_or_fail-Steps :
    (n : ℕ) (waiting : Option NextIke) (after : Session) (e : Error)
    → IsAt n waiting after
    → Steps n waiting (after, drop_or_fail e)
drop_or_fail-Steps n waiting after (malformed why) h = h
drop_or_fail-Steps n waiting after (crypto k) h = h
drop_or_fail-Steps n waiting after panicked h = tt
drop_or_fail-Steps n waiting after out_of_fuel h = tt

take_request-Steps :
    (header : Header) (n : ℕ) (waiting : Option NextIke)
    (opened : Session × Result (Option (List RawPayload)))
    → header.message_id ≡ n
    → IsAt n waiting opened.0
    → Steps n waiting (take_request header opened)
take_request-Steps header n waiting (after, err why) e h = drop_or_fail-Steps n waiting after why h
take_request-Steps header n waiting (after, ok none) e h = h
take_request-Steps header n waiting (after, ok (some found)) e h = (e, (ap wrapping_next h.0, h.1))

pub handle_packet-Steps :
    (lib : Primitives) (self : Session) (packet : Packet)
    → Steps self.peer_message_id self.next_ike (handle_packet lib self packet)
unfolding handle_packet
handle_packet-Steps lib self packet =
    let n = self.peer_message_id in
    let waiting = self.next_ike in
    let id = packet.header.message_id in
    let ignored : Steps n waiting (self, nothing) = (refl, refl) in
    if_elim (Steps n waiting) packet.header.is_response _ _ (λ _. ignored)
      (λ _.
        if_elim (Steps n waiting) (not (is_ours self packet.header)) _ _ (λ _. ignored)
          (λ _.
            if_elim (Steps n waiting) (id == wrapping_last n) _ _
              (λ _. resend-IsAtStill lib self packet (response_to id self.last_response))
              (λ _.
                if_elim (Steps n waiting) (not (id == n)) _ _ (λ _. ignored)
                  (λ same.
                    take_request-Steps packet.header n waiting (open_request lib self packet)
                      (ground (arith, same)) (open_request-IsAtStill lib self packet)))))

-- Whatever a result that is no error is.
abbrev pub Given : {A : Type 0} → (A → Type 0) → Result A → Type 0
Given P (err e) = Unit
Given P (ok a) = P a

and_then-Given :
    {A B : Type 0} (P : A → Type 0) (Q : B → Type 0) (m : Result A) (f : A → Result B)
    → Given P m
    → ((a : A) → P a → Given Q (f a))
    → Given Q (m and_then f)
and_then-Given P Q (err e) f h next = tt
and_then-Given P Q (ok a) f h next = next a h

weaker_result :
    {A : Type 0} (P Q : A → Type 0) (m : Result A) → ((a : A) → P a → Q a) → Given P m → Given Q m
weaker_result P Q (err e) h given = tt
weaker_result P Q (ok a) h given = h a given

any_Given : {A : Type 0} (m : Result A) → Given (λ (a : A). Unit) m
any_Given (err e) = tt
any_Given (ok a) = tt

respond-Given :
    (lib : Primitives) (randoms : ℕ → Bytes) (self : Session) (message : Message)
    → Given (IsAtStill self) (respond lib randoms self message)
unfolding respond
respond-Given lib randoms self message =
    and_then-Given (λ _. Unit) (IsAtStill self) (encode_message lib randoms self message)
      (λ datagrams.
        ok (record (send_all self datagrams) { last_response = some (message.id, datagrams) }))
      (any_Given (encode_message lib randoms self message))
      (λ datagrams _. send_all-IsAtStill self datagrams)

-- A DELETE takes children from the session, and nothing else.
module _ (n : ℕ) (waiting : Option NextIke) where
  abbrev IsAnswering : Answering → Type 0
  IsAnswering state = IsAt n waiting state.0

  confirm-Given :
      (ours : List Bytes) (self : Session) (answer : Message) (ended : Option Down)
      → IsAt n waiting self
      → Given IsAnswering (confirm ours self answer ended)
  confirm-Given ours self answer ended h =
      if_elim {A = Result Answering} (Given IsAnswering) (is_empty ours) _ _ (λ _. h)
        λ _.
          and_then-Given (λ (_ : Bytes). Unit) IsAnswering
            (encode_delete (record { protocol = 3; spis = ours })) _ (any_Given _) (λ body _. h)

  on_delete-Given :
      (delete : Result Delete) (self : Session) (answer : Message) (ended : Option Down)
      → IsAt n waiting self
      → Given IsAnswering (on_delete delete self answer ended)
  on_delete-Given (err why) self answer ended h = h
  on_delete-Given (ok delete) self answer ended h =
      let left = delete_children delete.spis self.children [] in
      if_elim {A = Result Answering} (Given IsAnswering) (delete.protocol == 1) _ _ (λ _. h)
        λ _. confirm-Given left.1 (record self { children = left.0 }) answer ended h

  each_payload-Given :
      (found : List RawPayload) (state : Answering)
      → IsAnswering state
      → Given IsAnswering (each_payload found state)
  unfolding each_payload
  each_payload-Given [] state h = h
  each_payload-Given (payload ∷ others) (self, answer, ended) h =
      and_then-Given IsAnswering IsAnswering
        (if payload.kind == delete_kind
          then on_delete (decode_delete payload.body) self answer ended
          else ok (self, answer, ended))
        (λ state. each_payload others state)
        (if_elim {A = Result Answering} (Given IsAnswering) (payload.kind == delete_kind) _ _
          (λ _. on_delete-Given (decode_delete payload.body) self answer ended h) (λ _. h))
        (λ state kept. each_payload-Given others state kept)

-- A handler leaves the number that is expected, and the IKE SA that waits; or that one took over.
abbrev pub Follows : ℕ → Option NextIke → Session → Type 0
Follows n waiting after = IsAt n waiting after ⊎ ((is_some waiting ≡ true) × IsAt 0 none after)

end_or_switch-Follows :
    (n : ℕ) (self : Session) (ended : Option Down) (waiting : Option NextIke)
    → IsAt n waiting self
    → Follows n waiting (end_or_switch self ended waiting)
unfolding end_or_switch switch_ike
end_or_switch-Follows n self none waiting h = inl h
end_or_switch-Follows n self (some why) none h = inl h
end_or_switch-Follows n self (some why) (some next) h = inr (refl, (refl, refl))

pub on_informational-Given :
    (lib : Primitives) (randoms : ℕ → Bytes) (n : ℕ) (waiting : Option NextIke) (self : Session)
    (id : ℕ) (found : List RawPayload)
    → IsAt n waiting self
    → Given (Follows n waiting) (on_informational lib randoms self id found)
unfolding on_informational
on_informational-Given lib randoms n waiting self id found h =
    and_then-Given (IsAnswering n waiting) (Follows n waiting)
      (each_payload found (self, new_response self informational id, none)) _
      (each_payload-Given n waiting found (self, new_response self informational id, none) h)
      λ state kept.
        and_then-Given (IsAtStill state.0) (Follows n waiting) (respond lib randoms state.0 state.1)
          (λ after. ok (end_or_switch after state.2 after.next_ike))
          (respond-Given lib randoms state.0 state.1)
          λ after same.
            let here : IsAt n waiting after = (same.0 ∙ kept.0, same.1 ∙ kept.1) in
            subst (λ w. Follows n waiting (end_or_switch after state.2 w)) (sym here.1)
              (end_or_switch-Follows n after state.2 waiting here)

pub refuse-Given :
    (lib : Primitives) (randoms : ℕ → Bytes) (n : ℕ) (waiting : Option NextIke) (self : Session)
    (exchange : Exchange) (id kind : ℕ)
    → IsAt n waiting self
    → Given (Follows n waiting) (refuse lib randoms self exchange id kind)
unfolding refuse
refuse-Given lib randoms n waiting self exchange id kind h =
    and_then-Given (λ (_ : Bytes). Unit) (Follows n waiting) (notify_body lib randoms kind)
      (λ body. respond lib randoms self (push (new_response self exchange id) notify_kind body))
      (any_Given (notify_body lib randoms kind))
      λ body _.
        let answer = push (new_response self exchange id) notify_kind body in
        weaker_result (IsAtStill self) (Follows n waiting) (respond lib randoms self answer)
          (λ after same. inl (same.0 ∙ h.0, same.1 ∙ h.1)) (respond-Given lib randoms self answer)
