-- ===== src/Ike/Session/Informational.antt =====
-- crates/ikev2/src/session.rs: `respond`, `refuse`, `on_informational` and `switch_ike`.
use openfortivpn_rs.Ike.Header.{informational, Exchange}
use openfortivpn_rs.Ike.Reassembler.{default}
use openfortivpn_rs.Ike.Packet.{push, Message}
use openfortivpn_rs.Ike.Session.{
  send_all, tunnel_closed, child_deleted, send_datagram, Down, encode_message, NextIke,
  new_response, Session,
}
use openfortivpn_rs.Ike.Payload.{RawPayload, Delete, encode_notify, encode_delete, decode_delete}
use openfortivpn_rs.Ike.Esp.{ChildSa}
use openfortivpn_rs.Ike.Cipher.{Primitives}
use openfortivpn_rs.Ike.Result.{◌and_then◌, Result, err, ok}
use openfortivpn_rs.Prelude.{
  if◌then◌else◌, ◌&&◌, some, [], List, Bytes, ◌==◌, ◌∷◌, none, ◌++◌, ℕ, Option, is_empty, from_be32,
  be32, false, false, some, none, ◌∷◌, [],
}

-- `switch_ike`
unfoldable pub switch_ike : Session → NextIke → Session
switch_ike self next = record self {
  initiator = false;
  spi_i = next.spi_i;
  spi_r = next.spi_r;
  keys = some next.keys;
  message_id = 0;
  peer_message_id = 0;
  last_response = none;
  reassembler = default;
}

abbrev keep_child : ChildSa → Option (ChildSa × List ChildSa) → Option (ChildSa × List ChildSa)
keep_child child none = none
keep_child child (some (found, others)) = some (found, child ∷ others)

-- `self.children.iter().position(..)`, and `self.children.remove(index)`: the child and the others.
abbrev pub remove_child : ℕ → List ChildSa → Option (ChildSa × List ChildSa)
remove_child spi [] = none
remove_child spi (child ∷ others) =
    let later = remove_child spi others in
    if child.spi_out == spi then some (child, others) else keep_child child later

-- `<[u8; 4]>::try_from(spi.as_slice()).map_or(0, u32::from_be_bytes)`
abbrev pub spi_number : Bytes → ℕ
spi_number (a ∷ b ∷ c ∷ d ∷ []) = from_be32 a b c d
spi_number _ = 0

-- The children of a DELETE that are ours, and those that stay.
abbrev pub delete_children : List Bytes → List ChildSa → List Bytes → List ChildSa × List Bytes
delete_children [] children ours = (children, ours)
delete_children (spi ∷ spis) children ours = elim (remove_child (spi_number spi) children) [
  | none ↦ delete_children spis children ours
  | some found ↦ delete_children spis found.1 (ours ++ be32 found.0.spi_in ∷ [])
]

abbrev pub notify_kind : ℕ
notify_kind = 41

abbrev pub delete_kind : ℕ
delete_kind = 42

-- The session, the response and `ended`.
abbrev pub Answering : Type 0
Answering = Session × Message × Option Down

abbrev pub note_end : Session → Option Down → Option Down
note_end self ended = if is_empty self.children && self.up then some child_deleted else ended

abbrev pub confirm : List Bytes → Session → Message → Option Down → Result Answering
confirm ours self answer ended =
    if is_empty ours
    then ok (self, answer, note_end self ended)
    else (encode_delete (record { protocol = 3; spis = ours }) and_then λ body.
        ok (self, push answer delete_kind body, note_end self ended))

abbrev pub on_delete : Result Delete → Session → Message → Option Down → Result Answering
on_delete (err why) self answer ended = ok (self, answer, ended)
on_delete (ok delete) self answer ended =
    if delete.protocol == 1
    then ok (self, answer, some tunnel_closed)
    else (let left = delete_children delete.spis self.children [] in
        confirm left.1 (record self { children = left.0 }) answer ended)

-- The loop over the payloads. Of the others than a DELETE only a line of the log comes.
unfoldable pub each_payload : List RawPayload → Answering → Result Answering
unfolding decode_delete encode_delete push
each_payload [] state = ok state
each_payload (payload ∷ others) (self, answer, ended) =
    (if payload.kind == delete_kind
      then on_delete (decode_delete payload.body) self answer ended
      else ok (self, answer, ended))
    and_then λ state. each_payload others state

-- What `ended` and the IKE SA that waits to take over come to.
unfoldable pub end_or_switch : Session → Option Down → Option NextIke → Session
unfolding switch_ike
end_or_switch self (some why) (some next) = switch_ike (record self { next_ike = none }) next
end_or_switch self (some why) none = record self { down = some why }
end_or_switch self none next = self

module _ (lib : Primitives) (randoms : ℕ → Bytes) where
  -- `Session::respond`
  unfoldable pub respond : Session → Message → Result Session
  unfolding encode_message send_datagram
  respond self message = encode_message lib randoms self message and_then λ datagrams.
      ok (record (send_all self datagrams) { last_response = some (message.id, datagrams) })

  -- `Session::on_informational`; when it fails the session ends, and what it did before is left out.
  unfoldable pub on_informational : Session → ℕ → List RawPayload → Result Session
  unfolding new_response each_payload end_or_switch respond
  on_informational self id found =
      each_payload found (self, new_response self informational id, none) and_then λ state.
      respond state.0 state.1 and_then λ after. ok (end_or_switch after state.2 after.next_ike)

  -- `Notify::new` and `Notify::encode`
  abbrev pub notify_body : ℕ → Result Bytes
  notify_body kind = encode_notify (record { protocol = 0; spi = []; kind = kind; body = [] })

  -- `Session::refuse`, and the answer to an exchange that is not expected.
  unfoldable pub refuse : Session → Exchange → ℕ → ℕ → Result Session
  unfolding new_response respond encode_notify push
  refuse self exchange id kind = notify_body kind and_then λ body.
      respond self (push (new_response self exchange id) notify_kind body)
