-- ===== src/Vici/Client.antt =====
-- crates/vici/src/client.rs: the client. The socket is the list of the reads that are to come, with
-- what has been written; a method that takes `&mut self` gives the client after it and its result.
pub mod Framing
pub mod Exchange
use openfortivpn_rs.Vici.Codec.{message_size_max}
use openfortivpn_rs.Vici.Result.{
  unknown_command, unexpected_packet, unknown_event, message_size, io, poisoned, closed,
  out_of_fuel, Result,
}
use openfortivpn_rs.Vici.Message.{Section}
use openfortivpn_rs.Vici.Packet.{
  event_unknown, cmd_unknown, event_confirm, encode_packet, event_register, event_unregister,
  cmd_response, cmd_request, event, Packet, decode_packet,
}
use openfortivpn_rs.Prelude.{
  false, true, false, true, take, length, if◌then◌else◌, ℕ, get_or, some, failed, ◌∷◌, none, done,
  [], ◌++◌, ◌followed_by◌, ◌||◌, Bool, List, zero, from_be32, drop, Bytes, ltb, ◌==◌, ◌+◌, is_empty,
  Option, suc, some, none, suc, zero, ◌∷◌, [],
}

pub record Event : Type 0 where
  pub name : Bytes
  pub message : Section

-- What `read_buf` gives: bytes, where none mean the end of the stream, or an error.
pub data Read : Type 0 where
  chunk : Bytes → Read
  broken : Read

pub record Socket : Type 0 where
  pub incoming : List Read
  pub written : Bytes
  pub writable : Bool

pub record Client : Type 0 where
  pub stream : Socket
  pub buf : Bytes
  pub pending : List Event
  pub poisoned : Bool

unfoldable pub check : Client → Result (Unit {0})
check self = if self.poisoned then failed poisoned else done tt

abbrev pub prefix_of : Bytes → ℕ
prefix_of buf = from_be32 (get_or buf 0 0) (get_or buf 1 0) (get_or buf 2 0) (get_or buf 3 0)

-- `Client::parse_buffered`: a packet with the bytes behind it, if it is complete; `len` is what the
-- prefix announces.
unfoldable pub parse_with : Bytes → ℕ → Result (Option (Packet × Bytes))
unfolding decode_packet
parse_with buf len =
    if (len == 0) || ltb message_size_max len
    then failed (message_size len)
    else if ltb (length buf) (4 + len)
    then done none
    else (decode_packet (take len (drop 4 buf)) followed_by λ packet.
        done (some (packet, drop (4 + len) buf)))

unfoldable pub parse_buffered : Bytes → Result (Option (Packet × Bytes))
unfolding parse_with
parse_buffered buf = if ltb (length buf) 4 then done none else parse_with buf (prefix_of buf)

-- What a read of a packet leaves: the buffer and the reads to come.
abbrev pub Left : Type 0
Left = Bytes × List Read

-- With what has been parsed, and what a further read would do.
abbrev pub received :
    Bytes
    → List Read
    → Result (Option (Packet × Bytes))
    → Left × Result Packet
    → Left × Result Packet
received buf reads (failed why) further = ((buf, reads), failed why)
received buf reads (done (some found)) further = ((found.1, reads), done found.0)
received buf reads (done none) further = further

-- `Client::read_packet`
unfoldable pub read_packet : List Read → Bytes → Left × Result Packet
unfolding parse_buffered
read_packet [] buf = received buf [] (parse_buffered buf) ((buf, []), failed closed)
read_packet (broken ∷ reads) buf =
    received buf (broken ∷ reads) (parse_buffered buf) ((buf, reads), failed io)
read_packet (chunk bytes ∷ reads) buf =
    let further = read_packet reads (buf ++ bytes) in
    received buf (chunk bytes ∷ reads) (parse_buffered buf)
      (if is_empty bytes then ((buf, reads), failed closed) else further)

-- The events that arrived, in order, what is left, and the answer.
pub record Awaited {ℓ} (A : Type ℓ) : Type ℓ where
  pub events : List Event
  pub left : Left
  pub answer : Result A

abbrev pub answered {ℓ} : {A : Type ℓ} → List Event → Left → Result A → Awaited A
answered events left answer = record { events = events; left = left; answer = answer }

abbrev pub event_in : Packet → Option Event
event_in (event name message) = some (record { name = name; message = message })
event_in other = none

-- One turn of the loops of `exchange` and `subscribe`: an event is kept and the loop goes on `again`,
-- any other packet ends it.
abbrev pub go_on :
    {A : Type 0}
    → (Packet → Result A)
    → List Event
    → Left × Result Packet
    → (List Event → Left → Awaited A)
    → Awaited A
go_on ends events (after, failed why) again = answered events after (failed why)
go_on ends events (after, done packet) again = elim (event_in packet) [
  | none ↦ answered events after (ends packet)
  | some one ↦ again (events ++ one ∷ []) after
]

unfoldable pub await_answer : {A : Type 0} → (Packet → Result A) → ℕ → List Event → Left → Awaited A
unfolding read_packet
await_answer ends zero events left = answered events left (failed out_of_fuel)
await_answer ends (suc fuel) events left =
    go_on ends events (read_packet left.1 left.0) (λ more after. await_answer ends fuel more after)

-- The bytes that are still to be parsed.
abbrev pub expected : List Read → Bytes
expected [] = []
expected (broken ∷ reads) = []
expected (chunk bytes ∷ reads) = bytes ++ expected reads

-- A packet takes five bytes at least, so this is enough fuel.
abbrev pub enough : Client → ℕ
enough self = suc (length self.buf + length (expected self.stream.incoming))

-- `write_all`: the stream may hold a part of the packet from then on.
abbrev pub write : Client → Bytes → Client
write self bytes = record self {
  poisoned = true;
  stream = record self.stream { written = self.stream.written ++ bytes };
}

-- Behind the loop the client is no longer poisoned; events went to `pending`, or to the callback.
abbrev resumed {ℓ} : {A : Type ℓ} → Bool → Client → Awaited A → Client × (List Event × Result A)
resumed callback self awaited = (
  record self {
    stream = record self.stream { incoming = awaited.left.1 };
    buf = awaited.left.0;
    pending = if callback then self.pending else self.pending ++ awaited.events;
    poisoned = false;
  },
  (if callback then awaited.events else [], awaited.answer),
)

abbrev send_with :
    {A : Type 0}
    → (Packet → Result A)
    → Bool
    → Client
    → Result Bytes
    → Client × (List Event × Result A)
send_with ends callback self (failed why) = (self, ([], failed why))
send_with ends callback self (done bytes) =
    if self.stream.writable
    then resumed callback (write self bytes)
        (await_answer ends (enough self) [] (self.buf, self.stream.incoming))
    else (record self { poisoned = true }, ([], failed io))

-- What `exchange` and `subscribe` share: the packet goes out, and its answer is awaited.
unfoldable pub send_packet :
    {A : Type 0} → (Packet → Result A) → Bool → Client → Packet → Client × (List Event × Result A)
unfolding await_answer check encode_packet
send_packet ends callback self packet =
    send_with ends callback self (check self followed_by λ _. encode_packet packet)

abbrev pub response_to : Bytes → Packet → Result Section
response_to command (cmd_response response) = done response
response_to command cmd_unknown = failed (unknown_command command)
response_to command other = failed unexpected_packet

abbrev pub confirmation_of : Bytes → Packet → Result (Unit {0})
confirmation_of name event_confirm = done tt
confirmation_of name event_unknown = failed (unknown_event name)
confirmation_of name other = failed unexpected_packet

-- `Client::exchange`; `callback` tells whether events are handed to one, and those that are, are given.
unfoldable pub exchange : Bool → Client → Bytes → Section → Client × (List Event × Result Section)
unfolding send_packet
exchange callback self command message =
    send_packet (response_to command) callback self (cmd_request command message)

-- `Client::register` and `Client::unregister`
unfoldable pub register : Client → Bytes → Client × (List Event × Result (Unit {0}))
unfolding send_packet
register self name = send_packet (confirmation_of name) false self (event_register name)

unfoldable pub unregister : Client → Bytes → Client × (List Event × Result (Unit {0}))
unfolding send_packet
unregister self name = send_packet (confirmation_of name) false self (event_unregister name)

abbrev as_event : Result Packet → Result Event
as_event (failed why) = failed why
as_event (done (event name message)) = done (record { name = name; message = message })
as_event (done other) = failed unexpected_packet

-- `Client::next_event`
abbrev event_of : Client → List Event → Client × Result Event
event_of self (first ∷ others) = (record self { pending = others }, done first)
event_of self [] =
    let (left, found) = read_packet self.stream.incoming self.buf in
    (
      record self { stream = record self.stream { incoming = left.1 }; buf = left.0 },
      as_event found,
    )

unfoldable pub next_event : Client → Client × Result Event
unfolding read_packet
next_event self = if self.poisoned then (self, failed poisoned) else event_of self self.pending
