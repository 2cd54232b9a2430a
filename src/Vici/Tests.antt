-- ===== src/Vici/Tests.antt =====
-- A message of vici, a packet, and a command answered behind an event, in pieces.
use openfortivpn_rs.Vici.Packet.RoundTrip.{decode_packet-encode_packet}
use openfortivpn_rs.Vici.Codec.Bounds.{height-decode_section, height-decode_section}
use openfortivpn_rs.Vici.Client.Exchange.{exchange-frames, Answered}
use openfortivpn_rs.Vici.Codec.Total.{decode_section-ne-out_of_fuel}
use openfortivpn_rs.Vici.Codec.RoundTrip.{
  decode_section-encode_section, decode_section-encode_section,
}
use openfortivpn_rs.Vici.Codec.Wire.{encode_section_iff, wire, IsSized}
use openfortivpn_rs.Vici.Result.{nested_list, out_of_fuel, malformed}
use openfortivpn_rs.Vici.Codec.Elements.{height}
use openfortivpn_rs.Vici.Client.Framing.{IsBody}
use openfortivpn_rs.Vici.Codec.{message_size_max, decode_section, encode_section}
use openfortivpn_rs.Text.{after_byte, is_taken, from_utf8_lossy, lead, turn}
use openfortivpn_rs.Vici.Message.{
  push_back, list_item, key_value, section_item, item_then, any_name, nothing, get_list, Section,
}
use openfortivpn_rs.Vici.Client.{chunk, exchange, Client, Event}
use openfortivpn_rs.Vici.Packet.{
  cmd_response, event, cmd_request, Packet, decode_packet, encode_packet,
}
use openfortivpn_rs.Prelude.{
  length, refl, arith, false, failed, ◌↔◌, ◌≢◌, ◌++◌, be32, some, [], ◌≤◌, done, ◌∷◌, Bytes, ◌≡◌,
  true, false, true, some, refl, ◌∷◌, [],
}

-- A section "s" with a value and a list of two.
abbrev sample : Section
sample =
    item_then
      (section_item (115 ∷ []) (
        item_then (key_value (107 ∷ []) (1 ∷ 2 ∷ []))
          (item_then (list_item (108 ∷ []) ((3 ∷ []) ∷ [] ∷ [])) nothing)))
      nothing

abbrev sample_bytes : Bytes
sample_bytes =
    1 ∷ 1 ∷ 115 ∷ 3 ∷ 1 ∷ 107 ∷ 0 ∷ 2 ∷ 1 ∷ 2 ∷ 4 ∷ 1 ∷ 108 ∷ 5 ∷ 0 ∷ 1 ∷ 3 ∷ 5 ∷ 0 ∷ 0 ∷ 6 ∷ 2 ∷ []

sample_encoded : encode_section sample ≡ done sample_bytes
unfolding encode_section
sample_encoded = refl

decode_section-encode_section_example : decode_section sample_bytes ≡ done sample
unfolding is_taken after_byte
decode_section-encode_section_example =
    decode_section-encode_section sample sample_bytes ((refl, (refl, (refl, tt))), tt) (omega arith)
      sample_encoded

encode_section_iff_example :
    (encode_section sample ≡ done sample_bytes)
    ↔ (IsSized sample × (sample_bytes ≡ wire sample) × (length sample_bytes ≤ message_size_max))
encode_section_iff_example = encode_section_iff sample sample_bytes

height-decode_section_example : height sample ≤ 64
height-decode_section_example =
    height-decode_section sample_bytes sample decode_section-encode_section_example

decode_section-ne-out_of_fuel_example :
    decode_section (4 ∷ 1 ∷ 108 ∷ 5 ∷ 0 ∷ []) ≢ failed out_of_fuel
decode_section-ne-out_of_fuel_example = decode_section-ne-out_of_fuel (4 ∷ 1 ∷ 108 ∷ 5 ∷ 0 ∷ [])

nested_lists : decode_section (4 ∷ 1 ∷ 108 ∷ 4 ∷ 1 ∷ 109 ∷ []) ≡ failed (malformed nested_list)
unfolding decode_section lead
nested_lists = refl

-- An invalid byte in a name becomes U+FFFD.
lossy_name : from_utf8_lossy (97 ∷ 255 ∷ 98 ∷ []) ≡ 97 ∷ 239 ∷ 191 ∷ 189 ∷ 98 ∷ []
unfolding turn
lossy_name = refl

looked_up : get_list sample ((115 ∷ []) ∷ any_name ∷ []) ≡ some ((3 ∷ []) ∷ [] ∷ [])
unfolding get_list
looked_up = refl

abbrev command : Packet
command = cmd_request (118 ∷ []) nothing

abbrev command_bytes : Bytes
command_bytes = 0 ∷ 0 ∷ 0 ∷ 3 ∷ 0 ∷ 1 ∷ 118 ∷ []

command_encoded : encode_packet command ≡ done command_bytes
unfolding encode_packet
command_encoded = refl

decode_packet-encode_packet_example :
    (body : Bytes) × (command_bytes ≡ be32 (length body) ++ body)
    × (1 ≤ length body)
    × (length body ≤ message_size_max)
    × (decode_packet body ≡ done command)
unfolding is_taken after_byte
decode_packet-encode_packet_example =
    decode_packet-encode_packet command command_bytes (refl, (tt, omega arith)) command_encoded

abbrev event_body : Bytes
event_body = 7 ∷ 1 ∷ 101 ∷ []

abbrev answer_body : Bytes
answer_body = 1 ∷ 3 ∷ 1 ∷ 107 ∷ 0 ∷ 1 ∷ 9 ∷ []

abbrev answer : Section
answer = item_then (key_value (107 ∷ []) (9 ∷ [])) nothing

abbrev raised : Event
raised = record { name = 101 ∷ []; message = nothing }

-- The event's packet is cut after its second byte, and a byte of a later packet follows the answer.
abbrev connected : Client
connected = record {
  stream = record {
    incoming =
        chunk (0 ∷ 3 ∷ 7 ∷ 1 ∷ 101 ∷ 0 ∷ 0 ∷ [])
        ∷ chunk (0 ∷ 7 ∷ 1 ∷ 3 ∷ 1 ∷ 107 ∷ 0 ∷ 1 ∷ 9 ∷ 5 ∷ [])
        ∷ [];
    written = [];
    writable = true;
  };
  buf = 0 ∷ 0 ∷ [];
  pending = [];
  poisoned = false;
}

event_IsBody : IsBody event_body (event (101 ∷ []) nothing)
unfolding decode_packet lead push_back turn
event_IsBody = record { nonempty = omega arith; within = omega arith; decoded = refl }

answer_IsBody : IsBody answer_body (cmd_response answer)
unfolding decode_packet lead push_back turn
answer_IsBody = record { nonempty = omega arith; within = omega arith; decoded = refl }

exchange-frames_example :
    let turn = exchange false connected (118 ∷ []) nothing in
    Answered false connected turn.0 command_bytes (5 ∷ []) (raised ∷ []) turn.1.0 answer turn.1.1
exchange-frames_example =
    exchange-frames false connected (118 ∷ []) nothing command_bytes ((event_body, raised) ∷ [])
      answer_body (5 ∷ []) answer refl refl command_encoded (omega arith, (omega arith, tt))
      (event_IsBody, tt) answer_IsBody refl
