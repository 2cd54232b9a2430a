-- ===== src/Vici/Packet/RoundTrip.antt =====
-- Packets of vici, encoded and decoded.
use openfortivpn_rs.Vici.Result.{message_size}
use openfortivpn_rs.Vici.Codec.RoundTrip.{
  decode_section-encode_section, decode_section-encode_section,
}
use openfortivpn_rs.Vici.Codec.Wire.{wire_name, put_name-IsName, done_injective, followed}
use openfortivpn_rs.Vici.Codec.{encode_section, put_name, message_size_max}
use openfortivpn_rs.Vici.Codec.Elements.{read_name-wire_name, IsText, height, IsTextSection}
use openfortivpn_rs.Vici.Message.{Section}
use openfortivpn_rs.Vici.Packet.{
  event_unknown, event_confirm, cmd_unknown, event, event_unregister, event_register, named_message,
  cmd_response, body_of, with_message, named, cmd_request, decode_packet, encode_packet, with_name,
  Packet,
}
use openfortivpn_rs.Prelude.{
  if◌then◌else◌, ltb, failed, arith, length, ◌followed_by◌, Bytes, sym, ◌++◌, append-nil, ◌∙◌, be32,
  [], refl, ◌≤◌, ℕ, ◌∷◌, ap, ◌≡◌, done, refl, ◌∷◌, [],
}

-- A message as it may be sent: its names are text, and it is nested no deeper than is accepted.
abbrev IsMessage : Section → Type 0
IsMessage message = IsTextSection message × (height message ≤ 64)

abbrev pub IsPacket : Packet → Type 0
IsPacket (cmd_request name message) = IsText name × IsMessage message
IsPacket (cmd_response message) = IsMessage message
IsPacket cmd_unknown = Unit
IsPacket (event_register name) = IsText name
IsPacket (event_unregister name) = IsText name
IsPacket event_confirm = Unit
IsPacket event_unknown = Unit
IsPacket (event name message) = IsText name × IsMessage message

named_message-with_message :
    (kind : ℕ) (packet : Bytes → Section → Packet) (name : Bytes) (message : Section) (body : Bytes)
    → IsText name
    → IsMessage message
    → with_name kind name followed_by (λ out. with_message out message) ≡ done body
    → (r : Bytes) × (body ≡ kind ∷ r) × (named_message packet r ≡ done (packet name message))
unfolding with_name with_message named_message
named_message-with_message kind packet name message body t m h =
    let s =
      followed (put_name (kind ∷ []) name)
        (λ out. encode_section message followed_by λ bytes. done (out ++ bytes)) body h in
    let n = put_name-IsName (kind ∷ []) name s.0 s.1 in
    let e = followed (encode_section message) (λ bytes. done (s.0 ++ bytes)) body s.2 in
    (
      wire_name name ++ e.0,
      sym (done_injective _ _ e.2) ∙ rw n.1 refl,
      rw (read_name-wire_name name e.0 t, decode_section-encode_section message e.0 m.0 m.1 e.1)
          refl,
    )

named-with_name :
    (kind : ℕ) (packet : Bytes → Packet) (name body : Bytes)
    → IsText name
    → with_name kind name ≡ done body
    → (r : Bytes) × (body ≡ kind ∷ r) × (named packet r ≡ done (packet name))
unfolding with_name named
named-with_name kind packet name body t h =
    let n = put_name-IsName (kind ∷ []) name body h in
    (
      wire_name name ++ [],
      n.1 ∙ ap (λ rest. kind ∷ rest) (sym (append-nil (wire_name name))),
      rw (read_name-wire_name name [] t) refl,
    )

decode_packet-body_of :
    (self : Packet) (body : Bytes)
    → IsPacket self
    → body_of self ≡ done body
    → decode_packet body ≡ done self
unfolding decode_packet body_of
decode_packet-body_of (cmd_request name message) body p h =
    let d = named_message-with_message 0 cmd_request name message body p.0 p.1 h in
    ap decode_packet d.1 ∙ d.2
decode_packet-body_of (cmd_response message) body p h =
    let e = followed (encode_section message) (λ bytes. done (1 ∷ bytes)) body h in
    ap decode_packet (sym (done_injective _ _ e.2))
    ∙ rw (decode_section-encode_section message e.0 p.0 p.1 e.1) refl
decode_packet-body_of cmd_unknown body p h = ap decode_packet (sym (done_injective _ _ h))
decode_packet-body_of (event_register name) body p h =
    let d = named-with_name 3 event_register name body p h in ap decode_packet d.1 ∙ d.2
decode_packet-body_of (event_unregister name) body p h =
    let d = named-with_name 4 event_unregister name body p h in ap decode_packet d.1 ∙ d.2
decode_packet-body_of event_confirm body p h = ap decode_packet (sym (done_injective _ _ h))
decode_packet-body_of event_unknown body p h = ap decode_packet (sym (done_injective _ _ h))
decode_packet-body_of (event name message) body p h =
    let d = named_message-with_message 7 event name message body p.0 p.1 h in
    ap decode_packet d.1 ∙ d.2

decoded_nonempty : (body : Bytes) (self : Packet) → decode_packet body ≡ done self → 1 ≤ length body
unfolding decode_packet
decoded_nonempty [] self h = ground (arith, h)
decoded_nonempty (kind ∷ r) self h = omega arith

-- A packet whose names are UTF-8 and whose message is nested 64 deep at most is encoded, if it is,
-- to the length of its body in four bytes and that body, which is within the limit and is decoded to the
-- packet.
pub decode_packet-encode_packet :
    (self : Packet) (bytes : Bytes)
    → IsPacket self
    → encode_packet self ≡ done bytes
    → (body : Bytes) × (bytes ≡ be32 (length body) ++ body)
      × (1 ≤ length body)
      × (length body ≤ message_size_max)
      × (decode_packet body ≡ done self)
unfolding encode_packet
decode_packet-encode_packet self bytes p h =
    let s =
      followed (body_of self)
        (λ body.
          if ltb message_size_max (length body)
          then failed (message_size (length body))
          else done (be32 (length body) ++ body))
        bytes h in
    let d = decode_packet-body_of self s.0 p s.1 in
    (s.0, ground (arith, s.2), decoded_nonempty s.0 self d, ground (arith, s.2), d)
