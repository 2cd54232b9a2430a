-- ===== src/Ike/Eap.antt =====
-- crates/ikev2/src/eap.rs: the EAP peer. MD5 and the functions of crypto/mschapv2.rs are a record of
-- functions; the challenge that `OsRng` fills is an argument.
pub mod Proof
mod Tests
use openfortivpn_rs.Text.{same_text, from_utf8_lossy}
use openfortivpn_rs.Prelude.{
  length, Outcome, take, if◌then◌else◌, ◌∷◌, ◌&&◌, ◌-◌, ◌^◌, ◌==◌, some, from_be16, Option, drop,
  done, max, is_some, zeros, ltb, ◌++◌, Bytes, be16, leb, Bool, ◌+◌, false, ℕ, ◌||◌, [], get_or,
  failed, none, not, true, false, true, some, none, ◌∷◌, [],
}

-- crates/ikev2/src/config.rs: `Auth`
pub data Auth : Type 0 where
  psk pubkey eap_mschapv2 eap_md5 eap_gtc : Auth

-- MD5, and NT-Response, authenticator response and master session key of MSCHAPv2: of the user name, the
-- password, and what else the functions take, in their order.
pub record Digests : Type 0 where
  pub md5_of : Bytes → Bytes
  pub nt_response : Bytes → Bytes → Bytes → Bytes → Bytes
  pub authenticator_response : Bytes → Bytes → Bytes → Bytes → Bytes → Bytes
  pub master_session_key : Bytes → Bytes → Bytes

-- The texts of the errors, of `Error::Malformed` and then of `Error::Authentication`; the message of a
-- failure of MSCHAPv2 is left as it is.
pub data Refusal : Type 0 where
  packet_too_short bad_length request_without_type unexpected_code : Refusal
  md5_empty_challenge md5_short_challenge : Refusal
  ms_too_short ms_bad_length ms_empty_challenge ms_short_challenge ms_not_sixteen : Refusal
  ms_success_before_challenge : Refusal
  ms_unexpected_opcode : ℕ → Refusal
  success_before_proof rejected_by_gateway proof_mismatch : Refusal
  unsupported_method : ℕ → Refusal
  ms_failed : Bytes → Refusal
  reply_too_long : Refusal

pub data Step : Type 0 where
  reply : Bytes → Step
  success : Option Bytes → Step

-- `struct Mschapv2`
pub record Conversation : Type 0 where
  pub authenticator_challenge : Bytes
  pub peer_challenge : Bytes
  pub response : Bytes

pub record Peer : Type 0 where
  pub method : Option Auth
  pub username : Bytes
  pub password : Bytes
  pub mschapv2 : Option Conversation
  pub msk : Option Bytes

-- `Peer::new`
abbrev pub new_peer : Option Auth → Bytes → Bytes → Peer
new_peer method username password = record {
  method = method;
  username = username;
  password = password;
  mschapv2 = none;
  msk = none;
}

abbrev pub same_auth : Auth → Auth → Bool
same_auth psk psk = true
same_auth pubkey pubkey = true
same_auth eap_mschapv2 eap_mschapv2 = true
same_auth eap_md5 eap_md5 = true
same_auth eap_gtc eap_gtc = true
same_auth _ _ = false

abbrev method_is : Option Auth → Auth → Bool
method_is none method = false
method_is (some ours) method = same_auth ours method

-- `Peer::accepts`
unfoldable pub accepts : Peer → Auth → Bool
accepts self method = not (is_some self.method) || method_is self.method method

-- `Peer::method_type`
abbrev type_of : Option Auth → ℕ
type_of (some eap_gtc) = 6
type_of (some eap_md5) = 4
type_of _ = 26

unfoldable pub method_type : Peer → ℕ
method_type self = type_of self.method

-- `Peer::packet`, with a type; a length that does not fit panics.
unfoldable pub eap_packet : ℕ → ℕ → ℕ → Bytes → Outcome Refusal Step
eap_packet code id kind body =
    let length = 4 + 1 + length body in
    if ltb length (2 ^ 16)
    then done (reply (code ∷ id ∷ (be16 length ++ kind ∷ body)))
    else failed reply_too_long

-- A method gives the peer after it and its result.
abbrev pub Turn : Type 0
Turn = Peer × Outcome Refusal Step

abbrev pub answer_with : Peer → ℕ → ℕ → Bytes → Turn
answer_with self id kind body = (self, eap_packet 2 id kind body)

-- The response to a challenge of MSCHAPv2: its size, the challenge, eight zeros, the response, flags,
-- and the name.
abbrev ms_response : Peer → Conversation → Bytes
ms_response self state =
    49 ∷ (state.peer_challenge ++ (zeros 8 ++ (state.response ++ 0 ∷ self.username)))

abbrev pub challenge_answer : Peer → Conversation → ℕ → Bytes
challenge_answer self state ms_id =
    let response = ms_response self state in 2 ∷ ms_id ∷ (be16 (4 + length response) ++ response)

-- `MSCHAPV2_CHALLENGE`; the bytes behind the size of the challenge.
unfoldable pub on_challenge : Digests → Bytes → Peer → ℕ → ℕ → Bytes → Turn
unfolding eap_packet
on_challenge lib random self id ms_id [] = (self, failed ms_empty_challenge)
on_challenge lib random self id ms_id (size ∷ rest) =
    let challenge = take size rest in
    let state : Conversation = record {
      authenticator_challenge = challenge;
      peer_challenge = random;
      response = lib.nt_response self.username self.password challenge random;
    } in
    if ltb (length rest) size
    then (self, failed ms_short_challenge)
    else if not (length challenge == 16)
    then (self, failed ms_not_sixteen)
    else answer_with (record self { mschapv2 = some state }) id 26
        (challenge_answer self state ms_id)

abbrev pub expected_proof : Digests → Peer → Conversation → Bytes
expected_proof lib self state =
    lib.authenticator_response self.username self.password state.response
      state.authenticator_challenge state.peer_challenge

-- `MSCHAPV2_SUCCESS`: the gateway has to prove that it knows the password.
unfoldable pub on_ms_success : Digests → Peer → ℕ → Bytes → Option Conversation → Turn
unfolding eap_packet
on_ms_success lib self id body none = (self, failed ms_success_before_challenge)
on_ms_success lib self id body (some state) =
    let message = from_utf8_lossy body in
    let expected = expected_proof lib self state in
    if leb (length expected) (length message) && same_text (take (length expected) message) expected
    then answer_with
        (record self { msk = some (lib.master_session_key self.password state.response) }) id 26
        (3 ∷ [])
    else (self, failed proof_mismatch)

-- `data[4..ms_length.max(4)]`
abbrev pub ms_length : Bytes → ℕ
ms_length body = from_be16 (get_or body 2 0) (get_or body 3 0)

abbrev pub ms_body : Bytes → Bytes
ms_body body = take (max (ms_length body) 4 - 4) (drop 4 body)

-- `Peer::mschapv2`
unfoldable pub on_mschapv2 : Digests → Bytes → Peer → ℕ → Bytes → Turn
unfolding on_challenge on_ms_success
on_mschapv2 lib random self id body =
    let opcode = get_or body 0 0 in
    if ltb (length body) 4
    then (self, failed ms_too_short)
    else if ltb (length body) (ms_length body)
    then (self, failed ms_bad_length)
    else if opcode == 1
    then on_challenge lib random self id (get_or body 1 0) (ms_body body)
    else if opcode == 3
    then on_ms_success lib self id (ms_body body) self.mschapv2
    else if opcode == 4
    then (self, failed (ms_failed (from_utf8_lossy (ms_body body))))
    else (self, failed (ms_unexpected_opcode opcode))

abbrev pub md5_answer : Digests → Peer → ℕ → Bytes → Bytes
md5_answer lib self id challenge =
    16 ∷ (lib.md5_of (id ∷ (self.password ++ challenge)) ++ self.username)

-- MD5-Challenge: the bytes behind its size.
unfoldable pub on_md5 : Digests → Peer → ℕ → Bytes → Turn
unfolding eap_packet
on_md5 lib self id [] = (self, failed md5_empty_challenge)
on_md5 lib self id (size ∷ rest) =
    if ltb (length rest) size
    then (self, failed md5_short_challenge)
    else answer_with self id 4 (md5_answer lib self id (take size rest))

-- `Peer::request`
unfoldable pub on_request : Digests → Bytes → Peer → ℕ → ℕ → Bytes → Turn
unfolding on_mschapv2 on_md5 accepts method_type eap_packet
on_request lib random self id kind body =
    if kind == 1
    then answer_with self id 1 self.username
    else if kind == 2
    then answer_with self id 2 []
    else if kind == 26 && accepts self eap_mschapv2
    then on_mschapv2 lib random self id body
    else if kind == 4 && accepts self eap_md5
    then on_md5 lib self id body
    else if kind == 6 && accepts self eap_gtc
    then answer_with self id 6 self.password
    else if kind == 26 || kind == 4 || kind == 6
    then answer_with self id 3 (method_type self ∷ [])
    else (self, failed (unsupported_method kind))

-- Whether a success needs the proof: MSCHAPv2 is the method, or has begun.
abbrev pub needs_proof : Peer → Bool
needs_proof self = method_is self.method eap_mschapv2 || is_some self.mschapv2

unfoldable pub on_success : Peer → Turn
on_success self =
    if needs_proof self && not (is_some self.msk)
    then (self, failed success_before_proof)
    else (record self { msk = none }, done (success self.msk))

-- A packet cut to the length it says.
unfoldable pub on_packet : Digests → Bytes → Peer → Bytes → Turn
unfolding on_success on_request
on_packet lib random self packet =
    let code = get_or packet 0 0 in
    if code == 3
    then on_success self
    else if code == 4
    then (self, failed rejected_by_gateway)
    else if code == 1
    then (if ltb 4 (length packet)
        then on_request lib random self (get_or packet 1 0) (get_or packet 4 0) (drop 5 packet)
        else (self, failed request_without_type))
    else (self, failed unexpected_code)

abbrev pub eap_length : Bytes → ℕ
eap_length packet = from_be16 (get_or packet 2 0) (get_or packet 3 0)

-- `Peer::handle`
unfoldable pub handle : Digests → Bytes → Peer → Bytes → Turn
unfolding on_packet
handle lib random self packet =
    if ltb (length packet) 4
    then (self, failed packet_too_short)
    else if ltb (eap_length packet) 4 || ltb (length packet) (eap_length packet)
    then (self, failed bad_length)
    else on_packet lib random self (take (eap_length packet) packet)
