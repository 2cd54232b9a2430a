-- ===== src/Ike/Eap/Proof.antt =====
-- The peer of eap.rs takes the gateway's success for MSCHAPv2 only after the gateway's proof.
use openfortivpn_rs.Ike.Eap.{
  challenge_answer, md5_answer, method_type, new_peer, eap_packet, Auth, answer_with, Refusal,
  ms_length, eap_gtc, eap_md5, success, eap_mschapv2, needs_proof, accepts, on_packet, handle,
  on_request, on_success, on_md5, eap_length, Turn, expected_proof, on_challenge, on_mschapv2,
  on_ms_success, Conversation, Peer, ms_body, Digests,
}
use openfortivpn_rs.Text.{both_true, from_utf8_lossy, same_text}
use openfortivpn_rs.Prelude.{
  failed, Option-cases, ◌≢◌, List, done, ◌||◌, is_some, ◌++◌, length, take, get_or, ◌&&◌, inr, none,
  ◌≡◌, arith, not, if_elim, Bytes, ◌==◌, some, ltb, ◌⊎◌, ℕ, inl, refl, drop, [], leb, Option, ◌∷◌,
  ap, true, ◌∙◌, ◌∷◌, true, some, none, inr, inl, refl, ◌∷◌, [],
}

same_text-equal : (first second : Bytes) → same_text first second ≡ true → first ≡ second
same_text-equal [] [] h = refl
same_text-equal [] (b ∷ second) h = ground (arith, h)
same_text-equal (a ∷ first) [] h = ground (arith, h)
same_text-equal (a ∷ first) (b ∷ second) h =
    let heads : a ≡ b = ground (arith, h) in
    let tails : same_text first second ≡ true = ground (arith, h) in
    ap (λ x. x ∷ first) heads ∙ ap (◌∷◌ b) (same_text-equal first second tails)

-- A text that begins with what only one who knows the password can compute of the conversation, for
-- which the peer has then a key.
abbrev pub Shows : Digests → Peer → Bytes → Bytes → Type 0
Shows lib self text key =
    (state : Conversation) × (self.mschapv2 ≡ some state)
    × (take (length (expected_proof lib self state)) text ≡ expected_proof lib self state)
    × (key ≡ lib.master_session_key self.password state.response)

-- The text in a packet of MSCHAPv2.
abbrev pub text_of : Bytes → Bytes
text_of packet = from_utf8_lossy (ms_body (drop 5 (take (eap_length packet) packet)))

-- A step keeps the key, or has a new one for which the step's text is a proof; the user stays the same;
-- and a success is that of `on_success`.
abbrev Keeps : Digests → Peer → Bytes → Turn → Type 0
Keeps lib self text t =
    (t.0.username ≡ self.username)
    × (t.0.password ≡ self.password)
    × ((key : Bytes) → t.0.msk ≡ some key → (self.msk ≡ some key) ⊎ Shows lib self text key)
    × ((given : Option Bytes)
        → t.1 ≡ done (success given)
        → (on_success self).1 ≡ done (success given))

refused :
    (lib : Digests) (self : Peer) (text : Bytes) (why : Refusal)
    → Keeps lib self text (self, failed why)
refused lib self text why = (refl, refl, λ key e. inl e, λ given e. ground (arith, e))

eap_packet-ne-success :
    (code id kind : ℕ) (body : Bytes) (given : Option Bytes)
    → eap_packet code id kind body ≢ done (success given)
unfolding eap_packet
eap_packet-ne-success code id kind body given e = ground (arith, e)

replied :
    (lib : Digests) (self : Peer) (text : Bytes) (id kind : ℕ) (body : Bytes)
    → Keeps lib self text (answer_with self id kind body)
replied lib self text id kind body =
    (refl, refl, λ key e. inl e, λ given e. absurd (eap_packet-ne-success 2 id kind body given e))

module _ (lib : Digests) (self : Peer) (id : ℕ) where
  on_challenge-Keeps :
      (random : Bytes) (ms_id : ℕ) (body text : Bytes)
      → Keeps lib self text (on_challenge lib random self id ms_id body)
  unfolding on_challenge
  on_challenge-Keeps random ms_id [] text = refused lib self text _
  on_challenge-Keeps random ms_id (size ∷ rest) text =
      if_elim {A = Turn} (Keeps lib self text) (ltb (length rest) size) _ _
        (λ _. refused lib self text _)
        (λ _.
          if_elim {A = Turn} (Keeps lib self text) (not (length (take size rest) == 16)) _ _
            (λ _. refused lib self text _)
            (λ _. (
              refl,
              refl,
              λ key e. inl e,
              λ given e. absurd (
                  eap_packet-ne-success 2 id 26
                    (challenge_answer self
                      (record {
                        authenticator_challenge = take size rest;
                        peer_challenge = random;
                        response =
                            lib.nt_response self.username self.password (take size rest) random;
                      })
                      ms_id)
                    given e),
            )))

  on_ms_success-Keeps :
      (body : Bytes) (state : Option Conversation)
      → self.mschapv2 ≡ state
      → Keeps lib self (from_utf8_lossy body) (on_ms_success lib self id body state)
  unfolding on_ms_success
  on_ms_success-Keeps body none s = refused lib self (from_utf8_lossy body) _
  on_ms_success-Keeps body (some state) s =
      let text = from_utf8_lossy body in
      let expected = expected_proof lib self state in
      let front = same_text (take (length expected) text) expected in
      if_elim {A = Turn} (Keeps lib self text) (leb (length expected) (length text) && front) _ _
        (λ proved. (
          refl,
          refl,
          λ key e. inr (
            state,
            s,
            same_text-equal (take (length expected) text) expected
                (both_true (leb (length expected) (length text)) front proved).1,
            ground (arith, e),
          ),
          λ given e. absurd (eap_packet-ne-success 2 id 26 (3 ∷ []) given e),
        ))
        (λ _. refused lib self text _)

  on_mschapv2-Keeps :
      (random body : Bytes)
      → Keeps lib self (from_utf8_lossy (ms_body body)) (on_mschapv2 lib random self id body)
  unfolding on_mschapv2
  on_mschapv2-Keeps random body =
      let text = from_utf8_lossy (ms_body body) in
      let branch = if_elim {A = Turn} (Keeps lib self text) in
      branch (ltb (length body) 4) _ _ (λ _. refused lib self text _)
        (λ _.
          branch (ltb (length body) (ms_length body)) _ _ (λ _. refused lib self text _)
            (λ _.
              branch (get_or body 0 0 == 1) _ _
                (λ _. on_challenge-Keeps random (get_or body 1 0) (ms_body body) text)
                (λ _.
                  branch (get_or body 0 0 == 3) _ _
                    (λ _. on_ms_success-Keeps (ms_body body) self.mschapv2 refl)
                    (λ _.
                      branch (get_or body 0 0 == 4) _ _ (λ _. refused lib self text _)
                        (λ _. refused lib self text _)))))

  on_md5-Keeps : (body text : Bytes) → Keeps lib self text (on_md5 lib self id body)
  unfolding on_md5
  on_md5-Keeps [] text = refused lib self text _
  on_md5-Keeps (size ∷ rest) text =
      if_elim {A = Turn} (Keeps lib self text) (ltb (length rest) size) _ _
        (λ _. refused lib self text _)
        (λ _. replied lib self text id 4 (md5_answer lib self id (take size rest)))

  on_request-Keeps :
      (random : Bytes) (kind : ℕ) (body : Bytes)
      → Keeps lib self (from_utf8_lossy (ms_body body)) (on_request lib random self id kind body)
  unfolding on_request
  on_request-Keeps random kind body =
      let text = from_utf8_lossy (ms_body body) in
      let branch = if_elim {A = Turn} (Keeps lib self text) in
      branch (kind == 1) _ _ (λ _. replied lib self text id 1 self.username)
        (λ _.
          branch (kind == 2) _ _ (λ _. replied lib self text id 2 [])
            (λ _.
              branch (kind == 26 && accepts self eap_mschapv2) _ _
                (λ _. on_mschapv2-Keeps random body)
                (λ _.
                  branch (kind == 4 && accepts self eap_md5) _ _ (λ _. on_md5-Keeps body text)
                    (λ _.
                      branch (kind == 6 && accepts self eap_gtc) _ _
                        (λ _. replied lib self text id 6 self.password)
                        (λ _.
                          branch (kind == 26 || kind == 4 || kind == 6) _ _
                            (λ _. replied lib self text id 3 (method_type self ∷ []))
                            (λ _. refused lib self text _))))))

on_success-Keeps :
    (lib : Digests) (self : Peer) (text : Bytes) → Keeps lib self text (on_success self)
unfolding on_success
on_success-Keeps lib self text =
    if_elim {A = Turn} (Keeps lib self text) (needs_proof self && not (is_some self.msk)) _ _
      (λ _. refused lib self text _)
      (λ free. (refl, refl, λ key e. ground (arith, e), λ given e. ground (arith, free, e)))

on_packet-Keeps :
    (lib : Digests) (random : Bytes) (self : Peer) (packet : Bytes)
    → Keeps lib self (from_utf8_lossy (ms_body (drop 5 packet))) (on_packet lib random self packet)
unfolding on_packet
on_packet-Keeps lib random self packet =
    let text = from_utf8_lossy (ms_body (drop 5 packet)) in
    let branch = if_elim {A = Turn} (Keeps lib self text) in
    branch (get_or packet 0 0 == 3) _ _ (λ _. on_success-Keeps lib self text)
      (λ _.
        branch (get_or packet 0 0 == 4) _ _ (λ _. refused lib self text _)
          (λ _.
            branch (get_or packet 0 0 == 1) _ _
              (λ _.
                branch (ltb 4 (length packet)) _ _
                  (λ _.
                    on_request-Keeps lib self (get_or packet 1 0) random (get_or packet 4 0)
                      (drop 5 packet))
                  (λ _. refused lib self text _))
              (λ _. refused lib self text _)))

handle-Keeps :
    (lib : Digests) (random : Bytes) (self : Peer) (packet : Bytes)
    → Keeps lib self (text_of packet) (handle lib random self packet)
unfolding handle
handle-Keeps lib random self packet =
    let text = text_of packet in
    let branch = if_elim {A = Turn} (Keeps lib self text) in
    branch (ltb (length packet) 4) _ _ (λ _. refused lib self text _)
      (λ _.
        branch (ltb (eap_length packet) 4 || ltb (length packet) (eap_length packet)) _ _
          (λ _. refused lib self text _)
          (λ _. on_packet-Keeps lib random self (take (eap_length packet) packet)))

-- The peer after packets, each with the challenge that `OsRng` would fill for it.
abbrev pub run : Digests → Peer → List (Bytes × Bytes) → Peer
run lib self [] = self
run lib self (p ∷ ps) = run lib (handle lib p.0 self p.1).0 ps

-- One of the packets showed, to the peer as it was then, that the gateway knows the password.
pub record Proved (lib : Digests) (self : Peer) (ps : List (Bytes × Bytes)) (key : Bytes)
    : Type 0 where
  pub before : List (Bytes × Bytes)
  pub packet : Bytes × Bytes
  pub after : List (Bytes × Bytes)
  pub among : ps ≡ before ++ packet ∷ after
  pub shown : Shows lib (run lib self before) (text_of packet.1) key

proof_later :
    (lib : Digests) (self : Peer) (p : Bytes × Bytes) (ps : List (Bytes × Bytes)) (key : Bytes)
    → Proved lib (handle lib p.0 self p.1).0 ps key
    → Proved lib self (p ∷ ps) key
proof_later lib self p ps key h = record {
  before = p ∷ h.before;
  packet = h.packet;
  after = h.after;
  among = ap (◌∷◌ p) h.among;
  shown = h.shown;
}

proof_now :
    (lib : Digests) (self : Peer) (p : Bytes × Bytes) (ps : List (Bytes × Bytes)) (key : Bytes)
    → Shows lib self (text_of p.1) key
    → Proved lib self (p ∷ ps) key
proof_now lib self p ps key h = record {
  before = [];
  packet = p;
  after = ps;
  among = refl;
  shown = h;
}

run-Proved :
    (lib : Digests) (self : Peer) (ps : List (Bytes × Bytes)) (key : Bytes)
    → (run lib self ps).msk ≡ some key
    → (self.msk ≡ some key) ⊎ Proved lib self ps key
run-Proved lib self [] key e = inl e
run-Proved lib self (p ∷ ps) key e = elim (run-Proved lib (handle lib p.0 self p.1).0 ps key e) [
  | inl now ↦ elim ((handle-Keeps lib p.0 self p.1).2 key now) [
    | inl old ↦ inl old
    | inr shown ↦ inr (proof_now lib self p ps key shown)
  ]
  | inr later ↦ inr (proof_later lib self p ps key later)
]

success_had_key :
    (self : Peer) (given : Option Bytes)
    → needs_proof self ≡ true
    → (on_success self).1 ≡ done (success given)
    → (key : Bytes) × (given ≡ some key) × (self.msk ≡ some key)
unfolding on_success
success_had_key self given n e = elim (Option-cases self.msk) [
  | inl nothing ↦ absurd (ground (arith, n, nothing, e))
  | inr key ↦ (key.0, ground (arith, key.1, e), key.1)
]

-- A new peer that has had any packets, and for which MSCHAPv2 is the method or has begun, takes a packet
-- for success only if one of the packets before proved, for the conversation of then, that the gateway
-- knows the password, and it gives the key of that conversation.
pub handle-Proved :
    (lib : Digests) (method : Option Auth) (username password : Bytes) (ps : List (Bytes × Bytes))
    (random packet : Bytes) (given : Option Bytes)
    → needs_proof (run lib (new_peer method username password) ps) ≡ true
    → (handle lib random (run lib (new_peer method username password) ps) packet).1
      ≡ done (success given)
    → (key : Bytes) × (given ≡ some key) × Proved lib (new_peer method username password) ps key
handle-Proved lib method username password ps random packet given n e =
    let start = new_peer method username password in
    let self = run lib start ps in
    let k = success_had_key self given n ((handle-Keeps lib random self packet).3 given e) in
    elim (run-Proved lib start ps k.0 k.2) [
      | inl old ↦ absurd (ground (arith, old))
      | inr proved ↦ (k.0, k.1, proved)
    ]
