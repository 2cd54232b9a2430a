-- ===== src/Ike/Eap/Tests.antt =====
-- The peer of eap.rs with digests that are simple enough to compute.
use openfortivpn_rs.Ike.Eap.Proof.{handle-Proved, Proved}
use openfortivpn_rs.Text.{turn, lead}
use openfortivpn_rs.Ike.Eap.{eap_mschapv2, new_peer, success_before_proof, Digests, handle, Peer}
use openfortivpn_rs.Prelude.{
  some, failed, ◌∷◌, zeros, List, Bytes, ◌≡◌, refl, [], some, refl, ◌∷◌, [],
}

abbrev simple : Digests
simple = record {
  md5_of = λ m. [];
  nt_response = λ username password authenticator peer. zeros 24;
  authenticator_response = λ username password response authenticator peer. 83 ∷ 61 ∷ [];
  master_session_key = λ password response. 9 ∷ [];
}

-- A challenge of MSCHAPv2, then the gateway's proof.
abbrev packets : List (Bytes × Bytes)
packets =
    (zeros 16, 1 ∷ 1 ∷ 0 ∷ 26 ∷ 26 ∷ 1 ∷ 7 ∷ 0 ∷ 21 ∷ 16 ∷ zeros 16)
    ∷ ([], 1 ∷ 2 ∷ 0 ∷ 11 ∷ 26 ∷ 3 ∷ 7 ∷ 0 ∷ 6 ∷ 83 ∷ 61 ∷ [])
    ∷ []

abbrev user : Peer
user = new_peer (some eap_mschapv2) (117 ∷ []) (112 ∷ [])

handle-Proved_example : (key : Bytes) × (some (9 ∷ []) ≡ some key) × Proved simple user packets key
unfolding handle lead turn
handle-Proved_example =
    handle-Proved simple (some eap_mschapv2) (117 ∷ []) (112 ∷ []) packets [] (3 ∷ 3 ∷ 0 ∷ 4 ∷ [])
      (some (9 ∷ [])) refl refl

-- Without the proof, success is refused.
unproved : (handle simple [] user (3 ∷ 3 ∷ 0 ∷ 4 ∷ [])).1 ≡ failed success_before_proof
unfolding handle
unproved = refl
