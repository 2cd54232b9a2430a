-- ===== src/Ppp/Fsm/Handlers.antt =====
-- `Fsm::input` of ppp.rs by the handler that takes the packet.
use openfortivpn_rs.Ppp.Types.{
  code_rej, term_req, terminated, term_ack, conf_rej, conf_nak, conf_ack, conf_req, Layer,
}
use openfortivpn_rs.Prelude.{
  not, arith, ◌==◌, ◌||◌, ◌&&◌, if_elim, ◌⊎◌, ◌≡◌, Bytes, ℕ, false, none, ◌∷◌, [],
}
use openfortivpn_rs.Ppp.Fsm.{
  send_packet, is_closing, Fsm, Turn, input, turn, finish, on_request, on_ack, on_nak_or_rej,
  term_ack_in, on_code_reject, on_unknown,
}

module _ {ℓ} {L : Type 0} (layer : Layer L) (P : Turn L → Type ℓ) where
  pub input-cases :
      (rand : ℕ → ℕ) (f : Fsm L) (code id : ℕ) (bytes : Bytes) (now : ℕ)
      → P (turn layer f [] none)
      → (is_closing f.state ≡ false → code ≡ conf_req → P (on_request layer rand f id bytes))
      → (is_closing f.state ≡ false → code ≡ conf_ack → P (on_ack layer f id))
      → (is_closing f.state ≡ false
          → (code ≡ conf_nak) ⊎ (code ≡ conf_rej)
          → P (on_nak_or_rej layer f code id bytes now))
      → P (finish layer f (send_packet layer.protocol term_ack id [] ∷ []) (terminated layer.name))
      → P (term_ack_in layer f.state f)
      → P (on_code_reject layer f bytes)
      → P (on_unknown layer f code id bytes)
      → P (input layer rand f code id bytes now)
  unfolding input
  input-cases rand f code id bytes now ignored request acked refused ended term_acked rejected
        unknown =
      if_elim P (is_closing f.state && not (code == term_ack) && not (code == term_req)) _ _
        (λ _. ignored)
        λ c.
          if_elim P (code == conf_req) _ _ (λ e. request (ground arith) (ground arith))
            λ e₁.
              if_elim P (code == conf_ack) _ _ (λ e. acked (ground arith) (ground arith))
                λ e₂.
                  if_elim P (code == conf_nak || code == conf_rej) _ _
                    (λ e. refused (ground arith) (ground arith))
                    λ e₃.
                      if_elim P (code == term_req) _ _ (λ e. ended)
                        λ e₄.
                          if_elim P (code == term_ack) _ _ (λ e. term_acked)
                            λ e₅. if_elim P (code == code_rej) _ _ (λ e. rejected) (λ e. unknown)
