-- ===== src/Ppp/Fsm/Refusing.antt =====
-- What a layer of ppp.rs answers to a Configure-Request with options that have no place in the link.
use openfortivpn_rs.Ppp.Fsm.{is_opened, send_packet, Turn, Fsm}
use openfortivpn_rs.Ppp.Types.{conf_rej, parse_all, Opt, rej, Verdict, Layer}
use openfortivpn_rs.Prelude.{
  if◌then◌else◌, ◌∷◌, Bool, List, some, [], refl, ℕ, ◌≡◌, ◌+◌, false, Bytes, none, true, false,
  true, some, none, refl, ◌∷◌, [],
}

abbrev is_rej : Verdict → Bool
is_rej rej = true
is_rej _ = false

module _ {L : Type 0} (layer : Layer L) where
  -- The options that the layer rejects, in their order.
  abbrev pub rejected : (ℕ → ℕ) → L → List Opt → List Opt
  rejected rand l [] = []
  rejected rand l (o ∷ os) =
      let later = rejected (λ n. rand (n + 1)) l os in
      if is_rej (layer.review (rand 0) l o) then o ∷ later else later

  -- One Configure-Reject of these options, and the layer is not open.
  abbrev pub IsRejection : Fsm L → ℕ → List Opt → Turn L → Type 0
  IsRejection f id back t =
      (sent : Bytes) × (t.actions ≡ send_packet layer.protocol conf_rej id sent ∷ [])
      × (parse_all sent ≡ some back)
      × (t.outcome ≡ none)
      × (is_opened t.fsm.state ≡ false)
      × (t.fsm.layer ≡ f.layer)
      × (t.fsm.timer ≡ f.timer)
