-- ===== src/Ike/Replay/Once.antt =====
-- The sequence numbers that the window of child.rs lets through.
use openfortivpn_rs.Prelude.{
  if◌then◌else◌, List, ◌≡◌, ◌∷◌, Bool-cases, refl, inr, inl, false, ℕ, arith, [], ◌∙◌, All, false,
  inr, inl, refl, ◌∷◌, [],
}
use openfortivpn_rs.Ike.Replay.{Replay, fresh, accept}
use openfortivpn_rs.Ike.Replay.Window.{is_in, is_new, Shows, accept-Refines, fresh-Shows}

abbrev pub accepted : Replay → List ℕ → List ℕ
accepted r [] = []
accepted r (seq ∷ seqs) =
    let (r', answer) = accept r seq in
    let rest = accepted r' seqs in if answer then seq ∷ rest else rest

abbrev pub NoRepeat : List ℕ → Type 0
NoRepeat [] = Unit
NoRepeat (n ∷ ns) = (is_in n ns ≡ false) × NoRepeat ns

abbrev Unseen : List ℕ → List ℕ → Type 0
Unseen seen = All (λ n. is_in n seen ≡ false)

Unseen-later :
    (seq : ℕ) (seen ns : List ℕ) → Unseen (seq ∷ seen) ns → (is_in seq ns ≡ false) × Unseen seen ns
Unseen-later seq seen [] h = (refl, tt)
Unseen-later seq seen (n ∷ ns) h =
    let rest = Unseen-later seq seen ns h.1 in
    (ground (arith, h.0, rest.0), (ground (arith, h.0), rest.1))

accepted-NoRepeat :
    (seqs : List ℕ) (r : Replay) (seen : List ℕ)
    → Shows r seen
    → Unseen seen (accepted r seqs) × NoRepeat (accepted r seqs)
accepted-NoRepeat [] r seen s = (tt, tt)
accepted-NoRepeat (seq ∷ seqs) r seen s =
    let step = accept-Refines r seen seq s in
    let r' = (accept r seq).0 in
    elim (Bool-cases (is_new seen seq)) [
      | inl new ↦
          let shows : Shows r' (seq ∷ seen) = rw new at step.shows in
          let later = accepted-NoRepeat seqs r' (seq ∷ seen) shows in
          let apart = Unseen-later seq seen (accepted r' seqs) later.0 in
          rw (step.answer ∙ new) ((ground arith, apart.1), (apart.0, later.1))
      | inr old ↦
          let shows : Shows r' seen = rw old at step.shows in
          rw (step.answer ∙ old) (accepted-NoRepeat seqs r' seen shows)
    ]

-- Whatever sequence numbers come, from a new window on, none is let through twice.
pub accepted_once : (seqs : List ℕ) → NoRepeat (accepted fresh seqs)
accepted_once seqs = (accepted-NoRepeat seqs fresh [] fresh-Shows).1
