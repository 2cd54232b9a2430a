-- ===== src/Ike/Replay/Tests.antt =====
-- The anti-replay window of child.rs, at the numbers of its own test.
use openfortivpn_rs.Prelude.{refl, ◌∷◌, List, ◌≡◌, [], ℕ, refl, ◌∷◌, []}
use openfortivpn_rs.Ike.Replay.{set_bit, shift_left, accept, fresh}
use openfortivpn_rs.Ike.Replay.Window.{answers, promised, answers_refine}
use openfortivpn_rs.Ike.Replay.Once.{accepted, NoRepeat, accepted_once}

abbrev numbers : List ℕ
numbers = 0 ∷ 5 ∷ 3 ∷ 3 ∷ 100 ∷ 5 ∷ 99 ∷ 36 ∷ 37 ∷ []

answers_refine_example : answers fresh numbers ≡ promised [] numbers
answers_refine_example = answers_refine numbers

accepted_once_example : NoRepeat (accepted fresh numbers)
accepted_once_example = accepted_once numbers

accepted-numbers : accepted fresh numbers ≡ 5 ∷ 3 ∷ 100 ∷ 99 ∷ 37 ∷ []
unfolding accept shift_left set_bit
accepted-numbers = refl
