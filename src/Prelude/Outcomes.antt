-- ===== src/Prelude/Outcomes.antt =====
-- `Result<T, E>` of Rust, for any type of errors, with `Result::and_then` and the `?` operator.
use mathlib.Core.Path.{subst, ◌≡◌, refl}
use mathlib.Core.Logic.{◌⊎◌, inl, inr}

pub data Outcome {κ ℓ} (E : Type κ) (T : Type ℓ) : Type (κ ⊔ ℓ) where
  failed : E → Outcome E T
  done : T → Outcome E T

infixl 5 ◌followed_by◌
abbrev pub ◌followed_by◌ {ι κ ℓ} :
    {E : Type ι} {T : Type κ} {U : Type ℓ} → Outcome E T → (T → Outcome E U) → Outcome E U
(failed why) followed_by next = failed why
(done value) followed_by next = next value

pub Outcome-cases {κ ℓ} :
    {E : Type κ} {T : Type ℓ} (r : Outcome E T)
    → ((why : E) × (r ≡ failed why)) ⊎ ((value : T) × (r ≡ done value))
Outcome-cases (failed why) = inl (why, refl)
Outcome-cases (done value) = inr (value, refl)

-- What is given, if something is, has the property.
abbrev pub Gives {ι κ ℓ} : {E : Type ι} {T : Type κ} → (T → Type ℓ) → Outcome E T → Type ℓ
Gives P (failed why) = Unit
Gives P (done value) = P value

pub Gives-followed_by {ι κ ℓ η θ} :
    {E : Type ι} {T : Type κ} {U : Type ℓ} (P : T → Type η) (Q : U → Type θ) (r : Outcome E T)
    (next : T → Outcome E U)
    → Gives P r
    → ((value : T) → P value → Gives Q (next value))
    → Gives Q (r followed_by next)
Gives-followed_by P Q (failed why) next h k = tt
Gives-followed_by P Q (done value) next h k = k value h

pub Gives-done {ι κ ℓ} :
    {E : Type ι} {T : Type κ} (P : T → Type ℓ) (r : Outcome E T) (value : T)
    → Gives P r
    → r ≡ done value
    → P value
Gives-done P r value h e = subst (Gives P) e h
