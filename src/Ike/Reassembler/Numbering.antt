-- ===== src/Ike/Reassembler/Numbering.antt =====
-- The fragments kept by a `Reassembler` of message/mod.rs, in the order of their numbers.
use openfortivpn_rs.Prelude.{
  ◌≤◌, List, ◌≢◌, [], ◌==◌, ℕ, ◌<◌, ◌++◌, Bytes, length, if_elim, zero, ◌+◌, arith, ◌∷◌, suc, ltb,
  refl, ◌≡◌, refl, suc, zero, ◌∷◌, [],
}
use openfortivpn_rs.Ike.Reassembler.{insert, values}

-- Fragments in order, of a message that has `chunk n` as its fragment `n`, up to `total`.
abbrev pub Ordered : (ℕ → Bytes) → ℕ → ℕ → List (ℕ × Bytes) → Type 0
Ordered chunk total low [] = Unit
Ordered chunk total low (f ∷ fs) =
    (low ≤ f.0) × (f.0 ≤ total) × (f.1 ≡ chunk f.0) × Ordered chunk total (f.0 + 1) fs

abbrev pub Missing : ℕ → List (ℕ × Bytes) → Type 0
Missing n [] = Unit
Missing n (f ∷ fs) = (f.0 ≢ n) × Missing n fs

-- The fragments `low`, `low + 1` and so on, as many as `count`.
abbrev pub joined : (ℕ → Bytes) → ℕ → ℕ → Bytes
joined chunk low zero = []
joined chunk low (suc count) = chunk low ++ joined chunk (low + 1) count

module _ (chunk : ℕ → Bytes) (total : ℕ) where
  pub insert-Ordered :
      (low n : ℕ) (fs : List (ℕ × Bytes))
      → low ≤ n
      → n ≤ total
      → Ordered chunk total low fs
      → Ordered chunk total low (insert n (chunk n) fs)
  unfolding insert
  insert-Ordered low n [] h k o = (h, k, refl, tt)
  insert-Ordered low n (f ∷ fs) h k o =
      if_elim (Ordered chunk total low) (ltb n f.0) _ _ (λ e. (h, k, refl, ground (arith, o)))
        (λ e.
          if_elim (Ordered chunk total low) (n == f.0) _ _ (λ e'. ground (arith, o))
            (λ e'. (o.0, o.1, o.2, insert-Ordered (f.0 + 1) n fs (ground arith) k o.3)))

  pub length-Ordered :
      (low : ℕ) (fs : List (ℕ × Bytes))
      → low ≤ total + 1
      → Ordered chunk total low fs
      → length fs + low ≤ total + 1
  length-Ordered low [] h o = omega arith
  length-Ordered low (f ∷ fs) h o =
      omega (arith, length-Ordered (f.0 + 1) fs (omega (arith, o.1)) o.3, o.0)

  -- As many fragments as there are numbers left are all of them.
  pub values-Ordered :
      (low : ℕ) (fs : List (ℕ × Bytes))
      → length fs + low ≡ total + 1
      → Ordered chunk total low fs
      → values fs ≡ joined chunk low (length fs)
  unfolding values
  values-Ordered low [] h o = refl
  values-Ordered low (f ∷ fs) h o =
      let rest = length-Ordered (f.0 + 1) fs (omega (arith, o.1)) o.3 in
      let first : f.0 ≡ low = omega (arith, o.0) in
      let others = values-Ordered (f.0 + 1) fs (omega arith) o.3 in rw (o.2, others, first) refl

pub length-insert :
    (n : ℕ) (v : Bytes) (fs : List (ℕ × Bytes))
    → Missing n fs
    → length (insert n v fs) ≡ length fs + 1
unfolding insert
length-insert n v [] h = refl
length-insert n v (f ∷ fs) h = ground (arith, length-insert n v fs h.1, h.0)

pub insert-Missing :
    (m n : ℕ) (v : Bytes) (fs : List (ℕ × Bytes)) → n ≢ m → Missing m fs → Missing m (insert n v fs)
unfolding insert
insert-Missing m n v [] d h = (d, tt)
insert-Missing m n v (f ∷ fs) d h = ground (arith, insert-Missing m n v fs d h.1, h, d)

-- The number of the first fragment kept.
abbrev pub lowest : List (ℕ × Bytes) → ℕ
lowest [] = 0
lowest (f ∷ fs) = f.0

pub lowest-insert :
    (n : ℕ) (v : Bytes) (fs : List (ℕ × Bytes)) → 1 < n → lowest (insert n v fs) ≡ 1 → lowest fs ≡ 1
unfolding insert
lowest-insert n v [] h e = absurd (omega arith)
lowest-insert n v (f ∷ fs) h e = ground arith
