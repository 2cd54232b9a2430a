-- ===== src/Ike/Replay/Bits.antt =====
-- The bits of a window of child.rs after a shift, and after one is set.
use openfortivpn_rs.Prelude.{
  take, if◌then◌else◌, length, arith, ◌++◌, zero, ◌||◌, suc, ◌-◌, ltb, [], ap, false, ◌<◌, List,
  length-append, Bool, ℕ, refl, ◌==◌, ◌≡◌, ◌∙◌, ◌∷◌, length-take, false, refl, suc, zero, ◌∷◌, [],
}
use openfortivpn_rs.Ike.Replay.{clear_bits, bit, shift_left, set_bit}

pub bit-clear_bits : (m n : ℕ) → bit (clear_bits m) n ≡ false
bit-clear_bits zero n = refl
bit-clear_bits (suc m) zero = refl
bit-clear_bits (suc m) (suc n) = bit-clear_bits m n

pub length-clear_bits : (m : ℕ) → length (clear_bits m) ≡ m
length-clear_bits zero = refl
length-clear_bits (suc m) = ap suc (length-clear_bits m)

pub length-set_bit : (w : List Bool) (n : ℕ) → length (set_bit w n) ≡ length w
unfolding set_bit
length-set_bit [] n = refl
length-set_bit (b ∷ w) zero = refl
length-set_bit (b ∷ w) (suc n) = ap suc (length-set_bit w n)

pub length-shift_left : (w : List Bool) (k : ℕ) → length (shift_left w k) ≡ length w
unfolding shift_left
length-shift_left w k =
    omega (arith, length-take (length w) (clear_bits k ++ w), length-append (clear_bits k) w)

pub bit-set_bit :
    (w : List Bool) (m n : ℕ) → m < length w → bit (set_bit w m) n ≡ (n == m || bit w n)
unfolding set_bit
bit-set_bit [] m n h = absurd (omega arith)
bit-set_bit (b ∷ w) zero zero h = refl
bit-set_bit (b ∷ w) zero (suc n) h = ground arith
bit-set_bit (b ∷ w) (suc m) zero h = ground arith
bit-set_bit (b ∷ w) (suc m) (suc n) h = bit-set_bit w m n (omega arith) ∙ ground arith

bit-take : (k n : ℕ) (w : List Bool) → n < k → bit (take k w) n ≡ bit w n
bit-take zero n w h = absurd (omega arith)
bit-take (suc k) n [] h = refl
bit-take (suc k) zero (b ∷ w) h = refl
bit-take (suc k) (suc n) (b ∷ w) h = bit-take k n w (omega arith)

bit-clear_bits-append :
    (k n : ℕ) (w : List Bool)
    → bit (clear_bits k ++ w) n ≡ (if ltb n k then false else bit w (n - k))
bit-clear_bits-append zero n w = ground arith
bit-clear_bits-append (suc k) zero w = ground arith
bit-clear_bits-append (suc k) (suc n) w = bit-clear_bits-append k n w ∙ ground arith

pub bit-shift_left :
    (w : List Bool) (k n : ℕ)
    → n < length w
    → bit (shift_left w k) n ≡ (if ltb n k then false else bit w (n - k))
unfolding shift_left
bit-shift_left w k n h = bit-take (length w) n (clear_bits k ++ w) h ∙ bit-clear_bits-append k n w
