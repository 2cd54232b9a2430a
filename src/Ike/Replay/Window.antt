-- ===== src/Ike/Replay/Window.antt =====
-- The anti-replay window of child.rs beside the list of all numbers that it let through.
use openfortivpn_rs.Prelude.{
  if_elim, if◌then◌else◌, length, false, ◌<◌, ◌≤◌, ◌-◌, inl, ◌&&◌, arith, [], Bool-cases, ℕ, Bool,
  refl, ◌∷◌, ◌+◌, sym, ap, ◌==◌, true, max, not, ltb, leb, ◌∙◌, inr, List, ◌||◌, ◌≡◌, false, true,
  inr, inl, refl, ◌∷◌, [],
}
use openfortivpn_rs.Ike.Replay.{
  Replay, replay_window, clear_bits, bit, shift_left, set_bit, fresh, accept,
}
use openfortivpn_rs.Ike.Replay.Bits.{
  bit-clear_bits, length-set_bit, length-shift_left, bit-set_bit, bit-shift_left,
}

abbrev pub is_in : ℕ → List ℕ → Bool
is_in n [] = false
is_in n (m ∷ ms) = n == m || is_in n ms

abbrev pub greatest : List ℕ → ℕ
greatest [] = 0
greatest (m ∷ ms) = max m (greatest ms)

-- What the window promises: a sequence number is let through if it is not 0, was not let through
-- before, and is less than 64 behind the greatest that was.
abbrev pub is_new : List ℕ → ℕ → Bool
is_new seen seq =
    not (seq == 0) && not (is_in seq seen) && ltb (greatest seen) (seq + replay_window)

abbrev pub remember : List ℕ → ℕ → List ℕ
remember seen seq = if is_new seen seq then seq ∷ seen else seen

-- The answers of the promise, and those of the code, to numbers one after the other.
abbrev pub promised : List ℕ → List ℕ → List Bool
promised seen [] = []
promised seen (seq ∷ seqs) = is_new seen seq ∷ promised (remember seen seq) seqs

abbrev pub answers : Replay → List ℕ → List Bool
answers r [] = []
answers r (seq ∷ seqs) = let (r', answer) = accept r seq in answer ∷ answers r' seqs

-- The window shows the numbers seen.
pub record Shows (r : Replay) (seen : List ℕ) : Type 0 where
  pub highest_is : r.highest ≡ greatest seen
  pub size : length r.window ≡ replay_window
  pub no_zero : is_in 0 seen ≡ false
  pub bits : (n : ℕ) → n < replay_window → bit r.window n ≡ is_in (r.highest - n) seen

is_in-greatest : (n : ℕ) (seen : List ℕ) → greatest seen < n → is_in n seen ≡ false
is_in-greatest n [] h = refl
is_in-greatest n (m ∷ ms) h = ground (arith, is_in-greatest n ms (omega arith))

-- A number past the greatest moves the window.
abbrev moved : Replay → ℕ → List Bool
moved r seq =
    let shift = seq - r.highest in
    if leb replay_window shift then clear_bits 64 else shift_left r.window shift

length-moved :
    (r : Replay) (seq : ℕ) → length r.window ≡ replay_window → length (moved r seq) ≡ replay_window
length-moved r seq h = ground (arith, length-shift_left r.window (seq - r.highest))

bit-moved :
    (r : Replay) (seen : List ℕ) (seq n : ℕ)
    → Shows r seen
    → r.highest < seq
    → 0 < n
    → n < replay_window
    → bit (moved r seq) n ≡ is_in (seq - n) seen
bit-moved r seen seq n s h p k =
    let above = is_in-greatest (seq - n) seen in
    let shifted = bit-shift_left r.window (seq - r.highest) n (omega (arith, s.size)) in
    let kept = s.bits (n - (seq - r.highest)) (omega arith) in
    elim (Bool-cases (leb replay_window (seq - r.highest))) [
      | inl far ↦ rw far (bit-clear_bits 64 n ∙ sym (above (ground (arith, s.highest_is))))
      | inr near ↦ rw near (
          shifted
          ∙ if_elim (λ b. b ≡ is_in (seq - n) seen) (ltb n (seq - r.highest)) false _
              (λ e. sym (above (ground (arith, s.highest_is))))
              (λ e. kept ∙ ap (λ m. is_in m seen) (ground arith)))
    ]

-- The answer to a number, and the window after it.
pub record Refines (r : Replay) (seen : List ℕ) (seq : ℕ) (result : Replay × Bool) : Type 0 where
  pub answer : result.1 ≡ is_new seen seq
  pub shows : Shows result.0 (remember seen seq)

accept_ahead :
    (r : Replay) (seen : List ℕ) (seq : ℕ)
    → Shows r seen
    → r.highest < seq
    → Refines r seen seq (record { highest = seq; window = set_bit (moved r seq) 0 }, true)
accept_ahead r seen seq s h =
    let unseen = is_in-greatest seq seen (omega (arith, s.highest_is)) in
    let new : is_new seen seq ≡ true = ground (arith, s.highest_is) in
    record {
      answer = sym new;
      shows = rw new (record {
        highest_is = omega (arith, s.highest_is);
        size = length-set_bit (moved r seq) 0 ∙ length-moved r seq s.size;
        no_zero = ground (arith, s.no_zero);
        bits = λ n k.
            bit-set_bit (moved r seq) 0 n (omega (arith, length-moved r seq s.size))
            ∙ ground (arith, bit-moved r seen seq n s h);
      });
    }

accept_behind :
    (r : Replay) (seen : List ℕ) (seq : ℕ)
    → Shows r seen
    → 0 < seq
    → seq ≤ r.highest
    → r.highest - seq < replay_window
    → bit r.window (r.highest - seq) ≡ false
    → Refines r seen seq (record r { window = set_bit r.window (r.highest - seq) }, true)
accept_behind r seen seq s p h k b =
    let behind = r.highest - seq in
    let same : r.highest - behind ≡ seq = omega arith in
    let unseen : is_in seq seen ≡ false =
      ap (λ m. is_in m seen) (sym same) ∙ sym (s.bits behind k) ∙ b in
    let new : is_new seen seq ≡ true = ground (arith, s.highest_is) in
    record {
      answer = sym new;
      shows = rw new (record {
        highest_is = omega (arith, s.highest_is);
        size = length-set_bit r.window behind ∙ s.size;
        no_zero = ground (arith, s.no_zero);
        bits = λ n j.
            bit-set_bit r.window behind n (omega (arith, s.size)) ∙ ground (arith, s.bits n j);
      });
    }

refused :
    (r : Replay) (seen : List ℕ) (seq : ℕ)
    → Shows r seen
    → is_new seen seq ≡ false
    → Refines r seen seq (r, false)
refused r seen seq s e = record { answer = sym e; shows = rw e s }

pub accept-Refines :
    (r : Replay) (seen : List ℕ) (seq : ℕ) → Shows r seen → Refines r seen seq (accept r seq)
unfolding accept
accept-Refines r seen seq s =
    if_elim (Refines r seen seq) (seq == 0) _ _ (λ zero_. refused r seen seq s (ground arith))
      (λ positive.
        if_elim (Refines r seen seq) (ltb r.highest seq) _ _
          (λ ahead. accept_ahead r seen seq s (ground arith))
          (λ not_ahead.
            let same : r.highest - (r.highest - seq) ≡ seq = ground arith in
            if_elim (Refines r seen seq) (leb replay_window (r.highest - seq)) _ _
              (λ far. refused r seen seq s (ground (arith, s.highest_is)))
              (λ near.
                if_elim (Refines r seen seq) (bit r.window (r.highest - seq)) _ _
                  (λ set.
                    refused r seen seq s
                      (ground (arith, ap (λ m. is_in m seen) same, s.bits (r.highest - seq))))
                  (λ clear.
                    accept_behind r seen seq s (ground arith) (ground arith) (ground arith)
                      clear))))

answers-promised :
    (seqs : List ℕ) (r : Replay) (seen : List ℕ)
    → Shows r seen
    → answers r seqs ≡ promised seen seqs
answers-promised [] r seen s = refl
answers-promised (seq ∷ seqs) r seen s =
    let step = accept-Refines r seen seq s in
    rw (step.answer, answers-promised seqs (accept r seq).0 (remember seen seq) step.shows) refl

pub fresh-Shows : Shows fresh []
fresh-Shows = record {
  highest_is = refl;
  size = refl;
  no_zero = refl;
  bits = λ n k. bit-clear_bits 64 n;
}

-- Whatever sequence numbers come, from a new window on, the answers of the window are those of the
-- promise, which keeps every number that was let through: 64 bits and one number decide as well.
pub answers_refine : (seqs : List ℕ) → answers fresh seqs ≡ promised [] seqs
answers_refine seqs = answers-promised seqs fresh [] fresh-Shows
